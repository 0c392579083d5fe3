-- ===== src/Gateways.antt =====
-- agent/src/wireguard.rs and agent/src/singbox.rs: the two gateways of one router, whose updates look
-- at each other's settings file.
mod Tests
use mu5250_wireguard.Base.{
  ℕ, zero, suc, ◌+◌, ◌-◌, ◌*◌, ◌/◌, ◌%◌, ◌^◌, ◌≤◌, ◌<◌, ◌≡◌, ◌≢◌, ◌↔◌, ◌⊎◌, inl, inr, ◌∙◌, refl,
  sym, ap, subst, Bool, true, false, not, ◌&&◌, ◌||◌, Option, none, some, List, [], ◌∷◌, ◌++◌, map,
  ◌==◌, if◌then◌else◌, arith, Text, codes, text_eq, Result, ok, err, leb, ltb, length, any, all,
  find, retain, All, Bool-cases, Option-cases, Result-cases,
}
use mu5250_wireguard.Singbox.Edits.{Update as SingboxUpdate}
use mu5250_wireguard.Singbox.Gateway.{
  Device as SingboxDevice, Codec as SingboxCodec, update as update_singbox,
}
use mu5250_wireguard.Singbox.Gateway.Quiet.{Laws as SingboxLaws}
use mu5250_wireguard.Singbox.Gateway.Laws.{
  enabled as singbox_enabled, IsFaithful as IsSingboxFaithful, update_singbox-exclusive,
}
use mu5250_wireguard.Wireguard.Edits.{Update as WireguardUpdate}
use mu5250_wireguard.Wireguard.Gateway.{
  Device as WireguardDevice, Codec as WireguardCodec, update as update_wireguard,
}
use mu5250_wireguard.Wireguard.Gateway.Laws.{Laws as WireguardLaws}
use mu5250_wireguard.Wireguard.Gateway.Saved.{
  enabled as wireguard_enabled, IsFaithful as IsWireguardFaithful, update_wireguard-exclusive,
}

-- Updates of either gateway, one after the other, in any order: `GATE` admits one at a time.
pub data Updates {W : Type 0} (sc : SingboxCodec) (sd : SingboxDevice W) (wc : WireguardCodec)
    (wd : WireguardDevice W) : W → W → Type 0 where
  done : (w : W) → Updates sc sd wc wd w w
  then_singbox :
      (w v : W) (u : SingboxUpdate)
      → Updates sc sd wc wd w v
      → Updates sc sd wc wd w (update_singbox sc sd u v).1
  then_wireguard :
      (w v : W) (u : WireguardUpdate)
      → Updates sc sd wc wd w v
      → Updates sc sd wc wd w (update_wireguard wc wd u v).1

module _ {W : Type 0} (sc : SingboxCodec) (sd : SingboxDevice W) (wc : WireguardCodec)
    (wd : WireguardDevice W) where
  -- Each gateway sees the other by its settings file.
  pub record IsLinked : Type 0 where
    pub singbox_sees : (w : W) → (sd.files w).other ≡ wireguard_enabled wc (wd.files w).config
    pub wireguard_sees : (w : W) → (wd.files w).other ≡ singbox_enabled sc (sd.files w).config

  abbrev pub AreExclusive : W → Type 0
  AreExclusive w =
      (singbox_enabled sc (sd.files w).config && wireguard_enabled wc (wd.files w).config) ≡ false

  module _ (linked : IsLinked) (sl : SingboxLaws sd) (wl : WireguardLaws wd)
      (sf : IsSingboxFaithful sc) (wf : IsWireguardFaithful wc) where
    and_comm : (a b : Bool) → (a && b) ≡ false → (b && a) ≡ false
    and_comm a b h = ground (arith, h)

    singbox-exclusive :
        (u : SingboxUpdate) (w : W) → AreExclusive w → AreExclusive (update_singbox sc sd u w).1
    singbox-exclusive u w h =
        let v = (update_singbox sc sd u w).1 in
        let before : (singbox_enabled sc (sd.files w).config && (sd.files w).other) ≡ false =
          subst (λ o. (singbox_enabled sc (sd.files w).config && o) ≡ false)
            (sym (linked.singbox_sees w)) h in
        let (after, _) = update_singbox-exclusive sc sd sl sf u w before in
        subst (λ o. (singbox_enabled sc (sd.files v).config && o) ≡ false) (linked.singbox_sees v)
          after

    wireguard-exclusive :
        (u : WireguardUpdate) (w : W) → AreExclusive w → AreExclusive (update_wireguard wc wd u w).1
    wireguard-exclusive u w h =
        let v = (update_wireguard wc wd u w).1 in
        let turned = and_comm (singbox_enabled sc (sd.files w).config) _ h in
        let before : (wireguard_enabled wc (wd.files w).config && (wd.files w).other) ≡ false =
          subst (λ o. (wireguard_enabled wc (wd.files w).config && o) ≡ false)
            (sym (linked.wireguard_sees w)) turned in
        let (after, _) = update_wireguard-exclusive wc wd wl wf u w before in
        and_comm (wireguard_enabled wc (wd.files v).config) _ (
          subst (λ o. (wireguard_enabled wc (wd.files v).config && o) ≡ false)
            (linked.wireguard_sees v) after)

    -- On a router on which both gateways keep their laws, see each other by the saved settings, and
    -- read what they write: after any sequence of updates of either, of which any may fail at any
    -- point, the settings files do not both enable their gateway, if they did not before.
    pub Updates-exclusive : {w v : W} → Updates sc sd wc wd w v → AreExclusive w → AreExclusive v
    Updates-exclusive (done w) h = h
    Updates-exclusive (then_singbox w v u us) h = singbox-exclusive u v (Updates-exclusive us h)
    Updates-exclusive (then_wireguard w v u us) h = wireguard-exclusive u v (Updates-exclusive us h)
