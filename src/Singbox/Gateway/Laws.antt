-- ===== src/Singbox/Gateway/Laws.antt =====
-- agent/src/singbox.rs: an update never loses a configuration that the saved settings need, but for
-- one kind of failure, and never saves a second gateway as enabled.
use mu5250_wireguard.Wireguard.Edits.{Read, bytes}
use mu5250_wireguard.Lan.{plain}
use mu5250_wireguard.Singbox.Settings.{Settings, SettingsError, invalid_file}
use mu5250_wireguard.Singbox.Edits.{Update, edited, load, validate}
use mu5250_wireguard.Singbox.Edits.Digests.{edited-Digests}
use mu5250_wireguard.Singbox.Gateway.{
  Files, in_settings, Outcome, Device, Codec, address, fetch, update,
}
use mu5250_wireguard.Singbox.Gateway.Quiet.{Laws}
use mu5250_wireguard.Base.World.Quiet.{after}
use mu5250_wireguard.Singbox.Gateway.Blobs.{HasBlob, IsWhole}
use mu5250_wireguard.Singbox.Gateway.Kept.{
  Done, renewed, unchanged, stranded, Follows, change-Done, address-IsQuiet, fetch-IsQuiet,
}
use mu5250_wireguard.Base.World.{Io, continue, mapped}
use mu5250_wireguard.Base.{
  ok_or, >>=-eq-ok, ◌≡◌, ◌⊎◌, inl, inr, ◌∙◌, refl, sym, ap, subst, Bool, false, ◌&&◌, Option, some,
  arith, Text, Result, ok, err, Result-cases,
}

-- The JSON reader for the settings reads what the writer writes.
abbrev pub IsFaithful : Codec → Type 0
IsFaithful c = (s : Settings) → c.decode_settings (c.encode_settings s) ≡ some s

-- The configuration of every profile that the settings file names is in the directory.
abbrev pub IsSound : Codec → Files → Type 0
IsSound c f = (s : Settings) → load c.decode_settings f.config ≡ ok s → IsWhole c f s

-- The settings of the file, and what the update makes of them.
abbrev pub IsEdit : Codec → Update → Files → Settings → Settings → Type 0
IsEdit c u f old next =
    (download : Option Text) × (stored : Option Text) × (load c.decode_settings f.config ≡ ok old)
    × (edited c.hash c.decode c.now old u download ≡ ok (next, stored))

-- `enabled`
abbrev enabled_by : Result SettingsError Settings → Bool
enabled_by (ok s) = s.enabled
enabled_by (err e) = false

unfoldable pub enabled : Codec → Read → Bool
enabled c r = enabled_by (load c.decode_settings r)

module _ {W : Type 0} (c : Codec) (dev : Device W) (laws : Laws dev) (again : IsFaithful c) where
  load-again :
      (next s : Settings)
      → load c.decode_settings (bytes (c.encode_settings next)) ≡ ok s
      → next ≡ s
  unfolding load
  load-again next s h =
      let (t, read, h1) =
        >>=-eq-ok (ok_or (c.decode_settings (c.encode_settings next)) invalid_file) _ h in
      let (_, _, h2) = >>=-eq-ok (validate t) _ h1 in
      let first : next ≡ t = ground (arith, read, again next) in
      let second : t ≡ s = ground (arith, h2) in first ∙ second

  -- The files after an update, and its result.
  abbrev Left : Update → Files → Result Outcome Settings × W → Type 0
  Left u f x =
      ((dev.files x.1).other ≡ f.other)
      × ((((dev.files x.1).config ≡ f.config) × (IsSound c f → IsSound c (dev.files x.1)))
          ⊎ ((old : Settings) × (next : Settings) × IsEdit c u f old next
              × ((dev.files x.1).config ≡ bytes (c.encode_settings next))
              × ((next.enabled && f.other) ≡ false)
              × ((IsSound c f → IsSound c (dev.files x.1))
                  ⊎ ((e : Outcome) × (x.0 ≡ err e)
                      × (IsSound c f → IsWhole c (dev.files x.1) old)))))

  same-Left :
      (u : Update) (f : Files) (r : Result Outcome Settings) (w : W)
      → dev.files w ≡ f
      → Left u f (r, w)
  same-Left u f r w h =
      (ap (λ g. g.other) h, inl (ap (λ g. g.config) h, λ sound. subst (IsSound c) (sym h) sound))

  Done-Left :
      (u : Update) (f : Files) (old next : Settings) (x : Result Outcome Settings × W)
      → IsEdit c u f old next
      → Done c dev laws f old next x
      → Left u f x
  Done-Left u f old next x (d, t, read, made) (other, renewed config both whole) = (
    other,
    inr (
      old,
      next,
      (d, t, read, made),
      config,
      both,
      inl λ sound s h.
          let same : next ≡ s =
            load-again next s (subst (λ r. load c.decode_settings r ≡ ok s) config h) in
          subst (IsWhole c (dev.files x.1)) same (whole (sound old read)),
    ),
  )
  Done-Left u f old next x (d, t, read, made) (other, unchanged config whole) = (
    other,
    inl (
      config,
      λ sound s h.
          let before : load c.decode_settings f.config ≡ ok s =
            subst (λ r. load c.decode_settings r ≡ ok s) config h in
          let same : old ≡ s = ground (arith, before, read) in
          subst (IsWhole c (dev.files x.1)) same (whole (sound old read)),
    ),
  )
  Done-Left u f old next x (d, t, read, made) (other, stranded config both whole e k) = (
    other,
    inr (old, next, (d, t, read, made), config, both, inr (e, k, λ sound. whole (sound old read))),
  )

  lifted :
      {A : Type 0} (Q : Result Outcome Settings × W → Type 0) (r : Result SettingsError A)
      (k : A → Io W Outcome Settings) (w : W)
      → ((e : SettingsError) → Q (err (plain (in_settings e)), w))
      → ((a : A) → r ≡ ok a → Q (k a w))
      → Q (continue (mapped (λ e. plain (in_settings e)) r) k w)
  lifted Q (ok a) k w stop go = go a refl
  lifted Q (err e) k w stop go = stop e

  edited-Follows :
      (old : Settings) (u : Update) (download : Option Text) (r : Settings × Option Text)
      → edited c.hash c.decode c.now old u download ≡ ok r
      → Follows c dev laws old r.0 r.1
  edited-Follows old u download r e g whole there =
      edited-Digests (HasBlob c g) c.hash c.decode c.now old u download r.0 whole there e

  update-Left : (u : Update) (w : W) → Left u (dev.files w) (update c dev u w)
  unfolding update
  update-Left u w =
      let f = dev.files w in
      let stop : (e : Outcome) (v : W) → dev.files v ≡ f → Left u f (err e, v) =
        λ e v g. same-Left u f (err e) v g in
      after dev.files (Left u f) f (address c dev u.profile) _ w
        (address-IsQuiet c dev laws u.profile) refl stop
        λ url w1 h1.
          after dev.files (Left u f) f (fetch c dev url) _ w1 (fetch-IsQuiet c dev laws url) h1 stop
            λ download w2 h2.
              lifted (Left u f) (load c.decode_settings (dev.files w2).config) _ w2
                (λ e. stop (plain (in_settings e)) w2 h2)
                λ old read.
                  lifted (Left u f) (edited c.hash c.decode c.now old u download) _ w2
                    (λ e. stop (plain (in_settings e)) w2 h2)
                    λ r e.
                      let was : load c.decode_settings f.config ≡ ok old =
                        subst (λ g. load c.decode_settings g.config ≡ ok old) h2 read in
                      Done-Left u f old r.0 _ (download, r.1, was, e)
                        (change-Done c dev laws f old r.0 r.1 w2 h2
                          (edited-Follows old u download r e))

  -- Over a router that keeps its laws, and with a reader that reads what the writer writes: where the
  -- directory has the configuration of every profile that the settings file names, each under the
  -- digest of its bytes, an update, whatever fails in it, ends in one of two ways. The directory has
  -- the configurations that the file then names, and the file is as before or holds what the update
  -- makes of the settings in it. Or the update ended with an error, the file holds what the update
  -- makes of the settings that were in it, and the directory still has the configurations of those.
  pub update-IsSound :
      (u : Update) (w : W)
      → IsSound c (dev.files w)
      → (IsSound c (dev.files (update c dev u w).1)
          × (((dev.files (update c dev u w).1).config ≡ (dev.files w).config)
              ⊎ ((old : Settings) × (next : Settings) × IsEdit c u (dev.files w) old next
                  × ((dev.files (update c dev u w).1).config ≡ bytes (c.encode_settings next)))))
        ⊎ ((e : Outcome) × ((update c dev u w).0 ≡ err e)
            × (old : Settings) × (next : Settings) × IsEdit c u (dev.files w) old next
            × ((dev.files (update c dev u w).1).config ≡ bytes (c.encode_settings next))
            × IsWhole c (dev.files (update c dev u w).1) old)
  update-IsSound u w sound = elim (update-Left u w).1 [
    | inl (config, keep) ↦ inl (keep sound, inl config)
    | inr (old, next, edit, config, both, inl keep) ↦
        inl (keep sound, inr (old, next, edit, config))
    | inr (old, next, edit, config, both, inr (e, k, whole)) ↦
        inr (e, k, old, next, edit, config, whole sound)
  ]

  enabled-written :
      (s : Settings) (o : Bool)
      → (s.enabled && o) ≡ false
      → (enabled c (bytes (c.encode_settings s)) && o) ≡ false
  unfolding enabled
  enabled-written s o h =
      elim (Result-cases (load c.decode_settings (bytes (c.encode_settings s)))) [
        | inr (e, k) ↦ rw k refl
        | inl (t, k) ↦
            let same : s ≡ t = load-again s t k in
            rw k (subst (λ x. (x.enabled && o) ≡ false) same h)
      ]

  -- Over a router that keeps its laws, and with a reader that reads what the writer writes: where the
  -- settings files of the two gateways do not both enable theirs, they do not after any update, and
  -- the other gateway's is as before.
  pub update_singbox-exclusive :
      (u : Update) (w : W)
      → (enabled c (dev.files w).config && (dev.files w).other) ≡ false
      → ((enabled c (dev.files (update c dev u w).1).config
            && (dev.files (update c dev u w).1).other)
          ≡ false)
        × ((dev.files (update c dev u w).1).other ≡ (dev.files w).other)
  update_singbox-exclusive u w h =
      let (other, config) = update-Left u w in
      let x = dev.files (update c dev u w).1 in
      let f = dev.files w in
      let now : (enabled c x.config && f.other) ≡ false = elim config [
        | inl (same, _) ↦ subst (λ r. (enabled c r && f.other) ≡ false) (sym same) h
        | inr (old, next, edit, same, both, _) ↦
            subst (λ r. (enabled c r && f.other) ≡ false) (sym same)
              (enabled-written next f.other both)
      ] in
      (subst (λ o. (enabled c x.config && o) ≡ false) (sym other) now, other)
