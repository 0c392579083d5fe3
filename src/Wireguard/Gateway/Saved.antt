-- ===== src/Wireguard/Gateway/Saved.antt =====
-- agent/src/wireguard.rs: what an update saves, and that it never enables a second gateway.
use mu5250_wireguard.Lan.{plain}
use mu5250_wireguard.Wireguard.Settings.{Settings, SettingsError, validate, migrate}
use mu5250_wireguard.Wireguard.Edits.{Update, Read, bytes, edited, same_network, load}
use mu5250_wireguard.Wireguard.Gateway.{
  Files, Refusal, in_settings, other_enabled, Outcome, Device, Codec, run, persist, prepare,
  carry_out, switch, settle, refuse_both, change, update,
}
use mu5250_wireguard.Wireguard.Gateway.Laws.{
  Laws, with_config, Ends, same-Ends, saved-Ends, persist-any, persist-ok, committed-Ends,
  prepare-IsQuiet,
}
use mu5250_wireguard.Base.World.{Io, continue, pure, mapped, map_err}
use mu5250_wireguard.Base.World.Quiet.{if-IsQuiet, after}
use mu5250_wireguard.Base.{
  ◌≡◌, ◌⊎◌, inl, inr, refl, sym, ap, subst, Bool, true, false, ◌&&◌, ◌||◌, some, if◌then◌else◌,
  arith, Result, ok, err, Result-cases,
}

-- `enabled`
abbrev enabled_by : Result SettingsError Settings → Bool
enabled_by (ok s) = s.enabled
enabled_by (err e) = false

unfoldable pub enabled : Codec → Read → Bool
enabled c r = enabled_by (load c.decode_settings r)

-- The JSON reader for the settings reads what the writer writes, of settings with a profile.
abbrev pub IsFaithful : Codec → Type 0
IsFaithful c = (s : Settings) → c.decode_settings (c.encode_settings s) ≡ some s

module _ {W : Type 0} (c : Codec) (dev : Device W) (laws : Laws dev) where
  carry_out-Ends :
      (f : Files) (old next : Settings) (changing : Bool) (w : W)
      → dev.files w ≡ f
      → Ends c dev laws f next (carry_out c dev old next changing w)
  unfolding carry_out
  carry_out-Ends f old next changing w h =
      let release = if changing then run c dev dev.release else pure tt in
      after dev.files (Ends c dev laws f next) f
        (map_err plain (if changing then run c dev dev.hold else pure tt)) _ w
        (if-IsQuiet dev.files changing (run c dev dev.hold) (pure tt) laws.quiet_hold (λ v. refl)) h
        (λ e v g. same-Ends c dev laws f next e v g)
        λ _ v g.
          committed-Ends c dev laws f old next release v
            (if-IsQuiet dev.files changing (run c dev dev.release) (pure tt) laws.quiet_release
              (λ u. refl))
            g

  switch-Ends :
      (f : Files) (old next : Settings) (w : W)
      → dev.files w ≡ f
      → Ends c dev laws f next (switch c dev old next w)
  unfolding switch
  switch-Ends f old next w h =
      after dev.files (Ends c dev laws f next) f
        (map_err plain (if next.enabled then prepare c dev else pure tt)) _ w
        (if-IsQuiet dev.files next.enabled (prepare c dev) (pure tt) (prepare-IsQuiet c dev laws)
          (λ v. refl))
        h (λ e v g. same-Ends c dev laws f next e v g)
        λ _ v g. carry_out-Ends f old next (old.enabled || next.enabled || dev.is_owned v) v g

  settled-Ends :
      (f : Files) (next : Settings) (r : Result Refusal (Unit {0})) (w : W)
      → (r ≡ ok tt → dev.files w ≡ with_config (c.encode_settings next) f)
      → (dev.files w ≡ f) ⊎ (dev.files w ≡ with_config (c.encode_settings next) f)
      → Ends c dev laws f next (continue (mapped plain r) (λ _. pure next) w)
  settled-Ends f next (ok tt) w h k = saved-Ends c dev laws f next (ok next) w (h refl)
  settled-Ends f next (err e) w h (inl k) = same-Ends c dev laws f next (plain e) w k
  settled-Ends f next (err e) w h (inr k) = saved-Ends c dev laws f next (err (plain e)) w k

  settle-Ends :
      (f : Files) (next : Settings) (w : W)
      → dev.files w ≡ f
      → Ends c dev laws f next (settle c dev next w)
  unfolding settle
  settle-Ends f next w h =
      settled-Ends f next (persist c dev next w).0 (persist c dev next w).1
        (persist-ok c dev laws f next w h) (persist-any c dev laws f next w h)

  either :
      (Q : Result Outcome Settings × W → Type 0) (b : Bool) (m n : Io W Outcome Settings) (w : W)
      → Q (m w)
      → Q (n w)
      → Q ((if b then m else n) w)
  either Q true m n w h k = h
  either Q false m n w h k = k

  -- The other gateway's file is as before; and this one's holds settings that are not enabled beside
  -- it, or is as before after an error.
  abbrev Left : Files → Result Outcome Settings × W → Type 0
  Left f x =
      ((dev.files x.1).other ≡ f.other)
      × (((next : Settings) × ((dev.files x.1).config ≡ bytes (c.encode_settings next))
            × ((next.enabled && f.other) ≡ false))
          ⊎ (((dev.files x.1).config ≡ f.config) × (e : Outcome) × (x.0 ≡ err e)))

  Ends-Left :
      (f : Files) (next : Settings) (x : Result Outcome Settings × W)
      → (next.enabled && f.other) ≡ false
      → Ends c dev laws f next x
      → Left f x
  Ends-Left f next x both (other, inl config) = (other, inl (next, config, both))
  Ends-Left f next x both (other, inr same) = (other, inr same)

  same-Left : (f : Files) (e : Outcome) (w : W) → dev.files w ≡ f → Left f (err e, w)
  same-Left f e w h = (ap (λ g. g.other) h, inr (ap (λ g. g.config) h, e, refl))

  refused-Left :
      (f : Files) (b : Bool) (k : Unit {0} → Io W Outcome Settings) (w : W)
      → dev.files w ≡ f
      → (b ≡ false → Left f (k tt w))
      → Left f (continue (if b then err (plain other_enabled) else ok tt) k w)
  refused-Left f true k w h go = same-Left f (plain other_enabled) w h
  refused-Left f false k w h go = go refl

  change-Left :
      (f : Files) (old next : Settings) (w : W) → dev.files w ≡ f → Left f (change c dev old next w)
  unfolding change refuse_both
  change-Left f old next w h =
      let seen : (dev.files w).other ≡ f.other = ap (λ a. a.other) h in
      refused-Left f (next.enabled && (dev.files w).other) _ w h λ alone.
        let both : (next.enabled && f.other) ≡ false =
          subst (λ o. (next.enabled && o) ≡ false) seen alone in
        after dev.files (Left f) f (map_err plain (run c dev dev.ensure_dir)) _ w laws.quiet_dir h
          (λ e v g. same-Left f e v g)
          λ _ v g.
            either (Left f) (same_network old next) (settle c dev next) (switch c dev old next) v
              (Ends-Left f next (settle c dev next v) both (settle-Ends f next v g))
              (Ends-Left f next (switch c dev old next v) both (switch-Ends f old next v g))

  lifted :
      {A : Type 0} (Q : Result Outcome Settings × W → Type 0) (r : Result SettingsError A)
      (k : A → Io W Outcome Settings) (w : W)
      → ((e : SettingsError) → Q (err (plain (in_settings e)), w))
      → ((a : A) → Q (k a w))
      → Q (continue (mapped (λ e. plain (in_settings e)) r) k w)
  lifted Q (ok a) k w stop go = go a
  lifted Q (err e) k w stop go = stop e

  update-Left : (u : Update) (w : W) → Left (dev.files w) (update c dev u w)
  unfolding update
  update-Left u w =
      let f = dev.files w in
      lifted (Left f) (load c.decode_settings f.config) _ w
        (λ e. same-Left f (plain (in_settings e)) w refl)
        λ old.
          lifted (Left f) (edited old u) _ w (λ e. same-Left f (plain (in_settings e)) w refl)
            λ next. change-Left f old next w refl

  module _ (again : IsFaithful c) where
    migrate-enabled : (s : Settings) → (migrate s).enabled ≡ s.enabled
    unfolding migrate
    migrate-enabled s = ground arith

    enabled-written :
        (s : Settings) (o : Bool)
        → (s.enabled && o) ≡ false
        → (enabled c (bytes (c.encode_settings s)) && o) ≡ false
    unfolding enabled load
    enabled-written s o h =
        let kept = migrate-enabled s in
        elim (Result-cases (validate (migrate s))) [
          | inl (_, k) ↦ ground (arith, again s, k, kept, h)
          | inr (e, k) ↦ ground (arith, again s, k)
        ]

    -- Over a router that keeps its laws, and with a reader that reads what the writer writes: where the
    -- settings files of the two gateways do not both enable theirs, they do not after any update, and
    -- the other gateway's is as before.
    pub update_wireguard-exclusive :
        (u : Update) (w : W)
        → (enabled c (dev.files w).config && (dev.files w).other) ≡ false
        → ((enabled c (dev.files (update c dev u w).1).config
              && (dev.files (update c dev u w).1).other)
            ≡ false)
          × ((dev.files (update c dev u w).1).other ≡ (dev.files w).other)
    update_wireguard-exclusive u w h =
        let (other, config) = update-Left u w in
        let x = dev.files (update c dev u w).1 in
        let f = dev.files w in
        let now : (enabled c x.config && f.other) ≡ false = elim config [
          | inr (same, _, _) ↦ subst (λ r. (enabled c r && f.other) ≡ false) (sym same) h
          | inl (next, same, both) ↦
              subst (λ r. (enabled c r && f.other) ≡ false) (sym same)
                (enabled-written next f.other both)
        ] in
        (subst (λ o. (enabled c x.config && o) ≡ false) (sym other) now, other)
