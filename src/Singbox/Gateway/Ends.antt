-- ===== src/Singbox/Gateway/Ends.antt =====
-- agent/src/singbox.rs: the three ways in which an update ends, as far as the files go.
use mu5250_wireguard.Base.{
  ◌≡◌, ◌⊎◌, inl, inr, ◌∙◌, refl, ap, none, some, arith, Result, ok, err, Bool, ◌||◌, Option,
  if◌then◌else◌, Text,
}
use mu5250_wireguard.Wireguard.Edits.{bytes}
use mu5250_wireguard.Lan.{plain, commit_change}
use mu5250_wireguard.Lan.Watched.{commit_change-saved, commit_change-view}
use mu5250_wireguard.Singbox.Settings.{Settings}
use mu5250_wireguard.Singbox.Gateway.{
  needed, run, settle, prepare, carry_out, switch, Files, Refusal, Outcome, Device, Codec, persist,
  apply, collect_garbage, conclude,
}
use mu5250_wireguard.Singbox.Gateway.Quiet.{Laws, with_config, apply-IsQuiet}
use mu5250_wireguard.Base.World.Quiet.{IsQuiet, bind-IsQuiet, if-IsQuiet, after}
use mu5250_wireguard.Singbox.Gateway.Blobs.{IsWhole, same-IsWhole, collect-config, collect-IsWhole}
use mu5250_wireguard.Base.World.{mapped, pure, map_err, Io, ◌>>=◌, continue}

module _ {W : Type 0} (c : Codec) (dev : Device W) (laws : Laws dev) where
  -- The settings file holds the new settings and the directory their configurations; or the settings
  -- file and what the old settings need are as before; or there was an error with the new settings
  -- in the file, and what the old ones need is as before.
  abbrev pub Ends : Files → Settings → Settings → Result Outcome Settings × W → Type 0
  Ends f old next x =
      ((dev.files x.1).other ≡ f.other)
      × ((((dev.files x.1).config ≡ bytes (c.encode_settings next))
            × (IsWhole c f next → IsWhole c (dev.files x.1) next))
          ⊎ ((((dev.files x.1).config ≡ f.config)
                × (IsWhole c f old → IsWhole c (dev.files x.1) old))
              ⊎ (((dev.files x.1).config ≡ bytes (c.encode_settings next))
                  × (IsWhole c f old → IsWhole c (dev.files x.1) old)
                  × (e : Outcome) × (x.0 ≡ err e))))

  -- Nothing was done.
  pub same-Ends :
      (f : Files) (old next : Settings) (r : Result Outcome Settings) (w : W)
      → dev.files w ≡ f
      → Ends f old next (r, w)
  same-Ends f old next r w h = (
    ap (λ g. g.other) h,
    inr (inl (ap (λ g. g.config) h, same-IsWhole c f (dev.files w) old (ap (λ g. g.blobs) h))),
  )

  -- A quiet step in front.
  pub after-Ends :
      {A : Type 0} (f : Files) (old next : Settings) (m : Io W Outcome A)
      (k : A → Io W Outcome Settings) (w : W)
      → IsQuiet dev.files m
      → dev.files w ≡ f
      → ((a : A) (v : W) → dev.files v ≡ f → Ends f old next (k a v))
      → Ends f old next ((m >>= k) w)
  after-Ends f old next m k w quiet h go =
      after dev.files (Ends f old next) f m k w quiet h (λ e v g. same-Ends f old next (err e) v g)
        go

  -- The new settings are in the file, and what they do not need is removed.
  collected-Ends :
      (f : Files) (old next : Settings) (r : Result Outcome Settings) (w v : W)
      → dev.files w ≡ with_config (c.encode_settings next) f
      → dev.files v ≡ dev.files (collect_garbage c dev next w)
      → Ends f old next (r, v)
  collected-Ends f old next r w v h same =
      let (config, other) = collect-config c dev laws next w in
      (
        ap (λ g. g.other) same ∙ other ∙ ap (λ g. g.other) h,
        inl (
          ap (λ g. g.config) same ∙ config ∙ ap (λ g. g.config) h,
          λ whole.
              same-IsWhole c (dev.files (collect_garbage c dev next w)) (dev.files v) next
                (ap (λ g. g.blobs) same)
                (collect-IsWhole c dev laws next w
                  (same-IsWhole c f (dev.files w) next (ap (λ g. g.blobs) h) whole)),
        ),
      )

  -- An error, with what the old settings do not need removed.
  failed-Ends :
      (f : Files) (old next : Settings) (e : Outcome) (w v : W)
      → (dev.files w ≡ f) ⊎ (dev.files w ≡ with_config (c.encode_settings next) f)
      → dev.files v ≡ dev.files (collect_garbage c dev old w)
      → Ends f old next (err e, v)
  failed-Ends f old next e w v (inl h) same =
      let (config, other) = collect-config c dev laws old w in
      (
        ap (λ g. g.other) same ∙ other ∙ ap (λ g. g.other) h,
        inr (
            inl (
              ap (λ g. g.config) same ∙ config ∙ ap (λ g. g.config) h,
              λ whole.
                  same-IsWhole c (dev.files (collect_garbage c dev old w)) (dev.files v) old
                    (ap (λ g. g.blobs) same)
                    (collect-IsWhole c dev laws old w
                      (same-IsWhole c f (dev.files w) old (ap (λ g. g.blobs) h) whole)),
            )),
      )
  failed-Ends f old next e w v (inr h) same =
      let (config, other) = collect-config c dev laws old w in
      (
        ap (λ g. g.other) same ∙ other ∙ ap (λ g. g.other) h,
        inr (
            inr (
              ap (λ g. g.config) same ∙ config ∙ ap (λ g. g.config) h,
              λ whole.
                  same-IsWhole c (dev.files (collect_garbage c dev old w)) (dev.files v) old
                    (ap (λ g. g.blobs) same)
                    (collect-IsWhole c dev laws old w
                      (same-IsWhole c f (dev.files w) old (ap (λ g. g.blobs) h) whole)),
              e,
              refl,
            )),
      )

  conclude-Ends :
      (f : Files) (old next : Settings) (r : Result Outcome (Unit {0})) (w : W)
      → (r ≡ ok tt → dev.files w ≡ with_config (c.encode_settings next) f)
      → (dev.files w ≡ f) ⊎ (dev.files w ≡ with_config (c.encode_settings next) f)
      → Ends f old next (conclude c dev old next r w)
  unfolding conclude
  conclude-Ends f old next (ok tt) w h k =
      collected-Ends f old next (ok next) w _ (h refl)
        (laws.quiet_error none (collect_garbage c dev next w))
  conclude-Ends f old next (err e) w h k =
      failed-Ends f old next e w _ k (laws.quiet_error (some e) (collect_garbage c dev old w))

  persist-any :
      (s : Settings) (w : W)
      → (dev.files (persist c dev s w).1 ≡ dev.files w)
        ⊎ (dev.files (persist c dev s w).1 ≡ with_config (c.encode_settings s) (dev.files w))
  unfolding persist
  persist-any s w = laws.config_any (c.encode_settings s) w

  persist-ok :
      (s : Settings) (w : W)
      → (persist c dev s w).0 ≡ ok tt
      → dev.files (persist c dev s w).1 ≡ with_config (c.encode_settings s) (dev.files w)
  unfolding persist
  persist-ok s w h = laws.config_ok (c.encode_settings s) w (ground (arith, h))

  committed-Ends :
      (f : Files) (old next : Settings) (release : Io W Refusal (Unit {0})) (w : W)
      → IsQuiet dev.files release
      → dev.files w ≡ f
      → Ends f old next (
          conclude c dev old next
            (commit_change (apply c dev) (persist c dev) release old next w).0
            (commit_change (apply c dev) (persist c dev) release old next w).1)
  committed-Ends f old next release w quiet h =
      let still = λ (s : Settings) (v : W). apply-IsQuiet dev c laws s v in
      let w1 = (apply c dev next w).1 in
      let same : dev.files w1 ≡ f = still next w ∙ h in
      let saved : dev.files (persist c dev next w1).1
            ≡ with_config (c.encode_settings next) (dev.files w1)
          → dev.files (persist c dev next w1).1 ≡ with_config (c.encode_settings next) f =
        λ e. e ∙ ap (with_config (c.encode_settings next)) same in
      conclude-Ends f old next _ _
        (λ e.
          let (done, seen) =
            commit_change-saved dev.files (apply c dev) (persist c dev) release still quiet old next
              w e in
          seen ∙ saved (persist-ok next w1 done))
        (elim (commit_change-view dev.files (apply c dev) (persist c dev) release still quiet old
          next w) [
            | inl e ↦ inl (e ∙ h)
            | inr e ↦ elim (persist-any next w1) [
              | inl k ↦ inl (e ∙ k ∙ same)
              | inr k ↦ inr (e ∙ saved k)
            ]
          ])

  carry_out-Ends :
      (f : Files) (old next : Settings) (changing : Bool) (w : W)
      → dev.files w ≡ f
      → Ends f old next (carry_out c dev old next changing w)
  unfolding carry_out
  carry_out-Ends f old next changing w h =
      let release = if changing then run c dev dev.release else pure tt in
      after-Ends f old next (map_err plain (if changing then run c dev dev.hold else pure tt)) _ w
        (if-IsQuiet dev.files changing (run c dev dev.hold) (pure tt) laws.quiet_hold (λ v. refl)) h
        λ _ v g.
          committed-Ends f old next release v
            (if-IsQuiet dev.files changing (run c dev dev.release) (pure tt) laws.quiet_release
              (λ u. refl))
            g

  prepare-IsQuiet :
      (next : Settings) (stored : Option Text) → IsQuiet dev.files (prepare c dev next stored)
  unfolding prepare
  prepare-IsQuiet next (some text) =
      bind-IsQuiet dev.files (run c dev dev.prerequisites) _ laws.quiet_prerequisites
        λ _. laws.quiet_claim
  prepare-IsQuiet next none =
      bind-IsQuiet dev.files (run c dev dev.prerequisites) _ laws.quiet_prerequisites λ _.
        bind-IsQuiet dev.files
          ((λ w. (needed c dev next w, w)) >>= λ made. run c dev (dev.check made)) _
          (bind-IsQuiet dev.files (λ w. (needed c dev next w, w)) _ (λ w. refl)
            λ made. laws.quiet_check made)
          λ _. laws.quiet_claim

  pub switch-Ends :
      (f : Files) (old next : Settings) (stored : Option Text) (w : W)
      → dev.files w ≡ f
      → Ends f old next (switch c dev old next stored w)
  unfolding switch
  switch-Ends f old next stored w h =
      after-Ends f old next
        (map_err plain (if next.enabled then prepare c dev next stored else pure tt)) _ w
        (if-IsQuiet dev.files next.enabled (prepare c dev next stored) (pure tt)
          (prepare-IsQuiet next stored) (λ v. refl))
        h λ _ v g. carry_out-Ends f old next (old.enabled || next.enabled || dev.is_owned v) v g

  unsaved-Ends :
      (f : Files) (old next : Settings) (e : Outcome) (w : W)
      → (dev.files w ≡ f) ⊎ (dev.files w ≡ with_config (c.encode_settings next) f)
      → Ends f old next (err e, w)
  unsaved-Ends f old next e w (inl h) = same-Ends f old next (err e) w h
  unsaved-Ends f old next e w (inr h) = (
    ap (λ g. g.other) h,
    inr (
        inr (
          ap (λ g. g.config) h,
          same-IsWhole c f (dev.files w) old (ap (λ g. g.blobs) h),
          e,
          refl,
        )),
  )

  settled-Ends :
      (f : Files) (old next : Settings) (r : Result Refusal (Unit {0})) (w : W)
      → (r ≡ ok tt → dev.files w ≡ with_config (c.encode_settings next) f)
      → (dev.files w ≡ f) ⊎ (dev.files w ≡ with_config (c.encode_settings next) f)
      → Ends f old next
          (continue (mapped plain r) (λ _ v. (ok next, collect_garbage c dev next v)) w)
  settled-Ends f old next (ok tt) w h k = collected-Ends f old next (ok next) w _ (h refl) refl
  settled-Ends f old next (err e) w h k = unsaved-Ends f old next (plain e) w k

  pub settle-Ends :
      (f : Files) (old next : Settings) (w : W)
      → dev.files w ≡ f
      → Ends f old next (settle c dev next w)
  unfolding settle
  settle-Ends f old next w h =
      let w1 = (persist c dev next w).1 in
      let saved : dev.files w1 ≡ with_config (c.encode_settings next) (dev.files w)
          → dev.files w1 ≡ with_config (c.encode_settings next) f =
        λ e. e ∙ ap (with_config (c.encode_settings next)) h in
      settled-Ends f old next (persist c dev next w).0 w1 (λ e. saved (persist-ok next w e))
        (elim (persist-any next w) [ inl e ↦ inl (e ∙ h) | inr e ↦ inr (saved e) ])
