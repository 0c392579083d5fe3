-- ===== src/Wireguard/Gateway/Laws.antt =====
-- agent/src/wireguard.rs: what an update leaves in the settings file, and that it never enables a
-- second gateway.
use mu5250_wireguard.Base.{
  ℕ, ◌≡◌, ◌⊎◌, inl, inr, ◌∙◌, refl, ap, ◌&&◌, Option, none, some, List, arith, Text, Result, ok,
  err,
}
use mu5250_wireguard.Lan.{commit_change}
use mu5250_wireguard.Lan.Watched.{commit_change-saved, commit_change-view}
use mu5250_wireguard.Wireguard.Tunnel.{Tunnel}
use mu5250_wireguard.Wireguard.Settings.{Settings, validate}
use mu5250_wireguard.Wireguard.Edits.{bytes, config_text}
use mu5250_wireguard.Wireguard.Gateway.{
  Files, Refusal, in_settings, cannot_write, no_kernel, no_tools, unavailable, Outcome, Device,
  Codec, run, persist, needs, set_tunnel_up, with_tunnel, start_tunnel, apply, prepare, conclude,
}
use mu5250_wireguard.Base.World.{Io, pure, lift, mapped, map_err}
use mu5250_wireguard.Base.World.Quiet.{IsQuiet, bind-IsQuiet, if-view}

abbrev pub with_config : Text → Files → Files
with_config b f = record f { config = bytes b }

module _ {W : Type 0} (dev : Device W) where
  -- The settings file is replaced, or is left as it was; after an error either may be the case.
  pub record Laws : Type 0 where
    pub config_ok :
        (b : Text) (w : W)
        → (dev.write_config b w).0 ≡ ok tt
        → dev.files (dev.write_config b w).1 ≡ with_config b (dev.files w)
    pub config_any :
        (b : Text) (w : W)
        → (dev.files (dev.write_config b w).1 ≡ dev.files w)
          ⊎ (dev.files (dev.write_config b w).1 ≡ with_config b (dev.files w))
    pub quiet_dir : IsQuiet dev.files dev.ensure_dir
    pub quiet_peer : (b : Text) → IsQuiet dev.files (dev.write_peer b)
    pub quiet_link : IsQuiet dev.files dev.add_link
    pub quiet_set : IsQuiet dev.files dev.set_peer
    pub quiet_address : (a : Text) → IsQuiet dev.files (dev.add_address a)
    pub quiet_up : (mtu : ℕ) → IsQuiet dev.files (dev.set_up mtu)
    pub quiet_check : IsQuiet dev.files dev.loosen_check
    pub quiet_claim : IsQuiet dev.files dev.claim_resources
    pub quiet_cleanup : IsQuiet dev.files dev.cleanup
    pub quiet_policy :
        (mode : Text) (macs : List Text) (dns : Text) → IsQuiet dev.files (dev.policy mode macs dns)
    pub quiet_hold : IsQuiet dev.files dev.hold
    pub quiet_release : IsQuiet dev.files dev.release
    pub quiet_error : (e : Option Outcome) (w : W) → dev.files (dev.set_error e w) ≡ dev.files w

module _ {W : Type 0} (c : Codec) (dev : Device W) (laws : Laws dev) where
  set_tunnel_up-IsQuiet : (s : Settings) (t : Tunnel) → IsQuiet dev.files (set_tunnel_up c dev s t)
  unfolding set_tunnel_up
  set_tunnel_up-IsQuiet s t =
      bind-IsQuiet dev.files (map_err (λ e. cannot_write) (dev.write_peer (config_text t))) _
        (laws.quiet_peer (config_text t))
        λ _. bind-IsQuiet dev.files (run c dev dev.claim_resources) _ laws.quiet_claim λ _.
          bind-IsQuiet dev.files (run c dev dev.cleanup) _ laws.quiet_cleanup λ _.
            bind-IsQuiet dev.files (run c dev dev.add_link) _ laws.quiet_link λ _.
              bind-IsQuiet dev.files (run c dev dev.set_peer) _ laws.quiet_set λ _.
                bind-IsQuiet dev.files (run c dev (dev.add_address t.address)) _
                  (laws.quiet_address t.address)
                  λ _.
                    bind-IsQuiet dev.files (run c dev (dev.set_up t.mtu)) _ (laws.quiet_up t.mtu)
                      λ _.
                        bind-IsQuiet dev.files (run c dev dev.loosen_check) _ laws.quiet_check
                          λ _. laws.quiet_policy s.mode s.macs t.dns

  with_tunnel-IsQuiet :
      (s : Settings) (o : Option Tunnel) → IsQuiet dev.files (with_tunnel c dev s o)
  with_tunnel-IsQuiet s none = λ w. refl
  with_tunnel-IsQuiet s (some t) = set_tunnel_up-IsQuiet s t

  start_tunnel-IsQuiet : (s : Settings) → IsQuiet dev.files (start_tunnel c dev s)
  unfolding start_tunnel
  start_tunnel-IsQuiet s =
      bind-IsQuiet dev.files (lift (mapped in_settings (validate s))) _ (λ w. refl)
        λ _.
          bind-IsQuiet dev.files (needs c dev dev.has_kernel no_kernel) _ (λ w. refl)
            λ _.
              bind-IsQuiet dev.files (needs c dev dev.has_tools no_tools) _ (λ w. refl)
                λ _. with_tunnel-IsQuiet s s.tunnel

  apply-IsQuiet : (s : Settings) → IsQuiet dev.files (apply c dev s)
  unfolding apply
  apply-IsQuiet s w =
      if-view dev.files s.enabled (start_tunnel c dev s w) _ (start_tunnel-IsQuiet s w) (
        if-view dev.files (dev.is_owned w) (run c dev dev.cleanup w) (pure tt w)
          (laws.quiet_cleanup w) refl)

  pub prepare-IsQuiet : IsQuiet dev.files (prepare c dev)
  unfolding prepare
  prepare-IsQuiet =
      bind-IsQuiet dev.files (needs c dev (λ w. dev.has_tools w && dev.has_kernel w) unavailable) _
        (λ w. refl) λ _. laws.quiet_claim

  -- The new settings are in the file, or there was an error with the file as before.
  abbrev pub Ends : Files → Settings → Result Outcome Settings × W → Type 0
  Ends f next x =
      ((dev.files x.1).other ≡ f.other)
      × (((dev.files x.1).config ≡ bytes (c.encode_settings next))
          ⊎ (((dev.files x.1).config ≡ f.config) × (e : Outcome) × (x.0 ≡ err e)))

  pub same-Ends :
      (f : Files) (next : Settings) (e : Outcome) (w : W) → dev.files w ≡ f → Ends f next (err e, w)
  same-Ends f next e w h = (ap (λ g. g.other) h, inr (ap (λ g. g.config) h, e, refl))

  pub saved-Ends :
      (f : Files) (next : Settings) (r : Result Outcome Settings) (w : W)
      → dev.files w ≡ with_config (c.encode_settings next) f
      → Ends f next (r, w)
  saved-Ends f next r w h = (ap (λ g. g.other) h, inl (ap (λ g. g.config) h))

  conclude-Ends :
      (f : Files) (next : Settings) (r : Result Outcome (Unit {0})) (w : W)
      → (r ≡ ok tt → dev.files w ≡ with_config (c.encode_settings next) f)
      → (dev.files w ≡ f) ⊎ (dev.files w ≡ with_config (c.encode_settings next) f)
      → Ends f next (conclude c dev next r w)
  unfolding conclude
  conclude-Ends f next (ok tt) w h k =
      saved-Ends f next (ok next) _ (laws.quiet_error none w ∙ h refl)
  conclude-Ends f next (err e) w h (inl k) = same-Ends f next e _ (laws.quiet_error (some e) w ∙ k)
  conclude-Ends f next (err e) w h (inr k) =
      saved-Ends f next (err e) _ (laws.quiet_error (some e) w ∙ k)

  pub persist-any :
      (f : Files) (s : Settings) (w : W)
      → dev.files w ≡ f
      → (dev.files (persist c dev s w).1 ≡ f)
        ⊎ (dev.files (persist c dev s w).1 ≡ with_config (c.encode_settings s) f)
  unfolding persist
  persist-any f s w h = elim (laws.config_any (c.encode_settings s) w) [
    | inl e ↦ inl (e ∙ h)
    | inr e ↦ inr (e ∙ ap (with_config (c.encode_settings s)) h)
  ]

  pub persist-ok :
      (f : Files) (s : Settings) (w : W)
      → dev.files w ≡ f
      → (persist c dev s w).0 ≡ ok tt
      → dev.files (persist c dev s w).1 ≡ with_config (c.encode_settings s) f
  unfolding persist
  persist-ok f s w h k =
      laws.config_ok (c.encode_settings s) w (ground (arith, k))
      ∙ ap (with_config (c.encode_settings s)) h

  pub committed-Ends :
      (f : Files) (old next : Settings) (release : Io W Refusal (Unit {0})) (w : W)
      → IsQuiet dev.files release
      → dev.files w ≡ f
      → Ends f next (
          conclude c dev next
            (commit_change (apply c dev) (persist c dev) release old next w).0
            (commit_change (apply c dev) (persist c dev) release old next w).1)
  committed-Ends f old next release w quiet h =
      let same = apply-IsQuiet next w ∙ h in
      conclude-Ends f next _ _
        (λ e.
          let (done, seen) =
            commit_change-saved dev.files (apply c dev) (persist c dev) release apply-IsQuiet quiet
              old next w e in
          seen ∙ persist-ok f next (apply c dev next w).1 same done)
        (elim (commit_change-view dev.files (apply c dev) (persist c dev) release apply-IsQuiet
          quiet old next w) [
            | inl e ↦ inl (e ∙ h)
            | inr e ↦ elim (persist-any f next (apply c dev next w).1 same) [
              | inl k ↦ inl (e ∙ k)
              | inr k ↦ inr (e ∙ k)
            ]
          ])
