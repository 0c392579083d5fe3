-- ===== src/Singbox/Gateway/Quiet.antt =====
-- agent/src/singbox.rs: which steps of an update leave the files as they are.
use mu5250_wireguard.Base.{
  ◌≡◌, ◌⊎◌, ◌∙◌, refl, false, Option, some, List, if◌then◌else◌, Text, text_eq, ok,
}
use mu5250_wireguard.Base.World.Quiet.{IsQuiet, bind-IsQuiet, if-IsQuiet, if-view}
use mu5250_wireguard.Json.{Value}
use mu5250_wireguard.Wireguard.Edits.{bytes}
use mu5250_wireguard.Singbox.Settings.{Settings}
use mu5250_wireguard.Singbox.Gateway.{
  needed, validate, in_settings, run, Files, Outcome, Device, Codec, start_policy, install, apply,
}
use mu5250_wireguard.Base.World.{mapped, lift, pure}

-- The files with another settings file, and with another configuration.
abbrev pub with_config : Text → Files → Files
with_config b f = record f { config = bytes b }

abbrev pub put : Text → Text → (Text → Option Text) → Text → Option Text
put name text blobs n = if text_eq name n then some text else blobs n

abbrev pub with_blob : Text → Text → Files → Files
with_blob name text f = record f { blobs = put name text f.blobs }

module _ {W : Type 0} (dev : Device W) where
  -- A file is replaced, or is left as it was; after an error either may be the case.
  pub record Laws : Type 0 where
    pub config_ok :
        (b : Text) (w : W)
        → (dev.write_config b w).0 ≡ ok tt
        → dev.files (dev.write_config b w).1 ≡ with_config b (dev.files w)
    pub config_any :
        (b : Text) (w : W)
        → (dev.files (dev.write_config b w).1 ≡ dev.files w)
          ⊎ (dev.files (dev.write_config b w).1 ≡ with_config b (dev.files w))
    pub blob_ok :
        (name text : Text) (w : W)
        → (dev.write_blob name text w).0 ≡ ok tt
        → dev.files (dev.write_blob name text w).1 ≡ with_blob name text (dev.files w)
    pub blob_any :
        (name text : Text) (w : W)
        → (dev.files (dev.write_blob name text w).1 ≡ dev.files w)
          ⊎ (dev.files (dev.write_blob name text w).1 ≡ with_blob name text (dev.files w))
    pub removed_config :
        (name : Text) (w : W) → (dev.files (dev.remove_blob name w)).config ≡ (dev.files w).config
    pub removed_other :
        (name : Text) (w : W) → (dev.files (dev.remove_blob name w)).other ≡ (dev.files w).other
    pub removed_blobs :
        (name n : Text) (w : W)
        → text_eq name n ≡ false
        → (dev.files (dev.remove_blob name w)).blobs n ≡ (dev.files w).blobs n
    pub quiet_dirs : IsQuiet dev.files dev.ensure_dirs
    pub quiet_check : (v : Value) → IsQuiet dev.files (dev.check v)
    pub quiet_download : (url : Text) → IsQuiet dev.files (dev.download url)
    pub quiet_prerequisites : IsQuiet dev.files dev.prerequisites
    pub quiet_run : (v : Value) → IsQuiet dev.files (dev.write_run v)
    pub quiet_stop : (w : W) → dev.files (dev.stop_child w) ≡ dev.files w
    pub quiet_start : IsQuiet dev.files dev.start_child
    pub quiet_claim : IsQuiet dev.files dev.claim_resources
    pub quiet_cleanup : IsQuiet dev.files dev.cleanup
    pub quiet_policy : (mode : Text) (macs : List Text) → IsQuiet dev.files (dev.policy mode macs)
    pub quiet_hold : IsQuiet dev.files dev.hold
    pub quiet_release : IsQuiet dev.files dev.release
    pub quiet_error : (e : Option Outcome) (w : W) → dev.files (dev.set_error e w) ≡ dev.files w

  module _ (c : Codec) (laws : Laws) where
    start_policy-IsQuiet : (s : Settings) → IsQuiet dev.files (start_policy c dev s)
    unfolding start_policy
    start_policy-IsQuiet s =
        bind-IsQuiet dev.files (lift (mapped in_settings (validate s))) _ (λ w. refl)
          λ _. bind-IsQuiet dev.files (run c dev dev.prerequisites) _ laws.quiet_prerequisites λ _.
            bind-IsQuiet dev.files (λ w. (needed c dev s w, w)) _ (λ w. refl)
              λ config.
                bind-IsQuiet dev.files (run c dev (dev.write_run config)) _ (laws.quiet_run config)
                  λ _.
                    bind-IsQuiet dev.files (run c dev dev.claim_resources) _ laws.quiet_claim λ _.
                      bind-IsQuiet dev.files (run c dev dev.cleanup) _ laws.quiet_cleanup
                        λ _. laws.quiet_policy s.mode s.macs

    install-IsQuiet : (s : Settings) → IsQuiet dev.files (install c dev s)
    unfolding install
    install-IsQuiet s w =
        let w1 = dev.stop_child w in
        if-view dev.files s.enabled (start_policy c dev s w1) _
          (start_policy-IsQuiet s w1 ∙ laws.quiet_stop w)
          (if-view dev.files (dev.is_owned w1) (run c dev dev.cleanup w1) (pure tt w1)
            (laws.quiet_cleanup w1 ∙ laws.quiet_stop w) (laws.quiet_stop w))

    pub apply-IsQuiet : (s : Settings) → IsQuiet dev.files (apply c dev s)
    unfolding apply
    apply-IsQuiet s = bind-IsQuiet dev.files (install c dev s) _ (install-IsQuiet s) λ _.
        if-IsQuiet dev.files s.enabled (run c dev dev.start_child) (pure tt) laws.quiet_start
          (λ w. refl)
