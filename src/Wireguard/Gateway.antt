-- ===== src/Wireguard/Gateway.antt =====
-- agent/src/wireguard.rs: an update as a whole: the settings file, the other gateway, the policy.
pub mod Laws
pub mod Saved
use mu5250_wireguard.Base.{
  ℕ, Bool, ◌&&◌, ◌||◌, Option, none, some, List, if◌then◌else◌, Text, Result, ok, err,
}
use mu5250_wireguard.Lan.{Failure, plain, commit_change}
use mu5250_wireguard.Wireguard.Tunnel.{Tunnel}
use mu5250_wireguard.Wireguard.Settings.{Settings, SettingsError, no_tunnel, validate}
use mu5250_wireguard.Wireguard.Edits.{Update, Read, edited, same_network, load, config_text}
use mu5250_wireguard.Base.World.{Io, ◌>>=◌, pure, lift, mapped, map_err, attempt}

-- What is seen of the files: the settings file, and whether the other gateway feature is saved as
-- enabled.
pub record Files : Type 0 where
  pub config : Read
  pub other : Bool

pub data Refusal : Type 0 where
  other_enabled no_kernel no_tools cannot_write cannot_persist unavailable : Refusal
  in_settings : SettingsError → Refusal
  device : Text → Refusal

abbrev pub Outcome : Type 0
Outcome = Failure Refusal

-- The router under the update: its files and its commands.
pub record Device (W : Type 0) : Type 0 where
  pub files : W → Files
  pub write_config : Text → Io W Text (Unit {0})
  pub ensure_dir : Io W Text (Unit {0})
  pub has_kernel : W → Bool
  pub has_tools : W → Bool
  pub write_peer : Text → Io W Text (Unit {0})
  pub add_link : Io W Text (Unit {0})
  pub set_peer : Io W Text (Unit {0})
  pub add_address : Text → Io W Text (Unit {0})
  pub set_up : ℕ → Io W Text (Unit {0})
  pub loosen_check : Io W Text (Unit {0})
  pub is_owned : W → Bool
  pub claim_resources : Io W Text (Unit {0})
  pub cleanup : Io W Text (Unit {0})
  pub policy : Text → List Text → Text → Io W Text (Unit {0})
  pub hold : Io W Text (Unit {0})
  pub release : Io W Text (Unit {0})
  pub set_error : Option Outcome → W → W

-- The JSON reader and writer of the settings.
pub record Codec : Type 0 where
  pub decode_settings : Text → Option Settings
  pub encode_settings : Settings → Text

module _ {W : Type 0} (c : Codec) (dev : Device W) where
  abbrev pub run : Io W Text (Unit {0}) → Io W Refusal (Unit {0})
  run m = map_err device m

  unfoldable pub persist : Settings → Io W Refusal (Unit {0})
  persist s = map_err (λ e. cannot_persist) (dev.write_config (c.encode_settings s))

  abbrev pub needs : (W → Bool) → Refusal → Io W Refusal (Unit {0})
  needs test e w = (if test w then ok tt else err e, w)

  unfoldable pub set_tunnel_up : Settings → Tunnel → Io W Refusal (Unit {0})
  set_tunnel_up s t = do
    _ ← map_err (λ e. cannot_write) (dev.write_peer (config_text t))
    _ ← run dev.claim_resources
    _ ← run dev.cleanup
    _ ← run dev.add_link
    _ ← run dev.set_peer
    _ ← run (dev.add_address t.address)
    _ ← run (dev.set_up t.mtu)
    _ ← run dev.loosen_check
    run (dev.policy s.mode s.macs t.dns)

  -- `s.tunnel.as_ref().unwrap()`, which `validate` allows.
  abbrev pub with_tunnel : Settings → Option Tunnel → Io W Refusal (Unit {0})
  with_tunnel s none = lift (err (in_settings no_tunnel))
  with_tunnel s (some t) = set_tunnel_up s t

  unfoldable pub start_tunnel : Settings → Io W Refusal (Unit {0})
  start_tunnel s = do
    _ ← lift (mapped in_settings (validate s))
    _ ← needs dev.has_kernel no_kernel
    _ ← needs dev.has_tools no_tools
    with_tunnel s s.tunnel

  unfoldable pub apply : Settings → Io W Refusal (Unit {0})
  apply s w =
      if s.enabled
      then start_tunnel s w
      else if dev.is_owned w
      then run dev.cleanup w
      else pure tt w

  unfoldable pub prepare : Io W Refusal (Unit {0})
  prepare = do
    _ ← needs (λ w. dev.has_tools w && dev.has_kernel w) unavailable
    run dev.claim_resources

  unfoldable pub conclude : Settings → Result Outcome (Unit {0}) → Io W Outcome Settings
  conclude next (ok _) w = (ok next, dev.set_error none w)
  conclude next (err e) w = (err e, dev.set_error (some e) w)

  -- `changing` says that the policy of the network changes, so that the guard is wanted.
  unfoldable pub carry_out : Settings → Settings → Bool → Io W Outcome Settings
  carry_out old next changing = do
    _ ← map_err plain (if changing then run dev.hold else pure tt)
    result ←
        attempt
          (commit_change apply persist (if changing then run dev.release else pure tt) old next)
    conclude next result

  unfoldable pub switch : Settings → Settings → Io W Outcome Settings
  switch old next = do
    _ ← map_err plain (if next.enabled then prepare else pure tt)
    λ w. carry_out old next (old.enabled || next.enabled || dev.is_owned w) w

  unfoldable pub settle : Settings → Io W Outcome Settings
  settle next = do _ ← map_err plain (persist next); pure next

  unfoldable pub refuse_both : Settings → Io W Outcome (Unit {0})
  refuse_both next w =
      (if next.enabled && (dev.files w).other then err (plain other_enabled) else ok tt, w)

  -- From the edited settings on.
  unfoldable pub change : Settings → Settings → Io W Outcome Settings
  change old next = do
    _ ← refuse_both next
    _ ← map_err plain (run dev.ensure_dir)
    if same_network old next then settle next else switch old next

  abbrev pub loaded : Io W Outcome Settings
  loaded w = (mapped (λ e. plain (in_settings e)) (load c.decode_settings (dev.files w).config), w)

  -- `update`, of a request that is JSON of the right form.
  unfoldable pub update : Update → Io W Outcome Settings
  update u = do
    old ← loaded
    next ← lift (mapped (λ e. plain (in_settings e)) (edited old u))
    change old next
