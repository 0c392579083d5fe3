-- ===== src/Singbox/Gateway.antt =====
-- agent/src/singbox.rs: an update as a whole: the files, the other gateway, the policy.
pub mod Quiet
pub mod Lost
pub mod Laws
pub mod Kept
pub mod Blobs
pub mod Ends
use mu5250_wireguard.Base.{
  ok_or, ℕ, Bool, ◌&&◌, ◌||◌, Option, none, some, List, [], ◌∷◌, if◌then◌else◌, Text, codes,
  text_eq, Result, ok, err, any, find,
}
use mu5250_wireguard.Json.{Value}
use mu5250_wireguard.Wireguard.Edits.{Read}
use mu5250_wireguard.Lan.{Failure, plain, commit_change}
use mu5250_wireguard.Singbox.Runtime.{runtime, and_then}
use mu5250_wireguard.Singbox.Settings.{
  Settings, ProfileAction, subscribe, refresh, SettingsError, not_json, in_runtime,
  subscription_url, is_id, digest,
}
use mu5250_wireguard.Singbox.Edits.{Update, validate, edited, same_network, load, blob, runtime_for}
use mu5250_wireguard.Base.World.{Io, ◌>>=◌, pure, lift, mapped, map_err, attempt}

-- What is seen of the files: the settings file, the directory of the profiles by name, and whether
-- the other gateway feature is saved as enabled.
pub record Files : Type 0 where
  pub config : Read
  pub blobs : Text → Option Text
  pub other : Bool

pub data Refusal : Type 0 where
  other_enabled cannot_store cannot_persist : Refusal
  in_settings : SettingsError → Refusal
  device : Text → Refusal

abbrev pub Outcome : Type 0
Outcome = Failure Refusal

-- The router under the update: its files, its commands and its programs.
pub record Device (W : Type 0) : Type 0 where
  pub files : W → Files
  pub write_config : Text → Io W Text (Unit {0})
  pub write_blob : Text → Text → Io W Text (Unit {0})
  pub list_blobs : W → List Text
  pub remove_blob : Text → W → W
  pub ensure_dirs : Io W Text (Unit {0})
  pub check : Value → Io W Text (Unit {0})
  pub download : Text → Io W Text Text
  pub prerequisites : Io W Text (Unit {0})
  pub write_run : Value → Io W Text (Unit {0})
  pub stop_child : W → W
  pub start_child : Io W Text (Unit {0})
  pub is_owned : W → Bool
  pub claim_resources : Io W Text (Unit {0})
  pub cleanup : Io W Text (Unit {0})
  pub policy : Text → List Text → Io W Text (Unit {0})
  pub hold : Io W Text (Unit {0})
  pub release : Io W Text (Unit {0})
  pub set_error : Option Outcome → W → W

-- What the update takes from elsewhere: SHA-256, the JSON readers and writer, the clock, and the
-- password of the control interface.
pub record Codec : Type 0 where
  pub hash : Text → Text
  pub decode : Text → Option Value
  pub decode_settings : Text → Option Settings
  pub encode_settings : Settings → Text
  pub now : ℕ
  pub secret : Text

abbrev wanted : Result SettingsError Text → Result SettingsError (Option Text)
wanted (ok url) = ok (some url)
wanted (err e) = err e

module _ {W : Type 0} (c : Codec) (dev : Device W) where
  abbrev pub run : Io W Text (Unit {0}) → Io W Refusal (Unit {0})
  run m = map_err device m

  unfoldable pub persist : Settings → Io W Refusal (Unit {0})
  persist s = map_err (λ e. cannot_persist) (dev.write_config (c.encode_settings s))

  abbrev pub keeps : Settings → Text → Bool
  keeps s name = any (λ p. text_eq (blob p.digest) name) s.profiles

  unfoldable pub collect_each : Settings → List Text → W → W
  collect_each s [] w = w
  collect_each s (name ∷ names) w =
      collect_each s names (if keeps s name then w else dev.remove_blob name w)

  unfoldable pub collect_garbage : Settings → W → W
  unfolding collect_each
  collect_garbage s w = collect_each s (dev.list_blobs w) w

  abbrev pub needed : Settings → W → Result Refusal Value
  needed s w = mapped in_settings (runtime_for c.decode c.secret (dev.files w).blobs s)

  unfoldable pub start_policy : Settings → Io W Refusal (Unit {0})
  start_policy s = do
    _ ← lift (mapped in_settings (validate s))
    _ ← run dev.prerequisites
    config ← λ w. (needed s w, w)
    _ ← run (dev.write_run config)
    _ ← run dev.claim_resources
    _ ← run dev.cleanup
    run (dev.policy s.mode s.macs)

  unfoldable pub install : Settings → Io W Refusal (Unit {0})
  unfolding start_policy
  install s w =
      let w1 = dev.stop_child w in
      if s.enabled
      then start_policy s w1
      else if dev.is_owned w1
      then run dev.cleanup w1
      else pure tt w1

  unfoldable pub apply : Settings → Io W Refusal (Unit {0})
  unfolding install
  apply s = do _ ← install s; if s.enabled then run dev.start_child else pure tt

  -- The configuration of an update that has passed `edited` goes to its own file.
  unfoldable pub store : Option Text → Io W Refusal (Unit {0})
  store none = pure tt
  store (some text) = do
    value ← lift (mapped in_settings (ok_or (c.decode text) not_json))
    (made, _) ←
        lift (mapped in_settings (mapped in_runtime (runtime value (codes "check") c.secret)))
    _ ← run (dev.check made)
    map_err (λ e. cannot_store) (dev.write_blob (blob (digest c.hash c.decode c.now text)) text)

  unfoldable pub prepare : Settings → Option Text → Io W Refusal (Unit {0})
  prepare next stored = do
    _ ← run dev.prerequisites
    _ ← elim stored [
      | some _ ↦ pure tt
      | none ↦ (λ w. (needed next w, w)) >>= λ made. run (dev.check made)
    ]
    run dev.claim_resources

  unfoldable pub conclude : Settings → Settings → Result Outcome (Unit {0}) → Io W Outcome Settings
  unfolding collect_garbage
  conclude old next (ok _) w = (ok next, dev.set_error none (collect_garbage next w))
  conclude old next (err e) w = (err e, dev.set_error (some e) (collect_garbage old w))

  -- `changing` says that the policy of the network changes, so that the guard is wanted.
  unfoldable pub carry_out : Settings → Settings → Bool → Io W Outcome Settings
  unfolding apply persist conclude
  carry_out old next changing = do
    _ ← map_err plain (if changing then run dev.hold else pure tt)
    result ←
        attempt
          (commit_change apply persist (if changing then run dev.release else pure tt) old next)
    conclude old next result

  unfoldable pub switch : Settings → Settings → Option Text → Io W Outcome Settings
  unfolding prepare carry_out
  switch old next stored = do
    _ ← map_err plain (if next.enabled then prepare next stored else pure tt)
    λ w. carry_out old next (old.enabled || next.enabled || dev.is_owned w) w

  unfoldable pub settle : Settings → Io W Outcome Settings
  unfolding persist collect_garbage
  settle next = do _ ← map_err plain (persist next); λ w. (ok next, collect_garbage next w)

  unfoldable pub refuse_both : Settings → Io W Outcome (Unit {0})
  refuse_both next w =
      (if next.enabled && (dev.files w).other then err (plain other_enabled) else ok tt, w)

  -- From the edited settings on.
  unfoldable pub change : Settings → Settings → Option Text → Io W Outcome Settings
  unfolding refuse_both store settle switch
  change old next stored = do
    _ ← refuse_both next
    _ ← map_err plain (run dev.ensure_dirs)
    _ ← map_err plain (store stored)
    if same_network old next then settle next else switch old next stored

  abbrev pub loaded : Io W Outcome Settings
  loaded w = (mapped (λ e. plain (in_settings e)) (load c.decode_settings (dev.files w).config), w)

  -- The address to download from before any lock is held.
  unfoldable pub address : Option ProfileAction → Io W Outcome (Option Text)
  address (some (subscribe name url)) =
      lift (mapped (λ e. plain (in_settings e)) (wanted (subscription_url url)))
  address (some (refresh id)) = do
    s ← loaded
    pure (and_then (find (is_id id) s.profiles) λ p. p.url)
  address _ = pure none

  unfoldable pub fetch : Option Text → Io W Outcome (Option Text)
  fetch none = pure none
  fetch (some url) = do text ← map_err (λ e. plain (device e)) (dev.download url); pure (some text)

  -- `update`, of a request that is JSON of the right form.
  unfoldable pub update : Update → Io W Outcome Settings
  unfolding address fetch change
  update u = do
    url ← address u.profile
    download ← fetch url
    old ← loaded
    (next, stored) ←
        lift (mapped (λ e. plain (in_settings e)) (edited c.hash c.decode c.now old u download))
    change old next stored
