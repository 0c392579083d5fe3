-- ===== src/Singbox/Edits.antt =====
-- agent/src/singbox.rs: the checks of saved settings, an update of them, and the settings file.
pub mod Digests
use mu5250_wireguard.Json.{Value}
use mu5250_wireguard.Lan.{DeviceChoice, apply_devices, validate_selection}
use mu5250_wireguard.Wireguard.Edits.{Read, bytes, not_found, unreadable, sort, dedup, same_texts}
use mu5250_wireguard.Singbox.Settings.{
  Profile, Settings, ProfileAction, SettingsError, stale_revision, mixed_devices, mixed_profile,
  revision_exhausted, too_many_saved, duplicate_profile, active_missing, import_first, invalid_file,
  unreadable_file, in_lan, default, max_profiles, is_none, profile_name, subscription_url, is_id,
  blob_missing, blob_invalid, in_runtime, Edited, profile_edit,
}
use mu5250_wireguard.Singbox.Runtime.{runtime}
use mu5250_wireguard.Base.Decimal.{decimal}
use mu5250_wireguard.Base.World.{mapped}
use mu5250_wireguard.Base.Digits.{lower, is_hexdigit}
use mu5250_wireguard.Base.{
  ensure, ok_or, ◌>>=◌, is_ok, bool_eq, ℕ, ◌+◌, ◌^◌, Bool, true, false, not, ◌&&◌, ◌||◌, Option,
  none, some, List, [], ◌∷◌, map, ◌==◌, if◌then◌else◌, Text, text_eq, Result, ok, err, leb, ltb,
  length, any, all, find, ◌++◌, codes,
}

abbrev pub good_digest : Text → Bool
good_digest d = (length d == 64) && all is_hexdigit d

abbrev pub good_url : Option Text → Bool
good_url none = true
good_url (some u) = is_ok (subscription_url u)

-- The loop of `validate`, on the ids and the names so far.
unfoldable pub check_profiles : List ℕ → List Text → List Profile → Result SettingsError (Unit {0})
check_profiles ids names [] = ok tt
check_profiles ids names (p ∷ ps) =
    let rest = check_profiles (p.id ∷ ids) (map lower p.name ∷ names) ps in
    if p.id == 0 || any (λ i. i == p.id) ids then err duplicate_profile else (do
      name ← profile_name p.name
      _ ←
          ensure
            (text_eq name p.name
              && not (any (text_eq (map lower p.name)) names)
              && good_digest p.digest
              && good_url p.url)
            duplicate_profile
      rest)

abbrev found_at : Option ℕ → List Profile → Option Profile
found_at none ps = none
found_at (some id) ps = find (is_id id) ps

pub active : Settings → Option Profile
active s = found_at s.active_profile s.profiles

unfoldable pub validate : Settings → Result SettingsError (Unit {0})
unfolding active
validate s = do
  _ ← ensure (leb (length s.profiles) max_profiles) too_many_saved
  _ ← check_profiles [] [] s.profiles
  _ ← ensure (is_none s.active_profile || not (is_none (active s))) active_missing
  _ ← mapped in_lan (validate_selection s.mode s.macs)
  ensure (not (s.enabled && is_none s.active_profile)) import_first

pub record Update : Type 0 where
  pub expected_revision : ℕ
  pub enabled : Option Bool
  pub mode : Option Text
  pub macs : Option (List Text)
  pub devices : Option (List DeviceChoice)
  pub profile : Option ProfileAction

-- The refusals at the top of `edited`.
unfoldable pub admitted : ℕ → Update → Result SettingsError (Unit {0})
admitted revision u = do
  _ ← ensure (u.expected_revision == revision) stale_revision
  _ ← ensure (is_none u.devices || (is_none u.mode && is_none u.macs)) mixed_devices
  ensure
      (is_none u.profile
        || (is_none u.enabled && is_none u.mode && is_none u.macs && is_none u.devices))
      mixed_profile

abbrev pub or_old {ℓ} : {A : Type ℓ} → Option A → A → A
or_old none a = a
or_old (some b) a = b

abbrev pub lowered : Option (List Text) → List Text → List Text
lowered none macs = macs
lowered (some new) macs = map (map lower) new

-- The assignments of the update's own values, under the next revision.
abbrev pub assigned : Update → Settings → Settings
assigned u s = record s {
  revision = s.revision + 1;
  enabled = or_old u.enabled s.enabled;
  mode = or_old u.mode s.mode;
  macs = lowered u.macs s.macs;
}

unfoldable pub choose_devices :
    Option (List DeviceChoice) → Settings → Result SettingsError Settings
choose_devices none s = ok s
choose_devices (some choices) s = do
  macs ← mapped in_lan (apply_devices s.mode s.macs choices)
  ok (record s { macs = macs })

abbrev pub tidy : Settings → Settings
tidy s = record s { macs = dedup (sort s.macs) }

abbrev same_digest : Option Profile → Option Profile → Bool
same_digest none none = true
same_digest (some p) (some q) = text_eq p.digest q.digest
same_digest _ _ = false

abbrev pub same_id : Option ℕ → Option ℕ → Bool
same_id none none = true
same_id (some a) (some b) = a == b
same_id _ _ = false

unfoldable pub same_network : Settings → Settings → Bool
unfolding active
same_network a b =
    bool_eq a.enabled b.enabled
    && text_eq a.mode b.mode
    && same_texts a.macs b.macs
    && same_id a.active_profile b.active_profile
    && same_digest (active a) (active b)

module _ (hash : Text → Text) (decode : Text → Option Value) (now : ℕ) where
  unfoldable pub act : Option ProfileAction → Option Text → Settings → Result SettingsError Edited
  act none download s = ok (s, none)
  act (some a) download s = profile_edit hash decode now a download s

  unfoldable pub edited : Settings → Update → Option Text → Result SettingsError Edited
  unfolding admitted choose_devices act
  edited old u download = do
    _ ← admitted old.revision u
    _ ← ensure (ltb (old.revision + 1) (2 ^ 64)) revision_exhausted
    s ← choose_devices u.devices (assigned u old)
    (s, stored) ← act u.profile download s
    _ ← validate (tidy s)
    ok (tidy s, stored)

-- `decode` is the JSON reader for `Settings`.
unfoldable pub load : (Text → Option Settings) → Read → Result SettingsError Settings
load decode not_found = ok default
load decode unreadable = err unreadable_file
load decode (bytes b) = do s ← ok_or (decode b) invalid_file; _ ← validate s; ok s

-- The name of the file of a configuration, in the directory of the profiles.
abbrev pub blob : Text → Text
blob d = d ++ codes ".json"

-- What the router is to run for the settings: `stored` is the directory of the profiles.
unfoldable pub runtime_for :
    (Text → Option Value) → Text → (Text → Option Text) → Settings → Result SettingsError Value
unfolding active
runtime_for decode secret stored s = do
  p ← ok_or (active s) import_first
  text ← ok_or (stored (blob p.digest)) blob_missing
  value ← ok_or (decode text) blob_invalid
  (made, _) ← mapped in_runtime (runtime value (codes "profile-" ++ decimal p.id) secret)
  ok made
