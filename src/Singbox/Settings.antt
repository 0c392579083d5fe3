-- ===== src/Singbox/Settings.antt =====
-- agent/src/singbox.rs: the saved settings, their profiles, and the profile actions.
use mu5250_wireguard.Auth.Hex.{hex_encode}
use mu5250_wireguard.Json.{Value}
use mu5250_wireguard.Lan.{Error as LanError}
use mu5250_wireguard.Singbox.Runtime.{Error as RuntimeError, runtime}
use mu5250_wireguard.Base.World.{mapped}
use mu5250_wireguard.Base.Digits.{trim, lower}
use mu5250_wireguard.Base.{
  ensure, ok_or, ◌>>=◌, ℕ, ◌+◌, ◌*◌, ◌^◌, Bool, true, false, not, ◌&&◌, ◌||◌, Option, none, some,
  List, [], ◌∷◌, ◌++◌, map, ◌==◌, if◌then◌else◌, Text, codes, text_eq, Result, ok, err, leb, ltb,
  length, any, all, find, retain,
}

-- A configuration is kept under the digest of its bytes.
pub record Profile : Type 0 where
  pub id : ℕ
  pub name : Text
  pub url : Option Text
  pub digest : Text
  pub nodes : ℕ
  pub updated : ℕ

pub record Settings : Type 0 where
  pub revision : ℕ
  pub enabled : Bool
  pub mode : Text
  pub macs : List Text
  pub profiles : List Profile
  pub active_profile : Option ℕ

-- `impl Default for Settings`.
abbrev pub default : Settings
default = record {
  revision = 0;
  enabled = false;
  mode = codes "all";
  macs = [];
  profiles = [];
  active_profile = none;
}

pub data ProfileAction : Type 0 where
  save : Text → Text → ProfileAction
  subscribe : Text → Text → ProfileAction
  refresh : ℕ → ProfileAction
  activate : ℕ → ProfileAction
  rename_to : ℕ → Text → ProfileAction
  delete : ℕ → ProfileAction

-- The messages; those of `runtime` and of the routing mode are passed on.
pub data SettingsError : Type 0 where
  invalid_name url_scheme invalid_url too_large not_json too_many_profiles : SettingsError
  name_exists ids_exhausted profile_not_found not_subscribed not_downloaded : SettingsError
  active_in_use stale_revision mixed_devices mixed_profile revision_exhausted : SettingsError
  too_many_saved duplicate_profile active_missing import_first : SettingsError
  invalid_file unreadable_file blob_missing blob_invalid : SettingsError
  in_runtime : RuntimeError → SettingsError
  in_lan : LanError → SettingsError

abbrev pub max_profiles : ℕ
max_profiles = 5

abbrev pub max_config : ℕ
max_config = 512 * 1024

abbrev pub is_none {ℓ} : {A : Type ℓ} → Option A → Bool
is_none none = true
is_none (some a) = false

abbrev pub is_empty {ℓ} : {A : Type ℓ} → List A → Bool
is_empty [] = true
is_empty (x ∷ xs) = false

-- `char::is_control`, of ASCII.
abbrev is_control : ℕ → Bool
is_control b = ltb b 32 || b == 127

unfoldable pub profile_name : Text → Result SettingsError Text
profile_name text =
    let name = trim text in
    if is_empty name || ltb 48 (length name) || any is_control name
    then err invalid_name
    else ok name

-- `str::strip_prefix`
unfoldable pub strip_prefix : Text → Text → Option Text
strip_prefix [] s = some s
strip_prefix (a ∷ p) [] = none
strip_prefix (a ∷ p) (b ∷ s) = let rest = strip_prefix p s in if a == b then rest else none

abbrev or_else {ℓ} : {A : Type ℓ} → Option A → Option A → Option A
or_else none o = o
or_else (some a) o = some a

-- `u8::is_ascii_graphic`
abbrev is_graphic : ℕ → Bool
is_graphic b = leb 33 b && leb b 126

unfoldable pub subscription_url : Text → Result SettingsError Text
unfolding strip_prefix
subscription_url text = do
  let url = trim text
  rest ←
      ok_or (or_else (strip_prefix (codes "https://") url) (strip_prefix (codes "http://") url))
        url_scheme
  _ ← ensure (not (is_empty rest || ltb 2048 (length url) || not (all is_graphic url))) invalid_url
  ok url

-- `a.to_lowercase() == b.to_lowercase()`.
abbrev pub same_name : Text → Text → Bool
same_name a b = text_eq (map lower a) (map lower b)

unfoldable pub max_id : List Profile → ℕ
max_id [] = 0
max_id (p ∷ ps) = if ltb p.id (max_id ps) then max_id ps else p.id

-- The id of a new profile; `none` where it does not fit into 64 bits.
unfoldable pub next_id : List Profile → Option ℕ
next_id ps = if ltb (max_id ps + 1) (2 ^ 64) then some (max_id ps + 1) else none

abbrev pub is_id : ℕ → Profile → Bool
is_id id p = p.id == id

-- An assignment through `iter_mut().find(|p| p.id == id)`.
unfoldable pub at_id : ℕ → (Profile → Profile) → List Profile → List Profile
at_id id f [] = []
at_id id f (p ∷ ps) = let rest = at_id id f ps in if p.id == id then f p ∷ ps else p ∷ rest

abbrev pub is_active : Settings → ℕ → Bool
is_active s id = elim s.active_profile [ none ↦ false | some a ↦ a == id ]

abbrev pub or_id : Option ℕ → ℕ → Option ℕ
or_id none id = some id
or_id (some a) id = some a

-- The settings that an action leaves, with the configuration to store.
abbrev pub Edited : Type 0
Edited = Settings × Option Text

unfoldable pub activate_profile : ℕ → Settings → Result SettingsError Edited
activate_profile id s = do
  _ ← ensure (any (is_id id) s.profiles) profile_not_found
  ok (record s { active_profile = some id }, none)

unfoldable pub rename_profile : ℕ → Text → Settings → Result SettingsError Edited
rename_profile id text s = do
  name ← profile_name text
  _ ← ensure (not (any (λ p. not (p.id == id) && same_name p.name name) s.profiles)) name_exists
  _ ← ensure (any (is_id id) s.profiles) profile_not_found
  ok (record s { profiles = at_id id (λ p. record p { name = name }) s.profiles }, none)

unfoldable pub delete_profile : ℕ → Settings → Result SettingsError Edited
delete_profile id s =
    let rest = retain (λ p. not (p.id == id)) s.profiles in
    if not (any (is_id id) s.profiles)
    then err profile_not_found
    else if is_active s id
    then if s.enabled
      then err active_in_use
      else ok (record s { active_profile = none; profiles = rest }, none)
    else ok (record s { profiles = rest }, none)

-- `hash` is SHA-256, `decode` the JSON reader and `now` the clock.
module _ (hash : Text → Text) (decode : Text → Option Value) (now : ℕ) where
  abbrev pub digest : Text → Text
  digest bytes = hex_encode (hash bytes)

  unfoldable pub inspect : Text → Result SettingsError (Text × ℕ)
  inspect bytes = do
    _ ← ensure (leb (length bytes) max_config) too_large
    value ← ok_or (decode bytes) not_json
    (_, nodes) ← mapped in_runtime (runtime value (codes "check") (codes "check"))
    ok (digest bytes, nodes)

  unfoldable pub add_profile : Text → Option Text → Text → Settings → Result SettingsError Settings
  add_profile text url bytes s = do
    _ ← ensure (ltb (length s.profiles) max_profiles) too_many_profiles
    name ← profile_name text
    _ ← ensure (not (any (λ p. same_name p.name name) s.profiles)) name_exists
    (d, nodes) ← inspect bytes
    id ← ok_or (next_id s.profiles) ids_exhausted
    let p : Profile = record {
      id = id;
      name = name;
      url = url;
      digest = d;
      nodes = nodes;
      updated = now;
    }
    ok (record s { active_profile = or_id s.active_profile id; profiles = s.profiles ++ p ∷ [] })

  unfoldable pub refresh_profile : ℕ → Option Text → Settings → Result SettingsError Edited
  refresh_profile id download s = do
    p ← ok_or (find (is_id id) s.profiles) profile_not_found
    _ ← ensure (not (is_none p.url)) not_subscribed
    bytes ← ok_or download not_downloaded
    (d, nodes) ← inspect bytes
    let renewed : Profile → Profile = λ q. record q { digest = d; nodes = nodes; updated = now }
    ok (record s { profiles = at_id id renewed s.profiles }, some bytes)

  unfoldable pub profile_edit : ProfileAction → Option Text → Settings → Result SettingsError Edited
  profile_edit (save name config) download s = do
    t ← add_profile name none config s
    ok (t, some config)
  profile_edit (subscribe name text) download s = do
    url ← subscription_url text
    bytes ← ok_or download not_downloaded
    t ← add_profile name (some url) bytes s
    ok (t, some bytes)
  profile_edit (refresh id) download s = refresh_profile id download s
  profile_edit (activate id) download s = activate_profile id s
  profile_edit (rename_to id name) download s = rename_profile id name s
  profile_edit (delete id) download s = delete_profile id s
