-- ===== src/Wireguard/Settings.antt =====
-- agent/src/wireguard.rs: the saved settings, their profiles, and the edits of both.

mod Profiles
pub mod Keep
use mu5250_wireguard.Wireguard.Tunnel.{
  Tunnel, Error as TunnelError, is_empty, validate_tunnel, parse,
}
use mu5250_wireguard.Lan.{Error as LanError, validate_selection}
use mu5250_wireguard.Base.World.{mapped}
use mu5250_wireguard.Base.Digits.{trim, lower}
use mu5250_wireguard.Base.{
  ensure, ok_or, ◌>>=◌, ℕ, ◌+◌, ◌^◌, Bool, true, false, not, ◌&&◌, ◌||◌, Option, none, some, List,
  [], ◌∷◌, ◌++◌, map, ◌==◌, if◌then◌else◌, Text, codes, text_eq, Result, ok, err, leb, ltb, length,
  any, find, retain,
}

pub record Profile : Type 0 where
  pub id : ℕ
  pub name : Text
  pub tunnel : Tunnel

pub record Settings : Type 0 where
  pub revision : ℕ
  pub enabled : Bool
  pub mode : Text
  pub macs : List Text
  pub tunnel : Option Tunnel
  pub profiles : List Profile
  pub active_profile : Option ℕ

-- `impl Default for Settings`.
abbrev pub default : Settings
default = record {
  revision = 0;
  enabled = false;
  mode = codes "all";
  macs = [];
  tunnel = none;
  profiles = [];
  active_profile = none;
}

pub data ProfileAction : Type 0 where
  save : Text → Text → ProfileAction
  activate : ℕ → ProfileAction
  rename_to : ℕ → Text → ProfileAction
  delete : ℕ → ProfileAction

-- The messages; those of the tunnel and of the routing mode are passed on.
pub data SettingsError : Type 0 where
  invalid_name too_many_profiles name_exists ids_exhausted profile_not_found : SettingsError
  active_in_use stale_revision partial_update mixed_devices mixed_profile : SettingsError
  revision_exhausted active_not_found duplicate_profile active_mismatch : SettingsError
  active_missing no_tunnel invalid_file unreadable_file : SettingsError
  in_tunnel : TunnelError → SettingsError
  in_lan : LanError → SettingsError

abbrev pub max_profiles : ℕ
max_profiles = 5

abbrev pub is_none {ℓ} : {A : Type ℓ} → Option A → Bool
is_none none = true
is_none (some a) = false

-- Legacy single-tunnel files gain a profile.
unfoldable pub migrate : Settings → Settings
migrate s = elim s.tunnel [
  | none ↦ s
  | some t ↦
      if is_empty s.profiles && is_none s.active_profile
      then record s {
        profiles = record { id = 1; name = codes "Current configuration"; tunnel = t } ∷ [];
        active_profile = some 1;
      }
      else s
]

-- `char::is_control`, of ASCII.
abbrev is_control : ℕ → Bool
is_control b = ltb b 32 || b == 127

unfoldable pub profile_name : Text → Result SettingsError Text
profile_name text =
    let name = trim text in
    if is_empty name || ltb 48 (length name) || any is_control name
    then err invalid_name
    else ok name

-- `a.to_lowercase() == b.to_lowercase()`.
abbrev pub same_name : Text → Text → Bool
same_name a b = text_eq (map lower a) (map lower b)

unfoldable pub max_id : List Profile → ℕ
max_id [] = 0
max_id (p ∷ ps) = if ltb p.id (max_id ps) then max_id ps else p.id

-- The id of a new profile; `none` where it does not fit into 64 bits.
unfoldable pub next_id : List Profile → Option ℕ
next_id ps = if ltb (max_id ps + 1) (2 ^ 64) then some (max_id ps + 1) else none

abbrev pub is_id : ℕ → Profile → Bool
is_id id p = p.id == id

-- Assignments through `iter_mut().find(|p| p.id == id)`.
pub set_name : ℕ → Text → List Profile → List Profile
set_name id name [] = []
set_name id name (p ∷ ps) =
    let rest = set_name id name ps in if p.id == id then record p { name = name } ∷ ps else p ∷ rest

pub set_tunnel : ℕ → Tunnel → List Profile → List Profile
set_tunnel id t [] = []
set_tunnel id t (p ∷ ps) =
    let rest = set_tunnel id t ps in if p.id == id then record p { tunnel = t } ∷ ps else p ∷ rest

abbrev pub is_active : Settings → ℕ → Bool
is_active s id = elim s.active_profile [ none ↦ false | some a ↦ a == id ]

-- The last steps of `Save`.
pub add_profile : Text → Tunnel → ℕ → Settings → Settings
add_profile name t id s =
    let added = s.profiles ++ record { id = id; name = name; tunnel = t } ∷ [] in
    if is_none s.active_profile
    then record s { profiles = added; active_profile = some id; tunnel = some t }
    else record s { profiles = added }

pub save_profile : Text → Text → Settings → Result SettingsError Settings
save_profile text config s =
    if leb max_profiles (length s.profiles) then err too_many_profiles else (do
      name ← profile_name text
      _ ← ensure (not (any (λ p. same_name p.name name) s.profiles)) name_exists
      t ← mapped in_tunnel (parse config)
      id ← ok_or (next_id s.profiles) ids_exhausted
      ok (add_profile name t id s))

pub activate_profile : ℕ → Settings → Result SettingsError Settings
activate_profile id s = elim (find (is_id id) s.profiles) [
  | none ↦ err profile_not_found
  | some p ↦ ok (record s { tunnel = some p.tunnel; active_profile = some id })
]

pub rename_profile : ℕ → Text → Settings → Result SettingsError Settings
rename_profile id text s = do
  name ← profile_name text
  _ ← ensure (not (any (λ p. not (p.id == id) && same_name p.name name) s.profiles)) name_exists
  _ ← ensure (any (is_id id) s.profiles) profile_not_found
  ok (record s { profiles = set_name id name s.profiles })

pub delete_profile : ℕ → Settings → Result SettingsError Settings
delete_profile id s =
    let rest = retain (λ p. not (p.id == id)) s.profiles in
    if not (any (is_id id) s.profiles)
    then err profile_not_found
    else if is_active s id
    then if s.enabled
      then err active_in_use
      else ok (record s { active_profile = none; tunnel = none; profiles = rest })
    else ok (record s { profiles = rest })

unfoldable pub profile_edit : ProfileAction → Settings → Result SettingsError Settings
unfolding add_profile save_profile activate_profile rename_profile delete_profile
profile_edit (save name config) s = save_profile name config s
profile_edit (activate id) s = activate_profile id s
profile_edit (rename_to id name) s = rename_profile id name s
profile_edit (delete id) s = delete_profile id s

abbrev pub tunnel_eq : Tunnel → Tunnel → Bool
tunnel_eq a b =
    text_eq a.private_key b.private_key
    && text_eq a.public_key b.public_key
    && text_eq a.preshared_key b.preshared_key
    && text_eq a.address b.address
    && text_eq a.endpoint b.endpoint
    && text_eq a.dns b.dns
    && (a.mtu == b.mtu)
    && (a.keepalive == b.keepalive)

-- `Some(&p.tunnel) == s.tunnel.as_ref()`.
abbrev pub is_tunnel : Option Tunnel → Tunnel → Bool
is_tunnel none t = false
is_tunnel (some s) t = tunnel_eq t s

-- The loop of `validate`, on the ids and the names so far.
pub check_profiles : List ℕ → List Text → List Profile → Result SettingsError (Unit {0})
check_profiles ids names [] = ok tt
check_profiles ids names (p ∷ ps) =
    let rest = check_profiles (p.id ∷ ids) (map lower p.name ∷ names) ps in
    if p.id == 0 || any (λ i. i == p.id) ids then err duplicate_profile else (do
      name ← profile_name p.name
      _ ←
          ensure (text_eq name p.name && not (any (text_eq (map lower p.name)) names))
            duplicate_profile
      _ ← mapped in_tunnel (validate_tunnel p.tunnel)
      rest)

pub check_active : Settings → Result SettingsError (Unit {0})
check_active s = elim s.active_profile [
  | some id ↦
      ensure (any (λ p. (p.id == id) && is_tunnel s.tunnel p.tunnel) s.profiles) active_mismatch
  | none ↦ ensure (is_empty s.profiles || is_none s.tunnel) active_missing
]

pub check_tunnel : Option Tunnel → Bool → Result SettingsError (Unit {0})
check_tunnel none enabled = if enabled then err no_tunnel else ok tt
check_tunnel (some t) enabled = mapped in_tunnel (validate_tunnel t)

unfoldable pub validate : Settings → Result SettingsError (Unit {0})
unfolding check_profiles check_active check_tunnel
validate s = if ltb max_profiles (length s.profiles) then err too_many_profiles else (do
  _ ← check_profiles [] [] s.profiles
  _ ← check_active s
  _ ← mapped in_lan (validate_selection s.mode s.macs)
  check_tunnel s.tunnel s.enabled)
