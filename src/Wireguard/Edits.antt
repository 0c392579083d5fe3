-- ===== src/Wireguard/Edits.antt =====
-- agent/src/wireguard.rs: an update of the settings, and the settings file.
pub mod Laws
use mu5250_wireguard.Wireguard.Settings.{
  Settings, ProfileAction, save, SettingsError, stale_revision, partial_update, mixed_devices,
  mixed_profile, revision_exhausted, active_not_found, in_tunnel, in_lan, invalid_file,
  unreadable_file, default, migrate, profile_edit, validate, set_tunnel, is_id, is_none, tunnel_eq,
}
use mu5250_wireguard.Wireguard.Tunnel.{Tunnel, is_empty, parse}
use mu5250_wireguard.Lan.{DeviceChoice, apply_devices}
use mu5250_wireguard.Base.{
  bool_eq, ensure, ◌>>=◌, ℕ, ◌+◌, ◌^◌, Bool, true, false, not, ◌&&◌, ◌||◌, Option, none, some, List,
  [], ◌∷◌, ◌++◌, map, ◌==◌, if◌then◌else◌, Text, codes, text_eq, Result, ok, err, ltb, any,
}
use mu5250_wireguard.Base.World.{mapped}
use mu5250_wireguard.Base.Decimal.{decimal}
use mu5250_wireguard.Base.Digits.{trim, lower}

pub record Update : Type 0 where
  pub enabled : Option Bool
  pub mode : Option Text
  pub macs : Option (List Text)
  pub config_text : Option Text
  pub expected_revision : Option ℕ
  pub devices : Option (List DeviceChoice)
  pub profile : Option ProfileAction

-- `macs.sort()`: the order of the bytes.
pub text_le : Text → Text → Bool
text_le [] b = true
text_le (x ∷ a) [] = false
text_le (x ∷ a) (y ∷ b) = ltb x y || (x == y && text_le a b)

pub insert : Text → List Text → List Text
insert t [] = t ∷ []
insert t (x ∷ xs) = let rest = insert t xs in if text_le t x then t ∷ x ∷ xs else x ∷ rest

unfoldable pub sort : List Text → List Text
unfolding insert
sort [] = []
sort (x ∷ xs) = insert x (sort xs)

-- `macs.dedup()`: without the repetitions next to each other.
pub dedup_after : Text → List Text → List Text
dedup_after t [] = []
dedup_after t (x ∷ xs) =
    let same = dedup_after t xs in
    let other = dedup_after x xs in if text_eq t x then same else x ∷ other

unfoldable pub dedup : List Text → List Text
unfolding dedup_after
dedup [] = []
dedup (x ∷ xs) = x ∷ dedup_after x xs

abbrev pub given : Option ℕ → ℕ → Bool
given none r = true
given (some e) r = e == r

-- The refusals at the top of `edited`.
pub admitted : ℕ → Update → Result SettingsError (Unit {0})
admitted revision u = do
  _ ← ensure (given u.expected_revision revision) stale_revision
  _ ←
      ensure
        (not
          (is_none u.expected_revision && (is_none u.enabled || is_none u.mode || is_none u.macs)))
        partial_update
  _ ← ensure (is_none u.devices || (is_none u.mode && is_none u.macs)) mixed_devices
  ensure
      (is_none u.profile
        || (not (is_none u.expected_revision)
            && is_none u.enabled
            && is_none u.mode
            && is_none u.macs
            && is_none u.devices
            && is_none u.config_text))
      mixed_profile

abbrev or_old {ℓ} : {A : Type ℓ} → Option A → A → A
or_old none a = a
or_old (some b) a = b

abbrev lowered : Option (List Text) → List Text → List Text
lowered none macs = macs
lowered (some new) macs = map (map lower) new

-- The assignments of the update's own values.
abbrev pub assigned : Update → Settings → Settings
assigned u s = record s {
  enabled = or_old u.enabled s.enabled;
  mode = or_old u.mode s.mode;
  macs = lowered u.macs s.macs;
}

pub choose_devices : Option (List DeviceChoice) → Settings → Result SettingsError Settings
choose_devices none s = ok s
choose_devices (some choices) s = do
  macs ← mapped in_lan (apply_devices s.mode s.macs choices)
  ok (record s { macs = macs })

-- A configuration goes to the active profile, or into a new one.
pub import_config : ℕ → Text → Settings → Result SettingsError Settings
import_config revision text s = do
  t ← mapped in_tunnel (parse text)
  elim s.active_profile [
    | none ↦ profile_edit (save (codes "Configuration " ++ decimal (revision + 1)) text) s
    | some id ↦
        if any (is_id id) s.profiles
        then ok (record s { profiles = set_tunnel id t s.profiles; tunnel = some t })
        else err active_not_found
  ]

pub import_given : ℕ → Option Text → Settings → Result SettingsError Settings
unfolding import_config
import_given revision none s = ok s
import_given revision (some text) s =
    if is_empty (trim text) then ok s else import_config revision text s

pub act : Option ProfileAction → Settings → Result SettingsError Settings
act none s = ok s
act (some a) s = profile_edit a s

abbrev pub tidy : Settings → Settings
tidy s = record s { macs = dedup (sort s.macs) }

unfoldable pub edited : Settings → Update → Result SettingsError Settings
unfolding admitted choose_devices import_given act
edited old u = do
  _ ← admitted old.revision u
  _ ← ensure (ltb (old.revision + 1) (2 ^ 64)) revision_exhausted
  s ← choose_devices u.devices (assigned u (record (migrate old) { revision = old.revision + 1 }))
  s ← import_given old.revision u.config_text s
  s ← act u.profile s
  _ ← validate (tidy s)
  ok (tidy s)

abbrev pub same_texts : List Text → List Text → Bool
same_texts [] [] = true
same_texts (a ∷ s) (b ∷ t) = text_eq a b && same_texts s t
same_texts _ _ = false

abbrev pub same_tunnel : Option Tunnel → Option Tunnel → Bool
same_tunnel none none = true
same_tunnel (some a) (some b) = tunnel_eq a b
same_tunnel _ _ = false

unfoldable pub same_network : Settings → Settings → Bool
same_network a b =
    bool_eq a.enabled b.enabled
    && text_eq a.mode b.mode
    && same_texts a.macs b.macs
    && same_tunnel a.tunnel b.tunnel

-- What `fs::read` of the settings file gives.
pub data Read : Type 0 where
  bytes : Text → Read
  not_found unreadable : Read

-- `decode` is the JSON reader for `Settings`.
unfoldable pub load : (Text → Option Settings) → Read → Result SettingsError Settings
load decode not_found = ok default
load decode unreadable = err unreadable_file
load decode (bytes b) = elim (decode b) [
  | none ↦ err invalid_file
  | some s ↦ (do _ ← validate (migrate s); ok (migrate s))
]

unfoldable pub config_text : Tunnel → Text
config_text t =
    codes "[Interface]\nPrivateKey = "
    ++ t.private_key
    ++ codes "\n[Peer]\nPublicKey = "
    ++ t.public_key
    ++ codes "\nEndpoint = "
    ++ t.endpoint
    ++ codes "\nAllowedIPs = 0.0.0.0/0\nPersistentKeepalive = "
    ++ decimal t.keepalive
    ++ codes "\n"
    ++ (if is_empty t.preshared_key
        then []
        else codes "PresharedKey = " ++ t.preshared_key ++ codes "\n")
