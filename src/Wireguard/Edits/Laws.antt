-- ===== src/Wireguard/Edits/Laws.antt =====
-- agent/src/wireguard.rs: what an update of the settings keeps.
use mu5250_wireguard.Base.Decimal.{decimal}
use mu5250_wireguard.Lan.{DeviceChoice}
use mu5250_wireguard.Wireguard.Tunnel.{Tunnel}
use mu5250_wireguard.Wireguard.Settings.{
  migrate, validate, is_active, Settings, ProfileAction, save, activate, rename_to, delete,
  profile_edit, is_none,
}
use mu5250_wireguard.Wireguard.Settings.Keep.{tunnel_eq_refl}
use mu5250_wireguard.Wireguard.Edits.{
  Update, admitted, edited, load, Read, bytes, not_found, unreadable, assigned, given,
  choose_devices, import_given, act, same_texts, same_tunnel, same_network,
}
use mu5250_wireguard.Wireguard.Tunnel.{parse}
use mu5250_wireguard.Wireguard.Settings.{default}
use mu5250_wireguard.Lan.{validate_selection}
use mu5250_wireguard.Base.{
  text_eq_refl, ℕ, ◌+◌, ◌≡◌, inl, inr, refl, Bool, true, false, not, Option, none, some, List, [],
  ◌∷◌, ◌++◌, arith, Text, codes, ok, Result-cases, ◌^◌, ◌<◌, text_eq,
}

revision-profile_edit :
    (a : ProfileAction) (s : Settings) {s' : Settings}
    → profile_edit a s ≡ ok s'
    → s'.revision ≡ s.revision
unfolding profile_edit
revision-profile_edit (save name config) s h = ground arith
revision-profile_edit (activate id) s h = ground arith
revision-profile_edit (rename_to id name) s h = ground arith
revision-profile_edit (delete id) s h = ground arith

revision-import_given :
    (r : ℕ) (c : Option Text) (s : Settings) {s' : Settings}
    → import_given r c s ≡ ok s'
    → s'.revision ≡ s.revision
unfolding import_given
revision-import_given r none s h = ground arith
revision-import_given r (some text) s {s'} h = elim (Result-cases (parse text)) [
  | inr (x, e) ↦ ground (arith, e)
  | inl (t, e) ↦ ground (
    arith,
    e,
    revision-profile_edit (save (codes "Configuration " ++ decimal (r + 1)) text) s {s' = s'},
  )
]

revision-choose_devices :
    (c : Option (List DeviceChoice)) (s : Settings) {s' : Settings}
    → choose_devices c s ≡ ok s'
    → s'.revision ≡ s.revision
unfolding choose_devices
revision-choose_devices none s h = ground arith
revision-choose_devices (some c) s h = ground arith

revision-act :
    (a : Option ProfileAction) (s : Settings) {s' : Settings}
    → act a s ≡ ok s'
    → s'.revision ≡ s.revision
unfolding act
revision-act none s h = ground arith
revision-act (some a) s h = revision-profile_edit a s h

same_texts_refl : (a : List Text) → same_texts a a ≡ true
same_texts_refl [] = refl
same_texts_refl (x ∷ a) = ground (arith, text_eq_refl x, same_texts_refl a)

same_tunnel_refl : (t : Option Tunnel) → same_tunnel t t ≡ true
same_tunnel_refl none = refl
same_tunnel_refl (some t) = tunnel_eq_refl t

-- Does the action leave the active profile alone?
unfoldable pub aside : ProfileAction → Settings → Bool
aside (save name config) s = not (is_none s.active_profile)
aside (activate id) s = false
aside (rename_to id name) s = true
aside (delete id) s = not (is_active s id)

-- A profile action that leaves the active profile alone changes nothing of the network: not the
-- switch, the mode, the devices or the tunnel. Such actions are a save beside an active profile,
-- any renaming, and a deletion of another profile.
pub same_network-profile_edit :
    (a : ProfileAction) (s : Settings) {s' : Settings}
    → aside a s ≡ true
    → profile_edit a s ≡ ok s'
    → same_network s s' ≡ true
unfolding aside profile_edit same_network
same_network-profile_edit (save name config) s h e =
    ground (arith, text_eq_refl s.mode, same_texts_refl s.macs, same_tunnel_refl s.tunnel)
same_network-profile_edit (activate id) s h e = ground arith
same_network-profile_edit (rename_to id name) s h e =
    ground (arith, text_eq_refl s.mode, same_texts_refl s.macs, same_tunnel_refl s.tunnel)
same_network-profile_edit (delete id) s h e =
    ground (arith, text_eq_refl s.mode, same_texts_refl s.macs, same_tunnel_refl s.tunnel)

revision-migrate : (s : Settings) → (migrate s).revision ≡ s.revision
unfolding migrate
revision-migrate s = ground arith

-- An update that succeeds gives settings that pass the checks, with the next revision, which fits
-- into 64 bits; and the revision that the client expected, where it gave one, was the current one.
pub edited-next :
    (old : Settings) (u : Update) {s' : Settings}
    → edited old u ≡ ok s'
    → (validate s' ≡ ok tt)
      × (s'.revision ≡ old.revision + 1)
      × (s'.revision < 2 ^ 64)
      × (given u.expected_revision old.revision ≡ true)
unfolding edited admitted
edited-next old u {s'} h =
    let s0 = assigned u (record (migrate old) { revision = old.revision + 1 }) in
    elim (Result-cases (choose_devices u.devices s0)) [
      | inr (x, e) ↦ ground (arith, e)
      | inl (s1, e1) ↦ elim (Result-cases (import_given old.revision u.config_text s1)) [
        | inr (x, e) ↦ ground (arith, e1, e)
        | inl (s2, e2) ↦ elim (Result-cases (act u.profile s2)) [
          | inr (x, e) ↦ ground (arith, e1, e2, e)
          | inl (s3, e3) ↦ ground (
            arith,
            e1,
            e2,
            e3,
            revision-choose_devices u.devices s0 {s' = s1} e1,
            revision-import_given old.revision u.config_text s1 {s' = s2} e2,
            revision-act u.profile s2 {s' = s3} e3,
          )
        ]
      ]
    ]

default-valid : validate default ≡ ok tt
unfolding validate validate_selection text_eq
default-valid = refl

-- Whatever the settings file holds, the settings that are loaded pass the checks.
pub load-valid :
    (decode : Text → Option Settings) (r : Read) {s : Settings}
    → load decode r ≡ ok s
    → validate s ≡ ok tt
unfolding load
load-valid decode (bytes b) h = ground arith
load-valid decode not_found h = ground (arith, default-valid)
load-valid decode unreadable h = ground arith
