-- ===== src/Wireguard/Settings/Keep.antt =====
-- agent/src/wireguard.rs: `profile_edit` keeps what `validate` asks for.
use mu5250_wireguard.Wireguard.Settings.{
  delete, rename_to, activate, save, ProfileAction, profile_edit, Profile, Settings, is_id,
  is_tunnel, tunnel_eq, profile_name, check_profiles, validate, save_profile, activate_profile,
  rename_profile, delete_profile, add_profile, set_name, max_id, next_id,
}
use mu5250_wireguard.Wireguard.Settings.Profiles.{
  check-retain, check-append, check-set_name, max_id-fresh,
}
use mu5250_wireguard.Wireguard.Tunnel.{Tunnel, validate_tunnel, parse, parse-valid, is_empty}
use mu5250_wireguard.Base.Digits.{lower}
use mu5250_wireguard.Base.Digits.Trim.{trim-trim}
use mu5250_wireguard.Base.{
  text_eq_refl, any-append, length-append, length-retain, ℕ, ◌+◌, ◌≡◌, inl, inr, refl, Bool, true,
  false, not, ◌&&◌, Option, none, some, List, [], ◌∷◌, map, ◌==◌, arith, Text, ok, length, any,
  find, retain, Option-cases, Result-cases,
}

pub tunnel_eq_refl : (t : Tunnel) → tunnel_eq t t ≡ true
tunnel_eq_refl t = ground (
  arith,
  text_eq_refl t.private_key,
  text_eq_refl t.public_key,
  text_eq_refl t.preshared_key,
  text_eq_refl t.address,
  text_eq_refl t.endpoint,
  text_eq_refl t.dns,
)

pub profile_name-again : (s : Text) {n : Text} → profile_name s ≡ ok n → profile_name n ≡ ok n
unfolding profile_name
profile_name-again s h = ground (arith, trim-trim s)

found-valid :
    (ids : List ℕ) (names : List Text) (ps : List Profile) (id : ℕ) {p : Profile}
    → check_profiles ids names ps ≡ ok tt
    → find (is_id id) ps ≡ some p
    → validate_tunnel p.tunnel ≡ ok tt
unfolding check_profiles
found-valid ids names [] id h e = ground arith
found-valid ids names (q ∷ ps) id {p} h e =
    ground (arith, found-valid (q.id ∷ ids) (map lower q.name ∷ names) ps id {p = p})

found-matches :
    (ps : List Profile) (id : ℕ) {p : Profile}
    → find (is_id id) ps ≡ some p
    → any (λ q. (q.id == id) && is_tunnel (some p.tunnel) q.tunnel) ps ≡ true
found-matches [] id e = ground arith
found-matches (q ∷ ps) id {p} e =
    ground (arith, tunnel_eq_refl q.tunnel, found-matches ps id {p = p})

any-set_name :
    (id : ℕ) (name : Text) (ps : List Profile) (a : ℕ) (t : Option Tunnel)
    → any (λ q. (q.id == a) && is_tunnel t q.tunnel) (set_name id name ps)
      ≡ any (λ q. (q.id == a) && is_tunnel t q.tunnel) ps
unfolding set_name
any-set_name id name [] a t = refl
any-set_name id name (p ∷ ps) a t = ground (arith, any-set_name id name ps a t)

empty-set_name :
    (id : ℕ) (name : Text) (ps : List Profile) → is_empty (set_name id name ps) ≡ is_empty ps
unfolding set_name
empty-set_name id name [] = refl
empty-set_name id name (p ∷ ps) = ground arith

length-set_name :
    (id : ℕ) (name : Text) (ps : List Profile) → length (set_name id name ps) ≡ length ps
unfolding set_name
length-set_name id name [] = refl
length-set_name id name (p ∷ ps) = ground (arith, length-set_name id name ps)

any-other :
    (ps : List Profile) (id a : ℕ) (t : Option Tunnel)
    → (a == id) ≡ false
    → any (λ q. (q.id == a) && is_tunnel t q.tunnel) ps ≡ true
    → any (λ q. (q.id == a) && is_tunnel t q.tunnel) (retain (λ p. not (p.id == id)) ps) ≡ true
any-other [] id a t h k = k
any-other (p ∷ ps) id a t h k = ground (arith, any-other ps id a t)

empty-retain :
    (f : Profile → Bool) (ps : List Profile) → is_empty ps ≡ true → is_empty (retain f ps) ≡ true
empty-retain f [] h = refl
empty-retain f (p ∷ ps) h = ground arith

abbrev active : Settings → ℕ
active s = elim s.active_profile [ none ↦ 0 | some a ↦ a ]

activate-validate :
    (id : ℕ) (s : Settings) {s' : Settings}
    → activate_profile id s ≡ ok s'
    → validate s ≡ ok tt
    → validate s' ≡ ok tt
unfolding activate_profile validate
activate-validate id s h v = elim (Option-cases (find (is_id id) s.profiles)) [
  | inl e ↦ ground (arith, e)
  | inr (p, e) ↦ ground (
    arith,
    e,
    found-valid [] [] s.profiles id {p = p} (ground arith) e,
    found-matches s.profiles id e,
  )
]

rename-validate :
    (id : ℕ) (name : Text) (s : Settings) {s' : Settings}
    → rename_profile id name s ≡ ok s'
    → validate s ≡ ok tt
    → validate s' ≡ ok tt
unfolding rename_profile validate
rename-validate id name s h v = elim (Result-cases (profile_name name)) [
  | inr (x, e) ↦ ground (arith, e)
  | inl (n, e) ↦ ground (
    arith,
    e,
    profile_name-again name e,
    check-set_name [] [] s.profiles id n,
    any-set_name id n s.profiles (active s) s.tunnel,
    empty-set_name id n s.profiles,
    length-set_name id n s.profiles,
  )
]

delete-validate :
    (id : ℕ) (s : Settings) {s' : Settings}
    → delete_profile id s ≡ ok s'
    → validate s ≡ ok tt
    → validate s' ≡ ok tt
unfolding delete_profile validate
delete-validate id s h v = ground (
  arith,
  check-retain (λ p. not (p.id == id)) [] [] [] [] s.profiles (λ i k. k) (λ n k. k),
  length-retain (λ p. not (p.id == id)) s.profiles,
  any-other s.profiles id (active s) s.tunnel,
  empty-retain (λ p. not (p.id == id)) s.profiles,
)

save-validate :
    (name config : Text) (s : Settings) {s' : Settings}
    → save_profile name config s ≡ ok s'
    → validate s ≡ ok tt
    → validate s' ≡ ok tt
unfolding save_profile add_profile next_id validate
save-validate name config s h v = elim (Result-cases (profile_name name)) [
  | inr (x, e) ↦ ground (arith, e)
  | inl (n, e) ↦ elim (Result-cases (parse config)) [
    | inr (x, k) ↦ ground (arith, e, k)
    | inl (t, k) ↦
        let id = max_id s.profiles + 1 in
        let p : Profile = record { id = id; name = n; tunnel = t } in
        ground (
          arith,
          e,
          k,
          profile_name-again name e,
          parse-valid config k,
          check-append [] [] s.profiles p,
          max_id-fresh s.profiles id,
          length-append s.profiles (p ∷ []),
          any-append (λ q. (q.id == active s) && is_tunnel s.tunnel q.tunnel) s.profiles (p ∷ []),
          any-append (λ q. (q.id == id) && is_tunnel (some t) q.tunnel) s.profiles (p ∷ []),
          tunnel_eq_refl t,
        )
  ]
]

-- A profile action that succeeds on settings that pass the checks gives settings that pass them:
-- at most five profiles with distinct ids and names and valid tunnels, and the active profile's
-- tunnel as the tunnel in use.
pub profile_edit-validate :
    (a : ProfileAction) (s : Settings) {s' : Settings}
    → profile_edit a s ≡ ok s'
    → validate s ≡ ok tt
    → validate s' ≡ ok tt
unfolding profile_edit
profile_edit-validate (save name config) s h v = save-validate name config s h v
profile_edit-validate (activate id) s h v = activate-validate id s h v
profile_edit-validate (rename_to id name) s h v = rename-validate id name s h v
profile_edit-validate (delete id) s h v = delete-validate id s h v
