-- ===== src/Wireguard/Settings/Profiles.antt =====
-- agent/src/wireguard.rs: the checks of a list of profiles, under the changes that are made to it.
use mu5250_wireguard.Wireguard.Settings.{
  Profile, is_id, same_name, profile_name, check_profiles, set_name, max_id,
}
use mu5250_wireguard.Wireguard.Tunnel.{validate_tunnel}
use mu5250_wireguard.Base.Digits.{lower}
use mu5250_wireguard.Base.{
  text_eq_sym, text_eq_refl, ℕ, ◌<◌, ◌≡◌, inl, inr, refl, Bool, true, false, not, ◌&&◌, List, [],
  ◌∷◌, ◌++◌, map, ◌==◌, arith, Text, text_eq, ok, any, retain, Bool-cases,
}

-- The check passes on part of the profiles, after fewer ids and names.
pub check-retain :
    (f : Profile → Bool) (ids ids' : List ℕ) (names names' : List Text) (ps : List Profile)
    → ((i : ℕ) → any (λ j. j == i) ids ≡ false → any (λ j. j == i) ids' ≡ false)
    → ((n : Text) → any (text_eq n) names ≡ false → any (text_eq n) names' ≡ false)
    → check_profiles ids names ps ≡ ok tt
    → check_profiles ids' names' (retain f ps) ≡ ok tt
unfolding check_profiles
check-retain f ids ids' names names' [] hi hn h = refl
check-retain f ids ids' names names' (p ∷ ps) hi hn h =
    let n = map lower p.name in
    elim (Bool-cases (f p)) [
      | inl e ↦ ground (
        arith,
        e,
        hi p.id,
        hn n,
        check-retain f (p.id ∷ ids) (p.id ∷ ids') (n ∷ names) (n ∷ names') ps
            (λ i k. ground (arith, hi i)) (λ x k. ground (arith, hn x)),
      )
      | inr e ↦ ground (
        arith,
        e,
        check-retain f (p.id ∷ ids) ids' (n ∷ names) names' ps (λ i k. ground (arith, hi i))
            (λ x k. ground (arith, hn x)),
      )
    ]

-- The check passes with one more profile of a new id and a new name behind the others.
pub check-append :
    (ids : List ℕ) (names : List Text) (ps : List Profile) (p : Profile)
    → check_profiles ids names ps ≡ ok tt
    → (p.id == 0) ≡ false
    → any (λ i. i == p.id) ids ≡ false
    → any (is_id p.id) ps ≡ false
    → profile_name p.name ≡ ok p.name
    → any (text_eq (map lower p.name)) names ≡ false
    → any (λ q. same_name q.name p.name) ps ≡ false
    → validate_tunnel p.tunnel ≡ ok tt
    → check_profiles ids names (ps ++ p ∷ []) ≡ ok tt
unfolding check_profiles
check-append ids names [] p h nonzero ni nps name nn nqs tunnel =
    ground (arith, text_eq_refl p.name)
check-append ids names (q ∷ ps) p h nonzero ni nps name nn nqs tunnel = ground (
  arith,
  text_eq_sym (map lower p.name) (map lower q.name),
  check-append (q.id ∷ ids) (map lower q.name ∷ names) ps p,
)

-- No profile has an id that came before.
no-id :
    (ids : List ℕ) (names : List Text) (ps : List Profile) (id : ℕ)
    → check_profiles ids names ps ≡ ok tt
    → any (λ i. i == id) ids ≡ true
    → any (is_id id) ps ≡ false
unfolding check_profiles
no-id ids names [] id h k = refl
no-id ids names (p ∷ ps) id h k =
    ground (arith, no-id (p.id ∷ ids) (map lower p.name ∷ names) ps id)

-- The check passes after other names, of which the profiles have none.
check-names :
    (ids : List ℕ) (names names' : List Text) (n : Text) (ps : List Profile)
    → ((x : Text)
        → any (text_eq x) names ≡ false
        → text_eq x n ≡ false
        → any (text_eq x) names' ≡ false)
    → any (λ p. text_eq (map lower p.name) n) ps ≡ false
    → check_profiles ids names ps ≡ ok tt
    → check_profiles ids names' ps ≡ ok tt
unfolding check_profiles
check-names ids names names' n [] hn hp h = refl
check-names ids names names' n (p ∷ ps) hn hp h =
    let m = map lower p.name in
    ground (
      arith,
      hn m,
      check-names (p.id ∷ ids) (m ∷ names) (m ∷ names') n ps (λ x k l. ground (arith, hn x)),
    )

-- Where all profiles of other ids have other names, and none has the id, none has the name.
no-name :
    (id : ℕ) (name : Text) (ps : List Profile)
    → any (is_id id) ps ≡ false
    → any (λ p. not (p.id == id) && same_name p.name name) ps ≡ false
    → any (λ p. same_name p.name name) ps ≡ false
no-name id name [] h k = refl
no-name id name (p ∷ ps) h k = ground (arith, no-name id name ps)

pub check-set_name :
    (ids : List ℕ) (names : List Text) (ps : List Profile) (id : ℕ) (name : Text)
    → check_profiles ids names ps ≡ ok tt
    → profile_name name ≡ ok name
    → any (text_eq (map lower name)) names ≡ false
    → any (λ p. not (p.id == id) && same_name p.name name) ps ≡ false
    → check_profiles ids names (set_name id name ps) ≡ ok tt
unfolding check_profiles set_name
check-set_name ids names [] id name h good nn hp = refl
check-set_name ids names (p ∷ ps) id name h good nn hp =
    let n = map lower name in
    let m = map lower p.name in
    elim (Bool-cases (p.id == id)) [
      | inl e ↦ ground (
        arith,
        e,
        text_eq_refl name,
        check-names (p.id ∷ ids) (m ∷ names) (n ∷ names) n ps (λ x k l. ground arith),
        no-id (p.id ∷ ids) (m ∷ names) ps id,
        no-name id name ps,
      )
      | inr e ↦
          ground (arith, e, text_eq_sym m n, check-set_name (p.id ∷ ids) (m ∷ names) ps id name)
    ]

pub max_id-fresh : (ps : List Profile) (id : ℕ) → max_id ps < id → any (is_id id) ps ≡ false
unfolding max_id
max_id-fresh [] id h = refl
max_id-fresh (p ∷ ps) id h = ground (arith, max_id-fresh ps id)
