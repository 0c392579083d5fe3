-- ===== src/Auth/Tokens.antt =====
-- agent/src/auth.rs: bearer tokens: which are valid, for how long, and how many are held.
use mu5250_wireguard.Base.{
  ℕ, ◌+◌, ◌^◌, ◌≤◌, ◌<◌, ◌≡◌, refl, ◌∙◌, Text, text_eq, text_eq_refl, Bool, true, false, ap, ◌&&◌,
  List, [], ◌∷◌, length, any, retain, any-retain, any-append, length-append, length-retain,
  length-drop_one, ltb, arith, if◌then◌else◌, Bool-cases, text_eq_iff, sym, subst, inl, inr, ◌++◌,
  u64,
}
use mu5250_wireguard.Auth.{
  Token, AuthState, accepted, push_token, renew, validate, login_against, login_password,
  iterated_hash, new_token,
}

-- Is a token of this value held that expires after `now`?
abbrev pub holds : ℕ → Text → List Token → Bool
holds now value = any (λ t. text_eq t.value value && ltb now t.expires)

-- A token is accepted at `now` exactly if a token of its value is held that expires later.
pub validate-holds :
    (now : ℕ) (value : Text) (s : AuthState) → (validate now value s).0 ≡ holds now value s.tokens
unfolding validate
validate-holds now value s = any-retain _ _ s.tokens

renew-unheld :
    (now : ℕ) (value : Text) (ts : List Token)
    → any (λ t. text_eq t.value value) ts ≡ false
    → renew now value ts ≡ ts
unfolding renew
renew-unheld now value [] h = refl
renew-unheld now value (t ∷ ts) h =
    let later : any (λ t. text_eq t.value value) ts ≡ false = ground (arith, h) in
    let other : text_eq t.value value ≡ false = ground (arith, h) in
    rw other (ap (λ us. t ∷ us) (renew-unheld now value ts later))

-- The state without the tokens that have expired.
abbrev pub unexpired : ℕ → AuthState → AuthState
unexpired now s = record s { tokens = retain (λ t. ltb now t.expires) s.tokens }

-- The use of a token that is not held only drops the expired ones.
pub validate-unheld :
    (now : ℕ) (value : Text) (s : AuthState)
    → holds now value s.tokens ≡ false
    → (validate now value s).1 ≡ unexpired now s
unfolding validate
validate-unheld now value s h =
    let live = retain (λ t. ltb now t.expires) s.tokens in
    ap (λ (ts : List Token). record s { tokens = ts })
      (renew-unheld now value live (any-retain _ _ s.tokens ∙ h))

-- The second list is the first with one token of the value given another hour.
abbrev pub IsRenewed : ℕ → Text → List Token → List Token → Type 0
IsRenewed now value ts us =
    (before : List Token) × (t : Token) × (after : List Token) × (t.value ≡ value)
    × (ts ≡ before ++ t ∷ after)
    × (us ≡ before ++ record t { expires = u64 (now + 3600) } ∷ after)

renew-IsRenewed :
    (now : ℕ) (value : Text) (ts : List Token)
    → any (λ t. text_eq t.value value) ts ≡ true
    → IsRenewed now value ts (renew now value ts)
unfolding renew
renew-IsRenewed now value [] h = absurd (ground (arith, h))
renew-IsRenewed now value (t ∷ ts) h = elim (Bool-cases (text_eq t.value value)) [
  | inl e ↦ ([], t, ts, (text_eq_iff t.value value).0 e, refl, rw e refl)
  | inr e ↦
      let (before, x, after, same, old, new) =
        renew-IsRenewed now value ts (ground (arith, e, h)) in
      (t ∷ before, x, after, same, ap (λ us. t ∷ us) old, rw e (ap (λ us. t ∷ us) new))
]

pub validate-IsRenewed :
    (now : ℕ) (value : Text) (s : AuthState)
    → holds now value s.tokens ≡ true
    → (ts : List Token) × ((validate now value s).1 ≡ record s { tokens = ts })
      × IsRenewed now value (unexpired now s).tokens ts
unfolding validate
validate-IsRenewed now value s h = (
  renew now value (unexpired now s).tokens,
  refl,
  renew-IsRenewed now value (unexpired now s).tokens (any-retain _ _ s.tokens ∙ h),
)

holds-renew :
    (now later : ℕ) (value : Text) (ts : List Token)
    → now + 3600 < 2 ^ 64
    → later < now + 3600
    → any (λ t. text_eq t.value value) ts ≡ true
    → holds later value (renew now value ts) ≡ true
unfolding renew
holds-renew now later value [] top lt h = ground arith
holds-renew now later value (t ∷ ts) top lt h = ground (arith, holds-renew now later value ts)

-- Dropping what has expired changes nothing later.
holds-retain :
    (now later : ℕ) (value : Text) (ts : List Token)
    → now ≤ later
    → holds later value (retain (λ t. ltb now t.expires) ts) ≡ holds later value ts
holds-retain now later value [] le = refl
holds-retain now later value (t ∷ ts) le = ground (arith, holds-retain now later value ts le)

other_value : (x u v : Text) → text_eq x u ≡ true → text_eq u v ≡ false → text_eq x v ≡ false
other_value x u v same other =
    subst (λ y. text_eq y v ≡ false) (sym ((text_eq_iff x u).0 same)) other

-- Renewing a token changes nothing for another value.
holds-renew_other :
    (now later : ℕ) (u v : Text) (ts : List Token)
    → text_eq u v ≡ false
    → holds later v (renew now u ts) ≡ holds later v ts
unfolding renew
holds-renew_other now later u v [] other = refl
holds-renew_other now later u v (t ∷ ts) other = elim (Bool-cases (text_eq t.value u)) [
  | inl e ↦ ground (arith, e, other_value t.value u v e other)
  | inr e ↦ ground (arith, e, holds-renew_other now later u v ts other)
]

used_later :
    (now later : ℕ) (u v : Text) (ts : List Token)
    → now + 3600 < 2 ^ 64
    → later < now + 3600
    → holds later v (renew now u ts)
      ≡ (if text_eq u v && any (λ t. text_eq t.value u) ts then true else holds later v ts)
used_later now later u v ts top lt = elim (Bool-cases (text_eq u v)) [
  | inr other ↦ ground (arith, other, holds-renew_other now later u v ts other)
  | inl same ↦ elim (Bool-cases (any (λ t. text_eq t.value u) ts)) [
    | inl held ↦
        let again : holds later v (renew now u ts) ≡ true =
          subst (λ x. holds later x (renew now u ts) ≡ true) ((text_eq_iff u v).0 same)
            (holds-renew now later u ts top lt held) in
        ground (arith, same, held, again)
    | inr none_held ↦
        let alike : holds later v (renew now u ts) ≡ holds later v ts =
          ap (holds later v) (renew-unheld now u ts none_held) in
        ground (arith, same, none_held, alike)
  ]
]

-- What the use of a token at one time changes of a second use, of any token, at the same time or
-- less than an hour later: if the first use was accepted and was of the same token, the second is
-- accepted; otherwise the second has the answer that it has without the first (the end of the clock
-- being an hour away at least).
pub validate-validate :
    (now later : ℕ) (u v : Text) (s : AuthState)
    → now + 3600 < 2 ^ 64
    → now ≤ later
    → later < now + 3600
    → (validate later v (validate now u s).1).0
      ≡ (if text_eq u v && (validate now u s).0 then true else (validate later v s).0)
validate-validate now later u v s top le lt =
    let live = retain (λ t. ltb now t.expires) s.tokens in
    let after_use : (validate later v (validate now u s).1).0 ≡ holds later v (renew now u live) =
      validate-holds later v (validate now u s).1 ∙ (unfold validate in refl) in
    let first : (validate now u s).0 ≡ any (λ t. text_eq t.value u) live =
      unfold validate in refl in
    rw after_use (
      rw first (
        rw (validate-holds later v s)
          (rw (← holds-retain now later v s.tokens le) (used_later now later u v live top lt))))

holds-push_token :
    (now later : ℕ) (value : Text) (ts : List Token)
    → now + 3600 < 2 ^ 64
    → later < now + 3600
    → holds later value (push_token now value ts) ≡ true
unfolding push_token
holds-push_token now later value ts top lt = rw any-append (ground (arith, text_eq_refl value))

length-push_token :
    (now : ℕ) (value : Text) (ts : List Token)
    → length ts ≤ 10
    → length (push_token now value ts) ≤ 10
unfolding push_token
length-push_token now value ts h =
    let live = retain (λ t. ltb now t.expires) ts in
    rw length-append
      (ground (arith, length-retain (λ (t : Token). ltb now t.expires) ts, length-drop_one live))

length-renew : (now : ℕ) (value : Text) (ts : List Token) → length (renew now value ts) ≡ length ts
unfolding renew
length-renew now value [] = refl
length-renew now value (t ∷ ts) = ground (arith, length-renew now value ts)

pub validate-length :
    (now : ℕ) (value : Text) (s : AuthState)
    → length (validate now value s).1.tokens ≤ length s.tokens
unfolding validate
validate-length now value s =
    rw length-renew (length-retain (λ (t : Token). ltb now t.expires) s.tokens)

module _ (sha256 : Text → Text) where
  -- A login that is accepted gives a token that `validate` accepts at every time before the login's
  -- time plus an hour (the end of the clock being an hour away at least).
  pub validate-login :
      (password ip random : Text) (now later : ℕ) (s : AuthState) {token : Text}
      → (login_password sha256 password ip now random s).0 ≡ accepted token
      → now + 3600 < 2 ^ 64
      → later < now + 3600
      → (validate later token (login_password sha256 password ip now random s).1).0 ≡ true
  validate-login password ip random now later s {token} h top lt =
      validate-holds later token (login_password sha256 password ip now random s).1
      ∙ (unfold login_password login_against in
          ground (arith, holds-push_token now later token s.tokens))

  -- From a list of at most ten tokens, a login with a password, accepted or not, leaves at most ten.
  pub login-length :
      (password ip random : Text) (now : ℕ) (s : AuthState)
      → length s.tokens ≤ 10
      → length (login_password sha256 password ip now random s).1.tokens ≤ 10
  unfolding login_password login_against
  login-length password ip random now s h = ground (
    arith,
    length-push_token now (new_token sha256 random (iterated_hash sha256 s.salt password) now)
        s.tokens,
  )
