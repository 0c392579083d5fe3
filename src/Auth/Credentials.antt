-- ===== src/Auth/Credentials.antt =====
-- agent/src/auth.rs: a credential that was set is one that logs in.
use mu5250_wireguard.Base.{
  inr, text_eq_refl, arith, inl, ◌≤◌, some, ℕ, Text, ◌≡◌, Option-cases, refl, ◌&&◌, ◌==◌,
  if◌then◌else◌, length, all, Bool-cases,
}
use mu5250_wireguard.Auth.{
  invalid, is_digit, iterated_hash, new_token, validate_pin, accepted, set_pin, set_password, gate,
  LoginAttempt, login_against, login_pin, login_password, AuthState,
}

-- Is the client outside a lockout at `now`?
abbrev pub IsFree : Text → ℕ → AuthState → Type 0
IsFree ip now s =
    (a : LoginAttempt) → s.failed_logins ip ≡ some a → 5 ≤ a.count → a.locked_until ≤ now

module _ (sha256 : Text → Text) where
  -- A client outside a lockout that gives the password last set is accepted, with a fresh token.
  pub login-set_password :
      (password ip random : Text) (now : ℕ) (s : AuthState)
      → IsFree ip now s
      → (login_password sha256 password ip now random (set_password sha256 password s)).0
        ≡ accepted (new_token sha256 random (iterated_hash sha256 s.salt password) now)
  unfolding login_password login_against gate set_password
  login-set_password password ip random now s free =
      let hash = iterated_hash sha256 s.salt password in
      elim (Option-cases (s.failed_logins ip)) [
        | inl e ↦ ground (arith, e, text_eq_refl hash)
        | inr (a, e) ↦ ground (arith, e, text_eq_refl hash, free a e)
      ]

  -- After `set_pin pin`, a client outside a lockout that gives `pin` is accepted, with a fresh
  -- token, if `pin` is six ASCII digits; any other `pin` is refused as invalid.
  pub login_pin-set_pin :
      (pin ip random : Text) (now : ℕ) (s : AuthState)
      → IsFree ip now s
      → (login_pin sha256 pin ip now random (set_pin sha256 pin s).1).0 ≡ (
          if length pin == 6 && all is_digit pin
          then accepted (new_token sha256 random (iterated_hash sha256 s.salt pin) now)
          else invalid)
  unfolding login_pin login_against gate set_pin validate_pin
  login_pin-set_pin pin ip random now s free =
      let hash = iterated_hash sha256 s.salt pin in
      elim (Bool-cases (length pin == 6 && all is_digit pin)) [
        | inr bad ↦ rw bad refl
        | inl good ↦ rw good (elim (Option-cases (s.failed_logins ip)) [
          | inl e ↦ ground (arith, e, text_eq_refl hash)
          | inr (a, e) ↦ ground (arith, e, text_eq_refl hash, free a e)
        ])
      ]
