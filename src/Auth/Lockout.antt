-- ===== src/Auth/Lockout.antt =====
-- agent/src/auth.rs: the lockout of a client after repeated failures.
use mu5250_wireguard.Base.{
  ℕ, zero, suc, ◌+◌, ◌-◌, ◌^◌, ◌≤◌, ◌<◌, ◌≡◌, ap, Text, text_eq_iff, text_eq_refl, false, Option,
  none, some, List, [], ◌∷◌, length, All, subst, Option-cases, arith, inl, inr,
}
use mu5250_wireguard.Auth.{
  LoginAttempt, AuthState, Attempts, LoginResult, accepted, invalid, locked, matches,
  record_failed_login, gate, iterated_hash, login_against, login_password,
}

-- The entry of a client with `n` failures, the last at `t`, none of which armed the lockout.
abbrev pub Unlocked : ℕ → ℕ → Option LoginAttempt → Type 0
Unlocked zero t o = o ≡ none
Unlocked (suc n) t o = o ≡ some (record { count = suc n; locked_until = 0; last_attempt = t })

abbrev pub Locked : ℕ → Option LoginAttempt → Type 0
Locked t o = o ≡ some (record { count = 5; locked_until = t + 30; last_attempt = t })

failed-Unlocked :
    (n t now : ℕ) (ip : Text) (m : Attempts)
    → n < 4
    → t ≤ now
    → now < t + 3600
    → Unlocked n t (m ip)
    → Unlocked (suc n) now (record_failed_login ip now m ip)
unfolding record_failed_login
failed-Unlocked zero t now ip m h le lt u = ground (arith, text_eq_refl ip)
failed-Unlocked (suc n) t now ip m h le lt u = ground (arith, text_eq_refl ip)

failed-Locked :
    (t now : ℕ) (ip : Text) (m : Attempts)
    → t ≤ now
    → now < t + 3600
    → now + 30 < 2 ^ 64
    → Unlocked 4 t (m ip)
    → Locked now (record_failed_login ip now m ip)
unfolding record_failed_login
failed-Locked t now ip m le lt top u = ground (arith, text_eq_refl ip)

-- A login that the caller makes: the password, the time, and the random bytes it is given.
pub record Try : Type 0 where
  pub password : Text
  pub now : ℕ
  pub random : Text

module _ (sha256 : Text → Text) where
  -- The state after the logins of one client.
  pub logins : Text → List Try → AuthState → AuthState
  logins ip [] s = s
  logins ip (t ∷ ts) s = logins ip ts (login_password sha256 t.password ip t.now t.random s).1

  abbrev pub IsWrong : AuthState → Try → Type 0
  IsWrong s t = matches s.password_hash (iterated_hash sha256 s.salt t.password) ≡ false

  login-Unlocked :
      (n t : ℕ) (ip : Text) (s : AuthState) (x : Try)
      → n < 5
      → Unlocked n t (s.failed_logins ip)
      → IsWrong s x
      → (login_password sha256 x.password ip x.now x.random s)
        ≡ (invalid, record s { failed_logins = record_failed_login ip x.now s.failed_logins })
  unfolding login_password login_against gate
  login-Unlocked zero t ip s x h u wrong = ground arith
  login-Unlocked (suc n) t ip s x h u wrong = ground arith

  logins_step :
      (n t : ℕ) (ip : Text) (s : AuthState) (x : Try) (ts : List Try)
      → n < 5
      → Unlocked n t (s.failed_logins ip)
      → IsWrong s x
      → logins ip (x ∷ ts) s
        ≡ logins ip ts (record s { failed_logins = record_failed_login ip x.now s.failed_logins })
  unfolding logins
  logins_step n t ip s x ts h u wrong =
      ap (λ (r : LoginResult × AuthState). logins ip ts r.1) (login-Unlocked n t ip s x h u wrong)

  -- Each try follows the one before it within the hour, and far from the end of the clock.
  abbrev pub Spaced : ℕ → List Try → Type 0
  Spaced t [] = Unit
  Spaced t (x ∷ xs) = (t ≤ x.now) × (x.now < t + 3600) × (x.now + 30 < 2 ^ 64) × Spaced x.now xs

  abbrev pub last_time : ℕ → List Try → ℕ
  last_time t [] = t
  last_time t (x ∷ xs) = last_time x.now xs

  logins-Locked :
      (n t : ℕ) (ip : Text) (ts : List Try) (s : AuthState)
      → n + length ts ≡ 5
      → n < 5
      → Unlocked n t (s.failed_logins ip)
      → All (IsWrong s) ts
      → Spaced t ts
      → Locked (last_time t ts) ((logins ip ts s).failed_logins ip)
  unfolding logins
  logins-Locked n t ip [] s five room u wrong near = absurd (omega arith)
  logins-Locked n t ip (x ∷ []) s five room u (wrong, _) (after, soon, fits, _) =
      let e : n ≡ 4 = omega arith in
      rw (logins_step n t ip s x [] room u wrong) (
        failed-Locked t x.now ip s.failed_logins after soon fits
          (subst (λ k. Unlocked k t (s.failed_logins ip)) e u))
  logins-Locked n t ip (x ∷ y ∷ ts) s five room u (wrong, more) (after, soon, fits, near) =
      rw (logins_step n t ip s x (y ∷ ts) room u wrong) (
        logins-Locked (suc n) x.now ip (y ∷ ts) _ (omega arith) (omega arith)
          (failed-Unlocked n t x.now ip s.failed_logins (omega arith) after soon u) more near)

  login-Locked :
      (t : ℕ) (ip : Text) (s : AuthState) (x : Try)
      → Locked t (s.failed_logins ip)
      → x.now < t + 30
      → login_password sha256 x.password ip x.now x.random s ≡ (locked (t + 30 - x.now), s)
  unfolding login_password login_against gate
  login-Locked t ip s x l early = ground arith

  -- Five wrong passwords from one client that had no failures, each within the hour of the one
  -- before, lock it out for thirty seconds from the last: until then a login with any password,
  -- the right one too, is refused with the seconds left and changes nothing.
  pub lockout_arms :
      (ip : Text) (s : AuthState) (first : Try) (ts : List Try) (next : Try)
      → length ts ≡ 4
      → s.failed_logins ip ≡ none
      → All (IsWrong s) (first ∷ ts)
      → Spaced first.now (first ∷ ts)
      → next.now < last_time first.now ts + 30
      → login_password sha256 next.password ip next.now next.random (logins ip (first ∷ ts) s)
        ≡ (locked (last_time first.now ts + 30 - next.now), logins ip (first ∷ ts) s)
  lockout_arms ip s first ts next four clean wrong near early =
      login-Locked (last_time first.now ts) ip _ next
        (logins-Locked 0 first.now ip (first ∷ ts) s (omega arith) (omega arith) clean wrong near)
        early

  -- A login is accepted only with the stored credential and outside a lockout, and it clears the
  -- client's failures.
  pub login_accepted :
      (password ip random : Text) (now : ℕ) (s : AuthState) {token : Text}
      → (login_password sha256 password ip now random s).0 ≡ accepted token
      → (s.password_hash ≡ some (iterated_hash sha256 s.salt password))
        × ((a : LoginAttempt) → s.failed_logins ip ≡ some a → 5 ≤ a.count → a.locked_until ≤ now)
        × ((login_password sha256 password ip now random s).1.failed_logins ip ≡ none)
  unfolding login_password login_against gate
  login_accepted password ip random now s h = elim (Option-cases s.password_hash) [
    | inl e ↦ ground (arith, e)
    | inr (stored, e) ↦
        let hash = iterated_hash sha256 s.salt password in
        (
          ground (arith, e, text_eq_iff stored hash),
          λ a held five. ground (arith, e),
          ground (arith, e, text_eq_refl ip),
        )
  ]
