-- ===== src/Auth/Tests.antt =====
-- Logins over a hash that keeps the last bytes, and the theorems at such inputs.
use mu5250_wireguard.Base.{
  ℕ, ◌≤◌, ◌≡◌, refl, Text, text_eq, text_eq_refl, codes, true, false, none, some, List, [], ◌∷◌,
  drop, arith, if◌then◌else◌, ◌&&◌,
}
use mu5250_wireguard.Auth.{
  renew, set_password, some, gate, login_against, LoginAttempt, matches, new_token, AuthState,
  accepted, locked, validate_pin, validate, login_password, iterated_hash,
}
use mu5250_wireguard.Auth.Credentials.{login-set_password}
use mu5250_wireguard.Auth.Lockout.{Try, logins, lockout_arms, login_accepted}
use mu5250_wireguard.Auth.Tokens.{validate-login, validate-validate}

-- A stand-in for the hash: the text behind the salt `1`, so that it tells passwords apart.
abbrev digest : Text → Text
digest t = drop 1 t

abbrev salt : Text
salt = 1 ∷ []

abbrev right : Text
right = codes "ok"

abbrev wrong : Text
wrong = codes "no"

abbrev state : AuthState
state = record {
  password_hash = some (codes "6f6b");
  pin_hash = none;
  salt = salt;
  tokens = [];
  failed_logins = λ ip. none;
}

pin_checks :
    (validate_pin (codes "123456") ≡ true)
    × (validate_pin (codes "12345") ≡ false)
    × (validate_pin (codes "12345x") ≡ false)
unfolding validate_pin
pin_checks = (refl, refl, refl)

hashes :
    (iterated_hash digest salt right ≡ codes "6f6b")
    × (iterated_hash digest salt wrong ≡ codes "6e6f")
unfolding iterated_hash
hashes = (refl, refl)

abbrev ip : Text
ip = codes "192.168.0.42"

abbrev other : Text
other = codes "192.168.0.99"

abbrev try_at : Text → ℕ → Try
try_at p t = record { password = p; now = t; random = codes "xx" }

abbrev tries : List Try
tries = try_at wrong 101 ∷ try_at wrong 102 ∷ try_at wrong 103 ∷ try_at wrong 110 ∷ []

is_wrong : matches state.password_hash (iterated_hash digest salt wrong) ≡ false
unfolding text_eq
is_wrong = rw hashes.1

-- Even the right password is refused while the client is locked out.
lockout_arms_example :
    login_password digest right ip 120
      (codes "xx")
      (logins digest ip (try_at wrong 100 ∷ tries) state)
    ≡ (locked 20, logins digest ip (try_at wrong 100 ∷ tries) state)
lockout_arms_example =
    lockout_arms digest ip state (try_at wrong 100) tries (try_at right 120) refl refl
      (is_wrong, (is_wrong, (is_wrong, (is_wrong, (is_wrong, tt))))) (omega arith) (omega arith)

abbrev session : Text
session = new_token digest (codes "xx") (iterated_hash digest salt right) 100

login_right : (login_password digest right ip 100 (codes "xx") state).0 ≡ accepted session
unfolding login_password login_against gate
login_right = ground (arith, hashes.0, text_eq_refl (codes "6f6b"))

login_accepted_example :
    (some (codes "6f6b") ≡ some (iterated_hash digest salt right))
    × ((a : LoginAttempt) → none ≡ some a → 5 ≤ a.count → a.locked_until ≤ 100)
    × ((login_password digest right ip 100 (codes "xx") state).1.failed_logins ip ≡ none)
login_accepted_example = login_accepted digest right ip (codes "xx") 100 state login_right

validate-login_example :
    (validate 3699 session (login_password digest right ip 100 (codes "xx") state).1).0 ≡ true
validate-login_example =
    validate-login digest right ip (codes "xx") 100 3699 state login_right (omega arith)
      (omega arith)

abbrev two_sessions : AuthState
two_sessions = record state {
  tokens =
      record { value = codes "t"; expires = 100 } ∷ record { value = codes "u"; expires = 50 } ∷ [];
}

-- The use of `t` keeps it alive after its first hour has ended, and `u` ends as it would have.
uses :
    ((validate 3000 (codes "t") (validate 1 (codes "t") two_sessions).1).0 ≡ true)
    × ((validate 3000 (codes "t") two_sessions).0 ≡ false)
    × ((validate 3000 (codes "u") (validate 1 (codes "t") two_sessions).1).0 ≡ false)
    × ((validate 40 (codes "u") (validate 1 (codes "t") two_sessions).1).0 ≡ true)
unfolding validate renew text_eq
uses = (refl, refl, refl, refl)

validate-validate_example :
    (validate 3000 (codes "t") (validate 1 (codes "t") two_sessions).1).0 ≡ (
      if text_eq (codes "t") (codes "t") && (validate 1 (codes "t") two_sessions).0
      then true
      else (validate 3000 (codes "t") two_sessions).0)
validate-validate_example =
    validate-validate 1 3000 (codes "t") (codes "t") two_sessions (omega arith) (omega arith)
      (omega arith)

abbrev zeros : Text
zeros = 0 ∷ 0 ∷ 0 ∷ 0 ∷ 0 ∷ 0 ∷ 0 ∷ 0 ∷ 0 ∷ 0 ∷ 0 ∷ 0 ∷ 0 ∷ 0 ∷ 0 ∷ 0 ∷ []

login-set_password_example :
    (login_password digest wrong ip 5 (codes "xx") (set_password digest wrong state)).0
    ≡ accepted (new_token digest (codes "xx") (iterated_hash digest salt wrong) 5)
login-set_password_example =
    login-set_password digest wrong ip (codes "xx") 5 state (λ a e five. cc)
