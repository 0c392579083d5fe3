-- ===== src/Auth.antt =====
-- agent/src/auth.rs: credentials, the lockout of a client that guesses, and bearer tokens.
-- `sha256` is the hash of the crate sha2; the clock and the random bytes of a call are arguments.
-- The table of failed logins is a function from the client's address.
pub mod Hex
pub mod Lockout
pub mod Tokens
pub mod Salt
pub mod Credentials
mod Tests
use mu5250_wireguard.Base.{
  ℕ, zero, suc, ◌+◌, ◌-◌, ◌/◌, ◌%◌, Text, codes, text_eq, Bool, true, false, not, ◌&&◌, ◌||◌,
  Option, none, some, Result, ok, err, List, [], ◌∷◌, ◌++◌, length, take, drop, all, any, retain,
  ltb, leb, ◌==◌, u32, u64, if◌then◌else◌,
}
use mu5250_wireguard.Base.Digits.{is_digit, trim}
use Hex.{hex_encode, hex_decode}

abbrev pub token_ttl_secs : ℕ
token_ttl_secs = 3600

abbrev pub max_tokens : ℕ
max_tokens = 10

abbrev pub hash_iterations : ℕ
hash_iterations = 10_000

abbrev pub max_login_attempts : ℕ
max_login_attempts = 5

abbrev pub login_lockout_secs : ℕ
login_lockout_secs = 30

abbrev pub login_attempt_ttl_secs : ℕ
login_attempt_ttl_secs = 3600

pub record Token : Type 0 where
  pub value : Text
  pub expires : ℕ

pub record LoginAttempt : Type 0 where
  pub count : ℕ
  pub locked_until : ℕ
  pub last_attempt : ℕ

abbrev pub Attempts : Type 0
Attempts = Text → Option LoginAttempt

pub record AuthState : Type 0 where
  pub password_hash : Option Text
  pub pin_hash : Option Text
  pub salt : Text
  pub tokens : List Token
  pub failed_logins : Attempts

pub data LoginResult : Type 0 where
  accepted : Text → LoginResult
  invalid : LoginResult
  locked : ℕ → LoginResult

-- `load_or_create_salt`, from the salt file and 32 random bytes; the second part is what it writes.
abbrev usable : Option Text → Option Text
usable none = none
usable (some salt) = if leb 16 (length salt) then some salt else none

chosen : Option Text → Text → Text × Option Text
chosen (some salt) random = (salt, none)
chosen none random = (random, some (hex_encode random))

unfoldable pub load_or_create_salt : Option Text → Text → Text × Option Text
unfolding chosen
load_or_create_salt none random = chosen none random
load_or_create_salt (some salt_hex) random = chosen (usable (hex_decode (trim salt_hex))) random

unfoldable pub new : Text → AuthState
new salt = record {
  password_hash = none;
  pin_hash = none;
  salt = salt;
  tokens = [];
  failed_logins = λ ip. none;
}

-- The test of `validate_pin`.
unfoldable pub validate_pin : Text → Bool
validate_pin pin = length pin == 6 && all is_digit pin

-- `HashMap::insert` and `HashMap::remove`.
abbrev pub put : Attempts → Text → LoginAttempt → Attempts
put m ip a k = if text_eq ip k then some a else m k

abbrev pub without : Attempts → Text → Attempts
without m ip k = if text_eq ip k then none else m k

-- The test of the `retain` in `record_failed_login`.
abbrev pub kept : ℕ → Option LoginAttempt → Option LoginAttempt
kept now none = none
kept now (some a) =
    if ltb now a.locked_until || ltb (now - a.last_attempt) login_attempt_ttl_secs
    then some a
    else none

abbrev entry : ℕ → Option LoginAttempt → LoginAttempt
entry now none = record { count = 0; locked_until = 0; last_attempt = now }
entry now (some a) = a

-- One more failure on an entry.
pub bumped : ℕ → LoginAttempt → LoginAttempt
bumped now a =
    let count = u32 (a.count + 1) in
    record {
      count = count;
      locked_until =
          if leb max_login_attempts count then u64 (now + login_lockout_secs) else a.locked_until;
      last_attempt = now;
    }

unfoldable pub record_failed_login : Text → ℕ → Attempts → Attempts
unfolding bumped
record_failed_login ip now m =
    put (λ k. kept now (m k)) ip (bumped now (entry now (kept now (m ip))))

-- The check of the lockout: the seconds left, or the table to go on with.
pub data Gate : Type 0 where
  shut : ℕ → Gate
  open_with : Attempts → Gate

gate_at : Option LoginAttempt → Text → ℕ → Attempts → Gate
gate_at none ip now m = open_with m
gate_at (some a) ip now m =
    if leb max_login_attempts a.count
    then (if ltb now a.locked_until then shut (a.locked_until - now) else open_with (without m ip))
    else open_with m

unfoldable pub gate : Text → ℕ → Attempts → Gate
unfolding gate_at
gate ip now m = gate_at (m ip) ip now m

-- `stored.as_deref() == Some(&hash)`
abbrev pub matches : Option Text → Text → Bool
matches none hash = false
matches (some stored) hash = text_eq stored hash

-- `u64::to_le_bytes`
le_bytes : ℕ → ℕ → Text
le_bytes zero n = []
le_bytes (suc k) n = (n % 256) ∷ le_bytes k (n / 256)

-- A new token behind those that are live, without the oldest if the list is full.
unfoldable pub push_token : ℕ → Text → List Token → List Token
push_token now value tokens =
    let live = retain (λ t. ltb now t.expires) tokens in
    (if leb max_tokens (length live) then drop 1 live else live)
    ++ record { value = value; expires = u64 (now + token_ttl_secs) } ∷ []

-- `validate`: the first live token of that value is renewed.
renew : ℕ → Text → List Token → List Token
renew now token [] = []
renew now token (t ∷ ts) =
    if text_eq t.value token
    then record t { expires = u64 (now + token_ttl_secs) } ∷ ts
    else t ∷ renew now token ts

unfoldable pub validate : ℕ → Text → AuthState → Bool × AuthState
unfolding renew
validate now token s =
    let live = retain (λ t. ltb now t.expires) s.tokens in
    (any (λ t. text_eq t.value token) live, record s { tokens = renew now token live })

module _ (sha256 : Text → Text) where
  -- The rounds of `iterated_hash` that are left.
  rehash : ℕ → Text → Text → Text
  rehash zero salt digest = digest
  rehash (suc n) salt digest = rehash n salt (sha256 (salt ++ digest))

  pub iterated_hash : Text → Text → Text
  unfolding rehash hex_encode
  iterated_hash salt password =
      hex_encode (rehash (hash_iterations - 1) salt (sha256 (salt ++ password)))

  unfoldable pub set_password : Text → AuthState → AuthState
  set_password password s = record s { password_hash = some (iterated_hash s.salt password) }

  unfoldable pub set_pin : Text → AuthState → Bool × AuthState
  set_pin pin s =
      if validate_pin pin
      then (true, record s { pin_hash = some (iterated_hash s.salt pin) })
      else (false, s)

  -- The token of a login, from the 16 random bytes.
  pub new_token : Text → Text → ℕ → Text
  unfolding le_bytes hex_encode
  new_token random hash now = hex_encode (take 16 (sha256 (random ++ (hash ++ le_bytes 8 now))))

  checked : Text → Option Text → Text → ℕ → Text → AuthState → Attempts → LoginResult × AuthState
  checked credential stored ip now random s m =
      let hash = iterated_hash s.salt credential in
      if not (matches stored hash)
      then (invalid, record s { failed_logins = record_failed_login ip now m })
      else (
        accepted (new_token random hash now),
        record s {
          failed_logins = without m ip;
          tokens = push_token now (new_token random hash now) s.tokens;
        },
      )

  unfoldable pub login_against :
      Text → Option Text → Text → ℕ → Text → AuthState → LoginResult × AuthState
  unfolding checked
  login_against credential stored ip now random s = elim (gate ip now s.failed_logins) [
    | shut left ↦ (locked left, s)
    | open_with m ↦ checked credential stored ip now random s m
  ]

  unfoldable pub login_password : Text → Text → ℕ → Text → AuthState → LoginResult × AuthState
  login_password password ip now random s = login_against password s.password_hash ip now random s

  unfoldable pub login_pin : Text → Text → ℕ → Text → AuthState → LoginResult × AuthState
  login_pin pin ip now random s =
      if validate_pin pin
      then login_against pin s.pin_hash ip now random s
      else (invalid, record s { failed_logins = record_failed_login ip now s.failed_logins })
