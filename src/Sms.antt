-- ===== src/Sms.antt =====
-- agent/src/sms.rs: recipients, the identifiers to delete, and the wait for a command of the modem.
mod Wait
mod Tests
use mu5250_wireguard.Base.{
  ℕ, zero, suc, ◌+◌, ◌-◌, ◌*◌, ◌/◌, ◌%◌, ◌^◌, ◌≤◌, ◌<◌, ◌≡◌, ◌≢◌, ◌↔◌, ◌⊎◌, inl, inr, ◌∙◌, refl,
  sym, ap, subst, Bool, true, false, not, ◌&&◌, ◌||◌, Option, none, some, List, [], ◌∷◌, ◌++◌, map,
  ◌==◌, if◌then◌else◌, arith, Text, codes, text_eq, Result, ok, err, leb, ltb, length, any, all,
  find, retain, All, Bool-cases, Option-cases, Result-cases,
}
use mu5250_wireguard.Base.Decimal.{decimal}
use mu5250_wireguard.Base.Digits.{is_digit}
use mu5250_wireguard.Base.Int.{ℤ, pos, negsuc}

pub data Error : Type 0 where
  invalid_recipient invalid_ids command_failed timed_out : Error
  call_failed : Text → Error

abbrev is_dialable : ℕ → Bool
is_dialable b = is_digit b || b == b'+' || b == b'*' || b == b'#'

abbrev is_empty {ℓ} : {A : Type ℓ} → List A → Bool
is_empty [] = true
is_empty (a ∷ s) = false

unfoldable pub validate_recipient : Text → Result Error (Unit {0})
validate_recipient s =
    if is_empty s || ltb 32 (length s) || not (all is_dialable s)
    then err invalid_recipient
    else ok tt

pub joined : List ℕ → Text
joined [] = []
joined (id ∷ ids) = decimal id ++ b';' ∷ joined ids

unfoldable pub ids_payload : List ℕ → Result Error Text
unfolding joined
ids_payload ids =
    if is_empty ids || ltb 100 (length ids) || any (λ id. id == 0) ids
    then err invalid_ids
    else ok (joined ids)

-- `answer i` is what `command_status` returns in round `i`; the second component counts the calls.
abbrev pub is_status : ℤ → ℕ → Bool
is_status (pos n) m = n == m
is_status (negsuc n) m = false

abbrev one_more : Result Error (Unit {0}) × ℕ → Result Error (Unit {0}) × ℕ
one_more r = (r.0, r.1 + 1)

-- A round of the loop on its answer, before the rounds that may follow.
abbrev pub round : Result Text ℤ → Result Error (Unit {0}) × ℕ → Result Error (Unit {0}) × ℕ
round (err e) rest = (err (call_failed e), 1)
round (ok status) rest =
    if is_status status 3
    then (ok tt, 1)
    else if is_status status 2
    then (err command_failed, 1)
    else one_more rest

-- The loop with that many rounds left.
pub wait_rounds : (ℕ → Result Text ℤ) → ℕ → ℕ → Result Error (Unit {0}) × ℕ
wait_rounds answer zero i = (err timed_out, 0)
wait_rounds answer (suc n) i = round (answer i) (wait_rounds answer n (i + 1))

unfoldable pub wait_for_command : (ℕ → Result Text ℤ) → Result Error (Unit {0}) × ℕ
unfolding wait_rounds
wait_for_command answer = wait_rounds answer 20 0

-- `sms_delete` behind the reader of the request: `call` deletes, and the status of the answer is
-- what the client sees.
abbrev status_of : Result Error (Unit {0}) → ℕ
status_of (ok _) = 200
status_of (err e) = 503

abbrev deleted : Result Text (Unit {0}) → (ℕ → Result Text ℤ) → ℕ
deleted (err e) answer = 503
deleted (ok _) answer = status_of (wait_for_command answer).0

abbrev with_payload : Result Error Text → (Text → Result Text (Unit {0})) → (ℕ → Result Text ℤ) → ℕ
with_payload (err e) call answer = 400
with_payload (ok payload) call answer = deleted (call payload) answer

unfoldable pub sms_delete :
    (Text → Result Text (Unit {0})) → (ℕ → Result Text ℤ) → Option (List ℕ) → ℕ
sms_delete call answer none = 400
sms_delete call answer (some ids) = with_payload (ids_payload ids) call answer
