-- ===== src/Sms/Wait.antt =====
-- agent/src/sms.rs: when the wait for a command succeeds.
use mu5250_wireguard.Base.{
  ℕ, zero, suc, ◌+◌, ◌<◌, ◌≡◌, inl, inr, refl, Bool, true, false, not, ◌&&◌, arith, Text, Result,
  ok, err, Bool-cases, ◌↔◌, ap,
}
use mu5250_wireguard.Sms.{Error, wait_rounds, wait_for_command, round, is_status}
use mu5250_wireguard.Base.Int.{ℤ, pos, negsuc}

-- The command is neither done nor failed.
abbrev pub is_pending : Result Text ℤ → Bool
is_pending (err e) = false
is_pending (ok status) = not (is_status status 3) && not (is_status status 2)

-- Round `i + k` reports that the command is done, and the rounds from `i` up to it are pending.
unfoldable pub DoneAt : (ℕ → Result Text ℤ) → ℕ → ℕ → Type 0
DoneAt answer i zero = answer i ≡ ok (pos 3)
DoneAt answer i (suc k) = (is_pending (answer i) ≡ true) × DoneAt answer (i + 1) k

rounds-done :
    (answer : ℕ → Result Text ℤ) (n i k : ℕ)
    → k < n
    → DoneAt answer i k
    → wait_rounds answer n i ≡ (ok tt, k + 1)
unfolding wait_rounds DoneAt
rounds-done answer zero i k h d = absurd (omega arith)
rounds-done answer (suc n) i zero h d = rw d refl
rounds-done answer (suc n) i (suc k) h d = ground (arith, rounds-done answer n (i + 1) k)

abbrev is_done : Result Text ℤ → Bool
is_done (err e) = false
is_done (ok status) = is_status status 3

done : (r : Result Text ℤ) → is_done r ≡ true → r ≡ ok (pos 3)
done (err e) d = absurd (ground arith)
done (ok (pos n)) d = ground arith
done (ok (negsuc n)) d = absurd (ground arith)

goes_on :
    (r : Result Text ℤ) (rest : Result Error (Unit {0}) × ℕ)
    → is_done r ≡ false
    → (round r rest).0 ≡ ok tt
    → (is_pending r ≡ true) × (rest.0 ≡ ok tt)
goes_on (err e) rest d h = absurd (ground arith)
goes_on (ok status) rest d h = ground arith

rounds-ok :
    (answer : ℕ → Result Text ℤ) (n i : ℕ)
    → (wait_rounds answer n i).0 ≡ ok tt
    → (k : ℕ) × (k < n) × DoneAt answer i k
unfolding wait_rounds DoneAt
rounds-ok answer zero i h = absurd (ground arith)
rounds-ok answer (suc n) i h = elim (Bool-cases (is_done (answer i))) [
  | inl d ↦ (0, omega arith, done (answer i) d)
  | inr d ↦
      let (pending, rest) = goes_on (answer i) (wait_rounds answer n (i + 1)) d h in
      let (k, less, later) = rounds-ok answer n (i + 1) rest in
      (suc k, omega (arith, less), (pending, later))
]

-- The wait succeeds exactly if one of the first twenty answers says that the command is done and
-- all before it are pending, and it has then asked just so often.
pub wait_for_command-ok :
    (answer : ℕ → Result Text ℤ)
    → ((wait_for_command answer).0 ≡ ok tt)
      ↔ ((k : ℕ) × (k < 20) × DoneAt answer 0 k × (wait_for_command answer ≡ (ok tt, k + 1)))
unfolding wait_for_command
wait_for_command-ok answer = (
  λ h. let (k, less, d) = rounds-ok answer 20 0 h in (k, less, d, rounds-done answer 20 0 k less d),
  λ r. ap (λ p. p.0) r.3,
)
