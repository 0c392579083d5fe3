-- ===== src/Usb/Wait.antt =====
-- agent/src/usb.rs: the loops that wait, on a clock in milliseconds that sleeping moves on.
use mu5250_wireguard.Base.{
  ℕ, zero, suc, ◌+◌, ◌-◌, ◌*◌, ◌/◌, ◌≤◌, ◌<◌, ◌≡◌, ◌⊎◌, inl, inr, refl, Bool, true, false, not,
  Option, none, some, if◌then◌else◌, arith, leb, ltb, Bool-cases,
}

-- `Instant::now` and `thread::sleep`.
pub record Clock (W : Type 0) : Type 0 where
  pub now : W → ℕ
  pub sleep : ℕ → W → W

abbrev pub least : ℕ → ℕ → ℕ
least a b = if ltb a b then a else b

abbrev answer {ℓ κ} :
    {A : Type ℓ} {W : Type κ} → Option A → Option (Option A × W) → W → Option (Option A × W)
answer none rest w = rest
answer (some a) rest w = some (some a, w)

module _ {W : Type 0} (clock : Clock W) where
  -- The loop of `wait_until_ready`, with fuel for its rounds; `none` where the fuel runs out.
  -- `ready` may look at the world only.
  pub ready_rounds : ℕ → (W → Bool) → ℕ → ℕ → ℕ → W → Option (Bool × W)
  ready_rounds zero ready interval deadline consecutive w = none
  ready_rounds (suc fuel) ready interval deadline consecutive w =
      let count = if ready w then consecutive + 1 else 0 in
      let slept = clock.sleep (least interval (deadline - clock.now w)) w in
      let rest = ready_rounds fuel ready interval deadline count slept in
      if not (ltb (clock.now w) deadline)
      then some (false, w)
      else if leb 4 count
      then some (true, w)
      else rest

  -- The loop of `wait_for_interface` and `wait_for_ncm_interface`: `found` is asked every 250 ms
  -- until the deadline.
  pub poll : {A : Type 0} → ℕ → (W → Option A) → ℕ → W → Option (Option A × W)
  poll zero found deadline w = none
  poll (suc fuel) found deadline w =
      let rest = poll fuel found deadline (clock.sleep 250 w) in
      if not (ltb (clock.now w) deadline) then some (none, w) else answer (found w) rest w

  -- `wait_until_ready`; `ok` says that the world became ready.
  unfoldable pub wait_until_ready : ℕ → ℕ → ℕ → (W → Bool) → W → Option (Bool × W)
  unfolding ready_rounds
  wait_until_ready fuel limit interval ready w =
      ready_rounds fuel ready interval (clock.now w + limit) 0 w

  -- Every sleep takes its time at least.
  unfoldable pub Sleeps : Type 0
  Sleeps = (d : ℕ) (w : W) → clock.now w + d ≤ clock.now (clock.sleep d w)

  -- Ready before the deadline, or late.
  abbrev pub Ended : (W → Bool) → ℕ → Bool × W → Type 0
  Ended ready deadline r =
      ((r.0 ≡ true) × (ready r.1 ≡ true) × (clock.now r.1 < deadline))
      ⊎ ((r.0 ≡ false) × (deadline ≤ clock.now r.1))

  slept :
      (f interval deadline : ℕ) (w : W)
      → Sleeps
      → deadline ≤ clock.now w + interval * suc f
      → deadline
        ≤ clock.now (clock.sleep (least interval (deadline - clock.now w)) w) + interval * f
  unfolding Sleeps
  slept f interval deadline w sleeps h =
      let d = least interval (deadline - clock.now w) in
      elim (Bool-cases (ltb interval (deadline - clock.now w))) [
        | inl e ↦ grind (arith, sleeps d w, e)
        | inr e ↦ grind (arith, sleeps d w, e)
      ]

  abbrev Ends : ℕ → (W → Bool) → ℕ → ℕ → ℕ → W → Type 0
  Ends f ready interval deadline consecutive w =
      (r : Bool × W) × (ready_rounds f ready interval deadline consecutive w ≡ some r)
      × Ended ready deadline r

  round-end :
      (f interval : ℕ) (ready : W → Bool) (deadline consecutive : ℕ) (w : W)
      → ((count : ℕ)
          → ltb (clock.now w) deadline ≡ true
          → Ends f ready interval deadline count
              (clock.sleep (least interval (deadline - clock.now w)) w))
      → Ends (suc f) ready interval deadline consecutive w
  unfolding ready_rounds
  round-end f interval ready deadline consecutive w after =
      let count : ℕ = if ready w then consecutive + 1 else 0 in
      elim (Bool-cases (ltb (clock.now w) deadline)) [
        | inr e ↦ ((false, w), rw e refl, inr (refl, ground (arith, e)))
        | inl e ↦ elim (Bool-cases (leb 4 count)) [
          | inl k ↦ ((true, w), rw (e, k) refl, inl (refl, ground (arith, k), ground (arith, e)))
          | inr k ↦ let (r, run, fin) = after count e in (r, rw (e, k) run, fin)
        ]
      ]

  rounds-end :
      (f interval : ℕ) (ready : W → Bool) (deadline consecutive : ℕ) (w : W)
      → Sleeps
      → deadline ≤ clock.now w + interval * f
      → Ends (suc f) ready interval deadline consecutive w
  rounds-end zero interval ready deadline consecutive w sleeps h =
      round-end zero interval ready deadline consecutive w (λ c e. absurd (ground (arith, e, h)))
  rounds-end (suc f) interval ready deadline consecutive w sleeps h =
      round-end (suc f) interval ready deadline consecutive w (λ c e.
        rounds-end f interval ready deadline c
          (clock.sleep (least interval (deadline - clock.now w)) w) sleeps
          (slept f interval deadline w sleeps h))

  -- On a clock whose sleeps take their time, with an interval that is not zero, and a round of fuel
  -- for each interval of the limit and two more: the wait ends; it ends in a state that is ready,
  -- before the deadline, or else at the deadline or later with the report of a timeout.
  pub wait_until_ready-ends :
      (limit interval : ℕ) (ready : W → Bool) (w : W)
      → Sleeps
      → 0 < interval
      → (r : Bool × W) × (wait_until_ready (suc (limit / interval + 1)) limit interval ready w
          ≡ some r)
        × Ended ready (clock.now w + limit) r
  unfolding wait_until_ready
  wait_until_ready-ends limit interval ready w sleeps pos =
      rounds-end (limit / interval + 1) interval ready (clock.now w + limit) 0 w sleeps
        (grind arith)
