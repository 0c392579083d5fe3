-- ===== src/Runner/Bounded.antt =====
-- process-runner/src/lib.rs: `output` ends, and what it returns is within the limit.
use mu5250_wireguard.Runner.{
  Attempt, got, would_block, interrupted, failed, Error, Child, Pipe, Run, Output, drain_rounds,
  drained, drain, feed, fed, closed, collect, wait, turn, finished_by, pause, loop, after_turn,
  ended, polled, Looped, cleaned, output, is_empty, waited, timed_out,
}
use mu5250_wireguard.Base.World.{Io, continue}
use mu5250_wireguard.Base.{
  ℕ, zero, suc, ◌+◌, ◌≤◌, ◌<◌, ◌≡◌, ◌⊎◌, inl, inr, refl, subst, Bool, true, false, not, ◌&&◌,
  Option, none, some, [], ◌∷◌, ◌++◌, if◌then◌else◌, arith, Text, Result, ok, err, ltb, leb, length,
  take, Bool-cases, length-append, sym,
}

-- What is read is within the limit, where there was no error.
abbrev Fits : ℕ → Result Error Pipe → Type 0
Fits limit (ok p) = length p.bytes ≤ limit
Fits limit (err e) = Unit

abbrev IsWithin : ℕ → Run → Type 0
IsWithin limit s = (length s.out.bytes ≤ limit) × (length s.errors.bytes ≤ limit)

abbrev Within : ℕ → Result Error Run → Type 0
Within limit (ok s) = IsWithin limit s
Within limit (err e) = Unit

-- The clock does not go back while the child is used, and a turn's `poll` takes some time.
pub record IsTimed {W : Type 0} (child : Child W) : Type 0 where
  pub write_later : (t : Text) (w : W) → child.now w ≤ child.now (child.write_stdin t w).1
  pub stdout_later : (w : W) → child.now w ≤ child.now (child.read_stdout w).1
  pub stderr_later : (w : W) → child.now w ≤ child.now (child.read_stderr w).1
  pub wait_later : (w : W) → child.now w ≤ child.now (child.try_wait w).1
  pub poll_later : (ms : ℕ) (w : W) → child.now w < child.now (child.poll ms w).1

module _ {W : Type 0} (limit : ℕ) (read : W → Attempt Text × W) (now : W → ℕ)
    (later : (w : W) → now w ≤ now (read w).1) where
  -- Within the limit, at a later time.
  abbrev Drains : W → Result Error Pipe × W → Type 0
  Drains w x = Fits limit x.0 × (now w ≤ now x.1)

  drained-Drains :
      (more : Pipe → W → Result Error Pipe × W) (p : Pipe) (a : Attempt Text) (w v : W)
      → ((q : Pipe) (u : W) → length q.bytes ≤ limit → Drains u (more q u))
      → length p.bytes ≤ limit
      → now w ≤ now v
      → Drains w (drained limit read more p a v)
  unfolding drained
  drained-Drains more p (got []) w v go h t = (h, t)
  drained-Drains more p (got (b ∷ s)) w v go h t =
      elim (Bool-cases (ltb limit (length p.bytes + length (b ∷ s)))) [
        | inl e ↦ rw e (tt, t)
        | inr e ↦
            let whole = length-append p.bytes (b ∷ s) in
            let (fits, at) =
              go (record p { bytes = p.bytes ++ (b ∷ s) }) v (ground (arith, e, whole)) in
            rw e (fits, omega (arith, t, at))
      ]
  drained-Drains more p would_block w v go h t = (h, t)
  drained-Drains more p interrupted w v go h t =
      let (fits, at) = go p v h in (fits, omega (arith, t, at))
  drained-Drains more p (failed e) w v go h t = (tt, t)

  rounds-Drains :
      (k : ℕ) (p : Pipe) (w : W) → length p.bytes ≤ limit → Drains w (drain_rounds limit read k p w)
  unfolding drain_rounds
  rounds-Drains zero p w h = (h, omega arith)
  rounds-Drains (suc k) p w h =
      drained-Drains (drain_rounds limit read k) p (read w).0 w (read w).1 (rounds-Drains k) h
        (later w)

  drain-Drains : (p : Pipe) (w : W) → length p.bytes ≤ limit → Drains w (drain limit read p w)
  unfolding drain
  drain-Drains p w h = chosen p.is_open (drain_rounds limit read 8 p w) (rounds-Drains 8 p w h)
    where
      chosen :
          (b : Bool) (x : Result Error Pipe × W)
          → Drains w x
          → Drains w (if b then x else (ok p, w))
      chosen true x k = k
      chosen false x k = (h, omega arith)

module _ {W : Type 0} (child : Child W) (limit deadline : ℕ) (timed : IsTimed child) where
  abbrev Turns : W → Result Error Run × W → Type 0
  Turns w x = Within limit x.0 × (child.now w ≤ child.now x.1)

  after_step :
      {A : Type 0} (r : Result Error A) (k : A → Io W Error Run) (w v : W)
      → child.now w ≤ child.now v
      → ((a : A) → r ≡ ok a → Turns v (k a v))
      → Turns w (continue r k v)
  after_step (ok a) k w v t go = let (fits, at) = go a refl in (fits, omega (arith, t, at))
  after_step (err e) k w v t go = (tt, t)

  either :
      (b : Bool) (x y : Result Error Run × W) (w : W)
      → Turns w x
      → Turns w y
      → Turns w (if b then x else y)
  either true x y w h k = h
  either false x y w h k = k

  closed-IsWithin : (s : Run) → IsWithin limit s → IsWithin limit (closed child limit deadline s)
  closed-IsWithin s (h, k) = ground (arith, h, k)

  fed-Within :
      (s : Run) (a : Attempt ℕ) (w : W)
      → IsWithin limit s
      → Within limit (fed child limit deadline s a w).0
  fed-Within s (got n) w h = h
  fed-Within s would_block w h = h
  fed-Within s interrupted w h = h
  fed-Within s (failed e) w h = tt

  fed-world : (s : Run) (a : Attempt ℕ) (w : W) → (fed child limit deadline s a w).1 ≡ w
  fed-world s (got n) w = refl
  fed-world s would_block w = refl
  fed-world s interrupted w = refl
  fed-world s (failed e) w = refl

  feed-Turns : (s : Run) (w : W) → IsWithin limit s → Turns w (feed child limit deadline s w)
  unfolding feed
  feed-Turns s w h =
      let a = child.write_stdin (take 65536 s.left) w in
      let r = fed child limit deadline s a.0 a.1 in
      let fits = fed-Within s a.0 a.1 h in
      let at : child.now w ≤ child.now r.1 =
        subst (λ v. child.now w ≤ child.now v) (sym (fed-world s a.0 a.1))
          (timed.write_later (take 65536 s.left) w) in
      either (not s.stdin) (ok s, w) _ w (h, omega arith)
        (either (is_empty s.left) (ok (closed child limit deadline s), w) _ w
          (closed-IsWithin s h, omega arith)
          (after_step r.0 (λ t v. (ok (closed child limit deadline t), v)) w r.1 at
            λ t e. (closed-IsWithin t (subst (Within limit) e fits), omega arith)))

  collect-Turns : (s : Run) (w : W) → IsWithin limit s → Turns w (collect child limit deadline s w)
  unfolding collect
  collect-Turns s w (h, k) =
      let x = drain limit child.read_stdout s.out w in
      let (fits, at) =
        drain-Drains limit child.read_stdout child.now timed.stdout_later s.out w h in
      after_step x.0 _ w x.1 at λ out e.
        let y = drain limit child.read_stderr s.errors x.1 in
        let (fits', at') =
          drain-Drains limit child.read_stderr child.now timed.stderr_later s.errors x.1 k in
        after_step y.0 _ x.1 y.1 at'
          λ errors e'. ((subst (Fits limit) e fits, subst (Fits limit) e' fits'), omega arith)

  waited-Turns :
      (o : Option ℕ) (s : Run) (w : W)
      → IsWithin limit s
      → Turns w (waited child limit deadline o s w)
  waited-Turns (some n) s w h = (h, omega arith)
  waited-Turns none s w h =
      after_step (child.try_wait w).0 _ w (child.try_wait w).1 (timed.wait_later w)
        λ n e. (h, omega arith)

  wait-Turns : (s : Run) (w : W) → IsWithin limit s → Turns w (wait child limit deadline s w)
  unfolding wait
  wait-Turns s w h = waited-Turns s.status s w h

  turn-Turns : (s : Run) (w : W) → IsWithin limit s → Turns w (turn child limit deadline s w)
  unfolding turn
  turn-Turns s w h =
      let x = feed child limit deadline s w in
      let (fits, at) = feed-Turns s w h in
      after_step x.0 _ w x.1 at λ s1 e1.
        let y = collect child limit deadline s1 x.1 in
        let (fits', at') = collect-Turns s1 x.1 (subst (Within limit) e1 fits) in
        after_step y.0 _ x.1 y.1 at' λ s2 e2. wait-Turns s2 y.1 (subst (Within limit) e2 fits')

  -- An error, or an output within the limit.
  abbrev Ended : Looped child limit deadline → Type 0
  Ended x =
      ((e : Error) × (x.0 ≡ some (err e)))
      ⊎ ((o : Output) × (x.0 ≡ some (ok o)) × (length o.stdout ≤ limit) × (length o.stderr ≤ limit))

  finished-bytes :
      (t : Option ℕ) (s : Run) {o : Output}
      → finished_by child limit deadline t s ≡ some o
      → (o.stdout ≡ s.out.bytes) × (o.stderr ≡ s.errors.bytes)
  finished-bytes none s h = absurd (ground (arith, h))
  finished-bytes (some n) s h =
      elim (Bool-cases (not s.stdin && not s.out.is_open && not s.errors.is_open)) [
        | inl e ↦ ground (arith, e, h)
        | inr e ↦ absurd (ground (arith, e, h))
      ]

  polled-Ended :
      (again : Run → W → Looped child limit deadline) (r : Result Error (Unit {0})) (s : Run)
      (w : W)
      → Ended (again s w)
      → Ended (polled child limit deadline again r s w)
  polled-Ended again (ok _) s w h = h
  polled-Ended again (err e) s w h = inl (e, refl)

  ended-Ended :
      (again : Run → W → Looped child limit deadline) (f : Option Output) (s : Run) (w : W)
      → IsWithin limit s
      → finished_by child limit deadline s.status s ≡ f
      → ((v : W) → child.now w < child.now v → Ended (again s v))
      → Ended (ended child limit deadline again f s w)
  ended-Ended again (some o) s w (h, k) e go =
      let (out, errors) = finished-bytes s.status s e in
      inr (
        o,
        refl,
        subst (λ t. length t ≤ limit) (sym out) h,
        subst (λ t. length t ≤ limit) (sym errors) k,
      )
  ended-Ended again none s w h e go =
      let ms = pause child limit deadline w in
      polled-Ended again (child.poll ms w).0 s (child.poll ms w).1
        (go (child.poll ms w).1 (timed.poll_later ms w))

  after_turn-Ended :
      (again : Run → W → Looped child limit deadline) (r : Result Error Run) (w : W)
      → Within limit r
      → ((s : Run) (v : W) → IsWithin limit s → child.now w < child.now v → Ended (again s v))
      → Ended (after_turn child limit deadline again r w)
  after_turn-Ended again (err e) w h go = inl (e, refl)
  after_turn-Ended again (ok s) w h go =
      ended-Ended again (finished_by child limit deadline s.status s) s w h refl (λ v. go s v h)

  stopped :
      (x : Looped child limit deadline) (b : Bool) (w : W)
      → (b ≡ false → Ended x)
      → Ended (if b then (some (err timed_out), w) else x)
  stopped x true w h = inl (timed_out, refl)
  stopped x false w h = h refl

  loop-Ended :
      (k : ℕ) (s : Run) (w : W)
      → IsWithin limit s
      → deadline ≤ child.now w + k
      → Ended (loop child limit deadline (suc k) s w)
  unfolding loop
  loop-Ended zero s w h enough =
      stopped
        (after_turn child limit deadline (loop child limit deadline 0)
          (turn child limit deadline s w).0 (turn child limit deadline s w).1)
        (leb deadline (child.now w)) w (λ e. absurd (ground (arith, e, enough)))
  loop-Ended (suc k) s w h enough =
      let x = turn child limit deadline s w in
      let (fits, at) = turn-Turns s w h in
      stopped (after_turn child limit deadline (loop child limit deadline (suc k)) x.0 x.1)
        (leb deadline (child.now w)) w
        λ e.
          after_turn-Ended (loop child limit deadline (suc k)) x.0 x.1 fits
            λ t v g later. loop-Ended k t v g (omega (arith, enough, at, later))

  cleaned-Ended :
      (x : Looped child limit deadline) → Ended x → Ended (cleaned child limit deadline x)
  cleaned-Ended (some (ok o), w) h = h
  cleaned-Ended (some (err e), w) h = h
  cleaned-Ended (none, w) h = h

  -- Over a child whose clock does not go back and moves on in every `poll`: with a turn for each tick
  -- up to the deadline and one more, `output` does not use up its turns, whatever the program does;
  -- it ends with an error, or with both outputs within the limit.
  pub output-Ended :
      (k : ℕ) (input : Option Text) (w : W)
      → deadline ≤ child.now w + k
      → ((e : Error) × ((output child limit deadline (suc k) input w).0 ≡ some (err e)))
        ⊎ ((o : Output) × ((output child limit deadline (suc k) input w).0 ≡ some (ok o))
            × (length o.stdout ≤ limit)
            × (length o.stderr ≤ limit))
  unfolding output
  output-Ended k input w enough =
      cleaned-Ended _ (loop-Ended k _ w (omega arith, omega arith) enough)
