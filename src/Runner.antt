-- ===== src/Runner.antt =====
-- process-runner/src/lib.rs: `output` for Unix, which runs a program with a deadline and bounded
-- output. The pipes, the child and the clock are the parameter `Child`.
pub mod Bounded
mod Tests
use mu5250_wireguard.Base.{
  drop, take, ℕ, zero, suc, ◌+◌, ◌-◌, ◌*◌, ◌/◌, ◌%◌, ◌^◌, ◌≤◌, ◌<◌, ◌≡◌, ◌≢◌, ◌↔◌, ◌⊎◌, inl, inr,
  ◌∙◌, refl, sym, ap, subst, Bool, true, false, not, ◌&&◌, ◌||◌, Option, none, some, List, [], ◌∷◌,
  ◌++◌, map, ◌==◌, if◌then◌else◌, arith, Text, codes, text_eq, Result, ok, err, leb, ltb, length,
  any, all, find, retain, All, Bool-cases, Option-cases, Result-cases,
}
use mu5250_wireguard.Base.World.{Io, ◌>>=◌, pure}

-- What a call on a pipe that does not block gives.
pub data Attempt (A : Type 0) : Type 0 where
  got : A → Attempt A
  would_block interrupted : Attempt A
  failed : Text → Attempt A

pub data Error : Type 0 where
  timed_out limit_exceeded : Error
  io : Text → Error

-- `poll` is given the longest time to wait, in milliseconds; the clock counts nanoseconds.
pub record Child (W : Type 0) : Type 0 where
  pub now : W → ℕ
  pub write_stdin : Text → W → Attempt ℕ × W
  pub read_stdout : W → Attempt Text × W
  pub read_stderr : W → Attempt Text × W
  pub try_wait : W → Result Error (Option ℕ) × W
  pub poll : ℕ → W → Result Error (Unit {0}) × W
  pub kill : W → W

-- A pipe that is read, none of it once it is closed, with the bytes read so far.
pub record Pipe : Type 0 where
  pub is_open : Bool
  pub bytes : Text

-- `left` is the part of the input behind `offset`.
pub record Run : Type 0 where
  pub stdin : Bool
  pub left : Text
  pub out : Pipe
  pub errors : Pipe
  pub status : Option ℕ

pub record Output : Type 0 where
  pub status : ℕ
  pub stdout : Text
  pub stderr : Text

abbrev pub is_empty : Text → Bool
is_empty [] = true
is_empty (b ∷ s) = false

module _ {W : Type 0} (limit : ℕ) (read : W → Attempt Text × W) where
  -- A round of `drain`, before the rounds that are left.
  unfoldable pub drained :
      (Pipe → W → Result Error Pipe × W) → Pipe → Attempt Text → W → Result Error Pipe × W
  drained more p (got []) w = (ok (record p { is_open = false }), w)
  drained more p (got (b ∷ s)) w =
      if ltb limit (length p.bytes + length (b ∷ s))
      then (err limit_exceeded, w)
      else more (record p { bytes = p.bytes ++ (b ∷ s) }) w
  drained more p would_block w = (ok p, w)
  drained more p interrupted w = more p w
  drained more p (failed e) w = (err (io e), w)

  unfoldable pub drain_rounds : ℕ → Pipe → W → Result Error Pipe × W
  unfolding drained
  drain_rounds zero p w = (ok p, w)
  drain_rounds (suc k) p w = let more = drain_rounds k in drained more p (read w).0 (read w).1

  unfoldable pub drain : Pipe → W → Result Error Pipe × W
  drain p w = if p.is_open then drain_rounds 8 p w else (ok p, w)

module _ {W : Type 0} (child : Child W) (limit deadline : ℕ) where
  abbrev pub fed : Run → Attempt ℕ → W → Result Error Run × W
  fed s (got n) w = (ok (record s { left = drop n s.left }), w)
  fed s would_block w = (ok s, w)
  fed s interrupted w = (ok s, w)
  fed s (failed e) w = (err (io e), w)

  abbrev pub closed : Run → Run
  closed s = if is_empty s.left then record s { stdin = false } else s

  unfoldable pub feed : Run → Io W Error Run
  feed s w =
      if not s.stdin
      then (ok s, w)
      else if is_empty s.left
      then (ok (closed s), w)
      else (do
        t ← λ v.
            fed s (child.write_stdin (take 65536 s.left) v).0
              (child.write_stdin (take 65536 s.left) v).1
        pure (closed t))
          w

  unfoldable pub collect : Run → Io W Error Run
  collect s = do
    out ← drain limit child.read_stdout s.out
    errors ← drain limit child.read_stderr s.errors
    pure (record s { out = out; errors = errors })

  abbrev pub waited : Option ℕ → Run → Io W Error Run
  waited (some n) s w = (ok s, w)
  waited none s w = (do n ← child.try_wait; pure (record s { status = n })) w

  unfoldable pub wait : Run → Io W Error Run
  wait s = waited s.status s

  abbrev pub finished_by : Option ℕ → Run → Option Output
  finished_by none s = none
  finished_by (some n) s =
      if not s.stdin && not s.out.is_open && not s.errors.is_open
      then some (record { status = n; stdout = s.out.bytes; stderr = s.errors.bytes })
      else none

  -- `as_millis().min(10)` of what is left of the time.
  abbrev pub pause : W → ℕ
  pause w = let ms = (deadline - child.now w) / 1000000 in if ltb ms 10 then ms else 10

  -- Up to `poll`.
  unfoldable pub turn : Run → Io W Error Run
  turn s = do s ← feed s; s ← collect s; wait s

  abbrev pub Looped : Type 0
  Looped = Option (Result Error Output) × W

  abbrev pub polled : (Run → W → Looped) → Result Error (Unit {0}) → Run → W → Looped
  polled again (err e) s w = (some (err e), w)
  polled again (ok _) s w = again s w

  abbrev pub ended : (Run → W → Looped) → Option Output → Run → W → Looped
  ended again (some o) s w = (some (ok o), w)
  ended again none s w = polled again (child.poll (pause w) w).0 s (child.poll (pause w) w).1

  abbrev pub after_turn : (Run → W → Looped) → Result Error Run → W → Looped
  after_turn again (err e) w = (some (err e), w)
  after_turn again (ok s) w = ended again (finished_by s.status s) s w

  -- The loop, on a number of turns that it may take; `none` where they are used up.
  unfoldable pub loop : ℕ → Run → W → Looped
  loop zero s w = (none, w)
  loop (suc k) s w =
      let again = loop k in
      if leb deadline (child.now w)
      then (some (err timed_out), w)
      else after_turn again (turn s w).0 (turn s w).1

  -- `child.kill()` and the end of the group, where the loop has failed.
  abbrev pub cleaned : Looped → Looped
  cleaned (some (err e), w) = (some (err e), child.kill w)
  cleaned (some (ok o), w) = (some (ok o), w)
  cleaned (none, w) = (none, w)

  -- `output`, from the child that was started on; `input` is `none` where there is no input pipe.
  unfoldable pub output : ℕ → Option Text → W → Looped
  output turns input w =
      let pipe : Pipe = record { is_open = true; bytes = [] } in
      let given : Option Text → Run = λ i. record {
        stdin = elim i [ none ↦ false | some t ↦ true ];
        left = elim i [ none ↦ [] | some t ↦ t ];
        out = pipe;
        errors = pipe;
        status = none;
      } in
      cleaned (loop turns (given input) w)
