-- ===== src/Runner/Tests.antt =====
-- A program that reads its input, prints a line and ends.
use mu5250_wireguard.Runner.{
  got, Error, limit_exceeded, Child, Output, drain_rounds, drained, drain, feed, collect, wait,
  turn, loop, output,
}
use mu5250_wireguard.Runner.Bounded.{IsTimed, output-Ended}
use mu5250_wireguard.Base.{
  ℕ, ◌+◌, ◌≤◌, ◌≡◌, ◌⊎◌, refl, Bool, true, false, some, [], if◌then◌else◌, arith, codes, ok, err,
  length,
}

record Program : Type 0 where
  time : ℕ
  printed : Bool

abbrev printer : Child Program
printer = record {
  now = λ w. w.time;
  write_stdin = λ t w. (got (length t), w);
  read_stdout = λ w. (got (if w.printed then [] else codes "done"), record w { printed = true });
  read_stderr = λ w. (got [], w);
  try_wait = λ w. (ok (some 0), w);
  poll = λ ms w. (ok tt, record w { time = w.time + 1 });
  kill = λ w. w;
}

printer-IsTimed : IsTimed printer
printer-IsTimed = record {
  write_later = λ t w. omega arith;
  stdout_later = λ w. omega arith;
  stderr_later = λ w. omega arith;
  wait_later = λ w. omega arith;
  poll_later = λ ms w. omega arith;
}

abbrev begun : Program
begun = record { time = 7; printed = false }

prints :
    ((output printer 4 9 3 (some (codes "in")) begun).0
      ≡ some (ok (record { status = 0; stdout = codes "done"; stderr = [] })))
    × ((output printer 3 9 3 (some (codes "in")) begun).0 ≡ some (err limit_exceeded))
unfolding output loop turn feed collect wait drain drain_rounds drained
prints = (refl, refl)

output-Ended_example :
    ((e : Error) × ((output printer 4 9 3 (some (codes "in")) begun).0 ≡ some (err e)))
    ⊎ ((o : Output) × ((output printer 4 9 3 (some (codes "in")) begun).0 ≡ some (ok o))
        × (length o.stdout ≤ 4)
        × (length o.stderr ≤ 4))
output-Ended_example =
    output-Ended printer 4 9 printer-IsTimed 2 (some (codes "in")) begun (omega arith)
