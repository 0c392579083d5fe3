-- ===== src/Shortcut/Gesture.antt =====
-- agent/src/screen_shortcut.rs: `Gesture`. Times are those of the kernel, in milliseconds.
use mu5250_wireguard.Base.{
  ℕ, ◌+◌, ◌≤◌, ◌≡◌, Bool, true, false, not, ◌&&◌, ◌||◌, Option, none, some, List, [], ◌∷◌, ◌==◌,
  if◌then◌else◌, arith,
}
use mu5250_wireguard.Base.Int.{ℤ, pos, negsuc, ◌-ℤ◌, ltb_ℤ}

pub record Gesture : Type 0 where
  pub down : Option ℤ
  pub released : Option ℤ
  pub first : ℤ
  pub count : ℕ
  pub dropped : Bool

abbrev pub default : Gesture
default = record { down = none; released = none; first = pos 0; count = 0; dropped = false }

-- An event of the input device; `value` is signed.
pub record Event : Type 0 where
  pub kind : ℕ
  pub code : ℕ
  pub value : ℤ
  pub ms : ℤ

abbrev is_value : ℤ → ℕ → Bool
is_value (pos n) m = n == m
is_value (negsuc n) m = false

abbrev is_none {ℓ} : {A : Type ℓ} → Option A → Bool
is_none none = true
is_none (some a) = false

-- `gap.is_some_and(...)`, of the pause in front of the press.
abbrev gap_below : ℤ → Option ℤ → ℕ → Bool
gap_below start none n = false
gap_below start (some v) n = ltb_ℤ (start -ℤ v) (pos n)

abbrev gap_above : ℤ → Option ℤ → ℕ → Bool
gap_above start none n = false
gap_above start (some v) n = ltb_ℤ (pos n) (start -ℤ v)

-- The count of a press that started at `start`, and the four-press test.
pub counted : ℤ → Option ℤ → ℤ → Gesture → Bool × Gesture
counted start released ms g =
    let more =
      (if g.count + 1 == 4
        then (true, record g { count = 0 })
        else (false, record g { count = g.count + 1 })) in
    if g.count == 0 || gap_above start released 700 || ltb_ℤ (pos 2500) (ms -ℤ g.first)
    then (false, record g { first = start; count = 1 })
    else more

-- The key goes up.
pub release : ℤ → Gesture → Bool × Gesture
unfolding counted
release ms g = elim g.down [
  | none ↦ (false, record g { count = 0 })
  | some start ↦
      let g1 = record g { down = none; released = some ms } in
      let duration = ms -ℤ start in
      if not (not (ltb_ℤ duration (pos 30)) && ltb_ℤ duration (pos 800))
        || gap_below start g.released 80
      then (false, record g1 { count = 0 })
      else counted start g.released ms g1
]

abbrev pressed : Event → Gesture → Gesture
pressed e g = if is_value e.value 1 && is_none g.down then record g { down = some e.ms } else g

unfoldable pub event : Event → Gesture → Bool × Gesture
unfolding release
event e g =
    if e.kind == 0 && e.code == 3
    then (false, record default { dropped = true })
    else if g.dropped
    then (false, if e.kind == 0 && e.code == 0 then record g { dropped = false } else g)
    else if not (e.kind == 1) || not (e.code == 116) || not (is_value e.value 0)
    then (false, if e.kind == 1 && e.code == 116 then pressed e g else g)
    else release e.ms (pressed e g)

-- A device's events in turn; did the last one ask for the screen?
unfoldable pub run : List Event → Bool × Gesture → Bool × Gesture
run [] r = r
run (e ∷ es) r = run es (event e r.1)

abbrev pub is_release : Event → Bool
is_release e = e.kind == 1 && e.code == 116 && is_value e.value 0

-- The releases of the power key among the events, since the last loss of events.
pub releases : ℕ → List Event → ℕ
releases n [] = n
releases n (e ∷ es) =
    let lost = releases 0 es in
    let more = releases (n + 1) es in
    let same = releases n es in
    if e.kind == 0 && e.code == 3 then lost else if is_release e then more else same

-- The count stays under four, and under the releases so far.
Counted : ℕ → Gesture → Type 0
Counted n g = (g.count ≤ n) × (g.count ≤ 3)

-- An event asks for the screen only at a release, when three presses are counted, and then starts
-- over.
event-true :
    (e : Event) (g : Gesture)
    → (event e g).0 ≡ true
    → (is_release e ≡ true) × (g.count ≡ 3) × ((event e g).1.count ≡ 0)
unfolding event
event-true e g h = ground arith

-- At most one more press is counted by an event, and only by a release.
event-count :
    (e : Event) (g : Gesture)
    → g.count ≤ 3
    → ((event e g).1.count ≤ 3)
      × ((event e g).1.count ≤ g.count + 1)
      × (is_release e ≡ false → (event e g).1.count ≤ g.count)
      × ((e.kind == 0 && e.code == 3) ≡ true → (event e g).1.count ≡ 0)
unfolding event
event-count e g h = ground arith

run-Counted :
    (n : ℕ) (es : List Event) (r : Bool × Gesture)
    → Counted n r.1
    → Counted (releases n es) (run es r).1
unfolding run releases Counted
run-Counted n [] r h = h
run-Counted n (e ∷ es) r h = ground (
  arith,
  event-count e r.1,
  run-Counted n es (event e r.1),
  run-Counted (n + 1) es (event e r.1),
  run-Counted 0 es (event e r.1),
)

-- The screen is asked for by the release of the power key only, and only as the fourth release at
-- least since the start of the observer and since the last loss of events.
pub run-fourth :
    (es : List Event) (e : Event)
    → (event e (run es (false, default)).1).0 ≡ true
    → (is_release e ≡ true) × (3 ≤ releases 0 es)
unfolding Counted
run-fourth es e h = ground (
  arith,
  event-true e (run es (false, default)).1,
  run-Counted 0 es (false, default) (ground arith),
)
