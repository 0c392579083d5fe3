-- ===== src/Shortcut/Corner.antt =====
-- agent/src/screen_shortcut.rs: `Corner`, the two-second hold in the top-left corner, and the
-- scaling of the touch panel. Instants are milliseconds of a monotonic clock.
use mu5250_wireguard.Base.{
  ℕ, ◌+◌, ◌-◌, ◌≤◌, ◌≡◌, inl, inr, refl, Bool, true, false, not, ◌&&◌, ◌||◌, Option, none, some,
  List, [], ◌∷◌, map, ◌==◌, if◌then◌else◌, arith, leb, Option-cases,
}
use mu5250_wireguard.Base.Int.{ℤ, pos, negsuc, ◌-ℤ◌, ltb_ℤ, abs}

-- The `Instant` of the first report with its position.
pub record Down : Type 0 where
  pub at : ℕ
  pub x : ℤ
  pub y : ℤ

pub record Corner : Type 0 where
  pub slot : ℤ
  pub id0 : ℤ
  pub id1 : ℤ
  pub raw_x : ℤ
  pub raw_y : ℤ
  pub known_x : Bool
  pub known_y : Bool
  pub down : Option Down
  pub spoiled : Bool
  pub fired : Bool
  pub dropped : Bool

-- `Corner::new`
abbrev pub new : Corner
new = record {
  slot = pos 0;
  id0 = negsuc 0;
  id1 = negsuc 0;
  raw_x = pos 0;
  raw_y = pos 0;
  known_x = false;
  known_y = false;
  down = none;
  spoiled = false;
  fired = false;
  dropped = false;
}

pub record Event : Type 0 where
  pub kind : ℕ
  pub code : ℕ
  pub value : ℤ

abbrev is_negative : ℤ → Bool
is_negative (pos n) = false
is_negative (negsuc n) = true

abbrev is_value : ℤ → ℕ → Bool
is_value (pos n) m = n == m
is_value (negsuc n) m = false

-- `ZONE`, `SLOP` and `HOLD`.
abbrev zone : ℤ
zone = pos 64

abbrev slop : ℤ
slop = pos 16

abbrev hold : ℕ
hold = 2000

abbrev pub beyond : ℤ × ℤ → Bool
beyond p = not (ltb_ℤ p.0 zone) || not (ltb_ℤ p.1 zone)

abbrev strayed : Down → ℤ × ℤ → Bool
strayed d p = ltb_ℤ slop (abs (p.0 -ℤ d.x)) || ltb_ℤ slop (abs (p.1 -ℤ d.y)) || beyond p

-- The `match` on `down`.
unfoldable pub place : ℕ → ℤ × ℤ → Corner → Corner
place now p c = elim c.down [
  | none ↦ record c {
    down = some (record { at = now; x = p.0; y = p.1 });
    spoiled = c.spoiled || beyond p;
  }
  | some d ↦ if strayed d p then record c { spoiled = true } else c
]

unfoldable pub report : (ℤ → ℤ → ℤ × ℤ) → ℕ → Corner → Corner
report map now c =
    if is_negative c.id0
    then record c { down = none; spoiled = false; fired = false }
    else (let c1 = record c { spoiled = c.spoiled || not (is_negative c.id1) } in
        if not (c.known_x && c.known_y) then c1 else place now (map c.raw_x c.raw_y) c1)

abbrev set_id : Event → Corner → Corner
set_id e c =
    if is_value c.slot 0
    then (if is_negative e.value
        then record c { id0 = e.value }
        else record c { id0 = e.value; known_x = false; known_y = false })
    else if is_value c.slot 1
    then record c { id1 = e.value }
    else c

-- The `match` on the kind and the code.
unfoldable pub take_event : (ℤ → ℤ → ℤ × ℤ) → Event → ℕ → Corner → Corner
take_event map e now c =
    if e.kind == 3 && e.code == 47
    then record c { slot = e.value }
    else if e.kind == 3 && e.code == 57
    then set_id e c
    else if e.kind == 3 && e.code == 53 && is_value c.slot 0
    then record c { raw_x = e.value; known_x = true }
    else if e.kind == 3 && e.code == 54 && is_value c.slot 0
    then record c { raw_y = e.value; known_y = true }
    else if e.kind == 1 && e.code == 330 && is_value e.value 0
    then record c { id0 = negsuc 0; id1 = negsuc 0 }
    else if e.kind == 0 && e.code == 0
    then report map now c
    else c

unfoldable pub event : (ℤ → ℤ → ℤ × ℤ) → Event → ℕ → Corner → Corner
event map e now c =
    if e.kind == 0 && e.code == 3
    then record new { dropped = true }
    else if c.dropped
    then (if e.kind == 0 && e.code == 0 then record c { dropped = false } else c)
    else take_event map e now c

unfoldable pub due : ℕ → Corner → Bool × Corner
due now c = elim c.down [
  | none ↦ (false, c)
  | some d ↦
      if not c.spoiled && not c.fired && leb hold (now - d.at)
      then (true, record c { fired = true })
      else (false, c)
]

-- What the observer does: an event at a time, or the test at a time.
pub data Step : Type 0 where
  on_event : Event → ℕ → Step
  on_test : ℕ → Step

unfoldable pub step : (ℤ → ℤ → ℤ × ℤ) → Step → Corner → Bool × Corner
step map (on_event e now) c = (false, event map e now c)
step map (on_test now) c = due now c

-- A hold that is timed and not spoiled began in the corner.
abbrev pub in_corner : Corner → Bool
in_corner c = elim c.down [ none ↦ true | some d ↦ c.spoiled || not (beyond (d.x, d.y)) ]

in_corner-place :
    (now : ℕ) (p : ℤ × ℤ) (c : Corner) → in_corner c ≡ true → in_corner (place now p c) ≡ true
unfolding place
in_corner-place now p c h = ground arith

in_corner-report :
    (f : ℤ → ℤ → ℤ × ℤ) (now : ℕ) (c : Corner)
    → in_corner c ≡ true
    → in_corner (report f now c) ≡ true
unfolding report
in_corner-report f now c h =
    let c1 = record c { spoiled = c.spoiled || not (is_negative c.id1) } in
    ground (arith, in_corner-place now (f c.raw_x c.raw_y) c1)

in_corner-take_event :
    (f : ℤ → ℤ → ℤ × ℤ) (e : Event) (now : ℕ) (c : Corner)
    → in_corner c ≡ true
    → in_corner (take_event f e now c) ≡ true
unfolding take_event
in_corner-take_event f e now c h = ground (arith, in_corner-report f now c)

in_corner-event :
    (f : ℤ → ℤ → ℤ × ℤ) (e : Event) (now : ℕ) (c : Corner)
    → in_corner c ≡ true
    → in_corner (event f e now c) ≡ true
unfolding event
in_corner-event f e now c h = ground (arith, in_corner-take_event f e now c)

-- The steps of the observer in turn.
unfoldable pub run : (ℤ → ℤ → ℤ × ℤ) → List Step → Corner → Corner
run map [] c = c
run map (s ∷ ss) c = run map ss (step map s c).1

in_corner-run :
    (map : ℤ → ℤ → ℤ × ℤ) (ss : List Step) (c : Corner)
    → in_corner c ≡ true
    → in_corner (run map ss c) ≡ true
unfolding run step due
in_corner-run map [] c h = h
in_corner-run map (on_event e now ∷ ss) c h =
    in_corner-run map ss (event map e now c) (in_corner-event map e now c h)
in_corner-run map (on_test now ∷ ss) c h = ground (arith, in_corner-run map ss (due now c).1)

-- After any events and tests from the start, a hold is reported only for a finger that went down
-- inside the corner at least two seconds ago; and it is not reported a second time by a test that
-- follows at once.
pub due-in_corner :
    (map : ℤ → ℤ → ℤ × ℤ) (ss : List Step) (now later : ℕ)
    → (due now (run map ss new)).0 ≡ true
    → ((d : Down) × ((run map ss new).down ≡ some d)
        × (beyond (d.x, d.y) ≡ false)
        × (d.at + 2000 ≤ now))
      × ((due later (due now (run map ss new)).1).0 ≡ false)
unfolding due
due-in_corner map ss now later h =
    let c = run map ss new in
    elim (Option-cases c.down) [
      | inl e ↦ absurd (ground (arith, e))
      | inr (d, e) ↦ (
        (d, e, ground (arith, e, in_corner-run map ss new refl), ground (arith, e)),
        ground (arith, e),
      )
    ]
