-- ===== src/Cache/Rate.antt =====
-- agent/src/cache.rs: how often a source is asked, and what a sample says of its age.
use mu5250_wireguard.Base.{
  ℕ, ◌+◌, ◌<◌, ◌≡◌, inl, inr, refl, true, false, some, List, [], ◌∷◌, if◌then◌else◌, arith, Text,
  err, Bool-cases, Result-cases, subst,
}
use mu5250_wireguard.Cache.{above, Observation, Refresh, read, due, refreshed, report, is_some}

-- How many of the reads, each with its time and its refresh, ask the source?
pub asked : {T : Type 0} → ℕ → List (ℕ × Refresh T) → Observation T → ℕ
asked ttl [] slot = 0
asked ttl (c ∷ cs) slot =
    let out = read ttl c.0 c.1 slot in
    let rest = asked ttl cs out.1 in if out.2 then rest + 1 else rest

unfoldable pub Before : {T : Type 0} → ℕ → List (ℕ × Refresh T) → Type 0
Before t [] = Unit {0}
Before t (c ∷ cs) = (c.0 < t) × Before t cs

early :
    {T : Type 0} (ttl now a : ℕ) (slot : Observation T)
    → 0 < ttl
    → slot.attempted ≡ some a
    → now < a + ttl
    → due ttl now slot ≡ false
unfolding due
early ttl now a slot z h k = ground (arith, h)

read-idle :
    {T : Type 0} (ttl now : ℕ) (r : Refresh T) (slot : Observation T)
    → due ttl now slot ≡ false
    → ((read ttl now r slot).1 ≡ slot) × ((read ttl now r slot).2 ≡ false)
unfolding read
read-idle ttl now r slot h = rw h (refl, refl)

read-due :
    {T : Type 0} (ttl now : ℕ) (r : Refresh T) (slot : Observation T)
    → due ttl now slot ≡ true
    → read ttl now r slot
      ≡ (report ttl (now + r.takes) (refreshed now r slot), refreshed now r slot, true)
unfolding read
read-due ttl now r slot h = rw h refl

read-else :
    {T : Type 0} (ttl now : ℕ) (r : Refresh T) (slot : Observation T)
    → due ttl now slot ≡ false
    → read ttl now r slot ≡ (report ttl now slot, slot, false)
unfolding read
read-else ttl now r slot h = rw h refl

attempted-refreshed :
    {T : Type 0} (now : ℕ) (r : Refresh T) (slot : Observation T)
    → (refreshed now r slot).attempted ≡ some (now + r.takes)
unfolding refreshed
attempted-refreshed now r slot = elim (Result-cases r.result) [
  | inl (v, e) ↦ rw e refl
  | inr (x, e) ↦ rw e refl
]

read-run :
    {T : Type 0} (ttl now : ℕ) (r : Refresh T) (slot : Observation T)
    → (read ttl now r slot).2 ≡ true
    → (read ttl now r slot).1.attempted ≡ some (now + r.takes)
read-run ttl now r slot h = elim (Bool-cases (due ttl now slot)) [
  | inl e ↦ rw (read-due ttl now r slot e) (attempted-refreshed now r slot)
  | inr e ↦ absurd (ground (arith, read-idle ttl now r slot e))
]

asked-early :
    {T : Type 0} (ttl a : ℕ) (cs : List (ℕ × Refresh T)) (slot : Observation T)
    → 0 < ttl
    → slot.attempted ≡ some a
    → Before (a + ttl) cs
    → asked ttl cs slot ≡ 0
unfolding asked Before
asked-early ttl a [] slot z h b = refl
asked-early ttl a (c ∷ cs) slot z h b = ground (
  arith,
  early ttl c.0 a slot,
  read-idle ttl c.0 c.1 slot,
  asked-early ttl a cs (read ttl c.0 c.1 slot).1,
)

-- With a time to live that is not zero: once a source was asked, whether it answered or failed, no sequence of reads asks it again before
-- the time to live has passed since the answer.
pub asked-once :
    {T : Type 0} (ttl now : ℕ) (r : Refresh T) (slot : Observation T) (cs : List (ℕ × Refresh T))
    → 0 < ttl
    → (read ttl now r slot).2 ≡ true
    → Before (now + r.takes + ttl) cs
    → asked ttl cs (read ttl now r slot).1 ≡ 0
asked-once ttl now r slot cs z h b =
    asked-early ttl (now + r.takes) cs (read ttl now r slot).1 z (read-run ttl now r slot h) b

-- The value, its time and its calendar time come together.
unfoldable pub Sampled : {T : Type 0} → Observation T → Type 0
Sampled slot =
    (is_some slot.value ≡ is_some slot.sampled)
    × (is_some slot.sampled_unix_ms ≡ is_some slot.sampled)

Sampled-refreshed :
    {T : Type 0} (now : ℕ) (r : Refresh T) (slot : Observation T)
    → Sampled slot
    → Sampled (refreshed now r slot)
unfolding refreshed Sampled
Sampled-refreshed now r slot h = elim (Result-cases r.result) [
  | inl (v, e) ↦ rw e (refl, refl)
  | inr (x, e) ↦ rw e h
]

pub Sampled-read :
    {T : Type 0} (ttl now : ℕ) (r : Refresh T) (slot : Observation T)
    → Sampled slot
    → Sampled (read ttl now r slot).1
Sampled-read ttl now r slot h = elim (Bool-cases (due ttl now slot)) [
  | inl e ↦ rw (read-due ttl now r slot e) (Sampled-refreshed now r slot h)
  | inr e ↦ rw (read-else ttl now r slot e) h
]

report-fresh :
    {T : Type 0} (ttl now : ℕ) (slot : Observation T)
    → Sampled slot
    → (report ttl now slot).freshness.stale ≡ false
    → (is_some (report ttl now slot).value ≡ true)
      × (is_some (report ttl now slot).freshness.sampled_at_ms ≡ true)
      × (is_some (report ttl now slot).freshness.error ≡ false)
      × (above ttl (report ttl now slot).freshness.age_ms ≡ false)
unfolding report Sampled
report-fresh ttl now slot h s = ground arith

-- From a state in which value and times come together, a sample that is not reported as stale has
-- a value with its calendar time, no error, and an age of at most the time to live.
pub read-fresh :
    {T : Type 0} (ttl now : ℕ) (r : Refresh T) (slot : Observation T)
    → Sampled slot
    → (read ttl now r slot).0.freshness.stale ≡ false
    → (is_some (read ttl now r slot).0.value ≡ true)
      × (is_some (read ttl now r slot).0.freshness.sampled_at_ms ≡ true)
      × (is_some (read ttl now r slot).0.freshness.error ≡ false)
      × (above ttl (read ttl now r slot).0.freshness.age_ms ≡ false)
read-fresh ttl now r slot h s = elim (Bool-cases (due ttl now slot)) [
  | inl e ↦
      let same = read-due ttl now r slot e in
      rw same (
        report-fresh ttl (now + r.takes) (refreshed now r slot) (Sampled-refreshed now r slot h)
          (subst (λ o. o.0.freshness.stale ≡ false) same s))
  | inr e ↦
      let same = read-else ttl now r slot e in
      rw same (report-fresh ttl now slot h (subst (λ o. o.0.freshness.stale ≡ false) same s))
]

-- A refresh that fails leaves the last value with its times, and reports it as stale with the
-- error of the failure.
pub read-failed :
    {T : Type 0} (ttl now : ℕ) (r : Refresh T) (slot : Observation T) (e : Text)
    → due ttl now slot ≡ true
    → r.result ≡ err e
    → ((read ttl now r slot).0.value ≡ slot.value)
      × ((read ttl now r slot).1.sampled ≡ slot.sampled)
      × ((read ttl now r slot).0.freshness.sampled_at_ms ≡ slot.sampled_unix_ms)
      × ((read ttl now r slot).0.freshness.stale ≡ true)
      × ((read ttl now r slot).0.freshness.error ≡ some e)
unfolding report refreshed
read-failed ttl now r slot e h k = rw (read-due ttl now r slot h) (ground (arith, k))
