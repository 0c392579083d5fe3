-- ===== src/Cache.antt =====
-- agent/src/cache.rs: values that are refreshed on demand, at most once in a given time.
pub mod Rate
mod Tests
use mu5250_wireguard.Base.{
  ℕ, zero, suc, ◌+◌, ◌-◌, ◌*◌, ◌/◌, ◌%◌, ◌^◌, ◌≤◌, ◌<◌, ◌≡◌, ◌≢◌, ◌↔◌, ◌⊎◌, inl, inr, ◌∙◌, refl,
  sym, ap, subst, Bool, true, false, not, ◌&&◌, ◌||◌, Option, none, some, List, [], ◌∷◌, ◌++◌, map,
  ◌==◌, if◌then◌else◌, arith, Text, codes, text_eq, Result, ok, err, leb, ltb, length, any, all,
  find, retain, All, Bool-cases, Option-cases, Result-cases,
}

-- `Cached<T>`: the value with the time of its refresh.
abbrev pub Cached : Type 0 → Type 0
Cached T = Option (ℕ × T)

-- `at.elapsed()`, of a monotonic clock that reads `now`; it stops at 0.
abbrev elapsed : ℕ → ℕ → ℕ
elapsed at now = now - at

-- The refresh takes `refresh.1`, and is not run where the third component is false.
unfoldable pub get_or_refresh : {T : Type 0} → ℕ → ℕ → T × ℕ → Cached T → T × Cached T × Bool
get_or_refresh ttl now refresh none = (refresh.0, some (now + refresh.1, refresh.0), true)
get_or_refresh ttl now refresh (some (at, value)) =
    if ltb (elapsed at now) ttl
    then (value, some (at, value), false)
    else (refresh.0, some (now + refresh.1, refresh.0), true)

-- `Cached::invalidate`
abbrev pub invalidate_cached : {T : Type 0} → Cached T → Cached T
invalidate_cached slot = none

pub record Observation (T : Type 0) : Type 0 where
  pub attempted : Option ℕ
  pub sampled : Option ℕ
  pub sampled_unix_ms : Option ℕ
  pub value : Option T
  pub error : Option Text

-- `impl Default for Observed`.
abbrev pub default : {T : Type 0} → Observation T
default = record {
  attempted = none;
  sampled = none;
  sampled_unix_ms = none;
  value = none;
  error = none;
}

pub record Freshness : Type 0 where
  pub sampled_at_ms : Option ℕ
  pub age_ms : Option ℕ
  pub ttl_ms : ℕ
  pub stale : Bool
  pub error : Option Text

pub record Sample (T : Type 0) : Type 0 where
  pub value : Option T
  pub freshness : Freshness

-- A call of the refresh: its result, the time it takes, and the calendar time after it, in ms.
pub record Refresh (T : Type 0) : Type 0 where
  pub result : Result Text T
  pub takes : ℕ
  pub unix_ms : ℕ

unfoldable pub due : {T : Type 0} → ℕ → ℕ → Observation T → Bool
due ttl now slot = elim slot.attempted [ none ↦ true | some at ↦ leb ttl (elapsed at now) ]

unfoldable pub refreshed : {T : Type 0} → ℕ → Refresh T → Observation T → Observation T
refreshed now r slot = elim r.result [
  | ok v ↦ record slot {
    value = some v;
    sampled = some (now + r.takes);
    sampled_unix_ms = some r.unix_ms;
    error = none;
    attempted = some (now + r.takes);
  }
  | err e ↦ record slot { error = some e; attempted = some (now + r.takes) }
]

abbrev pub is_some {ℓ} : {A : Type ℓ} → Option A → Bool
is_some none = false
is_some (some a) = true

abbrev pub above : ℕ → Option ℕ → Bool
above ttl none = true
above ttl (some age) = ltb ttl age

abbrev pub age_at : ℕ → Option ℕ → Option ℕ
age_at now none = none
age_at now (some at) = some (elapsed at now)

-- What `read` returns at the time `now`. Times are in ms.
unfoldable pub report : {T : Type 0} → ℕ → ℕ → Observation T → Sample T
report ttl now slot =
    let age = age_at now slot.sampled in
    record {
      value = slot.value;
      freshness = record {
        sampled_at_ms = slot.sampled_unix_ms;
        age_ms = age;
        ttl_ms = ttl;
        stale = is_some slot.error || above ttl age;
        error = slot.error;
      };
    }

-- The sample, the state behind it, and whether the refresh was run.
unfoldable pub read :
    {T : Type 0} → ℕ → ℕ → Refresh T → Observation T → Sample T × Observation T × Bool
read ttl now r slot =
    let slot1 = refreshed now r slot in
    if due ttl now slot
    then (report ttl (now + r.takes) slot1, slot1, true)
    else (report ttl now slot, slot, false)

-- `Observed::invalidate`
abbrev pub invalidate : {T : Type 0} → Observation T → Observation T
invalidate slot = record slot { attempted = none }
