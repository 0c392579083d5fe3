-- ===== src/Cache/Tests.antt =====
-- A source that answers once and then fails.
use mu5250_wireguard.Base.{ℕ, ◌≡◌, refl, none, some, [], ◌∷◌, arith, codes, ok, err}
use mu5250_wireguard.Cache.{
  Observation, Refresh, read, report, due, refreshed, default, get_or_refresh,
}
use mu5250_wireguard.Cache.Rate.{asked, Before, asked-once}

abbrev answer : Refresh ℕ
answer = record { result = ok 42; takes = 2; unix_ms = 1700 }

abbrev failure : Refresh ℕ
failure = record { result = err (codes "radio offline"); takes = 1; unix_ms = 1800 }

abbrev answered : Observation ℕ
answered = record {
  attempted = some 12;
  sampled = some 12;
  sampled_unix_ms = some 1700;
  value = some 42;
  error = none;
}

cached_for_the_time : (get_or_refresh {T = ℕ} 60 30 (7, 1) (some (5, 6))).0 ≡ 6
unfolding get_or_refresh
cached_for_the_time = refl

answered_first : (read 60 10 answer default).1 ≡ answered
unfolding read due refreshed report
answered_first = refl

asked-once_example : asked 60 ((20, failure) ∷ (71, failure) ∷ []) (read 60 10 answer default).1 ≡ 0
unfolding Before read due
asked-once_example =
    asked-once 60 10 answer default ((20, failure) ∷ (71, failure) ∷ []) (omega arith) refl
      (omega arith, (omega arith, tt))
