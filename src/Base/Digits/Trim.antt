-- ===== src/Base/Digits/Trim.antt =====
-- Trimming twice is trimming once.
use mu5250_wireguard.Base.{◌≡◌, refl, Bool, true, not, [], ◌∷◌, arith, Text}
use mu5250_wireguard.Base.Digits.{is_space, trim_start, trim_end, trim}

starts : Text → Bool
starts [] = true
starts (b ∷ s) = not (is_space b)

starts-trim_start : (s : Text) → starts (trim_start s) ≡ true
unfolding starts trim_start
starts-trim_start [] = refl
starts-trim_start (b ∷ s) = ground (arith, starts-trim_start s)

trim_start-starts : (s : Text) → starts s ≡ true → trim_start s ≡ s
unfolding starts trim_start
trim_start-starts [] h = refl
trim_start-starts (b ∷ s) h = ground arith

starts-trim_end : (s : Text) → starts s ≡ true → starts (trim_end s) ≡ true
unfolding starts trim_end
starts-trim_end [] h = refl
starts-trim_end (b ∷ s) h = ground arith

trim_end-trim_end : (s : Text) → trim_end (trim_end s) ≡ trim_end s
unfolding trim_end
trim_end-trim_end [] = refl
trim_end-trim_end (b ∷ s) = ground (arith, trim_end-trim_end s)

pub trim-trim : (s : Text) → trim (trim s) ≡ trim s
unfolding trim
trim-trim s =
    rw
      (trim_start-starts (trim_end (trim_start s))
        (starts-trim_end (trim_start s) (starts-trim_start s)))
      (trim_end-trim_end (trim_start s))
