-- ===== src/Base/Digits.antt =====
-- The standard library on ASCII text: classes of bytes, `trim`, and `parse` to an unsigned integer.
pub mod Trim
use mu5250_wireguard.Base.{
  not, all, true, ℕ, ◌+◌, ◌-◌, ◌*◌, ◌≤◌, ◌≡◌, Text, Bool, ◌&&◌, ◌||◌, Option, none, some, [], ◌∷◌,
  leb, ◌==◌, if◌then◌else◌, arith, refl, codes,
}

abbrev pub is_digit : ℕ → Bool
is_digit b = leb b'0' b && leb b b'9'

abbrev pub is_alphabetic : ℕ → Bool
is_alphabetic b = (leb b'a' b && leb b b'z') || (leb b'A' b && leb b b'Z')

abbrev pub is_alphanumeric : ℕ → Bool
is_alphanumeric b = is_alphabetic b || is_digit b

abbrev pub is_hexdigit : ℕ → Bool
is_hexdigit b = is_digit b || (leb b'a' b && leb b b'f') || (leb b'A' b && leb b b'F')

abbrev pub lower : ℕ → ℕ
lower b = if leb b'A' b && leb b b'Z' then b + 32 else b

-- White space among the ASCII characters.
abbrev pub is_space : ℕ → Bool
is_space b = b == b' ' || (leb 9 b && leb b 13)

pub trim_start : Text → Text
trim_start [] = []
trim_start (b ∷ s) = let rest = trim_start s in if is_space b then rest else b ∷ s

-- Drops the blanks that nothing but blanks follows.
pub trim_end : Text → Text
trim_end [] = []
trim_end (b ∷ s) = elim (trim_end s) [
  | [] ↦ if is_space b then [] else b ∷ []
  | c ∷ rest ↦ b ∷ c ∷ rest
]

unfoldable pub trim : Text → Text
unfolding trim_start trim_end
trim s = trim_end (trim_start s)

-- The digits of an unsigned integer of at most `top`, behind the value read so far.
pub digits_up_to : ℕ → ℕ → Text → Option ℕ
digits_up_to top n [] = some n
digits_up_to top n (b ∷ s) =
    let m = n * 10 + (b - b'0') in
    let rest = digits_up_to top m s in if is_digit b && leb m top then rest else none

-- `str::parse` to an unsigned integer type whose greatest value is `top`.
unfoldable pub parse_uint : ℕ → Text → Option ℕ
unfolding digits_up_to
parse_uint top [] = none
parse_uint top (b ∷ []) = if b == b'+' then none else digits_up_to top 0 (b ∷ [])
parse_uint top (b ∷ c ∷ s) = digits_up_to top 0 (if b == b'+' then c ∷ s else b ∷ c ∷ s)

abbrev pub parse_u8 : Text → Option ℕ
parse_u8 = parse_uint 255

abbrev pub parse_u16 : Text → Option ℕ
parse_u16 = parse_uint 65535

pub digits_up_to-le :
    (top n : ℕ) (s : Text) {m : ℕ} → n ≤ top → digits_up_to top n s ≡ some m → m ≤ top
unfolding digits_up_to
digits_up_to-le top n [] h e = ground arith
digits_up_to-le top n (b ∷ s) {m} h e =
    ground (arith, digits_up_to-le top (n * 10 + (b - b'0')) s {m = m})

pub parse_uint-le : (top : ℕ) (s : Text) {m : ℕ} → parse_uint top s ≡ some m → m ≤ top
unfolding parse_uint
parse_uint-le top (b ∷ []) {m} e = ground (arith, digits_up_to-le top 0 (b ∷ []) {m = m})
parse_uint-le top (b ∷ c ∷ s) {m} e =
    digits_up_to-le top 0 (if b == b'+' then c ∷ s else b ∷ c ∷ s) (omega arith) e
parse_uint-le top [] e = ground arith

parse_u8_bounds :
    (parse_u8 (codes "+255") ≡ some 255)
    × (parse_u8 (codes "256") ≡ none)
    × (parse_u8 (codes "+") ≡ none)
    × (trim (codes " 7 8\n") ≡ codes "7 8")
unfolding parse_uint trim
parse_u8_bounds = (refl, refl, refl, refl)

trim_start-id : (s : Text) → all (λ b. not (is_space b)) s ≡ true → trim_start s ≡ s
unfolding trim_start
trim_start-id [] h = refl
trim_start-id (b ∷ s) h = ground arith

trim_end-id : (s : Text) → all (λ b. not (is_space b)) s ≡ true → trim_end s ≡ s
unfolding trim_end
trim_end-id [] h = refl
trim_end-id (b ∷ []) h = ground arith
trim_end-id (b ∷ c ∷ s) h = rw (trim_end-id (c ∷ s) (ground arith)) refl

-- A text with no white space is its own trimming.
pub trim-id : (s : Text) → all (λ b. not (is_space b)) s ≡ true → trim s ≡ s
unfolding trim
trim-id s h = rw (trim_start-id s h) (trim_end-id s h)
