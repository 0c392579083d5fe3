-- ===== src/Base/Ipv4.antt =====
-- `Ipv4Addr` of the standard library: `parse`, and the classes that the agent asks for.
use mu5250_wireguard.Base.{
  ◌≤◌, inl, inr, subst, arith, Bool-cases, ℕ, ◌+◌, ◌-◌, ◌*◌, ◌≡◌, refl, Bool, not, ◌&&◌, ◌||◌,
  Option, none, some, List, [], ◌∷◌, ◌==◌, if◌then◌else◌, Text, codes, leb,
}
use mu5250_wireguard.Base.Digits.{is_digit}
use mu5250_wireguard.Base.Split.{split}

-- One octet: one to three digits, with no leading zero, of at most 255.
octet : Text → Option ℕ
octet (a ∷ []) = if is_digit a then some (a - b'0') else none
octet (a ∷ b ∷ []) =
    if is_digit a && is_digit b && not (a == b'0')
    then some ((a - b'0') * 10 + (b - b'0'))
    else none
octet (a ∷ b ∷ c ∷ []) =
    let n = (a - b'0') * 100 + ((b - b'0') * 10 + (c - b'0')) in
    if is_digit a && is_digit b && is_digit c && not (a == b'0') && leb n 255 then some n else none
octet _ = none

pub record Ipv4 : Type 0 where
  pub first : ℕ
  pub second : ℕ
  pub third : ℕ
  pub fourth : ℕ

abbrev joined : Option ℕ → Option ℕ → Option ℕ → Option ℕ → Option Ipv4
joined (some a) (some b) (some c) (some d) =
    some (record { first = a; second = b; third = c; fourth = d })
joined _ _ _ _ = none

abbrev of_pieces : List Text → Option Ipv4
of_pieces (a ∷ b ∷ c ∷ d ∷ []) = joined (octet a) (octet b) (octet c) (octet d)
of_pieces _ = none

unfoldable pub parse_ipv4 : Text → Option Ipv4
unfolding octet split
parse_ipv4 s = of_pieces (split b'.' s)

-- Is the address unspecified, loopback or multicast?
unfoldable pub is_special : Ipv4 → Bool
is_special i =
    (i.first == 0 && i.second == 0 && i.third == 0 && i.fourth == 0)
    || i.first == 127
    || (leb 224 i.first && leb i.first 239)

addresses :
    (parse_ipv4 (codes "10.0.0.256") ≡ none)
    × (parse_ipv4 (codes "10.0.0.01") ≡ none)
    × (parse_ipv4 (codes "10.0.0") ≡ none)
    × (parse_ipv4 (codes "10.20.0.255")
        ≡ some (record { first = 10; second = 20; third = 0; fourth = 255 }))
unfolding parse_ipv4
addresses = (refl, refl, refl, refl)

octet-le : (s : Text) (n : ℕ) → octet s ≡ some n → n ≤ 255
unfolding octet
octet-le [] n h = absurd (ground arith)
octet-le (a ∷ []) n h = elim (Bool-cases (is_digit a)) [
  | inl e ↦ ground (arith, e, h)
  | inr e ↦ absurd (ground (arith, e, h))
]
octet-le (a ∷ b ∷ []) n h = elim (Bool-cases (is_digit a && is_digit b && not (a == b'0'))) [
  | inl e ↦ ground (arith, e, h)
  | inr e ↦ absurd (ground (arith, e, h))
]
octet-le (a ∷ b ∷ c ∷ []) n h =
    let m = (a - b'0') * 100 + ((b - b'0') * 10 + (c - b'0')) in
    elim (Bool-cases (is_digit a && is_digit b && is_digit c && not (a == b'0') && leb m 255)) [
      | inl e ↦
          let same : m ≡ n = ground (arith, e, h) in
          let le : m ≤ 255 = ground (arith, e) in subst (λ x. x ≤ 255) same le
      | inr e ↦ absurd (ground (arith, e, h))
    ]
octet-le (a ∷ b ∷ c ∷ d ∷ s) n h = absurd (ground arith)

-- An address that is read has octets.
abbrev pub IsOctets : Ipv4 → Type 0
IsOctets i = (i.first ≤ 255) × (i.second ≤ 255) × (i.third ≤ 255) × (i.fourth ≤ 255)

joined-IsOctets :
    (a b c d : Option ℕ) {i : Ipv4}
    → ((n : ℕ) → a ≡ some n → n ≤ 255)
    → ((n : ℕ) → b ≡ some n → n ≤ 255)
    → ((n : ℕ) → c ≡ some n → n ≤ 255)
    → ((n : ℕ) → d ≡ some n → n ≤ 255)
    → joined a b c d ≡ some i
    → IsOctets i
joined-IsOctets (some a) (some b) (some c) (some d) {i = i} p q r s h =
    let read : Ipv4 = record { first = a; second = b; third = c; fourth = d } in
    let same : read ≡ i = ground (arith, h) in
    subst IsOctets same (p a refl, q b refl, r c refl, s d refl)
joined-IsOctets none b c d p q r s h = absurd (cc)
joined-IsOctets (some a) none c d p q r s h = absurd (cc)
joined-IsOctets (some a) (some b) none d p q r s h = absurd (cc)
joined-IsOctets (some a) (some b) (some c) none p q r s h = absurd (cc)

of_pieces-IsOctets : (ps : List Text) {i : Ipv4} → of_pieces ps ≡ some i → IsOctets i
of_pieces-IsOctets (a ∷ b ∷ c ∷ d ∷ []) h =
    joined-IsOctets (octet a) (octet b) (octet c) (octet d) (octet-le a) (octet-le b) (octet-le c)
      (octet-le d) h
of_pieces-IsOctets [] h = absurd (cc)
of_pieces-IsOctets (a ∷ []) h = absurd (cc)
of_pieces-IsOctets (a ∷ b ∷ []) h = absurd (cc)
of_pieces-IsOctets (a ∷ b ∷ c ∷ []) h = absurd (cc)
of_pieces-IsOctets (a ∷ b ∷ c ∷ d ∷ e ∷ ps) h = absurd (cc)

pub parse_ipv4-IsOctets : (s : Text) {i : Ipv4} → parse_ipv4 s ≡ some i → IsOctets i
unfolding parse_ipv4
parse_ipv4-IsOctets s h = of_pieces-IsOctets (split b'.' s) h
