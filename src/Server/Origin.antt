-- ===== src/Server/Origin.antt =====
-- agent/src/server.rs: the origins that may read an answer.
use mu5250_wireguard.Base.{
  ℕ, ◌≡◌, ◌⊎◌, inl, inr, Bool, true, false, ◌&&◌, ◌||◌, Option, none, some, List, [], ◌∷◌, ◌==◌,
  if◌then◌else◌, Text, codes, text_eq, text_eq_iff, leb, Bool-cases, arith, refl, sym, subst, drop,
  any, length, ◌≤◌, Option-cases, map, ==_iff, ap, ◌∙◌,
}
use mu5250_wireguard.Base.Digits.{parse_u8}
use mu5250_wireguard.Base.Split.{split, first_piece}

unfoldable pub starts_with : Text → Text → Bool
starts_with [] s = true
starts_with (p ∷ ps) [] = false
starts_with (p ∷ ps) (b ∷ s) = p == b && starts_with ps s

-- The pieces that parse.
unfoldable pub octets_of : List Text → List ℕ
octets_of [] = []
octets_of (p ∷ ps) =
    let rest = octets_of ps in elim (parse_u8 p) [ none ↦ rest | some n ↦ n ∷ rest ]

abbrev pub is_private : List ℕ → Bool
is_private (a ∷ b ∷ c ∷ d ∷ []) =
    a == 10 || (a == 172 && leb 16 b && leb b 31) || (a == 192 && b == 168)
is_private _ = false

abbrev four : List Text → Bool
four (a ∷ b ∷ c ∷ d ∷ []) = true
four _ = false

abbrev pub host_of : Text → Text
host_of origin = first_piece b':' (drop 7 origin)

unfoldable pub is_lan_host : Text → Bool
is_lan_host host =
    text_eq host (codes "localhost")
    || text_eq host (codes "127.0.0.1")
    || text_eq host (codes "::1")
    || (four (split b'.' host) && is_private (octets_of (split b'.' host)))

unfoldable pub is_lan_origin : Text → Bool
is_lan_origin origin = starts_with (codes "http://") origin && is_lan_host (host_of origin)

-- The value of `Access-Control-Allow-Origin`.
unfoldable pub allowed_origin : Option Text → Text
allowed_origin none = []
allowed_origin (some o) = if is_lan_origin o then o else []

-- A piece has no separator in it.
first_piece-no_separator : (sep : ℕ) (s : Text) → any (λ b. b == sep) (first_piece sep s) ≡ false
unfolding first_piece
first_piece-no_separator sep [] = refl
first_piece-no_separator sep (b ∷ s) = ground (arith, first_piece-no_separator sep s)

host_of-not_loopback : (o : Text) → text_eq (host_of o) (codes "::1") ≡ false
host_of-not_loopback o = elim (Bool-cases (text_eq (host_of o) (codes "::1"))) [
  | inr e ↦ e
  | inl e ↦
      let same : host_of o ≡ codes "::1" = (text_eq_iff (host_of o) (codes "::1")).0 e in
      let colon : any (λ b. b == b':') (host_of o) ≡ true =
        subst (λ h. any (λ b. b == b':') h ≡ true) (sym same) refl in
      absurd (ground (arith, colon, first_piece-no_separator b':' (drop 7 o)))
]

-- At most as many octets as pieces.
octets_of-le : (ps : List Text) → length (octets_of ps) ≤ length ps
unfolding octets_of
octets_of-le [] = omega arith
octets_of-le (p ∷ ps) = ground (arith, octets_of-le ps)

-- With as many octets as pieces, each piece is one.
map-parse_u8 :
    (ps : List Text) → length (octets_of ps) ≡ length ps → map parse_u8 ps ≡ map some (octets_of ps)
unfolding octets_of
map-parse_u8 [] h = refl
map-parse_u8 (p ∷ ps) h = elim (Option-cases (parse_u8 p)) [
  | inl e ↦ absurd (ground (arith, e, h, octets_of-le ps))
  | inr (n, e) ↦
      let same : length (octets_of ps) ≡ length ps = ground (arith, e, h) in
      ground (arith, e, map-parse_u8 ps same)
]

-- Four decimal octets with dots between them, in one of the three private ranges.
abbrev pub IsPrivateHost : Text → Type 0
IsPrivateHost host =
    (a : ℕ) × (b : ℕ) × (c : ℕ) × (d : ℕ) × (map parse_u8 (split b'.' host)
      ≡ some a ∷ some b ∷ some c ∷ some d ∷ [])
    × ((a ≡ 10) ⊎ ((a ≡ 172) × (16 ≤ b) × (b ≤ 31)) ⊎ ((a ≡ 192) × (b ≡ 168)))

private_ranges :
    (a b c d : ℕ)
    → is_private (a ∷ b ∷ c ∷ d ∷ []) ≡ true
    → (a ≡ 10) ⊎ ((a ≡ 172) × (16 ≤ b) × (b ≤ 31)) ⊎ ((a ≡ 192) × (b ≡ 168))
private_ranges a b c d h = elim (Bool-cases (a == 10)) [
  | inl e ↦ inl ((==_iff a 10).0 e)
  | inr e ↦ elim (Bool-cases (a == 172)) [
    | inl k ↦ inr (inl (ground (arith, k), ground (arith, e, h, k), ground (arith, e, h, k)))
    | inr k ↦ inr (inr (ground (arith, e, k, h), ground (arith, e, k, h)))
  ]
]

length-four : (ps : List Text) → four ps ≡ true → length ps ≡ 4
length-four [] f = absurd (ground (arith, f))
length-four (a ∷ []) f = absurd (ground (arith, f))
length-four (a ∷ b ∷ []) f = absurd (ground (arith, f))
length-four (a ∷ b ∷ c ∷ []) f = absurd (ground (arith, f))
length-four (a ∷ b ∷ c ∷ d ∷ []) f = refl
length-four (a ∷ b ∷ c ∷ d ∷ e ∷ ps) f = absurd (ground (arith, f))

four_parts-IsPrivateHost :
    (h : Text)
    → four (split b'.' h) ≡ true
    → (ns : List ℕ) → octets_of (split b'.' h) ≡ ns
    → is_private ns ≡ true
    → IsPrivateHost h
four_parts-IsPrivateHost h f [] e k = absurd (ground (arith, k))
four_parts-IsPrivateHost h f (a ∷ []) e k = absurd (ground (arith, k))
four_parts-IsPrivateHost h f (a ∷ b ∷ []) e k = absurd (ground (arith, k))
four_parts-IsPrivateHost h f (a ∷ b ∷ c ∷ []) e k = absurd (ground (arith, k))
four_parts-IsPrivateHost h f (a ∷ b ∷ c ∷ d ∷ x ∷ ns) e k = absurd (ground (arith, k))
four_parts-IsPrivateHost h f (a ∷ b ∷ c ∷ d ∷ []) e k =
    let all_of : length (octets_of (split b'.' h)) ≡ length (split b'.' h) =
      ap length e ∙ sym (length-four (split b'.' h) f) in
    (a, b, c, d, map-parse_u8 (split b'.' h) all_of ∙ ap (map some) e, private_ranges a b c d k)

private_host :
    (h : Text)
    → is_lan_host h ≡ true
    → text_eq h (codes "::1") ≡ false
    → (h ≡ codes "localhost") ⊎ (h ≡ codes "127.0.0.1") ⊎ IsPrivateHost h
unfolding is_lan_host
private_host h lan n = elim (Bool-cases (text_eq h (codes "localhost"))) [
  | inl e ↦ inl ((text_eq_iff h (codes "localhost")).0 e)
  | inr e ↦ elim (Bool-cases (text_eq h (codes "127.0.0.1"))) [
    | inl k ↦ inr (inl ((text_eq_iff h (codes "127.0.0.1")).0 k))
    | inr k ↦
        let both : (four (split b'.' h) && is_private (octets_of (split b'.' h))) ≡ true =
          ground (arith, lan, n, e, k) in
        inr (
          inr (
            four_parts-IsPrivateHost h (ground (arith, both)) (octets_of (split b'.' h)) refl
              (ground (arith, both))))
  ]
]

-- The origin in the header of an answer is empty, or it is the request's own: it begins with
-- `http://`, and its host up to a colon is `localhost`, `127.0.0.1` or four decimal octets with dots
-- between them and nothing else, of which the first is 10, or the first two are 172 and from 16 to
-- 31, or 192 and 168. The comparison with `::1` admits no origin.
pub allowed_origin-private :
    (o : Text)
    → (allowed_origin (some o) ≡ [])
      ⊎ ((allowed_origin (some o) ≡ o)
          × (starts_with (codes "http://") o ≡ true)
          × ((host_of o ≡ codes "localhost")
              ⊎ (host_of o ≡ codes "127.0.0.1")
              ⊎ IsPrivateHost (host_of o)))
unfolding allowed_origin is_lan_origin
allowed_origin-private o = elim (Bool-cases (is_lan_origin o)) [
  | inr e ↦ inl (ground (arith, e))
  | inl e ↦
      let lan : is_lan_host (host_of o) ≡ true = ground (arith, e) in
      inr (
        ground (arith, e),
        ground (arith, e),
        private_host (host_of o) lan (host_of-not_loopback o),
      )
]
