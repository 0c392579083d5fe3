-- ===== src/Csv/Escape.antt =====
-- agent/src/csv_utils.rs: a field that was escaped can be read back.
use mu5250_wireguard.Csv.{csv_escape, doubled, is_special, rows, changes, snapshot, Snapshot}
use mu5250_wireguard.Json.{Value}
use mu5250_wireguard.Base.Decimal.{decimal}
use mu5250_wireguard.Base.{
  text_eq_refl, ℕ, ◌≡◌, inl, inr, ◌∙◌, refl, sym, ap, false, not, ◌||◌, some, [], ◌∷◌, ◌++◌, ◌==◌,
  if◌then◌else◌, arith, Text, codes, any, Bool-cases,
}

-- A reader of one field, by RFC 4180: behind a quote, two quotes are one and a single one ends the
-- field; otherwise a comma or a line feed does. What follows the field is the second component.
unfoldable pub quoted : Text → Text × Text
quoted [] = ([], [])
quoted (b ∷ []) = if b == b'"' then ([], []) else (b ∷ [], [])
quoted (b ∷ c ∷ s) =
    let pair = quoted s in
    let one = quoted (c ∷ s) in
    if not (b == b'"')
    then (b ∷ one.0, one.1)
    else if c == b'"'
    then (b'"' ∷ pair.0, pair.1)
    else ([], c ∷ s)

unfoldable pub plain : Text → Text × Text
plain [] = ([], [])
plain (b ∷ s) =
    let rest = plain s in if b == b',' || b == 10 then ([], b ∷ s) else (b ∷ rest.0, rest.1)

unfoldable pub read_field : Text → Text × Text
read_field [] = ([], [])
read_field (b ∷ s) = if b == b'"' then quoted s else plain (b ∷ s)

quoted-other :
    (b : ℕ) (t : Text) → (b == b'"') ≡ false → quoted (b ∷ t) ≡ (b ∷ (quoted t).0, (quoted t).1)
unfolding quoted
quoted-other b [] h = rw h refl
quoted-other b (c ∷ t) h = rw h refl

quoted-doubled : (s rest : Text) → quoted (doubled s ++ b'"' ∷ b',' ∷ rest) ≡ (s, b',' ∷ rest)
unfolding quoted doubled
quoted-doubled [] rest = refl
quoted-doubled (b ∷ s) rest = elim (Bool-cases (b == b'"')) [
  | inl e ↦
      let same : b ≡ b'"' = ground (arith, e) in
      rw e (
        ap (λ p. (b'"' ∷ p.0, p.1)) (quoted-doubled s rest)
        ∙ ap (λ c. (c ∷ s, b',' ∷ rest)) (sym same))
  | inr e ↦ rw e (
      quoted-other b (doubled s ++ b'"' ∷ b',' ∷ rest) e
      ∙ ap (λ p. (b ∷ p.0, p.1)) (quoted-doubled s rest))
]

plain-plain :
    (s rest : Text) → any is_special s ≡ false → plain (s ++ b',' ∷ rest) ≡ (s, b',' ∷ rest)
unfolding plain
plain-plain [] rest h = refl
plain-plain (b ∷ s) rest h = ground (arith, plain-plain s rest)

append_end : (s rest : Text) → (s ++ b'"' ∷ []) ++ b',' ∷ rest ≡ s ++ b'"' ∷ b',' ∷ rest
append_end [] rest = refl
append_end (b ∷ s) rest = ap (λ t. b ∷ t) (append_end s rest)

read_field-plain :
    (s rest : Text) → any is_special s ≡ false → read_field (s ++ b',' ∷ rest) ≡ (s, b',' ∷ rest)
unfolding read_field
read_field-plain [] rest h = plain-plain [] rest h
read_field-plain (b ∷ s) rest h =
    let other : (b == b'"') ≡ false = ground arith in rw other (plain-plain (b ∷ s) rest h)

-- Whatever text is escaped: a reader of the line, up to the comma behind it, gets the text back.
pub read_field-csv_escape :
    (s rest : Text) → read_field (csv_escape s ++ b',' ∷ rest) ≡ (s, b',' ∷ rest)
unfolding csv_escape read_field
read_field-csv_escape s rest = elim (Bool-cases (any is_special s)) [
  | inl e ↦ rw (e, append_end (doubled s) rest) (quoted-doubled s rest)
  | inr e ↦ rw e (read_field-plain s rest e)
]

changes-same : (stamp : Text) (p : Snapshot) → changes stamp p p ≡ []
unfolding changes
changes-same stamp p =
    rw
      (
        text_eq_refl p.cell_id,
        text_eq_refl p.lte_band,
        text_eq_refl p.nr_band,
        text_eq_refl p.network_type,
        text_eq_refl p.lte_pci,
        text_eq_refl p.nr_pci,
      )
      refl

-- Nothing is logged where the snapshot is the same as before, and the new value is the previous one
-- from then on.
pub rows-same :
    (negative date : ℕ → Text) (ts : ℕ) (old value : Value)
    → snapshot negative value ≡ snapshot negative old
    → rows negative date ts value (some old) ≡ ([], some value)
unfolding rows
rows-same negative date ts old value h = rw h (
    ap (λ l. (l, some value))
      (changes-same (decimal ts ++ codes "," ++ date ts ++ codes ",") (snapshot negative old)))
