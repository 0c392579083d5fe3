-- ===== src/Csv/Tests.antt =====
-- Fields with and without quotes.
use mu5250_wireguard.Base.{◌≡◌, refl, [], ◌∷◌, ◌++◌, codes}
use mu5250_wireguard.Csv.{csv_escape}
use mu5250_wireguard.Csv.Escape.{read_field, read_field-csv_escape}

quotes_doubled : csv_escape (b'a' ∷ b'"' ∷ []) ≡ b'"' ∷ b'a' ∷ b'"' ∷ b'"' ∷ b'"' ∷ []
unfolding csv_escape
quotes_doubled = refl

read_field-csv_escape_example :
    read_field (csv_escape (b'"' ∷ codes ",x") ++ b',' ∷ codes "y")
    ≡ (b'"' ∷ codes ",x", b',' ∷ codes "y")
read_field-csv_escape_example = read_field-csv_escape (b'"' ∷ codes ",x") (codes "y")
