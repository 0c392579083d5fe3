-- ===== src/Csv.antt =====
-- agent/src/csv_utils.rs and agent/src/connection_logger.rs: fields of a CSV line, and the rows of
-- the connection log.
mod Escape
mod Tests
use mu5250_wireguard.Base.{
  ℕ, zero, suc, ◌+◌, ◌-◌, ◌*◌, ◌/◌, ◌%◌, ◌^◌, ◌≤◌, ◌<◌, ◌≡◌, ◌≢◌, ◌↔◌, ◌⊎◌, inl, inr, ◌∙◌, refl,
  sym, ap, subst, Bool, true, false, not, ◌&&◌, ◌||◌, Option, none, some, List, [], ◌∷◌, ◌++◌, map,
  ◌==◌, if◌then◌else◌, arith, Text, codes, text_eq, Result, ok, err, leb, ltb, length, any, all,
  find, retain, All, Bool-cases, Option-cases, Result-cases,
}
use mu5250_wireguard.Json.{Value, Number, pos_int, neg_int, float, string, number, index}
use mu5250_wireguard.Base.Decimal.{decimal}

-- `Number::to_string`; the text of a float is the float.
abbrev number_text : (ℕ → Text) → Number → Text
number_text negative (pos_int n) = decimal n
number_text negative (neg_int n) = negative n
number_text negative (float s) = s

abbrev pub field_text : (ℕ → Text) → Value → Text
field_text negative (string s) = s
field_text negative (number n) = number_text negative n
field_text negative _ = []

-- `negative` prints a negative number.
unfoldable pub str_field : (ℕ → Text) → Value → Text → Text
str_field negative value key = field_text negative (index value key)

-- `s.replace('"', "\"\"")`
pub doubled : Text → Text
doubled [] = []
doubled (b ∷ s) = let rest = doubled s in if b == b'"' then b'"' ∷ b'"' ∷ rest else b ∷ rest

abbrev is_special : ℕ → Bool
is_special b = b == b',' || b == b'"' || b == 10

unfoldable pub csv_escape : Text → Text
unfolding doubled
csv_escape s = if any is_special s then b'"' ∷ (doubled s ++ b'"' ∷ []) else s

-- `Snapshot` of connection_logger.rs.
pub record Snapshot : Type 0 where
  pub cell_id : Text
  pub lte_band : Text
  pub nr_band : Text
  pub network_type : Text
  pub lte_pci : Text
  pub nr_pci : Text

module _ (negative : ℕ → Text) where
  unfoldable pub snapshot : Value → Snapshot
  snapshot value = record {
    cell_id = str_field negative value (codes "cell_id");
    lte_band = str_field negative value (codes "wan_active_band");
    nr_band = str_field negative value (codes "nr5g_action_band");
    network_type = str_field negative value (codes "network_type");
    lte_pci = str_field negative value (codes "lte_pci");
    nr_pci = str_field negative value (codes "nr5g_pci");
  }

abbrev is_empty : Text → Bool
is_empty [] = true
is_empty (b ∷ s) = false

-- A row: `stamp` is the time and the date with their commas.
abbrev row : Text → Text → Text → Text → Text → Text
row stamp event detail old new =
    stamp
    ++ event
    ++ codes ","
    ++ detail
    ++ codes ","
    ++ csv_escape old
    ++ codes ","
    ++ csv_escape new

-- The event of a change of the NR band; empty for none.
unfoldable pub nr_event : Text → Text → Text
nr_event old new =
    if is_empty old && not (is_empty new)
    then codes "nr_connected"
    else if not (is_empty old) && is_empty new
    then codes "nr_disconnected"
    else if not (is_empty old)
    then codes "nr_band_change"
    else []

abbrev when : Bool → Text → List Text
when true t = t ∷ []
when false t = []

abbrev changed : Text → Text → Bool
changed old new = not (text_eq new old) && not (is_empty old)

-- The rows of `rows` between two snapshots.
unfoldable pub changes : Text → Snapshot → Snapshot → List Text
changes stamp p cur =
    when (changed p.cell_id cur.cell_id)
      (row stamp (codes "cell_handover") (codes "cell_id changed") p.cell_id cur.cell_id)
    ++ when (changed p.lte_band cur.lte_band)
        (row stamp (codes "lte_band_change") (codes "LTE band changed") p.lte_band cur.lte_band)
    ++ when (not (text_eq cur.nr_band p.nr_band) && not (is_empty (nr_event p.nr_band cur.nr_band)))
        (row stamp (nr_event p.nr_band cur.nr_band) (codes "NR band changed") p.nr_band cur.nr_band)
    ++ when (changed p.network_type cur.network_type) (
        row stamp (codes "mode_change") (codes "Network type changed") p.network_type
          cur.network_type)
    ++ when (changed p.lte_pci cur.lte_pci)
        (row stamp (codes "lte_pci_change") (codes "LTE PCI changed") p.lte_pci cur.lte_pci)
    ++ when (changed p.nr_pci cur.nr_pci && not (is_empty cur.nr_pci))
        (row stamp (codes "nr_pci_change") (codes "NR PCI changed") p.nr_pci cur.nr_pci)

-- `date` is `chrono_lite`. The rows, and the `previous` behind them.
unfoldable pub rows : (ℕ → Text) → (ℕ → Text) → ℕ → Value → Option Value → List Text × Option Value
rows negative date ts value none = ([], some value)
rows negative date ts value (some old) =
    let stamp = decimal ts ++ codes "," ++ date ts ++ codes "," in
    (changes stamp (snapshot negative old) (snapshot negative value), some value)
