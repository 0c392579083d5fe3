-- ===== src/Json.antt =====
-- JSON values as serde_json holds them: the types of a number, and an object as its entries.
use mu5250_wireguard.Base.{ℕ, Text, Bool, Option, none, some, text_eq, if◌then◌else◌, List, [], ◌∷◌}

-- `Number`: a non-negative integer, a negative one, or a float by its text.
pub data Number : Type 0 where
  pos_int : ℕ → Number
  neg_int : ℕ → Number
  float : Text → Number

mutual
  pub data Value : Type 0 where
    null : Value
    boolean : Bool → Value
    number : Number → Value
    string : Text → Value
    array : Items → Value
    object : Fields → Value

  pub data Items : Type 0 where
    nil : Items
    cons : Value → Items → Items

  pub data Fields : Type 0 where
    end : Fields
    field : Text → Value → Fields → Fields

-- `Map::get`
unfoldable pub entry : Fields → Text → Option Value
entry end key = none
entry (field k v rest) key = if text_eq k key then some v else entry rest key

-- `value[key]`: null where the value is no object or has no such key.
unfoldable pub index : Value → Text → Value
unfolding entry
index (object fields) key = elim (entry fields key) [ none ↦ null | some v ↦ v ]
index _ key = null

-- `Value::as_str`
abbrev pub as_str : Value → Option Text
as_str (string s) = some s
as_str _ = none

-- `Map::insert` and `Map::remove`, and an assignment through `get_mut`.
unfoldable pub with_entry : Text → Value → Fields → Fields
with_entry key value end = field key value end
with_entry key value (field k v rest) =
    let later = with_entry key value rest in
    if text_eq k key then field k value rest else field k v later

unfoldable pub without : Text → Fields → Fields
without key end = end
without key (field k v rest) =
    let later = without key rest in if text_eq k key then later else field k v later

-- `Value::as_array`, and `Value::as_object`.
abbrev pub as_array : Value → Option Items
as_array (array items) = some items
as_array _ = none

abbrev pub as_object : Value → Option Fields
as_object (object fields) = some fields
as_object _ = none

unfoldable pub items_of : List Value → Items
items_of [] = nil
items_of (v ∷ vs) = cons v (items_of vs)

unfoldable pub append_items : Items → Items → Items
append_items nil items = items
append_items (cons v vs) items = cons v (append_items vs items)

unfoldable pub find_item : (Value → Bool) → Items → Option Value
find_item p nil = none
find_item p (cons v vs) = let rest = find_item p vs in if p v then some v else rest
