-- ===== src/Singbox/Safe.antt =====
-- agent/src/singbox.rs: what the router's configuration is, whatever was imported.
use mu5250_wireguard.Base.{
  ◌≡◌, inl, inr, refl, subst, Bool, true, false, not, Option, none, some, List, [], ◌∷◌,
  if◌then◌else◌, Text, codes, text_eq, text_eq_refl, text_eq_iff, Result, ok, err, ◌>>=◌, arith,
  Bool-cases, map, ◌&&◌, any,
}
use mu5250_wireguard.Json.{
  Value, Items, Fields, null, boolean, number, string, array, object, nil, cons, end, field, entry,
  with_entry, without, items_of, append_items, as_array,
}
use mu5250_wireguard.Singbox.Runtime.{
  Error, unsupported_field, forbidden, forbidden_items, forbidden_fields, is_forbidden, ends_with,
  or_default, and_then, cleaned, strip_entry, stripped, items_at, Scan, route_of, selector,
  has_selector, or_insert, grouped,
}

-- Nothing below the value has a key that reads local files or sets routing marks.
abbrev pub IsPermitted : Value → Type 0
IsPermitted v = forbidden v ≡ ok tt

abbrev pub ArePermitted : Fields → Type 0
ArePermitted fs = forbidden_fields fs ≡ ok tt

abbrev pub AllPermitted : Items → Type 0
AllPermitted items = forbidden_items items ≡ ok tt

-- Both steps of a sequence of checks succeed.
step_parts :
    (a : Result Error (Unit {0})) (b : Result Error (Unit {0}))
    → (a >>= λ _. b) ≡ ok tt
    → (a ≡ ok tt) × (b ≡ ok tt)
step_parts (ok tt) b h = (refl, h)
step_parts (err e) b h = absurd (ground (arith, h))

guarded_parts :
    (g : Bool) (e : Error) (rest : Result Error (Unit {0}))
    → (if g then err e else rest) ≡ ok tt
    → (g ≡ false) × (rest ≡ ok tt)
guarded_parts false e rest h = (refl, h)
guarded_parts true e rest h = absurd (ground (arith, h))

field_parts :
    (k : Text) (v : Value) (fs : Fields)
    → ArePermitted (field k v fs)
    → (is_forbidden k ≡ false) × IsPermitted v × ArePermitted fs
unfolding forbidden forbidden_fields
field_parts k v fs h =
    let (key, rest) =
      guarded_parts (is_forbidden k) (unsupported_field k)
        (forbidden v >>= λ _. forbidden_fields fs) h in
    let (value, others) = step_parts (forbidden v) (forbidden_fields fs) rest in
    (key, value, others)

field-ArePermitted :
    (k : Text) (v : Value) (fs : Fields)
    → is_forbidden k ≡ false
    → IsPermitted v
    → ArePermitted fs
    → ArePermitted (field k v fs)
unfolding forbidden forbidden_fields
field-ArePermitted k v fs key value rest = rw (key, value) rest

cons_parts : (v : Value) (vs : Items) → AllPermitted (cons v vs) → IsPermitted v × AllPermitted vs
unfolding forbidden forbidden_items
cons_parts v vs h = step_parts (forbidden v) (forbidden_items vs) h

cons-AllPermitted :
    (v : Value) (vs : Items) → IsPermitted v → AllPermitted vs → AllPermitted (cons v vs)
unfolding forbidden forbidden_items
cons-AllPermitted v vs first rest = rw first rest

pub append_items-AllPermitted :
    (a b : Items) → AllPermitted a → AllPermitted b → AllPermitted (append_items a b)
unfolding append_items
append_items-AllPermitted nil b h k = k
append_items-AllPermitted (cons v vs) b h k =
    let (first, rest) = cons_parts v vs h in
    cons-AllPermitted v (append_items vs b) first (append_items-AllPermitted vs b rest k)

pub entry-IsPermitted :
    (fs : Fields) (key : Text) (v : Value) → ArePermitted fs → entry fs key ≡ some v → IsPermitted v
unfolding entry
entry-IsPermitted end key v h e = absurd (ground (arith, e))
entry-IsPermitted (field k u fs) key v h e =
    let (_, value, rest) = field_parts k u fs h in
    elim (Bool-cases (text_eq k key)) [
      | inl same ↦ subst IsPermitted (ground (arith, same, e)) value
      | inr other ↦ entry-IsPermitted fs key v rest (ground (arith, other, e))
    ]

pub with_entry-ArePermitted :
    (key : Text) (v : Value) (fs : Fields)
    → is_forbidden key ≡ false
    → IsPermitted v
    → ArePermitted fs
    → ArePermitted (with_entry key v fs)
unfolding with_entry
with_entry-ArePermitted key v end name value h = field-ArePermitted key v end name value h
with_entry-ArePermitted key v (field k u fs) name value h =
    let (old, below, rest) = field_parts k u fs h in
    elim (Bool-cases (text_eq k key)) [
      | inl same ↦ rw same (field-ArePermitted k v fs old value rest)
      | inr other ↦ rw other (
          field-ArePermitted k u (with_entry key v fs) old below
            (with_entry-ArePermitted key v fs name value rest))
    ]

-- What a name finds after a name was set.
pub entry-with_entry :
    (key : Text) (v : Value) (fs : Fields) → entry (with_entry key v fs) key ≡ some v
unfolding entry with_entry
entry-with_entry key v end = rw (text_eq_refl key) refl
entry-with_entry key v (field k u fs) = ground (arith, entry-with_entry key v fs)

pub entry-with_other :
    (key other : Text) (v : Value) (fs : Fields)
    → text_eq key other ≡ false
    → entry (with_entry key v fs) other ≡ entry fs other
unfolding entry with_entry
entry-with_other key other v end h = rw h refl
entry-with_other key other v (field k u fs) h = ground (
  arith,
  entry-with_other key other v fs h,
  text_eq_iff k key,
  text_eq_iff k other,
  text_eq_iff key other,
)

pub entry-without : (key : Text) (fs : Fields) → entry (without key fs) key ≡ none
unfolding entry without
entry-without key end = refl
entry-without key (field k u fs) = ground (arith, entry-without key fs)

pub entry-without_other :
    (key other : Text) (fs : Fields) → entry fs other ≡ none → entry (without key fs) other ≡ none
unfolding entry without
entry-without_other key other end h = refl
entry-without_other key other (field k u fs) h = ground (arith, entry-without_other key other fs)

stripped-other :
    (key name other : Text) (o : Option Value) (fs : Fields)
    → text_eq key other ≡ false
    → entry (stripped key name o fs) other ≡ entry fs other
stripped-other key name other none fs h = refl
stripped-other key name other (some (object m)) fs h =
    entry-with_other key other (object (without name m)) fs h
stripped-other key name other (some null) fs h = refl
stripped-other key name other (some (boolean b)) fs h = refl
stripped-other key name other (some (number n)) fs h = refl
stripped-other key name other (some (string s)) fs h = refl
stripped-other key name other (some (array items)) fs h = refl

pub cleaned-services : (c : Fields) → entry (cleaned c) (codes "services") ≡ none
unfolding cleaned text_eq
cleaned-services c =
    let a = without (codes "services") (without (codes "inbounds") c) in
    let b = without (codes "log") a in
    let d = without (codes "experimental") b in
    let e = strip_entry (codes "ntp") (codes "write_to_system") d in
    rw
      (
        stripped-other (codes "route") (codes "default_mark") (codes "services")
            (entry e (codes "route")) e refl,
        stripped-other (codes "ntp") (codes "write_to_system") (codes "services")
            (entry d (codes "ntp")) d refl,
      )
      (entry-without_other (codes "experimental") (codes "services") b (
        entry-without_other (codes "log") (codes "services") a
          (entry-without (codes "services") (without (codes "inbounds") c))))

-- The items of an array under a key.
array_of-AllPermitted :
    (o : Option Value)
    → ((v : Value) → o ≡ some v → IsPermitted v)
    → AllPermitted (or_default nil (and_then o as_array))
unfolding forbidden forbidden_items
array_of-AllPermitted none h = refl
array_of-AllPermitted (some (array items)) h = h (array items) refl
array_of-AllPermitted (some null) h = refl
array_of-AllPermitted (some (boolean b)) h = refl
array_of-AllPermitted (some (number n)) h = refl
array_of-AllPermitted (some (string s)) h = refl
array_of-AllPermitted (some (object fs)) h = refl

pub items_at-AllPermitted :
    (key : Text) (fs : Fields) → ArePermitted fs → AllPermitted (items_at key fs)
items_at-AllPermitted key fs h =
    array_of-AllPermitted (entry fs key) (λ v e. entry-IsPermitted fs key v h e)

pub route_of-ArePermitted :
    (o : Option Value) {route : Fields}
    → ((v : Value) → o ≡ some v → IsPermitted v)
    → route_of o ≡ some route
    → ArePermitted route
unfolding forbidden forbidden_fields
route_of-ArePermitted none {route} h e =
    let same : end ≡ route = ground (arith, e) in subst ArePermitted same refl
route_of-ArePermitted (some (object fs)) {route} h e =
    let same : fs ≡ route = ground (arith, e) in subst ArePermitted same (h (object fs) refl)
route_of-ArePermitted (some null) h e = absurd (ground (arith, e))
route_of-ArePermitted (some (boolean b)) h e = absurd (ground (arith, e))
route_of-ArePermitted (some (number n)) h e = absurd (ground (arith, e))
route_of-ArePermitted (some (string s)) h e = absurd (ground (arith, e))
route_of-ArePermitted (some (array items)) h e = absurd (ground (arith, e))

-- Texts alone are permitted.
texts-AllPermitted : (ts : List Text) → AllPermitted (items_of (map string ts))
unfolding forbidden forbidden_items items_of
texts-AllPermitted [] = refl
texts-AllPermitted (t ∷ ts) = texts-AllPermitted ts

selector-IsPermitted : (nodes : List Text) → IsPermitted (selector nodes)
unfolding forbidden forbidden_fields is_forbidden ends_with text_eq
selector-IsPermitted nodes = rw (texts-AllPermitted nodes) refl

or_insert-ArePermitted :
    (key : Text) (v : Value) (o : Option Value) (fs : Fields)
    → is_forbidden key ≡ false
    → IsPermitted v
    → ArePermitted fs
    → ArePermitted (or_insert key v o fs)
or_insert-ArePermitted key v none fs name value h = with_entry-ArePermitted key v fs name value h
or_insert-ArePermitted key v (some u) fs name value h = h

-- The group that is added refers to nodes by their tags alone.
pub grouped-permitted :
    (s : Scan) (outbounds : Items) (route : Fields)
    → AllPermitted outbounds
    → ArePermitted route
    → AllPermitted (grouped s outbounds route).0 × ArePermitted (grouped s outbounds route).1
unfolding grouped forbidden forbidden_items forbidden_fields is_forbidden ends_with text_eq
grouped-permitted s outbounds route h k =
    elim (Bool-cases (not (has_selector outbounds) && not (any (text_eq (codes "OpenUI")) s.0))) [
      | inr e ↦ rw e (h, k)
      | inl e ↦ rw e (
        append_items-AllPermitted outbounds (cons (selector s.1) nil) h
            (cons-AllPermitted (selector s.1) nil (selector-IsPermitted s.1) refl),
        or_insert-ArePermitted (codes "final") (string (codes "OpenUI"))
            (entry route (codes "final")) route refl refl k,
      )
    ]
