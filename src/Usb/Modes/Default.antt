-- ===== src/Usb/Modes/Default.antt =====
-- agent/src/usb.rs: the kept mode is read back, and nothing else of the file changes.
use mu5250_wireguard.Base.Digits.{trim}
use mu5250_wireguard.Base.{
  text_eq_refl, text_eq_iff, ◌≡◌, ◌≢◌, ◌⊎◌, inl, inr, ◌∙◌, refl, ap, Bool, true, false, Option,
  none, some, arith, Text, codes, text_eq, Bool-cases, Option-cases,
}
use mu5250_wireguard.Usb.Modes.{
  Mode, ncm, ecm, rndis, mode_text, mode_key, parse_usb_default_mode, set_usb_default_mode, insert,
  usb_mode_set, Action, refuse, schedule, firmware, confirmed,
}
use mu5250_wireguard.Json.{as_str, Value, Fields, object, end, field, string, entry, index}

entry-insert_self :
    (key : Text) (v : Value) (fields : Fields) → entry (insert key v fields) key ≡ some v
unfolding entry insert
entry-insert_self key v end = ground (arith, text_eq_refl key)
entry-insert_self key v (field k w rest) = ground (arith, entry-insert_self key v rest)

entry-insert_ne :
    (key other : Text) (v : Value) (fields : Fields)
    → text_eq key other ≡ false
    → entry (insert key v fields) other ≡ entry fields other
unfolding entry insert
entry-insert_ne key other v end h = ground arith
entry-insert_ne key other v (field k w rest) h = ground (
  arith,
  text_eq_iff k key,
  text_eq_iff k other,
  text_eq_iff key other,
  entry-insert_ne key other v rest,
)

-- Of "ecm" and "ncm", the mode that was set last is the one that the file gives at the next boot;
-- every other entry of an object is as before.
pub parse-set_usb_default_mode :
    (mode : Mode) (fields : Fields) (other : Text)
    → mode ≢ rndis
    → text_eq mode_key other ≡ false
    → (parse_usb_default_mode (set_usb_default_mode mode (object fields)) ≡ some mode)
      × (index (set_usb_default_mode mode (object fields)) other ≡ index (object fields) other)
unfolding parse_usb_default_mode set_usb_default_mode index trim text_eq
parse-set_usb_default_mode ncm fields other h k = (
  ground (arith, entry-insert_self mode_key (string (codes "ncm")) fields),
  ground (arith, entry-insert_ne mode_key other (string (codes "ncm")) fields k),
)
parse-set_usb_default_mode ecm fields other h k = (
  ground (arith, entry-insert_self mode_key (string (codes "ecm")) fields),
  ground (arith, entry-insert_ne mode_key other (string (codes "ecm")) fields k),
)
parse-set_usb_default_mode rndis fields other h k = absurd (h refl)

-- The mode that an action leads to.
abbrev pub reaches : Action → Option Mode
reaches (refuse status) = none
reaches (schedule m) = some m
reaches (firmware m) = some m

nameless :
    (ncm_ready ecm_ready is_ncm busy : Bool) (v : Value) (m : Mode)
    → as_str (index v (codes "mode")) ≡ none
    → reaches (usb_mode_set ncm_ready ecm_ready is_ncm busy (some v)) ≢ some m
unfolding usb_mode_set
nameless ncm_ready ecm_ready is_ncm busy v m e h = ground (arith, e)

named :
    (ncm_ready ecm_ready is_ncm busy : Bool) (v : Value) (m : Mode) (s : Text)
    → as_str (index v (codes "mode")) ≡ some s
    → reaches (usb_mode_set ncm_ready ecm_ready is_ncm busy (some v)) ≡ some m
    → (busy ≡ false)
      × (s ≡ mode_text m)
      × ((m ≢ ncm) ⊎ ((confirmed v ≡ true) × (ncm_ready ≡ true)))
      × ((m ≢ ecm) ⊎ (is_ncm ≡ false) ⊎ (ecm_ready ≡ true))
unfolding usb_mode_set
named ncm_ready ecm_ready is_ncm busy v m s e h = elim (Bool-cases (text_eq s (codes "ncm"))) [
  | inl a ↦ ground (arith, e, a, text_eq_iff s (codes "ncm"))
  | inr a ↦ elim (Bool-cases (text_eq s (codes "ecm"))) [
    | inl b ↦ ground (arith, e, a, b, text_eq_iff s (codes "ecm"))
    | inr b ↦ ground (arith, e, a, b, text_eq_iff s (codes "rndis"))
  ]
]

-- A request for a mode that is not refused names the mode it leads to, and no other change is in
-- progress; it leads to NCM only where it is confirmed and the preflight of NCM passed, and to ECM
-- from NCM only where the preflight of ECM passed.
pub usb_mode_set_guarded :
    (ncm_ready ecm_ready is_ncm busy : Bool) (v : Value) (m : Mode)
    → reaches (usb_mode_set ncm_ready ecm_ready is_ncm busy (some v)) ≡ some m
    → (busy ≡ false)
      × (as_str (index v (codes "mode")) ≡ some (mode_text m))
      × ((m ≢ ncm) ⊎ ((confirmed v ≡ true) × (ncm_ready ≡ true)))
      × ((m ≢ ecm) ⊎ (is_ncm ≡ false) ⊎ (ecm_ready ≡ true))
usb_mode_set_guarded ncm_ready ecm_ready is_ncm busy v m h =
    elim (Option-cases (as_str (index v (codes "mode")))) [
      | inl e ↦ absurd (nameless ncm_ready ecm_ready is_ncm busy v m e h)
      | inr (s, e) ↦
          let (free, name, to_ncm, to_ecm) = named ncm_ready ecm_ready is_ncm busy v m s e h in
          (free, e ∙ ap some name, to_ncm, to_ecm)
    ]
