-- ===== src/Usb/Gadget/Tests.antt =====
-- A device with one link whose switch fails after it has cleared the composition.
use mu5250_wireguard.Base.World.{Io}
use mu5250_wireguard.Base.Digits.{trim}
use mu5250_wireguard.Base.{
  text_eq_refl, ◌≡◌, refl, Bool, true, false, not, Option, none, some, List, [], ◌∷◌, ◌++◌,
  if◌then◌else◌, arith, Text, codes, text_eq, ok, err, retain, inl, inr, ap, subst, Result,
  Bool-cases,
}
use mu5250_wireguard.Usb.Gadget.{
  attribute_paths, restore_with, capture, udc_path, with_rollback, read_links, is_usb_interface,
  transactional_switch, SwitchError, Entry, Readings, RestoreIo, path,
}
use mu5250_wireguard.Usb.Gadget.Rollback.{Faithful, is_kept, switch-restored}
use mu5250_wireguard.Usb.Gadget.{restored, read_attributes, try_each}
use mu5250_wireguard.Usb.Gadget.Laws.{Laws, written, somes, is_in, is_in-retain}

abbrev entries : List Entry
entries =
    record { name = codes "f1"; is_symlink = ok true; target = ok (codes "gsi.ecm") }
    ∷ record { name = codes "strings"; is_symlink = ok false; target = err [] }
    ∷ []

abbrev links : List (Text × Text)
links = (path "configs/c.1/" ++ codes "f1", codes "gsi.ecm") ∷ []

-- `intact` until the links are touched.
record Device : Type 0 where
  content : Text → Text
  intact : Bool
  linked : List (Text × Text)
  joined : List Text

abbrev now_linked : Device → List (Text × Text)
now_linked d = if d.intact then links else d.linked

abbrev readings : Readings Device
readings = record {
  exists = λ d p. true;
  read = λ d p. ok (d.content p);
  entries = λ d. if d.intact then ok entries else err (codes "gone");
  members = λ d. ok d.joined;
}

abbrev hardware : RestoreIo Device
hardware = record {
  write = λ p v d. (ok tt, record d { content = λ q. if text_eq p q then v else d.content q });
  remove_links = λ d. (ok tt, record d { intact = false; linked = [] });
  link = λ t p d. (ok tt, record d { intact = false; linked = now_linked d ++ (p, t) ∷ [] });
  members = λ d. (ok d.joined, d);
  remove_member = λ x d. (ok tt, record d { joined = retain (λ m. not (text_eq x m)) d.joined });
  restore_member = λ x d. (ok tt, record d { joined = x ∷ d.joined });
}

written-append :
    (ls : List (Text × Text)) (p t q : Text) (old : Option Text)
    → written (somes (ls ++ (p, t) ∷ [])) old q
      ≡ (if text_eq p q then some t else written (somes ls) old q)
written-append [] p t q old = refl
written-append ((x, y) ∷ ls) p t q old =
    written-append ls p t q (if text_eq x q then some y else old)

abbrev content_view : Device → Text → Text
content_view d q = trim (d.content q)

hardware-Laws :
    Laws content_view
      (λ d q. written (somes (now_linked d)) none q)
      (λ d m. is_in m d.joined)
      hardware
hardware-Laws = record {
  write_attr = λ p v w q h. ground arith;
  write_link = λ p v w q h. refl;
  remove_links_link = λ w q h. refl;
  remove_links_attr = λ w q h. refl;
  link_link = λ t p w q h. written-append (now_linked w) p t q none;
  link_attr = λ t p w q h. refl;
  members_member = λ w {ms} m h. ground arith;
  members_same = λ w. refl;
  remove_member = λ x w m h. is_in-retain (λ m. not (text_eq x m)) w.joined m;
  remove_attr = λ x w q h. refl;
  remove_link = λ x w q h. refl;
  restore_member = λ x w m h. refl;
  restore_attr = λ x w q h. refl;
  restore_link = λ x w q h. refl;
}

entries_linked :
    (w : Device) (q : Text) {es : List Entry} {ls : List (Text × Text)}
    → readings.entries w ≡ ok es
    → read_links es ≡ ok ls
    → written (somes ls) none q ≡ written (somes (now_linked w)) none q
unfolding read_links
entries_linked w q {es} {ls} h k = elim (Bool-cases w.intact) [
  | inr e ↦ absurd (ground (arith, e))
  | inl e ↦
      let same : es ≡ entries = ground (arith, e) in
      let all : read_links entries ≡ ok ls = subst (λ es. read_links es ≡ ok ls) same k in
      let list : ls ≡ links = ground (arith, all) in rw (e, list) refl
]

readings-Faithful :
    Faithful content_view
      (λ d q. written (somes (now_linked d)) none q)
      (λ d m. is_in m d.joined)
      readings
readings-Faithful = record {
  read_attr = λ w p {s} h. ground (arith, λ (e : w.content p ≡ s). ap trim e);
  entries_link = λ w q {es} {ls} h k. entries_linked w q h k;
  members_member = λ w m {ms} h. ground arith;
}

abbrev before : Device
before = record {
  content = λ q. codes "a600000.dwc3\n";
  intact = true;
  linked = [];
  joined = codes "ecm0" ∷ codes "wlan0" ∷ [];
}

-- A switch that unlinks everything, takes "ecm0" out of the bridge, and fails.
abbrev failing : Io Device Text (Unit {0})
failing d = (
  err (codes "bind failed"),
  record d { content = λ q. []; intact = false; linked = []; joined = codes "wlan0" ∷ [] },
)

abbrev after : Result SwitchError (Unit {0}) × Device
after = transactional_switch readings hardware failing before

rolled_back : after.0 ≡ err (restored (codes "bind failed"))
unfolding transactional_switch with_rollback capture restore_with read_links is_usb_interface
    attribute_paths udc_path path trim text_eq read_attributes try_each
rolled_back = refl

udc_kept : is_kept readings before udc_path ≡ true
unfolding is_kept
udc_kept = rw (text_eq_refl udc_path) refl

switch-restored_example :
    (content_view after.1 udc_path ≡ content_view before udc_path)
    × (written (somes (now_linked after.1)) none (codes "x")
        ≡ written (somes (now_linked before)) none (codes "x"))
    × (is_in (codes "ecm0") after.1.joined ≡ is_in (codes "ecm0") before.joined)
unfolding is_usb_interface
switch-restored_example =
    switch-restored readings-Faithful hardware-Laws failing before udc_path (codes "x")
      (codes "ecm0") rolled_back udc_kept refl
