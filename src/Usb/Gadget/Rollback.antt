-- ===== src/Usb/Gadget/Rollback.antt =====
-- agent/src/usb.rs: a switch that fails and reports restoration has changed nothing.
use mu5250_wireguard.Base.Digits.Trim.{trim-trim}
use mu5250_wireguard.Usb.Gadget.Laws.{trimmed}
use mu5250_wireguard.Base.{
  ensure, >>=-eq-ok, text_eq_iff, ◌≡◌, inl, inr, ◌∙◌, refl, sym, ap, Bool, true, not, ◌&&◌, ◌||◌,
  Option, none, List, [], ◌∷◌, if◌then◌else◌, arith, Text, text_eq, ok, any, retain, Bool-cases,
  Result-cases, err,
}
use mu5250_wireguard.Usb.Gadget.{
  restore_with, restored, Io, with_rollback, transactional_switch, RestoreIo, is_nil, trim, Entry,
  Readings, GadgetSnapshot, udc_path, attribute_paths, read_attributes, read_links, capture,
  is_usb_interface,
}
use mu5250_wireguard.Usb.Gadget.Laws.{restore_with-view, Laws, written, somes, is_in, is_in-retain}

-- What is read is what the views say: the trimmed contents, the links and the members.
pub record Faithful {W : Type 0} (attr : W → Text → Text) (link : W → Text → Option Text)
    (member : W → Text → Bool) (from : Readings W) : Type 0 where
  pub read_attr : (w : W) (p : Text) {s : Text} → from.read w p ≡ ok s → attr w p ≡ trim s
  pub entries_link :
      (w : W) (q : Text) {es : List Entry} {ls : List (Text × Text)}
      → from.entries w ≡ ok es
      → read_links es ≡ ok ls
      → written (somes ls) none q ≡ link w q
  pub members_member :
      (w : W) (m : Text) {ms : List Text} → from.members w ≡ ok ms → is_in m ms ≡ member w m

-- The files whose contents a snapshot keeps.
unfoldable pub is_kept : {W : Type 0} → Readings W → W → Text → Bool
is_kept from w q = text_eq udc_path q || any (λ p. from.exists w p && text_eq p q) attribute_paths

module _ {W : Type 0} {attr : W → Text → Text} {link : W → Text → Option Text}
    {member : W → Text → Bool} {from : Readings W}
    (true_from : Faithful attr link member from) where
  first :
      (w : W) (p : Text) (ps : List Text) (q old : Text) (others : List (Text × Text)) {v : Text}
      → from.exists w p ≡ true
      → attr w p ≡ v
      → written others (if text_eq p q then v else old) q ≡ (
          if any (λ p. from.exists w p && text_eq p q) ps
          then attr w q
          else (if text_eq p q then v else old))
      → written others (if text_eq p q then v else old) q
        ≡ (if any (λ p. from.exists w p && text_eq p q) (p ∷ ps) then attr w q else old)
  first w p ps q old others e v h = elim (Bool-cases (text_eq p q)) [
    | inl k ↦
        let same : attr w p ≡ attr w q = ap (attr w) ((text_eq_iff p q).0 k) in
        h ∙ ground (arith, e, k, same, v)
    | inr k ↦ h ∙ ground (arith, e, k)
  ]

  attributes_written :
      (w : W) (ps : List Text) (q old : Text) {vs : List (Text × Text)}
      → read_attributes from w ps ≡ ok vs
      → written (trimmed vs) old q
        ≡ (if any (λ p. from.exists w p && text_eq p q) ps then attr w q else old)
  unfolding read_attributes
  attributes_written w [] q old {vs} h = let same : vs ≡ [] = ground arith in rw same refl
  attributes_written w (p ∷ ps) q old {vs} h = elim (Bool-cases (from.exists w p)) [
    | inr e ↦ rw e (attributes_written w ps q old {vs = vs} (ground (arith, e)))
    | inl e ↦ elim (Result-cases (from.read w p)) [
      | inr (x, k) ↦ absurd (ground (arith, e, k))
      | inl (s, k) ↦ elim (Result-cases (read_attributes from w ps)) [
        | inr (x, l) ↦ absurd (ground (arith, e, k, l))
        | inl (others, l) ↦
            let same : vs ≡ (p, trim s) ∷ others = ground (arith, e, k, l) in
            rw same (
              first w p ps q old (trimmed others) e (true_from.read_attr w p k ∙ sym (trim-trim s))
                (attributes_written w ps q (if text_eq p q then trim (trim s) else old) l))
      ]
    ]
  ]

  -- What a snapshot says, by the views.
  capture_view :
      (w : W) (q : Text) {s : GadgetSnapshot}
      → capture from w ≡ ok s
      → (trim s.udc ≡ attr w udc_path)
        × ((old : Text)
            → written (trimmed s.attributes) old q ≡ (
                if any (λ p. from.exists w p && text_eq p q) attribute_paths
                then attr w q
                else old))
        × (written (somes s.links) none q ≡ link w q)
        × (is_usb_interface q ≡ true → is_in q s.bridge ≡ member w q)
  unfolding capture
  capture_view w q {s} h =
      let (udc, e1, h1) = >>=-eq-ok (from.read w udc_path) _ h in
      let (attributes, e2, h2) = >>=-eq-ok (read_attributes from w attribute_paths) _ h1 in
      let (entries, e3, h3) = >>=-eq-ok (from.entries w) _ h2 in
      let (links, e4, h4) = >>=-eq-ok (read_links entries) _ h3 in
      let (_, e5, h5) = >>=-eq-ok (ensure (not (is_nil links)) _) _ h4 in
      let (members, e6, h6) = >>=-eq-ok (from.members w) _ h5 in
      let is_udc : s.udc ≡ trim udc = ground (arith, h6) in
      let is_attributes : s.attributes ≡ attributes = ground (arith, h6) in
      let is_links : s.links ≡ links = ground (arith, h6) in
      let is_bridge : s.bridge ≡ retain is_usb_interface members = ground (arith, h6) in
      (
        ap trim is_udc ∙ trim-trim udc ∙ sym (true_from.read_attr w udc_path e1),
        λ old. rw is_attributes (attributes_written w attribute_paths q old e2),
        rw is_links (true_from.entries_link w q e3 e4),
        λ usb. rw is_bridge (
            ground (
              arith,
              usb,
              is_in-retain is_usb_interface members q,
              true_from.members_member w q e6,
            )),
      )

  module _ {io : RestoreIo W} (laws : Laws attr link member io) where
    -- Over operations that keep their laws, for a switch `apply` that may do anything: where the
    -- switch fails and its message says that the composition was restored, the controller and every
    -- attribute that was there (`p`), every link (`l`) and the bridge's membership of every USB
    -- interface (`m`) are as before the switch.
    pub switch-restored :
        (apply : Io W Text (Unit {0})) (w : W) (p l m : Text) {e : Text}
        → (transactional_switch from io apply w).0 ≡ err (restored e)
        → is_kept from w p ≡ true
        → is_usb_interface m ≡ true
        → (attr (transactional_switch from io apply w).1 p ≡ attr w p)
          × (link (transactional_switch from io apply w).1 l ≡ link w l)
          × (member (transactional_switch from io apply w).1 m ≡ member w m)
    unfolding transactional_switch with_rollback is_kept
    switch-restored apply w p l m {e} h kept usb = elim (Result-cases (capture from w)) [
      | inr (x, k) ↦ absurd (ground (arith, k))
      | inl (s, k) ↦
          let w1 = (apply w).1 in
          elim (Result-cases (apply w).0) [
            | inl (_, a) ↦ absurd (ground (arith, k, a))
            | inr (x, a) ↦ elim (Result-cases (restore_with io s w1).0) [
              | inr (y, r) ↦ absurd (ground (arith, k, a, r))
              | inl (_, r) ↦
                  let (udc, attributes, _, _) = capture_view w p k in
                  let (attr_after, _, _) = restore_with-view laws s w1 p r in
                  rw (k, a)
                    (
                      attr_after
                          ∙ ground (
                            arith,
                            udc,
                            attributes (if text_eq udc_path p then trim [] else attr w1 p),
                            λ (same : udc_path ≡ p). ap (attr w) same,
                            text_eq_iff udc_path p,
                            kept,
                          ),
                      (restore_with-view laws s w1 l r).1 ∙ (capture_view w l k).2,
                      (restore_with-view laws s w1 m r).2 usb ∙ (capture_view w m k).3 usb,
                    )
            ]
          ]
    ]
