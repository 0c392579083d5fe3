-- ===== src/Usb/Gadget/Laws.antt =====
-- agent/src/usb.rs: what a restoration asks of its operations, and the state that it leaves.
use mu5250_wireguard.Usb.Gadget.{
  trim, GadgetSnapshot, RestoreIo, udc_path, noted, try_each, rebuild, rejoin, restore_with,
  verdict, or_none, extra, is_usb_interface,
}
use mu5250_wireguard.Base.{
  text_eq_iff, ◌≡◌, inl, inr, ◌∙◌, refl, ap, Bool, true, not, ◌&&◌, ◌||◌, Option, none, some, List,
  [], ◌∷◌, ◌++◌, if◌then◌else◌, arith, Text, text_eq, Result, ok, err, any, retain, Bool-cases,
}

-- The value at `q` after values are written in turn.
abbrev pub written {ℓ} : {A : Type ℓ} → List (Text × A) → A → Text → A
written [] old q = old
written ((p, v) ∷ rest) old q = written rest (if text_eq p q then v else old) q

abbrev pub somes : List (Text × Text) → List (Text × Option Text)
somes [] = []
somes ((p, v) ∷ rest) = (p, some v) ∷ somes rest

-- What a reader that trims sees of the values.
abbrev pub trimmed : List (Text × Text) → List (Text × Text)
trimmed [] = []
trimmed ((p, v) ∷ rest) = (p, trim v) ∷ trimmed rest

abbrev pub is_in : Text → List Text → Bool
is_in m = any (λ x. text_eq x m)

-- `attr` is the trimmed content of a file, `link` the target of a link of the configuration, and
-- `member` says which interfaces the bridge has. An operation that returns `Ok` does its work and
-- leaves the other views as they are; what a failed one does is left open.
pub record Laws {W : Type 0} (attr : W → Text → Text) (link : W → Text → Option Text)
    (member : W → Text → Bool) (io : RestoreIo W) : Type 0 where
  pub write_attr :
      (p v : Text) (w : W) (q : Text)
      → (io.write p v w).0 ≡ ok tt
      → attr (io.write p v w).1 q ≡ (if text_eq p q then trim v else attr w q)
  pub write_link :
      (p v : Text) (w : W) (q : Text)
      → (io.write p v w).0 ≡ ok tt
      → link (io.write p v w).1 q ≡ link w q
  pub remove_links_link :
      (w : W) (q : Text) → (io.remove_links w).0 ≡ ok tt → link (io.remove_links w).1 q ≡ none
  pub remove_links_attr :
      (w : W) (q : Text) → (io.remove_links w).0 ≡ ok tt → attr (io.remove_links w).1 q ≡ attr w q
  pub link_link :
      (t p : Text) (w : W) (q : Text)
      → (io.link t p w).0 ≡ ok tt
      → link (io.link t p w).1 q ≡ (if text_eq p q then some t else link w q)
  pub link_attr :
      (t p : Text) (w : W) (q : Text)
      → (io.link t p w).0 ≡ ok tt
      → attr (io.link t p w).1 q ≡ attr w q
  pub members_member :
      (w : W) {ms : List Text} (m : Text) → (io.members w).0 ≡ ok ms → is_in m ms ≡ member w m
  pub members_same : (w : W) → (io.members w).1 ≡ w
  pub remove_member :
      (x : Text) (w : W) (m : Text)
      → (io.remove_member x w).0 ≡ ok tt
      → member (io.remove_member x w).1 m ≡ (not (text_eq x m) && member w m)
  pub remove_attr :
      (x : Text) (w : W) (q : Text)
      → (io.remove_member x w).0 ≡ ok tt
      → attr (io.remove_member x w).1 q ≡ attr w q
  pub remove_link :
      (x : Text) (w : W) (q : Text)
      → (io.remove_member x w).0 ≡ ok tt
      → link (io.remove_member x w).1 q ≡ link w q
  pub restore_member :
      (x : Text) (w : W) (m : Text)
      → (io.restore_member x w).0 ≡ ok tt
      → member (io.restore_member x w).1 m ≡ (text_eq x m || member w m)
  pub restore_attr :
      (x : Text) (w : W) (q : Text)
      → (io.restore_member x w).0 ≡ ok tt
      → attr (io.restore_member x w).1 q ≡ attr w q
  pub restore_link :
      (x : Text) (w : W) (q : Text)
      → (io.restore_member x w).0 ≡ ok tt
      → link (io.restore_member x w).1 q ≡ link w q

no_errors : (a b : List Text) → a ++ b ≡ [] → (a ≡ []) × (b ≡ [])
no_errors [] b h = (refl, h)
no_errors (e ∷ a) b h = absurd (ground arith)

noted-ok : (r : Result Text (Unit {0})) → noted r ≡ [] → r ≡ ok tt
noted-ok (ok _) h = refl
noted-ok (err e) h = absurd (ground arith)

verdict-ok : (es : List Text) → verdict es ≡ ok tt → es ≡ []
verdict-ok [] h = refl
verdict-ok (e ∷ es) h = absurd (ground arith)

pub is_in-retain :
    (f : Text → Bool) (l : List Text) (q : Text) → is_in q (retain f l) ≡ (f q && is_in q l)
is_in-retain f [] q = ground arith
is_in-retain f (x ∷ l) q = elim (Bool-cases (text_eq x q)) [
  | inl e ↦
      let same : f x ≡ f q = ap f ((text_eq_iff x q).0 e) in
      ground (arith, e, same, is_in-retain f l q)
  | inr e ↦ ground (arith, e, is_in-retain f l q)
]

is_in-extra :
    (s : GadgetSnapshot) (ms : List Text) (q : Text)
    → is_usb_interface q ≡ true
    → is_in q (extra s ms) ≡ (not (is_in q s.bridge) && is_in q ms)
is_in-extra s ms q h = ground (
  arith,
  is_in-retain (λ m. not (is_in m s.bridge)) (retain is_usb_interface ms) q,
  is_in-retain is_usb_interface ms q,
)

listed : (r : Result Text (List Text)) → noted r ≡ [] → (ms : List Text) × (r ≡ ok ms)
listed (ok ms) h = (ms, refl)
listed (err e) h = absurd (ground arith)

module _ {W : Type 0} {attr : W → Text → Text} {link : W → Text → Option Text}
    {member : W → Text → Bool} {io : RestoreIo W} (laws : Laws attr link member io) where
  writes_view :
      (l : List (Text × Text)) (w : W) (q : Text)
      → (try_each (λ a. io.write a.0 a.1) l w).0 ≡ []
      → (attr (try_each (λ a. io.write a.0 a.1) l w).1 q ≡ written (trimmed l) (attr w q) q)
        × (link (try_each (λ a. io.write a.0 a.1) l w).1 q ≡ link w q)
  unfolding try_each
  writes_view [] w q h = (refl, refl)
  writes_view ((p, v) ∷ l) w q h =
      let w1 = (io.write p v w).1 in
      let (first, others) = no_errors (noted (io.write p v w).0) _ h in
      let done = noted-ok (io.write p v w).0 first in
      let (here, there) = writes_view l w1 q others in
      (
        here ∙ ap (λ v. written (trimmed l) v q) (laws.write_attr p v w q done),
        there ∙ laws.write_link p v w q done,
      )

  links_view :
      (l : List (Text × Text)) (w : W) (q : Text)
      → (try_each (λ a. io.link a.1 a.0) l w).0 ≡ []
      → (link (try_each (λ a. io.link a.1 a.0) l w).1 q ≡ written (somes l) (link w q) q)
        × (attr (try_each (λ a. io.link a.1 a.0) l w).1 q ≡ attr w q)
  unfolding try_each
  links_view [] w q h = (refl, refl)
  links_view ((p, t) ∷ l) w q h =
      let w1 = (io.link t p w).1 in
      let (first, others) = no_errors (noted (io.link t p w).0) _ h in
      let done = noted-ok (io.link t p w).0 first in
      let (here, there) = links_view l w1 q others in
      (
        here ∙ ap (λ v. written (somes l) v q) (laws.link_link t p w q done),
        there ∙ laws.link_attr t p w q done,
      )

  removed_view :
      (l : List Text) (w : W) (q : Text)
      → (try_each io.remove_member l w).0 ≡ []
      → (member (try_each io.remove_member l w).1 q ≡ (not (is_in q l) && member w q))
        × (attr (try_each io.remove_member l w).1 q ≡ attr w q)
        × (link (try_each io.remove_member l w).1 q ≡ link w q)
  unfolding try_each
  removed_view [] w q h = (refl, refl, refl)
  removed_view (x ∷ l) w q h =
      let w1 = (io.remove_member x w).1 in
      let (first, others) = no_errors (noted (io.remove_member x w).0) _ h in
      let done = noted-ok (io.remove_member x w).0 first in
      ground (
        arith,
        removed_view l w1 q others,
        laws.remove_member x w q done,
        laws.remove_attr x w q done,
        laws.remove_link x w q done,
      )

  restored_view :
      (l : List Text) (w : W) (q : Text)
      → (try_each io.restore_member l w).0 ≡ []
      → (member (try_each io.restore_member l w).1 q ≡ (is_in q l || member w q))
        × (attr (try_each io.restore_member l w).1 q ≡ attr w q)
        × (link (try_each io.restore_member l w).1 q ≡ link w q)
  unfolding try_each
  restored_view [] w q h = (refl, refl, refl)
  restored_view (x ∷ l) w q h =
      let w1 = (io.restore_member x w).1 in
      let (first, others) = no_errors (noted (io.restore_member x w).0) _ h in
      let done = noted-ok (io.restore_member x w).0 first in
      ground (
        arith,
        restored_view l w1 q others,
        laws.restore_member x w q done,
        laws.restore_attr x w q done,
        laws.restore_link x w q done,
      )

  rebuild_view :
      (s : GadgetSnapshot) (w : W) (q : Text)
      → (rebuild io s w).0 ≡ []
      → (attr (rebuild io s w).1 q ≡ (
          if text_eq udc_path q
          then trim s.udc
          else written (trimmed s.attributes) (if text_eq udc_path q then trim [] else attr w q) q))
        × (link (rebuild io s w).1 q ≡ written (somes s.links) none q)
  unfolding rebuild
  rebuild_view s w q h =
      let unbound = io.write udc_path [] w in
      let cleared = io.remove_links unbound.1 in
      let attributes = try_each (λ a. io.write a.0 a.1) s.attributes cleared.1 in
      let links = try_each (λ l. io.link l.1 l.0) s.links attributes.1 in
      let (e1, h1) = no_errors (noted unbound.0) _ h in
      let (e2, h2) = no_errors (noted cleared.0) _ h1 in
      let (e3, h3) = no_errors attributes.0 _ h2 in
      let (e4, h4) = no_errors links.0 _ h3 in
      let d1 = noted-ok unbound.0 e1 in
      let d2 = noted-ok cleared.0 e2 in
      let d5 = noted-ok (io.write udc_path s.udc links.1).0 h4 in
      let (a3, l3) = writes_view s.attributes cleared.1 q e3 in
      let (l4, a4) = links_view s.links attributes.1 q e4 in
      (
        laws.write_attr udc_path s.udc links.1 q d5
            ∙ ap (λ v. if text_eq udc_path q then trim s.udc else v)
                (a4
                  ∙ a3
                  ∙ ap (λ v. written (trimmed s.attributes) v q)
                      (laws.remove_links_attr unbound.1 q d2 ∙ laws.write_attr udc_path [] w q d1)),
        laws.write_link udc_path s.udc links.1 q d5
            ∙ l4
            ∙ ap (λ v. written (somes s.links) v q) (l3 ∙ laws.remove_links_link unbound.1 q d2),
      )

  rejoin_view :
      (s : GadgetSnapshot) (w : W) (q : Text)
      → (rejoin io s w).0 ≡ []
      → (attr (rejoin io s w).1 q ≡ attr w q)
        × (link (rejoin io s w).1 q ≡ link w q)
        × (is_usb_interface q ≡ true → member (rejoin io s w).1 q ≡ is_in q s.bridge)
  unfolding rejoin
  rejoin_view s w q h =
      let members = io.members w in
      let gone = extra s (or_none members.0) in
      let removed = try_each io.remove_member gone members.1 in
      let (e1, h1) = no_errors (noted members.0) _ h in
      let (e2, e3) = no_errors removed.0 _ h1 in
      let (m2, a2, l2) = removed_view gone members.1 q e2 in
      let (m3, a3, l3) = restored_view s.bridge removed.1 q e3 in
      let same = laws.members_same w in
      (
        a3 ∙ a2 ∙ ap (λ v. attr v q) same,
        l3 ∙ l2 ∙ ap (λ v. link v q) same,
        λ usb.
            let (ms, got) = listed members.0 e1 in
            let here : is_in q (or_none members.0) ≡ member w q =
              rw got (laws.members_member w q got) in
            ground (
              arith,
              m2,
              m3,
              here,
              is_in-extra s (or_none members.0) q usb,
              ap (λ v. member v q) same,
            ),
      )

  -- A restoration that reports no error leaves the controller, the attributes and the links of the
  -- snapshot, and of the USB interfaces those of its bridge.
  pub restore_with-view :
      (s : GadgetSnapshot) (w : W) (q : Text)
      → (restore_with io s w).0 ≡ ok tt
      → (attr (restore_with io s w).1 q ≡ (
          if text_eq udc_path q
          then trim s.udc
          else written (trimmed s.attributes) (if text_eq udc_path q then trim [] else attr w q) q))
        × (link (restore_with io s w).1 q ≡ written (somes s.links) none q)
        × (is_usb_interface q ≡ true → member (restore_with io s w).1 q ≡ is_in q s.bridge)
  unfolding restore_with
  restore_with-view s w q h =
      let built = (rebuild io s w).1 in
      let (e1, e2) = no_errors (rebuild io s w).0 _ (verdict-ok _ h) in
      let (a1, l1) = rebuild_view s w q e1 in
      let (a2, l2, m2) = rejoin_view s built q e2 in (a2 ∙ a1, l2 ∙ l1, m2)
