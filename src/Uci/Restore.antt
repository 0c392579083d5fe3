-- ===== src/Uci/Restore.antt =====
-- agent/src/uci_transaction.rs: a change that fails leaves the live configuration as it was.
use mu5250_wireguard.Base.{
  text_eq_iff, ◌≡◌, ◌≢◌, ◌⊎◌, inl, inr, ◌∙◌, refl, sym, ap, true, false, Option, none, List, [],
  ◌∷◌, arith, Text, text_eq, ok, err, any, All, Bool-cases, Result-cases,
}
use mu5250_wireguard.Uci.{
  Change, Backend, plain, restored, configs, verdict, set_all, commit_all, undo, finish, install,
  prepare, execute,
}
use mu5250_wireguard.Uci.Laws.{Laws}
use mu5250_wireguard.Uci.Keys
use mu5250_wireguard.Uci.Keys.{commit-IsClean}
use mu5250_wireguard.Uci.Undo.{undo-live}

module _ {W : Type 0} (live : W → Text → Text) (staged : W → Text → Option Text) (b : Backend W)
    (laws : Laws live staged b) (j l : Text) where
  abbrev IsDone : W → Type 0
  IsDone = Keys.IsDone live staged j l

  abbrev IsClean : W → Type 0
  IsClean = Keys.IsClean live staged j l

  set_all-live : (cs : List Change) (w : W) → live (set_all b cs w).1 j ≡ live w j
  unfolding set_all
  set_all-live [] w = refl
  set_all-live (c ∷ cs) w =
      let w1 = (b.set c.key c.after w).1 in
      ground (arith, laws.set_live c.key c.after w j, set_all-live cs w1)

  set_all-IsClean :
      (cs : List Change) (w : W)
      → (set_all b cs w).0 ≡ ok tt
      → any (λ x. text_eq x.key j) cs ≡ false
      → IsClean w
      → IsClean (set_all b cs w).1
  unfolding set_all
  set_all-IsClean [] w h m d = d
  set_all-IsClean (c ∷ cs) w h m d =
      let w1 = (b.set c.key c.after w).1 in
      ground (
        arith,
        laws.set_live c.key c.after w j,
        laws.set_true c.key c.after w j,
        set_all-IsClean cs w1,
      )

  commit_all-IsClean : (ds : List Text) (w : W) → IsClean w → IsClean (commit_all b ds w).1
  unfolding commit_all
  commit_all-IsClean [] w d = d
  commit_all-IsClean (c ∷ ds) w d =
      let w1 = (b.commit c w).1 in
      ground (arith, commit-IsClean live staged b laws j l c w d, commit_all-IsClean ds w1)

  pub install-IsClean :
      (cs : List Change) (w : W)
      → Keys.IsClean live staged j l w
      → Keys.IsClean live staged j l (install b cs w).1
  unfolding install
  install-IsClean cs w d =
      let w1 = (commit_all b (configs cs) w).1 in
      ground
        (arith, commit_all-IsClean (configs cs) w d, laws.apply_live w1 j, laws.apply_staged w1 j)

  prepare-live : (cs : List Change) (w : W) → live (prepare b cs w).1 j ≡ live w j
  unfolding prepare
  prepare-live cs w =
      let w1 = (b.check cs w).1 in
      let w2 = (set_all b cs w1).1 in
      ground (arith, laws.check_live cs w j, set_all-live cs w1, laws.check_live cs w2 j)

  pub prepare-IsClean :
      (cs : List Change) (w : W)
      → (prepare b cs w).0 ≡ ok tt
      → any (λ x. text_eq x.key j) cs ≡ false
      → IsClean w
      → IsClean (prepare b cs w).1
  unfolding prepare
  prepare-IsClean cs w h m d =
      let w1 = (b.check cs w).1 in
      let w2 = (set_all b cs w1).1 in
      ground (
        arith,
        laws.check_live cs w j,
        laws.check_staged cs w j,
        set_all-IsClean cs w1,
        laws.check_live cs w2 j,
        laws.check_staged cs w2 j,
      )

  expected :
      (cs : List Change) (w : W)
      → live w j ≡ l
      → All (λ c. live w c.key ≡ c.before) cs
      → All (λ c. text_eq c.key j ≡ true → c.before ≡ l) cs
  expected [] w e h = tt
  expected (c ∷ cs) w e (here, h) =
      (λ same. sym here ∙ (ap (live w) ((text_eq_iff c.key j).0 same) ∙ e), expected cs w e h)

  prepare-check : (cs : List Change) (w : W) → (prepare b cs w).0 ≡ ok tt → (b.check cs w).0 ≡ ok tt
  unfolding prepare
  prepare-check cs w h = ground arith

  verdict-restored : (x e : Text) (es : List Text) → verdict b x es ≡ restored e → es ≡ []
  verdict-restored x e [] h = refl
  verdict-restored x e (y ∷ es) h = cc

  verdict-plain : (x e : Text) (es : List Text) → verdict b x es ≢ plain e
  verdict-plain x e [] h = cc
  verdict-plain x e (y ∷ es) h = cc

  execute-plain :
      (cs : List Change) (w : W) {e : Text}
      → (execute b cs w).0 ≡ err (plain e)
      → (execute b cs w).1 ≡ (prepare b cs w).1
  unfolding execute
  execute-plain cs w {e} h = elim (Result-cases (prepare b cs w).0) [
    | inr (x, refused) ↦ ground (arith, refused)
    | inl (_, ready) ↦
        let w2 = (prepare b cs w).1 in
        let w3 = (install b cs w2).1 in
        elim (Result-cases (install b cs w2).0) [
          | inl (_, done) ↦ unfold finish in ground (arith, ready, done)
          | inr (x, failed) ↦
              unfold finish in ground (arith, ready, failed, verdict-plain x e (undo b cs w3).0)
        ]
  ]

  execute-restored :
      (cs : List Change) (w : W) {e : Text}
      → live w j ≡ l
      → staged w j ≡ none
      → (execute b cs w).0 ≡ err (restored e)
      → live (execute b cs w).1 j ≡ l
  unfolding execute
  execute-restored cs w {e} held clean h = elim (Result-cases (prepare b cs w).0) [
    | inr (x, refused) ↦ ground (arith, refused)
    | inl (_, ready) ↦
        let w2 = (prepare b cs w).1 in
        let w3 = (install b cs w2).1 in
        elim (Result-cases (install b cs w2).0) [
          | inl (_, done) ↦ unfold finish in ground (arith, ready, done)
          | inr (x, failed) ↦
              let same = expected cs w held (laws.check_true cs w (prepare-check cs w ready)) in
              let start : IsClean w3 ⊎ (any (λ c. text_eq c.key j) cs ≡ true) =
                elim (Bool-cases (any (λ c. text_eq c.key j) cs)) [
                  | inl m ↦ inr m
                  | inr m ↦ inl (install-IsClean cs w2 (prepare-IsClean cs w ready m (held, clean)))
                ] in
              unfold finish in
              ground (
                arith,
                ready,
                failed,
                verdict-restored x e (undo b cs w3).0,
                λ (q : (undo b cs w3).0 ≡ []). undo-live live staged b laws j l cs w3 q same start,
              )
        ]
  ]

module _ {W : Type 0} (live : W → Text → Text) (staged : W → Text → Option Text) (b : Backend W)
    (laws : Laws live staged b) where
  -- Over a backend that keeps its laws and from an empty stage: a transaction that fails before its
  -- commits, or that reports the former configuration as restored, leaves the live value of every
  -- key, changed or not, as it was.
  pub execute_atomic :
      (cs : List Change) (w : W) {e : Text}
      → ((k : Text) → staged w k ≡ none)
      → ((execute b cs w).0 ≡ err (plain e)) ⊎ ((execute b cs w).0 ≡ err (restored e))
      → (j : Text) → live (execute b cs w).1 j ≡ live w j
  execute_atomic cs w clean (inr h) j =
      execute-restored live staged b laws j (live w j) cs w refl (clean j) h
  execute_atomic cs w clean (inl h) j =
      ap (λ v. live v j) (execute-plain live staged b laws j (live w j) cs w h)
      ∙ prepare-live live staged b laws j (live w j) cs w
