-- ===== src/Uci/Undo.antt =====
-- agent/src/uci_transaction.rs: the restoration of `execute`, followed at one key.
use mu5250_wireguard.Base.{
  ◌≡◌, ◌⊎◌, inl, inr, ◌∙◌, refl, ap, true, false, Option, some, List, [], ◌∷◌, arith, Text, text_eq,
  Result, ok, err, any, All, Bool-cases,
}
use mu5250_wireguard.Uci.{
  Change, Backend, config_of, configs, pushed, undo_sets, undo_commits, undo,
}
use mu5250_wireguard.Uci.Laws.{Laws}
use mu5250_wireguard.Uci.Keys
use mu5250_wireguard.Uci.Keys.{any-configs, append-eq-nil, commit-step}

module _ {W : Type 0} (live : W → Text → Text) (staged : W → Text → Option Text) (b : Backend W)
    (laws : Laws live staged b) (j l : Text) where
  abbrev IsDone : W → Type 0
  IsDone = Keys.IsDone live staged j l

  abbrev IsClean : W → Type 0
  IsClean = Keys.IsClean live staged j l

  set-staged :
      (cs : List Change) (c : Change) (w : W)
      → (b.set c.key c.before w).0 ≡ ok tt
      → (text_eq c.key j ≡ true → c.before ≡ l)
      → (staged w j ≡ some l) ⊎ (any (λ x. text_eq x.key j) (c ∷ cs) ≡ true)
      → (staged (b.set c.key c.before w).1 j ≡ some l) ⊎ (any (λ x. text_eq x.key j) cs ≡ true)
  set-staged cs c w done same h = elim (Bool-cases (text_eq c.key j)) [
    | inl e ↦ inl (laws.set_true c.key c.before w j done ∙ rw e (ap some (same e)))
    | inr e ↦ elim h [
      | inl s ↦ inl (laws.set_true c.key c.before w j done ∙ rw e s)
      | inr m ↦ inr (rw e at m)
    ]
  ]

  pushed-nil :
      (r : Result Text (Unit {0})) (es : List Text) → pushed b r es ≡ [] → (r ≡ ok tt) × (es ≡ [])
  pushed-nil (ok tt) es h = (refl, h)
  pushed-nil (err e) es h = cc

  -- After every changed key has been staged with its former value, so has `j`.
  undo_sets-staged :
      (cs : List Change) (w : W)
      → (undo_sets b cs w).0 ≡ []
      → All (λ c. text_eq c.key j ≡ true → c.before ≡ l) cs
      → (staged w j ≡ some l) ⊎ (any (λ x. text_eq x.key j) cs ≡ true)
      → staged (undo_sets b cs w).1 j ≡ some l
  unfolding undo_sets
  undo_sets-staged [] w h before m = ground arith
  undo_sets-staged (c ∷ cs) w h (here, before) m =
      let w1 = (b.set c.key c.before w).1 in
      let (done, rest) = pushed-nil (b.set c.key c.before w).0 (undo_sets b cs w1).0 h in
      undo_sets-staged cs w1 rest before (set-staged cs c w done here m)

  undo_sets-IsClean :
      (cs : List Change) (w : W)
      → (undo_sets b cs w).0 ≡ []
      → any (λ x. text_eq x.key j) cs ≡ false
      → IsClean w
      → IsClean (undo_sets b cs w).1
  unfolding undo_sets
  undo_sets-IsClean [] w h m d = d
  undo_sets-IsClean (c ∷ cs) w h m d =
      let w1 = (b.set c.key c.before w).1 in
      let (done, rest) = pushed-nil (b.set c.key c.before w).0 (undo_sets b cs w1).0 h in
      undo_sets-IsClean cs w1 rest (ground arith)
        (ground (arith, laws.set_true c.key c.before w j done, laws.set_live c.key c.before w j))

  undo_commits-IsDone :
      (ds : List Text) (w : W)
      → (undo_commits b ds w).0 ≡ []
      → IsDone w ⊎ ((staged w j ≡ some l) × (any (λ x. text_eq x (config_of j)) ds ≡ true))
      → IsDone (undo_commits b ds w).1
  unfolding undo_commits
  undo_commits-IsDone [] w h (inl d) = d
  undo_commits-IsDone [] w h (inr (s, m)) = cc
  undo_commits-IsDone (d ∷ ds) w h m =
      let w1 = (b.commit d w).1 in
      let (done, rest) = pushed-nil (b.commit d w).0 (undo_commits b ds w1).0 h in
      undo_commits-IsDone ds w1 rest (commit-step live staged b laws j l d ds w done m)

  pub undo-live :
      (cs : List Change) (w : W)
      → (undo b cs w).0 ≡ []
      → All (λ c. text_eq c.key j ≡ true → c.before ≡ l) cs
      → IsClean w ⊎ (any (λ x. text_eq x.key j) cs ≡ true)
      → live (undo b cs w).1 j ≡ l
  unfolding undo
  undo-live cs w h before m =
      let w1 = (undo_sets b cs w).1 in
      let w2 = (undo_commits b (configs cs) w1).1 in
      let (h1, rest) = append-eq-nil (undo_sets b cs w).0 _ h in
      let (h2, last) = append-eq-nil (undo_commits b (configs cs) w1).0 _ rest in
      laws.apply_live w2 j ∙ (elim (Bool-cases (any (λ x. text_eq x.key j) cs)) [
        | inl e ↦
            let s = undo_sets-staged cs w h1 before (inr e) in
            (undo_commits-IsDone (configs cs) w1 h2 (inr (s, any-configs j cs e))).0
        | inr e ↦
            let clean : IsClean w = elim m [ inl d ↦ d | inr x ↦ cc ] in
            let d = undo_sets-IsClean cs w h1 e clean in
            (undo_commits-IsDone (configs cs) w1 h2 (inl (d.0, inl d.1))).0
      ])
