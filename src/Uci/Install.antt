-- ===== src/Uci/Install.antt =====
-- agent/src/uci_transaction.rs: what a transaction that succeeds has made live.
use mu5250_wireguard.Base.{
  ◌≡◌, ◌⊎◌, inl, inr, ◌∙◌, refl, ap, true, Option, none, some, List, [], ◌∷◌, if◌then◌else◌, arith,
  Text, text_eq, ok, any, All, Bool-cases, Result-cases,
}
use mu5250_wireguard.Uci.{
  Change, Backend, config_of, configs, set_all, commit_all, finish, install, prepare, execute,
}
use mu5250_wireguard.Uci.Laws.{Laws}
use mu5250_wireguard.Uci.Keys
use mu5250_wireguard.Uci.Keys.{any-configs, commit-step}
use mu5250_wireguard.Uci.Restore.{install-IsClean, prepare-IsClean}

module _ {W : Type 0} (live : W → Text → Text) (staged : W → Text → Option Text) (b : Backend W)
    (laws : Laws live staged b) (j l : Text) where
  abbrev IsDone : W → Type 0
  IsDone = Keys.IsDone live staged j l

  set-staged :
      (cs : List Change) (c : Change) (w : W)
      → (b.set c.key c.after w).0 ≡ ok tt
      → (text_eq c.key j ≡ true → c.after ≡ l)
      → (staged w j ≡ some l) ⊎ (any (λ x. text_eq x.key j) (c ∷ cs) ≡ true)
      → (staged (b.set c.key c.after w).1 j ≡ some l) ⊎ (any (λ x. text_eq x.key j) cs ≡ true)
  set-staged cs c w done same h = elim (Bool-cases (text_eq c.key j)) [
    | inl e ↦ inl (laws.set_true c.key c.after w j done ∙ rw e (ap some (same e)))
    | inr e ↦ elim h [
      | inl s ↦ inl (laws.set_true c.key c.after w j done ∙ rw e s)
      | inr m ↦ inr (rw e at m)
    ]
  ]

  set_all-staged :
      (cs : List Change) (w : W)
      → (set_all b cs w).0 ≡ ok tt
      → All (λ c. text_eq c.key j ≡ true → c.after ≡ l) cs
      → (staged w j ≡ some l) ⊎ (any (λ x. text_eq x.key j) cs ≡ true)
      → staged (set_all b cs w).1 j ≡ some l
  unfolding set_all
  set_all-staged [] w h wanted m = ground arith
  set_all-staged (c ∷ cs) w h (here, wanted) m =
      let w1 = (b.set c.key c.after w).1 in
      elim (Result-cases (b.set c.key c.after w).0) [
        | inr (e, failed) ↦ ground (arith, failed)
        | inl (_, done) ↦
            let next = set_all-staged cs w1 in
            let m' = set-staged cs c w done here m in
            ground (arith, done, λ (q : (set_all b cs w1).0 ≡ ok tt). next q wanted m')
      ]

  commit_all-IsDone :
      (ds : List Text) (w : W)
      → (commit_all b ds w).0 ≡ ok tt
      → IsDone w ⊎ ((staged w j ≡ some l) × (any (λ x. text_eq x (config_of j)) ds ≡ true))
      → IsDone (commit_all b ds w).1
  unfolding commit_all
  commit_all-IsDone [] w h (inl d) = d
  commit_all-IsDone [] w h (inr (s, m)) = cc
  commit_all-IsDone (d ∷ ds) w h m = elim (Result-cases (b.commit d w).0) [
    | inr (e, failed) ↦ ground (arith, failed)
    | inl (_, done) ↦
        let w1 = (b.commit d w).1 in
        let rest : (commit_all b ds w1).0 ≡ ok tt = ground (arith, done) in
        rw done (commit_all-IsDone ds w1 rest (commit-step live staged b laws j l d ds w done m))
  ]

  prepare-staged :
      (cs : List Change) (w : W)
      → (prepare b cs w).0 ≡ ok tt
      → All (λ c. text_eq c.key j ≡ true → c.after ≡ l) cs
      → any (λ x. text_eq x.key j) cs ≡ true
      → staged (prepare b cs w).1 j ≡ some l
  unfolding prepare
  prepare-staged cs w h wanted m =
      let w1 = (b.check cs w).1 in
      let w2 = (set_all b cs w1).1 in
      ground (
        arith,
        laws.check_staged cs w2 j,
        λ (q : (set_all b cs w1).0 ≡ ok tt). set_all-staged cs w1 q wanted (inr m),
      )

  install-live :
      (cs : List Change) (w : W)
      → (install b cs w).0 ≡ ok tt
      → staged w j ≡ some l
      → any (λ x. text_eq x.key j) cs ≡ true
      → live (install b cs w).1 j ≡ l
  unfolding install
  install-live cs w h s m =
      let w1 = (commit_all b (configs cs) w).1 in
      let m' = any-configs j cs m in
      ground (
        arith,
        laws.apply_live w1 j,
        λ (q : (commit_all b (configs cs) w).0 ≡ ok tt).
            (commit_all-IsDone (configs cs) w q (inr (s, m'))).0,
      )

-- What a success consists of.
execute-ok :
    {W : Type 0} (b : Backend W) (cs : List Change) (w : W)
    → (execute b cs w).0 ≡ ok tt
    → ((prepare b cs w).0 ≡ ok tt)
      × ((install b cs (prepare b cs w).1).0 ≡ ok tt)
      × ((execute b cs w).1 ≡ (install b cs (prepare b cs w).1).1)
unfolding execute finish
execute-ok b cs w h = ground arith

module _ {W : Type 0} (live : W → Text → Text) (staged : W → Text → Option Text) (b : Backend W)
    (laws : Laws live staged b) where
  -- Over a backend that keeps its laws and from an empty stage: after a transaction that succeeds,
  -- a key that is changed, always to the value `v`, is live with `v`, and a key that is not changed
  -- is live with its former value.
  pub execute_applies :
      (cs : List Change) (w : W) (j v : Text)
      → ((k : Text) → staged w k ≡ none)
      → (execute b cs w).0 ≡ ok tt
      → All (λ c. text_eq c.key j ≡ true → c.after ≡ v) cs
      → live (execute b cs w).1 j ≡ (if any (λ c. text_eq c.key j) cs then v else live w j)
  execute_applies cs w j v clean h wanted =
      let (ready, done, same) = execute-ok b cs w h in
      let w1 = (prepare b cs w).1 in
      ap (λ x. live x j) same ∙ (elim (Bool-cases (any (λ c. text_eq c.key j) cs)) [
        | inl m ↦
            let s = prepare-staged live staged b laws j v cs w ready wanted m in
            rw m (install-live live staged b laws j v cs w1 done s m)
        | inr m ↦
            let d = prepare-IsClean live staged b laws j (live w j) cs w ready m (refl, clean j) in
            rw m (install-IsClean live staged b laws j (live w j) cs w1 d).0
      ])
