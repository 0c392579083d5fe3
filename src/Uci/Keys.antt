-- ===== src/Uci/Keys.antt =====
-- agent/src/uci_transaction.rs: what one commit does to one key.
use mu5250_wireguard.Base.{
  text_eq_refl, text_eq_iff, ◌≡◌, ◌⊎◌, inl, inr, refl, true, ◌||◌, Option, none, some, List, [],
  ◌∷◌, ◌++◌, arith, Text, text_eq, ok, any, Bool-cases, sym,
}
use mu5250_wireguard.Uci.{Change, Backend, config_of, configs, insert_config}
use mu5250_wireguard.Uci.Laws.{Laws}

any-insert_config :
    (t c : Text) (ds : List Text)
    → any (λ x. text_eq x t) (insert_config c ds) ≡ (text_eq c t || any (λ x. text_eq x t) ds)
unfolding insert_config
any-insert_config t c [] = refl
any-insert_config t c (d ∷ ds) = elim (Bool-cases (text_eq c d)) [
  | inl same ↦ rw same (
      rw ((text_eq_iff c d).0 same)
        (elim (Bool-cases (text_eq d t)) [ inl e ↦ rw e | inr e ↦ rw e ]))
  | inr other ↦ ground (arith, any-insert_config t c ds)
]

-- The package of a changed key is among the packages that are committed.
pub any-configs :
    (j : Text) (cs : List Change)
    → any (λ c. text_eq c.key j) cs ≡ true
    → any (λ x. text_eq x (config_of j)) (configs cs) ≡ true
unfolding configs
any-configs j [] h = ground arith
any-configs j (c ∷ cs) h =
    rw (any-insert_config (config_of j) (config_of c.key) (configs cs))
      (elim (Bool-cases (text_eq c.key j)) [
        | inl e ↦ ground (arith, e, text_eq_iff c.key j, text_eq_refl (config_of j))
        | inr e ↦ ground (arith, e, any-configs j cs)
      ])

pub append-eq-nil : (xs ys : List Text) → xs ++ ys ≡ [] → (xs ≡ []) × (ys ≡ [])
append-eq-nil [] ys h = (refl, h)
append-eq-nil (x ∷ xs) ys h = cc

module _ {W : Type 0} (live : W → Text → Text) (staged : W → Text → Option Text) (j l : Text) where
  -- The key holds the value `l`, and nothing else is staged for it.
  abbrev pub IsDone : W → Type 0
  IsDone w = (live w j ≡ l) × ((staged w j ≡ none) ⊎ (staged w j ≡ some l))

  -- The same, with nothing staged.
  abbrev pub IsClean : W → Type 0
  IsClean w = (live w j ≡ l) × (staged w j ≡ none)

module _ {W : Type 0} (live : W → Text → Text) (staged : W → Text → Option Text) (b : Backend W)
    (laws : Laws live staged b) (j l : Text) where
  pub commit-IsDone :
      (c : Text) (w : W)
      → (b.commit c w).0 ≡ ok tt
      → IsDone live staged j l w
      → IsDone live staged j l (b.commit c w).1
  commit-IsDone c w done d = elim (Bool-cases (text_eq (config_of j) c)) [
    | inr ne ↦ ground (arith, text_eq_iff (config_of j) c, laws.commit_other c w j)
    | inl e ↦ ground (
      arith,
      text_eq_iff (config_of j) c,
      laws.commit_true c w j l done,
      laws.commit_unstaged c w j,
      laws.commit_staged c w j,
    )
  ]

  pub commit-staged :
      (c : Text) (w : W)
      → (b.commit c w).0 ≡ ok tt
      → config_of j ≡ c
      → staged w j ≡ some l
      → IsDone live staged j l (b.commit c w).1
  commit-staged c w done e s =
      ground (arith, laws.commit_true c w j l done, laws.commit_staged c w j)

  pub commit-IsClean :
      (c : Text) (w : W) → IsClean live staged j l w → IsClean live staged j l (b.commit c w).1
  commit-IsClean c w d = ground (arith, laws.commit_unstaged c w j, laws.commit_staged c w j)

  -- One more commit, where `j` holds its value already or waits for one of these packages.
  pub commit-step :
      (d : Text) (ds : List Text) (w : W)
      → (b.commit d w).0 ≡ ok tt
      → IsDone live staged j l w
        ⊎ ((staged w j ≡ some l) × (any (λ x. text_eq x (config_of j)) (d ∷ ds) ≡ true))
      → IsDone live staged j l (b.commit d w).1
        ⊎ ((staged (b.commit d w).1 j ≡ some l) × (any (λ x. text_eq x (config_of j)) ds ≡ true))
  commit-step d ds w done (inl x) = inl (commit-IsDone d w done x)
  commit-step d ds w done (inr (s, m)) = elim (Bool-cases (text_eq d (config_of j))) [
    | inl e ↦ inl (commit-staged d w done (sym ((text_eq_iff d (config_of j)).0 e)) s)
    | inr e ↦ inr (ground (arith, text_eq_iff d (config_of j), laws.commit_other d w j), rw e at m)
  ]
