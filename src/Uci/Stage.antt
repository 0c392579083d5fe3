-- ===== src/Uci/Stage.antt =====
-- agent/src/uci_transaction.rs, `impl Backend for UciStage`: the commands behind the trait.
use mu5250_wireguard.Base.{
  text_eq_iff, ◌≡◌, inl, inr, ◌∙◌, refl, sym, Bool, true, false, not, ◌||◌, List, [], ◌∷◌, ◌++◌,
  if◌then◌else◌, arith, Text, codes, text_eq, ok, All, Bool-cases, Result-cases,
}
use mu5250_wireguard.Base.World.{Io, ◌>>=◌, pure, fail}
use mu5250_wireguard.Base.Digits.{trim}
use mu5250_wireguard.Json.{Value}
use mu5250_wireguard.Uci.{Change, Backend, configs}

pub record Output : Type 0 where
  pub success : Bool
  pub stdout : Text

-- `uci` in the private directory of the stage and without it, `ubus::uci_get`, and the reload call.
pub record Tools (W : Type 0) : Type 0 where
  pub staged_uci : List Text → Io W Text Output
  pub uci : List Text → Io W Text Output
  pub uci_get : Text → Io W Text Text
  pub reload : Io W Text Value

abbrev first_or_operation : List Text → Text
first_or_operation [] = codes "operation"
first_or_operation (a ∷ args) = a

module _ {W : Type 0} (tools : Tools W) where
  -- The message holds neither the arguments nor what uci wrote.
  pub command : List Text → Io W Text Text
  command args = do
    output ← tools.staged_uci args
    if output.success
        then pure (trim output.stdout)
        else fail (codes "UCI " ++ (first_or_operation args ++ codes " failed"))

  abbrev is_empty : Text → Bool
  is_empty [] = true
  is_empty (b ∷ s) = false

  pub no_pending : List Text → Io W Text (Unit {0})
  no_pending [] = pure tt
  no_pending (config ∷ rest) = do
    output ← tools.uci (codes "changes" ∷ config ∷ [])
    if not output.success || not (is_empty output.stdout)
        then fail (config ++ codes " has pending firmware changes; wait and retry")
        else no_pending rest

  pub unchanged : List Change → Io W Text (Unit {0})
  unchanged [] = pure tt
  unchanged (c ∷ rest) = do
    now ← tools.uci_get c.key
    if not (text_eq now c.before)
        then fail (codes "Wi-Fi configuration changed during this request; refresh and retry")
        else unchanged rest

  unfoldable pub stage : Backend W
  unfolding no_pending unchanged command
  stage = record {
    check = λ changes. no_pending (configs changes) >>= λ _. unchanged changes;
    set = λ key value. command (codes "set" ∷ (key ++ (b'=' ∷ value)) ∷ []) >>= λ _. pure tt;
    commit = λ config. command (codes "commit" ∷ config ∷ []) >>= λ _. pure tt;
    apply = tools.reload >>= λ _. pure tt;
  }

module _ {W : Type 0} (live : W → Text → Text) (tools : Tools W)
    (reads : (k : Text) (w : W) (v : Text) → (tools.uci_get k w).0 ≡ ok v → v ≡ live w k)
    (get_frame : (k : Text) (w : W) → live (tools.uci_get k w).1 ≡ live w)
    (uci_frame : (args : List Text) (w : W) → live (tools.uci args w).1 ≡ live w) where
  no_pending-live : (cs : List Text) (w : W) → live (no_pending tools cs w).1 ≡ live w
  unfolding no_pending
  no_pending-live [] w = refl
  no_pending-live (c ∷ cs) w =
      let args = codes "changes" ∷ c ∷ [] in
      ground (arith, uci_frame args w, no_pending-live cs (tools.uci args w).1)

  unchanged-true :
      (cs : List Change) (w : W)
      → (unchanged tools cs w).0 ≡ ok tt
      → All (λ c. live w c.key ≡ c.before) cs
  unfolding unchanged
  unchanged-true [] w h = tt
  unchanged-true (c ∷ cs) w h = elim (Result-cases (tools.uci_get c.key w).0) [
    | inr (e, failed) ↦ ground (arith, failed)
    | inl (now, read) ↦ elim (Bool-cases (text_eq now c.before)) [
      | inr ne ↦ ground (arith, read, ne)
      | inl e ↦
          let w1 = (tools.uci_get c.key w).1 in
          let rest : (unchanged tools cs w1).0 ≡ ok tt = ground (arith, read, e) in
          (
            sym (reads c.key w now read) ∙ (text_eq_iff now c.before).0 e,
            rw (get_frame c.key w) at (unchanged-true cs w1 rest),
          )
    ]
  ]

  -- Where `uci_get` reports the live configuration and reading changes nothing, a check that
  -- succeeds has found every key at the value the change expects.
  pub stage-check :
      (cs : List Change) (w : W)
      → ((stage tools).check cs w).0 ≡ ok tt
      → All (λ c. live w c.key ≡ c.before) cs
  unfolding stage
  stage-check cs w h = elim (Result-cases (no_pending tools (configs cs) w).0) [
    | inr (e, failed) ↦ ground (arith, failed)
    | inl (_, clean) ↦
        let w1 = (no_pending tools (configs cs) w).1 in
        let rest : (unchanged tools cs w1).0 ≡ ok tt = ground (arith, clean) in
        rw (no_pending-live (configs cs) w) at (unchanged-true cs w1 rest)
  ]
