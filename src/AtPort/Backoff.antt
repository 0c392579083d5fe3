-- ===== src/AtPort/Backoff.antt =====
-- agent/src/at_cmd.rs: how often the ports are swept.
use mu5250_wireguard.Base.{
  ℕ, ◌+◌, ◌<◌, ◌≡◌, ◌⊎◌, inl, inr, refl, subst, Bool, true, none, some, List, [], ◌∷◌,
  if◌then◌else◌, arith, Text, ltb, find, Bool-cases, Option-cases,
}
use mu5250_wireguard.AtPort.{PortState, found, not_found, ports, known, detect}

-- A call of `detect`: what the ports answer, the time, and the time at the end of a sweep.
pub record Call : Type 0 where
  pub answers : Text → Bool
  pub now : ℕ
  pub swept : ℕ

-- How many of the calls sweep the ports?
unfoldable pub sweeps : List Call → PortState → ℕ
sweeps [] state = 0
sweeps (c ∷ cs) state =
    let out = detect c.answers c.now c.swept state in
    let rest = sweeps cs out.1 in if out.2 then rest + 1 else rest

unfoldable pub Before : ℕ → List Call → Type 0
Before t [] = Unit {0}
Before t (c ∷ cs) = (c.now < t) × Before t cs

sweeps-found : (cs : List Call) (port : Text) → sweeps cs (found port) ≡ 0
unfolding sweeps detect known
sweeps-found [] port = refl
sweeps-found (c ∷ cs) port = sweeps-found cs port

sweeps-not_found : (cs : List Call) (t : ℕ) → Before t cs → sweeps cs (not_found t) ≡ 0
unfolding sweeps detect known Before
sweeps-not_found [] t h = refl
sweeps-not_found (c ∷ cs) t h =
    let early : ltb c.now t ≡ true = ground (arith, h.0) in rw early (sweeps-not_found cs t h.1)

find-answers :
    (answers : Text → Bool) (ps : List Text) {port : Text}
    → find answers ps ≡ some port
    → answers port ≡ true
find-answers answers [] e = ground arith
find-answers answers (p ∷ ps) {port} e = elim (Bool-cases (answers p)) [
  | inl y ↦ subst (λ q. answers q ≡ true) (ground (arith, y)) y
  | inr y ↦ find-answers answers ps (ground (arith, y))
]

-- A sweep that finds a port is the last one; one that finds none is not repeated within the sixty
-- seconds after it, however often a port is asked for; and a port that a sweep reports did answer.
pub detect-backoff :
    (answers : Text → Bool) (now swept : ℕ) (state : PortState) (cs early : List Call)
    → (detect answers now swept state).2 ≡ true
    → Before (swept + 60) early
    → ((port : Text) × ((detect answers now swept state).0 ≡ some port)
        × (answers port ≡ true)
        × (sweeps cs (detect answers now swept state).1 ≡ 0))
      ⊎ (((detect answers now swept state).0 ≡ none)
          × (sweeps early (detect answers now swept state).1 ≡ 0))
unfolding detect
detect-backoff answers now swept state cs early h b = elim (Option-cases (known now state)) [
  | inr (r, e) ↦ absurd (ground (arith, e))
  | inl e ↦ elim (Option-cases (find answers ports)) [
    | inr (port, k) ↦
        rw (e, k) (inl (port, refl, find-answers answers ports k, sweeps-found cs port))
    | inl k ↦ rw (e, k) (inr (refl, sweeps-not_found early (swept + 60) b))
  ]
]
