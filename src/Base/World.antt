-- ===== src/Base/World.antt =====
-- Fallible code that acts on an outside world: what was done before an error stays done.
pub mod Quiet
use mu5250_wireguard.Base.Outcome.{Result, ok, err}

abbrev pub Io {ℓ} : Type ℓ → Type ℓ → Type ℓ → Type ℓ
Io W E A = W → Result E A × W

module _ {ℓ} {W E A B : Type ℓ} where
  abbrev pub continue : Result E A → (A → Io W E B) → Io W E B
  continue (ok a) f w = f a w
  continue (err e) f w = (err e, w)

  infixl 5 ◌>>=◌
  abbrev pub ◌>>=◌ : Io W E A → (A → Io W E B) → Io W E B
  ◌>>=◌ m f w = continue (m w).0 f (m w).1

module _ {ℓ} {W E A : Type ℓ} where
  abbrev pub pure : A → Io W E A
  pure a w = (ok a, w)

  abbrev pub fail : E → Io W E A
  fail e w = (err e, w)

  abbrev pub lift : Result E A → Io W E A
  lift r w = (r, w)

module _ {ℓ} {E F A : Type ℓ} where
  abbrev pub mapped : (E → F) → Result E A → Result F A
  mapped f (ok a) = ok a
  mapped f (err e) = err (f e)

module _ {ℓ} {W E F A : Type ℓ} where
  -- `Result::map_err`
  abbrev pub map_err : (E → F) → Io W E A → Io W F A
  map_err f m w = (mapped f (m w).0, (m w).1)

  -- The outcome as a value, for code that looks at an error and goes on.
  abbrev pub attempt : Io W E A → Io W F (Result E A)
  attempt m w = (ok (m w).0, (m w).1)
