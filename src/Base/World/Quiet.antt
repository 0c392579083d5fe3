-- ===== src/Base/World/Quiet.antt =====
-- Steps that leave what is watched of the world as it was, however they end.
use mathlib.Core.Path.{◌≡◌, ◌∙◌, refl}
use mathlib.Core.Bool.{Bool, true, false}
use mu5250_wireguard.Base.Tests.{if◌then◌else◌}
use mu5250_wireguard.Base.Outcome.{Result, ok, err}
use mu5250_wireguard.Base.World.{Io, ◌>>=◌, continue}

module _ {W V : Type 0} (view : W → V) where
  abbrev pub IsQuiet : {E A : Type 0} → Io W E A → Type 0
  IsQuiet m = (w : W) → view (m w).1 ≡ view w

  continue-IsQuiet :
      {E A B : Type 0} (r : Result E A) (f : A → Io W E B)
      → ((a : A) → IsQuiet (f a))
      → IsQuiet (continue r f)
  continue-IsQuiet (ok a) f h w = h a w
  continue-IsQuiet (err e) f h w = refl

  -- Quiet steps one after the other.
  pub bind-IsQuiet :
      {E A B : Type 0} (m : Io W E A) (f : A → Io W E B)
      → IsQuiet m
      → ((a : A) → IsQuiet (f a))
      → IsQuiet (m >>= f)
  bind-IsQuiet m f h k w = continue-IsQuiet (m w).0 f k (m w).1 ∙ h w

  continue-at :
      {E A B : Type 0} (Q : Result E B × W → Type 0) (f : V) (r : Result E A) (k : A → Io W E B)
      (w : W)
      → view w ≡ f
      → ((e : E) (v : W) → view v ≡ f → Q (err e, v))
      → ((a : A) (v : W) → view v ≡ f → Q (k a v))
      → Q (continue r k w)
  continue-at Q f (ok a) k w h stop go = go a w h
  continue-at Q f (err e) k w h stop go = stop e w h

  -- What holds after a quiet step: of an error with the view as it was, or of the next step.
  pub after :
      {E A B : Type 0} (Q : Result E B × W → Type 0) (f : V) (m : Io W E A) (k : A → Io W E B)
      (w : W)
      → IsQuiet m
      → view w ≡ f
      → ((e : E) (v : W) → view v ≡ f → Q (err e, v))
      → ((a : A) (v : W) → view v ≡ f → Q (k a v))
      → Q ((m >>= k) w)
  after Q f m k w quiet h stop go = continue-at Q f (m w).0 k (m w).1 (quiet w ∙ h) stop go

  pub if-view :
      {E A : Type 0} (b : Bool) (x y : Result E A × W) {f : V}
      → view x.1 ≡ f
      → view y.1 ≡ f
      → view (if b then x else y).1 ≡ f
  if-view true x y h k = h
  if-view false x y h k = k

  pub if-IsQuiet :
      {E A : Type 0} (b : Bool) (m n : Io W E A)
      → IsQuiet m
      → IsQuiet n
      → IsQuiet (if b then m else n)
  if-IsQuiet true m n h k = h
  if-IsQuiet false m n h k = k
