-- ===== src/Base/Split.antt =====
-- The standard library's ways to cut text: `split`, `split_once`, `rsplit_once`, `lines`.
use mu5250_wireguard.Base.{ℕ, Option, none, some, List, [], ◌∷◌, map, ◌==◌, if◌then◌else◌, Text}

-- A first piece, joined in front of the pieces.
abbrev grow : ℕ → List Text → List Text
grow b [] = (b ∷ []) ∷ []
grow b (p ∷ ps) = (b ∷ p) ∷ ps

-- `str::split` at a byte: never empty.
unfoldable pub split : ℕ → Text → List Text
split sep [] = [] ∷ []
split sep (b ∷ s) = let rest = split sep s in if b == sep then [] ∷ rest else grow b rest

-- The first piece of `split`.
unfoldable pub first_piece : ℕ → Text → Text
first_piece sep [] = []
first_piece sep (b ∷ s) = let rest = first_piece sep s in if b == sep then [] else b ∷ rest

abbrev pub with_head : ℕ → Option (Text × Text) → Option (Text × Text)
with_head b none = none
with_head b (some (l, r)) = some (b ∷ l, r)

-- `str::split_once` at a byte.
unfoldable pub split_once : ℕ → Text → Option (Text × Text)
split_once sep [] = none
split_once sep (b ∷ s) =
    let rest = split_once sep s in if b == sep then some ([], s) else with_head b rest

-- `str::rsplit_once` at a byte.
unfoldable pub rsplit_once : ℕ → Text → Option (Text × Text)
rsplit_once sep [] = none
rsplit_once sep (b ∷ s) = elim (rsplit_once sep s) [
  | some (l, r) ↦ some (b ∷ l, r)
  | none ↦ if b == sep then some ([], s) else none
]

-- Drops the empty piece behind a final line feed.
drop_last_empty : List Text → List Text
drop_last_empty [] = []
drop_last_empty (l ∷ m ∷ ls) = l ∷ drop_last_empty (m ∷ ls)
drop_last_empty ([] ∷ []) = []
drop_last_empty ((b ∷ l) ∷ []) = (b ∷ l) ∷ []

drop_return : Text → Text
drop_return [] = []
drop_return (b ∷ []) = if b == 13 then [] else b ∷ []
drop_return (b ∷ c ∷ s) = b ∷ drop_return (c ∷ s)

-- `str::lines`
unfoldable pub lines : Text → List Text
unfolding split drop_last_empty drop_return
lines s = map drop_return (drop_last_empty (split 10 s))
