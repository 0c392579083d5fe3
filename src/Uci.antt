-- ===== src/Uci.antt =====
-- agent/src/uci_transaction.rs: a Wi-Fi change is staged privately, committed, and undone on error.
pub mod Laws
pub mod Keys
pub mod Undo
pub mod Restore
pub mod Install
pub mod Stage
mod Tests
use mu5250_wireguard.Base.{
  ℕ, zero, suc, ◌+◌, ◌-◌, ◌*◌, ◌/◌, ◌%◌, ◌^◌, ◌≤◌, ◌<◌, ◌≡◌, ◌≢◌, ◌↔◌, ◌⊎◌, inl, inr, ◌∙◌, refl,
  sym, ap, subst, Bool, true, false, not, ◌&&◌, ◌||◌, Option, none, some, List, [], ◌∷◌, ◌++◌, map,
  ◌==◌, if◌then◌else◌, arith, Text, codes, text_eq, Result, ok, err, leb, ltb, length, any, all,
  find, retain, All, Bool-cases, Option-cases, Result-cases,
}
use mu5250_wireguard.Base.World.{Io, ◌>>=◌, pure, fail, lift, attempt, map_err}

pub record Change : Type 0 where
  pub key : Text
  pub before : Text
  pub after : Text

-- `trait Backend`, over a world that its methods read and change.
pub record Backend (W : Type 0) : Type 0 where
  pub check : List Change → Io W Text (Unit {0})
  pub set : Text → Text → Io W Text (Unit {0})
  pub commit : Text → Io W Text (Unit {0})
  pub apply : Io W Text (Unit {0})

-- `plain` is the message alone; the others tell how the restoration went.
pub data Error : Type 0 where
  plain restored : Text → Error
  needs_attention : Text → List Text → Error

-- `key.split('.').next()`
pub config_of : Text → Text
config_of [] = []
config_of (b ∷ key) = let rest = config_of key in if b == b'.' then [] else b ∷ rest

-- The order of `str`.
text_lt : Text → Text → Bool
text_lt [] [] = false
text_lt [] (y ∷ b) = true
text_lt (x ∷ a) [] = false
text_lt (x ∷ a) (y ∷ b) = ltb x y || (x == y && text_lt a b)

-- `BTreeSet::insert`: the set as its ascending list.
pub insert_config : Text → List Text → List Text
unfolding text_lt
insert_config c [] = c ∷ []
insert_config c (d ∷ ds) =
    let rest = insert_config c ds in
    if text_eq c d then d ∷ ds else if text_lt c d then c ∷ d ∷ ds else d ∷ rest

unfoldable pub configs : List Change → List Text
unfolding config_of insert_config
configs [] = []
configs (c ∷ cs) = insert_config (config_of c.key) (configs cs)

module _ {W : Type 0} (backend : Backend W) where
  pub set_all : List Change → Io W Text (Unit {0})
  set_all [] = pure tt
  set_all (c ∷ cs) = do _ ← backend.set c.key c.after; set_all cs

  pub commit_all : List Text → Io W Text (Unit {0})
  commit_all [] = pure tt
  commit_all (c ∷ cs) = do _ ← backend.commit c; commit_all cs

  abbrev pub pushed : Result Text (Unit {0}) → List Text → List Text
  pushed (ok _) errors = errors
  pushed (err e) errors = e ∷ errors

  -- The restoration goes on after an error, and keeps the errors in order.
  pub undo_sets : List Change → W → List Text × W
  undo_sets [] w = ([], w)
  undo_sets (c ∷ cs) w =
      let (r, w1) = backend.set c.key c.before w in
      let (errors, w2) = undo_sets cs w1 in (pushed r errors, w2)

  pub undo_commits : List Text → W → List Text × W
  undo_commits [] w = ([], w)
  undo_commits (c ∷ cs) w =
      let (r, w1) = backend.commit c w in
      let (errors, w2) = undo_commits cs w1 in (pushed r errors, w2)

  unfoldable pub undo : List Change → W → List Text × W
  unfolding undo_sets undo_commits
  undo changes w =
      let (e1, w1) = undo_sets changes w in
      let (e2, w2) = undo_commits (configs changes) w1 in
      let (r, w3) = backend.apply w2 in (e1 ++ (e2 ++ pushed r []), w3)

  abbrev pub verdict : Text → List Text → Error
  verdict error [] = restored error
  verdict error (e ∷ errors) = needs_attention error (e ∷ errors)

  unfoldable pub finish : List Change → Result Text (Unit {0}) → Io W Error (Unit {0})
  unfolding undo
  finish changes (ok _) w = (ok tt, w)
  finish changes (err error) w = (err (verdict error (undo changes w).0), (undo changes w).1)

  unfoldable pub install : List Change → Io W Text (Unit {0})
  unfolding commit_all
  install changes = do _ ← commit_all (configs changes); backend.apply

  unfoldable pub prepare : List Change → Io W Text (Unit {0})
  unfolding set_all
  prepare changes = do _ ← backend.check changes; _ ← set_all changes; backend.check changes

  unfoldable pub execute : List Change → Io W Error (Unit {0})
  execute changes = do
    _ ← map_err plain (prepare changes)
    result ← attempt (install changes)
    finish changes result

-- The public `apply`, where `stage` makes the private directory.
unfoldable pub apply : {W : Type 0} → Io W Text (Backend W) → List Change → Io W Error (Unit {0})
apply stage [] = pure tt
apply stage (c ∷ cs) = do backend ← map_err plain stage; execute backend (c ∷ cs)
