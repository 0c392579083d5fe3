-- ===== src/Uci/Tests.antt =====
-- The transaction over a store whose commit fails once, and the theorems at such inputs.
use mu5250_wireguard.Base.{
  String, text_eq_iff, ◌≡◌, inl, inr, refl, Bool, true, false, Option, none, some, List, [], ◌∷◌,
  ◌++◌, if◌then◌else◌, arith, Text, codes, text_eq, ok, err, all, All, Bool-cases,
}
use mu5250_wireguard.Base.World.{Io}
use mu5250_wireguard.Uci.{
  Change, Backend, restored, config_of, configs, finish, install, prepare, undo, execute,
}
use mu5250_wireguard.Uci.Laws.{Laws}
use mu5250_wireguard.Uci.Restore.{execute_atomic}
use mu5250_wireguard.Uci.Install.{execute_applies}

-- `fault` is the package whose next commit fails.
record Store : Type 0 where
  live : Text → Text
  staged : Text → Option Text
  fault : Option Text

abbrev value : Option Text → Text → Text
value none v = v
value (some x) v = x

abbrev is_fault : Option Text → Text → Bool
is_fault none c = false
is_fault (some f) c = text_eq f c

abbrev store_check : List Change → Io Store Text (Unit {0})
store_check cs w =
    (if all (λ c. text_eq (w.live c.key) c.before) cs then ok tt else err (codes "changed"), w)

abbrev store_set : Text → Text → Io Store Text (Unit {0})
store_set k v w = (ok tt, record w { staged = λ j. if text_eq k j then some v else w.staged j })

abbrev store_commit : Text → Io Store Text (Unit {0})
store_commit c w =
    if is_fault w.fault c then (err (codes "commit failed"), record w { fault = none }) else (
      ok tt,
      record w {
        live = λ j. if text_eq (config_of j) c then value (w.staged j) (w.live j) else w.live j;
      },
    )

abbrev store : Backend Store
store = record {
  check = store_check;
  set = store_set;
  commit = store_commit;
  apply = λ w. (ok tt, w);
}

all_checked :
    (cs : List Change) (w : Store)
    → all (λ c. text_eq (w.live c.key) c.before) cs ≡ true
    → All (λ c. w.live c.key ≡ c.before) cs
all_checked [] w h = tt
all_checked (c ∷ cs) w h = elim (Bool-cases (text_eq (w.live c.key) c.before)) [
  | inl e ↦ ((text_eq_iff (w.live c.key) c.before).0 e, all_checked cs w (rw e at h))
  | inr e ↦ ground (arith, e)
]

store-Laws : Laws (λ w. w.live) (λ w. w.staged) store
store-Laws = record {
  check_true = λ cs w h. all_checked cs w (ground arith);
  check_live = λ cs w j. refl;
  check_staged = λ cs w j. refl;
  set_live = λ k v w j. refl;
  set_true = λ k v w j h. refl;
  commit_true = λ c w j v h s e. ground (arith, text_eq_iff (config_of j) c);
  commit_unstaged = λ c w j s. ground arith;
  commit_other = λ c w j ne. (ground (arith, text_eq_iff (config_of j) c), ground arith);
  commit_staged = λ c w j. inr (ground arith);
  apply_live = λ w j. refl;
  apply_staged = λ w j. refl;
}

abbrev change : String → String → String → Change
change k b a = record { key = codes k; before = codes b; after = codes a }

abbrev changes : List Change
changes = change "wireless.main_2g.ssid" "old" "new" ∷ change "zte_mbb.wifi.wifi_onoff" "1" "0" ∷ []

abbrev original : Text → Text
original k =
    if text_eq k (codes "wireless.main_2g.ssid")
    then codes "old"
    else if text_eq k (codes "zte_mbb.wifi.wifi_onoff")
    then codes "1"
    else []

abbrev start : Option Text → Store
start f = record { live = original; staged = λ k. none; fault = f }

abbrev broken : Option Text
broken = some (codes "zte_mbb")

configs_sorted : configs (changes ++ changes) ≡ codes "wireless" ∷ codes "zte_mbb" ∷ []
unfolding configs text_eq
configs_sorted = refl

broken_commit : (execute store changes (start broken)).0 ≡ err (restored (codes "commit failed"))
unfolding execute finish install prepare undo configs text_eq
broken_commit = refl

execute_atomic_example :
    (execute store changes (start broken)).1.live (codes "wireless.main_2g.ssid")
    ≡ original (codes "wireless.main_2g.ssid")
execute_atomic_example =
    execute_atomic (λ w. w.live) (λ w. w.staged) store store-Laws changes (start broken) (λ k. refl)
      (inr broken_commit) (codes "wireless.main_2g.ssid")

working : (execute store changes (start none)).0 ≡ ok tt
unfolding execute finish install prepare undo configs text_eq
working = refl

execute_applies_example :
    (execute store changes (start none)).1.live (codes "wireless.main_2g.ssid") ≡ codes "new"
unfolding text_eq
execute_applies_example =
    execute_applies (λ w. w.live) (λ w. w.staged) store store-Laws changes (start none)
      (codes "wireless.main_2g.ssid") (codes "new") (λ k. refl) working
      ((λ e. refl), ((λ e. cc), tt))
