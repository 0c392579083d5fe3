-- ===== src/Usb/Gadget.antt =====
-- agent/src/usb.rs: the snapshot of a USB composition, its restoration, and the rollback of a
-- switch that fails.
pub mod Laws
pub mod Rollback
mod Tests
use mu5250_wireguard.Base.Digits.{trim}
use mu5250_wireguard.Base.World.{Io}
use mu5250_wireguard.Base.{
  ensure, ◌>>=◌, String, ℕ, zero, suc, ◌+◌, ◌-◌, ◌*◌, ◌/◌, ◌%◌, ◌^◌, ◌≤◌, ◌<◌, ◌≡◌, ◌≢◌, ◌↔◌, ◌⊎◌,
  inl, inr, ◌∙◌, refl, sym, ap, subst, Bool, true, false, not, ◌&&◌, ◌||◌, Option, none, some, List,
  [], ◌∷◌, ◌++◌, map, ◌==◌, if◌then◌else◌, arith, Text, codes, text_eq, Result, ok, err, leb, ltb,
  length, any, all, find, retain, All, Bool-cases, Option-cases, Result-cases,
}

unfoldable pub path : String → Text
path s = codes "/sys/kernel/config/usb_gadget/g1/" ++ codes s

unfoldable pub udc_path : Text
udc_path = path "UDC"

-- The attributes that a snapshot keeps.
unfoldable pub attribute_paths : List Text
attribute_paths =
    path "idVendor"
    ∷ path "idProduct"
    ∷ path "strings/0x409/product"
    ∷ path "configs/c.1/strings/0x409/configuration"
    ∷ path "bDeviceClass"
    ∷ path "os_desc/use"
    ∷ path "os_desc/b_vendor_code"
    ∷ path "os_desc/qw_sign"
    ∷ []

-- An entry of the configuration's directory.
pub record Entry : Type 0 where
  pub name : Text
  pub is_symlink : Result Text Bool
  pub target : Result Text Text

-- What a snapshot reads: files, the entries of the directory, and the members of "br-lan".
pub record Readings (W : Type 0) : Type 0 where
  pub exists : W → Text → Bool
  pub read : W → Text → Result Text Text
  pub entries : W → Result Text (List Entry)
  pub members : W → Result Text (List Text)

pub record GadgetSnapshot : Type 0 where
  pub udc : Text
  pub attributes : List (Text × Text)
  pub links : List (Text × Text)
  pub bridge : List Text

pub starts_with : Text → Text → Bool
starts_with [] s = true
starts_with (p ∷ ps) [] = false
starts_with (p ∷ ps) (b ∷ s) = p == b && starts_with ps s

unfoldable pub is_usb_interface : Text → Bool
unfolding starts_with
is_usb_interface name =
    any (λ prefix. starts_with prefix name)
      (codes "ecm" ∷ codes "rndis" ∷ codes "ncm" ∷ codes "usb" ∷ [])

abbrev pub starts_f : Text → Bool
starts_f [] = false
starts_f (b ∷ s) = b == b'f'

abbrev pub entry_path : Entry → Text
entry_path e = path "configs/c.1/" ++ e.name

-- The loop over the entries.
pub read_links : List Entry → Result Text (List (Text × Text))
read_links [] = ok []
read_links (e ∷ es) =
    let rest = read_links es in
    let taken = (do target ← e.target; links ← rest; ok ((entry_path e, target) ∷ links)) in
    let symlink = (do b ← e.is_symlink; if b then taken else rest) in
    if starts_f e.name then symlink else rest

abbrev pub is_nil {ℓ} : {A : Type ℓ} → List A → Bool
is_nil [] = true
is_nil (a ∷ s) = false

module _ {W : Type 0} (from : Readings W) where
  -- The loop over the attributes.
  pub read_attributes : W → List Text → Result Text (List (Text × Text))
  read_attributes w [] = ok []
  read_attributes w (p ∷ ps) =
      let rest = read_attributes w ps in
      let taken = (do value ← from.read w p; values ← rest; ok ((p, trim value) ∷ values)) in
      if from.exists w p then taken else rest

  unfoldable pub capture : W → Result Text GadgetSnapshot
  capture w = do
    udc ← from.read w udc_path
    attributes ← read_attributes w attribute_paths
    entries ← from.entries w
    links ← read_links entries
    _ ← ensure (not (is_nil links)) (codes "cannot snapshot an empty USB composition")
    members ← from.members w
    ok (record {
      udc = trim udc;
      attributes = attributes;
      links = links;
      bridge = retain is_usb_interface members;
    })

-- The trait `RestoreIo`.
pub record RestoreIo (W : Type 0) : Type 0 where
  pub write : Text → Text → Io W Text (Unit {0})
  pub remove_links : Io W Text (Unit {0})
  pub link : Text → Text → Io W Text (Unit {0})
  pub members : Io W Text (List Text)
  pub remove_member : Text → Io W Text (Unit {0})
  pub restore_member : Text → Io W Text (Unit {0})

-- The closure `record`: the errors so far, with that of a step.
abbrev pub noted {ℓ} : {A : Type ℓ} → Result Text A → List Text
noted (ok a) = []
noted (err e) = e ∷ []

-- A loop whose steps are all tried: the errors, in order.
pub try_each : {W A : Type 0} → (A → Io W Text (Unit {0})) → List A → W → List Text × W
try_each f [] w = ([], w)
try_each f (a ∷ others) w =
    let step = f a w in let rest = try_each f others step.1 in (noted step.0 ++ rest.0, rest.1)

-- `errors.join("; ")`
pub joined : List Text → Text
joined [] = []
joined (e ∷ []) = e
joined (e ∷ f ∷ es) = e ++ codes "; " ++ joined (f ∷ es)

abbrev pub verdict : List Text → Result Text (Unit {0})
verdict [] = ok tt
verdict (e ∷ es) = err (joined (e ∷ es))

abbrev pub or_none : Result Text (List Text) → List Text
or_none (ok members) = members
or_none (err e) = []

-- The USB interfaces that the snapshot's bridge did not have.
abbrev pub extra : GadgetSnapshot → List Text → List Text
extra s members =
    retain (λ m. not (any (λ b. text_eq b m) s.bridge)) (retain is_usb_interface members)

module _ {W : Type 0} (io : RestoreIo W) where
  -- `restore_with` up to the second binding of the controller: nothing stops it.
  pub rebuild : GadgetSnapshot → W → List Text × W
  rebuild s w =
      let unbound = io.write udc_path [] w in
      let cleared = io.remove_links unbound.1 in
      let attributes = try_each (λ a. io.write a.0 a.1) s.attributes cleared.1 in
      let links = try_each (λ l. io.link l.1 l.0) s.links attributes.1 in
      let bound = io.write udc_path s.udc links.1 in
      (
        noted unbound.0 ++ (noted cleared.0 ++ (attributes.0 ++ (links.0 ++ noted bound.0))),
        bound.1,
      )

  -- The rest of `restore_with`: the bridge.
  pub rejoin : GadgetSnapshot → W → List Text × W
  rejoin s w =
      let members = io.members w in
      let removed = try_each io.remove_member (extra s (or_none members.0)) members.1 in
      let restored = try_each io.restore_member s.bridge removed.1 in
      (noted members.0 ++ (removed.0 ++ restored.0), restored.1)

  unfoldable pub restore_with : GadgetSnapshot → Io W Text (Unit {0})
  unfolding rebuild rejoin
  restore_with s w =
      let built = rebuild s w in
      let joined = rejoin s built.1 in (verdict (built.0 ++ joined.0), joined.1)

-- The messages of a switch: from the capture, with the composition restored, and with both errors.
pub data SwitchError : Type 0 where
  not_captured restored : Text → SwitchError
  unrestored : Text → Text → SwitchError

abbrev after_restore : Text → Result Text (Unit {0}) → Result SwitchError (Unit {0})
after_restore error (ok _) = err (restored error)
after_restore error (err rollback) = err (unrestored error rollback)

module _ {W : Type 0} where
  abbrev after_apply : Io W Text (Unit {0}) → Result Text (Unit {0}) → Io W SwitchError (Unit {0})
  after_apply restore (ok _) w = (ok tt, w)
  after_apply restore (err error) w = (after_restore error (restore w).0, (restore w).1)

  unfoldable pub with_rollback :
      Io W Text (Unit {0}) → Io W Text (Unit {0}) → Io W SwitchError (Unit {0})
  with_rollback apply restore w = after_apply restore (apply w).0 (apply w).1

  abbrev captured_then :
      Result Text GadgetSnapshot
      → (GadgetSnapshot → Io W SwitchError (Unit {0}))
      → Io W SwitchError (Unit {0})
  captured_then (err e) k w = (err (not_captured e), w)
  captured_then (ok s) k w = k s w

  -- `apply` is the switch to the mode.
  unfoldable pub transactional_switch :
      Readings W → RestoreIo W → Io W Text (Unit {0}) → Io W SwitchError (Unit {0})
  transactional_switch from io apply w =
      captured_then (capture from w) (λ s. with_rollback apply (restore_with io s)) w
