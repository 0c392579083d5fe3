-- ===== src/Singbox/Edits/Digests.antt =====
-- agent/src/singbox.rs: which configurations the profiles refer to after an edit.
use mu5250_wireguard.Json.{Value}
use mu5250_wireguard.Singbox.Runtime.{runtime}
use mu5250_wireguard.Lan.{DeviceChoice, apply_devices}
use mu5250_wireguard.Singbox.Edits.{
  Update, admitted, choose_devices, assigned, act, edited, validate, tidy,
}
use mu5250_wireguard.Singbox.Settings.{
  Profile, Settings, ProfileAction, save, subscribe, refresh, activate, rename_to, delete,
  profile_name, subscription_url, is_id, at_id, digest, inspect, add_profile, refresh_profile,
  activate_profile, rename_profile, delete_profile, profile_edit, too_many_profiles, name_exists,
  ids_exhausted, profile_not_found, not_subscribed, not_downloaded, next_id, same_name,
  max_profiles, is_none, too_large, max_config, not_json, in_runtime, in_lan, revision_exhausted,
}
use mu5250_wireguard.Base.World.{mapped}
use mu5250_wireguard.Base.{
  ensure, ok_or, All-append, >>=-eq-ok, ℕ, ◌≡◌, inl, inr, subst, Bool, not, ◌&&◌, Option, some,
  List, [], ◌∷◌, ◌++◌, ◌==◌, arith, Text, codes, ok, leb, ltb, length, any, find, retain, All,
  Bool-cases, ◌+◌, ◌^◌, none,
}

module _ (P : Text → Type 0) where
  -- A predicate of the digests of the profiles.
  abbrev pub Digests : List Profile → Type 0
  Digests ps = All (λ p. P p.digest) ps

  at_id-Digests :
      (id : ℕ) (f : Profile → Profile) (ps : List Profile)
      → ((p : Profile) → P p.digest → P (f p).digest)
      → Digests ps
      → Digests (at_id id f ps)
  unfolding at_id
  at_id-Digests id f [] keep h = h
  at_id-Digests id f (p ∷ ps) keep (first, rest) = elim (Bool-cases (p.id == id)) [
    | inl e ↦ rw e (keep p first, rest)
    | inr e ↦ rw e (first, at_id-Digests id f ps keep rest)
  ]

  retain-Digests : (f : Profile → Bool) (ps : List Profile) → Digests ps → Digests (retain f ps)
  retain-Digests f [] h = h
  retain-Digests f (p ∷ ps) (first, rest) = elim (Bool-cases (f p)) [
    | inl e ↦ rw e (first, retain-Digests f ps rest)
    | inr e ↦ rw e (retain-Digests f ps rest)
  ]

  rename-Digests :
      (id : ℕ) (name : Text) (s t : Settings) {stored : Option Text}
      → Digests s.profiles
      → rename_profile id name s ≡ ok (t, stored)
      → Digests t.profiles
  unfolding rename_profile
  rename-Digests id name s t h e =
      let (n, _, e1) = >>=-eq-ok (profile_name name) _ e in
      let (_, _, e2) =
        >>=-eq-ok
          (ensure (not (any (λ p. not (p.id == id) && same_name p.name n) s.profiles)) name_exists)
          _ e1 in
      let (_, _, e3) = >>=-eq-ok (ensure (any (is_id id) s.profiles) profile_not_found) _ e2 in
      let same : at_id id (λ p. record p { name = n }) s.profiles ≡ t.profiles =
        ground (arith, e3) in
      subst Digests same (at_id-Digests id (λ p. record p { name = n }) s.profiles (λ p k. k) h)

  delete-Digests :
      (id : ℕ) (s t : Settings) {stored : Option Text}
      → Digests s.profiles
      → delete_profile id s ≡ ok (t, stored)
      → Digests t.profiles
  unfolding delete_profile
  delete-Digests id s t h e =
      let same : retain (λ p. not (p.id == id)) s.profiles ≡ t.profiles = ground (arith, e) in
      subst Digests same (retain-Digests (λ p. not (p.id == id)) s.profiles h)

  activate-Digests :
      (id : ℕ) (s t : Settings) {stored : Option Text}
      → Digests s.profiles
      → activate_profile id s ≡ ok (t, stored)
      → Digests t.profiles
  unfolding activate_profile
  activate-Digests id s t h e =
      let (_, _, e1) = >>=-eq-ok (ensure (any (is_id id) s.profiles) profile_not_found) _ e in
      let same : s.profiles ≡ t.profiles = ground (arith, e1) in subst Digests same h

  choose-Digests :
      (choices : Option (List DeviceChoice)) (s t : Settings)
      → Digests s.profiles
      → choose_devices choices s ≡ ok t
      → Digests t.profiles
  unfolding choose_devices
  choose-Digests none s t h e =
      let same : s.profiles ≡ t.profiles = ground (arith, e) in subst Digests same h
  choose-Digests (some choices) s t h e =
      let (macs, _, e1) = >>=-eq-ok (mapped in_lan (apply_devices s.mode s.macs choices)) _ e in
      let same : s.profiles ≡ t.profiles = ground (arith, e1) in subst Digests same h

  module _ (hash : Text → Text) (decode : Text → Option Value) (now : ℕ) where
    inspect-digest :
        (text : Text) {d : Text} {n : ℕ}
        → inspect hash decode now text ≡ ok (d, n)
        → digest hash decode now text ≡ d
    unfolding inspect
    inspect-digest text e =
        let (_, _, e1) = >>=-eq-ok (ensure (leb (length text) max_config) too_large) _ e in
        let (value, _, e2) = >>=-eq-ok (ok_or (decode text) not_json) _ e1 in
        let (_, _, e3) =
          >>=-eq-ok (mapped in_runtime (runtime value (codes "check") (codes "check"))) _ e2 in
        ground (arith, e3)

    add-Digests :
        (name : Text) (url : Option Text) (text : Text) (s t : Settings)
        → Digests s.profiles
        → P (digest hash decode now text)
        → add_profile hash decode now name url text s ≡ ok t
        → Digests t.profiles
    unfolding add_profile
    add-Digests name url text s t h k e =
        let (_, _, e1) =
          >>=-eq-ok (ensure (ltb (length s.profiles) max_profiles) too_many_profiles) _ e in
        let (n, _, e2) = >>=-eq-ok (profile_name name) _ e1 in
        let (_, _, e3) =
          >>=-eq-ok (ensure (not (any (λ p. same_name p.name n) s.profiles)) name_exists) _ e2 in
        let (found, seen, e4) = >>=-eq-ok (inspect hash decode now text) _ e3 in
        let (id, _, e5) = >>=-eq-ok (ok_or (next_id s.profiles) ids_exhausted) _ e4 in
        let p : Profile = record {
          id = id;
          name = n;
          url = url;
          digest = found.0;
          nodes = found.1;
          updated = now;
        } in
        let same : s.profiles ++ p ∷ [] ≡ t.profiles = ground (arith, e5) in
        subst Digests same (
          All-append (λ q. P q.digest) s.profiles (p ∷ []) h
            (subst P (inspect-digest text seen) k, tt))

    refresh-Digests :
        (id : ℕ) (download : Option Text) (s t : Settings) {stored : Option Text}
        → Digests s.profiles
        → ((text : Text) → stored ≡ some text → P (digest hash decode now text))
        → refresh_profile hash decode now id download s ≡ ok (t, stored)
        → Digests t.profiles
    unfolding refresh_profile
    refresh-Digests id download s t h k e =
        let (p, _, e1) = >>=-eq-ok (ok_or (find (is_id id) s.profiles) profile_not_found) _ e in
        let (_, _, e2) = >>=-eq-ok (ensure (not (is_none p.url)) not_subscribed) _ e1 in
        let (text, _, e3) = >>=-eq-ok (ok_or download not_downloaded) _ e2 in
        let (found, seen, e4) = >>=-eq-ok (inspect hash decode now text) _ e3 in
        let renewed : Profile → Profile =
          λ q. record q { digest = found.0; nodes = found.1; updated = now } in
        let same : at_id id renewed s.profiles ≡ t.profiles = ground (arith, e4) in
        let new : P found.0 = subst P (inspect-digest text seen) (k text (ground (arith, e4))) in
        subst Digests same (at_id-Digests id renewed s.profiles (λ q old. new) h)

    edit-Digests :
        (a : ProfileAction) (download : Option Text) (s t : Settings) {stored : Option Text}
        → Digests s.profiles
        → ((text : Text) → stored ≡ some text → P (digest hash decode now text))
        → profile_edit hash decode now a download s ≡ ok (t, stored)
        → Digests t.profiles
    unfolding profile_edit
    edit-Digests (save name config) download s t h k e =
        let (u, added, e1) = >>=-eq-ok (add_profile hash decode now name none config s) _ e in
        let same : u.profiles ≡ t.profiles = ground (arith, e1) in
        subst Digests same
          (add-Digests name none config s u h (k config (ground (arith, e1))) added)
    edit-Digests (subscribe name address) download s t h k e =
        let (url, _, e1) = >>=-eq-ok (subscription_url address) _ e in
        let (text, _, e2) = >>=-eq-ok (ok_or download not_downloaded) _ e1 in
        let (u, added, e3) = >>=-eq-ok (add_profile hash decode now name (some url) text s) _ e2 in
        let same : u.profiles ≡ t.profiles = ground (arith, e3) in
        subst Digests same
          (add-Digests name (some url) text s u h (k text (ground (arith, e3))) added)
    edit-Digests (refresh id) download s t h k e = refresh-Digests id download s t h k e
    edit-Digests (activate id) download s t h k e = activate-Digests id s t h e
    edit-Digests (rename_to id name) download s t h k e = rename-Digests id name s t h e
    edit-Digests (delete id) download s t h k e = delete-Digests id s t h e

    act-Digests :
        (a : Option ProfileAction) (download : Option Text) (s t : Settings) {stored : Option Text}
        → Digests s.profiles
        → ((text : Text) → stored ≡ some text → P (digest hash decode now text))
        → act hash decode now a download s ≡ ok (t, stored)
        → Digests t.profiles
    unfolding act
    act-Digests (some a) download s t h k e = edit-Digests a download s t h k e
    act-Digests none download s t h k e =
        let same : s.profiles ≡ t.profiles = ground (arith, e) in subst Digests same h

    -- What holds of the digests of the profiles before an edit, and of the digest of the
    -- configuration that it stores, holds of the digests of the profiles after it.
    pub edited-Digests :
        (old : Settings) (u : Update) (download : Option Text) (next : Settings)
        {stored : Option Text}
        → Digests old.profiles
        → ((text : Text) → stored ≡ some text → P (digest hash decode now text))
        → edited hash decode now old u download ≡ ok (next, stored)
        → Digests next.profiles
    unfolding edited
    edited-Digests old u download next h k e =
        let (_, _, e1) = >>=-eq-ok (admitted old.revision u) _ e in
        let (_, _, e2) =
          >>=-eq-ok (ensure (ltb (old.revision + 1) (2 ^ 64)) revision_exhausted) _ e1 in
        let (s, chosen, e3) = >>=-eq-ok (choose_devices u.devices (assigned u old)) _ e2 in
        let (r, acted, e4) = >>=-eq-ok (act hash decode now u.profile download s) _ e3 in
        let (_, _, e5) = >>=-eq-ok (validate (tidy r.0)) _ e4 in
        let same : r.0.profiles ≡ next.profiles = ground (arith, e5) in
        subst Digests same (
          act-Digests u.profile download s r.0
            (choose-Digests u.devices (assigned u old) s h chosen)
            (λ text g. k text (ground (arith, g, e5))) acted)
