-- ===== src/Singbox/Gateway/Lost.antt =====
-- agent/src/singbox.rs: the failure after which the saved settings name a configuration that is gone.
use mu5250_wireguard.Base.World.{continue, mapped}
use mu5250_wireguard.Wireguard.Edits.{bytes}
use mu5250_wireguard.Lan.{plain, commit_change}
use mu5250_wireguard.Singbox.Settings.{Profile, Settings}
use mu5250_wireguard.Singbox.Edits.{blob}
use mu5250_wireguard.Singbox.Edits.Digests.{Digests}
use mu5250_wireguard.Singbox.Gateway.{
  Files, Refusal, Outcome, Device, Codec, keeps, collect_each, collect_garbage, persist, apply,
  conclude, carry_out, run, device,
}
use mu5250_wireguard.Singbox.Gateway.Quiet.{Laws}
use mu5250_wireguard.Singbox.Gateway.Blobs.{HasBlob, IsWhole, collect-config}
use mu5250_wireguard.Base.{
  text_eq_iff, ◌≡◌, inl, inr, ◌∙◌, sym, ap, subst, true, false, none, some, List, [], ◌∷◌,
  if◌then◌else◌, arith, Text, text_eq, Result, ok, err, any, Bool-cases,
}

-- No profile is whole whose file is gone.
gone-Digests :
    (c : Codec) (f : Files) (name : Text) (ps : List Profile)
    → f.blobs name ≡ none
    → any (λ p. text_eq (blob p.digest) name) ps ≡ true
    → ¬ Digests (HasBlob c f) ps
gone-Digests c f name [] none_left h whole = ground (arith, h)
gone-Digests c f name (p ∷ ps) none_left h ((text, found, good), rest) =
    elim (Bool-cases (text_eq (blob p.digest) name)) [
      | inr e ↦ gone-Digests c f name ps none_left (ground (arith, h, e)) rest
      | inl e ↦
          let same : blob p.digest ≡ name = (text_eq_iff (blob p.digest) name).0 e in
          let there : f.blobs name ≡ some text = subst (λ n. f.blobs n ≡ some text) same found in
          ground (arith, there, none_left)
    ]

module _ {W : Type 0} (c : Codec) (dev : Device W) (laws : Laws dev)
    (removes : (name : Text) (w : W) → (dev.files (dev.remove_blob name w)).blobs name ≡ none) where
  step-none :
      (s : Settings) (name n : Text) (w : W)
      → (dev.files w).blobs n ≡ none
      → (dev.files (if keeps c dev s name then w else dev.remove_blob name w)).blobs n ≡ none
  step-none s name n w h = elim (Bool-cases (keeps c dev s name)) [
    | inl e ↦ rw e h
    | inr e ↦ elim (Bool-cases (text_eq name n)) [
      | inr k ↦ rw e (laws.removed_blobs name n w k ∙ h)
      | inl k ↦ rw e (
          subst (λ m. (dev.files (dev.remove_blob name w)).blobs m ≡ none)
            ((text_eq_iff name n).0 k) (removes name w))
    ]
  ]

  each-none :
      (s : Settings) (names : List Text) (n : Text) (w : W)
      → (dev.files w).blobs n ≡ none
      → (dev.files (collect_each c dev s names w)).blobs n ≡ none
  unfolding collect_each
  each-none s [] n w h = h
  each-none s (name ∷ names) n w h =
      each-none s names n (if keeps c dev s name then w else dev.remove_blob name w)
        (step-none s name n w h)

  -- A listed file that no profile needs is gone after garbage collection.
  each-removed :
      (s : Settings) (names : List Text) (n : Text) (w : W)
      → any (text_eq n) names ≡ true
      → keeps c dev s n ≡ false
      → (dev.files (collect_each c dev s names w)).blobs n ≡ none
  unfolding collect_each
  each-removed s [] n w h k = absurd (ground (arith, h))
  each-removed s (name ∷ names) n w h k = elim (Bool-cases (text_eq n name)) [
    | inr e ↦
        each-removed s names n (if keeps c dev s name then w else dev.remove_blob name w)
          (ground (arith, h, e)) k
    | inl e ↦
        let same : n ≡ name = (text_eq_iff n name).0 e in
        let unkept : keeps c dev s name ≡ false = subst (λ m. keeps c dev s m ≡ false) same k in
        let here : (dev.files (if keeps c dev s name then w else dev.remove_blob name w)).blobs n
            ≡ none =
          rw unkept (
            subst (λ m. (dev.files (dev.remove_blob name w)).blobs m ≡ none) (sym same)
              (removes name w)) in
        each-none s names n (if keeps c dev s name then w else dev.remove_blob name w) here
  ]

  conclude-gone :
      (old next : Settings) (e : Outcome) (n : Text) (w : W)
      → any (text_eq n) (dev.list_blobs w) ≡ true
      → keeps c dev old n ≡ false
      → keeps c dev next n ≡ true
      → (dev.files w).config ≡ bytes (c.encode_settings next)
      → ((dev.files (conclude c dev old next (err e) w).1).config ≡ bytes (c.encode_settings next))
        × (¬ IsWhole c (dev.files (conclude c dev old next (err e) w).1) next)
  unfolding conclude collect_garbage
  conclude-gone old next e n w listed unkept wanted config =
      let swept = collect_each c dev old (dev.list_blobs w) w in
      let quiet = laws.quiet_error (some e) swept in
      (
        ap (λ f. f.config) quiet ∙ (collect-config c dev laws old w).0 ∙ config,
        gone-Digests c (dev.files (dev.set_error (some e) swept)) n next.profiles
            (ap (λ f. f.blobs n) quiet ∙ each-removed old (dev.list_blobs w) n w listed unkept)
            wanted,
      )

  -- After the policy is in force and the settings are saved.
  abbrev saved : Settings → W → W
  saved next w = (persist c dev next (apply c dev next w).1).1

  commit-release :
      (old next : Settings) (release : W → Result Refusal (Unit {0}) × W) (e : Refusal) (w : W)
      → (apply c dev next w).0 ≡ ok tt
      → (persist c dev next (apply c dev next w).1).0 ≡ ok tt
      → (release (saved next w)).0 ≡ err e
      → commit_change (apply c dev) (persist c dev) release old next w
        ≡ (err (plain e), (release (saved next w)).1)
  unfolding commit_change
  commit-release old next release e w done kept failed = ground (arith, done, kept, failed)

  persist-config :
      (next : Settings) (w : W)
      → (persist c dev next w).0 ≡ ok tt
      → (dev.files (persist c dev next w).1).config ≡ bytes (c.encode_settings next)
  unfolding persist
  persist-config next w h =
      ap (λ f. f.config) (laws.config_ok (c.encode_settings next) w (ground (arith, h)))

  -- Over a router that keeps its laws and removes what it is told to: where the guard is set, the new
  -- policy is in force and the new settings are saved, but the guard's release fails, the change
  -- fails, the new settings stay in the file, and a listed configuration that they name and the old
  -- settings do not is removed, so that they name a profile whose configuration is gone.
  pub carry_out-lost :
      (old next : Settings) (n e : Text) (w : W)
      → (dev.hold w).0 ≡ ok tt
      → (apply c dev next (dev.hold w).1).0 ≡ ok tt
      → (persist c dev next (apply c dev next (dev.hold w).1).1).0 ≡ ok tt
      → (dev.release (saved next (dev.hold w).1)).0 ≡ err e
      → any (text_eq n) (dev.list_blobs (dev.release (saved next (dev.hold w).1)).1) ≡ true
      → keeps c dev old n ≡ false
      → keeps c dev next n ≡ true
      → ((carry_out c dev old next true w).0 ≡ err (plain (device e)))
        × ((dev.files (carry_out c dev old next true w).1).config ≡ bytes (c.encode_settings next))
        × (¬ IsWhole c (dev.files (carry_out c dev old next true w).1) next)
  unfolding carry_out conclude
  carry_out-lost old next n e w held done kept failed listed unkept wanted =
      let w1 = (dev.hold w).1 in
      let w4 = (dev.release (saved next w1)).1 in
      let committed =
        commit-release old next (run c dev dev.release) (device e) w1 done kept
          (ground (arith, failed)) in
      let config =
        ap (λ f. f.config) (laws.quiet_release (saved next w1))
        ∙ persist-config next (apply c dev next w1).1 kept in
      let (file, gone) =
        conclude-gone old next (plain (device e)) n w4 listed unkept wanted config in
      let ended : Result Outcome (Unit {0}) × W → Result Outcome Settings × W =
        λ x. conclude c dev old next x.0 x.1 in
      let first : carry_out c dev old next true w
          ≡ ended
              (commit_change (apply c dev) (persist c dev) (run c dev dev.release) old next w1) =
        ap
          (λ r.
            continue (mapped plain (mapped device r))
              (λ _ v.
                ended
                  (commit_change (apply c dev) (persist c dev) (run c dev dev.release) old next v))
              w1)
          held in
      let all_of : carry_out c dev old next true w
          ≡ conclude c dev old next (err (plain (device e))) w4 =
        first ∙ ap ended committed in
      (
        ap (λ x. x.0) all_of,
        ap (λ x. (dev.files x.1).config) all_of ∙ file,
        subst (λ x. ¬ IsWhole c (dev.files x.1) next) (sym all_of) gone,
      )
