-- ===== src/Singbox/Gateway/Blobs.antt =====
-- agent/src/singbox.rs: the configurations of the profiles, under new files and garbage collection.
use mu5250_wireguard.Singbox.Settings.{Profile, Settings, digest}
use mu5250_wireguard.Singbox.Edits.{blob}
use mu5250_wireguard.Singbox.Edits.Digests.{Digests}
use mu5250_wireguard.Singbox.Gateway.{Files, Device, Codec, keeps, collect_each, collect_garbage}
use mu5250_wireguard.Singbox.Gateway.Quiet.{Laws, with_blob}
use mu5250_wireguard.Base.{
  text_eq_refl, text_eq_iff, length-append, ◌≡◌, inl, inr, ◌∙◌, refl, sym, ap, subst, Bool, true,
  false, some, List, [], ◌∷◌, if◌then◌else◌, arith, Text, codes, text_eq, length, any, Bool-cases,
}

-- The directory has a file of the digest's name, whose bytes have the digest.
abbrev pub HasBlob : Codec → Files → Text → Type 0
HasBlob c f d =
    (text : Text) × (f.blobs (blob d) ≡ some text) × (digest c.hash c.decode c.now text ≡ d)

-- The directory has the configuration of every profile.
abbrev pub IsWhole : Codec → Files → Settings → Type 0
IsWhole c f s = Digests (HasBlob c f) s.profiles

abbrev named : List Profile → Text → Bool
named ps n = any (λ p. text_eq (blob p.digest) n) ps

kept-Digests :
    (c : Codec) (f g : Files) (ps : List Profile)
    → ((n : Text) → named ps n ≡ true → g.blobs n ≡ f.blobs n)
    → Digests (HasBlob c f) ps
    → Digests (HasBlob c g) ps
kept-Digests c f g [] same h = h
kept-Digests c f g (p ∷ ps) same ((text, found, good), rest) = (
  (text, same (blob p.digest) (ground (arith, text_eq_refl (blob p.digest))) ∙ found, good),
  kept-Digests c f g ps (λ n e. same n (ground (arith, e))) rest,
)

-- With the same directory, the same profiles are there.
pub same-IsWhole :
    (c : Codec) (f g : Files) (s : Settings) → g.blobs ≡ f.blobs → IsWhole c f s → IsWhole c g s
same-IsWhole c f g s same h = kept-Digests c f g s.profiles (λ n e. ap (λ b. b n) same) h

suffix_cancel : (a b : Text) → blob a ≡ blob b → a ≡ b
suffix_cancel [] [] h = refl
suffix_cancel [] (y ∷ b) h = absurd (
    let l : length (blob []) ≡ length (blob (y ∷ b)) = ap length h in
    omega (arith, l, length-append b (codes ".json")))
suffix_cancel (x ∷ a) [] h = absurd (
    let l : length (blob (x ∷ a)) ≡ length (blob []) = ap length h in
    omega (arith, l, length-append a (codes ".json")))
suffix_cancel (x ∷ a) (y ∷ b) h =
    let rest : blob a ≡ blob b = ground (arith, h) in
    let head : x ≡ y = ground (arith, h) in
    let more : a ≡ b = suffix_cancel a b rest in ground (arith, head, more)

-- A new configuration is there, and those that were there still are.
pub new-HasBlob :
    (c : Codec) (f : Files) (text : Text)
    → HasBlob c
        (with_blob (blob (digest c.hash c.decode c.now text)) text f)
        (digest c.hash c.decode c.now text)
new-HasBlob c f text =
    (text, rw (text_eq_refl (blob (digest c.hash c.decode c.now text))) refl, refl)

put-HasBlob :
    (c : Codec) (f : Files) (text d : Text)
    → HasBlob c f d
    → HasBlob c (with_blob (blob (digest c.hash c.decode c.now text)) text f) d
put-HasBlob c f text d (old, found, good) =
    let name = blob (digest c.hash c.decode c.now text) in
    elim (Bool-cases (text_eq name (blob d))) [
      | inr e ↦ (old, rw e found, good)
      | inl e ↦ (
        text,
        rw e refl,
        suffix_cancel (digest c.hash c.decode c.now text) d ((text_eq_iff name (blob d)).0 e),
      )
    ]

pub put-Digests :
    (c : Codec) (f : Files) (text : Text) (ps : List Profile)
    → Digests (HasBlob c f) ps
    → Digests (HasBlob c (with_blob (blob (digest c.hash c.decode c.now text)) text f)) ps
put-Digests c f text [] h = h
put-Digests c f text (p ∷ ps) (first, rest) =
    (put-HasBlob c f text p.digest first, put-Digests c f text ps rest)

module _ {W : Type 0} (c : Codec) (dev : Device W) (laws : Laws dev) where
  abbrev step : Settings → Text → W → W
  step s name w = if keeps c dev s name then w else dev.remove_blob name w

  step-blobs :
      (s : Settings) (name n : Text) (w : W)
      → keeps c dev s n ≡ true
      → (dev.files (step s name w)).blobs n ≡ (dev.files w).blobs n
  step-blobs s name n w h = elim (Bool-cases (keeps c dev s name)) [
    | inl e ↦ rw e refl
    | inr e ↦
        let other : text_eq name n ≡ false = elim (Bool-cases (text_eq name n)) [
          | inr k ↦ k
          | inl k ↦ absurd (
              let same : name ≡ n = (text_eq_iff name n).0 k in
              let there : keeps c dev s name ≡ true =
                subst (λ x. keeps c dev s x ≡ true) (sym same) h in
              ground (arith, there, e))
        ] in
        rw e (laws.removed_blobs name n w other)
  ]

  step-config :
      (s : Settings) (name : Text) (w : W)
      → ((dev.files (step s name w)).config ≡ (dev.files w).config)
        × ((dev.files (step s name w)).other ≡ (dev.files w).other)
  step-config s name w = elim (Bool-cases (keeps c dev s name)) [
    | inl e ↦ rw e (refl, refl)
    | inr e ↦ rw e (laws.removed_config name w, laws.removed_other name w)
  ]

  each-config :
      (s : Settings) (names : List Text) (w : W)
      → ((dev.files (collect_each c dev s names w)).config ≡ (dev.files w).config)
        × ((dev.files (collect_each c dev s names w)).other ≡ (dev.files w).other)
  unfolding collect_each
  each-config s [] w = (refl, refl)
  each-config s (name ∷ names) w =
      let (config, other) = step-config s name w in
      let (configs, others) = each-config s names (step s name w) in
      (configs ∙ config, others ∙ other)

  each-blobs :
      (s : Settings) (names : List Text) (n : Text) (w : W)
      → keeps c dev s n ≡ true
      → (dev.files (collect_each c dev s names w)).blobs n ≡ (dev.files w).blobs n
  unfolding collect_each
  each-blobs s [] n w h = refl
  each-blobs s (name ∷ names) n w h =
      each-blobs s names n (step s name w) h ∙ step-blobs s name n w h

  -- Garbage collection leaves the settings file, the other gateway and the profiles of the settings.
  pub collect-config :
      (s : Settings) (w : W)
      → ((dev.files (collect_garbage c dev s w)).config ≡ (dev.files w).config)
        × ((dev.files (collect_garbage c dev s w)).other ≡ (dev.files w).other)
  unfolding collect_garbage
  collect-config s w = each-config s (dev.list_blobs w) w

  pub collect-IsWhole :
      (s : Settings) (w : W)
      → IsWhole c (dev.files w) s
      → IsWhole c (dev.files (collect_garbage c dev s w)) s
  unfolding collect_garbage
  collect-IsWhole s w h =
      kept-Digests c (dev.files w) (dev.files (collect_garbage c dev s w)) s.profiles
        (λ n e. each-blobs s (dev.list_blobs w) n w e) h
