-- ===== src/Singbox/Gateway/Kept.antt =====
-- agent/src/singbox.rs: what an update keeps of the files, from the request on.
use mu5250_wireguard.Lan.{plain}
use mu5250_wireguard.Singbox.Gateway.Ends.{Ends, settle-Ends, switch-Ends}
use mu5250_wireguard.Wireguard.Edits.{bytes}
use mu5250_wireguard.Singbox.Runtime.{runtime}
use mu5250_wireguard.Singbox.Settings.{
  Settings, digest, not_json, in_runtime, subscribe, refresh, save, activate, rename_to, delete,
  ProfileAction,
}
use mu5250_wireguard.Singbox.Edits.{same_network, blob}
use mu5250_wireguard.Singbox.Gateway.{
  switch, settle, plain, Files, Refusal, in_settings, cannot_store, Outcome, Device, Codec, run,
  store, device, change, refuse_both, address, fetch, loaded, other_enabled,
}
use mu5250_wireguard.Singbox.Gateway.Quiet.{Laws, with_blob}
use mu5250_wireguard.Base.World.Quiet.{IsQuiet, bind-IsQuiet, after}
use mu5250_wireguard.Singbox.Gateway.Blobs.{
  new-HasBlob, put-Digests, same-IsWhole, HasBlob, IsWhole,
}
use mu5250_wireguard.Base.World.{Io, map_err, continue, mapped, lift, ◌>>=◌}
use mu5250_wireguard.Base.{
  ok_or, ◌≡◌, ◌⊎◌, inl, inr, ◌∙◌, refl, ap, false, ◌&&◌, some, Text, codes, Result, ok, err, subst,
  Bool, true, Option, none, if◌then◌else◌, arith,
}

module _ {W : Type 0} (c : Codec) (dev : Device W) (laws : Laws dev) where
  abbrev file_of : Text → Text
  file_of text = blob (digest c.hash c.decode c.now text)

  -- Storing ends with the new file, or with an error and either.
  abbrev StoreEnds : Text → Files → Result Refusal (Unit {0}) × W → Type 0
  StoreEnds text f x =
      (dev.files x.1 ≡ with_blob (file_of text) text f)
      ⊎ ((dev.files x.1 ≡ f) × (e : Refusal) × (x.0 ≡ err e))

  written-StoreEnds :
      (text : Text) (f : Files) (r : Result Text (Unit {0})) (w : W)
      → (r ≡ ok tt → dev.files w ≡ with_blob (file_of text) text f)
      → (dev.files w ≡ f) ⊎ (dev.files w ≡ with_blob (file_of text) text f)
      → StoreEnds text f (mapped (λ e. cannot_store) r, w)
  written-StoreEnds text f (ok tt) w h k = inl (h refl)
  written-StoreEnds text f (err e) w h (inl k) = inr (k, cannot_store, refl)
  written-StoreEnds text f (err e) w h (inr k) = inl k

  store-StoreEnds :
      (text : Text) (f : Files) (w : W)
      → dev.files w ≡ f
      → StoreEnds text f (store c dev (some text) w)
  unfolding store
  store-StoreEnds text f w h =
      let stop : (e : Refusal) (v : W) → dev.files v ≡ f → StoreEnds text f (err e, v) =
        λ e v g. inr (g, e, refl) in
      after dev.files (StoreEnds text f) f
        (lift (mapped in_settings (ok_or (c.decode text) not_json))) _ w (λ v. refl) h stop
        λ value w1 h1.
          after dev.files (StoreEnds text f) f
            (lift (mapped in_settings (mapped in_runtime (runtime value (codes "check") c.secret))))
            _ w1 (λ v. refl) h1 stop
            λ made w2 h2.
              after dev.files (StoreEnds text f) f (run c dev (dev.check made.0)) _ w2
                (laws.quiet_check made.0) h2 stop
                λ _ w3 h3.
                  written-StoreEnds text f (dev.write_blob (file_of text) text w3).0
                    (dev.write_blob (file_of text) text w3).1
                    (λ e.
                      laws.blob_ok (file_of text) text w3 e ∙ ap (with_blob (file_of text) text) h3)
                    (elim (laws.blob_any (file_of text) text w3) [
                      | inl e ↦ inl (e ∙ h3)
                      | inr e ↦ inr (e ∙ ap (with_blob (file_of text) text) h3)
                    ])

  -- The settings file holds settings that do not enable a second gateway, and the directory their
  -- configurations if it had those of the old ones; or the same of the old settings; or there was an
  -- error with the new settings in the file and the configurations of the old ones in the directory.
  pub data Finished (f : Files) (old next : Settings) (x : Result Outcome Settings × W)
      : Type 0 where
    renewed :
        (dev.files x.1).config ≡ bytes (c.encode_settings next)
        → (next.enabled && f.other) ≡ false
        → (IsWhole c f old → IsWhole c (dev.files x.1) next)
        → Finished f old next x
    unchanged :
        (dev.files x.1).config ≡ f.config
        → (IsWhole c f old → IsWhole c (dev.files x.1) old)
        → Finished f old next x
    stranded :
        (dev.files x.1).config ≡ bytes (c.encode_settings next)
        → (next.enabled && f.other) ≡ false
        → (IsWhole c f old → IsWhole c (dev.files x.1) old)
        → (e : Outcome) → x.0 ≡ err e
        → Finished f old next x

  abbrev pub Done : Files → Settings → Settings → Result Outcome Settings × W → Type 0
  Done f old next x = ((dev.files x.1).other ≡ f.other) × Finished f old next x

  same-Done :
      (f g : Files) (old next : Settings) (r : Result Outcome Settings) (w : W)
      → dev.files w ≡ g
      → g.config ≡ f.config
      → g.other ≡ f.other
      → (IsWhole c f old → IsWhole c g old)
      → Done f old next (r, w)
  same-Done f g old next r w h config other keep = (
    ap (λ a. a.other) h ∙ other,
    unchanged (ap (λ a. a.config) h ∙ config)
        (λ whole. same-IsWhole c g (dev.files w) old (ap (λ a. a.blobs) h) (keep whole)),
  )

  Ends-Done :
      (f g : Files) (old next : Settings) (x : Result Outcome Settings × W)
      → g.config ≡ f.config
      → g.other ≡ f.other
      → (next.enabled && f.other) ≡ false
      → (IsWhole c f old → IsWhole c g old)
      → (IsWhole c f old → IsWhole c g next)
      → Ends c dev laws g old next x
      → Done f old next x
  Ends-Done f g old next x config other both keep grow (o, inl (h, k)) =
      (o ∙ other, renewed h both (λ whole. k (grow whole)))
  Ends-Done f g old next x config other both keep grow (o, inr (inl (h, k))) =
      (o ∙ other, unchanged (h ∙ config) (λ whole. k (keep whole)))
  Ends-Done f g old next x config other both keep grow (o, inr (inr (h, l, e, k))) =
      (o ∙ other, stranded h both (λ whole. l (keep whole)) e k)

  -- The new settings refer to nothing but what the old ones did and what is stored.
  abbrev pub Follows : Settings → Settings → Option Text → Type 0
  Follows old next stored =
      (g : Files)
      → IsWhole c g old
      → ((text : Text) → stored ≡ some text → HasBlob c g (digest c.hash c.decode c.now text))
      → IsWhole c g next

  -- After storing.
  abbrev rest : Settings → Settings → Option Text → Io W Outcome Settings
  rest old next stored =
      if same_network old next then settle c dev next else switch c dev old next stored

  either :
      (Q : Result Outcome Settings × W → Type 0) (b : Bool) (m n : Io W Outcome Settings) (w : W)
      → Q (m w)
      → Q (n w)
      → Q ((if b then m else n) w)
  either Q true m n w h k = h
  either Q false m n w h k = k

  rest-Ends :
      (g : Files) (old next : Settings) (stored : Option Text) (w : W)
      → dev.files w ≡ g
      → Ends c dev laws g old next (rest old next stored w)
  rest-Ends g old next stored w h =
      either (Ends c dev laws g old next) (same_network old next) (settle c dev next)
        (switch c dev old next stored) w (settle-Ends c dev laws g old next w h)
        (switch-Ends c dev laws g old next stored w h)

  stored-Done :
      (f : Files) (old next : Settings) (stored : Option Text) (text : Text)
      (r : Result Refusal (Unit {0})) (w : W)
      → (next.enabled && f.other) ≡ false
      → Follows old next (some text)
      → StoreEnds text f (r, w)
      → Done f old next (continue (mapped plain r) (λ _. rest old next stored) w)
  stored-Done f old next stored text (ok tt) w both follows (inl h) =
      let g = with_blob (file_of text) text f in
      let there : IsWhole c f old → IsWhole c g old = put-Digests c f text old.profiles in
      Ends-Done f g old next _ refl refl both there
        (λ whole. follows g (there whole) (λ t e.
          subst (λ u. HasBlob c g (digest c.hash c.decode c.now u)) (ground (arith, e))
            (new-HasBlob c f text)))
        (rest-Ends g old next stored w h)
  stored-Done f old next stored text (err e) w both follows (inl h) =
      same-Done f (with_blob (file_of text) text f) old next (err (plain e)) w h refl refl
        (put-Digests c f text old.profiles)
  stored-Done f old next stored text (ok tt) w both follows (inr (h, e, k)) =
      absurd (ground (arith, k))
  stored-Done f old next stored text (err e) w both follows (inr (h, _, k)) =
      same-Done f f old next (err (plain e)) w h refl refl (λ whole. whole)

  kept-Done :
      (f : Files) (old next : Settings) (stored : Option Text) (w : W)
      → dev.files w ≡ f
      → (next.enabled && f.other) ≡ false
      → Follows old next stored
      → Done f old next ((map_err plain (store c dev stored) >>= λ _. rest old next stored) w)
  unfolding store
  kept-Done f old next (some text) w h both follows =
      stored-Done f old next (some text) text (store c dev (some text) w).0
        (store c dev (some text) w).1 both follows (store-StoreEnds text f w h)
  kept-Done f old next none w h both follows =
      Ends-Done f f old next _ refl refl both (λ whole. whole)
        (λ whole. follows f whole (λ text e. absurd (ground (arith, e))))
        (rest-Ends f old next none w h)

  -- The refusal of a second gateway.
  refused-Done :
      (f : Files) (old next : Settings) (b : Bool) (k : Unit {0} → Io W Outcome Settings) (w : W)
      → dev.files w ≡ f
      → (b ≡ false → Done f old next (k tt w))
      → Done f old next (continue (if b then err (plain other_enabled) else ok tt) k w)
  refused-Done f old next true k w h go =
      same-Done f f old next (err (plain other_enabled)) w h refl refl (λ whole. whole)
  refused-Done f old next false k w h go = go refl

  pub change-Done :
      (f : Files) (old next : Settings) (stored : Option Text) (w : W)
      → dev.files w ≡ f
      → Follows old next stored
      → Done f old next (change c dev old next stored w)
  unfolding change refuse_both
  change-Done f old next stored w h follows =
      let seen : (dev.files w).other ≡ f.other = ap (λ a. a.other) h in
      refused-Done f old next (next.enabled && (dev.files w).other) _ w h λ no_second.
        let both : (next.enabled && f.other) ≡ false =
          subst (λ o. (next.enabled && o) ≡ false) seen no_second in
        after dev.files (Done f old next) f (map_err plain (run c dev dev.ensure_dirs)) _ w
          laws.quiet_dirs h (λ e v g. same-Done f f old next (err e) v g refl refl (λ whole. whole))
          λ _ v g. kept-Done f old next stored v g both follows

  pub address-IsQuiet : (a : Option ProfileAction) → IsQuiet dev.files (address c dev a)
  unfolding address
  address-IsQuiet none = λ w. refl
  address-IsQuiet (some (subscribe name url)) = λ w. refl
  address-IsQuiet (some (refresh id)) =
      bind-IsQuiet dev.files (loaded c dev) _ (λ w. refl) λ s w. refl
  address-IsQuiet (some (save name config)) = λ w. refl
  address-IsQuiet (some (activate id)) = λ w. refl
  address-IsQuiet (some (rename_to id name)) = λ w. refl
  address-IsQuiet (some (delete id)) = λ w. refl

  pub fetch-IsQuiet : (url : Option Text) → IsQuiet dev.files (fetch c dev url)
  unfolding fetch
  fetch-IsQuiet none = λ w. refl
  fetch-IsQuiet (some url) =
      bind-IsQuiet dev.files (map_err (λ e. plain (device e)) (dev.download url)) _
        (laws.quiet_download url) λ text w. refl
