-- ===== src/Gateways/Tests.antt =====
-- A router in memory that keeps the laws of both gateways, and updates of it.
use mu5250_wireguard.Base.Digits.{trim}
use mu5250_wireguard.Auth.Hex.{hex_encode}
use mu5250_wireguard.Singbox.Runtime.{
  runtime, build, finish, grouped, assembled, cleaned, scan, scan_one, forbidden, forbidden_items,
  forbidden_fields, is_forbidden, ends_with, non_nodes,
}
use mu5250_wireguard.Base.Coder.{
  Coder, nat_coder, bool_coder, text_coder, list_coder, option_coder, pair_coder, via_coder, whole,
}
use mu5250_wireguard.Json.{
  Value, nil, cons, end, field, object, array, string, without, with_entry, entry, index, find_item,
  items_of, append_items,
}
use mu5250_wireguard.Lan.{plain, validate_selection, commit_change}
use mu5250_wireguard.Wireguard.Tunnel.{Tunnel}
use mu5250_wireguard.Wireguard.Settings.{Settings as WireguardSettings, Profile as WireguardProfile}
use mu5250_wireguard.Wireguard.Edits.{
  Update as WireguardUpdate, Read, bytes, not_found, dedup, sort,
}
use mu5250_wireguard.Wireguard.Gateway as Wireguard
use mu5250_wireguard.Wireguard.Gateway.Laws as WireguardLaws
use mu5250_wireguard.Wireguard.Gateway.Saved.{enabled as wireguard_enabled}
use mu5250_wireguard.Singbox.Settings.{
  Settings, Profile, default, save, add_profile, inspect, profile_name, profile_edit, next_id,
  max_id,
}
use mu5250_wireguard.Singbox.Edits.{Update, load, validate, edited, same_network, check_profiles}
use mu5250_wireguard.Singbox.Gateway as Singbox
use mu5250_wireguard.Singbox.Gateway.Quiet as SingboxLaws
use mu5250_wireguard.Singbox.Gateway.Blobs.{IsWhole}
use mu5250_wireguard.Singbox.Gateway.Laws.{
  enabled as singbox_enabled, IsFaithful, IsSound, update-IsSound, IsEdit,
}
use mu5250_wireguard.Singbox.Gateway.Lost.{carry_out-lost}
use mu5250_wireguard.Gateways.{
  done, then_singbox, IsLinked, AreExclusive, Updates-exclusive, then_wireguard,
}
use mu5250_wireguard.Base.{
  text_eq_refl, ◌≡◌, ◌⊎◌, inr, refl, subst, ap, Bool, true, false, Option, none, some, List, [],
  ◌∷◌, ◌++◌, if◌then◌else◌, arith, Text, codes, text_eq, Result, ok, err, length, is_ok,
}

profile_coder : Coder Profile
profile_coder =
    via_coder (λ (p : Profile). (p.id, (p.name, (p.url, (p.digest, (p.nodes, p.updated))))))
      (λ t. record {
        id = t.0;
        name = t.1.0;
        url = t.1.1.0;
        digest = t.1.1.1.0;
        nodes = t.1.1.1.1.0;
        updated = t.1.1.1.1.1;
      })
      (λ p. refl)
      (pair_coder nat_coder (
        pair_coder text_coder (
          pair_coder (option_coder text_coder)
            (pair_coder text_coder (pair_coder nat_coder nat_coder)))))

settings_coder : Coder Settings
unfolding profile_coder
settings_coder =
    via_coder
      (λ (s : Settings).
        (s.revision, (s.enabled, (s.mode, (s.macs, (s.profiles, s.active_profile))))))
      (λ t. record {
        revision = t.0;
        enabled = t.1.0;
        mode = t.1.1.0;
        macs = t.1.1.1.0;
        profiles = t.1.1.1.1.0;
        active_profile = t.1.1.1.1.1;
      })
      (λ s. refl)
      (pair_coder nat_coder (
        pair_coder bool_coder (
          pair_coder text_coder (
            pair_coder (list_coder text_coder)
              (pair_coder (list_coder profile_coder) (option_coder nat_coder))))))

tunnel_coder : Coder Tunnel
tunnel_coder =
    via_coder
      (λ (t : Tunnel). (
        t.private_key,
        (t.public_key, (t.preshared_key, (t.address, (t.endpoint, (t.dns, (t.mtu, t.keepalive)))))),
      ))
      (λ t. record {
        private_key = t.0;
        public_key = t.1.0;
        preshared_key = t.1.1.0;
        address = t.1.1.1.0;
        endpoint = t.1.1.1.1.0;
        dns = t.1.1.1.1.1.0;
        mtu = t.1.1.1.1.1.1.0;
        keepalive = t.1.1.1.1.1.1.1;
      })
      (λ t. refl)
      (pair_coder text_coder (
        pair_coder text_coder (
          pair_coder text_coder (
            pair_coder text_coder
              (pair_coder text_coder (pair_coder text_coder (pair_coder nat_coder nat_coder)))))))

saved_coder : Coder WireguardProfile
unfolding tunnel_coder
saved_coder =
    via_coder (λ (p : WireguardProfile). (p.id, (p.name, p.tunnel)))
      (λ t. record { id = t.0; name = t.1.0; tunnel = t.1.1 }) (λ p. refl)
      (pair_coder nat_coder (pair_coder text_coder tunnel_coder))

wireguard_coder : Coder WireguardSettings
unfolding tunnel_coder saved_coder
wireguard_coder =
    via_coder
      (λ (s : WireguardSettings).
        (s.revision, (s.enabled, (s.mode, (s.macs, (s.tunnel, (s.profiles, s.active_profile)))))))
      (λ t. record {
        revision = t.0;
        enabled = t.1.0;
        mode = t.1.1.0;
        macs = t.1.1.1.0;
        tunnel = t.1.1.1.1.0;
        profiles = t.1.1.1.1.1.0;
        active_profile = t.1.1.1.1.1.1;
      })
      (λ s. refl)
      (pair_coder nat_coder (
        pair_coder bool_coder (
          pair_coder text_coder (
            pair_coder (list_coder text_coder) (
              pair_coder (option_coder tunnel_coder)
                (pair_coder (list_coder saved_coder) (option_coder nat_coder)))))))

no_rest : (t : Text) → t ++ [] ≡ t
no_rest [] = refl
no_rest (x ∷ t) = ap (λ (u : Text). x ∷ u) (no_rest t)

read_back : {A : Type 0} (k : Coder A) (a : A) → whole (k.read (k.write a)) ≡ some a
read_back k a =
    subst (λ t. whole (k.read t) ≡ some a) (no_rest (k.write a)) (ap whole (k.again a []))

-- A configuration with one node.
abbrev node : Value
node = object (field (codes "type") (string (codes "socks")) end)

abbrev imported : Value
imported = object (field (codes "outbounds") (array (cons node nil)) end)

-- 32 bytes, as SHA-256 gives.
abbrev digest_bytes : Text → Text
digest_bytes t = length t ∷ codes "-------------------------------"

abbrev singbox_codec : Singbox.Codec
singbox_codec = record {
  hash = digest_bytes;
  decode = λ t. some imported;
  decode_settings = λ t. whole (settings_coder.read t);
  encode_settings = settings_coder.write;
  now = 7;
  secret = codes "s";
}

abbrev wireguard_codec : Wireguard.Codec
wireguard_codec = record {
  decode_settings = λ t. whole (wireguard_coder.read t);
  encode_settings = wireguard_coder.write;
}

-- The files of both gateways, and what the directory of the profiles lists.
record Router : Type 0 where
  box : Read
  guard : Read
  blobs : Text → Option Text
  names : List Text

abbrev nothing : {W : Type 0} → W → Result Text (Unit {0}) × W
nothing w = (ok tt, w)

abbrev removed : Text → Router → Router
removed name w = record w { blobs = λ n. if text_eq name n then none else w.blobs n }

-- `release` is whether the guard can be released.
abbrev box_device : Bool → Singbox.Device Router
box_device release = record {
  files = λ w. record {
    config = w.box;
    blobs = w.blobs;
    other = wireguard_enabled wireguard_codec w.guard;
  };
  write_config = λ b w. (ok tt, record w { box = bytes b });
  write_blob = λ name t w.
      (ok tt, record w { blobs = SingboxLaws.put name t w.blobs; names = name ∷ w.names });
  list_blobs = λ w. w.names;
  remove_blob = removed;
  ensure_dirs = nothing;
  check = λ v. nothing;
  download = λ url w. (ok (codes "{}"), w);
  prerequisites = nothing;
  write_run = λ v. nothing;
  stop_child = λ w. w;
  start_child = nothing;
  is_owned = λ w. false;
  claim_resources = nothing;
  cleanup = nothing;
  policy = λ mode macs. nothing;
  hold = nothing;
  release = λ w. (if release then ok tt else err (codes "busy"), w);
  set_error = λ e w. w;
}

abbrev guard_device : Wireguard.Device Router
guard_device = record {
  files = λ w. record { config = w.guard; other = singbox_enabled singbox_codec w.box };
  write_config = λ b w. (ok tt, record w { guard = bytes b });
  ensure_dir = nothing;
  has_kernel = λ w. true;
  has_tools = λ w. true;
  write_peer = λ b. nothing;
  add_link = nothing;
  set_peer = nothing;
  add_address = λ a. nothing;
  set_up = λ n. nothing;
  loosen_check = nothing;
  is_owned = λ w. false;
  claim_resources = nothing;
  cleanup = nothing;
  policy = λ mode macs dns. nothing;
  hold = nothing;
  release = nothing;
  set_error = λ e w. w;
}

abbrev empty_router : Router
empty_router = record { box = not_found; guard = not_found; blobs = λ n. none; names = [] }

other_kept : (b : Bool) (x : Option Text) → b ≡ false → (if b then none else x) ≡ x
other_kept b x h = ground (arith, h)

box-Laws : (release : Bool) → SingboxLaws.Laws (box_device release)
box-Laws release = record {
  config_ok = λ b w h. refl;
  config_any = λ b w. inr refl;
  blob_ok = λ name t w h. refl;
  blob_any = λ name t w. inr refl;
  removed_config = λ name w. refl;
  removed_other = λ name w. refl;
  removed_blobs = λ name n w h. other_kept (text_eq name n) (w.blobs n) h;
  quiet_dirs = λ w. refl;
  quiet_check = λ v w. refl;
  quiet_download = λ url w. refl;
  quiet_prerequisites = λ w. refl;
  quiet_run = λ v w. refl;
  quiet_stop = λ w. refl;
  quiet_start = λ w. refl;
  quiet_claim = λ w. refl;
  quiet_cleanup = λ w. refl;
  quiet_policy = λ mode macs w. refl;
  quiet_hold = λ w. refl;
  quiet_release = λ w. refl;
  quiet_error = λ e w. refl;
}

guard-Laws : WireguardLaws.Laws guard_device
guard-Laws = record {
  config_ok = λ b w h. refl;
  config_any = λ b w. inr refl;
  quiet_dir = λ w. refl;
  quiet_peer = λ b w. refl;
  quiet_link = λ w. refl;
  quiet_set = λ w. refl;
  quiet_address = λ a w. refl;
  quiet_up = λ n w. refl;
  quiet_check = λ w. refl;
  quiet_claim = λ w. refl;
  quiet_cleanup = λ w. refl;
  quiet_policy = λ mode macs dns w. refl;
  quiet_hold = λ w. refl;
  quiet_release = λ w. refl;
  quiet_error = λ e w. refl;
}

linked : IsLinked singbox_codec (box_device true) wireguard_codec guard_device
linked = record { singbox_sees = λ w. refl; wireguard_sees = λ w. refl }

-- Saving a profile.
abbrev saving_one : Update
saving_one = record {
  expected_revision = 0;
  enabled = none;
  mode = none;
  macs = none;
  devices = none;
  profile = some (save (codes "home") (codes "{}"));
}

abbrev after_saving : Router
after_saving = (Singbox.update singbox_codec (box_device true) saving_one empty_router).1

singbox-IsFaithful : IsFaithful singbox_codec
singbox-IsFaithful s = read_back settings_coder s

wireguard-IsFaithful :
    (s : WireguardSettings)
    → wireguard_codec.decode_settings (wireguard_codec.encode_settings s) ≡ some s
wireguard-IsFaithful s = read_back wireguard_coder s

none_enabled :
    AreExclusive singbox_codec (box_device true) wireguard_codec guard_device empty_router
unfolding singbox_enabled load
none_enabled = refl

-- It is accepted.
saved_one : is_ok (Singbox.update singbox_codec (box_device true) saving_one empty_router).0 ≡ true
unfolding Singbox.update Singbox.settle load validate edited same_network check_profiles
    profile_name profile_edit add_profile next_id max_id inspect hex_encode trim runtime build
    finish grouped assembled cleaned scan scan_one without with_entry entry index forbidden
    forbidden_items forbidden_fields is_forbidden ends_with text_eq find_item non_nodes items_of
    append_items validate_selection dedup sort commit_change
saved_one = refl

-- An update that enables the saved profile, and one that would enable the guard as well.
abbrev enabling : Update
enabling = record saving_one { expected_revision = 1; enabled = some true; profile = none }

abbrev after_enabling : Router
after_enabling = (Singbox.update singbox_codec (box_device true) enabling after_saving).1

abbrev guarding : WireguardUpdate
guarding = record {
  enabled = some true;
  mode = none;
  macs = none;
  config_text = none;
  expected_revision = some 0;
  devices = none;
  profile = none;
}

Updates-exclusive_example :
    AreExclusive singbox_codec
      (box_device true)
      wireguard_codec
      guard_device
      (Wireguard.update wireguard_codec guard_device guarding after_enabling).1
Updates-exclusive_example =
    Updates-exclusive singbox_codec (box_device true) wireguard_codec guard_device linked
      (box-Laws true) guard-Laws singbox-IsFaithful wireguard-IsFaithful
      (then_wireguard empty_router after_enabling guarding (
        then_singbox empty_router after_saving enabling
          (then_singbox empty_router empty_router saving_one (done empty_router))))
      none_enabled

empty-IsSound : IsSound singbox_codec ((box_device true).files empty_router)
unfolding load
empty-IsSound s h =
    let same : default ≡ s = ground (arith, h) in
    subst (IsWhole singbox_codec ((box_device true).files empty_router)) same tt

update-IsSound_example :
    (IsSound singbox_codec ((box_device true).files after_saving)
      × ((((box_device true).files after_saving).config
            ≡ ((box_device true).files empty_router).config)
          ⊎ ((old : Settings) × (next : Settings) × IsEdit singbox_codec saving_one
                ((box_device true).files empty_router)
                old
                next
              × (((box_device true).files after_saving).config
                  ≡ bytes (singbox_codec.encode_settings next)))))
    ⊎ ((e : Singbox.Outcome) × ((Singbox.update singbox_codec
            (box_device true)
            saving_one
            empty_router).0
          ≡ err e)
        × (old : Settings) × (next : Settings) × IsEdit singbox_codec saving_one
            ((box_device true).files empty_router)
            old
            next
        × (((box_device true).files after_saving).config
            ≡ bytes (singbox_codec.encode_settings next))
        × IsWhole singbox_codec ((box_device true).files after_saving) old)
update-IsSound_example =
    update-IsSound singbox_codec (box_device true) (box-Laws true) singbox-IsFaithful saving_one
      empty_router empty-IsSound

-- A profile that is refreshed, on a router whose guard is stuck.
abbrev with_digest : Text → Settings
with_digest d = record default {
  profiles =
      record {
        id = 1;
        name = codes "home";
        url = some (codes "http://a");
        digest = d;
        nodes = 1;
        updated = 7;
      }
      ∷ [];
  active_profile = some 1;
}

abbrev stuck : Router
stuck = record empty_router { names = codes "old.json" ∷ codes "new.json" ∷ [] }

gone_at : (name : Text) (x : Option Text) → (if text_eq name name then none else x) ≡ none
gone_at name x = rw (text_eq_refl name) refl

carry_out-lost_example :
    ((Singbox.carry_out singbox_codec
        (box_device false)
        (with_digest (codes "old"))
        (with_digest (codes "new"))
        true
        stuck).0
      ≡ err (plain (Singbox.device (codes "busy"))))
    × (((box_device false).files
          (Singbox.carry_out singbox_codec
            (box_device false)
            (with_digest (codes "old"))
            (with_digest (codes "new"))
            true
            stuck).1).config
        ≡ bytes (singbox_codec.encode_settings (with_digest (codes "new"))))
    × (¬ IsWhole singbox_codec
        ((box_device false).files
          (Singbox.carry_out singbox_codec
            (box_device false)
            (with_digest (codes "old"))
            (with_digest (codes "new"))
            true
            stuck).1)
        (with_digest (codes "new")))
unfolding Singbox.apply Singbox.install Singbox.persist text_eq
carry_out-lost_example =
    carry_out-lost singbox_codec (box_device false) (box-Laws false)
      (λ name w. gone_at name (w.blobs name)) (with_digest (codes "old"))
      (with_digest (codes "new")) (codes "new.json") (codes "busy") stuck refl refl refl refl refl
      refl refl
