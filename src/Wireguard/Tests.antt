-- ===== src/Wireguard/Tests.antt =====
-- Settings with one profile: a second is saved, a profile is renamed, an update goes through.
use mu5250_wireguard.Base.{
  ◌+◌, ◌^◌, ◌<◌, ◌≡◌, refl, true, false, none, some, [], ◌∷◌, Text, codes, text_eq, ok,
}
use mu5250_wireguard.Wireguard.Settings.{
  migrate, Settings, save, profile_edit, validate, profile_name, next_id, max_id,
}
use mu5250_wireguard.Wireguard.Settings.Keep.{profile_edit-validate}
use mu5250_wireguard.Wireguard.Edits.{Update, bytes, load, edited, same_network, sort, dedup, given}
use mu5250_wireguard.Wireguard.Edits.Laws.{edited-next, same_network-profile_edit, aside}
use mu5250_wireguard.Wireguard.Tunnel.{
  Tunnel, parse, validate_tunnel, key, address, endpoint, read_line,
}
use mu5250_wireguard.Lan.{validate_selection}
use mu5250_wireguard.Base.Digits.{trim, parse_uint}
use mu5250_wireguard.Base.Split.{split, first_piece, split_once, rsplit_once, lines}
use mu5250_wireguard.Base.Ipv4.{parse_ipv4, is_special}

abbrev client : Text
client =
    codes
      "# mine\n[Interface]\nPrivateKey = AAAAAAAAAAAAAAAAAAAAAAAAAAAAAAAAAAAAAAAAAAB=\nAddress = 10.7.0.2/32, fd00::2/128\nDNS = 9.9.9.9\n[Peer]\nPublicKey=BAAAAAAAAAAAAAAAAAAAAAAAAAAAAAAAAAAAAAAAAAB=\nEndpoint = vpn.example.org:51820\nAllowedIPs = ::/0, 0.0.0.0/0\n"

abbrev tunnel : Tunnel
tunnel = record {
  private_key = codes "AAAAAAAAAAAAAAAAAAAAAAAAAAAAAAAAAAAAAAAAAAB=";
  public_key = codes "BAAAAAAAAAAAAAAAAAAAAAAAAAAAAAAAAAAAAAAAAAB=";
  preshared_key = [];
  address = codes "10.7.0.2/32";
  endpoint = codes "vpn.example.org:51820";
  dns = codes "9.9.9.9";
  mtu = 1280;
  keepalive = 25;
}

client_parsed : parse client ≡ ok tunnel
unfolding parse read_line validate_tunnel key address endpoint text_eq split first_piece split_once
    rsplit_once lines trim parse_ipv4 is_special parse_uint
client_parsed = refl

abbrev with_one : Settings
with_one = record {
  revision = 4;
  enabled = true;
  mode = codes "all";
  macs = [];
  tunnel = some tunnel;
  profiles = record { id = 3; name = codes "Home"; tunnel = tunnel } ∷ [];
  active_profile = some 3;
}

abbrev with_two : Settings
with_two = record {
  revision = 4;
  enabled = true;
  mode = codes "all";
  macs = [];
  tunnel = some tunnel;
  profiles =
      record { id = 3; name = codes "Home"; tunnel = tunnel }
      ∷ record { id = 4; name = codes "Work"; tunnel = tunnel }
      ∷ [];
  active_profile = some 3;
}

with_one_valid : validate with_one ≡ ok tt
unfolding validate profile_name trim text_eq validate_selection validate_tunnel key address endpoint
    split_once rsplit_once parse_ipv4 is_special parse_uint
with_one_valid = refl

saved : profile_edit (save (codes " Work ") client) with_one ≡ ok with_two
unfolding profile_edit profile_name next_id max_id trim text_eq
saved = rw client_parsed refl

profile_edit-validate_example : validate with_two ≡ ok tt
profile_edit-validate_example =
    profile_edit-validate (save (codes " Work ") client) with_one saved with_one_valid

same_network-profile_edit_example : same_network with_one with_two ≡ true
unfolding aside
same_network-profile_edit_example =
    same_network-profile_edit (save (codes " Work ") client) with_one refl saved

abbrev switch_off : Update
switch_off = record {
  enabled = some false;
  mode = none;
  macs = none;
  config_text = none;
  expected_revision = some 4;
  devices = none;
  profile = none;
}

abbrev off : Settings
off = record {
  revision = 5;
  enabled = false;
  mode = codes "all";
  macs = [];
  tunnel = some tunnel;
  profiles = record { id = 3; name = codes "Home"; tunnel = tunnel } ∷ [];
  active_profile = some 3;
}

switched_off : edited with_one switch_off ≡ ok off
unfolding edited migrate sort dedup validate profile_name trim text_eq validate_selection
    validate_tunnel key address endpoint split_once rsplit_once parse_ipv4 is_special parse_uint
switched_off = refl

edited-next_example :
    (validate off ≡ ok tt) × (5 ≡ with_one.revision + 1) × (5 < 2 ^ 64) × (given (some 4) 4 ≡ true)
edited-next_example = edited-next with_one switch_off switched_off

loaded : load (λ b. some with_one) (bytes (codes "{}")) ≡ ok with_one
unfolding load migrate
loaded = rw with_one_valid refl
