-- ===== src/Wireguard/Tunnel.antt =====
-- agent/src/wireguard.rs: a tunnel, its checks, and the reader of a client configuration.
pub mod Peers
use mu5250_wireguard.Base.{
  String, ◌>>=◌, ℕ, ◌+◌, Bool, true, false, not, ◌&&◌, ◌||◌, Option, none, some, List, [], ◌∷◌, map,
  ◌==◌, if◌then◌else◌, Text, codes, text_eq, Result, ok, err, leb, ltb, length, any, all, find, ◌≡◌,
  inl, inr, arith, Result-cases, zero, suc, ◌-◌, ◌*◌, ◌/◌, ◌%◌, ◌^◌, ◌≤◌, ◌<◌, ◌≢◌, ◌↔◌, ◌⊎◌, ◌∙◌,
  refl, sym, ap, subst, ◌++◌, retain, All, Bool-cases, Option-cases,
}
use mu5250_wireguard.Base.Digits.{is_alphanumeric, trim, parse_u8, parse_u16}
use mu5250_wireguard.Base.Split.{split, first_piece, split_once, rsplit_once, lines}
use mu5250_wireguard.Base.Ipv4.{parse_ipv4, is_special}

pub record Tunnel : Type 0 where
  pub private_key : Text
  pub public_key : Text
  pub preshared_key : Text
  pub address : Text
  pub endpoint : Text
  pub dns : Text
  pub mtu : ℕ
  pub keepalive : ℕ

-- The messages of the checks and of the reader; `duplicate` and `unsupported` name the field.
pub data Error : Type 0 where
  invalid_key invalid_address invalid_dns invalid_mtu_range : Error
  too_long invalid_line address_required dns_required invalid_mtu invalid_keepalive one_peer : Error
  duplicate unsupported : Text → Error

-- The last byte is `=`, and the bytes in front of it are base64.
abbrev key_bytes : Text → Bool
key_bytes [] = false
key_bytes (b ∷ []) = b == b'='
key_bytes (b ∷ c ∷ s) = (is_alphanumeric b || b == b'+' || b == b'/') && key_bytes (c ∷ s)

unfoldable pub key : Text → Bool
key s = (length s == 44) && key_bytes s && any (λ b. not (b == b'A') && not (b == b'=')) s

abbrev host_address : Text → Bool
host_address ip = elim (parse_ipv4 ip) [ none ↦ false | some i ↦ not (is_special i) ]

abbrev in_1_to : ℕ → Option ℕ → Bool
in_1_to top none = false
in_1_to top (some p) = leb 1 p && leb p top

unfoldable pub address : Text → Bool
address s = elim (split_once b'/' s) [
  | none ↦ false
  | some (ip, prefix) ↦ host_address ip && in_1_to 32 (parse_u8 prefix)
]

abbrev starts_dash : Text → Bool
starts_dash [] = false
starts_dash (b ∷ s) = b == b'-'

abbrev pub is_empty {ℓ} : {A : Type ℓ} → List A → Bool
is_empty [] = true
is_empty (b ∷ s) = false

abbrev host : Text → Bool
host h =
    not (is_empty h)
    && leb (length h) 253
    && not (starts_dash h)
    && all (λ b. is_alphanumeric b || b == b'.' || b == b'-') h

unfoldable pub endpoint : Text → Bool
endpoint s = elim (rsplit_once b':' s) [
  | none ↦ false
  | some (h, port) ↦ host h && in_1_to 65535 (parse_u16 port)
]

unfoldable pub validate_tunnel : Tunnel → Result Error (Unit {0})
validate_tunnel t =
    if not (key t.private_key)
      || not (key t.public_key)
      || (not (is_empty t.preshared_key) && not (key t.preshared_key))
    then err invalid_key
    else if not (address t.address) || not (endpoint t.endpoint)
    then err invalid_address
    else if not (host_address t.dns)
    then err invalid_dns
    else if not (leb 1280 t.mtu && leb t.mtu 1380)
    then err invalid_mtu_range
    else ok tt

-- The section that a line stands in; `none` in front of the first header.
pub data Section : Type 0 where
  outside interface peer : Section

abbrev section_eq : Section → Section → Bool
section_eq outside outside = true
section_eq interface interface = true
section_eq peer peer = true
section_eq _ _ = false

-- The variables of the loop of `parse`.
pub record Reader : Type 0 where
  pub tunnel : Tunnel
  pub section : Section
  pub peers : ℕ
  pub allowed : Bool
  pub seen : List (Section × Text)

abbrev set_tunnel : Reader → Tunnel → Reader
set_tunnel r t = record r { tunnel = t }

-- The first of the trimmed pieces between commas that passes the test.
abbrev first_of_list : (Text → Bool) → Text → Option Text
first_of_list p value = find p (map trim (split b',' value))

abbrev is_ipv4 : Text → Bool
is_ipv4 s = elim (parse_ipv4 s) [ none ↦ false | some i ↦ true ]

abbrev named : Text → String → Bool
named name literal = text_eq name (codes literal)

interface_field : Text → Text → Reader → Result Error Reader
interface_field name value r =
    if named name "PrivateKey"
    then ok (set_tunnel r (record t { private_key = value }))
    else if named name "Address"
    then elim (first_of_list address value) [
      | none ↦ err address_required
      | some a ↦ ok (set_tunnel r (record t { address = a }))
    ]
    else if named name "DNS"
    then elim (first_of_list is_ipv4 value) [
      | none ↦ err dns_required
      | some a ↦ ok (set_tunnel r (record t { dns = a }))
    ]
    else if named name "MTU"
    then elim (parse_u16 value) [
      | none ↦ err invalid_mtu
      | some n ↦ ok (set_tunnel r (record t { mtu = n }))
    ]
    else err (unsupported name)
  where
    t : Tunnel
    t = r.tunnel

peer_field : Text → Text → Reader → Result Error Reader
peer_field name value r =
    if named name "PublicKey"
    then ok (set_tunnel r (record t { public_key = value }))
    else if named name "PresharedKey"
    then ok (set_tunnel r (record t { preshared_key = value }))
    else if named name "Endpoint"
    then ok (set_tunnel r (record t { endpoint = value }))
    else if named name "PersistentKeepalive"
    then elim (parse_u16 value) [
      | none ↦ err invalid_keepalive
      | some n ↦ ok (set_tunnel r (record t { keepalive = n }))
    ]
    else if named name "AllowedIPs"
    then ok (record r { allowed = any (λ v. named (trim v) "0.0.0.0/0") (split b',' value) })
    else err (unsupported name)
  where
    t : Tunnel
    t = r.tunnel

-- The `match` on the section and the name.
field : Section → Text → Text → Reader → Result Error Reader
unfolding interface_field peer_field
field interface name value r = interface_field name value r
field peer name value r = peer_field name value r
field outside name value r = err (unsupported name)

abbrev was_seen : Section → Text → List (Section × Text) → Bool
was_seen s n = any (λ p. section_eq p.0 s && text_eq p.1 n)

pub assignment : Option (Text × Text) → Reader → Result Error Reader
assignment none r = err invalid_line
assignment (some (left, right)) r =
    let name = trim left in
    if was_seen r.section name r.seen
    then err (duplicate name)
    else field r.section name (trim right) (record r { seen = (r.section, name) ∷ r.seen })

-- One round of the loop, on the line without its comment.
unfoldable pub read_line : Text → Reader → Result Error Reader
unfolding assignment field
read_line raw r =
    let line = trim (first_piece b'#' raw) in
    if is_empty line
    then ok r
    else if named line "[Interface]"
    then ok (record r { section = interface })
    else if named line "[Peer]"
    then ok (record r { peers = r.peers + 1; section = peer })
    else assignment (split_once b'=' line) r

pub read_lines : List Text → Reader → Result Error Reader
read_lines [] r = ok r
read_lines (l ∷ ls) r = do r' ← read_line l r; read_lines ls r'

abbrev blank : Tunnel
blank = record {
  private_key = [];
  public_key = [];
  preshared_key = [];
  address = [];
  endpoint = [];
  dns = codes "1.1.1.1";
  mtu = 1280;
  keepalive = 25;
}

abbrev reader : Reader
reader = record { tunnel = blank; section = outside; peers = 0; allowed = false; seen = [] }

-- The checks behind the loop.
pub concluded : Reader → Result Error Tunnel
concluded r =
    if not (r.peers == 1) || not r.allowed
    then err one_peer
    else (do _ ← validate_tunnel r.tunnel; ok r.tunnel)

unfoldable pub parse : Text → Result Error Tunnel
unfolding read_lines concluded
parse text =
    if ltb 16384 (length text)
    then err too_long
    else (do r ← read_lines (lines text) reader; concluded r)

-- A tunnel that was read passes the checks.
pub parse-valid : (s : Text) {t : Tunnel} → parse s ≡ ok t → validate_tunnel t ≡ ok tt
unfolding parse concluded
parse-valid s {t} h = elim (Result-cases (read_lines (lines s) reader)) [
  | inr (x, e) ↦ ground (arith, e)
  | inl (r, e) ↦ ground (arith, e)
]
