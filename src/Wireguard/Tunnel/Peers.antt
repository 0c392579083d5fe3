-- ===== src/Wireguard/Tunnel/Peers.antt =====
-- agent/src/wireguard.rs: what the reader of configurations counts.
use mu5250_wireguard.Wireguard.Tunnel.{
  Tunnel, Section, outside, interface, peer, Reader, reader, field, interface_field, peer_field,
  assignment, named, read_line, read_lines, concluded, parse, parse-valid, validate_tunnel,
  is_empty,
}
use mu5250_wireguard.Base.{
  text_eq_iff, ℕ, ◌+◌, ◌≡◌, inl, inr, refl, sym, subst, true, false, ◌||◌, Option, none, some, List,
  [], ◌∷◌, if◌then◌else◌, arith, Text, codes, ok, Result-cases, text_eq,
}
use mu5250_wireguard.Base.Digits.{trim}
use mu5250_wireguard.Base.Split.{first_piece, split_once, lines}

-- How many lines, without comment and blanks, are `[Peer]`?
pub peer_headers : List Text → ℕ
peer_headers [] = 0
peer_headers (l ∷ ls) =
    if named (trim (first_piece b'#' l)) "[Peer]" then peer_headers ls + 1 else peer_headers ls

peers-field :
    (section : Section) (name value : Text) (r : Reader) {r' : Reader}
    → field section name value r ≡ ok r'
    → r'.peers ≡ r.peers
unfolding field interface_field peer_field
peers-field outside name value r h = ground arith
peers-field interface name value r h = ground arith
peers-field peer name value r h = ground arith

peers-assignment :
    (p : Option (Text × Text)) (r : Reader) {r' : Reader}
    → assignment p r ≡ ok r'
    → r'.peers ≡ r.peers
unfolding assignment
peers-assignment none r h = ground arith
peers-assignment (some (left, right)) r {r'} h =
    let name = trim left in
    ground (
      arith,
      peers-field r.section name (trim right) (record r { seen = (r.section, name) ∷ r.seen })
          {r' = r'},
    )

-- A line that is `[Peer]` is neither empty nor `[Interface]`.
peer_line : (t : Text) → named t "[Peer]" ≡ true → (is_empty t || named t "[Interface]") ≡ false
unfolding text_eq
peer_line t h =
    subst (λ t. (is_empty t || named t "[Interface]") ≡ false)
      (sym ((text_eq_iff t (codes "[Peer]")).0 h)) refl

peers-read_lines :
    (ls : List Text) (r : Reader) {r' : Reader}
    → read_lines ls r ≡ ok r'
    → r'.peers ≡ r.peers + peer_headers ls
unfolding read_lines read_line peer_headers
peers-read_lines [] r h = ground arith
peers-read_lines (l ∷ ls) r {r'} h = elim (Result-cases (read_line l r)) [
  | inr (x, e) ↦ ground (arith, e)
  | inl (r1, e) ↦ ground (
    arith,
    e,
    peer_line (trim (first_piece b'#' l)),
    peers-assignment (split_once b'=' (trim (first_piece b'#' l))) r {r' = r1},
    peers-read_lines ls r1 {r' = r'},
  )
]

-- A configuration that is read has exactly one `[Peer]` header, and the tunnel passes the checks.
pub parse-one_peer :
    (s : Text) {t : Tunnel}
    → parse s ≡ ok t
    → (peer_headers (lines s) ≡ 1) × (validate_tunnel t ≡ ok tt)
unfolding parse concluded
parse-one_peer s {t} h = elim (Result-cases (read_lines (lines s) reader)) [
  | inr (x, e) ↦ ground (arith, e)
  | inl (r, e) ↦ ground (arith, e, peers-read_lines (lines s) reader e, parse-valid s h)
]
