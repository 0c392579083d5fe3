-- ===== src/LanChange/Settings.antt =====
-- agent/src/lan.rs: the LAN settings, and agent/src/router.rs: `validate_lan_settings`.
use mu5250_wireguard.Base.Ipv4.{Ipv4, parse_ipv4}
use mu5250_wireguard.Base.{
  text_eq_iff, Bool-cases, inl, inr, sym, ◌∙◌, refl, ◌≡◌, true, arith, ℕ, ◌+◌, ◌-◌, ◌*◌, ◌%◌, Bool,
  not, ◌&&◌, ◌||◌, ◌==◌, Text, text_eq, Result, leb, ltb,
}
use mu5250_wireguard.Base.{
  ok_or, bool_eq, ℕ, ◌+◌, ◌-◌, ◌*◌, ◌%◌, Bool, not, ◌&&◌, ◌||◌, ◌==◌, Text, text_eq, Result, leb,
  ltb,
}
use mu5250_wireguard.Base.{ensure, ◌>>=◌}
use mu5250_wireguard.LanChange.Bits.{count_ones, bitor, bitand, word}

pub record LanSettings : Type 0 where
  pub ipaddr : Text
  pub netmask : Text
  pub dhcp_enabled : Bool
  pub dhcp_start : Text
  pub dhcp_end : Text
  pub lease_seconds : ℕ

-- The derived `==`.
unfoldable pub settings_eq : LanSettings → LanSettings → Bool
settings_eq s t =
    text_eq s.ipaddr t.ipaddr
    && text_eq s.netmask t.netmask
    && bool_eq s.dhcp_enabled t.dhcp_enabled
    && text_eq s.dhcp_start t.dhcp_start
    && text_eq s.dhcp_end t.dhcp_end
    && s.lease_seconds == t.lease_seconds

pub data Invalid : Type 0 where
  invalid_address invalid_netmask invalid_start invalid_end : Invalid
  not_private not_contiguous not_host out_of_subnet not_ascending includes_router : Invalid
  lease_range : Invalid

-- `u32::from`
unfoldable pub number_of : Ipv4 → ℕ
number_of i = ((i.first * 256 + i.second) * 256 + i.third) * 256 + i.fourth

-- `Ipv4Addr::is_private`
unfoldable pub is_private : Ipv4 → Bool
is_private i =
    i.first == 10
    || (i.first == 172 && leb 16 i.second && leb i.second 31)
    || (i.first == 192 && i.second == 168)

-- The checks of the four numbers and of the lease.
unfoldable pub check_range : (ip mask start last lease : ℕ) → Result Invalid (Unit {0})
unfolding word
check_range ip mask start last lease =
    let inverse = 4294967295 - mask in
    let network = bitand 32 ip mask in
    let broadcast = bitor 32 network inverse in
    do
      _ ←
          ensure
            (bitand 32 inverse ((inverse + 1) % word) == 0
              && leb 8 (count_ones 32 mask)
              && leb (count_ones 32 mask) 30)
            not_contiguous
      _ ← ensure (not (ip == network) && not (ip == broadcast)) not_host
      _ ← ensure (bitand 32 start mask == network && bitand 32 last mask == network) out_of_subnet
      _ ← ensure (ltb start last && not (start == network) && not (last == broadcast)) not_ascending
      _ ← ensure (not (leb start ip && leb ip last)) includes_router
      ensure (leb 60 lease && leb lease 604800) lease_range

unfoldable pub validate_lan_settings : LanSettings → Result Invalid (Unit {0})
validate_lan_settings s = do
  ip ← ok_or (parse_ipv4 s.ipaddr) invalid_address
  mask ← ok_or (parse_ipv4 s.netmask) invalid_netmask
  start ← ok_or (parse_ipv4 s.dhcp_start) invalid_start
  last ← ok_or (parse_ipv4 s.dhcp_end) invalid_end
  _ ← ensure (is_private ip) not_private
  check_range (number_of ip) (number_of mask) (number_of start) (number_of last) s.lease_seconds

-- The derived equality is equality.
pub settings_eq-eq : (s t : LanSettings) → settings_eq s t ≡ true → s ≡ t
unfolding settings_eq
settings_eq-eq s t h =
    let a : s.ipaddr ≡ t.ipaddr = (text_eq_iff s.ipaddr t.ipaddr).0 (ground arith) in
    let b : s.netmask ≡ t.netmask = (text_eq_iff s.netmask t.netmask).0 (ground arith) in
    let c : s.dhcp_enabled ≡ t.dhcp_enabled = elim (Bool-cases s.dhcp_enabled) [
      | inl e ↦ elim (Bool-cases t.dhcp_enabled) [
        | inl f ↦ e ∙ sym f
        | inr f ↦ absurd (ground (arith, e, f, h))
      ]
      | inr e ↦ elim (Bool-cases t.dhcp_enabled) [
        | inl f ↦ absurd (ground (arith, e, f, h))
        | inr f ↦ e ∙ sym f
      ]
    ] in
    let d : s.dhcp_start ≡ t.dhcp_start =
      (text_eq_iff s.dhcp_start t.dhcp_start).0 (ground arith) in
    let e : s.dhcp_end ≡ t.dhcp_end = (text_eq_iff s.dhcp_end t.dhcp_end).0 (ground arith) in
    let f : s.lease_seconds ≡ t.lease_seconds = ground arith in rw (a, b, c, d, e, f) refl
