-- ===== src/LanChange/Valid.antt =====
-- agent/src/router.rs: what `validate_lan_settings` accepts.
use mu5250_wireguard.Base.{◌<◌, ◌^◌, ◌≡◌, inl, inr, true, arith, ok, Bool-cases, Option-cases, some}
use mu5250_wireguard.Base.Ipv4.{Ipv4, parse_ipv4, IsOctets, parse_ipv4-IsOctets}
use mu5250_wireguard.LanChange.Settings.{
  LanSettings, validate_lan_settings, number_of, is_private, check_range,
}
use mu5250_wireguard.LanChange.Usable.{IsUsable, check_range-IsUsable}

number_of-lt : (i : Ipv4) → IsOctets i → number_of i < 2 ^ 32
unfolding number_of
number_of-lt i (a, b, c, d) = omega (arith, a, b, c, d)

-- Settings that pass the validation have four addresses that are read, the router's in a private
-- network, and their numbers are those of a usable subnet: the mask is that of a block of `2 ^ k`
-- addresses, `k` from 2 to 24, which begins at a multiple of its length; the router's address and
-- the range lie in the block and contain neither its first nor its last address; the range ascends
-- and leaves the router's address out; and the lease is one of 60 to 604,800 seconds.
pub validate_lan_settings-IsUsable :
    (s : LanSettings)
    → validate_lan_settings s ≡ ok tt
    → (ip mask start last : Ipv4) × (parse_ipv4 s.ipaddr ≡ some ip)
      × (parse_ipv4 s.netmask ≡ some mask)
      × (parse_ipv4 s.dhcp_start ≡ some start)
      × (parse_ipv4 s.dhcp_end ≡ some last)
      × (is_private ip ≡ true)
      × IsUsable (number_of ip) (number_of mask) (number_of start) (number_of last) s.lease_seconds
unfolding validate_lan_settings
validate_lan_settings-IsUsable s h = elim (Option-cases (parse_ipv4 s.ipaddr)) [
  | inl a ↦ absurd (ground (arith, a, h))
  | inr (ip, a) ↦ elim (Option-cases (parse_ipv4 s.netmask)) [
    | inl b ↦ absurd (ground (arith, a, b, h))
    | inr (mask, b) ↦ elim (Option-cases (parse_ipv4 s.dhcp_start)) [
      | inl c ↦ absurd (ground (arith, a, b, c, h))
      | inr (start, c) ↦ elim (Option-cases (parse_ipv4 s.dhcp_end)) [
        | inl d ↦ absurd (ground (arith, a, b, c, d, h))
        | inr (last, d) ↦ elim (Bool-cases (is_private ip)) [
          | inr e ↦ absurd (ground (arith, a, b, c, d, e, h))
          | inl e ↦
              let passed : check_range (number_of ip) (number_of mask) (number_of start)
                    (number_of last) s.lease_seconds
                  ≡ ok tt =
                ground (arith, a, b, c, d, e, h) in
              (
                ip,
                mask,
                start,
                last,
                a,
                b,
                c,
                d,
                e,
                check_range-IsUsable (number_of ip) (number_of mask) (number_of start)
                    (number_of last) s.lease_seconds
                    (number_of-lt ip (parse_ipv4-IsOctets s.ipaddr a))
                    (number_of-lt mask (parse_ipv4-IsOctets s.netmask b))
                    (number_of-lt start (parse_ipv4-IsOctets s.dhcp_start c))
                    (number_of-lt last (parse_ipv4-IsOctets s.dhcp_end d)) passed,
              )
        ]
      ]
    ]
  ]
]
