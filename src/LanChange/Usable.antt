-- ===== src/LanChange/Usable.antt =====
-- agent/src/router.rs: the LAN settings that pass `validate_lan_settings`.
use mu5250_wireguard.Base.{
  ℕ, ◌+◌, ◌-◌, ◌*◌, ◌%◌, ◌^◌, ◌≤◌, ◌<◌, ◌≡◌, ◌⊎◌, inl, inr, refl, sym, ap, subst, ◌∙◌, ◌==◌, ltb,
  leb, not, ◌&&◌, Bool, true, false, arith, ok, ensure, ◌>>=◌, Bool-cases,
}
use mu5250_wireguard.LanChange.Bits.{bitand, bitor, count_ones, word}
use mu5250_wireguard.LanChange.Settings.{
  check_range, not_contiguous, not_host, out_of_subnet, not_ascending, includes_router, lease_range,
}
use mu5250_wireguard.LanChange.Subnet.{
  one_le_pow, pow_of, count_ones_mask, bitand_mask, bitor_mask, bitand_mask_aligned,
}

-- A block of `2 ^ k` addresses from a multiple of its length on, in which the router's address and
-- the range of DHCP are neither the first nor the last one, the range ascends and leaves the
-- router's address out, and the lease is one of 60 s to a week.
abbrev pub IsUsable : (ip mask start last lease : ℕ) → Type 0
IsUsable ip mask start last lease =
    (k n q : ℕ) × (2 ≤ k)
    × (k ≤ 24)
    × (mask + 2 ^ k ≡ 2 ^ 32)
    × (n ≡ q * 2 ^ k)
    × (n < ip)
    × (ip + 1 < n + 2 ^ k)
    × (n < start)
    × (start < last)
    × (last + 1 < n + 2 ^ k)
    × ((ip < start) ⊎ (last < ip))
    × (60 ≤ lease)
    × (lease ≤ 604800)

-- Six checks in a row that pass.
all_ensured :
    {E : Type 0} (a b c d e f : Bool) (p q r s t u : E)
    → (ensure a p >>= λ _.
        ensure b q >>= λ _. ensure c r >>= λ _. ensure d s >>= λ _. ensure e t >>= λ _. ensure f u)
      ≡ ok tt
    → (a ≡ true) × (b ≡ true) × (c ≡ true) × (d ≡ true) × (e ≡ true) × (f ≡ true)
all_ensured true true true true true true p q r s t u h = (refl, refl, refl, refl, refl, refl)
all_ensured false b c d e f p q r s t u h = absurd (cc)
all_ensured true false c d e f p q r s t u h = absurd (cc)
all_ensured true true false d e f p q r s t u h = absurd (cc)
all_ensured true true true false e f p q r s t u h = absurd (cc)
all_ensured true true true true false f p q r s t u h = absurd (cc)
all_ensured true true true true true false p q r s t u h = absurd (cc)

count_ones-zero : count_ones 32 0 ≡ 0
unfolding count_ones
count_ones-zero = refl

-- The mask that passes is that of a block.
mask_of :
    (mask : ℕ)
    → mask < 2 ^ 32
    → bitand 32 (4294967295 - mask) ((4294967295 - mask + 1) % 4294967296) ≡ 0
    → 8 ≤ count_ones 32 mask
    → count_ones 32 mask ≤ 30
    → (k : ℕ) × (2 ≤ k) × (k ≤ 24) × (mask + 2 ^ k ≡ 2 ^ 32)
mask_of mask lt trick low high = elim (Bool-cases (mask == 0)) [
  | inl e ↦
      let none_set : mask ≡ 0 = ground (arith, e) in
      absurd (omega (arith, low, count_ones-zero, ap (count_ones 32) none_set))
  | inr e ↦
      let some_set : 1 ≤ mask = ground (arith, e) in
      let n = 4294967295 - mask in
      let whole : (n + 1) % 4294967296 ≡ n + 1 = omega (arith, some_set, lt) in
      let (k, small, same) =
        pow_of 32 n (omega (arith, some_set, lt)) (sym (ap (bitand 32 n) whole) ∙ trick) in
      let mask_is : mask ≡ 2 ^ 32 - 2 ^ k = omega (arith, same, lt) in
      let ones = count_ones_mask 32 k (omega (arith, small)) in
      let count = ap (count_ones 32) mask_is in
      (
        k,
        omega (arith, ones, count, high),
        omega (arith, ones, count, low),
        omega (arith, same, lt),
      )
]

-- The network and the broadcast address of a router.
block :
    (k ip mask : ℕ)
    → ip < 2 ^ 32
    → k ≤ 24
    → mask + 2 ^ k ≡ 2 ^ 32
    → (bitand 32 ip mask ≤ ip)
      × (ip < bitand 32 ip mask + 2 ^ k)
      × (bitor 32 (bitand 32 ip mask) (4294967295 - mask) + 1 ≡ bitand 32 ip mask + 2 ^ k)
      × (q : ℕ) × (bitand 32 ip mask ≡ q * 2 ^ k)
block k ip mask lt le sum =
    let mask_is : 2 ^ 32 - 2 ^ k ≡ mask = omega (arith, sum) in
    let inverse_is : 2 ^ k - 1 ≡ 4294967295 - mask = omega (arith, sum) in
    let (low, high) = bitand_mask 32 k ip lt (omega (arith, le)) in
    let (q, aligned) = bitand_mask_aligned 32 k ip (omega (arith, le)) in
    let top = bitor_mask 32 k ip lt (omega (arith, le)) in
    let net = ap (bitand 32 ip) mask_is in
    let top_is : bitor 32 (bitand 32 ip mask) (4294967295 - mask)
        ≡ bitand 32 ip mask + (2 ^ k - 1) =
      subst (λ m. bitor 32 (bitand 32 ip m) (4294967295 - mask) ≡ bitand 32 ip m + (2 ^ k - 1))
        mask_is (ap (bitor 32 (bitand 32 ip (2 ^ 32 - 2 ^ k))) (sym inverse_is) ∙ top) in
    (
      omega (arith, low, net),
      omega (arith, high, net),
      omega (arith, top_is, low, high, one_le_pow k),
      q,
      sym net ∙ aligned,
    )

-- Let the router's address, the mask and the two ends of the range be 32-bit numbers that, with the
-- lease, pass the checks. Then the mask is that of a block of `2 ^ k` addresses, `k` from 2 to 24,
-- which begins at a multiple of its length; the router's address and the range lie in the block and
-- contain neither its first nor its last address; the range ascends and leaves the router's address
-- out; and the lease is one of 60 to 604,800 seconds.
pub check_range-IsUsable :
    (ip mask start last lease : ℕ)
    → ip < 2 ^ 32
    → mask < 2 ^ 32
    → start < 2 ^ 32
    → last < 2 ^ 32
    → check_range ip mask start last lease ≡ ok tt
    → IsUsable ip mask start last lease
unfolding check_range word
check_range-IsUsable ip mask start last lease a b c d h =
    let inverse = 4294967295 - mask in
    let network = bitand 32 ip mask in
    let broadcast = bitor 32 network inverse in
    let (contiguous, host, inside, ascending, apart, lasting) =
      all_ensured
        (bitand 32 inverse ((inverse + 1) % word) == 0
          && leb 8 (count_ones 32 mask)
          && leb (count_ones 32 mask) 30)
        (not (ip == network) && not (ip == broadcast))
        (bitand 32 start mask == network && bitand 32 last mask == network)
        (ltb start last && not (start == network) && not (last == broadcast))
        (not (leb start ip && leb ip last)) (leb 60 lease && leb lease 604800) not_contiguous
        not_host out_of_subnet not_ascending includes_router lease_range h in
    let trick : bitand 32 (4294967295 - mask) ((4294967295 - mask + 1) % 4294967296) ≡ 0 =
      ground (arith, contiguous) in
    let (k, two, most, sum) =
      mask_of mask b trick (ground (arith, contiguous)) (ground (arith, contiguous)) in
    let (low, high, top, q, aligned) = block k ip mask a most sum in
    let (start_low, start_high, start_top, start_q, start_aligned) =
      block k start mask c most sum in
    let (last_low, last_high, last_top, last_q, last_aligned) = block k last mask d most sum in
    let start_in : bitand 32 start mask ≡ network = ground (arith, inside) in
    let last_in : bitand 32 last mask ≡ network = ground (arith, inside) in
    (
      k,
      network,
      q,
      two,
      most,
      sum,
      aligned,
      ground (arith, host, low),
      ground (arith, host, high, top),
      ground (arith, ascending, start_low, start_in),
      ground (arith, ascending),
      ground (arith, ascending, last_high, last_in, top),
      elim (Bool-cases (leb start ip)) [
        | inl e ↦ inr (ground (arith, apart, e))
        | inr e ↦ inl (ground (arith, e))
      ],
      ground (arith, lasting),
      ground (arith, lasting),
    )
