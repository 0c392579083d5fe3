-- ===== src/LanChange/Subnet.antt =====
-- agent/src/router.rs: the operations on bits of `validate_lan_settings` are arithmetic on a block of
-- addresses.
use mu5250_wireguard.Base.{
  ℕ, zero, suc, ◌+◌, ◌-◌, ◌*◌, ◌/◌, ◌%◌, ◌^◌, ◌≤◌, ◌<◌, ◌≡◌, ◌⊎◌, inl, inr, refl, ap, subst, arith,
  ◌∙◌,
}
use mu5250_wireguard.LanChange.Bits.{bitor, bitand, count_ones}

pub one_le_pow : (j : ℕ) → 1 ≤ 2 ^ j
one_le_pow zero = omega arith
one_le_pow (suc j) = omega (arith, one_le_pow j)

parity : (n : ℕ) → (n % 2 ≡ 0) ⊎ (n % 2 ≡ 1)
parity n = ground arith

-- A step of `bitand` at an even second argument, and at an odd one.
bitand_even : (w a b : ℕ) → b % 2 ≡ 0 → bitand (suc w) a b ≡ 2 * bitand w (a / 2) (b / 2)
unfolding bitand
bitand_even w a b e = rw e (omega arith)

bitand_odd : (w a b : ℕ) → b % 2 ≡ 1 → bitand (suc w) a b ≡ a % 2 + 2 * bitand w (a / 2) (b / 2)
unfolding bitand
bitand_odd w a b e = rw e (omega arith)

bitand_self : (w n : ℕ) → n < 2 ^ w → bitand w n n ≡ 0 → n ≡ 0
unfolding bitand
bitand_self zero n lt h = omega arith
bitand_self (suc w) n lt h = elim (parity n) [
  | inl e ↦
      let half : bitand w (n / 2) (n / 2) ≡ 0 = omega (arith, e, h) in
      omega (arith, e, bitand_self w (n / 2) (omega (arith, lt)) half)
  | inr e ↦ absurd (omega (arith, subst (λ d. d * d + 2 * bitand w (n / 2) (n / 2) ≡ 0) e h))
]

-- The trick `n & (n + 1) == 0`.
pub pow_of :
    (w n : ℕ) → n + 1 < 2 ^ w → bitand w n (n + 1) ≡ 0 → (j : ℕ) × (j < w) × (n + 1 ≡ 2 ^ j)
unfolding bitand
pow_of zero n lt h = absurd (omega arith)
pow_of (suc w) n lt h = elim (parity n) [
  | inl e ↦
      let half : (n + 1) / 2 ≡ n / 2 = omega (arith, e) in
      let step = bitand_odd w n (n + 1) (omega (arith, e)) in
      let self : bitand w (n / 2) (n / 2) ≡ 0 =
        subst (λ m. bitand w (n / 2) m ≡ 0) half (omega (arith, step, h)) in
      let none_left = bitand_self w (n / 2) (omega (arith, lt)) self in
      (0, omega arith, omega (arith, e, none_left))
  | inr e ↦
      let half : (n + 1) / 2 ≡ n / 2 + 1 = omega (arith, e) in
      let step = bitand_even w n (n + 1) (omega (arith, e)) in
      let next : bitand w (n / 2) (n / 2 + 1) ≡ 0 =
        subst (λ m. bitand w (n / 2) m ≡ 0) half (omega (arith, step, h)) in
      let (j, small, same) = pow_of w (n / 2) (omega (arith, e, lt)) next in
      (suc j, omega (arith, small), omega (arith, e, same))
]

pub count_ones_mask : (w j : ℕ) → j ≤ w → count_ones w (2 ^ w - 2 ^ j) + j ≡ w
unfolding count_ones
count_ones_mask zero zero le = refl
count_ones_mask zero (suc j) le = absurd (omega arith)
count_ones_mask (suc w) zero le =
    let odd : (2 ^ suc w - 2 ^ 0) % 2 ≡ 1 = omega (arith, one_le_pow w) in
    let half : (2 ^ suc w - 2 ^ 0) / 2 ≡ 2 ^ w - 2 ^ 0 = omega (arith, one_le_pow w) in
    omega (arith, odd, ap (count_ones w) half, count_ones_mask w zero (omega arith))
count_ones_mask (suc w) (suc j) le =
    let even : (2 ^ suc w - 2 ^ suc j) % 2 ≡ 0 = omega arith in
    let half : (2 ^ suc w - 2 ^ suc j) / 2 ≡ 2 ^ w - 2 ^ j = omega arith in
    omega (arith, even, ap (count_ones w) half, count_ones_mask w j (omega (arith, le)))

-- The network of an address is the beginning of its block.
pub bitand_mask :
    (w j a : ℕ)
    → a < 2 ^ w
    → j ≤ w
    → (bitand w a (2 ^ w - 2 ^ j) ≤ a) × (a < bitand w a (2 ^ w - 2 ^ j) + 2 ^ j)
bitand_mask zero zero a lt le = (unfold bitand in omega arith, unfold bitand in omega arith)
bitand_mask zero (suc j) a lt le = absurd (omega arith)
bitand_mask (suc w) zero a lt le =
    let odd : (2 ^ suc w - 1) % 2 ≡ 1 = omega (arith, one_le_pow w) in
    let half : (2 ^ suc w - 1) / 2 ≡ 2 ^ w - 2 ^ 0 = omega (arith, one_le_pow w) in
    let (low, high) = bitand_mask w zero (a / 2) (omega (arith, lt)) (omega arith) in
    let step = bitand_odd w a (2 ^ suc w - 1) odd in
    let same = ap (bitand w (a / 2)) half in
    (omega (arith, step, same, low, high), omega (arith, step, same, low, high))
bitand_mask (suc w) (suc j) a lt le =
    let even : (2 ^ suc w - 2 ^ suc j) % 2 ≡ 0 = omega arith in
    let half : (2 ^ suc w - 2 ^ suc j) / 2 ≡ 2 ^ w - 2 ^ j = omega arith in
    let (low, high) = bitand_mask w j (a / 2) (omega (arith, lt)) (omega (arith, le)) in
    let step = bitand_even w a (2 ^ suc w - 2 ^ suc j) even in
    let same = ap (bitand w (a / 2)) half in
    (omega (arith, step, same, low, high), omega (arith, step, same, low, high))

bitor-zero : (w a : ℕ) → a < 2 ^ w → bitor w a 0 ≡ a
unfolding bitor
bitor-zero zero a lt = omega (arith, lt)
bitor-zero (suc w) a lt = ground (arith, bitor-zero w (a / 2))

bitor_even : (w x i : ℕ) → i % 2 ≡ 1 → bitor (suc w) (2 * x) i ≡ 1 + 2 * bitor w x (i / 2)
unfolding bitor
bitor_even w x i e =
    let bit : 2 * x % 2 ≡ 0 = omega arith in
    let half : 2 * x / 2 ≡ x = omega arith in rw (bit, half, e) refl

-- The broadcast address is the end of the block.
pub bitor_mask :
    (w j a : ℕ)
    → a < 2 ^ w
    → j ≤ w
    → bitor w (bitand w a (2 ^ w - 2 ^ j)) (2 ^ j - 1) ≡ bitand w a (2 ^ w - 2 ^ j) + (2 ^ j - 1)
bitor_mask w zero a lt le =
    let (low, high) = bitand_mask w zero a lt le in
    let small = bitor-zero w (bitand w a (2 ^ w - 2 ^ 0)) (omega (arith, low, lt)) in
    omega (arith, small)
bitor_mask zero (suc j) a lt le = absurd (omega (arith, le))
bitor_mask (suc w) (suc j) a lt le =
    let even : (2 ^ suc w - 2 ^ suc j) % 2 ≡ 0 = omega arith in
    let half : (2 ^ suc w - 2 ^ suc j) / 2 ≡ 2 ^ w - 2 ^ j = omega arith in
    let step =
      bitand_even w a (2 ^ suc w - 2 ^ suc j) even ∙ ap (λ m. 2 * bitand w (a / 2) m) half in
    let rest = bitor_mask w j (a / 2) (omega (arith, lt)) (omega (arith, le)) in
    let odd : (2 ^ suc j - 1) % 2 ≡ 1 = omega (arith, one_le_pow j) in
    let ones : (2 ^ suc j - 1) / 2 ≡ 2 ^ j - 1 = omega (arith, one_le_pow j) in
    let x = bitand w (a / 2) (2 ^ w - 2 ^ j) in
    let whole = bitor_even w x (2 ^ suc j - 1) odd in
    let same = ap (λ i. bitor w x i) ones in
    let from = ap (λ n. bitor (suc w) n (2 ^ suc j - 1)) step in
    omega (arith, step, rest, whole, same, from, one_le_pow j)

twice_pow : (q j : ℕ) → 2 * (q * 2 ^ j) ≡ q * 2 ^ suc j
twice_pow zero j = omega arith
twice_pow (suc q) j = omega (arith, twice_pow q j)

-- The network is a multiple of the length of the block.
pub bitand_mask_aligned : (w j a : ℕ) → j ≤ w → (q : ℕ) × (bitand w a (2 ^ w - 2 ^ j) ≡ q * 2 ^ j)
bitand_mask_aligned w zero a le = (bitand w a (2 ^ w - 2 ^ 0), omega arith)
bitand_mask_aligned zero (suc j) a le = absurd (omega (arith, le))
bitand_mask_aligned (suc w) (suc j) a le =
    let even : (2 ^ suc w - 2 ^ suc j) % 2 ≡ 0 = omega arith in
    let half : (2 ^ suc w - 2 ^ suc j) / 2 ≡ 2 ^ w - 2 ^ j = omega arith in
    let step =
      bitand_even w a (2 ^ suc w - 2 ^ suc j) even ∙ ap (λ m. 2 * bitand w (a / 2) m) half in
    let (q, h) = bitand_mask_aligned w j (a / 2) (omega (arith, le)) in
    (q, step ∙ ap (λ n. 2 * n) h ∙ twice_pow q j)
