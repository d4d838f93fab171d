-- ===== src/Sstable/Masked.antt =====
-- sstable/src/util.rs: the masks of a block's checksum, on u32.
use mirdb.Prelude.{ℕ, zero, suc, ◌+◌, ◌-◌, ◌*◌, ◌/◌, ◌%◌, ◌^◌, ◌≤◌, ◌<◌, ◌≡◌, ◌∙◌, arith}
use mirdb.ParserUtil.{u32_bound}
use native.Mathlib.Nat.{pow-succ', mul_left_comm}
use Prim.Native.Nat.{bit_or, digits, max, bit_or-bitwise}

abbrev mask_delta : ℕ
mask_delta = 0xa282ead8

-- `wrapping_shr(15) | wrapping_shl(17)`, then `wrapping_add`.
unfoldable pub mask_crc : ℕ → ℕ
mask_crc c = (bit_or (c / 2 ^ 15) (c * 2 ^ 17 % u32_bound) + mask_delta) % u32_bound

-- `wrapping_sub`, then `wrapping_shr(17) | wrapping_shl(15)`.
unfoldable pub unmask_crc : ℕ → ℕ
unmask_crc mc =
    let rot = (mc + (u32_bound - mask_delta)) % u32_bound in
    bit_or (rot / 2 ^ 17) (rot * 2 ^ 15 % u32_bound)

doubled : (k m : ℕ) → m * 2 ^ suc k ≡ 2 * (m * 2 ^ k)
doubled k m = rw (pow-succ' 2 k, mul_left_comm m 2 (2 ^ k))

or_digits : (k n x m : ℕ) → x < 2 ^ k → x ≤ n → digits (λ b. b) max n x (m * 2 ^ k) ≡ x + m * 2 ^ k
or_digits k zero zero m h l = omega arith
or_digits k zero (suc x) m h l = absurd (omega arith)
or_digits k (suc n) zero m h l = omega arith
or_digits zero (suc n) (suc x) m h l = absurd (omega arith)
or_digits (suc k) (suc n) (suc x) m h l =
    let w = m * 2 ^ k in
    let e : m * 2 ^ suc k ≡ 2 * w = doubled k m in
    let ih = or_digits k n (suc x / 2) m (omega (arith, pow-succ' 2 k)) (omega arith) in
    let d : m * 2 ^ suc k / 2 ≡ w = omega arith in rw (d, ih) (omega arith)

-- The digits of the numbers do not overlap.
bit_or_disjoint : (k x m : ℕ) → x < 2 ^ k → bit_or x (m * 2 ^ k) ≡ x + m * 2 ^ k
bit_or_disjoint k x m h = bit_or-bitwise x (m * 2 ^ k) ∙ or_digits k x x m h (omega arith)

-- A checksum is the unmasked of its masked form, for every u32.
pub unmask_crc-mask_crc : (c : ℕ) → c < u32_bound → unmask_crc (mask_crc c) ≡ c
unfolding mask_crc unmask_crc
unmask_crc-mask_crc c h =
    let a : c * 2 ^ 17 % u32_bound ≡ c % 2 ^ 15 * 2 ^ 17 = omega arith in
    let b = bit_or_disjoint 17 (c / 2 ^ 15) (c % 2 ^ 15) (omega arith) in
    let m = c / 2 ^ 15 + c % 2 ^ 15 * 2 ^ 17 in
    let rot : ((m + mask_delta) % u32_bound + (u32_bound - mask_delta)) % u32_bound ≡ m =
      omega arith in
    let d : m / 2 ^ 17 ≡ c % 2 ^ 15 = omega arith in
    let f : m * 2 ^ 15 % u32_bound ≡ c / 2 ^ 15 * 2 ^ 15 = omega arith in
    let g = bit_or_disjoint 15 (c % 2 ^ 15) (c / 2 ^ 15) (omega arith) in
    rw (unmask_crc, mask_crc, a, b, rot, d, f, g) (omega arith)

-- A masked checksum is the masked form of what it is unmasked to.
pub mask_crc-unmask_crc : (mc : ℕ) → mc < u32_bound → mask_crc (unmask_crc mc) ≡ mc
unfolding mask_crc unmask_crc
mask_crc-unmask_crc mc h =
    let rot = (mc + (u32_bound - mask_delta)) % u32_bound in
    let a : rot * 2 ^ 15 % u32_bound ≡ rot % 2 ^ 17 * 2 ^ 15 = omega arith in
    let b = bit_or_disjoint 15 (rot / 2 ^ 17) (rot % 2 ^ 17) (omega arith) in
    let un = rot / 2 ^ 17 + rot % 2 ^ 17 * 2 ^ 15 in
    let d : un / 2 ^ 15 ≡ rot % 2 ^ 17 = omega arith in
    let f : un * 2 ^ 17 % u32_bound ≡ rot / 2 ^ 17 * 2 ^ 17 = omega arith in
    let g = bit_or_disjoint 17 (rot % 2 ^ 17) (rot / 2 ^ 17) (omega arith) in
    rw (mask_crc, unmask_crc, a, b, d, f, g) (omega arith)

pub mask_crc_bound : (c : ℕ) → mask_crc c < u32_bound
unfolding mask_crc
mask_crc_bound c = omega arith
