-- ===== src/Common/BitAt.antt =====
-- One bit of a number, under the operations that C has on registers.
use Prim.Native.Nat.{
  ℕ, zero, suc, ◌+◌, ◌-◌, ◌*◌, ◌/◌, ◌%◌, ◌^◌, ◌≤◌, ◌<◌, min, max, bit_and, bit_or, digits,
  bit_or-bitwise,
}
use mathlib.Core.Path.{◌≡◌, refl, sym, ap, ◌∙◌}
use native.Mathlib.Nat.{
  pow-suc, one-le-pow, mul-add-mod_self_left, mod-eq_of_lt, mod-lt, div-add-mod, div-eq_of_lt,
}
use native.Mathlib.Omega.{arith}
use transmisor_receptor_ir.Common.Words.{shl32, clear_bits, set_bits}
use transmisor_receptor_ir.Common.Bits.{half-div-pow, bit_and-half}

-- Bit `i` of `n`.
unfoldable pub bit_at : ℕ → ℕ → ℕ
bit_at i n = n / 2 ^ i % 2

pub bit_at-zero : (n : ℕ) → bit_at 0 n ≡ n % 2
unfolding bit_at
bit_at-zero n = omega arith

bit_at-suc : (i n : ℕ) → bit_at (suc i) n ≡ bit_at i (n / 2)
unfolding bit_at
bit_at-suc i n = ap (λ (t : ℕ). t % 2) (sym (half-div-pow n i))

pub bit_at-lt : (i n : ℕ) → bit_at i n < 2
unfolding bit_at
bit_at-lt i n = omega arith

-- There is nothing above a number's highest bit.
pub bit_at-small : (i n : ℕ) → n < 2 ^ i → bit_at i n ≡ 0
unfolding bit_at
bit_at-small i n h = ap (λ (t : ℕ). t % 2) (div-eq_of_lt h)

or_fuel : (n m a b : ℕ) → a ≤ n → a ≤ m → digits (λ y. y) max n a b ≡ digits (λ y. y) max m a b
or_fuel zero zero a b p q = refl
or_fuel zero (suc m) zero b p q = refl
or_fuel zero (suc m) (suc a) b p q = absurd (omega arith)
or_fuel (suc n) zero zero b p q = refl
or_fuel (suc n) zero (suc a) b p q = absurd (omega arith)
or_fuel (suc n) (suc m) zero b p q = refl
or_fuel (suc n) (suc m) (suc a) b p q =
    omega (arith, or_fuel n m (suc a / 2) (b / 2) (omega arith) (omega arith))

-- The lowest digit of `|`, and the others.
bit_or-half : (a b : ℕ) → bit_or a b ≡ bit_or (a / 2) (b / 2) * 2 + max (a % 2) (b % 2)
bit_or-half zero b = omega (arith, bit_or-bitwise 0 b, bit_or-bitwise 0 (b / 2))
bit_or-half (suc a) b = omega (
  arith,
  bit_or-bitwise (suc a) b,
  bit_or-bitwise (suc a / 2) (b / 2),
  or_fuel a (suc a / 2) (suc a / 2) (b / 2) (omega arith) (omega arith),
)

pub bit_at-bit_and : (i a b : ℕ) → bit_at i (bit_and a b) ≡ min (bit_at i a) (bit_at i b)
bit_at-bit_and zero a b =
    omega (arith, bit_and-half a b, bit_at-zero (bit_and a b), bit_at-zero a, bit_at-zero b)
bit_at-bit_and (suc i) a b =
    let half : bit_and a b / 2 ≡ bit_and (a / 2) (b / 2) = omega (arith, bit_and-half a b) in
    omega (
      arith,
      bit_at-suc i (bit_and a b),
      bit_at-suc i a,
      bit_at-suc i b,
      ap (bit_at i) half,
      bit_at-bit_and i (a / 2) (b / 2),
    )

pub bit_at-bit_or : (i a b : ℕ) → bit_at i (bit_or a b) ≡ max (bit_at i a) (bit_at i b)
bit_at-bit_or zero a b =
    omega (arith, bit_or-half a b, bit_at-zero (bit_or a b), bit_at-zero a, bit_at-zero b)
bit_at-bit_or (suc i) a b =
    let half : bit_or a b / 2 ≡ bit_or (a / 2) (b / 2) = omega (arith, bit_or-half a b) in
    omega (
      arith,
      bit_at-suc i (bit_or a b),
      bit_at-suc i a,
      bit_at-suc i b,
      ap (bit_at i) half,
      bit_at-bit_or i (a / 2) (b / 2),
    )

-- The complement in `k` bits.
pub bit_at-complement : (i k m : ℕ) → i < k → m < 2 ^ k → bit_at i (2 ^ k - 1 - m) ≡ 1 - bit_at i m
bit_at-complement i zero m h lt = absurd (omega arith)
bit_at-complement zero (suc k) m h lt =
    omega (arith, pow-suc 2 k, one-le-pow k 2, bit_at-zero (2 ^ suc k - 1 - m), bit_at-zero m)
bit_at-complement (suc i) (suc k) m h lt =
    let double = pow-suc 2 k in
    let half : (2 ^ suc k - 1 - m) / 2 ≡ 2 ^ k - 1 - m / 2 = omega arith in
    omega (
      arith,
      bit_at-suc i (2 ^ suc k - 1 - m),
      bit_at-suc i m,
      ap (bit_at i) half,
      bit_at-complement i k (m / 2) (omega arith) (omega arith),
    )

pub mod-double : (n p : ℕ) → 0 < p → n % (2 * p) ≡ 2 * (n / 2 % p) + n % 2
mod-double n p h =
    let s = 2 * (n / 2 % p) + n % 2 in
    let split : n ≡ 2 * p * (n / 2 / p) + s = omega (arith, div-add-mod (n / 2) p) in
    ap (λ (t : ℕ). t % (2 * p)) split
    ∙ mul-add-mod_self_left (2 * p) (n / 2 / p) s
    ∙ mod-eq_of_lt (omega (arith, mod-lt (n / 2) h))

-- Cutting a number to `k` bits leaves these.
bit_at-mod : (i k n : ℕ) → i < k → bit_at i (n % 2 ^ k) ≡ bit_at i n
bit_at-mod i zero n h = absurd (omega arith)
bit_at-mod zero (suc k) n h =
    let double : 2 ^ suc k ≡ 2 * 2 ^ k = omega (arith, pow-suc 2 k) in
    omega (
      arith,
      bit_at-zero (n % 2 ^ suc k),
      bit_at-zero n,
      ap (λ (t : ℕ). n % t) double,
      mod-double n (2 ^ k) (one-le-pow k 2 (omega arith)),
    )
bit_at-mod (suc i) (suc k) n h =
    let double : 2 ^ suc k ≡ 2 * 2 ^ k = omega (arith, pow-suc 2 k) in
    let half : n % 2 ^ suc k / 2 ≡ n / 2 % 2 ^ k =
      omega (
        arith,
        ap (λ (t : ℕ). n % t) double,
        mod-double n (2 ^ k) (one-le-pow k 2 (omega arith)),
      ) in
    omega (
      arith,
      bit_at-suc i (n % 2 ^ suc k),
      bit_at-suc i n,
      ap (bit_at i) half,
      bit_at-mod i k (n / 2) (omega arith),
    )

-- Shifting by `k` moves bit `i` to `i + k`, and brings in zeros.
bit_at-shift_low : (i k m : ℕ) → i < k → bit_at i (m * 2 ^ k) ≡ 0
bit_at-shift_low i zero m h = absurd (omega arith)
bit_at-shift_low zero (suc k) m h =
    let even : m * 2 ^ suc k ≡ 2 * (m * 2 ^ k) =
      omega (arith, ap (λ (t : ℕ). m * t) (pow-suc 2 k)) in
    omega (arith, bit_at-zero (m * 2 ^ suc k))
bit_at-shift_low (suc i) (suc k) m h =
    let even : m * 2 ^ suc k ≡ 2 * (m * 2 ^ k) =
      omega (arith, ap (λ (t : ℕ). m * t) (pow-suc 2 k)) in
    let half : m * 2 ^ suc k / 2 ≡ m * 2 ^ k = omega arith in
    omega (
      arith,
      bit_at-suc i (m * 2 ^ suc k),
      ap (bit_at i) half,
      bit_at-shift_low i k m (omega arith),
    )

bit_at-shift_high : (i k m : ℕ) → bit_at (i + k) (m * 2 ^ k) ≡ bit_at i m
bit_at-shift_high i zero m =
    let all : m * 2 ^ 0 ≡ m = omega arith in
    ap (λ (t : ℕ). bit_at t (m * 2 ^ 0)) (omega arith) ∙ ap (bit_at i) all
bit_at-shift_high i (suc k) m =
    let even : m * 2 ^ suc k ≡ 2 * (m * 2 ^ k) =
      omega (arith, ap (λ (t : ℕ). m * t) (pow-suc 2 k)) in
    let half : m * 2 ^ suc k / 2 ≡ m * 2 ^ k = omega arith in
    ap (λ (t : ℕ). bit_at t (m * 2 ^ suc k)) (omega arith)
    ∙ bit_at-suc (i + k) (m * 2 ^ suc k)
    ∙ ap (bit_at (i + k)) half
    ∙ bit_at-shift_high i k m

-- `m << k` in 32 bits.
pub bit_at-shl32_low : (i k m : ℕ) → i < 32 → i < k → bit_at i (shl32 m k) ≡ 0
unfolding shl32
bit_at-shl32_low i k m small h = bit_at-mod i 32 (m * 2 ^ k) small ∙ bit_at-shift_low i k m h

pub bit_at-shl32_high : (i k m : ℕ) → i < 32 → k ≤ i → bit_at i (shl32 m k) ≡ bit_at (i - k) m
unfolding shl32
bit_at-shl32_high i k m small h =
    bit_at-mod i 32 (m * 2 ^ k) small
    ∙ ap (λ (t : ℕ). bit_at t (m * 2 ^ k)) (omega arith)
    ∙ bit_at-shift_high (i - k) k m

pub shl32-lt : (m k : ℕ) → shl32 m k < 2 ^ 32
unfolding shl32
shl32-lt m k = omega arith

-- `reg & ~mask` and `reg | mask`.
pub bit_at-clear_bits :
    (i reg mask : ℕ)
    → i < 32
    → mask < 2 ^ 32
    → bit_at i (clear_bits reg mask) ≡ min (bit_at i reg) (1 - bit_at i mask)
unfolding clear_bits
bit_at-clear_bits i reg mask small fits =
    omega (arith, bit_at-bit_and i reg (2 ^ 32 - 1 - mask), bit_at-complement i 32 mask small fits)

pub bit_at-set_bits :
    (i reg mask : ℕ) → bit_at i (set_bits reg mask) ≡ max (bit_at i reg) (bit_at i mask)
unfolding set_bits
bit_at-set_bits i reg mask = bit_at-bit_or i reg mask
