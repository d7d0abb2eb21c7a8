-- ===== src/Common/Bits.antt =====
-- The bits of a number, as lists that begin with the highest, and as the machine tests them by a
-- mask.
use Prim.Native.Nat.{
  ℕ, zero, suc, ◌+◌, ◌*◌, ◌/◌, ◌%◌, ◌^◌, ◌≤◌, ◌<◌, min, bit_and, digits, bit_and-bitwise,
}
use mathlib.Core.Path.{◌≡◌, refl, sym, ap, ◌∙◌}
use mathlib.Core.Logic.{◌⊎◌}
use mathlib.Core.Bool.{Bool, true, false}
use mathlib.Core.List.{List, [], ◌∷◌, ◌++◌}
use native.Mathlib.Nat.{pow-suc, one-le-pow, div-div-eq-div-mul}
use native.Mathlib.Omega.{arith}
use transmisor_receptor_ir.Common.Tests.{◌==◌}
use transmisor_receptor_ir.Common.Lists.{length, length-append}
use transmisor_receptor_ir.Common.Words.{u32}

abbrev pub bit_value : Bool → ℕ
bit_value false = 0
bit_value true = 1

-- The number that some bits append to `c`, in 32 bits.
abbrev pub append_bits : ℕ → List Bool → ℕ
append_bits c [] = c
append_bits c (b ∷ bs) = append_bits (u32 (c * 2 + bit_value b)) bs

-- The lowest `k` bits of `c`.
unfoldable pub bits_of : ℕ → ℕ → List Bool
bits_of zero c = []
bits_of (suc k) c = bits_of k (c / 2) ++ (c % 2 == 1) ∷ []

pub bits_of-zero : (c : ℕ) → bits_of 0 c ≡ []
unfolding bits_of
bits_of-zero c = refl

append_bits-snoc :
    (c : ℕ) (bs : List Bool) (b : Bool)
    → append_bits c (bs ++ b ∷ []) ≡ u32 (append_bits c bs * 2 + bit_value b)
append_bits-snoc c [] b = refl
append_bits-snoc c (a ∷ bs) b = append_bits-snoc (u32 (c * 2 + bit_value a)) bs b

bit_value-odd : (c : ℕ) → bit_value (c % 2 == 1) ≡ c % 2
bit_value-odd c = ground arith

-- The bits of a number, appended to nothing, are the number.
pub append_bits-bits_of : (k c : ℕ) → c < 2 ^ k → c < 2 ^ 32 → append_bits 0 (bits_of k c) ≡ c
unfolding bits_of
append_bits-bits_of zero c h small = omega arith
append_bits-bits_of (suc k) c h small = omega (
  arith,
  append_bits-snoc 0 (bits_of k (c / 2)) (c % 2 == 1),
  bit_value-odd c,
  pow-suc 2 k,
  append_bits-bits_of k (c / 2),
)

pub length-bits_of : (k c : ℕ) → length (bits_of k c) ≡ k
unfolding bits_of
length-bits_of zero c = refl
length-bits_of (suc k) c =
    omega (arith, length-append (bits_of k (c / 2)) ((c % 2 == 1) ∷ []), length-bits_of k (c / 2))

pub half-div-pow : (c k : ℕ) → c / 2 / 2 ^ k ≡ c / 2 ^ suc k
half-div-pow c k =
    div-div-eq-div-mul c 2 (2 ^ k) ∙ ap (λ (t : ℕ). c / t) (omega (arith, pow-suc 2 k))

-- The highest of the bits, by itself.
pub bits_of-suc : (k c : ℕ) → bits_of (suc k) c ≡ (c / 2 ^ k % 2 == 1) ∷ bits_of k c
unfolding bits_of
bits_of-suc zero c = ap (λ (t : ℕ). (t % 2 == 1) ∷ []) (omega arith)
bits_of-suc (suc k) c =
    ap (λ l. l ++ (c % 2 == 1) ∷ []) (bits_of-suc k (c / 2))
    ∙ ap (λ (t : ℕ). (t % 2 == 1) ∷ (bits_of k (c / 2) ++ (c % 2 == 1) ∷ [])) (half-div-pow c k)

-- `&` is a recursion on binary digits, on as much fuel as its first argument; any more is the same.
and_fuel :
    (n m a b : ℕ) → a ≤ n → a ≤ m → digits (λ y. zero) min n a b ≡ digits (λ y. zero) min m a b
and_fuel zero zero a b p q = refl
and_fuel zero (suc m) zero b p q = refl
and_fuel zero (suc m) (suc a) b p q = absurd (omega arith)
and_fuel (suc n) zero zero b p q = refl
and_fuel (suc n) zero (suc a) b p q = absurd (omega arith)
and_fuel (suc n) (suc m) zero b p q = refl
and_fuel (suc n) (suc m) (suc a) b p q =
    omega (arith, and_fuel n m (suc a / 2) (b / 2) (omega arith) (omega arith))

-- The lowest digit of `&`, and the others.
pub bit_and-half : (a b : ℕ) → bit_and a b ≡ bit_and (a / 2) (b / 2) * 2 + min (a % 2) (b % 2)
bit_and-half zero b = omega (arith, bit_and-bitwise 0 b, bit_and-bitwise 0 (b / 2))
bit_and-half (suc a) b = omega (
  arith,
  bit_and-bitwise (suc a) b,
  bit_and-bitwise (suc a / 2) (b / 2),
  and_fuel a (suc a / 2) (suc a / 2) (b / 2) (omega arith) (omega arith),
)

bit_and-zero_below : (n a : ℕ) → a ≤ n → bit_and a 0 ≡ 0
bit_and-zero_below n zero h = bit_and-bitwise 0 0
bit_and-zero_below zero (suc a) h = absurd (omega arith)
bit_and-zero_below (suc n) (suc a) h =
    omega (arith, bit_and-half (suc a) 0, bit_and-zero_below n (suc a / 2) (omega arith))

pub bit_and-zero : (a : ℕ) → bit_and a 0 ≡ 0
bit_and-zero a = bit_and-zero_below a a (omega arith)

pub half-pow : (k : ℕ) → 2 ^ suc k / 2 ≡ 2 ^ k
half-pow k = omega (arith, pow-suc 2 k)

mask_double : (c t p : ℕ) → bit_and (c / 2) p ≡ t * p → bit_and c (2 * p) ≡ t * (2 * p)
mask_double c t p h =
    let half : 2 * p / 2 ≡ p = omega arith in
    omega (arith, bit_and-half c (2 * p), ap (λ (u : ℕ). bit_and (c / 2) u) half, h)

-- What is left of a number under a mask of one bit.
pub bit_and-pow : (k c : ℕ) → bit_and c (2 ^ k) ≡ c / 2 ^ k % 2 * 2 ^ k
bit_and-pow zero c = omega (arith, bit_and-half c 1, bit_and-zero (c / 2))
bit_and-pow (suc k) c =
    let double : 2 ^ suc k ≡ 2 * 2 ^ k = omega (arith, pow-suc 2 k) in
    ap (λ (u : ℕ). bit_and c u) double
    ∙ mask_double c (c / 2 / 2 ^ k % 2) (2 ^ k) (bit_and-pow k (c / 2))
    ∙ ap (λ (t : ℕ). t % 2 * (2 * 2 ^ k)) (half-div-pow c k)
    ∙ ap (λ (u : ℕ). c / 2 ^ suc k % 2 * u) (sym double)

-- A test of one bit by its mask.
pub mask_test : (k c : ℕ) → (bit_and c (2 ^ k) == 0) ≡ (c / 2 ^ k % 2 == 0)
mask_test k c = ground (arith, bit_and-pow k c, one-le-pow k 2, zero-or-more (c / 2 ^ k) (2 ^ k))
  where
    zero-or-more : (t p : ℕ) → (t % 2 ≡ 0) ⊎ (p ≤ t % 2 * p)
    zero-or-more t p = grind arith
