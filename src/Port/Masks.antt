-- ===== src/Port/Masks.antt =====
-- The masks of single bits (port/nucleo_stm32f446re/include/port_system.h, `BIT_POS_TO_MASK`).
use native.Mathlib.Nat.{pow-le-pow_right}
use transmisor_receptor_ir.Common.{
  ℕ, ◌-◌, ◌*◌, ◌%◌, ◌^◌, ◌<◌, ◌≡◌, ap, ltb, ◌==◌, if◌then◌else◌, inl, inr, arith, Bool-cases,
  bit_at, bit_at-zero, bit_at-small, bit_at-shl32_low, bit_at-shl32_high, bit_and, mask_test, ◌∙◌,
  shl32,
}
use transmisor_receptor_ir.Port.Gpio.{bit_pos_to_mask}

bit_at-one : (j : ℕ) → bit_at j 1 ≡ (if j == 0 then 1 else 0)
bit_at-one j = elim (Bool-cases (j == 0)) [
  | inl first ↦
      let e : j ≡ 0 = ground arith in ground (arith, ap (λ (t : ℕ). bit_at t 1) e, bit_at-zero 1)
  | inr later ↦
      let some_j : 0 < j = ground arith in
      ground (
        arith,
        bit_at-small j 1
            (omega (arith, pow-le-pow_right {n = 2} (omega arith) {i = 1} {j = j} some_j)),
      )
]

-- The mask of a bit has this bit and no other.
pub bit_at-mask :
    (i pin : ℕ) → i < 32 → bit_at i (bit_pos_to_mask pin) ≡ (if i == pin then 1 else 0)
bit_at-mask i pin small = elim (Bool-cases (ltb i pin)) [
  | inl below ↦ ground (arith, bit_at-shl32_low i pin 1)
  | inr above ↦ ground (arith, bit_at-shl32_high i pin 1, bit_at-one (i - pin))
]

-- The test of a bit under its mask.
pub bit_and-mask :
    (i pin : ℕ) → pin < 32 → (bit_and i (bit_pos_to_mask pin) == 0) ≡ (bit_at pin i == 0)
unfolding bit_at shl32
bit_and-mask i pin small =
    let fits : 1 * 2 ^ pin % 2 ^ 32 ≡ 2 ^ pin =
      omega (arith, pow-le-pow_right {n = 2} (omega arith) {i = pin} {j = 31} (omega arith)) in
    ap (λ (m : ℕ). bit_and i m == 0) fits ∙ mask_test pin i
