-- ===== src/Port/System/Prescaler.antt =====
-- The prescaler of the AHB in RCC_CFGR, and the table of its shifts
-- (port/nucleo_stm32f446re/src/port_system.c).
use transmisor_receptor_ir.Common.{
  ℕ, zero, suc, ◌+◌, ◌-◌, ◌*◌, ◌/◌, ◌%◌, ◌^◌, ◌≤◌, ◌<◌, ◌≡◌, refl, ◌∙◌, ap, Bool, true, false, ◌&&◌,
  ◌==◌, Bool-cases, Option-cases, inl, inr, some, none, get_elem?, ltb, leb, if◌then◌else◌, bit_and,
  bit_and-half, bit_and-zero, shl32, field, field-write_field_other, arith,
}
use transmisor_receptor_ir.Port.System.{hsi_value, ahb_presc_table, ahb_divisor, clean_and_set}

-- One digit of a mask.
even_mask : (a m : ℕ) → bit_and a (2 * m) ≡ 2 * bit_and (a / 2) m
even_mask a m =
    let half : 2 * m / 2 ≡ m = omega arith in
    omega (arith, bit_and-half a (2 * m), ap (bit_and (a / 2)) half)

odd_mask : (a m : ℕ) → bit_and a (2 * m + 1) ≡ 2 * bit_and (a / 2) m + a % 2
odd_mask a m =
    let half : (2 * m + 1) / 2 ≡ m = omega arith in
    omega (arith, bit_and-half a (2 * m + 1), ap (bit_and (a / 2)) half)

-- The field under its mask.
pub hpre_field : (r : ℕ) → bit_and r 240 / 2 ^ 4 ≡ field 4 4 r
unfolding field
hpre_field r =
    let r₄ = r / 2 / 2 / 2 / 2 in
    omega (
      arith,
      even_mask r 120,
      even_mask (r / 2) 60,
      even_mask (r / 2 / 2) 30,
      even_mask (r / 2 / 2 / 2) 15,
      odd_mask r₄ 7,
      odd_mask (r₄ / 2) 3,
      odd_mask (r₄ / 2 / 2) 1,
      odd_mask (r₄ / 2 / 2 / 2) 0,
      bit_and-zero (r₄ / 2 / 2 / 2 / 2),
    )

-- The switch of the clock's source leaves the prescaler alone.
pub switched_field : (r : ℕ) → field 4 4 (clean_and_set 3 0 0 r) ≡ field 4 4 r
unfolding shl32
switched_field r =
    field-write_field_other 2 0 0 r (omega arith) 4 4 (omega arith) (omega arith)
      (inr (omega arith))

-- The shift that stands in the table.
abbrev pub shift_of : ℕ → ℕ
shift_of hpre = if ltb hpre 8 then 0 else if ltb hpre 12 then hpre - 7 else hpre - 6

abbrev agrees : ℕ → Bool
agrees h = elim (get_elem? ahb_presc_table h) [ none ↦ false | some k ↦ k == shift_of h ]

abbrev bounded : ℕ → Bool
bounded h = let n = hsi_value / ahb_divisor h / 1000 in ltb 0 n && leb n 16000

holds_below : (ℕ → Bool) → ℕ → Bool
holds_below p zero = true
holds_below p (suc n) = p n && holds_below p n

holds_below_sound : (p : ℕ → Bool) (n h : ℕ) → holds_below p n ≡ true → h < n → p h ≡ true
unfolding holds_below
holds_below_sound p zero h all lt = absurd (omega arith)
holds_below_sound p (suc n) h all lt = elim (Bool-cases (h == n)) [
  | inl same ↦ let e : h ≡ n = ground arith in ap p e ∙ ground arith
  | inr other ↦ holds_below_sound p n h (ground arith) (ground arith)
]

table_agrees : holds_below agrees 16 ≡ true
unfolding holds_below
table_agrees = refl

tick_bounded : holds_below bounded 16 ≡ true
unfolding holds_below
tick_bounded = refl

pub shift_in_table : (h : ℕ) → h < 16 → get_elem? ahb_presc_table h ≡ some (shift_of h)
shift_in_table h lt =
    let same = holds_below_sound agrees 16 h table_agrees lt in
    elim (Option-cases (get_elem? ahb_presc_table h)) [
      | inl out ↦ absurd (ground arith)
      | inr (k, e) ↦ ground arith
    ]

pub pow-shift_of : (h : ℕ) → 2 ^ shift_of h ≡ ahb_divisor h
pow-shift_of h = ground arith

-- The core's clock, by HPRE, and the counts of SysTick that make a millisecond.
abbrev pub core_clock : ℕ → ℕ
core_clock hpre = hsi_value / ahb_divisor hpre

pub tick_fits : (h : ℕ) → h < 16 → (0 < core_clock h / 1000) × (core_clock h / 1000 ≤ 16000)
tick_fits h lt = ground (arith, holds_below_sound bounded 16 h tick_bounded lt)
