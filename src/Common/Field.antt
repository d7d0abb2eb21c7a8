-- ===== src/Common/Field.antt =====
-- Fields of registers: `width` bits from bit `low` on, and how C writes one.
use Prim.Native.Nat.{ℕ, zero, suc, ◌+◌, ◌-◌, ◌*◌, ◌/◌, ◌%◌, ◌^◌, ◌≤◌, ◌<◌}
use mathlib.Core.Path.{◌≡◌, sym, ap, ◌∙◌}
use mathlib.Core.Logic.{◌⊎◌, inl, inr}
use native.Mathlib.Nat.{
  pow-suc, one-le-pow, div-div-eq-div-mul, mod-eq_of_lt, mod-lt, pow-le-pow_right,
}
use native.Mathlib.Omega.{arith}
use transmisor_receptor_ir.Common.Words.{shl32, clear_bits, set_bits}
use transmisor_receptor_ir.Common.BitAt.{
  bit_at, bit_at-lt, bit_at-small, bit_at-complement, bit_at-clear_bits, bit_at-set_bits,
  bit_at-shl32_low, bit_at-shl32_high, shl32-lt, mod-double,
}

unfoldable pub field : ℕ → ℕ → ℕ → ℕ
field width low n = n / 2 ^ low % 2 ^ width

field-suc : (width low n : ℕ) → field (suc width) low n ≡ 2 * field width (suc low) n + bit_at low n
unfolding field bit_at
field-suc width low n =
    let double : 2 ^ suc width ≡ 2 * 2 ^ width = omega (arith, pow-suc 2 width) in
    let next : n / 2 ^ low / 2 ≡ n / 2 ^ suc low =
      div-div-eq-div-mul n (2 ^ low) 2 ∙ ap (λ (t : ℕ). n / t) (sym (pow-suc 2 low)) in
    ap (λ (t : ℕ). n / 2 ^ low % t) double
    ∙ mod-double (n / 2 ^ low) (2 ^ width) (one-le-pow width 2 (omega arith))
    ∙ ap (λ (t : ℕ). 2 * (t % 2 ^ width) + n / 2 ^ low % 2) next

field-zero : (low n : ℕ) → field 0 low n ≡ 0
unfolding field
field-zero low n = omega arith

-- Fields with the same bits are the same.
pub field-ext :
    (width low low' n n' : ℕ)
    → ((j : ℕ) → j < width → bit_at (low + j) n ≡ bit_at (low' + j) n')
    → field width low n ≡ field width low' n'
field-ext zero low low' n n' h = field-zero low n ∙ sym (field-zero low' n')
field-ext (suc width) low low' n n' h =
    let first : bit_at low n ≡ bit_at low' n' =
      ap (λ (t : ℕ). bit_at t n) (omega arith)
      ∙ h 0 (omega arith)
      ∙ ap (λ (t : ℕ). bit_at t n') (omega arith) in
    let others = field-ext width (suc low) (suc low') n n' (λ j lt.
      ap (λ (t : ℕ). bit_at t n) (omega arith)
      ∙ h (suc j) (omega arith)
      ∙ ap (λ (t : ℕ). bit_at t n') (omega arith)) in
    omega (arith, field-suc width low n, field-suc width low' n', first, others)

pub field-lt : (width low n : ℕ) → field width low n < 2 ^ width
unfolding field
field-lt width low n = mod-lt (n / 2 ^ low) (one-le-pow width 2 (omega arith))

field_of_value : (width value : ℕ) → value < 2 ^ width → field width 0 value ≡ value
unfolding field
field_of_value width value fits = ap (λ (t : ℕ). t % 2 ^ width) (omega arith) ∙ mod-eq_of_lt fits

-- The mask of a field has ones below its width, and zeros above.
mask_below : (j width : ℕ) → j < width → bit_at j (2 ^ width - 1) ≡ 1
mask_below j width h =
    ap (bit_at j) (omega arith)
    ∙ bit_at-complement j width 0 h (one-le-pow width 2 (omega arith))
    ∙ omega (arith, bit_at-small j 0 (one-le-pow j 2 (omega arith)))

-- `reg &= ~(mask << low); reg |= value << low;`
abbrev pub write_field : ℕ → ℕ → ℕ → ℕ → ℕ
write_field mask low value reg = set_bits (clear_bits reg (shl32 mask low)) (shl32 value low)

module _ (width low value reg : ℕ) (inside : low + width ≤ 32) where
  abbrev written : ℕ
  written = write_field (2 ^ width - 1) low value reg

  -- A bit of the field, and of the mask and the value that are shifted to it.
  moved : (j v : ℕ) → low + j < 32 → bit_at (low + j) (shl32 v low) ≡ bit_at j v
  moved j v h =
      bit_at-shl32_high (low + j) low v h (omega arith) ∙ ap (λ (t : ℕ). bit_at t v) (omega arith)

  written_bit : (j : ℕ) → j < width → bit_at (low + j) written ≡ bit_at (0 + j) value
  written_bit j h =
      let same : 0 + j ≡ j = omega arith in
      omega (
        arith,
        bit_at-set_bits (low + j) (clear_bits reg (shl32 (2 ^ width - 1) low)) (shl32 value low),
        bit_at-clear_bits (low + j) reg (shl32 (2 ^ width - 1) low) (omega arith) (shl32-lt _ low),
        moved j (2 ^ width - 1) (omega arith),
        moved j value (omega arith),
        mask_below j width h,
        ap (λ (t : ℕ). bit_at t value) same,
      )

  -- A bit outside the field, of what fits the field when it is shifted to it.
  unmoved :
      (i v : ℕ)
      → i < 32
      → v < 2 ^ width
      → (i < low) ⊎ (low + width ≤ i)
      → bit_at i (shl32 v low) ≡ 0
  unmoved i v small fits (inl below) = bit_at-shl32_low i low v small below
  unmoved i v small fits (inr above) =
      bit_at-shl32_high i low v small (omega arith)
      ∙ bit_at-small (i - low) v (
          omega
            (arith, pow-le-pow_right {n = 2} (omega arith) {i = width} {j = i - low} (omega arith)))

  kept_bit :
      (i : ℕ)
      → i < 32
      → value < 2 ^ width
      → (i < low) ⊎ (low + width ≤ i)
      → bit_at i written ≡ bit_at i reg
  kept_bit i small fits out = omega (
    arith,
    bit_at-set_bits i (clear_bits reg (shl32 (2 ^ width - 1) low)) (shl32 value low),
    bit_at-clear_bits i reg (shl32 (2 ^ width - 1) low) small (shl32-lt _ low),
    unmoved i (2 ^ width - 1) small (omega (arith, one-le-pow width 2)) out,
    unmoved i value small fits out,
    bit_at-lt i reg,
  )

  -- The field that is written holds the value.
  pub field-write_field : value < 2 ^ width → field width low written ≡ value
  field-write_field fits =
      field-ext width low 0 written value written_bit ∙ field_of_value width value fits

  -- A field that does not meet it is kept.
  pub field-write_field_other :
      (width' low' : ℕ)
      → value < 2 ^ width
      → low' + width' ≤ 32
      → (low' + width' ≤ low) ⊎ (low + width ≤ low')
      → field width' low' written ≡ field width' low' reg
  field-write_field_other width' low' fits inside' apart =
      field-ext width' low' low' written reg
        (λ j h. kept_bit (low' + j) (omega arith) fits (omega arith))
