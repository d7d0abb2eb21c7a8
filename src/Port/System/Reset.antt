-- ===== src/Port/System/Reset.antt =====
-- What `SystemInit` of port/nucleo_stm32f446re/src/port_system.c does to the access to the
-- floating-point unit, which is that to the coprocessors 10 and 11, with two bits for each.
use native.Mathlib.Nat.{pow-le-pow_right}
use transmisor_receptor_ir.Common.{
  zero, suc, refl, ℕ, ◌+◌, ◌-◌, ◌<◌, ◌≡◌, false, ◌&&◌, inl, inr, ltb, leb, if◌then◌else◌, arith,
  Bool-cases, bit_at, bit_at-bit_or, bit_at-set_bits, bit_at-shl32_low, bit_at-shl32_high,
  bit_at-small, bit_at-lt, bit_or, shl32,
}
use transmisor_receptor_ir.Port.State.{Board}
use transmisor_receptor_ir.Port.System.{Build, system_init}

bit_at-three : (j : ℕ) → bit_at j 3 ≡ (if ltb j 2 then 1 else 0)
unfolding bit_at
bit_at-three zero = refl
bit_at-three (suc zero) = refl
bit_at-three (suc (suc j)) =
    let big = pow-le-pow_right {n = 2} (omega arith) {i = 2} {j = suc (suc j)} (omega arith) in
    ground (arith, bit_at-small (suc (suc j)) 3 (omega (arith, big)))

-- The two bits of a coprocessor's access, put to its place.
bit_at-access :
    (i k : ℕ) → i < 32 → bit_at i (shl32 3 k) ≡ (if leb k i && ltb i (k + 2) then 1 else 0)
bit_at-access i k small = elim (Bool-cases (ltb i k)) [
  | inl below ↦ ground (arith, bit_at-shl32_low i k 3)
  | inr above ↦ ground (arith, bit_at-shl32_high i k 3, bit_at-three (i - k))
]

-- Where the build uses the floating-point unit, both coprocessors are accessible afterwards, and
-- the access to the others is as it was; else nothing of it changes. No external memory is set up.
pub system_init-cpacr :
    (build : Build) (i : ℕ) (b : Board)
    → build.data_in_ext_memory ≡ false
    → i < 32
    → bit_at i (system_init build b).cpacr
      ≡ (if build.fpu_used && (leb 20 i && ltb i 24) then 1 else bit_at i b.cpacr)
unfolding system_init
system_init-cpacr build i b inside small = ground (
  arith,
  bit_at-set_bits i b.cpacr (bit_or (shl32 3 20) (shl32 3 22)),
  bit_at-bit_or i (shl32 3 20) (shl32 3 22),
  bit_at-access i 20 small,
  bit_at-access i 22 small,
  bit_at-lt i b.cpacr,
)
