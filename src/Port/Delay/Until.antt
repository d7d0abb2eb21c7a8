-- ===== src/Port/Delay/Until.antt =====
-- The wait for a deadline, `port_system_delay_until_ms` of
-- port/nucleo_stm32f446re/src/port_system.c.
use native.Mathlib.Nat.{mul-le-mul_left}
use transmisor_receptor_ir.Common.{
  ℕ, ◌+◌, ◌-◌, ◌≤◌, ◌<◌, ◌^◌, ◌≡◌, ◌⊎◌, ◌∙◌, ap, refl, true, false, some, ltb, arith, u32, sub32,
  Bool-cases, inl, inr,
}
use transmisor_receptor_ir.Ticker.{reads_for}
use transmisor_receptor_ir.Port.State.{Board}
use transmisor_receptor_ir.Port.Button.{port_system_get_millis}
use transmisor_receptor_ir.Port.Delay.{
  IsClocked, get_millis-IsClocked, get_millis-pace, get_millis-eq-systicks, port_system_delay_ms,
  port_system_delay_until_ms, delay_ms_lem,
}

module _ (until : ℕ → ℕ) (period fuel : ℕ) where
  last_read :
      (c : Board)
      → IsClocked until period c
      → let d = port_system_get_millis c in
        (d.0 ≡ u32 d.1.systicks)
        × IsClocked until period d.1
        × (c.systicks ≤ d.1.systicks)
        × (d.1.systicks ≤ c.systicks + 1)
  last_read c r =
      let p = get_millis-pace until period c r in
      (
        get_millis-eq-systicks until period c r,
        get_millis-IsClocked until period c r,
        omega arith,
        omega arith,
      )

  until_waits :
      (t ms : ℕ) (b c : Board)
      → ltb (port_system_get_millis b).0 (u32 (t + ms)) ≡ true
      → port_system_delay_ms until period fuel
          (sub32 (u32 (t + ms)) (port_system_get_millis b).0)
          (port_system_get_millis b).1
        ≡ some c
      → IsClocked until period c
      → let d = (port_system_get_millis c).1 in
        port_system_delay_until_ms until period fuel t ms b ≡ some (u32 d.systicks, d)
  unfolding port_system_delay_until_ms
  until_waits t ms b c h e w =
      rw (h, e) (ap (λ (n : ℕ). some (n, (port_system_get_millis c).1)) (last_read c w).0)

  until_over :
      (t ms : ℕ) (b : Board)
      → ltb (port_system_get_millis b).0 (u32 (t + ms)) ≡ false
      → port_system_delay_until_ms until period fuel t ms b
        ≡ some (port_system_get_millis (port_system_get_millis b).1)
  unfolding port_system_delay_until_ms
  until_over t ms b h = rw h refl

  until_over_read :
      (t ms : ℕ) (b : Board)
      → ltb (port_system_get_millis b).0 (u32 (t + ms)) ≡ false
      → IsClocked until period (port_system_get_millis b).1
      → let d = (port_system_get_millis (port_system_get_millis b).1).1 in
        port_system_delay_until_ms until period fuel t ms b ≡ some (u32 d.systicks, d)
  until_over_read t ms b h w =
      let c = (port_system_get_millis b).1 in
      until_over t ms b h ∙ ap (λ (n : ℕ). some (n, (port_system_get_millis c).1)) (last_read c w).0

  -- On a valid board where the interrupts of SysTick come at a steady pace, with enough reads of the
  -- clock as fuel, and while neither the deadline nor the clock wraps, the wait for a deadline ends, not before the
  -- deadline, and at most two milliseconds after it or after the call, whichever is later; the
  -- reference becomes the clock that is read then.
  pub delay_until_ms_lem :
      (t ms : ℕ) (b : Board)
      → IsClocked until period b
      → t + ms < 2 ^ 32
      → b.systicks + 1 < 2 ^ 32
      → reads_for period (t + ms) ≤ fuel
      → (c : Board) × (port_system_delay_until_ms until period fuel t ms b
          ≡ some (u32 c.systicks, c))
        × (t + ms ≤ c.systicks)
        × ((c.systicks ≤ t + ms + 2) ⊎ (c.systicks ≤ b.systicks + 2))
  delay_until_ms_lem t ms b r small soon enough =
      let b' = (port_system_get_millis b).1 in
      let (now, r', lo, hi) = last_read b r in
      let deadline : u32 (t + ms) ≡ t + ms = omega arith in
      elim (Bool-cases (ltb (port_system_get_millis b).0 (u32 (t + ms)))) [
        | inl early ↦
            let left = t + ms - b'.systicks in
            let asked : sub32 (u32 (t + ms)) (port_system_get_millis b).0 ≡ left = ground arith in
            let fewer : left ≤ t + ms = omega arith in
            let (c, e, w, from, to) =
              delay_ms_lem until period fuel left b' r' (ground arith) (omega arith)
                (omega (arith, mul-le-mul_left period fewer)) in
            let (read, _, lo', hi') = last_read c w in
            (
              (port_system_get_millis c).1,
              until_waits t ms b c early
                  (ap (λ (n : ℕ). port_system_delay_ms until period fuel n b') asked ∙ e) w,
              ground arith,
              inl (ground arith),
            )
        | inr over ↦
            let (read, _, lo', hi') = last_read b' r' in
            (
              (port_system_get_millis b').1,
              until_over_read t ms b over r',
              ground arith,
              inr (omega arith),
            )
      ]

  -- On such a board, where the deadline wraps, is still to come, and the clock has not wrapped, the
  -- wait ends at once, before the deadline:
  -- the clock is read twice, and no more.
  pub delay_until_ms-wrapped :
      (t ms : ℕ) (b : Board)
      → IsClocked until period b
      → 2 ^ 32 ≤ t + ms
      → t + ms < 2 ^ 32 + b.systicks
      → b.systicks + 1 < 2 ^ 32
      → port_system_delay_until_ms until period fuel t ms b
        ≡ some (port_system_get_millis (port_system_get_millis b).1)
  delay_until_ms-wrapped t ms b r wraps earlier soon =
      let (e, _, lo, hi) = last_read b r in until_over t ms b (ground arith)
