-- ===== src/Port/Delay.antt =====
-- The delays of port/nucleo_stm32f446re/src/port_system.c, where the interrupts of SysTick come at
-- a steady pace.
pub mod Until
use native.Mathlib.Nat.{mul-le-mul_left}
use transmisor_receptor_ir.Common.{
  ℕ, suc, ◌+◌, ◌-◌, ◌≤◌, ◌<◌, ◌^◌, ◌≡◌, ◌⊎◌, ◌∙◌, sym, subst, ap, refl, true, false, Option, some,
  List, [], ◌∷◌, ◌>>=◌, ltb, arith, u32, sub32, Bool-cases, inl, inr, if◌then◌else◌,
}
use transmisor_receptor_ir.Ticker.{Ticker, wait_until, reads_for, wait_from_now}
use transmisor_receptor_ir.Port.State.{Irq, systick, tim1_up, exti15_10, exti9_5, Board}
use transmisor_receptor_ir.Port.Interrupts.{serve, serve_all, poll}
use transmisor_receptor_ir.Port.Handlers.{store_edge_tick}
use transmisor_receptor_ir.Port.Valid.{IsValid, poll-IsValid}
use transmisor_receptor_ir.Port.Button.{port_system_get_millis}
use transmisor_receptor_ir.Port.ForTx.{poll-IsKept}

-- The interrupts of SysTick among some interrupts.
abbrev pub systick_count : List Irq → ℕ
systick_count [] = 0
systick_count (systick ∷ is) = suc (systick_count is)
systick_count (i ∷ is) = systick_count is

systicks-serve :
    (i : Irq) (b : Board)
    → b.tickint ≡ true
    → ((serve i b).systicks ≡ b.systicks + systick_count (i ∷ [])) × ((serve i b).tickint ≡ true)
unfolding serve store_edge_tick
systicks-serve systick b t = ground arith
systicks-serve tim1_up b t = ground arith
systicks-serve (exti15_10 pr idr) b t = ground arith
systicks-serve (exti9_5 pr idr cnt) b t = ground arith

systick_count-cons :
    (i : Irq) (is : List Irq) → systick_count (i ∷ is) ≡ systick_count (i ∷ []) + systick_count is
systick_count-cons systick is = omega arith
systick_count-cons tim1_up is = omega arith
systick_count-cons (exti15_10 pr idr) is = omega arith
systick_count-cons (exti9_5 pr idr cnt) is = omega arith

pub systicks-serve_all :
    (is : List Irq) (b : Board)
    → b.tickint ≡ true
    → ((serve_all is b).systicks ≡ b.systicks + systick_count is)
      × ((serve_all is b).tickint ≡ true)
unfolding serve_all
systicks-serve_all [] b t = (omega arith, t)
systicks-serve_all (i ∷ is) b t =
    let (more, on) = systicks-serve i b t in
    let (rest, on') = systicks-serve_all is (serve i b) on in
    (omega (arith, systick_count-cons i is), on')

systicks-poll :
    (b : Board)
    → b.tickint ≡ true
    → ((poll b).systicks ≡ b.systicks + systick_count (b.arrivals b.accesses))
      × ((poll b).tickint ≡ true)
unfolding poll
systicks-poll b t =
    systicks-serve_all (b.arrivals b.accesses) (record b { accesses = b.accesses + 1 }) t

-- Interrupts of SysTick come at a steady pace: at most one before each access, and `until n` counts
-- down to the next one from access `n`, from below `period`.
pub record IsTimed (until : ℕ → ℕ) (period : ℕ) (arrivals : ℕ → List Irq) : Type 0 where
  pub bounded : (n : ℕ) → until n < period
  pub next :
      (n : ℕ)
      → (systick_count (arrivals n) ≡ 1)
        ⊎ ((systick_count (arrivals n) ≡ 0) × (until (n + 1) < until n))

module _ (until : ℕ → ℕ) (period : ℕ) where
  pub record IsClocked (b : Board) : Type 0 where
    pub valid : IsValid b
    pub tickint : b.tickint ≡ true
    pub timed : IsTimed until period b.arrivals

  pub get_millis-IsClocked : (b : Board) → IsClocked b → IsClocked (port_system_get_millis b).1
  unfolding port_system_get_millis
  get_millis-IsClocked b r = record {
    valid = poll-IsValid b r.valid;
    tickint = (systicks-poll b r.tickint).1;
    timed = subst (IsTimed until period) (sym (poll-IsKept b).arrivals) r.timed;
  }

  pub get_millis-pace :
      (b : Board)
      → IsClocked b
      → let c = (port_system_get_millis b).1 in
        (c.systicks ≡ b.systicks + 1)
        ⊎ ((c.systicks ≡ b.systicks) × (until c.accesses < until b.accesses))
  unfolding port_system_get_millis
  get_millis-pace b r =
      ground (arith, systicks-poll b r.tickint, r.timed.next b.accesses, (poll-IsKept b).accesses)

  pub get_millis-eq-systicks :
      (b : Board)
      → IsClocked b
      → (port_system_get_millis b).0 ≡ u32 (port_system_get_millis b).1.systicks
  unfolding port_system_get_millis
  get_millis-eq-systicks b r = (poll-IsValid b r.valid).clock

  abbrev pub ms_ticker : Ticker Board
  ms_ticker = record {
    get_tick = port_system_get_millis;
    IsRunning = IsClocked;
    count = λ b. b.systicks;
    until_tick = λ b. until b.accesses;
    period = period;
    get_tick-IsRunning = get_millis-IsClocked;
    get_tick-eq-count = get_millis-eq-systicks;
    until_tick-lt-period = λ b r. r.timed.bounded b.accesses;
    pace = get_millis-pace;
  }

  -- `fuel` bounds how often a wait reads the clock.
  module _ (fuel : ℕ) where
    unfoldable pub port_system_delay_ms : ℕ → Board → Option Board
    unfolding wait_until
    port_system_delay_ms ms b =
        let (tickstart, b') = port_system_get_millis b in wait_until ms_ticker fuel tickstart ms b'

    -- The result is the new `*p_t`, and the board.
    unfoldable pub port_system_delay_until_ms : ℕ → ℕ → Board → Option (ℕ × Board)
    unfolding port_system_get_millis port_system_delay_ms
    port_system_delay_until_ms t ms b = do
      let deadline = u32 (t + ms)
      let now = port_system_get_millis b
      c ←
          if ltb now.0 deadline
          then port_system_delay_ms (sub32 deadline now.0) now.1
          else some now.1
      some (port_system_get_millis c)

    -- A delay ends, and takes as many milliseconds as it is asked for, or one more.
    pub delay_ms_lem :
        (ms : ℕ) (b : Board)
        → IsClocked b
        → 0 < ms
        → ms < 2 ^ 32
        → reads_for period ms ≤ fuel
        → (c : Board) × (port_system_delay_ms ms b ≡ some c)
          × IsClocked c
          × (b.systicks + ms ≤ c.systicks)
          × (c.systicks ≤ b.systicks + ms + 1)
    unfolding port_system_delay_ms
    delay_ms_lem ms b r some_ms small enough =
        let (n, (c, e, s, w, reads), lo, hi) =
          wait_from_now ms_ticker fuel ms b r some_ms small enough in
        (c, e, w, omega arith, omega arith)
