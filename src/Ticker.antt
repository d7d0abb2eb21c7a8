-- ===== src/Ticker.antt =====
-- The busy waits of the program: `_wait_for_tx_ticks` of common/src/fsm_tx.c and
-- `port_system_delay_ms` of port/nucleo_stm32f446re/src/port_system.c read a count of 32 bits until
-- it has moved on far enough.
use transmisor_receptor_ir.Common.{
  ℕ, zero, suc, ◌+◌, ◌-◌, ◌*◌, ◌≤◌, ◌<◌, ◌^◌, ◌≡◌, refl, ap, ◌∙◌, ◌⊎◌, true, false, Option, none,
  some, arith, inl, inr, ltb, u32, sub32,
}

-- A count that interrupts move on: the states in which they do, the true count, and how often it
-- can be read before the next one comes, with a bound of that.
pub record Ticker (B : Type 0) : Type 1 where
  pub get_tick : B → ℕ × B
  pub IsRunning : B → Type 0
  pub count : B → ℕ
  pub until_tick : B → ℕ
  pub period : ℕ
  pub get_tick-IsRunning : (b : B) → IsRunning b → IsRunning (get_tick b).1
  pub get_tick-eq-count : (b : B) → IsRunning b → (get_tick b).0 ≡ u32 (count (get_tick b).1)
  pub until_tick-lt-period : (b : B) → IsRunning b → until_tick b < period
  pub pace :
      (b : B)
      → IsRunning b
      → (count (get_tick b).1 ≡ count b + 1)
        ⊎ ((count (get_tick b).1 ≡ count b) × (until_tick (get_tick b).1 < until_tick b))

-- The reads of the count that are enough for a wait.
abbrev pub reads_for : ℕ → ℕ → ℕ
reads_for period ticks = period * ticks + period

module _ {B : Type 0} (ticker : Ticker B) where
  open ticker use {get_tick, IsRunning, count, until_tick, period}

  -- `while ((get_tick() - initial_tick) < ticks)`
  unfoldable pub wait_until : ℕ → ℕ → ℕ → B → Option B
  wait_until zero initial_tick ticks b = none
  wait_until (suc f) initial_tick ticks b =
      let (tick, b') = get_tick b in
      elim (ltb (sub32 tick initial_tick) ticks) [
        | true ↦ wait_until f initial_tick ticks b'
        | false ↦ some b'
      ]

  -- What reads of the count alone can lead to.
  pub data Reads : B → B → Type 0 where
    read_once : {b c : B} → c ≡ (get_tick b).1 → Reads b c
    read_more : {b c : B} → Reads (get_tick b).1 c → Reads b c

  -- What a wait comes to.
  abbrev pub Waits : Option B → B → ℕ → Type 0
  Waits o b count_after = (c : B) × (o ≡ some c) × (count c ≡ count_after) × IsRunning c × Reads b c

  wait_more :
      (f initial_tick ticks : ℕ) (b : B)
      → ltb (sub32 (get_tick b).0 initial_tick) ticks ≡ true
      → wait_until (suc f) initial_tick ticks b ≡ wait_until f initial_tick ticks (get_tick b).1
  unfolding wait_until
  wait_more f initial_tick ticks b h = ground arith

  wait_done :
      (f initial_tick ticks : ℕ) (b : B)
      → ltb (sub32 (get_tick b).0 initial_tick) ticks ≡ false
      → wait_until (suc f) initial_tick ticks b ≡ some (get_tick b).1
  unfolding wait_until
  wait_done f initial_tick ticks b h = ground arith

  wait_on :
      (f start ticks count_after : ℕ) (b : B)
      → ltb (sub32 (get_tick b).0 (u32 start)) ticks ≡ true
      → Waits (wait_until f (u32 start) ticks (get_tick b).1) (get_tick b).1 count_after
      → Waits (wait_until (suc f) (u32 start) ticks b) b count_after
  wait_on f start ticks count_after b h (c, e, s, v, r) =
      (c, wait_more f (u32 start) ticks b h ∙ e, s, v, read_more r)

  -- `d` ticks of the wait are over, and `r + 1` are left.
  wait_until-Waits :
      (f start d r ticks : ℕ) (b : B)
      → IsRunning b
      → count b ≡ start + d
      → d + suc r ≡ ticks
      → ticks < 2 ^ 32
      → period * suc r + until_tick b < f
      → Waits (wait_until f (u32 start) ticks b) b (start + ticks)
  wait_until-Waits zero start d r ticks b v s e small enough = absurd (omega arith)
  wait_until-Waits (suc f) start d zero ticks b v s e small enough =
      let v' = ticker.get_tick-IsRunning b v in
      let tick = ticker.get_tick-eq-count b v in
      elim (ticker.pace b v) [
        | inl up ↦ (
          (get_tick b).1,
          wait_done f (u32 start) ticks b (ground arith),
          omega arith,
          v',
          read_once refl,
        )
        | inr (same, closer) ↦ wait_on f start ticks (start + ticks) b (ground arith) (
            wait_until-Waits f start d zero ticks (get_tick b).1 v' (omega arith) e small
              (omega arith))
      ]
  wait_until-Waits (suc f) start d (suc r) ticks b v s e small enough =
      let v' = ticker.get_tick-IsRunning b v in
      let tick = ticker.get_tick-eq-count b v in
      let soon = ticker.until_tick-lt-period (get_tick b).1 v' in
      elim (ticker.pace b v) [
        | inl up ↦ wait_on f start ticks (start + ticks) b (ground arith) (
            wait_until-Waits f start (suc d) r ticks (get_tick b).1 v' (omega arith) (omega arith)
              small (omega arith))
        | inr (same, closer) ↦ wait_on f start ticks (start + ticks) b (ground arith) (
            wait_until-Waits f start d (suc r) ticks (get_tick b).1 v' (omega arith) e small
              (omega arith))
      ]

  -- A wait from the count as it is read first takes as many ticks as it is asked for, or one more:
  -- the first read may already find a new one.
  pub wait_from_now :
      (fuel ticks : ℕ) (b : B)
      → IsRunning b
      → 0 < ticks
      → ticks < 2 ^ 32
      → reads_for period ticks ≤ fuel
      → (n : ℕ) × Waits (wait_until fuel (get_tick b).0 ticks (get_tick b).1) b (count b + n)
        × (ticks ≤ n)
        × (n ≤ ticks + 1)
  wait_from_now fuel zero b v some_ticks small enough = absurd (omega arith)
  wait_from_now fuel (suc r) b v some_ticks small enough =
      let b' = (get_tick b).1 in
      let v' = ticker.get_tick-IsRunning b v in
      let pace = ticker.pace b v in
      let soon = ticker.until_tick-lt-period b' v' in
      let (c, e, s, w, reads) =
        wait_until-Waits fuel (count b') 0 r (suc r) b' v' (omega arith) (omega arith) small
          (omega arith) in
      (
        count b' + suc r - count b,
        (
          c,
          ap (λ t. wait_until fuel t (suc r) b') (ticker.get_tick-eq-count b v) ∙ e,
          omega arith,
          w,
          read_more reads,
        ),
        omega arith,
        omega arith,
      )
