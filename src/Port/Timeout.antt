-- ===== src/Port/Timeout.antt =====
-- How long the edges have stopped when the receiver's machine (common/src/fsm_rx.c) has them parsed,
-- on the board of port/nucleo_stm32f446re/src.
use transmisor_receptor_ir.Common.{
  ℕ, ◌+◌, ◌≤◌, ◌<◌, ◌^◌, ◌≡◌, ◌≢◌, ◌⊎◌, inl, inr, sym, subst, ◌∙◌, Option, some, arith, u32, sub32,
  ◌-◌,
}
use transmisor_receptor_ir.Nec.{FsmRxNec}
use transmisor_receptor_ir.Rx.{RxOn, idle_rx, wait_rx, rx_fire}
use transmisor_receptor_ir.Rx.Memory.{IsOwned}
use transmisor_receptor_ir.Rx.Stamps.{new_edges, waited}
use transmisor_receptor_ir.Port.State.{Board}
use transmisor_receptor_ir.Port.Valid.{IsValid}
use transmisor_receptor_ir.Port.Later.{
  IsLater, IsLater-refl, get_num_edges-IsLater, get_millis-IsLater, clean_buffer-IsLater,
}
use transmisor_receptor_ir.Port.Button.{port_system_get_millis}
use transmisor_receptor_ir.Port.Rx.{port_rx_get_num_edges}
use transmisor_receptor_ir.Port.ForRx.{
  board_rx, port_rx_get_num_edges-IsValid, port_system_get_millis-IsValid,
}

-- The 32-bit clock, read.
millis-u32 :
    (b : Board)
    → IsValid b
    → (port_system_get_millis b).0 ≡ u32 (port_system_get_millis b).1.systicks
unfolding port_system_get_millis
millis-u32 b v = (port_system_get_millis-IsValid b v).clock

sub32-u32 :
    (now then : ℕ) → then ≤ now → now < then + 2 ^ 32 → sub32 (u32 now) (u32 then) ≡ now - then
sub32-u32 now then p q = omega arith

waited_span :
    {tick stamp : ℕ} (now then : ℕ)
    → tick ≡ u32 now
    → stamp ≡ u32 then
    → then ≤ now
    → now < then + 2 ^ 32
    → sub32 tick stamp ≡ now - then
waited_span now then p q le lt = ground (arith, sub32-u32 now then le lt)

-- A moment of the call, as its last tick.
record IsStamped (b c : Board) (tick then : ℕ) : Type 0 where
  stamp : tick ≡ u32 then
  after : b.systicks ≤ then
  before : then ≤ c.systicks

-- The clock as read on a board that the call has reached, before the edges are counted.
get_millis-IsStamped :
    (id tick : ℕ) (a b c : Board)
    → IsValid b
    → IsLater a b
    → tick ≡ (port_system_get_millis b).0
    → c ≡ (port_rx_get_num_edges id (port_system_get_millis b).1).1
    → (then : ℕ) × IsStamped a c tick then
get_millis-IsStamped id tick a b c v l e f =
    let d = (port_system_get_millis b).1 in
    let now = get_millis-IsLater b l in
    let done = get_num_edges-IsLater id d (IsLater-refl d) in
    (
      d.systicks,
      record {
        stamp = e ∙ millis-u32 b v;
        after = now.time;
        before = subst (λ (x : Board). d.systicks ≤ x.systicks) (sym f) done.time;
      },
    )

module _ (malloc : ℕ → Option FsmRxNec) where
  new_edges-IsStamped :
      (s t : RxOn Board)
      → IsOwned s
      → IsValid s.board
      → rx_fire ⦃port = board_rx⦄ malloc s ≡ some t
      → t.fsm.current_state ≡ wait_rx
      → t.fsm.num_edges_detected ≢ s.fsm.num_edges_detected
      → (then : ℕ) × IsStamped s.board t.board t.fsm.last_tick then
  new_edges-IsStamped s t o v e q new =
      let id = s.fsm.rx_id in
      let b = (port_rx_get_num_edges id s.board).1 in
      let (_, d) = port_system_get_millis s.board in
      let c = (port_rx_get_num_edges id d).1 in
      elim (new_edges ⦃port = board_rx⦄ malloc s t o e q new) [
        | inl (tick, board) ↦
            get_millis-IsStamped id t.fsm.last_tick s.board b t.board
              (port_rx_get_num_edges-IsValid id s.board v)
              (get_num_edges-IsLater id s.board (IsLater-refl s.board)) tick board
        | inr (tick, board) ↦
            get_millis-IsStamped id t.fsm.last_tick s.board c t.board
              (port_rx_get_num_edges-IsValid id d (port_system_get_millis-IsValid s.board v))
              (get_num_edges-IsLater id d (get_millis-IsLater s.board (IsLater-refl s.board))) tick
              board
      ]

  -- The call that finds the machine waiting ends after it has read the clock.
  waited_until :
      (s t : RxOn Board)
      → s.fsm.current_state ≡ wait_rx
      → rx_fire ⦃port = board_rx⦄ malloc s ≡ some t
      → let (tick, b) = port_system_get_millis s.board in
        ((t.fsm.current_state ≡ idle_rx)
          × (s.fsm.message_timeout_ms < sub32 tick s.fsm.last_tick)
          × (b.systicks ≤ t.board.systicks))
        ⊎ ((t.fsm.current_state ≡ wait_rx)
            × (sub32 tick s.fsm.last_tick ≤ s.fsm.message_timeout_ms)
            × (b.systicks ≤ t.board.systicks))
  waited_until s t q e =
      let id = s.fsm.rx_id in
      let b = (port_system_get_millis s.board).1 in
      let c = (port_rx_get_num_edges id b).1 in
      let d = (port_system_get_millis c).1 in
      let IsAfter = λ (x : Board). b.systicks ≤ x.systicks in
      let counted = get_num_edges-IsLater id b (IsLater-refl b) in
      elim (waited ⦃port = board_rx⦄ malloc s t q e) [
        | inl (idle, out, board) ↦
            inl (idle, out, subst IsAfter (sym board) (clean_buffer-IsLater id c counted).time)
        | inr (wait, within, inl board) ↦ inr (wait, within, subst IsAfter (sym board) counted.time)
        | inr (wait, within, inr board) ↦
            let again = get_num_edges-IsLater id d (get_millis-IsLater c counted) in
            inr (wait, within, subst IsAfter (sym board) again.time)
      ]

  -- On boards that can occur, a call of a machine that owns its parser as it should finds another
  -- number of edges than before, by which the machine waits; a later call finds it still waiting,
  -- with the tick that the first one kept, begins no earlier than the first one ended, and ends
  -- less than 2^32 ms after the first began. Then this call either ends the frame, and more than
  -- the timeout has passed from the beginning of the first call to its own end, or it waits on,
  -- and no more than the timeout passed from the end of the first call to its own beginning,
  -- wherever the 32-bit clock wraps.
  pub timeout_measured :
      (s t u v : RxOn Board)
      → IsOwned s
      → IsValid s.board
      → rx_fire ⦃port = board_rx⦄ malloc s ≡ some t
      → t.fsm.current_state ≡ wait_rx
      → t.fsm.num_edges_detected ≢ s.fsm.num_edges_detected
      → u.fsm.current_state ≡ wait_rx
      → u.fsm.last_tick ≡ t.fsm.last_tick
      → IsValid u.board
      → t.board.systicks ≤ u.board.systicks
      → rx_fire ⦃port = board_rx⦄ malloc u ≡ some v
      → v.board.systicks < s.board.systicks + 2 ^ 32
      → ((v.fsm.current_state ≡ idle_rx)
          × (s.board.systicks + u.fsm.message_timeout_ms < v.board.systicks))
        ⊎ ((v.fsm.current_state ≡ wait_rx)
            × (u.board.systicks ≤ t.board.systicks + u.fsm.message_timeout_ms))
  timeout_measured s t u v o valid e q new q' same valid' later f early =
      let (then, i) = new_edges-IsStamped s t o valid e q new in
      let now = get_millis-IsLater u.board (IsLater-refl u.board) in
      let d = (port_system_get_millis u.board).1 in
      let span =
        waited_span d.systicks then (millis-u32 u.board valid') (same ∙ i.stamp)
          (omega (arith, i.before, later, now.time)) in
      elim (waited_until u v q' f) [
        | inl (idle, out, end) ↦
            let passed =
              subst (λ n. u.fsm.message_timeout_ms < n) (span (omega (arith, end, early, i.after)))
                out in
            inl (idle, omega (arith, passed, end, i.after))
        | inr (wait, within, end) ↦
            let passed =
              subst (λ n. n ≤ u.fsm.message_timeout_ms) (span (omega (arith, end, early, i.after)))
                within in
            inr (wait, omega (arith, passed, now.time, i.before))
      ]
