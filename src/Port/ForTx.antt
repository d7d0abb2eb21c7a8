-- ===== src/Port/ForTx.antt =====
-- The board (port/nucleo_stm32f446re/src) gives the transmitter's machine what it relies on, where
-- the interrupts of the symbol timer come at a steady pace.
use transmisor_receptor_ir.Common.{
  ℕ, suc, ◌+◌, ◌<◌, ◌≡◌, ◌⊎◌, Bool, true, List, [], ◌∷◌, ◌&&◌, arith, u32, sym, ap, refl, ◌∙◌,
  subst, ◌++◌, replicate, append_nil, append-replicate,
}
use transmisor_receptor_ir.Tx.Port.{TxPort}
use transmisor_receptor_ir.Port.State.{
  Irq, systick, tim1_up, exti15_10, exti9_5, Board, tim1_up_tim10_irqn,
}
use transmisor_receptor_ir.Port.Interrupts.{serve, serve_all, poll}
use transmisor_receptor_ir.Port.Handlers.{store_edge_tick}
use transmisor_receptor_ir.Port.Valid.{IsValid, poll-IsValid}
use transmisor_receptor_ir.Port.Tx.{
  port_tx_init, port_tx_pwm_timer_set, port_tx_symbol_tmr_start, port_tx_symbol_tmr_stop,
  port_tx_tmr_get_tick,
}

-- The interrupts of TIM1 among some interrupts.
abbrev pub tim1_count : List Irq → ℕ
tim1_count [] = 0
tim1_count (tim1_up ∷ is) = suc (tim1_count is)
tim1_count (i ∷ is) = tim1_count is

abbrev pub has_carrier : Board → Bool
has_carrier b = b.cc3e && b.tim2.cen

-- The switches of the symbol timer's interrupt.
pub record IsTicking (b : Board) : Type 0 where
  pub cen : b.tim1.cen ≡ true
  pub uie : b.tim1.uie ≡ true
  pub irq : b.irq_on tim1_up_tim10_irqn ≡ true

-- What a service routine leaves alone.
pub record IsKept (b c : Board) : Type 0 where
  pub cen : c.tim1.cen ≡ b.tim1.cen
  pub uie : c.tim1.uie ≡ b.tim1.uie
  pub irq : c.irq_on tim1_up_tim10_irqn ≡ b.irq_on tim1_up_tim10_irqn
  pub cc3e : c.cc3e ≡ b.cc3e
  pub pwm : c.tim2.cen ≡ b.tim2.cen
  pub arrivals : c.arrivals ≡ b.arrivals
  pub accesses : c.accesses ≡ b.accesses

serve-IsKept : (i : Irq) (b : Board) → IsKept b (serve i b)
unfolding serve store_edge_tick
serve-IsKept systick b = ground arith
serve-IsKept tim1_up b = ground arith
serve-IsKept (exti15_10 pr idr) b = ground arith
serve-IsKept (exti9_5 pr idr cnt) b = ground arith

symbols-serve :
    (i : Irq) (b : Board) → IsTicking b → (serve i b).symbols ≡ b.symbols + tim1_count (i ∷ [])
unfolding serve store_edge_tick
symbols-serve systick b t = ground arith
symbols-serve tim1_up b t = ground arith
symbols-serve (exti15_10 pr idr) b t = ground arith
symbols-serve (exti9_5 pr idr cnt) b t = ground arith

on_air-serve :
    (i : Irq) (b : Board)
    → IsTicking b
    → (serve i b).on_air ≡ b.on_air ++ replicate (tim1_count (i ∷ [])) (has_carrier b)
unfolding serve store_edge_tick
on_air-serve systick b t = ground (arith, append_nil b.on_air)
on_air-serve tim1_up b t = ground arith
on_air-serve (exti15_10 pr idr) b t = ground (arith, append_nil b.on_air)
on_air-serve (exti9_5 pr idr cnt) b t = ground (arith, append_nil b.on_air)

serve_all-IsKept : (is : List Irq) (b : Board) → IsKept b (serve_all is b)
unfolding serve_all
serve_all-IsKept [] b = ground arith
serve_all-IsKept (i ∷ is) b = ground (arith, serve-IsKept i b, serve_all-IsKept is (serve i b))

tim1_count-cons :
    (i : Irq) (is : List Irq) → tim1_count (i ∷ is) ≡ tim1_count (i ∷ []) + tim1_count is
tim1_count-cons systick is = omega arith
tim1_count-cons tim1_up is = omega arith
tim1_count-cons (exti15_10 pr idr) is = omega arith
tim1_count-cons (exti9_5 pr idr cnt) is = omega arith

symbols-serve_all :
    (is : List Irq) (b : Board) → IsTicking b → (serve_all is b).symbols ≡ b.symbols + tim1_count is
unfolding serve_all
symbols-serve_all [] b t = omega arith
symbols-serve_all (i ∷ is) b t = omega (
  arith,
  tim1_count-cons i is,
  symbols-serve i b t,
  symbols-serve_all is (serve i b) (ground (arith, serve-IsKept i b)),
)

-- The ticks find the carrier as it is, since no service routine switches it.
on_air-serve_all :
    (is : List Irq) (b : Board)
    → IsTicking b
    → (serve_all is b).on_air ≡ b.on_air ++ replicate (tim1_count is) (has_carrier b)
unfolding serve_all
on_air-serve_all [] b t = sym (append_nil b.on_air)
on_air-serve_all (i ∷ is) b t =
    let c = serve i b in
    let k = serve-IsKept i b in
    let same : has_carrier c ≡ has_carrier b = rw (k.cc3e, k.pwm) refl in
    let first = tim1_count (i ∷ []) in
    on_air-serve_all is c (ground (arith, k))
    ∙ ap (λ l. l ++ replicate (tim1_count is) (has_carrier c)) (on_air-serve i b t)
    ∙ ap (λ v. (b.on_air ++ replicate first (has_carrier b)) ++ replicate (tim1_count is) v) same
    ∙ append-replicate first (tim1_count is) (has_carrier b) b.on_air
    ∙ ap (λ n. b.on_air ++ replicate n (has_carrier b)) (sym (tim1_count-cons i is))

pub poll-IsKept : (b : Board) → IsKept (record b { accesses = b.accesses + 1 }) (poll b)
unfolding poll
poll-IsKept b = serve_all-IsKept (b.arrivals b.accesses) (record b { accesses = b.accesses + 1 })

symbols-poll :
    (b : Board) → IsTicking b → (poll b).symbols ≡ b.symbols + tim1_count (b.arrivals b.accesses)
unfolding poll
symbols-poll b t =
    symbols-serve_all (b.arrivals b.accesses) (record b { accesses = b.accesses + 1 })
      (record { cen = t.cen; uie = t.uie; irq = t.irq })

on_air-poll :
    (b : Board)
    → IsTicking b
    → (poll b).on_air ≡ b.on_air ++ replicate (tim1_count (b.arrivals b.accesses)) (has_carrier b)
unfolding poll
on_air-poll b t =
    on_air-serve_all (b.arrivals b.accesses) (record b { accesses = b.accesses + 1 })
      (record { cen = t.cen; uie = t.uie; irq = t.irq })

-- Interrupts of TIM1 come at a steady pace: at most one before each access, and `until n` counts
-- down to the next one from access `n`, from below `period`.
pub record IsPaced (until : ℕ → ℕ) (period : ℕ) (arrivals : ℕ → List Irq) : Type 0 where
  pub bounded : (n : ℕ) → until n < period
  pub next :
      (n : ℕ)
      → (tim1_count (arrivals n) ≡ 1) ⊎ ((tim1_count (arrivals n) ≡ 0) × (until (n + 1) < until n))

pub carrier-pwm :
    (on : Bool) (b : Board) → let c = port_tx_pwm_timer_set 0 on b in (c.cc3e && c.tim2.cen) ≡ on
unfolding port_tx_pwm_timer_set
carrier-pwm on b = ground arith

pub symbols-pwm :
    (id : ℕ) (on : Bool) (b : Board) → (port_tx_pwm_timer_set id on b).symbols ≡ b.symbols
unfolding port_tx_pwm_timer_set
symbols-pwm id on b = ground arith

pub on_air-pwm :
    (id : ℕ) (on : Bool) (b : Board) → (port_tx_pwm_timer_set id on b).on_air ≡ b.on_air
unfolding port_tx_pwm_timer_set
on_air-pwm id on b = ground arith

pub on_air-stop : (b : Board) → (port_tx_symbol_tmr_stop b).on_air ≡ b.on_air
unfolding port_tx_symbol_tmr_stop
on_air-stop b = refl

pub carrier-get_tick :
    (b : Board)
    → let c = (port_tx_tmr_get_tick b).1 in (c.cc3e && c.tim2.cen) ≡ (b.cc3e && b.tim2.cen)
unfolding port_tx_tmr_get_tick
carrier-get_tick b = ground (arith, poll-IsKept b)

module _ (until : ℕ → ℕ) (period : ℕ) where
  pub record CanSend (b : Board) : Type 0 where
    pub valid : IsValid b
    pub uie : b.tim1.uie ≡ true
    pub irq : b.irq_on tim1_up_tim10_irqn ≡ true
    pub paced : IsPaced until period b.arrivals

  pub record IsSending (b : Board) : Type 0 where
    pub ready : CanSend b
    pub cen : b.tim1.cen ≡ true

  poll-CanSend : (b : Board) → CanSend b → CanSend (poll b)
  poll-CanSend b r = record {
    valid = poll-IsValid b r.valid;
    uie = (poll-IsKept b).uie ∙ r.uie;
    irq = (poll-IsKept b).irq ∙ r.irq;
    paced = subst (IsPaced until period) (sym (poll-IsKept b).arrivals) r.paced;
  }

  pub start-IsSending : (b : Board) → CanSend b → IsSending (port_tx_symbol_tmr_start b)
  unfolding port_tx_symbol_tmr_start
  start-IsSending b r =
      let b' = record b { tim1 = record (b.tim1) { cnt = 0; cen = true } } in
      let r' : CanSend b' = record {
        valid = record {
          clock = r.valid.clock;
          symbol_clock = r.valid.symbol_clock;
          buffer = r.valid.buffer;
          index = r.valid.index;
        };
        uie = r.uie;
        irq = r.irq;
        paced = r.paced;
      } in
      let q = poll-CanSend b' r' in
      record {
        ready = record {
          valid = record {
            clock = q.valid.clock;
            symbol_clock = omega arith;
            buffer = q.valid.buffer;
            index = q.valid.index;
          };
          uie = q.uie;
          irq = q.irq;
          paced = q.paced;
        };
        cen = (poll-IsKept b').cen;
      }

  pub pwm_timer_set-IsSending :
      (id : ℕ) (on : Bool) (b : Board) → IsSending b → IsSending (port_tx_pwm_timer_set id on b)
  unfolding port_tx_pwm_timer_set
  pwm_timer_set-IsSending id on b r = ground arith

  pub get_tick-IsSending : (b : Board) → IsSending b → IsSending (port_tx_tmr_get_tick b).1
  unfolding port_tx_tmr_get_tick
  get_tick-IsSending b r = record {
    ready = poll-CanSend b r.ready;
    cen = (poll-IsKept b).cen ∙ r.cen;
  }

  pub stop-CanSend : (b : Board) → IsSending b → CanSend (port_tx_symbol_tmr_stop b)
  unfolding port_tx_symbol_tmr_stop
  stop-CanSend b r = ground arith

  pub get_tick-pace :
      (b : Board)
      → IsSending b
      → let c = (port_tx_tmr_get_tick b).1 in
        (c.symbols ≡ b.symbols + 1)
        ⊎ ((c.symbols ≡ b.symbols) × (until c.accesses < until b.accesses))
  unfolding port_tx_tmr_get_tick
  get_tick-pace b r =
      let ticking : IsTicking b = record { cen = r.cen; uie = r.ready.uie; irq = r.ready.irq } in
      ground
        (arith, symbols-poll b ticking, r.ready.paced.next b.accesses, (poll-IsKept b).accesses)

  pub get_tick-on_air :
      (b : Board)
      → IsSending b
      → let c = (port_tx_tmr_get_tick b).1 in
        (n : ℕ) × (c.symbols ≡ b.symbols + n) × (c.on_air ≡ b.on_air ++ replicate n (has_carrier b))
  unfolding port_tx_tmr_get_tick
  get_tick-on_air b r =
      let ticking : IsTicking b = record { cen = r.cen; uie = r.ready.uie; irq = r.ready.irq } in
      (tim1_count (b.arrivals b.accesses), symbols-poll b ticking, on_air-poll b ticking)

  pub get_tick-eq-symbols :
      (b : Board)
      → IsSending b
      → (port_tx_tmr_get_tick b).0 ≡ u32 (port_tx_tmr_get_tick b).1.symbols
  unfolding port_tx_tmr_get_tick
  get_tick-eq-symbols b r = (poll-IsValid b r.ready.valid).symbol_clock

  -- port_tx.c fills the transmitter's interface.
  abbrev pub board_tx : TxPort Board
  board_tx = record {
    init = port_tx_init;
    pwm_timer_set = port_tx_pwm_timer_set;
    symbol_tmr_start = port_tx_symbol_tmr_start;
    symbol_tmr_stop = port_tx_symbol_tmr_stop;
    tmr_get_tick = port_tx_tmr_get_tick;
    IsBoard = CanSend;
    IsRunning = IsSending;
    carrier = has_carrier;
    on_air = λ b. b.on_air;
    symbols = λ b. b.symbols;
    until_tick = λ b. until b.accesses;
    period = period;
    symbol_tmr_start-IsRunning = start-IsSending;
    pwm_timer_set-IsRunning = pwm_timer_set-IsSending;
    tmr_get_tick-IsRunning = get_tick-IsSending;
    symbol_tmr_stop-IsBoard = stop-CanSend;
    carrier-pwm_timer_set = carrier-pwm;
    carrier-tmr_get_tick = carrier-get_tick;
    on_air-pwm_timer_set = on_air-pwm;
    on_air-symbol_tmr_stop = on_air-stop;
    on_air-tmr_get_tick = get_tick-on_air;
    symbols-pwm_timer_set = symbols-pwm;
    tick-eq-symbols = get_tick-eq-symbols;
    until_tick-lt-period = λ b r. r.ready.paced.bounded b.accesses;
    pace = get_tick-pace;
  }
