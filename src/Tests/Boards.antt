-- ===== src/Tests/Boards.antt =====
-- Boards to run the theorems on.
use transmisor_receptor_ir.Common.{
  ℕ, refl, true, false, List, [], ◌∷◌, ◌++◌, inl, arith, length, replicate, ◌-◌,
}
use transmisor_receptor_ir.Port.State.{plain, systick, tim1_up, Timer, Board}
use transmisor_receptor_ir.Port.ForTx.{CanSend}

abbrev pub off_timer : Timer
off_timer = record {
  clock_on = false;
  cnt = 0;
  arr = 0;
  psc = 0;
  cen = false;
  ug = false;
  uif = false;
  uie = false;
}

-- A board at rest at the time `ms`, with some edges in its buffer.
abbrev pub rest_at : ℕ → List ℕ → Board
rest_at ms edges = record {
  ms_ticks = ms;
  flag_pressed = false;
  edge_ticks = edges ++ replicate (256 - length edges) 0;
  edge_idx = length edges;
  symbol_tick = 0;
  gpio = λ n. record { moder = 0; pupdr = 0; afr0 = 0; afr1 = 0; idr = 0 };
  gpioaen = true;
  gpioben = true;
  gpiocen = true;
  syscfgen = true;
  exticr = λ n. 0;
  exti = record { imr = 0; emr = 0; rtsr = 0; ftsr = 0; pr = 0; pr_write = 0 };
  tim1 = off_timer;
  tim2 = off_timer;
  tim3 = off_timer;
  cc3e = false;
  ccmr2 = 0;
  oc3pe = false;
  ccr3 = 0;
  clocks = record {
    flash_acr = 0;
    pwr_cr = 0xc000;
    pwren = false;
    rcc_cr = 0x83;
    rcc_cfgr = 0;
    systick_load = 0;
    system_core_clock = 0;
  };
  tickint = true;
  pdds = false;
  lpds = false;
  sleepdeep = false;
  irq_on = λ n. true;
  priority_grouping = 0;
  priority = λ n. plain 0;
  cpacr = 0;
  vtor = 0;
  bsrr = [];
  systicks = ms;
  symbols = 0;
  on_air = [];
  arrivals = λ n. [];
  accesses = 0;
}

-- The same where an interrupt of the symbol timer comes before each access, and SysTick's too.
abbrev pub busy : Board
busy = record (rest_at 0 []) {
  tim1 = record off_timer { uie = true };
  arrivals = λ n. tim1_up ∷ systick ∷ [];
}

pub busy-CanSend : CanSend (λ n. 0) 1 busy
busy-CanSend = record {
  valid = record { clock = refl; symbol_clock = refl; buffer = refl; index = omega arith };
  uie = refl;
  irq = refl;
  paced = record { bounded = λ n. omega arith; next = λ n. inl refl };
}
