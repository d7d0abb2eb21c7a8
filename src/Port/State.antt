-- ===== src/Port/State.antt =====
-- The state of the board (port/nucleo_stm32f446re): the static variables of the port's files, and
-- the registers of the microcontroller that they write. A flag of a register that is only set and
-- cleared by itself is a `Bool`. What hardware does is not defined here: a register that hardware
-- writes is set by the interrupts that arrive, and a register that acts by being written keeps the
-- values that were written.
use transmisor_receptor_ir.Common.{ℕ, Bool, List}

-- The interrupts of the program, with what hardware shows in the registers that their service
-- routines read: `EXTI->PR`, the port's `IDR`, `TIM3->CNT`.
pub data Irq : Type 0 where
  systick : Irq
  tim1_up : Irq
  exti15_10 : (pr idr : ℕ) → Irq
  exti9_5 : (pr idr cnt : ℕ) → Irq

-- The interrupts that the NVIC turns on and off, and whose priorities it keeps.
pub data Irqn : Type 0 where
  exti_line : ℕ → Irqn
  exti9_5_irqn exti15_10_irqn tim1_up_tim10_irqn systick_irqn : Irqn

-- A priority: what `NVIC_EncodePriority` makes of the grouping and the two parts, or a number.
pub data Priority : Type 0 where
  encoded : (grouping preempt sub : ℕ) → Priority
  plain : ℕ → Priority

-- `GPIO_TypeDef`. A pointer to one is the port's number: 0 for GPIOA, 1 for GPIOB, and so on.
pub record Gpio : Type 0 where
  pub moder : ℕ
  pub pupdr : ℕ
  pub afr0 : ℕ
  pub afr1 : ℕ
  pub idr : ℕ

abbrev pub gpioa : ℕ
gpioa = 0

abbrev pub gpiob : ℕ
gpiob = 1

abbrev pub gpioc : ℕ
gpioc = 2

-- `TIM_TypeDef`, with the timer's clock in `RCC`.
pub record Timer : Type 0 where
  pub clock_on : Bool
  pub cen : Bool
  pub cnt : ℕ
  pub arr : ℕ
  pub psc : ℕ
  pub ug : Bool
  pub uif : Bool
  pub uie : Bool

-- `EXTI`: `pr` is what a read shows, and `pr_write` what was last written.
pub record Exti : Type 0 where
  pub imr : ℕ
  pub emr : ℕ
  pub rtsr : ℕ
  pub ftsr : ℕ
  pub pr : ℕ
  pub pr_write : ℕ

-- The clocks and the memory's access, of `FLASH`, `PWR`, `RCC` and `SysTick`, with the variable
-- `SystemCoreClock` of port_system.c. `pwr_cr` is without the bits PDDS and LPDS.
pub record Clock : Type 0 where
  pub flash_acr : ℕ
  pub pwr_cr : ℕ
  pub pwren : Bool
  pub rcc_cr : ℕ
  pub rcc_cfgr : ℕ
  pub systick_load : ℕ
  pub system_core_clock : ℕ

pub record Board : Type 0 where
  -- port_system.c
  pub ms_ticks : ℕ
  -- port_button.c, `buttons_arr[BUTTON_0_ID].flag_pressed`
  pub flag_pressed : Bool
  -- port_rx.c, `receivers_arr[IR_RX_0_ID]`
  pub edge_ticks : List ℕ
  pub edge_idx : ℕ
  -- port_tx.c
  pub symbol_tick : ℕ
  -- registers
  pub gpio : ℕ → Gpio
  pub gpioaen : Bool
  pub gpioben : Bool
  pub gpiocen : Bool
  pub syscfgen : Bool
  pub exticr : ℕ → ℕ
  pub exti : Exti
  pub tim1 : Timer
  pub tim2 : Timer
  pub tim3 : Timer
  pub cc3e : Bool
  pub ccmr2 : ℕ
  pub oc3pe : Bool
  pub ccr3 : ℕ
  pub clocks : Clock
  pub tickint : Bool
  pub pdds : Bool
  pub lpds : Bool
  pub sleepdeep : Bool
  -- The lines that `NVIC_EnableIRQ` has turned on.
  pub irq_on : Irqn → Bool
  -- What `NVIC_SetPriorityGrouping` and `NVIC_SetPriority` were last given.
  pub priority_grouping : ℕ
  pub priority : Irqn → Priority
  -- `SCB->CPACR` and `SCB->VTOR`
  pub cpacr : ℕ
  pub vtor : ℕ
  -- What was written to a port's `BSRR`, the newest first: the port and the value.
  pub bsrr : List (ℕ × ℕ)
  -- No part of the program: how many SysTick interrupts were served since the start, and how many
  -- of TIM1 since `port_tx_symbol_tmr_start`; the interrupts that arrive before each access to what
  -- a service routine shares, and how many such accesses there have been.
  pub systicks : ℕ
  pub symbols : ℕ
  -- Nor this: whether there was a carrier at each interrupt of TIM1 that was served, in order.
  pub on_air : List Bool
  pub arrivals : ℕ → List Irq
  pub accesses : ℕ
