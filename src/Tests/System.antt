-- ===== src/Tests/System.antt =====
-- The set-up of the clocks and the delays of port/nucleo_stm32f446re/src/port_system.c.
use transmisor_receptor_ir.Common.{
  ℕ, ◌+◌, ◌-◌, ◌/◌, ◌≤◌, ◌≡◌, ◌⊎◌, ◌<◌, ◌^◌, refl, some, inl, arith, true, bit_and, field, ◌∷◌, [],
  u32,
}
use transmisor_receptor_ir.Port.State.{Board, systick, systick_irqn, plain}
use transmisor_receptor_ir.Port.Gpio.{put_priority}
use transmisor_receptor_ir.Port.System.{Cmsis, IsDocumented, port_system_init}
use transmisor_receptor_ir.Port.System.Prescaler.{core_clock}
use transmisor_receptor_ir.Port.System.Startup.{port_system_init_lem, port_system_init-caches_off}
use transmisor_receptor_ir.Port.Button.{port_system_get_millis}
use transmisor_receptor_ir.Port.Delay.{IsClocked, port_system_delay_until_ms}
use transmisor_receptor_ir.Port.Delay.Until.{delay_until_ms_lem, delay_until_ms-wrapped}
use transmisor_receptor_ir.Tests.Boards.{rest_at}

-- The names as CMSIS has them for this microcontroller.
abbrev pub cmsis : Cmsis
cmsis = record {
  flash_acr_icen = 0x200;
  flash_acr_dcen = 0x400;
  flash_acr_prften = 0x100;
  flash_acr_latency_2ws = 0x2;
  pwr_cr_vos = 0xc000;
  pwr_cr_vos_pos = 14;
  rcc_cr_hsitrim = 0xf8;
  rcc_cr_hsitrim_pos = 3;
  rcc_cfgr_sw = 0x3;
  rcc_cfgr_sw_hsi = 0;
  rcc_cfgr_sw_pos = 0;
  rcc_cfgr_hpre = 0xf0;
  rcc_cfgr_hpre_pos = 4;
  systick_config = λ n b.
      put_priority systick_irqn (plain 15)
        (record b { clocks = record (b.clocks) { systick_load = n - 1 }; tickint = true });
}

pub cmsis-IsDocumented : IsDocumented cmsis
cmsis-IsDocumented = record {
  icen = refl;
  dcen = refl;
  prften = refl;
  latency = refl;
  sw = refl;
  sw_hsi = refl;
  sw_pos = refl;
  hpre = refl;
  hpre_pos = refl;
  systick = λ n b some_ticks few. refl;
}

-- A start with the AHB's prescaler at 4.
abbrev slow : Board
slow = record (rest_at 0 []) { clocks = record ((rest_at 0 []).clocks) { rcc_cfgr = 0x90 } }

port_system_init_lem_example :
    (c : Board) × (port_system_init cmsis slow ≡ some (0, c))
    × (c.clocks.system_core_clock ≡ core_clock (field 4 4 0x90))
    × (c.clocks.systick_load + 1 ≡ core_clock (field 4 4 0x90) / 1000)
    × (c.tickint ≡ true)
    × (c.syscfgen ≡ true)
    × (c.clocks.pwren ≡ true)
port_system_init_lem_example = port_system_init_lem cmsis cmsis-IsDocumented slow

port_system_init-caches_off_example :
    (c : Board) × (port_system_init cmsis slow ≡ some (0, c))
    × (bit_and c.clocks.flash_acr 0x200 ≡ 0)
    × (bit_and c.clocks.flash_acr 0x400 ≡ 0)
    × (bit_and c.clocks.flash_acr 0x100 ≡ 0)
port_system_init-caches_off_example = port_system_init-caches_off cmsis cmsis-IsDocumented slow

-- A board with an interrupt of SysTick before each access.
abbrev timed_at : ℕ → Board
timed_at ms = record (rest_at ms []) { arrivals = λ n. systick ∷ [] }

timed_at-IsClocked : (ms : ℕ) → ms < 2 ^ 32 → IsClocked (λ n. 0) 1 (timed_at ms)
timed_at-IsClocked ms small = record {
  valid = record { clock = omega arith; symbol_clock = refl; buffer = refl; index = omega arith };
  tickint = refl;
  timed = record { bounded = λ n. omega arith; next = λ n. inl refl };
}

delay_until_ms_lem_example :
    (c : Board) × (port_system_delay_until_ms (λ n. 0) 1 151 100 50 (timed_at 120)
      ≡ some (u32 c.systicks, c))
    × (150 ≤ c.systicks)
    × ((c.systicks ≤ 152) ⊎ (c.systicks ≤ 122))
delay_until_ms_lem_example =
    delay_until_ms_lem (λ n. 0) 1 151 100 50 (timed_at 120) (timed_at-IsClocked 120 (omega arith))
      (omega arith) (omega arith) (omega arith)

-- A deadline 50 ms after the wrap.
delay_until_ms-wrapped_example :
    port_system_delay_until_ms (λ n. 0) 1 151 4294967286 60 (timed_at 4294967290)
    ≡ some (port_system_get_millis (port_system_get_millis (timed_at 4294967290)).1)
delay_until_ms-wrapped_example =
    delay_until_ms-wrapped (λ n. 0) 1 151 4294967286 60 (timed_at 4294967290)
      (timed_at-IsClocked 4294967290 (omega arith)) (omega arith) (omega arith) (omega arith)
