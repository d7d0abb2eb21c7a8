-- ===== src/Port/System/Startup.antt =====
-- What the set-up of the clocks comes to (port/nucleo_stm32f446re/src/port_system.c).
use transmisor_receptor_ir.Common.{
  ℕ, ◌+◌, ◌-◌, ◌/◌, ◌^◌, ◌≡◌, refl, ◌∙◌, ap, true, some, bit_and, field, field-lt, arith,
}
use transmisor_receptor_ir.Port.State.{Board, systick_irqn, plain}
use transmisor_receptor_ir.Port.Gpio.{put_priority, set_priority}
use transmisor_receptor_ir.Port.System.{
  Cmsis, IsDocumented, hsi_value, power_regulator_voltage_scale3, rcc_hsi_calibration_default,
  clean_and_set, port_system_init, nvic_priority_group_4,
}
use transmisor_receptor_ir.Port.System.Prescaler.{
  hpre_field, switched_field, shift_of, shift_in_table, pow-shift_of, tick_fits, core_clock,
}

module _ (cmsis : Cmsis) (doc : IsDocumented cmsis) where
  index_eq :
      (r : ℕ)
      → bit_and
            (clean_and_set cmsis.rcc_cfgr_sw cmsis.rcc_cfgr_sw_hsi cmsis.rcc_cfgr_sw_pos r)
            cmsis.rcc_cfgr_hpre
          / 2 ^ cmsis.rcc_cfgr_hpre_pos
        ≡ field 4 4 r
  index_eq r =
      rw (doc.sw, doc.sw_hsi, doc.sw_pos, doc.hpre, doc.hpre_pos)
        (hpre_field (clean_and_set 3 0 0 r) ∙ switched_field r)

  -- The board that `SysTick_Config` is given.
  abbrev pub set_up : Board → Board
  set_up b = record b {
    clocks = record (b.clocks) {
      pwren = true;
      pwr_cr =
          clean_and_set cmsis.pwr_cr_vos power_regulator_voltage_scale3 cmsis.pwr_cr_vos_pos
            b.clocks.pwr_cr;
      rcc_cr =
          clean_and_set cmsis.rcc_cr_hsitrim rcc_hsi_calibration_default cmsis.rcc_cr_hsitrim_pos
            b.clocks.rcc_cr;
      flash_acr = cmsis.flash_acr_latency_2ws;
      rcc_cfgr =
          clean_and_set cmsis.rcc_cfgr_sw cmsis.rcc_cfgr_sw_hsi cmsis.rcc_cfgr_sw_pos
            b.clocks.rcc_cfgr;
      system_core_clock = hsi_value / 2 ^ shift_of (field 4 4 b.clocks.rcc_cfgr);
    };
    syscfgen = true;
    priority_grouping = nvic_priority_group_4;
    priority =
        (set_priority systick_irqn 0 0
          (record b { priority_grouping = nvic_priority_group_4 })).priority;
  }

  init_eq :
      (b : Board)
      → port_system_init cmsis b
        ≡ some (
          0,
          cmsis.systick_config
              (hsi_value / 2 ^ shift_of (field 4 4 b.clocks.rcc_cfgr) / 1000)
              (set_up b),
        )
  unfolding port_system_init
  init_eq b =
      let t = shift_in_table (field 4 4 b.clocks.rcc_cfgr) (field-lt 4 4 b.clocks.rcc_cfgr) in
      rw (index_eq b.clocks.rcc_cfgr, t) refl

  -- Where the set-up leads.
  unfoldable pub started : Board → Board
  started b = record (set_up b) {
    clocks = record ((set_up b).clocks) {
      systick_load = core_clock (field 4 4 b.clocks.rcc_cfgr) / 1000 - 1;
    };
    tickint = true;
    priority = (put_priority systick_irqn (plain 15) (set_up b)).priority;
  }

  pub init_started : (b : Board) → port_system_init cmsis b ≡ some (0, started b)
  unfolding started
  init_started b =
      let h = field 4 4 b.clocks.rcc_cfgr in
      let same = ap (λ (d : ℕ). hsi_value / d) (pow-shift_of h) in
      let (some_ticks, few) = tick_fits h (field-lt 4 4 b.clocks.rcc_cfgr) in
      init_eq b
      ∙ ap (λ (n : ℕ). some (0, cmsis.systick_config (n / 1000) (set_up b))) same
      ∙ ap (λ c. some (0, c))
          (doc.systick (core_clock h / 1000) (set_up b) some_ticks (omega arith))

  -- With CMSIS as documented, the set-up ends and returns 0: the core's clock is what HPRE makes of 16 MHz, SysTick interrupts
  -- once in every thousandth of the core's clock, and its interrupt and the clocks of SYSCFG and PWR
  -- are on.
  pub port_system_init_lem :
      (b : Board)
      → (c : Board) × (port_system_init cmsis b ≡ some (0, c))
        × (c.clocks.system_core_clock ≡ core_clock (field 4 4 b.clocks.rcc_cfgr))
        × (c.clocks.systick_load + 1 ≡ core_clock (field 4 4 b.clocks.rcc_cfgr) / 1000)
        × (c.tickint ≡ true)
        × (c.syscfgen ≡ true)
        × (c.clocks.pwren ≡ true)
  unfolding started
  port_system_init_lem b =
      let (some_ticks, few) =
        tick_fits (field 4 4 b.clocks.rcc_cfgr) (field-lt 4 4 b.clocks.rcc_cfgr) in
      (
        started b,
        init_started b,
        ap (λ (d : ℕ). hsi_value / d) (pow-shift_of (field 4 4 b.clocks.rcc_cfgr)),
        omega arith,
        refl,
        refl,
        refl,
      )

  -- With CMSIS as documented, the caches and the prefetch that the set-up turns on first are off when
  -- it ends: their bits are overwritten with the wait states.
  pub port_system_init-caches_off :
      (b : Board)
      → (c : Board) × (port_system_init cmsis b ≡ some (0, c))
        × (bit_and c.clocks.flash_acr cmsis.flash_acr_icen ≡ 0)
        × (bit_and c.clocks.flash_acr cmsis.flash_acr_dcen ≡ 0)
        × (bit_and c.clocks.flash_acr cmsis.flash_acr_prften ≡ 0)
  unfolding started
  port_system_init-caches_off b = (
    started b,
    init_started b,
    rw (doc.latency, doc.icen) refl,
    rw (doc.latency, doc.dcen) refl,
    rw (doc.latency, doc.prften) refl,
  )
