-- ===== src/Port/System.antt =====
-- port/nucleo_stm32f446re/src/port_system.c: the reset, and the set-up of the clocks.
-- The names of CMSIS are a parameter: the masks and positions of register fields, and the function
-- `SysTick_Config`. So is what the build decides.
pub mod Prescaler
pub mod Startup
pub mod Reset
use transmisor_receptor_ir.Common.{
  bit_or, if◌then◌else◌, Bool, ℕ, zero, suc, ◌+◌, ◌-◌, ◌*◌, ◌/◌, ◌%◌, ◌^◌, ◌≤◌, ◌<◌, ◌≡◌, refl, ◌∙◌,
  sym, ap, Bool, true, false, ◌&&◌, ◌==◌, Bool-cases, Option-cases, inl, inr, Option, some, none,
  List, [], ◌∷◌, ◌>>=◌, get_elem?, ltb, leb, if◌then◌else◌, bit_and, bit_and-half, bit_and-zero,
  shl32, clear_bits, set_bits, field, field-lt, field-write_field_other, arith, some_of_ne_none,
}
use transmisor_receptor_ir.Port.State.{Board, Clock, systick_irqn, plain}
use transmisor_receptor_ir.Port.Gpio.{put_priority, set_priority}

pub record Cmsis : Type 0 where
  pub flash_acr_icen : ℕ
  pub flash_acr_dcen : ℕ
  pub flash_acr_prften : ℕ
  pub flash_acr_latency_2ws : ℕ
  pub pwr_cr_vos : ℕ
  pub pwr_cr_vos_pos : ℕ
  pub rcc_cr_hsitrim : ℕ
  pub rcc_cr_hsitrim_pos : ℕ
  pub rcc_cfgr_sw : ℕ
  pub rcc_cfgr_sw_hsi : ℕ
  pub rcc_cfgr_sw_pos : ℕ
  pub rcc_cfgr_hpre : ℕ
  pub rcc_cfgr_hpre_pos : ℕ
  pub systick_config : ℕ → Board → Board

-- What the build decides: its macros, the addresses, and the set-up of external memories.
pub record Build : Type 0 where
  pub fpu_used : Bool
  pub data_in_ext_memory : Bool
  pub system_init_ext_mem_ctl : Board → Board
  pub user_vect_tab_address : Bool
  pub vect_tab_base_address : ℕ
  pub vect_tab_offset : ℕ

-- `SystemInit`, which runs before `main`.
unfoldable pub system_init : Build → Board → Board
system_init build b =
    let b₁ : Board =
      if build.fpu_used
      then record b { cpacr = set_bits b.cpacr (bit_or (shl32 3 (10 * 2)) (shl32 3 (11 * 2))) }
      else b in
    let b₂ = if build.data_in_ext_memory then build.system_init_ext_mem_ctl b₁ else b₁ in
    if build.user_vect_tab_address
    then record b₂ { vtor = bit_or build.vect_tab_base_address build.vect_tab_offset }
    else b₂

abbrev pub hsi_value : ℕ
hsi_value = 16000000

abbrev pub ahb_presc_table : List ℕ
ahb_presc_table = 0 ∷ 0 ∷ 0 ∷ 0 ∷ 0 ∷ 0 ∷ 0 ∷ 0 ∷ 1 ∷ 2 ∷ 3 ∷ 4 ∷ 6 ∷ 7 ∷ 8 ∷ 9 ∷ []

abbrev pub power_regulator_voltage_scale3 : ℕ
power_regulator_voltage_scale3 = 0x01

abbrev pub rcc_hsi_calibration_default : ℕ
rcc_hsi_calibration_default = 0x10

abbrev pub nvic_priority_group_4 : ℕ
nvic_priority_group_4 = 0x00000003

abbrev pub tick_freq_1khz : ℕ
tick_freq_1khz = 1

-- `reg &= ~mask; reg |= mask & (value << pos);`
abbrev pub clean_and_set : ℕ → ℕ → ℕ → ℕ → ℕ
clean_and_set mask value pos reg = set_bits (clear_bits reg mask) (bit_and mask (shl32 value pos))

module _ (cmsis : Cmsis) where
  unfoldable pub system_clock_config : Board → Option Board
  system_clock_config b = do
    let cfgr =
        clean_and_set cmsis.rcc_cfgr_sw cmsis.rcc_cfgr_sw_hsi cmsis.rcc_cfgr_sw_pos
          b.clocks.rcc_cfgr
    shift ←
        get_elem? ahb_presc_table (bit_and cfgr cmsis.rcc_cfgr_hpre / 2 ^ cmsis.rcc_cfgr_hpre_pos)
    some (
        cmsis.systick_config (hsi_value / 2 ^ shift / (1000 / tick_freq_1khz)) (record b {
          clocks = record (b.clocks) {
            pwr_cr =
                clean_and_set cmsis.pwr_cr_vos power_regulator_voltage_scale3 cmsis.pwr_cr_vos_pos
                  b.clocks.pwr_cr;
            rcc_cr =
                clean_and_set cmsis.rcc_cr_hsitrim rcc_hsi_calibration_default
                  cmsis.rcc_cr_hsitrim_pos b.clocks.rcc_cr;
            flash_acr = cmsis.flash_acr_latency_2ws;
            rcc_cfgr = cfgr;
            system_core_clock = hsi_value / 2 ^ shift;
          };
        }))

  -- The result is the `size_t` that is returned, and the board.
  unfoldable pub port_system_init : Board → Option (ℕ × Board)
  unfolding system_clock_config
  port_system_init b = do
    c ← system_clock_config (record b {
      clocks = record (b.clocks) {
        flash_acr =
            set_bits
              (set_bits (set_bits b.clocks.flash_acr cmsis.flash_acr_icen) cmsis.flash_acr_dcen)
              cmsis.flash_acr_prften;
        pwren = true;
      };
      syscfgen = true;
      priority_grouping = nvic_priority_group_4;
      priority =
          (set_priority systick_irqn 0 0
            (record b { priority_grouping = nvic_priority_group_4 })).priority;
    })
    some (0, c)

-- What the reference manual and CMSIS say of these names, as far as it matters.
pub record IsDocumented (cmsis : Cmsis) : Type 0 where
  pub icen : cmsis.flash_acr_icen ≡ 512
  pub dcen : cmsis.flash_acr_dcen ≡ 1024
  pub prften : cmsis.flash_acr_prften ≡ 256
  pub latency : cmsis.flash_acr_latency_2ws ≡ 2
  pub sw : cmsis.rcc_cfgr_sw ≡ 3
  pub sw_hsi : cmsis.rcc_cfgr_sw_hsi ≡ 0
  pub sw_pos : cmsis.rcc_cfgr_sw_pos ≡ 0
  pub hpre : cmsis.rcc_cfgr_hpre ≡ 240
  pub hpre_pos : cmsis.rcc_cfgr_hpre_pos ≡ 4
  -- The counter counts from the load value to 0, its interrupt is on, and has the lowest priority.
  pub systick :
      (n : ℕ) (b : Board)
      → 0 < n
      → n ≤ 2 ^ 24
      → cmsis.systick_config n b
        ≡ put_priority systick_irqn
            (plain 15)
            (record b { clocks = record (b.clocks) { systick_load = n - 1 }; tickint = true })

-- The prescaler of the AHB, by the field HPRE of RCC_CFGR.
abbrev pub ahb_divisor : ℕ → ℕ
ahb_divisor hpre = if ltb hpre 8 then 1 else if ltb hpre 12 then 2 ^ (hpre - 7) else 2 ^ (hpre - 6)
