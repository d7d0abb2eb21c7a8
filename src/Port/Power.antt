-- ===== src/Port/Power.antt =====
-- port/nucleo_stm32f446re/src/port_system.c: the SysTick interrupt's switch and handler.
use transmisor_receptor_ir.Common.{◌+◌, true, false, u32}
use transmisor_receptor_ir.Port.State.{Board}

unfoldable pub port_system_systick_suspend : Board → Board
port_system_systick_suspend b = record b { tickint = false }

unfoldable pub port_system_systick_resume : Board → Board
port_system_systick_resume b = record b { tickint = true }

unfoldable pub sys_tick_handler : Board → Board
sys_tick_handler b = record b { ms_ticks = u32 (b.ms_ticks + 1); systicks = b.systicks + 1 }
