-- ===== src/Port/Sleep.antt =====
-- port/nucleo_stm32f446re/src/port_system.c: the stop mode.
use transmisor_receptor_ir.Common.{true, false}
use transmisor_receptor_ir.Port.State.{Board}
use transmisor_receptor_ir.Port.Power.{port_system_systick_suspend}
use transmisor_receptor_ir.Port.Interrupts.{poll}

-- `__WFI` waits for the interrupts that arrive next.
unfoldable pub port_system_power_stop : Board → Board
port_system_power_stop b =
    let b' = poll (record b { pdds = false; lpds = true; sleepdeep = true }) in
    record b' { sleepdeep = false }

unfoldable pub port_system_sleep : Board → Board
unfolding port_system_systick_suspend port_system_power_stop
port_system_sleep b = port_system_power_stop (port_system_systick_suspend b)
