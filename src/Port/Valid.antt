-- ===== src/Port/Valid.antt =====
-- The boards that can occur, and what interrupts keep of them (port/nucleo_stm32f446re/src).
use transmisor_receptor_ir.Common.{◌≤◌, ◌≡◌, List, [], ◌∷◌, arith, length, length-set, u32, u16}
use transmisor_receptor_ir.Port.State.{Irq, systick, tim1_up, exti15_10, exti9_5, Board}
use transmisor_receptor_ir.Port.Handlers.{nec_frame_edges, store_edge_tick}
use transmisor_receptor_ir.Port.Interrupts.{serve, serve_all, poll}

pub record IsValid (b : Board) : Type 0 where
  pub clock : b.ms_ticks ≡ u32 b.systicks
  pub symbol_clock : b.symbol_tick ≡ u32 b.symbols
  pub buffer : length b.edge_ticks ≡ nec_frame_edges
  pub index : b.edge_idx ≤ nec_frame_edges

store_edge_tick-IsValid : (b : Board) → IsValid b → IsValid (store_edge_tick b)
unfolding store_edge_tick
store_edge_tick-IsValid b v = ground (arith, length-set b.edge_ticks b.edge_idx (u16 b.tim3.cnt))

pub serve-IsValid : (i : Irq) (b : Board) → IsValid b → IsValid (serve i b)
unfolding serve
serve-IsValid systick b v = ground arith
serve-IsValid tim1_up b v = ground arith
serve-IsValid (exti15_10 pr idr) b v = ground arith
serve-IsValid (exti9_5 pr idr cnt) b v =
    ground (arith, length-set b.edge_ticks b.edge_idx (u16 cnt))

pub serve_all-IsValid : (is : List Irq) (b : Board) → IsValid b → IsValid (serve_all is b)
unfolding serve_all
serve_all-IsValid [] b v = v
serve_all-IsValid (i ∷ is) b v = serve_all-IsValid is (serve i b) (serve-IsValid i b v)

-- Serving interrupts keeps a board valid.
pub poll-IsValid : (b : Board) → IsValid b → IsValid (poll b)
unfolding poll
poll-IsValid b v = serve_all-IsValid (b.arrivals b.accesses) _ (ground arith)

systicks-le-serve : (i : Irq) (b : Board) → b.systicks ≤ (serve i b).systicks
unfolding serve store_edge_tick
systicks-le-serve systick b = ground arith
systicks-le-serve tim1_up b = ground arith
systicks-le-serve (exti15_10 pr idr) b = ground arith
systicks-le-serve (exti9_5 pr idr cnt) b = ground arith

systicks-le-serve_all : (is : List Irq) (b : Board) → b.systicks ≤ (serve_all is b).systicks
unfolding serve_all
systicks-le-serve_all [] b = omega arith
systicks-le-serve_all (i ∷ is) b =
    omega (arith, systicks-le-serve i b, systicks-le-serve_all is (serve i b))

pub systicks-le-poll : (b : Board) → b.systicks ≤ (poll b).systicks
unfolding poll
systicks-le-poll b = systicks-le-serve_all (b.arrivals b.accesses) _
