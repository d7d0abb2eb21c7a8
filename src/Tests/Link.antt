-- ===== src/Tests/Link.antt =====
-- Two boards: a press on the one, and the LED of the other.
use transmisor_receptor_ir.Common.{
  ℕ, ◌+◌, ◌*◌, ◌≡◌, ◌∙◌, refl, sym, ap, some, false, true, List, [], ◌∷◌, ◌++◌, arith, length,
  length-append, length-replicate, replicate,
}
use transmisor_receptor_ir.Air.Sampled.{symbol_cycles, edge_counts, length-edge_counts_frame}
use transmisor_receptor_ir.Button.{ButtonOn, button_fire}
use transmisor_receptor_ir.Tx.{TxOn, tx_fire}
use transmisor_receptor_ir.Tx.Carrier.{IsWave, AreNear-IsWave, nominal_wave-IsWave}
use transmisor_receptor_ir.Rx.Results.{IsTimeout}
use transmisor_receptor_ir.Retina.{System, lil_green_button}
use transmisor_receptor_ir.Main.{main_round}
use transmisor_receptor_ir.Main.Runs.{IsGoing}
use transmisor_receptor_ir.Main.Heard.{receiver_of}
use transmisor_receptor_ir.Main.Board.{SendsOn}
use transmisor_receptor_ir.Main.Link.{IsListening, IsPressed, press_lights}
use transmisor_receptor_ir.Port.State.{Irq, Board, systick, gpiob, gpioc}
use transmisor_receptor_ir.Port.Button.{port_button_is_pressed, port_system_get_millis}
use transmisor_receptor_ir.Port.Interrupts.{poll, serve}
use transmisor_receptor_ir.Port.Edges.{take, replay}
use transmisor_receptor_ir.Port.Heard.{captured_soon}
use transmisor_receptor_ir.Port.Wave.{edge_irq, line_irqs, wave_irqs, replay_frame}
use transmisor_receptor_ir.Port.Rgb.{rgb_r_0_pin, rgb_g_0_pin, rgb_b_0_pin}
use transmisor_receptor_ir.Port.Led.{driven}
use transmisor_receptor_ir.Port.ForTx.{board_tx}
use transmisor_receptor_ir.Port.ForRx.{board_rx}
use transmisor_receptor_ir.Port.ForRetina.{board_retina}
use transmisor_receptor_ir.Port.ForMain.{paced_button, paced_rx}
use transmisor_receptor_ir.Tests.System.{cmsis}
use transmisor_receptor_ir.Tests.Main.{parsers, pressed, pressed-IsGoing, reported, pressed_sends}
use transmisor_receptor_ir.Tests.Heard.{hearing, hearing-IsGoing}

-- What the sending board does in its two rounds.
abbrev sends : SendsOn (λ n. 0) 1 cmsis 3571 parsers pressed pressed_sends.0 pressed_sends.1
sends = pressed_sends.2

abbrev counts : List ℕ
counts = edge_counts 7 sends.sent.wave

length-counts : length counts ≡ 68
length-counts = length-edge_counts_frame lil_green_button 7 sends.sent.near_nominal

-- The receiving board, with the timer's counts at the edges of that wave in its buffer.
abbrev receiving_board : Board
receiving_board = record (hearing.board) { edge_ticks = counts ++ replicate 188 0; edge_idx = 68 }

abbrev receiving : System Board
receiving = record hearing { board = receiving_board }

receiving-IsGoing : IsGoing ⦃tx_port = board_tx (λ n. 0) 1⦄ receiving
receiving-IsGoing = record {
  sound = record {
    ready = record {
      known = hearing-IsGoing.sound.ready.known;
      codes = refl;
      index = omega arith;
      receiving = λ z. refl;
    };
    owned = record {
      known = hearing-IsGoing.sound.owned.known;
      off = hearing-IsGoing.sound.owned.off;
      idle = hearing-IsGoing.sound.owned.idle;
      wait = hearing-IsGoing.sound.owned.wait;
      balance = refl;
    };
  };
  on_board = record {
    valid = record {
      clock = refl;
      symbol_clock = refl;
      buffer = omega (
        arith,
        length-append counts (replicate 188 0),
        length-replicate {A = ℕ} 188 0,
        length-counts,
      );
      index = omega arith;
    };
    uie = refl;
    irq = refl;
    paced = hearing-IsGoing.on_board.paced;
  };
  waiting = hearing-IsGoing.waiting;
}

button_stage :
    (b : ButtonOn Board) × (button_fire ⦃port = paced_button (λ n. 0) 1⦄
        (record { fsm = receiving.button; board = receiving.board })
      ≡ some b)
unfolding button_fire port_button_is_pressed poll serve
button_stage = (_, refl)

tx_stage :
    (x : TxOn Board) × (tx_fire ⦃port = board_tx (λ n. 0) 1⦄ 3571
        (record { fsm = receiving.tx; board = button_stage.0.board })
      ≡ some x)
unfolding button_stage tx_fire poll serve
tx_stage = (_, refl)

timed_out :
    IsTimeout ⦃port = board_rx⦄ parsers (receiver_of (λ n. 0) 1 3571 parsers receiving tx_stage.0)
unfolding tx_stage button_stage port_system_get_millis poll serve
timed_out = (refl, omega arith)

take-length : (xs ys : List ℕ) → take (length xs) (xs ++ ys) ≡ xs
take-length [] ys = refl
take-length (x ∷ xs) ys = ap (λ l. x ∷ l) (take-length xs ys)

line_irqs-wave_irqs : (t : ℕ) (ws : List (ℕ × ℕ)) → line_irqs (wave_irqs t ws) ≡ wave_irqs t ws
line_irqs-wave_irqs t [] = refl
line_irqs-wave_irqs t ((on, off) ∷ ws) =
    let t' = t + symbol_cycles * on in
    ap (λ l. edge_irq false t ∷ edge_irq true t' ∷ l)
      (line_irqs-wave_irqs (t' + symbol_cycles * off) ws)

-- The interrupts since the buffer was cleaned.
abbrev since : List Irq
since = systick ∷ wave_irqs 7 sends.sent.wave

captured_since : captured_soon tx_stage.0.board ≡ replay since []
unfolding tx_stage button_stage poll serve
captured_since =
    ap (λ (n : ℕ). take n (counts ++ replicate 188 0)) (sym length-counts)
    ∙ take-length counts (replicate 188 0)
    ∙ sym (
        replay_frame lil_green_button 7 sends.sent.wave since sends.sent.near_nominal
          (line_irqs-wave_irqs 7 sends.sent.wave))

listening : IsListening (λ n. 0) 1 3571 parsers receiving button_stage.0 tx_stage.0
unfolding tx_stage button_stage poll serve
listening = record {
  enough = omega arith;
  never_null = λ k e. absurd (ground arith);
  going = receiving-IsGoing;
  mode = refl;
  button_fires = button_stage.1;
  tx_fires = tx_stage.1;
  on = refl;
  timeout = timed_out;
}

pressing :
    IsPressed (λ n. 0) 1 3571 parsers pressed reported.0 pressed_sends.0 sends.button sends.tx
pressing = record {
  enough = omega arith;
  never_null = λ k e. absurd (ground arith);
  going = pressed-IsGoing;
  mode = refl;
  reports = reported.1;
  pressed = λ e. omega (arith, reported.2);
  short = omega (arith, reported.2);
  returns = sends.first;
  button_fires = sends.button_fires;
  tx_fires = sends.tx_fires;
}

sent-IsWave : IsWave sends.sent.wave
sent-IsWave = AreNear-IsWave (nominal_wave-IsWave lil_green_button) sends.sent.near_nominal

press_lights_example :
    (v : System Board) × (main_round ⦃button_port = paced_button (λ n. 0) 1⦄
        ⦃tx_port = board_tx (λ n. 0) 1⦄ ⦃rx_port = paced_rx (λ n. 0) 1⦄ ⦃retina_port = board_retina⦄
        3571 parsers receiving
      ≡ some v)
    × (driven gpiob rgb_r_0_pin v.board.bsrr ≡ some false)
    × (driven gpioc rgb_g_0_pin v.board.bsrr ≡ some true)
    × (driven gpiob rgb_b_0_pin v.board.bsrr ≡ some false)
press_lights_example =
    press_lights (λ n. 0) (λ n. 0) 1 1 cmsis 3571 3571 parsers parsers pressed reported.0
      pressed_sends.0 sends.button sends.tx sends.sent.wave receiving button_stage.0 tx_stage.0 7
      since pressing sent-IsWave sends.sent.emits listening captured_since
      (line_irqs-wave_irqs 7 sends.sent.wave)
