-- ===== src/Tx/Wave.antt =====
-- What the transmitter puts on the air (common/src/fsm_tx.c, `fsm_send_NEC_code`): the wave of a
-- code, burst by burst, against the waves that common/include/fsm_tx.h describes.
use native.Mathlib.Nat.{one-le-pow}
use transmisor_receptor_ir.Common.{
  ℕ, zero, suc, ◌+◌, ◌/◌, ◌%◌, ◌≤◌, ◌<◌, ◌^◌, ◌≡◌, refl, ◌∙◌, Bool, true, false, Option, some, List,
  [], ◌∷◌, ◌++◌, map, arith, sym, ap, replicate, append_assoc, append_nil, ◌==◌, if◌then◌else◌,
  ◌>>=◌, bits_of, bits_of-suc, bits_of-zero, half-pow, mask_test, bit_and,
}
use transmisor_receptor_ir.Tx.Port.{TxPort}
use transmisor_receptor_ir.Tx.{
  nec_tx_prologue, nec_tx_sym_0, nec_tx_sym_1, nec_tx_epilogue, send_nec_burst, send_bits,
  fsm_send_nec_code,
}
use transmisor_receptor_ir.Ticker.{reads_for}
use transmisor_receptor_ir.Tx.Wait.{wait_for_tx_ticks_lem}

-- The bursts of a frame, as the header gives them: ticks with the carrier on, and ticks with it off.
abbrev pub symbol_of : Bool → ℕ × ℕ
symbol_of false = nec_tx_sym_0
symbol_of true = nec_tx_sym_1

unfoldable pub nominal_wave : ℕ → List (ℕ × ℕ)
nominal_wave code = nec_tx_prologue ∷ (map symbol_of (bits_of 32 code) ++ nec_tx_epilogue ∷ [])

-- A bit under its mask.
masked_symbol :
    (k code : ℕ)
    → (if bit_and code (2 ^ k) == 0 then nec_tx_sym_0 else nec_tx_sym_1)
      ≡ symbol_of (code / 2 ^ k % 2 == 1)
masked_symbol k code = ground (arith, mask_test k code)

-- Every duration is the nominal one, or one tick longer.
abbrev pub IsNear : ℕ × ℕ → ℕ × ℕ → Type 0
IsNear n w = (n.0 ≤ w.0) × (w.0 ≤ n.0 + 1) × (n.1 ≤ w.1) × (w.1 ≤ n.1 + 1)

pub data AreNear : List (ℕ × ℕ) → List (ℕ × ℕ) → Type 0 where
  none_left : AreNear [] []
  near :
      {n w : ℕ × ℕ} {ns ws : List (ℕ × ℕ)} → IsNear n w → AreNear ns ws → AreNear (n ∷ ns) (w ∷ ws)

AreNear-append :
    {ms vs ns ws : List (ℕ × ℕ)} → AreNear ms vs → AreNear ns ws → AreNear (ms ++ ns) (vs ++ ws)
AreNear-append none_left q = q
AreNear-append (near h p) q = near h (AreNear-append p q)

-- Whether there is a carrier at each tick of a wave.
abbrev pub air_of : List (ℕ × ℕ) → List Bool
air_of [] = []
air_of ((on, off) ∷ ws) = replicate on true ++ (replicate off false ++ air_of ws)

air_of-append : (vs ws : List (ℕ × ℕ)) → air_of (vs ++ ws) ≡ air_of vs ++ air_of ws
air_of-append [] ws = refl
air_of-append ((on, off) ∷ vs) ws =
    ap (λ l. replicate on true ++ (replicate off false ++ l)) (air_of-append vs ws)
    ∙ ap (λ l. replicate on true ++ l)
        (sym (append_assoc (replicate off false) (air_of vs) (air_of ws)))
    ∙ sym (append_assoc (replicate on true) (replicate off false ++ air_of vs) (air_of ws))

module _ {B : Type 0} ⦃port : TxPort B⦄ where
  open port use {IsBoard, IsRunning, on_air, carrier, period, pwm_timer_set}

  -- `Emits b ws c`: at the ticks of the symbol timer from `b` to `c`, the carrier is on and off as
  -- in the bursts `ws`.
  abbrev pub Emits : B → List (ℕ × ℕ) → B → Type 0
  Emits b ws c = on_air c ≡ on_air b ++ air_of ws

  Emits-append :
      (b c d : B) (vs ws : List (ℕ × ℕ)) → Emits b vs c → Emits c ws d → Emits b (vs ++ ws) d
  Emits-append b c d vs ws p q =
      q
      ∙ ap (λ l. l ++ air_of ws) p
      ∙ append_assoc (on_air b) (air_of vs) (air_of ws)
      ∙ ap (λ l. on_air b ++ l) (sym (air_of-append vs ws))

  -- A run that sends bursts near the given ones.
  pub record Sends (o : Option B) (b : B) (nominal : List (ℕ × ℕ)) : Type 0 where
    pub last : B
    pub returns : o ≡ some last
    pub wave : List (ℕ × ℕ)
    pub emits : Emits b wave last
    pub near_nominal : AreNear nominal wave
    pub running : IsRunning last

  Sends-nothing : (b : B) → IsRunning b → Sends (some b) b []
  Sends-nothing b v = record {
    last = b;
    returns = refl;
    wave = [];
    emits = sym (append_nil (on_air b));
    near_nominal = none_left;
    running = v;
  }

  -- One run after another.
  Sends->>= :
      {o : Option B} {b : B} {ms ns : List (ℕ × ℕ)} (f : B → Option B) (p : Sends o b ms)
      → Sends (f p.last) p.last ns
      → Sends (o >>= f) b (ms ++ ns)
  Sends->>= {b} f p q = record {
    last = q.last;
    returns = rw p.returns q.returns;
    wave = p.wave ++ q.wave;
    emits = Emits-append b p.last q.last p.wave q.wave p.emits q.emits;
    near_nominal = AreNear-append p.near_nominal q.near_nominal;
    running = q.running;
  }

  -- Ticks with the carrier on, and ticks with it off.
  burst-Emits :
      (n m : ℕ) (b c d : B)
      → let b' = pwm_timer_set 0 true b in
        let c' = pwm_timer_set 0 false c in
        on_air c ≡ on_air b' ++ replicate n (carrier b')
        → on_air d ≡ on_air c' ++ replicate m (carrier c')
        → Emits b ((n, m) ∷ []) d
  burst-Emits n m b c d p q =
      let b' = pwm_timer_set 0 true b in
      let c' = pwm_timer_set 0 false c in
      let first : on_air c' ≡ on_air b ++ replicate n true =
        port.on_air-pwm_timer_set 0 false c
        ∙ p
        ∙ ap (λ l. l ++ replicate n (carrier b')) (port.on_air-pwm_timer_set 0 true b)
        ∙ ap (λ on. on_air b ++ replicate n on) (port.carrier-pwm_timer_set true b) in
      q
      ∙ ap (λ l. l ++ replicate m (carrier c')) first
      ∙ ap (λ on. (on_air b ++ replicate n true) ++ replicate m on)
          (port.carrier-pwm_timer_set false c)
      ∙ append_assoc (on_air b) (replicate n true) (replicate m false)
      ∙ ap (λ l. on_air b ++ (replicate n true ++ l)) (sym (append_nil (replicate m false)))

  module _ (fuel : ℕ) where
    send_nec_burst-Sends :
        (on off : ℕ) (b : B)
        → IsRunning b
        → 0 < on
        → 0 < off
        → on + off < 2 ^ 32
        → reads_for period (on + off) ≤ fuel
        → Sends (send_nec_burst fuel 0 (on, off) b) b ((on, off) ∷ [])
    unfolding send_nec_burst
    send_nec_burst-Sends on off b v h k small enough =
        let b' = pwm_timer_set 0 true b in
        let (n, (c, e, _, p, _, w), lo, hi) =
          wait_for_tx_ticks_lem fuel on b' (port.pwm_timer_set-IsRunning 0 true b v) h (omega arith)
            (omega arith) in
        let c' = pwm_timer_set 0 false c in
        let (m, (d, e', _, p', _, w'), lo', hi') =
          wait_for_tx_ticks_lem fuel off c' (port.pwm_timer_set-IsRunning 0 false c w) k
            (omega arith) (omega arith) in
        record {
          last = d;
          returns = rw (e, e') refl;
          wave = (n, m) ∷ [];
          emits = burst-Emits n m b c d p p';
          near_nominal = near (lo, hi, lo', hi') none_left;
          running = w';
        }

    send_bits-suc :
        (r code mask : ℕ) (b : B)
        → 0 < mask
        → send_bits fuel (suc r) 0 code mask b ≡ (
            send_nec_burst fuel 0 (if bit_and code mask == 0 then nec_tx_sym_0 else nec_tx_sym_1) b
            >>= λ c. send_bits fuel r 0 code (mask / 2) c)
    unfolding send_bits
    send_bits-suc r code mask b h = ground arith

    send_bits-zero : (r code : ℕ) (b : B) → send_bits fuel (suc r) 0 code 0 b ≡ some b
    unfolding send_bits
    send_bits-zero r code b = refl

    module _ (enough : reads_for period 40 ≤ fuel) where
      symbol-Sends :
          (bit : Bool) (b : B)
          → IsRunning b
          → Sends (send_nec_burst fuel 0 (symbol_of bit) b) b (symbol_of bit ∷ [])
      symbol-Sends false b v =
          send_nec_burst-Sends 10 10 b v (omega arith) (omega arith) (omega arith) (omega arith)
      symbol-Sends true b v =
          send_nec_burst-Sends 10 30 b v (omega arith) (omega arith) (omega arith) (omega arith)

      bit-Sends :
          (k r code : ℕ) (b : B)
          → IsRunning b
          → ((c : B)
              → IsRunning c
              → Sends (send_bits fuel r 0 code (2 ^ k / 2) c) c (map symbol_of (bits_of k code)))
          → Sends (send_bits fuel (suc r) 0 code (2 ^ k) b) b (map symbol_of (bits_of (suc k) code))
      bit-Sends k r code b v rest =
          let p = symbol-Sends (code / 2 ^ k % 2 == 1) b v in
          rw
            (
              bits_of-suc k code,
              send_bits-suc r code (2 ^ k) b (one-le-pow k 2 (omega arith)),
              masked_symbol k code,
            )
            (Sends->>= (λ c. send_bits fuel r 0 code (2 ^ k / 2) c) p (rest p.last p.running))

      -- The bits from `k` down, by the mask of bit `k`.
      send_bits-Sends :
          (k rounds code : ℕ) (b : B)
          → IsRunning b
          → suc k < rounds
          → Sends (send_bits fuel rounds 0 code (2 ^ k) b) b (map symbol_of (bits_of (suc k) code))
      send_bits-Sends k zero code b v h = absurd (omega arith)
      send_bits-Sends zero (suc zero) code b v h = absurd (omega arith)
      send_bits-Sends zero (suc (suc r)) code b v h =
          bit-Sends 0 (suc r) code b v
            (λ c w. rw (send_bits-zero r code c, bits_of-zero code) (Sends-nothing c w))
      send_bits-Sends (suc k) (suc r) code b v h =
          bit-Sends (suc k) r code b v
            (λ c w. rw (half-pow k) (send_bits-Sends k r code c w (omega arith)))

    -- Sending a code, with enough reads of the tick for the longest wait, returns; and at the ticks
    -- of the symbol timer since its start the carrier has been on and off as in the frame of the
    -- code, the prologue, the 32 bits, the highest one first, and the epilogue, each duration the
    -- nominal one or one tick longer.
    pub fsm_send_nec_code-wave :
        (code : ℕ) (b : B)
        → reads_for period 3570 ≤ fuel
        → IsBoard b
        → (c : B) × (ws : List (ℕ × ℕ)) × (fsm_send_nec_code fuel 0 code b ≡ some c)
          × Emits (port.symbol_tmr_start b) ws c
          × AreNear (nominal_wave code) ws
          × IsBoard c
    unfolding fsm_send_nec_code nominal_wave
    fsm_send_nec_code-wave code b enough v =
        let prologue =
          send_nec_burst-Sends 160 80 (port.symbol_tmr_start b)
            (port.symbol_tmr_start-IsRunning b v) (omega arith) (omega arith) (omega arith)
            (omega arith) in
        let bits =
          send_bits-Sends (omega arith) 31 33 code prologue.last prologue.running (omega arith) in
        let epilogue =
          send_nec_burst-Sends 10 3560 bits.last bits.running (omega arith) (omega arith)
            (omega arith) (omega arith) in
        (
          port.symbol_tmr_stop epilogue.last,
          prologue.wave ++ (bits.wave ++ epilogue.wave),
          rw (prologue.returns, bits.returns, epilogue.returns) refl,
          port.on_air-symbol_tmr_stop epilogue.last
              ∙ Emits-append (port.symbol_tmr_start b) prologue.last epilogue.last prologue.wave
                  (bits.wave ++ epilogue.wave) prologue.emits
                  (Emits-append prologue.last bits.last epilogue.last bits.wave epilogue.wave
                    bits.emits epilogue.emits),
          AreNear-append prologue.near_nominal
              (AreNear-append bits.near_nominal epilogue.near_nominal),
          port.symbol_tmr_stop-IsBoard epilogue.last epilogue.running,
        )
