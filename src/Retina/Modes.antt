-- ===== src/Retina/Modes.antt =====
-- The modes of the governing machine, and when it sleeps (common/src/fsm_retina.c).
use transmisor_receptor_ir.Common.{
  ℕ, zero, suc, [], ◌∷◌, ◌≡◌, ◌≢◌, ◌⊎◌, ◌<◌, inl, inr, true, false, some, List, arith, refl,
  some_of_ne_none, get_elem?,
}
use transmisor_receptor_ir.Retina.Port.{RetinaPort}
use transmisor_receptor_ir.Retina.{
  System, wait_tx, wait_rx, sleep_tx, sleep_rx, is_active, retina_fire, lil_red_button,
  lil_green_button, lil_blue_button,
}

-- The codes that presses send in turn.
abbrev pub messages : List ℕ
messages = lil_red_button ∷ lil_green_button ∷ lil_blue_button ∷ []

abbrev pub message : ℕ → ℕ
message zero = lil_red_button
message (suc zero) = lil_green_button
message (suc (suc n)) = lil_blue_button

pub get_elem?-messages : (n : ℕ) → n < 3 → get_elem? messages n ≡ some (message n)
get_elem?-messages zero h = refl
get_elem?-messages (suc zero) h = refl
get_elem?-messages (suc (suc zero)) h = refl
get_elem?-messages (suc (suc (suc n))) h = absurd (omega arith)

pub message-ne-zero : (n : ℕ) → message n ≢ 0
message-ne-zero zero e = omega arith
message-ne-zero (suc zero) e = omega arith
message-ne-zero (suc (suc n)) e = omega arith

-- The state is one of the four, the index is inside the array, which holds the three codes, and the
-- receiver is switched on in the states that receive.
pub record IsReady {B : Type 0} (s : System B) : Type 0 where
  pub known :
      (s.retina.current_state ≡ wait_tx)
      ⊎ ((s.retina.current_state ≡ wait_rx)
          ⊎ ((s.retina.current_state ≡ sleep_tx) ⊎ (s.retina.current_state ≡ sleep_rx)))
  pub codes : s.retina.tx_codes_arr ≡ messages
  pub index : s.retina.tx_codes_index < 3
  pub receiving :
      (s.retina.current_state ≡ wait_rx) ⊎ (s.retina.current_state ≡ sleep_rx) → s.rx.status ≡ true

abbrev pub IsAsleep : {B : Type 0} → System B → Type 0
IsAsleep s = (s.retina.current_state ≡ sleep_tx) ⊎ (s.retina.current_state ≡ sleep_rx)

module _ {B : Type 0} ⦃port : RetinaPort B⦄ where
  -- `s` with the board asleep, in the state of `t`.
  abbrev pub slept : System B → System B → System B
  slept s t = record s {
    retina = record (s.retina) { current_state = t.retina.current_state };
    board = port.system_sleep s.board;
  }

  -- A ready machine's call of `fsm_fire` does not go wrong: it reads no code outside the array.
  pub retina_fire_total : (s : System B) → IsReady s → (t : System B) × (retina_fire s ≡ some t)
  unfolding retina_fire
  retina_fire_total s r =
      some_of_ne_none (retina_fire s)
        (λ e. ground (arith, get_elem?-messages s.retina.tx_codes_index))

  -- A call of `fsm_fire` keeps the machine ready.
  pub retina_fire-IsReady : (s t : System B) → IsReady s → retina_fire s ≡ some t → IsReady t
  unfolding retina_fire
  retina_fire-IsReady s t r e = ground arith

  wait_tx_sleeps :
      (s t : System B)
      → s.retina.current_state ≡ wait_tx
      → retina_fire s ≡ some t
      → IsAsleep t
      → (is_active s ≡ false) × (t ≡ slept s t)
  unfolding retina_fire is_active
  wait_tx_sleeps s t q e z = ground arith

  wait_rx_sleeps :
      (s t : System B)
      → s.retina.current_state ≡ wait_rx
      → retina_fire s ≡ some t
      → IsAsleep t
      → (is_active s ≡ false) × (t ≡ slept s t)
  unfolding retina_fire is_active
  wait_rx_sleeps s t q e z = ground arith

  stays_asleep :
      (s t : System B)
      → IsAsleep s
      → retina_fire s ≡ some t
      → IsAsleep t
      → (is_active s ≡ false) × (t ≡ slept s t)
  unfolding retina_fire is_active
  stays_asleep s t q e z = ground arith

  -- Asleep after a call: none of the machines below was active, and the call has put the board to
  -- sleep and changed nothing else but the state.
  asleep_inactive :
      (s t : System B)
      → IsReady s
      → retina_fire s ≡ some t
      → IsAsleep t
      → (is_active s ≡ false) × (t ≡ slept s t)
  asleep_inactive s t r e z = elim r.known [
    | inl q ↦ wait_tx_sleeps s t q e z
    | inr (inl q) ↦ wait_rx_sleeps s t q e z
    | inr (inr q) ↦ stays_asleep s t q e z
  ]

  -- Where a machine below is active, the call wakes the machine in the mode in which it fell asleep,
  -- and changes nothing else.
  pub active_wakes :
      (s t : System B)
      → IsAsleep s
      → is_active s ≡ true
      → retina_fire s ≡ some t
      → (t.board ≡ s.board)
        × (t.button ≡ s.button)
        × (t.tx ≡ s.tx)
        × (t.rx ≡ s.rx)
        × ((s.retina.current_state ≡ sleep_tx) × (t.retina.current_state ≡ wait_tx)
            ⊎ (s.retina.current_state ≡ sleep_rx) × (t.retina.current_state ≡ wait_rx))
  unfolding retina_fire is_active
  active_wakes s t z a e = ground arith
