-- ===== src/Fsm.antt =====
-- common/src/fsm.c and common/include/fsm.h: the engine that drives every state machine.
-- A machine of the program is a C struct whose first member is an `fsm_t`; here it is a state type
-- `S` with a `Machine` that reaches that member's `current_state`. The member `p_tt` is set once,
-- to the machine's own static table, so the table is an argument of `fsm_fire`. The ending of a
-- function in `none` is explained in Common/Run.
use transmisor_receptor_ir.Common.{
  ℕ, ◌+◌, Bool, true, false, ◌||◌, Option, none, some, List, [], ◌∷◌, ℤ, negsuc, int_eq, is_nonneg,
  if◌then◌else◌, ◌>>=◌, ◌≡◌, refl,
}

-- `fsm_trans_t`: `input` and `out` are the members `in` and `out`, with `none` for NULL. An input
-- function may write the state that it reads, and both kinds of function may go wrong.
pub record FsmTrans (S : Type 0) : Type 0 where
  pub orig_state : ℤ
  pub input : Option (S → Option (Bool × S))
  pub dest_state : ℤ
  pub out : Option (S → Option S)

-- The member `fsm_t f` of a machine's struct.
pub record Machine (S : Type 0) : Type 0 where
  pub current_state : S → ℤ
  pub set_state : ℤ → S → S
  pub current-set : (q : ℤ) (s : S) → current_state (set_state q s) ≡ q

-- A call through a pointer to an input function, and through one to an output function.
abbrev pub call_input : {S : Type 0} → Option (S → Option (Bool × S)) → S → Option (Bool × S)
call_input none s = none
call_input (some f) s = f s

abbrev pub call_out : {S : Type 0} → Option (S → Option S) → S → Option S
call_out none s = some s
call_out (some f) s = f s

-- `fsm_destroy`, with how many were freed before it: what is freed may not be used any more, and
-- `free` of what is not allocated is undefined.
abbrev pub fsm_destroy : {A : Type 0} → Option A → ℕ → Option (Option A × ℕ)
fsm_destroy none frees = none
fsm_destroy (some p_fsm) frees = some (none, frees + 1)

-- An input function that only reads.
abbrev pub reads : {S : Type 0} → (S → Option Bool) → Option (S → Option (Bool × S))
reads f = some (λ s. f s >>= λ met. some (met, s))

-- The null transition that ends a table.
abbrev pub null_trans : {S : Type 0} → FsmTrans S
null_trans = record { orig_state = negsuc 0; input = none; dest_state = negsuc 0; out = none }

module _ {S : Type 0} ⦃m : Machine S⦄ where
  -- `(p_fsm->current_state == p_t->orig_state) && p_t->in(p_fsm)`
  abbrev pub enabled : FsmTrans S → S → Option (Bool × S)
  enabled t s =
      if int_eq (m.current_state s) t.orig_state then call_input t.input s else some (false, s)

  -- What is done with a transition whose input condition is met.
  abbrev pub take : FsmTrans S → S → Option S
  take t s = call_out t.out (m.set_state t.dest_state s)

  unfoldable pub fsm_fire : List (FsmTrans S) → S → Option S
  fsm_fire [] s = none
  fsm_fire (t ∷ ts) s = elim (is_nonneg t.orig_state) [
    | false ↦ some s
    | true ↦ elim (enabled t s) [
      | none ↦ none
      | some (met, s') ↦ elim met [ true ↦ take t s' | false ↦ fsm_fire ts s' ]
    ]
  ]

  unfoldable pub fsm_init : Option (List (FsmTrans S)) → S → Option S
  fsm_init none s = some s
  fsm_init (some []) s = none
  fsm_init (some (t ∷ ts)) s = some (m.set_state t.orig_state s)

-- `fsm_t` by itself, as `fsm_new` makes it.
pub record FsmT : Type 0 where
  pub current_state : ℤ

instance abbrev pub fsm_machine : Machine FsmT
fsm_machine = record {
  current_state = λ s. s.current_state;
  set_state = λ q s. record { current_state = q };
  current-set = λ q s. refl;
}

abbrev is_null : {A : Type 0} → Option A → Bool
is_null none = true
is_null (some a) = false

-- The inner `none` is a NULL result. `memory` is what `malloc` gives: NULL, or a block with any
-- content.
unfoldable pub fsm_new : Option FsmT → Option (List (FsmTrans FsmT)) → Option (Option FsmT)
fsm_new memory none = some none
fsm_new memory (some []) = none
fsm_new memory (some (t ∷ ts)) =
    if int_eq t.orig_state (negsuc 0) || is_null t.input || int_eq t.dest_state (negsuc 0)
    then some none
    else elim memory [
      | none ↦ some none
      | some p_fsm ↦ fsm_init (some (t ∷ ts)) p_fsm >>= λ f. some (some f)
    ]
