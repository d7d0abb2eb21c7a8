-- ===== src/Tx/Carrier.antt =====
-- What a carrier tells of a wave: two waves of common/src/fsm_tx.c that are the same at each tick of
-- the symbol timer have the same bursts.
use transmisor_receptor_ir.Common.{
  ℕ, zero, suc, ◌<◌, ◌≡◌, ◌≢◌, refl, sym, ap, ◌∙◌, Bool, true, false, Option, none, some, List, [],
  ◌∷◌, ◌++◌, map, replicate, arith, bits_of,
}
use transmisor_receptor_ir.Tx.{nec_tx_epilogue}
use transmisor_receptor_ir.Tx.Wave.{symbol_of, nominal_wave, AreNear, none_left, near, air_of}

-- Every burst has a tick with the carrier on, and one with it off.
pub data IsWave : List (ℕ × ℕ) → Type 0 where
  silent : IsWave []
  burst : {on off : ℕ} {ws : List (ℕ × ℕ)} → 0 < on → 0 < off → IsWave ws → IsWave ((on, off) ∷ ws)

pub AreNear-IsWave : {ns ws : List (ℕ × ℕ)} → IsWave ns → AreNear ns ws → IsWave ws
AreNear-IsWave silent none_left = silent
AreNear-IsWave (burst h k p) (near {w = (on, off)} n q) =
    burst (omega arith) (omega arith) (AreNear-IsWave p q)

symbols-IsWave : (bs : List Bool) → IsWave (map symbol_of bs ++ nec_tx_epilogue ∷ [])
symbols-IsWave [] = burst (omega arith) (omega arith) silent
symbols-IsWave (false ∷ bs) = burst (omega arith) (omega arith) (symbols-IsWave bs)
symbols-IsWave (true ∷ bs) = burst (omega arith) (omega arith) (symbols-IsWave bs)

pub nominal_wave-IsWave : (code : ℕ) → IsWave (nominal_wave code)
unfolding nominal_wave
nominal_wave-IsWave code = burst (omega arith) (omega arith) (symbols-IsWave (bits_of 32 code))

abbrev first : List Bool → Option Bool
first [] = none
first (x ∷ xs) = some x

abbrev rest : List Bool → List Bool
rest [] = []
rest (x ∷ xs) = xs

first-replicate : (n : ℕ) (a : Bool) (xs : List Bool) → 0 < n → first (replicate n a ++ xs) ≡ some a
first-replicate zero a xs h = absurd (omega arith)
first-replicate (suc n) a xs h = refl

-- The end of a run is seen.
same_run :
    (m n : ℕ) (a : Bool) (xs ys : List Bool)
    → first xs ≢ some a
    → first ys ≢ some a
    → replicate m a ++ xs ≡ replicate n a ++ ys
    → (m ≡ n) × (xs ≡ ys)
same_run zero zero a xs ys h k e = (refl, e)
same_run zero (suc n) a xs ys h k e = absurd (h (ap first e))
same_run (suc m) zero a xs ys h k e = absurd (k (sym (ap first e)))
same_run (suc m) (suc n) a xs ys h k e =
    let (p, q) = same_run m n a xs ys h k (ap rest e) in (ap suc p, q)

true-ne-false : some true ≢ some false
true-ne-false e = ground arith

first-air_of : {ws : List (ℕ × ℕ)} → IsWave ws → first (air_of ws) ≢ some false
first-air_of silent e = ground arith
first-air_of (burst {on} {off} {ws} h k p) e =
    true-ne-false (sym (first-replicate on true (replicate off false ++ air_of ws) h) ∙ e)

first-silence : (off : ℕ) (xs : List Bool) → 0 < off → first (replicate off false ++ xs) ≢ some true
first-silence off xs h e = true-ne-false (sym e ∙ first-replicate off false xs h)

same_wave : {vs ws : List (ℕ × ℕ)} → IsWave vs → IsWave ws → air_of vs ≡ air_of ws → vs ≡ ws
same_wave silent silent e = refl
same_wave silent (burst {on} {off} {ws} h k p) e =
    absurd
      (ground (arith, ap first e, first-replicate on true (replicate off false ++ air_of ws) h))
same_wave (burst {on} {off} {ws} h k p) silent e =
    absurd
      (ground (arith, ap first e, first-replicate on true (replicate off false ++ air_of ws) h))
same_wave (burst {on} {off} {ws = vs} h k p) (burst {on = on'} {off = off'} {ws} h' k' p') e =
    let silence = replicate off false ++ air_of vs in
    let silence' = replicate off' false ++ air_of ws in
    let (m, f) =
      same_run on on' true silence silence' (first-silence off (air_of vs) k)
        (first-silence off' (air_of ws) k') e in
    let (n, g) =
      same_run off off' false (air_of vs) (air_of ws) (first-air_of p) (first-air_of p') f in
    rw (m, n, same_wave p p' g) refl

cancel : (xs : List Bool) {ys zs : List Bool} → xs ++ ys ≡ xs ++ zs → ys ≡ zs
cancel [] e = e
cancel (x ∷ xs) e = cancel xs (ap rest e)

-- The carrier has done what is near a code's wave where it has done what is so in one way.
pub carried-AreNear :
    (code : ℕ) (before after : List Bool) (vs ws : List (ℕ × ℕ))
    → AreNear (nominal_wave code) vs
    → after ≡ before ++ air_of vs
    → IsWave ws
    → after ≡ before ++ air_of ws
    → AreNear (nominal_wave code) ws
carried-AreNear code before after vs ws close e w f =
    let same =
      same_wave (AreNear-IsWave (nominal_wave-IsWave code) close) w (cancel before (sym e ∙ f)) in
    rw (sym same) close
