-- ===== src/Retina/Life.antt =====
-- The life of the remote control that common/src/fsm_retina.c makes: what it has done by a number of
-- turns, whatever it has seen.
use transmisor_receptor_ir.Common.{
  ℕ, zero, suc, ◌%◌, ◌≡◌, refl, false, Option, some, none, List, [], ◌∷◌, length, arith,
}
use transmisor_receptor_ir.Retina.Modes.{message}
use transmisor_receptor_ir.Retina.Codes.{Color, rgb, colors, color_of}
use transmisor_receptor_ir.Retina.Remote.{
  Remote, Seen, Act, stop_receiving, send, start_receiving, show_code, react,
}

abbrev pub off : Color
off = rgb false false false

abbrev pub or_kept : Option Color → Color → Color
or_kept none c = c
or_kept (some d) c = d

-- What an act leaves of the LED's colour, and of the codes that were printed, the newest first.
abbrev pub lit : Act → Color → Color
lit (show_code code) c = or_kept (color_of colors code) c
lit (start_receiving found) c = or_kept (color_of colors found) c
lit stop_receiving c = off
lit _ c = c

abbrev pub said : Act → List ℕ → List ℕ
said (send code) codes = code ∷ codes
said _ codes = codes

abbrev pub newborn : Remote
newborn = record { receives = false; asleep = false; next = 0; found = 0 }

-- It starts sending, awake and dark; in each turn it reacts to what it sees.
pub data Life : ℕ → Remote → Color → List ℕ → Type 0 where
  born : Life 0 newborn off []
  turn :
      {n : ℕ} {r : Remote} {c : Color} {codes : List ℕ} (seen : Seen)
      → Life n r c codes
      → Life (suc n) (react r seen).0 (lit (react r seen).1 c) (said (react r seen).1 codes)

-- The three messages, over and over, the newest first.
abbrev pub cycle : ℕ → List ℕ
cycle zero = []
cycle (suc n) = message (n % 3) ∷ cycle n

pub record IsLived (r : Remote) (c : Color) (codes : List ℕ) : Type 0 where
  pub next : r.next ≡ length codes % 3
  pub cycled : codes ≡ cycle (length codes)
  pub dark : r.receives ≡ false → c ≡ off

react-IsLived :
    (r : Remote) (c : Color) (codes : List ℕ) (seen : Seen)
    → IsLived r c codes
    → IsLived (react r seen).0 (lit (react r seen).1 c) (said (react r seen).1 codes)
react-IsLived r c codes seen l = record {
  next = ground (arith, l.next);
  cycled = ground (arith, l.next, l.cycled);
  dark = λ q. ground (arith, l.dark);
}

pub Life-IsLived :
    {n : ℕ} {r : Remote} {c : Color} {codes : List ℕ} → Life n r c codes → IsLived r c codes
Life-IsLived born = record { next = refl; cycled = refl; dark = λ q. refl }
Life-IsLived (turn {r} {c} {codes} seen l) = react-IsLived r c codes seen (Life-IsLived l)
