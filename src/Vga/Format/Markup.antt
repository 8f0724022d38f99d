-- ===== src/Vga/Format/Markup.antt =====
-- What `kprintf` of the screen prints of a text with colour codes.
use alphix.Base.{ℕ, ◌+◌, ◌*◌, ◌<◌, ◌≢◌, List, [], ◌∷◌, ◌++◌}
use alphix.Printf.{hex_char}
use alphix.Vga.Format.{paint}

-- A piece of text behind a colour code of two hexadecimal digits; the colours are their values.
pub record Piece : Type 0 where
  pub background : ℕ
  pub foreground : ℕ
  pub letters : List ℕ

abbrev pub AllLetters : List ℕ → Type 0
AllLetters [] = Unit {0}
AllLetters (c ∷ s) = (c ≢ b'<') × (c ≢ b'%') × AllLetters s

abbrev pub AllPieces : List Piece → Type 0
AllPieces [] = Unit {0}
AllPieces (p ∷ ps) = (p.background < 16) × (p.foreground < 16) × AllLetters p.letters × AllPieces ps

abbrev pub marked : List Piece → List ℕ
marked [] = []
marked (p ∷ ps) =
    b'<'
    ∷ b'('
    ∷ hex_char p.background
    ∷ hex_char p.foreground
    ∷ b')'
    ∷ b'>'
    ∷ (p.letters ++ marked ps)

module _ (float_text : ℕ → List ℕ) where
  abbrev pub painted : List Piece → List (ℕ × ℕ)
  painted [] = []
  painted (p ∷ ps) = paint float_text (p.background * 16 + p.foreground) p.letters ++ painted ps
