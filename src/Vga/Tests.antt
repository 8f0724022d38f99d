-- ===== src/Vga/Tests.antt =====
-- The screen with a CRT controller of two registers, and its theorems there.
use alphix.Base.{ℕ, ◌+◌, ◌/◌, ◌%◌, ◌≡◌, refl, List, [], ◌∷◌, arith, ◌==◌, if◌then◌else◌}
use alphix.Port.Crt.{bus, crtc}
use alphix.Vga.{Vga, video_address, scroll_line, kprint, hex_loop, hex_to_str}
use alphix.Vga.Format.Markup.{Piece}
use alphix.Vga.Cursor.{CursorAt}
use alphix.Vga.Scroll.{scroll_line_lem}
use alphix.Vga.Put.{with_text, kprint_lem}

-- The cursor on cell `n` of a screen that shows a different byte at every address.
abbrev shown : ℕ → Vga bus
shown n = record {
  mem = λ a. a % 251;
  ports = record {
    selected = 0;
    registers = λ r. if r == 14 then n / 256 else if r == 15 then n % 256 else 0;
  };
}

abbrev Shown : ℕ → Type 0
Shown n = CursorAt bus crtc n (shown n)

Shown-85 : Shown 85
Shown-85 = record { high = refl; low = refl; small = omega arith }

scroll_line_lem_example :
    ((scroll_line bus (shown 85)).mem (video_address + 3000) ≡ (video_address + 120) % 251)
    × CursorAt bus crtc 1920 (scroll_line bus (shown 85))
scroll_line_lem_example = scroll_line_lem bus crtc (shown 85) 3000 (omega arith)

kprint_lem_example :
    let w = kprint bus (b'o' ∷ b'k' ∷ 0 ∷ b'x' ∷ []) (shown 85) in
    CursorAt bus crtc 87 w × (w.mem ≡ with_text (shown 85).mem 85 (b'o' ∷ b'k' ∷ []))
kprint_lem_example =
    kprint_lem bus crtc (b'o' ∷ b'k' ∷ 0 ∷ b'x' ∷ []) 85 (shown 85) Shown-85 (omega arith)
      (omega arith)

beef : hex_to_str 0xBEEF ≡ b'B' ∷ b'E' ∷ b'E' ∷ b'F' ∷ []
unfolding hex_to_str hex_loop
beef = refl

-- "n=" and, white on red, "ok".
abbrev pieces : List Piece
pieces = record { background = 4; foreground = 15; letters = b'o' ∷ b'k' ∷ [] } ∷ []
