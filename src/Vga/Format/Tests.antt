-- ===== src/Vga/Format/Tests.antt =====
-- `kprintf` of the screen on small formats.
use alphix.Base.{◌≡◌, refl, some, [], ◌∷◌}
use alphix.Printf.{word}
use alphix.Vga.{hex_to_str, hex_loop}
use alphix.Vga.Format.{
  mark, open_code, digits_code, close_code, scan_width, convert, format_loop, kprintf,
}

-- A width fills with zeros; a code that is not closed loses its first three characters.
padded_hex :
    kprintf (λ v. []) (b'%' ∷ b'4' ∷ b'x' ∷ []) (word 0xAB ∷ [])
    ≡ some ((b'0', 7) ∷ (b'0', 7) ∷ (b'A', 7) ∷ (b'B', 7) ∷ [])
unfolding kprintf format_loop mark scan_width convert hex_to_str hex_loop
padded_hex = refl

lost :
    kprintf (λ v. []) (b'<' ∷ b'(' ∷ b'a' ∷ b'b' ∷ b'c' ∷ []) [] ≡ some ((b'<', 7) ∷ (b'c', 7) ∷ [])
unfolding kprintf format_loop mark open_code digits_code close_code
lost = refl
