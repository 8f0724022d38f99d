-- ===== src/Boot.antt =====
-- kernel/kernel.c: `parse_multiboot2`, and the tags of include/multiboot2.h.
-- The tags lie in the memory that the screen is part of. The loop takes fuel, one round for each
-- tag; `none` is a run that has not ended.
pub mod Tags
mod Tests
use alphix.Base.{
  ℕ, zero, suc, ◌+◌, ◌-◌, ◌*◌, ◌/◌, ◌%◌, ◌^◌, ◌≤◌, ◌<◌, ◌≡◌, ◌≢◌, refl, sym, ◌∙◌, ap, Bool, true,
  false, not, ◌&&◌, ◌||◌, ◌⊎◌, inl, inr, ◌↔◌, Option, none, some, List, [], ◌∷◌, ◌++◌, map, arith,
  ltb, leb, ◌==◌, ==_iff, ==_self, ==_ne, if◌then◌else◌, Bool-cases, Option-cases, List-cases,
  length, length-append, get_elem?, get_or, set, take, drop, replicate, length-set,
  length-replicate, length-take, length-drop, length-map, take-append-drop, ltb→lt, lt→ltb, leb→le,
  tests, get_elem?-set_self, get_elem?-set_ne, ◌>>=◌, all_below, all_below_lem, bit_or_step,
  bit_or-zero, bit_or-one, bit_or_two, bit_or_128,
}
use alphix.Memory.{Bytes}
use alphix.Port.{Bus}
use alphix.Vga.{Vga}
use alphix.Editor.{kprintf}

-- A little-endian `uint32_t`.
abbrev pub read_u32 : Bytes → ℕ → ℕ
read_u32 m p = m p + 2 ^ 8 * m (p + 1) + 2 ^ 16 * m (p + 2) + 2 ^ 24 * m (p + 3)

abbrev pub tag_type : Bytes → ℕ → ℕ
tag_type m tag = read_u32 m tag

abbrev pub tag_size : Bytes → ℕ → ℕ
tag_size m tag = read_u32 m (tag + 4)

-- `(tag->size + 7) & ~7`
abbrev pub round_up : ℕ → ℕ
round_up size = (size + 7) % 2 ^ 32 / 8 * 8

-- "Framebuffer found\n"
abbrev pub found_text : List ℕ
found_text =
    b'F' ∷ b'r' ∷ b'a' ∷ b'm' ∷ b'e' ∷ b'b' ∷ b'u' ∷ b'f' ∷ b'f' ∷ b'e' ∷ b'r' ∷ b' ' ∷ b'f' ∷ b'o'
    ∷ b'u' ∷ b'n' ∷ b'd' ∷ 0x0a ∷ []

module _ (b : Bus) where
  -- The `switch`.
  pub visit : Vga b → ℕ → Option (Vga b)
  visit v tag = if tag_type v.mem tag == 8 then kprintf b found_text [] v else some v

  pub tag_loop : ℕ → Vga b → ℕ → Option (Vga b)
  tag_loop zero v tag = none
  tag_loop (suc fuel) v tag = elim (tag_type v.mem tag == 0) [
    | true ↦ some v
    | false ↦ visit v tag >>= λ w. tag_loop fuel w (tag + round_up (tag_size w.mem tag))
  ]

  pub parse_multiboot2 : ℕ → ℕ → Vga b → Option (Vga b)
  parse_multiboot2 fuel addr v = tag_loop fuel v (addr + 8)
