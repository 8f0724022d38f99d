-- ===== src/Pic.antt =====
-- cpu/pic.c and include/cpu/pic.h: the two 8259A interrupt controllers, and the masks that
-- kernel/kernel.c sets.
pub mod Chips
pub mod Remap
pub mod Masks
pub mod Pair
mod Tests
use alphix.Base.{
  ℕ, zero, suc, ◌+◌, ◌-◌, ◌*◌, ◌/◌, ◌%◌, ◌^◌, ◌≤◌, ◌<◌, ◌≡◌, ◌≢◌, refl, sym, ◌∙◌, ap, Bool, true,
  false, not, ◌&&◌, ◌||◌, ◌⊎◌, inl, inr, ◌↔◌, Option, none, some, List, [], ◌∷◌, ◌++◌, map, arith,
  ltb, leb, ◌==◌, ==_iff, ==_self, ==_ne, if◌then◌else◌, Bool-cases, Option-cases, length,
  length-append, get_elem?, get_or, set, take, drop, replicate, length-set, length-replicate,
  length-take, length-drop, length-map, take-append-drop, ltb→lt, lt→ltb, leb→le, tests,
  get_elem?-set_self, get_elem?-set_ne, ◌>>=◌, all_below, all_below_lem, bit_or_step, bit_or-zero,
  bit_or-one, bit_or_two, bit_or_128,
}
use Prim.Native.Nat.{bit_or, bit_and}
use alphix.Port.{Bus}

abbrev pic1_command : ℕ
pic1_command = 0x20

abbrev pic1_data : ℕ
pic1_data = 0x21

abbrev pic2_command : ℕ
pic2_command = 0xA0

abbrev pic2_data : ℕ
pic2_data = 0xA1

abbrev pic_eoi : ℕ
pic_eoi = 0x20

-- `ICW1_INIT | ICW1_ICW4`
abbrev icw1 : ℕ
icw1 = 0x11

abbrev icw4_8086 : ℕ
icw4_8086 = 0x01

-- `1 << (irq_line & 7)`
abbrev pub line_bit : ℕ → ℕ
line_bit irq_line = 2 ^ (irq_line % 8)

abbrev data_port : ℕ → ℕ
data_port irq_line = if ltb irq_line 8 then pic1_data else pic2_data

module _ (b : Bus) where
  pub pic_remap : ℕ → ℕ → b.State → b.State
  pic_remap offset1 offset2 s =
      let (a1, s1) = b.inb pic1_data s in
      let (a2, s2) = b.inb pic2_data s1 in
      let s3 = b.outb pic2_command icw1 (b.outb pic1_command icw1 s2) in
      let s4 = b.outb pic2_data (offset2 % 2 ^ 8) (b.outb pic1_data (offset1 % 2 ^ 8) s3) in
      let s5 = b.outb pic2_data 2 (b.outb pic1_data 4 s4) in
      let s6 = b.outb pic2_data icw4_8086 (b.outb pic1_data icw4_8086 s5) in
      b.outb pic2_data a2 (b.outb pic1_data a1 s6)

  pub pic_send_eoi : ℕ → b.State → b.State
  pic_send_eoi irq s =
      b.outb pic1_command pic_eoi (if leb 8 irq then b.outb pic2_command pic_eoi s else s)

  pub pic_set_mask : ℕ → b.State → b.State
  pic_set_mask irq_line s =
      let (value, s1) = b.inb (data_port irq_line) s in
      b.outb (data_port irq_line) (bit_or value (line_bit irq_line)) s1

  -- `value & ~bit`, with the complement cut to the byte that `value` is.
  pub pic_clear_mask : ℕ → b.State → b.State
  pic_clear_mask irq_line s =
      let (value, s1) = b.inb (data_port irq_line) s in
      b.outb (data_port irq_line) (bit_and value (255 - line_bit irq_line)) s1

  -- The two loops of `kernel_main`, with `left` rounds to go: all lines but the keyboard's.
  pub mask_first : ℕ → ℕ → b.State → b.State
  mask_first zero irq s = s
  mask_first (suc left) irq s =
      mask_first left (irq + 1) (if not (irq == 1) then pic_set_mask irq s else s)

  pub mask_second : ℕ → ℕ → b.State → b.State
  mask_second zero irq s = s
  mask_second (suc left) irq s = mask_second left (irq + 1) (pic_set_mask irq s)

  -- What `kernel_main` does to the controllers.
  pub pic_setup : b.State → b.State
  pic_setup s = mask_second 8 8 (mask_first 8 0 (pic_remap 0x20 0x28 s))
