-- ===== src/Vga.antt =====
-- drivers/output/vga.c and include/out/vga.h: the text screen.
-- The screen is part of memory, from `video_address` on; the cursor is kept in registers 14 and 15
-- of the CRT controller, behind the ports.
pub mod Cursor
pub mod Aside
pub mod Columns
pub mod Format
pub mod Frame
pub mod Hex
mod Tests
pub mod Put
pub mod Scroll
use alphix.Base.{
  ℕ, zero, suc, ◌+◌, ◌-◌, ◌*◌, ◌/◌, ◌%◌, ◌^◌, ◌≤◌, ◌<◌, ◌≡◌, ◌≢◌, refl, sym, ◌∙◌, ap, Bool, true,
  false, not, ◌&&◌, ◌||◌, ◌⊎◌, inl, inr, ◌↔◌, Option, none, some, List, [], ◌∷◌, ◌++◌, map, arith,
  ltb, leb, ◌==◌, ==_iff, ==_self, ==_ne, if◌then◌else◌, Bool-cases, Option-cases, length,
  length-append, get_elem?, get_or, set, take, drop, replicate, length-set, length-replicate,
  length-take, length-drop, length-map, take-append-drop, ltb→lt, lt→ltb, leb→le, tests,
  get_elem?-set_self, get_elem?-set_ne,
}
use Prim.Native.Nat.{bit_or}
use mathlib.Core.List.{reverse}
use alphix.Memory.{Bytes, poke, memcpy}
use alphix.Port.{Bus, reg_screen_ctrl, reg_screen_data}

abbrev pub video_address : ℕ
video_address = 0xb8000

abbrev max_rows : ℕ
max_rows = 25

abbrev max_cols : ℕ
max_cols = 80

abbrev pub white_on_black : ℕ
white_on_black = 0x0f

abbrev pub gray_on_black : ℕ
gray_on_black = 0x07

abbrev pub u8 : ℕ → ℕ
u8 n = n % 2 ^ 8

abbrev pub u16 : ℕ → ℕ
u16 n = n % 2 ^ 16

-- `while (i < MAX_ROWS) memcpy(row i, row i - 1, one row)`, with `left` rounds to go.
pub scroll_rows : ℕ → ℕ → Bytes → Bytes
scroll_rows zero i m = m
scroll_rows (suc left) i m = scroll_rows left (i + 1) (
    memcpy m (video_address + max_cols * i * 2) (video_address + max_cols * (i - 1) * 2)
      (max_cols * 2))

abbrev pub last_line : ℕ
last_line = max_cols * max_rows * 2 - max_cols * 2

module _ (b : Bus) where
  pub record Vga : Type 0 where
    pub mem : Bytes
    pub ports : b.State

  -- `vga[offset] = character; vga[offset + 1] = attribute_byte;`
  pub write : ℕ → ℕ → ℕ → Vga → Vga
  write character attribute_byte offset v = record v {
    mem =
        poke (poke v.mem (video_address + offset) character) (video_address + (offset + 1))
          attribute_byte;
  }

  pub get_cursor : Vga → ℕ × Vga
  get_cursor v =
      let s1 = b.outb reg_screen_ctrl 14 v.ports in
      let (high_byte, s2) = b.inb reg_screen_data s1 in
      let s3 = b.outb reg_screen_ctrl 15 s2 in
      let (low_byte, s4) = b.inb reg_screen_data s3 in
      (u16 ((high_byte * 2 ^ 8 + low_byte) * 2), record v { ports = s4 })

  pub set_cursor : ℕ → Vga → Vga
  set_cursor pos v =
      let half = pos / 2 in
      let s1 = b.outb reg_screen_ctrl 14 v.ports in
      let s2 = b.outb reg_screen_data (u8 (half / 2 ^ 8)) s1 in
      let s3 = b.outb reg_screen_ctrl 15 s2 in
      record v { ports = b.outb reg_screen_data (u8 half) s3 }

  -- `left` blank characters from `offset` on.
  pub blanks : ℕ → ℕ → Vga → Vga
  blanks zero offset v = v
  blanks (suc left) offset v = blanks left (offset + 2) (write 0 white_on_black offset v)

  pub scroll_line : Vga → Vga
  scroll_line v =
      let rows = record v { mem = scroll_rows (max_rows - 1) 1 v.mem } in
      set_cursor last_line (blanks max_cols last_line rows)

  pub kclear : Vga → Vga
  kclear v = set_cursor 0 (blanks (max_rows * max_cols) 0 v)

  -- The last branch of `kputchar`; `offset` is the cursor as it was read at the start.
  pub put_plain : ℕ → ℕ → ℕ → Vga → Vga
  put_plain character attribute_byte offset v = set_cursor (u16 (offset + 2)) (
      write character attribute_byte offset
        (if offset == max_cols * max_rows * 2 then scroll_line v else v))

  pub new_line : ℕ → Vga → Vga
  new_line offset v =
      if offset / 2 / max_cols == max_rows - 1
      then scroll_line v
      else set_cursor (u16 (offset - offset % (max_cols * 2) + max_cols * 2)) v

  -- The call of `kputchar` with a space takes the last branch.
  pub back_space : ℕ → Vga → Vga
  back_space attribute_byte v =
      let (c1, v1) = get_cursor v in
      let v2 = set_cursor (u16 (c1 + (2 ^ 16 - 1))) v1 in
      let (c2, v3) = get_cursor v2 in
      let v4 = put_plain b' ' attribute_byte c2 v3 in
      let (c3, v5) = get_cursor v4 in set_cursor (u16 (c3 + (2 ^ 16 - 2))) v5

  pub kputchar : ℕ → ℕ → Vga → Vga
  kputchar character attribute_byte v =
      let (offset, w) = get_cursor v in
      if character == 0x0a
      then new_line offset w
      else if character == 0x08
      then back_space attribute_byte w
      else put_plain character attribute_byte offset w

  -- Characters one by one, gray on black, as `kputc` puts them.
  unfoldable pub put_chars : List ℕ → Vga → Vga
  put_chars [] v = v
  put_chars (c ∷ str) v = put_chars str (kputchar c gray_on_black v)

  -- `while (*str)`, over the bytes from `str` on; where there is a zero among them it ends there.
  pub kprint : List ℕ → Vga → Vga
  kprint [] v = v
  kprint (c ∷ str) v =
      let rest = kprint str (kputchar c gray_on_black v) in if c == 0 then v else rest

  pub get_cursor_x : Vga → ℕ × Vga
  get_cursor_x v = let (offset, w) = get_cursor v in (offset % (max_cols * 2), w)

  pub get_cursor_y : Vga → ℕ × Vga
  get_cursor_y v = let (offset, w) = get_cursor v in (offset / (max_cols * 2), w)

  pub set_cursor_x : ℕ → Vga → Vga
  set_cursor_x x v =
      let (offset, w) = get_cursor v in
      set_cursor (u16 (offset / (max_cols * 2) * (max_cols * 2) + x * 2)) w

  pub set_cursor_y : ℕ → Vga → Vga
  set_cursor_y y v =
      let (offset, w) = get_cursor v in
      set_cursor (u16 (y * max_cols * 2 + offset % (max_cols * 2))) w

-- `hex_to_str`: the digits of `num`, the last one first, as the first loop writes them.
pub hex_loop : ℕ → ℕ → List ℕ
hex_loop zero num = []
hex_loop (suc fuel) num =
    let rest = hex_loop fuel (num / 16) in
    if num == 0
    then []
    else (if ltb (num % 16) 10 then num % 16 + b'0' else num % 16 - 10 + b'A') ∷ rest

-- The characters that `hex_to_str` leaves in its buffer; 32 bits have at most eight digits.
pub hex_to_str : ℕ → List ℕ
hex_to_str num = if num == 0 then b'0' ∷ [] else reverse (hex_loop 8 num)

pub color_digit : ℕ → ℕ
color_digit c =
    if leb b'0' c && leb c b'9'
    then c - b'0'
    else if leb b'a' c && leb c b'f'
    then c - b'a' + 0xa
    else if leb b'A' c && leb c b'F'
    then c - b'A' + 0xa
    else 0

pub parse_color_code : ℕ → ℕ → ℕ
parse_color_code bg fg = bit_or (u8 (color_digit bg * 2 ^ 4)) (color_digit fg)
