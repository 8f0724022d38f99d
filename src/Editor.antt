-- ===== src/Editor.antt =====
-- cpu/kprintf.c: the line editor, `kscan_handler` and `kscan`.
-- `kscan_buf` is the address of the buffer: it lies in the memory that the screen is part of too.
-- The scancode that `inb(0x60)` reads is an argument. A loop over a string takes fuel; `none` means
-- that it has not ended.
pub mod Line
pub mod Erase
pub mod Refine
pub mod Wait
pub mod Return
mod Tests
use alphix.Base.{
  ℕ, zero, suc, ◌+◌, ◌-◌, ◌*◌, ◌/◌, ◌%◌, ◌^◌, ◌≤◌, ◌<◌, ◌≡◌, ◌≢◌, refl, sym, ◌∙◌, ap, Bool, true,
  false, not, ◌&&◌, ◌||◌, ◌⊎◌, inl, inr, ◌↔◌, Option, none, some, List, [], ◌∷◌, ◌++◌, map, arith,
  ltb, leb, ◌==◌, ==_iff, ==_self, ==_ne, if◌then◌else◌, Bool-cases, Option-cases, length,
  length-append, get_elem?, get_or, set, take, drop, replicate, length-set, length-replicate,
  length-take, length-drop, length-map, take-append-drop, ltb→lt, lt→ltb, leb→le, tests,
  get_elem?-set_self, get_elem?-set_ne, ◌>>=◌,
}
use alphix.Memory.{Bytes, poke, memmove}
use alphix.Text.{strlen, strins, strnone, strncpy}
use alphix.Port.{Bus}
use alphix.Keys.{key_left, key_right, key_backspace, key_enter}
use alphix.Getch.{Modifiers, modifiers, translate}
use alphix.Vga.{Vga, gray_on_black, u16, get_cursor, set_cursor, kputchar, put_chars}
use alphix.Printf.{Arg, put, overrun, no_argument, endless, text, kvprintf}

-- The string at `p`, without its zero.
pub text_at : ℕ → Bytes → ℕ → Option (List ℕ)
text_at zero m p = none
text_at (suc fuel) m p = elim (m p == 0) [
  | true ↦ some []
  | false ↦ text_at fuel m (p + 1) >>= λ s. some (m p ∷ s)
]

-- `"You typed: %s\n"`
abbrev pub echo_format : List ℕ
echo_format =
    b'Y' ∷ b'o' ∷ b'u' ∷ b' ' ∷ b't' ∷ b'y' ∷ b'p' ∷ b'e' ∷ b'd' ∷ b':' ∷ b' ' ∷ b'%' ∷ b's' ∷ 0x0a
    ∷ []

module _ (b : Bus) where
  -- `kprintf`: every character that `kvprintf` puts goes through `kputchar`.
  unfoldable pub kprintf : List ℕ → List Arg → Vga b → Option (Vga b)
  kprintf fmt args v = elim (kvprintf fmt args) [
    | put cs ↦ some (put_chars b cs v)
    | overrun ↦ none
    | no_argument ↦ none
    | endless ↦ none
  ]

module _ (b : Bus) (kscan_buf : ℕ) where
  pub record Editor : Type 0 where
    pub keys : Modifiers
    pub kscan_pos : ℕ
    pub enter : Bool
    pub screen : Vga b

  abbrev pub with_mem : Bytes → Editor → Editor
  with_mem m e = record e { screen = record e.screen { mem = m } }

  -- `for (size_t i = 0; i < len; i++) kputchar(kscan_buf[i], 0x07);` with `left` rounds to go.
  pub draw : ℕ → ℕ → Vga b → Vga b
  draw zero i v = v
  draw (suc left) i v = draw left (i + 1) (kputchar b (v.mem (kscan_buf + i)) gray_on_black v)

  -- The line drawn again, behind a backspace.
  pub redraw : ℕ → ℕ → Vga b → Vga b
  redraw len pos v =
      let (cursor_pos, v1) = get_cursor b v in
      let start_pos = u16 (cursor_pos + 2 ^ 64 - len * 2 % 2 ^ 64) in
      let v2 = draw len 0 (set_cursor b start_pos v1) in
      set_cursor b (u16 (start_pos + pos * 2)) (kputchar b b' ' gray_on_black v2)

  pub erase_mem : ℕ → ℕ → Bytes → Bytes
  erase_mem len pos m =
      poke (memmove m (kscan_buf + (pos - 1)) (kscan_buf + pos) (len - pos + 1))
        (kscan_buf + (len - 1)) 0

  pub erase : ℕ → Editor → Editor
  erase len e =
      let e1 = with_mem (erase_mem len e.kscan_pos e.screen.mem) e in
      record e1 { kscan_pos = e.kscan_pos - 1; screen = redraw len (e.kscan_pos - 1) e1.screen }

  -- `kprintf("\n")` puts the one character.
  pub accept_line : Editor → Editor
  accept_line e = record e {
    kscan_pos = 0;
    enter = true;
    screen = kputchar b 0x0a gray_on_black e.screen;
  }

  pub type_char : ℕ → ℕ → Editor → Option Editor
  type_char fuel c e = elim (strins fuel e.screen.mem kscan_buf c e.kscan_pos) [
    | none ↦ none
    | some m ↦ some (record e {
      kscan_pos = e.kscan_pos + 1;
      screen = kputchar b c gray_on_black (record e.screen { mem = m });
    })
  ]

  -- What follows the modifiers.
  pub edit_key : ℕ → ℕ → ℕ → Bool → Editor → Option Editor
  edit_key fuel len scancode pressed e =
      if (scancode == key_left) && pressed
      then some (if ltb 0 e.kscan_pos then record e { kscan_pos = e.kscan_pos - 1 } else e)
      else if (scancode == key_right) && pressed
      then some (if ltb e.kscan_pos len then record e { kscan_pos = e.kscan_pos + 1 } else e)
      else if scancode == key_backspace
      then some (if pressed && ltb 0 e.kscan_pos then erase len e else e)
      else if scancode == key_enter
      then some (if pressed then accept_line e else e)
      else if not pressed || (translate e.keys scancode == 0)
      then some e
      else type_char fuel (translate e.keys scancode) e

  pub kscan_handler : ℕ → ℕ → Editor → Option Editor
  kscan_handler fuel code e =
      let pressed = ltb (code % 2 ^ 8) 0x80 in
      let scancode = code % 0x80 in
      elim (strlen fuel e.screen.mem kscan_buf) [
        | none ↦ none
        | some len ↦ elim (modifiers scancode pressed e.keys) [
          | some keys ↦ some (record e { keys = keys })
          | none ↦ edit_key fuel len scancode pressed e
        ]
      ]

  -- The wait of `kscan`, over the scancodes that arrive; `none` also where they do not end it.
  pub kscan_wait : ℕ → List ℕ → Editor → Option Editor
  kscan_wait fuel [] e = if e.enter then some e else none
  kscan_wait fuel (code ∷ codes) e = elim e.enter [
    | true ↦ some e
    | false ↦ elim (kscan_handler fuel code e) [ none ↦ none | some e1 ↦ kscan_wait fuel codes e1 ]
  ]

  -- The prompt, and the buffer made empty.
  pub kscan_start : ℕ → Editor → Option Editor
  kscan_start fuel e = do
    v ← kprintf b (b'k' ∷ b's' ∷ b'c' ∷ b'a' ∷ b'n' ∷ b':' ∷ b' ' ∷ []) [] e.screen
    m ← strnone fuel v.mem kscan_buf
    some (record e { enter = false; kscan_pos = 0; screen = record v { mem = m } })

  -- The echo, and the copy to the caller's buffer.
  pub kscan_finish : ℕ → ℕ → Editor → Option Editor
  kscan_finish fuel buf e = do
    s ← text_at fuel e.screen.mem kscan_buf
    v ← kprintf b echo_format (text (some s) ∷ []) e.screen
    len ← strlen fuel v.mem kscan_buf
    let m1 = strncpy len v.mem buf kscan_buf
    len2 ← strlen fuel m1 kscan_buf
    some (record e { screen = record v { mem = poke m1 (buf + len2) 0 } })

  pub kscan : ℕ → ℕ → List ℕ → Editor → Option Editor
  kscan fuel buf codes e = do
    e1 ← kscan_start fuel e
    e2 ← kscan_wait fuel codes e1
    kscan_finish fuel buf e2
