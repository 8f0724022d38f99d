-- ===== src/Vga/Put.antt =====
-- `kputchar` and `put_chars`: every branch, and what is written to the screen.
use alphix.Base.{
  ℕ, suc, ◌+◌, ◌-◌, ◌*◌, ◌/◌, ◌%◌, ◌^◌, ◌≤◌, ◌<◌, ◌≡◌, ◌≢◌, refl, ◌∙◌, ap, inl, inr, List, [], ◌∷◌,
  arith, ◌==◌, ==_ne, if◌then◌else◌, Bool-cases, length,
}
use native.Mathlib.Nat.{add-zero}
use alphix.Memory.{Bytes}
use alphix.Port.{Bus, Crtc}
use alphix.Vga.{
  Vga, video_address, gray_on_black, u16, write, get_cursor, set_cursor, scroll_line, put_plain,
  new_line, back_space, kputchar, put_chars, kprint,
}
use alphix.Vga.Cursor.{CursorAt, get_cursor_lem, set_cursor_lem}

-- Memory with one character on the screen changed, in cell number `n`.
abbrev pub with_cell : Bytes → ℕ → ℕ → ℕ → ℕ → ℕ
with_cell m n ch attr a =
    if a == video_address + (n * 2 + 1)
    then attr
    else if a == video_address + n * 2
    then ch
    else m a

-- A character that `kputchar` gives no meaning of its own.
abbrev pub Plain : ℕ → Type 0
Plain ch = (ch ≢ 0x0a) × (ch ≢ 0x08)

-- The cells after a string has been written from cell `n` on.
abbrev pub with_text : Bytes → ℕ → List ℕ → Bytes
with_text m n [] = m
with_text m n (ch ∷ str) = with_text (with_cell m n ch gray_on_black) (n + 1) str

abbrev pub AllPlain : List ℕ → Type 0
AllPlain [] = Unit {0}
AllPlain (ch ∷ str) = Plain ch × AllPlain str

abbrev pub before_zero : List ℕ → List ℕ
before_zero [] = []
before_zero (ch ∷ str) = let rest = before_zero str in if ch == 0 then [] else ch ∷ rest

module _ (b : Bus) (c : Crtc b) where
  put_plain-at :
      (ch attr n : ℕ) (v : Vga b)
      → n + 1 < 2 ^ 15
      → n ≢ 2000
      → let w = put_plain b ch attr (n * 2) v in
        CursorAt b c (n + 1) w × (w.mem ≡ with_cell v.mem n ch attr)
  unfolding put_plain write
  put_plain-at ch attr n v small ne =
      let moved = set_cursor_lem b c (u16 (n * 2 + 2)) (write b ch attr (n * 2) v) (omega arith) in
      let half : u16 (n * 2 + 2) / 2 ≡ n + 1 = omega arith in
      rw (==_ne (n * 2) 4000 (omega arith), ← half) moved

  -- A plain character goes to the cell under the cursor, with its attribute, and the cursor moves on
  -- by one; nothing else is written. Cell 2000 is the first behind the screen.
  kputchar-Plain :
      (ch attr n : ℕ) (v : Vga b)
      → CursorAt b c n v
      → Plain ch
      → n + 1 < 2 ^ 15
      → n ≢ 2000
      → let w = kputchar b ch attr v in CursorAt b c (n + 1) w × (w.mem ≡ with_cell v.mem n ch attr)
  unfolding kputchar
  kputchar-Plain ch attr n v at plain small ne =
      let (offset, kept, same) = get_cursor_lem b c n v at in
      let twice : (get_cursor b v).0 ≡ n * 2 = omega (arith, offset) in
      let done = put_plain-at ch attr n (get_cursor b v).1 small ne in
      rw (==_ne ch 0x0a plain.0, ==_ne ch 0x08 plain.1, twice)
        (done.0, done.1 ∙ ap (λ m. with_cell m n ch attr) same)

  -- A new line above the last row moves the cursor to the start of the next row and writes nothing;
  -- on the last row it is `scroll_line`.
  kputchar_new_line :
      (attr n : ℕ) (v : Vga b)
      → CursorAt b c n v
      → n < 2000
      → let w = kputchar b 0x0a attr v in
        if n / 80 == 24
        then w ≡ scroll_line b (get_cursor b v).1
        else CursorAt b c ((n / 80 + 1) * 80) w × (w.mem ≡ v.mem)
  unfolding kputchar new_line
  kputchar_new_line attr n v at small =
      let (offset, kept, same) = get_cursor_lem b c n v at in
      let w : Vga b = (get_cursor b v).1 in
      let twice : (get_cursor b v).0 ≡ n * 2 = omega (arith, offset) in
      let row : n * 2 / 2 / 80 ≡ n / 80 = omega arith in
      elim (Bool-cases (n / 80 == 24)) [
        | inl bottom ↦ rw (bottom, twice, row, bottom) refl
        | inr above ↦
            let start : ℕ = u16 (n * 2 - n * 2 % 160 + 160) in
            let moved = set_cursor_lem b c start w (omega arith) in
            let at_row : start / 2 ≡ (n / 80 + 1) * 80 = omega arith in
            rw (above, twice, row, above) (rw at_row at moved.0, moved.1 ∙ same)
      ]

  -- Where the cursor stands behind the first cell and at most at the last one's end, a backspace
  -- moves it back by one and puts a space there; nothing else is written.
  kputchar_back_space :
      (attr n : ℕ) (v : Vga b)
      → CursorAt b c (suc n) v
      → n < 2000
      → let w = kputchar b 0x08 attr v in CursorAt b c n w × (w.mem ≡ with_cell v.mem n b' ' attr)
  unfolding kputchar back_space
  kputchar_back_space attr n v at small =
      let (offset, kept, same) = get_cursor_lem b c (suc n) v at in
      let w : Vga b = (get_cursor b v).1 in
      let (offset1, kept1, same1) = get_cursor_lem b c (suc n) w kept in
      let one_back : u16 ((get_cursor b w).0 + (2 ^ 16 - 1)) ≡ n * 2 + 1 = omega (arith, offset1) in
      let w2 : Vga b = set_cursor b (n * 2 + 1) (get_cursor b w).1 in
      let (at2, same2) = set_cursor_lem b c (n * 2 + 1) (get_cursor b w).1 (omega arith) in
      let half : (n * 2 + 1) / 2 ≡ n = omega arith in
      let (offset3, kept3, same3) = get_cursor_lem b c n w2 (rw half at at2) in
      let twice : (get_cursor b w2).0 ≡ n * 2 = omega (arith, offset3) in
      let (at4, same4) = put_plain-at b' ' attr n (get_cursor b w2).1 (omega arith) (omega arith) in
      let w4 : Vga b = put_plain b b' ' attr (n * 2) (get_cursor b w2).1 in
      let (offset5, kept5, same5) = get_cursor_lem b c (n + 1) w4 at4 in
      let two_back : u16 ((get_cursor b w4).0 + (2 ^ 16 - 2)) ≡ n * 2 = omega (arith, offset5) in
      let (at6, same6) = set_cursor_lem b c (n * 2) (get_cursor b w4).1 (omega arith) in
      let half2 : n * 2 / 2 ≡ n = omega arith in
      let before : (get_cursor b w2).1.mem ≡ v.mem = same3 ∙ same2 ∙ same1 ∙ same in
      rw (one_back, twice, two_back)
        (rw half2 at at6, same6 ∙ same5 ∙ same4 ∙ ap (λ m. with_cell m n b' ' attr) before)

  -- Characters put one by one.
  put_chars_lem :
      (str : List ℕ) (n : ℕ) (v : Vga b)
      → CursorAt b c n v
      → AllPlain str
      → n + length str ≤ 2000
      → let w = put_chars b str v in
        CursorAt b c (n + length str) w × (w.mem ≡ with_text v.mem n str)
  unfolding put_chars
  put_chars_lem [] n v at plain fits = rw add-zero (at, refl)
  put_chars_lem (ch ∷ str) n v at plain fits =
      let (at1, same1) =
        kputchar-Plain ch gray_on_black n v at plain.0 (omega arith) (omega arith) in
      let (at2, same2) =
        put_chars_lem str (n + 1) (kputchar b ch gray_on_black v) at1 plain.1 (omega arith) in
      let longer : n + 1 + length str ≡ n + suc (length str) = omega arith in
      (rw longer at at2, same2 ∙ ap (λ m. with_text m (n + 1) str) same1)

  kprint-put_chars : (str : List ℕ) (v : Vga b) → kprint b str v ≡ put_chars b (before_zero str) v
  unfolding kprint put_chars
  kprint-put_chars [] v = refl
  kprint-put_chars (ch ∷ str) v = elim (Bool-cases (ch == 0)) [
    | inl end ↦ rw end refl
    | inr more ↦ rw more (kprint-put_chars str (kputchar b ch gray_on_black v))
  ]

  -- `kprint` writes a string of plain characters, up to its zero, into the cells from the cursor on,
  -- gray on black, where it fits on the screen, and leaves the cursor behind it; nothing else is
  -- written.
  pub kprint_lem :
      (str : List ℕ) (n : ℕ) (v : Vga b)
      → CursorAt b c n v
      → AllPlain (before_zero str)
      → n + length (before_zero str) ≤ 2000
      → let w = kprint b str v in
        CursorAt b c (n + length (before_zero str)) w
        × (w.mem ≡ with_text v.mem n (before_zero str))
  kprint_lem str n v at plain fits =
      rw (kprint-put_chars str v) (put_chars_lem (before_zero str) n v at plain fits)
