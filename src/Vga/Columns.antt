-- ===== src/Vga/Columns.antt =====
-- The cursor in columns and rows.
use alphix.Base.{ℕ, ◌+◌, ◌*◌, ◌/◌, ◌%◌, ◌<◌, ◌≡◌, ◌∙◌, arith}
use alphix.Port.{Bus, Crtc}
use alphix.Vga.{Vga, u16, get_cursor, get_cursor_x, get_cursor_y, set_cursor_x, set_cursor_y}
use alphix.Vga.Cursor.{CursorAt, get_cursor_lem, set_cursor_lem}

module _ (b : Bus) (c : Crtc b) where
  -- `set_cursor_x` of a column below 80 moves a cursor on the screen to that column of its row and
  -- writes nothing.
  set_cursor_x_lem :
      (x n : ℕ) (v : Vga b)
      → CursorAt b c n v
      → n < 2000
      → x < 80
      → let w = set_cursor_x b x v in CursorAt b c (n / 80 * 80 + x) w × (w.mem ≡ v.mem)
  unfolding set_cursor_x
  set_cursor_x_lem x n v at small inside =
      let (offset, kept, same) = get_cursor_lem b c n v at in
      let pos : ℕ = u16 ((get_cursor b v).0 / 160 * 160 + x * 2) in
      let (moved, written) = set_cursor_lem b c pos (get_cursor b v).1 (omega arith) in
      let place : pos / 2 ≡ n / 80 * 80 + x = omega (arith, offset) in
      (rw place at moved, written ∙ same)

  -- `set_cursor_y` of a row below 25 moves a cursor on the screen to that row in its column and
  -- writes nothing.
  set_cursor_y_lem :
      (y n : ℕ) (v : Vga b)
      → CursorAt b c n v
      → n < 2000
      → y < 25
      → let w = set_cursor_y b y v in CursorAt b c (y * 80 + n % 80) w × (w.mem ≡ v.mem)
  unfolding set_cursor_y
  set_cursor_y_lem y n v at small inside =
      let (offset, kept, same) = get_cursor_lem b c n v at in
      let pos : ℕ = u16 (y * 80 * 2 + (get_cursor b v).0 % 160) in
      let (moved, written) = set_cursor_lem b c pos (get_cursor b v).1 (omega arith) in
      let place : pos / 2 ≡ y * 80 + n % 80 = omega (arith, offset) in
      (rw place at moved, written ∙ same)

  -- `get_cursor_y` is the row of the cursor, but `get_cursor_x` is twice its column: what
  -- `set_cursor_x` takes is not what `get_cursor_x` returns.
  get_cursor_xy_lem :
      (n : ℕ) (v : Vga b)
      → CursorAt b c n v
      → n < 2000
      → ((get_cursor_x b v).0 ≡ n % 80 * 2) × ((get_cursor_y b v).0 ≡ n / 80)
  unfolding get_cursor_x get_cursor_y
  get_cursor_xy_lem n v at small =
      let (offset, kept, same) = get_cursor_lem b c n v at in
      (omega (arith, offset), omega (arith, offset))
