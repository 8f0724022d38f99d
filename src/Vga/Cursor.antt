-- ===== src/Vga/Cursor.antt =====
-- The cursor's place in the CRT controller, and how the two cursor functions move it.
use alphix.Base.{ℕ, ◌*◌, ◌/◌, ◌%◌, ◌^◌, ◌<◌, ◌≡◌, refl, ◌∙◌, ap, arith}
use alphix.Port.{Bus, Crtc, reg_screen_ctrl, reg_screen_data}
use alphix.Vga.{Vga, u8, u16, get_cursor, set_cursor}

module _ (b : Bus) (c : Crtc b) where
  -- The cursor stands on cell number `n`.
  pub record CursorAt (n : ℕ) (v : Vga b) : Type 0 where
    pub high : c.register v.ports 14 ≡ n / 256
    pub low : c.register v.ports 15 ≡ n % 256
    pub small : n < 2 ^ 16

  -- `get_cursor` returns twice the number of the cell, leaves the cursor there and writes nothing.
  pub get_cursor_lem :
      (n : ℕ) (v : Vga b)
      → CursorAt n v
      → let (offset, w) = get_cursor b v in (offset ≡ u16 (n * 2)) × CursorAt n w × (w.mem ≡ v.mem)
  unfolding get_cursor
  get_cursor_lem n v at =
      let s1 = b.outb reg_screen_ctrl 14 v.ports in
      let s2 = (b.inb reg_screen_data s1).1 in
      let s3 = b.outb reg_screen_ctrl 15 s2 in
      let high_byte : (b.inb reg_screen_data s1).0 ≡ n / 256 =
        c.inb_data s1
        ∙ ap (c.register s1) (c.selected-outb_ctrl 14 v.ports)
        ∙ c.register-outb_ctrl 14 14 v.ports
        ∙ at.high in
      let low_byte : (b.inb reg_screen_data s3).0 ≡ n % 256 =
        c.inb_data s3
        ∙ ap (c.register s3) (c.selected-outb_ctrl 15 s2)
        ∙ c.register-outb_ctrl 15 15 s2
        ∙ c.register-inb_data 15 s1
        ∙ c.register-outb_ctrl 14 15 v.ports
        ∙ at.low in
      let kept = λ (r : ℕ).
        c.register-inb_data r s3
        ∙ c.register-outb_ctrl 15 r s2
        ∙ c.register-inb_data r s1
        ∙ c.register-outb_ctrl 14 r v.ports in
      (
        rw (high_byte, low_byte) (omega arith),
        record { high = kept 14 ∙ at.high; low = kept 15 ∙ at.low; small = at.small },
        refl,
      )

  -- `set_cursor` moves the cursor to cell `pos / 2` and writes nothing to memory.
  pub set_cursor_lem :
      (pos : ℕ) (v : Vga b)
      → pos < 2 ^ 16
      → CursorAt (pos / 2) (set_cursor b pos v) × ((set_cursor b pos v).mem ≡ v.mem)
  unfolding set_cursor
  set_cursor_lem pos v small =
      let half : ℕ = pos / 2 in
      let s1 = b.outb reg_screen_ctrl 14 v.ports in
      let s2 = b.outb reg_screen_data (u8 (half / 2 ^ 8)) s1 in
      let s3 = b.outb reg_screen_ctrl 15 s2 in
      let at2 = c.selected-outb_ctrl 15 s2 in
      let at1 = c.selected-outb_ctrl 14 v.ports in
      (
        record {
          high =
              c.register-outb_data (u8 half) 14 s3
              ∙ rw at2 (
                  c.register-outb_ctrl 15 14 s2
                  ∙ c.register-outb_data (u8 (half / 2 ^ 8)) 14 s1
                  ∙ rw at1 (omega arith));
          low = c.register-outb_data (u8 half) 15 s3 ∙ rw at2 (omega arith);
          small = omega arith;
        },
        refl,
      )
