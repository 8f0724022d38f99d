-- ===== src/Vga/Scroll.antt =====
-- `scroll_line` and `kclear`: what they leave on the screen.
use alphix.Base.{
  ℕ, zero, suc, ◌+◌, ◌-◌, ◌*◌, ◌%◌, ◌≤◌, ◌<◌, ◌≡◌, refl, ◌∙◌, ap, true, false, ◌⊎◌, inl, inr, arith,
  ltb, ◌==◌, if◌then◌else◌, Bool-cases,
}
use alphix.Memory.{Bytes, memcpy}
use alphix.Memory.Copy.{within, memcpy_lem}
use alphix.Port.{Bus, Crtc}
use alphix.Vga.{
  Vga, video_address, white_on_black, write, scroll_rows, blanks, last_line, scroll_line, kclear,
  set_cursor,
}
use alphix.Vga.Cursor.{CursorAt, set_cursor_lem}

-- Each row is copied from the one above it, which has been overwritten just before: all are copies
-- of the row before the first of them.
pub scroll_rows-at :
    (left i : ℕ) (m : Bytes) (a : ℕ)
    → 0 < i
    → scroll_rows left i m a ≡ (
        if within (video_address + 160 * i) (160 * left) a
        then m (video_address + 160 * (i - 1) + (a - video_address) % 160)
        else m a)
unfolding scroll_rows
scroll_rows-at zero i m a pos = ground arith
scroll_rows-at (suc left) i m a pos =
    let row : Bytes =
      memcpy m (video_address + 80 * i * 2) (video_address + 80 * (i - 1) * 2) 160 in
    let copied = λ (x : ℕ).
      memcpy_lem m (video_address + 80 * i * 2) (video_address + 80 * (i - 1) * 2) 160 x
        (inr (omega arith)) in
    rw (scroll_rows-at left (i + 1) row a (omega arith))
      (elim (Bool-cases (within (video_address + 160 * (i + 1)) (160 * left) a)) [
        | inl below ↦
            let inside : within (video_address + 160 * i) (160 * suc left) a ≡ true =
              ground arith in
            let src : ℕ = video_address + 160 * (i + 1 - 1) + (a - video_address) % 160 in
            let hit : within (video_address + 80 * i * 2) 160 src ≡ true = ground arith in
            let from : video_address + 80 * (i - 1) * 2 + (src - (video_address + 80 * i * 2))
                ≡ video_address + 160 * (i - 1) + (a - video_address) % 160 =
              omega arith in
            rw (below, inside) (copied src ∙ rw (hit, from) refl)
        | inr above ↦ rw above (
            copied a ∙ (elim (Bool-cases (within (video_address + 80 * i * 2) 160 a)) [
              | inl here ↦
                  let inside : within (video_address + 160 * i) (160 * suc left) a ≡ true =
                    ground arith in
                  let from : video_address + 80 * (i - 1) * 2 + (a - (video_address + 80 * i * 2))
                      ≡ video_address + 160 * (i - 1) + (a - video_address) % 160 =
                    ground arith in
                  rw (here, inside, from) refl
              | inr elsewhere ↦
                  let outside : within (video_address + 160 * i) (160 * suc left) a ≡ false =
                    ground arith in
                  rw (elsewhere, outside) refl
            ]))
      ])

module _ (b : Bus) where
  -- A run of blank characters: a zero and the attribute, one after the other.
  pub blanks-at :
      (left offset : ℕ) (v : Vga b) (a : ℕ)
      → (blanks b left offset v).mem a ≡ (
          if within (video_address + offset) (2 * left) a
          then (if (a - (video_address + offset)) % 2 == 0 then 0 else white_on_black)
          else v.mem a)
  unfolding blanks write
  blanks-at zero offset v a = ground arith
  blanks-at (suc left) offset v a =
      rw (blanks-at left (offset + 2) (write b 0 white_on_black offset v) a) (ground arith)

  blanks-ports : (left offset : ℕ) (v : Vga b) → (blanks b left offset v).ports ≡ v.ports
  unfolding blanks write
  blanks-ports zero offset v = refl
  blanks-ports (suc left) offset v =
      blanks-ports left (offset + 2) (write b 0 white_on_black offset v)

  pub kclear-mem :
      (v : Vga b) (a : ℕ)
      → (a < video_address) ⊎ (video_address + 4000 ≤ a)
      → (kclear b v).mem a ≡ v.mem a
  unfolding kclear set_cursor
  kclear-mem v a off =
      let outside : within video_address 4000 a ≡ false = ground arith in
      blanks-at 2000 0 v a ∙ rw outside refl

  module _ (c : Crtc b) where
    -- After `scroll_line` row 0 is as it was, rows 1 to 23 are copies of row 0, row 24 is blank, and
    -- the cursor stands at the start of row 24. (`o` is the offset of a byte of the screen.)
    pub scroll_line_lem :
        (v : Vga b) (o : ℕ)
        → o < 4000
        → ((scroll_line b v).mem (video_address + o) ≡ (
            if ltb o last_line
            then v.mem (video_address + o % 160)
            else if o % 2 == 0
            then 0
            else white_on_black))
          × CursorAt b c 1920 (scroll_line b v)
    unfolding scroll_line
    scroll_line_lem v o small =
        let rows : Vga b = record v { mem = scroll_rows 24 1 v.mem } in
        let cleared : Vga b = blanks b 80 last_line rows in
        let moved = set_cursor_lem b c last_line cleared (omega arith) in
        let a : ℕ = video_address + o in
        let at = blanks-at 80 last_line rows a in
        let copied = scroll_rows-at 24 1 v.mem a (omega arith) in
        (ap (λ (m : Bytes). m a) moved.1 ∙ at ∙ rw copied (ground arith), moved.0)

    -- After `kclear` every character of the screen is blank, no other byte has changed, and the
    -- cursor stands on the first cell.
    kclear_lem :
        (v : Vga b) (a : ℕ)
        → ((kclear b v).mem a ≡ (
            if within video_address 4000 a
            then (if (a - video_address) % 2 == 0 then 0 else white_on_black)
            else v.mem a))
          × CursorAt b c 0 (kclear b v)
    unfolding kclear
    kclear_lem v a =
        let moved = set_cursor_lem b c 0 (blanks b 2000 0 v) (omega arith) in
        (ap (λ (m : Bytes). m a) moved.1 ∙ blanks-at 2000 0 v a, moved.0)
