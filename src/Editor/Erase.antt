-- ===== src/Editor/Erase.antt =====
-- What a backspace leaves in the buffer of the line editor.
use alphix.Base.{
  ℕ, zero, suc, ◌+◌, ◌-◌, ◌*◌, ◌%◌, ◌^◌, ◌≤◌, ◌<◌, ◌≡◌, ◌≢◌, refl, sym, ◌∙◌, ap, Bool, true, false,
  ◌⊎◌, inl, inr, List, [], ◌∷◌, ◌++◌, arith, ◌==◌, ==_ne, Bool-cases, length, length-append,
}
use mathlib.Core.Path.{subst}
use alphix.Memory.{Bytes, poke, memmove}
use alphix.Memory.Copy.{within}
use alphix.Memory.Move.{memmove_lem}
use alphix.Text.{IsText}
use alphix.Text.Length.{IsText-frame, IsText-moved, IsText-end}
use alphix.Text.Copy.{Chars-frame, IsText-left, IsText-right, IsText-append}
use alphix.Port.{Bus}
use alphix.Getch.{Modifiers}
use alphix.Vga.{Vga, video_address, gray_on_black, u16, get_cursor, set_cursor, kputchar}
use alphix.Vga.Frame.{Off, get_cursor-mem, set_cursor-mem, kputchar-mem}
use alphix.Editor.{Editor, with_mem, draw, redraw, erase_mem, erase}
use alphix.Editor.Line.{unwind, whole, Session, whole-append, length-unwind}

-- The room that the source declares, away from what the console can write to.
abbrev pub Apart : ℕ → Type 0
Apart kscan_buf = (kscan_buf + 512 ≤ video_address) ⊎ (video_address + 2 ^ 16 < kscan_buf)

module _ (b : Bus) (kscan_buf : ℕ) (apart : Apart kscan_buf) where
  -- The editor's variables and buffer are those of the session.
  pub record Shows (e : Editor b kscan_buf) (s : Session) : Type 0 where
    pub keys : e.keys ≡ s.mods
    pub enter : e.enter ≡ s.done
    pub pos : e.kscan_pos ≡ length s.line.front
    pub shown : IsText e.screen.mem kscan_buf (whole s.line)

  -- A string in the buffer outlives what the console writes.
  pub kept :
      (m m' : Bytes) (s : List ℕ)
      → length s < 512
      → ((a : ℕ) → Off a → m' a ≡ m a)
      → IsText m kscan_buf s
      → IsText m' kscan_buf s
  kept m m' s small same t = IsText-frame m m' kscan_buf s (λ a lo hi. same a (omega arith)) t

  draw-mem : (n i : ℕ) (v : Vga b) (a : ℕ) → Off a → (draw b kscan_buf n i v).mem a ≡ v.mem a
  unfolding draw
  draw-mem zero i v a off = refl
  draw-mem (suc n) i v a off =
      draw-mem n (i + 1) (kputchar b (v.mem (kscan_buf + i)) gray_on_black v) a off
      ∙ kputchar-mem b (v.mem (kscan_buf + i)) gray_on_black v a off

  redraw-mem :
      (len pos : ℕ) (v : Vga b) (a : ℕ) → Off a → (redraw b kscan_buf len pos v).mem a ≡ v.mem a
  unfolding redraw
  redraw-mem len pos v a off =
      let v1 : Vga b = (get_cursor b v).1 in
      let start : ℕ = u16 ((get_cursor b v).0 + 2 ^ 64 - len * 2 % 2 ^ 64) in
      let v2 : Vga b = draw b kscan_buf len 0 (set_cursor b start v1) in
      ap (λ (m : Bytes). m a)
        (set_cursor-mem b (u16 (start + pos * 2)) (kputchar b b' ' gray_on_black v2))
      ∙ kputchar-mem b b' ' gray_on_black v2 a off
      ∙ draw-mem len 0 (set_cursor b start v1) a off
      ∙ ap (λ (m : Bytes). m a) (set_cursor-mem b start v1 ∙ get_cursor-mem b v)

  -- The `memmove` of a backspace takes one character out.
  erase_mem-IsText :
      (m : Bytes) (xs ys : List ℕ) (c : ℕ)
      → IsText m kscan_buf (xs ++ c ∷ ys)
      → IsText
          (erase_mem b kscan_buf (length xs + 1 + length ys) (length xs + 1) m)
          kscan_buf
          (xs ++ ys)
  unfolding erase_mem
  erase_mem-IsText m xs ys c t =
      let lx : ℕ = length xs in
      let ly : ℕ = length ys in
      let m1 : Bytes =
        memmove m (kscan_buf + (lx + 1 - 1)) (kscan_buf + (lx + 1)) (lx + 1 + ly - (lx + 1) + 1) in
      let m' : Bytes = poke m1 (kscan_buf + (lx + 1 + ly - 1)) 0 in
      let at = λ (a : ℕ).
        memmove_lem m (kscan_buf + (lx + 1 - 1)) (kscan_buf + (lx + 1)) (lx + 1 + ly - (lx + 1) + 1)
          a in
      let tail : IsText m (kscan_buf + lx + 1) ys = (IsText-right m kscan_buf xs (c ∷ ys) t).2 in
      let before : (a : ℕ) → kscan_buf ≤ a → a < kscan_buf + lx → m' a ≡ m a = λ a lo hi.
        let outside : within (kscan_buf + (lx + 1 - 1)) (lx + 1 + ly - (lx + 1) + 1) a ≡ false =
          ground arith in
        rw (==_ne a (kscan_buf + (lx + 1 + ly - 1)) (omega arith)) (at a ∙ rw outside refl) in
      let behind : (i : ℕ) → i ≤ ly → m' (kscan_buf + lx + i) ≡ m (kscan_buf + lx + 1 + i) = λ i le.
        elim (Bool-cases (i == ly)) [
          | inl last ↦
              let e : i ≡ ly = ground arith in
              let here : (kscan_buf + lx + ly == kscan_buf + (lx + 1 + ly - 1)) ≡ true =
                ground arith in
              rw (e, here) (sym (IsText-end m (kscan_buf + lx + 1) ys tail))
          | inr inner ↦
              let i_ne : i ≢ ly = ground arith in
              let inside : within (kscan_buf + (lx + 1 - 1)) (lx + 1 + ly - (lx + 1) + 1)
                    (kscan_buf + lx + i)
                  ≡ true =
                ground arith in
              let from : kscan_buf + (lx + 1) + (kscan_buf + lx + i - (kscan_buf + (lx + 1 - 1)))
                  ≡ kscan_buf + lx + 1 + i =
                omega arith in
              rw (==_ne (kscan_buf + lx + i) (kscan_buf + (lx + 1 + ly - 1)) (omega arith))
                (at (kscan_buf + lx + i) ∙ rw (inside, from) refl)
        ] in
      IsText-append m' kscan_buf xs ys
        (Chars-frame m m' kscan_buf xs before (IsText-left m kscan_buf xs (c ∷ ys) t))
        (IsText-moved m m' (kscan_buf + lx + 1) (kscan_buf + lx) ys behind tail)

  -- A backspace behind `c` shows the line without it.
  pub erase-Shows :
      (c : ℕ) (front back : List ℕ) (mods : Modifiers) (done : Bool) (e : Editor b kscan_buf)
      → Shows e
          (record { mods = mods; line = record { front = c ∷ front; back = back }; done = done })
      → length (unwind front (c ∷ back)) < 512
      → Shows
          (erase b kscan_buf (length (unwind front (c ∷ back))) e)
          (record { mods = mods; line = record { front = front; back = back }; done = done })
  unfolding erase
  erase-Shows c front back mods done e sh small =
      let xs : List ℕ = unwind front [] in
      let lx : length xs ≡ length front = omega (arith, length-unwind front []) in
      let len : length (unwind front (c ∷ back)) ≡ length xs + 1 + length back =
        omega (arith, lx, length-unwind front (c ∷ back)) in
      let pos : e.kscan_pos ≡ length xs + 1 = omega (arith, lx, sh.pos) in
      let there : IsText e.screen.mem kscan_buf (xs ++ c ∷ back) =
        rw (whole-append front (c ∷ back)) at sh.shown in
      let n : ℕ = length (unwind front (c ∷ back)) in
      let m : Bytes = e.screen.mem in
      let gone : IsText (erase_mem b kscan_buf n e.kscan_pos m) kscan_buf (xs ++ back) =
        subst (λ k. IsText (erase_mem b kscan_buf k e.kscan_pos m) kscan_buf (xs ++ back)) (sym len)
          (subst
            (λ p.
              IsText (erase_mem b kscan_buf (length xs + 1 + length back) p m) kscan_buf
                (xs ++ back))
            (sym pos) (erase_mem-IsText m xs back c there)) in
      let e1 : Editor b kscan_buf =
        with_mem b kscan_buf (erase_mem b kscan_buf n e.kscan_pos m) e in
      let shorter : length (xs ++ back) < 512 =
        omega (arith, length-append xs back, lx, length-unwind front (c ∷ back)) in
      let text =
        kept e1.screen.mem (redraw b kscan_buf n (e.kscan_pos - 1) e1.screen).mem (xs ++ back)
          shorter (λ a off. redraw-mem n (e.kscan_pos - 1) e1.screen a off) gone in
      record {
        keys = sh.keys;
        enter = sh.enter;
        pos = omega (arith, sh.pos);
        shown = rw (whole-append front back) text;
      }
