-- ===== src/Vga/Frame.antt =====
-- Whatever the ports answer, the console writes to the window of 2 ^ 16 + 1 bytes that a 16-bit
-- offset reaches, and nowhere else.
use alphix.Base.{
  ℕ, ◌+◌, ◌-◌, ◌*◌, ◌/◌, ◌%◌, ◌^◌, ◌<◌, ◌≡◌, refl, ◌∙◌, ap, false, ◌⊎◌, inl, inr, List, [], ◌∷◌,
  arith, ◌==◌, ==_ne, Bool-cases,
}
use alphix.Memory.{Bytes}
use alphix.Memory.Copy.{within}
use alphix.Port.{Bus}
use alphix.Vga.{
  Vga, video_address, gray_on_black, u16, last_line, write, get_cursor, set_cursor, scroll_rows,
  blanks, scroll_line, put_plain, new_line, back_space, kputchar, put_chars,
}
use alphix.Vga.Scroll.{scroll_rows-at, blanks-at}

-- The address is not in the window.
abbrev pub Off : ℕ → Type 0
Off a = (a < video_address) ⊎ (video_address + 2 ^ 16 < a)

module _ (b : Bus) where
  get_cursor-lt : (v : Vga b) → (get_cursor b v).0 < 2 ^ 16
  unfolding get_cursor
  get_cursor-lt v = omega arith

  pub get_cursor-mem : (v : Vga b) → (get_cursor b v).1.mem ≡ v.mem
  unfolding get_cursor
  get_cursor-mem v = refl

  pub set_cursor-mem : (pos : ℕ) (v : Vga b) → (set_cursor b pos v).mem ≡ v.mem
  unfolding set_cursor
  set_cursor-mem pos v = refl

  at_cursor : (pos : ℕ) (v : Vga b) (a : ℕ) → (set_cursor b pos v).mem a ≡ v.mem a
  at_cursor pos v a = ap (λ (m : Bytes). m a) (set_cursor-mem pos v)

  after_read : (v : Vga b) (a : ℕ) → (get_cursor b v).1.mem a ≡ v.mem a
  after_read v a = ap (λ (m : Bytes). m a) (get_cursor-mem v)

  write-mem :
      (ch attr offset : ℕ) (v : Vga b) (a : ℕ)
      → offset < 2 ^ 16
      → Off a
      → (write b ch attr offset v).mem a ≡ v.mem a
  unfolding write
  write-mem ch attr offset v a small off =
      rw
        (
          ==_ne a (video_address + (offset + 1)) (omega arith),
          ==_ne a (video_address + offset) (omega arith),
        )
        refl

  scroll_line-mem : (v : Vga b) (a : ℕ) → Off a → (scroll_line b v).mem a ≡ v.mem a
  unfolding scroll_line
  scroll_line-mem v a off =
      let rows : Vga b = record v { mem = scroll_rows 24 1 v.mem } in
      let out1 : within (video_address + last_line) (2 * 80) a ≡ false = ground arith in
      let out2 : within (video_address + 160 * 1) (160 * 24) a ≡ false = ground arith in
      ap (λ (m : Bytes). m a) (set_cursor-mem last_line (blanks b 80 last_line rows))
      ∙ (blanks-at b 80 last_line rows a ∙ rw out1 refl)
      ∙ (scroll_rows-at 24 1 v.mem a (omega arith) ∙ rw out2 refl)

  put_plain-mem :
      (ch attr offset : ℕ) (v : Vga b) (a : ℕ)
      → offset < 2 ^ 16
      → Off a
      → (put_plain b ch attr offset v).mem a ≡ v.mem a
  unfolding put_plain
  put_plain-mem ch attr offset v a small off = elim (Bool-cases (offset == 4000)) [
    | inl full ↦ rw full (
        at_cursor (u16 (offset + 2)) (write b ch attr offset (scroll_line b v)) a
        ∙ write-mem ch attr offset (scroll_line b v) a small off
        ∙ scroll_line-mem v a off)
    | inr fits ↦ rw fits (
        at_cursor (u16 (offset + 2)) (write b ch attr offset v) a
        ∙ write-mem ch attr offset v a small off)
  ]

  new_line-mem : (offset : ℕ) (v : Vga b) (a : ℕ) → Off a → (new_line b offset v).mem a ≡ v.mem a
  unfolding new_line
  new_line-mem offset v a off = elim (Bool-cases (offset / 2 / 80 == 24)) [
    | inl bottom ↦ rw bottom (scroll_line-mem v a off)
    | inr above ↦ rw above (at_cursor (u16 (offset - offset % 160 + 160)) v a)
  ]

  back_space-mem : (attr : ℕ) (v : Vga b) (a : ℕ) → Off a → (back_space b attr v).mem a ≡ v.mem a
  unfolding back_space
  back_space-mem attr v a off =
      let v1 : Vga b = (get_cursor b v).1 in
      let pos1 : ℕ = u16 ((get_cursor b v).0 + (2 ^ 16 - 1)) in
      let v2 : Vga b = set_cursor b pos1 v1 in
      let v3 : Vga b = (get_cursor b v2).1 in
      let v4 : Vga b = put_plain b b' ' attr (get_cursor b v2).0 v3 in
      let pos2 : ℕ = u16 ((get_cursor b v4).0 + (2 ^ 16 - 2)) in
      at_cursor pos2 (get_cursor b v4).1 a
      ∙ after_read v4 a
      ∙ put_plain-mem b' ' attr (get_cursor b v2).0 v3 a (get_cursor-lt v2) off
      ∙ after_read v2 a
      ∙ at_cursor pos1 v1 a
      ∙ after_read v a

  -- `kputchar` of any character writes to no byte outside the window.
  pub kputchar-mem :
      (ch attr : ℕ) (v : Vga b) (a : ℕ) → Off a → (kputchar b ch attr v).mem a ≡ v.mem a
  unfolding kputchar
  kputchar-mem ch attr v a off =
      let w : Vga b = (get_cursor b v).1 in
      elim (Bool-cases (ch == 0x0a)) [
        | inl line ↦ rw line (new_line-mem (get_cursor b v).0 w a off ∙ after_read v a)
        | inr other ↦ elim (Bool-cases (ch == 0x08)) [
          | inl back ↦ rw (other, back) (back_space-mem attr w a off ∙ after_read v a)
          | inr plain ↦
              rw (other, plain)
                (put_plain-mem ch attr (get_cursor b v).0 w a (get_cursor-lt v) off
                  ∙ after_read v a)
        ]
      ]

  pub put_chars-mem :
      (str : List ℕ) (v : Vga b) (a : ℕ) → Off a → (put_chars b str v).mem a ≡ v.mem a
  unfolding put_chars
  put_chars-mem [] v a off = refl
  put_chars-mem (ch ∷ str) v a off =
      put_chars-mem str (kputchar b ch gray_on_black v) a off
      ∙ kputchar-mem ch gray_on_black v a off
