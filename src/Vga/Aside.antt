-- ===== src/Vga/Aside.antt =====
-- What the screen's functions leave alone behind the ports: all that does not hear the CRT ports.
use alphix.Base.{ℕ, zero, suc, ◌+◌, ◌/◌, ◌≡◌, refl, ◌∙◌, inl, inr, List, [], ◌∷◌, ◌==◌, Bool-cases}
use alphix.Port.{Bus, reg_screen_ctrl, reg_screen_data}
use alphix.Vga.{
  Vga, white_on_black, gray_on_black, write, get_cursor, set_cursor, blanks, scroll_line, put_plain,
  new_line, back_space, kputchar, put_chars, kclear,
}

-- A part of the devices' state that the two ports of the CRT controller do not change.
pub record Aside {ℓ} (b : Bus) (A : Type ℓ) (part : b.State → A) : Type ℓ where
  pub control : (v : ℕ) (s : b.State) → part (b.outb reg_screen_ctrl v s) ≡ part s
  pub data_out : (v : ℕ) (s : b.State) → part (b.outb reg_screen_data v s) ≡ part s
  pub data_in : (s : b.State) → part (b.inb reg_screen_data s).1 ≡ part s

module _ {ℓ} (b : Bus) (A : Type ℓ) (part : b.State → A) (aside : Aside b A part) where
  get_cursor-aside : (v : Vga b) → part (get_cursor b v).1.ports ≡ part v.ports
  unfolding get_cursor
  get_cursor-aside v = simp (aside.control, aside.data_in) refl

  set_cursor-aside : (pos : ℕ) (v : Vga b) → part (set_cursor b pos v).ports ≡ part v.ports
  unfolding set_cursor
  set_cursor-aside pos v = simp (aside.control, aside.data_out) refl

  blanks-aside : (left offset : ℕ) (v : Vga b) → part (blanks b left offset v).ports ≡ part v.ports
  unfolding blanks write
  blanks-aside zero offset v = refl
  blanks-aside (suc left) offset v =
      blanks-aside left (offset + 2) (write b 0 white_on_black offset v)

  scroll_line-aside : (v : Vga b) → part (scroll_line b v).ports ≡ part v.ports
  unfolding scroll_line
  scroll_line-aside v = set_cursor-aside _ _ ∙ blanks-aside _ _ _

  pub kclear-aside : (v : Vga b) → part (kclear b v).ports ≡ part v.ports
  unfolding kclear
  kclear-aside v = set_cursor-aside _ _ ∙ blanks-aside _ _ v

  put_plain-aside :
      (ch attr offset : ℕ) (v : Vga b) → part (put_plain b ch attr offset v).ports ≡ part v.ports
  unfolding put_plain write
  put_plain-aside ch attr offset v = set_cursor-aside _ _ ∙ elim (Bool-cases (offset == 4000)) [
    | inl end ↦ rw end (scroll_line-aside v)
    | inr other ↦ rw other refl
  ]

  new_line-aside : (offset : ℕ) (v : Vga b) → part (new_line b offset v).ports ≡ part v.ports
  unfolding new_line
  new_line-aside offset v = elim (Bool-cases (offset / 2 / 80 == 24)) [
    | inl last ↦ rw last (scroll_line-aside v)
    | inr above ↦ rw above (set_cursor-aside _ v)
  ]

  back_space-aside : (attr : ℕ) (v : Vga b) → part (back_space b attr v).ports ≡ part v.ports
  unfolding back_space
  back_space-aside attr v =
      set_cursor-aside _ _
      ∙ get_cursor-aside _
      ∙ put_plain-aside _ _ _ _
      ∙ get_cursor-aside _
      ∙ set_cursor-aside _ _
      ∙ get_cursor-aside v

  kputchar-aside : (ch attr : ℕ) (v : Vga b) → part (kputchar b ch attr v).ports ≡ part v.ports
  unfolding kputchar
  kputchar-aside ch attr v =
      let w : Vga b = (get_cursor b v).1 in
      elim (Bool-cases (ch == 0x0a)) [
        | inl line ↦ rw line (new_line-aside (get_cursor b v).0 w ∙ get_cursor-aside v)
        | inr other ↦ elim (Bool-cases (ch == 0x08)) [
          | inl back ↦ rw (other, back) (back_space-aside attr w ∙ get_cursor-aside v)
          | inr plain ↦
              rw (other, plain) (put_plain-aside ch attr (get_cursor b v).0 w ∙ get_cursor-aside v)
        ]
      ]

  pub put_chars-aside : (str : List ℕ) (v : Vga b) → part (put_chars b str v).ports ≡ part v.ports
  unfolding put_chars
  put_chars-aside [] v = refl
  put_chars-aside (ch ∷ str) v =
      put_chars-aside str (kputchar b ch gray_on_black v) ∙ kputchar-aside ch gray_on_black v
