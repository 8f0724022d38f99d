-- ===== src/Editor/Refine.antt =====
-- The line editor does to its buffer what the keys do to a line.
use alphix.Base.{
  ℕ, ◌+◌, ◌-◌, ◌%◌, ◌^◌, ◌≤◌, ◌<◌, ◌≡◌, ◌≢◌, refl, sym, ap, Bool, true, false, inl, inr, some, List,
  [], ◌∷◌, ◌++◌, arith, ltb, ◌==◌, if◌then◌else◌, Bool-cases, Option-cases, length, length-append,
}
use mathlib.Core.Path.{subst}
use alphix.Text.{IsText, strins}
use alphix.Text.Length.{strlen_lem}
use alphix.Text.Copy.{Copied}
use alphix.Text.Insert.{strins_lem}
use alphix.Port.{Bus}
use alphix.Keys.{key_left, key_right, key_backspace, key_enter}
use alphix.Getch.{Modifiers, modifiers, translate}
use alphix.Vga.{Vga, gray_on_black, kputchar}
use alphix.Vga.Frame.{kputchar-mem}
use alphix.Editor.{Editor, erase, accept_line, type_char, edit_key, kscan_handler}
use alphix.Editor.Line.{
  unwind, whole, step_left, step_right, drop_left, typed, accept, ignored, decode, Session,
  press_in, type_code, whole-append, length-unwind,
}
use alphix.Editor.Erase.{Apart, Shows, kept, erase-Shows}

module _ (b : Bus) (kscan_buf : ℕ) (apart : Apart kscan_buf) where
  type_char-Shows :
      (fuel c : ℕ) (e : Editor b kscan_buf) (s : Session)
      → Shows b kscan_buf apart e s
      → c ≢ 0
      → length (whole s.line) < fuel
      → length (whole s.line) + 2 ≤ 512
      → (e' : Editor b kscan_buf) × (type_char b kscan_buf fuel c e ≡ some e')
        × Shows b kscan_buf apart e' (press_in (typed c) s)
  unfolding type_char
  type_char-Shows fuel c e s sh ne f room =
      let xs : List ℕ = unwind s.line.front [] in
      let ys : List ℕ = s.line.back in
      let lx : length xs ≡ length s.line.front = omega (arith, length-unwind s.line.front []) in
      let pos : e.kscan_pos ≡ length xs = omega (arith, lx, sh.pos) in
      let split : whole s.line ≡ xs ++ ys = whole-append s.line.front ys in
      let there : IsText e.screen.mem kscan_buf (xs ++ ys) = rw split at sh.shown in
      let run : Copied e.screen.mem kscan_buf (length (xs ++ ys) + 2) kscan_buf (xs ++ c ∷ ys)
          (strins fuel e.screen.mem kscan_buf c e.kscan_pos) =
        subst
          (λ p.
            Copied e.screen.mem kscan_buf (length (xs ++ ys) + 2) kscan_buf (xs ++ c ∷ ys)
              (strins fuel e.screen.mem kscan_buf c p))
          (sym pos) (strins_lem e.screen.mem kscan_buf c xs ys ne there fuel (rw split at f)) in
      let v : Vga b = record e.screen { mem = run.memory } in
      let longer : length (xs ++ c ∷ ys) < 512 =
        omega (arith, length-append xs ys, length-append xs (c ∷ ys), ap length split) in
      let text =
        kept b kscan_buf apart run.memory (kputchar b c gray_on_black v).mem (xs ++ c ∷ ys) longer
          (λ a off. kputchar-mem b c gray_on_black v a off) run.text in
      (
        record e { kscan_pos = e.kscan_pos + 1; screen = kputchar b c gray_on_black v },
        rw (run.ends, type_char) refl,
        record {
          keys = sh.keys;
          enter = sh.enter;
          pos = omega (arith, sh.pos);
          shown = rw (whole-append s.line.front (c ∷ ys)) text;
        },
      )

  accept_line-Shows :
      (e : Editor b kscan_buf) (s : Session)
      → Shows b kscan_buf apart e s
      → length (whole s.line) < 512
      → Shows b kscan_buf apart (accept_line b kscan_buf e) (press_in accept s)
  unfolding accept_line
  accept_line-Shows e s sh small = record {
    keys = sh.keys;
    enter = refl;
    pos = refl;
    shown =
        kept b kscan_buf apart e.screen.mem (kputchar b 0x0a gray_on_black e.screen).mem
          (whole s.line) small (λ a off. kputchar-mem b 0x0a gray_on_black e.screen a off) sh.shown;
  }

  -- The two arrows move the place in the line and nothing else.
  left-Shows :
      (mods : Modifiers) (front back : List ℕ) (done : Bool) (e : Editor b kscan_buf)
      → Shows b kscan_buf apart e
          (record { mods = mods; line = record { front = front; back = back }; done = done })
      → Shows b kscan_buf apart
          (if ltb 0 e.kscan_pos then record e { kscan_pos = e.kscan_pos - 1 } else e)
          (record { mods = mods; line = step_left front back; done = done })
  left-Shows mods [] back done e sh =
      let stay : ltb 0 e.kscan_pos ≡ false = ground (arith, sh.pos) in rw stay sh
  left-Shows mods (c ∷ front) back done e sh =
      let move : ltb 0 e.kscan_pos ≡ true = ground (arith, sh.pos) in
      rw move
        (record { keys = sh.keys; enter = sh.enter; pos = omega (arith, sh.pos); shown = sh.shown })

  right-Shows :
      (mods : Modifiers) (front back : List ℕ) (done : Bool) (e : Editor b kscan_buf)
      → Shows b kscan_buf apart e
          (record { mods = mods; line = record { front = front; back = back }; done = done })
      → Shows b kscan_buf apart
          (if ltb e.kscan_pos (length (unwind front back))
            then record e { kscan_pos = e.kscan_pos + 1 }
            else e)
          (record { mods = mods; line = step_right front back; done = done })
  right-Shows mods front [] done e sh =
      let stay : ltb e.kscan_pos (length (unwind front [])) ≡ false =
        ground (arith, sh.pos, length-unwind front []) in
      rw stay sh
  right-Shows mods front (c ∷ back) done e sh =
      let move : ltb e.kscan_pos (length (unwind front (c ∷ back))) ≡ true =
        ground (arith, sh.pos, length-unwind front (c ∷ back)) in
      rw move
        (record { keys = sh.keys; enter = sh.enter; pos = omega (arith, sh.pos); shown = sh.shown })

  rub_out-Shows :
      (mods : Modifiers) (front back : List ℕ) (done : Bool) (e : Editor b kscan_buf)
      → Shows b kscan_buf apart e
          (record { mods = mods; line = record { front = front; back = back }; done = done })
      → length (unwind front back) < 512
      → Shows b kscan_buf apart
          (if ltb 0 e.kscan_pos then erase b kscan_buf (length (unwind front back)) e else e)
          (record { mods = mods; line = drop_left front back; done = done })
  rub_out-Shows mods [] back done e sh small =
      let stay : ltb 0 e.kscan_pos ≡ false = ground (arith, sh.pos) in rw stay sh
  rub_out-Shows mods (c ∷ front) back done e sh small =
      let back_up : ltb 0 e.kscan_pos ≡ true = ground (arith, sh.pos) in
      rw back_up (erase-Shows b kscan_buf apart c front back mods done e sh small)

  released :
      (fuel len scancode : ℕ) (e : Editor b kscan_buf)
      → edit_key b kscan_buf fuel len scancode false e ≡ some e
  unfolding edit_key
  released fuel len scancode e = ground arith

  -- A key for a character, or for none.
  type_key :
      (fuel c d : ℕ) (e : Editor b kscan_buf) (s : Session)
      → Shows b kscan_buf apart e s
      → length (whole s.line) < fuel
      → length (whole s.line) + 2 ≤ 512
      → c ≡ d
      → (e' : Editor b kscan_buf) × ((if c == 0 then some e else type_char b kscan_buf fuel c e)
          ≡ some e')
        × Shows b kscan_buf apart e' (press_in (if d == 0 then ignored else typed d) s)
  type_key fuel c d e s sh f room same = elim (Bool-cases (d == 0)) [
    | inl nothing ↦ rw (same, nothing) (e, refl, sh)
    | inr typed_one ↦ rw (same, typed_one) (type_char-Shows fuel d e s sh (ground arith) f room)
  ]

  -- What a key that is no modifier does.
  edit_key-Shows :
      (fuel scancode : ℕ) (pressed : Bool) (e : Editor b kscan_buf) (s : Session)
      → Shows b kscan_buf apart e s
      → length (whole s.line) < fuel
      → length (whole s.line) + 2 ≤ 512
      → (e' : Editor b kscan_buf) × (edit_key b kscan_buf fuel
            (length (whole s.line))
            scancode
            pressed
            e
          ≡ some e')
        × Shows b kscan_buf apart e' (press_in (decode s.mods scancode pressed) s)
  unfolding decode edit_key
  edit_key-Shows fuel scancode false e s sh f room =
      (e, released fuel (length (whole s.line)) scancode e, sh)
  edit_key-Shows fuel scancode true e s sh f room = elim (Bool-cases (scancode == key_left)) [
    | inl is_left ↦ rw (is_left) (_, refl, left-Shows s.mods s.line.front s.line.back s.done e sh)
    | inr not_left ↦ elim (Bool-cases (scancode == key_right)) [
      | inl is_right ↦
          rw (not_left, is_right) (_, refl, right-Shows s.mods s.line.front s.line.back s.done e sh)
      | inr not_right ↦ elim (Bool-cases (scancode == key_backspace)) [
        | inl is_back ↦
            rw (not_left, not_right, is_back)
              (_, refl, rub_out-Shows s.mods s.line.front s.line.back s.done e sh (omega arith))
        | inr not_back ↦ elim (Bool-cases (scancode == key_enter)) [
          | inl is_enter ↦
              rw (not_left, not_right, not_back, is_enter)
                (_, refl, accept_line-Shows e s sh (omega arith))
          | inr not_enter ↦
              rw (not_left, not_right, not_back, not_enter)
                (type_key fuel (translate e.keys scancode) (translate s.mods scancode) e s sh f room
                  (ap (λ k. translate k scancode) sh.keys))
        ]
      ]
    ]
  ]

  -- On a line with room for one more character, and with fuel above its length, `kscan_handler`
  -- ends for every scancode, and does to the buffer, the place, the modifiers and the mark of Enter
  -- what the key does to the line. The buffer lies away from what the console writes to.
  pub kscan_handler_refines :
      (fuel code : ℕ) (e : Editor b kscan_buf) (s : Session)
      → Shows b kscan_buf apart e s
      → length (whole s.line) < fuel
      → length (whole s.line) + 2 ≤ 512
      → (e' : Editor b kscan_buf) × (kscan_handler b kscan_buf fuel code e ≡ some e')
        × Shows b kscan_buf apart e' (type_code code s)
  unfolding kscan_handler type_code
  kscan_handler_refines fuel code e s sh f room =
      let pressed : Bool = ltb (code % 2 ^ 8) 0x80 in
      let len = strlen_lem fuel e.screen.mem kscan_buf (whole s.line) sh.shown f in
      let same : modifiers (code % 0x80) pressed e.keys ≡ modifiers (code % 0x80) pressed s.mods =
        ap (modifiers (code % 0x80) pressed) sh.keys in
      elim (Option-cases (modifiers (code % 0x80) pressed s.mods)) [
        | inl key ↦
            rw (len, kscan_handler, same, key, type_code)
              (edit_key-Shows fuel (code % 0x80) pressed e s sh f room)
        | inr (mods, e1) ↦
            rw (len, kscan_handler, same, e1, type_code)
              (
                record e { keys = mods },
                refl,
                record { keys = refl; enter = sh.enter; pos = sh.pos; shown = sh.shown },
              )
      ]
