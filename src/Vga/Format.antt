-- ===== src/Vga/Format.antt =====
-- drivers/output/vga.c: `kprintf` with the colour codes `<(bf)>`, one of the kernel's two functions of
-- that name. What a call does is the list of the characters that go to `kputchar`, each with its
-- attribute. The arguments are those that the caller passes, and a width is below `2 ^ 31`. `none` is
-- a run that reads behind the format's end, an argument that is not there, or a null string, or that
-- negates the least `int`. What `ftos` makes of a `double` is a parameter.
pub mod Markup
mod Tests
use alphix.Base.{
  ℕ, zero, suc, ◌+◌, ◌-◌, ◌*◌, ◌/◌, ◌%◌, ◌^◌, ◌≤◌, ◌<◌, ◌≡◌, ◌≢◌, refl, sym, ◌∙◌, ap, Bool, true,
  false, not, ◌&&◌, ◌||◌, ◌⊎◌, inl, inr, ◌↔◌, Option, none, some, List, [], ◌∷◌, ◌++◌, map, arith,
  ltb, leb, ◌==◌, ==_iff, ==_self, ==_ne, if◌then◌else◌, Bool-cases, Option-cases, List-cases,
  length, length-append, get_elem?, get_or, set, take, drop, replicate, length-set,
  length-replicate, length-take, length-drop, length-map, take-append-drop, ltb→lt, lt→ltb, leb→le,
  tests, get_elem?-set_self, get_elem?-set_ne, ◌>>=◌, all_below, all_below_lem, bit_or_step,
  bit_or-zero, bit_or-one, bit_or_two, bit_or_128, some_of, not_none,
}
use alphix.Number.{magnitude, is_negative}
use alphix.Number.Print.{decimal}
use alphix.Printf.{Arg, word, text}
use alphix.Vga.{parse_color_code, hex_to_str}

-- What stands at a character of the format: a colour code, or the character and what follows it.
pub data Mark : Type 0 where
  plain : List ℕ → Mark
  code : ℕ → List ℕ → Mark
  beyond : Mark

-- Behind the two digits; they are gone where no `)>` follows them.
pub close_code : ℕ → List ℕ → Mark
close_code color [] = plain []
close_code color (x ∷ []) = plain (x ∷ [])
close_code color (x ∷ y ∷ format) =
    if (x == b')') && (y == b'>') then code color format else plain (x ∷ y ∷ format)

pub digits_code : List ℕ → Mark
digits_code [] = beyond
digits_code (bg_color ∷ []) = beyond
digits_code (bg_color ∷ fg_color ∷ format) = close_code (parse_color_code bg_color fg_color) format

pub open_code : List ℕ → Mark
open_code [] = plain []
open_code (x ∷ format) = if x == b'(' then digits_code format else plain (x ∷ format)

pub mark : ℕ → List ℕ → Mark
mark c format = if c == b'<' then open_code format else plain format

-- The width, the character behind it, and the rest.
pub scan_width : ℕ → List ℕ → Option (ℕ × ℕ × List ℕ)
scan_width width [] = none
scan_width width (c ∷ format) =
    let rest = scan_width (width * 10 + (c - b'0')) format in
    if leb b'0' c && leb c b'9' then rest else some (width, c, format)

-- What `intToString` writes.
int_text : ℕ → Option (List ℕ)
int_text v = magnitude v >>= λ u. some (decimal (is_negative v) u)

module _ (float_text : ℕ → List ℕ) where
  -- The characters of a conversion, and the arguments that are left.
  pub convert : ℕ → ℕ → List Arg → Option (List ℕ × List Arg)
  convert width c [] =
      if (c == b'd')
        || ((c == b'u')
            || ((c == b'x') || ((c == b'X') || ((c == b'c') || ((c == b's') || (c == b'f'))))))
      then none
      else some (c ∷ [], [])
  convert width c (word v ∷ args) =
      if (c == b'd') || (c == b'u')
      then (int_text (v % 2 ^ 32) >>= λ cs. some (cs, args))
      else if (c == b'x') || (c == b'X')
      then (let num_buf = hex_to_str (v % 2 ^ 32) in
          some (replicate (width - length num_buf) b'0' ++ num_buf, args))
      else if c == b'c'
      then some (v % 2 ^ 8 ∷ [], args)
      else if c == b's'
      then none
      else if c == b'f'
      then some (float_text v, args)
      else some (c ∷ [], word v ∷ args)
  convert width c (text s ∷ args) =
      if c == b's'
      then (s >>= λ cs. some (cs, args))
      else if (c == b'd')
          || ((c == b'u') || ((c == b'x') || ((c == b'X') || ((c == b'c') || (c == b'f')))))
      then none
      else some (c ∷ [], text s ∷ args)

  abbrev pub paint : ℕ → List ℕ → List (ℕ × ℕ)
  paint color [] = []
  paint color (c ∷ cs) = (c, color) ∷ paint color cs

  -- Every round takes a character of the format at least.
  pub format_loop : ℕ → ℕ → List ℕ → List Arg → Option (List (ℕ × ℕ))
  format_loop fuel color [] args = some []
  format_loop zero color (c ∷ format) args = none
  format_loop (suc fuel) color (c ∷ format) args = elim (mark c format) [
    | beyond ↦ none
    | code current_color rest ↦ format_loop fuel current_color rest args
    | plain rest ↦ elim (c == b'%') [
      | false ↦ format_loop fuel color rest args >>= λ out. some ((c, color) ∷ out)
      | true ↦ scan_width 0 rest >>= λ w. convert w.0 w.1 args >>= λ r.
          format_loop fuel color w.2 r.1 >>= λ out. some (paint color r.0 ++ out)
    ]
  ]

  -- Light gray on black is where it starts.
  pub kprintf : List ℕ → List Arg → Option (List (ℕ × ℕ))
  kprintf format args = format_loop (length format) 0x07 format args
