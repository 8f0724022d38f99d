-- ===== src/Vga/Hex.antt =====
-- `hex_to_str` writes the number in hexadecimal, and `parse_color_code` reads such digits.
use alphix.Base.{
  ℕ, zero, suc, ◌+◌, ◌-◌, ◌*◌, ◌/◌, ◌%◌, ◌^◌, ◌<◌, ◌≡◌, refl, ◌∙◌, ap, inl, inr, List, [], ◌∷◌,
  ◌++◌, arith, ltb, ◌==◌, if◌then◌else◌, Bool-cases,
}
use mathlib.Core.List.{reverse, reverse-append}
use alphix.Vga.{hex_loop, hex_to_str, color_digit}

-- The number that a list of digits stands for, the last one first, and the first one first.
unfoldable pub value_up : List ℕ → ℕ
value_up [] = 0
value_up (d ∷ ds) = color_digit d + 16 * value_up ds

pub hex_value : ℕ → List ℕ → ℕ
hex_value acc [] = acc
hex_value acc (d ∷ ds) = hex_value (acc * 16 + color_digit d) ds

abbrev pub pow16 : ℕ → ℕ
pow16 zero = 1
pow16 (suc n) = 16 * pow16 n

hex_value-append :
    (acc : ℕ) (ds : List ℕ) (d : ℕ)
    → hex_value acc (ds ++ d ∷ []) ≡ hex_value acc ds * 16 + color_digit d
unfolding hex_value
hex_value-append acc [] d = refl
hex_value-append acc (e ∷ ds) d = hex_value-append (acc * 16 + color_digit e) ds d

hex_value-reverse : (ds : List ℕ) → hex_value 0 (reverse ds) ≡ value_up ds
unfolding value_up hex_value
hex_value-reverse [] = refl
hex_value-reverse (d ∷ ds) =
    ap (hex_value 0) (reverse-append (d ∷ []) ds)
    ∙ hex_value-append 0 (reverse ds) d
    ∙ omega (arith, hex_value-reverse ds)

-- The digit of a remainder, as `hex_to_str` writes it.
hex_digit : (r : ℕ) → r < 16 → color_digit (if ltb r 10 then r + b'0' else r - 10 + b'A') ≡ r
unfolding color_digit
hex_digit r h = ground arith

hex_loop-value : (fuel num : ℕ) → num < pow16 fuel → value_up (hex_loop fuel num) ≡ num
unfolding hex_loop value_up
hex_loop-value zero num h = omega arith
hex_loop-value (suc fuel) num h = elim (Bool-cases (num == 0)) [
  | inl done ↦ rw done (ground arith)
  | inr more ↦
      rw (more, hex_digit (num % 16) (omega arith))
        (omega (arith, hex_loop-value fuel (num / 16) (omega arith)))
]

-- The digits that `hex_to_str` writes for a 32-bit number, read from the left, give that number.
hex_to_str_lem : (num : ℕ) → num < 2 ^ 32 → hex_value 0 (hex_to_str num) ≡ num
unfolding hex_to_str
hex_to_str_lem num h = elim (Bool-cases (num == 0)) [
  | inl nought ↦ rw nought (unfold hex_value color_digit in ground arith)
  | inr more ↦ rw more (hex_value-reverse (hex_loop 8 num) ∙ hex_loop-value 8 num (omega arith))
]
