-- ===== src/Debug/Numbers.antt =====
-- The numbers that `qemu_debug_printf` prints, and the text that it passes on.
use alphix.Base.{
  ℕ, zero, suc, ◌/◌, ◌^◌, ◌<◌, ◌≡◌, refl, ◌∙◌, ◌⊎◌, inl, inr, some, List, [], ◌∷◌, arith, ◌==◌,
  ==_ne, Bool-cases,
}
use mathlib.Core.List.{append-nil}
use alphix.Printf.{Arg, digit_loop}
use alphix.Printf.Digits.{digit_value, value, value_up, value-reverse, digit_loop-value}
use alphix.Printf.Run.{NoPercent}
use alphix.Debug.{qemu_debug_putc, put_all, digits_up, put_uint, qemu_debug_printf}

digits_up-loop : (fuel val base : ℕ) → digits_up fuel val base ≡ digit_loop fuel base val
unfolding digits_up digit_loop
digits_up-loop zero val base = refl
digits_up-loop (suc fuel) val base = rw (digits_up-loop fuel (val / base) base) refl

-- The digits of a 32-bit number in base 10 or 16, read from the left, give that number.
put_uint_lem :
    (base val : ℕ)
    → (base ≡ 10) ⊎ (base ≡ 16)
    → val < 2 ^ 32
    → value base 0 (put_uint val base) ≡ val
unfolding put_uint
put_uint_lem base val which h = elim (Bool-cases (val == 0)) [
  | inl nought ↦
      rw nought (value-reverse base (b'0' ∷ []) ∙ (unfold value_up digit_value in ground arith))
  | inr more ↦
      rw (more, digits_up-loop 10 val base)
        (value-reverse base (digit_loop 10 base val)
          ∙ digit_loop-value 10 base val (omega arith) (omega arith)
              (elim which [ inl e ↦ rw e (omega arith) | inr e ↦ rw e (omega arith) ]))
]

-- A text without `%` prints itself, with a carriage return before each new line.
qemu_debug_printf_text :
    (p : List ℕ) (args : List Arg) → NoPercent p → qemu_debug_printf p args ≡ some (put_all p)
unfolding qemu_debug_printf put_all
qemu_debug_printf_text [] args h = refl
qemu_debug_printf_text (c ∷ []) args h = rw (==_ne c b'%' h.0, append-nil (qemu_debug_putc c)) refl
qemu_debug_printf_text (c ∷ d ∷ p) args h =
    rw (qemu_debug_printf, ==_ne c b'%' h.0, qemu_debug_printf_text (d ∷ p) args h.1) refl
