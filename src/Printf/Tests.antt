-- ===== src/Printf/Tests.antt =====
-- Runs of `kvprintf`, and its theorems at concrete formats.
use alphix.Base.{ℕ, arith, ◌-◌, ◌^◌, ◌≡◌, ◌⊎◌, refl, true, false, some, List, [], ◌∷◌}
use alphix.Printf.{
  Arg, Spec, word, put, overrun, no_argument, number, field, kvprintf, print_loop, parse,
  conversion, accept, scan_precision, scan, convert, word_case, signed_number, digit_loop,
}
use alphix.Printf.Within.{kvprintf-within}

-- "a%05d", and -7 as a word.
abbrev padded_decimal : List ℕ
padded_decimal = b'a' ∷ b'%' ∷ b'0' ∷ b'5' ∷ b'd' ∷ []

abbrev minus_seven : List Arg
minus_seven = word (2 ^ 64 - 7) ∷ []

-- The zeros of a padded number come before its sign.
zeros-sign :
    kvprintf padded_decimal minus_seven ≡ put (b'a' ∷ b'0' ∷ b'0' ∷ b'0' ∷ b'-' ∷ b'7' ∷ [])
unfolding kvprintf print_loop parse conversion accept scan_precision scan convert word_case field
    signed_number number digit_loop
zeros-sign = refl

-- A format that ends with `%` is read behind its end.
percent-overruns : kvprintf (b'%' ∷ []) [] ≡ overrun
unfolding kvprintf print_loop parse conversion accept scan_precision scan
percent-overruns = refl

-- "a%05d" again.
kvprintf-within_example :
    ((out : List ℕ) × (kvprintf (b'a' ∷ b'%' ∷ b'0' ∷ b'5' ∷ b'd' ∷ []) minus_seven ≡ put out))
    ⊎ (kvprintf (b'a' ∷ b'%' ∷ b'0' ∷ b'5' ∷ b'd' ∷ []) minus_seven ≡ no_argument)
kvprintf-within_example =
    kvprintf-within (b'a' ∷ b'%' ∷ b'0' ∷ b'5' ∷ []) b'd' minus_seven
      (omega arith, omega arith, omega arith, omega arith, refl)

abbrev narrow : Spec
narrow = record { left = true; zeros = false; width = 4; precision = some 3; spec = b'd' }
