-- ===== src/Number/Tests.antt =====
-- Runs of the number conversions, and their theorems at concrete numbers.
use alphix.Base.{
  ℕ, ◌+◌, ◌-◌, ◌^◌, ◌≤◌, ◌<◌, ◌≡◌, refl, ◌⊎◌, some, List, [], ◌∷◌, arith, ◌==◌, if◌then◌else◌,
  length,
}
use mathlib.Core.List as List
use alphix.Memory.{Bytes}
use alphix.Text.{IsText}
use alphix.Number.{int_to_string, reverse, atoi, magnitude}
use alphix.Number.Read.{atoi-int_to_string}
use alphix.Number.Reverse.{reverse_lem}

-- `abc` from byte 1000 on, and zeros.
abbrev abc : Bytes
abc a = if a == 1000 then b'a' else if a == 1001 then b'b' else if a == 1002 then b'c' else 0

abbrev letters : List ℕ
letters = b'a' ∷ b'b' ∷ b'c' ∷ []

reverse_lem_example :
    (m' : Bytes) × (reverse 10 abc 1000 ≡ some m')
    × IsText m' 1000 (List.reverse letters)
    × ((a : ℕ) → (a < 1000) ⊎ (1000 + length letters ≤ a) → m' a ≡ abc a)
reverse_lem_example =
    reverse_lem 10 abc 1000 letters
      (refl, omega arith, (refl, omega arith, (refl, omega arith, refl))) (omega arith)

-- Minus 120, as its 32 bits.
abbrev minus_120 : ℕ
minus_120 = 2 ^ 32 - 120

atoi-int_to_string_example :
    (m' : Bytes) × (int_to_string 12 abc minus_120 1000 ≡ some m')
    × (atoi 12 m' 1000 ≡ some minus_120)
unfolding magnitude
atoi-int_to_string_example =
    atoi-int_to_string 12 abc minus_120 1000 120 (omega arith) refl (omega arith)
