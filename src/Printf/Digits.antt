-- ===== src/Printf/Digits.antt =====
-- The digits that `kvprintf` prints, read back.
use alphix.Base.{
  ℕ, zero, suc, ◌+◌, ◌-◌, ◌*◌, ◌/◌, ◌%◌, ◌^◌, ◌≤◌, ◌<◌, ◌≡◌, refl, ◌∙◌, ap, ◌⊎◌, inl, inr, List, [],
  ◌∷◌, ◌++◌, arith, ltb, ◌==◌, if◌then◌else◌, Bool-cases,
}
use mathlib.Core.List.{reverse, reverse-append}
use native.Mathlib.Nat.{div-add-mod, mod-lt, div-lt_iff_lt-mul}
use alphix.Printf.{digit_loop, number}

-- The value of a digit, as `kvprintf` writes it.
unfoldable pub digit_value : ℕ → ℕ
digit_value c = if ltb c b'a' then c - b'0' else c - b'a' + 10

-- The number of a list of digits, the last one first, and the first one first.
unfoldable pub value_up : ℕ → List ℕ → ℕ
value_up base [] = 0
value_up base (d ∷ ds) = digit_value d + base * value_up base ds

unfoldable pub value : ℕ → ℕ → List ℕ → ℕ
value base acc [] = acc
value base acc (d ∷ ds) = value base (acc * base + digit_value d) ds

abbrev pub power : ℕ → ℕ → ℕ
power base zero = 1
power base (suc n) = base * power base n

value-append :
    (base acc : ℕ) (ds : List ℕ) (d : ℕ)
    → value base acc (ds ++ d ∷ []) ≡ value base acc ds * base + digit_value d
unfolding value
value-append base acc [] d = refl
value-append base acc (e ∷ ds) d = value-append base (acc * base + digit_value e) ds d

pub value-reverse : (base : ℕ) (ds : List ℕ) → value base 0 (reverse ds) ≡ value_up base ds
unfolding value_up value
value-reverse base [] = refl
value-reverse base (d ∷ ds) =
    ap (value base 0) (reverse-append (d ∷ []) ds)
    ∙ value-append base 0 (reverse ds) d
    ∙ rw (value-reverse base ds) (grind arith)

digit-char : (r : ℕ) → r < 16 → digit_value (if ltb r 10 then b'0' + r else b'a' + (r - 10)) ≡ r
unfolding digit_value
digit-char r h = ground arith

pub digit_loop-value :
    (fuel base u : ℕ)
    → 1 < base
    → base ≤ 16
    → u < power base fuel
    → value_up base (digit_loop fuel base u) ≡ u
unfolding digit_loop value_up
digit_loop-value zero base u lo hi h = omega arith
digit_loop-value (suc fuel) base u lo hi h = elim (Bool-cases (u == 0)) [
  | inl done ↦ rw done (ground arith)
  | inr more ↦
      let small : u / base < power base fuel =
        (div-lt_iff_lt-mul {k = base} (omega arith)).1 (grind arith) in
      let digit : u % base < 16 = omega (arith, mod-lt u {m = base} (omega arith)) in
      rw (more, digit-char (u % base) digit, digit_loop-value fuel base (u / base) lo hi small)
        (omega (arith, div-add-mod u base))
]

-- The digits of a 64-bit number in base 10 or 16, read from the left, give that number.
number_lem :
    (base u : ℕ)
    → (base ≡ 10) ⊎ (base ≡ 16)
    → u < 2 ^ 64
    → value base 0 (reverse (number base u)) ≡ u
unfolding number
number_lem base u which h = elim (Bool-cases (u == 0)) [
  | inl nought ↦
      rw nought (value-reverse base (b'0' ∷ []) ∙ (unfold value_up digit_value in ground arith))
  | inr more ↦ rw more (
      value-reverse base (digit_loop 20 base u)
      ∙ digit_loop-value 20 base u (omega arith) (omega arith)
          (elim which [ inl e ↦ rw e (omega arith) | inr e ↦ rw e (omega arith) ]))
]
