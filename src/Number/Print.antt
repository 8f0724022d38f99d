-- ===== src/Number/Print.antt =====
-- What `intToString` and `itoa` leave in memory.
use alphix.Base.{
  ℕ, zero, suc, ◌+◌, ◌/◌, ◌%◌, ◌^◌, ◌≤◌, ◌<◌, ◌≡◌, ◌≢◌, refl, sym, ◌∙◌, ap, Bool, true, false, ◌⊎◌,
  inl, inr, Option, some, List, [], ◌∷◌, ◌++◌, arith, ltb, ◌==◌, ==_self, ==_ne, if◌then◌else◌,
  Bool-cases, length, length-append,
}
use mathlib.Core.List as List
use mathlib.Core.Path.{subst}
use alphix.Memory.{Bytes, poke}
use alphix.Text.{IsText}
use alphix.Text.Length.{strlen_lem}
use alphix.Text.Copy.{Chars, Chars-frame, IsText-append}
use alphix.Printf.Digits.{power}
use alphix.Number.{
  is_negative, magnitude, digit_loop, finish, int_to_string, itoa_loop, itoa, reverse, reverse_loop,
}
use alphix.Number.Reverse.{reverse_lem, Chars-append}

-- The decimal digits of a number, the last one first.
unfoldable pub digits_up : ℕ → ℕ → List ℕ
digits_up zero n = []
digits_up (suc fuel) n =
    let rest = digits_up fuel (n / 10) in (n % 10 + b'0') ∷ (if ltb 0 (n / 10) then rest else [])

pub digits_up-length : (fuel n : ℕ) → length (digits_up fuel n) ≤ fuel
unfolding digits_up
digits_up-length zero n = omega arith
digits_up-length (suc fuel) n = ground (arith, digits_up-length fuel (n / 10))

-- What is printed: a sign where the number is negative, and the digits of its magnitude.
abbrev pub decimal : Bool → ℕ → List ℕ
decimal minus u =
    if minus then List.reverse (digits_up 10 u ++ b'-' ∷ []) else List.reverse (digits_up 10 u)

-- A loop that has written `ds` from `str + i` on, and stopped behind it.
abbrev Wrote : Bytes → ℕ → ℕ → List ℕ → Bytes × ℕ → Type 0
Wrote m str i ds r =
    (r.1 ≡ i + length ds)
    × Chars r.0 (str + i) ds
    × ((a : ℕ) → (a < str + i) ⊎ (str + r.1 ≤ a) → r.0 a ≡ m a)

Wrote-cons :
    (m : Bytes) (str i c : ℕ) (ds : List ℕ) (r : Bytes × ℕ)
    → c ≢ 0
    → Wrote (poke m (str + i) c) str (i + 1) ds r
    → Wrote m str i (c ∷ ds) r
Wrote-cons m str i c ds r ne (stop, written, same) =
    let next : str + (i + 1) ≡ str + i + 1 = omega arith in
    (
      omega (arith, stop),
      (same (str + i) (inl (omega arith)) ∙ rw (==_self (str + i)) refl, ne, rw next at written),
      λ a out. same a (omega (arith, stop)) ∙ rw (==_ne a (str + i) (omega (arith, stop))) refl,
    )

digit_loop_lem :
    (fuel : ℕ) (m : Bytes) (str i n : ℕ)
    → Wrote m str i (digits_up fuel n) (digit_loop fuel m str i n)
unfolding digit_loop digits_up
digit_loop_lem zero m str i n = (omega arith, tt, λ a out. refl)
digit_loop_lem (suc fuel) m str i n =
    let c : ℕ = n % 10 + b'0' in
    let m1 : Bytes = poke m (str + i) c in
    elim (Bool-cases (ltb 0 (n / 10))) [
      | inr over ↦
          let e1 : digit_loop (suc fuel) m str i n ≡ (m1, i + 1) = rw over refl in
          let e2 : digits_up (suc fuel) n ≡ c ∷ [] = rw over refl in
          subst (λ r. Wrote m str i (digits_up (suc fuel) n) r) (sym e1)
            (subst (λ ds. Wrote m str i ds (m1, i + 1)) (sym e2)
              (Wrote-cons m str i c [] (m1, i + 1) (omega arith) (omega arith, tt, λ a out. refl)))
      | inl more ↦
          let r : Bytes × ℕ = digit_loop fuel m1 str (i + 1) (n / 10) in
          let e1 : digit_loop (suc fuel) m str i n ≡ r = rw more refl in
          let e2 : digits_up (suc fuel) n ≡ c ∷ digits_up fuel (n / 10) = rw more refl in
          subst (λ q. Wrote m str i (digits_up (suc fuel) n) q) (sym e1)
            (subst (λ ds. Wrote m str i ds r) (sym e2)
              (Wrote-cons m str i c (digits_up fuel (n / 10)) r (omega arith)
                (digit_loop_lem fuel m1 str (i + 1) (n / 10))))
    ]

-- The text in `m'` at `str`, with nothing else written than the 12 bytes there.
abbrev pub Printed : Bytes → ℕ → List ℕ → Option Bytes → Type 0
Printed m str s run =
    (m' : Bytes) × (run ≡ some m')
    × IsText m' str s
    × ((a : ℕ) → (a < str) ⊎ (str + 12 ≤ a) → m' a ≡ m a)

-- The zero behind what has been written, and the reversal.
close_lem :
    (fuel : ℕ) (m : Bytes) (str : ℕ) (ds : List ℕ) (r : Bytes × ℕ)
    → Wrote m str 0 ds r
    → length ds ≤ 11
    → 12 ≤ fuel
    → Printed m str (List.reverse ds) (reverse fuel (poke r.0 (str + r.1) 0) str)
close_lem fuel m str ds r (stop, written, same) short f =
    let m2 : Bytes = poke r.0 (str + r.1) 0 in
    let start : str + 0 ≡ str = omega arith in
    let front : Chars m2 str ds =
      Chars-frame r.0 m2 str ds (λ a lo hi. rw (==_ne a (str + r.1) (omega (arith, stop))) refl)
        (rw start at written) in
    let at : str + length ds ≡ str + r.1 = omega (arith, stop) in
    let back : IsText m2 (str + length ds) [] = rw at (rw (==_self (str + r.1)) refl) in
    let whole : IsText m2 str (ds ++ []) = IsText-append m2 str ds [] front back in
    let (m3, run, turned, kept) =
      reverse_lem fuel m2 str ds (rw List.append-nil at whole) (omega arith) in
    (
      m3,
      run,
      turned,
      λ a out.
          kept a (omega arith)
          ∙ rw (==_ne a (str + r.1) (omega (arith, stop))) refl
          ∙ same a (omega (arith, stop)),
    )

Wrote-snoc :
    (m : Bytes) (str c : ℕ) (ds : List ℕ) (r : Bytes × ℕ)
    → c ≢ 0
    → Wrote m str 0 ds r
    → Wrote m str 0 (ds ++ c ∷ []) (poke r.0 (str + r.1) c, r.1 + 1)
Wrote-snoc m str c ds r ne (stop, written, same) =
    let m2 : Bytes = poke r.0 (str + r.1) c in
    let at : str + 0 + length ds ≡ str + r.1 = omega (arith, stop) in
    (
      omega (arith, stop, length-append ds (c ∷ [])),
      Chars-append m2 (str + 0) ds (c ∷ [])
          (Chars-frame r.0 m2 (str + 0) ds
            (λ a lo hi. rw (==_ne a (str + r.1) (omega (arith, stop))) refl) written)
          (rw at (rw (==_self (str + r.1)) refl), ne, tt),
      λ a out. rw (==_ne a (str + r.1) (omega (arith, stop))) refl ∙ same a (omega (arith, stop)),
    )

finish_lem :
    (fuel : ℕ) (minus : Bool) (m : Bytes) (str u : ℕ)
    → 12 ≤ fuel
    → Printed m str (decimal minus u) (finish fuel minus str (digit_loop 10 m str 0 u))
unfolding finish
finish_lem fuel true m str u f =
    close_lem fuel m str (digits_up 10 u ++ b'-' ∷ []) _
      (Wrote-snoc m str b'-' (digits_up 10 u) (digit_loop 10 m str 0 u) (omega arith)
        (digit_loop_lem 10 m str 0 u))
      (omega (arith, length-append (digits_up 10 u) (b'-' ∷ []), digits_up-length 10 u)) f
finish_lem fuel false m str u f =
    close_lem fuel m str (digits_up 10 u) (digit_loop 10 m str 0 u) (digit_loop_lem 10 m str 0 u)
      (omega (arith, digits_up-length 10 u)) f

-- `intToString` of every `int` but the least ends, leaves the number's decimal text at `str`, and
-- writes nothing but the 12 bytes there.
pub int_to_string_lem :
    (fuel : ℕ) (m : Bytes) (n str u : ℕ)
    → magnitude n ≡ some u
    → 12 ≤ fuel
    → Printed m str (decimal (is_negative n) u) (int_to_string fuel m n str)
unfolding int_to_string
int_to_string_lem fuel m n str u e f =
    rw (e, int_to_string) (finish_lem fuel (is_negative n) m str u f)

-- The loop of `itoa` in base 10, which tests before it writes, is the loop of `intToString`, which
-- tests behind, on a number that is not zero.
itoa_loop-digit_loop :
    (fuel more : ℕ) (m : Bytes) (str i u : ℕ)
    → u ≢ 0
    → u < power 10 fuel
    → fuel ≤ more
    → itoa_loop (suc more) false m str i u 10 ≡ digit_loop fuel m str i u
unfolding itoa_loop digit_loop
itoa_loop-digit_loop zero more m str i u ne small le = absurd (omega arith)
itoa_loop-digit_loop (suc fuel) zero m str i u ne small le = absurd (omega arith)
itoa_loop-digit_loop (suc fuel) (suc more) m str i u ne small le =
    let digit : ltb 9 (u % 10) ≡ false = ground arith in
    let m1 : Bytes = poke m (str + i) (u % 10 + b'0') in
    let step : itoa_loop (suc (suc more)) false m str i u 10
        ≡ itoa_loop (suc more) false m1 str (i + 1) (u / 10) 10 =
      rw (==_ne u 0 ne, digit) refl in
    step ∙ elim (Bool-cases (ltb 0 (u / 10))) [
      | inl rest ↦
          let e : digit_loop (suc fuel) m str i u ≡ digit_loop fuel m1 str (i + 1) (u / 10) =
            rw rest refl in
          itoa_loop-digit_loop fuel more m1 str (i + 1) (u / 10) (ground arith) (omega arith)
            (omega arith)
          ∙ sym e
      | inr last ↦
          let nought : (u / 10 == 0) ≡ true = ground arith in
          let e : digit_loop (suc fuel) m str i u ≡ (m1, i + 1) = rw last refl in
          rw (nought, itoa_loop) refl ∙ sym e
    ]

pub magnitude-lt : (n u : ℕ) → n < 2 ^ 32 → magnitude n ≡ some u → u < power 10 10
unfolding magnitude
magnitude-lt n u small e = ground arith

magnitude-ne-zero : (n u : ℕ) → n < 2 ^ 32 → magnitude n ≡ some u → n ≢ 0 → u ≢ 0
unfolding magnitude
magnitude-ne-zero n u small e ne = ground arith

zero-same :
    (fuel : ℕ) (m : Bytes) (str : ℕ) → 12 ≤ fuel → itoa fuel m 0 str 10 ≡ int_to_string fuel m 0 str
unfolding itoa int_to_string finish digit_loop magnitude reverse reverse_loop
zero-same fuel m str f =
    let m2 : Bytes = poke (poke m (str + 0) b'0') (str + 1) 0 in
    let e0 : (str == str + 1) ≡ false = ground arith in
    let e1 : (str == str + 0) ≡ true = ground arith in
    let e2 : (str + 1 == str + 1) ≡ true = ground arith in
    let t : IsText m2 str (b'0' ∷ []) = (rw (e0, e1) refl, omega arith, rw e2 refl) in
    rw (strlen_lem fuel m2 str (b'0' ∷ []) t (omega arith)) refl

-- In base 10 and with fuel 12 at least, `itoa` does to memory what `intToString` does, for every
-- `int` but the least.
itoa-int_to_string :
    (fuel : ℕ) (m : Bytes) (n str u : ℕ)
    → n < 2 ^ 32
    → magnitude n ≡ some u
    → 12 ≤ fuel
    → itoa fuel m n str 10 ≡ int_to_string fuel m n str
unfolding itoa int_to_string
itoa-int_to_string fuel m n str u small e f = elim (Bool-cases (n == 0)) [
  | inl zeroth ↦
      let z : n ≡ 0 = ground arith in
      ap (λ k. itoa fuel m k str 10) z
      ∙ zero-same fuel m str f
      ∙ ap (λ k. int_to_string fuel m k str) (sym z)
  | inr other ↦
      let ne : u ≢ 0 = magnitude-ne-zero n u small e (ground arith) in
      let same = itoa_loop-digit_loop 10 31 m str 0 u ne (magnitude-lt n u small e) (omega arith) in
      elim (Bool-cases (is_negative n)) [
        | inl minus ↦ rw (other, e, minus, same) refl
        | inr plus ↦ rw (other, e, plus, same) refl
      ]
]
