-- ===== src/Number/Read.antt =====
-- `atoi` reads what `intToString` prints.
use alphix.Base.{
  ℕ, zero, suc, ◌+◌, ◌-◌, ◌*◌, ◌/◌, ◌%◌, ◌^◌, ◌≤◌, ◌<◌, ◌≡◌, refl, sym, ◌∙◌, ap, true, false, ◌⊎◌,
  inl, inr, some, List, [], ◌∷◌, ◌++◌, arith, ltb, ◌==◌, if◌then◌else◌, Bool-cases, length,
}
use mathlib.Core.List as List
use mathlib.Core.Path.{subst}
use alphix.Memory.{Bytes}
use alphix.Text.{IsText}
use alphix.Printf.Digits.{power, digit_value, value, value_up, value-reverse}
use alphix.Number.{
  is_negative, magnitude, int_to_string, is_blank, is_digit, skip_blanks, read_digits, atoi,
}
use alphix.Number.Reverse.{length-reverse}
use alphix.Number.Print.{digits_up, digits_up-length, decimal, int_to_string_lem, magnitude-lt}

-- Digits and nothing else.
abbrev AllDigits : List ℕ → Type 0
AllDigits [] = Unit {0}
AllDigits (c ∷ s) = (b'0' ≤ c) × (c ≤ b'9') × AllDigits s

AllDigits-append : (s t : List ℕ) → AllDigits s → AllDigits t → AllDigits (s ++ t)
AllDigits-append [] t a b = b
AllDigits-append (c ∷ s) t a b = (a.0, a.1, AllDigits-append s t a.2 b)

AllDigits-reverse : (s : List ℕ) → AllDigits s → AllDigits (List.reverse s)
AllDigits-reverse [] a = a
AllDigits-reverse (c ∷ s) a =
    rw (List.reverse-append (c ∷ []) s)
      (AllDigits-append (List.reverse s) (c ∷ []) (AllDigits-reverse s a.2) (a.0, a.1, tt))

digits_up-AllDigits : (fuel n : ℕ) → AllDigits (digits_up fuel n)
unfolding digits_up
digits_up-AllDigits zero n = tt
digits_up-AllDigits (suc fuel) n = elim (Bool-cases (ltb 0 (n / 10))) [
  | inl more ↦
      let e : digits_up (suc fuel) n ≡ (n % 10 + b'0') ∷ digits_up fuel (n / 10) = rw more refl in
      subst AllDigits (sym e) (omega arith, omega arith, digits_up-AllDigits fuel (n / 10))
  | inr over ↦
      let e : digits_up (suc fuel) n ≡ (n % 10 + b'0') ∷ [] = rw over refl in
      subst AllDigits (sym e) (omega arith, omega arith, tt)
]

digits_up-value : (fuel n : ℕ) → n < power 10 fuel → value_up 10 (digits_up fuel n) ≡ n
unfolding digits_up value_up digit_value
digits_up-value zero n h = omega arith
digits_up-value (suc fuel) n h = elim (Bool-cases (ltb 0 (n / 10))) [
  | inl more ↦
      let e : value_up 10 (digits_up (suc fuel) n)
          ≡ digit_value (n % 10 + b'0') + 10 * value_up 10 (digits_up fuel (n / 10)) =
        rw more refl in
      e ∙ rw (digits_up-value fuel (n / 10) (omega arith)) (ground arith)
  | inr over ↦
      let e : value_up 10 (digits_up (suc fuel) n) ≡ digit_value (n % 10 + b'0') + 10 * 0 =
        rw over refl in
      e ∙ ground arith
]

value-ge : (acc : ℕ) (s : List ℕ) → acc ≤ value 10 acc s
unfolding value digit_value
value-ge acc [] = omega arith
value-ge acc (c ∷ s) = omega (arith, value-ge (acc * 10 + digit_value c) s)

read_digits_lem :
    (fuel : ℕ) (m : Bytes) (p acc : ℕ) (s : List ℕ)
    → IsText m p s
    → AllDigits s
    → length s < fuel
    → value 10 acc s < 2 ^ 32
    → read_digits fuel m p acc ≡ some (value 10 acc s)
unfolding read_digits value digit_value
read_digits_lem zero m p acc s t d f small = absurd (omega arith)
read_digits_lem (suc fuel) m p acc [] t d f small = rw t refl
read_digits_lem (suc fuel) m p acc (c ∷ s) t d f small =
    let here : m p ≡ c = t.0 in
    let digit : is_digit (m p) ≡ true = rw here (ground arith) in
    let own : digit_value c ≡ c - b'0' = ground arith in
    let fits : acc * 10 + digit_value c < 2 ^ 32 =
      omega (arith, value-ge (acc * 10 + digit_value c) s) in
    let next : (acc * 10 + (m p - b'0')) % 2 ^ 32 ≡ acc * 10 + digit_value c =
      rw (here, own) (omega arith) in
    rw (read_digits, digit, next)
      (read_digits_lem fuel m (p + 1) (acc * 10 + digit_value c) s t.2 d.2 (omega arith) small)

digits-start :
    (m : Bytes) (p : ℕ) (s : List ℕ) → IsText m p s → AllDigits s → (m p ≡ 0) ⊎ (b'0' ≤ m p)
digits-start m p [] t d = inl t
digits-start m p (c ∷ s) t d = inr (omega (arith, t.0, d.0))

atoi-digits :
    (fuel : ℕ) (m : Bytes) (p : ℕ) (s : List ℕ)
    → IsText m p s
    → AllDigits s
    → length s < fuel
    → value 10 0 s < 2 ^ 32
    → atoi fuel m p ≡ some (value 10 0 s)
unfolding atoi skip_blanks
atoi-digits zero m p s t d f small = absurd (omega arith)
atoi-digits (suc fuel) m p s t d f small =
    let start = digits-start m p s t d in
    let black : is_blank (m p) ≡ false = ground (arith, start) in
    let plain : (m p == b'-') ≡ false = ground (arith, start) in
    let bare : (m p == b'+') ≡ false = ground (arith, start) in
    rw (black, plain, bare, read_digits_lem (suc fuel) m p 0 s t d f small) refl

atoi-minus :
    (fuel : ℕ) (m : Bytes) (p : ℕ) (s : List ℕ)
    → IsText m p (b'-' ∷ s)
    → AllDigits s
    → length s < fuel
    → value 10 0 s < 2 ^ 32
    → atoi fuel m p ≡ some ((2 ^ 32 - value 10 0 s) % 2 ^ 32)
unfolding atoi skip_blanks
atoi-minus zero m p s t d f small = absurd (omega arith)
atoi-minus (suc fuel) m p s t d f small =
    let black : is_blank (m p) ≡ false = rw t.0 (ground arith) in
    let minus : (m p == b'-') ≡ true = rw t.0 (ground arith) in
    rw (black, minus, read_digits_lem (suc fuel) m (p + 1) 0 s t.2 d f small) refl

-- The digits of `u` as they are printed: digits only, few, and of the value `u`.
printed_digits :
    (u : ℕ)
    → u < power 10 10
    → AllDigits (List.reverse (digits_up 10 u))
      × (length (List.reverse (digits_up 10 u)) ≤ 10)
      × (value 10 0 (List.reverse (digits_up 10 u)) ≡ u)
printed_digits u h = (
  AllDigits-reverse (digits_up 10 u) (digits_up-AllDigits 10 u),
  rw (length-reverse (digits_up 10 u)) (digits_up-length 10 u),
  value-reverse 10 (digits_up 10 u) ∙ digits_up-value 10 u h,
)

magnitude-back :
    (n u : ℕ)
    → n < 2 ^ 32
    → magnitude n ≡ some u
    → (u < 2 ^ 32) × ((if is_negative n then (2 ^ 32 - u) % 2 ^ 32 else u) ≡ n)
unfolding magnitude
magnitude-back n u small e = (ground arith, ground arith)

-- With fuel 12 at least, the text that `intToString` leaves for an `int`, every one but the least,
-- is read by `atoi` as that `int` again, with its sign.
pub atoi-int_to_string :
    (fuel : ℕ) (m : Bytes) (n str u : ℕ)
    → n < 2 ^ 32
    → magnitude n ≡ some u
    → 12 ≤ fuel
    → (m' : Bytes) × (int_to_string fuel m n str ≡ some m') × (atoi fuel m' str ≡ some n)
atoi-int_to_string fuel m n str u small e f =
    let (m', run, text, _) = int_to_string_lem fuel m n str u e f in
    let (digits, short, same) = printed_digits u (magnitude-lt n u small e) in
    let (fits, back) = magnitude-back n u small e in
    let ds : List ℕ = List.reverse (digits_up 10 u) in
    let bound : value 10 0 ds < 2 ^ 32 = omega (arith, same, fits) in
    (
      m',
      run,
      elim (Bool-cases (is_negative n)) [
        | inl minus ↦
            let shape : decimal (is_negative n) u ≡ b'-' ∷ ds =
              rw minus (List.reverse-append (digits_up 10 u) (b'-' ∷ [])) in
            let signed : (2 ^ 32 - u) % 2 ^ 32 ≡ n = rw minus at back in
            atoi-minus fuel m' str ds (rw shape at text) digits (omega (arith, short)) bound
            ∙ ap some (rw same signed)
        | inr plus ↦
            let shape : decimal (is_negative n) u ≡ ds = rw plus refl in
            let own : u ≡ n = rw plus at back in
            atoi-digits fuel m' str ds (rw shape at text) digits (omega (arith, short)) bound
            ∙ ap some (same ∙ own)
      ],
    )
