-- ===== src/Number/Reverse.antt =====
-- `reverse` reverses a string in place.
use alphix.Base.{
  ℕ, zero, suc, ◌+◌, ◌-◌, ◌≤◌, ◌<◌, ◌≡◌, refl, ◌∙◌, ap, Bool, true, false, ◌&&◌, ◌⊎◌, inl, inr,
  some, List, [], ◌∷◌, ◌++◌, arith, ltb, leb, ◌==◌, if◌then◌else◌, Bool-cases, length,
  length-append, ltb→lt,
}
use mathlib.Core.List as List
use alphix.Memory.{Bytes}
use alphix.Text.{IsText}
use alphix.Text.Length.{strlen_lem, IsText-end}
use alphix.Text.Copy.{Chars, IsText-append, IsText-Chars}
use alphix.Number.{swap, reverse_loop, reverse}

-- Whether the address is from the `i`-th byte to the `j`-th, and these are two.
abbrev between : ℕ → ℕ → ℕ → ℕ → Bool
between s i j a = leb (s + i) a && (leb a (s + j) && ltb i j)

swap-at :
    (m : Bytes) (s i j a : ℕ)
    → i < j
    → swap m s i j a ≡ (if a == s + i then m (s + j) else if a == s + j then m (s + i) else m a)
swap-at m s i j a lt = elim (Bool-cases (a == s + i)) [
  | inl low ↦ let e : (a == s + j) ≡ false = ground arith in rw (e, low) refl
  | inr other ↦ rw other refl
]

reverse_loop-at :
    (fuel : ℕ) (m : Bytes) (s i j a : ℕ)
    → j < i + fuel + fuel + 1
    → reverse_loop fuel m s i j a ≡ (if between s i j a then m (s + (i + j - (a - s))) else m a)
unfolding reverse_loop
reverse_loop-at zero m s i j a f =
    let outside : between s i j a ≡ false = ground arith in rw outside refl
reverse_loop-at (suc fuel) m s i j a f = elim (Bool-cases (ltb i j)) [
  | inr met ↦ let outside : between s i j a ≡ false = ground arith in rw (outside, met) refl
  | inl apart ↦
      let lt : i < j = ltb→lt i j apart in
      let e : reverse_loop (suc fuel) m s i j a ≡ (
          if between s (i + 1) (j - 1) a
          then swap m s i j (s + (i + 1 + (j - 1) - (a - s)))
          else swap m s i j a) =
        rw apart (reverse_loop-at fuel (swap m s i j) s (i + 1) (j - 1) a (omega arith)) in
      e ∙ elim (Bool-cases (between s (i + 1) (j - 1) a)) [
        | inl inner ↦
            let inside : between s i j a ≡ true = ground arith in
            let same : i + 1 + (j - 1) - (a - s) ≡ i + j - (a - s) = omega arith in
            let n1 : (s + (i + j - (a - s)) == s + i) ≡ false = ground arith in
            let n2 : (s + (i + j - (a - s)) == s + j) ≡ false = ground arith in
            rw (inner, inside, same) (swap-at m s i j (s + (i + j - (a - s))) lt ∙ rw (n1, n2) refl)
        | inr edge ↦ rw edge (
            swap-at m s i j a lt ∙ elim (Bool-cases (a == s + i)) [
              | inl low ↦
                  let inside : between s i j a ≡ true = ground arith in
                  let to : i + j - (a - s) ≡ j = ground arith in rw (low, inside, to) refl
              | inr not_low ↦ elim (Bool-cases (a == s + j)) [
                | inl high ↦
                    let inside : between s i j a ≡ true = ground arith in
                    let to : i + j - (a - s) ≡ i = ground arith in
                    rw (not_low, high, inside, to) refl
                | inr not_high ↦ elim (Bool-cases (between s i j a)) [
                  | inl middle ↦
                      let to : s + (i + j - (a - s)) ≡ a = ground arith in
                      rw (not_low, not_high, middle, to) refl
                  | inr outside ↦ rw (not_low, not_high, outside) refl
                ]
              ]
            ])
      ]
]

pub Chars-append :
    (m : Bytes) (p : ℕ) (xs ys : List ℕ)
    → Chars m p xs
    → Chars m (p + length xs) ys
    → Chars m p (xs ++ ys)
Chars-append m p [] ys t u = let e : p + 0 ≡ p = omega arith in rw e at u
Chars-append m p (c ∷ xs) ys t u =
    let e : p + suc (length xs) ≡ p + 1 + length xs = omega arith in
    (t.0, t.1, Chars-append m (p + 1) xs ys t.2 (rw e at u))

pub length-reverse : (l : List ℕ) → length (List.reverse l) ≡ length l
length-reverse [] = refl
length-reverse (c ∷ l) =
    ap length (List.reverse-append (c ∷ []) l)
    ∙ length-append (List.reverse l) (c ∷ [])
    ∙ rw (length-reverse l) (omega arith)

-- Characters whose bytes lie at `q` in the opposite order.
Chars-reversed :
    (m m' : Bytes) (p q : ℕ) (s : List ℕ)
    → ((i : ℕ) → i < length s → m' (q + i) ≡ m (p + (length s - 1 - i)))
    → Chars m p s
    → Chars m' q (List.reverse s)
Chars-reversed m m' p q [] same t = tt
Chars-reversed m m' p q (c ∷ s) same t =
    let n : ℕ = length s in
    let later : (i : ℕ) → i < n → m' (q + i) ≡ m (p + 1 + (n - 1 - i)) = λ i lt.
      let e : p + (suc n - 1 - i) ≡ p + 1 + (n - 1 - i) = omega arith in
      same i (omega arith) ∙ ap m e in
    let zeroth : p + (suc n - 1 - n) ≡ p = omega arith in
    let last : m' (q + n) ≡ c = same n (omega arith) ∙ ap m zeroth ∙ t.0 in
    let len : q + length (List.reverse s) ≡ q + n = ap (λ (k : ℕ). q + k) (length-reverse s) in
    rw (List.reverse-append (c ∷ []) s) (
      Chars-append m' q (List.reverse s) (c ∷ []) (Chars-reversed m m' (p + 1) q s later t.2)
        (ap m' len ∙ last, t.1, tt))

-- `reverse` ends, leaves the string reversed, and writes to no other byte.
pub reverse_lem :
    (fuel : ℕ) (m : Bytes) (p : ℕ) (s : List ℕ)
    → IsText m p s
    → length s < fuel
    → (m' : Bytes) × (reverse fuel m p ≡ some m')
      × IsText m' p (List.reverse s)
      × ((a : ℕ) → (a < p) ⊎ (p + length s ≤ a) → m' a ≡ m a)
unfolding reverse
reverse_lem fuel m p s t f =
    let n : ℕ = length s in
    let m' : Bytes = reverse_loop n m p 0 (n - 1) in
    let at = λ (a : ℕ). reverse_loop-at n m p 0 (n - 1) a (omega arith) in
    let opposite : (i : ℕ) → i < n → m' (p + i) ≡ m (p + (n - 1 - i)) = λ i lt.
      elim (Bool-cases (between p 0 (n - 1) (p + i))) [
        | inl inside ↦
            let from : 0 + (n - 1) - (p + i - p) ≡ n - 1 - i = omega arith in
            at (p + i) ∙ rw (inside, from) refl
        | inr single ↦
            let from : p + i ≡ p + (n - 1 - i) = ground arith in at (p + i) ∙ rw single (ap m from)
      ] in
    let outside : (a : ℕ) → (a < p) ⊎ (p + n ≤ a) → m' a ≡ m a =
      λ a out. let e : between p 0 (n - 1) a ≡ false = ground arith in at a ∙ rw e refl in
    let chars = Chars-reversed m m' p p s opposite (IsText-Chars m p s t) in
    let len : p + length (List.reverse s) ≡ p + n = ap (λ (k : ℕ). p + k) (length-reverse s) in
    let stop : IsText m' (p + length (List.reverse s)) [] =
      ap m' len ∙ outside (p + n) (inr (omega arith)) ∙ IsText-end m p s t in
    (
      m',
      rw (strlen_lem fuel m p s t f) refl,
      rw List.append-nil at (IsText-append m' p (List.reverse s) [] chars stop),
      outside,
    )
