-- ===== src/Text/Find.antt =====
-- `strchr` and `strrchr` find the first and the last occurrence of a character; `strnone`,
-- `clearString`.
use alphix.Base.{
  ℕ, zero, suc, ◌+◌, ◌<◌, ◌≡◌, ◌≢◌, refl, ap, ◌⊎◌, inl, inr, Option, none, some, List, [], ◌∷◌,
  ◌++◌, arith, ◌==◌, ==_self, ==_ne, Bool-cases, length, lt→ltb,
}
use alphix.Memory.{Bytes, poke}
use alphix.Text.{IsText, strchr, strrchr_loop, strrchr, strnone_loop, strnone, clear_string}
use alphix.Text.Length.{strlen_lem}
use native.Mathlib.Nat.{add-zero}

-- The character does not occur.
abbrev pub Absent : ℕ → List ℕ → Type 0
Absent ch [] = Unit {0}
Absent ch (c ∷ s) = (c ≢ ch) × Absent ch s

-- How a search for `ch` in the string `s` at `p` may end.
pub data First (ch p : ℕ) (s : List ℕ) : Option ℕ → Type 0 where
  nowhere : Absent ch s → First ch p s none
  first :
      (xs ys : List ℕ) {a : ℕ}
      → s ≡ xs ++ ch ∷ ys
      → Absent ch xs
      → a ≡ p + length xs
      → First ch p s (some a)

First-cons :
    {ch p c : ℕ} {s : List ℕ} {r : Option ℕ} → c ≢ ch → First ch (p + 1) s r → First ch p (c ∷ s) r
First-cons ne (nowhere absent) = nowhere (ne, absent)
First-cons {c} ne (first xs ys e absent at) =
    first (c ∷ xs) ys (ap (λ l. c ∷ l) e) (ne, absent) (omega arith)

-- With fuel above the string's length, `strchr` of a character that is not zero ends: at its first
-- occurrence, or with `NULL` where it does not occur.
strchr_lem :
    (fuel : ℕ) (m : Bytes) (p ch : ℕ) (s : List ℕ)
    → IsText m p s
    → length s < fuel
    → ch ≢ 0
    → (r : Option ℕ) × (strchr fuel m p ch ≡ some r) × First ch p s r
unfolding strchr
strchr_lem zero m p ch s t f ne = absurd (omega arith)
strchr_lem (suc fuel) m p ch [] t f ne = (none, rw (t, ==_ne ch 0 ne) refl, nowhere tt)
strchr_lem (suc fuel) m p ch (c ∷ s) t f ne = elim (Bool-cases (c == ch)) [
  | inl here ↦
      let same : c ≡ ch = ground arith in
      (
        some p,
        rw (t.0, ==_ne c 0 t.1, here) refl,
        first [] s (ap (λ d. d ∷ s) same) tt (omega arith),
      )
  | inr on ↦
      let (r, ends, found) = strchr_lem fuel m (p + 1) ch s t.2 (omega arith) ne in
      (r, rw (t.0, ==_ne c 0 t.1, on) ends, First-cons (ground arith) found)
]

pub data Last (ch p : ℕ) (s : List ℕ) : Option ℕ → Type 0 where
  nowhere : Absent ch s → Last ch p s none
  last :
      (xs ys : List ℕ) {a : ℕ}
      → s ≡ xs ++ ch ∷ ys
      → Absent ch ys
      → a ≡ p + length xs
      → Last ch p s (some a)

-- A search that goes on from `p` keeps what it has unless the character occurs again.
LastFrom : ℕ → ℕ → List ℕ → Option ℕ → Option ℕ → Type 0
LastFrom ch p s before r =
    (Absent ch s × (r ≡ before)) ⊎ ((a : ℕ) × (r ≡ some a) × Last ch p s (some a))

Last-cons : {ch p c a : ℕ} {s : List ℕ} → Last ch (p + 1) s (some a) → Last ch p (c ∷ s) (some a)
Last-cons {c} (last xs ys e absent at) = last (c ∷ xs) ys (ap (λ l. c ∷ l) e) absent (omega arith)

strrchr_loop-LastFrom :
    (fuel : ℕ) (m : Bytes) (p ch : ℕ) (s : List ℕ) (before : Option ℕ)
    → IsText m p s
    → length s < fuel
    → (r : Option ℕ) × (strrchr_loop fuel m p ch before ≡ some r) × LastFrom ch p s before r
unfolding strrchr_loop LastFrom
strrchr_loop-LastFrom zero m p ch s before t f = absurd (omega arith)
strrchr_loop-LastFrom (suc fuel) m p ch [] before t f = (before, rw t refl, inl (tt, refl))
strrchr_loop-LastFrom (suc fuel) m p ch (c ∷ s) before t f = elim (Bool-cases (c == ch)) [
  | inl here ↦
      let same : c ≡ ch = ground arith in
      let (r, ends, found) = strrchr_loop-LastFrom fuel m (p + 1) ch s (some p) t.2 (omega arith) in
      (
        r,
        rw (t.0, ==_ne c 0 t.1, here) ends,
        elim found [
          | inl kept ↦ inr (p, kept.1, last [] s (ap (λ d. d ∷ s) same) kept.0 (omega arith))
          | inr later ↦ inr (later.0, later.1, Last-cons later.2)
        ],
      )
  | inr on ↦
      let (r, ends, found) = strrchr_loop-LastFrom fuel m (p + 1) ch s before t.2 (omega arith) in
      (
        r,
        rw (t.0, ==_ne c 0 t.1, on) ends,
        elim found [
          | inl kept ↦ inl ((ground arith, kept.0), kept.1)
          | inr later ↦ inr (later.0, later.1, Last-cons later.2)
        ],
      )
]

-- With fuel above the string's length, `strrchr` ends: at the last occurrence of the character, or
-- with `NULL` where it does not occur.
strrchr_lem :
    (fuel : ℕ) (m : Bytes) (p ch : ℕ) (s : List ℕ)
    → IsText m p s
    → length s < fuel
    → (r : Option ℕ) × (strrchr fuel m p ch ≡ some r) × Last ch p s r
unfolding strrchr LastFrom
strrchr_lem fuel m p ch s t f =
    let (r, ends, found) = strrchr_loop-LastFrom fuel m p ch s none t f in
    (r, ends, elim found [ inl kept ↦ rw kept.1 (nowhere kept.0) | inr later ↦ rw later.1 later.2 ])

-- With fuel of two more than the string's length, `strnone` ends and leaves the string empty, but
-- it writes at most the first byte: the others keep what they held.
pub strnone_lem :
    (fuel : ℕ) (m : Bytes) (p : ℕ) (s : List ℕ)
    → IsText m p s
    → length s + 1 < fuel
    → (m' : Bytes) × (strnone fuel m p ≡ some m') × IsText m' p [] × ((a : ℕ) → a ≢ p → m' a ≡ m a)
unfolding strnone strnone_loop
strnone_lem zero m p s t f = absurd (omega arith)
strnone_lem (suc zero) m p s t f = absurd (omega arith)
strnone_lem (suc (suc k)) m p [] t f = (
  m,
  rw (strlen_lem (suc (suc k)) m p [] t (omega arith), strnone, strnone_loop) refl,
  t,
  λ a ne. refl,
)
strnone_lem (suc (suc k)) m p (c ∷ s) t f =
    let m' : Bytes = poke m p 0 in
    let start : p + 0 ≡ p = add-zero p in
    let empty : IsText m' p [] = rw (==_self p) refl in
    (
      m',
      rw
          (
            strlen_lem (suc (suc k)) m p (c ∷ s) t (omega arith),
            strnone,
            strnone_loop,
            lt→ltb 0 (suc (length s)) (omega arith),
            start,
            strlen_lem (suc (suc k)) m' p [] empty (omega arith),
            start,
          )
          refl,
      empty,
      λ a ne. rw (==_ne a p ne) refl,
    )

-- `clearString` ends and changes nothing.
clear_string_lem :
    (fuel : ℕ) (m : Bytes) (p : ℕ) (s : List ℕ)
    → IsText m p s
    → length s < fuel
    → clear_string fuel m p ≡ some m
unfolding clear_string
clear_string_lem fuel m p s t f = rw (strlen_lem fuel m p s t f, clear_string) refl
