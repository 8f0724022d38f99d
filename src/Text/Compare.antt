-- ===== src/Text/Compare.antt =====
-- `strcmp` and `starts_with` decide what they are asked.
use alphix.Base.{
  ℕ, zero, suc, ◌+◌, ◌<◌, ◌≡◌, ◌≢◌, refl, sym, ◌∙◌, ap, Bool, true, false, ◌&&◌, inl, inr, ◌↔◌,
  some, List, [], ◌∷◌, ◌++◌, arith, ◌==◌, ==_self, ==_ne, if◌then◌else◌, Bool-cases, length,
}
use mathlib.Core.Path.{ap₂}
use alphix.Memory.{Bytes}
use alphix.Text.{IsText, strcmp, starts_with}

-- Where two strings first differ; a string ends with a zero.
pub differ : List ℕ → List ℕ → ℕ × ℕ
differ [] [] = (0, 0)
differ [] (d ∷ t) = (0, d)
differ (c ∷ s) [] = (c, 0)
differ (c ∷ s) (d ∷ t) = if c == d then differ s t else (c, d)

abbrev pub NoZero : List ℕ → Type 0
NoZero [] = Unit {0}
NoZero (c ∷ s) = (c ≢ 0) × NoZero s

IsText-NoZero : (m : Bytes) (p : ℕ) (s : List ℕ) → IsText m p s → NoZero s
IsText-NoZero m p [] t = tt
IsText-NoZero m p (c ∷ s) t = (t.1, IsText-NoZero m (p + 1) s t.2)

differ-eq : (s t : List ℕ) → NoZero s → NoZero t → (differ s t).0 ≡ (differ s t).1 → s ≡ t
unfolding differ
differ-eq [] [] z w e = refl
differ-eq [] (d ∷ t) z w e = absurd (w.0 (sym e))
differ-eq (c ∷ s) [] z w e = absurd (z.0 e)
differ-eq (c ∷ s) (d ∷ t) z w e = elim (Bool-cases (c == d)) [
  | inl same ↦
      let e' : (differ s t).0 ≡ (differ s t).1 = rw same at e in
      let c_d : c ≡ d = ground arith in ap₂ ◌∷◌ c_d (differ-eq s t z.1 w.1 e')
  | inr other ↦ let e' : c ≡ d = rw other at e in absurd (ground arith)
]

differ_self : (s : List ℕ) → differ s s ≡ (0, 0)
unfolding differ
differ_self [] = refl
differ_self (c ∷ s) = rw (==_self c) (differ_self s)

strcmp-differ :
    (fuel : ℕ) (m : Bytes) (p q : ℕ) (s t : List ℕ)
    → IsText m p s
    → IsText m q t
    → length s < fuel
    → strcmp fuel m p q ≡ some (differ s t)
unfolding strcmp differ
strcmp-differ zero m p q s t a b f = absurd (omega arith)
strcmp-differ (suc fuel) m p q [] [] a b f = rw (a, b) refl
strcmp-differ (suc fuel) m p q [] (d ∷ t) a b f = rw (a, b.0, ==_ne 0 d (omega (arith, b.1))) refl
strcmp-differ (suc fuel) m p q (c ∷ s) [] a b f = rw (a.0, b, ==_ne c 0 a.1) refl
strcmp-differ (suc fuel) m p q (c ∷ s) (d ∷ t) a b f =
    let rest = strcmp-differ fuel m (p + 1) (q + 1) s t a.2 b.2 (omega arith) in
    rw (a.0, b.0, ==_ne c 0 a.1, rest) (ground arith)

-- With fuel above the first string's length, `strcmp` of two strings ends, and the difference that
-- it returns is zero exactly where the strings are equal.
strcmp_lem :
    (fuel : ℕ) (m : Bytes) (p q : ℕ) (s t : List ℕ)
    → IsText m p s
    → IsText m q t
    → length s < fuel
    → (x y : ℕ) × (strcmp fuel m p q ≡ some (x, y)) × ((x ≡ y) ↔ (s ≡ t))
strcmp_lem fuel m p q s t a b f = (
  (differ s t).0,
  (differ s t).1,
  strcmp-differ fuel m p q s t a b f,
  (
    differ-eq s t (IsText-NoZero m p s a) (IsText-NoZero m q t b),
    λ e.
        ap (λ l. (differ s l).0) (sym e)
        ∙ ap (λ (d : ℕ × ℕ). d.0) (differ_self s)
        ∙ ap (λ (d : ℕ × ℕ). d.1) (sym (differ_self s))
        ∙ ap (λ l. (differ s l).1) e,
  ),
)

pub is_prefix : List ℕ → List ℕ → Bool
is_prefix [] s = true
is_prefix (d ∷ t) [] = false
is_prefix (d ∷ t) (c ∷ s) = (c == d) && is_prefix t s

is_prefix_iff : (t s : List ℕ) → is_prefix t s ≡ true → (rest : List ℕ) × (s ≡ t ++ rest)
unfolding is_prefix
is_prefix_iff [] s h = (s, refl)
is_prefix_iff (d ∷ t) [] h = absurd (cc)
is_prefix_iff (d ∷ t) (c ∷ s) h = ground (arith, is_prefix_iff t s)

-- With fuel above the second string's length, `startsWith` ends, and says whether the second string
-- is a prefix of the first.
starts_with_lem :
    (fuel : ℕ) (m : Bytes) (p q : ℕ) (s t : List ℕ)
    → IsText m p s
    → IsText m q t
    → length t < fuel
    → starts_with fuel m p q ≡ some (is_prefix t s)
unfolding starts_with is_prefix
starts_with_lem zero m p q s t a b f = absurd (omega arith)
starts_with_lem (suc fuel) m p q s [] a b f = rw b refl
starts_with_lem (suc fuel) m p q [] (d ∷ t) a b f =
    rw (a, b.0, ==_ne d 0 b.1, ==_ne 0 d (omega (arith, b.1))) refl
starts_with_lem (suc fuel) m p q (c ∷ s) (d ∷ t) a b f =
    let rest = starts_with_lem fuel m (p + 1) (q + 1) s t a.2 b.2 (omega arith) in
    rw (a.0, b.0, ==_ne d 0 b.1, rest) (ground arith)
