-- ===== src/Text/Copy.antt =====
-- `strcpy`, `strcat` and `join`: the string they make, and what they leave alone.
use alphix.Base.{
  ℕ, zero, suc, ◌+◌, ◌≤◌, ◌<◌, ◌≡◌, ◌≢◌, refl, sym, ◌∙◌, ap, ◌⊎◌, Option, some, List, [], ◌∷◌, ◌++◌,
  arith, ==_self, ==_ne, length,
}
use alphix.Memory.{Bytes, poke}
use alphix.Text.{IsText, strncpy, strcpy, end_loop, strcat, join}
use alphix.Text.Length.{IsText-frame, strlen_lem}
use native.Mathlib.Nat.{add-zero}
use mathlib.Core.List.{append-nil}
use mathlib.Core.Path.{subst}

-- The characters `s` lie at `p`, with or without a zero behind them.
abbrev pub Chars : Bytes → ℕ → List ℕ → Type 0
Chars m p [] = Unit {0}
Chars m p (c ∷ s) = (m p ≡ c) × (c ≢ 0) × Chars m (p + 1) s

pub Chars-frame :
    (m m' : Bytes) (p : ℕ) (s : List ℕ)
    → ((a : ℕ) → p ≤ a → a < p + length s → m' a ≡ m a)
    → Chars m p s
    → Chars m' p s
Chars-frame m m' p [] same t = tt
Chars-frame m m' p (c ∷ s) same t = (
  same p (omega arith) (omega arith) ∙ t.0,
  t.1,
  Chars-frame m m' (p + 1) s (λ a lo hi. same a (omega arith) (omega arith)) t.2,
)

pub IsText-left : (m : Bytes) (p : ℕ) (xs ys : List ℕ) → IsText m p (xs ++ ys) → Chars m p xs
IsText-left m p [] ys t = tt
IsText-left m p (c ∷ xs) ys t = (t.0, t.1, IsText-left m (p + 1) xs ys t.2)

pub IsText-right :
    (m : Bytes) (p : ℕ) (xs ys : List ℕ) → IsText m p (xs ++ ys) → IsText m (p + length xs) ys
IsText-right m p [] ys t = rw add-zero t
IsText-right m p (c ∷ xs) ys t =
    let e : p + suc (length xs) ≡ p + 1 + length xs = omega arith in
    rw e (IsText-right m (p + 1) xs ys t.2)

pub IsText-append :
    (m : Bytes) (p : ℕ) (xs ys : List ℕ)
    → Chars m p xs
    → IsText m (p + length xs) ys
    → IsText m p (xs ++ ys)
IsText-append m p [] ys t u = rw add-zero at u
IsText-append m p (c ∷ xs) ys t u =
    let e : p + suc (length xs) ≡ p + 1 + length xs = omega arith in
    (t.0, t.1, IsText-append m (p + 1) xs ys t.2 (rw e at u))

-- A run of a copy ends, leaves the string `s` at `dest`, and writes nothing outside `n` bytes there.
pub record Copied (m : Bytes) (dest n at : ℕ) (s : List ℕ) (run : Option Bytes) : Type 0 where
  pub memory : Bytes
  pub ends : run ≡ some memory
  pub text : IsText memory at s
  pub same : (a : ℕ) → (a < dest) ⊎ (dest + n ≤ a) → memory a ≡ m a

-- `strcpy` copies a string, its zero included, to bytes that do not overlap it.
pub strcpy_lem :
    (fuel : ℕ) (m : Bytes) (dest src : ℕ) (s : List ℕ)
    → IsText m src s
    → length s < fuel
    → (src + (length s + 1) ≤ dest) ⊎ (dest + (length s + 1) ≤ src)
    → Copied m dest (length s + 1) dest s (strcpy fuel m dest src)
unfolding strcpy
strcpy_lem zero m dest src s t f apart = absurd (omega arith)
strcpy_lem (suc fuel) m dest src [] t f apart = rw t (record {
  memory = poke m dest 0;
  ends = refl;
  text = rw (==_self dest) refl;
  same = λ a out. rw (==_ne a dest (omega arith)) refl;
})
strcpy_lem (suc fuel) m dest src (c ∷ s) t f apart =
    let m1 : Bytes = poke m dest c in
    let there =
      IsText-frame m m1 (src + 1) s (λ a lo hi. rw (==_ne a dest (omega arith)) refl) t.2 in
    let rest = strcpy_lem fuel m1 (dest + 1) (src + 1) s there (omega arith) (omega arith) in
    rw (t.0, ==_ne c 0 t.1)
      (record {
        memory = rest.memory;
        ends = rest.ends;
        text = (rest.same dest (omega arith) ∙ rw (==_self dest) refl, t.1, rest.text);
        same = λ a out. rest.same a (omega arith) ∙ rw (==_ne a dest (omega arith)) refl;
      })

end_loop-length :
    (fuel : ℕ) (m : Bytes) (p : ℕ) (s : List ℕ)
    → IsText m p s
    → length s < fuel
    → end_loop fuel m p ≡ some (p + length s)
unfolding end_loop
end_loop-length zero m p s t f = absurd (omega arith)
end_loop-length (suc fuel) m p [] t f = rw (t, add-zero) refl
end_loop-length (suc fuel) m p (c ∷ s) t f =
    rw (t.0, ==_ne c 0 t.1)
      (end_loop-length fuel m (p + 1) s t.2 (omega arith) ∙ ap some (omega arith))

-- With fuel above both lengths, `strcat` ends and leaves the concatenation at `s`, if the second
-- string overlaps neither the first nor the bytes that are written behind it; no other byte is
-- written.
strcat_lem :
    (fuel : ℕ) (m : Bytes) (s append : ℕ) (xs ys : List ℕ)
    → IsText m s xs
    → IsText m append ys
    → length xs < fuel
    → length ys < fuel
    → (append + (length ys + 1) ≤ s) ⊎ (s + (length xs + length ys + 1) ≤ append)
    → Copied m (s + length xs) (length ys + 1) s (xs ++ ys) (strcat fuel m s append)
unfolding strcat
strcat_lem fuel m s append xs ys t u fx fy apart =
    let c = strcpy_lem fuel m (s + length xs) append ys u fy (omega arith) in
    let front =
      Chars-frame m c.memory s xs (λ a lo hi. c.same a (omega arith))
        (IsText-left m s xs [] (rw append-nil t)) in
    rw (end_loop-length fuel m s xs t fx, strcat)
      (record {
        memory = c.memory;
        ends = c.ends;
        text = IsText-append c.memory s xs ys front c.text;
        same = c.same;
      })

-- `join` (and `strncat`) puts one character behind a string.
join_lem :
    (fuel : ℕ) (m : Bytes) (s n : ℕ) (xs : List ℕ)
    → IsText m s xs
    → length xs < fuel
    → n ≢ 0
    → Copied m (s + length xs) 2 s (xs ++ n ∷ []) (join fuel m s n)
unfolding join
join_lem fuel m s n xs t f ne =
    let len : ℕ = length xs in
    let m' : Bytes = poke (poke m (s + len) n) (s + len + 1) 0 in
    let front =
      Chars-frame m m' s xs
        (λ a lo hi. rw (==_ne a (s + len + 1) (omega arith), ==_ne a (s + len) (omega arith)) refl)
        (IsText-left m s xs [] (rw append-nil t)) in
    let back : IsText m' (s + len) (n ∷ []) = (
      rw (==_ne (s + len) (s + len + 1) (omega arith), ==_self (s + len)) refl,
      ne,
      rw (==_self (s + len + 1)) refl,
    ) in
    rw (strlen_lem fuel m s xs t f, join)
      (record {
        memory = m';
        ends = refl;
        text = IsText-append m' s xs (n ∷ []) front back;
        same =
            λ a out. rw (==_ne a (s + len + 1) (omega arith), ==_ne a (s + len) (omega arith)) refl;
      })

pub IsText-Chars : (m : Bytes) (p : ℕ) (s : List ℕ) → IsText m p s → Chars m p s
IsText-Chars m p [] t = tt
IsText-Chars m p (c ∷ s) t = (t.0, t.1, IsText-Chars m (p + 1) s t.2)

-- `strncpy` of as many characters as the string has copies them and no zero.
pub strncpy-Chars :
    (m : Bytes) (dest src : ℕ) (s : List ℕ)
    → Chars m src s
    → (src + length s ≤ dest) ⊎ (dest + length s ≤ src)
    → Chars (strncpy (length s) m dest src) dest s
      × ((a : ℕ) → (a < dest) ⊎ (dest + length s ≤ a) → strncpy (length s) m dest src a ≡ m a)
unfolding strncpy
strncpy-Chars m dest src [] t apart = (tt, λ a out. refl)
strncpy-Chars m dest src (c ∷ s) t apart =
    let m1 : Bytes = poke m dest c in
    let there =
      Chars-frame m m1 (src + 1) s (λ a lo hi. rw (==_ne a dest (omega arith)) refl) t.2 in
    let rest = strncpy-Chars m1 (dest + 1) (src + 1) s there (omega arith) in
    let step : strncpy (length (c ∷ s)) m dest src ≡ strncpy (length s) m1 (dest + 1) (src + 1) =
      rw (t.0, ==_ne c 0 t.1) refl in
    subst
      (λ w. Chars w dest (c ∷ s) × ((a : ℕ) → (a < dest) ⊎ (dest + length (c ∷ s) ≤ a) → w a ≡ m a))
      (sym step)
      (
        (rest.1 dest (omega arith) ∙ rw (==_self dest) refl, t.1, rest.0),
        λ a out. rest.1 a (omega arith) ∙ rw (==_ne a dest (omega arith)) refl,
      )
