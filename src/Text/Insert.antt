-- ===== src/Text/Insert.antt =====
-- `strins`: a character goes into a string at a position.
use alphix.Base.{
  ℕ, zero, suc, ◌+◌, ◌-◌, ◌≤◌, ◌<◌, ◌≡◌, ◌≢◌, refl, ◌∙◌, ap, true, false, ◌&&◌, ◌⊎◌, inl, inr, List,
  [], ◌∷◌, ◌++◌, arith, ltb, leb, ◌==◌, ==_self, ==_ne, if◌then◌else◌, Bool-cases, length,
  length-append,
}
use alphix.Memory.{Bytes, poke}
use alphix.Text.{IsText, shift_loop, insert_at, strins}
use alphix.Text.Length.{strlen_lem}
use alphix.Text.Copy.{Chars-frame, IsText-left, IsText-right, IsText-append, Copied}

shift_loop-at :
    (left : ℕ) (m : Bytes) (str i j a : ℕ)
    → j + left ≡ i
    → shift_loop left m str i a ≡ (if ltb (str + j) a && leb a (str + i) then m (a - 1) else m a)
unfolding shift_loop
shift_loop-at zero m str i j a e = ground arith
shift_loop-at (suc left) m str i j a e =
    rw (shift_loop-at left (poke m (str + i) (m (str + (i - 1)))) str (i - 1) j a (omega arith))
      (elim (Bool-cases (a == str + i)) [
        | inl top ↦
            let e1 : (ltb (str + j) a && leb a (str + (i - 1))) ≡ false = ground arith in
            let e2 : (ltb (str + j) a && leb a (str + i)) ≡ true = ground arith in
            let e3 : a - 1 ≡ str + (i - 1) = ground arith in rw (e1, e2, top, e3) refl
        | inr lower ↦
            let e1 : (ltb (str + j) a && leb a (str + (i - 1)))
                ≡ (ltb (str + j) a && leb a (str + i)) =
              ground arith in
            rw e1 (elim (Bool-cases (ltb (str + j) a && leb a (str + i))) [
              | inl inside ↦ rw (inside, ==_ne (a - 1) (str + i) (ground arith)) refl
              | inr outside ↦ rw (outside, lower) refl
            ])
      ])

-- A string whose bytes have all moved up by one.
IsText-up :
    (m m' : Bytes) (q : ℕ) (s : List ℕ)
    → ((a : ℕ) → q ≤ a → a < q + length s → m' (a + 1) ≡ m a)
    → m' (q + length s + 1) ≡ 0
    → IsText m q s
    → IsText m' (q + 1) s
IsText-up m m' q [] up last t = ap (λ (a : ℕ). m' (a + 1)) (omega arith) ∙ last
IsText-up m m' q (c ∷ s) up last t = (
  up q (omega arith) (omega arith) ∙ t.0,
  t.1,
  IsText-up m m' (q + 1) s (λ a lo hi. up a (omega arith) (omega arith))
      (ap (λ (a : ℕ). m' (a + 1)) (omega arith) ∙ last) t.2,
)

insert_at-at :
    (m : Bytes) (p c pos len a : ℕ)
    → pos ≤ len
    → insert_at m p c pos len a ≡ (
        if a == p + (len + 1)
        then 0
        else if a == p + pos
        then c
        else if ltb (p + pos) a && leb a (p + len)
        then m (a - 1)
        else m a)
unfolding insert_at
insert_at-at m p c pos len a le = rw (shift_loop-at (len - pos) m p len pos a (omega arith)) refl

module _ (m : Bytes) (p c : ℕ) (xs ys : List ℕ) (ne : c ≢ 0) (t : IsText m p (xs ++ ys)) where
  insert_at-same :
      (len a : ℕ)
      → len ≡ length xs + length ys
      → (a < p + length xs) ⊎ (p + (len + 2) ≤ a)
      → insert_at m p c (length xs) len a ≡ m a
  insert_at-same len a sum out =
      let e : (ltb (p + length xs) a && leb a (p + len)) ≡ false = ground arith in
      rw
        (
          insert_at-at m p c (length xs) len a (omega arith),
          ==_ne a (p + (len + 1)) (omega arith),
          ==_ne a (p + length xs) (omega arith),
          e,
        )
        refl

  insert_at-IsText :
      (len : ℕ)
      → len ≡ length xs + length ys
      → IsText (insert_at m p c (length xs) len) p (xs ++ c ∷ ys)
  insert_at-IsText len sum =
      let pos : ℕ = length xs in
      let m' : Bytes = insert_at m p c pos len in
      let at = λ (a : ℕ). insert_at-at m p c pos len a (omega arith) in
      let at_pos : m' (p + pos) ≡ c =
        rw (at (p + pos), ==_ne (p + pos) (p + (len + 1)) (omega arith), ==_self (p + pos)) refl in
      let up : (a : ℕ) → p + pos ≤ a → a < p + pos + length ys → m' (a + 1) ≡ m a = λ a lo hi.
        let inside : (ltb (p + pos) (a + 1) && leb (a + 1) (p + len)) ≡ true = ground arith in
        let back : a + 1 - 1 ≡ a = omega arith in
        rw
          (
            at (a + 1),
            ==_ne (a + 1) (p + (len + 1)) (omega arith),
            ==_ne (a + 1) (p + pos) (omega arith),
            inside,
            back,
          )
          refl in
      let end_at : p + pos + length ys + 1 ≡ p + (len + 1) = omega arith in
      let last : m' (p + pos + length ys + 1) ≡ 0 =
        rw (end_at, at (p + (len + 1)), ==_self (p + (len + 1))) refl in
      IsText-append m' p xs (c ∷ ys)
        (Chars-frame m m' p xs (λ a lo hi. insert_at-same len a sum (inl hi))
          (IsText-left m p xs ys t))
        (at_pos, ne, IsText-up m m' (p + pos) ys up last (IsText-right m p xs ys t))

  -- With fuel above the string's length, `strins` ends, puts a character that is not zero behind
  -- the first `length xs` characters of the string, and writes nothing but the string's bytes and
  -- one byte behind its old end.
  pub strins_lem :
      (fuel : ℕ)
      → length (xs ++ ys) < fuel
      → Copied m p (length (xs ++ ys) + 2) p (xs ++ c ∷ ys) (strins fuel m p c (length xs))
  unfolding strins
  strins_lem fuel f =
      let len : ℕ = length (xs ++ ys) in
      let sum : len ≡ length xs + length ys = length-append xs ys in
      let low : ltb len (length xs) ≡ false = ground (arith, sum) in
      rw (strlen_lem fuel m p (xs ++ ys) t f, strins, low)
        (record {
          memory = insert_at m p c (length xs) len;
          ends = refl;
          text = insert_at-IsText len sum;
          same = λ a out. insert_at-same len a sum (omega arith);
        })
