-- ===== src/Token/Calls.antt =====
-- Calls of `strtok` one after the other.
use alphix.Base.{
  ℕ, zero, suc, ◌+◌, ◌≤◌, ◌<◌, ◌≡◌, ◌≢◌, refl, sym, ◌∙◌, ap, true, false, ◌⊎◌, inl, inr, Option,
  none, some, List, [], ◌∷◌, arith, ==_ne, List-cases, length, ◌>>=◌,
}
use mathlib.Core.Path.{subst}
use alphix.Memory.{Bytes}
use alphix.Text.{IsText}
use alphix.Text.Length.{IsText-frame}
use alphix.Token.{strtok_from, strtok}
use alphix.Token.Words.{over, past, past-length, words, later, words-none, words-next}
use alphix.Token.Run.{Apart, strtok_from-none, strtok_from-next}

-- `strtok(str, delimiters)`, then `strtok(NULL, delimiters)` until that returns `NULL`: the
-- pointers, and the memory at the end. `n` bounds the calls.
pub all_calls : ℕ → ℕ → Bytes → Option ℕ → ℕ → Option ℕ → Option (List ℕ × Bytes)
all_calls zero fuel m str d last = none
all_calls (suc n) fuel m str d last = strtok fuel m str d last >>= λ r. elim r.0 [
  | none ↦ some ([], r.1)
  | some q ↦ all_calls n fuel r.1 none d r.2 >>= λ rest. some (q ∷ rest.0, rest.1)
]

-- The pointers point to the texts.
abbrev pub Points : Bytes → List ℕ → List (List ℕ) → Type 0
Points m [] [] = Unit {0}
Points m [] (w ∷ ws) = ⊥
Points m (q ∷ qs) [] = ⊥
Points m (q ∷ qs) (w ∷ ws) = IsText m q w × Points m qs ws

calls-end :
    (n fuel : ℕ) (m m1 : Bytes) (str : Option ℕ) (d : ℕ) (last last1 : Option ℕ)
    → strtok fuel m str d last ≡ some (none, m1, last1)
    → all_calls (suc n) fuel m str d last ≡ some ([], m1)
unfolding all_calls
calls-end n fuel m m1 str d last last1 run =
    ap
      (λ o. o >>= λ r. elim r.0 [
        | none ↦ some ([], r.1)
        | some q ↦ all_calls n fuel r.1 none d r.2 >>= λ rest. some (q ∷ rest.0, rest.1)
      ])
      run

calls-next :
    (n fuel : ℕ) (m m1 m2 : Bytes) (str : Option ℕ) (d : ℕ) (last last1 : Option ℕ) (q : ℕ)
    (qs : List ℕ)
    → strtok fuel m str d last ≡ some (some q, m1, last1)
    → all_calls n fuel m1 none d last1 ≡ some (qs, m2)
    → all_calls (suc n) fuel m str d last ≡ some (q ∷ qs, m2)
unfolding all_calls
calls-next n fuel m m1 m2 str d last last1 q qs run more =
    ap
      (λ o. o >>= λ r. elim r.0 [
        | none ↦ some ([], r.1)
        | some q ↦ all_calls n fuel r.1 none d r.2 >>= λ rest. some (q ∷ rest.0, rest.1)
      ])
      run
    ∙ ap (λ o. o >>= λ rest. some (q ∷ rest.0, rest.1)) more

abbrev Called : ℕ → ℕ → Bytes → ℕ → ℕ → List ℕ → List ℕ → Type 0
Called n fuel m d p ds s =
    (qs : List ℕ) × (m' : Bytes) × (all_calls n fuel m none d (some p) ≡ some (qs, m'))
    × Points m' qs (words ds s)
    × ((a : ℕ) → (a < p) ⊎ (p + length s < a) → m' a ≡ m a)

one-more : (n : ℕ) → 0 < n → (k : ℕ) × (n ≡ suc k)
one-more zero h = absurd (omega arith)
one-more (suc k) h = (k, refl)

-- A call that finds the first word, and calls that find the others behind it.
Called-next :
    (n fuel : ℕ) (m m1 m2 : Bytes) (d p q : ℕ) (last : Option ℕ) (ds s w : List ℕ)
    (ws : List (List ℕ)) (qs : List ℕ)
    → strtok_from fuel m d p ≡ some (some q, m1, last)
    → words ds s ≡ w ∷ ws
    → IsText m1 q w
    → p ≤ q
    → q + length w ≤ p + length s
    → ((a : ℕ) → (a < p) ⊎ (p + length s < a) → m1 a ≡ m a)
    → all_calls n fuel m1 none d last ≡ some (qs, m2)
    → Points m2 qs ws
    → ((a : ℕ) → (a ≤ q + length w) ⊎ (p + length s < a) → m2 a ≡ m1 a)
    → Called (suc n) fuel m d p ds s
unfolding strtok
Called-next n fuel m m1 m2 d p q last ds s w ws qs run shape text from to same1 more points same2 =
    (
      q ∷ qs,
      m2,
      calls-next n fuel m m1 m2 none d (some p) last q qs run more,
      subst (Points m2 (q ∷ qs)) (sym shape)
          (IsText-frame m1 m2 q w (λ a lo hi. same2 a (inl (omega arith))) text, points),
      λ a out. same2 a (omega arith) ∙ same1 a out,
    )

calls_lem :
    (n fuel : ℕ) (m : Bytes) (d p : ℕ) (ds s : List ℕ)
    → IsText m d ds
    → length ds < fuel
    → IsText m p s
    → length s < fuel
    → length s < n
    → Apart p (length s) d (length ds)
    → Called n fuel m d p ds s
unfolding strtok later
calls_lem zero fuel m d p ds s u fd t f more apart = absurd (omega arith)
calls_lem (suc n) fuel m d p ds s u fd t f more apart = elim (List-cases (past true ds s)) [
  | inl e ↦
      let run = strtok_from-none fuel m d p ds s u fd t f e in
      (
        [],
        m,
        calls-end n fuel m m none d (some p) none run,
        subst (Points m []) (sym (words-none ds s e)) tt,
        λ a out. refl,
      )
  | inr (c, s', e) ↦
      let (m1, last, found) = strtok_from-next fuel m d p ds s s' c u fd t f e in
      let w : List ℕ = over false ds (c ∷ s') in
      let q : ℕ = p + length (over true ds s) in
      let len1 : length (over true ds s) + suc (length s') ≡ length s =
        ap (λ (l : List ℕ). length (over true ds s) + length l) (sym e) ∙ past-length true ds s in
      let shape = words-next ds s s' c e in
      let r : ℕ = q + length w in
      let rest : List ℕ = past false ds (c ∷ s') in
      let len2 : length w + length rest ≡ suc (length s') = past-length false ds (c ∷ s') in
      elim found.behind [
        | inl (over_now, ended, same) ↦
            let alone : words ds s ≡ w ∷ [] = shape ∙ ap (λ x. w ∷ later ds x) over_now in
            let (k, enough) : (k : ℕ) × (n ≡ suc k) = one-more n (omega (arith, len1)) in
            let done : all_calls n fuel m1 none d last ≡ some ([], m1) =
              ap (λ x. all_calls x fuel m1 none d last) enough
              ∙ ap (λ x. all_calls (suc k) fuel m1 none d x) ended
              ∙ calls-end k fuel m1 m1 none d none none refl in
            Called-next n fuel m m1 m1 d p q last ds s w [] [] found.run alone found.word found.at
              (omega (arith, len1, len2)) (λ a out. ap (λ (x : Bytes). x a) same) done tt
              (λ a out. refl)
        | inr (x, rest', on, next, cut, text) ↦
            let len3 : length rest ≡ suc (length rest') = ap length on in
            let same1 : (a : ℕ) → a ≢ r → m1 a ≡ m a =
              λ a ne. ap (λ (y : Bytes). y a) cut ∙ rw (==_ne a r ne) refl in
            let u1 : IsText m1 d ds =
              IsText-frame m m1 d ds (λ a lo hi. same1 a (omega (arith, len1, len2, len3))) u in
            let (qs, m2, run2, points, same2) =
              calls_lem n fuel m1 d (r + 1) ds rest' u1 fd text (omega (arith, len1, len2, len3))
                (omega (arith, len1, len2, len3)) (omega (arith, len1, len2, len3)) in
            let several : words ds s ≡ w ∷ words ds rest' = shape ∙ ap (λ y. w ∷ later ds y) on in
            Called-next n fuel m m1 m2 d p q last ds s w (words ds rest') qs found.run several
              found.word found.at (omega (arith, len1, len2))
              (λ a out. same1 a (omega (arith, len1, len2, len3)))
              (ap (λ y. all_calls n fuel m1 none d y) next ∙ run2) points
              (λ a out. same2 a (omega (arith, len1, len2, len3)))
      ]
]

-- `strtok` splits a text: with fuel above the lengths, the first call with the text and the
-- following ones with `NULL` end, with one pointer for each piece between delimiters that is not
-- empty, in order. When all calls are made, each pointer still points to its piece, ended by a
-- zero, and no byte outside the text has changed. The delimiters lie apart from the text, and
-- `last_token` may be anything before.
pub strtok_lem :
    (n fuel : ℕ) (m : Bytes) (d p : ℕ) (before : Option ℕ) (ds s : List ℕ)
    → IsText m d ds
    → length ds < fuel
    → IsText m p s
    → length s < fuel
    → length s < n
    → Apart p (length s) d (length ds)
    → (qs : List ℕ) × (m' : Bytes) × (all_calls n fuel m (some p) d before ≡ some (qs, m'))
      × Points m' qs (words ds s)
      × ((a : ℕ) → (a < p) ⊎ (p + length s < a) → m' a ≡ m a)
unfolding all_calls strtok
strtok_lem zero fuel m d p before ds s u fd t f more apart = absurd (omega arith)
strtok_lem (suc n) fuel m d p before ds s u fd t f more apart =
    calls_lem (suc n) fuel m d p ds s u fd t f more apart
