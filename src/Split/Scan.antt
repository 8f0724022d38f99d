-- ===== src/Split/Scan.antt =====
-- Where the loops of `split` stop, and how many words the first pass counts.
use alphix.Base.{
  ℕ, zero, suc, ◌+◌, ◌≤◌, ◌<◌, ◌≡◌, ◌≢◌, refl, sym, ◌∙◌, ap, Bool, true, false, not, ◌&&◌, ◌⊎◌, inl,
  inr, Option, some, List, [], ◌∷◌, arith, ◌==◌, ==_ne, if◌then◌else◌, Bool-cases, List-cases,
  length, ◌>>=◌,
}
use mathlib.Core.Path.{subst}
use alphix.Memory.{Bytes}
use alphix.Text.{IsText}
use alphix.Text.Copy.{Chars}
use alphix.Token.Words.{
  among, over, past, past-length, words, later, words-none, words-next, pieces, past-start,
}
use alphix.Split.{scan, count_loop}

among-one : (c d : ℕ) → among c (d ∷ []) ≡ (c == d)
among-one c d = ground arith

-- The test of either loop, on a character that is not the end.
tested :
    (on : Bool) (c d : ℕ)
    → c ≢ 0
    → (if on then c == d else not (c == 0) && not (c == d))
      ≡ (if on then among c (d ∷ []) else not (among c (d ∷ [])))
tested true c d ne = sym (among-one c d)
tested false c d ne = rw (==_ne c 0 ne) (sym (ap not (among-one c d)))

-- A loop ends behind the characters that it goes over.
pub scan_lem :
    (on : Bool) (fuel : ℕ) (m : Bytes) (d p : ℕ) (s : List ℕ)
    → d ≢ 0
    → IsText m p s
    → length s < fuel
    → (scan on fuel m d p ≡ some (p + length (over on (d ∷ []) s)))
      × Chars m p (over on (d ∷ []) s)
      × IsText m (p + length (over on (d ∷ []) s)) (past on (d ∷ []) s)
unfolding scan over past
scan_lem on zero m d p s ne t f = absurd (omega arith)
scan_lem true (suc fuel) m d p [] ne t f =
    let here : p + 0 ≡ p = omega arith in
    (rw (t, here, ==_ne 0 d (λ e. ne (sym e))) refl, tt, ap m here ∙ t)
scan_lem false (suc fuel) m d p [] ne t f =
    let here : p + 0 ≡ p = omega arith in (rw (t, here) refl, tt, ap m here ∙ t)
scan_lem on (suc fuel) m d p (c ∷ s) ne t f =
    let ds : List ℕ = d ∷ [] in
    let here : p + 0 ≡ p = omega arith in
    let test : (if on then m p == d else not (m p == 0) && not (m p == d))
        ≡ (if on then among c ds else not (among c ds)) =
      ap (λ x. if on then x == d else not (x == 0) && not (x == d)) t.0 ∙ tested on c d t.1 in
    elim (Bool-cases (if on then among c ds else not (among c ds))) [
      | inl goes ↦
          let (run, front, back) = scan_lem on fuel m d (p + 1) s ne t.2 (omega arith) in
          let jump : scan on (suc fuel) m d p ≡ scan on fuel m d (p + 1) =
            ap (λ x. if x then scan on fuel m d (p + 1) else some p) (test ∙ goes) in
          let e1 : over on ds (c ∷ s) ≡ c ∷ over on ds s = rw goes refl in
          let e2 : past on ds (c ∷ s) ≡ past on ds s = rw goes refl in
          let len : p + suc (length (over on ds s)) ≡ p + 1 + length (over on ds s) = omega arith in
          rw (e1, e2, len) (jump ∙ run, (t.0, t.1, front), back)
      | inr stops ↦
          let stay : scan on (suc fuel) m d p ≡ some p =
            ap (λ x. if x then scan on fuel m d (p + 1) else some p) (test ∙ stops) in
          let e1 : over on ds (c ∷ s) ≡ [] = rw stops refl in
          let e2 : past on ds (c ∷ s) ≡ c ∷ s = rw stops refl in rw (e1, e2, here) (stay, tt, t)
    ]

-- The words behind a word are those of what is left from its end on.
later-words : (ds s : List ℕ) → later ds (past false ds s) ≡ words ds (past false ds s)
unfolding past later pieces
later-words ds [] = refl
later-words ds (c ∷ s) = elim (Bool-cases (among c ds)) [
  | inl hit ↦ rw hit (rw hit refl)
  | inr miss ↦ rw miss (later-words ds s)
]

over-letter : (ds s : List ℕ) (c : ℕ) → among c ds ≡ false → 0 < length (over false ds (c ∷ s))
unfolding over
over-letter ds s c miss =
    let e : over false ds (c ∷ s) ≡ c ∷ over false ds s = rw miss refl in
    omega (arith, ap (λ (l : List ℕ). length l) e)

-- From `p` on there is a next word: it starts at `start`, and `rest` lies behind it.
pub record FoundWord (fuel : ℕ) (m : Bytes) (d p : ℕ) (s : List ℕ) (start : ℕ) : Type 0 where
  pub word : List ℕ
  pub rest : List ℕ
  pub more : (m start == 0) ≡ false
  pub stops : scan false fuel m d start ≡ some (start + length word)
  pub letters : Chars m start word
  pub text : IsText m (start + length word) rest
  pub first : words (d ∷ []) s ≡ word ∷ words (d ∷ []) rest
  pub behind : p ≤ start
  pub letter : 0 < length word
  pub size : p + length s ≡ start + length word + length rest

-- The next word, or none where all that is left is delimiters.
pub scan_twice_lem :
    (fuel : ℕ) (m : Bytes) (d p : ℕ) (s : List ℕ)
    → d ≢ 0
    → IsText m p s
    → length s < fuel
    → (start : ℕ) × (scan true fuel m d p ≡ some start)
      × (((m start ≡ 0) × (words (d ∷ []) s ≡ [])) ⊎ FoundWord fuel m d p s start)
scan_twice_lem fuel m d p s ne t f =
    let ds : List ℕ = d ∷ [] in
    let start : ℕ = p + length (over true ds s) in
    let (skips, front, back) = scan_lem true fuel m d p s ne t f in
    let sum = past-length true ds s in
    (
      start,
      skips,
      elim (List-cases (past true ds s)) [
        | inl nothing ↦ inl (subst (IsText m start) nothing back, words-none ds s nothing)
        | inr (c, s', found) ↦
            let here : IsText m start (c ∷ s') = subst (IsText m start) found back in
            let long : length (past true ds s) ≡ suc (length s') = ap length found in
            let (stops, letters, text) =
              scan_lem false fuel m d start (c ∷ s') ne here (omega arith) in
            let sum2 = past-length false ds (c ∷ s') in
            inr (record {
              word = over false ds (c ∷ s');
              rest = past false ds (c ∷ s');
              more = rw here.0 (==_ne c 0 here.1);
              stops = stops;
              letters = letters;
              text = text;
              first =
                  words-next ds s s' c found
                  ∙ ap (λ ws. over false ds (c ∷ s') ∷ ws) (later-words ds (c ∷ s'));
              behind = omega arith;
              letter = over-letter ds s' c (past-start ds s s' c found);
              size = omega arith;
            })
      ],
    )

-- The first pass of `split` counts the words.
pub count_loop_lem :
    (left fuel : ℕ) (m : Bytes) (d p n : ℕ) (s : List ℕ)
    → d ≢ 0
    → IsText m p s
    → length s < fuel
    → length s < left
    → count_loop left fuel m d p n ≡ some (n + length (words (d ∷ []) s))
unfolding count_loop
count_loop_lem zero fuel m d p n s ne t f l = absurd (omega arith)
count_loop_lem (suc left) fuel m d p n [] ne t f l =
    let e : words (d ∷ []) [] ≡ [] = words-none (d ∷ []) [] (unfold past in refl) in
    rw (t, e, count_loop) (ap some (omega arith))
count_loop_lem (suc left) fuel m d p n (c ∷ s) ne t f l =
    let ws : List (List ℕ) = words (d ∷ []) (c ∷ s) in
    let more : (m p == 0) ≡ false = rw t.0 (==_ne c 0 t.1) in
    let (start, skips, next) = scan_twice_lem fuel m d p (c ∷ s) ne t f in
    let go : ℕ → Option ℕ = λ start. elim (m start == 0) [
      | true ↦ count_loop left fuel m d start n
      | false ↦ scan false fuel m d start >>= λ end. count_loop left fuel m d end (n + 1)
    ] in
    let pick : Bool → Option ℕ = λ stop. elim stop [
      | true ↦ count_loop left fuel m d start n
      | false ↦ scan false fuel m d start >>= λ end. count_loop left fuel m d end (n + 1)
    ] in
    let run : count_loop (suc left) fuel m d p n ≡ go start =
      rw (more, count_loop) (ap (λ o. o >>= go) skips) in
    elim next [
      | inl (end, none_left) ↦
          let e : words (d ∷ []) [] ≡ [] = words-none (d ∷ []) [] (unfold past in refl) in
          let stop : (m start == 0) ≡ true = rw end refl in
          run
          ∙ ap pick stop
          ∙ count_loop_lem left fuel m d start n [] ne end (omega arith) (omega arith)
          ∙ ap (λ (us : List (List ℕ)). some (n + length us)) (e ∙ sym none_left)
      | inr w ↦
          let len : length ws ≡ suc (length (words (d ∷ []) w.rest)) = ap length w.first in
          run
          ∙ ap pick w.more
          ∙ ap (λ o. o >>= λ end. count_loop left fuel m d end (n + 1)) w.stops
          ∙ count_loop_lem left fuel m d (start + length w.word) (n + 1) w.rest ne w.text
              (omega (arith, w.size, w.letter, w.behind))
              (omega (arith, w.size, w.letter, w.behind))
          ∙ ap some (omega (arith, len))
    ]
