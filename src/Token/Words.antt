-- ===== src/Token/Words.antt =====
-- What `strtok` promises: the pieces between delimiters that are not empty.
use alphix.Base.{
  ℕ, ◌+◌, ◌≡◌, refl, sym, ◌∙◌, ap, Bool, true, false, not, ◌||◌, inl, inr, List, [], ◌∷◌, ◌++◌,
  arith, ◌==◌, if◌then◌else◌, Bool-cases, length, length-append, get_or,
}

abbrev pub among : ℕ → List ℕ → Bool
among c [] = false
among c (d ∷ ds) = (d == c) || among c ds

-- The pieces between delimiters, the empty ones too.
abbrev hang : ℕ → List (List ℕ) → List (List ℕ)
hang c [] = (c ∷ []) ∷ []
hang c (p ∷ ps) = (c ∷ p) ∷ ps

unfoldable pub pieces : List ℕ → List ℕ → List (List ℕ)
pieces ds [] = [] ∷ []
pieces ds (c ∷ s) = let rest = pieces ds s in if among c ds then [] ∷ rest else hang c rest

abbrev pub full : List (List ℕ) → List (List ℕ)
full [] = []
full ([] ∷ ps) = full ps
full ((c ∷ p) ∷ ps) = (c ∷ p) ∷ full ps

abbrev pub words : List ℕ → List ℕ → List (List ℕ)
words ds s = full (pieces ds s)

-- The characters that a loop passes over, and what it leaves.
unfoldable pub over : Bool → List ℕ → List ℕ → List ℕ
over on ds [] = []
over on ds (c ∷ s) =
    let rest = over on ds s in
    if (if on then among c ds else not (among c ds)) then c ∷ rest else []

unfoldable pub past : Bool → List ℕ → List ℕ → List ℕ
past on ds [] = []
past on ds (c ∷ s) =
    let rest = past on ds s in if (if on then among c ds else not (among c ds)) then rest else c ∷ s

over-past : (on : Bool) (ds s : List ℕ) → over on ds s ++ past on ds s ≡ s
unfolding over past
over-past on ds [] = refl
over-past on ds (c ∷ s) = elim (Bool-cases (if on then among c ds else not (among c ds))) [
  | inl goes ↦ rw (goes, over-past on ds s) refl
  | inr stops ↦ rw stops refl
]

pub past-length :
    (on : Bool) (ds s : List ℕ) → length (over on ds s) + length (past on ds s) ≡ length s
past-length on ds s =
    sym (length-append (over on ds s) (past on ds s)) ∙ ap length (over-past on ds s)

-- Delimiters in front make no word.
words-past : (ds s : List ℕ) → words ds s ≡ words ds (past true ds s)
unfolding past pieces
words-past ds [] = refl
words-past ds (c ∷ s) = elim (Bool-cases (among c ds)) [
  | inl hit ↦ rw hit (words-past ds s)
  | inr miss ↦ let e : past true ds (c ∷ s) ≡ c ∷ s = rw miss refl in sym (ap (words ds) e)
]

-- The pieces from a word on, where `rest` is what begins with the delimiter behind it.
pub ended : List ℕ → List ℕ → List ℕ → List (List ℕ)
ended ds word [] = word ∷ []
ended ds word (e ∷ rest) = word ∷ pieces ds rest

hang-ended :
    (ds word rest : List ℕ) (c : ℕ) → hang c (ended ds word rest) ≡ ended ds (c ∷ word) rest
unfolding ended
hang-ended ds word [] c = refl
hang-ended ds word (e ∷ rest) c = refl

-- A word ends at the next delimiter.
pieces-word : (ds s : List ℕ) → pieces ds s ≡ ended ds (over false ds s) (past false ds s)
unfolding past over pieces ended
pieces-word ds [] = refl
pieces-word ds (c ∷ s) = elim (Bool-cases (among c ds)) [
  | inl hit ↦
      let e1 : over false ds (c ∷ s) ≡ [] = rw hit refl in
      let e2 : past false ds (c ∷ s) ≡ c ∷ s = rw hit refl in
      let e3 : pieces ds (c ∷ s) ≡ [] ∷ pieces ds s = rw hit refl in
      e3 ∙ sym (ap (λ w. ended ds w (past false ds (c ∷ s))) e1 ∙ ap (ended ds []) e2)
  | inr miss ↦
      let e1 : over false ds (c ∷ s) ≡ c ∷ over false ds s = rw miss refl in
      let e2 : past false ds (c ∷ s) ≡ past false ds s = rw miss refl in
      let e3 : pieces ds (c ∷ s) ≡ hang c (pieces ds s) = rw miss refl in
      e3
      ∙ ap (hang c) (pieces-word ds s)
      ∙ hang-ended ds (over false ds s) (past false ds s) c
      ∙ sym
          (ap (λ w. ended ds w (past false ds (c ∷ s))) e1 ∙ ap (ended ds (c ∷ over false ds s)) e2)
]

pub past-start : (ds s s' : List ℕ) (c : ℕ) → past true ds s ≡ c ∷ s' → among c ds ≡ false
unfolding past
past-start ds [] s' c e = absurd (ground (arith, e))
past-start ds (d ∷ s) s' c e = elim (Bool-cases (among d ds)) [
  | inl hit ↦
      let same : past true ds (d ∷ s) ≡ past true ds s = rw hit refl in
      past-start ds s s' c (sym same ∙ e)
  | inr miss ↦
      let same : past true ds (d ∷ s) ≡ d ∷ s = rw miss refl in
      let head : d ≡ c = ap (λ l. get_or l 0 0) (sym same ∙ e) in rw (← head) miss
]

-- The words behind a delimiter.
unfoldable pub later : List ℕ → List ℕ → List (List ℕ)
later ds [] = []
later ds (e ∷ rest) = words ds rest

full-ended :
    (ds word rest : List ℕ) (c : ℕ) → full (ended ds (c ∷ word) rest) ≡ (c ∷ word) ∷ later ds rest
unfolding ended later
full-ended ds word [] c = refl
full-ended ds word (e ∷ rest) c = refl

-- The words of a text that begins with no delimiter: the one before the next delimiter, and the
-- others behind it.
words-cons :
    (ds s : List ℕ) (c : ℕ)
    → among c ds ≡ false
    → words ds (c ∷ s) ≡ over false ds (c ∷ s) ∷ later ds (past false ds (c ∷ s))
unfolding over
words-cons ds s c miss =
    let r : List ℕ = past false ds (c ∷ s) in
    let e1 : over false ds (c ∷ s) ≡ c ∷ over false ds s = rw miss refl in
    ap full (pieces-word ds (c ∷ s))
    ∙ ap (λ w. full (ended ds w r)) e1
    ∙ full-ended ds (over false ds s) r c
    ∙ sym (ap (λ w. w ∷ later ds r) e1)

-- The words of a text: none where all of it is delimiters, else the first and those behind it.
pub words-none : (ds s : List ℕ) → past true ds s ≡ [] → words ds s ≡ []
unfolding pieces
words-none ds s e = words-past ds s ∙ ap (words ds) e

pub words-next :
    (ds s s' : List ℕ) (c : ℕ)
    → past true ds s ≡ c ∷ s'
    → words ds s ≡ over false ds (c ∷ s') ∷ later ds (past false ds (c ∷ s'))
words-next ds s s' c e =
    words-past ds s ∙ ap (words ds) e ∙ words-cons ds s' c (past-start ds s s' c e)
