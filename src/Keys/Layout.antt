-- ===== src/Keys/Layout.antt =====
-- What the two layouts have in common, and that no two keys share a character.
use alphix.Base.{
  ℕ, ◌+◌, ◌≡◌, ◌≢◌, refl, sym, ◌∙◌, ap, Bool, true, false, not, ◌&&◌, ◌||◌, ◌⊎◌, inl, inr, List, [],
  ◌∷◌, arith, leb, ◌==◌, if◌then◌else◌, Bool-cases,
}
use alphix.Keys.{low_cases, high_cases, switch, get_acsii_low, get_acsii_high, key_enter}

-- The key of a character: the tables read the other way.
pub key_of : List (ℕ × ℕ) → ℕ → ℕ
key_of [] c = 0
key_of ((k, d) ∷ cases) c = if c == d then k else key_of cases c

-- Every case is the first one with its character, and no character is zero.
distinct : List (ℕ × ℕ) → List (ℕ × ℕ) → Bool
distinct all [] = true
distinct all ((k, c) ∷ cases) = (key_of all c == k) && distinct all cases

key_of-switch :
    (all cases : List (ℕ × ℕ)) (code : ℕ)
    → distinct all cases ≡ true
    → switch cases code ≢ 0
    → key_of all (switch cases code) ≡ code
unfolding switch distinct
key_of-switch all [] code d ne = absurd (ne refl)
key_of-switch all ((k, c) ∷ cases) code d ne = elim (Bool-cases (code == k)) [
  | inl here ↦ rw here (ground arith)
  | inr on ↦ rw on (key_of-switch all cases code (ground arith) (λ e. ne (rw on e)))
]

low_distinct : distinct low_cases low_cases ≡ true
unfolding distinct key_of
low_distinct = refl

high_distinct : distinct high_cases high_cases ≡ true
unfolding distinct key_of
high_distinct = refl

-- In each layout a character other than 0 comes from one key only.
get_acsii-injective :
    (a b : ℕ)
    → ((get_acsii_low a ≡ get_acsii_low b) → get_acsii_low a ≢ 0 → a ≡ b)
      × ((get_acsii_high a ≡ get_acsii_high b) → get_acsii_high a ≢ 0 → a ≡ b)
unfolding get_acsii_low get_acsii_high
get_acsii-injective a b = (
  (λ e ne.
      sym (key_of-switch low_cases low_cases a low_distinct ne)
      ∙ ap (key_of low_cases) e
      ∙ key_of-switch low_cases low_cases b low_distinct (λ z. ne (e ∙ z))),
  (λ e ne.
      sym (key_of-switch high_cases high_cases a high_distinct ne)
      ∙ ap (key_of high_cases) e
      ∙ key_of-switch high_cases high_cases b high_distinct (λ z. ne (e ∙ z))),
)

is_letter : ℕ → Bool
is_letter c = leb b'a' c && leb c b'z'

-- What must hold of a pair of cases: the same key, and a letter shifts to its capital.
pairs : List (ℕ × ℕ) → List (ℕ × ℕ) → Bool
pairs [] high = true
pairs ((k, c) ∷ []) [] = (k == key_enter) && (c == 0x0a)
pairs ((k, c) ∷ x ∷ low) [] = false
pairs ((k, c) ∷ low) ((j, d) ∷ high) =
    (k == j) && not (d == 0) && (not (is_letter c) || (d + 32 == c)) && pairs low high

-- Below: the two layouts at one key.
abbrev pub Shifted : ℕ → ℕ → ℕ → Type 0
Shifted code low high =
    ((high ≡ 0) → (low ≡ 0) ⊎ (code ≡ key_enter))
    × ((leb b'a' low && leb low b'z') ≡ true → high + 32 ≡ low)

pairs-Shifted :
    (low high : List (ℕ × ℕ)) (code : ℕ)
    → pairs low high ≡ true
    → Shifted code (switch low code) (switch high code)
unfolding pairs switch is_letter
pairs-Shifted [] high code p = (λ e. inl refl, λ e. absurd (cc))
pairs-Shifted ((k, c) ∷ []) [] code p = ground arith
pairs-Shifted ((k, c) ∷ x ∷ low) [] code p = absurd (cc)
pairs-Shifted ((k, c) ∷ low) ((j, d) ∷ high) code p = elim (Bool-cases (code == k)) [
  | inl here ↦ let there : (code == j) ≡ true = ground arith in rw (here, there) (ground arith)
  | inr on ↦
      let past : (code == j) ≡ false = ground arith in
      rw (on, past) (pairs-Shifted low high code (ground arith))
]

low_high_pairs : pairs low_cases high_cases ≡ true
unfolding pairs is_letter
low_high_pairs = refl

-- Every key with a character has one in both layouts, but for Enter, and a key with a small letter has
-- its capital under shift.
get_acsii_shift : (code : ℕ) → Shifted code (get_acsii_low code) (get_acsii_high code)
unfolding get_acsii_low get_acsii_high
get_acsii_shift code = pairs-Shifted low_cases high_cases code low_high_pairs
