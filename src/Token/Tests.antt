-- ===== src/Token/Tests.antt =====
-- `strtok` at a concrete text.
use alphix.Base.{
  ℕ, ◌+◌, ◌<◌, ◌≡◌, refl, ◌⊎◌, inl, none, some, List, [], ◌∷◌, arith, ◌==◌, if◌then◌else◌, length,
}
use alphix.Memory.{Bytes}
use alphix.Token.Words.{words}
use alphix.Token.Calls.{all_calls, Points, strtok_lem}

-- `,a,b` at 1000 and the delimiter `,` at 2000.
abbrev line : Bytes
line a =
    if a == 1000
    then b','
    else if a == 1001
    then b'a'
    else if a == 1002
    then b','
    else if a == 1003
    then b'b'
    else if a == 2000
    then b','
    else 0

abbrev text : List ℕ
text = b',' ∷ b'a' ∷ b',' ∷ b'b' ∷ []

strtok_lem_example :
    (qs : List ℕ) × (m' : Bytes) × (all_calls 5 5 line (some 1000) 2000 none ≡ some (qs, m'))
    × Points m' qs (words (b',' ∷ []) text)
    × ((a : ℕ) → (a < 1000) ⊎ (1000 + length text < a) → m' a ≡ line a)
strtok_lem_example =
    strtok_lem 5 5 line 2000 1000 none (b',' ∷ []) text (refl, omega arith, refl) (omega arith)
      (refl, omega arith, (refl, omega arith, (refl, omega arith, (refl, omega arith, refl))))
      (omega arith) (omega arith) (inl (omega arith))
