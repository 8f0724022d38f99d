-- ===== src/Text/Tests.antt =====
-- The theorems on strings at concrete memories, and runs of the functions.
use alphix.Base.{ℕ, ◌≡◌, refl, ◌||◌, List, [], ◌∷◌, arith, ◌==◌, if◌then◌else◌}
use alphix.Memory.{Bytes}
use alphix.Text.{IsText, strncmp, tolower}

-- "aba" lies at 10, "ab" at 20; all else is zero.
abbrev memory : Bytes
memory a =
    if (a == 10) || ((a == 12) || (a == 20))
    then b'a'
    else if (a == 11) || (a == 21)
    then b'b'
    else 0

abbrev aba : List ℕ
aba = b'a' ∷ b'b' ∷ b'a' ∷ []

abbrev ab : List ℕ
ab = b'a' ∷ b'b' ∷ []

aba-IsText : IsText memory 10 aba
aba-IsText = (refl, omega arith, (refl, omega arith, (refl, omega arith, refl)))

ab-IsText : IsText memory 20 ab
ab-IsText = (refl, omega arith, (refl, omega arith, refl))

strncmp-two : strncmp 2 memory 10 20 ≡ (0, 0)
unfolding strncmp
strncmp-two = refl

-- `tolower` changes the character before the capital letters too.
tolower-at : tolower b'@' ≡ 96
unfolding tolower
tolower-at = refl
