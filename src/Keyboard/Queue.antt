-- ===== src/Keyboard/Queue.antt =====
-- What the keyboard buffer promises: a first-in first-out queue of at most 127 characters that
-- drops what is typed when it is full.
use alphix.Base.{ℕ, Option, none, some, List, [], ◌∷◌, ◌++◌, ltb, if◌then◌else◌, length}

abbrev pub capacity : ℕ
capacity = 127

unfoldable pub push : List ℕ → ℕ → List ℕ
push q c = if ltb (length q) capacity then q ++ c ∷ [] else q

unfoldable pub pop : List ℕ → Option ℕ × List ℕ
pop [] = (none, [])
pop (c ∷ q) = (some c, q)
