-- ===== src/Split/Print.antt =====
-- What `tostr` returns.
use alphix.Base.{ℕ, ◌+◌, ◌≤◌, ◌<◌, ◌≡◌, ◌⊎◌, List, length}
use mathlib.Core.List as List
use alphix.Memory.{Bytes}
use alphix.Text.Copy.{Chars}
use alphix.Heap.{Heap}

-- The digits are put from the last one to the first.
abbrev Digits : Bytes → ℕ → List ℕ → Bytes → Type 0
Digits m str ds m' =
    Chars m' str (List.reverse ds) × ((x : ℕ) → (x < str) ⊎ (str + length ds ≤ x) → m' x ≡ m x)
