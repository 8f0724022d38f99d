-- ===== src/Split/Copy.antt =====
-- What `strdup` returns.
use alphix.Base.{ℕ, ◌+◌, ◌-◌, ◌≤◌, ◌<◌, ◌≡◌, true, false, ◌⊎◌, Option, some, List, ◌∷◌, ◌++◌}
use alphix.Text.{IsText}
use alphix.Heap.{Heap, heap_start_address, header_size}
use alphix.Heap.Chain.{Cell, total}
use alphix.Heap.Inv.{Holds}
use alphix.Split.{Store}

-- A run that returns a block of `n` bytes with this text, cut from the free cell of `c` bytes behind
-- the cells `xs`; no byte outside the block has changed.
pub record Returned (s : Store) (xs : List Cell) (c : ℕ) (ys : List Cell) (n : ℕ) (text : List ℕ)
    (run : Option (ℕ × Store)) : Type 0 where
  pub block : ℕ
  pub out : Store
  pub ends : run ≡ some (heap_start_address + total xs + header_size, out)
  pub room : header_size + n ≤ block
  pub cells : Holds out.heap (xs ++ (block, true) ∷ (c - block, false) ∷ ys)
  pub copied : IsText out.mem (heap_start_address + total xs + header_size) text
  pub same :
      (x : ℕ)
      → (x < heap_start_address + total xs + header_size)
        ⊎ (heap_start_address + total xs + header_size + n ≤ x)
      → out.mem x ≡ s.mem x
