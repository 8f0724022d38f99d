-- ===== src/Heap/Find.antt =====
-- `heap_find_free_block` ends, and returns the first free block that is large enough.
use alphix.Base.{
  ℕ, zero, suc, ◌+◌, ◌≤◌, ◌<◌, ◌≡◌, ◌≢◌, refl, ap, Bool, true, false, not, ◌&&◌, ◌⊎◌, inl, inr,
  some, List, [], ◌∷◌, ◌++◌, arith, leb, if◌then◌else◌, Bool-cases, length,
}
use alphix.Heap.{
  Heap, HeapBlock, heap_start_address, null, total_size, find_loop, heap_find_free_block,
}
use alphix.Heap.Chain.{Cell, head_or, total, Chain}
use alphix.Heap.Inv.{Holds}

unfoldable pub first_fit : ℕ → ℕ → List Cell → ℕ
first_fit t a [] = null
first_fit t a ((s, u) ∷ cs) = if not u && leb t s then a else first_fit t (a + s) cs

-- No cell is both free and as large as `t`.
abbrev pub Unfit : ℕ → List Cell → Type 0
Unfit t [] = Unit {0}
Unfit t ((s, u) ∷ cs) = ((u ≡ true) ⊎ (s < t)) × Unfit t cs

-- How a search for `t` bytes in the cells from `a` on ends with the address `p`.
pub data Found (t a p : ℕ) (cells : List Cell) : Type 0 where
  missing : p ≡ null → Unfit t cells → Found t a p cells
  hit :
      (xs : List Cell) (s : ℕ) (ys : List Cell)
      → cells ≡ xs ++ (s, false) ∷ ys
      → Unfit t xs
      → t ≤ s
      → p ≡ a + total xs
      → Found t a p cells

Found-cons :
    {t a p s : ℕ} {u : Bool} {cs : List Cell}
    → (u ≡ true) ⊎ (s < t)
    → Found t (a + s) p cs
    → Found t a p ((s, u) ∷ cs)
Found-cons out (missing e no_fit) = missing e (out, no_fit)
Found-cons {s} {u} out (hit xs r ys e no_fit large at) =
    hit ((s, u) ∷ xs) r ys (ap (λ l. (s, u) ∷ l) e) (out, no_fit) large (omega arith)

pub first_fit-Found : (t a : ℕ) (cells : List Cell) → Found t a (first_fit t a cells) cells
unfolding first_fit
first_fit-Found t a [] = missing refl tt
first_fit-Found t a ((s, true) ∷ cs) = Found-cons (inl refl) (first_fit-Found t (a + s) cs)
first_fit-Found t a ((s, false) ∷ cs) = elim (Bool-cases (leb t s)) [
  | inl large ↦ rw large (hit [] s cs refl tt (ground arith) (omega arith))
  | inr small ↦ rw small (Found-cons (inr (ground arith)) (first_fit-Found t (a + s) cs))
]

find_loop-first_fit :
    (fuel : ℕ) (m : ℕ → HeapBlock) (t prv a : ℕ) (cs : List Cell)
    → length cs < fuel
    → 0 < a
    → Chain m prv a cs null
    → find_loop fuel m t (head_or a cs null) ≡ some (first_fit t a cs)
unfolding find_loop first_fit
find_loop-first_fit zero m t prv a cs f h c = absurd (omega arith)
find_loop-first_fit (suc fuel) m t prv a [] f h c = refl
find_loop-first_fit (suc fuel) m t prv a ((s, true) ∷ cs) f h c =
    rw c.0
      (ground (arith, find_loop-first_fit fuel m t a (a + s) cs (omega arith) (omega arith) c.1))
find_loop-first_fit (suc fuel) m t prv a ((s, false) ∷ cs) f h c =
    rw c.0
      (ground (arith, find_loop-first_fit fuel m t a (a + s) cs (omega arith) (omega arith) c.1))

pub find-first_fit :
    {h : Heap} {cells : List Cell} (size : ℕ)
    → Holds h cells
    → heap_find_free_block h size ≡ some (first_fit (total_size size) heap_start_address cells)
unfolding heap_find_free_block
find-first_fit {cells = []} size v = absurd (omega (arith, v.some_cell))
find-first_fit {h} {cells = c ∷ cs} size v =
    rw (v.first, v.count)
      (find_loop-first_fit (length (c ∷ cs) + 1) h.mem (total_size size) null heap_start_address
        (c ∷ cs) (omega arith) (omega arith) v.chain)

-- Every address that a search finds is that of a header.
hit_pos :
    {t p : ℕ} {cells : List Cell}
    → Found t heap_start_address p cells
    → p ≢ null
    → heap_start_address ≤ p
hit_pos (missing e no_fit) ne = absurd (ne e)
hit_pos (hit xs s ys e no_fit large at) ne = omega arith

-- On a heap that holds a list of cells, `heap_find_free_block` ends: with the address of the first
-- free cell that is large enough for the request and its header, or with `NULL` where no cell is.
pub heap_find_free_block_lem :
    {h : Heap} {cells : List Cell} (size : ℕ)
    → Holds h cells
    → (p : ℕ) × (heap_find_free_block h size ≡ some p)
      × Found (total_size size) heap_start_address p cells
heap_find_free_block_lem {cells} size v = (
  first_fit (total_size size) heap_start_address cells,
  find-first_fit size v,
  first_fit-Found (total_size size) heap_start_address cells,
)
