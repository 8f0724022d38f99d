-- ===== src/Heap/Inv.antt =====
-- When a heap holds a list of cells, and what `heap_init` sets up.
use alphix.Base.{
  ℕ, ◌++◌, length-append, ◌+◌, ◌*◌, ◌≤◌, ◌<◌, ◌≡◌, refl, Bool, false, List, [], ◌∷◌, arith, length,
}
use alphix.Heap.{
  HeapBlock, Message, Heap, heap_start_address, heap_initial_size, heap_max_size, null, heap_init,
}
use alphix.Heap.Chain.{
  last_or, Chain-rewrite, Sized-append, Sized-left, Sized-right, Chain-right, total-append, Cell,
  Chain, Sized, total, length-le-total,
}

-- The blocks of `h` are `cells`, in the order of their addresses and with no gap, from the start of
-- the heap to its end; the end is within the maximum, and the count of blocks is right.
pub record Holds (h : Heap) (cells : List Cell) : Type 0 where
  pub start : h.start_address ≡ heap_start_address
  pub limit : h.max_address ≡ heap_start_address + heap_max_size
  pub first : h.first_block ≡ heap_start_address
  pub some_cell : 0 < length cells
  pub chain : Chain h.mem null heap_start_address cells null
  pub sized : Sized cells
  pub end_at : h.end_address ≡ heap_start_address + total cells
  pub bounded : total cells ≤ heap_max_size
  pub count : h.total_blocks ≡ length cells

-- The count of blocks is far below `2 ^ 32`.
pub length-lt : {h : Heap} {cells : List Cell} → Holds h cells → length cells * 32 ≤ heap_max_size
length-lt {cells} v = omega (arith, length-le-total cells v.sized, v.bounded)

-- Whatever memory held, `heap_init` sets up a heap that holds one free cell of the initial size.
pub heap_init-Holds : (h : Heap) → Holds (heap_init h) ((heap_initial_size, false) ∷ [])
unfolding heap_init
heap_init-Holds h = record {
  start = refl;
  limit = refl;
  first = refl;
  some_cell = omega arith;
  chain = (refl, tt);
  sized = (omega arith, refl, tt);
  end_at = refl;
  bounded = omega arith;
  count = refl;
}

-- The counter of used blocks and the log are free to change.
pub Holds-ignores :
    {h : Heap} {cells : List Cell} (n : ℕ) (l : List Message)
    → Holds h cells
    → Holds (record h { used_blocks = n; log = l }) cells
Holds-ignores n l v = record {
  start = v.start;
  limit = v.limit;
  first = v.first;
  some_cell = v.some_cell;
  chain = v.chain;
  sized = v.sized;
  end_at = v.end_at;
  bounded = v.bounded;
  count = v.count;
}

-- The cells behind `xs` are replaced by others that take the same room.
pub Holds-rewrite :
    {h : Heap} (xs : List Cell) (x y : Cell) (ys zs : List Cell) (m' : ℕ → HeapBlock) (n : ℕ)
    → Holds h (xs ++ x ∷ ys)
    → ((b : ℕ) → b < heap_start_address + total xs → m' b ≡ h.mem b)
    → Chain m' (last_or null heap_start_address xs) (heap_start_address + total xs) (y ∷ zs) null
    → Sized (y ∷ zs)
    → total (y ∷ zs) ≡ total (x ∷ ys)
    → n ≡ length (xs ++ y ∷ zs)
    → Holds (record h { mem = m'; total_blocks = n }) (xs ++ y ∷ zs)
Holds-rewrite {h} xs x y ys zs m' n v same c z e count = record {
  start = v.start;
  limit = v.limit;
  first = v.first;
  some_cell = omega (arith, length-append xs (y ∷ zs));
  chain =
      Chain-rewrite h.mem m' null heap_start_address xs x y ys zs (Sized-left xs (x ∷ ys) v.sized)
        same v.chain c;
  sized = Sized-append xs (y ∷ zs) (Sized-left xs (x ∷ ys) v.sized) z;
  end_at = omega (arith, v.end_at, total-append xs (x ∷ ys), total-append xs (y ∷ zs));
  bounded = omega (arith, v.bounded, total-append xs (x ∷ ys), total-append xs (y ∷ zs));
  count = count;
}

-- A cell of a heap: where it ends, how its header reads, and that nothing near it wraps.
pub record IsAt (h : Heap) (xs : List Cell) (s : ℕ) (u : Bool) (ys : List Cell) : Type 0 where
  pub here :
      Chain h.mem
        (last_or null heap_start_address xs)
        (heap_start_address + total xs)
        ((s, u) ∷ ys)
        null
  pub sized : Sized ((s, u) ∷ ys)
  pub ends : heap_start_address + total xs + (s + total ys) ≡ h.end_address
  pub bounded : total xs + (s + total ys) ≤ heap_max_size
  pub count : h.total_blocks ≡ length xs + (length ys + 1)
  pub few : h.total_blocks * 32 ≤ heap_max_size

pub Holds-IsAt :
    {h : Heap} (xs : List Cell) (s : ℕ) (u : Bool) (ys : List Cell)
    → Holds h (xs ++ (s, u) ∷ ys)
    → IsAt h xs s u ys
Holds-IsAt {h} xs s u ys v = record {
  here = Chain-right h.mem null heap_start_address xs ((s, u) ∷ ys) null v.chain;
  sized = Sized-right xs ((s, u) ∷ ys) v.sized;
  ends = omega (arith, v.end_at, total-append xs ((s, u) ∷ ys));
  bounded = omega (arith, v.bounded, total-append xs ((s, u) ∷ ys));
  count = omega (arith, v.count, length-append xs ((s, u) ∷ ys));
  few = omega (arith, v.count, length-lt v);
}
