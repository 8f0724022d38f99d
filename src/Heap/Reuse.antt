-- ===== src/Heap/Reuse.antt =====
-- What a client of `kmalloc` and `kmfree` can count on, and what not.
use alphix.Base.{
  ℕ, ◌+◌, ◌-◌, ◌%◌, ◌^◌, ◌≤◌, ◌<◌, ◌≡◌, ◌≢◌, refl, true, false, ◌⊎◌, inl, inr, some, List, [], ◌∷◌,
  ◌++◌, arith, ltb, ==_ne, Bool-cases,
}
use mathlib.Core.Path.{subst}
use alphix.Heap.{
  Heap, heap_block_size, heap_max_size, heap_align, expand_size, heap_start_address, header_size,
  null, total_size, kmalloc, kmfree,
}
use alphix.Heap.Chain.{Cell, total, total-mod, Sized-left}
use alphix.Heap.Inv.{Holds}
use alphix.Heap.Find.{Unfit, first_fit}
use alphix.Heap.Split.{total_size_bounds}
use alphix.Heap.Free.{absorb, behind, released, join_left, join_left-used, kmfree-Holds}
use alphix.Heap.Alloc.{Gives, allocate, serve, grow, kmalloc_refines, allocate-Unfit}

-- A request for no bytes is refused.
pub kmalloc-zero : (h : Heap) → kmalloc h 0 ≡ some (null, h)
unfolding kmalloc
kmalloc-zero h = refl

-- The cells do not end in a free one.
abbrev pub EndsUsed : List Cell → Type 0
EndsUsed xs = (xs ≡ []) ⊎ ((ws : List Cell) × (r : ℕ) × (xs ≡ ws ++ (r, true) ∷ []))

released-EndsUsed :
    (xs : List Cell) (t s : ℕ) (ys : List Cell)
    → EndsUsed xs
    → t ≤ s
    → released xs t ((s - t, false) ∷ ys) ≡ xs ++ (s, false) ∷ ys
unfolding released absorb behind
released-EndsUsed xs t s ys (inl e) le =
    let sum : t + (s - t) ≡ s = omega arith in unfold join_left in rw (e, sum) refl
released-EndsUsed xs t s ys (inr (ws, r, e)) le =
    let sum : t + (s - t) ≡ s = omega arith in rw (e, sum) (join_left-used ws r s ys)

module _ {h : Heap} (xs : List Cell) (s : ℕ) (ys : List Cell) (size : ℕ)
    (v : Holds h (xs ++ (s, false) ∷ ys)) (small : size < 2 ^ 63) (wanted : size ≢ 0)
    (no_fit : Unfit (total_size size) xs) where
  -- Where the first cell that fits has 64 bytes or more to spare, `kmalloc` cuts it: the front is
  -- marked as used, the rest is free, and the pointer returned is the front's first byte behind the
  -- header, a multiple of eight with `size` bytes or more before the next header.
  pub kmalloc_cuts :
      total_size size + 64 ≤ s
      → (t : ℕ) × Gives
          (xs ++ (t, true) ∷ (s - t, false) ∷ ys)
          (heap_start_address + total xs + header_size)
          (kmalloc h size)
        × (header_size + size ≤ t)
        × ((heap_start_address + total xs + header_size) % 8 ≡ 0)
  kmalloc_cuts roomy =
      let bounds = total_size_bounds size small in
      let r = kmalloc_refines size v small in
      let loose : ltb s (total_size size + 64) ≡ false = ground arith in
      (
        total_size size,
        rw (allocate-Unfit size s xs ys wanted no_fit (omega arith), loose) at r,
        omega arith,
        omega (arith, total-mod xs (Sized-left xs ((s, false) ∷ ys) v.sized)),
      )

  -- Where the first cell that fits has less than 64 bytes to spare, `kmalloc` hands it out with its
  -- mark still clear: a second request for as many bytes, with no `kmfree` between, returns the
  -- same pointer.
  pub kmalloc_repeats :
      total_size size ≤ s
      → s < total_size size + 64
      → let p = heap_start_address + total xs + header_size in
        (g g' : Heap) × (kmalloc h size ≡ some (p, g)) × (kmalloc g size ≡ some (p, g'))
  kmalloc_repeats large tight =
      let close : ltb s (total_size size + 64) ≡ true = ground arith in
      let same = allocate-Unfit size s xs ys wanted no_fit large in
      let r : Gives (xs ++ (s, false) ∷ ys) (heap_start_address + total xs + header_size)
          (kmalloc h size) =
        rw (same, close) at
          (kmalloc_refines {h = h} {cells = xs ++ (s, false) ∷ ys} size v small) in
      let r' : Gives (xs ++ (s, false) ∷ ys) (heap_start_address + total xs + header_size)
          (kmalloc r.heap size) =
        rw (same, close) at
          (kmalloc_refines {h = r.heap} {cells = xs ++ (s, false) ∷ ys} size r.holds small) in
      (r.heap, r'.heap, r.ends, r'.ends)

  -- Where the first cell that fits has 64 bytes or more to spare and no free cell comes right
  -- before it, `kmalloc` ends, and `kmfree` of the pointer that it returned restores the cells of
  -- the heap.
  pub kmfree-kmalloc :
      total_size size + 64 ≤ s
      → EndsUsed xs
      → (p : ℕ) × (g : Heap) × (kmalloc h size ≡ some (p, g))
        × Holds (kmfree g p) (xs ++ (s, false) ∷ ys)
  kmfree-kmalloc roomy ends =
      let loose : ltb s (total_size size + 64) ≡ false = ground arith in
      let t : ℕ = total_size size in
      let r : Gives (xs ++ (t, true) ∷ (s - t, false) ∷ ys)
          (heap_start_address + total xs + header_size) (kmalloc h size) =
        rw (allocate-Unfit size s xs ys wanted no_fit (omega arith), loose) at
          (kmalloc_refines {h = h} {cells = xs ++ (s, false) ∷ ys} size v small) in
      (
        heap_start_address + total xs + header_size,
        r.heap,
        r.ends,
        subst (λ cs. Holds (kmfree r.heap (heap_start_address + total xs + header_size)) cs)
            (released-EndsUsed xs t s ys ends (omega arith))
            (kmfree-Holds xs t ((s - t, false) ∷ ys) r.holds),
      )

Unfit-null : (t a : ℕ) (cs : List Cell) → Unfit t cs → first_fit t a cs ≡ null
unfolding first_fit
Unfit-null t a [] no_fit = refl
Unfit-null t a ((s, true) ∷ cs) no_fit = Unfit-null t (a + s) cs no_fit.1
Unfit-null t a ((s, false) ∷ cs) no_fit = ground (arith, Unfit-null t (a + s) cs no_fit.1)

Unfit-append : (t : ℕ) (xs ys : List Cell) → Unfit t xs → Unfit t ys → Unfit t (xs ++ ys)
Unfit-append t [] ys no_fit more = more
Unfit-append t (x ∷ xs) ys no_fit more = (no_fit.0, Unfit-append t xs ys no_fit.1 more)

Unfit-grow :
    (size : ℕ) (cells : List Cell)
    → size < 2 ^ 63
    → heap_block_size < size + header_size
    → Unfit (total_size size) cells
    → Unfit (total_size size) (grow (expand_size size) cells)
unfolding grow
Unfit-grow size cells small large no_fit =
    let less : expand_size size < total_size size =
      unfold expand_size total_size heap_align in ground arith in
    elim (Bool-cases (ltb heap_max_size (total cells + expand_size size))) [
      | inl over ↦ rw over no_fit
      | inr within ↦ rw within (Unfit-append (total_size size) cells _ no_fit (inr less, tt))
    ]

-- Where no cell fits, a request of more than 4064 bytes (below `2 ^ 63`) returns `NULL`, also where
-- the heap can grow and does: the block that it adds has no room for the header.
pub kmalloc_large_fails :
    {h : Heap} {cells : List Cell} (size : ℕ)
    → Holds h cells
    → size < 2 ^ 63
    → heap_block_size < size + header_size
    → Unfit (total_size size) cells
    → Gives (grow (expand_size size) cells) null (kmalloc h size)
kmalloc_large_fails {h} {cells} size v small large no_fit =
    let t : ℕ = total_size size in
    let e : allocate size cells ≡ (null, grow (expand_size size) cells) =
      unfold allocate serve in
      rw
        (
          ==_ne size 0 (omega arith),
          Unfit-null t heap_start_address cells no_fit,
          Unfit-null t heap_start_address (grow (expand_size size) cells)
              (Unfit-grow size cells small large no_fit),
        )
        refl in
    rw e at (kmalloc_refines {h = h} {cells = cells} size v small)
