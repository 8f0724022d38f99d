-- ===== src/Heap/Stats.antt =====
-- The diagnostics of heap.c: what they report of a heap that holds a list of cells.
use alphix.Base.{
  ℕ, zero, suc, ◌+◌, ◌^◌, ◌<◌, ◌≡◌, refl, ◌∙◌, ap, Bool, true, false, some, List, [], ◌∷◌, arith,
  ◌==◌, ==_ne, length,
}
use alphix.Heap.{Heap, HeapBlock, heap_start_address, null, u32}
use alphix.Heap.Report.{
  validate_loop, heap_validate_integrity, heap_get_total_size, used_loop, heap_get_used_size,
  heap_get_free_size,
}
use alphix.Heap.Chain.{Cell, head_or, total, Chain, Sized}
use alphix.Heap.Inv.{Holds, length-lt}

-- The bytes of the cells whose mark is `u`.
pub total_of : Bool → List Cell → ℕ
total_of u [] = 0
total_of true ((s, true) ∷ cs) = s + total_of true cs
total_of true ((s, false) ∷ cs) = total_of true cs
total_of false ((s, true) ∷ cs) = total_of false cs
total_of false ((s, false) ∷ cs) = s + total_of false cs

total_of-total : (cs : List Cell) → total_of true cs + total_of false cs ≡ total cs
unfolding total_of
total_of-total [] = refl
total_of-total ((s, true) ∷ cs) = omega (arith, total_of-total cs)
total_of-total ((s, false) ∷ cs) = omega (arith, total_of-total cs)

validate_loop-Chain :
    (fuel : ℕ) (m : ℕ → HeapBlock) (n prv a : ℕ) (cs : List Cell)
    → length cs < fuel
    → 0 < a
    → Sized cs
    → n + length cs < 2 ^ 32
    → Chain m prv a cs null
    → validate_loop fuel m n (head_or a cs null) ≡ some (true, n + length cs)
unfolding validate_loop
validate_loop-Chain zero m n prv a cs f pos z few c = absurd (omega arith)
validate_loop-Chain (suc fuel) m n prv a [] f pos z few c = ap (λ k. some (true, k)) (omega arith)
validate_loop-Chain (suc fuel) m n prv a ((s, u) ∷ cs) f pos z few c =
    let e : u32 (n + 1) ≡ n + 1 = omega arith in
    rw (c.0, ==_ne a 0 (omega arith), e)
      (validate_loop-Chain fuel m (n + 1) a (a + s) cs (omega arith) (omega arith) z.2 (omega arith)
          c.1
        ∙ ap (λ k. some (true, k)) (omega arith))

used_loop-Chain :
    (fuel : ℕ) (m : ℕ → HeapBlock) (acc prv a : ℕ) (cs : List Cell)
    → length cs < fuel
    → 0 < a
    → acc + total_of true cs < 2 ^ 32
    → Chain m prv a cs null
    → used_loop fuel m acc (head_or a cs null) ≡ some (acc + total_of true cs)
unfolding used_loop total_of
used_loop-Chain zero m acc prv a cs f pos small c = absurd (omega arith)
used_loop-Chain (suc fuel) m acc prv a [] f pos small c = ap some (omega arith)
used_loop-Chain (suc fuel) m acc prv a ((s, true) ∷ cs) f pos small c =
    let e : u32 (acc + s) ≡ acc + s = omega arith in
    rw (c.0, ==_ne a 0 (omega arith), e)
      (used_loop-Chain fuel m (acc + s) a (a + s) cs (omega arith) (omega arith) (omega arith) c.1
        ∙ ap some (omega arith))
used_loop-Chain (suc fuel) m acc prv a ((s, false) ∷ cs) f pos small c =
    rw (c.0, ==_ne a 0 (omega arith))
      (used_loop-Chain fuel m acc a (a + s) cs (omega arith) (omega arith) small c.1)

module _ {h : Heap} where
  -- On a heap that holds a list of cells the three sizes end and are those of the cells: all bytes,
  -- the bytes in use, and the bytes that are free.
  pub sizes_lem :
      {cells : List Cell}
      → Holds h cells
      → (heap_get_total_size h ≡ total cells)
        × (heap_get_used_size h ≡ some (total_of true cells))
        × (heap_get_free_size h ≡ some (total_of false cells))
  unfolding heap_get_total_size heap_get_used_size heap_get_free_size
  sizes_lem {cells = []} v = absurd (omega (arith, v.some_cell))
  sizes_lem {cells = c ∷ cs} v =
      let parts = total_of-total (c ∷ cs) in
      let walk = used_loop (h.total_blocks + 1) h.mem 0 in
      let used : walk h.first_block ≡ some (total_of true (c ∷ cs)) =
        ap walk v.first
        ∙ used_loop-Chain (h.total_blocks + 1) h.mem 0 null heap_start_address (c ∷ cs)
            (omega (arith, v.count)) (omega arith) (omega (arith, parts, v.bounded)) v.chain
        ∙ ap some (omega arith) in
      (
        omega (arith, v.start, v.end_at, v.bounded),
        used,
        rw (used, heap_get_free_size, heap_get_total_size)
            (ap some (omega (arith, parts, v.start, v.end_at, v.bounded))),
      )

  -- On a heap that holds a list of cells `heap_validate_integrity` ends and logs nothing.
  pub validate_lem : {cells : List Cell} → Holds h cells → heap_validate_integrity h ≡ some h
  unfolding heap_validate_integrity
  validate_lem {cells = []} v = absurd (omega (arith, v.some_cell))
  validate_lem {cells = c ∷ cs} v =
      let walk = validate_loop (h.total_blocks + 1) h.mem 0 in
      let e : walk h.first_block ≡ some (true, 0 + length (c ∷ cs)) =
        ap walk v.first
        ∙ validate_loop-Chain (h.total_blocks + 1) h.mem 0 null heap_start_address (c ∷ cs)
            (omega (arith, v.count)) (omega arith) v.sized (omega (arith, length-lt v)) v.chain in
      let same : (0 + length (c ∷ cs) == h.total_blocks) ≡ true = ground (arith, v.count) in
      rw (e, heap_validate_integrity, same) refl
