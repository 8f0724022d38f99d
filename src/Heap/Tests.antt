-- ===== src/Heap/Tests.antt =====
-- Runs of the allocator, and its theorems at these heaps.
use alphix.Base.{
  ℕ, ◌+◌, ◌-◌, ◌%◌, ◌≤◌, ◌≡◌, refl, true, false, inl, inr, Option, none, some, List, [], ◌∷◌, ◌++◌,
  arith, ltb, ◌==◌, if◌then◌else◌,
}
use alphix.Heap.{
  Heap, HeapBlock, heap_start_address, heap_initial_size, heap_max_size, header_size, null,
  heap_align, heap_init, total_size, find_loop, heap_find_free_block, split_mem, heap_split_block,
  merge_next, merge_prev, heap_merge_adjacent_blocks, last_loop, expand_size, expand_with,
  heap_expand_heap, take_block, retry, expand_and_retry, kmalloc, kmfree, kprintf, double_free,
  expansion_failed,
}
use alphix.Heap.Chain.{Cell, total, header}
use alphix.Heap.Inv.{Holds, heap_init-Holds}
use alphix.Heap.Find.{Found, heap_find_free_block_lem}
use alphix.Heap.Split.{split-Holds}
use alphix.Heap.Expand.{heap_expand_heap_lem}
use alphix.Heap.Free.{absorb, behind, join_left, released, kmfree-Holds, kmfree-free}
use alphix.Heap.Alloc.{Gives, grow, allocate, kmalloc_refines}
use alphix.Heap.Reuse.{kmalloc_cuts, kmalloc_repeats, kmfree-kmalloc, kmalloc_large_fails}

abbrev blank : HeapBlock
blank = record { magic = 0; size = 0; used = 0; next = 0; prev = 0 }

abbrev off : Heap
off = record {
  start_address = 0;
  end_address = 0;
  max_address = 0;
  first_block = 0;
  total_blocks = 0;
  used_blocks = 0;
  mem = λ _. blank;
  log = [];
}

abbrev fresh : Heap
fresh = heap_init off

abbrev fresh_cells : List Cell
fresh_cells = (heap_initial_size, false) ∷ []

fresh-Holds : Holds fresh fresh_cells
fresh-Holds = heap_init-Holds off

abbrev after : Option (ℕ × Heap) → Heap
after none = off
after (some (p, h)) = h

abbrev pointer : Option (ℕ × Heap) → ℕ
pointer none = 1
pointer (some (p, h)) = p

-- Two requests, and a third when the first is free again.
three_requests :
    pointer (kmalloc (kmfree (after (kmalloc (after (kmalloc fresh 100)) 8)) 0x1000020) 64)
    ≡ 0x1000020
unfolding heap_init kmalloc kmfree heap_find_free_block find_loop total_size take_block
    heap_split_block split_mem heap_merge_adjacent_blocks merge_next merge_prev
three_requests = refl

-- The block that the heap grows by has no room for the header of the request.
large_request : pointer (kmalloc fresh 0x100000) ≡ null
unfolding heap_init kmalloc expand_and_retry retry heap_expand_heap expand_size expand_with
    last_loop heap_find_free_block find_loop total_size take_block heap_split_block split_mem
large_request = refl

heap_find_free_block_lem_example :
    (p : ℕ) × (heap_find_free_block fresh 100 ≡ some p)
    × Found (total_size 100) heap_start_address p fresh_cells
heap_find_free_block_lem_example = heap_find_free_block_lem 100 fresh-Holds

kmalloc_refines_example :
    let (p, cells) = allocate 100 fresh_cells in Gives cells p (kmalloc fresh 100)
kmalloc_refines_example = kmalloc_refines 100 fresh-Holds (omega arith)

kmalloc_cuts_example :
    (t : ℕ) × Gives ((t, true) ∷ (heap_initial_size - t, false) ∷ []) 0x1000020 (kmalloc fresh 100)
    × (header_size + 100 ≤ t)
    × (◌≡◌ {A = ℕ} (0x1000020 % 8) 0)
unfolding total_size heap_align
kmalloc_cuts_example =
    kmalloc_cuts [] heap_initial_size [] 100 fresh-Holds (omega arith) (omega arith) tt
      (omega arith)

-- All but the last 40 bytes of the heap are asked for, twice.
kmalloc_repeats_example :
    (g g' : Heap) × (kmalloc fresh 0xfffb8 ≡ some (0x1000020, g))
    × (kmalloc g 0xfffb8 ≡ some (0x1000020, g'))
unfolding total_size heap_align
kmalloc_repeats_example =
    kmalloc_repeats [] heap_initial_size [] 0xfffb8 fresh-Holds (omega arith) (omega arith) tt
      (omega arith) (omega arith)

kmfree-kmalloc_example :
    (p : ℕ) × (g : Heap) × (kmalloc fresh 100 ≡ some (p, g)) × Holds (kmfree g p) fresh_cells
unfolding total_size heap_align
kmfree-kmalloc_example =
    kmfree-kmalloc [] heap_initial_size [] 100 fresh-Holds (omega arith) (omega arith) tt
      (omega arith) (inl refl)

kmalloc_large_fails_example :
    Gives (grow (expand_size 0x100000) fresh_cells) null (kmalloc fresh 0x100000)
unfolding total_size heap_align
kmalloc_large_fails_example =
    kmalloc_large_fails 0x100000 fresh-Holds (omega arith) (omega arith) (inr (omega arith), tt)

abbrev one_used : Heap
one_used = record {
  start_address = heap_start_address;
  end_address = heap_start_address + heap_initial_size;
  max_address = heap_start_address + heap_max_size;
  first_block = heap_start_address;
  total_blocks = 2;
  used_blocks = 1;
  mem = λ a.
      if a == heap_start_address
      then header 136 true null (heap_start_address + 136)
      else if a == heap_start_address + 136
      then header (heap_initial_size - 136) false heap_start_address null
      else blank;
  log = [];
}

abbrev one_used_cells : List Cell
one_used_cells = (136, true) ∷ (heap_initial_size - 136, false) ∷ []

one_used-Holds : Holds one_used one_used_cells
one_used-Holds = record {
  start = refl;
  limit = refl;
  first = refl;
  some_cell = omega arith;
  chain = (refl, (refl, tt));
  sized = (omega arith, refl, (omega arith, refl, tt));
  end_at = refl;
  bounded = omega arith;
  count = refl;
}

kmfree-Holds_example : Holds (kmfree one_used 0x1000020) ((heap_initial_size, false) ∷ [])
unfolding released absorb behind join_left
kmfree-Holds_example = kmfree-Holds [] 136 ((heap_initial_size - 136, false) ∷ []) one_used-Holds

kmfree-free_example : kmfree fresh 0x1000020 ≡ kprintf double_free fresh
kmfree-free_example = kmfree-free [] heap_initial_size [] fresh-Holds

heap_expand_heap_lem_example :
    (g : Heap) × (heap_expand_heap fresh 5000 ≡ some g)
    × (if ltb heap_max_size (total fresh_cells + expand_size 5000)
        then g ≡ kprintf expansion_failed fresh
        else Holds g (fresh_cells ++ (expand_size 5000, false) ∷ []))
heap_expand_heap_lem_example = heap_expand_heap_lem 5000 fresh-Holds (omega arith)

split-Holds_example :
    let (b, g) = heap_split_block fresh heap_start_address 100 in
    (b ≡ heap_start_address)
    × Holds g ((total_size 100, true) ∷ (heap_initial_size - total_size 100, false) ∷ [])
unfolding total_size heap_align
split-Holds_example =
    split-Holds [] heap_initial_size false [] 100 fresh-Holds (omega arith) (omega arith)
