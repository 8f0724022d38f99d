-- ===== src/Heap/Report.antt =====
-- mem/heap.c: the check of the chain of blocks, and the three sizes.
use alphix.Base.{
  ℕ, zero, suc, ◌+◌, ◌-◌, ◌^◌, Bool, true, false, not, Option, none, some, ◌==◌, if◌then◌else◌,
}
use alphix.Heap.{Heap, HeapBlock, corruption, count_mismatch, heap_magic, null, u32, kprintf}

-- `heap_validate_integrity`
unfoldable pub validate_loop : ℕ → (ℕ → HeapBlock) → ℕ → ℕ → Option (Bool × ℕ)
validate_loop zero m count current = none
validate_loop (suc fuel) m count current =
    let rest = validate_loop fuel m (u32 (count + 1)) (m current).next in
    if current == null
    then some (true, count)
    else if not ((m current).magic == heap_magic)
    then some (false, count)
    else rest

unfoldable pub heap_validate_integrity : Heap → Option Heap
heap_validate_integrity h = elim (validate_loop (h.total_blocks + 1) h.mem 0 h.first_block) [
  | none ↦ none
  | some (intact, count) ↦ some (
      if not intact
      then kprintf (corruption count) h
      else if not (count == h.total_blocks)
      then kprintf (count_mismatch h.total_blocks count) h
      else h)
]

unfoldable pub heap_get_total_size : Heap → ℕ
heap_get_total_size h = u32 (h.end_address + 2 ^ 64 - h.start_address)

unfoldable pub used_loop : ℕ → (ℕ → HeapBlock) → ℕ → ℕ → Option ℕ
used_loop zero m acc current = none
used_loop (suc fuel) m acc current =
    let rest =
      used_loop fuel m (if (m current).used == 0 then acc else u32 (acc + (m current).size))
        (m current).next in
    if current == null then some acc else rest

unfoldable pub heap_get_used_size : Heap → Option ℕ
heap_get_used_size h = used_loop (h.total_blocks + 1) h.mem 0 h.first_block

unfoldable pub heap_get_free_size : Heap → Option ℕ
heap_get_free_size h = elim (heap_get_used_size h) [
  | none ↦ none
  | some used ↦ some (u32 (heap_get_total_size h + 2 ^ 32 - used))
]
