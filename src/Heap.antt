-- ===== src/Heap.antt =====
-- mem/heap.c and include/mem/heap.h: the block allocator of the kernel.
-- Memory is seen through the block headers: `mem a` is the header that lies at address `a`.
-- `NULL` is address 0. `size_t` and addresses wrap at `2 ^ 64`, the fields of a header at `2 ^ 32`.
-- A call of `kprintf` is an entry of `log`, newest first. A `while` loop over the chain of blocks
-- runs on fuel, and `none` means that it has not ended.
pub mod Chain
pub mod Inv
pub mod Find
pub mod Split
pub mod Join
mod Tests
pub mod Report
pub mod Stats
pub mod Reuse
pub mod Alloc
pub mod Expand
pub mod Free
use alphix.Base.{
  ℕ, zero, suc, ◌+◌, ◌-◌, ◌*◌, ◌/◌, ◌%◌, ◌^◌, Bool, true, false, not, ◌&&◌, Option, none, some,
  List, [], ◌∷◌, ltb, leb, ◌==◌, if◌then◌else◌,
}

abbrev pub heap_start_address : ℕ
heap_start_address = 0x1000000

abbrev pub heap_initial_size : ℕ
heap_initial_size = 0x100000

abbrev pub heap_max_size : ℕ
heap_max_size = 0x10000000

abbrev pub heap_block_size : ℕ
heap_block_size = 0x1000

abbrev pub heap_magic : ℕ
heap_magic = 0xDEADBEEF

-- `sizeof(heap_block_t)`: three `uint32_t`, four bytes of padding, two pointers.
abbrev pub header_size : ℕ
header_size = 32

abbrev pub null : ℕ
null = 0

abbrev pub u32 : ℕ → ℕ
u32 n = n % 2 ^ 32

abbrev pub u64 : ℕ → ℕ
u64 n = n % 2 ^ 64

-- `HEAP_ALIGN`
pub heap_align : ℕ → ℕ
heap_align size = u64 (size + 7) / 8 * 8

pub record HeapBlock : Type 0 where
  pub magic : ℕ
  pub size : ℕ
  pub used : ℕ
  pub next : ℕ
  pub prev : ℕ

pub data Message : Type 0 where
  initialized : ℕ → ℕ → Message
  expansion_failed : Message
  expanded : ℕ → ℕ → Message
  out_of_memory : ℕ → Message
  invalid_magic : Message
  double_free : Message
  corruption : ℕ → Message
  count_mismatch : ℕ → ℕ → Message

pub record Heap : Type 0 where
  pub start_address : ℕ
  pub end_address : ℕ
  pub max_address : ℕ
  pub first_block : ℕ
  pub total_blocks : ℕ
  pub used_blocks : ℕ
  pub mem : ℕ → HeapBlock
  pub log : List Message

abbrev pub update : (ℕ → HeapBlock) → ℕ → HeapBlock → ℕ → HeapBlock
update m p b a = if a == p then b else m a

abbrev pub kprintf : Message → Heap → Heap
kprintf e h = record h { log = e ∷ h.log }

-- Memory is whatever it was, but for the first header; the static variables are all assigned.
pub heap_init : Heap → Heap
heap_init h =
    kprintf (initialized heap_start_address (heap_start_address + heap_initial_size)) (record {
      start_address = heap_start_address;
      end_address = heap_start_address + heap_initial_size;
      max_address = heap_start_address + heap_max_size;
      first_block = heap_start_address;
      total_blocks = 1;
      used_blocks = 0;
      mem = update h.mem heap_start_address (record {
        magic = heap_magic;
        size = heap_initial_size;
        used = 0;
        next = null;
        prev = null;
      });
      log = h.log;
    })

-- The bytes that a request takes with its header.
pub total_size : ℕ → ℕ
unfolding heap_align
total_size size = heap_align (u64 (size + header_size))

abbrev pub fits : HeapBlock → ℕ → Bool
fits b total = (b.used == 0) && leb total b.size

pub find_loop : ℕ → (ℕ → HeapBlock) → ℕ → ℕ → Option ℕ
find_loop zero m total current = none
find_loop (suc fuel) m total current =
    let rest = find_loop fuel m total (m current).next in
    if current == null then some null else if fits (m current) total then some current else rest

-- As many rounds as there are blocks, and one that finds `NULL`.
pub heap_find_free_block : Heap → ℕ → Option ℕ
heap_find_free_block h size = find_loop (h.total_blocks + 1) h.mem (total_size size) h.first_block

abbrev pub set_next : (ℕ → HeapBlock) → ℕ → ℕ → ℕ → HeapBlock
set_next m p q = update m p (record (m p) { next = q })

abbrev pub set_prev : (ℕ → HeapBlock) → ℕ → ℕ → ℕ → HeapBlock
set_prev m p q = update m p (record (m p) { prev = q })

-- The writes of `heap_split_block`, in the order of the code.
pub split_mem : (ℕ → HeapBlock) → ℕ → ℕ → ℕ → HeapBlock
split_mem m block total =
    let new_block = u64 (block + total) in
    let m1 = update m new_block (record {
      magic = heap_magic;
      size = u32 ((m block).size + 2 ^ 64 - total);
      used = 0;
      next = (m block).next;
      prev = block;
    }) in
    let m2 = update m1 block (record (m1 block) { size = u32 total; used = 1 }) in
    let m3 = if not ((m2 block).next == null) then set_prev m2 (m2 block).next new_block else m2 in
    set_next m3 block new_block

pub heap_split_block : Heap → ℕ → ℕ → ℕ × Heap
heap_split_block h block size =
    let total = total_size size in
    if ltb (h.mem block).size (u64 (total + 64)) then (block, h) else (
      block,
      record h { mem = split_mem h.mem block total; total_blocks = u32 (h.total_blocks + 1) },
    )

-- The first half of `heap_merge_adjacent_blocks`: the next block joins this one.
pub merge_next : Heap → ℕ → Heap
merge_next h block =
    let m = h.mem in
    let nxt = (m block).next in
    if not (nxt == null) && ((m nxt).used == 0)
    then (let m1 =
          update m block (record (m block) { size = u32 ((m block).size + (m nxt).size) }) in
        let m2 = set_next m1 block (m1 nxt).next in
        record h {
          mem = if not ((m2 block).next == null) then set_prev m2 (m2 block).next block else m2;
          total_blocks = u32 (h.total_blocks + (2 ^ 32 - 1));
        })
    else h

-- The second half: this block joins the previous one.
pub merge_prev : Heap → ℕ → Heap
merge_prev h block =
    let m = h.mem in
    let prv = (m block).prev in
    if not (prv == null) && ((m prv).used == 0)
    then (let m1 = update m prv (record (m prv) { size = u32 ((m prv).size + (m block).size) }) in
        let m2 = set_next m1 prv (m1 block).next in
        record h {
          mem =
              if not ((m2 block).next == null)
              then set_prev m2 (m2 block).next (m2 block).prev
              else m2;
          total_blocks = u32 (h.total_blocks + (2 ^ 32 - 1));
        })
    else h

pub heap_merge_adjacent_blocks : Heap → ℕ → Heap
heap_merge_adjacent_blocks h block = merge_prev (merge_next h block) block

-- The walk to the last block.
pub last_loop : ℕ → (ℕ → HeapBlock) → ℕ → Option ℕ
last_loop zero m p = none
last_loop (suc fuel) m p =
    let rest = last_loop fuel m (m p).next in if (m p).next == null then some p else rest

pub expand_size : ℕ → ℕ
unfolding heap_align
expand_size size =
    if ltb (heap_align size) heap_block_size then heap_block_size else heap_align size

-- The writes of `heap_expand_heap`: the walk runs over memory with the new header in it.
pub expand_with : Heap → ℕ → Option Heap
expand_with h amount =
    let new_block = h.end_address in
    let m1 =
      update h.mem new_block (record (h.mem new_block) {
        magic = heap_magic;
        size = u32 amount;
        used = 0;
        next = null;
      }) in
    elim (last_loop (h.total_blocks + 1) m1 h.first_block) [
      | none ↦ none
      | some last ↦ some (
          kprintf (expanded amount (u64 (h.end_address + amount))) (record h {
            mem = set_prev (set_next m1 last new_block) new_block last;
            end_address = u64 (h.end_address + amount);
            total_blocks = u32 (h.total_blocks + 1);
          }))
    ]

pub heap_expand_heap : Heap → ℕ → Option Heap
heap_expand_heap h size =
    if ltb h.max_address (u64 (h.end_address + expand_size size))
    then some (kprintf expansion_failed h)
    else expand_with h (expand_size size)

-- What `kmalloc` does with the block that it has found.
pub take_block : Heap → ℕ → ℕ → ℕ × Heap
take_block h block size =
    let (b, g) = heap_split_block h block size in
    (u64 (b + header_size), record g { used_blocks = u32 (g.used_blocks + 1) })

pub retry : Heap → ℕ → Option (ℕ × Heap)
retry h size = elim (heap_find_free_block h size) [
  | none ↦ none
  | some block ↦
      if block == null
      then some (null, kprintf (out_of_memory size) h)
      else some (take_block h block size)
]

pub expand_and_retry : Heap → ℕ → Option (ℕ × Heap)
expand_and_retry h size = elim (heap_expand_heap h size) [ none ↦ none | some g ↦ retry g size ]

pub kmalloc : Heap → ℕ → Option (ℕ × Heap)
kmalloc h size = if size == 0 then some (null, h) else elim (heap_find_free_block h size) [
  | none ↦ none
  | some block ↦ if block == null then expand_and_retry h size else some (take_block h block size)
]

pub kmfree : Heap → ℕ → Heap
kmfree h ptr =
    let block = u64 (ptr + 2 ^ 64 - header_size) in
    if ptr == null
    then h
    else if not ((h.mem block).magic == heap_magic)
    then kprintf invalid_magic h
    else if (h.mem block).used == 0
    then kprintf double_free h
    else heap_merge_adjacent_blocks
        (record h {
          mem = update h.mem block (record (h.mem block) { used = 0 });
          used_blocks = u32 (h.used_blocks + (2 ^ 32 - 1));
        })
        block
