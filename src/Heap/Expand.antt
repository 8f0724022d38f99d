-- ===== src/Heap/Expand.antt =====
-- `heap_expand_heap` adds a free block at the end of the heap, within its limit.
use alphix.Base.{
  ℕ, zero, suc, ◌+◌, ◌*◌, ◌/◌, ◌%◌, ◌^◌, ◌≤◌, ◌<◌, ◌≡◌, refl, ◌∙◌, ap, Bool, false, inl, inr, some,
  List, [], ◌∷◌, ◌++◌, arith, ltb, ==_self, ==_ne, if◌then◌else◌, Bool-cases, length, length-append,
}
use alphix.Heap.{
  Heap, HeapBlock, heap_start_address, heap_max_size, heap_block_size, heap_magic, header_size,
  null, update, u32, u64, heap_align, last_loop, expand_size, expand_with, heap_expand_heap,
  set_next, set_prev, kprintf, expanded, expansion_failed,
}
use alphix.Heap.Chain.{
  Cell, last_or, total, Chain, Sized, Chain-frame, Chain-append, total-append, Sized-append,
}
use alphix.Heap.Inv.{Holds, length-lt}

-- Below `2 ^ 63` nothing wraps: the size rounded up to eight, and at least the minimum.
expand_size_bounds :
    (size : ℕ)
    → size < 2 ^ 63
    → (heap_block_size ≤ expand_size size)
      × (size ≤ expand_size size)
      × (expand_size size % 8 ≡ 0)
      × (expand_size size < 2 ^ 63 + 8)
unfolding expand_size heap_align
expand_size_bounds size h = ground arith

last_or-bounds :
    (prv a : ℕ) (s : ℕ) (u : Bool) (cs : List Cell)
    → Sized ((s, u) ∷ cs)
    → (a ≤ last_or prv a ((s, u) ∷ cs)) × (last_or prv a ((s, u) ∷ cs) < a + (s + total cs))
last_or-bounds prv a s u [] z = omega arith
last_or-bounds prv a s u ((t, w) ∷ cs) z = omega (arith, last_or-bounds a (a + s) t w cs z.2)

last_loop-last_or :
    (fuel : ℕ) (m : ℕ → HeapBlock) (prv a : ℕ) (c : Cell) (cs : List Cell)
    → length cs < fuel
    → 0 < a
    → Chain m prv a (c ∷ cs) null
    → last_loop fuel m a ≡ some (last_or prv a (c ∷ cs))
unfolding last_loop
last_loop-last_or zero m prv a c cs f pos ch = absurd (omega arith)
last_loop-last_or (suc fuel) m prv a (s, u) [] f pos ch = rw ch.0 refl
last_loop-last_or (suc fuel) m prv a (s, u) (d ∷ cs) f pos ch =
    rw (ch.0, ==_ne (a + s) 0 (omega arith))
      (last_loop-last_or fuel m a (a + s) d cs (omega arith) (omega arith) ch.1)

-- The last block is linked on to `n`.
Chain-relink :
    (m : ℕ → HeapBlock) (prv a n n' : ℕ) (s : ℕ) (u : Bool) (cs : List Cell)
    → Sized ((s, u) ∷ cs)
    → Chain m prv a ((s, u) ∷ cs) n
    → Chain (set_next m (last_or prv a ((s, u) ∷ cs)) n') prv a ((s, u) ∷ cs) n'
Chain-relink m prv a n n' s u [] z c = (rw c.0 (ground arith), tt)
Chain-relink m prv a n n' s u ((t, w) ∷ cs) z c =
    let b = last_or-bounds a (a + s) t w cs z.2 in
    (
      rw (==_ne a (last_or (a + s) (a + s + t) cs) (omega arith)) c.0,
      Chain-relink m a (a + s) n n' t w cs z.2 c.1,
    )

-- Memory with the header of the new block in it, before the last block is known.
abbrev with_new : Heap → ℕ → ℕ → HeapBlock
with_new h amount =
    update h.mem h.end_address (record (h.mem h.end_address) {
      magic = heap_magic;
      size = u32 amount;
      used = 0;
      next = null;
    })

grown_mem : Heap → ℕ → ℕ → ℕ → HeapBlock
grown_mem h amount last =
    set_prev (set_next (with_new h amount) last h.end_address) h.end_address last

with_new-Chain :
    {h : Heap} {cells : List Cell} (amount : ℕ)
    → Holds h cells
    → Chain (with_new h amount) null heap_start_address cells null
with_new-Chain {h} {cells} amount v =
    Chain-frame h.mem _ null heap_start_address cells null v.sized
      (λ b lo hi. rw (==_ne b h.end_address (omega (arith, v.end_at))) refl) v.chain

expand_with-eq :
    {h : Heap} (c : Cell) (cs : List Cell) (amount : ℕ)
    → Holds h (c ∷ cs)
    → expand_with h amount
      ≡ some (
          kprintf (expanded amount (u64 (h.end_address + amount))) (record h {
            mem = grown_mem h amount (last_or null heap_start_address (c ∷ cs));
            end_address = u64 (h.end_address + amount);
            total_blocks = u32 (h.total_blocks + 1);
          }))
unfolding expand_with grown_mem
expand_with-eq {h} c cs amount v =
    let walk = last_loop (h.total_blocks + 1) (with_new h amount) in
    let found : walk h.first_block ≡ some (last_or null heap_start_address (c ∷ cs)) =
      ap walk v.first
      ∙ last_loop-last_or (h.total_blocks + 1) (with_new h amount) null heap_start_address c cs
          (omega (arith, v.count)) (omega arith) (with_new-Chain amount v) in
    rw (found, expand_with) refl

grown_mem-Chain :
    {h : Heap} (s : ℕ) (u : Bool) (cs : List Cell) (amount : ℕ)
    → Holds h ((s, u) ∷ cs)
    → amount < 2 ^ 32
    → Chain
        (grown_mem h amount (last_or null heap_start_address ((s, u) ∷ cs)))
        null
        heap_start_address
        (((s, u) ∷ cs) ++ (amount, false) ∷ [])
        null
unfolding grown_mem
grown_mem-Chain {h} s u cs amount v small =
    let last : ℕ = last_or null heap_start_address ((s, u) ∷ cs) in
    let b = last_or-bounds null heap_start_address s u cs v.sized in
    let e : heap_start_address + total ((s, u) ∷ cs) ≡ h.end_address = omega (arith, v.end_at) in
    let m1 = with_new h amount in
    let wide : u32 amount ≡ amount = omega arith in
    let linked =
      Chain-relink m1 null heap_start_address null h.end_address s u cs v.sized
        (with_new-Chain amount v) in
    Chain-append _ null heap_start_address ((s, u) ∷ cs) ((amount, false) ∷ []) null
      (rw e (
        Chain-frame (set_next m1 last h.end_address) _ null heap_start_address ((s, u) ∷ cs)
          h.end_address v.sized
          (λ b lo hi. rw (==_ne b h.end_address (omega (arith, v.end_at))) refl) linked))
      (rw e (
        rw (==_self h.end_address, ==_ne h.end_address last (omega (arith, v.end_at)), wide) refl,
        tt,
      ))

expand_with-end :
    {h : Heap} {cells : List Cell} (amount : ℕ)
    → Holds h cells
    → (g : Heap) × (expand_with h amount ≡ some g)
      × (g.end_address ≡ u64 (h.end_address + amount))
      × (g.total_blocks ≡ u32 (h.total_blocks + 1))
expand_with-end {cells = []} amount v = absurd (omega (arith, v.some_cell))
expand_with-end {cells = c ∷ cs} amount v = (_, expand_with-eq c cs amount v, refl, refl)

-- Where the end of the heap and the size asked for add up to `2 ^ 64` or more (the size being at
-- most `2 ^ 64 - 8`), the sum wraps round: the check against the maximum passes, a block is added,
-- and the end of the heap moves down.
heap_expand_heap_wraps :
    {h : Heap} {cells : List Cell} (size : ℕ)
    → Holds h cells
    → 2 ^ 64 ≤ size + h.end_address
    → size + 8 ≤ 2 ^ 64
    → (g : Heap) × (heap_expand_heap h size ≡ some g)
      × (g.end_address < h.end_address)
      × (g.total_blocks ≡ h.total_blocks + 1)
unfolding heap_expand_heap
heap_expand_heap_wraps {h} size v huge fits =
    let amount : (expand_size size ≡ (size + 7) / 8 * 8) =
      unfold expand_size heap_align in ground (arith, v.end_at, v.bounded) in
    let passes : ltb h.max_address (u64 (h.end_address + expand_size size)) ≡ false =
      ground (arith, amount, v.end_at, v.bounded, v.limit) in
    let (g, done, at, blocks) = expand_with-end (expand_size size) v in
    rw passes
      (g, done, omega (arith, amount, v.end_at, v.bounded), omega (arith, length-lt v, v.count))

-- `expand_with` puts a free block of `amount` bytes behind the others.
expand_with-Holds :
    {h : Heap} {cells : List Cell} (amount : ℕ)
    → Holds h cells
    → header_size ≤ amount
    → amount % 8 ≡ 0
    → total cells + amount ≤ heap_max_size
    → (g : Heap) × (expand_with h amount ≡ some g)
      × Holds g (cells ++ (amount, false) ∷ [])
      × (g.used_blocks ≡ h.used_blocks)
expand_with-Holds {h} {cells = []} amount v lo even fit = absurd (omega (arith, v.some_cell))
expand_with-Holds {h} {cells = (s, u) ∷ cs} amount v lo even fit = (
  _,
  expand_with-eq (s, u) cs amount v,
  record {
    start = v.start;
    limit = v.limit;
    first = v.first;
    some_cell = omega arith;
    chain = grown_mem-Chain s u cs amount v (omega arith);
    sized = Sized-append ((s, u) ∷ cs) ((amount, false) ∷ []) v.sized (lo, even, tt);
    end_at = omega (arith, v.end_at, total-append cs ((amount, false) ∷ []));
    bounded = omega (arith, total-append cs ((amount, false) ∷ []));
    count = omega (arith, v.count, length-lt v, length-append cs ((amount, false) ∷ []));
  },
  refl,
)

-- On a heap that holds a list of cells, `heap_expand_heap` of a size below `2 ^ 63` ends. Where the
-- rounded size still fits below the maximum it adds one free cell of that size at the end; where
-- not, it only logs the failure.
pub heap_expand_heap_lem :
    {h : Heap} {cells : List Cell} (size : ℕ)
    → Holds h cells
    → size < 2 ^ 63
    → (g : Heap) × (heap_expand_heap h size ≡ some g)
      × (if ltb heap_max_size (total cells + expand_size size)
          then g ≡ kprintf expansion_failed h
          else Holds g (cells ++ (expand_size size, false) ∷ []))
unfolding heap_expand_heap
heap_expand_heap_lem {h} {cells} size v small =
    let bounds = expand_size_bounds size small in
    let same : ltb h.max_address (u64 (h.end_address + expand_size size))
        ≡ ltb heap_max_size (total cells + expand_size size) =
      ground (arith, bounds, v.end_at, v.limit, v.bounded) in
    elim (Bool-cases (ltb heap_max_size (total cells + expand_size size))) [
      | inl over ↦ rw (same, over) (_, refl, refl)
      | inr within ↦
          let (g, done, w, kept) =
            expand_with-Holds (expand_size size) v (omega arith) bounds.2 (ground arith) in
          rw (same, within) (g, done, w)
    ]
