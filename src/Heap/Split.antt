-- ===== src/Heap/Split.antt =====
-- `heap_split_block`: the front of a free block is marked as used, the rest is a new free block.
use alphix.Base.{
  ℕ, ◌+◌, ◌-◌, ◌%◌, ◌^◌, ◌≤◌, ◌<◌, ◌≡◌, refl, Bool, true, false, List, [], ◌∷◌, ◌++◌, arith, ltb,
  ==_self, ==_ne, length-append,
}
use alphix.Heap.{
  update, u32, u64, Heap, HeapBlock, heap_start_address, header_size, null, total_size, split_mem,
  heap_split_block,
}
use alphix.Heap.Chain.{Cell, header, total, Chain, Sized, Chain-frame}
use alphix.Heap.Inv.{Holds, Holds-IsAt, Holds-rewrite}

-- Below `2 ^ 63` nothing wraps: a request takes its size and the header's, rounded up to eight.
pub total_size_bounds :
    (size : ℕ)
    → size < 2 ^ 63
    → (size + header_size ≤ total_size size)
      × (total_size size < size + header_size + 8)
      × (total_size size % 8 ≡ 0)
unfolding total_size
total_size_bounds size h = omega arith

split_mem-last :
    (m : ℕ → HeapBlock) (prv a s t : ℕ) (u : Bool)
    → header_size ≤ t
    → t + 64 ≤ s
    → s < 2 ^ 32
    → a + s < 2 ^ 64
    → m a ≡ header s u prv null
    → split_mem m a t
      ≡ update
          (update (update m (a + t) (header (s - t) false a null)) a (header t true prv null))
          a
          (header t true prv (a + t))
unfolding split_mem
split_mem-last m prv a s t u ht hs h32 h64 c =
    let e1 : u64 (a + t) ≡ a + t = omega arith in
    let e2 : u32 (s + 2 ^ 64 - t) ≡ s - t = omega arith in
    let e3 : u32 t ≡ t = omega arith in
    let e4 = ==_ne (a) (a + t) (omega arith) in rw (c, e1, e2, e3, e4, ==_self a, ==_self a) refl

split_mem-inner :
    (m : ℕ → HeapBlock) (prv a s t r : ℕ) (u w : Bool) (nn : ℕ)
    → header_size ≤ t
    → t + 64 ≤ s
    → s < 2 ^ 32
    → a + s < 2 ^ 64
    → m a ≡ header s u prv (a + s)
    → m (a + s) ≡ header r w a nn
    → split_mem m a t
      ≡ update
          (update
            (update
              (update m (a + t) (header (s - t) false a (a + s)))
              a
              (header t true prv (a + s)))
            (a + s)
            (header r w (a + t) nn))
          a
          (header t true prv (a + t))
unfolding split_mem
split_mem-inner m prv a s t r u w nn ht hs h32 h64 c d =
    let e1 : u64 (a + t) ≡ a + t = omega arith in
    let e2 : u32 (s + 2 ^ 64 - t) ≡ s - t = omega arith in
    let e3 : u32 t ≡ t = omega arith in
    let e4 = ==_ne (a) (a + t) (omega arith) in
    let e5 = ==_ne (a + s) (a) (omega arith) in
    let e6 = ==_ne (a + s) (a + t) (omega arith) in
    let e7 = ==_ne (a + s) (0) (omega arith) in
    let e8 = ==_ne (a) (a + s) (omega arith) in
    rw (c, e1, e2, e3, e4, ==_self a, e7, e5, e6, d, e8, ==_self a) refl

module _ (m : ℕ → HeapBlock) (prv a s t : ℕ) (u : Bool) (ht : header_size ≤ t) (hs : t + 64 ≤ s)
    (h32 : s < 2 ^ 32) (h64 : a + s < 2 ^ 64) where
  split_mem-above :
      (r : ℕ) (w : Bool) (zs : List Cell) (b : ℕ)
      → Chain m prv a ((s, u) ∷ (r, w) ∷ zs) null
      → a + s < b
      → split_mem m a t b ≡ m b
  split_mem-above r w zs b c lo =
      rw (split_mem-inner m prv a s t r u w _ ht hs h32 h64 c.0 c.1.0) (ground arith)

  pub split_mem-Chain :
      (ys : List Cell)
      → Sized ys
      → Chain m prv a ((s, u) ∷ ys) null
      → Chain (split_mem m a t) prv a ((t, true) ∷ (s - t, false) ∷ ys) null
  split_mem-Chain [] z c =
      rw (split_mem-last m prv a s t u ht hs h32 h64 c.0) (ground arith, (ground arith, tt))
  split_mem-Chain ((r, w) ∷ zs) z c =
      let e : a + t + (s - t) ≡ a + s = omega arith in
      rw (split_mem-inner m prv a s t r u w _ ht hs h32 h64 c.0 c.1.0) (
        ground arith,
        (
          rw e (ground arith),
          rw e (
            ground arith,
            Chain-frame m _ (a + s) (a + s + r) zs null z.2
                (λ b lo hi. split_mem-above r w zs b c (omega arith)) c.1.1,
          ),
        ),
      )

  pub split_mem-below :
      (ys : List Cell) (b : ℕ) → Chain m prv a ((s, u) ∷ ys) null → b < a → split_mem m a t b ≡ m b
  split_mem-below [] b c lo = rw (split_mem-last m prv a s t u ht hs h32 h64 c.0) (ground arith)
  split_mem-below ((r, w) ∷ zs) b c lo =
      rw (split_mem-inner m prv a s t r u w _ ht hs h32 h64 c.0 c.1.0) (ground arith)

-- `heap_split_block` of a cell with 64 bytes or more to spare cuts it in two, a used front of the
-- size of the request with its header and a free rest, and leaves every other cell as it is. The
-- request is below `2 ^ 63`.
pub split-Holds :
    {h : Heap} (xs : List Cell) (s : ℕ) (u : Bool) (ys : List Cell) (size : ℕ)
    → Holds h (xs ++ (s, u) ∷ ys)
    → size < 2 ^ 63
    → total_size size + 64 ≤ s
    → let (b, g) = heap_split_block h (heap_start_address + total xs) size in
      (b ≡ heap_start_address + total xs)
      × Holds g (xs ++ (total_size size, true) ∷ (s - total_size size, false) ∷ ys)
unfolding heap_split_block
split-Holds {h} xs s u ys size v hs large =
    let at = Holds-IsAt xs s u ys v in
    let (lo, hi, even) = total_size_bounds size hs in
    let t : ℕ = total_size size in
    let a : ℕ = heap_start_address + total xs in
    let roomy : ltb (h.mem a).size (u64 (t + 64)) ≡ false = rw at.here.0 (ground arith) in
    let z = at.sized in
    let head_fits : header_size ≤ t = omega arith in
    let small : s < 2 ^ 32 = omega arith in
    let low : a + s < 2 ^ 64 = omega arith in
    rw roomy (
      refl,
      Holds-rewrite xs (s, u) (t, true) ys ((s - t, false) ∷ ys) (split_mem h.mem a t)
          (u32 (h.total_blocks + 1)) v
          (λ b below. split_mem-below h.mem _ a s t u head_fits large small low ys b at.here below)
          (split_mem-Chain h.mem _ a s t u head_fits large small low ys z.2 at.here)
          (omega arith, even, (omega arith, omega arith, z.2)) (omega arith)
          (omega (arith, length-append xs ((t, true) ∷ (s - t, false) ∷ ys), at.count, at.few)),
    )

-- A block with less than 64 bytes to spare is left as it is, its mark included.
pub split_whole :
    {h : Heap} (xs : List Cell) (s : ℕ) (u : Bool) (ys : List Cell) (size : ℕ)
    → Holds h (xs ++ (s, u) ∷ ys)
    → size < 2 ^ 63
    → s < total_size size + 64
    → heap_split_block h (heap_start_address + total xs) size ≡ (heap_start_address + total xs, h)
unfolding heap_split_block
split_whole {h} xs s u ys size v hs small =
    let at = Holds-IsAt xs s u ys v in
    let (lo, hi, even) = total_size_bounds size hs in
    let tight : ltb (h.mem (heap_start_address + total xs)).size (u64 (total_size size + 64))
        ≡ true =
      rw at.here.0 (ground arith) in
    rw tight refl
