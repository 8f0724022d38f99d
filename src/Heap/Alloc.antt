-- ===== src/Heap/Alloc.antt =====
-- `kmalloc` against an allocator on the list of cells.
use alphix.Base.{
  ℕ, ◌+◌, ◌-◌, ◌^◌, ◌≤◌, ◌<◌, ◌≡◌, ◌≢◌, refl, ap, true, false, not, ◌&&◌, inl, inr, Option, some,
  List, [], ◌∷◌, ◌++◌, arith, ltb, leb, ◌==◌, ==_ne, if◌then◌else◌, Bool-cases, ltb→lt,
}
use alphix.Heap.{
  Heap, heap_start_address, heap_max_size, header_size, null, u32, u64, total_size, kprintf,
  out_of_memory, expansion_failed, expand_size, heap_split_block, take_block, retry,
  expand_and_retry, kmalloc,
}
use alphix.Heap.Chain.{Cell, total}
use alphix.Heap.Inv.{Holds, Holds-IsAt, Holds-ignores}
use alphix.Heap.Find.{first_fit, Unfit, Found, missing, hit, first_fit-Found, find-first_fit}
use alphix.Heap.Split.{split-Holds, split_whole}
use alphix.Heap.Expand.{heap_expand_heap_lem}

-- The cells after the first fit for `t` bytes is taken: cut in two where 64 bytes are left over,
-- and left as it is where not.
pub place : ℕ → List Cell → List Cell
place t [] = []
place t ((s, u) ∷ cs) =
    if not u && leb t s
    then (if ltb s (t + 64) then (s, u) ∷ cs else (t, true) ∷ (s - t, false) ∷ cs)
    else (s, u) ∷ place t cs

unfoldable pub serve : ℕ → List Cell → ℕ × List Cell
serve t cells =
    if first_fit t heap_start_address cells == null
    then (null, cells)
    else (first_fit t heap_start_address cells + header_size, place t cells)

unfoldable pub grow : ℕ → List Cell → List Cell
grow amount cells =
    if ltb heap_max_size (total cells + amount) then cells else cells ++ (amount, false) ∷ []

-- What `kmalloc` does, said of the cells alone: the pointer it returns, and the cells it leaves.
unfoldable pub allocate : ℕ → List Cell → ℕ × List Cell
allocate size cells =
    if size == 0
    then (null, cells)
    else if first_fit (total_size size) heap_start_address cells == null
    then serve (total_size size) (grow (expand_size size) cells)
    else serve (total_size size) cells

-- A run of `kmalloc` ends, with this pointer, and in a heap that holds these cells.
pub record Gives (cells : List Cell) (ptr : ℕ) (run : Option (ℕ × Heap)) : Type 0 where
  pub heap : Heap
  pub ends : run ≡ some (ptr, heap)
  pub holds : Holds heap cells

place-Unfit :
    (t s : ℕ) (xs ys : List Cell)
    → Unfit t xs
    → t ≤ s
    → place t (xs ++ (s, false) ∷ ys)
      ≡ xs ++ (if ltb s (t + 64) then (s, false) ∷ ys else (t, true) ∷ (s - t, false) ∷ ys)
unfolding place
place-Unfit t s [] ys no_fit large = ground arith
place-Unfit t s ((r, true) ∷ xs) ys no_fit large =
    ap (λ l. (r, true) ∷ l) (place-Unfit t s xs ys no_fit.1 large)
place-Unfit t s ((r, false) ∷ xs) ys no_fit large =
    ground (arith, place-Unfit t s xs ys no_fit.1 large)

first_fit-Unfit :
    (t a s : ℕ) (xs ys : List Cell)
    → Unfit t xs
    → t ≤ s
    → first_fit t a (xs ++ (s, false) ∷ ys) ≡ a + total xs
unfolding first_fit
first_fit-Unfit t a s [] ys no_fit large = ground arith
first_fit-Unfit t a s ((r, true) ∷ xs) ys no_fit large =
    omega (arith, first_fit-Unfit t (a + r) s xs ys no_fit.1 large)
first_fit-Unfit t a s ((r, false) ∷ xs) ys no_fit large =
    ground (arith, first_fit-Unfit t (a + r) s xs ys no_fit.1 large)

-- A request that the cell behind `xs` is the first to fit.
pub allocate-Unfit :
    (size s : ℕ) (xs ys : List Cell)
    → size ≢ 0
    → Unfit (total_size size) xs
    → total_size size ≤ s
    → allocate size (xs ++ (s, false) ∷ ys) ≡ (
      heap_start_address + total xs + header_size,
      xs
          ++ (if ltb s (total_size size + 64)
              then (s, false) ∷ ys
              else (total_size size, true) ∷ (s - total_size size, false) ∷ ys),
    )
unfolding allocate serve
allocate-Unfit size s xs ys ne no_fit large =
    let t : ℕ = total_size size in
    rw
      (
        ==_ne size 0 ne,
        first_fit-Unfit t heap_start_address s xs ys no_fit large,
        ==_ne (heap_start_address + total xs) 0 (omega arith),
        place-Unfit t s xs ys no_fit large,
      )
      refl

take-Gives :
    {h : Heap} (xs : List Cell) (s : ℕ) (ys : List Cell) (size : ℕ)
    → Holds h (xs ++ (s, false) ∷ ys)
    → size < 2 ^ 63
    → Unfit (total_size size) xs
    → total_size size ≤ s
    → Gives
        (place (total_size size) (xs ++ (s, false) ∷ ys))
        (heap_start_address + total xs + header_size)
        (some (take_block h (heap_start_address + total xs) size))
unfolding take_block
take-Gives {h} xs s ys size v small no_fit large =
    let at = Holds-IsAt xs s false ys v in
    let wrap : u64 (heap_start_address + total xs + header_size)
        ≡ heap_start_address + total xs + header_size =
      omega (arith, at.bounded) in
    elim (Bool-cases (ltb s (total_size size + 64))) [
      | inl tight ↦
          rw (place-Unfit (total_size size) s xs ys no_fit large, tight)
            (record {
              heap = record h { used_blocks = u32 (h.used_blocks + 1) };
              ends = rw (split_whole xs s false ys size v small (ltb→lt _ _ tight), wrap) refl;
              holds = Holds-ignores _ h.log v;
            })
      | inr roomy ↦
          let cut = split-Holds xs s false ys size v small (ground arith) in
          let g : Heap = (heap_split_block h (heap_start_address + total xs) size).1 in
          rw (place-Unfit (total_size size) s xs ys no_fit large, roomy)
            (record {
              heap = record g { used_blocks = u32 (g.used_blocks + 1) };
              ends = rw (cut.0, wrap) refl;
              holds = Holds-ignores _ g.log cut.1;
            })
    ]

find-Gives :
    {h : Heap} {cells : List Cell} (size p : ℕ)
    → Holds h cells
    → size < 2 ^ 63
    → Found (total_size size) heap_start_address p cells
    → p ≢ null
    → Gives (place (total_size size) cells) (p + header_size) (some (take_block h p size))
find-Gives size p v small (missing e no_fit) ne = absurd (ne e)
find-Gives {h} size p v small (hit xs s ys e no_fit large at) ne =
    rw (e, at) (take-Gives xs s ys size (rw e at v) small no_fit large)

retry-Gives :
    {h : Heap} {cells : List Cell} (size : ℕ)
    → Holds h cells
    → size < 2 ^ 63
    → let (p, cells') = serve (total_size size) cells in Gives cells' p (retry h size)
unfolding retry serve
retry-Gives {h} {cells} size v small =
    let p : ℕ = first_fit (total_size size) heap_start_address cells in
    elim (Bool-cases (p == null)) [
      | inl none_fits ↦
          rw (find-first_fit size v, retry, serve, none_fits)
            (record {
              heap = kprintf (out_of_memory size) h;
              ends = refl;
              holds = Holds-ignores h.used_blocks _ v;
            })
      | inr found ↦
          rw (find-first_fit size v, retry, serve, found)
            (find-Gives size p v small (first_fit-Found (total_size size) heap_start_address cells)
              (ground arith))
    ]

expand_and_retry-Gives :
    {h : Heap} {cells : List Cell} (size : ℕ)
    → Holds h cells
    → size < 2 ^ 63
    → let (p, cells') = serve (total_size size) (grow (expand_size size) cells) in
      Gives cells' p (expand_and_retry h size)
unfolding expand_and_retry grow
expand_and_retry-Gives {h} {cells} size v small =
    let (g, done, after) = heap_expand_heap_lem size v small in
    elim (Bool-cases (ltb heap_max_size (total cells + expand_size size))) [
      | inl over ↦
          let e : g ≡ kprintf expansion_failed h = rw over at after in
          rw (done, expand_and_retry, e, grow, over)
            (retry-Gives size (Holds-ignores h.used_blocks _ v) small)
      | inr within ↦
          let w : Holds g (cells ++ (expand_size size, false) ∷ []) = rw within at after in
          rw (done, expand_and_retry, grow, within) (retry-Gives size w small)
    ]

-- On a heap that holds a list of cells, `kmalloc` ends for any request below `2 ^ 63`, returns the
-- pointer that `allocate` gives, and leaves a heap that holds the cells of `allocate`.
pub kmalloc_refines :
    {h : Heap} {cells : List Cell} (size : ℕ)
    → Holds h cells
    → size < 2 ^ 63
    → let (p, cells') = allocate size cells in Gives cells' p (kmalloc h size)
unfolding kmalloc allocate serve
kmalloc_refines {h} {cells} size v small = elim (Bool-cases (size == 0)) [
  | inl nothing ↦ rw nothing (record { heap = h; ends = refl; holds = v })
  | inr wanted ↦ elim (Bool-cases (first_fit (total_size size) heap_start_address cells == null)) [
    | inl none_fits ↦
        rw (find-first_fit size v, kmalloc, wanted, none_fits) (expand_and_retry-Gives size v small)
    | inr found ↦
        rw (find-first_fit size v, kmalloc, wanted, serve, found)
          (find-Gives size _ v small (first_fit-Found (total_size size) heap_start_address cells)
            (ground arith))
  ]
]
