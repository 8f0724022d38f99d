-- ===== src/Heap/Free.antt =====
-- `kmfree` gives a used block back, joined with the free blocks on either side of it.
use alphix.Base.{
  ℕ, ◌+◌, ◌-◌, ◌^◌, ◌≡◌, refl, ap, Bool, true, false, List, [], ◌∷◌, ◌++◌, arith, ==_self, ==_ne,
  if◌then◌else◌, length-append,
}
use alphix.Heap.{
  Heap, heap_start_address, header_size, null, update, u32, u64, merge_next, merge_prev,
  heap_merge_adjacent_blocks, kmfree, kprintf, double_free,
}
use alphix.Heap.Chain.{Cell, last_or, total, Chain-frame, total-append}
use mathlib.Core.List.{append_assoc}
use alphix.Heap.Inv.{Holds, Holds-IsAt, Holds-rewrite, Holds-ignores}
use alphix.Heap.Join.{
  merge_next-end, merge_next-used, merge_prev-start, merge_prev-used, merge_next-joined,
  merge_prev-joined, joined, joined-Chain, joined-below,
}

-- The size that a block of `s` bytes before the cells `ys` has once it has joined a free block
-- behind it, and the cells that are then left behind it.
unfoldable pub absorb : ℕ → List Cell → ℕ
absorb s [] = s
absorb s ((t, true) ∷ ys) = s
absorb s ((t, false) ∷ ys) = s + t

unfoldable pub behind : List Cell → List Cell
behind [] = []
behind ((t, true) ∷ ys) = (t, true) ∷ ys
behind ((t, false) ∷ ys) = ys

-- What it makes of the free block at the head of `ys`, behind the cells `xs`.
unfoldable pub join_left : List Cell → ℕ → List Cell → List Cell
join_left [] s ys = (s, false) ∷ ys
join_left ((r, true) ∷ []) s ys = (r, true) ∷ (s, false) ∷ ys
join_left ((r, false) ∷ []) s ys = (r + s, false) ∷ ys
join_left (x ∷ y ∷ xs) s ys = x ∷ join_left (y ∷ xs) s ys

-- The block is free already; the cells behind it are as they were.
merge_next-Holds :
    {h : Heap} (xs : List Cell) (s : ℕ) (ys : List Cell)
    → Holds h (xs ++ (s, false) ∷ ys)
    → Holds (merge_next h (heap_start_address + total xs)) (xs ++ (absorb s ys, false) ∷ behind ys)
unfolding absorb behind
merge_next-Holds {h} xs s [] v =
    let at = Holds-IsAt xs s false [] v in
    let z = at.sized in rw (merge_next-end h _ s (omega arith) (omega arith) _ false at.here) v
merge_next-Holds {h} xs s ((t, true) ∷ ys) v =
    let at = Holds-IsAt xs s false ((t, true) ∷ ys) v in
    let z = at.sized in
    rw (merge_next-used h _ s (omega arith) (omega arith) _ t false ys at.here) v
merge_next-Holds {h} xs s ((t, false) ∷ ys) v =
    let at = Holds-IsAt xs s false ((t, false) ∷ ys) v in
    let a : ℕ = heap_start_address + total xs in
    let p : ℕ = last_or null heap_start_address xs in
    let z = at.sized in
    rw
      (merge_next-joined h p a s t (omega arith) (omega arith) (omega arith) (omega arith) false ys
        at.here)
      (Holds-rewrite xs (s, false) (s + t, false) ((t, false) ∷ ys) ys
        (joined h.mem p a s t false ys) _ v
        (λ b lo.
          joined-below h p a s t (omega arith) (omega arith) (omega arith) (omega arith) false ys b
            lo)
        (joined-Chain h p a s t (omega arith) (omega arith) (omega arith) (omega arith) false false
          ys z.2.2 at.here)
        (omega arith, omega arith, z.2.2) (omega arith)
        (omega (arith, length-append xs ((s + t, false) ∷ ys), at.count, at.few)))

data Snoc : List Cell → Type 0 where
  empty : Snoc []
  snoc : (ws : List Cell) (r : ℕ) (w : Bool) → Snoc (ws ++ (r, w) ∷ [])

Snoc-cons : (c : Cell) {xs : List Cell} → Snoc xs → Snoc (c ∷ xs)
Snoc-cons (r, w) empty = snoc [] r w
Snoc-cons c (snoc ws r w) = snoc (c ∷ ws) r w

Snoc-all : (xs : List Cell) → Snoc xs
Snoc-all [] = empty
Snoc-all (c ∷ xs) = Snoc-cons c (Snoc-all xs)

pub join_left-used :
    (ws : List Cell) (r s : ℕ) (ys : List Cell)
    → join_left (ws ++ (r, true) ∷ []) s ys ≡ (ws ++ (r, true) ∷ []) ++ (s, false) ∷ ys
unfolding join_left
join_left-used [] r s ys = refl
join_left-used (x ∷ []) r s ys = refl
join_left-used (x ∷ y ∷ ws) r s ys = ap (λ l. x ∷ l) (join_left-used (y ∷ ws) r s ys)

join_left-free :
    (ws : List Cell) (r s : ℕ) (ys : List Cell)
    → join_left (ws ++ (r, false) ∷ []) s ys ≡ ws ++ (r + s, false) ∷ ys
unfolding join_left
join_left-free [] r s ys = refl
join_left-free (x ∷ []) r s ys = refl
join_left-free (x ∷ y ∷ ws) r s ys = ap (λ l. x ∷ l) (join_left-free (y ∷ ws) r s ys)

merge_prev-Snoc :
    {h : Heap} {xs : List Cell} (s : ℕ) (ys : List Cell)
    → Snoc xs
    → Holds h (xs ++ (s, false) ∷ ys)
    → Holds (merge_prev h (heap_start_address + total xs)) (join_left xs s ys)
merge_prev-Snoc {h} s ys empty v =
    let at = Holds-IsAt [] s false ys v in
    let z = at.sized in
    unfold join_left in
    rw (merge_prev-start h heap_start_address s (omega arith) (omega arith) false ys at.here) v
merge_prev-Snoc {h} s ys (snoc ws r true) v =
    let v' : Holds h (ws ++ (r, true) ∷ (s, false) ∷ ys) = rw append_assoc at v in
    let at = Holds-IsAt ws r true ((s, false) ∷ ys) v' in
    let z = at.sized in
    let e : heap_start_address + total (ws ++ (r, true) ∷ []) ≡ heap_start_address + total ws + r =
      omega (arith, total-append ws ((r, true) ∷ [])) in
    rw
      (
        join_left-used ws r s ys,
        e,
        merge_prev-used h (heap_start_address + total ws) r (omega arith) (omega arith) _ s false ys
            at.here,
      )
      v
merge_prev-Snoc {h} s ys (snoc ws r false) v =
    let v' : Holds h (ws ++ (r, false) ∷ (s, false) ∷ ys) = rw append_assoc at v in
    let at = Holds-IsAt ws r false ((s, false) ∷ ys) v' in
    let a : ℕ = heap_start_address + total ws in
    let p : ℕ = last_or null heap_start_address ws in
    let z = at.sized in
    let e : heap_start_address + total (ws ++ (r, false) ∷ []) ≡ a + r =
      omega (arith, total-append ws ((r, false) ∷ [])) in
    rw
      (
        join_left-free ws r s ys,
        e,
        merge_prev-joined h p a r s (omega arith) (omega arith) (omega arith) (omega arith) false ys
            at.here,
      )
      (Holds-rewrite ws (r, false) (r + s, false) ((s, false) ∷ ys) ys
        (joined h.mem p a r s false ys) _ v'
        (λ b lo.
          joined-below h p a r s (omega arith) (omega arith) (omega arith) (omega arith) false ys b
            lo)
        (joined-Chain h p a r s (omega arith) (omega arith) (omega arith) (omega arith) false false
          ys z.2.2 at.here)
        (omega arith, omega arith, z.2.2) (omega arith)
        (omega (arith, length-append ws ((r + s, false) ∷ ys), at.count, at.few)))

-- The cells after the block of `s` bytes between `xs` and `ys` is freed.
unfoldable pub released : List Cell → ℕ → List Cell → List Cell
released xs s ys = join_left xs (absorb s ys) (behind ys)

merge-Holds :
    {h : Heap} (xs : List Cell) (s : ℕ) (ys : List Cell)
    → Holds h (xs ++ (s, false) ∷ ys)
    → Holds (heap_merge_adjacent_blocks h (heap_start_address + total xs)) (released xs s ys)
unfolding heap_merge_adjacent_blocks released
merge-Holds xs s ys v =
    merge_prev-Snoc (absorb s ys) (behind ys) (Snoc-all xs) (merge_next-Holds xs s ys v)

-- The header's mark is cleared before the blocks are joined.
abbrev pub unmark : Heap → ℕ → Heap
unmark h a = record h {
  mem = update h.mem a (record (h.mem a) { used = 0 });
  used_blocks = u32 (h.used_blocks + (2 ^ 32 - 1));
}

unmark-Holds :
    {h : Heap} (xs : List Cell) (s : ℕ) (ys : List Cell)
    → Holds h (xs ++ (s, true) ∷ ys)
    → Holds (unmark h (heap_start_address + total xs)) (xs ++ (s, false) ∷ ys)
unmark-Holds {h} xs s ys v =
    let at = Holds-IsAt xs s true ys v in
    let a : ℕ = heap_start_address + total xs in
    let z = at.sized in
    Holds-ignores _ h.log (
      Holds-rewrite xs (s, true) (s, false) ys ys _ h.total_blocks v
        (λ b lo. rw (==_ne b a (omega arith)) refl)
        (
          rw (==_self a, at.here.0) refl,
          Chain-frame h.mem _ a (a + s) ys null z.2 (λ b lo hi. rw (==_ne b a (omega arith)) refl)
              at.here.1,
        )
        z refl (omega (arith, length-append xs ((s, false) ∷ ys), at.count)))

kmfree_step :
    {h : Heap} (xs : List Cell) (s : ℕ) (u : Bool) (ys : List Cell)
    → Holds h (xs ++ (s, u) ∷ ys)
    → let a = heap_start_address + total xs in
      kmfree h (a + header_size)
      ≡ (if u then heap_merge_adjacent_blocks (unmark h a) a else kprintf double_free h)
unfolding kmfree
kmfree_step {h} xs s true ys v =
    let at = Holds-IsAt xs s true ys v in
    let a : ℕ = heap_start_address + total xs in
    let e : u64 (a + header_size + 2 ^ 64 - header_size) ≡ a = omega arith in
    rw (e, ==_ne (a + header_size) 0 (omega arith), at.here.0) refl
kmfree_step {h} xs s false ys v =
    let at = Holds-IsAt xs s false ys v in
    let a : ℕ = heap_start_address + total xs in
    let e : u64 (a + header_size + 2 ^ 64 - header_size) ≡ a = omega arith in
    rw (e, ==_ne (a + header_size) 0 (omega arith), at.here.0) refl

-- `kmfree` of the pointer to a used cell leaves a heap that holds `released` of the cells: the cell
-- is free and one with the free cells on either side of it, every other cell is as it was, and the
-- chain is right in both directions.
pub kmfree-Holds :
    {h : Heap} (xs : List Cell) (s : ℕ) (ys : List Cell)
    → Holds h (xs ++ (s, true) ∷ ys)
    → Holds (kmfree h (heap_start_address + total xs + header_size)) (released xs s ys)
kmfree-Holds {h} xs s ys v =
    rw (kmfree_step xs s true ys v) (merge-Holds xs s ys (unmark-Holds xs s ys v))

-- `kmfree` of the pointer to a cell that is free already logs a double free and changes nothing
-- else.
pub kmfree-free :
    {h : Heap} (xs : List Cell) (s : ℕ) (ys : List Cell)
    → Holds h (xs ++ (s, false) ∷ ys)
    → kmfree h (heap_start_address + total xs + header_size) ≡ kprintf double_free h
kmfree-free xs s ys v = kmfree_step xs s false ys v
