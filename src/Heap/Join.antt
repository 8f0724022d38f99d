-- ===== src/Heap/Join.antt =====
-- The two halves of `heap_merge_adjacent_blocks`: a block and the one behind it become one.
use alphix.Base.{
  ℕ, ◌+◌, ◌-◌, ◌^◌, ◌<◌, ◌≡◌, refl, Bool, true, false, List, [], ◌∷◌, arith, ==_self, ==_ne,
}
use alphix.Heap.{Heap, HeapBlock, null, update, u32, merge_next, merge_prev}
use alphix.Heap.Chain.{Cell, header, head_or, Chain, Sized, Chain-frame}

-- Memory after the block of `t` bytes has joined the block of `s` bytes at `a`, before the cells
-- `cs`.
abbrev pub joined : (ℕ → HeapBlock) → ℕ → ℕ → ℕ → ℕ → Bool → List Cell → ℕ → HeapBlock
joined m prv a s t u [] =
    update (update m a (header (s + t) u prv (a + s))) a (header (s + t) u prv null)
joined m prv a s t u ((r, w) ∷ zs) =
    update (update (update m a (header (s + t) u prv (a + s))) a (header (s + t) u prv (a + s + t)))
      (a + s + t) (header r w a (head_or (a + s + t + r) zs null))

abbrev pub drop_block : Heap → (ℕ → HeapBlock) → Heap
drop_block h m = record h { mem = m; total_blocks = u32 (h.total_blocks + (2 ^ 32 - 1)) }

module _ (h : Heap) (prv a s t : ℕ) (h32 : s + t < 2 ^ 32) (pos : 0 < a) (wide : 0 < s)
    (wide' : 0 < t) where
  pub merge_next-joined :
      (u : Bool) (cs : List Cell)
      → Chain h.mem prv a ((s, u) ∷ (t, false) ∷ cs) null
      → merge_next h a ≡ drop_block h (joined h.mem prv a s t u cs)
  unfolding merge_next
  merge_next-joined u [] c =
      let e1 : u32 (s + t) ≡ s + t = omega arith in
      let e2 = ==_ne (a + s) (0) (omega arith) in
      let e3 = ==_ne (a + s) (a) (omega arith) in rw (c.0, c.1.0, e1, e2, e3, ==_self a) refl
  merge_next-joined u ((r, w) ∷ zs) c =
      let e1 : u32 (s + t) ≡ s + t = omega arith in
      let e2 = ==_ne (a + s) (0) (omega arith) in
      let e3 = ==_ne (a + s) (a) (omega arith) in
      let e4 = ==_ne (a + s + t) (0) (omega arith) in
      let e5 = ==_ne (a + s + t) (a) (omega arith) in
      rw (c.0, c.1.0, e1, e2, e3, ==_self a, e4, e5, c.1.1.0) refl

  pub merge_prev-joined :
      (v : Bool) (cs : List Cell)
      → Chain h.mem prv a ((s, false) ∷ (t, v) ∷ cs) null
      → merge_prev h (a + s) ≡ drop_block h (joined h.mem prv a s t false cs)
  unfolding merge_prev
  merge_prev-joined v [] c =
      let e1 : u32 (s + t) ≡ s + t = omega arith in
      let e2 = ==_ne (a) (0) (omega arith) in
      let e3 = ==_ne (a + s) (a) (omega arith) in rw (c.1.0, e2, c.0, e1, e3, ==_self a) refl
  merge_prev-joined v ((r, w) ∷ zs) c =
      let e1 : u32 (s + t) ≡ s + t = omega arith in
      let e2 = ==_ne (a) (0) (omega arith) in
      let e3 = ==_ne (a + s) (a) (omega arith) in
      let e4 = ==_ne (a + s + t) (0) (omega arith) in
      let e5 = ==_ne (a + s + t) (a) (omega arith) in
      rw (c.1.0, e2, c.0, e1, e3, ==_self a, e4, e5, c.1.1.0) refl

  pub joined-Chain :
      (u v : Bool) (cs : List Cell)
      → Sized cs
      → Chain h.mem prv a ((s, u) ∷ (t, v) ∷ cs) null
      → Chain (joined h.mem prv a s t u cs) prv a ((s + t, u) ∷ cs) null
  joined-Chain u v [] z c = (ground arith, tt)
  joined-Chain u v ((r, w) ∷ zs) z c =
      let e : a + (s + t) ≡ a + s + t = omega arith in
      rw e (
        ground arith,
        (
          ground arith,
          Chain-frame h.mem _ (a + s + t) (a + s + t + r) zs null z.2 (λ b lo hi. ground arith)
              c.1.1.1,
        ),
      )

  pub joined-below :
      (u : Bool) (cs : List Cell) (b : ℕ) → b < a → joined h.mem prv a s t u cs b ≡ h.mem b
  joined-below u [] b lo = ground arith
  joined-below u ((r, w) ∷ zs) b lo = ground arith

module _ (h : Heap) (a s : ℕ) (pos : 0 < a) (wide : 0 < s) where
  pub merge_next-end :
      (prv : ℕ) (u : Bool) → Chain h.mem prv a ((s, u) ∷ []) null → merge_next h a ≡ h
  unfolding merge_next
  merge_next-end prv u c = rw c.0 refl

  pub merge_next-used :
      (prv t : ℕ) (u : Bool) (cs : List Cell)
      → Chain h.mem prv a ((s, u) ∷ (t, true) ∷ cs) null
      → merge_next h a ≡ h
  unfolding merge_next
  merge_next-used prv t u cs c = rw (c.0, c.1.0, ==_ne (a + s) 0 (omega arith)) refl

  pub merge_prev-start :
      (u : Bool) (cs : List Cell) → Chain h.mem null a ((s, u) ∷ cs) null → merge_prev h a ≡ h
  unfolding merge_prev
  merge_prev-start u cs c = rw c.0 refl

  pub merge_prev-used :
      (prv t : ℕ) (v : Bool) (cs : List Cell)
      → Chain h.mem prv a ((s, true) ∷ (t, v) ∷ cs) null
      → merge_prev h (a + s) ≡ h
  unfolding merge_prev
  merge_prev-used prv t v cs c = rw (c.1.0, ==_ne a 0 (omega arith), c.0) refl
