-- ===== src/Paging/Entries.antt =====
-- The entries of the tables, as `paging_init` writes them.
use alphix.Base.{
  ℕ, zero, suc, ◌+◌, ◌-◌, ◌*◌, ◌%◌, ◌^◌, ◌≤◌, ◌<◌, ◌≡◌, ◌≢◌, refl, ◌∙◌, ap, true, false, ◌&&◌, inl,
  inr, arith, ltb, leb, ◌==◌, ==_iff, ==_ne, if◌then◌else◌, Bool-cases, bit_or-one, bit_or_two,
  bit_or_128,
}
use alphix.Paging.{
  Words, put, clear, link, large_page, fill, fill_all, links, cleared, Paging, paging_init,
}

-- Six tables of 4096 bytes, aligned and one beside the other, in the 52 bits of a physical address.
pub record Tables (table : ℕ → ℕ) : Type 0 where
  pub aligned : (t : ℕ) → t < 6 → table t % 4096 ≡ 0
  pub small : (t : ℕ) → t < 6 → table t < 2 ^ 52
  pub apart : (t u : ℕ) → t < 6 → u < 6 → t ≢ u → table t ≢ table u

large_page_lem : (table : ℕ → ℕ) (n : ℕ) → large_page table n ≡ n * 0x200000 + 131
unfolding large_page
large_page_lem table n =
    rw
      (
        bit_or-one (n * 0x200000) (omega arith),
        bit_or_two (n * 0x200000 + 1) (omega arith),
        bit_or_128 (n * 0x200000 + 1 + 2) (omega arith),
      )
      (omega arith)

module _ (table : ℕ → ℕ) (ok : Tables table) where
  pub link_lem : (t : ℕ) → t < 6 → link table t ≡ table t + 3
  unfolding link
  link_lem t lt =
      rw
        (
          bit_or-one (table t) (omega (arith, ok.aligned t lt)),
          bit_or_two (table t + 1) (omega (arith, ok.aligned t lt)),
        )
        (omega arith)

  -- The entry number `k` of a table.
  abbrev pub entry : Words → ℕ → ℕ → ℕ
  entry m t k = m (table t + 8 * k)

  entry-put :
      (m : Words) (t k w u l : ℕ)
      → t < 6
      → u < 6
      → k < 512
      → l < 512
      → entry (put table m t k w) u l ≡ (if (t == u) && (k == l) then w else entry m u l)
  entry-put m t k w u l ht hu hk hl = elim (Bool-cases (t == u)) [
    | inl same ↦
        let e : table t ≡ table u = ap table ((==_iff t u).0 same) in
        elim (Bool-cases (k == l)) [
          | inl here ↦
              let k_l : k ≡ l = ground arith in
              let hit : (table u + 8 * l == table t + 8 * k) ≡ true = ground (arith, e, k_l) in
              rw (same, here, hit) refl
          | inr elsewhere ↦
              let miss : (table u + 8 * l == table t + 8 * k) ≡ false = ground (arith, e) in
              rw (same, elsewhere, miss) refl
        ]
    | inr other ↦
        let ne : t ≢ u = ground arith in
        let far : (table u + 8 * l == table t + 8 * k) ≡ false =
          ==_ne (table u + 8 * l) (table t + 8 * k)
            (omega (arith, ok.aligned t ht, ok.aligned u hu, ok.apart t u ht hu ne)) in
        rw (other, far) refl
  ]

  entry-clear :
      (left t : ℕ) (m : Words) (u l : ℕ)
      → t < 6
      → u < 6
      → left ≤ 512
      → l < 512
      → entry (clear table left t m) u l ≡ (if (t == u) && ltb l left then 0 else entry m u l)
  unfolding clear
  entry-clear zero t m u l ht hu le hl =
      let none_left : ltb l 0 ≡ false = ground arith in
      elim (Bool-cases (t == u)) [ inl e ↦ rw (e, none_left) refl | inr e ↦ rw e refl ]
  entry-clear (suc left) t m u l ht hu le hl =
      entry-clear left t (put table m t left 0) u l ht hu (omega arith) hl
      ∙ rw (entry-put m t left 0 u l ht hu (omega arith) hl) (ground arith)

  entry-fill :
      (left j i : ℕ) (m : Words) (u l : ℕ)
      → j < 4
      → u < 6
      → i + left ≤ 512
      → l < 512
      → entry (fill table left j i m) u l ≡ (
          if (2 + j == u) && (leb i l && ltb l (i + left))
          then (j * 512 + l) * 0x200000 + 131
          else entry m u l)
  unfolding fill
  entry-fill zero j i m u l hj hu le hl =
      let none_left : (leb i l && ltb l (i + 0)) ≡ false = ground arith in
      elim (Bool-cases (2 + j == u)) [ inl e ↦ rw (e, none_left) refl | inr e ↦ rw e refl ]
  entry-fill (suc left) j i m u l hj hu le hl =
      entry-fill left j (i + 1) (put table m (2 + j) i (large_page table (j * 512 + i))) u l hj hu
        (omega arith) hl
      ∙ rw
          (
            entry-put m (2 + j) i (large_page table (j * 512 + i)) u l (omega arith) hu
                (omega arith) hl,
            large_page_lem table (j * 512 + i),
          )
          (ground arith)

  entry-fill_all :
      (left j : ℕ) (m : Words) (u l : ℕ)
      → j + left ≤ 4
      → u < 6
      → l < 512
      → entry (fill_all table left j m) u l ≡ (
          if leb (2 + j) u && ltb u (2 + j + left)
          then ((u - 2) * 512 + l) * 0x200000 + 131
          else entry m u l)
  unfolding fill_all
  entry-fill_all zero j m u l le hu hl = ground arith
  entry-fill_all (suc left) j m u l le hu hl =
      entry-fill_all left (j + 1) (fill table 512 j 0 m) u l (omega arith) hu hl
      ∙ rw (entry-fill 512 j 0 m u l (omega arith) hu (omega arith) hl) (ground arith)

  entry-clear_all :
      (t : ℕ) (m : Words) (u l : ℕ)
      → t < 6
      → u < 6
      → l < 512
      → entry (clear table 512 t m) u l ≡ (if t == u then 0 else entry m u l)
  entry-clear_all t m u l ht hu hl = entry-clear 512 t m u l ht hu (omega arith) hl ∙ ground arith

  entry-cleared : (m : Words) (u l : ℕ) → u < 6 → l < 512 → entry (cleared table m) u l ≡ 0
  unfolding cleared
  entry-cleared m u l hu hl =
      let m0 = clear table 512 0 m in
      let m1 = clear table 512 1 m0 in
      let m2 = clear table 512 2 m1 in
      let m3 = clear table 512 3 m2 in
      let m4 = clear table 512 4 m3 in
      ground (
        arith,
        entry-clear_all 0 m u l (omega arith) hu hl,
        entry-clear_all 1 m0 u l (omega arith) hu hl,
        entry-clear_all 2 m1 u l (omega arith) hu hl,
        entry-clear_all 3 m2 u l (omega arith) hu hl,
        entry-clear_all 4 m3 u l (omega arith) hu hl,
        entry-clear_all 5 m4 u l (omega arith) hu hl,
      )

  entry-links :
      (m : Words) (u l : ℕ)
      → u < 6
      → l < 512
      → entry (links table m) u l ≡ (
          if (u == 0) && (l == 0)
          then table 1 + 3
          else if (u == 1) && (l == 0)
          then table 2 + 3
          else if (u == 1) && (l == 1)
          then table 3 + 3
          else if (u == 1) && (l == 2)
          then table 4 + 3
          else if (u == 1) && (l == 3)
          then table 5 + 3
          else entry m u l)
  unfolding links
  entry-links m u l hu hl =
      let m0 = put table m 0 0 (link table 1) in
      let m1 = put table m0 1 0 (link table 2) in
      let m2 = put table m1 1 1 (link table 3) in
      let m3 = put table m2 1 2 (link table 4) in
      entry-put m3 1 3 (link table 5) u l (omega arith) hu (omega arith) hl
      ∙ rw
          (
            entry-put m2 1 2 (link table 4) u l (omega arith) hu (omega arith) hl,
            entry-put m1 1 1 (link table 3) u l (omega arith) hu (omega arith) hl,
            entry-put m0 1 0 (link table 2) u l (omega arith) hu (omega arith) hl,
            entry-put m 0 0 (link table 1) u l (omega arith) hu (omega arith) hl,
            link_lem 1 (omega arith),
            link_lem 2 (omega arith),
            link_lem 3 (omega arith),
            link_lem 4 (omega arith),
            link_lem 5 (omega arith),
          )
          (ground arith)

  module _ (c : Paging) where
    abbrev pub after_init : ℕ → ℕ → ℕ
    after_init u l = entry (paging_init table c).words u l

    pub entry_top : (l : ℕ) → l < 512 → after_init 0 l ≡ (if l == 0 then table 1 + 3 else 0)
    unfolding paging_init
    entry_top l hl =
        let m = links table (cleared table c.words) in
        ground (
          arith,
          entry-fill_all 4 0 m 0 l (omega arith) (omega arith) hl,
          entry-links (cleared table c.words) 0 l (omega arith) hl,
          entry-cleared c.words 0 l (omega arith) hl,
        )

    pub entry_pdpt : (l : ℕ) → l < 512 → after_init 1 l ≡ (if ltb l 4 then table (2 + l) + 3 else 0)
    unfolding paging_init
    entry_pdpt l hl =
        let m = links table (cleared table c.words) in
        let base : after_init 1 l ≡ (
            if l == 0
            then table 2 + 3
            else if l == 1
            then table 3 + 3
            else if l == 2
            then table 4 + 3
            else if l == 3
            then table 5 + 3
            else 0) =
          ground (
            arith,
            entry-fill_all 4 0 m 1 l (omega arith) (omega arith) hl,
            entry-links (cleared table c.words) 1 l (omega arith) hl,
            entry-cleared c.words 1 l (omega arith) hl,
          ) in
        let number = λ (k : ℕ) (same : l ≡ k). ap table (ap (λ (n : ℕ). 2 + n) same) in
        base ∙ elim (Bool-cases (l == 0)) [
          | inl e ↦ ground (arith, number 0 ((==_iff l 0).0 e))
          | inr n0 ↦ elim (Bool-cases (l == 1)) [
            | inl e ↦ ground (arith, number 1 ((==_iff l 1).0 e))
            | inr n1 ↦ elim (Bool-cases (l == 2)) [
              | inl e ↦ ground (arith, number 2 ((==_iff l 2).0 e))
              | inr n2 ↦ elim (Bool-cases (l == 3)) [
                | inl e ↦ ground (arith, number 3 ((==_iff l 3).0 e))
                | inr n3 ↦ ground arith
              ]
            ]
          ]
        ]

    pub entry_page :
        (j l : ℕ) → j < 4 → l < 512 → after_init (2 + j) l ≡ (j * 512 + l) * 0x200000 + 131
    unfolding paging_init
    entry_page j l hj hl =
        let m = links table (cleared table c.words) in
        entry-fill_all 4 0 m (2 + j) l (omega arith) (omega arith) hl ∙ ground arith
