-- ===== src/Paging/Walk.antt =====
-- The walk through the tables that the processor makes, and what it finds after `paging_init`.
use alphix.Base.{
  ℕ, ◌+◌, ◌*◌, ◌/◌, ◌%◌, ◌^◌, ◌<◌, ◌≡◌, ◌≢◌, refl, sym, ◌∙◌, ap, Bool, true, false, not, inl, inr,
  Option, none, some, arith, ltb, ◌==◌, ==_iff, ==_ne, if◌then◌else◌, Bool-cases, ltb→lt, lt→ltb,
}
use alphix.Paging.{Words, Paging, paging_init}
use alphix.Paging.Entries.{Tables, entry_top, entry_pdpt, entry_page}

-- An entry of a table: whether it is present, whether it is a page itself, and its address.
abbrev pub present : ℕ → Bool
present e = e % 2 == 1

abbrev is_page : ℕ → Bool
is_page e = e / 2 ^ 7 % 2 == 1

abbrev pub base : ℕ → ℕ
base e = e / 2 ^ 12 % 2 ^ 40 * 2 ^ 12

-- The word of the table at `p` that nine bits of an address choose, from bit `2 ^ n` on.
abbrev index : ℕ → ℕ → ℕ
index v unit = v / unit % 512

-- 4-level paging of the architecture, for a 48-bit address; `none` is a page fault.
last_level : Words → ℕ → ℕ → Option ℕ
last_level m e v =
    let e1 = m (base e + 8 * index v (2 ^ 12)) in
    if present e1 then some (base e1 + v % 2 ^ 12) else none

level2 : Words → ℕ → ℕ → Option ℕ
level2 m e v =
    let e2 = m (base e + 8 * index v (2 ^ 21)) in
    if not (present e2)
    then none
    else if is_page e2
    then some (base e2 / 2 ^ 21 * 2 ^ 21 + v % 2 ^ 21)
    else last_level m e2 v

level3 : Words → ℕ → ℕ → Option ℕ
level3 m e v =
    let e3 = m (base e + 8 * index v (2 ^ 30)) in
    if not (present e3)
    then none
    else if is_page e3
    then some (base e3 / 2 ^ 30 * 2 ^ 30 + v % 2 ^ 30)
    else level2 m e3 v

pub translate : Words → ℕ → ℕ → Option ℕ
translate m cr3 v =
    let e4 = m (base cr3 + 8 * index v (2 ^ 39)) in if present e4 then level3 m e4 v else none

module _ (table : ℕ → ℕ) (ok : Tables table) (c : Paging) where
  abbrev words : Words
  words = (paging_init table c).words

  base_link : (t : ℕ) → t < 6 → base (table t + 3) ≡ table t
  base_link t lt = omega (arith, ok.aligned t lt, ok.small t lt)

  level2-identity : (j v : ℕ) → j < 4 → v / 2 ^ 30 ≡ j → level2 words (table (2 + j) + 3) v ≡ some v
  unfolding level2
  level2-identity j v hj at =
      let i : ℕ = index v (2 ^ 21) in
      let page : words (base (table (2 + j) + 3) + 8 * i) ≡ (j * 512 + i) * 0x200000 + 131 =
        ap (λ p. words (p + 8 * i)) (base_link (2 + j) (omega arith))
        ∙ entry_page table ok c j i hj (omega arith) in
      let here : present ((j * 512 + i) * 0x200000 + 131) ≡ true = ground arith in
      let large : is_page ((j * 512 + i) * 0x200000 + 131) ≡ true = ground arith in
      rw (page, here, large) (ap some (omega (arith, at)))

  level3-identity :
      (v : ℕ)
      → v < 2 ^ 39
      → level3 words (table 1 + 3) v ≡ (if ltb v (2 ^ 32) then some v else none)
  unfolding level3
  level3-identity v hv =
      let i : ℕ = index v (2 ^ 30) in
      let i_v : i ≡ v / 2 ^ 30 = omega arith in
      let read : words (base (table 1 + 3) + 8 * i) ≡ (if ltb i 4 then table (2 + i) + 3 else 0) =
        ap (λ p. words (p + 8 * i)) (base_link 1 (omega arith))
        ∙ entry_pdpt table ok c i (omega arith) in
      elim (Bool-cases (ltb v (2 ^ 32))) [
        | inl low ↦
            let few : i < 4 = omega (arith, i_v, ltb→lt v (2 ^ 32) low) in
            let link : words (base (table 1 + 3) + 8 * i) ≡ table (2 + i) + 3 =
              read ∙ rw (lt→ltb i 4 few) refl in
            let bits = ok.aligned (2 + i) (omega arith) in
            let here : present (table (2 + i) + 3) ≡ true =
              (==_iff ((table (2 + i) + 3) % 2) 1).1 (omega (arith, bits)) in
            let not_page : is_page (table (2 + i) + 3) ≡ false =
              ==_ne ((table (2 + i) + 3) / 2 ^ 7 % 2) 1 (omega (arith, bits)) in
            rw (link, low, here, not_page) (level2-identity i v few (sym i_v))
        | inr high ↦
            let many : ltb i 4 ≡ false = ground (arith, i_v) in
            let nothing : words (base (table 1 + 3) + 8 * i) ≡ 0 = read ∙ rw many refl in
            rw (nothing, high) refl
      ]

  -- With the six tables apart, aligned and in the 52 bits of a physical address, the tables that
  -- `paging_init` leaves map every address of 48 bits below 4 GB to itself, and no other; `cr3`
  -- points to them.
  pub paging_init_lem :
      (v : ℕ)
      → v < 2 ^ 48
      → translate words (paging_init table c).cr3 v ≡ (if ltb v (2 ^ 32) then some v else none)
  unfolding translate
  paging_init_lem v hv =
      let i : ℕ = index v (2 ^ 39) in
      let root : base (paging_init table c).cr3 ≡ table 0 =
        unfold paging_init in omega (arith, ok.aligned 0 (omega arith), ok.small 0 (omega arith)) in
      let read : words (base (paging_init table c).cr3 + 8 * i)
          ≡ (if i == 0 then table 1 + 3 else 0) =
        ap (λ p. words (p + 8 * i)) root ∙ entry_top table ok c i (omega arith) in
      elim (Bool-cases (i == 0)) [
        | inl zeroth ↦
            let i_zero : i ≡ 0 = (==_iff i 0).0 zeroth in
            let link : words (base (paging_init table c).cr3 + 8 * i) ≡ table 1 + 3 =
              read ∙ rw zeroth refl in
            let here : present (table 1 + 3) ≡ true =
              (==_iff ((table 1 + 3) % 2) 1).1 (omega (arith, ok.aligned 1 (omega arith))) in
            rw (link, here) (level3-identity v (omega (arith, i_zero)))
        | inr later ↦
            let i_pos : i ≢ 0 = ground arith in
            let high : ltb v (2 ^ 32) ≡ false = ground (arith, i_pos) in
            let nothing : words (base (paging_init table c).cr3 + 8 * i) ≡ 0 =
              read ∙ rw later refl in
            rw (nothing, high) refl
      ]
