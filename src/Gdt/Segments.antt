-- ===== src/Gdt/Segments.antt =====
-- What a processor reads in the descriptors of the table.
use alphix.Base.{ℕ, ◌+◌, ◌*◌, ◌/◌, ◌%◌, ◌^◌, ◌<◌, ◌≡◌, ◌≢◌, refl, arith, ==_ne}
use alphix.Gdt.{GdtEntry, gdt_set_entry, gdt_init, gdt_set_tss_entry}

-- The fields of a descriptor, as the processor puts them together.
abbrev pub base32 : GdtEntry → ℕ
base32 e = e.base_low + e.base_mid * 2 ^ 16 + e.base_high * 2 ^ 24

abbrev pub base64 : GdtEntry → GdtEntry → ℕ
base64 low high = base32 low + (high.limit_low + high.base_low * 2 ^ 16) * 2 ^ 32

abbrev pub limit : GdtEntry → ℕ
limit e = e.limit_low + e.flags_limit % 2 ^ 4 * 2 ^ 16

abbrev pub ring : GdtEntry → ℕ
ring e = e.access / 2 ^ 5 % 4

-- The bit that tells code from data, and the bit of 64-bit code.
abbrev pub code_bit : GdtEntry → ℕ
code_bit e = e.access / 2 ^ 3 % 2

abbrev pub long_bit : GdtEntry → ℕ
long_bit e = e.flags_limit / 2 ^ 5 % 2

-- A present segment with base 0.
abbrev pub Segment : ℕ → ℕ → ℕ → GdtEntry → Type 0
Segment r code long e =
    (base32 e ≡ 0)
    × (e.access / 2 ^ 7 ≡ 1)
    × (ring e ≡ r)
    × (code_bit e ≡ code)
    × (long_bit e ≡ long)

-- The table that `gdt_init` and `tss_init` leave, whatever it held: 64-bit code and data of ring 0
-- in the slots 1 and 2, data and 64-bit code of ring 3 in the slots 3 and 4, and in the slots 5 and
-- 6 the descriptor of the task state, from which the processor reads the base (below `2 ^ 64`) and
-- the limit (below `2 ^ 20`) that were given.
pub gdt_init-gdt_set_tss_entry :
    (gdt : ℕ → GdtEntry) (base lim : ℕ)
    → base < 2 ^ 64
    → lim < 2 ^ 20
    → let g = gdt_set_tss_entry (gdt_init gdt) 5 base lim in
      Segment 0 1 1 (g 1)
      × Segment 0 0 0 (g 2)
      × Segment 3 0 0 (g 3)
      × Segment 3 1 1 (g 4)
      × (base64 (g 5) (g 6) ≡ base)
      × (limit (g 5) ≡ lim)
unfolding gdt_init gdt_set_entry gdt_set_tss_entry
gdt_init-gdt_set_tss_entry gdt base lim hb hl = (
  (refl, refl, refl, refl, refl),
  (refl, refl, refl, refl, refl),
  (refl, refl, refl, refl, refl),
  (refl, refl, refl, refl, refl),
  omega arith,
  omega arith,
)

-- `gdt_set_tss_entry` writes two slots and no other.
gdt_set_tss_entry-other :
    (gdt : ℕ → GdtEntry) (idx base lim i : ℕ)
    → i ≢ idx
    → i ≢ idx + 1
    → gdt_set_tss_entry gdt idx base lim i ≡ gdt i
unfolding gdt_set_tss_entry
gdt_set_tss_entry-other gdt idx base lim i a b = rw (==_ne i (idx + 1) b, ==_ne i idx a) refl
