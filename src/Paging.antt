-- ===== src/Paging.antt =====
-- mem/paging.c and include/mem/paging.h: the identity map of the first 4 GB.
-- Memory is seen through the 64-bit words of the six tables. Where the linker puts the tables is an
-- argument: `table 0` is `pml4`, `table 1` is `pdpt`, and `table (2 + j)` is the page directory `pdj`.
pub mod Walk
pub mod Entries
mod Tests
use alphix.Base.{
  ℕ, zero, suc, ◌+◌, ◌-◌, ◌*◌, ◌/◌, ◌%◌, ◌^◌, ◌≤◌, ◌<◌, ◌≡◌, ◌≢◌, refl, sym, ◌∙◌, ap, Bool, true,
  false, not, ◌&&◌, ◌||◌, ◌⊎◌, inl, inr, ◌↔◌, Option, none, some, List, [], ◌∷◌, ◌++◌, map, arith,
  ltb, leb, ◌==◌, ==_iff, ==_self, ==_ne, if◌then◌else◌, Bool-cases, Option-cases, length,
  length-append, get_elem?, get_or, set, take, drop, replicate, length-set, length-replicate,
  length-take, length-drop, length-map, take-append-drop, ltb→lt, lt→ltb, leb→le, tests,
  get_elem?-set_self, get_elem?-set_ne, ◌>>=◌, all_below, all_below_lem, bit_or_step, bit_or-zero,
  bit_or-one, bit_or_two, bit_or_128,
}
use Prim.Native.Nat.{bit_or}

abbrev page_present : ℕ
page_present = 1

abbrev page_rw : ℕ
page_rw = 2

abbrev page_ps : ℕ
page_ps = 128

abbrev pub Words : Type 0
Words = ℕ → ℕ

pub record Paging : Type 0 where
  pub words : Words
  pub cr0 : ℕ
  pub cr3 : ℕ
  pub cr4 : ℕ

module _ (table : ℕ → ℕ) where
  -- `table[k] = w;`
  abbrev pub put : Words → ℕ → ℕ → ℕ → ℕ → ℕ
  put m t k w a = if a == table t + 8 * k then w else m a

  -- `memset` of a table: its 512 words are zero.
  pub clear : ℕ → ℕ → Words → Words
  clear zero t m = m
  clear (suc left) t m = clear left t (put m t left 0)

  -- A pointer to a table, with the flags of an entry.
  pub link : ℕ → ℕ
  link t = bit_or (bit_or (table t) page_present) page_rw

  pub large_page : ℕ → ℕ
  large_page n = bit_or (bit_or (bit_or (n * 0x200000) page_present) page_rw) page_ps

  -- The loop over `i`, with `left` rounds to go, and the loop over `j`.
  pub fill : ℕ → ℕ → ℕ → Words → Words
  fill zero j i m = m
  fill (suc left) j i m = fill left j (i + 1) (put m (2 + j) i (large_page (j * 512 + i)))

  pub fill_all : ℕ → ℕ → Words → Words
  fill_all zero j m = m
  fill_all (suc left) j m = fill_all left (j + 1) (fill 512 j 0 m)

  pub links : Words → Words
  links m =
      put (put (put (put (put m 0 0 (link 1)) 1 0 (link 2)) 1 1 (link 3)) 1 2 (link 4)) 1 3 (link 5)

  pub cleared : Words → Words
  cleared m = clear 512 5 (clear 512 4 (clear 512 3 (clear 512 2 (clear 512 1 (clear 512 0 m)))))

  pub paging_init : Paging → Paging
  paging_init c = record {
    words = fill_all 4 0 (links (cleared c.words));
    cr0 = bit_or c.cr0 (2 ^ 31);
    cr3 = table 0;
    cr4 = bit_or c.cr4 (2 ^ 5);
  }
