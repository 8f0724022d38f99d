-- ===== src/Paging/Tests.antt =====
-- The identity map, with the tables one behind the other.
use alphix.Base.{ℕ, ◌+◌, ◌*◌, ◌≡◌, some, arith}
use alphix.Paging.{Paging, paging_init}
use alphix.Paging.Entries.{Tables}
use alphix.Paging.Walk.{translate, paging_init_lem}

abbrev table : ℕ → ℕ
table t = 0x100000 + t * 4096

table-Tables : Tables table
table-Tables = record {
  aligned = λ t lt. omega arith;
  small = λ t lt. omega arith;
  apart = λ t u lt lt' ne. omega arith;
}

abbrev start : Paging
start = record { words = λ a. a; cr0 = 1; cr3 = 0; cr4 = 0 }

paging_init_lem_example :
    translate (paging_init table start).words (paging_init table start).cr3 0xb8123 ≡ some 0xb8123
paging_init_lem_example = paging_init_lem table table-Tables start 0xb8123 (omega arith)
