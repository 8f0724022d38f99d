-- ===== src/Tss.antt =====
-- cpu/tss.c, include/cpu/tss.h: the task state segment.
-- The segment is 104 bytes of memory, packed. Its address and that of `kernel_stack` are arguments.
pub mod State
mod Tests
use alphix.Base.{
  ℕ, zero, suc, ◌+◌, ◌-◌, ◌*◌, ◌/◌, ◌%◌, ◌^◌, ◌≤◌, ◌<◌, ◌≡◌, ◌≢◌, refl, sym, ◌∙◌, ap, Bool, true,
  false, not, ◌&&◌, ◌||◌, ◌⊎◌, inl, inr, ◌↔◌, Option, none, some, List, [], ◌∷◌, ◌++◌, map, arith,
  ltb, leb, ◌==◌, ==_iff, ==_self, ==_ne, if◌then◌else◌, Bool-cases, Option-cases, List-cases,
  length, length-append, get_elem?, get_or, set, take, drop, replicate, length-set,
  length-replicate, length-take, length-drop, length-map, take-append-drop, ltb→lt, lt→ltb, leb→le,
  tests, get_elem?-set_self, get_elem?-set_ne, ◌>>=◌, all_below, all_below_lem, bit_or_step,
  bit_or-zero, bit_or-one, bit_or_two, bit_or_128,
}
use alphix.Memory.{Bytes, memset}
use alphix.Memory.Words.{store}
use alphix.Gdt.{GdtEntry, gdt_set_tss_entry}

abbrev kernel_stack_size : ℕ
kernel_stack_size = 8192

-- `sizeof(tss_t)`, and the offsets of `rsp0` and `iomap_base`.
abbrev tss_size : ℕ
tss_size = 104

abbrev rsp0_offset : ℕ
rsp0_offset = 4

abbrev iomap_base_offset : ℕ
iomap_base_offset = 102

pub record Task : Type 0 where
  pub mem : Bytes
  pub gdt : ℕ → GdtEntry
  pub task_register : ℕ

-- `ltr` loads the selector of slot 5.
pub tss_init : ℕ → ℕ → Task → Task
tss_init tss_entry kernel_stack t = record {
  mem =
      store 8 (memset tss_size t.mem tss_entry 0) (tss_entry + rsp0_offset)
        (kernel_stack + kernel_stack_size);
  gdt = gdt_set_tss_entry t.gdt 5 tss_entry (tss_size - 1);
  task_register = 5 * 8;
}
