-- ===== src/Tss/Tests.antt =====
-- The task state at a concrete address.
use alphix.Base.{ℕ, ◌+◌, ◌/◌, ◌%◌, ◌≤◌, ◌<◌, ◌≡◌, true, false, ◌⊎◌, arith}
use alphix.Memory.Words.{load}
use alphix.Gdt.{gdt_init}
use alphix.Gdt.Segments.{base64, limit}
use alphix.Tss.{Task, tss_init}
use alphix.Tss.State.{port_allowed, tss_init_ports, tss_init_lem}

abbrev empty : Task
empty = record {
  mem = λ a. a % 251;
  gdt = λ i. record {
    limit_low = 0;
    base_low = 0;
    base_mid = 0;
    access = 0;
    flags_limit = 0;
    base_high = 0;
  };
  task_register = 0;
}

tss_init_ports_example :
    let m = (tss_init 0x104000 0x108000 empty).mem in
    (((◌<◌ 0x60 32) ⊎ ((◌≤◌ 96 0x60) × (0x60 < 824))) → port_allowed m 0x104000 103 0x60 ≡ true)
    × (824 ≤ 0x60 → port_allowed m 0x104000 103 0x60 ≡ false)
tss_init_ports_example = tss_init_ports 0x104000 0x108000 0x60 empty

tss_init_lem_example :
    let s = tss_init 0x104000 0x108000 (record empty { gdt = gdt_init empty.gdt }) in
    let slot = s.task_register / 8 in
    (base64 (s.gdt slot) (s.gdt (slot + 1)) ≡ 0x104000)
    × (limit (s.gdt slot) ≡ 103)
    × (load 8 s.mem (0x104000 + 4) ≡ 0x108000 + 8192)
    × ((a : ℕ) → (a < 0x104000) ⊎ (0x104000 + 104 ≤ a) → s.mem a ≡ a % 251)
tss_init_lem_example = tss_init_lem 0x104000 0x108000 empty (omega arith) (omega arith)
