-- ===== src/Idt/Tests.antt =====
-- The gates at concrete addresses of the stubs.
use alphix.Base.{ℕ, ◌+◌, ◌*◌}
use alphix.Idt.{IdtEntry}

-- Stubs of 16 bytes each, in the upper half of the addresses.
abbrev stubs : ℕ → ℕ
stubs v = 0xFFFF800000100000 + v * 16

abbrev empty : ℕ → IdtEntry
empty v = record {
  offset_low = 0;
  selector = 0;
  ist = 0;
  type_attr = 0;
  offset_mid = 0;
  offset_high = 0;
  zeros = 0;
}
