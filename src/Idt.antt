-- ===== src/Idt.antt =====
-- cpu/idt.c and include/cpu/idt.h: the gates of the interrupt descriptor table.
-- The table is a function from vectors to gates. `isr_stub_table` is assembly: the addresses of its
-- stubs are an argument.
pub mod Gates
mod Tests
use alphix.Base.{
  ℕ, zero, suc, ◌+◌, ◌-◌, ◌*◌, ◌/◌, ◌%◌, ◌^◌, ◌≤◌, ◌<◌, ◌≡◌, ◌≢◌, refl, sym, ◌∙◌, ap, Bool, true,
  false, not, ◌&&◌, ◌||◌, ◌⊎◌, inl, inr, ◌↔◌, Option, none, some, List, [], ◌∷◌, ◌++◌, map, arith,
  ltb, leb, ◌==◌, ==_iff, ==_self, ==_ne, if◌then◌else◌, Bool-cases, Option-cases, length,
  length-append, get_elem?, get_or, set, take, drop, replicate, length-set, length-replicate,
  length-take, length-drop, length-map, take-append-drop, ltb→lt, lt→ltb, leb→le, tests,
  get_elem?-set_self, get_elem?-set_ne,
}

pub record IdtEntry : Type 0 where
  pub offset_low : ℕ
  pub selector : ℕ
  pub ist : ℕ
  pub type_attr : ℕ
  pub offset_mid : ℕ
  pub offset_high : ℕ
  pub zeros : ℕ

-- The fields that `idt_set_gate` writes; 0x08 is the kernel's code segment.
pub gate : ℕ → ℕ → IdtEntry
gate handler flags = record {
  offset_low = handler % 2 ^ 16;
  selector = 0x08;
  ist = 0;
  type_attr = flags;
  offset_mid = handler / 2 ^ 16 % 2 ^ 16;
  offset_high = handler / 2 ^ 32 % 2 ^ 32;
  zeros = 0;
}

pub idt_set_gate : (ℕ → IdtEntry) → ℕ → ℕ → ℕ → ℕ → IdtEntry
idt_set_gate idt vector handler flags v = if v == vector then gate handler flags else idt v

-- Only the system call may be called from ring 3.
pub gate_flags : ℕ → ℕ
gate_flags i = if i == 0x80 then 0xEE else 0x8E

-- The loop of `idt_init`, with `left` rounds to go; the vector is a `uint8_t`.
pub init_loop : ℕ → (ℕ → ℕ) → ℕ → (ℕ → IdtEntry) → ℕ → IdtEntry
init_loop zero stubs i idt = idt
init_loop (suc left) stubs i idt =
    init_loop left stubs (i + 1) (idt_set_gate idt (i % 2 ^ 8) (stubs i) (gate_flags i))

pub idt_init : (ℕ → ℕ) → (ℕ → IdtEntry) → ℕ → IdtEntry
idt_init stubs idt = init_loop 256 stubs 0 idt
