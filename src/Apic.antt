-- ===== src/Apic.antt =====
-- cpu/apic.c: the local interrupt controller and its timer.
-- The controller's registers are memory, read and written in words of 32 bits; what is behind them
-- is no code of the kernel: `Mmio` is a parameter, whose addresses are those of bytes. The rest of
-- the kernel's state is `X`.
pub mod Timer
mod Tests
use alphix.Base.{
  ℕ, zero, suc, ◌+◌, ◌-◌, ◌*◌, ◌/◌, ◌%◌, ◌^◌, ◌≤◌, ◌<◌, ◌≡◌, ◌≢◌, refl, sym, ◌∙◌, ap, Bool, true,
  false, not, ◌&&◌, ◌||◌, ◌⊎◌, inl, inr, ◌↔◌, Option, none, some, List, [], ◌∷◌, ◌++◌, map, arith,
  ltb, leb, ◌==◌, ==_iff, ==_self, ==_ne, if◌then◌else◌, Bool-cases, Option-cases, List-cases,
  length, length-append, get_elem?, get_or, set, take, drop, replicate, length-set,
  length-replicate, length-take, length-drop, length-map, take-append-drop, ltb→lt, lt→ltb, leb→le,
  tests, get_elem?-set_self, get_elem?-set_ne, ◌>>=◌, all_below, all_below_lem, bit_or_step,
  bit_or-zero, bit_or-one, bit_or_two, bit_or_128,
}
use Prim.Native.Nat.{bit_or}
use alphix.Port.{Bus}
use alphix.Memory.{Bytes}
use alphix.Vga.{Vga, get_cursor, set_cursor}
use alphix.Irq.{Irq, idt_register_handler}

-- `APIC_OFFSET_EOI / 4` and so on.
abbrev pub reg_eoi : ℕ
reg_eoi = 0x0B0 / 4

abbrev pub reg_svr : ℕ
reg_svr = 0x0F0 / 4

abbrev pub reg_lvt_timer : ℕ
reg_lvt_timer = 0x320 / 4

abbrev pub reg_timer_icr : ℕ
reg_timer_icr = 0x380 / 4

abbrev pub reg_timer_div : ℕ
reg_timer_div = 0x3E0 / 4

abbrev pub apic_timer_vector : ℕ
apic_timer_vector = 0xEF

abbrev pub blink_interval : ℕ
blink_interval = 20

-- `msr & 0xFFFFF000`
abbrev pub apic_map : ℕ → ℕ
apic_map msr = msr % 2 ^ 32 / 2 ^ 12 * 2 ^ 12

-- `APIC_TIMER_VECTOR | (1 << 17)`
abbrev pub timer_mode : ℕ
timer_mode = bit_or apic_timer_vector (2 ^ 17)

-- `apic[i]` for the pointer `apic`.
abbrev pub reg_at : ℕ → ℕ → ℕ
reg_at apic i = (apic + 4 * i) % 2 ^ 64

pub record Mmio : Type 1 where
  pub State : Type 0
  pub write32 : ℕ → ℕ → State → State
  pub read32 : ℕ → State → ℕ × State

module _ (b : Bus) (d : Mmio) (X : Type 0) where
  pub record Local : Type 0 where
    pub apic : ℕ
    pub lapic : d.State
    pub blink_counter : ℕ
    pub mem : Bytes
    pub other : X

  abbrev pub Machine : Type 0
  Machine = Irq b Local

  abbrev pub screen : Machine → Vga b
  screen s = record { mem = s.rest.mem; ports = s.ports }

  abbrev pub on_screen : Vga b → Machine → Machine
  on_screen v s = record s { ports = v.ports; rest = record s.rest { mem = v.mem } }

  -- What `apic_init` writes through the pointer `apic`.
  pub program : ℕ → d.State → d.State
  program apic s =
      let (svr, s1) = d.read32 (reg_at apic reg_svr) s in
      let s2 = d.write32 (reg_at apic reg_svr) (bit_or svr 0x100) s1 in
      let s3 = d.write32 (reg_at apic reg_timer_div) 0x3 s2 in
      d.write32 (reg_at apic reg_timer_icr) 0x100000
        (d.write32 (reg_at apic reg_lvt_timer) timer_mode s3)

  -- `msr` is what `rdmsr` reads, `handler` the address of `apic_handler`.
  unfoldable pub apic_init : ℕ → ℕ → Machine → Machine
  apic_init msr handler s = idt_register_handler b Local apic_timer_vector handler (record s {
    rest = record s.rest { apic = apic_map msr; lapic = program (apic_map msr) s.rest.lapic };
  })

  unfoldable pub count : Machine → Machine
  count s =
      let n = (s.rest.blink_counter + 1) % 2 ^ 32 in
      if leb blink_interval n
      then (let (pos, v) = get_cursor b (screen s) in
          on_screen (set_cursor b pos v) (record s { rest = record s.rest { blink_counter = 0 } }))
      else record s { rest = record s.rest { blink_counter = n } }

  unfoldable pub apic_handler : Machine → Machine
  apic_handler s =
      let s1 = count s in
      record s1 {
        rest = record s1.rest { lapic = d.write32 (reg_at s1.rest.apic reg_eoi) 0 s1.rest.lapic };
      }
