-- ===== src/Irq.antt =====
-- cpu/idt.c: the table of handlers and `isr_dispatch`, which the stubs of the gates call.
-- A pointer to a handler is a number, 0 for `NULL`; what the code behind a pointer does is an
-- argument, `call`. `R` is all that a handler can change besides the table and the ports.
pub mod Dispatch
mod Tests
use alphix.Base.{
  ℕ, zero, suc, ◌+◌, ◌-◌, ◌*◌, ◌/◌, ◌%◌, ◌^◌, ◌≤◌, ◌<◌, ◌≡◌, ◌≢◌, refl, sym, ◌∙◌, ap, Bool, true,
  false, not, ◌&&◌, ◌||◌, ◌⊎◌, inl, inr, ◌↔◌, Option, none, some, List, [], ◌∷◌, ◌++◌, map, arith,
  ltb, leb, ◌==◌, ==_iff, ==_self, ==_ne, if◌then◌else◌, Bool-cases, Option-cases, length,
  length-append, get_elem?, get_or, set, take, drop, replicate, length-set, length-replicate,
  length-take, length-drop, length-map, take-append-drop, ltb→lt, lt→ltb, leb→le, tests,
  get_elem?-set_self, get_elem?-set_ne, ◌>>=◌, all_below, all_below_lem, bit_or_step, bit_or-zero,
  bit_or-one, bit_or_two, bit_or_128,
}
use alphix.Port.{Bus}
use alphix.Pic.{pic_send_eoi}
use alphix.Printf.{Arg, word}
use alphix.Debug.{qemu_debug_printf, emit}

-- "Timer interrupt\n", "Page fault!\nEIP: %08X\n", "Keyboard interrupt\n", "Unknown interrupt: %d\n"
abbrev timer_text : List ℕ
timer_text =
    b'T' ∷ b'i' ∷ b'm' ∷ b'e' ∷ b'r' ∷ b' ' ∷ b'i' ∷ b'n' ∷ b't' ∷ b'e' ∷ b'r' ∷ b'r' ∷ b'u' ∷ b'p'
    ∷ b't' ∷ 0x0a ∷ []

abbrev fault_text : List ℕ
fault_text =
    b'P' ∷ b'a' ∷ b'g' ∷ b'e' ∷ b' ' ∷ b'f' ∷ b'a' ∷ b'u' ∷ b'l' ∷ b't' ∷ b'!' ∷ 0x0a ∷ b'E' ∷ b'I'
    ∷ b'P' ∷ b':' ∷ b' ' ∷ b'%' ∷ b'0' ∷ b'8' ∷ b'X' ∷ 0x0a ∷ []

abbrev keyboard_text : List ℕ
keyboard_text =
    b'K' ∷ b'e' ∷ b'y' ∷ b'b' ∷ b'o' ∷ b'a' ∷ b'r' ∷ b'd' ∷ b' ' ∷ b'i' ∷ b'n' ∷ b't' ∷ b'e' ∷ b'r'
    ∷ b'r' ∷ b'u' ∷ b'p' ∷ b't' ∷ 0x0a ∷ []

abbrev unknown_text : List ℕ
unknown_text =
    b'U' ∷ b'n' ∷ b'k' ∷ b'n' ∷ b'o' ∷ b'w' ∷ b'n' ∷ b' ' ∷ b'i' ∷ b'n' ∷ b't' ∷ b'e' ∷ b'r' ∷ b'r'
    ∷ b'u' ∷ b'p' ∷ b't' ∷ b':' ∷ b' ' ∷ b'%' ∷ b'd' ∷ 0x0a ∷ []

abbrev or_nothing : Option (List ℕ) → List ℕ
or_nothing none = []
or_nothing (some cs) = cs

-- What the `switch` prints.
pub announce : ℕ → ℕ → List ℕ
announce vec rip = or_nothing (
    if vec == 1
    then qemu_debug_printf timer_text []
    else if vec == 14
    then qemu_debug_printf fault_text (word rip ∷ [])
    else if vec == 33
    then qemu_debug_printf keyboard_text []
    else qemu_debug_printf unknown_text (word vec ∷ []))

module _ (b : Bus) (R : Type 0) where
  pub record Irq : Type 0 where
    pub interrupt_handlers : ℕ → ℕ
    pub ports : b.State
    pub rest : R

  unfoldable pub idt_register_handler : ℕ → ℕ → Irq → Irq
  idt_register_handler vector handler s = record s {
    interrupt_handlers = λ v. if v == vector then handler else s.interrupt_handlers v;
  }

  unfoldable pub idt_uninstall_handler : ℕ → Irq → Irq
  idt_uninstall_handler vector s = record s {
    interrupt_handlers = λ v. if v == vector then 0 else s.interrupt_handlers v;
  }

  -- The handler runs where there is one; the end of a hardware interrupt is sent behind it.
  unfoldable pub isr_dispatch : (ℕ → Irq → Irq) → ℕ → ℕ → Irq → Irq
  isr_dispatch call int_no rip s =
      let vec = int_no % 2 ^ 8 in
      let s1 = record s { ports = emit b (announce vec rip) s.ports } in
      let s2 =
        if not (s1.interrupt_handlers vec == 0) then call (s1.interrupt_handlers vec) s1 else s1 in
      if leb 32 vec && leb vec 47
      then record s2 { ports = pic_send_eoi b (vec - 32) s2.ports }
      else s2
