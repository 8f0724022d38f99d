-- ===== src/Kernel.antt =====
-- kernel/kernel.c: `kernel_main`, which puts the parts together, and `kgetch` of cpu/kprintf.c with
-- the interrupts that arrive while it waits; `cpu_enable_interrupts` of cpu/cpu.c.
-- The interrupts are a list of events, taken one by one while `kgetch` waits, once it has read its flag
-- for the first time; `none` is a wait or a loop that has not ended. The heap is seen through its block headers and the page tables through
-- their words, apart from the other bytes of memory. What the linker and the processor give is `Image`.
pub mod Keys
pub mod Prompt
pub mod Start
pub mod Steps
pub mod Ends
pub mod Main
mod Tests
use alphix.Base.{
  ℕ, zero, suc, ◌+◌, ◌-◌, ◌*◌, ◌/◌, ◌%◌, ◌^◌, ◌≤◌, ◌<◌, ◌≡◌, ◌≢◌, refl, sym, ◌∙◌, ap, Bool, true,
  false, not, ◌&&◌, ◌||◌, ◌⊎◌, inl, inr, ◌↔◌, Option, none, some, List, [], ◌∷◌, ◌++◌, map, arith,
  ltb, leb, ◌==◌, ==_iff, ==_self, ==_ne, if◌then◌else◌, Bool-cases, Option-cases, List-cases,
  length, length-append, get_elem?, get_or, set, take, drop, replicate, length-set,
  length-replicate, length-take, length-drop, length-map, take-append-drop, ltb→lt, lt→ltb, leb→le,
  tests, get_elem?-set_self, get_elem?-set_ne, ◌>>=◌, all_below, all_below_lem, bit_or_step,
  bit_or-zero, bit_or-one, bit_or_two, bit_or_128,
}
use alphix.Port.{Bus}
use alphix.Memory.{Bytes}
use alphix.Printf.{Arg, word}
use alphix.Debug.{emit}
use alphix.Vga.{Vga, kclear}
use alphix.Editor.{kprintf}
use alphix.Getch.{Getch, getch_handler}
use alphix.Gdt.{GdtEntry, gdt_init}
use alphix.Idt.{IdtEntry, idt_init}
use alphix.Tss.{Task, tss_init}
use alphix.Pic.{pic_setup}
use alphix.Paging.{Paging, paging_init}
use alphix.Heap.{Heap, heap_init}
use alphix.Irq.{Irq, idt_register_handler, idt_uninstall_handler, isr_dispatch}
use alphix.Apic.{Mmio, Local, Machine, screen, on_screen, apic_init, apic_handler}
use alphix.Boot.{parse_multiboot2}
use alphix.Syscall.{promoted}

pub record Parts : Type 0 where
  pub gdt : ℕ → GdtEntry
  pub task_register : ℕ
  pub idt : ℕ → IdtEntry
  pub paging : Paging
  pub heap : Heap
  pub keys : Getch
  pub enabled : Bool

-- The addresses of the static tables and of the handlers, and what `rdmsr` reads.
pub record Image : Type 0 where
  pub table : ℕ → ℕ
  pub tss_entry : ℕ
  pub kernel_stack : ℕ
  pub stubs : ℕ → ℕ
  pub msr : ℕ
  pub apic_handler_at : ℕ
  pub getch_handler_at : ℕ
  pub syscall_handler_at : ℕ

-- An interrupt while `kgetch` waits: of the keyboard, with the scancode that is read, or the timer.
pub data Event : Type 0 where
  key : ℕ → Event
  timer : Event

-- "STI\n", "panic: invalid magic number\nkernel ended.", "testing kgetch\n", "Quitting...\n" and
-- "heap initialized: start=0x%llx, end=0x%llx\n"
abbrev sti_text : List ℕ
sti_text = b'S' ∷ b'T' ∷ b'I' ∷ 0x0a ∷ []

abbrev pub panic_text : List ℕ
panic_text =
    b'p' ∷ b'a' ∷ b'n' ∷ b'i' ∷ b'c' ∷ b':' ∷ b' ' ∷ b'i' ∷ b'n' ∷ b'v' ∷ b'a' ∷ b'l' ∷ b'i' ∷ b'd'
    ∷ b' ' ∷ b'm' ∷ b'a' ∷ b'g' ∷ b'i' ∷ b'c' ∷ b' ' ∷ b'n' ∷ b'u' ∷ b'm' ∷ b'b' ∷ b'e' ∷ b'r'
    ∷ 0x0a ∷ b'k' ∷ b'e' ∷ b'r' ∷ b'n' ∷ b'e' ∷ b'l' ∷ b' ' ∷ b'e' ∷ b'n' ∷ b'd' ∷ b'e' ∷ b'd'
    ∷ b'.' ∷ []

abbrev pub testing_text : List ℕ
testing_text =
    b't' ∷ b'e' ∷ b's' ∷ b't' ∷ b'i' ∷ b'n' ∷ b'g' ∷ b' ' ∷ b'k' ∷ b'g' ∷ b'e' ∷ b't' ∷ b'c' ∷ b'h'
    ∷ 0x0a ∷ []

abbrev pub quitting_text : List ℕ
quitting_text =
    b'Q' ∷ b'u' ∷ b'i' ∷ b't' ∷ b't' ∷ b'i' ∷ b'n' ∷ b'g' ∷ b'.' ∷ b'.' ∷ b'.' ∷ 0x0a ∷ []

abbrev pub heap_text : List ℕ
heap_text =
    b'h' ∷ b'e' ∷ b'a' ∷ b'p' ∷ b' ' ∷ b'i' ∷ b'n' ∷ b'i' ∷ b't' ∷ b'i' ∷ b'a' ∷ b'l' ∷ b'i' ∷ b'z'
    ∷ b'e' ∷ b'd' ∷ b':' ∷ b' ' ∷ b's' ∷ b't' ∷ b'a' ∷ b'r' ∷ b't' ∷ b'=' ∷ b'0' ∷ b'x' ∷ b'%'
    ∷ b'l' ∷ b'l' ∷ b'x' ∷ b',' ∷ b' ' ∷ b'e' ∷ b'n' ∷ b'd' ∷ b'=' ∷ b'0' ∷ b'x' ∷ b'%' ∷ b'l'
    ∷ b'l' ∷ b'x' ∷ 0x0a ∷ []

abbrev pub prompt_text : List ℕ
prompt_text = b'>' ∷ b' ' ∷ []

module _ (b : Bus) (d : Mmio) (i : Image) where
  abbrev pub System : Type 0
  System = Machine b d Parts

  abbrev pub parts : System → Parts
  parts s = s.rest.other

  abbrev pub with_parts : Parts → System → System
  with_parts p s = record s { rest = record s.rest { other = p } }

  abbrev pub print : List ℕ → List Arg → System → Option System
  print fmt args s = kprintf b fmt args (screen b d Parts s) >>= λ v. some (on_screen b d Parts v s)

  -- What the pointers to handlers lead to; `code` is what `inb(0x60)` reads.
  pub call : ℕ → ℕ → System → System
  call code h s =
      if h == i.apic_handler_at
      then apic_handler b d Parts s
      else if h == i.getch_handler_at
      then with_parts (record (parts s) { keys = getch_handler code (parts s).keys }) s
      else s

  pub deliver : Event → System → System
  deliver (key code) s = isr_dispatch b (Local b d Parts) (call code) 33 0 s
  deliver timer s = isr_dispatch b (Local b d Parts) (call 0) 0xEF 0 s

  -- `while (!getch_end) {}`; `rereads` is as in `wait`.
  pub wait_events : Bool → List Event → System → Option (System × List Event)
  wait_events rereads [] s = if (parts s).keys.getch_end then some (s, []) else none
  wait_events rereads (e ∷ events) s =
      let rest = wait_events rereads events (deliver e s) in
      if (parts s).keys.getch_end then some (s, e ∷ events) else if rereads then rest else none

  -- The character, the state and the interrupts to come.
  pub kgetch_events : Bool → List Event → System → Option (ℕ × System × List Event)
  kgetch_events rereads events s =
      let fresh = record (parts s).keys { getch_end = false; getch_char = 0 } in
      wait_events rereads events (
        idt_register_handler b (Local b d Parts) 33 i.getch_handler_at
          (with_parts (record (parts s) { keys = fresh }) s))
      >>= λ r.
          some ((parts r.0).keys.getch_char, idt_uninstall_handler b (Local b d Parts) 33 r.0, r.1)

  -- The loop of `kernel_main`, on fuel, one round for each character.
  pub prompt : Bool → ℕ → List Event → System → Option (System × List Event)
  prompt rereads zero events s = none
  prompt rereads (suc fuel) events s = print prompt_text [] s >>= λ s1.
      kgetch_events rereads events s1 >>= λ r. elim (r.0 == b'q') [
        | true ↦ print quitting_text [] r.1 >>= λ s2. some (s2, r.2)
        | false ↦ print (b'%' ∷ b'c' ∷ []) (word (promoted r.0) ∷ []) r.1 >>= λ s2.
            prompt rereads fuel r.2 s2
      ]

  -- From `paging_init` to `syscall_init`.
  pub set_up : System → System
  set_up s =
      let p = parts s in
      let task =
        tss_init i.tss_entry i.kernel_stack
          (record { mem = s.rest.mem; gdt = gdt_init p.gdt; task_register = p.task_register }) in
      let s1 = record s {
        ports = pic_setup b s.ports;
        rest = record s.rest {
          mem = task.mem;
          other = record p {
            paging = paging_init i.table p.paging;
            gdt = task.gdt;
            task_register = task.task_register;
            idt = idt_init i.stubs p.idt;
          };
        };
      } in
      idt_register_handler b (Local b d Parts) 0x80 i.syscall_handler_at
        (apic_init b d Parts i.msr i.apic_handler_at s1)

  pub clear_screen : System → System
  clear_screen s = on_screen b d Parts (kclear b (screen b d Parts s)) s

  -- `heap_init` with the line that it prints.
  pub set_up_heap : System → Option System
  set_up_heap s =
      let h = heap_init (parts s).heap in
      print heap_text (word h.start_address ∷ word h.end_address ∷ [])
        (with_parts (record (parts s) { heap = h }) s)

  pub cpu_enable_interrupts : System → System
  cpu_enable_interrupts s =
      with_parts (record (parts s) { enabled = true })
        (record s { ports = emit b sti_text s.ports })

  -- `base_init` does nothing.
  pub boot : ℕ → ℕ → System → Option System
  boot fuel mboot_info s = do
    v ← parse_multiboot2 b fuel mboot_info (screen b d Parts s)
    t ← set_up_heap (clear_screen (set_up (on_screen b d Parts v s)))
    print testing_text [] (cpu_enable_interrupts t)

  pub kernel_main : Bool → ℕ → ℕ → ℕ → List Event → System → Option (System × List Event)
  kernel_main rereads fuel magic mboot_info events s = elim (magic == 0x36d76289) [
    | true ↦ boot fuel mboot_info s >>= λ t. prompt rereads fuel events t
    | false ↦ print panic_text [] s >>= λ t. some (t, events)
  ]
