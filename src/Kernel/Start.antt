-- ===== src/Kernel/Start.antt =====
-- What `kernel_main` has set up when it comes to its loop.
use alphix.Base.{
  ℕ, ◌+◌, ◌/◌, ◌%◌, ◌^◌, ◌<◌, ◌≡◌, refl, ◌∙◌, ap, true, false, ◌↔◌, none, some, List, [], ◌∷◌,
  arith, ltb, ◌==◌, if◌then◌else◌, length,
}
use mathlib.Core.Path.{subst}
use alphix.Port.{Bus}
use alphix.Memory.Words.{load, load-same}
use alphix.Heap.{heap_initial_size}
use alphix.Heap.Inv.{Holds, heap_init-Holds}
use alphix.Paging.Walk.{translate, paging_init_lem}
use alphix.Idt.Gates.{address, privilege, present, idt_init_lem}
use alphix.Gdt.Segments.{base64}
use alphix.Tss.State.{tss_init_lem}
use alphix.Pic.Chips.{Chip, Pics}
use alphix.Pic.Masks.{Normal, pic_setup_lem}
use alphix.Vga.{Vga}
use alphix.Boot.Tags.{
  Tag, TagsAt, AwayFromScreen, span, announced, framebuffers, parse_multiboot2_lem,
}
use alphix.Irq.{idt_register_handler}
use alphix.Pic.{pic_setup}
use alphix.Apic.{Mmio, screen, apic_init}
use alphix.Kernel.Steps.{
  Separate, Placed, ready, started, boot-started, memory, part-kept, announced-part,
}
use alphix.Kernel.{Image, Parts, System, parts, set_up, clear_screen, cpu_enable_interrupts, boot}

module _ (b : Bus) (d : Mmio) (i : Image) (p : Pics b) where
  -- The state `t` in which the kernel enters its loop, started in `s`.
  pub record Started (s t : System b d i) : Type 0 where
    pub on : (parts b d i t).enabled ≡ true
    pub heap : Holds (parts b d i t).heap ((heap_initial_size, false) ∷ [])
    pub mapped :
        (v : ℕ)
        → v < 2 ^ 48
        → translate (parts b d i t).paging.words (parts b d i t).paging.cr3 v
          ≡ (if ltb v (2 ^ 32) then some v else none)
    pub gates :
        (v : ℕ)
        → v < 256
        → let e = (parts b d i t).idt v in
          (address e ≡ i.stubs v)
          × (e.selector ≡ 0x08)
          × (present e ≡ 1)
          × ((privilege e ≡ 3) ↔ (v ≡ 0x80))
    pub handlers :
        (v : ℕ)
        → t.interrupt_handlers v ≡ (
            if v == 0x80
            then i.syscall_handler_at
            else if v == 0xEF
            then i.apic_handler_at
            else s.interrupt_handlers v)
    pub task_found :
        let slot = (parts b d i t).task_register / 8 in
        base64 ((parts b d i t).gdt slot) ((parts b d i t).gdt (slot + 1)) ≡ i.tss_entry
    pub stack_found : load 8 t.rest.mem (i.tss_entry + 4) ≡ i.kernel_stack + 8192
    pub lines :
        Normal b p 0x20 0x28
          (if (p.master s.ports).mask / 2 % 2 == 1 then 0xFF else 0xFD)
          0xFF
          t.ports
    pub keys_kept : (parts b d i t).keys ≡ (parts b d i s).keys

Normal-same :
    (b : Bus) (p : Pics b) (o1 o2 m1 m2 : ℕ) (s t : b.State)
    → p.master t ≡ p.master s
    → p.slave t ≡ p.slave s
    → Normal b p o1 o2 m1 m2 s
    → Normal b p o1 o2 m1 m2 t
Normal-same b p o1 o2 m1 m2 s t first second n = record {
  ready1 = ap (λ (c : Chip). c.phase) first ∙ n.ready1;
  ready2 = ap (λ (c : Chip). c.phase) second ∙ n.ready2;
  mask1 = ap (λ (c : Chip). c.mask) first ∙ n.mask1;
  mask2 = ap (λ (c : Chip). c.mask) second ∙ n.mask2;
  offset1 = ap (λ (c : Chip). c.offset) first ∙ n.offset1;
  offset2 = ap (λ (c : Chip). c.offset) second ∙ n.offset2;
}

module _ (b : Bus) (d : Mmio) (i : Image) (v : Vga b) (s : System b d i) (ok : Placed i)
    (p : Pics b) (apart : Separate b p) where
  Started-lem :
      (p.master v.ports ≡ p.master s.ports)
      → (p.slave v.ports ≡ p.slave s.ports)
      → (p.master s.ports).phase ≡ 0
      → (p.slave s.ports).phase ≡ 0
      → (p.master s.ports).mask < 2 ^ 8
      → (p.slave s.ports).mask < 2 ^ 8
      → Started b d i p s (started b d i v s)
  unfolding cpu_enable_interrupts clear_screen set_up apic_init idt_register_handler
  Started-lem same1 same2 ready1 ready2 byte1 byte2 =
      let t : System b d i = started b d i v s in
      let setup =
        pic_setup_lem b p v.ports (ap (λ (c : Chip). c.phase) same1 ∙ ready1)
          (ap (λ (c : Chip). c.phase) same2 ∙ ready2) (rw same1 byte1) (rw same2 byte2) in
      let task =
        tss_init_lem i.tss_entry i.kernel_stack
          (record {
            mem = v.mem;
            gdt = (parts b d i s).gdt;
            task_register = (parts b d i s).task_register;
          })
          ok.task ok.stack in
      let mask_same : Chip → ℕ = λ m. if m.mask / 2 % 2 == 1 then 0xFF else 0xFD in
      record {
        on = refl;
        heap = heap_init-Holds (parts b d i (ready b d i v s)).heap;
        mapped = λ w small. paging_init_lem i.table ok.tables (parts b d i s).paging w small;
        gates = λ w small. idt_init_lem i.stubs (parts b d i s).idt w small (ok.stub w small);
        handlers = λ w. refl;
        task_found = task.0;
        stack_found =
            load-same 8 _ _ (i.tss_entry + 4)
              (λ a lo hi. memory b d i v s ok a (omega arith) (omega arith))
            ∙ task.2;
        lines =
            Normal-same b p _ _ _ _ (pic_setup b v.ports) t.ports
              (part-kept b d i v s ok p apart p.master apart.master_screen apart.master_debug)
              (part-kept b d i v s ok p apart p.slave apart.slave_screen apart.slave_debug)
              (subst (λ (m : Chip). Normal b p 0x20 0x28 (mask_same m) 0xFF (pic_setup b v.ports))
                same1 setup);
        keys_kept = refl;
      }

module _ (b : Bus) (d : Mmio) (i : Image) (ok : Placed i) (p : Pics b) (apart : Separate b p) where
  -- From a boot with a list of tags that is laid out away from the screen (with fuel above their
  -- number), with both interrupt controllers in normal operation and behind ports of their own, and
  -- with the linker's tables in place and the task state away from the screen, `kernel_main` comes
  -- to its loop with every part set up: the heap is one free block, the addresses below 4 GB are
  -- mapped to themselves and no other of 48 bits is mapped, every gate leads to its stub and only
  -- the system call's is open to ring 3, the handlers of the system call and of the timer are
  -- registered and no other is new, the task state is found with the kernel's stack in it, every
  -- line but the keyboard's is masked and the keyboard's only if it was before, interrupts are
  -- enabled, and the key state is as it was.
  pub boot-Started :
      (fuel mboot_info : ℕ) (ts : List Tag) (s : System b d i)
      → TagsAt s.rest.mem (mboot_info + 8) ts
      → AwayFromScreen (mboot_info + 8) (span ts)
      → length ts < fuel
      → (p.master s.ports).phase ≡ 0
      → (p.slave s.ports).phase ≡ 0
      → (p.master s.ports).mask < 2 ^ 8
      → (p.slave s.ports).mask < 2 ^ 8
      → (t : System b d i) × (boot b d i fuel mboot_info s ≡ some t) × Started b d i p s t
  boot-Started fuel mboot_info ts s at away enough ready1 ready2 byte1 byte2 =
      let v : Vga b = announced b (framebuffers ts) (screen b d Parts s) in
      let tags = parse_multiboot2_lem b fuel mboot_info (screen b d Parts s) ts at away enough in
      (
        started b d i v s,
        boot-started b d i v s fuel mboot_info tags,
        Started-lem b d i v s ok p apart
            (announced-part b Chip p.master apart.master_screen (framebuffers ts)
              (screen b d Parts s))
            (announced-part b Chip p.slave apart.slave_screen (framebuffers ts)
              (screen b d Parts s))
            ready1 ready2 byte1 byte2,
      )
