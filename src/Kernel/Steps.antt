-- ===== src/Kernel/Steps.antt =====
-- The states that `kernel_main` goes through up to its loop.
use alphix.Base.{
  ℕ, zero, suc, ◌+◌, ◌^◌, ◌≤◌, ◌<◌, ◌≡◌, refl, ◌∙◌, ap, ◌⊎◌, Option, some, List, [], ◌∷◌, arith,
  ◌>>=◌,
}
use alphix.Port.{Bus}
use alphix.Printf.{
  Arg, word, put, kvprintf, print_loop, parse, conversion, accept, scan_precision, scan, convert,
  word_case,
}
use alphix.Printf.Run.{kvprintf_plain}
use alphix.Heap.{heap_init}
use alphix.Paging.Entries.{Tables}
use alphix.Pic.Chips.{Chip, Pics}
use alphix.Debug.{debug_port, emit}
use alphix.Vga.{Vga, video_address, put_chars}
use alphix.Vga.Aside.{Aside, kclear-aside, put_chars-aside}
use alphix.Vga.Frame.{put_chars-mem}
use alphix.Vga.Scroll.{kclear-mem}
use alphix.Boot.{parse_multiboot2, found_text}
use alphix.Boot.Tags.{announced}
use alphix.Editor.{kprintf}
use alphix.Irq.{idt_register_handler}
use alphix.Pic.{pic_setup}
use alphix.Apic.{Mmio, screen, on_screen, apic_init}
use alphix.Kernel.{
  Image, Parts, System, parts, with_parts, heap_text, set_up, set_up_heap, clear_screen,
  cpu_enable_interrupts, boot, print, testing_text,
}

-- "heap initialized: start=0x%lx, end=0x%lx\n"
abbrev heap_line : List ℕ
heap_line =
    b'h' ∷ b'e' ∷ b'a' ∷ b'p' ∷ b' ' ∷ b'i' ∷ b'n' ∷ b'i' ∷ b't' ∷ b'i' ∷ b'a' ∷ b'l' ∷ b'i' ∷ b'z'
    ∷ b'e' ∷ b'd' ∷ b':' ∷ b' ' ∷ b's' ∷ b't' ∷ b'a' ∷ b'r' ∷ b't' ∷ b'=' ∷ b'0' ∷ b'x' ∷ b'%'
    ∷ b'l' ∷ b'x' ∷ b',' ∷ b' ' ∷ b'e' ∷ b'n' ∷ b'd' ∷ b'=' ∷ b'0' ∷ b'x' ∷ b'%' ∷ b'l' ∷ b'x'
    ∷ 0x0a ∷ []

-- `kvprintf` knows no `%l`: it puts the two characters and takes no argument.
kvprintf-heap_text : (x y : ℕ) → kvprintf heap_text (word x ∷ word y ∷ []) ≡ put heap_line
unfolding kvprintf print_loop parse conversion accept scan_precision scan convert word_case
kvprintf-heap_text x y = refl

-- The screen, the debug port and the interrupt controllers do not get in each other's way.
pub record Separate (b : Bus) (p : Pics b) : Type 0 where
  pub master_screen : Aside b Chip p.master
  pub slave_screen : Aside b Chip p.slave
  pub master_debug : (v : ℕ) (s : b.State) → p.master (b.outb debug_port v s) ≡ p.master s
  pub slave_debug : (v : ℕ) (s : b.State) → p.slave (b.outb debug_port v s) ≡ p.slave s

-- What holds of the linker's addresses: the tables, and the task state away from the screen.
pub record Placed (i : Image) : Type 0 where
  pub tables : Tables i.table
  pub stub : (v : ℕ) → v < 256 → i.stubs v < 2 ^ 64
  pub task : i.tss_entry < 2 ^ 64
  pub stack : i.kernel_stack + 8192 < 2 ^ 64
  pub away : (i.tss_entry + 104 ≤ video_address) ⊎ (video_address + 2 ^ 16 < i.tss_entry)

module _ (b : Bus) (d : Mmio) (i : Image) where
  -- `kprintf` of what `kvprintf` makes of a format.
  pub print-put :
      (fmt : List ℕ) (args : List Arg) (cs : List ℕ) (t : System b d i)
      → kvprintf fmt args ≡ put cs
      → print b d i fmt args t ≡ some (on_screen b d Parts (put_chars b cs (screen b d Parts t)) t)
  unfolding kprintf
  print-put fmt args cs t e = rw (e, kprintf) refl

module _ {ℓ} (b : Bus) (A : Type ℓ) (part : b.State → A)
    (debug : (v : ℕ) (s : b.State) → part (b.outb debug_port v s) ≡ part s) where
  emit-part : (cs : List ℕ) (s : b.State) → part (emit b cs s) ≡ part s
  unfolding emit
  emit-part [] s = refl
  emit-part (c ∷ cs) s = emit-part cs (b.outb debug_port c s) ∙ debug c s

pub announced-part {ℓ} :
    (b : Bus) (A : Type ℓ) (part : b.State → A) (aside : Aside b A part) (n : ℕ) (v : Vga b)
    → part (announced b n v).ports ≡ part v.ports
announced-part b A part aside zero v = refl
announced-part b A part aside (suc n) v =
    announced-part b A part aside n (put_chars b found_text v)
    ∙ put_chars-aside b A part aside found_text v

module _ (b : Bus) (d : Mmio) (i : Image) (v : Vga b) (s : System b d i) where
  -- The states on the way, from the tags that have been read on.
  abbrev pub ready : System b d i
  ready = clear_screen b d i (set_up b d i (on_screen b d Parts v s))

  abbrev pub with_heap : System b d i
  with_heap =
      with_parts b d i (record (parts b d i ready) { heap = heap_init (parts b d i ready).heap })
        ready

  abbrev pub told : System b d i
  told = on_screen b d Parts (put_chars b heap_line (screen b d Parts with_heap)) with_heap

  abbrev pub running : System b d i
  running = cpu_enable_interrupts b d i told

  abbrev pub started : System b d i
  started = on_screen b d Parts (put_chars b testing_text (screen b d Parts running)) running

  pub boot-started :
      (fuel mboot_info : ℕ)
      → parse_multiboot2 b fuel mboot_info (screen b d Parts s) ≡ some v
      → boot b d i fuel mboot_info s ≡ some started
  unfolding boot set_up_heap
  boot-started fuel mboot_info e =
      let last : System b d i → Option (System b d i) =
        λ t. print b d i testing_text [] (cpu_enable_interrupts b d i t) in
      let rest : Vga b → Option (System b d i) = λ u.
        set_up_heap b d i (clear_screen b d i (set_up b d i (on_screen b d Parts u s))) >>= last in
      let h = heap_init (parts b d i ready).heap in
      let heap_there : set_up_heap b d i ready ≡ some told =
        print-put b d i heap_text (word h.start_address ∷ word h.end_address ∷ []) heap_line
          with_heap (kvprintf-heap_text h.start_address h.end_address) in
      let testing =
        print-put b d i testing_text [] testing_text running
          (kvprintf_plain testing_text [] (omega arith)) in
      ap (λ o. o >>= rest) e ∙ ap (λ o. o >>= last) heap_there ∙ testing

  module _ (ok : Placed i) where
    pub memory :
        (a : ℕ)
        → i.tss_entry ≤ a
        → a < i.tss_entry + 104
        → started.rest.mem a ≡ (set_up b d i (on_screen b d Parts v s)).rest.mem a
    unfolding cpu_enable_interrupts clear_screen
    memory a lo hi =
        let away = ok.away in
        put_chars-mem b testing_text (screen b d Parts running) a (omega arith)
        ∙ put_chars-mem b heap_line (screen b d Parts with_heap) a (omega arith)
        ∙ kclear-mem b (screen b d Parts (set_up b d i (on_screen b d Parts v s))) a (omega arith)

    module _ (p : Pics b) (apart : Separate b p) where
      -- What the controllers are after `pic_setup`, they stay to the end.
      pub part-kept :
          (part : b.State → Chip)
          → Aside b Chip part
          → ((w : ℕ) (q : b.State) → part (b.outb debug_port w q) ≡ part q)
          → part started.ports ≡ part (pic_setup b v.ports)
      unfolding cpu_enable_interrupts clear_screen set_up apic_init idt_register_handler
      part-kept part aside debug =
          put_chars-aside b Chip part aside testing_text (screen b d Parts running)
          ∙ emit-part b Chip part debug _ told.ports
          ∙ put_chars-aside b Chip part aside heap_line (screen b d Parts with_heap)
          ∙ kclear-aside b Chip part aside
              (screen b d Parts (set_up b d i (on_screen b d Parts v s)))
