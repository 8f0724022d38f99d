-- ===== src/Kernel/Tests.antt =====
-- The kernel on a machine with two interrupt controllers and little else.
use alphix.Base.{
  ℕ, ◌+◌, ◌*◌, ◌≡◌, refl, true, false, none, inl, inr, some, List, [], ◌∷◌, arith, ◌>>=◌,
}
use alphix.Pic.Pair.{bus, pics, start}
use alphix.Getch.{modifiers}
use alphix.Apic.{Mmio}
use alphix.Kernel.{Image, Event, key, timer, System, parts, boot, kernel_main}
use alphix.Kernel.Keys.{Handlers, codes}
use alphix.Kernel.Prompt.{read_until_q}
use alphix.Kernel.Steps.{Separate, Placed}
use alphix.Kernel.Start.{Started, boot-Started}
use alphix.Kernel.Main.{kernel_main_lem, kernel_main-ends}

abbrev mmio : Mmio
mmio = record { State = Unit {0}; write32 = λ i v s. s; read32 = λ i s. (0, s) }

abbrev image : Image
image = record {
  table = λ t. 0x100000 + t * 4096;
  tss_entry = 0x200000;
  kernel_stack = 0x210000;
  stubs = λ v. 0x300000 + v * 16;
  msr = 0xFEE00900;
  apic_handler_at = 0x220000;
  getch_handler_at = 0x221000;
  syscall_handler_at = 0x222000;
}

image-Handlers : Handlers image
image-Handlers = record { apic_there = omega arith; getch_there = omega arith; apart = omega arith }

image-Placed : Placed image
image-Placed = record {
  tables = record {
    aligned = λ t lt. omega arith;
    small = λ t lt. omega arith;
    apart = λ t u lt lt' ne. omega arith;
  };
  stub = λ v lt. omega arith;
  task = omega arith;
  stack = omega arith;
  away = inr (omega arith);
}

pics-Separate : Separate bus pics
pics-Separate = record {
  master_screen = record { control = λ v s. refl; data_out = λ v s. refl; data_in = λ s. refl };
  slave_screen = record { control = λ v s. refl; data_out = λ v s. refl; data_in = λ s. refl };
  master_debug = λ v s. refl;
  slave_debug = λ v s. refl;
}

-- Nothing is in the tables yet; `table` is where every interrupt leads.
abbrev machine : ℕ → System bus mmio image
machine table = record {
  interrupt_handlers = λ v. table;
  ports = start;
  rest = record {
    apic = 0;
    lapic = tt;
    blink_counter = 0;
    mem = λ a. 0;
    other = record {
      gdt = λ n. record {
        limit_low = 0;
        base_low = 0;
        base_mid = 0;
        access = 0;
        flags_limit = 0;
        base_high = 0;
      };
      task_register = 0;
      idt = λ n. record {
        offset_low = 0;
        selector = 0;
        ist = 0;
        type_attr = 0;
        offset_mid = 0;
        offset_high = 0;
        zeros = 0;
      };
      paging = record { words = λ a. 0; cr0 = 1; cr3 = 0; cr4 = 0 };
      heap = record {
        start_address = 0;
        end_address = 0;
        max_address = 0;
        first_block = 0;
        total_blocks = 0;
        used_blocks = 0;
        mem = λ a. record { magic = 0; size = 0; used = 0; next = 0; prev = 0 };
        log = [];
      };
      keys = record {
        keys = record { capslock = false; shift = false; ctrl = false; alt = false };
        getch_end = false;
        getch_char = 0;
      };
      enabled = false;
    };
  };
}

-- `a` is pressed and released between two interrupts of the timer, then `q` is pressed.
abbrev typed : List Event
typed = timer ∷ key 0x1E ∷ timer ∷ key 0x9E ∷ key 0x10 ∷ []

boot-Started_example :
    (t : System bus mmio image) × (boot bus mmio image 1 0 (machine 0) ≡ some t)
    × Started bus mmio image pics (machine 0) t
boot-Started_example =
    boot-Started bus mmio image image-Placed pics pics-Separate 1 0 [] (machine 0) refl
      (inl (omega arith)) (omega arith) refl refl (omega arith) (omega arith)

kernel_main_lem_example :
    (kernel_main bus mmio image true 4 0x36d76289 0 typed (machine 0) >>= λ r.
    some ((parts bus mmio image r.0).keys, codes r.1))
    ≡ read_until_q 4 (0x1E ∷ 0x9E ∷ 0x10 ∷ []) (parts bus mmio image (machine 0)).keys
kernel_main_lem_example =
    kernel_main_lem bus mmio image image-Placed image-Handlers pics pics-Separate true 4 0 typed []
      (machine 0) refl (inl (omega arith)) (omega arith) refl refl (omega arith) (omega arith)
      (omega arith)

kernel_main-ends_example :
    ((r : System bus mmio image × List Event) × (kernel_main bus mmio image true 4 0x36d76289 0
          typed
          (machine 0)
        ≡ some r))
    × (kernel_main bus mmio image false 4 0x36d76289 0 typed (machine 0) ≡ none)
unfolding modifiers
kernel_main-ends_example =
    kernel_main-ends bus mmio image image-Placed image-Handlers pics pics-Separate 4 0 typed []
      (machine 0) refl (inl (omega arith)) (omega arith) refl refl (omega arith) (omega arith)
      (omega arith) (0x1E ∷ 0x9E ∷ []) [] refl (refl, refl)
