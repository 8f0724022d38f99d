-- ===== src/Irq/Tests.antt =====
-- Interrupts on the machine with two controllers; a handler leaves its number behind.
use alphix.Base.{ℕ, ◌≡◌, ◌≢◌, refl, arith}
use alphix.Pic.Pair.{bus, pics, start}
use alphix.Irq.{Irq, idt_register_handler, idt_uninstall_handler, isr_dispatch}
use alphix.Irq.Dispatch.{entered, isr_dispatch_handler, isr_dispatch_ends}

abbrev leave : ℕ → Irq bus ℕ → Irq bus ℕ
leave h s = record s { rest = h }

abbrev empty : Irq bus ℕ
empty = record { interrupt_handlers = λ _. 0; ports = start; rest = 0 }

abbrev with_keyboard : Irq bus ℕ
with_keyboard = idt_register_handler bus ℕ 33 7 empty

isr_dispatch_handler_example :
    ((isr_dispatch bus ℕ leave 33 0 with_keyboard).rest
      ≡ (leave 7 (entered bus ℕ leave 33 0 with_keyboard)).rest)
    × ((isr_dispatch bus ℕ leave 33 0 (idt_uninstall_handler bus ℕ 33 empty)).rest ≡ 0)
    × (◌≢◌ {A = ℕ} 34 33
        → (with_keyboard.interrupt_handlers 34 ≡ 0)
          × ((idt_uninstall_handler bus ℕ 33 empty).interrupt_handlers 34 ≡ 0))
unfolding idt_register_handler
isr_dispatch_handler_example =
    isr_dispatch_handler bus ℕ leave 33 34 7 33 0 empty refl (omega arith)

isr_dispatch_ends_example :
    ((isr_dispatch bus ℕ leave 33 0 with_keyboard).ports.first.ends ≡ 1)
    × ((isr_dispatch bus ℕ leave 33 0 with_keyboard).ports.second.ends ≡ 0)
unfolding idt_register_handler
isr_dispatch_ends_example =
    isr_dispatch_ends bus ℕ leave pics (λ v s. refl) (λ v s. refl) (λ h s. refl) (λ h s. refl) 33 0
      with_keyboard
