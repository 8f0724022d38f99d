-- ===== src/Irq/Dispatch.antt =====
-- Which handler an interrupt reaches, and which interrupts are acknowledged.
use alphix.Base.{
  ℕ, ◌+◌, ◌-◌, ◌%◌, ◌^◌, ◌≡◌, ◌≢◌, refl, ◌∙◌, ap, Bool, true, false, not, ◌&&◌, inl, inr, List, [],
  ◌∷◌, arith, leb, ◌==◌, ==_self, ==_ne, if◌then◌else◌, Bool-cases,
}
use alphix.Port.{Bus}
use alphix.Pic.{pic_send_eoi}
use alphix.Pic.Chips.{Chip, Pics}
use alphix.Pic.Remap.{pic_send_eoi_lem}
use alphix.Debug.{emit, debug_port}
use alphix.Irq.{Irq, announce, idt_register_handler, idt_uninstall_handler, isr_dispatch}

module _ (b : Bus) (R : Type 0) where
  rest-if :
      (t : Bool) (s : Irq b R) (x : b.State)
      → (if t then record s { ports = x } else s).rest ≡ s.rest
  rest-if true s x = refl
  rest-if false s x = refl

module _ (b : Bus) (R : Type 0) (call : ℕ → Irq b R → Irq b R) where
  -- The state in which a handler is entered: the message has been printed.
  abbrev pub entered : ℕ → ℕ → Irq b R → Irq b R
  entered vec rip s = record s { ports = emit b (announce vec rip) s.ports }

  -- An interrupt runs the handler that was registered last for its vector, and no other; after
  -- `idt_uninstall_handler` it runs none. Handlers of other vectors stay. (`rest` is all that a
  -- handler can change besides the table and the ports; vectors are below 256.)
  pub isr_dispatch_handler :
      (v w h int_no rip : ℕ) (s : Irq b R)
      → int_no % 2 ^ 8 ≡ v
      → h ≢ 0
      → let registered = idt_register_handler b R v h s in
        ((isr_dispatch b R call int_no rip registered).rest
          ≡ (call h (entered v rip registered)).rest)
        × ((isr_dispatch b R call int_no rip (idt_uninstall_handler b R v s)).rest ≡ s.rest)
        × (w ≢ v
            → (registered.interrupt_handlers w ≡ s.interrupt_handlers w)
              × ((idt_uninstall_handler b R v s).interrupt_handlers w ≡ s.interrupt_handlers w))
  unfolding isr_dispatch idt_register_handler idt_uninstall_handler
  isr_dispatch_handler v w h int_no rip s at ne =
      let registered : Irq b R = idt_register_handler b R v h s in
      let silent : Irq b R = entered v rip (idt_uninstall_handler b R v s) in
      let hardware : Bool = leb 32 v && leb v 47 in
      let s2 : Irq b R = call h (entered v rip registered) in
      (
        rw (at, ==_self v, ==_ne h 0 ne)
            (rest-if b R hardware s2 (pic_send_eoi b (v - 32) s2.ports)),
        rw (at, ==_self v) (rest-if b R hardware silent (pic_send_eoi b (v - 32) silent.ports)),
        λ other. (rw (==_ne w v other) refl, rw (==_ne w v other) refl),
      )

  module _ (p : Pics b)
      (master-debug : (v : ℕ) (s : b.State) → p.master (b.outb debug_port v s) ≡ p.master s)
      (slave-debug : (v : ℕ) (s : b.State) → p.slave (b.outb debug_port v s) ≡ p.slave s)
      (master-call : (h : ℕ) (s : Irq b R) → p.master (call h s).ports ≡ p.master s.ports)
      (slave-call : (h : ℕ) (s : Irq b R) → p.slave (call h s).ports ≡ p.slave s.ports) where
    master-emit : (cs : List ℕ) (s : b.State) → p.master (emit b cs s) ≡ p.master s
    unfolding emit
    master-emit [] s = refl
    master-emit (c ∷ cs) s = master-emit cs (b.outb debug_port c s) ∙ master-debug c s

    slave-emit : (cs : List ℕ) (s : b.State) → p.slave (emit b cs s) ≡ p.slave s
    unfolding emit
    slave-emit [] s = refl
    slave-emit (c ∷ cs) s = slave-emit cs (b.outb debug_port c s) ∙ slave-debug c s

    handled :
        (h : ℕ) (s : Irq b R)
        → let w = if not (h == 0) then call h s else s in
          (p.master w.ports ≡ p.master s.ports) × (p.slave w.ports ≡ p.slave s.ports)
    handled h s = elim (Bool-cases (h == 0)) [
      | inl null ↦ rw null (refl, refl)
      | inr there ↦ rw there (master-call h s, slave-call h s)
    ]

    -- Where neither the debug port nor a handler touches the controllers, `isr_dispatch` ends one
    -- interrupt at the master for the vectors 32 to 47, one at the slave for 40 to 47, and none for
    -- any other vector.
    pub isr_dispatch_ends :
        (int_no rip : ℕ) (s : Irq b R)
        → let vec = int_no % 2 ^ 8 in
          let w = isr_dispatch b R call int_no rip s in
          ((p.master w.ports).ends
            ≡ (p.master s.ports).ends + (if leb 32 vec && leb vec 47 then 1 else 0))
          × ((p.slave w.ports).ends
              ≡ (p.slave s.ports).ends + (if leb 40 vec && leb vec 47 then 1 else 0))
    unfolding isr_dispatch
    isr_dispatch_ends int_no rip s =
        let vec : ℕ = int_no % 2 ^ 8 in
        let s1 : Irq b R = entered vec rip s in
        let s2 : Irq b R =
          if not (s1.interrupt_handlers vec == 0)
          then call (s1.interrupt_handlers vec) s1
          else s1 in
        let printed1 = master-emit (announce vec rip) s.ports in
        let printed2 = slave-emit (announce vec rip) s.ports in
        let (kept1, kept2) = handled (s1.interrupt_handlers vec) s1 in
        let (end1, end2) = pic_send_eoi_lem b p (vec - 32) s2.ports in
        let same1 : (p.master s2.ports).ends ≡ (p.master s.ports).ends =
          ap (λ (c : Chip). c.ends) (kept1 ∙ printed1) in
        let same2 : (p.slave s2.ports).ends ≡ (p.slave s.ports).ends =
          ap (λ (c : Chip). c.ends) (kept2 ∙ printed2) in
        elim (Bool-cases (leb 32 vec && leb vec 47)) [
          | inl hardware ↦
              let line : leb 8 (vec - 32) ≡ (leb 40 vec && leb vec 47) = ground arith in
              rw hardware (
                ap (λ (c : Chip). c.ends) end1 ∙ omega (arith, same1),
                ap (λ (c : Chip). c.ends) end2 ∙ rw line (ground (arith, same2)),
              )
          | inr other ↦
              let not_slave : (leb 40 vec && leb vec 47) ≡ false = ground arith in
              rw (other, not_slave) (omega (arith, same1), omega (arith, same2))
        ]
