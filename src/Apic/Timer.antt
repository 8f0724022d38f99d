-- ===== src/Apic/Timer.antt =====
-- How the timer is set up, and what its interrupts do.
use alphix.Base.{
  ℕ, zero, suc, ◌+◌, ◌-◌, ◌*◌, ◌/◌, ◌%◌, ◌^◌, ◌≤◌, ◌<◌, ◌≡◌, ◌≢◌, refl, sym, ◌∙◌, ap, inl, inr,
  List, [], ◌∷◌, arith, leb, ◌==◌, ==_ne, if◌then◌else◌, Bool-cases, bit_or_step,
}
use mathlib.Core.Path.{subst}
use Prim.Native.Nat.{bit_or}
use alphix.Memory.{Bytes}
use alphix.Port.{Bus, Crtc}
use alphix.Vga.{get_cursor, set_cursor}
use alphix.Vga.Cursor.{CursorAt, get_cursor_lem, set_cursor_lem}
use alphix.Debug.{emit, debug_port}
use alphix.Irq.{announce, idt_register_handler, isr_dispatch}
use alphix.Apic.{
  Mmio, Local, Machine, reg_at, apic_map, screen, on_screen, program, apic_init, count,
  apic_handler,
}

-- A local interrupt controller whose registers lie in a page of memory, from `base` on, one every 16
-- bytes: a write to the one at 0x0B0 ends an interrupt; the other registers that the kernel uses hold
-- what is written to them. (A register's number is its offset divided by 4.) Nothing is said of
-- addresses outside the page.
pub record Lapic (d : Mmio) : Type 0 where
  pub base : ℕ
  pub page : (base % 2 ^ 12 ≡ 0) × (base + 2 ^ 12 ≤ 2 ^ 64)
  pub register : d.State → ℕ → ℕ
  pub ends : d.State → ℕ
  pub register-write :
      (i v r : ℕ) (s : d.State)
      → i < 2 ^ 10
      → i ≢ 0x2C
      → register (d.write32 (base + 4 * i) v s) r ≡ (if r == i then v % 2 ^ 32 else register s r)
  pub register-end :
      (v r : ℕ) (s : d.State) → register (d.write32 (base + 4 * 0x2C) v s) r ≡ register s r
  pub ends-write :
      (i v : ℕ) (s : d.State)
      → i < 2 ^ 10
      → ends (d.write32 (base + 4 * i) v s) ≡ ends s + (if i == 0x2C then 1 else 0)
  pub read : (i : ℕ) (s : d.State) → i < 2 ^ 10 → (d.read32 (base + 4 * i) s).0 ≡ register s i
  pub register-read :
      (i r : ℕ) (s : d.State) → i < 2 ^ 10 → register (d.read32 (base + 4 * i) s).1 r ≡ register s r

-- Setting a bit leaves those below it, and is seen by a division.
bit_or-half : (a c : ℕ) → bit_or a (c * 2) / 2 ≡ bit_or (a / 2) c
bit_or-half a c =
    let e : c * 2 / 2 ≡ c = omega arith in
    let step = bit_or_step a (c * 2) in rw (step, e) (omega arith)

bit8 : (v : ℕ) → bit_or v 0x100 / 2 ^ 8 % 2 ≡ 1
bit8 v =
    let w : ℕ = v / 2 / 2 / 2 / 2 / 2 / 2 / 2 / 2 in
    omega (
      arith,
      bit_or-half v 128,
      bit_or-half (v / 2) 64,
      bit_or-half (v / 2 / 2) 32,
      bit_or-half (v / 2 / 2 / 2) 16,
      bit_or-half (v / 2 / 2 / 2 / 2) 8,
      bit_or-half (v / 2 / 2 / 2 / 2 / 2) 4,
      bit_or-half (v / 2 / 2 / 2 / 2 / 2 / 2) 2,
      bit_or-half (v / 2 / 2 / 2 / 2 / 2 / 2 / 2) 1,
      bit_or_step w 1,
    )

module _ (b : Bus) (d : Mmio) (l : Lapic d) (X : Type 0) where
  -- Where `msr` names the page of the controller, which is below 4 GB, `apic_init` points `apic` at
  -- it and enables it, lets its timer count down again and again from 0x100000 in steps of 16 and
  -- interrupt at the vector 0xEF, not masked, and registers the handler for that vector and no other.
  pub apic_init_lem :
      (msr handler : ℕ) (s : Machine b d X)
      → msr < 2 ^ 32
      → l.base ≡ msr - msr % 2 ^ 12
      → let t = apic_init b d X msr handler s in
        let reg = l.register t.rest.lapic in
        (t.rest.apic ≡ msr - msr % 2 ^ 12)
        × (reg 0x3C / 2 ^ 8 % 2 ≡ 1)
        × (reg 0xF8 ≡ 3)
        × (reg 0xC8 % 2 ^ 8 ≡ 0xEF)
        × (reg 0xC8 / 2 ^ 16 ≡ 2)
        × (reg 0xE0 ≡ 0x100000)
        × ((v : ℕ)
            → t.interrupt_handlers v ≡ (if v == 0xEF then handler else s.interrupt_handlers v))
  unfolding apic_init program idt_register_handler
  apic_init_lem msr handler s low here =
      let s0 = s.rest.lapic in
      let mapped : apic_map msr ≡ l.base = omega (arith, here) in
      let programmed = program b d X l.base s0 in
      let same : program b d X (apic_map msr) s0 ≡ programmed =
        ap (λ (a : ℕ). program b d X a s0) mapped in
      let at_reg : (i : ℕ) → i < 2 ^ 10 → reg_at l.base i ≡ l.base + 4 * i =
        λ i small. omega (arith, l.page.1) in
      let svr : ℕ = (d.read32 (l.base + 4 * 0x3C) s0).0 in
      let s1 = (d.read32 (l.base + 4 * 0x3C) s0).1 in
      let s2 = d.write32 (l.base + 4 * 0x3C) (bit_or svr 0x100) s1 in
      let s3 = d.write32 (l.base + 4 * 0xF8) 0x3 s2 in
      let s4 = d.write32 (l.base + 4 * 0xC8) 0x200EF s3 in
      let s5 = d.write32 (l.base + 4 * 0xE0) 0x100000 s4 in
      let run : ℕ → ℕ → ℕ → ℕ → d.State = λ a1 a2 a3 a4. d.write32 a4 0x100000 (
        d.write32 a3 0x200EF
          (d.write32 a2 0x3 (d.write32 a1 (bit_or (d.read32 a1 s0).0 0x100) (d.read32 a1 s0).1))) in
      let there : program b d X l.base s0 ≡ s5 =
        ap (λ a. run a (reg_at l.base 0xF8) (reg_at l.base 0xC8) (reg_at l.base 0xE0))
          (at_reg 0x3C (omega arith))
        ∙ ap (λ a. run (l.base + 4 * 0x3C) a (reg_at l.base 0xC8) (reg_at l.base 0xE0))
            (at_reg 0xF8 (omega arith))
        ∙ ap (λ a. run (l.base + 4 * 0x3C) (l.base + 4 * 0xF8) a (reg_at l.base 0xE0))
            (at_reg 0xC8 (omega arith))
        ∙ ap (λ a. run (l.base + 4 * 0x3C) (l.base + 4 * 0xF8) (l.base + 4 * 0xC8) a)
            (at_reg 0xE0 (omega arith)) in
      let seen = λ (r : ℕ). ap (λ t. l.register t r) (same ∙ there) in
      let at =
        λ (r : ℕ). seen r ∙ l.register-write 0xE0 0x100000 r s4 (omega arith) (omega arith) in
      let at4 = λ (r : ℕ). l.register-write 0xC8 0x200EF r s3 (omega arith) (omega arith) in
      let at3 = λ (r : ℕ). l.register-write 0xF8 0x3 r s2 (omega arith) (omega arith) in
      let at2 =
        λ (r : ℕ). l.register-write 0x3C (bit_or svr 0x100) r s1 (omega arith) (omega arith) in
      (
        mapped ∙ here,
        ap (λ (v : ℕ). v / 2 ^ 8 % 2) (at 0x3C ∙ at4 0x3C ∙ at3 0x3C ∙ at2 0x3C)
            ∙ omega (arith, bit8 svr),
        at 0xF8 ∙ at4 0xF8 ∙ at3 0xF8,
        ap (λ (v : ℕ). v % 2 ^ 8) (at 0xC8 ∙ at4 0xC8),
        ap (λ (v : ℕ). v / 2 ^ 16) (at 0xC8 ∙ at4 0xC8),
        at 0xE0,
        λ v. refl,
      )

-- One interrupt of the timer through `isr_dispatch`, and `n` of them.
module _ (b : Bus) (d : Mmio) (X : Type 0) (call : ℕ → Machine b d X → Machine b d X) where
  abbrev pub timer_interrupts : ℕ → Machine b d X → Machine b d X
  timer_interrupts zero s = s
  timer_interrupts (suc n) s = timer_interrupts n (isr_dispatch b (Local b d X) call 0xEF 0 s)

module _ (b : Bus) (d : Mmio) (l : Lapic d) (X : Type 0) (c : Crtc b)
    (register-debug : (v r : ℕ) (s : b.State)
      → c.register (b.outb debug_port v s) r ≡ c.register s r) where
  -- The cursor stands on the cell `n`, the table sends the timer to `handler`, and `apic` points at
  -- the controller.
  pub record Ticking (handler n blinks ended : ℕ) (mem : Bytes) (other : X) (s : Machine b d X)
      : Type 0 where
    pub reached : s.interrupt_handlers 0xEF ≡ handler
    pub mapped : s.rest.apic ≡ l.base
    pub cursor : CursorAt b c n (screen b d X s)
    pub blinking : s.rest.blink_counter ≡ blinks
    pub acknowledged : l.ends s.rest.lapic ≡ ended
    pub unchanged : s.rest.mem ≡ mem
    pub others : s.rest.other ≡ other

  register-emit : (cs : List ℕ) (r : ℕ) (s : b.State) → c.register (emit b cs s) r ≡ c.register s r
  unfolding emit
  register-emit [] r s = refl
  register-emit (x ∷ cs) r s = register-emit cs r (b.outb debug_port x s) ∙ register-debug x r s

  apic_handler-Ticking :
      (handler n blinks ended : ℕ) (mem : Bytes) (other : X) (s : Machine b d X)
      → n < 2 ^ 15
      → blinks < 20
      → Ticking handler n blinks ended mem other s
      → Ticking handler n ((blinks + 1) % 20) (ended + 1) mem other (apic_handler b d X s)
  unfolding apic_handler count
  apic_handler-Ticking handler n blinks ended mem other s small below k =
      let eoi : ℕ = reg_at s.rest.apic 0x2C in
      let at_eoi : eoi ≡ l.base + 4 * 0x2C = omega (arith, k.mapped, l.page.1) in
      let end : l.ends (d.write32 eoi 0 s.rest.lapic) ≡ ended + 1 =
        ap (λ (a : ℕ). l.ends (d.write32 a 0 s.rest.lapic)) at_eoi
        ∙ l.ends-write 0x2C 0 s.rest.lapic (omega arith)
        ∙ ap (λ (x : ℕ). x + 1) k.acknowledged in
      elim (Bool-cases (leb 20 ((s.rest.blink_counter + 1) % 2 ^ 32))) [
        | inl due ↦
            let nought : 0 ≡ (blinks + 1) % 20 = ground (arith, k.blinking) in
            let (offset, at, same) = get_cursor_lem b c n (screen b d X s) k.cursor in
            let v = (get_cursor b (screen b d X s)).1 in
            let pos : ℕ = (get_cursor b (screen b d X s)).0 in
            let cell : pos / 2 ≡ n = omega (arith, offset) in
            let (moved, kept) = set_cursor_lem b c pos v (omega (arith, offset)) in
            let t : Machine b d X =
              on_screen b d X (set_cursor b pos v)
                (record s { rest = record s.rest { blink_counter = 0 } }) in
            let w : Machine b d X = record t {
              rest = record t.rest { lapic = d.write32 eoi 0 t.rest.lapic };
            } in
            let e : apic_handler b d X s ≡ w = rw due refl in
            let stays : CursorAt b c n (screen b d X w) =
              subst (λ (m : ℕ). CursorAt b c m (set_cursor b pos v)) cell moved in
            subst (Ticking handler n ((blinks + 1) % 20) (ended + 1) mem other) (sym e) (record {
              reached = k.reached;
              mapped = k.mapped;
              cursor = stays;
              blinking = nought;
              acknowledged = end;
              unchanged = kept ∙ same ∙ k.unchanged;
              others = k.others;
            })
        | inr early ↦
            let next : (s.rest.blink_counter + 1) % 2 ^ 32 ≡ (blinks + 1) % 20 =
              ground (arith, k.blinking) in
            let w : Machine b d X = record s {
              rest = record s.rest {
                blink_counter = (s.rest.blink_counter + 1) % 2 ^ 32;
                lapic = d.write32 eoi 0 s.rest.lapic;
              };
            } in
            let e : apic_handler b d X s ≡ w = rw early refl in
            subst (Ticking handler n ((blinks + 1) % 20) (ended + 1) mem other) (sym e) (record {
              reached = k.reached;
              mapped = k.mapped;
              cursor = record { high = k.cursor.high; low = k.cursor.low; small = k.cursor.small };
              blinking = next;
              acknowledged = end;
              unchanged = k.unchanged;
              others = k.others;
            })
      ]

  module _ (call : ℕ → Machine b d X → Machine b d X) (handler : ℕ) (there : handler ≢ 0)
      (calls : (s : Machine b d X) → call handler s ≡ apic_handler b d X s) where
    isr_dispatch-Ticking :
        (n blinks ended : ℕ) (mem : Bytes) (other : X) (s : Machine b d X)
        → n < 2 ^ 15
        → blinks < 20
        → Ticking handler n blinks ended mem other s
        → Ticking handler n
            ((blinks + 1) % 20)
            (ended + 1)
            mem
            other
            (isr_dispatch b (Local b d X) call 0xEF 0 s)
    unfolding isr_dispatch
    isr_dispatch-Ticking n blinks ended mem other s small below k =
        let s1 : Machine b d X = record s { ports = emit b (announce 0xEF 0) s.ports } in
        let e : isr_dispatch b (Local b d X) call 0xEF 0 s ≡ apic_handler b d X s1 =
          rw (k.reached, ==_ne handler 0 there) (calls s1) in
        let quiet = λ (r : ℕ). register-emit (announce 0xEF 0) r s.ports in
        let k1 : Ticking handler n blinks ended mem other s1 = record {
          reached = k.reached;
          mapped = k.mapped;
          cursor = record {
            high = quiet 14 ∙ k.cursor.high;
            low = quiet 15 ∙ k.cursor.low;
            small = k.cursor.small;
          };
          blinking = k.blinking;
          acknowledged = k.acknowledged;
          unchanged = k.unchanged;
          others = k.others;
        } in
        subst (Ticking handler n ((blinks + 1) % 20) (ended + 1) mem other) (sym e)
          (apic_handler-Ticking handler n blinks ended mem other s1 small below k1)

    -- After `count` interrupts of the timer through `isr_dispatch`, with the timer's vector
    -- registered, the pointer `apic` on the controller, the debug port no part of the CRT controller, the cursor below cell 2 ^ 15 and
    -- the counter below 20, the counter has gone `count` times around the interval of 20, each
    -- interrupt has been ended at the controller, and the cursor, the memory and the rest of the
    -- kernel are as they were.
    pub timer_interrupts-Ticking :
        (count n blinks ended : ℕ) (mem : Bytes) (other : X) (s : Machine b d X)
        → n < 2 ^ 15
        → blinks < 20
        → Ticking handler n blinks ended mem other s
        → Ticking handler n
            ((blinks + count) % 20)
            (ended + count)
            mem
            other
            (timer_interrupts b d X call count s)
    timer_interrupts-Ticking zero n blinks ended mem other s small below k =
        let same : blinks ≡ (blinks + 0) % 20 = omega arith in
        let none_more : ended ≡ ended + 0 = omega arith in
        subst (λ (x : ℕ). Ticking handler n ((blinks + 0) % 20) x mem other s) none_more
          (subst (λ (x : ℕ). Ticking handler n x ended mem other s) same k)
    timer_interrupts-Ticking (suc i) n blinks ended mem other s small below k =
        let s1 : Machine b d X = isr_dispatch b (Local b d X) call 0xEF 0 s in
        let k1 = isr_dispatch-Ticking n blinks ended mem other s small below k in
        let rest =
          timer_interrupts-Ticking i n ((blinks + 1) % 20) (ended + 1) mem other s1 small
            (omega arith) k1 in
        let t : Machine b d X = timer_interrupts b d X call i s1 in
        let around : ((blinks + 1) % 20 + i) % 20 ≡ (blinks + suc i) % 20 = omega arith in
        let more : ended + 1 + i ≡ ended + suc i = omega arith in
        subst (λ (x : ℕ). Ticking handler n x (ended + suc i) mem other t) around
          (subst (λ (x : ℕ). Ticking handler n (((blinks + 1) % 20 + i) % 20) x mem other t) more
            rest)
