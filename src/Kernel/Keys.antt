-- ===== src/Kernel/Keys.antt =====
-- `kgetch` with the interrupts that arrive, against `kgetch` over the scancodes alone, where the
-- compiled wait reads its flag in each round.
use alphix.Base.{
  ℕ, ◌+◌, ◌%◌, ◌^◌, ◌≡◌, ◌≢◌, refl, sym, ◌∙◌, ap, Bool, true, false, inl, inr, Option, none, some,
  List, [], ◌∷◌, leb, ◌==◌, ==_self, ==_ne, if◌then◌else◌, Bool-cases, Option-cases, ◌>>=◌, some_of,
  not_none,
}
use alphix.Port.{Bus}
use alphix.Irq.{idt_register_handler, idt_uninstall_handler, isr_dispatch, announce}
use alphix.Debug.{emit}
use alphix.Getch.{Getch, getch_handler, wait, kgetch}
use alphix.Getch.Laws.{wait-ended, wait-step}
use alphix.Apic.{Mmio, Local, Machine, count, apic_handler}
use alphix.Kernel.{
  Parts, Image, Event, key, timer, System, parts, with_parts, call, deliver, wait_events,
  kgetch_events,
}

-- The scancodes among the interrupts.
abbrev pub codes : List Event → List ℕ
codes [] = []
codes (key code ∷ events) = code ∷ codes events
codes (timer ∷ events) = codes events

module _ (b : Bus) (d : Mmio) where
  apic_handler-parts :
      (s : Machine b d Parts)
      → ((apic_handler b d Parts s).rest.other ≡ s.rest.other)
        × ((apic_handler b d Parts s).interrupt_handlers ≡ s.interrupt_handlers)
  unfolding apic_handler count
  apic_handler-parts s = elim (Bool-cases (leb 20 ((s.rest.blink_counter + 1) % 2 ^ 32))) [
    | inl due ↦ rw due (refl, refl)
    | inr early ↦ rw early (refl, refl)
  ]

-- The handlers are where they are registered while `kgetch` waits, and are not `NULL`.
pub record Handlers (i : Image) : Type 0 where
  pub apic_there : i.apic_handler_at ≢ 0
  pub getch_there : i.getch_handler_at ≢ 0
  pub apart : i.getch_handler_at ≢ i.apic_handler_at

module _ (b : Bus) (d : Mmio) (i : Image) (ok : Handlers i) where
  abbrev Waits : System b d i → Type 0
  Waits s =
      (s.interrupt_handlers 33 ≡ i.getch_handler_at)
      × (s.interrupt_handlers 0xEF ≡ i.apic_handler_at)

  deliver-key :
      (code : ℕ) (s : System b d i)
      → Waits s
      → ((parts b d i (deliver b d i (key code) s)).keys ≡ getch_handler code (parts b d i s).keys)
        × ((deliver b d i (key code) s).interrupt_handlers ≡ s.interrupt_handlers)
  unfolding deliver isr_dispatch call
  deliver-key code s w =
      rw
        (
          w.0,
          ==_ne i.getch_handler_at 0 ok.getch_there,
          ==_ne i.getch_handler_at i.apic_handler_at ok.apart,
          ==_self i.getch_handler_at,
        )
        (refl, refl)

  deliver-timer :
      (s : System b d i)
      → Waits s
      → ((parts b d i (deliver b d i timer s)).keys ≡ (parts b d i s).keys)
        × ((deliver b d i timer s).interrupt_handlers ≡ s.interrupt_handlers)
  unfolding deliver isr_dispatch call
  deliver-timer s w =
      let s1 : System b d i = record s { ports = emit b (announce 0xEF 0) s.ports } in
      let (same, table) = apic_handler-parts b d s1 in
      rw (w.1, ==_ne i.apic_handler_at 0 ok.apic_there, ==_self i.apic_handler_at)
        (ap (λ (p : Parts). p.keys) same, table)

  abbrev seen : Option (System b d i × List Event) → Option (ℕ × Getch × List ℕ)
  seen none = none
  seen (some (s, events)) =
      some ((parts b d i s).keys.getch_char, (parts b d i s).keys, codes events)

  wait_events-step :
      (e : Event) (events : List Event) (s : System b d i)
      → (parts b d i s).keys.getch_end ≡ false
      → wait_events b d i true (e ∷ events) s ≡ wait_events b d i true events (deliver b d i e s)
  unfolding wait_events
  wait_events-step e events s more =
      ap
        (λ (t : Bool).
          if t then some (s, e ∷ events) else wait_events b d i true events (deliver b d i e s))
        more

  wait_events-ended :
      (events : List Event) (s : System b d i)
      → (parts b d i s).keys.getch_end ≡ true
      → wait_events b d i true events s ≡ some (s, events)
  unfolding wait_events
  wait_events-ended [] s done = ap (λ (t : Bool). if t then some (s, []) else none) done
  wait_events-ended (e ∷ events) s done =
      ap
        (λ (t : Bool).
          if t then some (s, e ∷ events) else wait_events b d i true events (deliver b d i e s))
        done

  ended-seen :
      (events : List Event) (s : System b d i)
      → (parts b d i s).keys.getch_end ≡ true
      → seen (wait_events b d i true events s) ≡ wait true (codes events) (parts b d i s).keys
  ended-seen events s done =
      ap seen (wait_events-ended events s done)
      ∙ sym (wait-ended (codes events) (parts b d i s).keys done)

  wait_events-seen :
      (events : List Event) (s : System b d i)
      → Waits s
      → seen (wait_events b d i true events s) ≡ wait true (codes events) (parts b d i s).keys
  unfolding wait_events wait
  wait_events-seen [] s w = elim (Bool-cases (parts b d i s).keys.getch_end) [
    | inl done ↦ ended-seen [] s done
    | inr more ↦
        ap (λ (t : Bool). seen (if t then some (s, []) else none)) more
        ∙ sym (
            ap
              (λ (t : Bool).
                if t
                then some ((parts b d i s).keys.getch_char, (parts b d i s).keys, [])
                else none)
              more)
  ]
  wait_events-seen (key code ∷ events) s w =
      let (keys, table) = deliver-key code s w in
      let t : System b d i = deliver b d i (key code) s in
      let w1 : Waits t =
        (ap (λ (f : ℕ → ℕ). f 33) table ∙ w.0, ap (λ (f : ℕ → ℕ). f 0xEF) table ∙ w.1) in
      elim (Bool-cases (parts b d i s).keys.getch_end) [
        | inl done ↦ ended-seen (key code ∷ events) s done
        | inr more ↦
            ap seen (wait_events-step (key code) events s more)
            ∙ wait_events-seen events t w1
            ∙ ap (wait true (codes events)) keys
            ∙ sym (wait-step code (codes events) (parts b d i s).keys more)
      ]
  wait_events-seen (timer ∷ events) s w =
      let (keys, table) = deliver-timer s w in
      let t : System b d i = deliver b d i timer s in
      let w1 : Waits t =
        (ap (λ (f : ℕ → ℕ). f 33) table ∙ w.0, ap (λ (f : ℕ → ℕ). f 0xEF) table ∙ w.1) in
      elim (Bool-cases (parts b d i s).keys.getch_end) [
        | inl done ↦ ended-seen (timer ∷ events) s done
        | inr more ↦
            ap seen (wait_events-step timer events s more)
            ∙ wait_events-seen events t w1
            ∙ ap (wait true (codes events)) keys
      ]

  -- Where the wait reads its flag in each round: whatever interrupts of the keyboard and the timer
  -- arrive, and in whatever order, `kgetch` as it runs with them (the handler registered for the
  -- vector 33, each interrupt through `isr_dispatch`, the handler uninstalled) returns, and leaves
  -- in the key state and among the interrupts to come, what `kgetch` over the scancodes alone does;
  -- and it waits on exactly if that does. The timer's handler is registered, and the two handlers
  -- are apart and not null.
  pub kgetch_events-seen :
      (events : List Event) (s : System b d i)
      → s.interrupt_handlers 0xEF ≡ i.apic_handler_at
      → (kgetch_events b d i true events s >>= λ r. some (r.0, (parts b d i r.1).keys, codes r.2))
        ≡ kgetch true (codes events) (parts b d i s).keys
  unfolding kgetch_events kgetch idt_register_handler idt_uninstall_handler
  kgetch_events-seen events s apic_at =
      let fresh = record (parts b d i s).keys { getch_end = false; getch_char = 0 } in
      let start : System b d i =
        idt_register_handler b (Local b d Parts) 33 i.getch_handler_at
          (with_parts b d i (record (parts b d i s) { keys = fresh }) s) in
      let e : seen (wait_events b d i true events start) ≡ wait true (codes events) fresh =
        wait_events-seen events start (refl, apic_at) in
      elim (Option-cases (wait_events b d i true events start)) [
        | inl nothing ↦ rw nothing (sym (ap seen nothing) ∙ e)
        | inr (r, found) ↦ rw found (sym (ap seen found) ∙ e)
      ]

  deliver-table :
      (e : Event) (s : System b d i)
      → Waits s
      → (deliver b d i e s).interrupt_handlers ≡ s.interrupt_handlers
  deliver-table (key code) s w = (deliver-key code s w).1
  deliver-table timer s w = (deliver-timer s w).1

  wait_events-table :
      (events rest : List Event) (s t : System b d i)
      → Waits s
      → wait_events b d i true events s ≡ some (t, rest)
      → t.interrupt_handlers ≡ s.interrupt_handlers
  unfolding wait_events
  wait_events-table [] rest s t w e = elim (Bool-cases (parts b d i s).keys.getch_end) [
    | inl done ↦
        ap (λ (r : System b d i × List Event). r.0.interrupt_handlers)
          (some_of (sym e ∙ wait_events-ended [] s done))
    | inr more ↦
        absurd (not_none (sym (ap (λ (t : Bool). if t then some (s, []) else none) more) ∙ e))
  ]
  wait_events-table (x ∷ events) rest s t w e = elim (Bool-cases (parts b d i s).keys.getch_end) [
    | inl done ↦
        ap (λ (r : System b d i × List Event). r.0.interrupt_handlers)
          (some_of (sym e ∙ wait_events-ended (x ∷ events) s done))
    | inr more ↦
        let same = deliver-table x s w in
        let w1 : Waits (deliver b d i x s) =
          (ap (λ (f : ℕ → ℕ). f 33) same ∙ w.0, ap (λ (f : ℕ → ℕ). f 0xEF) same ∙ w.1) in
        wait_events-table events rest (deliver b d i x s) t w1
          (sym (wait_events-step x events s more) ∙ e)
        ∙ same
  ]

  -- Where the wait reads its flag in each round, `kgetch` leaves the table of handlers as it was,
  -- but for the keyboard's, which is uninstalled.
  pub kgetch_events-table :
      (events rest : List Event) (s t : System b d i) (c v : ℕ)
      → s.interrupt_handlers 0xEF ≡ i.apic_handler_at
      → kgetch_events b d i true events s ≡ some (c, t, rest)
      → t.interrupt_handlers v ≡ (if v == 33 then 0 else s.interrupt_handlers v)
  unfolding kgetch_events idt_register_handler idt_uninstall_handler
  kgetch_events-table events rest s t c v apic_at e =
      let fresh = record (parts b d i s).keys { getch_end = false; getch_char = 0 } in
      let start : System b d i =
        idt_register_handler b (Local b d Parts) 33 i.getch_handler_at
          (with_parts b d i (record (parts b d i s) { keys = fresh }) s) in
      elim (Option-cases (wait_events b d i true events start)) [
        | inl nothing ↦ absurd (not_none (sym (rw nothing refl) ∙ e))
        | inr (r, found) ↦
            let table = wait_events-table events r.1 start r.0 (refl, apic_at) found in
            let end : (c, t, rest) ≡ (
              (parts b d i r.0).keys.getch_char,
              idt_uninstall_handler b (Local b d Parts) 33 r.0,
              r.1,
            ) =
              some_of (sym e ∙ rw found refl) in
            ap (λ (q : ℕ × System b d i × List Event). q.1.interrupt_handlers v) end
            ∙ ap (λ (f : ℕ → ℕ). if v == 33 then 0 else f v) table
            ∙ elim (Bool-cases (v == 33)) [ inl its ↦ rw its refl | inr other ↦ rw other refl ]
      ]
