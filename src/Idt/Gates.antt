-- ===== src/Idt/Gates.antt =====
-- What a processor reads in the gates that `idt_init` writes.
use alphix.Base.{
  ℕ, zero, suc, ◌+◌, ◌*◌, ◌/◌, ◌%◌, ◌^◌, ◌≤◌, ◌<◌, ◌≡◌, refl, ◌∙◌, true, false, ◌&&◌, inl, inr, ◌↔◌,
  arith, ltb, leb, ◌==◌, if◌then◌else◌, Bool-cases,
}
use alphix.Idt.{IdtEntry, gate, idt_set_gate, gate_flags, init_loop, idt_init}

-- The address, the privilege and the presence of a gate, as the processor puts them together.
abbrev pub address : IdtEntry → ℕ
address e = e.offset_low + e.offset_mid * 2 ^ 16 + e.offset_high * 2 ^ 32

abbrev pub privilege : IdtEntry → ℕ
privilege e = e.type_attr / 2 ^ 5 % 4

abbrev pub present : IdtEntry → ℕ
present e = e.type_attr / 2 ^ 7

init_loop-at :
    (left : ℕ) (stubs : ℕ → ℕ) (i : ℕ) (idt : ℕ → IdtEntry) (v : ℕ)
    → i + left ≤ 256
    → init_loop left stubs i idt v
      ≡ (if leb i v && ltb v (i + left) then gate (stubs v) (gate_flags v) else idt v)
unfolding init_loop idt_set_gate
init_loop-at zero stubs i idt v h =
    let none_left : (leb i v && ltb v (i + 0)) ≡ false = ground arith in rw none_left refl
init_loop-at (suc left) stubs i idt v h =
    let small : i % 2 ^ 8 ≡ i = omega arith in
    rw
      (
        init_loop-at left stubs (i + 1) (idt_set_gate idt (i % 2 ^ 8) (stubs i) (gate_flags i)) v
            (omega arith),
        small,
      )
      (elim (Bool-cases (v == i)) [
        | inl here ↦
            let same : v ≡ i = ground arith in
            let later : (leb (i + 1) v && ltb v (i + 1 + left)) ≡ false = ground arith in
            let now : (leb i v && ltb v (i + suc left)) ≡ true = ground arith in
            rw (later, now, here, same) refl
        | inr other ↦
            let e : (leb (i + 1) v && ltb v (i + 1 + left)) ≡ (leb i v && ltb v (i + suc left)) =
              ground arith in
            rw (e, other) refl
      ])

-- After `idt_init` the gate of every vector is present, in the kernel's code segment, and leads to
-- the vector's stub (an address below `2 ^ 64`); it is open to ring 3 exactly for the vector 0x80.
pub idt_init_lem :
    (stubs : ℕ → ℕ) (idt : ℕ → IdtEntry) (v : ℕ)
    → v < 256
    → stubs v < 2 ^ 64
    → let e = idt_init stubs idt v in
      (address e ≡ stubs v)
      × (e.selector ≡ 0x08)
      × (present e ≡ 1)
      × ((privilege e ≡ 3) ↔ (v ≡ 0x80))
unfolding idt_init gate gate_flags
idt_init_lem stubs idt v h small =
    let inside : (leb 0 v && ltb v (0 + 256)) ≡ true = ground arith in
    let e : idt_init stubs idt v ≡ gate (stubs v) (gate_flags v) =
      init_loop-at 256 stubs 0 idt v (omega arith) ∙ rw inside refl in
    rw e (omega arith, refl, ground arith, (ground arith, ground arith))
