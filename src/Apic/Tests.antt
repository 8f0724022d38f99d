-- ===== src/Apic/Tests.antt =====
-- The timer on a machine with a CRT controller and a local interrupt controller of registers.
use alphix.Base.{
  ℕ, ◌+◌, ◌-◌, ◌*◌, ◌/◌, ◌%◌, ◌^◌, ◌<◌, ◌≡◌, refl, ◌∙◌, ap, Bool, true, ◌&&◌, arith, ltb, leb, ◌==◌,
  ==_ne, Bool-cases, inl, inr, if◌then◌else◌,
}
use alphix.Port.Crt.{bus, crtc}
use alphix.Apic.{Mmio, Machine, apic_init, apic_handler}
use alphix.Apic.Timer.{Lapic, Ticking, apic_init_lem, timer_interrupts, timer_interrupts-Ticking}

record LapicState : Type 0 where
  register : ℕ → ℕ
  ends : ℕ

-- The page of the controller.
abbrev page_at : ℕ
page_at = 0xFEE00000

abbrev in_page : ℕ → Bool
in_page a = leb page_at a && ltb a (page_at + 2 ^ 12)

abbrev write_in : ℕ → ℕ → LapicState → LapicState
write_in i v s =
    if i == 0x2C
    then record s { ends = s.ends + 1 }
    else record s { register = λ r. if r == i then v % 2 ^ 32 else s.register r }

abbrev write_register : ℕ → ℕ → LapicState → LapicState
write_register a v s = if in_page a then write_in ((a - page_at) / 4) v s else s

abbrev registers : Mmio
registers = record {
  State = LapicState;
  write32 = write_register;
  read32 = λ a s. (if in_page a then s.register ((a - page_at) / 4) else 0, s);
}

in_page_lem :
    (i : ℕ)
    → i < 2 ^ 10
    → (in_page (page_at + 4 * i) ≡ true) × ((page_at + 4 * i - page_at) / 4 ≡ i)
in_page_lem i small = (ground arith, omega arith)

write_register_lem :
    (i v : ℕ) (s : LapicState) → i < 2 ^ 10 → write_register (page_at + 4 * i) v s ≡ write_in i v s
write_register_lem i v s small =
    let (inside, index) = in_page_lem i small in rw (inside, index) refl

ends-write_if :
    (i v : ℕ) (s : LapicState) → (write_in i v s).ends ≡ s.ends + (if i == 0x2C then 1 else 0)
ends-write_if i v s = elim (Bool-cases (i == 0x2C)) [
  | inl end ↦ rw end refl
  | inr other ↦ rw other (omega arith)
]

abbrev lapic : Lapic registers
lapic = record {
  base = page_at;
  page = (refl, omega arith);
  register = λ s. s.register;
  ends = λ s. s.ends;
  register-write = λ i v r s small other.
      ap (λ (t : LapicState). t.register r) (write_register_lem i v s small)
      ∙ rw (==_ne i 0x2C other) refl;
  register-end = λ v r s. refl;
  ends-write = λ i v s small.
      ap (λ (t : LapicState). t.ends) (write_register_lem i v s small) ∙ ends-write_if i v s;
  read = λ i s small. let (inside, index) = in_page_lem i small in rw (inside, index) refl;
  register-read = λ i r s small. refl;
}

-- The table sends every vector to the handler 5.
abbrev start : Machine bus registers ℕ
start = record {
  interrupt_handlers = λ v. 5;
  ports = record { selected = 0; registers = λ r. if r == 15 then 85 else 0 };
  rest = record {
    apic = page_at;
    lapic = record { register = λ r. 0; ends = 3 };
    blink_counter = 18;
    mem = λ a. a % 251;
    other = 9;
  };
}

abbrev call : ℕ → Machine bus registers ℕ → Machine bus registers ℕ
call h s = apic_handler bus registers ℕ s

timer_interrupts-Ticking_example :
    Ticking bus registers lapic ℕ crtc
      (λ v r s. refl)
      5
      85
      2
      7
      (λ a. a % 251)
      9
      (timer_interrupts bus registers ℕ call 4 start)
timer_interrupts-Ticking_example =
    timer_interrupts-Ticking bus registers lapic ℕ crtc (λ v r s. refl) call 5 (omega arith)
      (λ s. refl) 4 85 18 3 (λ a. a % 251) 9 start (omega arith) (omega arith)
      (record {
        reached = refl;
        mapped = refl;
        cursor = record { high = refl; low = refl; small = omega arith };
        blinking = refl;
        acknowledged = refl;
        unchanged = refl;
        others = refl;
      })

apic_init_lem_example :
    let t = apic_init bus registers ℕ 0xFEE00900 5 start in
    let reg = t.rest.lapic.register in
    (t.rest.apic ≡ 0xFEE00000)
    × (reg 0x3C / 2 ^ 8 % 2 ≡ 1)
    × (reg 0xF8 ≡ 3)
    × (reg 0xC8 % 2 ^ 8 ≡ 0xEF)
    × (reg 0xC8 / 2 ^ 16 ≡ 2)
    × (reg 0xE0 ≡ 0x100000)
    × ((v : ℕ) → t.interrupt_handlers v ≡ (if v == 0xEF then 5 else start.interrupt_handlers v))
apic_init_lem_example =
    apic_init_lem bus registers lapic ℕ 0xFEE00900 5 start (omega arith) (omega arith)
