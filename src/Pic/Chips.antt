-- ===== src/Pic/Chips.antt =====
-- The 8259A as its data sheet describes it: what is behind the ports is no code of the kernel.
use alphix.Base.{ℕ, ◌+◌, ◌%◌, ◌^◌, ◌≡◌, ◌==◌, if◌then◌else◌}
use alphix.Port.{Bus}

-- `phase` counts the initialisation words that are still to come, in the order they are taken: 0 is
-- normal operation, 1 waits for the offset, 2 for the cascade and 3 for the mode. `ends` counts the
-- commands that end an interrupt.
pub record Chip : Type 0 where
  pub phase : ℕ
  pub mask : ℕ
  pub offset : ℕ
  pub cascade : ℕ
  pub mode : ℕ
  pub ends : ℕ

-- A byte at the command port: the start of an initialisation, which clears the mask, or the end of
-- an interrupt.
abbrev pub command : ℕ → Chip → Chip
command v c =
    if v == 0x11
    then record c { phase = 1; mask = 0 }
    else if v == 0x20
    then record c { ends = c.ends + 1 }
    else c

-- A byte at the data port.
abbrev pub datum : ℕ → Chip → Chip
datum v c =
    if c.phase == 0
    then record c { mask = v % 2 ^ 8 }
    else if c.phase == 1
    then record c { phase = 2; offset = v % 2 ^ 8 }
    else if c.phase == 2
    then record c { phase = 3; cascade = v % 2 ^ 8 }
    else record c { phase = 0; mode = v % 2 ^ 8 }

-- Two chips behind the four ports. A read of the data port in normal operation gives the mask.
pub record Pics (b : Bus) : Type 0 where
  pub master : b.State → Chip
  pub slave : b.State → Chip
  pub master-command1 : (v : ℕ) (s : b.State) → master (b.outb 0x20 v s) ≡ command v (master s)
  pub slave-command1 : (v : ℕ) (s : b.State) → slave (b.outb 0x20 v s) ≡ slave s
  pub master-command2 : (v : ℕ) (s : b.State) → master (b.outb 0xA0 v s) ≡ master s
  pub slave-command2 : (v : ℕ) (s : b.State) → slave (b.outb 0xA0 v s) ≡ command v (slave s)
  pub master-data1 : (v : ℕ) (s : b.State) → master (b.outb 0x21 v s) ≡ datum v (master s)
  pub slave-data1 : (v : ℕ) (s : b.State) → slave (b.outb 0x21 v s) ≡ slave s
  pub master-data2 : (v : ℕ) (s : b.State) → master (b.outb 0xA1 v s) ≡ master s
  pub slave-data2 : (v : ℕ) (s : b.State) → slave (b.outb 0xA1 v s) ≡ datum v (slave s)
  pub read1 : (s : b.State) → (master s).phase ≡ 0 → (b.inb 0x21 s).0 ≡ (master s).mask
  pub read2 : (s : b.State) → (slave s).phase ≡ 0 → (b.inb 0xA1 s).0 ≡ (slave s).mask
  pub master-read1 : (s : b.State) → master (b.inb 0x21 s).1 ≡ master s
  pub slave-read1 : (s : b.State) → slave (b.inb 0x21 s).1 ≡ slave s
  pub master-read2 : (s : b.State) → master (b.inb 0xA1 s).1 ≡ master s
  pub slave-read2 : (s : b.State) → slave (b.inb 0xA1 s).1 ≡ slave s
