-- ===== src/Syscall.antt =====
-- cpu/syscall.c: reading, writing and the dispatch of `int 0x80`.
-- The gate of `int 0x80` clears the interrupt flag and nothing sets it again, so no interrupt is
-- taken while a call runs: a `hlt` in it is for good. The caller's buffer lies in the memory that the
-- screen is part of. `none` is a call that does not return. Of the two functions `kprintf`, `sys_write`
-- is taken to call that of cpu/kprintf.c, whose header the file includes.
pub mod Read
pub mod Write
mod Tests
use alphix.Base.{
  ℕ, zero, suc, ◌+◌, ◌-◌, ◌*◌, ◌/◌, ◌%◌, ◌^◌, ◌≤◌, ◌<◌, ◌≡◌, ◌≢◌, refl, sym, ◌∙◌, ap, Bool, true,
  false, not, ◌&&◌, ◌||◌, ◌⊎◌, inl, inr, ◌↔◌, Option, none, some, List, [], ◌∷◌, ◌++◌, map, arith,
  ltb, leb, ◌==◌, ==_iff, ==_self, ==_ne, if◌then◌else◌, Bool-cases, Option-cases, length,
  length-append, get_elem?, get_or, set, take, drop, replicate, length-set, length-replicate,
  length-take, length-drop, length-map, take-append-drop, ltb→lt, lt→ltb, leb→le, tests,
  get_elem?-set_self, get_elem?-set_ne, ◌>>=◌, all_below, all_below_lem, bit_or_step, bit_or-zero,
  bit_or-one, bit_or_two, bit_or_128,
}
use alphix.Memory.{poke}
use alphix.Port.{Bus}
use alphix.Keyboard.{Keyboard, keyboard_buffer_pop}
use alphix.Printf.{Arg, word}
use alphix.Vga.{Vga}
use alphix.Editor.{kprintf}

-- `(uint64_t)-1`
abbrev failed : ℕ
failed = 2 ^ 64 - 1

-- A `char` passed where an `int` is expected keeps its sign.
abbrev pub promoted : ℕ → ℕ
promoted c = if ltb c 0x80 then c else 2 ^ 32 - 2 ^ 8 + c

-- `while (!keyboard_buffer_pop(&c)) hlt`: the character and the buffer.
pub read_char : Keyboard → Option (ℕ × Keyboard)
read_char k = elim (keyboard_buffer_pop k).0 [
  | some c ↦ some (c, (keyboard_buffer_pop k).1)
  | none ↦ none
]

-- Of `cpu_registers_t`, those that a call reads or writes.
pub record Registers : Type 0 where
  pub rax : ℕ
  pub rdi : ℕ
  pub rsi : ℕ
  pub rdx : ℕ

module _ (b : Bus) where
  pub record Kernel : Type 0 where
    pub keyboard : Keyboard
    pub screen : Vga b

  abbrev pub store : ℕ → ℕ → Kernel → Kernel
  store a c k = record k { screen = record k.screen { mem = poke k.screen.mem a c } }

  -- The loop of `sys_read`, with `left` rounds to go.
  pub read_loop : ℕ → ℕ → Kernel → Option Kernel
  read_loop zero p k = some k
  read_loop (suc left) p k = read_char k.keyboard >>= λ r.
      read_loop left (p + 1) (store p r.0 (record k { keyboard = r.1 }))

  pub sys_read : ℕ → ℕ → ℕ → Kernel → Option (ℕ × Kernel)
  sys_read fd buf count k =
      if fd == 0 then (read_loop count buf k >>= λ k1. some (count, k1)) else some (failed, k)

  -- The loop of `sys_write`: `kprintf("%c", buf[i])`.
  pub write_loop : ℕ → ℕ → Kernel → Option Kernel
  write_loop zero p k = some k
  write_loop (suc left) p k =
      kprintf b (b'%' ∷ b'c' ∷ []) (word (promoted (k.screen.mem p)) ∷ []) k.screen >>= λ v.
      write_loop left (p + 1) (record k { screen = v })

  pub sys_write : ℕ → ℕ → ℕ → Kernel → Option (ℕ × Kernel)
  sys_write fd buf count k =
      if (fd == 1) || (fd == 2)
      then (write_loop count buf k >>= λ k1. some (count, k1))
      else some (failed, k)

  -- Interrupts are off and the processor halts for good.
  pub sys_exit : ℕ → Kernel → Option (ℕ × Kernel)
  sys_exit status k = none

  pub syscall_handler : Registers → Kernel → Option (Registers × Kernel)
  syscall_handler regs k =
      (if regs.rax == 0
        then sys_read regs.rdi regs.rsi regs.rdx k
        else if regs.rax == 1
        then sys_write regs.rdi regs.rsi regs.rdx k
        else if regs.rax == 60
        then sys_exit regs.rdi k
        else some (failed, k))
      >>= λ r. some (record regs { rax = r.0 }, r.1)
