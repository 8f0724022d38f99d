-- ===== src/Syscall/Tests.antt =====
-- System calls at concrete registers.
use alphix.Base.{
  ℕ, ◌-◌, ◌≤◌, ◌<◌, ◌≡◌, refl, none, some, [], ◌∷◌, ◌++◌, arith, if◌then◌else◌, length, get_or,
  drop, replicate,
}
use alphix.Memory.Copy.{within}
use alphix.Port.Quiet.{quiet}
use alphix.Keyboard.{Keyboard}
use alphix.Keyboard.Refine.{IsValid, contents}
use alphix.Syscall.{Kernel, sys_read, Registers}
use alphix.Syscall.Read.{sys_read_lem}

-- Three characters wait, round the end of the buffer.
abbrev keys : Keyboard
keys = record { kb_buf = b'b' ∷ b'c' ∷ replicate 125 0 ++ b'a' ∷ []; kb_head = 2; kb_tail = 127 }

keys-IsValid : IsValid keys
keys-IsValid = record { storage = refl; head_in = omega arith; tail_in = omega arith }

abbrev machine : Kernel quiet
machine = record { keyboard = keys; screen = record { mem = λ _. b'x'; ports = tt } }

sys_read_lem_example :
    let all = contents keys in
    (length all < 2 → sys_read quiet 0 4096 2 machine ≡ none)
    × (2 ≤ length all
        → (k' : Kernel quiet) × (sys_read quiet 0 4096 2 machine ≡ some (2, k'))
          × (contents k'.keyboard ≡ drop 2 all)
          × ((a : ℕ)
              → k'.screen.mem a ≡ (if within 4096 2 a then get_or all (a - 4096) 0 else b'x')))
sys_read_lem_example = sys_read_lem quiet 4096 2 machine keys-IsValid

-- A write to descriptor 7.
abbrev bad_write : Registers
bad_write = record { rax = 1; rdi = 7; rsi = 4096; rdx = 3 }
