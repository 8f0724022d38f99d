-- ===== src/Port.antt =====
-- Port input and output: `inb` and `outb` of cpu/cpu.c stand for one instruction each, and what
-- lies behind the ports is no code of the kernel. It enters as a parameter.
pub mod Crt
pub mod Quiet
use alphix.Base.{ℕ, ◌≡◌, ◌==◌, if◌then◌else◌}

-- The devices behind the ports. A read may change their state too.
pub record Bus : Type 1 where
  pub State : Type 0
  pub outb : ℕ → ℕ → State → State
  pub inb : ℕ → State → ℕ × State

abbrev pub reg_screen_ctrl : ℕ
reg_screen_ctrl = 0x3d4

abbrev pub reg_screen_data : ℕ
reg_screen_data = 0x3d5

-- The CRT controller as its manuals describe it: a byte written to the control port selects a
-- register, and the data port writes and reads the register that is selected.
pub record Crtc (b : Bus) : Type 0 where
  pub selected : b.State → ℕ
  pub register : b.State → ℕ → ℕ
  pub selected-outb_ctrl : (i : ℕ) (s : b.State) → selected (b.outb reg_screen_ctrl i s) ≡ i
  pub register-outb_ctrl :
      (i r : ℕ) (s : b.State) → register (b.outb reg_screen_ctrl i s) r ≡ register s r
  pub selected-outb_data :
      (v : ℕ) (s : b.State) → selected (b.outb reg_screen_data v s) ≡ selected s
  pub register-outb_data :
      (v r : ℕ) (s : b.State)
      → register (b.outb reg_screen_data v s) r ≡ (if r == selected s then v else register s r)
  pub inb_data : (s : b.State) → (b.inb reg_screen_data s).0 ≡ register s (selected s)
  pub selected-inb_data : (s : b.State) → selected (b.inb reg_screen_data s).1 ≡ selected s
  pub register-inb_data :
      (r : ℕ) (s : b.State) → register (b.inb reg_screen_data s).1 r ≡ register s r
