-- ===== src/Syscall/Write.antt =====
-- `sys_write` prints its buffer, where `kprintf` is that of cpu/kprintf.c, and what the handler refuses.
use alphix.Base.{
  ℕ, zero, suc, ◌+◌, ◌-◌, ◌%◌, ◌^◌, ◌≤◌, ◌<◌, ◌≡◌, ◌≢◌, refl, ◌∙◌, ap, true, ◌||◌, ◌⊎◌, inl, inr,
  some, List, [], ◌∷◌, arith, ◌==◌, ==_ne,
}
use alphix.Memory.{Bytes}
use alphix.Port.{Bus}
use alphix.Printf.{word, put, kvprintf}
use alphix.Printf.Run.{kvprintf_char}
use alphix.Vga.{Vga, video_address, gray_on_black, kputchar, put_chars}
use alphix.Vga.Frame.{kputchar-mem}
use alphix.Editor.{kprintf}
use alphix.Syscall.{promoted, Kernel, write_loop, sys_read, sys_write, Registers, syscall_handler}

-- The `n` bytes from `p` on.
abbrev pub bytes : Bytes → ℕ → ℕ → List ℕ
bytes m p zero = []
bytes m p (suc n) = m p ∷ bytes m (p + 1) n

bytes-same :
    (m m' : Bytes) (p n : ℕ)
    → ((a : ℕ) → p ≤ a → a < p + n → m' a ≡ m a)
    → bytes m' p n ≡ bytes m p n
bytes-same m m' p zero same = refl
bytes-same m m' p (suc n) same =
    rw
      (
        same p (omega arith) (omega arith),
        bytes-same m m' (p + 1) n (λ a lo hi. same a (omega arith) (omega arith)),
      )
      refl

kvprintf-promoted :
    (c : ℕ) → c < 2 ^ 8 → kvprintf (b'%' ∷ b'c' ∷ []) (word (promoted c) ∷ []) ≡ put (c ∷ [])
kvprintf-promoted c small =
    let same : promoted c % 2 ^ 8 ≡ c = ground arith in
    kvprintf_char (promoted c) ∙ ap (λ d. put (d ∷ [])) same

module _ (b : Bus) where
  write_loop_lem :
      (left p : ℕ) (k : Kernel b)
      → ((a : ℕ) → p ≤ a → a < p + left → k.screen.mem a < 2 ^ 8)
      → (p + left ≤ video_address) ⊎ (video_address + 2 ^ 16 < p)
      → write_loop b left p k
        ≡ some (record k { screen = put_chars b (bytes k.screen.mem p left) k.screen })
  unfolding write_loop put_chars kprintf
  write_loop_lem zero p k byte apart = refl
  write_loop_lem (suc left) p k byte apart =
      let c : ℕ = k.screen.mem p in
      let v : Vga b = kputchar b c gray_on_black k.screen in
      let same : (a : ℕ) → p + 1 ≤ a → a < p + 1 + left → v.mem a ≡ k.screen.mem a =
        λ a lo hi. kputchar-mem b c gray_on_black k.screen a (omega arith) in
      let printed : kprintf b (b'%' ∷ b'c' ∷ []) (word (promoted c) ∷ []) k.screen ≡ some v =
        rw (kvprintf-promoted c (byte p (omega arith) (omega arith)), kprintf) refl in
      let later =
        write_loop_lem left (p + 1) (record k { screen = v })
          (λ a lo hi. rw (same a lo hi) (byte a (omega arith) (omega arith))) (omega arith) in
      rw (printed, write_loop) (later ∙ rw (bytes-same k.screen.mem v.mem (p + 1) left same) refl)

  -- `sys_write` on descriptor 1 or 2, from a buffer off the screen, returns `count` and prints the
  -- buffer's bytes in order, as `put_chars` prints them: also zeros and bytes above 127.
  pub sys_write_lem :
      (fd buf count : ℕ) (k : Kernel b)
      → (fd ≡ 1) ⊎ (fd ≡ 2)
      → ((a : ℕ) → buf ≤ a → a < buf + count → k.screen.mem a < 2 ^ 8)
      → (buf + count ≤ video_address) ⊎ (video_address + 2 ^ 16 < buf)
      → sys_write b fd buf count k
        ≡ some (count, record k { screen = put_chars b (bytes k.screen.mem buf count) k.screen })
  unfolding sys_write
  sys_write_lem fd buf count k which byte apart =
      let good : ((fd == 1) || (fd == 2)) ≡ true = ground arith in
      rw (good, write_loop_lem count buf k byte apart) refl

  -- A number that is no system call, a read on any descriptor but 0 and a write on any but 1 and 2
  -- put -1 in `rax` and change nothing else.
  pub syscall_handler_rejects :
      (regs : Registers) (k : Kernel b)
      → ((regs.rax ≢ 0) × (regs.rax ≢ 1) × (regs.rax ≢ 60))
        ⊎ (((regs.rax ≡ 0) × (regs.rdi ≢ 0)) ⊎ ((regs.rax ≡ 1) × (regs.rdi ≢ 1) × (regs.rdi ≢ 2)))
      → syscall_handler b regs k ≡ some (record regs { rax = 2 ^ 64 - 1 }, k)
  unfolding syscall_handler sys_read sys_write
  syscall_handler_rejects regs k (inl (n0, n1, n60)) =
      rw (==_ne regs.rax 0 n0, ==_ne regs.rax 1 n1, ==_ne regs.rax 60 n60) refl
  syscall_handler_rejects regs k (inr (inl (read, bad))) = rw (read, ==_ne regs.rdi 0 bad) refl
  syscall_handler_rejects regs k (inr (inr (write, bad1, bad2))) =
      rw (write, ==_ne regs.rdi 1 bad1, ==_ne regs.rdi 2 bad2) refl
