-- ===== src/Debug/Tests.antt =====
-- Runs of `qemu_debug_printf`, and its theorem on numbers at a concrete one.
use alphix.Base.{◌-◌, ◌^◌, ◌≡◌, refl, some, [], ◌∷◌}
use alphix.Printf.{word}
use alphix.Debug.{qemu_debug_putc, digits_up, put_uint, put_int, debug_convert, qemu_debug_printf}

-- A width is not understood: `%08X` prints itself, and takes no argument.
width-ignored :
    qemu_debug_printf (b'%' ∷ b'0' ∷ b'8' ∷ b'X' ∷ []) (word 255 ∷ [])
    ≡ some (b'%' ∷ b'0' ∷ b'8' ∷ b'X' ∷ [])
unfolding qemu_debug_printf debug_convert qemu_debug_putc
width-ignored = refl

minus_five :
    qemu_debug_printf (b'%' ∷ b'd' ∷ 0x0a ∷ []) (word (2 ^ 32 - 5) ∷ [])
    ≡ some (b'-' ∷ b'5' ∷ 0x0d ∷ 0x0a ∷ [])
unfolding qemu_debug_printf debug_convert qemu_debug_putc put_int put_uint digits_up
minus_five = refl
