-- ===== src/Lib.antt =====
-- Alphix, a 64-bit kernel: a verification library for its allocator, its memory map, its interrupts,
-- its input and its output.
--
-- The parts of the kernel and the files that model them (paths from the repository's root):
--   Heap      mem/heap.c, include/mem/heap.h: the block allocator. The state `Heap` is the static
--             `kernel_heap` together with the block headers in memory and the messages that
--             `kprintf` was called with. `heap_init`, `heap_find_free_block`, `heap_split_block`,
--             `heap_merge_adjacent_blocks`, `heap_expand_heap`, `kmalloc`, `kmfree` and the
--             statistics have the names of the source; `find_loop`, `last_loop`, `validate_loop`
--             and `used_loop` are its loops over the chain. Heap/Report has the statistics. Heap/Inv
--             says when a heap holds a list of cells (a size and a mark each); Heap/Alloc and
--             Heap/Free say what the operations do to that list; Heap/Reuse follows several calls.
--   Keyboard  drivers/input/keyboard.c: the ring buffer. Keyboard/Queue is the queue it implements.
--   Memory    libc/string.c: `memset`, `memcpy`, `memcp`, `memmove`, `memcmp`. Memory/Words are words
--             of several bytes in memory.
--   Text      libc/string.c: the functions on strings that end with a zero.
--   Number    libc/string.c: `reverse`, `intToString`, `itoa`, `atoi` and `to_integer`.
--   Token     libc/string.c: `strtok`. Token/Words is the list of pieces that its calls return, and the
--             specification of `split` too.
--   Vga       drivers/output/vga.c, include/out/vga.h: the text console. Its screen is memory from
--             0xb8000 on; its cursor is in two registers of the CRT controller. Vga/Frame says what
--             the console does not write to, and Vga/Aside what it leaves alone behind the ports;
--             Vga/Format is the `kprintf` of that file, with its colour codes.
--   Port      the ports that the console, the interrupt controllers and the debug output use. What
--             is behind them is not code of the repository: `Bus` is a parameter, and `Crtc` states
--             what a CRT controller does.
--   Printf    cpu/kprintf.c: `kvprintf`, as the list of the characters that it puts.
--   Keys      cpu/cpu.c, include/in/keys.h: `get_acsii_low` and `get_acsii_high`.
--   Getch     cpu/kprintf.c: `getch_handler` and `kgetch`. Its flag `getch_end` is not `volatile`:
--             the parameter `rereads` says whether the compiled wait reads it in each round or once.
--   Editor    cpu/kprintf.c: `kprintf` on the console, `kscan_handler` and `kscan`, the line editor.
--             Editor/Line is the line that a user sees, with a place in it; Editor/Refine and
--             Editor/Wait relate the two, and Editor/Return follows `kscan` to its end.
--   Syscall   cpu/syscall.c: `sys_read` over the ring buffer of Keyboard, `sys_write` over the
--             console, and `syscall_handler`. The gate clears the interrupt flag: a `hlt` is for good.
--   Idt       cpu/idt.c, include/cpu/idt.h: `idt_set_gate` and `idt_init`, the interrupt gates.
--   Irq       cpu/idt.c: the table of handlers and `isr_dispatch`. What a handler does is a
--             parameter.
--   Pic       cpu/pic.c, include/cpu/pic.h: the pair of interrupt controllers, and how kernel/kernel.c
--             sets them up. Pic/Chips states what the chips do; Pic/Pair is a bus with such chips.
--   Gdt       cpu/gdt.c, include/cpu/gdt.h, cpu/tss.c: `gdt_set_entry`, `gdt_init` and
--             `gdt_set_tss_entry`, the segments and the descriptor of the task state.
--   Paging    mem/paging.c, include/mem/paging.h: `paging_init`. Paging/Walk is the walk through the
--             tables that the processor makes.
--   Debug     debug.c: `qemu_debug_printf`, as the bytes that it sends.
--   Boot      kernel/kernel.c, include/multiboot2.h: `parse_multiboot2`.
--   Tss       cpu/tss.c, include/cpu/tss.h: `tss_init`. Tss/State is what the processor reads in it.
--   Apic      cpu/apic.c: `apic_init` and `apic_handler`. The controller's registers in memory are a
--             parameter, `Mmio`; Apic/Timer states what a local controller does with them.
--   Split     libc/string.c: `split`, `splitString`, `strdup` and `tostr`, over `kmalloc` and `kmfree` of Heap,
--             which `malloc` and `mfree` call.
--   Kernel    kernel/kernel.c: `kernel_main`; `kgetch` of cpu/kprintf.c with the interrupts that come
--             while it waits, and `cpu_enable_interrupts` of cpu/cpu.c. Kernel/Keys relates the wait to
--             Getch, Kernel/Prompt is the loop at the end, Kernel/Steps and Kernel/Start are the
--             start-up, Kernel/Ends is the end of the loop on the key `q` (over Getch/Held, the modifiers
--             that scancodes leave), and Kernel/Main is the whole.
--   Base      shared names, the tests on numbers, the laws of `bit_or`, the bind of `Option` and the
--             lists over the native numbers.
-- The console copies rows with `memcpy`; `kprintf` puts characters on the console; `kgetch` and
-- `kscan` read keys through the layout of Keys; `kscan` edits its buffer with `strins`, `memmove`,
-- `strnone` and `strncpy`; `isr_dispatch` reports to Debug and acknowledges at Pic. The Tests module
-- of a part runs it on concrete states.
--
-- Integers are natural numbers with the wrap-around of their width written out: addresses and
-- `size_t` at 2 ^ 64, header fields and counters at 2 ^ 32, offsets on the screen at 2 ^ 16.
-- Pointers to strings and to copied bytes do not wrap.
--
-- Fuel. A walk along the chain of blocks has one round more than `total_blocks`: enough for every
-- block and for the `NULL` behind the last, since the count is right on a heap that holds cells. A
-- loop over a string takes its fuel as an argument, and its theorem asks for more than the length;
-- for the line editor 514 is enough, two more than its buffer has. The loop over boot tags has a round
-- for each tag, and the loop of `kernel_main` one more than there are scancodes. `kvprintf`
-- has a round for each character of its format. The digits of a number have 20 rounds (64 bits, base
-- 10 or 16), 10 (32 bits, base 10 or 16), 8 (32 bits, base 16) or 32 (32
-- bits, any base).
-- What waits for the user recurs on the list of what arrives: `none` says that it is still waiting
-- when the list is used up, or that it waits for good.
--
-- Not modelled: `contain` in libc/string.c, which reads from small addresses; `ftos` of
-- drivers/output/vga.c, on floating point, whose text is a parameter; `heap_print_info`, which only
-- prints; the assembly.
-- There are two functions `kprintf`, and the order of the object files decides which one the kernel
-- gets; but for Vga/Format, all parts use that of cpu/kprintf.c.
-- Interrupts of the keyboard and the timer come while `kgetch` waits, in any order. Into the other
-- operations none falls: the writer and the reader of the ring buffer run one after the other.
pub mod Apic
pub mod Base
pub mod Boot
pub mod Debug
pub mod Editor
pub mod Gdt
pub mod Getch
pub mod Heap
pub mod Idt
pub mod Irq
pub mod Kernel
pub mod Keyboard
pub mod Keys
pub mod Memory
pub mod Number
pub mod Paging
pub mod Pic
pub mod Port
pub mod Printf
pub mod Split
pub mod Syscall
pub mod Text
pub mod Token
pub mod Tss
pub mod Vga
