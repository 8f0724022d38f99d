-- ===== src/Tss/State.antt =====
-- What the processor reads in the task state: the stack of ring 0, and the permissions of ports.
use alphix.Base.{
  ℕ, ◌+◌, ◌/◌, ◌%◌, ◌^◌, ◌≤◌, ◌<◌, ◌≡◌, refl, ◌∙◌, Bool, true, false, ◌&&◌, ◌⊎◌, arith, ltb, ◌==◌,
}
use native.Mathlib.Nat.{zero-div}
use alphix.Memory.{Bytes, memset}
use alphix.Memory.Copy.{within, memset_lem}
use alphix.Memory.Words.{load, store-frame, load-store}
use alphix.Gdt.{gdt_init}
use alphix.Gdt.Segments.{base64, limit, gdt_init-gdt_set_tss_entry}
use alphix.Tss.{Task, tss_init}

-- Whether the processor lets ring 3 use the port: the bit of the port in the map that begins at
-- `iomap_base`, where the map's byte and the next one lie within the segment's limit.
abbrev pub port_allowed : Bytes → ℕ → ℕ → ℕ → Bool
port_allowed m base lim port =
    let byte = load 2 m (base + 102) + port / 8 in
    ltb byte lim && (m (base + byte) / 2 ^ (port % 8) % 2 == 0)

byte-zero :
    (tss stack : ℕ) (t : Task) (a : ℕ)
    → tss ≤ a
    → a < tss + 104
    → (a < tss + 4) ⊎ (tss + 12 ≤ a)
    → (tss_init tss stack t).mem a ≡ 0
unfolding tss_init
byte-zero tss stack t a lo hi out =
    let inside : within tss 104 a ≡ true = ground arith in
    store-frame 8 (memset 104 t.mem tss 0) (tss + 4) (stack + 8192) a (omega arith)
    ∙ memset_lem 104 t.mem tss 0 a
    ∙ rw inside refl

iomap-zero : (tss stack : ℕ) (t : Task) → load 2 (tss_init tss stack t).mem (tss + 102) ≡ 0
unfolding load
iomap-zero tss stack t =
    rw
      (
        byte-zero tss stack t (tss + 102) (omega arith) (omega arith) (omega arith),
        byte-zero tss stack t (tss + 102 + 1) (omega arith) (omega arith) (omega arith),
      )
      refl

zero-bit : (k : ℕ) → 0 / 2 ^ k % 2 ≡ 0
zero-bit k = rw (zero-div (2 ^ k)) refl

-- As `tss_init` leaves it, the map of ports lies over the segment itself, since `iomap_base` is 0:
-- ring 3 may use the ports below 32 and from 96 to 823, whose bits fall on bytes of the segment that
-- are zero (the keyboard's 0x60 and 0x64 and the second interrupt controller's 0xA0 and 0xA1 among
-- them), and none from 824 on. (The bits of the ports from 32 to 95 fall on the stack's address; of
-- those nothing is said.)
pub tss_init_ports :
    (tss stack port : ℕ) (t : Task)
    → let m = (tss_init tss stack t).mem in
      ((port < 32) ⊎ ((96 ≤ port) × (port < 824)) → port_allowed m tss 103 port ≡ true)
      × (824 ≤ port → port_allowed m tss 103 port ≡ false)
tss_init_ports tss stack port t =
    let map_at = iomap-zero tss stack t in
    (
      λ low.
          let zero_byte : (tss_init tss stack t).mem (tss + (0 + port / 8)) ≡ 0 =
            byte-zero tss stack t (tss + (0 + port / 8)) (omega arith) (omega arith)
              (omega arith) in
          let inside : ltb (0 + port / 8) 103 ≡ true = ground arith in
          rw (map_at, zero_byte, inside, zero-bit (port % 8)) refl,
      λ high.
          let outside : ltb (0 + port / 8) 103 ≡ false = ground arith in rw (map_at, outside) refl,
    )

-- After `gdt_init` and `tss_init` the processor finds the segment at its address with the limit of
-- 104 bytes, by the selector that it has loaded, and in it the end of the kernel's stack for ring 0;
-- no other byte than the segment's has changed. Both addresses and the stack's end fit in 64 bits.
pub tss_init_lem :
    (tss stack : ℕ) (t : Task)
    → tss < 2 ^ 64
    → stack + 8192 < 2 ^ 64
    → let s = tss_init tss stack (record t { gdt = gdt_init t.gdt }) in
      let slot = s.task_register / 8 in
      (base64 (s.gdt slot) (s.gdt (slot + 1)) ≡ tss)
      × (limit (s.gdt slot) ≡ 103)
      × (load 8 s.mem (tss + 4) ≡ stack + 8192)
      × ((a : ℕ) → (a < tss) ⊎ (tss + 104 ≤ a) → s.mem a ≡ t.mem a)
unfolding tss_init
tss_init_lem tss stack t small end =
    let table = gdt_init-gdt_set_tss_entry t.gdt tss 103 small (omega arith) in
    (
      table.4,
      table.5,
      load-store 8 (memset 104 t.mem tss 0) (tss + 4) (stack + 8192) end,
      λ a out.
          let outside : within tss 104 a ≡ false = ground arith in
          store-frame 8 (memset 104 t.mem tss 0) (tss + 4) (stack + 8192) a (omega arith)
          ∙ memset_lem 104 t.mem tss 0 a
          ∙ rw outside refl,
    )
