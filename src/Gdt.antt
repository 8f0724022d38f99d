-- ===== src/Gdt.antt =====
-- cpu/gdt.c, include/cpu/gdt.h and the descriptor that cpu/tss.c asks for.
-- The table is a function from slots to entries; the loading of the registers is assembly.
pub mod Segments
use alphix.Base.{
  ℕ, zero, suc, ◌+◌, ◌-◌, ◌*◌, ◌/◌, ◌%◌, ◌^◌, ◌≤◌, ◌<◌, ◌≡◌, ◌≢◌, refl, sym, ◌∙◌, ap, Bool, true,
  false, not, ◌&&◌, ◌||◌, ◌⊎◌, inl, inr, ◌↔◌, Option, none, some, List, [], ◌∷◌, ◌++◌, map, arith,
  ltb, leb, ◌==◌, ==_iff, ==_self, ==_ne, if◌then◌else◌, Bool-cases, Option-cases, length,
  length-append, get_elem?, get_or, set, take, drop, replicate, length-set, length-replicate,
  length-take, length-drop, length-map, take-append-drop, ltb→lt, lt→ltb, leb→le, tests,
  get_elem?-set_self, get_elem?-set_ne,
}
use Prim.Native.Nat.{bit_or}

pub record GdtEntry : Type 0 where
  pub limit_low : ℕ
  pub base_low : ℕ
  pub base_mid : ℕ
  pub access : ℕ
  pub flags_limit : ℕ
  pub base_high : ℕ

abbrev pub granularity : ℕ
granularity = 0x8

abbrev pub long_mode : ℕ
long_mode = 0x2

abbrev pub ring0 : ℕ
ring0 = 0x00

abbrev pub ring3 : ℕ
ring3 = 0x60

abbrev pub segment_present : ℕ
segment_present = 0x80

abbrev pub access_code : ℕ
access_code = 0x18

abbrev pub access_data : ℕ
access_data = 0x10

abbrev pub access_rw : ℕ
access_rw = 0x02

abbrev pub put_entry : (ℕ → GdtEntry) → ℕ → GdtEntry → ℕ → GdtEntry
put_entry gdt idx e i = if i == idx then e else gdt i

pub gdt_set_entry : (ℕ → GdtEntry) → ℕ → ℕ → ℕ → ℕ → ℕ → ℕ → GdtEntry
gdt_set_entry gdt idx base limit access flags = put_entry gdt idx (record {
  limit_low = limit % 2 ^ 16;
  base_low = base % 2 ^ 16;
  base_mid = base / 2 ^ 16 % 2 ^ 8;
  access = access;
  flags_limit = bit_or (limit / 2 ^ 16 % 2 ^ 4) (flags * 2 ^ 4) % 2 ^ 8;
  base_high = base / 2 ^ 24 % 2 ^ 8;
})

-- The access byte of a segment of code or data.
abbrev pub access_byte : ℕ → ℕ → ℕ
access_byte ring kind = bit_or (bit_or (bit_or segment_present ring) kind) access_rw

-- The table as `gdt_init` fills it.
pub gdt_init : (ℕ → GdtEntry) → ℕ → GdtEntry
gdt_init gdt =
    let g0 = gdt_set_entry gdt 0 0 0 0 0 in
    let g1 =
      gdt_set_entry g0 1 0 0 (access_byte ring0 access_code) (bit_or granularity long_mode) in
    let g2 = gdt_set_entry g1 2 0 0 (access_byte ring0 access_data) granularity in
    let g3 = gdt_set_entry g2 3 0 0 (access_byte ring3 access_data) granularity in
    gdt_set_entry g3 4 0 0 (access_byte ring3 access_code) (bit_or granularity long_mode)

-- A descriptor of 16 bytes, in two slots.
pub gdt_set_tss_entry : (ℕ → GdtEntry) → ℕ → ℕ → ℕ → ℕ → GdtEntry
gdt_set_tss_entry gdt idx base limit =
    put_entry
      (put_entry gdt idx (record {
        limit_low = limit % 2 ^ 16;
        base_low = base % 2 ^ 16;
        base_mid = base / 2 ^ 16 % 2 ^ 8;
        access = 0x89;
        flags_limit = limit / 2 ^ 16 % 2 ^ 4;
        base_high = base / 2 ^ 24 % 2 ^ 8;
      }))
      (idx + 1)
      (record {
        limit_low = base / 2 ^ 32 % 2 ^ 16;
        base_low = base / 2 ^ 48 % 2 ^ 16;
        base_mid = 0;
        access = 0;
        flags_limit = 0;
        base_high = 0;
      })
