-- ===== src/Debug.antt =====
-- debug.c: characters for the debug port of the emulator, and the small `qemu_debug_printf`.
-- What a call does is the list of the characters that go to port 0xE9, in order.
mod Tests
pub mod Numbers
use alphix.Base.{
  ℕ, zero, suc, ◌+◌, ◌-◌, ◌*◌, ◌/◌, ◌%◌, ◌^◌, ◌≤◌, ◌<◌, ◌≡◌, ◌≢◌, refl, sym, ◌∙◌, ap, Bool, true,
  false, not, ◌&&◌, ◌||◌, ◌⊎◌, inl, inr, ◌↔◌, Option, none, some, List, [], ◌∷◌, ◌++◌, map, arith,
  ltb, leb, ◌==◌, ==_iff, ==_self, ==_ne, if◌then◌else◌, Bool-cases, Option-cases, length,
  length-append, get_elem?, get_or, set, take, drop, replicate, length-set, length-replicate,
  length-take, length-drop, length-map, take-append-drop, ltb→lt, lt→ltb, leb→le, tests,
  get_elem?-set_self, get_elem?-set_ne, ◌>>=◌, all_below, all_below_lem, bit_or_step, bit_or-zero,
  bit_or-one, bit_or_two, bit_or_128,
}
use mathlib.Core.List.{reverse}
use alphix.Port.{Bus}
use alphix.Printf.{Arg, word, text}

-- `qemu_debug_putc`: a new line comes with a carriage return.
pub qemu_debug_putc : ℕ → List ℕ
qemu_debug_putc c = if c == 0x0a then 0x0d ∷ c ∷ [] else c ∷ []

pub put_all : List ℕ → List ℕ
put_all [] = []
put_all (c ∷ s) = qemu_debug_putc c ++ put_all s

-- `while (val) { buf[i++] = dig[val % base]; val /= base; }`: the last digit first.
pub digits_up : ℕ → ℕ → ℕ → List ℕ
digits_up zero val base = []
digits_up (suc fuel) val base =
    let rest = digits_up fuel (val / base) base in
    if val == 0
    then []
    else (if ltb (val % base) 10 then b'0' + val % base else b'a' + (val % base - 10)) ∷ rest

-- 32 bits have at most 10 digits in base 10, and 8 in base 16.
pub put_uint : ℕ → ℕ → List ℕ
put_uint val base = if val == 0 then b'0' ∷ [] else reverse (digits_up 10 val base)

-- `int v`: the word's 32 low bits, with their sign.
pub put_int : ℕ → List ℕ
put_int v = if ltb v (2 ^ 31) then put_uint v 10 else b'-' ∷ put_uint (2 ^ 32 - v) 10

abbrev put_text : Option (List ℕ) → Option (List ℕ)
put_text none = none
put_text (some s) = some (put_all s)

-- The `switch`: what is put, and the arguments that are left; `none` where an argument is missing, of
-- another kind, or a null string.
pub debug_convert : ℕ → List Arg → Option (List ℕ × List Arg)
debug_convert d [] =
    if (d == b'c')
      || ((d == b's')
          || ((d == b'd') || ((d == b'i') || ((d == b'u') || ((d == b'x') || (d == b'X'))))))
    then none
    else if d == b'%'
    then some (b'%' ∷ [], [])
    else some (b'%' ∷ qemu_debug_putc d, [])
debug_convert d (word v ∷ args) =
    if d == b'c'
    then some (qemu_debug_putc (v % 2 ^ 8), args)
    else if d == b's'
    then none
    else if (d == b'd') || (d == b'i')
    then some (put_int (v % 2 ^ 32), args)
    else if d == b'u'
    then some (put_uint (v % 2 ^ 32) 10, args)
    else if (d == b'x') || (d == b'X')
    then some (put_uint (v % 2 ^ 32) 16, args)
    else if d == b'%'
    then some (b'%' ∷ [], word v ∷ args)
    else some (b'%' ∷ qemu_debug_putc d, word v ∷ args)
debug_convert d (text t ∷ args) =
    if (d == b'c')
      || ((d == b'd') || ((d == b'i') || ((d == b'u') || ((d == b'x') || (d == b'X')))))
    then none
    else if d == b's'
    then (put_text t >>= λ out. some (out, args))
    else if d == b'%'
    then some (b'%' ∷ [], text t ∷ args)
    else some (b'%' ∷ qemu_debug_putc d, text t ∷ args)

-- A format that ends with `%` ends the loop.
pub qemu_debug_printf : List ℕ → List Arg → Option (List ℕ)
qemu_debug_printf [] args = some []
qemu_debug_printf (c ∷ []) args = some (if c == b'%' then [] else qemu_debug_putc c)
qemu_debug_printf (c ∷ d ∷ p) args = elim (c == b'%') [
  | false ↦ qemu_debug_printf (d ∷ p) args >>= λ out. some (qemu_debug_putc c ++ out)
  | true ↦ debug_convert d args >>= λ r. qemu_debug_printf p r.1 >>= λ out. some (r.0 ++ out)
]

abbrev pub debug_port : ℕ
debug_port = 0xE9

unfoldable pub emit : (b : Bus) → List ℕ → b.State → b.State
emit b [] s = s
emit b (c ∷ cs) s = emit b cs (b.outb debug_port c s)
