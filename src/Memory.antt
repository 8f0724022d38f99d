-- ===== src/Memory.antt =====
-- The memory routines of libc/string.c: `memset`, `memcpy`, `memcp`, `memmove` and `memcmp`.
-- Memory is a function from addresses to bytes. Addresses do not wrap: no object of the kernel
-- reaches the end of the address space.
pub mod Copy
pub mod Move
pub mod Words
mod Tests
use alphix.Base.{
  ℕ, zero, suc, ◌+◌, ◌-◌, ◌*◌, ◌/◌, ◌%◌, ◌^◌, ◌≤◌, ◌<◌, ◌≡◌, ◌≢◌, refl, sym, ◌∙◌, ap, Bool, true,
  false, not, ◌&&◌, ◌||◌, ◌⊎◌, inl, inr, ◌↔◌, Option, none, some, List, [], ◌∷◌, ◌++◌, map, arith,
  ltb, leb, ◌==◌, ==_iff, ==_self, ==_ne, if◌then◌else◌, Bool-cases, Option-cases, length,
  length-append, get_elem?, get_or, set, take, drop, replicate, length-set, length-replicate,
  length-take, length-drop, length-map, take-append-drop, ltb→lt, lt→ltb, leb→le, tests,
  get_elem?-set_self, get_elem?-set_ne,
}

abbrev pub Bytes : Type 0
Bytes = ℕ → ℕ

abbrev pub poke : Bytes → ℕ → ℕ → ℕ → ℕ
poke m a v b = if b == a then v else m b

-- `for (i = 0; i < n; i++) dest[i] = src[i];` with `left` rounds to go.
pub copy_loop : ℕ → Bytes → ℕ → ℕ → ℕ → Bytes
copy_loop zero m dest src i = m
copy_loop (suc left) m dest src i =
    copy_loop left (poke m (dest + i) (m (src + i))) dest src (i + 1)

pub memcpy : Bytes → ℕ → ℕ → ℕ → Bytes
unfolding copy_loop
memcpy m dest src bytes = copy_loop bytes m dest src 0

-- The same loop with the source first.
unfoldable memcp : Bytes → ℕ → ℕ → ℕ → Bytes
unfolding copy_loop
memcp m source dest nbytes = copy_loop nbytes m dest source 0

pub memset : ℕ → Bytes → ℕ → ℕ → Bytes
memset zero m temp val = m
memset (suc count) m temp val = memset count (poke m temp val) (temp + 1) val

-- `while (n--) *d++ = *s++;`
pub move_up : ℕ → Bytes → ℕ → ℕ → Bytes
move_up zero m d s = m
move_up (suc n) m d s = move_up n (poke m d (m s)) (d + 1) (s + 1)

-- `while (n--) *(--d) = *(--s);`
pub move_down : ℕ → Bytes → ℕ → ℕ → Bytes
move_down zero m d s = m
move_down (suc n) m d s = move_down n (poke m (d - 1) (m (s - 1))) (d - 1) (s - 1)

pub memmove : Bytes → ℕ → ℕ → ℕ → Bytes
unfolding move_up move_down
memmove m dest src n =
    if ltb dest src || leb (src + n) dest
    then move_up n m dest src
    else move_down n m (dest + n) (src + n)

-- The difference of the first two bytes that differ, as two bytes; both 0 where none does.
unfoldable memcmp : ℕ → Bytes → ℕ → ℕ → ℕ × ℕ
memcmp zero m p1 p2 = (0, 0)
memcmp (suc n) m p1 p2 =
    let rest = memcmp n m (p1 + 1) (p2 + 1) in if m p1 == m p2 then rest else (m p1, m p2)
