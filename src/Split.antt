-- ===== src/Split.antt =====
-- libc/string.c: `split` and `splitString`, which cut a string into words on the heap, `strdup`
-- and `tostr`.
-- `malloc` and `mfree` are `kmalloc` and `kmfree` of Heap. Every loop takes fuel; `none` is a run that
-- has not ended. The heap is seen through its block headers, apart from the other bytes of memory.
-- Pointers and counters do not wrap, as no string of the kernel is that long.
pub mod Scan
pub mod Empty
pub mod Copy
pub mod Print
mod Tests
use alphix.Base.{
  ℕ, zero, suc, ◌+◌, ◌-◌, ◌*◌, ◌/◌, ◌%◌, ◌^◌, ◌≤◌, ◌<◌, ◌≡◌, ◌≢◌, refl, sym, ◌∙◌, ap, Bool, true,
  false, not, ◌&&◌, ◌||◌, ◌⊎◌, inl, inr, ◌↔◌, Option, none, some, List, [], ◌∷◌, ◌++◌, map, arith,
  ltb, leb, ◌==◌, ==_iff, ==_self, ==_ne, if◌then◌else◌, Bool-cases, Option-cases, List-cases,
  length, length-append, get_elem?, get_or, set, take, drop, replicate, length-set,
  length-replicate, length-take, length-drop, length-map, take-append-drop, ltb→lt, lt→ltb, leb→le,
  tests, get_elem?-set_self, get_elem?-set_ne, ◌>>=◌, all_below, all_below_lem, bit_or_step,
  bit_or-zero, bit_or-one, bit_or_two, bit_or_128, some_of, not_none,
}
use alphix.Number.{is_negative, magnitude}
use alphix.Heap.{Heap, kmalloc, kmfree}
use alphix.Memory.{Bytes, poke}
use alphix.Memory.Words.{store, load}
use alphix.Text.{strlen, strcpy, strncpy}

-- `while (*ptr == delimeter) ptr++;` where `on`, `while (*ptr && *ptr != delimeter) ptr++;` where
-- not, with `left` rounds to go.
pub scan : Bool → ℕ → Bytes → ℕ → ℕ → Option ℕ
scan on zero m delimeter ptr = none
scan on (suc left) m delimeter ptr =
    let rest = scan on left m delimeter (ptr + 1) in
    if (if on then m ptr == delimeter else not (m ptr == 0) && not (m ptr == delimeter))
    then rest
    else some ptr

pub count_loop : ℕ → ℕ → Bytes → ℕ → ℕ → ℕ → Option ℕ
count_loop zero fuel m delimeter ptr n = none
count_loop (suc left) fuel m delimeter ptr n = elim (m ptr == 0) [
  | true ↦ some n
  | false ↦ scan true fuel m delimeter ptr >>= λ start. elim (m start == 0) [
    | true ↦ count_loop left fuel m delimeter start n
    | false ↦
        scan false fuel m delimeter start >>= λ end. count_loop left fuel m delimeter end (n + 1)
  ]
]

-- The word of `len` bytes at `start`, copied to `word`, and the pointer to it.
pub put_word : ℕ → ℕ → ℕ → ℕ → ℕ → Bytes → Bytes
put_word result index word start len m =
    poke (strncpy len (store 8 m (result + 8 * index) word) word start) (word + len) 0

-- `do { num_digits++; temp /= 10; } while (temp > 0);`; 32 bits have at most ten digits.
pub count_digits : ℕ → ℕ → ℕ → ℕ
count_digits zero temp num_digits = num_digits
count_digits (suc fuel) temp num_digits =
    let rest = count_digits fuel (temp / 10) (num_digits + 1) in
    if ltb 0 (temp / 10) then rest else num_digits + 1

-- `for (int i = num_digits - 1; i >= 0; i--)`, with `left` rounds to go.
pub fill_digits : ℕ → Bytes → ℕ → ℕ → Bytes
fill_digits zero m str value = m
fill_digits (suc left) m str value =
    fill_digits left (poke m (str + left) (value % 10 + b'0')) str (value / 10)

pub record Store : Type 0 where
  pub mem : Bytes
  pub heap : Heap

-- `for (int j = 0; j < index; j++) mfree(result[j]); mfree(result);`, with `left` rounds to go.
free_loop : ℕ → ℕ → ℕ → Store → Store
free_loop zero j result s = record s { heap = kmfree s.heap result }
free_loop (suc left) j result s =
    free_loop left (j + 1) result
      (record s { heap = kmfree s.heap (load 8 s.mem (result + 8 * j)) })

-- Whether all words have been put, and the state.
pub fill_loop : ℕ → ℕ → ℕ → ℕ → ℕ → ℕ → Store → Option (Bool × Store)
fill_loop zero fuel delimeter result index ptr s = none
fill_loop (suc left) fuel delimeter result index ptr s = elim (s.mem ptr == 0) [
  | true ↦ some (true, s)
  | false ↦ scan true fuel s.mem delimeter ptr >>= λ start. elim (s.mem start == 0) [
    | true ↦ fill_loop left fuel delimeter result index start s
    | false ↦ scan false fuel s.mem delimeter start >>= λ end.
        kmalloc s.heap (end - start + 1) >>= λ g. elim (g.0 == 0) [
          | true ↦ some (
            false,
            free_loop index 0 result
                (record { mem = store 8 s.mem (result + 8 * index) g.0; heap = g.1 }),
          )
          | false ↦
              fill_loop left fuel delimeter result (index + 1) end
                (record { mem = put_word result index g.0 start (end - start) s.mem; heap = g.1 })
        ]
  ]
]

-- The pointer that is returned, what is written to `*count`, and the state.
pub split : ℕ → ℕ → ℕ → Store → Option (ℕ × Option ℕ × Store)
split fuel str delimeter s = count_loop fuel fuel s.mem delimeter str 0 >>= λ n.
    kmalloc s.heap (n * 8) >>= λ g. elim (g.0 == 0) [
      | true ↦ some (0, none, record s { heap = g.1 })
      | false ↦ fill_loop fuel fuel delimeter g.0 0 str (record s { heap = g.1 }) >>= λ r.
          some (if r.0 then (g.0, some n, r.1) else (0, none, r.1))
    ]

abbrev pub split_string : ℕ → ℕ → Store → Option (ℕ × Option ℕ × Store)
split_string fuel str s = split fuel str b' ' s

pub strdup : ℕ → ℕ → Store → Option (ℕ × Store)
strdup fuel str s = strlen fuel s.mem str >>= λ len. kmalloc s.heap (len + 1) >>= λ g.
    elim (g.0 == 0) [
      | true ↦ some (g.0, record s { heap = g.1 })
      | false ↦ strcpy fuel s.mem g.0 str >>= λ m. some (g.0, record { mem = m; heap = g.1 })
    ]

-- `none` for the least `int`, which has no negative.
pub tostr : ℕ → Store → Option (ℕ × Store)
tostr value s = magnitude value >>= λ u.
    let num_digits = count_digits 10 u 0 in
    let sign = if is_negative value then 1 else 0 in
    kmalloc s.heap (num_digits + sign + 1) >>= λ g. elim (g.0 == 0) [
      | true ↦ some (g.0, record s { heap = g.1 })
      | false ↦
          let m =
            fill_digits num_digits (poke s.mem (g.0 + (num_digits + sign)) 0) (g.0 + sign) u in
          some (g.0, record { mem = if is_negative value then poke m g.0 b'-' else m; heap = g.1 })
    ]
