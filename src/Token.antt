-- ===== src/Token.antt =====
-- libc/string.c: `strtok`.
-- The static `last_token` is an argument and a result. `none` is a loop that has not ended within
-- the fuel, `some none` the result `NULL`.
pub mod Words
pub mod Seek
pub mod Run
pub mod Calls
mod Tests
use alphix.Base.{
  ℕ, zero, suc, ◌+◌, ◌-◌, ◌*◌, ◌/◌, ◌%◌, ◌^◌, ◌≤◌, ◌<◌, ◌≡◌, ◌≢◌, refl, sym, ◌∙◌, ap, Bool, true,
  false, not, ◌&&◌, ◌||◌, ◌⊎◌, inl, inr, ◌↔◌, Option, none, some, List, [], ◌∷◌, ◌++◌, map, arith,
  ltb, leb, ◌==◌, ==_iff, ==_self, ==_ne, if◌then◌else◌, Bool-cases, Option-cases, List-cases,
  length, length-append, get_elem?, get_or, set, take, drop, replicate, length-set,
  length-replicate, length-take, length-drop, length-map, take-append-drop, ltb→lt, lt→ltb, leb→le,
  tests, get_elem?-set_self, get_elem?-set_ne, ◌>>=◌, all_below, all_below_lem, bit_or_step,
  bit_or-zero, bit_or-one, bit_or_two, bit_or_128,
}
use alphix.Memory.{Bytes, poke}
use alphix.Text.{strchr}

abbrev pub is_some : Option ℕ → Bool
is_some none = false
is_some (some a) = true

-- Both loops: over the delimiters where `on`, to the next delimiter where not.
pub seek : Bool → ℕ → ℕ → Bytes → ℕ → ℕ → Option ℕ
seek on zero fuel m delimiters p = none
seek on (suc rounds) fuel m delimiters p = elim (m p == 0) [
  | true ↦ some p
  | false ↦ strchr fuel m delimiters (m p) >>= λ r.
      elim (if on then is_some r else not (is_some r)) [
        | true ↦ seek on rounds fuel m delimiters (p + 1)
        | false ↦ some p
      ]
]

-- The end of the token that starts at `token_start`: the result, the memory and `last_token`.
pub close : Bytes → ℕ → ℕ → Option ℕ × Bytes × Option ℕ
close m token_start p =
    if not (m p == 0)
    then (some token_start, poke m p 0, some (p + 1))
    else (some token_start, m, none)

pub find_end : ℕ → Bytes → ℕ → ℕ → Option (Option ℕ × Bytes × Option ℕ)
find_end fuel m delimiters token_start = elim (m token_start == 0) [
  | true ↦ some (none, m, none)
  | false ↦
      seek false fuel fuel m delimiters token_start >>= λ stop. some (close m token_start stop)
]

pub strtok_from : ℕ → Bytes → ℕ → ℕ → Option (Option ℕ × Bytes × Option ℕ)
strtok_from fuel m delimiters p = seek true fuel fuel m delimiters p >>= find_end fuel m delimiters

pub strtok : ℕ → Bytes → Option ℕ → ℕ → Option ℕ → Option (Option ℕ × Bytes × Option ℕ)
strtok fuel m (some str) delimiters last_token = strtok_from fuel m delimiters str
strtok fuel m none delimiters (some p) = strtok_from fuel m delimiters p
strtok fuel m none delimiters none = some (none, m, none)
