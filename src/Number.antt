-- ===== src/Number.antt =====
-- libc/string.c: `reverse`, `intToString`, `itoa`, `atoi` and `to_integer`.
-- An `int` is its 32 bits, and `result` in `atoi` wraps round. `none` is also the negation of the least `int`, which C leaves undefined.
pub mod Reverse
pub mod Print
pub mod Read
mod Tests
use alphix.Base.{
  ℕ, zero, suc, ◌+◌, ◌-◌, ◌*◌, ◌/◌, ◌%◌, ◌^◌, ◌≤◌, ◌<◌, ◌≡◌, ◌≢◌, refl, sym, ◌∙◌, ap, Bool, true,
  false, not, ◌&&◌, ◌||◌, ◌⊎◌, inl, inr, ◌↔◌, Option, none, some, List, [], ◌∷◌, ◌++◌, map, arith,
  ltb, leb, ◌==◌, ==_iff, ==_self, ==_ne, if◌then◌else◌, Bool-cases, Option-cases, length,
  length-append, get_elem?, get_or, set, take, drop, replicate, length-set, length-replicate,
  length-take, length-drop, length-map, take-append-drop, ltb→lt, lt→ltb, leb→le, tests,
  get_elem?-set_self, get_elem?-set_ne, ◌>>=◌, all_below, all_below_lem, bit_or_step, bit_or-zero,
  bit_or-one, bit_or_two, bit_or_128,
}
use alphix.Memory.{Bytes, poke}
use alphix.Text.{strlen}

-- `c = s[i]; s[i] = s[j]; s[j] = c;`
abbrev pub swap : Bytes → ℕ → ℕ → ℕ → Bytes
swap m s i j = poke (poke m (s + i) (m (s + j))) (s + j) (m (s + i))

-- `for (...; i < j; i++, j--)`
pub reverse_loop : ℕ → Bytes → ℕ → ℕ → ℕ → Bytes
reverse_loop zero m s i j = m
reverse_loop (suc fuel) m s i j =
    let rest = reverse_loop fuel (swap m s i j) s (i + 1) (j - 1) in if ltb i j then rest else m

-- A string has fewer pairs than characters.
pub reverse : ℕ → Bytes → ℕ → Option Bytes
reverse fuel m s = strlen fuel m s >>= λ len. some (reverse_loop len m s 0 (len - 1))

abbrev pub is_negative : ℕ → Bool
is_negative n = leb (2 ^ 31) n

unfoldable pub magnitude : ℕ → Option ℕ
magnitude n = if n == 2 ^ 31 then none else some (if is_negative n then 2 ^ 32 - n else n)

-- `do { str[i++] = n % 10 + '0'; } while ((n /= 10) > 0);`, and where it leaves `i`.
pub digit_loop : ℕ → Bytes → ℕ → ℕ → ℕ → Bytes × ℕ
digit_loop zero m str i n = (m, i)
digit_loop (suc fuel) m str i n =
    let m1 = poke m (str + i) (n % 10 + b'0') in
    let rest = digit_loop fuel m1 str (i + 1) (n / 10) in
    if ltb 0 (n / 10) then rest else (m1, i + 1)

-- The sign, the zero, and the call of `reverse`, with which both functions end.
pub finish : ℕ → Bool → ℕ → Bytes × ℕ → Option Bytes
finish fuel minus str (m, i) =
    if minus
    then reverse fuel (poke (poke m (str + i) b'-') (str + (i + 1)) 0) str
    else reverse fuel (poke m (str + i) 0) str

pub int_to_string : ℕ → Bytes → ℕ → ℕ → Option Bytes
int_to_string fuel m n str =
    magnitude n >>= λ u. finish fuel (is_negative n) str (digit_loop 10 m str 0 u)

-- The digit of a remainder, which is negative where the value is.
abbrev itoa_char : Bool → ℕ → ℕ
itoa_char minus rem =
    if minus then b'0' - rem else if ltb 9 rem then rem - 10 + b'A' else rem + b'0'

-- `while (value != 0)`, on the value's magnitude.
pub itoa_loop : ℕ → Bool → Bytes → ℕ → ℕ → ℕ → ℕ → Bytes × ℕ
itoa_loop zero minus m str i value base = (m, i)
itoa_loop (suc fuel) minus m str i value base =
    let rest =
      itoa_loop fuel minus (poke m (str + i) (itoa_char minus (value % base))) str (i + 1)
        (value / base) base in
    if value == 0 then (m, i) else rest

-- A base of 2 at least and 48 at most. Only base 10 has a sign.
pub itoa : ℕ → Bytes → ℕ → ℕ → ℕ → Option Bytes
itoa fuel m value str base =
    if value == 0
    then some (poke (poke m (str + 0) b'0') (str + 1) 0)
    else magnitude value >>= λ u.
        (let ten = base == 10 in
          finish fuel (is_negative value && ten) str
            (itoa_loop 32 (is_negative value && not ten) m str 0 u base))

abbrev pub is_blank : ℕ → Bool
is_blank c = (c == b' ') || ((c == 0x09) || (c == 0x0a))

abbrev pub is_digit : ℕ → Bool
is_digit c = leb b'0' c && leb c b'9'

pub skip_blanks : ℕ → Bytes → ℕ → Option ℕ
skip_blanks zero m p = none
skip_blanks (suc fuel) m p =
    let rest = skip_blanks fuel m (p + 1) in if is_blank (m p) then rest else some p

pub read_digits : ℕ → Bytes → ℕ → ℕ → Option ℕ
read_digits zero m p result = none
read_digits (suc fuel) m p result =
    let rest = read_digits fuel m (p + 1) ((result * 10 + (m p - b'0')) % 2 ^ 32) in
    if is_digit (m p) then rest else some result

-- `to_integer` is `atoi`.
pub atoi : ℕ → Bytes → ℕ → Option ℕ
atoi fuel m str = skip_blanks fuel m str >>= λ p.
    (let minus = m p == b'-' in
      read_digits fuel m (if minus || (m p == b'+') then p + 1 else p) 0 >>= λ result.
      some (if minus then (2 ^ 32 - result) % 2 ^ 32 else result))
