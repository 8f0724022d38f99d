-- ===== src/Text.antt =====
-- libc/string.c: the functions on strings in memory.
-- A loop that runs to the end of a string takes fuel; `none` means that it has not ended. Pointers
-- and `int` counters do not wrap, as no string of the kernel is that long. The result of a
-- comparison is the pair of bytes whose difference the source returns.
pub mod Length
pub mod Copy
pub mod Insert
pub mod Find
pub mod Compare
pub mod Clear
mod Tests
use alphix.Base.{
  ℕ, zero, suc, ◌+◌, ◌-◌, ◌*◌, ◌/◌, ◌%◌, ◌^◌, ◌≤◌, ◌<◌, ◌≡◌, ◌≢◌, refl, sym, ◌∙◌, ap, Bool, true,
  false, not, ◌&&◌, ◌||◌, ◌⊎◌, inl, inr, ◌↔◌, Option, none, some, List, [], ◌∷◌, ◌++◌, map, arith,
  ltb, leb, ◌==◌, ==_iff, ==_self, ==_ne, if◌then◌else◌, Bool-cases, Option-cases, List-cases,
  length, length-append, get_elem?, get_or, set, take, drop, replicate, length-set,
  length-replicate, length-take, length-drop, length-map, take-append-drop, ltb→lt, lt→ltb, leb→le,
  tests, get_elem?-set_self, get_elem?-set_ne, ◌>>=◌, all_below, all_below_lem, bit_or_step,
  bit_or-zero, bit_or-one, bit_or_two, bit_or_128, some_of, not_none,
}
use alphix.Memory.{Bytes, poke}

-- From `p` on memory holds the characters `s` and a zero behind them.
abbrev pub IsText : Bytes → ℕ → List ℕ → Type 0
IsText m p [] = m p ≡ 0
IsText m p (c ∷ s) = (m p ≡ c) × (c ≢ 0) × IsText m (p + 1) s

pub strlen_loop : ℕ → Bytes → ℕ → ℕ → Option ℕ
strlen_loop zero m s i = none
strlen_loop (suc fuel) m s i =
    let rest = strlen_loop fuel m s (i + 1) in if m (s + i) == 0 then some i else rest

pub strlen : ℕ → Bytes → ℕ → Option ℕ
strlen fuel m s = strlen_loop fuel m s 0

-- `maxlen` rounds at most, `left` of them to go.
pub strnlen_loop : ℕ → Bytes → ℕ → ℕ → ℕ
strnlen_loop zero m s len = len
strnlen_loop (suc left) m s len =
    let rest = strnlen_loop left m s (len + 1) in if m (s + len) == 0 then len else rest

pub strnlen : Bytes → ℕ → ℕ → ℕ
strnlen m s maxlen = strnlen_loop maxlen m s 0

-- `while ((*ptr++ = *src++) != '\0');`
pub strcpy : ℕ → Bytes → ℕ → ℕ → Option Bytes
strcpy zero m dest src = none
strcpy (suc fuel) m dest src =
    let m1 = poke m dest (m src) in
    let rest = strcpy fuel m1 (dest + 1) (src + 1) in if m src == 0 then some m1 else rest

-- `for (; *s; ++s);`
pub end_loop : ℕ → Bytes → ℕ → Option ℕ
end_loop zero m s = none
end_loop (suc fuel) m s = let rest = end_loop fuel m (s + 1) in if m s == 0 then some s else rest

pub strcat : ℕ → Bytes → ℕ → ℕ → Option Bytes
strcat fuel m s append = elim (end_loop fuel m s) [ none ↦ none | some e ↦ strcpy fuel m e append ]

-- `strncat` and `join`, which have one body.
pub join : ℕ → Bytes → ℕ → ℕ → Option Bytes
join fuel m s n = elim (strlen fuel m s) [
  | none ↦ none
  | some len ↦ some (poke (poke m (s + len) n) (s + len + 1) 0)
]

-- The second loop of `strncpy`: zeros up to `n`.
unfoldable pad_loop : ℕ → Bytes → ℕ → Bytes
pad_loop zero m dest = m
pad_loop (suc left) m dest = pad_loop left (poke m dest 0) (dest + 1)

pub strncpy : ℕ → Bytes → ℕ → ℕ → Bytes
strncpy zero m dest src = m
strncpy (suc left) m dest src =
    let rest = strncpy left (poke m dest (m src)) (dest + 1) (src + 1) in
    if m src == 0 then pad_loop (suc left) m dest else rest

pub strcmp : ℕ → Bytes → ℕ → ℕ → Option (ℕ × ℕ)
strcmp zero m s1 s2 = none
strcmp (suc fuel) m s1 s2 =
    let rest = strcmp fuel m (s1 + 1) (s2 + 1) in
    if m s1 == m s2 then (if m s1 == 0 then some (0, 0) else rest) else some (m s1, m s2)

pub strncmp : ℕ → Bytes → ℕ → ℕ → ℕ × ℕ
strncmp zero m s1 s2 = (0, 0)
strncmp (suc n) m s1 s2 =
    let rest = strncmp n m (s1 + 1) (s2 + 1) in
    if not (m s1 == m s2) then (m s1, m s2) else if m s1 == 0 then (0, 0) else rest

pub starts_with : ℕ → Bytes → ℕ → ℕ → Option Bool
starts_with zero m s1 s2 = none
starts_with (suc fuel) m s1 s2 =
    let rest = starts_with fuel m (s1 + 1) (s2 + 1) in
    if m s2 == 0 then some true else if not (m s1 == m s2) then some false else rest

-- `strchr`: the address of the first such character; `some none` is `NULL`.
unfoldable pub strchr : ℕ → Bytes → ℕ → ℕ → Option (Option ℕ)
strchr zero m str character = none
strchr (suc fuel) m str character =
    let rest = strchr fuel m (str + 1) character in
    if m str == 0
    then some (if character == 0 then some str else none)
    else if m str == character
    then some (some str)
    else rest

-- `strrchr`; `last` is `last_occurrence`.
pub strrchr_loop : ℕ → Bytes → ℕ → ℕ → Option ℕ → Option (Option ℕ)
strrchr_loop zero m str character last = none
strrchr_loop (suc fuel) m str character last =
    let rest =
      strrchr_loop fuel m (str + 1) character (if m str == character then some str else last) in
    if m str == 0 then some last else rest

pub strrchr : ℕ → Bytes → ℕ → ℕ → Option (Option ℕ)
strrchr fuel m str character = strrchr_loop fuel m str character none

-- `for (int i = len; i > pos; i--) str[i] = str[i-1];` with `left` rounds to go.
pub shift_loop : ℕ → Bytes → ℕ → ℕ → Bytes
shift_loop zero m str i = m
shift_loop (suc left) m str i = shift_loop left (poke m (str + i) (m (str + (i - 1)))) str (i - 1)

pub insert_at : Bytes → ℕ → ℕ → ℕ → ℕ → Bytes
insert_at m str c pos len =
    poke (poke (shift_loop (len - pos) m str len) (str + pos) c) (str + (len + 1)) 0

pub strins : ℕ → Bytes → ℕ → ℕ → ℕ → Option Bytes
strins fuel m str c pos = elim (strlen fuel m str) [
  | none ↦ none
  | some len ↦ some (insert_at m str c (if ltb len pos then len else pos) len)
]

-- `for (int i = 0; i < strlen(str); i++) str[i] = 0;`
pub strnone_loop : ℕ → ℕ → Bytes → ℕ → ℕ → Option Bytes
strnone_loop zero fuel m str i = none
strnone_loop (suc rounds) fuel m str i =
    let rest = strnone_loop rounds fuel (poke m (str + i) 0) str (i + 1) in
    elim (strlen fuel m str) [ none ↦ none | some len ↦ if ltb i len then rest else some m ]

pub strnone : ℕ → Bytes → ℕ → Option Bytes
strnone fuel m str = strnone_loop fuel fuel m str 0

-- `clearString`: the condition `i = 0` is an assignment, and false at once.
pub clear_string : ℕ → Bytes → ℕ → Option Bytes
clear_string fuel m string = elim (strlen fuel m string) [ none ↦ none | some i ↦ some m ]

unfoldable isdigit : ℕ → Bool
isdigit c = leb b'0' c && leb c b'9'

unfoldable isalpha : ℕ → Bool
isalpha c = (leb b'A' c && leb c b'Z') || (leb b'a' c && leb c b'z')

pub tolower : ℕ → ℕ
tolower s1 = if leb 64 s1 && leb s1 90 then s1 + 32 else s1

unfoldable istrncmp : ℕ → Bytes → ℕ → ℕ → ℕ × ℕ
istrncmp zero m str1 str2 = (0, 0)
istrncmp (suc n) m str1 str2 =
    let rest = istrncmp n m (str1 + 1) (str2 + 1) in
    if not (m str1 == m str2) && not (tolower (m str1) == tolower (m str2))
    then (m str1, m str2)
    else if m str1 == 0
    then (0, 0)
    else rest

-- `while (len-- > 0) *ptr++ = val;`
pub set_loop : ℕ → Bytes → ℕ → ℕ → Bytes
set_loop zero m ptr val = m
set_loop (suc len) m ptr val = set_loop len (poke m ptr (val % 2 ^ 8)) (ptr + 1) val

pub mem_set : ℕ → Bytes → ℕ → ℕ → Option Bytes
mem_set fuel m dest val = strlen fuel m dest >>= λ len. some (set_loop len m dest val)

pub remove_loop : ℕ → Bytes → ℕ → ℕ → Option Bytes
remove_loop zero m src dst = none
remove_loop (suc fuel) m src dst = elim (m src == 0) [
  | true ↦ some (poke m dst 0)
  | false ↦ elim (not (m src == 0)) [
    | true ↦ remove_loop fuel (poke m dst (m src)) (src + 1) (dst + 1)
    | false ↦ remove_loop fuel m (src + 1) dst
  ]
]

pub remove_null_chars : ℕ → Bytes → ℕ → Option Bytes
remove_null_chars fuel m str = remove_loop fuel m str str
