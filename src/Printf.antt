-- ===== src/Printf.antt =====
-- cpu/kprintf.c: `kputc`, `kvprintf` and `kprintf`.
-- `kvprintf` calls `kputc` only, so what it does is the list of the characters that it puts, in
-- order. The arguments of a call are machine words of 64 bits and pointers to strings.
pub mod Digits
pub mod Run
pub mod Within
mod Tests
use alphix.Base.{
  ℕ, zero, suc, ◌+◌, ◌-◌, ◌*◌, ◌/◌, ◌%◌, ◌^◌, ◌≤◌, ◌<◌, ◌≡◌, ◌≢◌, refl, sym, ◌∙◌, ap, Bool, true,
  false, not, ◌&&◌, ◌||◌, ◌⊎◌, inl, inr, ◌↔◌, Option, none, some, List, [], ◌∷◌, ◌++◌, map, arith,
  ltb, leb, ◌==◌, ==_iff, ==_self, ==_ne, if◌then◌else◌, Bool-cases, Option-cases, length,
  length-append, get_elem?, get_or, set, take, drop, replicate, length-set, length-replicate,
  length-take, length-drop, length-map, take-append-drop, ltb→lt, lt→ltb, leb→le, tests,
  get_elem?-set_self, get_elem?-set_ne,
}
use mathlib.Core.List.{reverse}

-- `none` is a null pointer.
pub data Arg : Type 0 where
  word : ℕ → Arg
  text : Option (List ℕ) → Arg

-- What is known of a call: the characters put; or only that it reads behind the end of the format,
-- where what it puts, and whether it ends, depends on the bytes that happen to be there; or that it
-- reads an argument that is not there or of another kind. `endless` means that the fuel ran out.
pub data Output : Type 0 where
  put : List ℕ → Output
  overrun : Output
  no_argument : Output
  endless : Output

-- `if (*p == ch) { ...; p++; }`
unfoldable pub accept : ℕ → List ℕ → Bool × List ℕ
accept ch [] = (false, [])
accept ch (c ∷ p) = if c == ch then (true, p) else (false, c ∷ p)

abbrev pub is_digit : ℕ → Bool
is_digit c = leb b'0' c && leb c b'9'

-- `while (*p >= '0' && *p <= '9') n = n * 10 + (*p++ - '0');`
unfoldable pub scan : ℕ → List ℕ → ℕ × List ℕ
scan n [] = (n, [])
scan n (c ∷ p) = let rest = scan (n * 10 + (c - b'0')) p in if is_digit c then rest else (n, c ∷ p)

pub record Spec : Type 0 where
  pub left : Bool
  pub zeros : Bool
  pub width : ℕ
  pub precision : Option ℕ
  pub spec : ℕ

-- A dot and the digits behind it.
unfoldable pub scan_precision : List ℕ → Option ℕ × List ℕ
scan_precision p =
    let (dot, q) = accept b'.' p in if dot then (some (scan 0 q).0, (scan 0 q).1) else (none, q)

-- The letter of the conversion, with what was read before it.
unfoldable pub conversion : Bool → Bool → ℕ → Option ℕ → List ℕ → Option (Spec × List ℕ)
conversion is_left is_zero n m [] = none
conversion is_left is_zero n m (c ∷ rest) =
    some (record { left = is_left; zeros = is_zero; width = n; precision = m; spec = c }, rest)

-- From behind the `%` on; `none` where the format ends before the conversion's letter.
unfoldable pub parse : List ℕ → Option (Spec × List ℕ)
parse p =
    let (is_left, p1) = accept b'-' p in
    let (is_zero, p2) = accept b'0' p1 in
    let (n, p3) = scan 0 p2 in
    let (m, p4) = scan_precision p3 in
    let (long, p5) = accept b'l' p4 in conversion is_left is_zero n m p5

-- `while (u) { numbuf[len++] = ...; u /= base; }`: the last digit first.
unfoldable pub digit_loop : ℕ → ℕ → ℕ → List ℕ
digit_loop zero base u = []
digit_loop (suc fuel) base u =
    let rest = digit_loop fuel base (u / base) in
    if u == 0
    then []
    else (if ltb (u % base) 10 then b'0' + u % base else b'a' + (u % base - 10)) ∷ rest

-- 64 bits have at most 20 digits in base 10, and 16 in base 16.
pub number : ℕ → ℕ → List ℕ
number base u = if u == 0 then b'0' ∷ [] else digit_loop 20 base u

-- `numbuf` as `%d` fills it: the digits of the magnitude, and then the sign.
pub signed_number : ℕ → List ℕ
signed_number v = if ltb v (2 ^ 63) then number 10 v else number 10 (2 ^ 64 - v) ++ b'-' ∷ []

abbrev pub over : Option ℕ → ℕ → ℕ
over none len = 0
over (some p) len = p - len

-- The printing of `numbuf`, which is shared by the cases of numbers.
pub field : Spec → List ℕ → List ℕ
field s numbuf =
    let len = length numbuf in
    let precpad = over s.precision len in
    let pad = s.width - (len + precpad) in
    (if s.left then [] else replicate pad (if s.zeros then b'0' else b' '))
    ++ (replicate precpad b'0' ++ (reverse numbuf ++ (if s.left then replicate pad b' ' else [])))

-- The characters of `%s` and `%c`, padded.
pub padded : Spec → List ℕ → List ℕ
padded s cs =
    let pad = s.width - length cs in
    (if s.left then [] else replicate pad b' ')
    ++ (cs ++ (if s.left then replicate pad b' ' else []))

abbrev pub hex_char : ℕ → ℕ
hex_char d = if ltb d 10 then b'0' + d else b'a' + (d - 10)

-- `%p`: the `i` lowest hexadecimal digits, the highest first.
unfoldable pub pointer_digits : ℕ → ℕ → List ℕ
pointer_digits zero u = []
pointer_digits (suc i) u = hex_char (u / 16 ^ i % 16) ∷ pointer_digits i u

abbrev pub null_text : List ℕ
null_text = b'(' ∷ b'n' ∷ b'u' ∷ b'l' ∷ b'l' ∷ b')' ∷ []

abbrev pub cut : Option ℕ → List ℕ → List ℕ
cut none s = s
cut (some p) s = take p s

abbrev pub text_or_null : Option (List ℕ) → List ℕ
text_or_null none = null_text
text_or_null (some s) = s

-- A conversion that takes a word.
unfoldable pub word_case : Spec → ℕ → List ℕ
word_case s v =
    if (s.spec == b'd') || (s.spec == b'i')
    then field s (signed_number v)
    else if s.spec == b'u'
    then field s (number 10 v)
    else if (s.spec == b'x') || (s.spec == b'X')
    then field s (number 16 v)
    else if s.spec == b'p'
    then b'0' ∷ b'x' ∷ pointer_digits 16 v
    else padded s ((v % 2 ^ 8) ∷ [])

abbrev pub takes_word : ℕ → Bool
takes_word c =
    (c == b'd')
    || ((c == b'i')
        || ((c == b'u') || ((c == b'x') || ((c == b'X') || ((c == b'p') || (c == b'c'))))))

-- The `switch`: what is put, and the arguments that are left.
unfoldable pub convert : Spec → List Arg → Option (List ℕ × List Arg)
convert s [] =
    if takes_word s.spec || (s.spec == b's')
    then none
    else if s.spec == b'%'
    then some (b'%' ∷ [], [])
    else some (b'%' ∷ s.spec ∷ [], [])
convert s (word v ∷ args) =
    if takes_word s.spec
    then some (word_case s v, args)
    else if s.spec == b's'
    then none
    else if s.spec == b'%'
    then some (b'%' ∷ [], word v ∷ args)
    else some (b'%' ∷ s.spec ∷ [], word v ∷ args)
convert s (text t ∷ args) =
    if takes_word s.spec
    then none
    else if s.spec == b's'
    then some (padded s (cut s.precision (text_or_null t)), args)
    else if s.spec == b'%'
    then some (b'%' ∷ [], text t ∷ args)
    else some (b'%' ∷ s.spec ∷ [], text t ∷ args)

abbrev pub before : List ℕ → Output → Output
before cs (put out) = put (cs ++ out)
before cs overrun = overrun
before cs no_argument = no_argument
before cs endless = endless

-- The loop of `kvprintf`; every round takes a character of the format at least.
unfoldable pub print_loop : ℕ → List ℕ → List Arg → Output
print_loop fuel [] args = put []
print_loop zero (c ∷ p) args = endless
print_loop (suc fuel) (c ∷ p) args = elim (c == b'%') [
  | false ↦ before (c ∷ []) (print_loop fuel p args)
  | true ↦ elim (parse p) [
    | none ↦ overrun
    | some (s, rest) ↦ elim (convert s args) [
      | none ↦ no_argument
      | some (cs, left_over) ↦ before cs (print_loop fuel rest left_over)
    ]
  ]
]

unfoldable pub kvprintf : List ℕ → List Arg → Output
kvprintf fmt args = print_loop (length fmt) fmt args
