-- ===== src/Printf/Run.antt =====
-- `kvprintf` on the whole: the loop ends, text prints itself, a number fills its field.
use alphix.Base.{
  ℕ, zero, suc, ◌+◌, ◌-◌, ◌*◌, ◌%◌, ◌^◌, ◌≤◌, ◌<◌, ◌≡◌, ◌≢◌, refl, sym, ◌∙◌, ap, Bool, inl, inr,
  Option, some, List, [], ◌∷◌, ◌++◌, arith, ltb, ◌==◌, ==_ne, if◌then◌else◌, Bool-cases,
  Option-cases, length, length-append, replicate, length-replicate,
}
use mathlib.Core.List.{reverse, reverse-append, append-nil}
use alphix.Printf.{
  word, word_case, text, padded, Arg, Output, put, endless, overrun, no_argument, conversion, Spec,
  accept, scan, scan_precision, parse, convert, over, before, field, print_loop, kvprintf,
}

accept-length : (ch : ℕ) (p : List ℕ) → length (accept ch p).1 ≤ length p
unfolding accept
accept-length ch [] = omega arith
accept-length ch (c ∷ p) = ground arith

scan-length : (n : ℕ) (p : List ℕ) → length (scan n p).1 ≤ length p
unfolding scan
scan-length n [] = omega arith
scan-length n (c ∷ p) = ground (arith, scan-length (n * 10 + (c - b'0')) p)

scan_precision-length : (p : List ℕ) → length (scan_precision p).1 ≤ length p
unfolding scan_precision
scan_precision-length p = ground (arith, accept-length b'.' p, scan-length 0 (accept b'.' p).1)

conversion-length :
    (l z : Bool) (n : ℕ) (m : Option ℕ) (p : List ℕ) (s : Spec) (rest : List ℕ)
    → conversion l z n m p ≡ some (s, rest)
    → length rest < length p
unfolding conversion
conversion-length l z n m [] s rest e = absurd (cc)
conversion-length l z n m (c ∷ p) s rest e = let same : p ≡ rest = cc in rw (sym same) (omega arith)

-- What is left behind a conversion is shorter than the format from the conversion on.
pub parse-length :
    (p : List ℕ) (s : Spec) (rest : List ℕ) → parse p ≡ some (s, rest) → length rest < length p
unfolding parse
parse-length p s rest e =
    let p1 = (accept b'-' p).1 in
    let p2 = (accept b'0' p1).1 in
    let p3 = (scan 0 p2).1 in
    let p4 = (scan_precision p3).1 in
    omega (
      arith,
      accept-length b'-' p,
      accept-length b'0' p1,
      scan-length 0 p2,
      scan_precision-length p3,
      accept-length b'l' p4,
      conversion-length (accept b'-' p).0 (accept b'0' p1).0 (scan 0 p2).0 (scan_precision p3).0
          (accept b'l' p4).1 s rest e,
    )

before-ends : (cs : List ℕ) (out : Output) → before cs out ≡ endless → out ≡ endless
before-ends cs (put out) e = absurd (cc)
before-ends cs overrun e = absurd (cc)
before-ends cs no_argument e = absurd (cc)
before-ends cs endless e = refl

print_loop-ends :
    (fuel : ℕ) (p : List ℕ) (args : List Arg) → length p ≤ fuel → print_loop fuel p args ≢ endless
unfolding print_loop
print_loop-ends fuel [] args h e = absurd (cc)
print_loop-ends zero (c ∷ p) args h e = absurd (omega arith)
print_loop-ends (suc fuel) (c ∷ p) args h e = elim (Bool-cases (c == b'%')) [
  | inr plain ↦
      print_loop-ends fuel p args (omega arith)
        (before-ends (c ∷ []) (print_loop fuel p args) (rw (print_loop, plain) at e))
  | inl percent ↦ elim (Option-cases (parse p)) [
    | inl none_left ↦ let k = rw (print_loop, percent, none_left) at e in absurd (cc)
    | inr ((s, rest), parsed) ↦
        let shorter : length rest < length p = parse-length p s rest parsed in
        elim (Option-cases (convert s args)) [
          | inl missing ↦ let k = rw (print_loop, percent, parsed, missing) at e in absurd (cc)
          | inr ((cs, others), converted) ↦ print_loop-ends fuel rest others (omega arith) (
              before-ends cs (print_loop fuel rest others)
                (rw (print_loop, percent, parsed, converted) at e))
        ]
  ]
]

-- The fuel is enough on every format and every list of arguments.
pub kvprintf-ne-endless : (fmt : List ℕ) (args : List Arg) → kvprintf fmt args ≢ endless
unfolding kvprintf
kvprintf-ne-endless fmt args = print_loop-ends (length fmt) fmt args (omega arith)

abbrev pub NoPercent : List ℕ → Type 0
NoPercent [] = Unit {0}
NoPercent (c ∷ p) = (c ≢ b'%') × NoPercent p

before-nil : (out : Output) → before [] out ≡ out
before-nil (put cs) = refl
before-nil overrun = refl
before-nil no_argument = refl
before-nil endless = refl

before-cons :
    (c : ℕ) (cs : List ℕ) (out : Output) → before (c ∷ []) (before cs out) ≡ before (c ∷ cs) out
before-cons c cs (put ds) = refl
before-cons c cs overrun = refl
before-cons c cs no_argument = refl
before-cons c cs endless = refl

print_loop-text :
    (fuel : ℕ) (p rest : List ℕ) (args : List Arg)
    → NoPercent p
    → print_loop (length p + fuel) (p ++ rest) args ≡ before p (print_loop fuel rest args)
unfolding print_loop
print_loop-text fuel [] rest args h =
    let e : 0 + fuel ≡ fuel = omega arith in rw e (sym (before-nil (print_loop fuel rest args)))
print_loop-text fuel (c ∷ p) rest args h =
    let e : length (c ∷ p) + fuel ≡ suc (length p + fuel) = omega arith in
    rw (e, print_loop, ==_ne c b'%' h.0, print_loop-text fuel p rest args h.1)
      (before-cons c p (print_loop fuel rest args))

-- A text without `%` prints itself, and from there on `kvprintf` does what it does on the rest of
-- the format with the same arguments.
pub kvprintf_text :
    (p rest : List ℕ) (args : List Arg)
    → NoPercent p
    → kvprintf (p ++ rest) args ≡ before p (kvprintf rest args)
unfolding kvprintf
kvprintf_text p rest args h =
    rw (length-append p rest) (print_loop-text (length rest) p rest args h)

pub length-reverse : (l : List ℕ) → length (reverse l) ≡ length l
length-reverse [] = refl
length-reverse (c ∷ l) =
    ap length (reverse-append (c ∷ []) l)
    ∙ length-append (reverse l) (c ∷ [])
    ∙ rw (length-reverse l) (omega arith)

-- A number is printed on as many characters as its digits, its sign and its precision's zeros have,
-- or on the width where that is more.
field-length :
    (s : Spec) (numbuf : List ℕ)
    → length (field s numbuf) ≡ (
        let n = length numbuf + over s.precision (length numbuf) in
        if ltb n s.width then s.width else n)
unfolding field
field-length s numbuf =
    let n : ℕ = length numbuf in
    let precpad : ℕ = over s.precision n in
    let pad : ℕ = s.width - (n + precpad) in
    let fill : ℕ = if s.zeros then b'0' else b' ' in
    let body = length-append (replicate precpad b'0') (reverse numbuf) in
    elim (Bool-cases s.left) [
      | inl l ↦
          rw
            (
              l,
              length-append (replicate precpad b'0') (reverse numbuf ++ replicate pad b' '),
              length-append (reverse numbuf) (replicate pad b' '),
              length-reverse numbuf,
              length-replicate {A = ℕ} precpad b'0',
              length-replicate {A = ℕ} pad b' ',
            )
            (ground arith)
      | inr r ↦
          rw
            (
              r,
              append-nil (reverse numbuf),
              length-append (replicate pad fill) (replicate precpad b'0' ++ reverse numbuf),
              body,
              length-reverse numbuf,
              length-replicate {A = ℕ} precpad b'0',
              length-replicate {A = ℕ} pad fill,
            )
            (ground arith)
    ]

-- A text without `%` alone.
pub kvprintf_plain : (p : List ℕ) (args : List Arg) → NoPercent p → kvprintf p args ≡ put p
unfolding kvprintf print_loop
kvprintf_plain p args h =
    ap (λ q. kvprintf q args) (sym (append-nil p))
    ∙ kvprintf_text p [] args h
    ∙ ap put (append-nil p)

-- `%s` and a new line.
pub kvprintf_line :
    (s : List ℕ) → kvprintf (b'%' ∷ b's' ∷ 0x0a ∷ []) (text (some s) ∷ []) ≡ put (s ++ 0x0a ∷ [])
unfolding kvprintf print_loop parse conversion accept scan_precision scan convert padded
kvprintf_line s =
    let none_left : 0 - length s ≡ 0 = omega arith in rw (none_left, append-nil s) refl

-- `%c`.
pub kvprintf_char : (v : ℕ) → kvprintf (b'%' ∷ b'c' ∷ []) (word v ∷ []) ≡ put (v % 2 ^ 8 ∷ [])
unfolding kvprintf print_loop parse conversion accept scan_precision scan convert word_case padded
kvprintf_char v = refl
