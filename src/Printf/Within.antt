-- ===== src/Printf/Within.antt =====
-- Formats that `kvprintf` reads to their end and not behind it.
use alphix.Base.{
  ℕ, zero, suc, ◌+◌, ◌-◌, ◌*◌, ◌≤◌, ◌≡◌, ◌≢◌, refl, sym, Bool, false, ◌⊎◌, inl, inr, Option, some,
  List, [], ◌∷◌, ◌++◌, arith, ◌==◌, ==_ne, Bool-cases, Option-cases, length,
}
use mathlib.Core.Path.{subst}
use alphix.Printf.{
  Arg, Output, put, endless, overrun, no_argument, Spec, accept, is_digit, scan, scan_precision,
  conversion, parse, convert, before, print_loop, kvprintf,
}
use alphix.Printf.Run.{parse-length, kvprintf-ne-endless}

-- A character that begins no conversion and is no part of one before its letter.
abbrev pub Closing : ℕ → Type 0
Closing x = (x ≢ b'%') × (x ≢ b'-') × (x ≢ b'.') × (x ≢ b'l') × (is_digit x ≡ false)

abbrev Ends : ℕ → List ℕ → Type 0
Ends x p = (q : List ℕ) × (p ≡ q ++ x ∷ [])

accept-Ends : (ch x : ℕ) (p : List ℕ) → x ≢ ch → Ends x p → Ends x (accept ch p).1
unfolding accept
accept-Ends ch x p ne ([], e) =
    subst (λ p. Ends x (accept ch p).1) (sym e) (rw (==_ne x ch ne) ([], refl))
accept-Ends ch x p ne (c ∷ q, e) =
    subst (λ p. Ends x (accept ch p).1) (sym e)
      (elim (Bool-cases (c == ch)) [
        | inl same ↦ rw same (q, refl)
        | inr other ↦ rw other (c ∷ q, refl)
      ])

scan-Ends : (n x : ℕ) (q : List ℕ) → is_digit x ≡ false → Ends x (scan n (q ++ x ∷ [])).1
unfolding scan
scan-Ends n x [] no_digit = rw no_digit ([], refl)
scan-Ends n x (c ∷ q) no_digit = elim (Bool-cases (is_digit c)) [
  | inl digit ↦ rw digit (scan-Ends (n * 10 + (c - b'0')) x q no_digit)
  | inr other ↦ rw other (c ∷ q, refl)
]

scan_precision-Ends : (x : ℕ) (p : List ℕ) → Closing x → Ends x p → Ends x (scan_precision p).1
unfolding scan_precision
scan_precision-Ends x p ok e =
    let (q, left) = accept-Ends b'.' x p ok.2 e in
    elim (Bool-cases (accept b'.' p).0) [
      | inl dot ↦ rw dot (subst (λ r. Ends x (scan 0 r).1) (sym left) (scan-Ends 0 x q ok.4))
      | inr none ↦ rw none (q, left)
    ]

-- The conversion's letter is there, and what is behind it is nothing or ends as the format does.
abbrev Read : ℕ → Option (Spec × List ℕ) → Type 0
Read x o = (s : Spec) × (rest : List ℕ) × (o ≡ some (s, rest)) × ((rest ≡ []) ⊎ Ends x rest)

conversion-Ends :
    (l z : Bool) (n : ℕ) (m : Option ℕ) (x : ℕ) (p : List ℕ)
    → Ends x p
    → Read x (conversion l z n m p)
unfolding conversion
conversion-Ends l z n m x p ([], e) =
    subst (λ p. Read x (conversion l z n m p)) (sym e) (_, [], refl, inl refl)
conversion-Ends l z n m x p (c ∷ q, e) =
    subst (λ p. Read x (conversion l z n m p)) (sym e) (_, q ++ x ∷ [], refl, inr (q, refl))

parse-Ends : (x : ℕ) (p : List ℕ) → Closing x → Ends x p → Read x (parse p)
unfolding parse
parse-Ends x p ok e =
    let zero_ne : x ≢ b'0' = ground (arith, ok.4) in
    let p1 = (accept b'-' p).1 in
    let e1 = accept-Ends b'-' x p ok.1 e in
    let p2 = (accept b'0' p1).1 in
    let e2 = accept-Ends b'0' x p1 zero_ne e1 in
    let e3 : Ends x (scan 0 p2).1 =
      subst (λ r. Ends x (scan 0 r).1) (sym e2.1) (scan-Ends 0 x e2.0 ok.4) in
    let p3 = (scan 0 p2).1 in
    let e4 = scan_precision-Ends x p3 ok e3 in
    let p4 = (scan_precision p3).1 in
    conversion-Ends (accept b'-' p).0 (accept b'0' p1).0 (scan 0 p2).0 (scan_precision p3).0 x
      (accept b'l' p4).1 (accept-Ends b'l' x p4 ok.3 e4)

-- What is behind a character of the format.
Ends-tail : (x c : ℕ) (p : List ℕ) → Ends x (c ∷ p) → ((c ≡ x) × (p ≡ [])) ⊎ Ends x p
Ends-tail x c p ([], e) = inl (cc, cc)
Ends-tail x c p (a ∷ q, e) = inr (q, cc)

before-overrun : (cs : List ℕ) (out : Output) → before cs out ≡ overrun → out ≡ overrun
before-overrun cs (put out) e = absurd (cc)
before-overrun cs overrun e = refl
before-overrun cs no_argument e = absurd (cc)
before-overrun cs endless e = absurd (cc)

print_loop-within :
    (x fuel : ℕ) (p : List ℕ) (args : List Arg)
    → Closing x
    → length p ≤ fuel
    → (p ≡ []) ⊎ Ends x p
    → print_loop fuel p args ≢ overrun
unfolding print_loop
print_loop-within x fuel [] args ok h how e = absurd (cc)
print_loop-within x zero (c ∷ p) args ok h how e = absurd (omega arith)
print_loop-within x (suc fuel) (c ∷ p) args ok h (inl empty) e = absurd (cc)
print_loop-within x (suc fuel) (c ∷ p) args ok h (inr ends) e = elim (Bool-cases (c == b'%')) [
  | inr plain ↦
      let tail : (p ≡ []) ⊎ Ends x p = elim (Ends-tail x c p ends) [
        | inl (last, nothing) ↦ inl nothing
        | inr more ↦ inr more
      ] in
      print_loop-within x fuel p args ok (omega arith) tail
        (before-overrun (c ∷ []) (print_loop fuel p args) (rw (print_loop, plain) at e))
  | inl percent ↦ elim (Ends-tail x c p ends) [
    | inl (last, nothing) ↦ absurd (ground (arith, ok.0, last, percent))
    | inr more ↦
        let (s, rest, parsed, tail) = parse-Ends x p ok more in
        let shorter = parse-length p s rest parsed in
        elim (Option-cases (convert s args)) [
          | inl missing ↦ let k = rw (print_loop, percent, parsed, missing) at e in absurd (cc)
          | inr ((cs, others), converted) ↦
              print_loop-within x fuel rest others ok (omega arith) tail (
                before-overrun cs (print_loop fuel rest others)
                  (rw (print_loop, percent, parsed, converted) at e))
        ]
  ]
]

outcome :
    (o : Output) → o ≢ overrun → o ≢ endless → ((out : List ℕ) × (o ≡ put out)) ⊎ (o ≡ no_argument)
outcome (put out) stays ends = inl (out, refl)
outcome overrun stays ends = absurd (stays refl)
outcome no_argument stays ends = inr refl
outcome endless stays ends = absurd (ends refl)

-- On a format whose last character is no percent sign, minus sign, dot, digit or `l`, `kvprintf` ends
-- at the format's end and reads nothing behind it: it puts characters, or an argument that the format
-- asks for is not there or of another kind.
pub kvprintf-within :
    (p : List ℕ) (x : ℕ) (args : List Arg)
    → Closing x
    → ((out : List ℕ) × (kvprintf (p ++ x ∷ []) args ≡ put out))
      ⊎ (kvprintf (p ++ x ∷ []) args ≡ no_argument)
kvprintf-within p x args ok =
    let fmt : List ℕ = p ++ x ∷ [] in
    let stays : kvprintf fmt args ≢ overrun =
      unfold kvprintf in
      print_loop-within x (length fmt) fmt args ok (omega arith) (inr (p, refl)) in
    let ends = kvprintf-ne-endless fmt args in outcome (kvprintf fmt args) stays ends
