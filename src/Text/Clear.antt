-- ===== src/Text/Clear.antt =====
-- What `mem_set` and `remove_null_chars` do to a string.
use alphix.Base.{
  ℕ, zero, suc, ◌+◌, ◌%◌, ◌^◌, ◌<◌, ◌≡◌, refl, sym, ◌∙◌, ap, Bool, true, false, not, inl, inr,
  Option, some, List, [], ◌∷◌, arith, ◌==◌, ==_iff, ==_ne, if◌then◌else◌, Bool-cases, length, ◌>>=◌,
}
use alphix.Memory.{Bytes, poke}
use alphix.Memory.Copy.{within}
use alphix.Text.{IsText, set_loop, mem_set, remove_loop, remove_null_chars}
use alphix.Text.Length.{IsText-frame, strlen_lem}

set_loop_lem :
    (len : ℕ) (m : Bytes) (p val a : ℕ)
    → set_loop len m p val a ≡ (if within p len a then val % 2 ^ 8 else m a)
unfolding set_loop
set_loop_lem zero m p val a = ground arith
set_loop_lem (suc len) m p val a =
    ground (arith, set_loop_lem len (poke m p (val % 2 ^ 8)) (p + 1) val a)

-- `mem_set` sets every character of a string, and no other byte, its end not either.
mem_set_lem :
    (fuel : ℕ) (m : Bytes) (p val : ℕ) (s : List ℕ)
    → IsText m p s
    → length s < fuel
    → (m' : Bytes) × (mem_set fuel m p val ≡ some m')
      × ((a : ℕ) → m' a ≡ (if within p (length s) a then val % 2 ^ 8 else m a))
unfolding mem_set
mem_set_lem fuel m p val s t f = (
  set_loop (length s) m p val,
  ap (λ o. o >>= λ len. some (set_loop len m p val)) (strlen_lem fuel m p s t f),
  λ a. set_loop_lem (length s) m p val a,
)

-- `remove_null_chars` ends on every string and leaves memory as it was: a string has no zeros that
-- it could find.
remove_null_chars_lem :
    (fuel : ℕ) (m : Bytes) (p : ℕ) (s : List ℕ)
    → IsText m p s
    → length s < fuel
    → (m' : Bytes) × (remove_null_chars fuel m p ≡ some m') × ((a : ℕ) → m' a ≡ m a)
unfolding remove_null_chars remove_loop
remove_null_chars_lem zero m p s t f = absurd (omega arith)
remove_null_chars_lem (suc fuel) m p [] t f = (
  poke m p 0,
  rw (t, remove_loop) refl,
  λ a. elim (Bool-cases (a == p)) [
    | inl here ↦ let e = (==_iff a p).0 here in rw here (sym (ap m e ∙ t))
    | inr other ↦ rw other refl
  ],
)
remove_null_chars_lem (suc fuel) m p (c ∷ s) t f =
    let m1 : Bytes = poke m p (m p) in
    let same : (a : ℕ) → m1 a ≡ m a = λ a. elim (Bool-cases (a == p)) [
      | inl here ↦ let e = (==_iff a p).0 here in rw here (sym (ap m e))
      | inr other ↦ rw other refl
    ] in
    let more : (m p == 0) ≡ false = rw t.0 (==_ne c 0 t.1) in
    let text : IsText m1 (p + 1) s = IsText-frame m m1 (p + 1) s (λ a lo hi. same a) t.2 in
    let (m', run, kept) = remove_null_chars_lem fuel m1 (p + 1) s text (omega arith) in
    let copy : Bool → Option Bytes = λ t. elim t [
      | true ↦ remove_loop fuel m1 (p + 1) (p + 1)
      | false ↦ remove_loop fuel m (p + 1) p
    ] in
    let pick : Bool → Option Bytes =
      λ t. elim t [ true ↦ some (poke m p 0) | false ↦ copy (not (m p == 0)) ] in
    let go = ap pick more ∙ ap (λ t. copy (not t)) more in (m', go ∙ run, λ a. kept a ∙ same a)
