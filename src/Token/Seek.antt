-- ===== src/Token/Seek.antt =====
-- Where the loops of `strtok` stop.
use alphix.Base.{
  ℕ, zero, suc, ◌+◌, ◌<◌, ◌≡◌, ◌≢◌, refl, ◌∙◌, ap, Bool, true, false, not, inl, inr, Option, none,
  some, List, [], ◌∷◌, arith, ◌==◌, ==_ne, if◌then◌else◌, Bool-cases, length, ◌>>=◌,
}
use alphix.Memory.{Bytes}
use alphix.Text.{IsText, strchr}
use alphix.Text.Copy.{Chars}
use alphix.Token.{is_some, seek}
use alphix.Token.Words.{among, over, past}

strchr-among :
    (fuel : ℕ) (m : Bytes) (p c : ℕ) (ds : List ℕ)
    → IsText m p ds
    → length ds < fuel
    → c ≢ 0
    → (r : Option ℕ) × (strchr fuel m p c ≡ some r) × (is_some r ≡ among c ds)
unfolding strchr
strchr-among zero m p c ds t f ne = absurd (omega arith)
strchr-among (suc fuel) m p c [] t f ne = (none, rw (t, ==_ne c 0 ne) refl, refl)
strchr-among (suc fuel) m p c (d ∷ ds) t f ne = elim (Bool-cases (d == c)) [
  | inl here ↦ (some p, rw (t.0, ==_ne d 0 t.1, here) refl, rw here refl)
  | inr on ↦
      let (r, ends, found) = strchr-among fuel m (p + 1) c ds t.2 (omega arith) ne in
      (r, rw (t.0, ==_ne d 0 t.1, on) ends, rw on found)
]

chosen : (t : Bool) (x y : Option ℕ) → (elim t [ true ↦ x | false ↦ y ]) ≡ (if t then x else y)
chosen true x y = refl
chosen false x y = refl

seek_on :
    (on : Bool) (rounds fuel : ℕ) (m : Bytes) (d p : ℕ) (r : Option ℕ)
    → (m p == 0) ≡ false
    → strchr fuel m d (m p) ≡ some r
    → seek on (suc rounds) fuel m d p ≡ (
        if (if on then is_some r else not (is_some r))
        then seek on rounds fuel m d (p + 1)
        else some p)
unfolding seek
seek_on on rounds fuel m d p r more found =
    let next : Option ℕ → Option ℕ = λ r. elim (if on then is_some r else not (is_some r)) [
      | true ↦ seek on rounds fuel m d (p + 1)
      | false ↦ some p
    ] in
    rw (more, seek)
      (ap (λ o. o >>= next) found
        ∙ chosen (if on then is_some r else not (is_some r)) (seek on rounds fuel m d (p + 1))
            (some p))

-- A loop ends behind the characters that it goes over.
pub seek_lem :
    (on : Bool) (rounds fuel : ℕ) (m : Bytes) (d p : ℕ) (ds s : List ℕ)
    → IsText m d ds
    → length ds < fuel
    → IsText m p s
    → length s < rounds
    → (seek on rounds fuel m d p ≡ some (p + length (over on ds s)))
      × Chars m p (over on ds s)
      × IsText m (p + length (over on ds s)) (past on ds s)
unfolding seek over past
seek_lem on zero fuel m d p ds s u fd t f = absurd (omega arith)
seek_lem on (suc rounds) fuel m d p ds [] u fd t f =
    let done : (m p == 0) ≡ true = rw t refl in
    let here : p + 0 ≡ p = omega arith in (rw (done, here, seek) refl, tt, ap m here ∙ t)
seek_lem on (suc rounds) fuel m d p ds (c ∷ s) u fd t f =
    let (r, found, which) = strchr-among fuel m d (m p) ds u fd (rw t.0 t.1) in
    let more : (m p == 0) ≡ false = rw t.0 (==_ne c 0 t.1) in
    let same : is_some r ≡ among c ds = which ∙ ap (λ x. among x ds) t.0 in
    let test : (if on then is_some r else not (is_some r))
        ≡ (if on then among c ds else not (among c ds)) =
      ap (λ x. if on then x else not x) same in
    let step = seek_on on rounds fuel m d p r more found in
    let here : p + 0 ≡ p = omega arith in
    elim (Bool-cases (if on then among c ds else not (among c ds))) [
      | inl goes ↦
          let jump =
            step ∙ ap (λ x. if x then seek on rounds fuel m d (p + 1) else some p) (test ∙ goes) in
          let (run, front, back) =
            seek_lem on rounds fuel m d (p + 1) ds s u fd t.2 (omega arith) in
          let e1 : over on ds (c ∷ s) ≡ c ∷ over on ds s = rw goes refl in
          let e2 : past on ds (c ∷ s) ≡ past on ds s = rw goes refl in
          let len : p + suc (length (over on ds s)) ≡ p + 1 + length (over on ds s) = omega arith in
          rw (e1, e2, len) (jump ∙ run, (t.0, t.1, front), back)
      | inr stops ↦
          let stay =
            step ∙ ap (λ x. if x then seek on rounds fuel m d (p + 1) else some p) (test ∙ stops) in
          let e1 : over on ds (c ∷ s) ≡ [] = rw stops refl in
          let e2 : past on ds (c ∷ s) ≡ c ∷ s = rw stops refl in rw (e1, e2, here) (stay, tt, t)
    ]
