-- ===== src/Text/Length.antt =====
-- `strlen` and `strnlen` measure a string; a string is known by where it ends.
use alphix.Base.{
  ℕ, zero, suc, ◌+◌, ◌≤◌, ◌<◌, ◌≡◌, refl, ◌∙◌, ap, some, List, [], ◌∷◌, arith, ltb, ==_ne,
  if◌then◌else◌, length,
}
use alphix.Memory.{Bytes}
use alphix.Text.{IsText, strlen_loop, strlen, strnlen_loop, strnlen}
use native.Mathlib.Nat.{add-zero, add_assoc}

-- A string does not see writes outside its own bytes.
pub IsText-frame :
    (m m' : Bytes) (p : ℕ) (s : List ℕ)
    → ((a : ℕ) → p ≤ a → a < p + (length s + 1) → m' a ≡ m a)
    → IsText m p s
    → IsText m' p s
IsText-frame m m' p [] same t = same p (omega arith) (omega arith) ∙ t
IsText-frame m m' p (c ∷ s) same t = (
  same p (omega arith) (omega arith) ∙ t.0,
  t.1,
  IsText-frame m m' (p + 1) s (λ a lo hi. same a (omega arith) (omega arith)) t.2,
)

strlen_loop-length :
    (fuel : ℕ) (m : Bytes) (p i : ℕ) (s : List ℕ)
    → IsText m (p + i) s
    → length s < fuel
    → strlen_loop fuel m p i ≡ some (i + length s)
unfolding strlen_loop
strlen_loop-length zero m p i s t f = absurd (omega arith)
strlen_loop-length (suc fuel) m p i [] t f = rw (t, add-zero) refl
strlen_loop-length (suc fuel) m p i (c ∷ s) t f =
    let next : IsText m (p + (i + 1)) s = rw (← add_assoc) t.2 in
    rw (t.0, ==_ne c 0 t.1)
      (strlen_loop-length fuel m p (i + 1) s next (omega arith) ∙ ap some (omega arith))

-- `strlen` of a string ends, with the number of its characters.
pub strlen_lem :
    (fuel : ℕ) (m : Bytes) (p : ℕ) (s : List ℕ)
    → IsText m p s
    → length s < fuel
    → strlen fuel m p ≡ some (length s)
unfolding strlen
strlen_lem fuel m p s t f =
    strlen_loop-length fuel m p 0 s (rw add-zero t) f ∙ ap some (omega arith)

strnlen_loop-min :
    (left : ℕ) (m : Bytes) (p i : ℕ) (s : List ℕ)
    → IsText m (p + i) s
    → strnlen_loop left m p i ≡ (if ltb left (length s) then i + left else i + length s)
unfolding strnlen_loop
strnlen_loop-min zero m p i [] t = ground arith
strnlen_loop-min zero m p i (c ∷ s) t = ground arith
strnlen_loop-min (suc left) m p i [] t = rw t (ground arith)
strnlen_loop-min (suc left) m p i (c ∷ s) t =
    let next : IsText m (p + (i + 1)) s = rw (← add_assoc) t.2 in
    rw (t.0, ==_ne c 0 t.1) (ground (arith, strnlen_loop-min left m p (i + 1) s next))

-- `strnlen` is the number of characters, or the limit where that is smaller.
strnlen_lem :
    (m : Bytes) (p maxlen : ℕ) (s : List ℕ)
    → IsText m p s
    → strnlen m p maxlen ≡ (if ltb maxlen (length s) then maxlen else length s)
unfolding strnlen
strnlen_lem m p maxlen s t = ground (arith, strnlen_loop-min maxlen m p 0 s (rw add-zero t))

-- A string whose bytes, the zero included, have come to lie elsewhere.
pub IsText-moved :
    (m m' : Bytes) (p q : ℕ) (s : List ℕ)
    → ((i : ℕ) → i ≤ length s → m' (q + i) ≡ m (p + i))
    → IsText m p s
    → IsText m' q s
IsText-moved m m' p q [] same t =
    let e1 : q ≡ q + 0 = omega arith in
    let e2 : p + 0 ≡ p = omega arith in ap m' e1 ∙ same 0 (omega arith) ∙ ap m e2 ∙ t
IsText-moved m m' p q (c ∷ s) same t =
    let e1 : q ≡ q + 0 = omega arith in
    let e2 : p + 0 ≡ p = omega arith in
    let later : (i : ℕ) → i ≤ length s → m' (q + 1 + i) ≡ m (p + 1 + i) = λ i le.
      let q1 : q + 1 + i ≡ q + suc i = omega arith in
      let p1 : p + 1 + i ≡ p + suc i = omega arith in rw (q1, p1) (same (suc i) (omega arith)) in
    (
      ap m' e1 ∙ same 0 (omega arith) ∙ ap m e2 ∙ t.0,
      t.1,
      IsText-moved m m' (p + 1) (q + 1) s later t.2,
    )

pub IsText-end : (m : Bytes) (p : ℕ) (s : List ℕ) → IsText m p s → m (p + length s) ≡ 0
IsText-end m p [] t = let e : p + 0 ≡ p = omega arith in ap m e ∙ t
IsText-end m p (c ∷ s) t =
    let e : p + suc (length s) ≡ p + 1 + length s = omega arith in
    ap m e ∙ IsText-end m (p + 1) s t.2
