-- ===== src/Token/Run.antt =====
-- What one call of `strtok` does.
use alphix.Base.{
  ℕ, suc, ◌+◌, ◌≤◌, ◌<◌, ◌≡◌, refl, sym, ◌∙◌, ap, true, false, ◌⊎◌, inl, inr, Option, none, some,
  List, [], ◌∷◌, arith, ◌==◌, ==_self, ==_ne, List-cases, length, ◌>>=◌,
}
use mathlib.Core.Path.{subst}
use mathlib.Core.List.{append-nil}
use alphix.Memory.{Bytes, poke}
use alphix.Text.{IsText}
use alphix.Text.Length.{IsText-frame}
use alphix.Text.Copy.{Chars, Chars-frame, IsText-append}
use alphix.Token.{seek, close, find_end, strtok_from}
use alphix.Token.Words.{over, past, past-length}
use alphix.Token.Seek.{seek_lem}

-- The bytes of the text at `p` and those of the delimiters at `d` are not the same.
abbrev pub Apart : ℕ → ℕ → ℕ → ℕ → Type 0
Apart p n d k = (p + n < d) ⊎ (d + k < p)

-- A call, by where its loops stop.
run-none :
    (fuel : ℕ) (m : Bytes) (d p q : ℕ)
    → seek true fuel fuel m d p ≡ some q
    → (m q == 0) ≡ true
    → strtok_from fuel m d p ≡ some (none, m, none)
unfolding strtok_from find_end
run-none fuel m d p q run stop = ap (λ o. o >>= find_end fuel m d) run ∙ rw (stop, find_end) refl

run-next :
    (fuel : ℕ) (m : Bytes) (d p q r : ℕ)
    → seek true fuel fuel m d p ≡ some q
    → (m q == 0) ≡ false
    → seek false fuel fuel m d q ≡ some r
    → strtok_from fuel m d p ≡ some (close m q r)
unfolding strtok_from find_end
run-next fuel m d p q r run more run2 =
    ap (λ o. o >>= find_end fuel m d) run ∙ rw (more, find_end, run2) refl

pub strtok_from-none :
    (fuel : ℕ) (m : Bytes) (d p : ℕ) (ds s : List ℕ)
    → IsText m d ds
    → length ds < fuel
    → IsText m p s
    → length s < fuel
    → past true ds s ≡ []
    → strtok_from fuel m d p ≡ some (none, m, none)
strtok_from-none fuel m d p ds s u fd t f e =
    let (run, _, back) = seek_lem true fuel fuel m d p ds s u fd t f in
    let q : ℕ = p + length (over true ds s) in
    let stop : IsText m q [] = subst (IsText m q) e back in
    let over_now : (m q == 0) ≡ true = rw stop refl in run-none fuel m d p q run over_now

close-last : (m : Bytes) (q r : ℕ) → (m r == 0) ≡ true → some (close m q r) ≡ some (some q, m, none)
unfolding close
close-last m q r e = rw e refl

close-more :
    (m : Bytes) (q r : ℕ)
    → (m r == 0) ≡ false
    → some (close m q r) ≡ some (some q, poke m r 0, some (r + 1))
unfolding close
close-more m q r e = rw e refl

-- What a call that finds a word returns.
pub record Found (fuel : ℕ) (m : Bytes) (d p : ℕ) (ds w rest : List ℕ) (q : ℕ) (m' : Bytes)
    (last : Option ℕ) : Type 0 where
  pub run : strtok_from fuel m d p ≡ some (some q, m', last)
  pub word : IsText m' q w
  pub at : p ≤ q
  pub behind :
      ((rest ≡ []) × (last ≡ none) × (m' ≡ m))
      ⊎ ((e : ℕ) × (rest' : List ℕ) × (rest ≡ e ∷ rest')
          × (last ≡ some (q + length w + 1))
          × (m' ≡ poke m (q + length w) 0)
          × IsText m' (q + length w + 1) rest')

pub strtok_from-next :
    (fuel : ℕ) (m : Bytes) (d p : ℕ) (ds s s' : List ℕ) (c : ℕ)
    → IsText m d ds
    → length ds < fuel
    → IsText m p s
    → length s < fuel
    → past true ds s ≡ c ∷ s'
    → (m' : Bytes) × (last : Option ℕ) × Found fuel m d p ds
        (over false ds (c ∷ s'))
        (past false ds (c ∷ s'))
        (p + length (over true ds s))
        m'
        last
strtok_from-next fuel m d p ds s s' c u fd t f e =
    let (run, _, back) = seek_lem true fuel fuel m d p ds s u fd t f in
    let q : ℕ = p + length (over true ds s) in
    let here : IsText m q (c ∷ s') = subst (IsText m q) e back in
    let len : length (over true ds s) + suc (length s') ≡ length s =
      ap (λ (l : List ℕ). length (over true ds s) + length l) (sym e) ∙ past-length true ds s in
    let more : (m q == 0) ≡ false = rw here.0 (==_ne c 0 here.1) in
    let w : List ℕ = over false ds (c ∷ s') in
    let r : ℕ = q + length w in
    let (run2, front, tail) =
      seek_lem false fuel fuel m d q ds (c ∷ s') u fd here (omega (arith, len)) in
    elim (List-cases (past false ds (c ∷ s'))) [
      | inl over_now ↦
          let stop : IsText m r [] = subst (IsText m r) over_now tail in
          let no_more : (m r == 0) ≡ true = rw stop refl in
          (
            m,
            none,
            record {
              run = run-next fuel m d p q r run more run2 ∙ close-last m q r no_more;
              word = rw append-nil at (IsText-append m q w [] front stop);
              at = omega arith;
              behind = inl (over_now, refl, refl);
            },
          )
      | inr (x, rest, on) ↦
          let next : IsText m r (x ∷ rest) = subst (IsText m r) on tail in
          let delimiter : (m r == 0) ≡ false = rw next.0 (==_ne x 0 next.1) in
          let m' : Bytes = poke m r 0 in
          let cut : IsText m' r [] = rw (==_self r) refl in
          let kept : Chars m' q w =
            Chars-frame m m' q w (λ a lo hi. rw (==_ne a r (omega arith)) refl) front in
          (
            m',
            some (r + 1),
            record {
              run = run-next fuel m d p q r run more run2 ∙ close-more m q r delimiter;
              word = rw append-nil at (IsText-append m' q w [] kept cut);
              at = omega arith;
              behind = inr (
                x,
                rest,
                on,
                refl,
                refl,
                IsText-frame m m' (r + 1) rest (λ a lo hi. rw (==_ne a r (omega arith)) refl)
                    next.2,
              );
            },
          )
    ]
