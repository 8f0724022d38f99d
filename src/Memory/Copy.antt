-- ===== src/Memory/Copy.antt =====
-- `memcpy` and `memset`: which bytes they write, and with what.
use alphix.Base.{
  ℕ, zero, suc, ◌+◌, ◌-◌, ◌≤◌, ◌≡◌, refl, Bool, true, false, ◌&&◌, ◌⊎◌, inl, inr, arith, ltb, leb,
  ◌==◌, if◌then◌else◌, Bool-cases,
}
use native.Mathlib.Nat.{add-zero}
use alphix.Memory.{Bytes, poke, copy_loop, memcpy, memset}

-- The address `a` is one of the `n` from `p` on.
abbrev pub within : ℕ → ℕ → ℕ → Bool
within p n a = leb p a && ltb a (p + n)

-- The two ranges of `n` bytes do not overlap.
abbrev pub Apart : ℕ → ℕ → ℕ → Type 0
Apart p q n = (p + n ≤ q) ⊎ (q + n ≤ p)

copy_loop-at :
    (left : ℕ) (m : Bytes) (dest src i n a : ℕ)
    → Apart dest src n
    → i + left ≡ n
    → copy_loop left m dest src i a
      ≡ (if within (dest + i) left a then m (src + (a - dest)) else m a)
unfolding copy_loop
copy_loop-at zero m dest src i n a apart e = ground arith
copy_loop-at (suc left) m dest src i n a apart e =
    rw
      (copy_loop-at left (poke m (dest + i) (m (src + i))) dest src (i + 1) n a apart (omega arith))
      (elim (Bool-cases (a == dest + i)) [
        | inl here ↦
            let there : src + (a - dest) ≡ src + i = ground arith in
            let e1 : within (dest + (i + 1)) left a ≡ false = ground arith in
            let e2 : within (dest + i) (suc left) a ≡ true = ground arith in
            rw (e1, e2, here, there) refl
        | inr elsewhere ↦
            let e1 : within (dest + (i + 1)) left a ≡ within (dest + i) (suc left) a =
              ground arith in
            rw e1 (elim (Bool-cases (within (dest + i) (suc left) a)) [
              | inl inside ↦
                  let not_written : (src + (a - dest) == dest + i) ≡ false = ground arith in
                  rw (inside, not_written) refl
              | inr outside ↦ rw (outside, elsewhere) refl
            ])
      ])

-- Between two ranges that do not overlap, `memcpy` copies `n` bytes and writes nothing else.
pub memcpy_lem :
    (m : Bytes) (dest src n a : ℕ)
    → Apart dest src n
    → memcpy m dest src n a ≡ (if within dest n a then m (src + (a - dest)) else m a)
unfolding memcpy
memcpy_lem m dest src n a apart =
    rw (copy_loop-at n m dest src 0 n a apart (omega arith), add-zero) refl

-- `memset` writes `val` to `count` bytes and to no other.
pub memset_lem :
    (count : ℕ) (m : Bytes) (dest val a : ℕ)
    → memset count m dest val a ≡ (if within dest count a then val else m a)
unfolding memset
memset_lem zero m dest val a = ground arith
memset_lem (suc count) m dest val a =
    ground (arith, memset_lem count (poke m dest val) (dest + 1) val a)
