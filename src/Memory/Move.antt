-- ===== src/Memory/Move.antt =====
-- `memmove` copies as if through a buffer, also where the ranges overlap.
use alphix.Base.{
  ℕ, zero, suc, ◌+◌, ◌-◌, ◌≤◌, ◌<◌, ◌≡◌, refl, true, false, ◌||◌, ◌⊎◌, inl, inr, arith, ltb, leb,
  ◌==◌, if◌then◌else◌, Bool-cases,
}
use alphix.Memory.{Bytes, poke, move_up, move_down, memmove}
use alphix.Memory.Copy.{within}

move_up-at :
    (n : ℕ) (m : Bytes) (d s a : ℕ)
    → (d < s) ⊎ (s + n ≤ d)
    → move_up n m d s a ≡ (if within d n a then m (s + (a - d)) else m a)
unfolding move_up
move_up-at zero m d s a ok = ground arith
move_up-at (suc n) m d s a ok =
    rw (move_up-at n (poke m d (m s)) (d + 1) (s + 1) a (omega arith)) (elim (Bool-cases (a == d)) [
      | inl here ↦
          let there : s + (a - d) ≡ s = ground arith in
          let e1 : within (d + 1) n a ≡ false = ground arith in
          let e2 : within d (suc n) a ≡ true = ground arith in rw (e1, e2, here, there) refl
      | inr elsewhere ↦
          let e1 : within (d + 1) n a ≡ within d (suc n) a = ground arith in
          rw e1 (elim (Bool-cases (within d (suc n) a)) [
            | inl inside ↦
                let there : s + 1 + (a - (d + 1)) ≡ s + (a - d) = ground arith in
                let not_written : (s + (a - d) == d) ≡ false = ground arith in
                rw (inside, there, not_written) refl
            | inr outside ↦ rw (outside, elsewhere) refl
          ])
    ])

move_down-at :
    (n : ℕ) (m : Bytes) (d s a : ℕ)
    → s ≤ d
    → move_down n m (d + n) (s + n) a ≡ (if within d n a then m (s + (a - d)) else m a)
unfolding move_down
move_down-at zero m d s a ok = ground arith
move_down-at (suc n) m d s a ok =
    let e3 : d + suc n - 1 ≡ d + n = omega arith in
    let e4 : s + suc n - 1 ≡ s + n = omega arith in
    rw (e3, e4, move_down-at n (poke m (d + n) (m (s + n))) d s a ok)
      (elim (Bool-cases (a == d + n)) [
        | inl here ↦
            let there : s + (a - d) ≡ s + n = ground arith in
            let e1 : within d n a ≡ false = ground arith in
            let e2 : within d (suc n) a ≡ true = ground arith in rw (e1, e2, here, there) refl
        | inr elsewhere ↦
            let e1 : within d n a ≡ within d (suc n) a = ground arith in
            rw e1 (elim (Bool-cases (within d (suc n) a)) [
              | inl inside ↦
                  let not_written : (s + (a - d) == d + n) ≡ false = ground arith in
                  rw (inside, not_written) refl
              | inr outside ↦ rw (outside, elsewhere) refl
            ])
      ])

-- After `memmove` the `n` bytes at `dest` are those that lay at `src` before, and every other byte
-- is as it was.
pub memmove_lem :
    (m : Bytes) (dest src n a : ℕ)
    → memmove m dest src n a ≡ (if within dest n a then m (src + (a - dest)) else m a)
unfolding memmove
memmove_lem m dest src n a = elim (Bool-cases (ltb dest src || leb (src + n) dest)) [
  | inl up ↦ rw up (move_up-at n m dest src a (ground arith))
  | inr down ↦ rw down (move_down-at n m dest src a (ground arith))
]
