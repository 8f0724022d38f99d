-- ===== src/Syscall/Read.antt =====
-- `sys_read` delivers what is typed, in order.
use alphix.Base.{
  ℕ, zero, suc, ◌+◌, ◌-◌, ◌≤◌, ◌<◌, ◌≡◌, refl, ◌∙◌, ap, true, false, inl, inr, none, some, List, [],
  ◌∷◌, arith, ◌==◌, if◌then◌else◌, Bool-cases, length, get_or, drop,
}
use alphix.Memory.Copy.{within}
use alphix.Port.{Bus}
use alphix.Keyboard.{Keyboard, keyboard_buffer_pop}
use alphix.Keyboard.Queue
use alphix.Keyboard.Refine.{IsValid, contents, pop-IsValid, pop_refines}
use alphix.Syscall.{read_char, Kernel, store, read_loop, sys_read}

pop-nothing :
    (k : Keyboard)
    → IsValid k
    → contents k ≡ []
    → ((keyboard_buffer_pop k).0 ≡ none) × (contents (keyboard_buffer_pop k).1 ≡ [])
unfolding Queue.pop
pop-nothing k v e =
    let same = pop_refines v ∙ ap Queue.pop e in (ap (λ r. r.0) same, ap (λ r. r.1) same)

pop-oldest :
    (k : Keyboard) (c : ℕ) (q : List ℕ)
    → IsValid k
    → contents k ≡ c ∷ q
    → ((keyboard_buffer_pop k).0 ≡ some c) × (contents (keyboard_buffer_pop k).1 ≡ q)
unfolding Queue.pop
pop-oldest k c q v e =
    let same = pop_refines v ∙ ap Queue.pop e in (ap (λ r. r.0) same, ap (λ r. r.1) same)

read_char-none : (k : Keyboard) → IsValid k → contents k ≡ [] → read_char k ≡ none
unfolding read_char
read_char-none k v e = rw ((pop-nothing k v e).0, read_char) refl

read_char-some :
    (k : Keyboard) (c : ℕ) (q : List ℕ)
    → IsValid k
    → contents k ≡ c ∷ q
    → (k' : Keyboard) × (read_char k ≡ some (c, k')) × IsValid k' × (contents k' ≡ q)
unfolding read_char
read_char-some k c q v e =
    let (got, left) = pop-oldest k c q v e in
    ((keyboard_buffer_pop k).1, rw (got, read_char) refl, pop-IsValid v, left)

module _ (b : Bus) where
  read_loop_lem :
      (left p : ℕ) (k : Kernel b) (all : List ℕ)
      → IsValid k.keyboard
      → contents k.keyboard ≡ all
      → left ≤ length all
      → (k' : Kernel b) × (read_loop b left p k ≡ some k')
        × (contents k'.keyboard ≡ drop left all)
        × ((a : ℕ)
            → k'.screen.mem a ≡ (if within p left a then get_or all (a - p) 0 else k.screen.mem a))
  unfolding read_loop
  read_loop_lem zero p k all v e enough =
      (k, refl, e, λ a. let out : within p 0 a ≡ false = ground arith in rw out refl)
  read_loop_lem (suc left) p k [] v e enough = absurd (omega arith)
  read_loop_lem (suc left) p k (c ∷ rest) v e enough =
      let (kb, got, v1, later) = read_char-some k.keyboard c rest v e in
      let k1 : Kernel b = store b p c (record k { keyboard = kb }) in
      let (k', run, stays, at) = read_loop_lem left (p + 1) k1 rest v1 later (omega arith) in
      (
        k',
        rw (got, read_loop) run,
        stays,
        λ a. at a ∙ elim (Bool-cases (a == p)) [
          | inl here ↦
              let out : within (p + 1) left a ≡ false = ground arith in
              let is_in : within p (suc left) a ≡ true = ground arith in
              let zeroth : a - p ≡ 0 = ground arith in rw (out, is_in, here, zeroth) refl
          | inr other ↦ elim (Bool-cases (within (p + 1) left a)) [
            | inl inside ↦
                let is_in : within p (suc left) a ≡ true = ground arith in
                let from : a - p ≡ suc (a - (p + 1)) = ground arith in rw (inside, is_in, from) refl
            | inr outside ↦
                let is_out : within p (suc left) a ≡ false = ground arith in
                rw (outside, is_out, other) refl
          ]
        ],
      )

  read_loop-starves :
      (left p : ℕ) (k : Kernel b) (all : List ℕ)
      → IsValid k.keyboard
      → contents k.keyboard ≡ all
      → length all < left
      → read_loop b left p k ≡ none
  unfolding read_loop
  read_loop-starves zero p k all v e few = absurd (omega arith)
  read_loop-starves (suc left) p k [] v e few = rw (read_char-none k.keyboard v e, read_loop) refl
  read_loop-starves (suc left) p k (c ∷ rest) v e few =
      let (kb, got, v1, later) = read_char-some k.keyboard c rest v e in
      rw (got, read_loop)
        (read_loop-starves left (p + 1) (store b p c (record k { keyboard = kb })) rest v1 later
          (omega arith))

  -- `sys_read` on descriptor 0 returns exactly where `count` characters wait in the ring buffer: then
  -- it reports `count`, its buffer holds the first `count` of them in the order in which they were
  -- pushed, no other byte has changed, and the others are left for the next call. Where fewer wait,
  -- it halts for good, since no interrupt is taken in it.
  pub sys_read_lem :
      (buf count : ℕ) (k : Kernel b)
      → IsValid k.keyboard
      → let all = contents k.keyboard in
        (length all < count → sys_read b 0 buf count k ≡ none)
        × (count ≤ length all
            → (k' : Kernel b) × (sys_read b 0 buf count k ≡ some (count, k'))
              × (contents k'.keyboard ≡ drop count all)
              × ((a : ℕ)
                  → k'.screen.mem a
                    ≡ (if within buf count a then get_or all (a - buf) 0 else k.screen.mem a)))
  unfolding sys_read
  sys_read_lem buf count k v =
      let all : List ℕ = contents k.keyboard in
      (
        λ few. rw (read_loop-starves count buf k all v refl few) refl,
        λ enough.
            let (k', run, stays, at) = read_loop_lem count buf k all v refl enough in
            (k', rw run refl, stays, at),
      )
