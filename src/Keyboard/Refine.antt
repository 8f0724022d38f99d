-- ===== src/Keyboard/Refine.antt =====
-- The ring buffer behaves as the queue of the characters between its tail and its head.
use alphix.Base.{
  ℕ, zero, suc, ◌+◌, ◌-◌, ◌%◌, ◌<◌, ◌≡◌, ◌≢◌, refl, ap, true, false, inl, inr, Option, some, List,
  [], ◌∷◌, ◌++◌, arith, ltb, ◌==◌, Bool-cases, length, get_elem?, get_or, set, length-set,
}
use alphix.Keyboard.{Keyboard, kb_buf_size, next_index, keyboard_buffer_push, keyboard_buffer_pop}
use alphix.Keyboard.Queue

pub record IsValid (k : Keyboard) : Type 0 where
  pub storage : length k.kb_buf ≡ kb_buf_size
  pub head_in : k.kb_head < kb_buf_size
  pub tail_in : k.kb_tail < kb_buf_size

-- How many characters wait between `tail` and `head`.
pub waiting : ℕ → ℕ → ℕ
waiting tail head = (head + kb_buf_size - tail) % kb_buf_size

-- The `n` characters from index `t` on, round the end of the buffer.
pub window : List ℕ → ℕ → ℕ → List ℕ
window buf t zero = []
window buf t (suc n) = get_or buf t 0 ∷ window buf (next_index t) n

pub contents : Keyboard → List ℕ
contents k = window k.kb_buf k.kb_tail (waiting k.kb_tail k.kb_head)

length-window : (buf : List ℕ) (t n : ℕ) → length (window buf t n) ≡ n
unfolding window
length-window buf t zero = refl
length-window buf t (suc n) = ap suc (length-window buf (next_index t) n)

get_or-set_self : (xs : List ℕ) (i v : ℕ) → i < length xs → get_or (set xs i v) i 0 ≡ v
get_or-set_self [] i v h = absurd (omega arith)
get_or-set_self (x ∷ xs) zero v h = refl
get_or-set_self (x ∷ xs) (suc i) v h = get_or-set_self xs i v (omega arith)

get_or-set_ne : (xs : List ℕ) (i j v : ℕ) → i ≢ j → get_or (set xs i v) j 0 ≡ get_or xs j 0
get_or-set_ne [] i j v h = refl
get_or-set_ne (x ∷ xs) zero zero v h = absurd (h refl)
get_or-set_ne (x ∷ xs) zero (suc j) v h = refl
get_or-set_ne (x ∷ xs) (suc i) zero v h = refl
get_or-set_ne (x ∷ xs) (suc i) (suc j) v h = get_or-set_ne xs i j v (λ e. h (ap suc e))

get_elem?-get_or : (xs : List ℕ) (i : ℕ) → i < length xs → get_elem? xs i ≡ some (get_or xs i 0)
get_elem?-get_or [] i h = absurd (omega arith)
get_elem?-get_or (x ∷ xs) zero h = refl
get_elem?-get_or (x ∷ xs) (suc i) h = get_elem?-get_or xs i (omega arith)

-- A write just past a window makes it longer by that character.
window-set :
    (buf : List ℕ) (c n t i : ℕ)
    → length buf ≡ kb_buf_size
    → t < kb_buf_size
    → n + 1 < kb_buf_size
    → i ≡ (t + n) % kb_buf_size
    → window (set buf i c) t (suc n) ≡ window buf t n ++ c ∷ []
unfolding window
window-set buf c zero t i len ht hn e =
    let same : i ≡ t = omega arith in rw (same, get_or-set_self buf t c (omega arith)) refl
window-set buf c (suc n) t i len ht hn e =
    let rest = window-set buf c n (next_index t) i len (omega arith) (omega arith) (omega arith) in
    rw (get_or-set_ne buf i t c (omega arith)) (ap (λ l. get_or buf t 0 ∷ l) rest)

push-IsValid : {k : Keyboard} (c : ℕ) → IsValid k → IsValid (keyboard_buffer_push k c)
unfolding keyboard_buffer_push
push-IsValid {k} c v = ground (arith, length-set k.kb_buf k.kb_head c)

pub pop-IsValid : {k : Keyboard} → IsValid k → IsValid (keyboard_buffer_pop k).1
unfolding keyboard_buffer_pop
pop-IsValid v = ground arith

-- `keyboard_buffer_push` puts the character behind those that wait, and drops it where 127 wait.
push_refines :
    {k : Keyboard} (c : ℕ)
    → IsValid k
    → contents (keyboard_buffer_push k c) ≡ Queue.push (contents k) c
unfolding keyboard_buffer_push contents Queue.push
push_refines {k} c v =
    let n : ℕ = waiting k.kb_tail k.kb_head in
    let len = length-window k.kb_buf k.kb_tail n in
    elim (Bool-cases (next_index k.kb_head == k.kb_tail)) [
      | inl full ↦
          let many : ltb (length (window k.kb_buf k.kb_tail n)) 127 ≡ false =
            unfold waiting in ground (arith, len) in
          rw (full, many) refl
      | inr room ↦
          let few : ltb (length (window k.kb_buf k.kb_tail n)) 127 ≡ true =
            unfold waiting in ground (arith, len) in
          let one_more : waiting k.kb_tail (next_index k.kb_head) ≡ suc n =
            unfold waiting in ground arith in
          rw (room, few, one_more)
            (window-set k.kb_buf c n k.kb_tail k.kb_head v.storage v.tail_in
              (unfold waiting in ground arith) (unfold waiting in ground arith))
    ]

-- `keyboard_buffer_pop` takes the character that has waited longest, and reports 0 exactly where none
-- waits.
pub pop_refines :
    {k : Keyboard}
    → IsValid k
    → let (c, k') = keyboard_buffer_pop k in (c, contents k') ≡ Queue.pop (contents k)
unfolding keyboard_buffer_pop contents
pop_refines {k} v = elim (Bool-cases (k.kb_head == k.kb_tail)) [
  | inl empty ↦
      let nothing : waiting k.kb_tail k.kb_head ≡ 0 = unfold waiting in ground arith in
      rw (empty, nothing) (unfold window Queue.pop in refl)
  | inr some_wait ↦
      let n : ℕ = waiting (next_index k.kb_tail) k.kb_head in
      let one_more : waiting k.kb_tail k.kb_head ≡ suc n = unfold waiting in ground arith in
      rw (some_wait, one_more, get_elem?-get_or k.kb_buf k.kb_tail (omega (arith, v.storage)))
        (unfold window Queue.pop in refl)
]

-- What the interrupt handler and the reader do, one after the other.
pub data Event : Type 0 where
  typed : ℕ → Event
  read : Event

-- The results of the reads.
pub run : Keyboard → List Event → List (Option ℕ)
run k [] = []
run k (typed c ∷ es) = run (keyboard_buffer_push k c) es
run k (read ∷ es) = let (c, k') = keyboard_buffer_pop k in c ∷ run k' es

pub run_queue : List ℕ → List Event → List (Option ℕ)
run_queue q [] = []
run_queue q (typed c ∷ es) = run_queue (Queue.push q c) es
run_queue q (read ∷ es) = let (c, q') = Queue.pop q in c ∷ run_queue q' es

-- From any valid state, every sequence of pushes and pops gives on the ring buffer the characters
-- that it gives on the queue of its contents.
pub run_refines :
    (es : List Event) {k : Keyboard} → IsValid k → run k es ≡ run_queue (contents k) es
unfolding run run_queue
run_refines [] v = refl
run_refines (typed c ∷ es) v = rw (run_refines es (push-IsValid c v), push_refines c v) refl
run_refines (read ∷ es) v = rw (run_refines es (pop-IsValid v), ← pop_refines v) refl
