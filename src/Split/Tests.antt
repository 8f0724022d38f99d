-- ===== src/Split/Tests.antt =====
-- `split`, `strdup` and `tostr` on a small heap.
use alphix.Base.{ℕ, ◌≡◌, refl, none, some, List, [], ◌∷◌, arith, ◌==◌, if◌then◌else◌}
use alphix.Memory.{Bytes}
use alphix.Heap.{Heap, heap_init}
use alphix.Token.Words.{pieces}
use alphix.Split.{Store, split}
use alphix.Split.Empty.{split-empty}

-- "a  bc" at 10, and two blanks at 30.
abbrev memory : Bytes
memory a =
    if a == 10
    then b'a'
    else if a == 11
    then b' '
    else if a == 12
    then b' '
    else if a == 13
    then b'b'
    else if a == 14
    then b'c'
    else if a == 30
    then b' '
    else if a == 31
    then b' '
    else 0

abbrev text : List ℕ
text = b'a' ∷ b' ' ∷ b' ' ∷ b'b' ∷ b'c' ∷ []

-- A heap as `heap_init` leaves it.
abbrev heap : Heap
heap = heap_init (record {
  start_address = 0;
  end_address = 0;
  max_address = 0;
  first_block = 0;
  total_blocks = 0;
  used_blocks = 0;
  mem = λ a. record { magic = 0; size = 0; used = 0; next = 0; prev = 0 };
  log = [];
})

abbrev store : Store
store = record { mem = memory; heap = heap }

split-empty_example : split 3 30 b' ' store ≡ some (0, none, store)
unfolding pieces
split-empty_example =
    split-empty 3 30 b' ' (b' ' ∷ b' ' ∷ []) store (omega arith)
      (refl, omega arith, (refl, omega arith, refl)) (omega arith) refl
