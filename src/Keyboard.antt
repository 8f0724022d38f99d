-- ===== src/Keyboard.antt =====
-- drivers/input/keyboard.c: the ring buffer of typed characters.
-- The static variables are a record; each operation returns the new state. The one writer
-- (`keyboard_buffer_push`) and the one reader (`keyboard_buffer_pop`) are taken to run one after
-- the other.
pub mod Queue
pub mod Refine
mod Tests
use alphix.Base.{
  ℕ, zero, suc, ◌+◌, ◌-◌, ◌*◌, ◌/◌, ◌%◌, ◌^◌, ◌≤◌, ◌<◌, ◌≡◌, ◌≢◌, refl, sym, ◌∙◌, ap, Bool, true,
  false, not, ◌&&◌, ◌||◌, ◌⊎◌, inl, inr, ◌↔◌, Option, none, some, List, [], ◌∷◌, ◌++◌, map, arith,
  ltb, leb, ◌==◌, ==_iff, ==_self, ==_ne, if◌then◌else◌, Bool-cases, Option-cases, length,
  length-append, get_elem?, get_or, set, take, drop, replicate, length-set, length-replicate,
  length-take, length-drop, length-map, take-append-drop, ltb→lt, lt→ltb, leb→le, tests,
  get_elem?-set_self, get_elem?-set_ne,
}

abbrev pub kb_buf_size : ℕ
kb_buf_size = 128

pub record Keyboard : Type 0 where
  pub kb_buf : List ℕ
  pub kb_head : ℕ
  pub kb_tail : ℕ

abbrev pub next_index : ℕ → ℕ
next_index i = (i + 1) % 2 ^ 32 % kb_buf_size

pub keyboard_buffer_push : Keyboard → ℕ → Keyboard
keyboard_buffer_push k c =
    let next = next_index k.kb_head in
    if not (next == k.kb_tail)
    then record k { kb_buf = set k.kb_buf k.kb_head c; kb_head = next }
    else k

-- The character that goes through the pointer; `none` is the result 0, where nothing is written.
pub keyboard_buffer_pop : Keyboard → Option ℕ × Keyboard
keyboard_buffer_pop k =
    if k.kb_head == k.kb_tail
    then (none, k)
    else (get_elem? k.kb_buf k.kb_tail, record k { kb_tail = next_index k.kb_tail })
