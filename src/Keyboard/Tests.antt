-- ===== src/Keyboard/Tests.antt =====
-- The keyboard buffer at concrete states.
use alphix.Base.{◌≡◌, refl, [], ◌∷◌, ◌++◌, arith, replicate}
use alphix.Keyboard.{Keyboard}
use alphix.Keyboard.Refine.{IsValid, contents, typed, read, run, run_queue, run_refines}

-- Two characters wait, round the end of the buffer.
abbrev wrapped : Keyboard
wrapped = record { kb_buf = b'y' ∷ replicate 126 0 ++ b'x' ∷ []; kb_head = 1; kb_tail = 127 }

wrapped-IsValid : IsValid wrapped
wrapped-IsValid = record { storage = refl; head_in = omega arith; tail_in = omega arith }

run_refines_example :
    run wrapped (typed b'z' ∷ read ∷ read ∷ read ∷ read ∷ [])
    ≡ run_queue (contents wrapped) (typed b'z' ∷ read ∷ read ∷ read ∷ read ∷ [])
run_refines_example = run_refines (typed b'z' ∷ read ∷ read ∷ read ∷ read ∷ []) wrapped-IsValid
