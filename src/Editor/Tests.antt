-- ===== src/Editor/Tests.antt =====
-- The editor on a small machine: the theorems at concrete keys.
use alphix.Base.{ℕ, ◌≡◌, refl, false, inl, inr, some, List, [], ◌∷◌, arith, ◌==◌, if◌then◌else◌}
use alphix.Memory.{Bytes}
use alphix.Port.Quiet.{quiet}
use alphix.Getch.{Modifiers}
use alphix.Editor.{Editor, kscan_handler, kscan}
use alphix.Editor.Line.{Line, Session, type_code, type_codes, left, rub_out, press_key, whole}
use alphix.Editor.Erase.{Shows}
use alphix.Editor.Refine.{kscan_handler_refines}
use alphix.Editor.Return.{Returned, kscan_lem}

abbrev plain_keys : Modifiers
plain_keys = record { capslock = false; shift = false; ctrl = false; alt = false }

-- "ab" in the buffer at 4096, with the place behind the `a`; all other bytes are zero.
abbrev line_ab : Line
line_ab = record { front = b'a' ∷ []; back = b'b' ∷ [] }

abbrev session_ab : Session
session_ab = record { mods = plain_keys; line = line_ab; done = false }

abbrev mem_ab : Bytes
mem_ab a = if a == 4096 then b'a' else if a == 4097 then b'b' else 0

abbrev editor_ab : Editor quiet 4096
editor_ab = record {
  keys = plain_keys;
  kscan_pos = 1;
  enter = false;
  screen = record { mem = mem_ab; ports = tt };
}

editor_ab-Shows : Shows quiet 4096 (inl (omega arith)) editor_ab session_ab
editor_ab-Shows = record {
  keys = refl;
  enter = refl;
  pos = refl;
  shown = (refl, omega arith, (refl, omega arith, refl));
}

-- A backspace takes the `a` out.
kscan_handler_refines_example :
    (e' : Editor quiet 4096) × (kscan_handler quiet 4096 600 0x0E editor_ab ≡ some e')
    × Shows quiet 4096 (inl (omega arith)) e' (type_code 0x0E session_ab)
kscan_handler_refines_example =
    kscan_handler_refines quiet 4096 (inl (omega arith)) 600 0x0E editor_ab session_ab
      editor_ab-Shows (omega arith) (omega arith)

-- `h`, a release, `i`, and Enter.
abbrev hi_enter : List ℕ
hi_enter = 0x23 ∷ 0xA3 ∷ 0x17 ∷ 0x1C ∷ []

kscan_lem_example :
    Returned quiet 4096 (inl (omega arith)) 8192 (kscan quiet 4096 600 8192 hi_enter editor_ab) (
      type_codes hi_enter
        (record { mods = plain_keys; line = record { front = []; back = [] }; done = false }))
kscan_lem_example =
    kscan_lem quiet 4096 (inl (omega arith)) 600 8192 hi_enter editor_ab (b'a' ∷ b'b' ∷ [])
      editor_ab-Shows.shown (omega arith) (omega arith) (omega arith) (inr (omega arith))

rubbed_out : whole (press_key rub_out (press_key left line_ab)) ≡ b'a' ∷ b'b' ∷ []
rubbed_out = refl
