-- ===== src/Getch.antt =====
-- cpu/kprintf.c: `getch_handler` and `kgetch`, the reading of one key.
-- The scancode that `inb(0x60)` reads is an argument: it is what the keyboard sends.
pub mod Laws
pub mod Held
mod Tests
use alphix.Base.{
  ℕ, zero, suc, ◌+◌, ◌-◌, ◌*◌, ◌/◌, ◌%◌, ◌^◌, ◌≤◌, ◌<◌, ◌≡◌, ◌≢◌, refl, sym, ◌∙◌, ap, Bool, true,
  false, not, ◌&&◌, ◌||◌, ◌⊎◌, inl, inr, ◌↔◌, Option, none, some, List, [], ◌∷◌, ◌++◌, map, arith,
  ltb, leb, ◌==◌, ==_iff, ==_self, ==_ne, if◌then◌else◌, Bool-cases, Option-cases, length,
  length-append, get_elem?, get_or, set, take, drop, replicate, length-set, length-replicate,
  length-take, length-drop, length-map, take-append-drop, ltb→lt, lt→ltb, leb→le, tests,
  get_elem?-set_self, get_elem?-set_ne,
}
use alphix.Keys.{
  get_acsii_low, get_acsii_high, key_lshift, key_rshift, key_caps_lock, key_lctrl, key_lalt,
  key_enter, key_backspace, key_tab, key_esc, key_up, key_down, key_left, key_right, key_f1, key_f2,
  key_f3, key_f4, key_f5, key_f6, key_f7, key_f8, key_f9, key_f10, key_f11, key_f12,
}

-- The static variables that the two keyboard handlers share.
pub record Modifiers : Type 0 where
  pub capslock : Bool
  pub shift : Bool
  pub ctrl : Bool
  pub alt : Bool

-- The first `switch` of either handler; `none` where it does not return.
unfoldable pub modifiers : ℕ → Bool → Modifiers → Option Modifiers
modifiers scancode pressed s =
    if (scancode == key_lshift) || (scancode == key_rshift)
    then some (record s { shift = pressed })
    else if scancode == key_caps_lock
    then some (if pressed then record s { capslock = not s.capslock } else s)
    else if scancode == key_lctrl
    then some (record s { ctrl = pressed })
    else if scancode == key_lalt
    then some (record s { alt = pressed })
    else none

-- The character of a key under the modifiers.
pub translate : Modifiers → ℕ → ℕ
translate s scancode =
    if s.shift || s.capslock then get_acsii_high scancode else get_acsii_low scancode

pub record Getch : Type 0 where
  pub keys : Modifiers
  pub getch_end : Bool
  pub getch_char : ℕ

abbrev pub finish : ℕ → Getch → Getch
finish c s = record s { getch_end = true; getch_char = c }

-- The cases of the second `switch` that name a key.
abbrev pub special_cases : List (ℕ × ℕ)
special_cases =
    (key_enter, 0x0a)
    ∷ (key_backspace, 0x08)
    ∷ (key_tab, 0x09)
    ∷ (key_esc, 27)
    ∷ (key_up, 72)
    ∷ (key_down, 80)
    ∷ (key_left, 75)
    ∷ (key_right, 77)
    ∷ (key_f1, 59)
    ∷ (key_f2, 60)
    ∷ (key_f3, 61)
    ∷ (key_f4, 62)
    ∷ (key_f5, 63)
    ∷ (key_f6, 64)
    ∷ (key_f7, 65)
    ∷ (key_f8, 66)
    ∷ (key_f9, 67)
    ∷ (key_f10, 68)
    ∷ (key_f11, 69)
    ∷ (key_f12, 70)
    ∷ []

pub special : List (ℕ × ℕ) → ℕ → Option ℕ
special [] scancode = none
special ((k, c) ∷ cases) scancode = if scancode == k then some c else special cases scancode

-- What follows once the key is known to be pressed.
pub press : ℕ → Getch → Getch
press scancode s = elim (special special_cases scancode) [
  | some c ↦ finish c s
  | none ↦ if translate s.keys scancode == 0 then s else finish (translate s.keys scancode) s
]

pub getch_handler : ℕ → Getch → Getch
getch_handler code s =
    let pressed = ltb (code % 2 ^ 8) 0x80 in
    let scancode = code % 0x80 in
    elim (modifiers scancode pressed s.keys) [
      | some keys ↦ record s { keys = keys }
      | none ↦ if not pressed then s else press scancode s
    ]

-- `while (!getch_end) {}`, over the scancodes that arrive in it; `none` where they do not end it. The
-- rest of the scancodes is for later. `getch_end` is not `volatile`: a compiler may read it in each
-- round (`rereads`), or once, before the first round, and go round for ever where it is 0 then.
unfoldable pub wait : Bool → List ℕ → Getch → Option (ℕ × Getch × List ℕ)
wait rereads [] s = if s.getch_end then some (s.getch_char, s, []) else none
wait rereads (code ∷ codes) s =
    let rest = wait rereads codes (getch_handler code s) in
    if s.getch_end then some (s.getch_char, s, code ∷ codes) else if rereads then rest else none

unfoldable pub kgetch : Bool → List ℕ → Getch → Option (ℕ × Getch × List ℕ)
kgetch rereads codes s = wait rereads codes (record s { getch_end = false; getch_char = 0 })
