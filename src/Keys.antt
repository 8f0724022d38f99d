-- ===== src/Keys.antt =====
-- cpu/cpu.c (`get_acsii_low`, `get_acsii_high`) and include/in/keys.h: from scancodes to characters.
-- A `switch` over scancodes is the list of its cases, in the order of the source.
pub mod Layout
mod Tests
use alphix.Base.{
  ℕ, zero, suc, ◌+◌, ◌-◌, ◌*◌, ◌/◌, ◌%◌, ◌^◌, ◌≤◌, ◌<◌, ◌≡◌, ◌≢◌, refl, sym, ◌∙◌, ap, Bool, true,
  false, not, ◌&&◌, ◌||◌, ◌⊎◌, inl, inr, ◌↔◌, Option, none, some, List, [], ◌∷◌, ◌++◌, map, arith,
  ltb, leb, ◌==◌, ==_iff, ==_self, ==_ne, if◌then◌else◌, Bool-cases, Option-cases, length,
  length-append, get_elem?, get_or, set, take, drop, replicate, length-set, length-replicate,
  length-take, length-drop, length-map, take-append-drop, ltb→lt, lt→ltb, leb→le, tests,
  get_elem?-set_self, get_elem?-set_ne,
}

abbrev pub key_f1 : ℕ
key_f1 = 0x3B

abbrev pub key_f2 : ℕ
key_f2 = 0x3C

abbrev pub key_f3 : ℕ
key_f3 = 0x3D

abbrev pub key_f4 : ℕ
key_f4 = 0x3E

abbrev pub key_f5 : ℕ
key_f5 = 0x3F

abbrev pub key_f6 : ℕ
key_f6 = 0x40

abbrev pub key_f7 : ℕ
key_f7 = 0x41

abbrev pub key_f8 : ℕ
key_f8 = 0x42

abbrev pub key_f9 : ℕ
key_f9 = 0x43

abbrev pub key_f10 : ℕ
key_f10 = 0x44

abbrev pub key_f11 : ℕ
key_f11 = 0x85

abbrev pub key_f12 : ℕ
key_f12 = 0x86

abbrev pub key_backspace : ℕ
key_backspace = 0x0E

abbrev pub key_down : ℕ
key_down = 0x50

abbrev pub key_enter : ℕ
key_enter = 0x1C

abbrev pub key_esc : ℕ
key_esc = 0x01

abbrev pub key_left : ℕ
key_left = 0x4B

abbrev pub key_right : ℕ
key_right = 0x4D

abbrev pub key_tab : ℕ
key_tab = 0x0F

abbrev pub key_up : ℕ
key_up = 0x48

abbrev pub key_lshift : ℕ
key_lshift = 0x2A

abbrev pub key_rshift : ℕ
key_rshift = 0x36

abbrev pub key_caps_lock : ℕ
key_caps_lock = 0x3A

abbrev pub key_lctrl : ℕ
key_lctrl = 0x1D

abbrev pub key_lalt : ℕ
key_lalt = 0x38

-- The cases with the values of the `KEY_` macros, and the characters as codes.
abbrev pub low_cases : List (ℕ × ℕ)
low_cases =
    (0x1E, 0x61)
    ∷ (0x30, 0x62)
    ∷ (0x2E, 0x63)
    ∷ (0x20, 0x64)
    ∷ (0x12, 0x65)
    ∷ (0x21, 0x66)
    ∷ (0x22, 0x67)
    ∷ (0x23, 0x68)
    ∷ (0x17, 0x69)
    ∷ (0x24, 0x6a)
    ∷ (0x25, 0x6b)
    ∷ (0x26, 0x6c)
    ∷ (0x32, 0x6d)
    ∷ (0x31, 0x6e)
    ∷ (0x18, 0x6f)
    ∷ (0x19, 0x70)
    ∷ (0x10, 0x71)
    ∷ (0x13, 0x72)
    ∷ (0x1F, 0x73)
    ∷ (0x14, 0x74)
    ∷ (0x16, 0x75)
    ∷ (0x2F, 0x76)
    ∷ (0x11, 0x77)
    ∷ (0x2D, 0x78)
    ∷ (0x15, 0x79)
    ∷ (0x2C, 0x7a)
    ∷ (0x02, 0x31)
    ∷ (0x03, 0x32)
    ∷ (0x04, 0x33)
    ∷ (0x05, 0x34)
    ∷ (0x06, 0x35)
    ∷ (0x07, 0x36)
    ∷ (0x08, 0x37)
    ∷ (0x09, 0x38)
    ∷ (0x0A, 0x39)
    ∷ (0x0B, 0x30)
    ∷ (0x0C, 0x2d)
    ∷ (0x0D, 0x3d)
    ∷ (0x1A, 0x5b)
    ∷ (0x1B, 0x5d)
    ∷ (0x27, 0x3b)
    ∷ (0x2B, 0x5c)
    ∷ (0x33, 0x2c)
    ∷ (0x34, 0x2e)
    ∷ (0x35, 0x2f)
    ∷ (0x39, 0x20)
    ∷ (0x28, 0x27)
    ∷ (0x1C, 0xa)
    ∷ []

abbrev pub high_cases : List (ℕ × ℕ)
high_cases =
    (0x1E, 0x41)
    ∷ (0x30, 0x42)
    ∷ (0x2E, 0x43)
    ∷ (0x20, 0x44)
    ∷ (0x12, 0x45)
    ∷ (0x21, 0x46)
    ∷ (0x22, 0x47)
    ∷ (0x23, 0x48)
    ∷ (0x17, 0x49)
    ∷ (0x24, 0x4a)
    ∷ (0x25, 0x4b)
    ∷ (0x26, 0x4c)
    ∷ (0x32, 0x4d)
    ∷ (0x31, 0x4e)
    ∷ (0x18, 0x4f)
    ∷ (0x19, 0x50)
    ∷ (0x10, 0x51)
    ∷ (0x13, 0x52)
    ∷ (0x1F, 0x53)
    ∷ (0x14, 0x54)
    ∷ (0x16, 0x55)
    ∷ (0x2F, 0x56)
    ∷ (0x11, 0x57)
    ∷ (0x2D, 0x58)
    ∷ (0x15, 0x59)
    ∷ (0x2C, 0x5a)
    ∷ (0x02, 0x21)
    ∷ (0x03, 0x40)
    ∷ (0x04, 0x23)
    ∷ (0x05, 0x24)
    ∷ (0x06, 0x25)
    ∷ (0x07, 0x5e)
    ∷ (0x08, 0x26)
    ∷ (0x09, 0x2a)
    ∷ (0x0A, 0x28)
    ∷ (0x0B, 0x29)
    ∷ (0x0C, 0x5f)
    ∷ (0x0D, 0x2b)
    ∷ (0x1A, 0x7b)
    ∷ (0x1B, 0x7d)
    ∷ (0x27, 0x3a)
    ∷ (0x2B, 0x7c)
    ∷ (0x33, 0x3c)
    ∷ (0x34, 0x3e)
    ∷ (0x35, 0x3f)
    ∷ (0x39, 0x20)
    ∷ (0x28, 0x22)
    ∷ []

-- The first case that fits, and 0 by default.
unfoldable pub switch : List (ℕ × ℕ) → ℕ → ℕ
switch [] code = 0
switch ((k, c) ∷ cases) code = if code == k then c else switch cases code

unfoldable pub get_acsii_low : ℕ → ℕ
get_acsii_low code = switch low_cases code

unfoldable pub get_acsii_high : ℕ → ℕ
get_acsii_high code = switch high_cases code
