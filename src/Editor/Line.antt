-- ===== src/Editor/Line.antt =====
-- What the line editor promises: a line with a place in it, and what each key does to it.
use alphix.Base.{
  ℕ, ◌+◌, ◌%◌, ◌^◌, ◌≤◌, ◌≡◌, refl, sym, ◌∙◌, ap, Bool, true, false, not, ◌||◌, inl, inr, Option,
  none, some, List, [], ◌∷◌, ◌++◌, arith, ltb, ◌==◌, if◌then◌else◌, Bool-cases, Option-cases,
  length,
}
use mathlib.Core.List.{append_assoc}
use alphix.Keys.{key_left, key_right, key_backspace, key_enter}
use alphix.Getch.{Modifiers, modifiers, translate}

-- The characters before the place, the nearest one first, and those behind it.
pub record Line : Type 0 where
  pub front : List ℕ
  pub back : List ℕ

-- The whole line, from left to right.
abbrev pub unwind : List ℕ → List ℕ → List ℕ
unwind [] back = back
unwind (c ∷ front) back = unwind front (c ∷ back)

abbrev pub whole : Line → List ℕ
whole l = unwind l.front l.back

pub data Key : Type 0 where
  typed : ℕ → Key
  left right rub_out accept ignored : Key

abbrev pub step_left : List ℕ → List ℕ → Line
step_left [] back = record { front = []; back = back }
step_left (c ∷ front) back = record { front = front; back = c ∷ back }

abbrev pub step_right : List ℕ → List ℕ → Line
step_right front [] = record { front = front; back = [] }
step_right front (c ∷ back) = record { front = c ∷ front; back = back }

abbrev pub drop_left : List ℕ → List ℕ → Line
drop_left [] back = record { front = []; back = back }
drop_left (c ∷ front) back = record { front = front; back = back }

-- An accepted line has its place at the start.
abbrev pub press_key : Key → Line → Line
press_key (typed c) l = record { front = c ∷ l.front; back = l.back }
press_key left l = step_left l.front l.back
press_key right l = step_right l.front l.back
press_key rub_out l = drop_left l.front l.back
press_key accept l = record { front = []; back = whole l }
press_key ignored l = l

abbrev pub ends : Key → Bool
ends accept = true
ends k = false

-- A key that is no modifier: only a press counts.
unfoldable pub decode : Modifiers → ℕ → Bool → Key
decode keys scancode pressed =
    if not pressed
    then ignored
    else if scancode == key_left
    then left
    else if scancode == key_right
    then right
    else if scancode == key_backspace
    then rub_out
    else if scancode == key_enter
    then accept
    else if translate keys scancode == 0
    then ignored
    else typed (translate keys scancode)

pub record Session : Type 0 where
  pub mods : Modifiers
  pub line : Line
  pub done : Bool

abbrev pub press_in : Key → Session → Session
press_in k s = record s { line = press_key k s.line; done = ends k || s.done }

unfoldable pub type_code : ℕ → Session → Session
type_code code s =
    let pressed = ltb (code % 2 ^ 8) 0x80 in
    let scancode = code % 0x80 in
    elim (modifiers scancode pressed s.mods) [
      | some keys ↦ record s { mods = keys }
      | none ↦ press_in (decode s.mods scancode pressed) s
    ]

-- A session ends with its first line; `none` where no line is accepted.
unfoldable pub type_codes : List ℕ → Session → Option Session
type_codes [] s = if s.done then some s else none
type_codes (code ∷ codes) s = elim s.done [
  | true ↦ some s
  | false ↦ type_codes codes (type_code code s)
]

pub whole-append : (front back : List ℕ) → unwind front back ≡ unwind front [] ++ back
whole-append [] back = refl
whole-append (c ∷ front) back =
    whole-append front (c ∷ back)
    ∙ sym (append_assoc (unwind front []) (c ∷ []) back)
    ∙ ap (λ xs. xs ++ back) (sym (whole-append front (c ∷ [])))

pub length-unwind : (front back : List ℕ) → length (unwind front back) ≡ length front + length back
length-unwind [] back = omega arith
length-unwind (c ∷ front) back = omega (arith, length-unwind front (c ∷ back))

step_left-whole : (front back : List ℕ) → whole (step_left front back) ≡ unwind front back
step_left-whole [] back = refl
step_left-whole (c ∷ front) back = refl

step_right-whole : (front back : List ℕ) → whole (step_right front back) ≡ unwind front back
step_right-whole front [] = refl
step_right-whole front (c ∷ back) = refl

drop_left-length :
    (front back : List ℕ) → length (whole (drop_left front back)) ≤ length (unwind front back)
drop_left-length [] back = omega arith
drop_left-length (c ∷ front) back =
    omega (arith, length-unwind front back, length-unwind front (c ∷ back))

-- A key makes a line longer by one at most.
press_key-length : (k : Key) (l : Line) → length (whole (press_key k l)) ≤ length (whole l) + 1
press_key-length (typed c) l =
    omega (arith, length-unwind l.front (c ∷ l.back), length-unwind l.front l.back)
press_key-length left l = omega (arith, ap length (step_left-whole l.front l.back))
press_key-length right l = omega (arith, ap length (step_right-whole l.front l.back))
press_key-length rub_out l = omega (arith, drop_left-length l.front l.back)
press_key-length accept l = omega arith
press_key-length ignored l = omega arith

pub type_code-length :
    (code : ℕ) (s : Session) → length (whole (type_code code s).line) ≤ length (whole s.line) + 1
unfolding type_code
type_code-length code s =
    elim (Option-cases (modifiers (code % 0x80) (ltb (code % 2 ^ 8) 0x80) s.mods)) [
      | inl key ↦
          rw (key, type_code)
            (press_key-length (decode s.mods (code % 0x80) (ltb (code % 2 ^ 8) 0x80)) s.line)
      | inr (mods, e) ↦ rw (e, type_code) (omega arith)
    ]

-- A session's line is no longer than what was there and the keys that came.
pub type_codes-length :
    (codes : List ℕ) (s t : Session)
    → type_codes codes s ≡ some t
    → length (whole t.line) ≤ length (whole s.line) + length codes
unfolding type_codes
type_codes-length [] s t e = elim (Bool-cases s.done) [
  | inl over ↦ let same : s ≡ t = ground (arith, over) in rw same (omega arith)
  | inr more ↦ absurd (ground (arith, more))
]
type_codes-length (code ∷ codes) s t e = elim (Bool-cases s.done) [
  | inl over ↦ let same : s ≡ t = ground (arith, over) in rw same (omega arith)
  | inr more ↦
      let later : type_codes codes (type_code code s) ≡ some t = ground (arith, more) in
      omega (arith, type_codes-length codes (type_code code s) t later, type_code-length code s)
]
