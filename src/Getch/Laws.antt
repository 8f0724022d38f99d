-- ===== src/Getch/Laws.antt =====
-- What `kgetch` returns, where its wait reads the flag in each round, and which keys it cannot tell
-- apart.
use alphix.Base.{
  ℕ, none, false, ◌+◌, ◌-◌, ◌%◌, ◌≤◌, ◌<◌, ◌≡◌, ◌≢◌, refl, sym, ◌∙◌, ap, true, ◌⊎◌, inl, inr, some,
  List, [], ◌∷◌, ◌++◌, arith, Bool-cases, length, some_of, not_none,
}
use alphix.Keys.{switch, get_acsii_low, get_acsii_high}
use alphix.Getch.{modifiers, translate, Getch, finish, special, press, getch_handler, wait, kgetch}

-- A handler call in which the wait has not ended leaves it so, or ends it with a character.
press-char :
    (scancode : ℕ) (s : Getch)
    → s.getch_end ≡ false
    → ((press scancode s).getch_end ≡ false) ⊎ ((press scancode s).getch_char ≢ 0)
unfolding press special
press-char scancode s h = ground arith

getch_handler-char :
    (code : ℕ) (s : Getch)
    → s.getch_end ≡ false
    → ((getch_handler code s).getch_end ≡ false) ⊎ ((getch_handler code s).getch_char ≢ 0)
unfolding getch_handler
getch_handler-char code s h = ground (arith, press-char (code % 128) s)

pub wait-step :
    (code : ℕ) (codes : List ℕ) (s : Getch)
    → s.getch_end ≡ false
    → wait true (code ∷ codes) s ≡ wait true codes (getch_handler code s)
unfolding wait
wait-step code codes s more = ground arith

pub wait-ended :
    (codes : List ℕ) (s : Getch)
    → s.getch_end ≡ true
    → wait true codes s ≡ some (s.getch_char, s, codes)
unfolding wait
wait-ended [] s done = ground arith
wait-ended (code ∷ codes) s done = ground arith

wait-char :
    (codes : List ℕ) (s : Getch) {c : ℕ} {t : Getch} {rest : List ℕ}
    → (s.getch_end ≡ false) ⊎ (s.getch_char ≢ 0)
    → wait true codes s ≡ some (c, t, rest)
    → c ≢ 0
unfolding wait
wait-char [] s h e = ground arith
wait-char (code ∷ codes) s h e = elim (Bool-cases s.getch_end) [
  | inl done ↦ ground arith
  | inr more ↦
      wait-char codes (getch_handler code s) (getch_handler-char code s more)
        (sym (wait-step code codes s more) ∙ e)
]

-- Where `kgetch` returns, what it returns is not the character 0, whatever the state it starts
-- from.
kgetch-ne-zero :
    (codes : List ℕ) (s : Getch) {c : ℕ} {t : Getch} {rest : List ℕ}
    → kgetch true codes s ≡ some (c, t, rest)
    → c ≢ 0
unfolding kgetch
kgetch-ne-zero codes s e = wait-char codes _ (inl refl) e

-- The wait takes scancodes from the front, and one at least where it has not ended yet.
wait-length :
    (codes : List ℕ) (s : Getch) {c : ℕ} {t : Getch} {rest : List ℕ}
    → wait true codes s ≡ some (c, t, rest)
    → length rest ≤ length codes
unfolding wait
wait-length [] s e = elim (Bool-cases s.getch_end) [
  | inl done ↦
      let same = some_of (sym e ∙ wait-ended [] s done) in
      omega (arith, ap (λ (r : ℕ × Getch × List ℕ). length r.2) same)
  | inr more ↦ absurd (ground (arith, more))
]
wait-length (code ∷ codes) s e = elim (Bool-cases s.getch_end) [
  | inl done ↦
      let same = some_of (sym e ∙ wait-ended (code ∷ codes) s done) in
      omega (arith, ap (λ (r : ℕ × Getch × List ℕ). length r.2) same)
  | inr more ↦
      omega
        (arith, wait-length codes (getch_handler code s) (sym (wait-step code codes s more) ∙ e))
]

-- `kgetch` takes one scancode at least.
pub kgetch-length :
    (codes : List ℕ) (s : Getch) {c : ℕ} {t : Getch} {rest : List ℕ}
    → kgetch true codes s ≡ some (c, t, rest)
    → length rest < length codes
unfolding kgetch wait
kgetch-length [] s e = absurd (not_none e)
kgetch-length (code ∷ codes) s e =
    let fresh = record s { getch_end = false; getch_char = 0 } in
    omega (arith, wait-length codes (getch_handler code fresh) e)

-- Where the flag is read once, `kgetch` never returns, since it has just cleared it.
kgetch-once : (codes : List ℕ) (s : Getch) → kgetch false codes s ≡ none
unfolding kgetch wait
kgetch-once [] s = refl
kgetch-once (code ∷ codes) s = refl

-- A release changes at most the modifiers.
getch_handler_release :
    (scancode : ℕ) (s : Getch)
    → scancode < 0x80
    → let t = getch_handler (scancode + 0x80) s in
      (t.getch_end ≡ s.getch_end) × (t.getch_char ≡ s.getch_char)
unfolding getch_handler
getch_handler_release scancode s h = ground arith

-- The codes by which keys.h names F11 and F12 have the bit of a release: the handler ignores them.
getch_handler_f11_f12 : (s : Getch) → (getch_handler 0x85 s ≡ s) × (getch_handler 0x86 s ≡ s)
unfolding getch_handler modifiers
getch_handler_f11_f12 s = (refl, refl)

-- Without shift, F1 and the semicolon key have the same effect, and so have Up and shifted H: a
-- caller cannot tell them apart.
getch_handler_ambiguous :
    (s : Getch)
    → ((s.keys.shift ≡ false)
        → s.keys.capslock ≡ false
        → getch_handler 0x3B s ≡ getch_handler 0x27 s)
      × ((s.keys.shift ≡ true) → getch_handler 0x48 s ≡ getch_handler 0x23 s)
unfolding getch_handler modifiers press special translate get_acsii_low get_acsii_high switch
getch_handler_ambiguous s = (λ a b. ground arith, λ a. ground arith)

-- Every code is that of a release.
abbrev pub AllReleases : List ℕ → Type 0
AllReleases [] = Unit {0}
AllReleases (code ∷ codes) = ((0x80 ≤ code) × (code < 0x100)) × AllReleases codes

wait-enter :
    (codes rest : List ℕ) (s : Getch)
    → s.getch_end ≡ false
    → AllReleases codes
    → (t : Getch) × (wait true (codes ++ 0x1C ∷ rest) s ≡ some (0x0a, t, rest))
wait-enter [] rest s more all = (
  finish 0x0a s,
  wait-step 0x1C rest s more
      ∙ (unfold getch_handler modifiers press special in wait-ended rest (finish 0x0a s) refl),
)
wait-enter (code ∷ codes) rest s more all =
    let gone : code ≡ (code - 0x80) + 0x80 = omega arith in
    let kept = getch_handler_release (code - 0x80) s (omega arith) in
    let still : (getch_handler code s).getch_end ≡ false =
      ap (λ (k : ℕ). (getch_handler k s).getch_end) gone ∙ kept.0 ∙ more in
    let (t, ends) = wait-enter codes rest (getch_handler code s) still all.1 in
    (t, wait-step code (codes ++ 0x1C ∷ rest) s more ∙ ends)

-- `kgetch` waits past any number of releases, and returns a new line when Enter is pressed; the codes
-- behind it are left.
kgetch_enter :
    (codes rest : List ℕ) (s : Getch)
    → AllReleases codes
    → (t : Getch) × (kgetch true (codes ++ 0x1C ∷ rest) s ≡ some (0x0a, t, rest))
unfolding kgetch
kgetch_enter codes rest s all = wait-enter codes rest _ refl all
