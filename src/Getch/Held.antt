-- ===== src/Getch/Held.antt =====
-- The modifiers that a list of scancodes leaves, and the key `q` behind it, where the wait of `kgetch`
-- reads its flag in each round.
use alphix.Base.{
  ℕ, ◌%◌, ◌^◌, ◌<◌, ◌≡◌, refl, sym, ◌∙◌, ap, Bool, true, false, not, ◌⊎◌, inl, inr, Option, none,
  some, List, [], ◌∷◌, ◌++◌, arith, ltb, if◌then◌else◌, Bool-cases, Option-cases, length,
}
use mathlib.Core.Path.{subst}
use alphix.Keys.{switch, get_acsii_low, get_acsii_high}
use alphix.Getch.{
  Modifiers, modifiers, translate, Getch, finish, special, press, getch_handler, wait,
}
use alphix.Getch.Laws.{wait-step, wait-ended}

-- The modifiers after a scancode, and after several.
abbrev held : ℕ → Modifiers → Modifiers
held code k = elim (modifiers (code % 0x80) (ltb (code % 2 ^ 8) 0x80) k) [ some k1 ↦ k1 | none ↦ k ]

abbrev pub held_after : List ℕ → Modifiers → Modifiers
held_after [] k = k
held_after (code ∷ codes) k = held_after codes (held code k)

press-keys : (scancode : ℕ) (s : Getch) → (press scancode s).keys ≡ s.keys
unfolding press special
press-keys scancode s = ground (arith)

getch_handler-keys : (code : ℕ) (s : Getch) → (getch_handler code s).keys ≡ held code s.keys
unfolding getch_handler
getch_handler-keys code s =
    let pressed : Bool = ltb (code % 2 ^ 8) 0x80 in
    let run : Option Modifiers → Getch = λ o. elim o [
      | some keys ↦ record s { keys = keys }
      | none ↦ if not pressed then s else press (code % 0x80) s
    ] in
    let kept : Option Modifiers → Modifiers = λ o. elim o [ some k1 ↦ k1 | none ↦ s.keys ] in
    let Same : Option Modifiers → Type 0 = λ o. (run o).keys ≡ kept o in
    elim (Option-cases (modifiers (code % 0x80) pressed s.keys)) [
      | inl nothing ↦ subst Same (sym nothing) (elim (Bool-cases pressed) [
        | inl down ↦ rw down (press-keys (code % 0x80) s)
        | inr up ↦ rw up refl
      ])
      | inr (k, found) ↦ subst Same (sym found) refl
    ]

-- Neither shift nor the capitals' lock is on.
abbrev pub Low : Modifiers → Type 0
Low k = (k.shift ≡ false) × (k.capslock ≡ false)

getch_handler_q : (s : Getch) → Low s.keys → getch_handler 0x10 s ≡ finish b'q' s
unfolding getch_handler modifiers press special translate get_acsii_low get_acsii_high switch
getch_handler_q s low = rw (low.0, low.1) refl

-- Behind any scancodes that leave shift and the capitals' lock off comes the key `q`: the wait ends
-- with `q` there, or before, with scancodes of that kind left.
pub wait_q :
    (codes rest : List ℕ) (s : Getch)
    → s.getch_end ≡ false
    → Low (held_after codes s.keys)
    → (c : ℕ) × (t : Getch) × (left : List ℕ) × (wait true (codes ++ 0x10 ∷ rest) s
        ≡ some (c, t, left))
      × ((c ≡ b'q')
          ⊎ ((fewer : List ℕ) × (left ≡ fewer ++ 0x10 ∷ rest)
              × (length fewer < length codes)
              × Low (held_after fewer t.keys)))
wait_q [] rest s more low =
    let t : Getch = finish b'q' s in
    (
      b'q',
      t,
      rest,
      wait-step 0x10 rest s more
          ∙ ap (wait true rest) (getch_handler_q s low)
          ∙ wait-ended rest t refl,
      inl refl,
    )
wait_q (code ∷ codes) rest s more low =
    let t : Getch = getch_handler code s in
    let low1 : Low (held_after codes t.keys) =
      subst (λ k. Low (held_after codes k)) (sym (getch_handler-keys code s)) low in
    let step = wait-step code (codes ++ 0x10 ∷ rest) s more in
    elim (Bool-cases t.getch_end) [
      | inl done ↦ (
        t.getch_char,
        t,
        codes ++ 0x10 ∷ rest,
        step ∙ wait-ended (codes ++ 0x10 ∷ rest) t done,
        inr (codes, refl, omega arith, low1),
      )
      | inr still ↦
          let (c, u, left, run, how) = wait_q codes rest t still low1 in
          (
            c,
            u,
            left,
            step ∙ run,
            elim how [
              | inl q ↦ inl q
              | inr (fewer, e, short, low2) ↦ inr (fewer, e, omega arith, low2)
            ],
          )
    ]
