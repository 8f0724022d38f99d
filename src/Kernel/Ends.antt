-- ===== src/Kernel/Ends.antt =====
-- When the loop of `kernel_main` ends: at the key `q` where `kgetch` reads its flag in each round, and
-- never where it reads it once.
use alphix.Base.{
  ℕ, zero, suc, ◌<◌, ◌≡◌, refl, ◌∙◌, ap, Bool, true, false, inl, inr, Option, none, some, List, [],
  ◌∷◌, ◌++◌, arith, ◌==◌, Bool-cases, Option-cases, length, ◌>>=◌,
}
use alphix.Getch.{Getch, kgetch}
use alphix.Getch.Held.{Low, held_after, wait_q}
use alphix.Port.{Bus}
use alphix.Apic.{Mmio}
use alphix.Irq.{idt_register_handler}
use alphix.Kernel.{
  Image, Event, System, print, prompt_text, wait_events, kgetch_events, prompt, boot, kernel_main,
}
use alphix.Kernel.Prompt.{read_until_q}

pub read_until_q-ends :
    (fuel : ℕ) (codes rest : List ℕ) (g : Getch)
    → length codes < fuel
    → Low (held_after codes g.keys)
    → (r : Getch × List ℕ) × (read_until_q fuel (codes ++ 0x10 ∷ rest) g ≡ some r)
unfolding kgetch
read_until_q-ends zero codes rest g f low = absurd (omega arith)
read_until_q-ends (suc fuel) codes rest g f low =
    let fresh : Getch = record g { getch_end = false; getch_char = 0 } in
    let (c, t, left, run, how) = wait_q codes rest fresh refl low in
    let pick : Bool → Option (Getch × List ℕ) =
      λ q. elim q [ true ↦ some (t, left) | false ↦ read_until_q fuel left t ] in
    let go : read_until_q (suc fuel) (codes ++ 0x10 ∷ rest) g ≡ pick (c == b'q') =
      ap
        (λ o. o >>= λ r. elim (r.0 == b'q') [
          | true ↦ some (r.1, r.2)
          | false ↦ read_until_q fuel r.2 r.1
        ])
        run in
    elim (Bool-cases (c == b'q')) [
      | inl q ↦ ((t, left), go ∙ ap pick q)
      | inr other ↦ elim how [
        | inl q ↦ absurd (ground (arith, q, other))
        | inr (fewer, e, short, low1) ↦
            let (r, ends) = read_until_q-ends fuel fewer rest t (omega arith) low1 in
            (r, go ∙ ap pick other ∙ ap (λ l. read_until_q fuel l t) e ∙ ends)
      ]
    ]

module _ (b : Bus) (d : Mmio) (i : Image) where
  kgetch_events-once :
      (events : List Event) (s : System b d i) → kgetch_events b d i false events s ≡ none
  unfolding kgetch_events wait_events idt_register_handler
  kgetch_events-once [] s = refl
  kgetch_events-once (e ∷ events) s = refl

  prompt-once :
      (fuel : ℕ) (events : List Event) (s : System b d i) → prompt b d i false fuel events s ≡ none
  unfolding prompt
  prompt-once zero events s = refl
  prompt-once (suc fuel) events s = elim (Option-cases (print b d i prompt_text [] s)) [
    | inl silent ↦ rw silent refl
    | inr (s1, shown) ↦ rw (shown, kgetch_events-once events s1) refl
  ]

  -- Where the flag is read once, `kernel_main` does not end on a good magic number, whatever interrupts
  -- come and with any fuel.
  pub kernel_main-once :
      (fuel mboot_info : ℕ) (events : List Event) (s : System b d i)
      → kernel_main b d i false fuel 0x36d76289 mboot_info events s ≡ none
  unfolding kernel_main
  kernel_main-once fuel mboot_info events s = elim (Option-cases (boot b d i fuel mboot_info s)) [
    | inl stuck ↦ rw stuck refl
    | inr (t, booted) ↦ rw (booted, prompt-once fuel events t) refl
  ]
