-- ===== src/Kernel/Prompt.antt =====
-- When the loop of `kernel_main` ends, where the compiled wait of `kgetch` reads its flag in each
-- round.
use alphix.Base.{
  ℕ, zero, suc, ◌%◌, ◌^◌, ◌<◌, ◌≡◌, refl, sym, ◌∙◌, ap, Bool, true, false, inl, inr, Option, none,
  some, List, [], ◌∷◌, arith, ◌==◌, Bool-cases, Option-cases, length, ◌>>=◌,
}
use mathlib.Core.Path.{subst}
use alphix.Port.{Bus}
use alphix.Printf.{word}
use alphix.Printf.Run.{kvprintf_char, kvprintf_plain}
use alphix.Vga.{put_chars}
use alphix.Getch.{Getch, kgetch}
use alphix.Getch.Laws.{kgetch-length}
use alphix.Apic.{Mmio, screen, on_screen}
use alphix.Syscall.{promoted}
use alphix.Kernel.{
  Parts, Image, Event, System, parts, print, kgetch_events, prompt, prompt_text, quitting_text,
}
use alphix.Kernel.Steps.{print-put}
use alphix.Kernel.Keys.{codes, Handlers, kgetch_events-seen, kgetch_events-table}

-- The loop over the scancodes alone, until the first `q`: what is left; `none` where it waits on.
abbrev pub read_until_q : ℕ → List ℕ → Getch → Option (Getch × List ℕ)
read_until_q zero cs g = none
read_until_q (suc fuel) cs g = kgetch true cs g >>= λ r. elim (r.0 == b'q') [
  | true ↦ some (r.1, r.2)
  | false ↦ read_until_q fuel r.2 r.1
]

-- One round more than there are scancodes is enough.
read_until_q-enough :
    (fuel more : ℕ) (cs : List ℕ) (g : Getch)
    → length cs < fuel
    → length cs < more
    → read_until_q fuel cs g ≡ read_until_q more cs g
read_until_q-enough zero more cs g f m = absurd (omega arith)
read_until_q-enough (suc fuel) zero cs g f m = absurd (omega arith)
read_until_q-enough (suc fuel) (suc more) cs g f m = elim (Option-cases (kgetch true cs g)) [
  | inl nothing ↦ rw nothing refl
  | inr (r, found) ↦
      let shorter = kgetch-length cs g found in
      let Same : Bool → Type 0 = λ t.
        elim t [ true ↦ some (r.1, r.2) | false ↦ read_until_q fuel r.2 r.1 ]
        ≡ elim t [ true ↦ some (r.1, r.2) | false ↦ read_until_q more r.2 r.1 ] in
      rw found (elim (Bool-cases (r.0 == b'q')) [
        | inl q ↦ subst Same (sym q) refl
        | inr c ↦
            subst Same (sym c) (read_until_q-enough fuel more r.2 r.1 (omega arith) (omega arith))
      ])
]

module _ (b : Bus) (d : Mmio) (i : Image) (ok : Handlers i) where
  abbrev left : Option (System b d i × List Event) → Option (Getch × List ℕ)
  left o = o >>= λ r. some ((parts b d i r.0).keys, codes r.1)

  -- A round of either loop, once a character is there.
  abbrev after : ℕ → ℕ × System b d i × List Event → Bool → Option (System b d i × List Event)
  after fuel r quits = elim quits [
    | true ↦ print b d i quitting_text [] r.1 >>= λ s2. some (s2, r.2)
    | false ↦ print b d i (b'%' ∷ b'c' ∷ []) (word (promoted r.0) ∷ []) r.1 >>= λ s2.
        prompt b d i true fuel r.2 s2
  ]

  abbrev after_codes : ℕ → ℕ × Getch × List ℕ → Bool → Option (Getch × List ℕ)
  after_codes fuel r quits = elim quits [
    | true ↦ some (r.1, r.2)
    | false ↦ read_until_q fuel r.2 r.1
  ]

  prompt-read_until_q :
      (fuel : ℕ) (events : List Event) (s : System b d i)
      → s.interrupt_handlers 0xEF ≡ i.apic_handler_at
      → (prompt b d i true fuel events s >>= λ r. some ((parts b d i r.0).keys, codes r.1))
        ≡ read_until_q fuel (codes events) (parts b d i s).keys
  unfolding prompt
  prompt-read_until_q zero events s apic_at = refl
  prompt-read_until_q (suc fuel) events s apic_at =
      let s1 : System b d i =
        on_screen b d Parts (put_chars b prompt_text (screen b d Parts s)) s in
      let shown =
        print-put b d i prompt_text [] prompt_text s
          (kvprintf_plain prompt_text [] (omega arith)) in
      let run : prompt b d i true (suc fuel) events s
          ≡ (kgetch_events b d i true events s1 >>= λ r. after fuel r (r.0 == b'q')) =
        ap (λ o. o >>= λ s1. kgetch_events b d i true events s1 >>= λ r. after fuel r (r.0 == b'q'))
          shown in
      let same = kgetch_events-seen b d i ok events s1 apic_at in
      ap left run ∙ (elim (Option-cases (kgetch_events b d i true events s1)) [
        | inl nothing ↦
            let waits : kgetch true (codes events) (parts b d i s).keys ≡ none =
              sym same
              ∙ ap (λ o. o >>= λ r. some (r.0, (parts b d i r.1).keys, codes r.2)) nothing in
            ap (λ o. left (o >>= λ r. after fuel r (r.0 == b'q'))) nothing
            ∙ sym (ap (λ o. o >>= λ r. after_codes fuel r (r.0 == b'q')) waits)
        | inr (r, found) ↦
            let returns : kgetch true (codes events) (parts b d i s).keys
                ≡ some (r.0, (parts b d i r.1).keys, codes r.2) =
              sym same ∙ ap (λ o. o >>= λ r. some (r.0, (parts b d i r.1).keys, codes r.2)) found in
            let table : r.1.interrupt_handlers 0xEF ≡ i.apic_handler_at =
              kgetch_events-table b d i ok events r.2 s1 r.1 r.0 0xEF apic_at found ∙ apic_at in
            let word_of : ℕ = promoted r.0 in
            let s3 : System b d i =
              on_screen b d Parts (put_chars b (word_of % 2 ^ 8 ∷ []) (screen b d Parts r.1)) r.1 in
            let quits =
              print-put b d i quitting_text [] quitting_text r.1
                (kvprintf_plain quitting_text [] (omega arith)) in
            let echoes =
              print-put b d i (b'%' ∷ b'c' ∷ []) (word word_of ∷ []) (word_of % 2 ^ 8 ∷ []) r.1
                (kvprintf_char word_of) in
            let Same : Bool → Type 0 = λ t.
              left (after fuel r t) ≡ after_codes fuel (r.0, (parts b d i r.1).keys, codes r.2) t in
            let turn : left (after fuel r (r.0 == b'q'))
                ≡ after_codes fuel (r.0, (parts b d i r.1).keys, codes r.2) (r.0 == b'q') =
              elim (Bool-cases (r.0 == b'q')) [
                | inl q ↦ subst Same (sym q) (ap (λ o. left (o >>= λ s2. some (s2, r.2))) quits)
                | inr c ↦ subst Same (sym c) (
                    ap (λ o. left (o >>= λ s2. prompt b d i true fuel r.2 s2)) echoes
                    ∙ prompt-read_until_q fuel r.2 s3 table)
              ] in
            ap (λ o. left (o >>= λ r. after fuel r (r.0 == b'q'))) found
            ∙ turn
            ∙ sym (ap (λ o. o >>= λ r. after_codes fuel r (r.0 == b'q')) returns)
      ])

  -- Where the wait reads its flag in each round: with interrupts of the keyboard and the timer in
  -- any order, the loop of `kernel_main` ends exactly if the loop over their scancodes alone does,
  -- which stops at the first `q`; it leaves the same scancodes and the same key state. The fuel is
  -- above the number of scancodes, the timer's handler is registered, and the two handlers are
  -- apart and not null.
  pub prompt_lem :
      (fuel : ℕ) (events : List Event) (s : System b d i)
      → s.interrupt_handlers 0xEF ≡ i.apic_handler_at
      → length (codes events) < fuel
      → (prompt b d i true fuel events s >>= λ r. some ((parts b d i r.0).keys, codes r.1))
        ≡ read_until_q (suc (length (codes events))) (codes events) (parts b d i s).keys
  prompt_lem fuel events s apic_at enough =
      prompt-read_until_q fuel events s apic_at
      ∙ read_until_q-enough fuel (suc (length (codes events))) (codes events) (parts b d i s).keys
          enough (omega arith)
