-- ===== src/Kernel/Main.antt =====
-- `kernel_main` from its start to its end.
use alphix.Base.{
  ℕ, Bool, true, false, if◌then◌else◌, suc, ◌+◌, ◌^◌, ◌<◌, ◌≡◌, sym, ◌∙◌, ap, Option, none, some,
  List, ◌∷◌, ◌++◌, length, length-append, ◌>>=◌, Option-cases, inl, inr, not_none, arith,
}
use alphix.Port.{Bus}
use alphix.Pic.Chips.{Pics}
use alphix.Getch.{Getch}
use alphix.Getch.Held.{Low, held_after}
use alphix.Apic.{Mmio}
use alphix.Boot.Tags.{Tag, TagsAt, AwayFromScreen, span}
use alphix.Kernel.{Image, Event, System, parts, kernel_main, prompt}
use alphix.Kernel.Keys.{Handlers, codes}
use alphix.Kernel.Prompt.{read_until_q, prompt_lem}
use alphix.Kernel.Steps.{Separate, Placed}
use alphix.Kernel.Ends.{read_until_q-ends, kernel_main-once}
use alphix.Kernel.Start.{boot-Started}

module _ (b : Bus) (d : Mmio) (i : Image) where
  module _ (ok : Placed i) (at : Handlers i) (p : Pics b) (apart : Separate b p) where
    kernel_main-rereads :
        (fuel mboot_info : ℕ) (events : List Event) (ts : List Tag) (s : System b d i)
        → TagsAt s.rest.mem (mboot_info + 8) ts
        → AwayFromScreen (mboot_info + 8) (span ts)
        → length ts < fuel
        → (p.master s.ports).phase ≡ 0
        → (p.slave s.ports).phase ≡ 0
        → (p.master s.ports).mask < 2 ^ 8
        → (p.slave s.ports).mask < 2 ^ 8
        → length (codes events) < fuel
        → (kernel_main b d i true fuel 0x36d76289 mboot_info events s >>= λ r.
            some ((parts b d i r.0).keys, codes r.1))
          ≡ read_until_q (suc (length (codes events))) (codes events) (parts b d i s).keys
    unfolding kernel_main
    kernel_main-rereads fuel mboot_info events ts s tags away few ready1 ready2 byte1 byte2 enough =
        let (t, booted, up) =
          boot-Started b d i ok p apart fuel mboot_info ts s tags away few ready1 ready2 byte1
            byte2 in
        let left : Option (System b d i × List Event) → Option (Getch × List ℕ) =
          λ o. o >>= λ r. some ((parts b d i r.0).keys, codes r.1) in
        ap (λ o. left (o >>= λ u. prompt b d i true fuel events u)) booted
        ∙ prompt_lem b d i at fuel events t (up.handlers 0xEF) enough
        ∙ ap (read_until_q (suc (length (codes events))) (codes events)) up.keys_kept

    -- Booted as `boot-Started` says, with the handlers of the timer and of `kgetch` apart and not
    -- null, and with fuel above the number of scancodes: where the compiled wait of `kgetch` reads
    -- its flag `getch_end` in each round, `kernel_main` ends exactly if the character `q` is read,
    -- whatever interrupts of the timer come in between, and what it leaves of the scancodes and the
    -- key state is what reading the scancodes alone up to the first `q` leaves, from the key state
    -- that the machine had. Where the wait reads the flag once, as it may since the flag is not
    -- `volatile`, `kernel_main` does not end.
    pub kernel_main_lem :
        (rereads : Bool) (fuel mboot_info : ℕ) (events : List Event) (ts : List Tag)
        (s : System b d i)
        → TagsAt s.rest.mem (mboot_info + 8) ts
        → AwayFromScreen (mboot_info + 8) (span ts)
        → length ts < fuel
        → (p.master s.ports).phase ≡ 0
        → (p.slave s.ports).phase ≡ 0
        → (p.master s.ports).mask < 2 ^ 8
        → (p.slave s.ports).mask < 2 ^ 8
        → length (codes events) < fuel
        → (kernel_main b d i rereads fuel 0x36d76289 mboot_info events s >>= λ r.
            some ((parts b d i r.0).keys, codes r.1))
          ≡ (if rereads
              then read_until_q (suc (length (codes events))) (codes events) (parts b d i s).keys
              else none)
    kernel_main_lem true fuel mboot_info events ts s tags away few ready1 ready2 byte1 byte2
          enough =
        kernel_main-rereads fuel mboot_info events ts s tags away few ready1 ready2 byte1 byte2
          enough
    kernel_main_lem false fuel mboot_info events ts s tags away few ready1 ready2 byte1 byte2
          enough =
        ap (λ o. o >>= λ r. some ((parts b d i r.0).keys, codes r.1))
          (kernel_main-once b d i fuel mboot_info events s)

    -- Under the conditions of `boot-Started`, with the handlers of the timer and of `kgetch` apart
    -- and not null and with fuel above the number of scancodes: if among the scancodes of the
    -- interrupts is the one of the key `q` going down, and the scancodes before it leave neither
    -- shift nor the capitals' lock on, then `kernel_main` ends where the compiled wait of `kgetch`
    -- reads its flag in each round, whatever other scancodes and interrupts of the timer come, and
    -- it does not end where the wait reads the flag once.
    pub kernel_main-ends :
        (fuel mboot_info : ℕ) (events : List Event) (ts : List Tag) (s : System b d i)
        → TagsAt s.rest.mem (mboot_info + 8) ts
        → AwayFromScreen (mboot_info + 8) (span ts)
        → length ts < fuel
        → (p.master s.ports).phase ≡ 0
        → (p.slave s.ports).phase ≡ 0
        → (p.master s.ports).mask < 2 ^ 8
        → (p.slave s.ports).mask < 2 ^ 8
        → length (codes events) < fuel
        → (before rest : List ℕ) → codes events ≡ before ++ 0x10 ∷ rest
        → Low (held_after before (parts b d i s).keys.keys)
        → ((r : System b d i × List Event) × (kernel_main b d i true fuel 0x36d76289 mboot_info
                events s
              ≡ some r))
          × (kernel_main b d i false fuel 0x36d76289 mboot_info events s ≡ none)
    kernel_main-ends fuel mboot_info events ts s tags away few ready1 ready2 byte1 byte2 enough
          before rest typed low =
        let keys : Getch = (parts b d i s).keys in
        let run : Option (System b d i × List Event) =
          kernel_main b d i true fuel 0x36d76289 mboot_info events s in
        let left : Option (System b d i × List Event) → Option (Getch × List ℕ) =
          λ o. o >>= λ r. some ((parts b d i r.0).keys, codes r.1) in
        let same : left run ≡ read_until_q (suc (length (codes events))) (codes events) keys =
          kernel_main-rereads fuel mboot_info events ts s tags away few ready1 ready2 byte1 byte2
            enough in
        let many : length (codes events) ≡ length before + suc (length rest) =
          ap length typed ∙ length-append before (0x10 ∷ rest) in
        let (g, ends) =
          read_until_q-ends (suc (length (codes events))) before rest keys (omega arith) low in
        (
          elim (Option-cases run) [
            | inl never ↦ absurd (
                not_none (
                  sym (ap left never)
                  ∙ same
                  ∙ ap (λ l. read_until_q (suc (length (codes events))) l keys) typed
                  ∙ ends))
            | inr found ↦ found
          ],
          kernel_main-once b d i fuel mboot_info events s,
        )
