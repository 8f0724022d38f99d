-- ===== src/Editor/Return.antt =====
-- `kscan` as a whole: it returns the line that is typed.
use alphix.Base.{
  ℕ, zero, suc, ◌+◌, ◌≤◌, ◌<◌, ◌≡◌, refl, ◌∙◌, true, false, ◌⊎◌, Option, none, some, List, [], ◌∷◌,
  ◌++◌, arith, ◌==◌, ==_self, ==_ne, length, ◌>>=◌,
}
use mathlib.Core.List.{append-nil}
use alphix.Memory.{Bytes, poke}
use alphix.Text.{IsText, strncpy}
use alphix.Text.Length.{IsText-frame, strlen_lem}
use alphix.Text.Copy.{Chars-frame, IsText-append, IsText-Chars, strncpy-Chars}
use alphix.Text.Find.{strnone_lem}
use alphix.Port.{Bus}
use alphix.Printf.{put, text, kvprintf}
use alphix.Printf.Run.{NoPercent, kvprintf_text, kvprintf_plain, kvprintf_line}
use alphix.Vga.{Vga, put_chars}
use alphix.Vga.Frame.{put_chars-mem}
use alphix.Editor.{Editor, text_at, kprintf, echo_format, kscan_start, kscan_finish, kscan}
use alphix.Editor.Line.{whole, Session, type_codes, type_codes-length}
use alphix.Editor.Erase.{Apart, Shows, kept}
use alphix.Editor.Wait.{Waited, unfinished, finished, kscan_wait_refines}

text_at_lem :
    (fuel : ℕ) (m : Bytes) (p : ℕ) (s : List ℕ)
    → IsText m p s
    → length s < fuel
    → text_at fuel m p ≡ some s
unfolding text_at
text_at_lem zero m p s t f = absurd (omega arith)
text_at_lem (suc fuel) m p [] t f =
    let done : (m p == 0) ≡ true = rw t refl in rw (done, text_at) refl
text_at_lem (suc fuel) m p (c ∷ s) t f =
    let more : (m p == 0) ≡ false = rw t.0 (==_ne c 0 t.1) in
    rw (more, text_at, text_at_lem fuel m (p + 1) s t.2 (omega arith), t.0) refl

echo-put : (s : List ℕ) → (cs : List ℕ) × (kvprintf echo_format (text (some s) ∷ []) ≡ put cs)
echo-put s =
    let front : List ℕ =
      b'Y' ∷ b'o' ∷ b'u' ∷ b' ' ∷ b't' ∷ b'y' ∷ b'p' ∷ b'e' ∷ b'd' ∷ b':' ∷ b' ' ∷ [] in
    let plain : NoPercent front = omega arith in
    let e = kvprintf_text front (b'%' ∷ b's' ∷ 0x0a ∷ []) (text (some s) ∷ []) plain in
    (front ++ (s ++ 0x0a ∷ []), e ∙ rw (kvprintf_line s) refl)

module _ (b : Bus) (kscan_buf : ℕ) (apart : Apart kscan_buf) where
  kscan_start_lem :
      (fuel : ℕ) (e : Editor b kscan_buf) (old : List ℕ)
      → IsText e.screen.mem kscan_buf old
      → length old < 512
      → 513 < fuel
      → (e' : Editor b kscan_buf) × (kscan_start b kscan_buf fuel e ≡ some e')
        × Shows b kscan_buf apart e'
            (record { mods = e.keys; line = record { front = []; back = [] }; done = false })
  unfolding kscan_start kprintf
  kscan_start_lem fuel e old t small f =
      let prompt : List ℕ = b'k' ∷ b's' ∷ b'c' ∷ b'a' ∷ b'n' ∷ b':' ∷ b' ' ∷ [] in
      let plain : NoPercent prompt = omega arith in
      let v : Vga b = put_chars b prompt e.screen in
      let t1 =
        kept b kscan_buf apart e.screen.mem v.mem old small
          (λ a off. put_chars-mem b prompt e.screen a off) t in
      let (m, run, empty, same) = strnone_lem fuel v.mem kscan_buf old t1 (omega arith) in
      (
        record e { enter = false; kscan_pos = 0; screen = record v { mem = m } },
        rw (kscan_start, kprintf, kvprintf_plain prompt [] plain, run) refl,
        record { keys = refl; enter = refl; pos = refl; shown = empty },
      )

  kscan_finish_lem :
      (fuel buf : ℕ) (e : Editor b kscan_buf) (s : List ℕ)
      → IsText e.screen.mem kscan_buf s
      → length s < 512
      → 512 ≤ fuel
      → (buf + 512 ≤ kscan_buf) ⊎ (kscan_buf + 512 ≤ buf)
      → (e' : Editor b kscan_buf) × (kscan_finish b kscan_buf fuel buf e ≡ some e')
        × IsText e'.screen.mem buf s
        × (e'.keys ≡ e.keys)
  unfolding kscan_finish kprintf
  kscan_finish_lem fuel buf e s t small f far =
      let (cs, echo) = echo-put s in
      let v : Vga b = put_chars b cs e.screen in
      let t1 =
        kept b kscan_buf apart e.screen.mem v.mem s small
          (λ a off. put_chars-mem b cs e.screen a off) t in
      let n : ℕ = length s in
      let m1 : Bytes = strncpy n v.mem buf kscan_buf in
      let (copied, same) =
        strncpy-Chars v.mem buf kscan_buf s (IsText-Chars v.mem kscan_buf s t1) (omega arith) in
      let t2 = IsText-frame v.mem m1 kscan_buf s (λ a lo hi. same a (omega arith)) t1 in
      let m2 : Bytes = poke m1 (buf + n) 0 in
      let front =
        Chars-frame m1 m2 buf s (λ a lo hi. rw (==_ne a (buf + n) (omega arith)) refl) copied in
      let stop : IsText m2 (buf + n) [] = rw (==_self (buf + n)) refl in
      (
        record e { screen = record v { mem = m2 } },
        rw
            (
              kscan_finish,
              text_at_lem fuel e.screen.mem kscan_buf s t (omega arith),
              kprintf,
              echo,
              strlen_lem fuel v.mem kscan_buf s t1 (omega arith),
              strlen_lem fuel m1 kscan_buf s t2 (omega arith),
            )
            refl,
        rw append-nil at (IsText-append m2 buf s [] front stop),
        refl,
      )

  -- What `kscan` gives for a session.
  pub data Returned (buf : ℕ) : Option (Editor b kscan_buf) → Option Session → Type 0 where
    waits : Returned buf none none
    returns :
        {e : Editor b kscan_buf} {s : Session}
        → IsText e.screen.mem buf (whole s.line)
        → e.keys ≡ s.mods
        → Returned buf (some e) (some s)

  run_kscan :
      (fuel buf : ℕ) {w : Option (Editor b kscan_buf)} {o : Option Session}
      → Waited b kscan_buf apart w o
      → ((s : Session) → o ≡ some s → length (whole s.line) < 512)
      → 512 ≤ fuel
      → (buf + 512 ≤ kscan_buf) ⊎ (kscan_buf + 512 ≤ buf)
      → Returned buf (w >>= kscan_finish b kscan_buf fuel buf) o
  run_kscan fuel buf unfinished fits f far = waits
  run_kscan fuel buf (finished {e} {s} sh) fits f far =
      let (e', run, t, keys) =
        kscan_finish_lem fuel buf e (whole s.line) sh.shown (fits s refl) f far in
      rw run (returns t (keys ∙ sh.keys))

  -- From a buffer that holds any string, with at most 510 scancodes to come and with fuel above
  -- 513, `kscan` waits where the session accepts no line, and ends where it accepts one: with the
  -- line as a string in the caller's buffer, and the modifiers as the keys left them. The caller's
  -- buffer has 512 bytes away from `kscan_buf`, and `kscan_buf` lies away from what the console
  -- writes to.
  pub kscan_lem :
      (fuel buf : ℕ) (codes : List ℕ) (e : Editor b kscan_buf) (old : List ℕ)
      → IsText e.screen.mem kscan_buf old
      → length old < 512
      → length codes < 511
      → 513 < fuel
      → (buf + 512 ≤ kscan_buf) ⊎ (kscan_buf + 512 ≤ buf)
      → Returned buf (kscan b kscan_buf fuel buf codes e) (
          type_codes codes
            (record { mods = e.keys; line = record { front = []; back = [] }; done = false }))
  unfolding kscan
  kscan_lem fuel buf codes e old t small few f far =
      let s : Session = record {
        mods = e.keys;
        line = record { front = []; back = [] };
        done = false;
      } in
      let (e1, run, sh) = kscan_start_lem fuel e old t small f in
      rw (run, kscan)
        (run_kscan fuel buf
          (kscan_wait_refines b kscan_buf apart fuel codes e1 s sh (omega arith) (omega arith))
          (λ s' ended. let k = type_codes-length codes s s' ended in omega (arith, k)) (omega arith)
          far)
