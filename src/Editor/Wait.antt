-- ===== src/Editor/Wait.antt =====
-- The wait of `kscan` ends where a session of keys does.
use alphix.Base.{
  ℕ, ◌+◌, ◌≤◌, ◌≡◌, ◌∙◌, true, inl, inr, Option, none, some, List, [], ◌∷◌, arith, Bool-cases,
  length,
}
use alphix.Port.{Bus}
use alphix.Editor.{Editor, kscan_wait}
use alphix.Editor.Line.{whole, Session, type_code, type_codes, type_code-length}
use alphix.Editor.Erase.{Apart, Shows}
use alphix.Editor.Refine.{kscan_handler_refines}

module _ (b : Bus) (kscan_buf : ℕ) (apart : Apart kscan_buf) where
  -- What a wait gives for a session: nothing, or an editor that shows where the session ended.
  pub data Waited : Option (Editor b kscan_buf) → Option Session → Type 0 where
    unfinished : Waited none none
    finished :
        {e : Editor b kscan_buf} {s : Session}
        → Shows b kscan_buf apart e s
        → Waited (some e) (some s)

  wait-over :
      (fuel : ℕ) (codes : List ℕ) (e : Editor b kscan_buf)
      → e.enter ≡ true
      → kscan_wait b kscan_buf fuel codes e ≡ some e
  unfolding kscan_wait
  wait-over fuel [] e over = ground arith
  wait-over fuel (code ∷ codes) e over = ground arith

  type_codes-over : (codes : List ℕ) (s : Session) → s.done ≡ true → type_codes codes s ≡ some s
  unfolding type_codes
  type_codes-over [] s over = ground arith
  type_codes-over (code ∷ codes) s over = ground arith

  -- The wait of `kscan` ends where the session does, with the line of the session.
  pub kscan_wait_refines :
      (fuel : ℕ) (codes : List ℕ) (e : Editor b kscan_buf) (s : Session)
      → Shows b kscan_buf apart e s
      → 512 ≤ fuel
      → length (whole s.line) + length codes + 1 ≤ 512
      → Waited (kscan_wait b kscan_buf fuel codes e) (type_codes codes s)
  kscan_wait_refines fuel [] e s sh f room = elim (Bool-cases s.done) [
    | inl over ↦ rw (wait-over fuel [] e (sh.enter ∙ over), type_codes-over [] s over) (finished sh)
    | inr more ↦
        let e1 : kscan_wait b kscan_buf fuel [] e ≡ none =
          unfold kscan_wait in ground (arith, sh.enter, more) in
        let e2 : type_codes [] s ≡ none = unfold type_codes in ground (arith, more) in
        rw (e1, e2) unfinished
  ]
  kscan_wait_refines fuel (code ∷ codes) e s sh f room = elim (Bool-cases s.done) [
    | inl over ↦
        rw
          (wait-over fuel (code ∷ codes) e (sh.enter ∙ over), type_codes-over (code ∷ codes) s over)
          (finished sh)
    | inr more ↦
        let (next, run, sh1) =
          kscan_handler_refines b kscan_buf apart fuel code e s sh (omega arith) (omega arith) in
        let e1 : kscan_wait b kscan_buf fuel (code ∷ codes) e
            ≡ kscan_wait b kscan_buf fuel codes next =
          unfold kscan_wait in ground (arith, sh.enter, more, run) in
        let e2 : type_codes (code ∷ codes) s ≡ type_codes codes (type_code code s) =
          unfold type_codes in ground (arith, more) in
        rw (e1, e2)
          (kscan_wait_refines fuel codes next (type_code code s) sh1 f
            (omega (arith, type_code-length code s)))
  ]
