-- ===== src/Boot/Tags.antt =====
-- `parse_multiboot2` over a list of tags that is laid out in memory.
use alphix.Base.{
  ℕ, zero, suc, ◌+◌, ◌^◌, ◌≤◌, ◌<◌, ◌≡◌, ◌≢◌, refl, sym, ◌∙◌, ap, ◌⊎◌, inl, inr, none, some, List,
  [], ◌∷◌, arith, ◌==◌, ==_ne, if◌then◌else◌, Bool-cases, length, ◌>>=◌,
}
use alphix.Memory.{Bytes}
use alphix.Port.{Bus}
use alphix.Printf.Run.{NoPercent, kvprintf_plain}
use alphix.Vga.{Vga, video_address, put_chars}
use alphix.Vga.Frame.{put_chars-mem}
use alphix.Editor.{kprintf}
use alphix.Boot.{
  read_u32, tag_type, tag_size, round_up, found_text, visit, tag_loop, parse_multiboot2,
}

pub record Tag : Type 0 where
  pub kind : ℕ
  pub size : ℕ

-- The bytes that the tags take, the last tag's first eight included.
abbrev pub span : List Tag → ℕ
span [] = 8
span (t ∷ ts) = round_up t.size + span ts

-- The tags lie one behind the other from `p` on, each from an eight-byte boundary, and a tag of
-- type 0 is the last one.
abbrev pub TagsAt : Bytes → ℕ → List Tag → Type 0
TagsAt m p [] = tag_type m p ≡ 0
TagsAt m p (t ∷ ts) =
    (tag_type m p ≡ t.kind)
    × (t.kind ≢ 0)
    × (tag_size m p ≡ t.size)
    × (8 ≤ t.size)
    × (t.size + 7 < 2 ^ 32)
    × TagsAt m (p + round_up t.size) ts

abbrev pub framebuffers : List Tag → ℕ
framebuffers [] = 0
framebuffers (t ∷ ts) = (if t.kind == 8 then 1 else 0) + framebuffers ts

abbrev pub AwayFromScreen : ℕ → ℕ → Type 0
AwayFromScreen p n = (p + n ≤ video_address) ⊎ (video_address + 2 ^ 16 < p)

read_u32-same :
    (m m' : Bytes) (p : ℕ)
    → ((a : ℕ) → p ≤ a → a < p + 4 → m' a ≡ m a)
    → read_u32 m' p ≡ read_u32 m p
read_u32-same m m' p same =
    rw
      (
        same p (omega arith) (omega arith),
        same (p + 1) (omega arith) (omega arith),
        same (p + 2) (omega arith) (omega arith),
        same (p + 3) (omega arith) (omega arith),
      )
      refl

TagsAt-frame :
    (m m' : Bytes) (p : ℕ) (ts : List Tag)
    → ((a : ℕ) → p ≤ a → a < p + span ts → m' a ≡ m a)
    → TagsAt m p ts
    → TagsAt m' p ts
TagsAt-frame m m' p [] same at = read_u32-same m m' p (λ a lo hi. same a lo (omega arith)) ∙ at
TagsAt-frame m m' p (t ∷ ts) same (kind, ne, size, least, most, later) =
    let next : round_up t.size + span ts ≡ span (t ∷ ts) = refl in
    let eight : 8 ≤ round_up t.size = omega arith in
    (
      read_u32-same m m' p (λ a lo hi. same a lo (omega arith)) ∙ kind,
      ne,
      read_u32-same m m' (p + 4) (λ a lo hi. same a (omega arith) (omega arith)) ∙ size,
      least,
      most,
      TagsAt-frame m m' (p + round_up t.size) ts (λ a lo hi. same a (omega arith) (omega arith))
          later,
    )

module _ (b : Bus) where
  -- The text printed `n` times.
  abbrev pub announced : ℕ → Vga b → Vga b
  announced zero v = v
  announced (suc n) v = announced n (put_chars b found_text v)

  visit-found :
      (v : Vga b) (tag : ℕ)
      → tag_type v.mem tag ≡ 8
      → visit b v tag ≡ some (put_chars b found_text v)
  unfolding visit kprintf
  visit-found v tag e =
      let plain : NoPercent found_text = omega arith in
      rw (e, visit, kprintf, kvprintf_plain found_text [] plain) refl

  visit-other : (v : Vga b) (tag : ℕ) → tag_type v.mem tag ≢ 8 → visit b v tag ≡ some v
  unfolding visit
  visit-other v tag ne = rw (==_ne (tag_type v.mem tag) 8 ne) refl

  loop-end :
      (fuel : ℕ) (v : Vga b) (tag : ℕ)
      → tag_type v.mem tag ≡ 0
      → tag_loop b (suc fuel) v tag ≡ some v
  unfolding tag_loop
  loop-end fuel v tag e = rw (e, tag_loop) refl

  loop-next :
      (fuel : ℕ) (v w : Vga b) (tag : ℕ)
      → tag_type v.mem tag ≢ 0
      → visit b v tag ≡ some w
      → tag_loop b (suc fuel) v tag ≡ tag_loop b fuel w (tag + round_up (tag_size w.mem tag))
  unfolding tag_loop
  loop-next fuel v w tag ne e =
      rw (==_ne (tag_type v.mem tag) 0 ne, tag_loop)
        (ap (λ o. o >>= λ u. tag_loop b fuel u (tag + round_up (tag_size u.mem tag))) e)

  tag_loop_lem :
      (fuel : ℕ) (v : Vga b) (p : ℕ) (ts : List Tag)
      → TagsAt v.mem p ts
      → AwayFromScreen p (span ts)
      → length ts < fuel
      → tag_loop b fuel v p ≡ some (announced (framebuffers ts) v)
  tag_loop_lem zero v p ts at away f = absurd (omega arith)
  tag_loop_lem (suc fuel) v p [] at away f = loop-end fuel v p at
  tag_loop_lem (suc fuel) v p (t ∷ ts) (kind, ne, size, least, most, later) away f =
      let more : tag_type v.mem p ≢ 0 = λ e. ne (sym kind ∙ e) in
      let w : Vga b = put_chars b found_text v in
      let next : ℕ = p + round_up t.size in
      let away1 : AwayFromScreen next (span ts) = omega arith in
      elim (Bool-cases (t.kind == 8)) [
        | inl found ↦
            let eight : tag_type v.mem p ≡ 8 = kind ∙ ground arith in
            let same : (a : ℕ) → p ≤ a → a < p + span (t ∷ ts) → w.mem a ≡ v.mem a =
              λ a lo hi. put_chars-mem b found_text v a (omega arith) in
            let size1 : tag_size w.mem p ≡ t.size =
              read_u32-same v.mem w.mem (p + 4) (λ a lo hi. same a (omega arith) (omega arith))
              ∙ size in
            let at1 : TagsAt w.mem next ts =
              TagsAt-frame v.mem w.mem next ts (λ a lo hi. same a (omega arith) (omega arith))
                later in
            let count : framebuffers (t ∷ ts) ≡ suc (framebuffers ts) = rw found (omega arith) in
            let one : announced (framebuffers (t ∷ ts)) v ≡ announced (framebuffers ts) w =
              ap (λ k. announced k v) count in
            loop-next fuel v w p more (visit-found v p eight)
            ∙ ap (λ n. tag_loop b fuel w (p + round_up n)) size1
            ∙ tag_loop_lem fuel w next ts at1 away1 (omega arith)
            ∙ ap some (sym one)
        | inr other ↦
            let not_eight : tag_type v.mem p ≢ 8 = λ e. absurd (ground (arith, kind, e, other)) in
            let count : framebuffers (t ∷ ts) ≡ framebuffers ts = rw other (omega arith) in
            let none_new : announced (framebuffers (t ∷ ts)) v ≡ announced (framebuffers ts) v =
              ap (λ k. announced k v) count in
            loop-next fuel v v p more (visit-other v p not_eight)
            ∙ ap (λ n. tag_loop b fuel v (p + round_up n)) size
            ∙ tag_loop_lem fuel v next ts later away1 (omega arith)
            ∙ ap some (sym none_new)
      ]

  -- With fuel above their number, `parse_multiboot2` ends on every list of tags that is laid out
  -- behind the first eight bytes at `addr`, each of eight bytes at least, away from the screen; it
  -- prints its message once for each framebuffer tag and does nothing else.
  pub parse_multiboot2_lem :
      (fuel addr : ℕ) (v : Vga b) (ts : List Tag)
      → TagsAt v.mem (addr + 8) ts
      → AwayFromScreen (addr + 8) (span ts)
      → length ts < fuel
      → parse_multiboot2 b fuel addr v ≡ some (announced (framebuffers ts) v)
  unfolding parse_multiboot2
  parse_multiboot2_lem fuel addr v ts at away f = tag_loop_lem fuel v (addr + 8) ts at away f

  -- Where the first tag's size is 0, and it is neither the last tag nor a framebuffer,
  -- `parse_multiboot2` does not end, whatever the fuel.
  pub parse_multiboot2-endless :
      (fuel addr : ℕ) (v : Vga b)
      → tag_type v.mem (addr + 8) ≢ 0
      → tag_type v.mem (addr + 8) ≢ 8
      → tag_size v.mem (addr + 8) ≡ 0
      → parse_multiboot2 b fuel addr v ≡ none
  unfolding parse_multiboot2 tag_loop
  parse_multiboot2-endless zero addr v ne other nought = refl
  parse_multiboot2-endless (suc fuel) addr v ne other nought =
      let p : ℕ = addr + 8 in
      let back : p + round_up 0 ≡ p = omega arith in
      loop-next fuel v v p ne (visit-other v p other)
      ∙ ap (λ n. tag_loop b fuel v (p + round_up n)) nought
      ∙ ap (tag_loop b fuel v) back
      ∙ parse_multiboot2-endless fuel addr v ne other nought
