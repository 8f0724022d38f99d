-- ===== src/Pic/Remap.antt =====
-- What `pic_remap` and `pic_send_eoi` leave in the chips.
use alphix.Base.{
  ℕ, ◌+◌, ◌%◌, ◌^◌, ◌<◌, ◌≡◌, refl, ◌∙◌, ap, inl, inr, arith, leb, if◌then◌else◌, Bool-cases,
}
use alphix.Port.{Bus}
use alphix.Pic.{pic_remap, pic_send_eoi}
use alphix.Pic.Chips.{Chip, Pics}

module _ (b : Bus) (p : Pics b) where
  -- From normal operation, `pic_remap` sets both chips up for the offsets given (cut to a byte), with
  -- the slave at line 2 of the master and in 8086 mode, in normal operation again and with the masks
  -- that they had.
  pub pic_remap_lem :
      (offset1 offset2 : ℕ) (s : b.State)
      → (p.master s).phase ≡ 0
      → (p.slave s).phase ≡ 0
      → (p.master s).mask < 2 ^ 8
      → (p.slave s).mask < 2 ^ 8
      → let w = pic_remap b offset1 offset2 s in
        (p.master w ≡ record (p.master s) { offset = offset1 % 2 ^ 8; cascade = 4; mode = 1 })
        × (p.slave w ≡ record (p.slave s) { offset = offset2 % 2 ^ 8; cascade = 2; mode = 1 })
  unfolding pic_remap
  pic_remap_lem offset1 offset2 s ready1 ready2 byte1 byte2 =
      let s1 = (b.inb 0x21 s).1 in
      let a1 = p.read1 s ready1 in
      let a2 =
        p.read2 s1 (ap (λ (c : Chip). c.phase) (p.slave-read1 s) ∙ ready2)
        ∙ ap (λ (c : Chip). c.mask) (p.slave-read1 s) in
      let keep1 : (b.inb 0x21 s).0 % 2 ^ 8 ≡ (p.master s).mask = rw a1 (omega arith) in
      let keep2 : (b.inb 0xA1 s1).0 % 2 ^ 8 ≡ (p.slave s).mask = rw a2 (omega arith) in
      let once1 : offset1 % 2 ^ 8 % 2 ^ 8 ≡ offset1 % 2 ^ 8 = omega arith in
      let once2 : offset2 % 2 ^ 8 % 2 ^ 8 ≡ offset2 % 2 ^ 8 = omega arith in
      (
        simp
            (
              p.master-data2, p.master-data1, p.master-command2, p.master-command1, p.master-read2,
              p.master-read1, ready1, keep1,
            )
            (rw once1 refl),
        simp
            (
              p.slave-data2, p.slave-data1, p.slave-command2, p.slave-command1, p.slave-read2,
              p.slave-read1, ready2, keep2,
            )
            (rw once2 refl),
      )

  -- `pic_send_eoi` ends an interrupt at the master, and at the slave too for the lines 8 and up.
  pub pic_send_eoi_lem :
      (irq : ℕ) (s : b.State)
      → let w = pic_send_eoi b irq s in
        (p.master w ≡ record (p.master s) { ends = (p.master s).ends + 1 })
        × (p.slave w
            ≡ (if leb 8 irq then record (p.slave s) { ends = (p.slave s).ends + 1 } else p.slave s))
  unfolding pic_send_eoi
  pic_send_eoi_lem irq s = elim (Bool-cases (leb 8 irq)) [
    | inl second ↦ (
      simp (second, p.master-command1, p.master-command2) refl,
      simp (second, p.slave-command1, p.slave-command2) refl,
    )
    | inr first ↦ (simp (first, p.master-command1) refl, simp (first, p.slave-command1) refl)
  ]
