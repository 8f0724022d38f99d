-- ===== src/Pic/Masks.antt =====
-- The masks that `pic_set_mask` and `kernel_main` leave.
use alphix.Base.{
  ℕ, ◌/◌, ◌%◌, ◌^◌, ◌<◌, ◌≡◌, refl, ◌∙◌, ap, inl, inr, ltb, ◌==◌, ==_iff, if◌then◌else◌, Bool-cases,
  all_below, all_below_lem,
}
use Prim.Native.Nat.{bit_or}
use alphix.Port.{Bus}
use alphix.Pic.{line_bit, pic_remap, pic_set_mask, mask_first, mask_second, pic_setup}
use alphix.Pic.Chips.{Chip, Pics}
use alphix.Pic.Remap.{pic_remap_lem}

abbrev set_bit : ℕ → ℕ → ℕ
set_bit irq m = bit_or m (line_bit irq) % 2 ^ 8

-- The masks after the two loops of `kernel_main`.
abbrev first_masks : ℕ → ℕ
first_masks m = set_bit 7 (set_bit 6 (set_bit 5 (set_bit 4 (set_bit 3 (set_bit 2 (set_bit 0 m))))))

abbrev second_masks : ℕ → ℕ
second_masks m =
    set_bit 15
      (set_bit 14 (set_bit 13 (set_bit 12 (set_bit 11 (set_bit 10 (set_bit 9 (set_bit 8 m)))))))

first_table : (m : ℕ) → m < 2 ^ 8 → first_masks m ≡ (if m / 2 % 2 == 1 then 0xFF else 0xFD)
unfolding all_below
first_table m h =
    (==_iff _ _).0
      (all_below_lem 256 (λ m. first_masks m == (if m / 2 % 2 == 1 then 0xFF else 0xFD)) m refl h)

second_table : (m : ℕ) → m < 2 ^ 8 → second_masks m ≡ 0xFF
unfolding all_below
second_table m h = (==_iff _ _).0 (all_below_lem 256 (λ m. second_masks m == 0xFF) m refl h)

module _ (b : Bus) (p : Pics b) where
  -- Both chips are in normal operation, at these vectors and with these masks.
  pub record Normal (o1 o2 m1 m2 : ℕ) (s : b.State) : Type 0 where
    pub ready1 : (p.master s).phase ≡ 0
    pub ready2 : (p.slave s).phase ≡ 0
    pub mask1 : (p.master s).mask ≡ m1
    pub mask2 : (p.slave s).mask ≡ m2
    pub offset1 : (p.master s).offset ≡ o1
    pub offset2 : (p.slave s).offset ≡ o2

  -- `pic_set_mask` sets the bit of the line in the mask of the line's chip, and leaves the other
  -- chip's mask.
  pub pic_set_mask_lem :
      (irq o1 o2 m1 m2 : ℕ) (s : b.State)
      → Normal o1 o2 m1 m2 s
      → Normal o1 o2
          (if ltb irq 8 then set_bit irq m1 else m1)
          (if ltb irq 8 then m2 else set_bit irq m2)
          (pic_set_mask b irq s)
  unfolding pic_set_mask
  pic_set_mask_lem irq o1 o2 m1 m2 s at = elim (Bool-cases (ltb irq 8)) [
    | inl first ↦
        let value : (b.inb 0x21 s).0 ≡ m1 = p.read1 s at.ready1 ∙ at.mask1 in
        let run : pic_set_mask b irq s ≡ b.outb 0x21 (bit_or m1 (line_bit irq)) (b.inb 0x21 s).1 =
          rw (pic_set_mask, first, value) refl in
        rw (first, run)
          (record {
            ready1 = simp (p.master-data1, p.master-read1, at.ready1) refl;
            ready2 = simp (p.slave-data1, p.slave-read1) at.ready2;
            mask1 = simp (p.master-data1, p.master-read1, at.ready1) refl;
            mask2 = simp (p.slave-data1, p.slave-read1) at.mask2;
            offset1 = simp (p.master-data1, p.master-read1, at.ready1) at.offset1;
            offset2 = simp (p.slave-data1, p.slave-read1) at.offset2;
          })
    | inr second ↦
        let value : (b.inb 0xA1 s).0 ≡ m2 = p.read2 s at.ready2 ∙ at.mask2 in
        let run : pic_set_mask b irq s ≡ b.outb 0xA1 (bit_or m2 (line_bit irq)) (b.inb 0xA1 s).1 =
          rw (pic_set_mask, second, value) refl in
        rw (second, run)
          (record {
            ready1 = simp (p.master-data2, p.master-read2) at.ready1;
            ready2 = simp (p.slave-data2, p.slave-read2, at.ready2) refl;
            mask1 = simp (p.master-data2, p.master-read2) at.mask1;
            mask2 = simp (p.slave-data2, p.slave-read2, at.ready2) refl;
            offset1 = simp (p.master-data2, p.master-read2) at.offset1;
            offset2 = simp (p.slave-data2, p.slave-read2, at.ready2) at.offset2;
          })
  ]

  mask_first-Normal :
      (o1 o2 m1 m2 : ℕ) (s : b.State)
      → Normal o1 o2 m1 m2 s
      → Normal o1 o2 (first_masks m1) m2 (mask_first b 8 0 s)
  unfolding mask_first
  mask_first-Normal o1 o2 m1 m2 s at =
      let at0 = pic_set_mask_lem 0 o1 o2 _ m2 _ at in
      let at2 = pic_set_mask_lem 2 o1 o2 _ m2 _ at0 in
      let at3 = pic_set_mask_lem 3 o1 o2 _ m2 _ at2 in
      let at4 = pic_set_mask_lem 4 o1 o2 _ m2 _ at3 in
      let at5 = pic_set_mask_lem 5 o1 o2 _ m2 _ at4 in
      let at6 = pic_set_mask_lem 6 o1 o2 _ m2 _ at5 in pic_set_mask_lem 7 o1 o2 _ m2 _ at6

  mask_second-Normal :
      (o1 o2 m1 m2 : ℕ) (s : b.State)
      → Normal o1 o2 m1 m2 s
      → Normal o1 o2 m1 (second_masks m2) (mask_second b 8 8 s)
  unfolding mask_second
  mask_second-Normal o1 o2 m1 m2 s at =
      let at8 = pic_set_mask_lem 8 o1 o2 m1 _ _ at in
      let at9 = pic_set_mask_lem 9 o1 o2 m1 _ _ at8 in
      let at10 = pic_set_mask_lem 10 o1 o2 m1 _ _ at9 in
      let at11 = pic_set_mask_lem 11 o1 o2 m1 _ _ at10 in
      let at12 = pic_set_mask_lem 12 o1 o2 m1 _ _ at11 in
      let at13 = pic_set_mask_lem 13 o1 o2 m1 _ _ at12 in
      let at14 = pic_set_mask_lem 14 o1 o2 m1 _ _ at13 in pic_set_mask_lem 15 o1 o2 m1 _ _ at14

  -- From normal operation, what `kernel_main` does to the chips leaves them at the vectors 0x20 and
  -- 0x28, with every line of the slave masked, and every line of the master but the keyboard's: that
  -- line is masked afterwards exactly if it was before.
  pub pic_setup_lem :
      (s : b.State)
      → (p.master s).phase ≡ 0
      → (p.slave s).phase ≡ 0
      → (p.master s).mask < 2 ^ 8
      → (p.slave s).mask < 2 ^ 8
      → Normal 0x20 0x28
          (if (p.master s).mask / 2 % 2 == 1 then 0xFF else 0xFD)
          0xFF
          (pic_setup b s)
  unfolding pic_setup
  pic_setup_lem s ready1 ready2 byte1 byte2 =
      let (first, second) = pic_remap_lem b p 0x20 0x28 s ready1 ready2 byte1 byte2 in
      let w = pic_remap b 0x20 0x28 s in
      let at : Normal 0x20 0x28 (p.master s).mask (p.slave s).mask w = record {
        ready1 = ap (λ (c : Chip). c.phase) first ∙ ready1;
        ready2 = ap (λ (c : Chip). c.phase) second ∙ ready2;
        mask1 = ap (λ (c : Chip). c.mask) first;
        mask2 = ap (λ (c : Chip). c.mask) second;
        offset1 = ap (λ (c : Chip). c.offset) first;
        offset2 = ap (λ (c : Chip). c.offset) second;
      } in
      let set = mask_second-Normal _ _ _ _ _ (mask_first-Normal _ _ _ _ _ at) in
      record {
        ready1 = set.ready1;
        ready2 = set.ready2;
        mask1 = set.mask1 ∙ first_table (p.master s).mask byte1;
        mask2 = set.mask2 ∙ second_table (p.slave s).mask byte2;
        offset1 = set.offset1;
        offset2 = set.offset2;
      }
