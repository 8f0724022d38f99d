-- ===== src/Pic/Tests.antt =====
-- The controllers as two chips, and the theorems there.
use alphix.Base.{◌≡◌, refl, arith}
use alphix.Pic.{pic_remap, pic_set_mask, pic_clear_mask, pic_setup}
use alphix.Pic.Pair.{bus, pics, fresh_chip, start}
use alphix.Pic.Remap.{pic_remap_lem}
use alphix.Pic.Masks.{Normal, pic_setup_lem}

pic_remap_lem_example :
    let w = pic_remap bus 0x20 0x28 start in
    (w.first ≡ record (fresh_chip 0xB8) { offset = 0x20; cascade = 4; mode = 1 })
    × (w.second ≡ record (fresh_chip 0x8E) { offset = 0x28; cascade = 2; mode = 1 })
pic_remap_lem_example = pic_remap_lem bus pics 0x20 0x28 start refl refl (omega arith) (omega arith)

pic_setup_lem_example : Normal bus pics 0x20 0x28 0xFD 0xFF (pic_setup bus start)
pic_setup_lem_example = pic_setup_lem bus pics start refl refl (omega arith) (omega arith)

set_and_clear : (pic_clear_mask bus 12 (pic_set_mask bus 12 start)).second.mask ≡ 0x8E
unfolding pic_clear_mask pic_set_mask
set_and_clear = refl
