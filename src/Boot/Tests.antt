-- ===== src/Boot/Tests.antt =====
-- `parse_multiboot2` on small structures.
use alphix.Base.{◌≡◌, refl, inl, none, some, List, [], ◌∷◌, arith, ◌==◌, if◌then◌else◌}
use alphix.Memory.{Bytes}
use alphix.Port.Quiet.{quiet}
use alphix.Vga.{Vga}
use alphix.Boot.{parse_multiboot2}
use alphix.Boot.Tags.{Tag, framebuffers, announced, parse_multiboot2_lem, parse_multiboot2-endless}

-- At 4104 a tag of type 1 with 9 bytes, at 4120 a framebuffer tag with 8, and the end.
abbrev boot_info : Bytes
boot_info a =
    if a == 4104
    then 1
    else if a == 4108
    then 9
    else if a == 4120
    then 8
    else if a == 4124
    then 8
    else 0

abbrev screen : Vga quiet
screen = record { mem = boot_info; ports = tt }

abbrev tags : List Tag
tags = record { kind = 1; size = 9 } ∷ record { kind = 8; size = 8 } ∷ []

parse_multiboot2_lem_example :
    parse_multiboot2 quiet 3 4096 screen ≡ some (announced quiet (framebuffers tags) screen)
parse_multiboot2_lem_example =
    parse_multiboot2_lem quiet 3 4096 screen tags
      (
        refl,
        omega arith,
        refl,
        omega arith,
        omega arith,
        (refl, omega arith, refl, omega arith, omega arith, refl),
      )
      (inl (omega arith)) (omega arith)

-- At 4104 a tag of type 1 with no bytes.
abbrev broken : Vga quiet
broken = record { mem = λ a. if a == 4104 then 1 else 0; ports = tt }

parse_multiboot2-endless_example : parse_multiboot2 quiet 1000 4096 broken ≡ none
parse_multiboot2-endless_example =
    parse_multiboot2-endless quiet 1000 4096 broken (omega arith) (omega arith) refl
