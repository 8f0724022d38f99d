-- ===== src/Getch/Tests.antt =====
-- The reading of keys at concrete states.
use alphix.Base.{◌≡◌, refl, true, false, some, [], ◌∷◌}
use alphix.Keys.{switch, get_acsii_low, get_acsii_high}
use alphix.Getch.{modifiers, translate, Getch, special, press, getch_handler, wait, kgetch}

abbrev plain : Getch
plain = record {
  keys = record { capslock = false; shift = false; ctrl = false; alt = false };
  getch_end = true;
  getch_char = 5;
}

-- Shift is held down, then A is pressed.
capital_a :
    kgetch true (0x2A ∷ 0x1E ∷ 0x9E ∷ []) plain
    ≡ some (
      b'A',
      record plain {
        keys = record { capslock = false; shift = true; ctrl = false; alt = false };
        getch_char = b'A';
      },
      0x9E ∷ [],
    )
unfolding kgetch wait getch_handler modifiers press special translate get_acsii_low get_acsii_high
    switch
capital_a = refl
