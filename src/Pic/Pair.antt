-- ===== src/Pic/Pair.antt =====
-- Two chips on a bus of their own: a machine on which the controllers can be run.
use alphix.Base.{ℕ, refl, ◌==◌, if◌then◌else◌}
use alphix.Port.{Bus}
use alphix.Pic.Chips.{Chip, command, datum, Pics}

pub record Pair : Type 0 where
  pub first : Chip
  pub second : Chip

abbrev pub out : ℕ → ℕ → Pair → Pair
out port v c =
    if port == 0x20
    then record c { first = command v c.first }
    else if port == 0xA0
    then record c { second = command v c.second }
    else if port == 0x21
    then record c { first = datum v c.first }
    else if port == 0xA1
    then record c { second = datum v c.second }
    else c

abbrev pub bus : Bus
bus = record {
  State = Pair;
  outb = out;
  inb = λ port c.
      (if port == 0x21 then c.first.mask else if port == 0xA1 then c.second.mask else 0, c);
}

abbrev pub pics : Pics bus
pics = record {
  master = λ c. c.first;
  slave = λ c. c.second;
  master-command1 = λ v c. refl;
  slave-command1 = λ v c. refl;
  master-command2 = λ v c. refl;
  slave-command2 = λ v c. refl;
  master-data1 = λ v c. refl;
  slave-data1 = λ v c. refl;
  master-data2 = λ v c. refl;
  slave-data2 = λ v c. refl;
  read1 = λ c ready. refl;
  read2 = λ c ready. refl;
  master-read1 = λ c. refl;
  slave-read1 = λ c. refl;
  master-read2 = λ c. refl;
  slave-read2 = λ c. refl;
}

abbrev pub fresh_chip : ℕ → Chip
fresh_chip m = record { phase = 0; mask = m; offset = 0; cascade = 0; mode = 0; ends = 0 }

abbrev pub start : Pair
start = record { first = fresh_chip 0xB8; second = fresh_chip 0x8E }
