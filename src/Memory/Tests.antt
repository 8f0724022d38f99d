-- ===== src/Memory/Tests.antt =====
-- The memory routines at a concrete memory.
use alphix.Base.{◌≡◌}
use alphix.Memory.{Bytes, memmove}
use alphix.Memory.Move.{memmove_lem}

-- Each address holds its own number.
abbrev ramp : Bytes
ramp a = a

memmove_lem_example : memmove ramp 12 10 5 13 ≡ 11
memmove_lem_example = memmove_lem ramp 12 10 5 13
