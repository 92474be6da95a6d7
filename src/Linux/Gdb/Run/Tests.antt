-- ===== src/Linux/Gdb/Run/Tests.antt =====
-- A run of linux/gdb that ends at a breakpoint.
use uhyve.Prelude.{[], false, none, some, ◌==◌, ◌∷◌}
use uhyve.Arch.Debug.{HwBreakpoint, HwBreakpoints, data_writes}
use uhyve.Linux.Gdb.Run.{DebugExit, Connection}

-- The second breakpoint watches writes, and has trapped.
abbrev watched : HwBreakpoint
watched = record { addr = 0x2000; size = 3; condition = data_writes }

abbrev slots : HwBreakpoints
slots = none ∷ some watched ∷ none ∷ none ∷ []

abbrev info : DebugExit
info = record { exception = 1; dr6 = record { step = false; trap = λ k. k == 1 } }

abbrev conn : Connection
conn = record { peek = some none; read = none }
