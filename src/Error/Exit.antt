-- ===== src/Error/Exit.antt =====
-- src/error.rs, `mod exit`: the exit codes of the command line.
use myrun.Prelude.{ℕ}

abbrev pub usage : ℕ
usage = 64

abbrev pub config : ℕ
config = 65

abbrev pub not_found : ℕ
not_found = 66

abbrev pub state : ℕ
state = 67

abbrev pub syscall : ℕ
syscall = 70

abbrev pub unsupported : ℕ
unsupported = 71

abbrev pub fault : ℕ
fault = 72

abbrev pub generic : ℕ
generic = 1
