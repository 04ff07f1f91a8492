-- ===== src/Process.antt =====
-- src/sys/process.rs: how a process ended, waiting for children, and liveness; the status macros of
-- src/sys/ffi.rs. A `c_int` is its 32-bit pattern, so `& 0x7f` is `% 2 ^ 7` and `>> 8` is `/ 2 ^ 8`
-- below the mask. The clone, exec and pidfd calls are left out.
pub mod Wait
pub mod Stat
pub mod Signal
pub mod Status
use Prim.Native.String.{String}
use myrun.Prelude.{
  ℕ, ◌+◌, ◌/◌, ◌%◌, ◌^◌, Bool, List, [], ◌∷◌, Option, none, some, ltb, ◌==◌, if◌then◌else◌,
}
use myrun.Error.{Message, lit, signed, name_of}

unfoldable pub wifexited : ℕ → Bool
wifexited status = status % 2 ^ 7 == 0

unfoldable pub wexitstatus : ℕ → ℕ
wexitstatus status = status / 2 ^ 8 % 2 ^ 8

unfoldable pub wifsignaled : ℕ → Bool
wifsignaled status = ltb 0 ((status % 2 ^ 7 + 1) / 2)

unfoldable pub wtermsig : ℕ → ℕ
wtermsig status = status % 2 ^ 7

unfoldable pub wifstopped : ℕ → Bool
wifstopped status = status % 2 ^ 8 == 0x7f

pub record ExitStatus : Type 0 where
  pub code : Option ℕ
  pub signal : Option ℕ

unfoldable pub from_raw : ℕ → ExitStatus
unfolding wifexited wexitstatus wifsignaled wtermsig
from_raw status =
    if wifexited status
    then record { code = some (wexitstatus status); signal = none }
    else if wifsignaled status
    then record { code = none; signal = some (wtermsig status) }
    else record { code = none; signal = none }

-- by cases on the two fields, the code first; `128 + s` is an `i32`
unfoldable pub exit_code_of : Option ℕ → Option ℕ → ℕ
exit_code_of (some c) _ = c
exit_code_of none (some s) = (128 + s) % 2 ^ 32
exit_code_of none none = 255

unfoldable pub exit_code : ExitStatus → ℕ
unfolding exit_code_of
exit_code st = exit_code_of st.code st.signal

abbrev pub signal_table : List (ℕ × String)
signal_table =
    (1, "SIGHUP")
    ∷ (2, "SIGINT")
    ∷ (3, "SIGQUIT")
    ∷ (4, "SIGILL")
    ∷ (6, "SIGABRT")
    ∷ (8, "SIGFPE")
    ∷ (9, "SIGKILL")
    ∷ (10, "SIGUSR1")
    ∷ (11, "SIGSEGV")
    ∷ (12, "SIGUSR2")
    ∷ (13, "SIGPIPE")
    ∷ (14, "SIGALRM")
    ∷ (15, "SIGTERM")
    ∷ (17, "SIGCHLD")
    ∷ (18, "SIGCONT")
    ∷ (19, "SIGSTOP")
    ∷ []

unfoldable pub signal_name : ℕ → String
signal_name = name_of "SIG?" signal_table

unfoldable pub describe_of : Option ℕ → Option ℕ → Message
describe_of (some c) _ = lit "exited with code " ∷ signed c ∷ []
describe_of none (some s) =
    lit "killed by signal " ∷ signed s ∷ lit " (" ∷ lit (signal_name s) ∷ lit ")" ∷ []
describe_of none none = lit "terminated for an unknown reason" ∷ []

unfoldable pub describe : ExitStatus → Message
unfolding describe_of
describe st = describe_of st.code st.signal
