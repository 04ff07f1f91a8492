-- ===== src/Tests/Children.antt =====
-- src/sys/process.rs on concrete inputs.
use myrun.Prelude.{
  zero, suc, ◌<◌, ◌^◌, ℕ, ◌≡◌, refl, true, false, List, [], ◌∷◌, ◌++◌, none, some, arith,
}
use myrun.Text.{Text, codes, is_whitespace}
use myrun.Error.{ok}
use myrun.Process.{wifexited, wexitstatus, wtermsig, from_raw, wifstopped, wifsignaled, exit_code}
use myrun.Process.Wait.{Reply, failed, nothing, child, wait_pid, reap_all}
use myrun.Process.Wait.Children.{AllRetried, wait_pid-child, reported, reap_all-reported}
use myrun.Process.Stat.{ProcStat, parse_proc_stat}
use myrun.Process.Stat.Fields.{AreFields}
use myrun.Process.Stat.Kernel.{stat_line, IsAt, parse_proc_stat_line}
use myrun.Process.Status.{exited, killed, stopped, from_raw_codes, from_raw-stopped}

-- An interruption, a stop by signal 19, and an exit with code 3.
abbrev replies : List Reply
replies = failed 4 ∷ child 7 4991 ∷ child 7 768 ∷ nothing ∷ []

wait_pid-child_example :
    (skipped : List Reply) × (status : ℕ) × (replies ≡ skipped ++ child 7 status ∷ nothing ∷ [])
    × AllRetried skipped
    × (wifstopped status ≡ false)
    × (record { code = some 3; signal = none } ≡ from_raw status)
unfolding wait_pid from_raw wifstopped wifexited wexitstatus wifsignaled wtermsig
wait_pid-child_example = wait_pid-child 7 replies refl

reap_all-reported_example : reap_all replies ≡ reported replies
reap_all-reported_example = reap_all-reported replies

-- Fields that are all the number 1.
abbrev ones : ℕ → List Text
ones zero = []
ones (suc n) = codes "1" ∷ ones n

ones-AreFields : (n : ℕ) → AreFields (ones n)
unfolding is_whitespace codes
ones-AreFields zero = tt
ones-AreFields (suc n) = ((λ e. ground arith, (refl, tt)), ones-AreFields n)

parse_proc_stat_line_example :
    (st : ProcStat) × (parse_proc_stat (stat_line 12 (codes "a) (b") b'S' (ones 19)) ≡ some (ok st))
    × (st.pid ≡ 12)
    × (st.comm ≡ codes "a) (b")
    × (st.state ≡ b'S')
    × ((v : ℕ) → IsAt (ones 19) 0 v → v < 2 ^ 32 → st.ppid ≡ v)
    × ((v : ℕ) → IsAt (ones 19) 10 v → st.utime ≡ v)
    × ((v : ℕ) → IsAt (ones 19) 11 v → st.stime ≡ v)
    × ((v : ℕ) → IsAt (ones 19) 16 v → st.num_threads ≡ v)
    × ((v : ℕ) → IsAt (ones 19) 18 v → st.start_time ≡ v)
unfolding codes is_whitespace
parse_proc_stat_line_example =
    parse_proc_stat_line 12 b'S' (codes "a) (b") (ones 19) (omega arith)
      ((λ e. ground arith, (refl, tt)), ones-AreFields 19)

from_raw_codes_example :
    (from_raw (exited 3) ≡ record { code = some 3; signal = none })
    × (exit_code (from_raw (exited 3)) ≡ 3)
    × (from_raw (killed 9 true) ≡ record { code = none; signal = some 9 })
    × (exit_code (from_raw (killed 9 true)) ≡ 137)
from_raw_codes_example = from_raw_codes 3 9 true (omega arith) (omega arith) (omega arith)

from_raw-stopped_example :
    (wifstopped (stopped 19) ≡ true)
    × (wifsignaled (stopped 19) ≡ true)
    × (from_raw (stopped 19) ≡ record { code = none; signal = some 127 })
from_raw-stopped_example = from_raw-stopped 19
