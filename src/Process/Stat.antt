-- ===== src/Process/Stat.antt =====
-- src/sys/process.rs: /proc/<pid>/stat and the liveness test.
pub mod Fields
pub mod Kernel
use myrun.Prelude.{
  ℕ, zero, suc, ◌-◌, ◌%◌, ◌^◌, Bool, true, false, not, ◌&&◌, List, [], ◌∷◌, ◌++◌, Option, none,
  some, reverse, ◌==◌, if◌then◌else◌, get_elem?,
}
use myrun.Text.{Text, split_once, trim, words}
use myrun.Text.Number.{parse_int, parse_uint}
use myrun.Error.{Error, Result, ok, err, plain}

pub record ProcStat : Type 0 where
  pub pid : ℕ
  pub comm : Text
  pub state : ℕ
  pub ppid : ℕ
  pub start_time : ℕ
  pub utime : ℕ
  pub stime : ℕ
  pub num_threads : ℕ

-- The text before and behind the last occurrence of `sep`, as `rfind` finds it.
unfoldable pub rsplit_once : ℕ → Text → Option (Text × Text)
rsplit_once sep [] = none
rsplit_once sep (c ∷ s) =
    let later = rsplit_once sep s in
    elim later [ some (a, b) ↦ some (c ∷ a, b) | none ↦ if c == sep then some ([], s) else none ]

abbrev or_else : ℕ → Option ℕ → ℕ
or_else d none = d
or_else d (some n) = n

unfoldable pub first_char : Option Text → ℕ
first_char none = b'?'
first_char (some []) = b'?'
first_char (some (c ∷ s)) = c

abbrev parse_u64 : Text → Option ℕ
parse_u64 = parse_uint (2 ^ 64 - 1)

-- `get(n)`: field `n` is at `n - 3`, and 0 where it is missing or no number.
unfoldable pub field : List Text → ℕ → ℕ
field rest n = elim (get_elem? rest (n - 3)) [ none ↦ 0 | some s ↦ or_else 0 (parse_u64 s) ]

-- The record from the text before the first `(`, the text between it and the last `)`, and the
-- text behind that. Casts to `i32` keep the low 32 bits.
unfoldable pub from_pieces : Text → Text → Text → ProcStat
unfolding first_char field
from_pieces head comm tail =
    let rest = words tail in
    record {
      pid = or_else 0xffff_ffff (parse_int (2 ^ 31) (trim head));
      comm = comm;
      state = first_char (get_elem? rest 0);
      ppid = field rest 4 % 2 ^ 32;
      start_time = field rest 22;
      utime = field rest 14;
      stime = field rest 15;
      num_threads = field rest 20;
    }

abbrev malformed {ℓ} : {A : Type ℓ} → Result A
malformed = err (Error.parse (plain "malformed /proc/<pid>/stat"))

-- `none` is a panic: the last `)` stands before the first `(`, and the slice between them is
-- taken with its ends the wrong way round.
unfoldable pub parse_proc_stat : Text → Option (Result ProcStat)
unfolding rsplit_once
parse_proc_stat text = elim (split_once b'(' text) [
  | none ↦ some malformed
  | some (head, behind) ↦ elim (rsplit_once b')' text) [
    | none ↦ some malformed
    | some (before, tail) ↦ elim (rsplit_once b')' behind) [
      | none ↦ none
      | some (comm, tail') ↦ some (ok (from_pieces head comm tail'))
    ]
  ]
]

-- `process_alive` on what `read_proc_stat` returned; an unreadable file is `none`.
unfoldable pub process_alive : Option ProcStat → Option ℕ → Bool
process_alive none start = false
process_alive (some st) none = not (st.state == b'Z')
process_alive (some st) (some t) = if st.state == b'Z' then false else st.start_time == t
