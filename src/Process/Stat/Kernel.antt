-- ===== src/Process/Stat/Kernel.antt =====
-- src/sys/process.rs: `parse_proc_stat` on the line that the kernel writes, and the guard against
-- a reused pid.
use mathlib.Core.List.{append_assoc}
use myrun.Prelude.{
  ℕ, ◌-◌, ◌<◌, ◌^◌, List, ◌∷◌, get_elem?, ◌≡◌, ◌≢◌, ◌↔◌, refl, sym, true, false, [], ◌∷◌, ◌++◌,
  Option, none, some, arith,
}
use myrun.Text.{Text, has_char, words}
use myrun.Text.Laws.{split_once-append}
use myrun.Text.Number.{show_nat}
use myrun.Text.Laws.{parse-show_nat}
use myrun.Text.Signed.{parse_int-show_nat}
use myrun.Error.{ok}
use myrun.Process.Stat.Fields.{
  AreFields, tail_of, words-tail_of, tail_of_no_bracket, trim-show_nat, show_nat_no_bracket,
}
use myrun.Process.Stat.{
  ProcStat, rsplit_once, from_pieces, parse_proc_stat, first_char, field, process_alive,
}

rsplit_once-none : (sep : ℕ) (s : Text) → has_char sep s ≡ false → rsplit_once sep s ≡ none
unfolding rsplit_once has_char
rsplit_once-none sep [] h = refl
rsplit_once-none sep (c ∷ s) h = ground (arith, rsplit_once-none sep s)

rsplit_once-append :
    (sep : ℕ) (s t : Text) → has_char sep t ≡ false → rsplit_once sep (s ++ (sep ∷ t)) ≡ some (s, t)
unfolding rsplit_once
rsplit_once-append sep [] t h = ground (arith, rsplit_once-none sep t h)
rsplit_once-append sep (c ∷ s) t h = ground (arith, rsplit_once-append sep s t h)

split_line :
    (head comm tail : Text)
    → has_char b'(' head ≡ false
    → has_char b')' tail ≡ false
    → parse_proc_stat (head ++ (b'(' ∷ (comm ++ (b')' ∷ tail))))
      ≡ some (ok (from_pieces head comm tail))
unfolding parse_proc_stat
split_line head comm tail h t =
    let whole : head ++ (b'(' ∷ (comm ++ (b')' ∷ tail)))
        ≡ (head ++ (b'(' ∷ comm)) ++ (b')' ∷ tail) =
      sym (append_assoc head (b'(' ∷ comm) (b')' ∷ tail)) in
    rw (split_once-append b'(' head (comm ++ (b')' ∷ tail)) h, parse_proc_stat)
      (rw (whole, rsplit_once-append b')' (head ++ (b'(' ∷ comm)) tail t)
        (rw (rsplit_once-append b')' comm tail t)))

-- The line of a process: its id, its command name in parentheses, its state and further fields.
abbrev pub stat_line : ℕ → Text → ℕ → List Text → Text
stat_line n comm state fs =
    (show_nat n ++ b' ' ∷ []) ++ (b'(' ∷ (comm ++ (b')' ∷ tail_of ((state ∷ []) ∷ fs))))

-- Field `k` is the number `v` of 64 bits.
abbrev pub IsAt : List Text → ℕ → ℕ → Type 0
IsAt fs k v = (get_elem? fs k ≡ some (show_nat v)) × (v < 2 ^ 64)

field-IsAt : (rest : List Text) (k v : ℕ) → IsAt rest (k - 3) v → field rest k ≡ v
unfolding field
field-IsAt rest k v h =
    rw (h.0, field) (rw (parse-show_nat (2 ^ 64 - 1) v (omega (arith, h.1))) refl)

-- On the line of a process, its id below 2 ^ 31 and no blank or closing parenthesis in its fields,
-- the parser answers that id, the command name as it stands, whatever it holds, and the state, and
-- reads the parent, both times, the number of threads and the start time from where they stand.
pub parse_proc_stat_line :
    (n state : ℕ) (comm : Text) (fs : List Text)
    → n < 2 ^ 31
    → AreFields ((state ∷ []) ∷ fs)
    → (st : ProcStat) × (parse_proc_stat (stat_line n comm state fs) ≡ some (ok st))
      × (st.pid ≡ n)
      × (st.comm ≡ comm)
      × (st.state ≡ state)
      × ((v : ℕ) → IsAt fs 0 v → v < 2 ^ 32 → st.ppid ≡ v)
      × ((v : ℕ) → IsAt fs 10 v → st.utime ≡ v)
      × ((v : ℕ) → IsAt fs 11 v → st.stime ≡ v)
      × ((v : ℕ) → IsAt fs 16 v → st.num_threads ≡ v)
      × ((v : ℕ) → IsAt fs 18 v → st.start_time ≡ v)
unfolding from_pieces first_char
parse_proc_stat_line n state comm fs h v =
    let tail = tail_of ((state ∷ []) ∷ fs) in
    let e : words tail ≡ (state ∷ []) ∷ fs = words-tail_of ((state ∷ []) ∷ fs) v in
    (
      from_pieces (show_nat n ++ b' ' ∷ []) comm tail,
      split_line (show_nat n ++ b' ' ∷ []) comm tail (show_nat_no_bracket n)
          (tail_of_no_bracket ((state ∷ []) ∷ fs) v),
      rw (trim-show_nat n, parse_int-show_nat (2 ^ 31) n h) refl,
      refl,
      rw e refl,
      λ k i small. rw e (rw (field-IsAt ((state ∷ []) ∷ fs) 4 k i) (omega (arith, small))),
      λ k i. rw e (field-IsAt ((state ∷ []) ∷ fs) 14 k i),
      λ k i. rw e (field-IsAt ((state ∷ []) ∷ fs) 15 k i),
      λ k i. rw e (field-IsAt ((state ∷ []) ∷ fs) 20 k i),
      λ k i. rw e (field-IsAt ((state ∷ []) ∷ fs) 22 k i),
    )

-- A recorded process counts as alive exactly when the process that now has its pid is readable, is
-- no zombie, and started at the recorded time; with no recorded time, exactly when it is readable
-- and no zombie.
pub process_alive_iff :
    (found : Option ProcStat) (t : ℕ)
    → ((process_alive found (some t) ≡ true)
        ↔ ((st : ProcStat) × (found ≡ some st) × (st.state ≢ b'Z') × (st.start_time ≡ t)))
      × ((process_alive found none ≡ true)
          ↔ ((st : ProcStat) × (found ≡ some st) × (st.state ≢ b'Z')))
unfolding process_alive
process_alive_iff none t = ((λ h. cc, λ r. cc (r.1)), (λ h. cc, λ r. cc (r.1)))
process_alive_iff (some st) t = (
  (λ h. (st, refl, ground arith, ground arith), λ r. ground (arith, r.1)),
  (λ h. (st, refl, ground arith), λ r. ground (arith, r.1)),
)
