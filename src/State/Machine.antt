-- ===== src/State/Machine.antt =====
-- src/runtime/state.rs: the statuses' names, and single operations on a state.
use myrun.Prelude.{ℕ, ◌≡◌, ◌↔◌, refl, inl, inr, true, false, Option, arith, Bool-cases}
use myrun.Text.{Text, codes, text_eq}
use myrun.Text.Laws.{text_eq_iff}
use myrun.Error.{Result, ok}
use myrun.Process.Stat.{ProcStat}
use myrun.State.{
  Status, creating, created, running, paused, stopping, stopped, as_str, parse, is_live,
  same_status, ContainerState, init_is_alive, reconcile,
}

same_status_iff : (s t : Status) → (same_status s t ≡ true) ↔ (s ≡ t)
unfolding same_status
same_status_iff s t = ground arith

pub parse-as_str : (s : Status) → parse (as_str s) ≡ ok s
unfolding parse as_str text_eq codes
parse-as_str creating = refl
parse-as_str created = refl
parse-as_str running = refl
parse-as_str paused = refl
parse-as_str stopping = refl
parse-as_str stopped = refl

parse_sound : (t : Text) (s : Status) → parse t ≡ ok s → t ≡ as_str s
unfolding parse as_str
parse_sound t s h = ground (
  arith,
  text_eq_iff t (codes "creating"),
  text_eq_iff t (codes "created"),
  text_eq_iff t (codes "running"),
  text_eq_iff t (codes "paused"),
  text_eq_iff t (codes "stopping"),
  text_eq_iff t (codes "stopped"),
)

-- A text parses as a status exactly when it is that status's name.
pub parse_iff : (t : Text) (s : Status) → (parse t ≡ ok s) ↔ (t ≡ as_str s)
parse_iff t s = (parse_sound t s, λ e. rw e (parse-as_str s))

-- A correction that is saved leaves the container stopped, is made only where the status was live
-- and the init process is not, and is made once: the next call changes nothing.
pub reconcile_settles :
    {C : Type 0} (st next : ContainerState C) (stat stat' : Option ProcStat) (now now' : ℕ)
    (saved saved' : Result (Unit {0}))
    → reconcile st stat now saved ≡ (next, ok true)
    → (is_live st.status ≡ true)
      × (init_is_alive st stat ≡ false)
      × (next.status ≡ stopped)
      × (reconcile next stat' now' saved' ≡ (next, ok false))
unfolding reconcile is_live
reconcile_settles st next stat stat' now now' saved saved' e =
    elim (Bool-cases (is_live st.status)) [
      | inr l ↦ absurd (ground (arith, l))
      | inl l ↦ elim (Bool-cases (init_is_alive st stat)) [
        | inl i ↦ absurd (ground (arith, l, i))
        | inr i ↦ (l, i, settled (ground (arith, l, i)), twice (settled (ground (arith, l, i))))
      ]
    ]
  where
    settled : next.status ≡ stopped → next.status ≡ stopped
    settled h = h

    twice : next.status ≡ stopped → reconcile next stat' now' saved' ≡ (next, ok false)
    twice h = rw (h, reconcile, is_live) refl
