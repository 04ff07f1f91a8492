-- ===== src/State/History.antt =====
-- src/runtime/state.rs: what holds over a container's whole life, whatever operations it goes through.
use myrun.Prelude.{
  ℕ, ◌≤◌, ◌<◌, ◌≡◌, ◌≢◌, ◌⊎◌, refl, sym, ap, ◌∙◌, inl, inr, true, Option, arith, Bool-cases,
}
use myrun.Error.{Result, ok}
use myrun.Process.{ExitStatus}
use myrun.Process.Stat.{ProcStat}
use myrun.State.{
  Status, creating, created, running, paused, stopping, stopped, is_live, can_transition_to,
  same_status, ContainerState, set_once, enter, transition, record_exit, init_is_alive, reconcile,
}

-- How far along a status is; the two that a container goes back and forth between are level.
abbrev pub phase : Status → ℕ
phase creating = 0
phase created = 1
phase running = 2
phase paused = 2
phase stopping = 3
phase stopped = 4

-- A live container has a start time, a stopped one an end.
pub record IsTimed {C : Type 0} (st : ContainerState C) : Type 0 where
  pub started : is_live st.status ≡ true → st.started_at ≢ 0
  pub finished : st.status ≡ stopped → st.finished_at ≢ 0

-- What one operation may do to a state.
pub record Grows {C : Type 0} (st next : ContainerState C) : Type 0 where
  pub forward : phase st.status ≤ phase next.status
  pub started_kept : st.started_at ≢ 0 → next.started_at ≡ st.started_at
  pub finished_kept : st.finished_at ≢ 0 → next.finished_at ≡ st.finished_at
  pub timed : IsTimed st → IsTimed next

set_once-kept : (now t : ℕ) → t ≢ 0 → set_once now t ≡ t
set_once-kept now t h = ground arith

set_once-set : (now t : ℕ) → 0 < now → set_once now t ≢ 0
set_once-set now t h = ground arith

allowed-forward : (s t : Status) → can_transition_to s t ≡ true → phase s ≤ phase t
unfolding can_transition_to
allowed-forward s t h = ground arith

-- Every live status but `running` is reached from a live one.
live_before :
    (s t : Status)
    → can_transition_to s t ≡ true
    → is_live t ≡ true
    → t ≢ running
    → is_live s ≡ true
unfolding can_transition_to is_live
live_before s t h l n = ground arith

phase_most : (s : Status) → phase s ≤ 4
phase_most s = ground arith

module _ {C : Type 0} where
  -- One operation of the program on a state, at a time that is not 0.
  pub data Step (st : ContainerState C) : ContainerState C → Type 0 where
    moved :
        (to : Status) (now : ℕ) {next : ContainerState C}
        → 0 < now
        → transition st to now ≡ ok next
        → Step st next
    exited : (x : ExitStatus) (now : ℕ) → 0 < now → Step st (record_exit st x now)
    reconciled :
        (stat : Option ProcStat) (now : ℕ) (saved : Result (Unit {0}))
        → 0 < now
        → Step st (reconcile st stat now saved).0

  pub data Steps (st : ContainerState C) : ContainerState C → Type 0 where
    done : Steps st st
    then_step : {mid next : ContainerState C} → Steps st mid → Step mid next → Steps st next

  Grows-refl : (st : ContainerState C) → Grows st st
  Grows-refl st = record {
    forward = omega arith;
    started_kept = λ h. refl;
    finished_kept = λ h. refl;
    timed = λ t. t;
  }

  Grows-trans : (a b c : ContainerState C) → Grows a b → Grows b c → Grows a c
  Grows-trans a b c g h = record {
    forward = omega (arith, g.forward, h.forward);
    started_kept = λ n. h.started_kept (rw (g.started_kept n) n) ∙ g.started_kept n;
    finished_kept = λ n. h.finished_kept (rw (g.finished_kept n) n) ∙ g.finished_kept n;
    timed = λ t. h.timed (g.timed t);
  }

  enter-Grows :
      (st : ContainerState C) (to : Status) (now : ℕ)
      → 0 < now
      → can_transition_to st.status to ≡ true
      → Grows st (enter to now st)
  unfolding enter can_transition_to is_live
  enter-Grows st creating now h a = absurd (nothing (st.status) a)
    where
      nothing : (s : Status) → can_transition_to s creating ≡ true → ⊥
      nothing s e = ground arith
  enter-Grows st created now h a = record {
    forward = allowed-forward st.status created a;
    started_kept = λ n. refl;
    finished_kept = λ n. refl;
    timed = λ t. record { started = λ l. ground arith; finished = λ e. ground arith };
  }
  enter-Grows st running now h a = record {
    forward = allowed-forward st.status running a;
    started_kept = set_once-kept now st.started_at;
    finished_kept = λ n. refl;
    timed = λ t. record {
      started = λ l. set_once-set now st.started_at h;
      finished = λ e. ground arith;
    };
  }
  enter-Grows st paused now h a = record {
    forward = allowed-forward st.status paused a;
    started_kept = λ n. refl;
    finished_kept = λ n. refl;
    timed = λ t. record {
      started = λ l. t.started (live_before st.status paused a refl (λ q. ground arith));
      finished = λ e. ground arith;
    };
  }
  enter-Grows st stopping now h a = record {
    forward = allowed-forward st.status stopping a;
    started_kept = λ n. refl;
    finished_kept = λ n. refl;
    timed = λ t. record {
      started = λ l. t.started (live_before st.status stopping a refl (λ q. ground arith));
      finished = λ e. ground arith;
    };
  }
  enter-Grows st stopped now h a = record {
    forward = allowed-forward st.status stopped a;
    started_kept = λ n. refl;
    finished_kept = set_once-kept now st.finished_at;
    timed = λ t. record {
      started = λ l. ground arith;
      finished = λ e. set_once-set now st.finished_at h;
    };
  }

  transition_cases :
      (st : ContainerState C) (to : Status) (now : ℕ) (next : ContainerState C)
      → transition st to now ≡ ok next
      → (next ≡ st) ⊎ ((can_transition_to st.status to ≡ true) × (next ≡ enter to now st))
  unfolding transition
  transition_cases st to now next e = elim (Bool-cases (same_status st.status to)) [
    | inl s ↦ inl (ground (arith, s))
    | inr s ↦ elim (Bool-cases (can_transition_to st.status to)) [
      | inl c ↦ inr (c, ground (arith, s, c))
      | inr c ↦ absurd (ground (arith, s, c))
    ]
  ]

  reconcile-Grows :
      (st : ContainerState C) (stat : Option ProcStat) (now : ℕ) (saved : Result (Unit {0}))
      → 0 < now
      → Grows st (reconcile st stat now saved).0
  unfolding reconcile
  reconcile-Grows st stat now saved h = elim (Bool-cases (is_live st.status)) [
    | inr l ↦ rw l (Grows-refl st)
    | inl l ↦ elim (Bool-cases (init_is_alive st stat)) [
      | inl i ↦ rw (l, i) (Grows-refl st)
      | inr i ↦
          rw (l, i)
            record {
              forward = phase_most st.status;
              started_kept = λ n. refl;
              finished_kept = set_once-kept now st.finished_at;
              timed = λ t. record {
                started = λ q. t.started l;
                finished = λ e. set_once-set now st.finished_at h;
              };
            }
    ]
  ]

  Step-Grows : (st next : ContainerState C) → Step st next → Grows st next
  unfolding record_exit
  Step-Grows st next (moved to now h e) = elim (transition_cases st to now next e) [
    | inl same ↦ rw same (Grows-refl st)
    | inr (a, there) ↦ rw there (enter-Grows st to now h a)
  ]
  Step-Grows st next (exited x now h) = record {
    forward = omega arith;
    started_kept = λ n. refl;
    finished_kept = set_once-kept now st.finished_at;
    timed = λ t. record { started = t.started; finished = λ e. set_once-set now st.finished_at h };
  }
  Step-Grows st next (reconciled stat now saved h) = reconcile-Grows st stat now saved h

  -- Over any sequence of operations a container never goes back to an earlier phase, its start and
  -- its end are never changed once they are set, and if it had a start when live and an end when
  -- stopped it still does.
  pub Steps-Grows : (st next : ContainerState C) → Steps st next → Grows st next
  Steps-Grows st next done = Grows-refl st
  Steps-Grows st next (then_step {mid} s t) =
      Grows-trans st mid next (Steps-Grows st mid s) (Step-Grows mid next t)

  -- A stopped container stays stopped, whatever is done to it.
  pub stopped_final :
      (st next : ContainerState C) → Steps st next → st.status ≡ stopped → next.status ≡ stopped
  stopped_final st next s e =
      last next.status (rw (sym (ap phase e)) (forward_of (Steps-Grows st next s)))
    where
      forward_of : Grows st next → phase st.status ≤ phase next.status
      forward_of g = g.forward

      last : (s : Status) → 4 ≤ phase s → s ≡ stopped
      last s h = ground arith
