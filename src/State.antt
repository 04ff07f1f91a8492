-- ===== src/State.antt =====
-- src/runtime/state.rs: a container's state machine.
-- The configuration is carried along unread, so its type is an argument. The clock's reading
-- (`now_ms()`) and what /proc says of the init process are arguments. Logging is left out.
pub mod Machine
pub mod History
pub mod Network
pub mod Record
pub mod Plain
pub mod Stored
use myrun.Prelude.{
  ℕ, ◌-◌, ◌^◌, Bool, true, false, not, ◌||◌, List, [], ◌∷◌, Option, none, some, ltb, leb, ◌==◌,
  if◌then◌else◌, take,
}
use myrun.Text.{Text, codes, text_eq}
use myrun.Error.{Error, Result, ok, err, ◌>>=◌, lit, shown, quoted}
use myrun.Config.Ports.{PortMapping}
use myrun.Process
use myrun.Process.{ExitStatus}
use myrun.Process.Stat.{ProcStat, process_alive}

pub data Status : Type 0 where
  creating created running paused stopping stopped : Status

unfoldable pub as_str : Status → Text
as_str creating = codes "creating"
as_str created = codes "created"
as_str running = codes "running"
as_str paused = codes "paused"
as_str stopping = codes "stopping"
as_str stopped = codes "stopped"

unfoldable pub parse : Text → Result Status
parse s =
    if text_eq s (codes "creating")
    then ok creating
    else if text_eq s (codes "created")
    then ok created
    else if text_eq s (codes "running")
    then ok running
    else if text_eq s (codes "paused")
    then ok paused
    else if text_eq s (codes "stopping")
    then ok stopping
    else if text_eq s (codes "stopped")
    then ok stopped
    else err (Error.parse (lit "unknown container status " ∷ quoted s ∷ []))

unfoldable pub is_live : Status → Bool
is_live running = true
is_live paused = true
is_live stopping = true
is_live _ = false

unfoldable pub can_transition_to : Status → Status → Bool
can_transition_to creating created = true
can_transition_to creating stopped = true
can_transition_to created running = true
can_transition_to created stopped = true
can_transition_to running paused = true
can_transition_to running stopping = true
can_transition_to running stopped = true
can_transition_to paused running = true
can_transition_to paused stopping = true
can_transition_to paused stopped = true
can_transition_to stopping stopped = true
can_transition_to _ _ = false

-- `PartialEq` on `Status`
unfoldable pub same_status : Status → Status → Bool
same_status creating creating = true
same_status created created = true
same_status running running = true
same_status paused paused = true
same_status stopping stopping = true
same_status stopped stopped = true
same_status _ _ = false

pub record NetworkState : Type 0 where
  pub mode : Text
  pub bridge : Option Text
  pub host_veth : Option Text
  pub container_veth : Option Text
  pub ip : Option Text
  pub prefix : ℕ
  pub gateway : Option Text
  pub published : List PortMapping

pub record ContainerState (C : Type 0) : Type 0 where
  pub id : Text
  pub name : Option Text
  pub status : Status
  pub init_pid : ℕ
  pub init_start_time : ℕ
  pub shim_pid : ℕ
  pub created_at : ℕ
  pub started_at : ℕ
  pub finished_at : ℕ
  pub exit_code : Option ℕ
  pub exit_signal : Option ℕ
  pub oom_killed : Bool
  pub error : Option Text
  pub cgroup_path : Option Text
  pub network : NetworkState
  pub config : C

-- `util::short_id`
abbrev pub short_id : Text → Text
short_id id = take 12 id

-- A time that is set once.
abbrev pub set_once : ℕ → ℕ → ℕ
set_once now t = if t == 0 then now else t

abbrev pub disappeared : Text
disappeared = codes "init process disappeared without recording an exit status"

module _ {C : Type 0} where
  unfoldable pub enter : Status → ℕ → ContainerState C → ContainerState C
  enter running now st = record st { status = running; started_at = set_once now st.started_at }
  enter stopped now st = record st { status = stopped; finished_at = set_once now st.finished_at }
  enter next now st = record st { status = next }

  -- On an error the state is the one before.
  unfoldable pub transition : ContainerState C → Status → ℕ → Result (ContainerState C)
  unfolding enter
  transition st next now =
      if same_status st.status next
      then ok st
      else if not (can_transition_to st.status next)
      then err (
          Error.invalid_state (
            lit "container "
            ∷ shown (short_id st.id)
            ∷ lit " cannot go from "
            ∷ shown (as_str st.status)
            ∷ lit " to "
            ∷ shown (as_str next)
            ∷ []))
      else ok (enter next now st)

  unfoldable pub record_exit : ContainerState C → ExitStatus → ℕ → ContainerState C
  record_exit st x now = record st {
    exit_code = x.code;
    exit_signal = x.signal;
    finished_at = set_once now st.finished_at;
  }

  unfoldable pub effective_exit_code : ContainerState C → ℕ
  effective_exit_code st = Process.exit_code record { code = st.exit_code; signal = st.exit_signal }

  -- `stat` is what /proc/<init_pid>/stat reads as.
  unfoldable pub init_is_alive : ContainerState C → Option ProcStat → Bool
  init_is_alive st stat =
      if st.init_pid == 0 || leb (2 ^ 31) st.init_pid
      then false
      else process_alive stat (if st.init_start_time == 0 then none else some st.init_start_time)

  unfoldable pub uptime_ms : ContainerState C → ℕ → ℕ
  uptime_ms st now =
      if st.started_at == 0
      then 0
      else (if ltb 0 st.finished_at then st.finished_at else now) - st.started_at

  -- `saved` is what `save` answers. The state is changed also when it fails.
  unfoldable pub reconcile :
      ContainerState C → Option ProcStat → ℕ → Result (Unit {0}) → ContainerState C × Result Bool
  unfolding init_is_alive
  reconcile st stat now saved =
      if not (is_live st.status)
      then (st, ok false)
      else if init_is_alive st stat
      then (st, ok false)
      else (
        record st {
          status = stopped;
          finished_at = set_once now st.finished_at;
          error = elim st.error [ none ↦ some disappeared | some e ↦ some e ];
        },
        saved >>= λ _. ok true,
      )
