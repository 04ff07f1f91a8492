-- ===== src/State/Record.antt =====
-- src/runtime/state.rs: `ContainerState::new` and the state file, `to_json` and `from_json`.
use myrun.Prelude.{
  ℕ, ◌+◌, ◌-◌, ◌%◌, ◌^◌, ◌<◌, ◌≡◌, refl, ap, false, [], ◌∷◌, Option, none, some, arith, ltb,
  if◌then◌else◌, ◌>>=?◌, or_else,
}
use myrun.Text.{codes, text_eq}
use myrun.Error.{Error, Result, ok, err, ◌>>=◌, or_fail, plain}
use myrun.Json.{Json, empty_obj, set, get, as_str, as_bool, as_i64, as_u64, set_field, get_field}
use myrun.Json.Objects.{text_or_null, set_all, text_at, bool_at, as_str-text_or_null, as_u64-small}
use myrun.Floats.{Floats, u64_of}
use myrun.Config.{ContainerConfig, NetworkMode, isolated, parse_mode, mode_name}
use myrun.Config.Document.{config_json, config_of}
use myrun.Config.RoundTrip.{IsStorable, config_of-config_json}
use myrun.State
use myrun.State.{Status, creating, NetworkState, ContainerState}
use myrun.State.Machine.{parse-as_str}
use myrun.State.Network.{network_json, network_of, Ports, network_of-network_json}

-- `NetworkState::default`
abbrev pub default_state : NetworkState
default_state = record {
  mode = codes "none";
  bridge = none;
  host_veth = none;
  container_veth = none;
  ip = none;
  prefix = 24;
  gateway = none;
  published = [];
}

-- `ContainerState::new`, at the time `now`
unfoldable pub new_state : ContainerConfig → ℕ → ContainerState ContainerConfig
new_state config now = record {
  id = config.id;
  name = config.name;
  status = creating;
  init_pid = 0;
  init_start_time = 0;
  shim_pid = 0;
  created_at = now;
  started_at = 0;
  finished_at = 0;
  exit_code = none;
  exit_signal = none;
  oom_killed = false;
  error = none;
  cgroup_path = none;
  network = record default_state { mode = mode_name config.network.mode };
  config = config;
}

-- `x as i64` of an `i32`: the sign bit is repeated.
abbrev pub sign_extend : ℕ → ℕ
sign_extend n = if ltb n (2 ^ 31) then n else n + (2 ^ 64 - 2 ^ 32)

abbrev pub signed_or_null : Option ℕ → Json
signed_or_null none = Json.null
signed_or_null (some n) = Json.int (sign_extend n)

unfoldable pub state_json : ContainerState ContainerConfig → Json
state_json st =
    set_all
      ((codes "id", Json.str st.id)
        ∷ (codes "name", text_or_null st.name)
        ∷ (codes "status", Json.str (State.as_str st.status))
        ∷ (codes "init_pid", Json.int (sign_extend st.init_pid))
        ∷ (codes "init_start_time", Json.int st.init_start_time)
        ∷ (codes "shim_pid", Json.int (sign_extend st.shim_pid))
        ∷ (codes "created_at", Json.int st.created_at)
        ∷ (codes "started_at", Json.int st.started_at)
        ∷ (codes "finished_at", Json.int st.finished_at)
        ∷ (codes "exit_code", signed_or_null st.exit_code)
        ∷ (codes "exit_signal", signed_or_null st.exit_signal)
        ∷ (codes "oom_killed", Json.bool st.oom_killed)
        ∷ (codes "error", text_or_null st.error)
        ∷ (codes "cgroup_path", text_or_null st.cgroup_path)
        ∷ (codes "network", network_json st.network)
        ∷ (codes "config", config_json st.config)
        ∷ [])
      empty_obj

-- The closures `i` and `u`, and `v as i32`.
abbrev i32_of : Floats → Option Json → Option ℕ
i32_of F o = o >>=? as_i64 (Floats.to_i64 F) >>=? λ v. some (v % 2 ^ 32)

abbrev u64_or_0 : Floats → Option Json → ℕ
u64_or_0 F o = or_else (o >>=? as_u64 (u64_of F)) 0

unfoldable pub state_of : Floats → Json → Result (ContainerState ContainerConfig)
state_of F j = do
  config_part ←
      or_fail (get j (codes "config")) (Error.parse (plain "state file has no config section"))
  config ← config_of F config_part
  id ← or_fail (text_at j (codes "id")) (Error.parse (plain "state file has no id"))
  status ← State.parse (or_else (text_at j (codes "status")) (codes "stopped"))
  ok record {
    id = id;
    name = text_at j (codes "name");
    status = status;
    init_pid = or_else (i32_of F (get j (codes "init_pid"))) 0;
    init_start_time = u64_or_0 F (get j (codes "init_start_time"));
    shim_pid = or_else (i32_of F (get j (codes "shim_pid"))) 0;
    created_at = u64_or_0 F (get j (codes "created_at"));
    started_at = u64_or_0 F (get j (codes "started_at"));
    finished_at = u64_or_0 F (get j (codes "finished_at"));
    exit_code = i32_of F (get j (codes "exit_code"));
    exit_signal = i32_of F (get j (codes "exit_signal"));
    oom_killed = or_else (bool_at j (codes "oom_killed")) false;
    error = text_at j (codes "error");
    cgroup_path = text_at j (codes "cgroup_path");
    network = elim (get j (codes "network")) [
      | none ↦ default_state
      | some n ↦ network_of (u64_of F) n
    ];
    config = config;
  }

-- `ContainerState::network_mode`
abbrev pub network_mode : ContainerState ContainerConfig → NetworkMode
network_mode st = elim (parse_mode st.network.mode) [ ok m ↦ m | err e ↦ isolated ]

abbrev pub Fits32 : Option ℕ → Type 0
Fits32 none = Unit {0}
Fits32 (some n) = n < 2 ^ 32

-- The numbers fit their machine types; times are below 2 ^ 63, as `Json::Int` is signed.
pub record IsStorableState (st : ContainerState ContainerConfig) : Type 0 where
  pub config_storable : IsStorable st.config
  pub init_pid_fits : st.init_pid < 2 ^ 32
  pub shim_pid_fits : st.shim_pid < 2 ^ 32
  pub times_fit :
      (st.init_start_time < 2 ^ 63)
      × (st.created_at < 2 ^ 63)
      × (st.started_at < 2 ^ 63)
      × (st.finished_at < 2 ^ 63)
  pub code_fits : Fits32 st.exit_code
  pub signal_fits : Fits32 st.exit_signal
  pub prefix_fits : st.network.prefix < 2 ^ 8
  pub published_fit : Ports st.network.published

cut_extended : (n : ℕ) → n < 2 ^ 32 → sign_extend n % 2 ^ 32 ≡ n
cut_extended n h = ground arith

i32_of-int : (F : Floats) (n : ℕ) → n < 2 ^ 32 → i32_of F (some (Json.int (sign_extend n))) ≡ some n
unfolding as_i64
i32_of-int F n h = ap (λ m. some m) (cut_extended n h)

i32_of-signed_or_null :
    (F : Floats) (o : Option ℕ) → Fits32 o → i32_of F (some (signed_or_null o)) ≡ o
unfolding as_i64
i32_of-signed_or_null F none h = refl
i32_of-signed_or_null F (some n) h = i32_of-int F n h

u64_or_0-int : (F : Floats) (n : ℕ) → n < 2 ^ 63 → u64_or_0 F (some (Json.int n)) ≡ n
u64_or_0-int F n h = ap (λ o. or_else o 0) (as_u64-small (u64_of F) n h)

-- A state file reads back as the state that was written.
pub state_of-state_json :
    (F : Floats) (st : ContainerState ContainerConfig)
    → IsStorableState st
    → state_of F (state_json st) ≡ ok st
unfolding state_of state_json set_all set get as_str as_bool codes text_eq set_field get_field
    as_i64
state_of-state_json F st v =
    let (start, created, started, finished) = v.times_fit in
    rw
      (
        config_of-config_json F st.config v.config_storable,
        parse-as_str st.status,
        as_str-text_or_null st.name,
        as_str-text_or_null st.error,
        as_str-text_or_null st.cgroup_path,
        i32_of-signed_or_null F st.exit_code v.code_fits,
        i32_of-signed_or_null F st.exit_signal v.signal_fits,
        u64_or_0-int F st.init_start_time start,
        u64_or_0-int F st.created_at created,
        u64_or_0-int F st.started_at started,
        u64_or_0-int F st.finished_at finished,
        network_of-network_json (u64_of F) st.network v.prefix_fits v.published_fit,
      )
      (let a = cut_extended st.init_pid v.init_pid_fits in
        let b = cut_extended st.shim_pid v.shim_pid_fits in rw (a, b) refl)

-- The first state of a container can be written, if its configuration can.
pub new_state-IsStorableState :
    (c : ContainerConfig) (now : ℕ)
    → IsStorable c
    → now < 2 ^ 63
    → IsStorableState (new_state c now)
unfolding new_state
new_state-IsStorableState c now v h = record {
  config_storable = v;
  init_pid_fits = omega arith;
  shim_pid_fits = omega arith;
  times_fit = (omega arith, h, omega arith, omega arith);
  code_fits = tt;
  signal_fits = tt;
  prefix_fits = omega arith;
  published_fit = tt;
}
