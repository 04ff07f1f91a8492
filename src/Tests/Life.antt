-- ===== src/Tests/Life.antt =====
-- src/runtime/state.rs on concrete inputs.
use myrun.Prelude.{ℕ, ◌≡◌, refl, true, false, [], ◌∷◌, none, some, arith}
use myrun.Text.{Text, text_eq, starts_with}
use myrun.Error.{Error, ok, err}
use myrun.Process.Stat.{process_alive}
use myrun.State.{
  Status, creating, created, running, stopped, is_live, can_transition_to, same_status,
  NetworkState, ContainerState, enter, transition, init_is_alive, reconcile, disappeared,
}
use myrun.State.Machine.{reconcile_settles}
use myrun.State.History.{Steps, moved, done, then_step, Grows, Steps-Grows}
use myrun.Store.{
  text_ltb, Store, look, exists, load, put, save, create, resolve, search_ids, holds_name, ids,
  sort, insert, name_user,
}
use myrun.Store.Create.{create_refused}
use myrun.Store.Resolve.{Means, resolve_sound}

abbrev network : NetworkState
network = record {
  mode = [];
  bridge = none;
  host_veth = none;
  container_veth = none;
  ip = some (49 ∷ []);
  prefix = 24;
  gateway = none;
  published = record { host_port = 8080; container_port = 80; protocol = [] } ∷ [];
}

-- A container with status `s`, `t` the time of its start and `f` that of its end.
abbrev container : Text → Status → ℕ → ℕ → ContainerState ℕ
container id s t f = record {
  id = id;
  name = some (119 ∷ []);
  status = s;
  init_pid = 42;
  init_start_time = 0;
  shim_pid = 0;
  created_at = 5;
  started_at = t;
  finished_at = f;
  exit_code = none;
  exit_signal = none;
  oom_killed = false;
  error = none;
  cgroup_path = none;
  network = network;
  config = 0;
}

abbrev web : Text
web = 97 ∷ 98 ∷ []

to_stopped : Steps (container web created 0 0) (container web stopped 7 9)
unfolding transition enter can_transition_to same_status
to_stopped =
    then_step {mid = container web running 7 0}
      (then_step {mid = container web created 0 0} done (moved running 7 (omega arith) refl))
      (moved stopped 9 (omega arith) refl)

Steps-Grows_example : Grows (container web created 0 0) (container web stopped 7 9)
Steps-Grows_example = Steps-Grows (container web created 0 0) (container web stopped 7 9) to_stopped

stays : Steps (container web stopped 7 9) (container web stopped 7 9)
unfolding transition same_status
stays = then_step done (moved stopped 11 (omega arith) refl)

abbrev corrected : ContainerState ℕ
corrected = record (container web stopped 7 9) { error = some disappeared }

reconcile_settles_example :
    (is_live running ≡ true)
    × (init_is_alive (container web running 7 0) none ≡ false)
    × (stopped ≡ stopped)
    × (reconcile corrected none 12 (ok tt) ≡ (corrected, ok false))
unfolding reconcile is_live init_is_alive process_alive
reconcile_settles_example =
    reconcile_settles (container web running 7 0) corrected none none 9 12 (ok tt) (ok tt) refl

abbrev two_containers : Store ℕ
two_containers =
    (97 ∷ 98 ∷ [], ok (record (container web running 7 0) { name = none }))
    ∷ (98 ∷ [], err (Error.parse []))
    ∷ []

abbrev other : ContainerState ℕ
other = container (97 ∷ 99 ∷ []) creating 0 0

create_refused_example : two_containers ≡ two_containers
unfolding create save put exists look text_eq ids sort insert name_user holds_name load text_ltb
create_refused_example =
    create_refused (λ s. ok s) two_containers two_containers none (some (Error.io [])) none other
      (Error.io []) refl

resolve_sound_example : (exists two_containers web ≡ true) × Means two_containers (97 ∷ []) web
unfolding resolve search_ids starts_with exists look text_eq ids sort insert text_ltb holds_name
    load
resolve_sound_example = resolve_sound two_containers none (97 ∷ []) web refl
