-- ===== src/State/Plain.antt =====
-- src/runtime/state.rs: the JSON form of a storable state has no floats, and its integers fit.
use mathlib.Core.Path.{subst}
use myrun.Prelude.{
  ℕ, ◌^◌, ◌<◌, ◌≡◌, sym, inl, inr, List, [], ◌∷◌, Option, none, some, arith, if◌then◌else◌,
  Bool-cases,
}
use myrun.Text.{Text, codes, text_eq}
use myrun.Json.{Json, Fields, set, set_field, strings, strings_items}
use myrun.Json.Objects.{set_all, text_or_null, number_or_null, Small}
use myrun.Json.Pieces.{IsPlain, ArePlain, FieldsPlain}
use myrun.Config.{Resources, NetworkConfig, SecurityConfig, Namespaces, ContainerConfig}
use myrun.Config.Ports.{PortMapping, port_json, ports_json}
use myrun.Config.Mounts.{MountSpec, mount_json, mounts_json}
use myrun.Config.Codec.{
  float_or_null, resources_json, network_json, user_json, security_json, namespaces_json,
}
use myrun.Config.Document.{config_json, set_labels}
use myrun.Config.Restore.{IsStorableResources, IsStorableNetwork}
use myrun.Config.RoundTrip.{IsStorable}
use myrun.State.{NetworkState, ContainerState}
use myrun.State.Network
use myrun.State.Network.{Ports}
use myrun.State.Record.{state_json, IsStorableState, sign_extend, signed_or_null, Fits32}

strings-ArePlain : (ss : List Text) → ArePlain (strings_items ss)
unfolding IsPlain strings_items
strings-ArePlain [] = tt
strings-ArePlain (s ∷ ss) = (tt, strings-ArePlain ss)

text_or_null-IsPlain : (o : Option Text) → IsPlain (text_or_null o)
unfolding IsPlain
text_or_null-IsPlain none = tt
text_or_null-IsPlain (some s) = tt

number_or_null-IsPlain : (o : Option ℕ) → Small o → IsPlain (number_or_null o)
unfolding IsPlain
number_or_null-IsPlain none h = tt
number_or_null-IsPlain (some n) h = omega (arith, h)

signed_or_null-IsPlain : (o : Option ℕ) → Fits32 o → IsPlain (signed_or_null o)
unfolding IsPlain
signed_or_null-IsPlain none h = tt
signed_or_null-IsPlain (some n) h = ground (arith, h)

extended-IsPlain : (n : ℕ) → n < 2 ^ 32 → IsPlain (Json.int (sign_extend n))
unfolding IsPlain
extended-IsPlain n h = ground (arith, h)

Ports-ArePlain : (ps : List PortMapping) → Ports ps → ArePlain (ports_json ps)
unfolding IsPlain ports_json port_json set set_field text_eq codes
Ports-ArePlain [] v = tt
Ports-ArePlain (p ∷ ps) (h, c, v) =
    ((omega (arith, h), (omega (arith, c), (tt, tt))), Ports-ArePlain ps v)

mounts-ArePlain : (ms : List MountSpec) → ArePlain (mounts_json ms)
unfolding IsPlain mounts_json mount_json set_all set set_field text_eq codes
mounts-ArePlain [] = tt
mounts-ArePlain (m ∷ ms) = ((tt, (tt, (tt, (tt, tt)))), mounts-ArePlain ms)

set_field-FieldsPlain :
    (k v : Text) (m : Fields) → FieldsPlain m → FieldsPlain (set_field k (Json.str v) m)
unfolding IsPlain set_field
set_field-FieldsPlain k v Fields.end h = (tt, tt)
set_field-FieldsPlain k v (Fields.field j w m) h = elim (Bool-cases (text_eq j k)) [
  | inl e ↦
      subst
        (λ b. FieldsPlain (
          if b
          then Fields.field j (Json.str v) m
          else Fields.field j w (set_field k (Json.str v) m)))
        (sym e) (tt, h.1)
  | inr e ↦
      subst
        (λ b. FieldsPlain (
          if b
          then Fields.field j (Json.str v) m
          else Fields.field j w (set_field k (Json.str v) m)))
        (sym e) (h.0, set_field-FieldsPlain k v m h.1)
]

labels-IsPlain :
    (ls : List (Text × Text)) (m : Fields) → FieldsPlain m → IsPlain (set_labels ls (Json.obj m))
unfolding set_labels set IsPlain
labels-IsPlain [] m h = h
labels-IsPlain ((k, v) ∷ ls) m h =
    labels-IsPlain ls (set_field k (Json.str v) m) (set_field-FieldsPlain k v m h)

resources-IsPlain :
    (r : Resources) → IsStorableResources r → r.cpus ≡ none → IsPlain (resources_json r)
unfolding IsPlain resources_json set_all set set_field text_eq codes
resources-IsPlain r (a, b, c, d) e = (
  number_or_null-IsPlain r.memory a,
  (
    number_or_null-IsPlain r.memory_swap b,
    (
      subst (λ o. IsPlain (float_or_null o)) (sym e) tt,
      (number_or_null-IsPlain r.cpu_weight c, (number_or_null-IsPlain r.pids d, tt)),
    ),
  ),
)

network-IsPlain : (n : NetworkConfig) → IsStorableNetwork n → IsPlain (network_json n)
unfolding IsPlain network_json set_all set set_field strings text_eq codes
network-IsPlain n (m, v) = (
  tt,
  (
    tt,
    (
      tt,
      (
        text_or_null-IsPlain n.ip,
        (
          text_or_null-IsPlain n.gateway,
          (omega (arith, m), (Ports-ArePlain n.publish v, (tt, (strings-ArePlain n.dns, tt)))),
        ),
      ),
    ),
  ),
)

user-IsPlain : (u : Option (ℕ × ℕ)) → IsPlain (user_json u)
unfolding IsPlain
user-IsPlain none = tt
user-IsPlain (some u) = tt

security-IsPlain : (s : SecurityConfig) → IsPlain (security_json s)
unfolding IsPlain security_json set_all set set_field strings text_eq codes
security-IsPlain s = (
  tt,
  (
    strings-ArePlain s.cap_add,
    (
      strings-ArePlain s.cap_drop,
      (
        tt,
        (
          strings-ArePlain s.masked_paths,
          (strings-ArePlain s.readonly_paths, (user-IsPlain s.user, (tt, tt))),
        ),
      ),
    ),
  ),
)

namespaces-IsPlain : (n : Namespaces) → IsPlain (namespaces_json n)
unfolding IsPlain namespaces_json set_all set set_field text_eq codes
namespaces-IsPlain n = (tt, (tt, (tt, (tt, (tt, (tt, tt))))))

config-IsPlain :
    (c : ContainerConfig) → IsStorable c → c.resources.cpus ≡ none → IsPlain (config_json c)
unfolding IsPlain config_json set_all set set_field strings text_eq codes
config-IsPlain c v e = (
  tt,
  (
    text_or_null-IsPlain c.name,
    (
      tt,
      (
        strings-ArePlain c.command,
        (
          strings-ArePlain c.env,
          (
            tt,
            (
              tt,
              (
                tt,
                (
                  tt,
                  (
                    mounts-ArePlain c.mounts,
                    (
                      resources-IsPlain c.resources v.resources_fit e,
                      (
                        network-IsPlain c.network v.network_fit,
                        (
                          security-IsPlain c.security,
                          (
                            namespaces-IsPlain c.namespaces,
                            (labels-IsPlain c.labels Fields.end tt, tt),
                          ),
                        ),
                      ),
                    ),
                  ),
                ),
              ),
            ),
          ),
        ),
      ),
    ),
  ),
)

state_network-IsPlain :
    (n : NetworkState) → n.prefix < 2 ^ 8 → Ports n.published → IsPlain (Network.network_json n)
unfolding IsPlain Network.network_json set_all set set_field text_eq codes
state_network-IsPlain n h v = (
  tt,
  (
    text_or_null-IsPlain n.bridge,
    (
      text_or_null-IsPlain n.host_veth,
      (
        text_or_null-IsPlain n.container_veth,
        (
          text_or_null-IsPlain n.ip,
          (omega (arith, h), (text_or_null-IsPlain n.gateway, (Ports-ArePlain n.published v, tt))),
        ),
      ),
    ),
  ),
)

pub state-IsPlain :
    (st : ContainerState ContainerConfig)
    → IsStorableState st
    → st.config.resources.cpus ≡ none
    → IsPlain (state_json st)
unfolding IsPlain state_json set_all set set_field text_eq codes
state-IsPlain st v e =
    let (start, created, started, finished) = v.times_fit in
    (
      tt,
      (
        text_or_null-IsPlain st.name,
        (
          tt,
          (
            extended-IsPlain st.init_pid v.init_pid_fits,
            (
              omega (arith, start),
              (
                extended-IsPlain st.shim_pid v.shim_pid_fits,
                (
                  omega (arith, created),
                  (
                    omega (arith, started),
                    (
                      omega (arith, finished),
                      (
                        signed_or_null-IsPlain st.exit_code v.code_fits,
                        (
                          signed_or_null-IsPlain st.exit_signal v.signal_fits,
                          (
                            tt,
                            (
                              text_or_null-IsPlain st.error,
                              (
                                text_or_null-IsPlain st.cgroup_path,
                                (
                                  state_network-IsPlain st.network v.prefix_fits v.published_fit,
                                  (config-IsPlain st.config v.config_storable e, tt),
                                ),
                              ),
                            ),
                          ),
                        ),
                      ),
                    ),
                  ),
                ),
              ),
            ),
          ),
        ),
      ),
    )
