-- ===== src/Config/Accepted.antt =====
-- src/config.rs: what `finalize_and_validate` promises of a configuration that it accepts.
use mathlib.Core.Path.{subst}
use myrun.Prelude.{
  ℕ, ◌*◌, ◌≤◌, ◌≡◌, ◌≢◌, refl, sym, ap, ◌∙◌, Bool, true, false, List, [], ◌∷◌, ◌++◌, Option, some,
  arith,
}
use myrun.Text.{Text, codes, text_eq, starts_with, has_char}
use myrun.Error.{Result, ok, err, ◌>>=◌}
use myrun.Error.Chains.{refused, bind_ok, ok_inj}
use myrun.Floats.{Floats}
use myrun.Util.{utf8_len, validate_id}
use myrun.Seccomp
use myrun.Config.{SecurityConfig, cap_mask, ContainerConfig, set_env, env_value}
use myrun.Config.Mounts.{MountSpec}
use myrun.Config.Values.{env_value-set_env}
use myrun.Config.Validate.{
  Host, all_pass, check_name, all_host_chars, check_command, check_cwd, canonicalize, usable_rootfs,
  final_rootfs, check_mounts, check_memory, check_swap, check_cpus, check_weight, check_pids,
  net_for, check_mtu, final_hostname, final_security, finished, process_checks, resource_checks,
  finalize_and_validate,
}
use myrun.Config.Valid.{
  all-Passed, hostname_ok, memory_ok, swap_ok, cpus_ok, weight_ok, pids_ok, mtu_ok, IsNetwork,
  network_ok,
}

-- A program is named.
abbrev pub IsCommand : List Text → Type 0
IsCommand [] = ⊥
IsCommand (a ∷ args) = a ≢ []

-- What is bind mounted exists.
abbrev pub MountsPresent : Host → List MountSpec → Type 0
MountsPresent H [] = Unit {0}
MountsPresent H (m ∷ ms) =
    (text_eq m.fstype (codes "bind") ≡ true → H.present m.source ≡ true) × MountsPresent H ms

pub record IsAccepted (F : Floats) (H : Host) (require_rootfs : Bool) (c : ContainerConfig)
    : Type 0 where
  pub id_accepted : validate_id c.id ≡ ok tt
  pub name_accepted : (n : Text) → c.name ≡ some n → validate_id n ≡ ok tt
  pub hostname_short : utf8_len c.hostname ≤ 64
  pub hostname_plain : all_host_chars c.hostname ≡ true
  pub hostname_set : env_value (codes "HOSTNAME") c.env ≡ some c.hostname
  pub command_given : IsCommand c.command
  pub cwd_absolute : starts_with (b'/' ∷ []) c.cwd ≡ true
  pub rootfs_usable :
      require_rootfs ≡ true → (H.is_dir c.rootfs ≡ true) × (text_eq c.rootfs (b'/' ∷ []) ≡ false)
  pub mounts_present : MountsPresent H c.mounts
  pub memory_least : (m : ℕ) → c.resources.memory ≡ some m → 512 * 1024 ≤ m
  pub swap_least :
      (sw m : ℕ) → c.resources.memory_swap ≡ some sw → c.resources.memory ≡ some m → m ≤ sw
  pub cpus_positive :
      (x : ℕ)
      → c.resources.cpus ≡ some x
      → (Floats.is_finite F x ≡ true)
        × (Floats.above_0 F x ≡ true)
        × (Floats.above_1024 F x ≡ false)
  pub weight_range : (w : ℕ) → c.resources.cpu_weight ≡ some w → (1 ≤ w) × (w ≤ 10000)
  pub pids_least : (p : ℕ) → c.resources.pids ≡ some p → 1 ≤ p
  pub network : IsNetwork c.network c.namespaces.net
  pub mtu_range : (68 ≤ c.network.mtu) × (c.network.mtu ≤ 65535)
  pub capabilities : (mask : ℕ) × (cap_mask c.security ≡ ok mask)
  pub unconfined : c.security.privileged ≡ true → c.security.seccomp ≡ Seccomp.unconfined

-- Every step of the chain succeeds, if the chain does.
steps_ok :
    {B D E G : Type 0} (a : Result (Unit {0})) (b : Result B) (c : Result (Unit {0})) (d : Result D)
    (e : Result (Unit {0})) (f : Result E) (put : B → D → G) (g : G)
    → (a >>= λ _. b >>= λ y. c >>= λ _. d >>= λ w. e >>= λ _. f >>= λ _. ok (put y w)) ≡ ok g
    → (y : B) × (w : D) × (v : E) × (a ≡ ok tt)
      × (b ≡ ok y)
      × (c ≡ ok tt)
      × (d ≡ ok w)
      × (e ≡ ok tt)
      × (f ≡ ok v)
      × (put y w ≡ g)
steps_ok (ok _) (ok y) (ok _) (ok w) (ok _) (ok v) put g h =
    (y, w, v, refl, refl, refl, refl, refl, refl, ok_inj (put y w) g h)
steps_ok (err _) b c d e f put g h = absurd (refused h)
steps_ok (ok _) (err _) c d e f put g h = absurd (refused h)
steps_ok (ok _) (ok _) (err _) d e f put g h = absurd (refused h)
steps_ok (ok _) (ok _) (ok _) (err _) e f put g h = absurd (refused h)
steps_ok (ok _) (ok _) (ok _) (ok _) (err _) f put g h = absurd (refused h)
steps_ok (ok _) (ok _) (ok _) (ok _) (ok _) (err _) put g h = absurd (refused h)

name_ok : (o : Option Text) → check_name o ≡ ok tt → (n : Text) → o ≡ some n → validate_id n ≡ ok tt
unfolding check_name
name_ok o p n e = sym (ap check_name e) ∙ p

IsCommand-ok : (args : List Text) → check_command args ≡ ok tt → IsCommand args
unfolding check_command text_eq
IsCommand-ok [] p = absurd (refused p)
IsCommand-ok (a ∷ args) p = λ e. refused (sym (ap (λ a. check_command (a ∷ args)) e) ∙ p)

cwd_ok : (cwd : Text) → check_cwd cwd ≡ ok tt → starts_with (b'/' ∷ []) cwd ≡ true
unfolding check_cwd
cwd_ok cwd p = ground (arith, p)

mounts_ok : (H : Host) (ms : List MountSpec) → check_mounts H ms ≡ ok tt → MountsPresent H ms
unfolding check_mounts
mounts_ok H [] p = tt
mounts_ok H (m ∷ ms) p = ((λ b. ground (arith, p, b)), mounts_ok H ms (ground (arith, p)))

usable_ok :
    (H : Host) (canon rootfs : Text)
    → usable_rootfs H canon ≡ ok rootfs
    → (H.is_dir rootfs ≡ true) × (text_eq rootfs (b'/' ∷ []) ≡ false)
unfolding usable_rootfs
usable_ok H canon rootfs p =
    let d : H.is_dir canon ≡ true = ground (arith, p) in
    let t : text_eq canon (b'/' ∷ []) ≡ false = ground (arith, p) in
    let e : canon ≡ rootfs = ok_inj canon rootfs (ground (arith, p, d, t)) in
    (sym (ap H.is_dir e) ∙ d, sym (ap (λ r. text_eq r (b'/' ∷ [])) e) ∙ t)

rootfs_ok :
    (H : Host) (given rootfs : Text)
    → final_rootfs H true given ≡ ok rootfs
    → (H.is_dir rootfs ≡ true) × (text_eq rootfs (b'/' ∷ []) ≡ false)
unfolding final_rootfs
rootfs_ok H given rootfs p =
    let (canon, q, r) =
      bind_ok (canonicalize H given) (usable_rootfs H) rootfs (ground (arith, p)) in
    usable_ok H canon rootfs r

cap_ok :
    (s : SecurityConfig) (mask : ℕ) → cap_mask s ≡ ok mask → cap_mask (final_security s) ≡ ok mask
unfolding cap_mask
cap_ok s mask p = p

no_equals : has_char b'=' (codes "HOSTNAME") ≡ false
unfolding codes has_char
no_equals = refl

hostname_text : (h : Text) → codes "HOSTNAME=" ++ h ≡ codes "HOSTNAME" ++ b'=' ∷ h
unfolding codes
hostname_text h = refl

hostname_found :
    (h : Text) (env : List Text)
    → env_value (codes "HOSTNAME") (set_env (codes "HOSTNAME=" ++ h) env) ≡ some h
hostname_found h env =
    ap (λ kv. env_value (codes "HOSTNAME") (set_env kv env)) (hostname_text h)
    ∙ env_value-set_env (codes "HOSTNAME") h env no_equals

-- An accepted configuration is one that a container can be made of.
pub finalize-IsAccepted :
    (F : Floats) (H : Host) (require_rootfs : Bool) (c final : ContainerConfig)
    → finalize_and_validate F H require_rootfs c ≡ ok final
    → IsAccepted F H require_rootfs final
unfolding finalize_and_validate
finalize-IsAccepted F H require_rootfs c final h =
    let (rootfs, net, mask, process, r, resources, n, m, cap, e) =
      steps_ok (all_pass (process_checks H c)) (final_rootfs H require_rootfs c.rootfs)
        (all_pass (resource_checks F H c)) (net_for c.network.mode c.network c.namespaces.net)
        (check_mtu c.network.mtu) (cap_mask c.security) (finished H c) final h in
    let (id, (name, (hostname, (command, (cwd, _))))) = all-Passed (process_checks H c) process in
    let (mounts, (memory, (swap, (cpus, (weight, (pids, _)))))) =
      all-Passed (resource_checks F H c) resources in
    let (short, plain) = hostname_ok (final_hostname H c) hostname in
    subst (IsAccepted F H require_rootfs) e record {
      id_accepted = id;
      name_accepted = name_ok c.name name;
      hostname_short = short;
      hostname_plain = plain;
      hostname_set = hostname_found (final_hostname H c) c.env;
      command_given = IsCommand-ok c.command command;
      cwd_absolute = cwd_ok c.cwd cwd;
      rootfs_usable =
          λ t. rootfs_ok H c.rootfs rootfs (sym (ap (λ b. final_rootfs H b c.rootfs) t) ∙ r);
      mounts_present = mounts_ok H c.mounts mounts;
      memory_least = λ x q. memory_ok x (sym (ap check_memory q) ∙ memory);
      swap_least = λ sw x p q. swap_ok sw x (
          sym (ap (λ o. check_swap o (some x)) p)
          ∙ sym (ap (check_swap c.resources.memory_swap) q)
          ∙ swap);
      cpus_positive = λ x q. cpus_ok F x (sym (ap (check_cpus F) q) ∙ cpus);
      weight_range = λ w q. weight_ok w (sym (ap check_weight q) ∙ weight);
      pids_least = λ x q. pids_ok x (sym (ap check_pids q) ∙ pids);
      network = network_ok c.network.mode c.network c.namespaces.net net refl n;
      mtu_range = mtu_ok c.network.mtu m;
      capabilities = (mask, cap_ok c.security mask cap);
      unconfined = λ p. rw p refl;
    }
