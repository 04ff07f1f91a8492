-- ===== src/Config/Validate.antt =====
-- src/config.rs: `finalize_and_validate`, which fills in derived values and refuses impossible
-- configurations. The tests stand in the order of the source; a configuration that is refused is
-- not used afterwards, so that an error carries no configuration.
use myrun.Prelude.{
  ℕ, ◌*◌, Bool, true, false, not, ◌&&◌, ◌||◌, List, [], ◌∷◌, ◌++◌, Option, none, some, ◌⊎◌, inl,
  inr, ltb, leb, ◌==◌, if◌then◌else◌, or_else,
}
use myrun.Text.{Text, codes, text_eq, starts_with}
use myrun.Error.{Error, Result, ok, err, ◌>>=◌, plain, lit, shown, number, quoted}
use myrun.Floats.{Floats}
use myrun.Util.{utf8_len, between, validate_id}
use myrun.Netlink.Address.{Ipv4, ipv4_eq, parse_ipv4, format_ipv4, parse_cidr}
use myrun.Seccomp
use myrun.Seccomp.{SeccompMode}
use myrun.State.{short_id}
use myrun.Config.{
  NetworkMode, isolated, bridged, shared, NetworkConfig, gateway_addr, in_subnet, SecurityConfig,
  cap_mask, ContainerConfig, set_env,
}
use myrun.Config.Ports.{PortMapping}
use myrun.Config.Mounts.{MountSpec}

-- What the host says.
pub record Host : Type 0 where
  -- `util::generate_id()`
  pub fresh_id : Text
  -- `fs::canonicalize`: the path, or the error's text
  pub canonicalize : Text → Text ⊎ Text
  -- `is_dir` and `exists`
  pub is_dir : Text → Bool
  pub present : Text → Bool

-- Several checks in turn: the first that fails is the result.
unfoldable pub all_pass : List (Result (Unit {0})) → Result (Unit {0})
all_pass [] = ok tt
all_pass (r ∷ rs) = r >>= λ _. all_pass rs

-- refused where the condition holds
abbrev pub refuse_if : Bool → Error → Result (Unit {0})
refuse_if b e = if b then err e else ok tt

abbrev pub final_id : Host → ContainerConfig → Text
final_id H c = if text_eq c.id [] then H.fresh_id else c.id

unfoldable pub check_name : Option Text → Result (Unit {0})
check_name none = ok tt
check_name (some n) = validate_id n

abbrev pub final_hostname : Host → ContainerConfig → Text
final_hostname H c =
    if text_eq c.hostname [] then or_else c.name (short_id (final_id H c)) else c.hostname

abbrev pub is_host_char : ℕ → Bool
is_host_char c =
    between b'0' b'9' c || between b'A' b'Z' c || between b'a' b'z' c || c == b'-' || c == b'.'

unfoldable pub all_host_chars : Text → Bool
all_host_chars [] = true
all_host_chars (c ∷ s) = is_host_char c && all_host_chars s

unfoldable pub check_hostname : Text → Result (Unit {0})
unfolding all_host_chars
check_hostname h =
    if ltb 64 (utf8_len h)
    then err (Error.config (plain "hostname must be at most 64 characters"))
    else if not (all_host_chars h)
    then err (Error.config (lit "hostname " ∷ quoted h ∷ lit " contains invalid characters" ∷ []))
    else ok tt

unfoldable pub check_command : List Text → Result (Unit {0})
check_command [] = err (Error.config (plain "no command given for the container"))
check_command (a ∷ args) =
    refuse_if (text_eq a []) (Error.config (plain "container command is empty"))

unfoldable pub check_cwd : Text → Result (Unit {0})
check_cwd cwd =
    refuse_if (not (starts_with (b'/' ∷ []) cwd))
      (Error.config (lit "working directory " ∷ quoted cwd ∷ lit " must be absolute" ∷ []))

-- `util::canonicalize`
abbrev pub canonicalize : Host → Text → Result Text
canonicalize H p = elim (Host.canonicalize H p) [
  | inl canon ↦ ok canon
  | inr e ↦ err (Error.config (shown p ∷ lit ": " ∷ shown e ∷ []))
]

unfoldable pub usable_rootfs : Host → Text → Result Text
usable_rootfs H canon =
    if not (H.is_dir canon)
    then err (Error.config (lit "rootfs " ∷ shown canon ∷ lit " is not a directory" ∷ []))
    else if text_eq canon (b'/' ∷ [])
    then err (
        Error.config
          (plain "refusing to use / as a container rootfs; pivot_root would detach the host"))
    else ok canon

unfoldable pub final_rootfs : Host → Bool → Text → Result Text
unfolding usable_rootfs
final_rootfs H require_rootfs rootfs =
    if not require_rootfs
    then ok rootfs
    else if text_eq rootfs []
    then err (Error.config (plain "no rootfs given"))
    else do canon ← canonicalize H rootfs; usable_rootfs H canon

unfoldable pub check_mounts : Host → List MountSpec → Result (Unit {0})
check_mounts H [] = ok tt
check_mounts H (m ∷ ms) =
    let rest = check_mounts H ms in
    if text_eq m.fstype (codes "bind") && not (H.present m.source)
    then err (Error.config (lit "bind mount source " ∷ shown m.source ∷ lit " does not exist" ∷ []))
    else rest

unfoldable pub check_memory : Option ℕ → Result (Unit {0})
check_memory none = ok tt
check_memory (some mem) = refuse_if (ltb mem (512 * 1024)) (
    Error.config (
      plain
        "memory limit must be at least 512k; smaller values make the kernel OOM-kill the container immediately"))

unfoldable pub check_swap : Option ℕ → Option ℕ → Result (Unit {0})
check_swap (some sw) (some mem) =
    refuse_if (ltb sw mem)
      (Error.config (plain "memory-swap must be greater than or equal to memory"))
check_swap none mem = ok tt
check_swap sw none = ok tt

unfoldable pub check_cpus : Floats → Option ℕ → Result (Unit {0})
check_cpus F none = ok tt
check_cpus F (some x) =
    if not (Floats.is_finite F x && Floats.above_0 F x)
    then err (Error.config (plain "--cpus must be a positive number"))
    else refuse_if (Floats.above_1024 F x)
        (Error.config (plain "--cpus is absurdly large (max 1024)"))

unfoldable pub check_weight : Option ℕ → Result (Unit {0})
check_weight none = ok tt
check_weight (some w) =
    refuse_if (not (leb 1 w && leb w 10000))
      (Error.config (plain "--cpu-weight must be between 1 and 10000"))

unfoldable pub check_pids : Option ℕ → Result (Unit {0})
check_pids none = ok tt
check_pids (some p) = refuse_if (ltb p 1) (Error.config (plain "--pids must be at least 1"))

-- `--ip`, against the subnet and the gateway
unfoldable pub check_addr : NetworkConfig → Ipv4 × ℕ → Ipv4 → Ipv4 → Result (Unit {0})
check_addr n net gw addr =
    if not (in_subnet addr net.0 net.1)
    then err (
        Error.config (
          lit "--ip " ∷ shown (format_ipv4 addr) ∷ lit " is outside subnet " ∷ shown n.subnet ∷ []))
    else if ipv4_eq addr gw
    then err (
        Error.config (
          lit "--ip "
          ∷ shown (format_ipv4 addr)
          ∷ lit " collides with the bridge gateway address"
          ∷ []))
    else ok tt

unfoldable pub check_ip : NetworkConfig → Ipv4 × ℕ → Ipv4 → Result (Unit {0})
unfolding check_addr
check_ip n net gw = elim n.ip [ none ↦ ok tt | some ip ↦ parse_ipv4 ip >>= check_addr n net gw ]

-- `seen.contains(&key)`
unfoldable pub seen_port : PortMapping → List PortMapping → Bool
seen_port p [] = false
seen_port p (q ∷ seen) =
    (q.host_port == p.host_port && text_eq q.protocol p.protocol) || seen_port p seen

-- The entries of `seen` are in the order in which they were pushed.
unfoldable pub check_ports : List PortMapping → List PortMapping → Result (Unit {0})
unfolding seen_port
check_ports seen [] = ok tt
check_ports seen (p ∷ ps) =
    let rest = check_ports (seen ++ p ∷ []) ps in
    if seen_port p seen
    then err (
        Error.config (
          lit "host port "
          ∷ number p.host_port
          ∷ lit "/"
          ∷ shown p.protocol
          ∷ lit " is published twice"
          ∷ []))
    else rest

unfoldable pub large_enough : NetworkConfig → Ipv4 × ℕ → Result Ipv4
large_enough n net =
    if ltb 30 net.1
    then err (
        Error.config
          (plain "bridge subnet must be /30 or larger to hold a gateway and a container"))
    else gateway_addr n

unfoldable pub check_bridge : NetworkConfig → Result (Unit {0})
unfolding all_pass check_ip check_ports large_enough
check_bridge n = do
  net ← parse_cidr n.subnet
  gw ← large_enough n net
  all_pass (check_ip n net gw ∷ check_ports [] n.publish ∷ [])

abbrev pub none_published : List PortMapping → Bool
none_published [] = true
none_published (p ∷ ps) = false

-- The result is whether there is a network namespace of the container's own.
unfoldable pub net_for : NetworkMode → NetworkConfig → Bool → Result Bool
unfolding check_bridge
net_for shared n net =
    if not (none_published n.publish)
    then err (
        Error.config (
          plain
            "--publish is meaningless with --network host; the container already shares host ports"))
    else ok false
net_for isolated n net =
    if not (none_published n.publish)
    then err (Error.config (plain "--publish requires --network bridge"))
    else ok net
net_for bridged n net =
    if not net
    then err (Error.config (plain "--network bridge requires a network namespace"))
    else (do _ ← check_bridge n; ok net)

unfoldable pub check_mtu : ℕ → Result (Unit {0})
check_mtu mtu =
    refuse_if (ltb mtu 68 || ltb 65535 mtu)
      (Error.config (plain "--mtu must be between 68 and 65535"))

-- A privileged container has no system call filter.
abbrev pub final_security : SecurityConfig → SecurityConfig
final_security s = record s { seccomp = if s.privileged then Seccomp.unconfined else s.seccomp }

abbrev pub finished : Host → ContainerConfig → Text → Bool → ContainerConfig
finished H c rootfs net = record c {
  id = final_id H c;
  hostname = final_hostname H c;
  env = set_env (codes "HOSTNAME=" ++ final_hostname H c) c.env;
  rootfs = rootfs;
  namespaces = record c.namespaces { net = net };
  security = final_security c.security;
}

abbrev pub process_checks : Host → ContainerConfig → List (Result (Unit {0}))
process_checks H c =
    validate_id (final_id H c)
    ∷ check_name c.name
    ∷ check_hostname (final_hostname H c)
    ∷ check_command c.command
    ∷ check_cwd c.cwd
    ∷ []

abbrev pub resource_checks : Floats → Host → ContainerConfig → List (Result (Unit {0}))
resource_checks F H c =
    check_mounts H c.mounts
    ∷ check_memory c.resources.memory
    ∷ check_swap c.resources.memory_swap c.resources.memory
    ∷ check_cpus F c.resources.cpus
    ∷ check_weight c.resources.cpu_weight
    ∷ check_pids c.resources.pids
    ∷ []

unfoldable pub finalize_and_validate :
    Floats → Host → Bool → ContainerConfig → Result ContainerConfig
unfolding all_pass final_rootfs net_for check_name check_hostname check_command check_cwd
    check_mounts check_memory check_swap check_cpus check_weight check_pids check_mtu
finalize_and_validate F H require_rootfs c = do
  _ ← all_pass (process_checks H c)
  rootfs ← final_rootfs H require_rootfs c.rootfs
  _ ← all_pass (resource_checks F H c)
  net ← net_for c.network.mode c.network c.namespaces.net
  _ ← check_mtu c.network.mtu
  _ ← cap_mask c.security
  ok (finished H c rootfs net)
