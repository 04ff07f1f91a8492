-- ===== src/Config.antt =====
-- src/config.rs: the configuration of a container, its defaults and its environment.
-- A path is its text.
pub mod Ports
pub mod Mounts
pub mod Codec
pub mod Document
pub mod Restore
pub mod RoundTrip
pub mod Environment
pub mod Values
pub mod Validate
pub mod Published
pub mod Valid
pub mod Accepted
pub mod Addresses
use Prim.Native.Nat.{bit_or, bit_and}
use myrun.Prelude.{
  ℕ, ◌+◌, ◌-◌, ◌*◌, ◌%◌, ◌^◌, Bool, true, false, not, List, [], ◌∷◌, ◌++◌, Option, none, some, ◌==◌,
  if◌then◌else◌,
}
use myrun.Text.{
  Text, codes, text_eq, trim, split_once, starts_with, strip_prefix, to_ascii_lowercase,
}
use myrun.Text.Number.{parse_uint}
use myrun.Error.{Error, Result, ok, err, ◌>>=◌, or_fail, lit, quoted}
use myrun.Netlink.Address.{Ipv4, to_u32, of_u32, parse_ipv4, parse_cidr}
use myrun.Caps.{bit, cap_table, default_keep, parse_cap, add_table, resolve_keep_set}
use myrun.Seccomp.{SeccompMode, default}
use myrun.Config.Ports.{PortMapping}
use myrun.Config.Mounts.{MountSpec}

pub data NetworkMode : Type 0 where
  isolated bridged shared : NetworkMode

unfoldable pub parse_mode : Text → Result NetworkMode
parse_mode s =
    let t = to_ascii_lowercase (trim s) in
    if text_eq t (codes "none")
    then ok isolated
    else if text_eq t (codes "bridge")
    then ok bridged
    else if text_eq t (codes "host")
    then ok shared
    else err (
        Error.config
          (lit "unknown network mode " ∷ quoted t ∷ lit " (expected none|bridge|host)" ∷ []))

unfoldable pub mode_name : NetworkMode → Text
mode_name isolated = codes "none"
mode_name bridged = codes "bridge"
mode_name shared = codes "host"

-- `cpus` is a 64-bit float
pub record Resources : Type 0 where
  pub memory : Option ℕ
  pub memory_swap : Option ℕ
  pub cpus : Option ℕ
  pub cpu_weight : Option ℕ
  pub pids : Option ℕ

abbrev pub no_resources : Resources
no_resources = record {
  memory = none;
  memory_swap = none;
  cpus = none;
  cpu_weight = none;
  pids = none;
}

pub record NetworkConfig : Type 0 where
  pub mode : NetworkMode
  pub bridge : Text
  pub subnet : Text
  pub ip : Option Text
  pub gateway : Option Text
  pub mtu : ℕ
  pub publish : List PortMapping
  pub nat : Bool
  pub dns : List Text

abbrev pub default_network : NetworkConfig
default_network = record {
  mode = isolated;
  bridge = codes "myrun0";
  subnet = codes "10.87.0.0/24";
  ip = none;
  gateway = none;
  mtu = 1500;
  publish = [];
  nat = true;
  dns = codes "1.1.1.1" ∷ codes "8.8.8.8" ∷ [];
}

-- `u32::MAX << (32 - prefix)`
abbrev pub mask_of : ℕ → ℕ
mask_of prefix = if prefix == 0 then 0 else (2 ^ 32 - 1) * 2 ^ (32 - prefix) % 2 ^ 32

-- `NetworkConfig::gateway_addr`
unfoldable pub gateway_addr : NetworkConfig → Result Ipv4
gateway_addr n = elim n.gateway [
  | some g ↦ parse_ipv4 g
  | none ↦ (do
    r ← parse_cidr n.subnet
    ok (of_u32 ((bit_and (to_u32 r.0) (mask_of r.1) + 1) % 2 ^ 32)))
]

unfoldable pub in_subnet : Ipv4 → Ipv4 → ℕ → Bool
in_subnet addr net prefix =
    bit_and (to_u32 addr) (mask_of prefix) == bit_and (to_u32 net) (mask_of prefix)

pub record SecurityConfig : Type 0 where
  pub no_new_privs : Bool
  pub cap_add : List Text
  pub cap_drop : List Text
  pub seccomp : SeccompMode
  pub masked_paths : List Text
  pub readonly_paths : List Text
  pub user : Option (ℕ × ℕ)
  pub privileged : Bool

unfoldable pub default_masked_paths : List Text
default_masked_paths =
    codes "/proc/kcore"
    ∷ codes "/proc/keys"
    ∷ codes "/proc/latency_stats"
    ∷ codes "/proc/timer_list"
    ∷ codes "/proc/timer_stats"
    ∷ codes "/proc/sched_debug"
    ∷ codes "/proc/scsi"
    ∷ codes "/sys/firmware"
    ∷ codes "/sys/devices/virtual/powercap"
    ∷ []

unfoldable pub default_readonly_paths : List Text
default_readonly_paths =
    codes "/proc/bus"
    ∷ codes "/proc/fs"
    ∷ codes "/proc/irq"
    ∷ codes "/proc/sys"
    ∷ codes "/proc/sysrq-trigger"
    ∷ []

abbrev pub default_security : SecurityConfig
default_security = record {
  no_new_privs = true;
  cap_add = [];
  cap_drop = [];
  seccomp = default;
  masked_paths = default_masked_paths;
  readonly_paths = default_readonly_paths;
  user = none;
  privileged = false;
}

-- `SecurityConfig::cap_mask`
unfoldable pub cap_mask : SecurityConfig → Result ℕ
cap_mask s = if s.privileged then ok (add_table 0 cap_table) else do
  mask ← resolve_keep_set default_keep s.cap_add s.cap_drop
  elim s.user [
    | none ↦ ok mask
    | some u ↦ (do
      uid ← parse_cap (codes "SETUID")
      gid ← parse_cap (codes "SETGID")
      ok (bit_or (bit_or mask (bit uid)) (bit gid)))
  ]

-- one number of `--user`
abbrev pub user_number : Text → Text → Result ℕ
user_number part s =
    or_fail (parse_uint (2 ^ 32 - 1) (trim part))
      (Error.config (lit "--user expects numeric uid[:gid], got " ∷ quoted s ∷ []))

unfoldable pub parse_user : Text → Result (ℕ × ℕ)
parse_user s = elim (split_once b':' s) [
  | none ↦ (do uid ← user_number s s; ok (uid, uid))
  | some (u, g) ↦ (do uid ← user_number u s; gid ← user_number g s; ok (uid, gid))
]

pub record Namespaces : Type 0 where
  pub pid : Bool
  pub mount : Bool
  pub uts : Bool
  pub ipc : Bool
  pub net : Bool
  pub cgroup : Bool

abbrev pub all_namespaces : Namespaces
all_namespaces = record {
  pid = true;
  mount = true;
  uts = true;
  ipc = true;
  net = true;
  cgroup = true;
}

-- a flag of clone(2), set where the namespace is new
abbrev pub flag : Bool → ℕ → ℕ → ℕ
flag b bits f = if b then bit_or f bits else f

unfoldable pub clone_flags : Namespaces → ℕ
clone_flags n = flag n.cgroup 0x0200_0000 (
    flag n.net 0x4000_0000 (
      flag n.ipc 0x0800_0000
        (flag n.uts 0x0400_0000 (flag n.mount 0x0002_0000 (flag n.pid 0x2000_0000 0)))))

pub record ContainerConfig : Type 0 where
  pub id : Text
  pub name : Option Text
  pub rootfs : Text
  pub command : List Text
  pub env : List Text
  pub cwd : Text
  pub hostname : Text
  pub read_only : Bool
  pub mounts : List MountSpec
  pub resources : Resources
  pub network : NetworkConfig
  pub security : SecurityConfig
  pub namespaces : Namespaces
  pub detach : Bool
  pub auto_remove : Bool
  pub labels : List (Text × Text)

abbrev pub default_path : Text
default_path = codes "PATH=/usr/local/sbin:/usr/local/bin:/usr/sbin:/usr/bin:/sbin:/bin"

abbrev pub default_config : ContainerConfig
default_config = record {
  id = [];
  name = none;
  rootfs = [];
  command = [];
  env = default_path ∷ codes "TERM=xterm" ∷ [];
  cwd = codes "/";
  hostname = [];
  read_only = false;
  mounts = [];
  resources = no_resources;
  network = default_network;
  security = default_security;
  namespaces = all_namespaces;
  detach = false;
  auto_remove = false;
  labels = [];
}

-- the key of `KEY=VALUE`; all of it without an equals sign
abbrev pub key_of : Text → Text
key_of kv = elim (split_once b'=' kv) [ none ↦ kv | some (k, v) ↦ k ]

-- `retain(|e| !e.starts_with(prefix))`
unfoldable pub drop_key : Text → List Text → List Text
drop_key prefix [] = []
drop_key prefix (e ∷ es) =
    let rest = drop_key prefix es in if starts_with prefix e then rest else e ∷ rest

-- `ContainerConfig::set_env`, on the environment alone
unfoldable pub set_env : Text → List Text → List Text
unfolding drop_key
set_env kv env = drop_key (key_of kv ++ b'=' ∷ []) env ++ kv ∷ []

unfoldable pub find_key : Text → List Text → Option Text
find_key prefix [] = none
find_key prefix (e ∷ es) = elim (strip_prefix prefix e) [
  | some v ↦ some v
  | none ↦ find_key prefix es
]

unfoldable pub env_value : Text → List Text → Option Text
unfolding find_key
env_value key env = find_key (key ++ b'=' ∷ []) env
