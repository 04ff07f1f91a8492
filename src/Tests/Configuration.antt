-- ===== src/Tests/Configuration.antt =====
-- src/config.rs on concrete inputs.
use myrun.Prelude.{
  ℕ, ◌-◌, ◌/◌, ◌^◌, ◌<◌, ◌≡◌, ◌↔◌, refl, true, false, [], ◌∷◌, none, some, arith, inl,
}
use myrun.Text.{codes, text_eq, split_once, split, starts_with, trim, trim_start, is_whitespace}
use myrun.Text.Number.{is_digit, parse_uint, parse_some_digits, parse_digits}
use myrun.Error.{ok}
use myrun.Floats.{Floats}
use myrun.Util.{utf8_len, all_id_chars, validate_id}
use myrun.Json.{Json, Items, Fields, get}
use myrun.Netlink.Address.{Ipv4, to_u32, of_u32, parse_ipv4, parse_cidr}
use myrun.Ipam.{usable_range}
use myrun.Caps.{cap_table, add_table}
use myrun.Config.{
  bridged, NetworkConfig, default_network, default_security, ContainerConfig, default_config,
  gateway_addr, in_subnet, cap_mask,
}
use myrun.Config.Document.{config_json, config_of, assemble}
use myrun.Config.Environment.{IsEnvironment, default_IsEnvironment}
use myrun.Config.RoundTrip.{IsStorable, config_of-config_json, config_of-IsEnvironment}
use myrun.Config.Validate.{
  Host, finished, finalize_and_validate, all_pass, check_name, check_hostname, all_host_chars,
  check_command, check_cwd, final_rootfs, usable_rootfs, check_mounts, check_memory, check_swap,
  check_cpus, check_weight, check_pids, net_for, check_bridge, large_enough, check_ip, check_addr,
  check_ports, seen_port, check_mtu,
}
use myrun.Netlink.Address.RoundTrip.{IsAddress}
use myrun.Config.Valid.{IsBridged}
use myrun.Config.Accepted.{IsAccepted, finalize-IsAccepted}
use myrun.Config.Addresses.{in_subnet_iff, usable_range-IsBridged}

-- No text is a float here, and every float a positive one that converts to itself.
abbrev pub floats : Floats
floats = record {
  parse_f64 = λ s. none;
  show_f64 = λ x. [];
  is_finite = λ x. true;
  at_least_0 = λ x. true;
  below_0 = λ x. false;
  above_0 = λ x. true;
  above_1024 = λ x. false;
  to_u64 = λ x. x;
  to_i64 = λ x. x;
  of_i64 = λ x. x;
  times_u64 = λ x mult. x;
  quota_u64 = λ x. x;
}

abbrev network : NetworkConfig
network = record default_network {
  mode = bridged;
  publish = record { host_port = 8080; container_port = 80; protocol = codes "tcp" } ∷ [];
}

abbrev pub sample : ContainerConfig
sample = record default_config {
  id = codes "c1";
  rootfs = codes "/srv";
  command = codes "sh" ∷ [];
  mounts =
      record {
        source = codes "/data";
        destination = codes "/d";
        fstype = codes "bind";
        readonly = true;
      }
      ∷ [];
  resources = record {
    memory = some 1000000;
    memory_swap = none;
    cpus = some 2;
    cpu_weight = some 100;
    pids = some 5;
  };
  network = network;
  labels = (codes "a", codes "x") ∷ (codes "b", codes "x") ∷ [];
}

pub sample-IsStorable : IsStorable sample
unfolding codes text_eq
sample-IsStorable = record {
  environment = default_IsEnvironment;
  resources_fit = (omega arith, tt, omega arith, omega arith);
  network_fit = (omega arith, (omega arith, omega arith, tt));
  user_fit = tt;
  labels_differ = (refl, (refl, tt));
  attached = refl;
}

config_of-config_json_example : config_of floats (config_json sample) ≡ ok sample
config_of-config_json_example = config_of-config_json floats sample sample-IsStorable

abbrev document : Json
document = Json.obj (
    Fields.field (codes "env") (Json.arr (Items.cons (Json.str (codes "TERM=dumb")) Items.nil))
      Fields.end)

abbrev read_back : ContainerConfig
read_back =
    assemble document [] default_config.resources default_config.network default_config.security

read_document : config_of floats document ≡ ok read_back
unfolding config_of get codes text_eq
read_document = refl

config_of-IsEnvironment_example : IsEnvironment read_back.env
config_of-IsEnvironment_example = config_of-IsEnvironment floats document read_back read_document

-- A host on which every path is a directory and its own canonical form.
abbrev host : Host
host = record {
  fresh_id = codes "f";
  canonicalize = λ p. inl p;
  is_dir = λ p. true;
  present = λ p. true;
}

-- With all privileges, which computes no more than the table of capabilities.
abbrev privileged : ContainerConfig
privileged = record sample { security = record default_security { privileged = true } }

accepted :
    finalize_and_validate floats host true privileged
    ≡ ok (finished host privileged (codes "/srv") true)
unfolding finalize_and_validate all_pass check_name check_hostname all_host_chars check_command
    check_cwd final_rootfs usable_rootfs check_mounts check_memory check_swap check_cpus
    check_weight check_pids net_for check_bridge large_enough check_ip check_addr check_ports
    seen_port check_mtu cap_mask add_table cap_table gateway_addr validate_id utf8_len all_id_chars
    starts_with text_eq codes parse_cidr split_once parse_uint parse_some_digits parse_digits
    is_digit parse_ipv4 split trim trim_start is_whitespace to_u32 of_u32 in_subnet
accepted = refl

finalize-IsAccepted_example :
    IsAccepted floats host true (finished host privileged (codes "/srv") true)
finalize-IsAccepted_example =
    finalize-IsAccepted floats host true privileged (finished host privileged (codes "/srv") true)
      accepted

abbrev subnet_address : Ipv4
subnet_address = record { a = 10; b = 87; c = 0; d = 0 }

subnet-IsAddress : IsAddress subnet_address
subnet-IsAddress = record {
  a_byte = omega arith;
  b_byte = omega arith;
  c_byte = omega arith;
  d_byte = omega arith;
}

unfoldable is_bridged : IsBridged network
unfolding codes parse_cidr split_once parse_uint parse_some_digits parse_digits is_digit parse_ipv4
    split trim trim_start is_whitespace to_u32 of_u32 gateway_addr
is_bridged = record {
  net = subnet_address;
  prefix = 24;
  gateway = record { a = 10; b = 87; c = 0; d = 1 };
  subnet_parsed = refl;
  large = omega arith;
  gateway_parsed = refl;
  ip_in_subnet = λ ip e. absurd (ground (arith, e));
  ports_differ = (tt, tt);
}

usable_range-IsBridged_example :
    (first : ℕ) × (last : ℕ) × (usable_range network.subnet ≡ ok (first, last))
    × (first < last)
    × (network.gateway ≡ none → gateway_addr network ≡ ok (of_u32 first))
unfolding is_bridged
usable_range-IsBridged_example = usable_range-IsBridged network is_bridged subnet-IsAddress

abbrev other_address : Ipv4
other_address = record { a = 10; b = 87; c = 1; d = 9 }

other-IsAddress : IsAddress other_address
other-IsAddress = record {
  a_byte = omega arith;
  b_byte = omega arith;
  c_byte = omega arith;
  d_byte = omega arith;
}

in_subnet_iff_example :
    (in_subnet other_address subnet_address 24 ≡ true)
    ↔ (to_u32 other_address / 2 ^ (32 - 24) ≡ to_u32 subnet_address / 2 ^ (32 - 24))
in_subnet_iff_example =
    in_subnet_iff other_address subnet_address 24 other-IsAddress subnet-IsAddress (omega arith)
