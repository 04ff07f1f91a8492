-- ===== src/Config/Valid.antt =====
-- src/config.rs: what `finalize_and_validate` promises of a configuration that it accepts.
use myrun.Prelude.{
  ℕ, ◌*◌, ◌≤◌, ◌≡◌, refl, sym, ap, ◌∙◌, Bool, true, false, List, [], ◌∷◌, Option, none, some, arith,
}
use myrun.Text.{Text}
use myrun.Error.{Result, ok, err, ◌>>=◌}
use myrun.Error.Chains.{refused, bind_ok}
use myrun.Floats.{Floats}
use myrun.Util.{utf8_len}
use myrun.Netlink.Address.{Ipv4, ipv4_eq, parse_ipv4, parse_cidr}
use myrun.Config.{NetworkMode, isolated, bridged, shared, NetworkConfig, gateway_addr, in_subnet}
use myrun.Config.Ports.{PortMapping}
use myrun.Config.Published.{DistinctPorts, check_ports_distinct}
use myrun.Config.Validate.{
  all_pass, all_host_chars, check_hostname, check_memory, check_swap, check_cpus, check_weight,
  check_pids, check_ip, check_ports, large_enough, check_bridge, net_for, none_published, check_mtu,
  check_addr,
}

all_pass_cons :
    (r : Result (Unit {0})) (rs : List (Result (Unit {0})))
    → all_pass (r ∷ rs) ≡ ok tt
    → (r ≡ ok tt) × (all_pass rs ≡ ok tt)
unfolding all_pass
all_pass_cons (ok u) rs h = (refl, h)
all_pass_cons (err e) rs h = absurd (refused h)

abbrev pub Passed : List (Result (Unit {0})) → Type 0
Passed [] = Unit {0}
Passed (r ∷ rs) = (r ≡ ok tt) × Passed rs

pub all-Passed : (rs : List (Result (Unit {0}))) → all_pass rs ≡ ok tt → Passed rs
all-Passed [] h = tt
all-Passed (r ∷ rs) h = let (p, q) = all_pass_cons r rs h in (p, all-Passed rs q)

pub hostname_ok :
    (h : Text) → check_hostname h ≡ ok tt → (utf8_len h ≤ 64) × (all_host_chars h ≡ true)
unfolding check_hostname
hostname_ok h p = ground (arith, p)

pub memory_ok : (m : ℕ) → check_memory (some m) ≡ ok tt → 512 * 1024 ≤ m
unfolding check_memory
memory_ok m p = ground (arith, p)

pub swap_ok : (sw m : ℕ) → check_swap (some sw) (some m) ≡ ok tt → m ≤ sw
unfolding check_swap
swap_ok sw m p = ground (arith, p)

pub weight_ok : (w : ℕ) → check_weight (some w) ≡ ok tt → (1 ≤ w) × (w ≤ 10000)
unfolding check_weight
weight_ok w p = ground (arith, p)

pub mtu_ok : (m : ℕ) → check_mtu m ≡ ok tt → (68 ≤ m) × (m ≤ 65535)
unfolding check_mtu
mtu_ok m p = ground (arith, p)

pub cpus_ok :
    (F : Floats) (x : ℕ)
    → check_cpus F (some x) ≡ ok tt
    → (Floats.is_finite F x ≡ true) × (Floats.above_0 F x ≡ true) × (Floats.above_1024 F x ≡ false)
unfolding check_cpus
cpus_ok F x p = ground (arith, p)

-- The network of a container with a bridge: a subnet with room, an address of the subnet that is
-- not the gateway's where one is asked for, and no host port published twice.
pub record IsBridged (n : NetworkConfig) : Type 0 where
  pub net : Ipv4
  pub prefix : ℕ
  pub gateway : Ipv4
  pub subnet_parsed : parse_cidr n.subnet ≡ ok (net, prefix)
  pub large : prefix ≤ 30
  pub gateway_parsed : gateway_addr n ≡ ok gateway
  pub ip_in_subnet :
      (ip : Text)
      → n.ip ≡ some ip
      → (addr : Ipv4) × (parse_ipv4 ip ≡ ok addr)
        × (in_subnet addr net prefix ≡ true)
        × (ipv4_eq addr gateway ≡ false)
  pub ports_differ : DistinctPorts n.publish

ip_ok :
    (n : NetworkConfig) (net : Ipv4 × ℕ) (gw : Ipv4)
    → check_ip n net gw ≡ ok tt
    → (ip : Text) → n.ip ≡ some ip
    → (addr : Ipv4) × (parse_ipv4 ip ≡ ok addr)
      × (in_subnet addr net.0 net.1 ≡ true)
      × (ipv4_eq addr gw ≡ false)
unfolding check_ip
ip_ok n net gw h ip e =
    let (addr, p, q) = bind_ok (parse_ipv4 ip) (check_addr n net gw) tt (sym (ap checked e) ∙ h) in
    let (i, g) = addr_ok addr q in (addr, p, i, g)
  where
    checked : Option Text → Result (Unit {0})
    checked o = elim o [ none ↦ ok tt | some ip ↦ parse_ipv4 ip >>= check_addr n net gw ]

    addr_ok :
        (addr : Ipv4)
        → check_addr n net gw addr ≡ ok tt
        → (in_subnet addr net.0 net.1 ≡ true) × (ipv4_eq addr gw ≡ false)
    addr_ok addr q = unfold check_addr in ground (arith, q)

abbrev after_gateway : NetworkConfig → Ipv4 × ℕ → Ipv4 → Result (Unit {0})
after_gateway n net gw = all_pass (check_ip n net gw ∷ check_ports [] n.publish ∷ [])

bridge_ok : (n : NetworkConfig) → check_bridge n ≡ ok tt → IsBridged n
unfolding check_bridge
bridge_ok n h =
    let (net, p, q) =
      bind_ok (parse_cidr n.subnet) (λ net. large_enough n net >>= after_gateway n net) tt h in
    let (gw, r, s) = bind_ok (large_enough n net) (after_gateway n net) tt q in
    let (ip, (ports, _)) = all-Passed (check_ip n net gw ∷ check_ports [] n.publish ∷ []) s in
    let (large, gateway_ok) = large_ok net gw r in
    record {
      net = net.0;
      prefix = net.1;
      gateway = gw;
      subnet_parsed = p;
      large = large;
      gateway_parsed = gateway_ok;
      ip_in_subnet = ip_ok n net gw ip;
      ports_differ = check_ports_distinct n.publish ports;
    }
  where
    large_ok :
        (net : Ipv4 × ℕ) (gw : Ipv4)
        → large_enough n net ≡ ok gw
        → (net.1 ≤ 30) × (gateway_addr n ≡ ok gw)
    large_ok net gw r = unfold large_enough in ground (arith, r)

-- The network of an accepted configuration, by its mode.
pub data IsNetwork (n : NetworkConfig) (own_net : Bool) : Type 0 where
  on_bridge : n.mode ≡ bridged → own_net ≡ true → IsBridged n → IsNetwork n own_net
  on_host : n.mode ≡ shared → own_net ≡ false → n.publish ≡ [] → IsNetwork n own_net
  alone : n.mode ≡ isolated → n.publish ≡ [] → IsNetwork n own_net

nothing_published : (ps : List PortMapping) → none_published ps ≡ true → ps ≡ []
nothing_published [] h = refl
nothing_published (p ∷ ps) h = ground (arith, h)

pub network_ok :
    (m : NetworkMode) (n : NetworkConfig) (net own_net : Bool)
    → n.mode ≡ m
    → net_for m n net ≡ ok own_net
    → IsNetwork n own_net
unfolding net_for
network_ok isolated n net own_net e h = alone e (nothing_published n.publish (ground (arith, h)))
network_ok shared n net own_net e h =
    on_host e (ground (arith, h)) (nothing_published n.publish (ground (arith, h)))
network_ok bridged n net own_net e h =
    let (_, p, q) = bind_ok (check_bridge n) (λ _. ok net) own_net (ground (arith, h)) in
    on_bridge e (ground (arith, h, q)) (bridge_ok n p)

pub pids_ok : (p : ℕ) → check_pids (some p) ≡ ok tt → 1 ≤ p
unfolding check_pids
pids_ok p h = ground (arith, h)
