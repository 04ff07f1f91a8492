-- ===== src/Rules/Bridge.antt =====
-- src/runtime/nat.rs: the rules of a bridge, and the removal of everything that myrun added.
-- The files under /proc/sys are read and written by arguments: `read` answers the trimmed text, or
-- none where reading fails. The warning that follows a failed `enable_route_localnet` is left out.
use Prim.Native.String.{String}
use myrun.Prelude.{ℕ, Bool, true, false, List, [], ◌∷◌, Option, none, some, length, if◌then◌else◌}
use myrun.Text.{Text, codes, text_eq}
use myrun.Error.{Error, Result, ok, err, lit, display}
use myrun.Fault.{check}
use myrun.Rules.{append_unique, cleanup, tagged_rules}
use myrun.Rules.Chains.{
  nat_table, filter_table, chain_pre, chain_post, chain_fwd, commented, guard, after, put_all,
  ensure_chains,
}

-- the rule for traffic from the subnet that leaves by another interface
unfoldable pub masquerade : Text → Text → List Text
masquerade bridge subnet =
    chain_post
    ∷ codes "-s"
    ∷ subnet
    ∷ codes "!"
    ∷ codes "-o"
    ∷ bridge
    ∷ codes "-j"
    ∷ codes "MASQUERADE"
    ∷ commented (codes "base")

-- the rules of a bridge with or without NAT
unfoldable pub bridge_rules : Text → List (Text × List Text)
bridge_rules bridge =
    (
      nat_table,
      chain_post
          ∷ codes "-s"
          ∷ codes "127.0.0.0/8"
          ∷ codes "-o"
          ∷ bridge
          ∷ codes "-j"
          ∷ codes "MASQUERADE"
          ∷ commented (codes "base"),
    )
    ∷ (
      filter_table,
      chain_fwd
          ∷ codes "-i"
          ∷ bridge
          ∷ codes "!"
          ∷ codes "-o"
          ∷ bridge
          ∷ codes "-j"
          ∷ codes "ACCEPT"
          ∷ commented (codes "base"),
    )
    ∷ (
      filter_table,
      chain_fwd
          ∷ codes "-o"
          ∷ bridge
          ∷ codes "-m"
          ∷ codes "conntrack"
          ∷ codes "--ctstate"
          ∷ codes "RELATED,ESTABLISHED"
          ∷ codes "-j"
          ∷ codes "ACCEPT"
          ∷ commented (codes "base"),
    )
    ∷ (
      filter_table,
      chain_fwd
          ∷ codes "-i"
          ∷ bridge
          ∷ codes "-o"
          ∷ bridge
          ∷ codes "-j"
          ∷ codes "ACCEPT"
          ∷ commented (codes "base"),
    )
    ∷ []

unfoldable pub setup_rules : Text → Text → Bool → List (Text × List Text)
unfolding masquerade bridge_rules
setup_rules bridge subnet true = (nat_table, masquerade bridge subnet) ∷ bridge_rules bridge
setup_rules bridge subnet false = bridge_rules bridge

module _ {W : Type 0} (run : List Text → W → W × Result Text) where
  -- A command whose failure is acceptable: only the host that it leaves matters.
  unfoldable pub run_all : List (List Text) → W → W
  run_all [] w = w
  run_all (c ∷ cs) w = run_all cs (run c w).0

  abbrev chains : List (Text × Text)
  chains = (nat_table, chain_pre) ∷ (nat_table, chain_post) ∷ (filter_table, chain_fwd) ∷ []

  abbrev unhook : Text → Text → Text → List Text
  unhook table chain parent = codes "-t" ∷ table ∷ codes "-D" ∷ parent ∷ codes "-j" ∷ chain ∷ []

  abbrev drop_chains : List (Text × Text) → List (List Text)
  drop_chains [] = []
  drop_chains ((table, chain) ∷ cs) =
      (codes "-t" ∷ table ∷ codes "-F" ∷ chain ∷ [])
      ∷ (codes "-t" ∷ table ∷ codes "-X" ∷ chain ∷ [])
      ∷ drop_chains cs

  unfoldable pub teardown_base : W → W
  unfolding run_all
  teardown_base w =
      run_all
        ((codes "-t" ∷ filter_table ∷ codes "-D" ∷ guard)
          ∷ unhook nat_table chain_pre (codes "PREROUTING")
          ∷ unhook nat_table chain_pre (codes "OUTPUT")
          ∷ unhook nat_table chain_post (codes "POSTROUTING")
          ∷ unhook filter_table chain_fwd (codes "FORWARD")
          ∷ drop_chains chains)
        (cleanup run (codes "base") w).0

  unfoldable pub rule_count : Text → W → W × ℕ
  rule_count id w = let found = tagged_rules run id w in (found.0, length found.1)

  module _ (read : Text → W → Option Text) (write : Text → Text → W → W × Result (Unit {0})) where
    abbrev is_one : Option Text → Bool
    is_one none = false
    is_one (some t) = text_eq t (codes "1")

    -- `map_err` into a container error
    abbrev wrapped : String → W × Result (Unit {0}) → W × Result (Unit {0})
    wrapped what (w, ok u) = (w, ok u)
    wrapped what (w, err e) = (w, err (Error.container (lit what ∷ display e)))

    unfoldable pub enable_ip_forwarding : W → W × Result (Unit {0})
    unfolding display
    enable_ip_forwarding w =
        if is_one (read (codes "/proc/sys/net/ipv4/ip_forward") w)
        then (w, ok tt)
        else wrapped "enabling IPv4 forwarding: "
            (write (codes "/proc/sys/net/ipv4/ip_forward") (codes "1") w)

    unfoldable pub enable_route_localnet : W → W × Result (Unit {0})
    unfolding display
    enable_route_localnet w =
        if is_one (read (codes "/proc/sys/net/ipv4/conf/all/route_localnet") w)
        then (w, ok tt)
        else wrapped "enabling route_localnet: "
            (write (codes "/proc/sys/net/ipv4/conf/all/route_localnet") (codes "1") w)

    -- `env` is the value of MYRUN_FAULT.
    unfoldable pub setup_bridge : Option Text → Text → Text → Bool → W → W × Result (Unit {0})
    unfolding enable_ip_forwarding enable_route_localnet ensure_chains setup_rules check
    setup_bridge env bridge subnet nat w = after run (enable_ip_forwarding w) (λ w1.
        after run (ensure_chains run (enable_route_localnet w1).0) (λ w2.
          after run (put_all run (append_unique run) (setup_rules bridge subnet nat) w2)
            (λ w3. (w3, check env (codes "after_nat_rules")))))
