-- ===== src/Rules/Chains.antt =====
-- src/runtime/nat.rs: the chains of myrun and the rules of a published port, as sequences of commands.
use Prim.Native.String.{String}
use myrun.Prelude.{List, [], ◌∷◌, ◌++◌, if◌then◌else◌}
use myrun.Text.{Text, codes}
use myrun.Text.Number.{show_nat}
use myrun.Error.{Result, ok, err}
use myrun.Config.Ports.{PortMapping}
use myrun.Netlink.Address.{Ipv4, format_ipv4}
use myrun.Rules.{tag, succeeds, no_output, append_unique, insert_unique}

abbrev pub nat_table : Text
nat_table = codes "nat"

abbrev pub filter_table : Text
filter_table = codes "filter"

abbrev pub chain_pre : Text
chain_pre = codes "MYRUN-PRE"

abbrev pub chain_post : Text
chain_post = codes "MYRUN-POST"

abbrev pub chain_fwd : Text
chain_fwd = codes "MYRUN-FWD"

abbrev words : List String → List Text
words [] = []
words (s ∷ ss) = codes s ∷ words ss

-- The end of a rule that carries the comment of `id`.
abbrev pub commented : Text → List Text
commented id = codes "-m" ∷ codes "comment" ∷ codes "--comment" ∷ tag id ∷ []

-- the guard against packets that claim a loopback destination
abbrev pub guard : List Text
guard =
    words (
      "INPUT" ∷ "!" ∷ "-i" ∷ "lo" ∷ "-d" ∷ "127.0.0.0/8" ∷ "-m" ∷ "conntrack" ∷ "--ctstate" ∷ "NEW"
      ∷ "-j" ∷ "DROP" ∷ [])
    ++ commented (codes "base")

-- the destination of a published port
unfoldable pub dnat : Text → Text → PortMapping → List Text
dnat id ip m =
    chain_pre
    ∷ codes "-p"
    ∷ m.protocol
    ∷ codes "--dport"
    ∷ show_nat m.host_port
    ∷ codes "-j"
    ∷ codes "DNAT"
    ∷ codes "--to-destination"
    ∷ (ip ++ b':' ∷ show_nat m.container_port)
    ∷ commented id

-- the reply to a container that reaches its own published port
unfoldable pub hairpin : Text → Text → PortMapping → List Text
hairpin id ip m =
    chain_post
    ∷ codes "-s"
    ∷ ip
    ∷ codes "-d"
    ∷ ip
    ∷ codes "-p"
    ∷ m.protocol
    ∷ codes "--dport"
    ∷ show_nat m.container_port
    ∷ codes "-j"
    ∷ codes "MASQUERADE"
    ∷ commented id

unfoldable pub forward : Text → Text → Text → PortMapping → List Text
forward id bridge ip m =
    chain_fwd
    ∷ codes "-o"
    ∷ bridge
    ∷ codes "-d"
    ∷ ip
    ∷ codes "-p"
    ∷ m.protocol
    ∷ codes "--dport"
    ∷ show_nat m.container_port
    ∷ codes "-j"
    ∷ codes "ACCEPT"
    ∷ commented id

-- the three rules of a published port
unfoldable pub published : Text → Text → Ipv4 → PortMapping → List (Text × List Text)
unfolding dnat hairpin forward
published id bridge container_ip m =
    let ip = format_ipv4 container_ip in
    (nat_table, dnat id ip m)
    ∷ (nat_table, hairpin id ip m)
    ∷ (filter_table, forward id bridge ip m)
    ∷ []

module _ {W : Type 0} (run : List Text → W → W × Result Text) where
  -- One action after another: `?`
  abbrev pub after : W × Result (Unit {0}) → (W → W × Result (Unit {0})) → W × Result (Unit {0})
  after (w, err e) next = (w, err e)
  after (w, ok u) next = next w

  unfoldable pub ensure_chain : Text × Text → W → W × Result (Unit {0})
  ensure_chain (table, chain) w =
      let r = run (codes "-t" ∷ table ∷ codes "-S" ∷ chain ∷ []) w in
      if succeeds run r.1
      then (r.0, ok tt)
      else no_output run (run (codes "-t" ∷ table ∷ codes "-N" ∷ chain ∷ []) r.0)

  -- Each rule of a table, put by `put` in order, up to the first failure.
  unfoldable pub put_all :
      (Text → List Text → W → W × Result (Unit {0}))
      → List (Text × List Text)
      → W
      → W × Result (Unit {0})
  put_all put [] w = (w, ok tt)
  put_all put ((table, args) ∷ rules) w = after (put table args w) (put_all put rules)

  abbrev pub hooks : List (Text × List Text)
  hooks =
      (nat_table, codes "PREROUTING" ∷ codes "-j" ∷ chain_pre ∷ [])
      ∷ (nat_table, codes "OUTPUT" ∷ codes "-j" ∷ chain_pre ∷ [])
      ∷ (nat_table, codes "POSTROUTING" ∷ codes "-j" ∷ chain_post ∷ [])
      ∷ (filter_table, codes "FORWARD" ∷ codes "-j" ∷ chain_fwd ∷ [])
      ∷ (filter_table, guard)
      ∷ []

  unfoldable pub ensure_chains : W → W × Result (Unit {0})
  unfolding ensure_chain put_all
  ensure_chains w = after (ensure_chain (nat_table, chain_pre) w) (λ w1.
      after (ensure_chain (nat_table, chain_post) w1) (λ w2.
        after (ensure_chain (filter_table, chain_fwd) w2) (put_all (insert_unique run) hooks)))

  unfoldable pub publish : Text → Text → Ipv4 → PortMapping → W → W × Result (Unit {0})
  unfolding ensure_chains published
  publish id bridge container_ip m w =
      after (ensure_chains w) (put_all (append_unique run) (published id bridge container_ip m))
