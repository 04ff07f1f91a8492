-- ===== src/Tests/Rules.antt =====
-- src/runtime/nat.rs on concrete inputs.
use myrun.Prelude.{
  Option, some, none, ◌≡◌, refl, Bool, true, false, List, [], ◌∷◌, if◌then◌else◌, arith,
}
use myrun.Text.{Text, codes, text_eq, is_whitespace}
use myrun.Error.{Result, ok, err, container}
use myrun.Rules.{unique, split_rule, succeeds, checked}
use myrun.Rules.Split.{line_of, ArePrintable, split_rule-line_of}
use myrun.Config.Ports.{PortMapping}
use myrun.Netlink.Address.{Ipv4}
use myrun.Fault.{check, armed}
use myrun.Rules.Bridge.{setup_bridge}
use myrun.Rules.Chains.{publish, ensure_chains, ensure_chain, put_all}
use myrun.Rules.Wanted.{
  sends_on, loops_back, lets_in, goes_out, from_loopback, opens, answers, stays_in,
}
use myrun.Rules.Published.{Holds, AllHold, appended, publish-AllHold, setup_bridge-AllHold}

-- A host that has one rule or has not: `-C` looks for it, any other command adds it.
abbrev host : List Text → Bool → Bool × Result Text
host (t ∷ table ∷ command ∷ args) w =
    if text_eq command (codes "-C")
    then (w, if w then ok [] else err (container []))
    else (true, ok [])
host _ w = (w, ok [])

abbrev arguments : List (Bool × Text)
arguments = (false, codes "MYRUN-PRE") ∷ (true, codes "myrun:c1 x") ∷ (false, codes "-j") ∷ []

arguments-ArePrintable : ArePrintable arguments
unfolding is_whitespace codes
arguments-ArePrintable = (
  (λ e. ground arith, (refl, (refl, (refl, (refl, (refl, (refl, (refl, (refl, (refl, tt)))))))))),
  (
    (
      λ e. ground arith,
      (refl, (refl, (refl, (refl, (refl, (refl, (refl, (refl, (refl, (refl, tt)))))))))),
    ),
    ((λ e. ground arith, (refl, (refl, tt))), tt),
  ),
)

split_rule-line_of_example :
    split_rule (line_of arguments) ≡ codes "MYRUN-PRE" ∷ codes "myrun:c1 x" ∷ codes "-j" ∷ []
split_rule-line_of_example = split_rule-line_of arguments arguments-ArePrintable

port : PortMapping
port = record { host_port = 8080; container_port = 80; protocol = codes "tcp" }

address : Ipv4
address = record { a = 10; b = 87; c = 0; d = 2 }

always_kept : (table : Text) (args : List Text) (v : Bool) → (checked host table args v).0 ≡ v
unfolding text_eq codes
always_kept table args true = refl
always_kept table args false = refl

always_found :
    (table : Text) (args : List Text) (v : Bool)
    → succeeds host (appended host table args v).1 ≡ true
    → succeeds host (checked host table args (appended host table args v).0).1 ≡ true
unfolding text_eq codes
always_found table args true h = refl
always_found table args false h = refl

always_stays :
    (r : Text × List Text) (table : Text) (args : List Text) (v : Bool)
    → Holds host r v
    → Holds host r (appended host table args v).0
unfolding text_eq codes
always_stays (t, words) table args v h = refl

publishes : (publish host (codes "c1") (codes "br0") address port false).1 ≡ ok tt
unfolding publish ensure_chains ensure_chain put_all unique text_eq codes
publishes = refl

publish-AllHold_example :
    AllHold host
      (sends_on (codes "c1") address port
        ∷ loops_back (codes "c1") address port
        ∷ lets_in (codes "c1") (codes "br0") address port
        ∷ [])
      (publish host (codes "c1") (codes "br0") address port false).0
publish-AllHold_example =
    publish-AllHold host always_kept always_found always_stays (codes "c1") (codes "br0") address
      port false publishes

-- The files under /proc/sys are as they should be.
abbrev settled : Text → Bool → Option Text
settled path v = some (codes "1")

abbrev unwritable : Text → Text → Bool → Bool × Result (Unit {0})
unwritable path text v = (v, err (container []))

bridged :
    (setup_bridge host settled unwritable none (codes "br0") (codes "10.87.0.0/16") true false).1
    ≡ ok tt
unfolding setup_bridge ensure_chains ensure_chain put_all unique text_eq codes check armed
bridged = refl

abbrev after_setup : Bool
after_setup =
    (setup_bridge host settled unwritable none (codes "br0") (codes "10.87.0.0/16") true false).0

setup_bridge-AllHold_example :
    (true ≡ true → Holds host (goes_out (codes "br0") (codes "10.87.0.0/16")) after_setup)
    × AllHold host
        (from_loopback (codes "br0")
          ∷ opens (codes "br0")
          ∷ answers (codes "br0")
          ∷ stays_in (codes "br0")
          ∷ [])
        after_setup
setup_bridge-AllHold_example =
    setup_bridge-AllHold host always_kept always_found always_stays settled unwritable none
      (codes "br0") (codes "10.87.0.0/16") true false bridged
