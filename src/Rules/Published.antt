-- ===== src/Rules/Published.antt =====
-- src/runtime/nat.rs: the rules that `publish` and `setup_bridge` add are on the host afterwards.
use myrun.Prelude.{
  Bool, Option, ◌≡◌, refl, sym, ap, ◌∙◌, inl, inr, true, false, List, [], ◌∷◌, arith, Bool-cases,
}
use myrun.Text.{Text, codes}
use myrun.Error.{Result, ok, err}
use myrun.Config.Ports.{PortMapping}
use myrun.Netlink.Address.{Ipv4}
use myrun.Rules.{tag, checked, succeeds, append_unique}
use myrun.Rules.Wanted.{
  sends_on, loops_back, lets_in, goes_out, from_loopback, opens, answers, stays_in,
}
use myrun.Rules.Unique.{no_output-world, no_output-succeeds, unique-present, unique-absent}
use myrun.Fault.{check}
use myrun.Rules.Bridge.{
  setup_bridge, setup_rules, masquerade, bridge_rules, enable_ip_forwarding, enable_route_localnet,
}
use myrun.Rules.Chains.{after, put_all, ensure_chains, published, publish, dnat, hairpin, forward}

module _ {W : Type 0} (run : List Text → W → W × Result Text) where
  abbrev pub Holds : Text × List Text → W → Type 0
  Holds (table, args) w = succeeds run (checked run table args w).1 ≡ true

  abbrev pub AllHold : List (Text × List Text) → W → Type 0
  AllHold [] w = Unit {0}
  AllHold (r ∷ rules) w = Holds r w × AllHold rules w

  abbrev pub appended : Text → List Text → W → W × Result Text
  appended table args w = run (codes "-t" ∷ table ∷ codes "-A" ∷ args) w

  after_ok :
      (r : W × Result (Unit {0})) (next : W → W × Result (Unit {0}))
      → (after run r next).1 ≡ ok tt
      → (r.1 ≡ ok tt) × (after run r next ≡ next r.0)
  after_ok (w, ok tt) next e = (refl, refl)
  after_ok (w, err x) next e = ground arith

  after_keeps :
      (P : W → Type 0) (r : W × Result (Unit {0})) (next : W → W × Result (Unit {0}))
      → P r.0
      → ((v : W) → P v → P (next v).0)
      → P (after run r next).0
  after_keeps P (w, ok u) next p k = k w p
  after_keeps P (w, err x) next p k = p

  module _ (kept : (table : Text) (args : List Text) (v : W) → (checked run table args v).0 ≡ v)
      (found : (table : Text) (args : List Text) (v : W)
        → succeeds run (appended table args v).1 ≡ true
        → succeeds run (checked run table args (appended table args v).0).1 ≡ true)
      (stays : (r : Text × List Text) (table : Text) (args : List Text) (v : W)
        → Holds r v
        → Holds r (appended table args v).0) where
    append_unique-Holds :
        (table : Text) (args : List Text) (w : W)
        → (append_unique run table args w).1 ≡ ok tt
        → Holds (table, args) (append_unique run table args w).0
    append_unique-Holds table args w e =
        elim (Bool-cases (succeeds run (checked run table args w).1)) [
          | inl y ↦
              rw
                (ap (λ r. r.0) (unique-present run (codes "-A") table args w (kept table args w) y))
                y
          | inr n ↦
              let u = unique-absent run (codes "-A") table args w (kept table args w) n in
              rw (ap (λ r. r.0) u ∙ no_output-world run (appended table args w)) (
                found table args w
                  (no_output-succeeds run (appended table args w) (sym (ap (λ r. r.1) u) ∙ e)))
        ]

    append_unique_keeps :
        (r : Text × List Text) (table : Text) (args : List Text) (w : W)
        → Holds r w
        → Holds r (append_unique run table args w).0
    append_unique_keeps r table args w h =
        elim (Bool-cases (succeeds run (checked run table args w).1)) [
          | inl y ↦
              rw
                (ap (λ r. r.0) (unique-present run (codes "-A") table args w (kept table args w) y))
                h
          | inr n ↦
              rw
                (ap (λ r. r.0) (unique-absent run (codes "-A") table args w (kept table args w) n)
                  ∙ no_output-world run (appended table args w))
                (stays r table args w h)
        ]

    put_all_keeps :
        (r : Text × List Text) (rules : List (Text × List Text)) (w : W)
        → Holds r w
        → Holds r (put_all run (append_unique run) rules w).0
    unfolding put_all
    put_all_keeps r [] w h = h
    put_all_keeps r ((table, args) ∷ rules) w h =
        after_keeps (Holds r) (append_unique run table args w)
          (put_all run (append_unique run) rules) (append_unique_keeps r table args w h)
          (put_all_keeps r rules)

    put_all-AllHold :
        (rules : List (Text × List Text)) (w : W)
        → (put_all run (append_unique run) rules w).1 ≡ ok tt
        → AllHold rules (put_all run (append_unique run) rules w).0
    unfolding put_all
    put_all-AllHold [] w e = tt
    put_all-AllHold ((table, args) ∷ rules) w e =
        let a =
          after_ok (append_unique run table args w) (put_all run (append_unique run) rules) e in
        let v = (append_unique run table args w).0 in
        rw a.1 (
          put_all_keeps (table, args) rules v (append_unique-Holds table args w a.0),
          put_all-AllHold rules v (sym (ap (λ r. r.1) a.1) ∙ e),
        )

    -- Provided a check changes nothing and finds each rule that was appended, also after later
    -- ones, a publish that succeeds leaves three rules on the host, each with the container's id in
    -- its comment: packets to the host's port are sent on to the container's address and port, the
    -- container's packets to itself there are masqueraded, and forwarding to it is accepted.
    pub publish-AllHold :
        (id bridge : Text) (ip : Ipv4) (m : PortMapping) (w : W)
        → (publish run id bridge ip m w).1 ≡ ok tt
        → AllHold
            (sends_on id ip m ∷ loops_back id ip m ∷ lets_in id bridge ip m ∷ [])
            (publish run id bridge ip m w).0
    unfolding publish published dnat hairpin forward tag
    publish-AllHold id bridge ip m w e =
        let a =
          after_ok (ensure_chains run w)
            (put_all run (append_unique run) (published id bridge ip m)) e in
        rw a.1 (
          put_all-AllHold (published id bridge ip m) (ensure_chains run w).0
            (sym (ap (λ r. r.1) a.1) ∙ e))

    setup_rules-AllHold :
        (read : Text → W → Option Text) (write : Text → Text → W → W × Result (Unit {0}))
        (env : Option Text) (bridge subnet : Text) (nat : Bool) (w : W)
        → (setup_bridge run read write env bridge subnet nat w).1 ≡ ok tt
        → AllHold
            (setup_rules bridge subnet nat)
            (setup_bridge run read write env bridge subnet nat w).0
    unfolding setup_bridge
    setup_rules-AllHold read write env bridge subnet nat w e =
        let rules = setup_rules bridge subnet nat in
        let last : W → W × Result (Unit {0}) = λ w2.
          after run (put_all run (append_unique run) rules w2)
            (λ w3. (w3, check env (codes "after_nat_rules"))) in
        let w1 = (enable_ip_forwarding run read write w).0 in
        let chained = ensure_chains run (enable_route_localnet run read write w1).0 in
        let a =
          after_ok (enable_ip_forwarding run read write w)
            (λ v. after run (ensure_chains run (enable_route_localnet run read write v).0) last)
            e in
        let b = after_ok chained last (sym (ap (λ r. r.1) a.1) ∙ e) in
        let c =
          after_ok (put_all run (append_unique run) rules chained.0)
            (λ w3. (w3, check env (codes "after_nat_rules")))
            (sym (ap (λ r. r.1) (a.1 ∙ b.1)) ∙ e) in
        rw (a.1 ∙ b.1 ∙ c.1) (put_all-AllHold rules chained.0 c.0)

    by_nat :
        (bridge subnet : Text) (nat : Bool) (v : W)
        → AllHold (setup_rules bridge subnet nat) v
        → (nat ≡ true → Holds (goes_out bridge subnet) v)
          × AllHold (from_loopback bridge ∷ opens bridge ∷ answers bridge ∷ stays_in bridge ∷ []) v
    unfolding setup_rules masquerade bridge_rules tag
    by_nat bridge subnet true v h = (λ e. h.0, h.1)
    by_nat bridge subnet false v h = (λ e. absurd (ground arith), h)

    -- Provided a check changes nothing and finds each rule that was appended, also after later
    -- ones, a setup of a bridge that succeeds leaves its rules on the host: if NAT is asked for,
    -- the subnet's packets that leave by another interface are masqueraded; those of the loopback
    -- network that leave by the bridge always are; forwarding is accepted from the bridge to other
    -- interfaces, to the bridge for established connections, and within the bridge.
    pub setup_bridge-AllHold :
        (read : Text → W → Option Text) (write : Text → Text → W → W × Result (Unit {0}))
        (env : Option Text) (bridge subnet : Text) (nat : Bool) (w : W)
        → (setup_bridge run read write env bridge subnet nat w).1 ≡ ok tt
        → let v = (setup_bridge run read write env bridge subnet nat w).0 in
          (nat ≡ true → Holds (goes_out bridge subnet) v)
          × AllHold (from_loopback bridge ∷ opens bridge ∷ answers bridge ∷ stays_in bridge ∷ []) v
    setup_bridge-AllHold read write env bridge subnet nat w e =
        by_nat bridge subnet nat (setup_bridge run read write env bridge subnet nat w).0
          (setup_rules-AllHold read write env bridge subnet nat w e)
