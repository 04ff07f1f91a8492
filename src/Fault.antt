-- ===== src/Fault.antt =====
-- src/fault.rs: named fault-injection points.
-- The variable MYRUN_FAULT is an argument, `none` where it is not set (or not Unicode). Logging is
-- left out.
pub mod Armed
use myrun.Prelude.{
  ℕ, Bool, true, false, not, ◌||◌, List, [], ◌∷◌, Option, none, some, if◌then◌else◌,
}
use myrun.Text.{Text, codes, text_eq, trim, split}
use myrun.Error.{Error, Message, Result, ok, err, lit, shown, quoted}

unfoldable pub points : List Text
unfolding codes
points =
    codes "before_state_create"
    ∷ codes "after_state_create"
    ∷ codes "after_cgroup_create"
    ∷ codes "after_cgroup_limits"
    ∷ codes "before_clone"
    ∷ codes "after_clone"
    ∷ codes "after_bridge_create"
    ∷ codes "after_veth_create"
    ∷ codes "after_veth_master"
    ∷ codes "after_ip_alloc"
    ∷ codes "after_netns_move"
    ∷ codes "after_nat_rules"
    ∷ codes "before_go_signal"
    ∷ codes "after_go_signal"
    ∷ codes "before_pivot_root"
    ∷ codes "after_pivot_root"
    ∷ codes "before_exec"
    ∷ codes "after_start"
    ∷ codes "before_teardown"
    ∷ []

-- `iter().any(|p| p == point)`, and `contains`
unfoldable pub contains : List Text → Text → Bool
contains [] point = false
contains (p ∷ ps) point = text_eq p point || contains ps point

is_empty : Text → Bool
is_empty [] = true
is_empty (_ ∷ _) = false

-- `.map(trim).filter(not empty)`
unfoldable pub trim_names : List Text → List Text
unfolding is_empty
trim_names [] = []
trim_names (s ∷ ss) = let rest = trim_names ss in if is_empty (trim s) then rest else trim s ∷ rest

unfoldable pub armed : Option Text → List Text
unfolding trim_names
armed none = []
armed (some v) = trim_names (split b',' v)

unfoldable pub check : Option Text → Text → Result (Unit {0})
unfolding contains
check env point = elim (armed env) [
  | [] ↦ ok tt
  | p ∷ ps ↦ if contains (p ∷ ps) point then err (Error.fault (shown point ∷ [])) else ok tt
]

unfoldable pub is_armed : Option Text → Text → Bool
is_armed env point = contains (armed env) point

-- `POINTS.join(", ")`
pub joined : List Text → Message
joined [] = []
joined (p ∷ []) = shown p ∷ []
joined (p ∷ q ∷ ps) = shown p ∷ lit ", " ∷ joined (q ∷ ps)

abbrev unknown_point : Text → Message
unknown_point p =
    lit "MYRUN_FAULT names unknown injection point "
    ∷ quoted p
    ∷ lit "; known points: "
    ∷ joined points

-- The first unknown name is reported.
unfoldable pub validate_names : List Text → Result (Unit {0})
validate_names [] = ok tt
validate_names (p ∷ ps) =
    let rest = validate_names ps in
    if not (contains points p) then err (Error.config (unknown_point p)) else rest

unfoldable pub validate_env : Option Text → Result (Unit {0})
unfolding validate_names
validate_env env = validate_names (armed env)
