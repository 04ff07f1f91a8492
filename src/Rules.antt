-- ===== src/Rules.antt =====
-- src/runtime/nat.rs: the iptables rules of a container, and finding them again by their comment.
-- What the iptables command does is an argument: its effect on the host `W`, and what it printed.
-- Logging is left out.
pub mod Bridge
pub mod Chains
pub mod Published
pub mod Split
pub mod Unique
pub mod Wanted
use Prim.Native.String.{String}
use myrun.Prelude.{
  ℕ, suc, Bool, true, false, not, ◌&&◌, ◌||◌, List, [], ◌∷◌, ◌++◌, Option, none, some, ◌==◌,
  if◌then◌else◌,
}
use myrun.Text.{Text, codes, is_whitespace, starts_with, strip_prefix, strip_suffix, split}
use myrun.Error.{Error, Result, ok, err}

-- `contains`
unfoldable pub contains : Text → Text → Bool
contains needle [] = starts_with needle []
contains needle (c ∷ s) = starts_with needle (c ∷ s) || contains needle s

abbrev without_return : Text → Text
without_return line = elim (strip_suffix (13 ∷ []) line) [ none ↦ line | some l ↦ l ]

-- The lines of a text that is cut at its line breaks.
unfoldable pub whole_lines : List Text → List Text
whole_lines [] = []
whole_lines ([] ∷ []) = []
whole_lines ((c ∷ s) ∷ []) = (c ∷ s) ∷ []
whole_lines (l ∷ k ∷ ls) = without_return l ∷ whole_lines (k ∷ ls)

-- `lines`
unfoldable pub lines : Text → List Text
unfolding whole_lines
lines s = whole_lines (split 10 s)

abbrev pub flush : Text → List Text → List Text
flush [] out = out
flush (c ∷ cur) out = (c ∷ cur) ∷ out

-- The rest of a line, the word so far, and whether a quote is open.
unfoldable pub split_from : Text → Text → Bool → List Text
split_from [] cur in_quotes = flush cur []
split_from (c ∷ s) cur in_quotes = elim (c == b'"') [
  | true ↦ split_from s cur (not in_quotes)
  | false ↦ elim (is_whitespace c && not in_quotes) [
    | true ↦ flush cur (split_from s [] in_quotes)
    | false ↦ split_from s (cur ++ c ∷ []) in_quotes
  ]
]

-- `split_rule`
unfoldable pub split_rule : Text → List Text
unfolding split_from
split_rule line = split_from line [] false

unfoldable pub tag : Text → Text
tag id = codes "myrun:" ++ id

-- a rule with the container's comment, as `iptables -S` prints it
unfoldable pub tagged_line : Text → Text → Bool
unfolding contains tag
tagged_line id line =
    starts_with (codes "-A ") line
    && (contains (codes "--comment " ++ tag id) line
        || contains (codes "--comment \"" ++ tag id ++ codes "\"") line)

abbrev pair_if : Text → List Text → List (Text × List Text) → List (Text × List Text)
pair_if table [] rest = rest
pair_if table (a ∷ args) rest = (table, a ∷ args) ∷ rest

abbrev after_append : Text → Text
after_append line = elim (strip_prefix (codes "-A ") line) [ none ↦ line | some l ↦ l ]

unfoldable pub tagged_of : Text → Text → List Text → List (Text × List Text)
unfolding tagged_line split_rule
tagged_of id table [] = []
tagged_of id table (l ∷ ls) =
    let rest = tagged_of id table ls in
    if tagged_line id l then pair_if table (split_rule (after_append l)) rest else rest

module _ {W : Type 0} (run : List Text → W → W × Result Text) where
  abbrev tagged_in : Text → Text → Result Text → List (Text × List Text)
  tagged_in id table (err e) = []
  tagged_in id table (ok dump) = tagged_of id table (lines dump)

  -- `tagged_rules`
  unfoldable pub tagged_rules : Text → W → W × List (Text × List Text)
  unfolding tagged_of lines
  tagged_rules id w =
      let nat = run (codes "-t" ∷ codes "nat" ∷ codes "-S" ∷ []) w in
      let filter = run (codes "-t" ∷ codes "filter" ∷ codes "-S" ∷ []) nat.0 in
      (filter.0, tagged_in id (codes "nat") nat.1 ++ tagged_in id (codes "filter") filter.1)

  abbrev pub succeeds : Result Text → Bool
  succeeds (ok s) = true
  succeeds (err e) = false

  -- Each rule is deleted; the number of the deletions that succeeded.
  unfoldable pub delete_rules : List (Text × List Text) → ℕ → W → W × ℕ
  delete_rules [] removed w = (w, removed)
  delete_rules ((table, args) ∷ rules) removed w =
      let r = run (codes "-t" ∷ table ∷ codes "-D" ∷ args) w in
      delete_rules rules (if succeeds r.1 then suc removed else removed) r.0

  unfoldable pub cleanup : Text → W → W × ℕ
  unfolding tagged_rules delete_rules
  cleanup id w = let found = tagged_rules id w in delete_rules found.1 0 found.0

  abbrev pub checked : Text → List Text → W → W × Result Text
  checked table args w = run (codes "-t" ∷ table ∷ codes "-C" ∷ args) w

  abbrev pub no_output : W × Result Text → W × Result (Unit {0})
  no_output (w, ok s) = (w, ok tt)
  no_output (w, err e) = (w, err e)

  -- `append_unique` and `insert_unique`, of the command `-A` or `-I`
  unfoldable pub unique : Text → Text → List Text → W → W × Result (Unit {0})
  unique command table args w =
      let r = checked table args w in
      if succeeds r.1
      then (r.0, ok tt)
      else no_output (run (codes "-t" ∷ table ∷ command ∷ args) r.0)

  abbrev pub append_unique : Text → List Text → W → W × Result (Unit {0})
  append_unique table args w = unique (codes "-A") table args w

  abbrev pub insert_unique : Text → List Text → W → W × Result (Unit {0})
  insert_unique table args w = unique (codes "-I") table args w
