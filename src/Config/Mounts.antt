-- ===== src/Config/Mounts.antt =====
-- src/config.rs: `MountSpec`.
use myrun.Prelude.{Bool, true, false, not, List, [], ◌∷◌, Option, none, some, if◌then◌else◌}
use myrun.Text.{Text, codes, text_eq, split, starts_with}
use myrun.Error.{Error, Result, ok, err, ◌>>=◌, lit, quoted}
use myrun.Json.{Json, Items, empty_obj}
use myrun.Json.Objects.{set_all}

pub record MountSpec : Type 0 where
  pub source : Text
  pub destination : Text
  pub fstype : Text
  pub readonly : Bool

abbrev option_of : Option Text → Result Bool
option_of none = ok false
option_of (some o) =
    if text_eq o (codes "ro")
    then ok true
    else if text_eq o (codes "rw")
    then ok false
    else err
        (Error.config (lit "invalid mount option " ∷ quoted o ∷ lit " (expected ro or rw)" ∷ []))

-- two pieces, or three
unfoldable pub of_parts : Text → Text → Option Text → Result MountSpec
of_parts source destination option = do
  readonly ← option_of option
  if not (starts_with (b'/' ∷ []) destination)
      then err (
          Error.config
            (lit "mount destination " ∷ quoted destination ∷ lit " must be absolute" ∷ []))
      else ok record {
        source = source;
        destination = destination;
        fstype = if text_eq source (codes "tmpfs") then codes "tmpfs" else codes "bind";
        readonly = readonly;
      }

unfoldable pub of_pieces : Text → List Text → Result MountSpec
unfolding of_parts
of_pieces s (a ∷ b ∷ []) = of_parts a b none
of_pieces s (a ∷ b ∷ c ∷ []) = of_parts a b (some c)
of_pieces s _ =
    err (
      Error.config
        (lit "invalid mount " ∷ quoted s ∷ lit "; expected source:destination[:ro]" ∷ []))

unfoldable pub parse : Text → Result MountSpec
unfolding of_pieces
parse s = of_pieces s (split b':' s)

unfoldable pub mount_json : MountSpec → Json
mount_json m =
    set_all
      ((codes "source", Json.str m.source)
        ∷ (codes "destination", Json.str m.destination)
        ∷ (codes "type", Json.str m.fstype)
        ∷ (codes "readonly", Json.bool m.readonly)
        ∷ [])
      empty_obj

unfoldable pub mounts_json : List MountSpec → Items
mounts_json [] = Items.nil
mounts_json (m ∷ ms) = Items.cons (mount_json m) (mounts_json ms)
