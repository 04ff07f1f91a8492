-- ===== src/Error.antt =====
-- src/error.rs: the error type of every fallible operation, its exit codes and its display.
-- A message is kept as the parts of its `format!` template, since rendering (`{:?}` quoting, lossy
-- UTF-8) is the standard library's.
pub mod Exit
pub mod Codes
pub mod Chains
use Prim.Native.String.{String}
use myrun.Prelude.{
  ℕ, ◌≡◌, refl, ◌⊎◌, inl, inr, Bool, true, false, List, [], ◌∷◌, ◌++◌, Option, none, some, ◌==◌,
  if◌then◌else◌,
}
use myrun.Text.{Text}
use Exit

-- One piece of a message: literal text, `{}` of a text or a number, `{:?}` of a text, the lossy
-- decoding of bytes.
pub data Part : Type 0 where
  lit : String → Part
  shown : Text → Part
  number : ℕ → Part
  signed : ℕ → Part
  quoted : Text → Part
  lossy : List ℕ → Part

abbrev pub Message : Type 0
Message = List Part

-- A message with no arguments.
abbrev pub plain : String → Message
plain s = lit s ∷ []

-- An `i32` is its 32-bit pattern, so that a negative errno stays what it was.
pub data Error : Type 0 where
  usage : Message → Error
  config : Message → Error
  not_found : Message → Error
  already_exists : Message → Error
  invalid_state : Message → Error
  syscall : String → ℕ → Message → Error
  io : Message → Error
  parse : Message → Error
  container : Message → Error
  fault : Message → Error
  unsupported : Message → Error

pub data Result {ℓ} (A : Type ℓ) : Type ℓ where
  ok : A → Result A
  err : Error → Result A

infixl 5 ◌>>=◌
-- `?`, and `and_then`
abbrev pub ◌>>=◌ {ℓ κ} : {A : Type ℓ} {B : Type κ} → Result A → (A → Result B) → Result B
err stop >>= next = err stop
ok value >>= next = next value

-- `ok_or_else`
abbrev pub or_fail {ℓ} : {A : Type ℓ} → Option A → Error → Result A
or_fail none e = err e
or_fail (some a) e = ok a

-- `.ok()`
abbrev pub to_option {ℓ} : {A : Type ℓ} → Result A → Option A
to_option (ok a) = some a
to_option (err e) = none

unfoldable pub exit_code : Error → ℕ
exit_code (Error.usage _) = Exit.usage
exit_code (Error.config _) = Exit.config
exit_code (Error.parse _) = Exit.config
exit_code (Error.not_found _) = Exit.not_found
exit_code (Error.already_exists _) = Exit.state
exit_code (Error.invalid_state _) = Exit.state
exit_code (Error.syscall _ _ _) = Exit.syscall
exit_code (Error.unsupported _) = Exit.unsupported
exit_code (Error.fault _) = Exit.fault
exit_code (Error.io _) = Exit.generic
exit_code (Error.container _) = Exit.generic

unfoldable pub errno : Error → Option ℕ
errno (Error.syscall _ n _) = some n
errno (Error.io _) = none
errno _ = none

-- `self.errno() == Some(e)`
unfoldable pub is_errno : Error → ℕ → Bool
unfolding errno
is_errno e n = elim (errno e) [ none ↦ false | some m ↦ m == n ]

-- The `match` of `errno_name`, tried in the order of its arms.
abbrev errno_table : List (ℕ × String)
errno_table =
    (1, "EPERM")
    ∷ (2, "ENOENT")
    ∷ (3, "ESRCH")
    ∷ (4, "EINTR")
    ∷ (5, "EIO")
    ∷ (9, "EBADF")
    ∷ (11, "EAGAIN")
    ∷ (12, "ENOMEM")
    ∷ (13, "EACCES")
    ∷ (14, "EFAULT")
    ∷ (16, "EBUSY")
    ∷ (17, "EEXIST")
    ∷ (18, "EXDEV")
    ∷ (19, "ENODEV")
    ∷ (20, "ENOTDIR")
    ∷ (21, "EISDIR")
    ∷ (22, "EINVAL")
    ∷ (23, "ENFILE")
    ∷ (24, "EMFILE")
    ∷ (25, "ENOTTY")
    ∷ (28, "ENOSPC")
    ∷ (32, "EPIPE")
    ∷ (36, "ENAMETOOLONG")
    ∷ (38, "ENOSYS")
    ∷ (39, "ENOTEMPTY")
    ∷ (61, "ENODATA")
    ∷ (62, "ETIME")
    ∷ (95, "EOPNOTSUPP")
    ∷ (98, "EADDRINUSE")
    ∷ (110, "ETIMEDOUT")
    ∷ (111, "ECONNREFUSED")
    ∷ []

-- The first entry of a number in a table of names.
unfoldable pub name_of : String → List (ℕ × String) → ℕ → String
name_of other [] e = other
name_of other ((n, s) ∷ t) e = if e == n then s else name_of other t e

unfoldable pub errno_name : ℕ → String
unfolding name_of
errno_name = name_of "E?" errno_table

is_empty : Message → Bool
is_empty [] = true
is_empty (_ ∷ _) = false

-- `Display`. A context is empty when it is the empty text, which has no parts here.
unfoldable pub display : Error → Message
unfolding is_empty
display (Error.usage m) = m
display (Error.config m) = lit "invalid configuration: " ∷ m
display (Error.not_found m) = lit "not found: " ∷ m
display (Error.already_exists m) = lit "already exists: " ∷ m
display (Error.invalid_state m) = lit "invalid state: " ∷ m
display (Error.syscall call n ctx) =
    let head = lit call ∷ lit "(2) failed: " ∷ lit (errno_name n) ∷ lit " (" ∷ signed n ∷ [] in
    if is_empty ctx then head ++ lit ")" ∷ [] else head ++ (lit "): " ∷ ctx)
display (Error.io m) = lit "io error: " ∷ m
display (Error.parse m) = lit "parse error: " ∷ m
display (Error.container m) = lit "container error: " ∷ m
display (Error.fault m) = lit "injected fault: " ∷ m
display (Error.unsupported m) = lit "unsupported: " ∷ m

-- To split on a computed result and keep the equation.
pub Result-cases {ℓ} :
    {A : Type ℓ} (r : Result A) → ((a : A) × (r ≡ ok a)) ⊎ ((e : Error) × (r ≡ err e))
Result-cases (ok a) = inl (a, refl)
Result-cases (err e) = inr (e, refl)
