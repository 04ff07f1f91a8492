-- ===== src/Ipc.antt =====
-- src/runtime/ipc.rs: the framed channel between the parent and the container's init.
-- The two ends of the socket pair are byte lists: what the peer has written, up to its close. The
-- kernel chooses how many bytes each read(2) and write(2) moves; its choices are a list of events,
-- and `none` means that the list ran out, so that the call still blocks. Tracing is left out.
pub mod Bytes
pub mod Write
pub mod Read
pub mod Frames
use Prim.Native.Nat.{min}
use Prim.Native.String.{String}
use myrun.Prelude.{
  ℕ, zero, suc, ◌+◌, ◌-◌, ◌*◌, ◌%◌, ◌^◌, List, [], ◌∷◌, ◌++◌, Option, none, some, ltb, ◌==◌,
  if◌then◌else◌, length, take, drop,
}
use myrun.Error.{Error, Result, ok, err, plain, lit, number, lossy, ◌>>=◌}
use Bytes.{u32_bytes, u32_of}

abbrev pub tag_ready : ℕ
tag_ready = b'R'

abbrev pub tag_go : ℕ
tag_go = b'G'

abbrev pub tag_started : ℕ
tag_started = b'S'

abbrev pub tag_error : ℕ
tag_error = b'E'

abbrev pub tag_exit : ℕ
tag_exit = b'X'

abbrev pub max_payload : ℕ
max_payload = 64 * 1024

unfoldable pub tag_name : ℕ → String
tag_name t =
    if t == tag_ready
    then "ready"
    else if t == tag_go
    then "go"
    else if t == tag_started
    then "started"
    else if t == tag_error
    then "error"
    else if t == tag_exit
    then "exit"
    else "unknown"

-- One return of write(2) or read(2): a count, or an errno. A read that finds data hands over at
-- least one byte, so `moved n` stands for up to `n + 1` bytes there.
pub data Event : Type 0 where
  moved : ℕ → Event
  failed : ℕ → Event

-- EINTR of src/sys/ffi.rs
abbrev pub eintr : ℕ
eintr = 4

-- What the loop of `write_all` returns, the bytes that left, and the events not used.
pub record Written : Type 0 where
  pub outcome : Result (Unit {0})
  pub sent : List ℕ
  pub events : List Event

-- the bytes of one more write in front of what the later ones sent
abbrev pub after_write : List ℕ → Option Written → Option Written
after_write bs none = none
after_write bs (some w) = some (record w { sent = bs ++ w.sent })

unfoldable pub write_all : List Event → List ℕ → Option Written
write_all evs [] = some (record { outcome = ok tt; sent = []; events = evs })
write_all [] (b ∷ bs) = none
write_all (failed e ∷ evs) (b ∷ bs) =
    let again = write_all evs (b ∷ bs) in
    let stop = Error.syscall "write" e (plain "sync channel") in
    if e == eintr then again else some (record { outcome = err stop; sent = []; events = evs })
write_all (moved zero ∷ evs) (b ∷ bs) =
    let stop = Error.io (plain "sync channel closed while writing") in
    some (record { outcome = err stop; sent = []; events = evs })
write_all (moved (suc n) ∷ evs) (b ∷ bs) = after_write (b ∷ take n bs) (write_all evs (drop n bs))

-- What a read returns, the bytes left in the stream, and the events not used.
abbrev pub Reads {ℓ} : Type ℓ → Type ℓ
Reads A = Option (Result A × List ℕ × List Event)

-- end of file before `need` more bytes: clean at a frame boundary only
abbrev at_eof : ℕ → List ℕ → Result (Option (List ℕ))
at_eof need [] = ok none
at_eof need (b ∷ bs) = err (
    Error.io (
      lit "sync channel truncated: wanted "
      ∷ number (length (b ∷ bs) + need)
      ∷ lit " bytes, got "
      ∷ number (length (b ∷ bs))
      ∷ []))

-- The loop of `read_exact`: `need` bytes are missing behind `out`.
unfoldable pub read_loop : List Event → ℕ → List ℕ → List ℕ → Reads (Option (List ℕ))
read_loop evs zero out s = some (ok (some out), s, evs)
read_loop [] (suc need) out s = none
read_loop (failed e ∷ evs) (suc need) out s =
    let again = read_loop evs (suc need) out s in
    if e == eintr then again else some (err (Error.syscall "read" e (plain "sync channel")), s, evs)
read_loop (moved n ∷ evs) (suc need) out [] = some (at_eof (suc need) out, [], evs)
read_loop (moved n ∷ evs) (suc need) out (b ∷ s) =
    let got = b ∷ take (min n need) s in
    read_loop evs (suc need - length got) (out ++ got) (drop (min n need) s)

abbrev pub read_exact : ℕ → List ℕ → List Event → Reads (Option (List ℕ))
read_exact n s evs = read_loop evs n [] s

unfoldable pub frame : ℕ → List ℕ → List ℕ
frame tag payload = tag ∷ (u32_bytes (length payload) ++ payload)

unfoldable pub send : List Event → ℕ → List ℕ → Option Written
unfolding frame
send evs tag payload =
    if ltb max_payload (length payload % 2 ^ 32)
    then some (record {
      outcome = err (Error.io (plain "sync message too large"));
      sent = [];
      events = evs;
    })
    else write_all evs (frame tag payload)

unfoldable pub send_tag : List Event → ℕ → Option Written
send_tag evs tag = send evs tag []

unfoldable pub send_error : List Event → List ℕ → Option Written
send_error evs msg = send evs tag_error (take (min (length msg) max_payload) msg)

unfoldable pub exit_payload : ℕ → ℕ → List ℕ
exit_payload code signal = u32_bytes code ++ u32_bytes signal

unfoldable pub send_exit : List Event → ℕ → ℕ → Option Written
send_exit evs code signal = send evs tag_exit (exit_payload code signal)

abbrev too_long : ℕ → Error
too_long len = Error.parse (
    lit "sync frame claims "
    ∷ number len
    ∷ lit " bytes, which is beyond the "
    ∷ number max_payload
    ∷ lit " byte limit"
    ∷ [])

-- the payload of a frame whose head has been read
read_payload : ℕ → ℕ → List ℕ → List Event → Reads (Option (ℕ × List ℕ))
read_payload tag len s evs =
    if ltb max_payload len
    then some (err (too_long len), s, evs)
    else if len == 0
    then some (ok (some (tag, [])), s, evs)
    else elim (read_exact len s evs) [
      | none ↦ none
      | some (r, s', evs') ↦ some (
        elim r [
          | err e ↦ err e
          | ok got ↦ elim got [
            | none ↦ err (Error.io (plain "sync channel closed mid-frame"))
            | some payload ↦ ok (some (tag, payload))
          ]
        ],
        s',
        evs',
      )
    ]

-- the five bytes of a head; `read_exact` returns no other number of them
read_head : List ℕ → List ℕ → List Event → Reads (Option (ℕ × List ℕ))
read_head (tag ∷ a ∷ b ∷ c ∷ d ∷ []) s evs = read_payload tag (u32_of a b c d) s evs
read_head _ s evs = none

unfoldable pub recv : List ℕ → List Event → Reads (Option (ℕ × List ℕ))
unfolding read_head read_payload
recv s evs = elim (read_exact 5 s evs) [
  | none ↦ none
  | some (r, s', evs') ↦ elim r [
    | err e ↦ some (err e, s', evs')
    | ok got ↦ elim got [ none ↦ some (ok none, s', evs') | some head ↦ read_head head s' evs' ]
  ]
]

-- `expect`, from what `recv` returned
unfoldable pub expect_frame : ℕ → Option (ℕ × List ℕ) → Result (List ℕ)
expect_frame want none =
    err (Error.container (lit "container init exited before sending " ∷ lit (tag_name want) ∷ []))
expect_frame want (some (tag, payload)) =
    if tag == want
    then ok payload
    else if tag == tag_error
    then err (Error.container (lossy payload ∷ []))
    else err (
        Error.container (
          lit "expected "
          ∷ lit (tag_name want)
          ∷ lit " from container init, got "
          ∷ lit (tag_name tag)
          ∷ []))

unfoldable pub expect : ℕ → List ℕ → List Event → Reads (List ℕ)
unfolding expect_frame
expect want s evs = elim (recv s evs) [
  | none ↦ none
  | some (r, s', evs') ↦ some (r >>= expect_frame want, s', evs')
]

-- Bytes beyond the eighth are not looked at.
unfoldable pub parse_exit : List ℕ → Option (ℕ × ℕ)
parse_exit (a ∷ b ∷ c ∷ d ∷ e ∷ f ∷ g ∷ h ∷ _) = some (u32_of a b c d, u32_of e f g h)
parse_exit _ = none
