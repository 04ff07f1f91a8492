-- ===== src/Tests/Channel.antt =====
-- src/runtime/ipc.rs on concrete inputs.
use myrun.Prelude.{◌<◌, length, ◌^◌, ℕ, ◌≡◌, ◌≢◌, refl, List, [], ◌∷◌, ◌++◌, some, arith}
use myrun.Error.{Error, Result, ok, err, lit, lossy}
use myrun.Ipc.{
  max_payload, write_all, Event, moved, failed, Written, send, frame, write_all, recv, expect,
  tag_error, tag_name,
}
use myrun.Ipc.Write.{send-sent}
use myrun.Ipc.Frames.{send-recv, expect-frame}

-- One byte at a time after an interruption, and all at once.
abbrev writes : List Event
writes =
    failed 4
    ∷ moved 1
    ∷ moved 1
    ∷ moved 1
    ∷ moved 9
    ∷ moved 9
    ∷ moved 9
    ∷ moved 9
    ∷ moved 9
    ∷ moved 9
    ∷ moved 9
    ∷ moved 9
    ∷ moved 9
    ∷ moved 9
    ∷ []

abbrev reads : List Event
reads =
    moved 2
    ∷ failed 4
    ∷ moved 3
    ∷ moved 1
    ∷ moved 1
    ∷ moved 1
    ∷ moved 1
    ∷ moved 1
    ∷ moved 1
    ∷ moved 1
    ∷ moved 1
    ∷ moved 1
    ∷ moved 1
    ∷ moved 1
    ∷ []

abbrev payload : List ℕ
payload = 7 ∷ 8 ∷ 9 ∷ []

send-recv_example :
    (w : Written) × (evs' : List Event) × (send writes 82 payload ≡ some w)
    × (w.outcome ≡ ok tt)
    × (recv (w.sent ++ 1 ∷ []) reads ≡ some (ok (some (82, payload)), 1 ∷ [], evs'))
send-recv_example =
    send-recv 82 payload (1 ∷ []) writes reads (omega arith) (refl, tt) (omega arith) (refl, tt)
      (omega arith)

abbrev go : ℕ
go = 71

abbrev ready : ℕ
ready = 82

expect-frame_example :
    (evs' : List Event) × (r : Result (List ℕ)) × (expect go (frame ready payload ++ []) reads
      ≡ some (r, [], evs'))
    × (ready ≡ go → r ≡ ok payload)
    × (ready ≢ go → ready ≡ tag_error → r ≡ err (Error.container (lossy payload ∷ [])))
    × (ready ≢ go
        → ready ≢ tag_error
        → r
          ≡ err (
              Error.container (
                lit "expected "
                ∷ lit (tag_name go)
                ∷ lit " from container init, got "
                ∷ lit (tag_name ready)
                ∷ [])))
expect-frame_example = expect-frame go ready payload [] reads (omega arith) (refl, tt) (omega arith)

-- The other end goes away after four bytes.
abbrev cut : Written
cut = record {
  outcome = err (Error.syscall "write" 32 (lit "sync channel" ∷ []));
  sent = 82 ∷ 3 ∷ 0 ∷ 0 ∷ [];
  events = [];
}

send-sent_example :
    ((rest : List ℕ) × (cut.sent ++ rest ≡ frame 82 payload) × (cut.outcome ≡ ok tt → rest ≡ []))
    × (max_payload < length payload → length payload < 2 ^ 32 → cut.sent ≡ [])
unfolding send frame write_all
send-sent_example = send-sent (moved 4 ∷ failed 32 ∷ []) 82 payload cut refl
