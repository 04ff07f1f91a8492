-- ===== src/Ipc/Frames.antt =====
-- src/runtime/ipc.rs: frames from one end to the other.
use myrun.Prelude.{
  ℕ, ◌+◌, ◌%◌, ◌^◌, ◌≤◌, ◌<◌, ◌≡◌, ◌≢◌, refl, false, List, [], ◌∷◌, ◌++◌, Option, none, some, arith,
  ltb, ◌==◌, length, ==_iff,
}
use myrun.Error.{Error, Result, ok, err, lit, lossy}
use myrun.Ipc.Bytes.{u32_bytes, u32_of, u32_of-u32_bytes}
use myrun.Ipc.Write.{Accepts, moves, Sends, write_all-Sends}
use myrun.Ipc.Read.{Patient, Gives, read_loop-Gives}
use myrun.Ipc.{
  Event, max_payload, tag_error, tag_name, Written, Reads, read_exact, frame, write_all, send,
  send_exit, exit_payload, recv, read_head, read_payload, expect, expect_frame, parse_exit,
}

Gives-eq :
    (bs rest : List ℕ) (n m : ℕ) (r : Reads (Option (List ℕ)))
    → Gives bs rest n m r
    → (evs : List Event) × (r ≡ some (ok (some bs), rest, evs)) × Patient evs × (m ≤ moves evs + n)
Gives-eq bs rest n m none h = absurd h
Gives-eq bs rest n m (some (r, s, evs)) (a, b, p, c) = (evs, ground (arith, a, b), p, c)

read_exact-eq :
    (bs rest : List ℕ) (evs : List Event)
    → Patient evs
    → length bs ≤ moves evs
    → (evs' : List Event) × (read_exact (length bs) (bs ++ rest) evs
        ≡ some (ok (some bs), rest, evs'))
      × Patient evs'
      × (moves evs ≤ moves evs' + length bs)
read_exact-eq bs rest evs p h = Gives-eq bs rest _ _ _ (read_loop-Gives evs bs [] rest p h)

read_payload-eq :
    (tag : ℕ) (payload rest : List ℕ) (evs : List Event)
    → length payload ≤ max_payload
    → Patient evs
    → length payload ≤ moves evs
    → (evs' : List Event) × (read_payload tag (length payload) (payload ++ rest) evs
        ≡ some (ok (some (tag, payload)), rest, evs'))
unfolding read_payload
read_payload-eq tag [] rest evs fits p h = (evs, ground arith)
read_payload-eq tag (b ∷ bs) rest evs fits p h =
    let (evs', e, _, _) = read_exact-eq (b ∷ bs) rest evs p h in
    let small : ltb max_payload (length (b ∷ bs)) ≡ false = ground arith in
    let some_bytes : (length (b ∷ bs) == 0) ≡ false = ground arith in
    (evs', rw (small, some_bytes, read_payload) (rw e))

-- The frame of a payload within the limit comes back whole, however the kernel cuts the stream,
-- and what follows it stays in the stream: enough reads that move bytes, and no failure but
-- interruptions, are all that it takes.
pub recv-frame :
    (tag : ℕ) (payload rest : List ℕ) (evs : List Event)
    → length payload ≤ max_payload
    → Patient evs
    → 5 + length payload ≤ moves evs
    → (evs' : List Event) × (recv (frame tag payload ++ rest) evs
        ≡ some (ok (some (tag, payload)), rest, evs'))
unfolding recv frame read_head u32_of
recv-frame tag payload rest evs fits p h =
    let head = tag ∷ u32_bytes (length payload) in
    let (evs₁, e₁, p₁, m₁) = read_exact-eq head (payload ++ rest) evs p (omega arith) in
    let len = u32_of-u32_bytes (length payload) (omega arith) in
    let (evs₂, e₂) = read_payload-eq tag payload rest evs₁ fits p₁ (omega arith) in
    (evs₂, rw (e₁, recv) (rw (len, read_head) e₂))

-- Both ends together: a payload within the limit is sent, and is received as it was, where the
-- kernel goes on taking and handing over bytes at each end.
pub send-recv :
    (tag : ℕ) (payload rest : List ℕ) (wevs revs : List Event)
    → length payload ≤ max_payload
    → Accepts wevs
    → 5 + length payload ≤ moves wevs
    → Patient revs
    → 5 + length payload ≤ moves revs
    → (w : Written) × (evs' : List Event) × (send wevs tag payload ≡ some w)
      × (w.outcome ≡ ok tt)
      × (recv (w.sent ++ rest) revs ≡ some (ok (some (tag, payload)), rest, evs'))
unfolding send
send-recv tag payload rest wevs revs fits a mw p mr =
    let small : ltb max_payload (length payload % 2 ^ 32) ≡ false = ground arith in
    let (w, e, d, s) =
      sent (write_all wevs (frame tag payload))
        (write_all-Sends wevs (frame tag payload) a (unfold frame in omega arith)) in
    let (evs', r) = recv-frame tag payload rest revs fits p mr in
    (w, evs', rw (small, send) e, d, rw s r)
  where
    sent :
        {bs : List ℕ} (o : Option Written)
        → Sends bs o
        → (w : Written) × (o ≡ some w) × (w.outcome ≡ ok tt) × (w.sent ≡ bs)
    sent none h = absurd h
    sent (some w) h = (w, refl, h.0, h.1)

-- What `expect` makes of a frame within the limit: the payload, if the tag is the one wanted; of an
-- error frame, when another tag is wanted, the error that it describes; of any other tag an error
-- that names the two.
pub expect-frame :
    (want tag : ℕ) (payload rest : List ℕ) (evs : List Event)
    → length payload ≤ max_payload
    → Patient evs
    → 5 + length payload ≤ moves evs
    → (evs' : List Event) × (r : Result (List ℕ)) × (expect want (frame tag payload ++ rest) evs
        ≡ some (r, rest, evs'))
      × (tag ≡ want → r ≡ ok payload)
      × (tag ≢ want → tag ≡ tag_error → r ≡ err (Error.container (lossy payload ∷ [])))
      × (tag ≢ want
          → tag ≢ tag_error
          → r
            ≡ err (
                Error.container (
                  lit "expected "
                  ∷ lit (tag_name want)
                  ∷ lit " from container init, got "
                  ∷ lit (tag_name tag)
                  ∷ [])))
unfolding expect
expect-frame want tag payload rest evs fits p m =
    let (evs', r) = recv-frame tag payload rest evs fits p m in
    (
      evs',
      expect_frame want (some (tag, payload)),
      rw (r, expect),
      λ e. rw ((==_iff tag want).1 e),
      λ n e. ground (arith, n, e),
      λ n e. ground (arith, n, e),
    )

-- An exit report comes back as the code and the signal that were sent.
pub parse_exit-send_exit :
    (code signal : ℕ) (rest : List ℕ) (wevs revs : List Event)
    → code < 2 ^ 32
    → signal < 2 ^ 32
    → Accepts wevs
    → 13 ≤ moves wevs
    → Patient revs
    → 13 ≤ moves revs
    → (w : Written) × (payload : List ℕ) × (evs' : List Event) × (send_exit wevs code signal
        ≡ some w)
      × (recv (w.sent ++ rest) revs ≡ some (ok (some (b'X', payload)), rest, evs'))
      × (parse_exit payload ≡ some (code, signal))
unfolding send_exit exit_payload parse_exit
parse_exit-send_exit code signal rest wevs revs hc hs a mw p mr =
    let (w, evs', s, _, r) =
      send-recv b'X' (exit_payload code signal) rest wevs revs (omega arith) a (omega arith) p
        (omega arith) in
    (
      w,
      exit_payload code signal,
      evs',
      s,
      r,
      rw (u32_of-u32_bytes code hc, u32_of-u32_bytes signal hs, parse_exit),
    )
