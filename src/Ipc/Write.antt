-- ===== src/Ipc/Write.antt =====
-- src/runtime/ipc.rs: `write_all` when the kernel takes the bytes in pieces.
use mathlib.Core.List.{append_assoc}
use mathlib.Core.Path.{subst}
use myrun.Prelude.{
  ◌<◌, ltb, ◌%◌, ◌^◌, ℕ, zero, suc, ◌≤◌, ◌≡◌, refl, ap, ◌∙◌, inl, inr, List, [], ◌∷◌, ◌++◌, Option,
  none, some, arith, ◌==◌, length, take, drop, take-append-drop, length-drop, Bool-cases, ==_iff,
}
use myrun.Error.{ok}
use myrun.Ipc.{
  Event, moved, failed, eintr, Written, after_write, write_all, send, frame, max_payload,
}

-- Every failure is an interruption, and every write moves a byte.
abbrev pub Accepts : List Event → Type 0
Accepts [] = Unit {0}
Accepts (failed e ∷ evs) = (e ≡ eintr) × Accepts evs
Accepts (moved zero ∷ evs) = ⊥
Accepts (moved (suc n) ∷ evs) = Accepts evs

-- The number of calls that move bytes.
abbrev pub moves : List Event → ℕ
moves [] = 0
moves (failed e ∷ evs) = moves evs
moves (moved n ∷ evs) = suc (moves evs)

-- All of `bs` was sent.
abbrev pub Sends : List ℕ → Option Written → Type 0
Sends bs none = ⊥
Sends bs (some w) = (w.outcome ≡ ok tt) × (w.sent ≡ bs)

after_write-Sends :
    (bs cs : List ℕ) (w : Option Written) → Sends cs w → Sends (bs ++ cs) (after_write bs w)
after_write-Sends bs cs none h = h
after_write-Sends bs cs (some w) h = (h.0, ap (◌++◌ bs) h.1)

pub write_all-Sends :
    (evs : List Event) (bs : List ℕ)
    → Accepts evs
    → length bs ≤ moves evs
    → Sends bs (write_all evs bs)
unfolding write_all
write_all-Sends evs [] a h = (refl, refl)
write_all-Sends [] (b ∷ bs) a h = elim h [ ]
write_all-Sends (failed e ∷ evs) (b ∷ bs) a h =
    rw ((==_iff e eintr).1 a.0, write_all) (write_all-Sends evs (b ∷ bs) a.1 h)
write_all-Sends (moved zero ∷ evs) (b ∷ bs) a h = absurd a
write_all-Sends (moved (suc n) ∷ evs) (b ∷ bs) a h =
    let rest = write_all-Sends evs (drop n bs) a (omega (arith, length-drop n bs)) in
    subst (λ cs. Sends (b ∷ cs) (after_write (b ∷ take n bs) (write_all evs (drop n bs))))
      (take-append-drop n bs)
      (after_write-Sends (b ∷ take n bs) (drop n bs) (write_all evs (drop n bs)) rest)

-- What left, and what `write_all` returned, agree: a success sent everything, a failure a proper
-- beginning.
abbrev Sent : List ℕ → Option Written → Type 0
Sent bs none = Unit {0}
Sent bs (some w) = (rest : List ℕ) × (w.sent ++ rest ≡ bs) × (w.outcome ≡ ok tt → rest ≡ [])

after_write-Sent :
    (bs cs : List ℕ) (w : Option Written) → Sent cs w → Sent (bs ++ cs) (after_write bs w)
after_write-Sent bs cs none h = tt
after_write-Sent bs cs (some w) (rest, e, d) =
    (rest, append_assoc bs w.sent rest ∙ ap (◌++◌ bs) e, d)

write_all-Sent : (evs : List Event) (bs : List ℕ) → Sent bs (write_all evs bs)
unfolding write_all
write_all-Sent evs [] = ([], refl, λ _. refl)
write_all-Sent [] (b ∷ bs) = tt
write_all-Sent (failed e ∷ evs) (b ∷ bs) = elim (Bool-cases (e == eintr)) [
  | inl y ↦ rw (y, write_all) (write_all-Sent evs (b ∷ bs))
  | inr n ↦ rw (n, write_all) (b ∷ bs, refl, λ h. cc)
]
write_all-Sent (moved zero ∷ evs) (b ∷ bs) = (b ∷ bs, refl, λ h. cc)
write_all-Sent (moved (suc n) ∷ evs) (b ∷ bs) =
    subst (λ cs. Sent (b ∷ cs) (after_write (b ∷ take n bs) (write_all evs (drop n bs))))
      (take-append-drop n bs)
      (after_write-Sent (b ∷ take n bs) (drop n bs) (write_all evs (drop n bs))
        (write_all-Sent evs (drop n bs)))

-- Whatever the kernel does, the bytes that left are the beginning of the frame's bytes, and all of
-- them if `send` returned success; none left if the payload, shorter than 2 ^ 32 bytes, is beyond
-- the limit.
pub send-sent :
    (evs : List Event) (tag : ℕ) (payload : List ℕ) (w : Written)
    → send evs tag payload ≡ some w
    → ((rest : List ℕ) × (w.sent ++ rest ≡ frame tag payload) × (w.outcome ≡ ok tt → rest ≡ []))
      × (max_payload < length payload → length payload < 2 ^ 32 → w.sent ≡ [])
unfolding send
send-sent evs tag payload w h = elim (Bool-cases (ltb max_payload (length payload % 2 ^ 32))) [
  | inl long ↦
      let h' = rw (long, send) at h in
      (
        (frame tag payload, ground (arith, h'), λ d. ground (arith, h', d)),
        λ over short. ground (arith, h'),
      )
  | inr fits ↦
      let h' : write_all evs (frame tag payload) ≡ some w = rw (fits, send) at h in
      (
        rw h' at (write_all-Sent evs (frame tag payload)),
        λ over short. absurd (ground (arith, fits)),
      )
]
