-- ===== src/Ipc/Read.antt =====
-- src/runtime/ipc.rs: `read_exact` on a stream that arrives in pieces.
use Prim.Native.Nat.{min}
use mathlib.Core.List.{append-nil, append_assoc}
use myrun.Prelude.{
  ℕ, suc, ◌+◌, ◌-◌, ◌≤◌, ◌≡◌, refl, sym, ap, ◌∙◌, List, [], ◌∷◌, ◌++◌, Option, none, some, arith,
  length, take, drop, take-append-drop, take-append, drop-append, length-drop, length-take, ==_iff,
}
use myrun.Error.{ok}
use myrun.Ipc.{Event, moved, failed, eintr, Reads, read_loop}
use myrun.Ipc.Write.{moves}

-- Every failure is an interruption.
abbrev pub Patient : List Event → Type 0
Patient [] = Unit {0}
Patient (failed e ∷ evs) = (e ≡ eintr) × Patient evs
Patient (moved n ∷ evs) = Patient evs

-- The read returned `bs` and left `rest` in the stream, and used at most `n` moves of `m`.
abbrev pub Gives : List ℕ → List ℕ → ℕ → ℕ → Reads (Option (List ℕ)) → Type 0
Gives bs rest n m none = ⊥
Gives bs rest n m (some (r, s, evs)) =
    (r ≡ ok (some bs)) × (s ≡ rest) × Patient evs × (m ≤ moves evs + n)

Gives-mono :
    (bs rest : List ℕ) (n n' m m' : ℕ) (r : Reads (Option (List ℕ)))
    → m' + n ≤ m + n'
    → Gives bs rest n m r
    → Gives bs rest n' m' r
Gives-mono bs rest n n' m m' none h g = g
Gives-mono bs rest n n' m m' (some (r, s, evs)) h g = (g.0, g.1, g.2, omega arith)

pub read_loop-Gives :
    (evs : List Event) (bs out rest : List ℕ)
    → Patient evs
    → length bs ≤ moves evs
    → Gives (out ++ bs) rest (length bs) (moves evs) (read_loop evs (length bs) out (bs ++ rest))
unfolding read_loop
read_loop-Gives evs [] out rest p h =
    (ap (λ z. ok (some z)) (sym (append-nil out)), refl, p, omega arith)
read_loop-Gives [] (b ∷ bs) out rest p h = elim h [ ]
read_loop-Gives (failed e ∷ evs) (b ∷ bs) out rest p h =
    rw ((==_iff e eintr).1 p.0, read_loop) (read_loop-Gives evs (b ∷ bs) out rest p.1 h)
read_loop-Gives (moved n ∷ evs) (b ∷ bs) out rest p h =
    let k = min n (length bs) in
    let front = take-append k bs rest (omega arith) in
    let back = drop-append k bs rest (omega arith) in
    let left : suc (length bs) - suc (length (take k bs)) ≡ length (drop k bs) =
      omega (arith, length-take k bs, length-drop k bs) in
    let whole : (out ++ (b ∷ take k bs)) ++ drop k bs ≡ out ++ (b ∷ bs) =
      append_assoc out (b ∷ take k bs) (drop k bs)
      ∙ ap (λ z. out ++ (b ∷ z)) (take-append-drop k bs) in
    let ih =
      read_loop-Gives evs (drop k bs) (out ++ (b ∷ take k bs)) rest p
        (omega (arith, length-drop k bs)) in
    rw (front, back, left, read_loop)
      (Gives-mono (out ++ (b ∷ bs)) rest (length (drop k bs)) (suc (length bs)) (moves evs)
        (suc (moves evs)) _ (omega (arith, length-drop k bs)) (rw whole at ih))
