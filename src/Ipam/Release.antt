-- ===== src/Ipam/Release.antt =====
-- src/runtime/ipam.rs: what `release` and `gc` do to the leases.
use myrun.Prelude.{
  ℕ, ◌+◌, ◌-◌, ◌≤◌, ◌≡◌, refl, sym, ap, inl, inr, false, List, [], ◌∷◌, none, arith, ltb, ◌==◌,
  if◌then◌else◌, length, Bool-cases, Option-cases,
}
use myrun.Text.{Text, text_eq}
use myrun.Text.Laws.{text_eq_iff}
use myrun.Error.{ok, Result-cases}
use myrun.Netlink.Address.{Ipv4}
use myrun.Ipam.{
  Lease, Leases, to_json, LeaseFile, holds, Trouble, store, is_taken, find_id, drop_id, without,
  locked, release, is_live, keep_live, gc,
}
use myrun.Ipam.Codec.{Addresses}
use myrun.Ipam.Entries.{Distinct, find_id-drop_id}
use myrun.Ipam.Allocate.{contents, load-contents, contents_written, IsSound, IsSound-without}

locked-contents :
    (t : Trouble) (file : LeaseFile) (l : Leases) → locked t file ≡ ok l → l ≡ contents file
locked-contents t file l e = load-contents t file l (ground (arith, Option-cases t.locking))

length-drop_id : (id : Text) (ls : List Lease) → length (drop_id id ls) ≤ length ls
unfolding drop_id
length-drop_id id [] = omega arith
length-drop_id id (l ∷ ls) = ground (arith, length-drop_id id ls)

drop_id-same :
    (id : Text) (ls : List Lease) → length (drop_id id ls) ≡ length ls → drop_id id ls ≡ ls
unfolding drop_id
drop_id-same id [] e = refl
drop_id-same id (l ∷ ls) e = ground (arith, length-drop_id id ls, drop_id-same id ls)

length-keep_live : (live : List Text) (ls : List Lease) → length (keep_live live ls) ≤ length ls
unfolding keep_live
length-keep_live live [] = omega arith
length-keep_live live (l ∷ ls) = ground (arith, length-keep_live live ls)

keep_live-same :
    (live : List Text) (ls : List Lease)
    → length ls ≤ length (keep_live live ls)
    → keep_live live ls ≡ ls
unfolding keep_live
keep_live-same live [] e = refl
keep_live-same live (l ∷ ls) e = ground (arith, length-keep_live live ls, keep_live-same live ls)

find_id-keep_live :
    (j : Text) (live : List Text) (ls : List Lease)
    → find_id j (keep_live live ls) ≡ (if is_live j live then find_id j ls else none)
unfolding find_id keep_live
find_id-keep_live j live [] = ground arith
find_id-keep_live j live (l ∷ ls) = ground (arith, text_eq_iff l.id j, find_id-keep_live j live ls)

is_taken-keep_live :
    (ip : Ipv4) (live : List Text) (ls : List Lease)
    → is_taken ip ls ≡ false
    → is_taken ip (keep_live live ls) ≡ false
unfolding is_taken keep_live
is_taken-keep_live ip live [] h = refl
is_taken-keep_live ip live (l ∷ ls) h = ground (arith, is_taken-keep_live ip live ls)

keep_live-Distinct :
    (live : List Text) (ls : List Lease) → Distinct ls → Distinct (keep_live live ls)
unfolding keep_live
keep_live-Distinct live [] d = tt
keep_live-Distinct live (l ∷ ls) d = ground (
  arith,
  is_taken-keep_live l.ip live ls d.0,
  find_id-keep_live l.id live ls,
  keep_live-Distinct live ls d.2,
)

keep_live-Addresses :
    (live : List Text) (ls : List Lease) → Addresses ls → Addresses (keep_live live ls)
unfolding keep_live
keep_live-Addresses live [] d = tt
keep_live-Addresses live (l ∷ ls) d = ground (arith, d.0, keep_live-Addresses live ls d.1)

release-contents :
    (t : Trouble) (file file' : LeaseFile) (id : Text)
    → IsSound (contents file)
    → release t file id ≡ (file', ok tt)
    → contents file' ≡ without id (contents file)
unfolding release store
release-contents t file file' id s e = elim (Result-cases (locked t file)) [
  | inr (x, h) ↦ absurd (ground (arith, h))
  | inl (l, h) ↦ elim (Bool-cases (length (drop_id id l.entries) == length l.entries)) [
    | inl same ↦
        let kept : file' ≡ file = ground (arith, h, same) in
        rw (kept, sym (locked-contents t file l h))
          (ap (λ es. record l { entries = es })
            (sym (drop_id-same id l.entries (ground (arith, same)))))
    | inr less ↦ elim (Option-cases t.writing) [
      | inr (x, w) ↦ absurd (ground (arith, h, less, w))
      | inl w ↦
          let written : file' ≡ holds (to_json (without id l)) = ground (arith, h, less, w) in
          let old = locked-contents t file l h in
          rw (written, sym old) (contents_written (without id l) (IsSound-without id l (rw old s)))
    ]
  ]
]

-- A `release` that succeeds takes the container's lease away, if it had one, leaves every other
-- lease as it was, and leaves no address leased twice.
pub release_exact :
    (t : Trouble) (file file' : LeaseFile) (id : Text)
    → IsSound (contents file)
    → release t file id ≡ (file', ok tt)
    → ((j : Text)
        → find_id j (contents file').entries
          ≡ (if text_eq id j then none else find_id j (contents file).entries))
      × IsSound (contents file')
release_exact t file file' id s e =
    let new = release-contents t file file' id s e in
    rw new
      ((λ j. find_id-drop_id j id (contents file).entries), IsSound-without id (contents file) s)

abbrev only_live : List Text → Leases → Leases
only_live live l = record l { entries = keep_live live l.entries }

IsSound-only_live : (live : List Text) (l : Leases) → IsSound l → IsSound (only_live live l)
IsSound-only_live live l s =
    (keep_live-Distinct live l.entries s.0, keep_live-Addresses live l.entries s.1)

gc-contents :
    (t : Trouble) (file file' : LeaseFile) (live : List Text) (n : ℕ)
    → IsSound (contents file)
    → gc t file live ≡ (file', ok n)
    → (contents file' ≡ only_live live (contents file))
      × (n ≡ length (contents file).entries - length (keep_live live (contents file).entries))
unfolding gc store
gc-contents t file file' live n s e = elim (Result-cases (locked t file)) [
  | inr (x, h) ↦ absurd (ground (arith, h))
  | inl (l, h) ↦ elim (Bool-cases (ltb 0 (length l.entries - length (keep_live live l.entries)))) [
    | inr same ↦
        let kept : file' ≡ file = ground (arith, h, same) in
        let count : n ≡ length l.entries - length (keep_live live l.entries) =
          ground (arith, h, same) in
        rw (kept, sym (locked-contents t file l h))
          (
            ap (λ es. record l { entries = es })
                (sym (keep_live-same live l.entries (ground (arith, same)))),
            count,
          )
    | inl less ↦ elim (Option-cases t.writing) [
      | inr (x, w) ↦ absurd (ground (arith, h, less, w))
      | inl w ↦
          let written : file' ≡ holds (to_json (only_live live l)) = ground (arith, h, less, w) in
          let count : n ≡ length l.entries - length (keep_live live l.entries) =
            ground (arith, h, less, w) in
          let old = locked-contents t file l h in
          rw (written, sym old)
            (contents_written (only_live live l) (IsSound-only_live live l (rw old s)), count)
    ]
  ]
]

-- A `gc` that succeeds leaves each live container what it had and every other one nothing, answers
-- how many leases it removed, and leaves no address leased twice.
pub gc_exact :
    (t : Trouble) (file file' : LeaseFile) (live : List Text) (n : ℕ)
    → IsSound (contents file)
    → gc t file live ≡ (file', ok n)
    → ((j : Text)
        → find_id j (contents file').entries
          ≡ (if is_live j live then find_id j (contents file).entries else none))
      × (length (contents file').entries + n ≡ length (contents file).entries)
      × IsSound (contents file')
gc_exact t file file' live n s e =
    let (new, count) = gc-contents t file file' live n s e in
    rw new (
      (λ j. find_id-keep_live j live (contents file).entries),
      omega (arith, count, length-keep_live live (contents file).entries),
      IsSound-only_live live (contents file) s,
    )
