-- ===== src/Ipam/Refuse.antt =====
-- src/runtime/ipam.rs: an `allocate` that fails.
use myrun.Prelude.{ℕ, ◌≡◌, inl, inr, Option, arith, Bool-cases, Option-cases}
use myrun.Text.{Text}
use myrun.Error.{Error, Result, ok, err, Result-cases}
use myrun.Netlink.Address.{Ipv4}
use myrun.Ipam.{
  Leases, LeaseFile, Trouble, store, find_id, for_subnet, choose, agrees, without, lease_new,
  allocate_in, opened, allocate,
}
use myrun.Ipam.Allocate.{with_prefix}

with_prefix_err :
    (p : ℕ) (x : LeaseFile × Result Ipv4) (file' : LeaseFile) (e : Error)
    → with_prefix p x ≡ (file', err e)
    → x ≡ (file', err e)
unfolding with_prefix
with_prefix_err p (file, ok a) file' e h = ground arith
with_prefix_err p (file, err a) file' e h = ground arith

lease_new_err :
    (t : Trouble) (file : LeaseFile) (subnet id : Text) (requested : Option Ipv4) (gw : Ipv4)
    (l : Leases) (file' : LeaseFile) (x : Error)
    → lease_new t file subnet id requested gw l ≡ (file', err x)
    → file' ≡ file
unfolding lease_new store
lease_new_err t file subnet id requested gw l file' x e =
    elim (Result-cases (choose subnet requested gw l.entries)) [
      | inr (y, h) ↦ ground (arith, h)
      | inl (a, h) ↦ elim (Option-cases t.writing) [
        | inl w ↦ ground (arith, h, w)
        | inr (y, w) ↦ ground (arith, h, w)
      ]
    ]

allocate_in_err :
    (t : Trouble) (file : LeaseFile) (subnet id : Text) (requested : Option Ipv4) (gw : Ipv4)
    (l : Leases) (file' : LeaseFile) (x : Error)
    → allocate_in t file subnet id requested gw l ≡ (file', err x)
    → file' ≡ file
unfolding allocate_in
allocate_in_err t file subnet id requested gw l file' x e =
    elim (Option-cases (find_id id l.entries)) [
      | inl f ↦ lease_new_err t file subnet id requested gw l file' x (ground (arith, f))
      | inr (a, f) ↦ elim (Bool-cases (agrees requested a)) [
        | inl g ↦ ground (arith, f, g)
        | inr g ↦
            lease_new_err t file subnet id requested gw (without id l) file' x
              (ground (arith, f, g))
      ]
    ]

-- An `allocate` that fails, at whichever step, leaves the lease file as it was.
pub allocate_refused :
    (t : Trouble) (file : LeaseFile) (subnet id : Text) (requested : Option Ipv4) (gw : Ipv4)
    (file' : LeaseFile) (x : Error)
    → allocate t file subnet id requested gw ≡ (file', err x)
    → file' ≡ file
unfolding allocate with_prefix
allocate_refused t file subnet id requested gw file' x e =
    elim (Result-cases (opened t file subnet)) [
      | inr (y, h) ↦ ground (arith, h)
      | inl ((p, l), h) ↦
          allocate_in_err t file subnet id requested gw (for_subnet subnet l) file' x (
            with_prefix_err p (allocate_in t file subnet id requested gw (for_subnet subnet l))
              file' x (ground (arith, h)))
    ]
