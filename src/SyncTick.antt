-- ===== src/SyncTick.antt =====
-- backend/src/sync_tick.rs: instances tell each other of changes by rewriting one S3 object for each
-- domain, and poll the ETags of these objects. The body of a tick (a random number and the time) is
-- an argument.
mod Tests
pub mod Poll
pub mod Bump
pub mod Watch
use rawdb.Base.{
  Bool, true, false, Option, none, some, List, [], ◌∷◌, ◌++◌, Text, codes, ◌==◌, Result, ok, err,
  if◌then◌else◌,
}
use rawdb.S3.{S3, S3Error, HeadInfo, Bytes}
use rawdb.State.{TickState, Pod}

pub data Domain : Type 0 where
  users sets pending : Domain

unfoldable pub key : Domain → Text
key users = codes "_system/sync/users.tick"
key sets = codes "_system/sync/sets.tick"
key pending = codes "_system/sync/pending.tick"

unfoldable pub cell : Domain → TickState → Option Text
cell users t = t.users
cell sets t = t.sets
cell pending t = t.pending

unfoldable pub set_cell : Domain → Option Text → TickState → TickState
set_cell users e t = record t { users = e }
set_cell sets e t = record t { sets = e }
set_cell pending e t = record t { pending = e }

-- after the write of a tick: a failure is only logged
unfoldable pub settle : {St : Type 0} → Domain → Pod St → Result S3Error Text × St → Pod St
settle d pod (ok etag, s') = record pod { store = s'; ticks = set_cell d (some etag) pod.ticks }
settle d pod (err e, s') = record pod { store = s' }

module _ {St : Type 0} (s3 : S3 St) where
  -- one round of `bump`
  unfoldable pub bump_one : (Domain → Bytes) → Domain → Pod St → Pod St
  unfolding settle
  bump_one body d pod = settle d pod (s3.put_bytes (key d) (body d) none none pod.store)

  unfoldable pub bump : (Domain → Bytes) → List Domain → Pod St → Pod St
  unfolding bump_one
  bump body [] pod = pod
  bump body (d ∷ ds) pod = bump body ds (bump_one body d pod)

-- the ETag of an answer to HEAD, if the object is there and has one
abbrev pub seen_etag : Option HeadInfo → Option Text
seen_etag none = none
seen_etag (some i) = i.etag

abbrev pub Heads : Type 0
Heads = List (Domain × Result S3Error (Option HeadInfo))

-- the answers to the three concurrent HEAD requests, in the order in which they are read
unfoldable pub heads : {St : Type 0} → S3 St → St → Heads
heads s3 s =
    (users, s3.head (key users) s)
    ∷ (sets, s3.head (key sets) s)
    ∷ (pending, s3.head (key pending) s)
    ∷ []

prime_from : Heads → TickState → Result S3Error (Unit {0}) × TickState
prime_from [] t = (ok tt, t)
prime_from ((d, err e) ∷ hs) t = (err e, t)
prime_from ((d, ok i) ∷ hs) t =
    prime_from hs (elim (seen_etag i) [ none ↦ t | some e ↦ set_cell d (some e) t ])

unfoldable pub prime_cells :
    {St : Type 0} → S3 St → St → TickState → Result S3Error (Unit {0}) × TickState
unfolding prime_from heads set_cell
prime_cells s3 s t = prime_from (heads s3 s) t

-- One round of the loop of `poll_once`, over the ETag of the tick and the cell: whether the domain
-- has changed, and the cells.
unfoldable pub renew : Domain → TickState → Option Text → Option Text → List Domain × TickState
renew d t none old = ([], t)
renew d t (some e) none = (d ∷ [], set_cell d (some e) t)
renew d t (some e) (some prev) = if prev == e then ([], t) else (d ∷ [], set_cell d (some e) t)

unfoldable pub refresh : Domain → Option HeadInfo → TickState → List Domain × TickState
unfolding renew
refresh d i t = renew d t (seen_etag i) (cell d t)

unfoldable pub poll_from :
    Heads → List Domain → TickState → Result S3Error (List Domain) × TickState
poll_from [] out t = (ok out, t)
poll_from ((d, err e) ∷ hs) out t = (err e, t)
poll_from ((d, ok i) ∷ hs) out t = let (news, t') = refresh d i t in poll_from hs (out ++ news) t'

unfoldable pub poll_once :
    {St : Type 0} → S3 St → St → TickState → Result S3Error (List Domain) × TickState
poll_once s3 s t = poll_from (heads s3 s) [] t
