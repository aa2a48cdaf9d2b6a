-- ===== src/Admin.antt =====
-- backend/src/routes/admin.rs: rejecting an upload and deleting a set, over `delete_prefix` of
-- backend/src/s3.rs. The role check of `AuthGuard` is in Auth; the body of a tick is an argument.
mod Tests
mod ApproveTests
mod EditTests
pub mod Clear
pub mod Delete
pub mod Objects
pub mod Copies
pub mod Remove
pub mod Kept
pub mod Removal
pub mod Edit
pub mod EditSet
pub mod Tags
pub mod Carried
pub mod Edits
pub mod Before
pub mod Edited
pub mod Selection
pub mod Prepared
pub mod Approve
pub mod Merged
pub mod Moves
pub mod Promote
pub mod Placed
pub mod Approval
use rawdb.Base.{
  ℕ, zero, suc, ◌+◌, ◌-◌, Option, none, some, List, [], ◌∷◌, ◌++◌, Text, length, Result, ok, err,
}
use rawdb.Error.{AppError, not_found, other}
use rawdb.S3.{S3, S3Error, ObjectInfo, Bytes}
use rawdb.Cache.{get_set}
use rawdb.State.{Pod, Job, refresh_one_set, refresh_one_pending}
use rawdb.SyncTick.{Domain, sets, pending, bump}
use rawdb.Scanner.{samples_prefix, pending_prefix}

abbrev pub chunk_size : ℕ
chunk_size = 1000

abbrev pub keys : List ObjectInfo → List Text
keys [] = []
keys (o ∷ os) = o.key ∷ keys os

abbrev pub flush : List Text → List (List Text)
flush [] = []
flush (k ∷ ks) = (k ∷ ks) ∷ []

-- `chunks(1000)`: the chunk that is being filled, with the room that is left in it
unfoldable pub chunks : ℕ → List Text → List Text → List (List Text)
chunks room chunk [] = flush chunk
chunks zero chunk (k ∷ ks) = chunk ∷ chunks (chunk_size - 1) (k ∷ []) ks
chunks (suc room) chunk (k ∷ ks) = chunks room (chunk ++ k ∷ []) ks

module _ {St : Type 0} (s3 : S3 St) where
  unfoldable pub delete_chunks : List (List Text) → ℕ → St → Result S3Error ℕ × St
  delete_chunks [] deleted s = (ok deleted, s)
  delete_chunks (c ∷ cs) deleted s =
      let out = s3.delete_objects c s in
      elim out.0 [ err e ↦ (err e, out.1) | ok u ↦ delete_chunks cs (deleted + length c) out.1 ]

  unfoldable pub delete_prefix : Text → St → Result S3Error ℕ × St
  unfolding delete_chunks chunks
  delete_prefix prefix s = elim (s3.list_objects prefix s) [
    | err e ↦ (err e, s)
    | ok objs ↦ delete_chunks (chunks chunk_size [] (keys objs)) 0 s
  ]

  -- the end of both handlers
  abbrev pub finish : (Domain → Bytes) → Domain → Job → Pod St → Result AppError (Unit {0}) × Pod St
  finish tick d job pod =
      (ok tt, bump s3 tick (d ∷ []) (record pod { jobs = pod.jobs ++ job ∷ [] }))

  -- `if deleted == 0`
  abbrev pub rejected :
      (Domain → Bytes) → Text → Pod St → Result S3Error ℕ × St → Result AppError (Unit {0}) × Pod St
  rejected tick upload_id pod (err e, s) = (err other, record pod { store = s })
  rejected tick upload_id pod (ok zero, s) = (err not_found, record pod { store = s })
  rejected tick upload_id pod (ok (suc n), s) =
      finish tick pending (refresh_one_pending upload_id) (record pod { store = s })

  unfoldable pub reject_pending :
      (Domain → Bytes) → Text → Pod St → Result AppError (Unit {0}) × Pod St
  unfolding delete_prefix
  reject_pending tick upload_id pod =
      rejected tick upload_id pod
        (delete_prefix (pending_prefix ++ upload_id ++ b'/' ∷ []) pod.store)

  abbrev pub cleared_set :
      (Domain → Bytes)
      → Text
      → Text
      → Pod St
      → Result S3Error ℕ × St
      → Result AppError (Unit {0}) × Pod St
  cleared_set tick maker model pod (err e, s) = (err other, record pod { store = s })
  cleared_set tick maker model pod (ok n, s) =
      finish tick sets (refresh_one_set maker model) (record pod { store = s })

  unfoldable pub delete_set :
      (Domain → Bytes) → Text → Text → Pod St → Result AppError (Unit {0}) × Pod St
  unfolding delete_prefix
  delete_set tick maker model pod = elim (get_set maker model pod.cache) [
    | none ↦ (err not_found, pod)
    | some row ↦
        cleared_set tick maker model pod
          (delete_prefix (samples_prefix ++ maker ++ b'/' ∷ model ++ b'/' ∷ []) pod.store)
  ]
