-- ===== src/Users/Commit.antt =====
-- backend/src/users.rs, `cas_update`: the loop over the retries.
use rawdb.Base.{ℕ, zero, suc, ◌≡◌, refl, Bool, true, Result}
use rawdb.S3.{S3, Bytes, IsStore}
use rawdb.State.{Pod}
use rawdb.SyncTick.{Domain}
use rawdb.Users.{
  UsersFile, UsersError, Codec, Request, Round, finished, again, cas_loop, cas_update,
  max_cas_retries,
}
use rawdb.Users.Attempt.{HasEtags, EtagsIdentify, IsUpdate, IsRound, cas_round-IsRound}

module _ {St : Type 0} {s3 : S3 St} (st : IsStore s3) (codec : Codec) (conditional : Bool)
    (tick : Domain → Bytes) (others : Request → St → St) where
  cas_loop-IsUpdate :
      HasEtags st codec
      → EtagsIdentify st codec
      → (n : ℕ) (mutate : UsersFile → Result UsersError UsersFile) (pod : Pod St)
      → conditional ≡ true
      → IsUpdate st codec conditional tick others mutate pod
          (cas_loop s3 codec conditional tick others n mutate pod)
  unfolding cas_loop
  cas_loop-IsUpdate he id zero mutate pod c = (pod.store, refl)
  cas_loop-IsUpdate he id (suc n) mutate pod c =
      rounds (λ s. cas_loop-IsUpdate he id n mutate (record pod { store = s }) c) _
        (cas_round-IsRound st codec conditional tick others he id n mutate pod c)
    where
      rounds :
          ((s : St)
            → IsUpdate st codec conditional tick others mutate pod
                (cas_loop s3 codec conditional tick others n mutate (record pod { store = s })))
          → (r : Round St) → IsRound st codec conditional tick others mutate pod r
          → IsUpdate st codec conditional tick others mutate pod (elim r [
            | finished x pod' ↦ (x, pod')
            | again pod' ↦ cas_loop s3 codec conditional tick others n mutate pod'
          ])
      rounds ih (finished x pod') h = h
      rounds ih (again pod') (s, h) = rw h (ih s)

  -- With conditional writes, whatever other instances do to the store between the requests: an
  -- update that answers with a file has either changed nothing and written nothing, or was applied
  -- to the users file as it stood when the write took effect, so that no other update is lost; the
  -- write changed that one object, the mirror has the rows and the ETag of the new file, and the
  -- tick was bumped after both. An update that fails has changed only the store.
  -- The service is assumed to give each object an ETag that identifies its body.
  pub cas_update-IsUpdate :
      HasEtags st codec
      → EtagsIdentify st codec
      → (mutate : UsersFile → Result UsersError UsersFile) (pod : Pod St) → conditional ≡ true
      → IsUpdate st codec conditional tick others mutate pod
          (cas_update s3 codec conditional tick others mutate pod)
  unfolding cas_update
  cas_update-IsUpdate he id mutate pod c = cas_loop-IsUpdate he id max_cas_retries mutate pod c
