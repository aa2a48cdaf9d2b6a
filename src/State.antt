-- ===== src/State.antt =====
-- backend/src/state.rs: what one instance of the backend holds. Metrics and logs are left out.
use rawdb.Base.{Option, List, Text, Result, map_err}
use rawdb.Error.{other}
use rawdb.Action.{Action}
use rawdb.S3.{S3Error}
use rawdb.Cache.{Cache}

-- `TickState` of backend/src/sync_tick.rs: for each domain the ETag seen last
pub record TickState : Type 0 where
  pub users : Option Text
  pub sets : Option Text
  pub pending : Option Text

-- a task that a handler has spawned and does not wait for
pub data Job : Type 0 where
  refresh_one_set : (maker model : Text) → Job
  refresh_one_pending : (upload_id : Text) → Job

-- the Kubernetes events of backend/src/events.rs that the handlers emit
pub data Event : Type 0 where
  set_approved upload_created : (maker model by_sub : Text) → Event

pub record Pod (St : Type 0) : Type 0 where
  pub store : St
  pub cache : Cache
  pub ticks : TickState
  pub jobs : List Job
  pub events : List Event

-- a request that may change the store: a failure of the service is an internal error
abbrev pub with_store {ℓ} :
    {St : Type 0} {A : Type ℓ} → (St → Result S3Error A × St) → Action (Pod St) A
with_store f pod =
    let out = f pod.store in (map_err (λ e. other) out.0, record pod { store = out.1 })
