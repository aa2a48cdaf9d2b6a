-- ===== src/Responses/Race.antt =====
-- backend/src/cache/responses.rs: requests and writes that interleave, as a relation of steps. A request
-- takes the stamp, misses, builds and stores at four moments; a write commits and bumps at two.
use rawdb.Base.{
  ℕ, ◌+◌, ◌^◌, ◌≡◌, ◌<◌, Option, none, some, List, [], ◌∷◌, ◌++◌, Text, Any, Result, ok,
}
use rawdb.Error.{AppError}
use rawdb.S3.{Bytes}
use rawdb.Responses.{Domain, Generations, counter, bump, stamp, Entries, store_entry, entry_of}

-- a request for `key` that has taken its stamp, and then has its body
pub record Request : Type 0 where
  pub key : Text
  pub taken : ℕ
  pub built : Option Bytes

-- what the endpoints with these keys depend on, and what they answer without a cache, from a database `D`
pub record Endpoints (D : Type 0) : Type 0 where
  pub domains : Text → List Domain
  pub content_type : Text → Text
  pub build : Text → D → Result AppError Bytes

pub record World (D : Type 0) : Type 0 where
  pub db : D
  pub gens : Generations
  -- how many writes to each domain have been committed
  pub commits : Generations
  pub entries : Entries
  pub requests : List Request

-- one more of a number that is not bounded
unfoldable pub count_commit : Domain → Generations → Generations
count_commit Domain.sets g = record g { sets = g.sets + 1 }
count_commit Domain.pending g = record g { pending = g.pending + 1 }
count_commit Domain.scan g = record g { scan = g.scan + 1 }

module _ {D : Type 0} (ends : Endpoints D) (etag_for : Bytes → Text) where
  pub data Step : World D → World D → Type 0 where
    -- a write to `d` changes only what depends on `d`; there are fewer than 2^64 of them
    commit :
        (w : World D) (d : Domain) (db : D)
        → ((key : Text)
            → ¬ Any (λ e. e ≡ d) (ends.domains key)
            → ends.build key db ≡ ends.build key w.db)
        → counter d w.commits + 1 < 2 ^ 64
        → Step w (record w { db = db; commits = count_commit d w.commits })
    -- the counter is raised after a commit
    bumped :
        (w : World D) (d : Domain)
        → counter d w.gens < counter d w.commits
        → Step w (record w { gens = bump d w.gens })
    take_stamp :
        (w : World D) (key : Text)
        → Step w (record w {
          requests =
              record { key = key; taken = stamp (ends.domains key) w.gens; built = none }
              ∷ w.requests;
        })
    -- a request that has hit, or whose builder fails, is answered and ends
    answered :
        (w : World D) (xs ys : List Request) (r : Request)
        → w.requests ≡ xs ++ r ∷ ys
        → Step w (record w { requests = xs ++ ys })
    -- one that has missed builds its body
    build :
        (w : World D) (xs ys : List Request) (r : Request) (body : Bytes)
        → w.requests ≡ xs ++ r ∷ ys
        → ends.build r.key w.db ≡ ok body
        → Step w (record w { requests = xs ++ record r { built = some body } ∷ ys })
    store :
        (w : World D) (xs ys : List Request) (r : Request) (body : Bytes)
        → w.requests ≡ xs ++ r ∷ ys
        → r.built ≡ some body
        → Step w (record w {
          requests = xs ++ ys;
          entries =
              store_entry r.key
                (entry_of etag_for r.taken (ends.content_type r.key) body)
                w.entries;
        })

  -- the worlds that can be reached from `w`
  pub data Reach (w : World D) : World D → Type 0 where
    here : Reach w w
    next : {v u : World D} → Reach w v → Step v u → Reach w u

abbrev pub empty_world : {D : Type 0} → D → World D
empty_world db = record {
  db = db;
  gens = record { sets = 0; pending = 0; scan = 0 };
  commits = record { sets = 0; pending = 0; scan = 0 };
  entries = [];
  requests = [];
}
