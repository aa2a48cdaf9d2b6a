-- ===== src/Responses.antt =====
-- backend/src/cache/responses.rs: the cache of rendered responses, with the counters of
-- backend/src/cache/db.rs on which it depends. The ETag of a body (a digest) and the bodies that are
-- built are arguments. The counter of lookups is left out.
pub mod Race
pub mod Stamp
pub mod Room
pub mod Fresh
pub mod Match
pub mod Again
mod Tests
use rawdb.Base.{
  ℕ, zero, suc, ◌+◌, ◌%◌, ◌^◌, Bool, true, false, not, ◌&&◌, ◌||◌, Option, none, some, List, [],
  ◌∷◌, ◌++◌, Text, codes, ◌==◌, any, length, eqb, leb, lookup, insert, split, trim, strip_prefix,
  Result, ok, err, if◌then◌else◌,
}
use rawdb.Error.{AppError}
use rawdb.S3.{Bytes}

-- the domains of backend/src/cache/db.rs, with `Generations` and their counters
pub data Domain : Type 0 where
  sets pending scan : Domain

pub record Generations : Type 0 where
  pub sets : ℕ
  pub pending : ℕ
  pub scan : ℕ

unfoldable pub counter : Domain → Generations → ℕ
counter Domain.sets g = g.sets
counter Domain.pending g = g.pending
counter Domain.scan g = g.scan

-- `fetch_add` on an `AtomicU64`
unfoldable pub bump : Domain → Generations → Generations
bump Domain.sets g = record g { sets = (g.sets + 1) % 2 ^ 64 }
bump Domain.pending g = record g { pending = (g.pending + 1) % 2 ^ 64 }
bump Domain.scan g = record g { scan = (g.scan + 1) % 2 ^ 64 }

-- `sum` of `u64`, as a release build adds
unfoldable pub stamp : List Domain → Generations → ℕ
unfolding counter
stamp [] g = 0
stamp (d ∷ ds) g = (counter d g + stamp ds g) % 2 ^ 64

abbrev pub max_entries : ℕ
max_entries = 256

pub record Cached : Type 0 where
  pub stamp : ℕ
  pub body : Bytes
  pub etag : Text
  pub content_type : Text

abbrev pub Entries : Type 0
Entries = List (Text × Cached)

-- `filter(|c| c.stamp == stamp)`
abbrev pub if_current : ℕ → Option Cached → Option Cached
if_current s none = none
if_current s (some c) = if eqb c.stamp s then some c else none

-- the first critical section of `get_or_build`
unfoldable pub look_up : Text → ℕ → Entries → Option Cached
look_up key s entries = if_current s (lookup key entries)

abbrev pub contains_key : Text → Entries → Bool
contains_key key entries = any (λ e. e.0 == key) entries

-- the second one, which stores an entry
unfoldable pub store_entry : Text → Cached → Entries → Entries
store_entry key c entries =
    if leb max_entries (length entries) && not (contains_key key entries)
    then insert key c []
    else insert key c entries

module _ (etag_for : Bytes → Text) where
  abbrev pub entry_of : ℕ → Text → Bytes → Cached
  entry_of s content_type body = record {
    stamp = s;
    body = body;
    etag = etag_for body;
    content_type = content_type;
  }

  -- after the builder has answered
  unfoldable pub keep_built :
      Text → ℕ → Text → Result AppError Bytes → Entries → Result AppError Cached × Entries
  unfolding store_entry
  keep_built key s content_type (err e) entries = (err e, entries)
  keep_built key s content_type (ok body) entries =
      let c = entry_of s content_type body in (ok c, store_entry key c entries)

  abbrev pub hit_or :
      Option Cached → Entries → Result AppError Cached × Entries → Result AppError Cached × Entries
  hit_or (some hit) entries miss = (ok hit, entries)
  hit_or none entries miss = miss

  -- `build` is what the builder answers, and `meanwhile` what other requests do to the map while it runs.
  unfoldable pub get_or_build :
      Text
      → Text
      → ℕ
      → Text
      → Result AppError Bytes
      → (Entries → Entries)
      → Entries
      → Result AppError Cached × Entries
  unfolding look_up keep_built
  get_or_build name variant s content_type build meanwhile entries =
      let key = name ++ b':' ∷ variant in
      hit_or (look_up key s entries) entries
        (keep_built key s content_type build (meanwhile entries))

-- `trim_start_matches("W/")`, with the rounds that a text of that length can need
strip_weak : ℕ → Text → Text
strip_weak zero t = t
strip_weak (suc n) t = elim (strip_prefix (codes "W/") t) [ none ↦ t | some r ↦ strip_weak n r ]

unfoldable pub trim_weak : Text → Text
unfolding strip_weak
trim_weak t = strip_weak (length t) t

-- one piece of a header
unfoldable pub tag_matches : Text → Text → Bool
unfolding trim_weak
tag_matches ours piece = let t = trim piece in t == codes "*" || trim_weak t == ours

-- `headers`: the values of `If-None-Match`, where a value that is no text is `none`
unfoldable pub if_none_match : List (Option Text) → Text → Bool
unfolding tag_matches
if_none_match [] etag = false
if_none_match (none ∷ values) etag = if_none_match values etag
if_none_match (some v ∷ values) etag =
    any (tag_matches (trim_weak etag)) (split b',' v) || if_none_match values etag

-- the status and the headers of an answer, with its body
pub record Response : Type 0 where
  pub status : ℕ
  pub content_type : Option Text
  pub etag : Text
  pub cache_control : Text
  pub body : Bytes

unfoldable pub respond : Cached → List (Option Text) → Text → Response
unfolding if_none_match
respond cached headers cache_control =
    if if_none_match headers cached.etag
    then record {
      status = 304;
      content_type = none;
      etag = cached.etag;
      cache_control = cache_control;
      body = [];
    }
    else record {
      status = 200;
      content_type = some cached.content_type;
      etag = cached.etag;
      cache_control = cache_control;
      body = cached.body;
    }
