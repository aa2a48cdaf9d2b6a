-- ===== src/Responses/Tests.antt =====
-- backend/src/cache/responses.rs: a request that fills the cache, and headers.
use rawdb.Base.{
  ℕ, ◌≡◌, ◌<◌, ◌↔◌, refl, Bool, true, false, Option, none, some, List, [], ◌∷◌, Text, codes, Any,
  length, Result, ok, err, arith,
}
use rawdb.Error.{not_found}
use rawdb.S3.{Bytes}
use rawdb.Responses.{Domain, Cached, look_up, get_or_build, if_none_match, respond, entry_of, stamp}
use rawdb.Responses.Race.{
  Endpoints, World, take_stamp, build, store, Reach, here, next, empty_world,
}
use rawdb.Responses.Fresh.{IsSound, empty-IsSound, Reach-IsSound, Reach-look_up}
use rawdb.Responses.Match.{Lists, if_none_match_iff}
use rawdb.Responses.Again.{get_or_build_again}

abbrev digest : Bytes → Text
digest b = b

abbrev key : Text
key = codes "tags:"

-- the database is a number of sets, which the endpoint shows
abbrev ends : Endpoints ℕ
ends = record {
  domains = λ k. Domain.sets ∷ [];
  content_type = λ k. codes "application/json";
  build = λ k n. ok (n ∷ []);
}

abbrev entry : Cached
entry = entry_of digest 0 (codes "application/json") (7 ∷ [])

abbrev start : World ℕ
start = empty_world 7

abbrev filled : World ℕ
filled = record start { entries = (key, entry) ∷ [] }

reached : Reach ends digest start filled
unfolding rawdb.Responses.store_entry stamp rawdb.Base.insert
reached =
    next
      (next (next here (take_stamp start key))
        (build _ [] [] (record { key = key; taken = 0; built = none }) (7 ∷ []) refl refl))
      (store _ [] [] (record { key = key; taken = 0; built = some (7 ∷ []) }) (7 ∷ []) refl refl)

Reach-IsSound_example : IsSound ends digest filled
Reach-IsSound_example = Reach-IsSound ends digest start filled (empty-IsSound ends digest 7) reached

found : look_up key (stamp (Domain.sets ∷ []) filled.gens) filled.entries ≡ some entry
unfolding look_up rawdb.Base.lookup rawdb.Base.◌==◌ stamp
found = refl

Reach-look_up_example :
    (ends.build key filled.db ≡ ok entry.body)
    × (entry.etag ≡ digest entry.body)
    × (entry.content_type ≡ ends.content_type key)
unfolding rawdb.Responses.counter
Reach-look_up_example =
    Reach-look_up ends digest 7 filled key entry reached (λ d a. refl) (omega arith) found

first_build :
    get_or_build digest (codes "tags") [] 0 (codes "application/json") (ok (7 ∷ [])) (λ m. m) []
    ≡ (ok entry, (key, entry) ∷ [])
unfolding get_or_build rawdb.Base.lookup rawdb.Base.insert
first_build = refl

failed_build :
    get_or_build digest (codes "tags") [] 0 (codes "application/json") (err not_found) (λ m. m) []
    ≡ (err not_found, [])
unfolding get_or_build rawdb.Base.lookup
failed_build = refl

get_or_build_again_example :
    (entry.stamp ≡ 0)
    × (get_or_build digest
          (codes "tags")
          []
          0
          (codes "text")
          (ok (8 ∷ []))
          (λ m. [])
          ((key, entry) ∷ [])
        ≡ (ok entry, (key, entry) ∷ []))
get_or_build_again_example =
    get_or_build_again digest (codes "tags") [] (codes "application/json") (codes "text") 0
      (ok (7 ∷ [])) (ok (8 ∷ [])) (λ m. m) (λ m. []) [] ((key, entry) ∷ []) entry first_build

weak_tests : if_none_match (some (codes "\"x\", W/\"abc\"") ∷ []) (codes "\"abc\"") ≡ true
unfolding if_none_match rawdb.Base.any rawdb.Base.split rawdb.Base.◌==◌ rawdb.Base.trim
    rawdb.Base.strip_prefix
weak_tests = refl

star_tests : if_none_match (none ∷ some (codes " * ") ∷ []) (codes "W/\"abc\"") ≡ true
unfolding if_none_match rawdb.Base.any rawdb.Base.split rawdb.Base.◌==◌ rawdb.Base.trim
star_tests = refl

other_tests : if_none_match (some (codes "W/\"abd\"") ∷ []) (codes "W/\"abc\"") ≡ false
unfolding if_none_match rawdb.Base.any rawdb.Base.split rawdb.Base.◌==◌ rawdb.Base.trim
    rawdb.Base.strip_prefix
other_tests = refl

respond_tests : (respond entry (some (codes "*") ∷ []) (codes "no-cache")).status ≡ 304
unfolding respond rawdb.Base.any rawdb.Base.split rawdb.Base.◌==◌ rawdb.Base.trim
respond_tests = refl

if_none_match_iff_example :
    (if_none_match (some (codes "*") ∷ []) (codes "a") ≡ true)
    ↔ Any (Lists (codes "a")) (some (codes "*") ∷ [])
if_none_match_iff_example = if_none_match_iff (some (codes "*") ∷ []) (codes "a")
