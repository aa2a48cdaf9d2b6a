-- ===== src/RateLimit.antt =====
-- backend/src/ratelimit.rs: the download rate limiter of one instance. Times and durations are in
-- nanoseconds on a clock that never runs back (`Instant`); an IP address is its printed form. The
-- hash of a path (`hash_path`, the standard library's hasher) is an argument. The mutex makes each
-- call atomic, so a call is a function of the map.
mod Tests
pub mod Window
pub mod Tokens
pub mod Sweep
use rawdb.Base.{
  ℕ, zero, suc, ◌+◌, ◌-◌, ◌*◌, ◌%◌, ◌^◌, max, Bool, true, false, ◌&&◌, not, Option, none, some,
  List, [], ◌∷◌, ◌++◌, Text, length, any, lookup, insert, ltb, leb, eqb, if◌then◌else◌,
}

abbrev pub second : ℕ
second = 1000000000

abbrev pub dedup_grace : ℕ
dedup_grace = 20 * second

pub record Hit : Type 0 where
  pub at : ℕ
  pub path_hash : ℕ

pub data Decision : Type 0 where
  allowed : Decision
  limited : (retry_after : ℕ) → Decision

pub record DownloadRateLimiter : Type 0 where
  pub limit : ℕ
  pub window : ℕ
  pub hits : List (Text × List Hit)

-- drop the hits that have aged out, from the front
unfoldable pub drop_aged : ℕ → ℕ → List Hit → List Hit
drop_aged window now [] = []
drop_aged window now (h ∷ dq) =
    let rest = drop_aged window now dq in if leb window (now - h.at) then rest else h ∷ dq

-- the same path, within the grace period
unfoldable pub is_repeat : ℕ → ℕ → List Hit → Bool
is_repeat path_hash now dq = any (λ h. eqb h.path_hash path_hash && ltb (now - h.at) dedup_grace) dq

abbrev pub oldest : ℕ → List Hit → ℕ
oldest now [] = now
oldest now (h ∷ dq) = h.at

-- the rest of `check`, on the pruned deque; the length is cast to `u32`
unfoldable pub decide_hit : ℕ → ℕ → ℕ → ℕ → List Hit → Decision × List Hit
unfolding is_repeat
decide_hit limit window path_hash now dq =
    if is_repeat path_hash now dq
    then (allowed, dq)
    else if leb limit (length dq % 2 ^ 32)
    then (limited (max (window - (now - oldest now dq)) second), dq)
    else (allowed, dq ++ record { at = now; path_hash = path_hash } ∷ [])

unfoldable pub check_dq : ℕ → ℕ → ℕ → ℕ → List Hit → Decision × List Hit
unfolding decide_hit drop_aged
check_dq limit window path_hash now dq =
    decide_hit limit window path_hash now (drop_aged window now dq)

-- `map.entry(ip).or_default()`
unfoldable pub entry : Text → List (Text × List Hit) → List Hit
entry ip hits = elim (lookup ip hits) [ none ↦ [] | some dq ↦ dq ]

unfoldable pub check :
    (Text → ℕ) → DownloadRateLimiter → Text → Text → ℕ → Decision × DownloadRateLimiter
unfolding check_dq entry
check hash_path l ip path now =
    if eqb l.limit 0
    then (allowed, l)
    else let (d, dq) = check_dq l.limit l.window (hash_path path) now (entry ip l.hits) in
      (d, record l { hits = insert ip dq l.hits })

sweep_hits : ℕ → ℕ → List (Text × List Hit) → List (Text × List Hit)
sweep_hits window now [] = []
sweep_hits window now ((ip, dq) ∷ hits) =
    let rest = sweep_hits window now hits in
    elim (drop_aged window now dq) [ [] ↦ rest | h ∷ kept ↦ (ip, h ∷ kept) ∷ rest ]

unfoldable pub sweep : DownloadRateLimiter → ℕ → DownloadRateLimiter
unfolding sweep_hits drop_aged
sweep l now = record l { hits = sweep_hits l.window now l.hits }
