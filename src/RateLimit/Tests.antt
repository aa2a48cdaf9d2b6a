-- ===== src/RateLimit/Tests.antt =====
-- backend/src/ratelimit.rs: runs of the rate limiter.
use rawdb.Base.{ℕ, ◌*◌, ◌+◌, ◌≡◌, ◌≤◌, refl, List, [], ◌∷◌, Text, codes, length, arith}
use rawdb.RateLimit.{second, Hit, allowed, limited, DownloadRateLimiter, check_dq, check, sweep}
use rawdb.RateLimit.Window.{Request, count_young, check_dq_after_wait}
use rawdb.RateLimit.Tokens.{serve, count_young-le-limit}
use rawdb.RateLimit.Sweep.{check-sweep}

abbrev asked : List Request
asked =
    record { now = 0; path_hash = 3 }
    ∷ record { now = 5; path_hash = 4 }
    ∷ record { now = 7; path_hash = 5 }
    ∷ []

count_young-le-limit_example : count_young 100 50 (serve 2 100 asked [] []).1 ≤ 2
count_young-le-limit_example =
    count_young-le-limit 2 100 50 asked (omega arith)
      (omega arith, (omega arith, (omega arith, tt)))
      (omega arith, (omega arith, (omega arith, tt)))

abbrev full : List Hit
full = record { at = 0; path_hash = 3 } ∷ []

check_dq_tests : (check_dq 1 (10 * second) 7 (5 * second) full).0 ≡ limited (5 * second)
unfolding check_dq rawdb.Base.any
check_dq_tests = refl

check_dq_after_wait_example :
    (second ≤ 5 * second)
    × ((check_dq 1 (10 * second) 8 (10 * second) (check_dq 1 (10 * second) 7 (5 * second) full).1).0
        ≡ allowed)
check_dq_after_wait_example =
    check_dq_after_wait 1 (10 * second) 7 8 (5 * second) (5 * second) (10 * second) full
      (omega arith) (omega arith) (omega arith) (omega arith, tt) check_dq_tests (omega arith)

abbrev limiter : DownloadRateLimiter
limiter = record { limit = 1; window = 10 * second; hits = (codes "10.0.0.1", full) ∷ [] }

check-sweep_example :
    (check length
      (sweep limiter (11 * second))
      (codes "10.0.0.1")
      (codes "raw/a.cr3")
      (12 * second)).0
    ≡ (check length limiter (codes "10.0.0.1") (codes "raw/a.cr3") (12 * second)).0
check-sweep_example =
    check-sweep length limiter (codes "10.0.0.1") (codes "raw/a.cr3") (11 * second) (12 * second)
      (tt, tt) (omega arith)
