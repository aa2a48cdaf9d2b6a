-- ===== src/RateLimit/Tokens.antt =====
-- backend/src/ratelimit.rs: the tokens that the requests of one IP address consume, told from the decisions.
use rawdb.Base.{
  ℕ, ◌-◌, ◌*◌, ◌^◌, ◌%◌, ◌≤◌, ◌<◌, ◌≡◌, refl, ap, ◌∙◌, Bool, true, false, ◌&&◌, Bool-cases, inl,
  inr, List, [], ◌∷◌, ◌++◌, length, All, All-map, All-append, any, eqb, ltb, leb, if◌then◌else◌,
  arith,
}
use rawdb.RateLimit.{
  Hit, Decision, allowed, limited, second, drop_aged, is_repeat, decide_hit, check_dq,
}
use rawdb.RateLimit.Window.{
  Request, InOrder, consumed, Tracks, check_dq-Tracks, count_young, count_young-le-drop_aged,
  length-drop_aged,
}

-- whether a token for the same path was consumed within the window and less than 20 seconds ago
abbrev is_free : ℕ → Request → List Hit → Bool
is_free w r log =
    any
      (λ h.
        (eqb h.path_hash r.path_hash && ltb (r.now - h.at) (20 * second)) && ltb (r.now - h.at) w)
      log

-- The tokens of a request, by its decision: an allowed request costs one, unless it is free.
abbrev charged : ℕ → Request → List Hit → Decision → List Hit
charged w r log allowed =
    if is_free w r log then [] else record { at = r.now; path_hash = r.path_hash } ∷ []
charged w r log (limited wait) = []

-- The deque and the log of every token that was ever consumed, after the requests.
pub serve : ℕ → ℕ → List Request → List Hit → List Hit → List Hit × List Hit
serve limit w [] dq log = (dq, log)
serve limit w (r ∷ rs) dq log =
    serve limit w rs (check_dq limit w r.path_hash r.now dq).1
      (log ++ charged w r log (check_dq limit w r.path_hash r.now dq).0)

-- the log is in the order of time
abbrev Sorted : List Hit → Type 0
Sorted [] = Unit {0}
Sorted (h ∷ log) = All (λ g. h.at ≤ g.at) log × Sorted log

any_young :
    (w : ℕ) (r : Request) (log : List Hit)
    → All (λ g. r.now - g.at < w) log
    → is_repeat r.path_hash r.now log ≡ is_free w r log
unfolding is_repeat any
any_young w r [] a = refl
any_young w r (h ∷ log) (l, a) = let rest = any_young w r log a in ground arith

-- on a log in order, what has not aged out is what lies in the window
is_repeat-is_free :
    (w : ℕ) (r : Request) (log : List Hit)
    → Sorted log
    → is_repeat r.path_hash r.now (drop_aged w r.now log) ≡ is_free w r log
unfolding is_repeat any drop_aged
is_repeat-is_free w r [] s = refl
is_repeat-is_free w r (h ∷ log) (o, s) = elim (Bool-cases (leb w (r.now - h.at))) [
  | inl e ↦ rw (drop_aged, e) (is_repeat-is_free w r log s ∙ aged e)
  | inr e ↦
      rw (drop_aged, e)
        (any_young w r (h ∷ log)
          (young e, All-map (λ g. h.at ≤ g.at) (λ g. r.now - g.at < w) log (λ g l. later e g l) o))
]
  where
    aged : leb w (r.now - h.at) ≡ true → is_free w r log ≡ is_free w r (h ∷ log)
    aged e = ground arith

    young : leb w (r.now - h.at) ≡ false → r.now - h.at < w
    young e = ground arith

    later : leb w (r.now - h.at) ≡ false → (g : Hit) → h.at ≤ g.at → r.now - g.at < w
    later e g l = let y = young e in omega arith

-- what the decision tells is what the deque keeps
charged-consumed :
    (limit w : ℕ) (r : Request) (dq log : List Hit)
    → is_repeat r.path_hash r.now (drop_aged w r.now dq) ≡ is_free w r log
    → charged w r log (check_dq limit w r.path_hash r.now dq).0
      ≡ consumed limit w r (drop_aged w r.now dq)
unfolding check_dq decide_hit
charged-consumed limit w r dq log e = ground arith

Sorted-append :
    (now : ℕ) (log c : List Hit)
    → Sorted log
    → All (λ g. g.at ≤ now) log
    → All (λ g. now ≤ g.at) c
    → Sorted c
    → Sorted (log ++ c)
Sorted-append now [] c s a k t = t
Sorted-append now (h ∷ log) c (o, s) (l, a) k t = (
  All-append (λ g. h.at ≤ g.at) log c o (All-map _ (λ g. h.at ≤ g.at) c (λ g m. omega arith) k),
  Sorted-append now log c s a k t,
)

-- the tokens of a request carry its time
consumed-All :
    (limit w : ℕ) (r : Request) (d : List Hit)
    → All (λ g. r.now ≤ g.at) (consumed limit w r d)
      × All (λ g. g.at ≤ r.now) (consumed limit w r d)
      × Sorted (consumed limit w r d)
consumed-All limit w r d = go (is_repeat r.path_hash r.now d) (leb limit (length d % 2 ^ 32))
  where
    hits : Bool → Bool → List Hit
    hits a b =
        if a then [] else if b then [] else record { at = r.now; path_hash = r.path_hash } ∷ []

    go :
        (a b : Bool)
        → All (λ g. r.now ≤ g.at) (hits a b)
          × All (λ g. g.at ≤ r.now) (hits a b)
          × Sorted (hits a b)
    go true b = (tt, tt, tt)
    go false true = (tt, tt, tt)
    go false false = ((omega arith, tt), (omega arith, tt), (tt, tt))

-- the deque tracks the log, which is in the order of time
record IsTracked (limit w now : ℕ) (dq log : List Hit) : Type 0 where
  tracks : Tracks limit w now dq log
  sorted : Sorted log
  past : All (λ g. g.at ≤ now) log

step-IsTracked :
    (limit w now : ℕ) (r : Request) (dq log : List Hit)
    → limit < 2 ^ 32
    → now ≤ r.now
    → IsTracked limit w now dq log
    → IsTracked limit w r.now
        (check_dq limit w r.path_hash r.now dq).1
        (log ++ charged w r log (check_dq limit w r.path_hash r.now dq).0)
step-IsTracked limit w now r dq log l o t =
    rw
      (charged-consumed limit w r dq log (
        ap (is_repeat r.path_hash r.now) (t.tracks.same r.now o)
        ∙ is_repeat-is_free w r log t.sorted))
      (let (later, earlier, s) = consumed-All limit w r (drop_aged w r.now dq) in
        let old = All-map _ (λ g. g.at ≤ r.now) log (λ g k. omega arith) t.past in
        record {
          tracks = check_dq-Tracks limit w now r dq log l o t.tracks;
          sorted = Sorted-append r.now log _ t.sorted old later s;
          past = All-append (λ g. g.at ≤ r.now) log _ old earlier;
        })

serve-Tracks :
    (limit w now n : ℕ) (rs : List Request) (dq log : List Hit)
    → limit < 2 ^ 32
    → InOrder now rs
    → now ≤ n
    → All (λ r. r.now ≤ n) rs
    → IsTracked limit w now dq log
    → Tracks limit w n (serve limit w rs dq log).0 (serve limit w rs dq log).1
unfolding serve
serve-Tracks limit w now n [] dq log l o le a t = record {
  same = λ m k. t.tracks.same m (omega arith);
  bounded = t.tracks.bounded;
}
serve-Tracks limit w now n (r ∷ rs) dq log l o le a t =
    serve-Tracks limit w r.now n rs (check_dq limit w r.path_hash r.now dq).1
      (log ++ charged w r log (check_dq limit w r.path_hash r.now dq).0) l o.1 a.0 a.1
      (step-IsTracked limit w now r dq log l o.0 t)

-- Whatever one IP address asks for, in the order of time, at no moment after its requests have more
-- than `limit` tokens been consumed within the window that ends there, where each request that the limiter
-- has allowed consumes one, except where a token for the same path hash was consumed less than 20
-- seconds before, and within the window.
pub count_young-le-limit :
    (limit w n : ℕ) (rs : List Request)
    → limit < 2 ^ 32
    → InOrder 0 rs
    → All (λ r. r.now ≤ n) rs
    → count_young w n (serve limit w rs [] []).1 ≤ limit
count_young-le-limit limit w n rs l o a =
    bound (serve limit w rs [] []).0 (serve limit w rs [] []).1 (
      serve-Tracks limit w 0 n rs [] [] l o (omega arith) a (record {
        tracks = record { same = λ m k. refl; bounded = omega arith };
        sorted = tt;
        past = tt;
      }))
  where
    bound : (dq log : List Hit) → Tracks limit w n dq log → count_young w n log ≤ limit
    bound dq log t =
        let young = count_young-le-drop_aged w n log in
        let kept = ap length (t.same n (omega arith)) in
        let shorter = length-drop_aged w n dq in omega arith
