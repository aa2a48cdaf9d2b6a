-- ===== src/RateLimit/Window.antt =====
-- The sliding window: what one IP address may consume, and when it may come back.
use rawdb.Base.{
  ℕ, suc, ◌+◌, ◌-◌, ◌%◌, ◌^◌, ◌≤◌, ◌<◌, max, append-nil, ◌≡◌, refl, ap, sym, ◌∙◌, true, List, [],
  ◌∷◌, ◌++◌, length, length-append, All, ltb, leb, if◌then◌else◌, arith, Bool-cases, inl, inr,
}
use rawdb.RateLimit.{
  Hit, allowed, limited, second, drop_aged, decide_hit, check_dq, oldest, is_repeat,
}

-- Pruning again later is the same as pruning once, later.
drop_aged-drop_aged :
    (w n m : ℕ) (dq : List Hit) → n ≤ m → drop_aged w m (drop_aged w n dq) ≡ drop_aged w m dq
unfolding drop_aged
drop_aged-drop_aged w n m [] l = refl
drop_aged-drop_aged w n m (h ∷ dq) l = ground (arith, drop_aged-drop_aged w n m dq l)

pub length-drop_aged : (w n : ℕ) (dq : List Hit) → length (drop_aged w n dq) ≤ length dq
unfolding drop_aged
length-drop_aged w n [] = omega arith
length-drop_aged w n (h ∷ dq) = ground (arith, length-drop_aged w n dq)

-- A request of one IP address: when, and for which path.
pub record Request : Type 0 where
  pub now : ℕ
  pub path_hash : ℕ

-- No request comes before `n`, and none before the one in front of it.
abbrev pub InOrder : ℕ → List Request → Type 0
InOrder n [] = Unit
InOrder n (r ∷ rs) = (n ≤ r.now) × InOrder r.now rs

-- the tokens that are consumed by a check: the hit that it appends, if any
abbrev pub consumed : ℕ → ℕ → Request → List Hit → List Hit
consumed limit w r dq =
    if is_repeat r.path_hash r.now dq
    then []
    else if leb limit (length dq % 2 ^ 32)
    then []
    else record { at = r.now; path_hash = r.path_hash } ∷ []

-- the hits that lie less than `w` before the moment `n`
unfoldable pub count_young : ℕ → ℕ → List Hit → ℕ
count_young w n [] = 0
count_young w n (h ∷ log) =
    let rest = count_young w n log in if ltb (n - h.at) w then suc rest else rest

count_young-le-length : (w n : ℕ) (log : List Hit) → count_young w n log ≤ length log
unfolding count_young
count_young-le-length w n [] = omega arith
count_young-le-length w n (h ∷ log) = ground (arith, count_young-le-length w n log)

pub count_young-le-drop_aged :
    (w n : ℕ) (log : List Hit) → count_young w n log ≤ length (drop_aged w n log)
unfolding count_young drop_aged
count_young-le-drop_aged w n [] = omega arith
count_young-le-drop_aged w n (h ∷ log) =
    ground (arith, count_young-le-drop_aged w n log, count_young-le-length w n log)

abbrev glue : ℕ → ℕ → List Hit → List Hit → List Hit
glue w m [] c = drop_aged w m c
glue w m (h ∷ t) c = h ∷ t ++ c

drop_aged-append :
    (w m : ℕ) (xs c : List Hit) → drop_aged w m (xs ++ c) ≡ glue w m (drop_aged w m xs) c
unfolding drop_aged
drop_aged-append w m [] c = refl
drop_aged-append w m (h ∷ xs) c = ground (arith, drop_aged-append w m xs c)

-- The deque keeps of the log what any later moment still counts, and it is within the limit.
pub record Tracks (limit w now : ℕ) (dq log : List Hit) : Type 0 where
  pub same : (m : ℕ) → now ≤ m → drop_aged w m dq ≡ drop_aged w m log
  pub bounded : length dq ≤ limit

check_dq-consumed :
    (limit w : ℕ) (r : Request) (dq : List Hit)
    → (check_dq limit w r.path_hash r.now dq).1
      ≡ drop_aged w r.now dq ++ consumed limit w r (drop_aged w r.now dq)
unfolding check_dq decide_hit
check_dq-consumed limit w r dq = go (drop_aged w r.now dq)
  where
    go : (d : List Hit) → (decide_hit limit w r.path_hash r.now d).1 ≡ d ++ consumed limit w r d
    go d = ground (arith, append-nil d)

length-consumed :
    (limit w : ℕ) (r : Request) (d : List Hit)
    → limit < 2 ^ 32
    → length d ≤ limit
    → length (d ++ consumed limit w r d) ≤ limit
length-consumed limit w r d l h =
    ground
      (arith, append-nil d, length-append d (record { at = r.now; path_hash = r.path_hash } ∷ []))

same_suffix :
    (w n m : ℕ) (dq log c : List Hit)
    → n ≤ m
    → drop_aged w m dq ≡ drop_aged w m log
    → drop_aged w m (drop_aged w n dq ++ c) ≡ drop_aged w m (log ++ c)
same_suffix w n m dq log c l e =
    drop_aged-append w m (drop_aged w n dq) c
    ∙ ap (λ d. glue w m d c) (drop_aged-drop_aged w n m dq l ∙ e)
    ∙ sym (drop_aged-append w m log c)

pub check_dq-Tracks :
    (limit w now : ℕ) (r : Request) (dq log : List Hit)
    → limit < 2 ^ 32
    → now ≤ r.now
    → Tracks limit w now dq log
    → Tracks limit w r.now
        (check_dq limit w r.path_hash r.now dq).1
        (log ++ consumed limit w r (drop_aged w r.now dq))
check_dq-Tracks limit w now r dq log l o t = rw (check_dq-consumed limit w r dq) (record {
  same = λ m k.
      same_suffix w r.now m dq log (consumed limit w r (drop_aged w r.now dq)) k
        (t.same m (omega arith));
  bounded =
      length-consumed limit w r (drop_aged w r.now dq) l
        (let shorter = length-drop_aged w r.now dq in omega arith);
})

decide_hit_room :
    (limit w h now : ℕ) (dq : List Hit)
    → length dq < limit
    → limit < 2 ^ 32
    → (decide_hit limit w h now dq).0 ≡ allowed
unfolding decide_hit
decide_hit_room limit w h now dq l m = ground arith

decide_hit-limited :
    (limit w h now : ℕ) (dq : List Hit) (t : ℕ)
    → (decide_hit limit w h now dq).0 ≡ limited t
    → (leb limit (length dq % 2 ^ 32) ≡ true)
      × (t ≡ max (w - (now - oldest now dq)) second)
      × ((decide_hit limit w h now dq).1 ≡ dq)
unfolding decide_hit
decide_hit-limited limit w h now dq t e = ground arith

-- the oldest hit is gone once its age has reached the window
oldest_ages :
    (w m : ℕ) (g : Hit) (dq : List Hit) → w ≤ m - g.at → length (drop_aged w m (g ∷ dq)) ≤ length dq
unfolding drop_aged
oldest_ages w m g dq l = let shorter = length-drop_aged w m dq in ground arith

All-drop_aged :
    (P : Hit → Type 0) (w now : ℕ) (dq : List Hit) → All P dq → All P (drop_aged w now dq)
unfolding drop_aged
All-drop_aged P w now [] a = tt
All-drop_aged P w now (g ∷ dq) a = elim (Bool-cases (leb w (now - g.at))) [
  | inl e ↦ rw e (All-drop_aged P w now dq a.1)
  | inr e ↦ rw e a
]

room_after_wait :
    (limit w now t n : ℕ) (d : List Hit)
    → 0 < limit
    → limit < 2 ^ 32
    → length d ≤ limit
    → All (λ g. g.at ≤ now) d
    → leb limit (length d % 2 ^ 32) ≡ true
    → t ≡ max (w - (now - oldest now d)) second
    → now + t ≤ n
    → length (drop_aged w n d) < limit
room_after_wait limit w now t n [] p l b a f e le = absurd (ground arith)
room_after_wait limit w now t n (g ∷ d) p l b a f e le =
    let gone = oldest_ages w n g d (omega arith) in omega arith

-- A refused request waits a second at least, and is allowed if it comes again after the time that
-- it was told, whatever path it asks for then.
pub check_dq_after_wait :
    (limit w h h' now t n : ℕ) (dq : List Hit)
    → 0 < limit
    → limit < 2 ^ 32
    → length dq ≤ limit
    → All (λ g. g.at ≤ now) dq
    → (check_dq limit w h now dq).0 ≡ limited t
    → now + t ≤ n
    → (second ≤ t) × ((check_dq limit w h' n (check_dq limit w h now dq).1).0 ≡ allowed)
unfolding check_dq
check_dq_after_wait limit w h h' now t n dq p l b a e le =
    let d = drop_aged w now dq in
    let shorter = length-drop_aged w now dq in
    let (full, wait, kept) = decide_hit-limited limit w h now d t e in
    let room =
      room_after_wait limit w now t n d p l (omega arith)
        (All-drop_aged (λ g. g.at ≤ now) w now dq a) full wait le in
    (omega arith, rw kept (decide_hit_room limit w h' n (drop_aged w n d) room l))

-- A sweep between two requests of an IP address changes neither the next decision nor the deque
-- behind it.
pub check_dq-drop_aged :
    (limit w h n m : ℕ) (dq : List Hit)
    → n ≤ m
    → check_dq limit w h m (drop_aged w n dq) ≡ check_dq limit w h m dq
unfolding check_dq
check_dq-drop_aged limit w h n m dq l = rw (drop_aged-drop_aged w n m dq l)
