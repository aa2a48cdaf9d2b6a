-- ===== src/SyncTick/Poll.antt =====
-- Which changes a poll reports.
use rawdb.Base.{
  ◌≡◌, refl, ◌≢◌, ◌↔◌, ◌⊎◌, inl, inr, sym, ap, ◌∙◌, subst, Option, none, some, List, [], ◌∷◌, ◌++◌,
  Text, ◌==◌, eq_iff, Any, Any-append, Any-append_left, Any-append_right, All, Result, ok, err,
  arith, Bool-cases,
}
use rawdb.Action.{pure-ok, pure-state}
use rawdb.S3.{S3, S3Error, HeadInfo}
use rawdb.State.{TickState}
use rawdb.SyncTick.{
  Domain, users, sets, pending, key, cell, set_cell, seen_etag, Heads, heads, renew, refresh,
  poll_from, poll_once,
}

-- The tick of the domain has an ETag that the cell does not hold.
abbrev pub IsNews : Option Text → Option Text → Type 0
IsNews none old = ⊥
IsNews (some e) old = old ≢ some e

-- the ETag of the tick if it has one, else the old one
abbrev pub latest : Option Text → Option Text → Option Text
latest none old = old
latest (some e) old = some e

abbrev pub Reported : Domain → List Domain → Type 0
Reported d out = Any (λ x. x ≡ d) out

pub cell-set_cell : (d : Domain) (e : Option Text) (t : TickState) → cell d (set_cell d e t) ≡ e
unfolding cell set_cell
cell-set_cell users e t = refl
cell-set_cell _ e t = refl

cell-set_cell_ne :
    (d c : Domain) (e : Option Text) (t : TickState) → c ≢ d → cell c (set_cell d e t) ≡ cell c t
unfolding cell set_cell
cell-set_cell_ne users users e t h = absurd (h refl)
cell-set_cell_ne users sets e t h = refl
cell-set_cell_ne users pending e t h = refl
cell-set_cell_ne sets users e t h = refl
cell-set_cell_ne sets sets e t h = absurd (h refl)
cell-set_cell_ne sets pending e t h = refl
cell-set_cell_ne pending users e t h = refl
cell-set_cell_ne pending sets e t h = refl
cell-set_cell_ne pending pending e t h = absurd (h refl)

-- what `refresh` does with the ETag `e` of the tick and the cell `old`
refresh_cases :
    (d : Domain) (i : Option HeadInfo) (t : TickState)
    → (IsNews (seen_etag i) (cell d t) × (refresh d i t ≡ (d ∷ [], set_cell d (seen_etag i) t)))
      ⊎ ((¬ IsNews (seen_etag i) (cell d t))
          × (latest (seen_etag i) (cell d t) ≡ cell d t)
          × (refresh d i t ≡ ([], t)))
unfolding refresh
refresh_cases d i t = go (seen_etag i) (cell d t)
  where
    go :
        (n old : Option Text)
        → (IsNews n old × (renew d t n old ≡ (d ∷ [], set_cell d n t)))
          ⊎ ((¬ IsNews n old) × (latest n old ≡ old) × (renew d t n old ≡ ([], t)))
    go none old = inr (λ x. x, refl, refl)
    go (some e) none = inl (λ q. cc, refl)
    go (some e) (some prev) = elim (Bool-cases (prev == e)) [
      | inl q ↦
          let same : prev ≡ e = (eq_iff prev e).0 q in
          inr ((λ n. n (ap some same)), ap some (sym same), rw q)
      | inr q ↦ inl ((λ r. ground (arith, eq_iff prev e)), rw q)
    ]

pub refresh-Reported :
    (d : Domain) (i : Option HeadInfo) (t : TickState)
    → (Reported d (refresh d i t).0 ↔ IsNews (seen_etag i) (cell d t))
      × (cell d (refresh d i t).1 ≡ latest (seen_etag i) (cell d t))
refresh-Reported d i t = elim (refresh_cases d i t) [
  | inl (news, e) ↦ rw e (
    ((λ r. news), (λ n. inl refl)),
    cell-set_cell d (seen_etag i) t ∙ is_latest (seen_etag i) news,
  )
  | inr (old, same, e) ↦ rw e (((λ r. absurd r), (λ n. absurd (old n))), sym same)
]
  where
    is_latest : (n : Option Text) → IsNews n (cell d t) → n ≡ latest n (cell d t)
    is_latest none h = absurd h
    is_latest (some e) h = refl

refresh-other :
    (d c : Domain) (i : Option HeadInfo) (t : TickState)
    → c ≢ d
    → (¬ Reported c (refresh d i t).0) × (cell c (refresh d i t).1 ≡ cell c t)
refresh-other d c i t h = elim (refresh_cases d i t) [
  | inl (news, e) ↦ rw e (only, cell-set_cell_ne d c (seen_etag i) t h)
  | inr (old, same, e) ↦ rw e ((λ x. x), refl)
]
  where
    only : (d ≡ c) ⊎ ⊥ → ⊥
    only (inl q) = h (sym q)
    only (inr x) = x

-- a domain whose tick is not polled
pub poll_from-absent :
    (c : Domain) (hs : Heads) (out out' : List Domain) (t t' : TickState)
    → All (λ h. c ≢ h.0) hs
    → poll_from hs out t ≡ (ok out', t')
    → (Reported c out' ↔ Reported c out) × (cell c t' ≡ cell c t)
unfolding poll_from
poll_from-absent c [] out out' t t' a e =
    let same = pure-ok e in
    ((subst (Reported c) (sym same), subst (Reported c) same), ap (cell c) (sym (pure-state e)))
poll_from-absent c ((d, err x) ∷ hs) out out' t t' a e = cc
poll_from-absent c ((d, ok i) ∷ hs) out out' t t' a e =
    let (there, kept) =
      poll_from-absent c hs (out ++ (refresh d i t).0) out' (refresh d i t).1 t' a.1 e in
    let (silent, same) = refresh-other d c i t a.0 in
    (
      (
        λ r. elim (Any-append (λ x. x ≡ c) out (refresh d i t).0 (there.0 r)) [
          | inl o ↦ o
          | inr n ↦ absurd (silent n)
        ],
        λ r. there.1 (Any-append_left (λ x. x ≡ c) out (refresh d i t).0 r),
      ),
      kept ∙ same,
    )

-- What a poll has to say of the domain whose tick answered `h`.
abbrev pub Tells :
    Domain
    → Result S3Error (Option HeadInfo)
    → TickState
    → List Domain
    → List Domain
    → TickState
    → Type 0
Tells d h t out out' t' =
    (i : Option HeadInfo) × (h ≡ ok i)
    × (Reported d out' ↔ (Reported d out ⊎ IsNews (seen_etag i) (cell d t)))
    × (cell d t' ≡ latest (seen_etag i) (cell d t))

poll_from-here :
    (d : Domain) (h : Result S3Error (Option HeadInfo)) (hs : Heads) (out out' : List Domain)
    (t t' : TickState)
    → All (λ x. d ≢ x.0) hs
    → poll_from ((d, h) ∷ hs) out t ≡ (ok out', t')
    → Tells d h t out out' t'
unfolding poll_from
poll_from-here d (err x) hs out out' t t' a e = cc
poll_from-here d (ok i) hs out out' t t' a e =
    let (there, kept) =
      poll_from-absent d hs (out ++ (refresh d i t).0) out' (refresh d i t).1 t' a e in
    let (told, now) = refresh-Reported d i t in
    (
      i,
      refl,
      (
        λ r. elim (Any-append (λ x. x ≡ d) out (refresh d i t).0 (there.0 r)) [
          | inl o ↦ inl o
          | inr n ↦ inr (told.0 n)
        ],
        λ r. there.1 (joined r told.1),
      ),
      kept ∙ now,
    )
  where
    joined :
        Reported d out ⊎ IsNews (seen_etag i) (cell d t)
        → (IsNews (seen_etag i) (cell d t) → Reported d (refresh d i t).0)
        → Reported d (out ++ (refresh d i t).0)
    joined (inl o) f = Any-append_left (λ x. x ≡ d) out (refresh d i t).0 o
    joined (inr n) f = Any-append_right (λ x. x ≡ d) out (refresh d i t).0 (f n)

-- a tick that is polled behind another one
poll_from-later :
    (d c : Domain) (g h : Result S3Error (Option HeadInfo)) (hs : Heads) (out out' : List Domain)
    (t t' : TickState)
    → d ≢ c
    → ((out : List Domain) (t : TickState)
        → poll_from hs out t ≡ (ok out', t')
        → Tells d h t out out' t')
    → poll_from ((c, g) ∷ hs) out t ≡ (ok out', t')
    → Tells d h t out out' t'
unfolding poll_from
poll_from-later d c (err x) h hs out out' t t' n f e = cc
poll_from-later d c (ok i) h hs out out' t t' n f e =
    let (j, same, told, now) = f (out ++ (refresh c i t).0) (refresh c i t).1 e in
    let (silent, kept) = refresh-other c d i t n in
    (
      j,
      same,
      (λ r. back j silent kept (told.0 r), λ r. told.1 (forth j kept r)),
      now ∙ ap (latest (seen_etag j)) kept,
    )
  where
    back :
        (j : Option HeadInfo)
        → (¬ Reported d (refresh c i t).0)
        → cell d (refresh c i t).1 ≡ cell d t
        → Reported d (out ++ (refresh c i t).0) ⊎ IsNews (seen_etag j) (cell d (refresh c i t).1)
        → Reported d out ⊎ IsNews (seen_etag j) (cell d t)
    back j silent kept (inl r) = elim (Any-append (λ x. x ≡ d) out (refresh c i t).0 r) [
      | inl o ↦ inl o
      | inr m ↦ absurd (silent m)
    ]
    back j silent kept (inr m) = inr (subst (IsNews (seen_etag j)) kept m)

    forth :
        (j : Option HeadInfo)
        → cell d (refresh c i t).1 ≡ cell d t
        → Reported d out ⊎ IsNews (seen_etag j) (cell d t)
        → Reported d (out ++ (refresh c i t).0) ⊎ IsNews (seen_etag j) (cell d (refresh c i t).1)
    forth j kept (inl o) = inl (Any-append_left (λ x. x ≡ d) out (refresh c i t).0 o)
    forth j kept (inr m) = inr (subst (IsNews (seen_etag j)) (sym kept) m)

-- If a poll succeeds, the tick of every domain was answered; the domain is reported exactly if the
-- tick has an ETag that the instance's cell does not hold, and the cell then holds the ETag of the tick.
pub poll_once-Tells :
    {St : Type 0} (s3 : S3 St) (s : St) (t t' : TickState) (changed : List Domain) (d : Domain)
    → poll_once s3 s t ≡ (ok changed, t')
    → (i : Option HeadInfo) × (s3.head (key d) s ≡ ok i)
      × (Reported d changed ↔ IsNews (seen_etag i) (cell d t))
      × (cell d t' ≡ latest (seen_etag i) (cell d t))
unfolding poll_once heads
poll_once-Tells s3 s t t' changed d e = plain (go d)
  where
    plain :
        Tells d (s3.head (key d) s) t [] changed t'
        → (i : Option HeadInfo) × (s3.head (key d) s ≡ ok i)
          × (Reported d changed ↔ IsNews (seen_etag i) (cell d t))
          × (cell d t' ≡ latest (seen_etag i) (cell d t))
    plain (i, same, told, now) = (
      i,
      same,
      ((λ r. elim (told.0 r) [ inl x ↦ absurd x | inr n ↦ n ]), λ n. told.1 (inr n)),
      now,
    )

    go : (d : Domain) → Tells d (s3.head (key d) s) t [] changed t'
    go users = poll_from-here users _ _ [] changed t t' ((λ q. cc), ((λ q. cc), tt)) e
    go sets =
        poll_from-later sets users (s3.head (key users) s) (s3.head (key sets) s) _ [] changed t t'
          (λ q. cc)
          (λ out u. poll_from-here sets (s3.head (key sets) s) _ out changed u t' ((λ q. cc), tt)) e
    go pending =
        poll_from-later pending users (s3.head (key users) s) (s3.head (key pending) s) _ [] changed
          t t' (λ q. cc)
          (λ out u.
            poll_from-later pending sets (s3.head (key sets) s) (s3.head (key pending) s) _ out
              changed u t' (λ q. cc)
              (λ out' u'.
                poll_from-here pending (s3.head (key pending) s) [] out' changed u' t' tt))
          e
