-- ===== src/Responses/Again.antt =====
-- backend/src/cache/responses.rs: two requests at one stamp.
use rawdb.Base.{
  ℕ, ◌≡◌, inl, inr, refl, sym, ap, subst, ◌∙◌, not, ◌&&◌, Bool-cases, Option, none, some, [], ◌∷◌,
  ◌++◌, Text, eq_refl, eqb_iff, leb, length, lookup, insert, lookup-insert, Result, ok, err,
}
use rawdb.Error.{AppError}
use rawdb.S3.{Bytes}
use rawdb.Responses.{
  max_entries, Cached, Entries, if_current, look_up, contains_key, store_entry, entry_of,
  keep_built, hit_or, get_or_build,
}
use rawdb.Responses.Room.{look_up-hit}

if_same : (c : Cached) (s : ℕ) → c.stamp ≡ s → if_current s (some c) ≡ some c
if_same c s h = rw ((eqb_iff c.stamp s).1 h) refl

lookup-new : (key : Text) (c : Cached) (m : Entries) → lookup key (insert key c m) ≡ some c
lookup-new key c m = lookup-insert key key c m ∙ rw (eq_refl key) refl

look_up-store_entry :
    (key : Text) (c : Cached) (m : Entries) → look_up key c.stamp (store_entry key c m) ≡ some c
unfolding look_up store_entry
look_up-store_entry key c m =
    elim (Bool-cases (leb max_entries (length m) && not (contains_key key m))) [
      | inl e ↦ rw (look_up, store_entry, e, lookup-new key c []) (if_same c c.stamp refl)
      | inr e ↦ rw (look_up, store_entry, e, lookup-new key c m) (if_same c c.stamp refl)
    ]

module _ (etag_for : Bytes → Text) where
  get_or_build-hit :
      (name variant content_type : Text) (s : ℕ) (build : Result AppError Bytes)
      (meanwhile : Entries → Entries) (m : Entries) (c : Cached)
      → look_up (name ++ b':' ∷ variant) s m ≡ some c
      → get_or_build etag_for name variant s content_type build meanwhile m ≡ (ok c, m)
  unfolding get_or_build
  get_or_build-hit name variant content_type s build meanwhile m c h = rw (get_or_build, h) refl

  -- A request that succeeds has an answer of its own stamp; another one at that stamp, with no request in between, gets the same answer and
  -- leaves the map as it is, whatever its builder would have answered.
  pub get_or_build_again :
      (name variant content_type content_type' : Text) (s : ℕ)
      (build build' : Result AppError Bytes) (meanwhile meanwhile' : Entries → Entries)
      (entries m : Entries) (c : Cached)
      → get_or_build etag_for name variant s content_type build meanwhile entries ≡ (ok c, m)
      → (c.stamp ≡ s)
        × (get_or_build etag_for name variant s content_type' build' meanwhile' m ≡ (ok c, m))
  unfolding get_or_build keep_built
  get_or_build_again name variant content_type content_type' s build build' meanwhile meanwhile'
        entries m c h =
      let (same, found) = held (look_up key s entries) refl build h in
      (same, get_or_build-hit name variant content_type' s build' meanwhile' m c found)
    where
      key : Text
      key = name ++ b':' ∷ variant

      answer :
          {x : Cached} {n : Entries}
          → ◌≡◌ {A = Result AppError Cached × Entries} (ok x, n) (ok c, m)
          → x ≡ c
      answer {x} w = ap (λ r. elim r.0 [ ok y ↦ y | err e ↦ x ]) w

      refused :
          {e : AppError} {n : Entries}
          → ◌≡◌ {A = Result AppError Cached × Entries} (err e, n) (ok c, m)
          → ⊥
      refused w = failed (ap (λ r. r.0) w)
        where
          failed : {e : AppError} → ◌≡◌ {A = Result AppError Cached} (err e) (ok c) → ⊥
          failed q = cc

      held :
          (o : Option Cached)
          → look_up key s entries ≡ o
          → (build : Result AppError Bytes)
          → hit_or etag_for o entries
              (keep_built etag_for key s content_type build (meanwhile entries))
            ≡ (ok c, m)
          → (c.stamp ≡ s) × (look_up key s m ≡ some c)
      held (some x) e build w =
          let found = rw (answer w, ap (λ r. r.1) w) at e in
          ((look_up-hit key s m c found).1, found)
      held none e (err x) w = absurd (refused w)
      held none e (ok body) w =
          let same = answer w in
          let stamped = ap (λ y. y.stamp) (sym same) in
          (
            stamped,
            subst (λ n. look_up key s n ≡ some c) (ap (λ r. r.1) w)
                (look_up-store_entry key (entry_of etag_for s content_type body) (meanwhile entries)
                  ∙ ap some same),
          )
