-- ===== src/Responses/Fresh.antt =====
-- backend/src/cache/responses.rs: an entry that is current holds what its endpoint answers now, in every order of
-- the steps of Responses/Race.
use rawdb.Base.{
  ℕ, ◌+◌, ◌%◌, ◌^◌, ◌≡◌, ◌<◌, ◌≤◌, inl, inr, refl, subst, ◌∙◌, Option, none, some, Text, Any, All,
  All-map, All-split, All-append, length, ok, arith,
}
use rawdb.S3.{Bytes}
use rawdb.Responses.{Domain, counter, stamp, max_entries, Cached, look_up}
use rawdb.Responses.Race.{
  Endpoints, World, count_commit, Step, commit, bumped, take_stamp, answered, build, store, Reach,
  here, next, empty_world,
}
use rawdb.Responses.Stamp.{
  total, counter-commit, counter-bump, total-commit, stamp-le-total, stamp-total,
}
use rawdb.Responses.Room.{length-store_entry, store_entry-All, lookup-All, look_up-hit}

module _ {D : Type 0} (ends : Endpoints D) (etag_for : Bytes → Text) where
  -- If no write has been committed after stamp `s`, the endpoint still answers `body`.
  abbrev pub IsTimely : World D → Text → ℕ → Bytes → Type 0
  IsTimely w key s body =
      (s ≤ total (ends.domains key) w.commits)
      × (s ≡ total (ends.domains key) w.commits → ends.build key w.db ≡ ok body)

  abbrev pub IsEntry : World D → Text → Cached → Type 0
  IsEntry w key c =
      IsTimely w key c.stamp c.body
      × (c.etag ≡ etag_for c.body)
      × (c.content_type ≡ ends.content_type key)

  abbrev pub IsBuilt : World D → Text → ℕ → Option Bytes → Type 0
  IsBuilt w key s none = s ≤ total (ends.domains key) w.commits
  IsBuilt w key s (some body) = IsTimely w key s body

  -- No counter is ahead of the commits, the map has at most 256 entries, and entries and requests are timely.
  pub record IsSound (w : World D) : Type 0 where
    pub behind : (d : Domain) → counter d w.gens ≤ counter d w.commits
    pub small : (d : Domain) → counter d w.commits < 2 ^ 64
    pub entries_ok : All (λ e. IsEntry w e.0 e.1) w.entries
    pub requests_ok : All (λ r. IsBuilt w r.key r.taken r.built) w.requests
    pub bounded : length w.entries ≤ max_entries

  IsTimely-commit :
      (w : World D) (d : Domain) (db : D) (key : Text) (s : ℕ) (body : Bytes)
      → ((key : Text)
          → ¬ Any (λ e. e ≡ d) (ends.domains key)
          → ends.build key db ≡ ends.build key w.db)
      → IsTimely w key s body
      → IsTimely (record w { db = db; commits = count_commit d w.commits }) key s body
  IsTimely-commit w d db key s body h (l, t) = elim (total-commit d (ends.domains key) w.commits) [
    | inl lt ↦ (omega (arith, lt, l), λ e. absurd (omega (arith, lt, l, e)))
    | inr (out, eq) ↦ (omega (arith, eq, l), λ e. h key out ∙ t (e ∙ eq))
  ]

  IsBuilt-commit :
      (w : World D) (d : Domain) (db : D) (key : Text) (s : ℕ) (built : Option Bytes)
      → ((key : Text)
          → ¬ Any (λ e. e ≡ d) (ends.domains key)
          → ends.build key db ≡ ends.build key w.db)
      → IsBuilt w key s built
      → IsBuilt (record w { db = db; commits = count_commit d w.commits }) key s built
  IsBuilt-commit w d db key s none h l = elim (total-commit d (ends.domains key) w.commits) [
    | inl lt ↦ omega (arith, lt, l)
    | inr (out, eq) ↦ omega (arith, eq, l)
  ]
  IsBuilt-commit w d db key s (some body) h t = IsTimely-commit w d db key s body h t

  pub Step-IsSound : (w v : World D) → Step ends etag_for w v → IsSound w → IsSound v
  Step-IsSound _ _ (commit w d db h lt) i = record {
    behind = λ e. elim (counter-commit d e w.commits) [
      | inl (same, up) ↦ omega (arith, i.behind e, up)
      | inr (ne, keep) ↦ omega (arith, i.behind e, keep)
    ];
    small = λ e. elim (counter-commit d e w.commits) [
      | inl (same, up) ↦ rw (up, same) lt
      | inr (ne, keep) ↦ rw keep (i.small e)
    ];
    entries_ok =
        All-map _ _ w.entries
          (λ e (t, g, x). (IsTimely-commit w d db e.0 e.1.stamp e.1.body h t, g, x)) i.entries_ok;
    requests_ok =
        All-map _ _ w.requests (λ r. IsBuilt-commit w d db r.key r.taken r.built h) i.requests_ok;
    bounded = i.bounded;
  }
  Step-IsSound _ _ (bumped w d lt) i = record {
    behind = λ e. elim (counter-bump d e w.gens) [
      | inl (same, up) ↦
          rw (up, same) (raised (counter d w.gens) (counter d w.commits) lt (i.small d))
      | inr (ne, keep) ↦ rw keep (i.behind e)
    ];
    small = i.small;
    entries_ok = i.entries_ok;
    requests_ok = i.requests_ok;
    bounded = i.bounded;
  }
    where
      raised : (g c : ℕ) → g < c → c < 2 ^ 64 → (g + 1) % 2 ^ 64 ≤ c
      raised g c l m = omega arith
  Step-IsSound _ _ (take_stamp w key) i = record {
    behind = i.behind;
    small = i.small;
    entries_ok = i.entries_ok;
    requests_ok = (stamp-le-total (ends.domains key) w.gens w.commits i.behind, i.requests_ok);
    bounded = i.bounded;
  }
  Step-IsSound _ _ (answered w xs ys r e) i =
      let (l, m, n) = All-split _ xs ys w.requests r e i.requests_ok in
      record {
        behind = i.behind;
        small = i.small;
        entries_ok = i.entries_ok;
        requests_ok = All-append _ xs ys l n;
        bounded = i.bounded;
      }
  Step-IsSound _ _ (build w xs ys r body e b) i =
      let (l, m, n) = All-split _ xs ys w.requests r e i.requests_ok in
      record {
        behind = i.behind;
        small = i.small;
        entries_ok = i.entries_ok;
        requests_ok = All-append _ xs _ l ((old r.built m, λ q. b), n);
        bounded = i.bounded;
      }
    where
      old :
          (built : Option Bytes)
          → IsBuilt w r.key r.taken built
          → r.taken ≤ total (ends.domains r.key) w.commits
      old none m = m
      old (some b) m = m.0
  Step-IsSound _ _ (store w xs ys r body e b) i =
      let (l, m, n) = All-split _ xs ys w.requests r e i.requests_ok in
      record {
        behind = i.behind;
        small = i.small;
        entries_ok =
            store_entry-All _ r.key _ w.entries ((subst (IsBuilt w r.key r.taken) b m), refl, refl)
              i.entries_ok;
        requests_ok = All-append _ xs ys l n;
        bounded = length-store_entry r.key _ w.entries i.bounded;
      }

  -- Whatever the order of the steps, the map has at most 256 entries, and an entry, as well as a body that is still to
  -- be stored, is what its endpoint answers now unless a write to its domains was committed after its stamp.
  pub Reach-IsSound : (w v : World D) → IsSound w → Reach ends etag_for w v → IsSound v
  Reach-IsSound _ _ i here = i
  Reach-IsSound w _ i (next r s) = Step-IsSound _ _ s (Reach-IsSound w _ i r)

  pub empty-IsSound : (db : D) → IsSound (empty_world db)
  unfolding counter
  empty-IsSound db = record {
    behind = λ d. omega arith;
    small = zeros;
    entries_ok = tt;
    requests_ok = tt;
    bounded = omega arith;
  }
    where
      zeros : (d : Domain) → counter d (record { sets = 0; pending = 0; scan = 0 }) < 2 ^ 64
      zeros Domain.sets = omega arith
      zeros Domain.pending = omega arith
      zeros Domain.scan = omega arith

  -- In every world that is reached from an empty cache, when no write to the domains of an endpoint is between its
  -- commit and its bump, a hit at the current stamp is what the endpoint would answer without the cache, with its
  -- ETag and its content type; there are fewer than 2^64 writes to these domains together.
  pub Reach-look_up :
      (db : D) (w : World D) (key : Text) (c : Cached)
      → Reach ends etag_for (empty_world db) w
      → ((d : Domain)
          → Any (λ e. e ≡ d) (ends.domains key)
          → counter d w.gens ≡ counter d w.commits)
      → total (ends.domains key) w.commits < 2 ^ 64
      → look_up key (stamp (ends.domains key) w.gens) w.entries ≡ some c
      → (ends.build key w.db ≡ ok c.body)
        × (c.etag ≡ etag_for c.body)
        × (c.content_type ≡ ends.content_type key)
  Reach-look_up db w key c r quiet l h =
      let (found, same) = look_up-hit key (stamp (ends.domains key) w.gens) w.entries c h in
      let ((le, now), g, x) =
        lookup-All (IsEntry w) key c w.entries
          (Reach-IsSound (empty_world db) w (empty-IsSound db) r).entries_ok found in
      (now (same ∙ stamp-total (ends.domains key) w.gens w.commits quiet l), g, x)
