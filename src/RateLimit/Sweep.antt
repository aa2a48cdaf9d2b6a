-- ===== src/RateLimit/Sweep.antt =====
-- backend/src/ratelimit.rs: the decisions of `check` after a `sweep`.
use rawdb.Base.{
  ℕ, ◌≤◌, ◌≡◌, refl, ◌≢◌, ap, sym, subst, ◌∙◌, true, false, none, List, [], ◌∷◌, Text, All, lookup,
  ◌==◌, eq_iff, eqb, arith, Bool-cases, inl, inr,
}
use rawdb.RateLimit.{Hit, DownloadRateLimiter, drop_aged, entry, check, sweep_hits, sweep}
use rawdb.RateLimit.Window.{check_dq-drop_aged}

-- A map has one entry for a key.
abbrev pub HasDistinctKeys : List (Text × List Hit) → Type 0
HasDistinctKeys [] = Unit
HasDistinctKeys ((ip, dq) ∷ hits) = All (λ e. e.0 ≢ ip) hits × HasDistinctKeys hits

lookup_absent :
    (ip : Text) (hits : List (Text × List Hit)) → All (λ e. e.0 ≢ ip) hits → lookup ip hits ≡ none
unfolding lookup
lookup_absent ip [] a = refl
lookup_absent ip ((j, dq) ∷ hits) a = ground (arith, eq_iff j ip, lookup_absent ip hits a.1)

All-sweep_hits :
    (ip : Text) (w n : ℕ) (hits : List (Text × List Hit))
    → All (λ e. e.0 ≢ ip) hits
    → All (λ e. e.0 ≢ ip) (sweep_hits w n hits)
unfolding sweep_hits
All-sweep_hits ip w n [] a = tt
All-sweep_hits ip w n ((j, dq) ∷ hits) a =
    keep (drop_aged w n dq) (sweep_hits w n hits) (All-sweep_hits ip w n hits a.1)
  where
    keep :
        (kept : List Hit) (rest : List (Text × List Hit))
        → All (λ e. e.0 ≢ ip) rest
        → All (λ e. e.0 ≢ ip) (elim kept [ [] ↦ rest | h ∷ k ↦ (j, h ∷ k) ∷ rest ])
    keep [] rest r = r
    keep (h ∷ k) rest r = (a.0, r)

entry-cons_eq :
    (ip j : Text) (dq : List Hit) (hits : List (Text × List Hit))
    → (j == ip) ≡ true
    → entry ip ((j, dq) ∷ hits) ≡ dq
unfolding entry lookup
entry-cons_eq ip j dq hits e = rw (e, entry)

entry-cons_ne :
    (ip j : Text) (dq : List Hit) (hits : List (Text × List Hit))
    → (j == ip) ≡ false
    → entry ip ((j, dq) ∷ hits) ≡ entry ip hits
unfolding entry lookup
entry-cons_ne ip j dq hits e = rw (e, entry)

entry_absent :
    (ip : Text) (hits : List (Text × List Hit)) → All (λ e. e.0 ≢ ip) hits → entry ip hits ≡ []
unfolding entry
entry_absent ip hits a = rw (lookup_absent ip hits a, entry)

-- sweeping prunes the entry of each address
entry-sweep_hits :
    (ip : Text) (w n : ℕ) (hits : List (Text × List Hit))
    → HasDistinctKeys hits
    → entry ip (sweep_hits w n hits) ≡ drop_aged w n (entry ip hits)
unfolding sweep_hits
entry-sweep_hits ip w n [] d = unfold entry lookup drop_aged in refl
entry-sweep_hits ip w n ((j, dq) ∷ hits) d =
    go (drop_aged w n dq) (sweep_hits w n hits) refl (entry-sweep_hits ip w n hits d.1)
      (All-sweep_hits j w n hits d.0)
  where
    go :
        (kept : List Hit) (rest : List (Text × List Hit))
        → drop_aged w n dq ≡ kept
        → entry ip rest ≡ drop_aged w n (entry ip hits)
        → All (λ e. e.0 ≢ j) rest
        → entry ip (elim kept [ [] ↦ rest | h ∷ k ↦ (j, h ∷ k) ∷ rest ])
          ≡ drop_aged w n (entry ip ((j, dq) ∷ hits))
    go [] rest e ih a = elim (Bool-cases (j == ip)) [
      | inl q ↦ rw (entry-cons_eq ip j dq hits q) (
          entry_absent ip rest (subst (λ i. All (λ e. e.0 ≢ i) rest) ((eq_iff j ip).0 q) a) ∙ sym e)
      | inr q ↦ rw (entry-cons_ne ip j dq hits q) ih
    ]
    go (h ∷ k) rest e ih a = elim (Bool-cases (j == ip)) [
      | inl q ↦ rw (entry-cons_eq ip j dq hits q, entry-cons_eq ip j (h ∷ k) rest q) (sym e)
      | inr q ↦ rw (entry-cons_ne ip j dq hits q, entry-cons_ne ip j (h ∷ k) rest q) ih
    ]

-- After a sweep every request is answered as it would have been without the sweep.
pub check-sweep :
    (hash_path : Text → ℕ) (l : DownloadRateLimiter) (ip path : Text) (n m : ℕ)
    → HasDistinctKeys l.hits
    → n ≤ m
    → (check hash_path (sweep l n) ip path m).0 ≡ (check hash_path l ip path m).0
unfolding check sweep
check-sweep hash_path l ip path n m d le = elim (Bool-cases (eqb l.limit 0)) [
  | inl e ↦ rw e
  | inr e ↦
      rw (e, entry-sweep_hits ip l.window n l.hits d)
        (ap (λ x. x.0)
          (check_dq-drop_aged l.limit l.window (hash_path path) n m (entry ip l.hits) le))
]
