-- ===== src/Responses/Stamp.antt =====
-- backend/src/cache/db.rs: stamps, against the numbers of commits.
use rawdb.Base.{
  ℕ, ◌+◌, ◌%◌, ◌^◌, ◌≡◌, ◌≢◌, ◌<◌, ◌≤◌, ◌⊎◌, inl, inr, refl, List, [], ◌∷◌, Any, arith,
}
use rawdb.Responses.{Domain, Generations, counter, bump, stamp}
use rawdb.Responses.Race.{count_commit}

-- the writes to some domains that have been committed
abbrev pub total : List Domain → Generations → ℕ
total [] g = 0
total (d ∷ ds) g = counter d g + total ds g

pub counter-commit :
    (d e : Domain) (g : Generations)
    → ((e ≡ d) × (counter e (count_commit d g) ≡ counter e g + 1))
      ⊎ ((e ≢ d) × (counter e (count_commit d g) ≡ counter e g))
unfolding counter count_commit
counter-commit Domain.sets Domain.sets g = inl (refl, refl)
counter-commit Domain.sets Domain.pending g = inr ((λ e. cc), refl)
counter-commit Domain.sets Domain.scan g = inr ((λ e. cc), refl)
counter-commit Domain.pending Domain.sets g = inr ((λ e. cc), refl)
counter-commit Domain.pending Domain.pending g = inl (refl, refl)
counter-commit Domain.pending Domain.scan g = inr ((λ e. cc), refl)
counter-commit Domain.scan Domain.sets g = inr ((λ e. cc), refl)
counter-commit Domain.scan Domain.pending g = inr ((λ e. cc), refl)
counter-commit Domain.scan Domain.scan g = inl (refl, refl)

pub counter-bump :
    (d e : Domain) (g : Generations)
    → ((e ≡ d) × (counter e (bump d g) ≡ (counter e g + 1) % 2 ^ 64))
      ⊎ ((e ≢ d) × (counter e (bump d g) ≡ counter e g))
unfolding counter bump
counter-bump Domain.sets Domain.sets g = inl (refl, refl)
counter-bump Domain.sets Domain.pending g = inr ((λ e. cc), refl)
counter-bump Domain.sets Domain.scan g = inr ((λ e. cc), refl)
counter-bump Domain.pending Domain.sets g = inr ((λ e. cc), refl)
counter-bump Domain.pending Domain.pending g = inl (refl, refl)
counter-bump Domain.pending Domain.scan g = inr ((λ e. cc), refl)
counter-bump Domain.scan Domain.sets g = inr ((λ e. cc), refl)
counter-bump Domain.scan Domain.pending g = inr ((λ e. cc), refl)
counter-bump Domain.scan Domain.scan g = inl (refl, refl)

pub total-commit :
    (d : Domain) (ds : List Domain) (g : Generations)
    → (total ds g < total ds (count_commit d g))
      ⊎ ((¬ Any (λ e. e ≡ d) ds) × (total ds (count_commit d g) ≡ total ds g))
total-commit d [] g = inr ((λ a. a), refl)
total-commit d (e ∷ ds) g = elim (counter-commit d e g) [
  | inl (same, up) ↦ elim (total-commit d ds g) [
    | inl lt ↦ inl (omega (arith, up, lt))
    | inr (out, eq) ↦ inl (omega (arith, up, eq))
  ]
  | inr (ne, keep) ↦ elim (total-commit d ds g) [
    | inl lt ↦ inl (omega (arith, keep, lt))
    | inr (out, eq) ↦ inr (neither ne out, omega (arith, keep, eq))
  ]
]
  where
    neither : e ≢ d → ¬ Any (λ x. x ≡ d) ds → ¬ (e ≡ d ⊎ Any (λ x. x ≡ d) ds)
    neither n m (inl p) = n p
    neither n m (inr a) = m a

pub stamp-le-total :
    (ds : List Domain) (g c : Generations)
    → ((d : Domain) → counter d g ≤ counter d c)
    → stamp ds g ≤ total ds c
unfolding stamp
stamp-le-total [] g c h = omega arith
stamp-le-total (d ∷ ds) g c h = omega (arith, h d, stamp-le-total ds g c h)

pub stamp-total :
    (ds : List Domain) (g c : Generations)
    → ((d : Domain) → Any (λ e. e ≡ d) ds → counter d g ≡ counter d c)
    → total ds c < 2 ^ 64
    → stamp ds g ≡ total ds c
unfolding stamp
stamp-total [] g c h l = refl
stamp-total (d ∷ ds) g c h l =
    let rest = stamp-total ds g c (λ e a. h e (inr a)) (omega (arith, l)) in
    omega (arith, rest, h d (inl refl), l)
