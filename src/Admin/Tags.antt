-- ===== src/Admin/Tags.antt =====
-- backend/src/routes/admin.rs: the tags that `clean_tags` keeps.
use rawdb.Base.{
  ◌≡◌, ◌≢◌, ◌⊎◌, inl, inr, refl, sym, subst, Bool, true, false, ◌||◌, Bool-cases, List, [], ◌∷◌,
  Text, ◌==◌, eq_iff, any, any_iff, Any, All, All-map, is_empty, trim, if◌then◌else◌,
}
use rawdb.Meta.Laws.{Distinct}
use rawdb.Admin.Edit.{clean_from, clean_tags}

-- a tag that is kept: not empty, not seen before, and the trimmed text of an item
abbrev IsKept : List Text → List Text → Text → Type 0
IsKept seen items t = (t ≢ []) × ¬ Any (λ s. s ≡ t) seen × Any (λ raw. trim raw ≡ t) items

-- an item whose trimmed text is empty, seen before or kept
abbrev IsDone : List Text → List Text → Text → Type 0
IsDone seen out raw = (trim raw ≡ []) ⊎ (Any (λ t. t ≡ trim raw) seen ⊎ Any (λ t. t ≡ trim raw) out)

abbrev IsCleaned : List Text → List Text → List Text → Type 0
IsCleaned seen items out = Distinct out × All (IsKept seen items) out × All (IsDone seen out) items

either :
    (t : Text) (seen : List Text)
    → (is_empty t || any (λ s. s == t) seen) ≡ true
    → (t ≡ []) ⊎ Any (λ s. s ≡ t) seen
either [] seen h = inl refl
either (c ∷ t) seen h =
    inr ((any_iff (λ s. s == c ∷ t) (λ s. s ≡ c ∷ t) seen (λ s. eq_iff s (c ∷ t))).0 h)

neither :
    (t : Text) (seen : List Text)
    → (is_empty t || any (λ s. s == t) seen) ≡ false
    → (t ≢ []) × ¬ Any (λ s. s ≡ t) seen
neither [] seen h = cc
neither (c ∷ t) seen h = (
  (λ e. cc),
  λ a. differs h ((any_iff (λ s. s == c ∷ t) (λ s. s ≡ c ∷ t) seen (λ s. eq_iff s (c ∷ t))).1 a),
)
  where
    differs : {b : Bool} → b ≡ false → b ≡ true → ⊥
    differs p q = cc

skipped :
    (seen items out : List Text) (raw : Text)
    → (trim raw ≡ []) ⊎ Any (λ s. s ≡ trim raw) seen
    → IsCleaned seen items out
    → IsCleaned seen (raw ∷ items) out
skipped seen items out raw e (d, k, w) =
    (d, All-map _ _ out (λ t (n, s, a). (n, s, inr a)) k, (here e, w))
  where
    here : (trim raw ≡ []) ⊎ Any (λ s. s ≡ trim raw) seen → IsDone seen out raw
    here (inl p) = inl p
    here (inr a) = inr (inl a)

kept :
    (seen items out : List Text) (raw : Text)
    → (trim raw ≢ []) × ¬ Any (λ s. s ≡ trim raw) seen
    → IsCleaned (trim raw ∷ seen) items out
    → IsCleaned seen (raw ∷ items) (trim raw ∷ out)
kept seen items out raw (n, s) (d, k, w) = (
  (All-map _ _ out (λ t (m, u, a) e. u (inl (sym e))) k, d),
  ((n, s, inl refl), All-map _ _ out (λ t (m, u, a). (m, (λ b. u (inr b)), inr a)) k),
  (inr (inr (inl refl)), All-map _ _ items later w),
)
  where
    later : (r : Text) → IsDone (trim raw ∷ seen) out r → IsDone seen (trim raw ∷ out) r
    later r (inl p) = inl p
    later r (inr (inl (inl e))) = inr (inr (inl e))
    later r (inr (inl (inr a))) = inr (inl a)
    later r (inr (inr a)) = inr (inr (inr a))

clean_from-IsCleaned : (seen items : List Text) → IsCleaned seen items (clean_from seen items)
unfolding clean_from
clean_from-IsCleaned seen [] = (tt, tt, tt)
clean_from-IsCleaned seen (raw ∷ items) =
    elim (Bool-cases (is_empty (trim raw) || any (λ t. t == trim raw) seen)) [
      | inl e ↦
          subst
            (λ b.
              IsCleaned seen (raw ∷ items) (
                if b then clean_from seen items else trim raw ∷ clean_from (trim raw ∷ seen) items))
            (sym e)
            (skipped seen items (clean_from seen items) raw (either (trim raw) seen e)
              (clean_from-IsCleaned seen items))
      | inr e ↦
          subst
            (λ b.
              IsCleaned seen (raw ∷ items) (
                if b then clean_from seen items else trim raw ∷ clean_from (trim raw ∷ seen) items))
            (sym e)
            (kept seen items (clean_from (trim raw ∷ seen) items) raw (neither (trim raw) seen e)
              (clean_from-IsCleaned (trim raw ∷ seen) items))
    ]

-- The tags that are kept are distinct; each is not empty and the trimmed text of an item, and the
-- trimmed text of each item is empty or kept.
pub clean_tags-IsClean :
    (items : List Text)
    → Distinct (clean_tags items)
      × All (λ t. (t ≢ []) × Any (λ raw. trim raw ≡ t) items) (clean_tags items)
      × All (λ raw. (trim raw ≡ []) ⊎ Any (λ t. t ≡ trim raw) (clean_tags items)) items
unfolding clean_tags
clean_tags-IsClean items =
    let (d, k, w) = clean_from-IsCleaned [] items in
    (d, All-map _ _ (clean_from [] items) (λ t (n, s, a). (n, a)) k, All-map _ _ items done w)
  where
    done :
        (raw : Text)
        → IsDone [] (clean_from [] items) raw
        → (trim raw ≡ []) ⊎ Any (λ t. t ≡ trim raw) (clean_from [] items)
    done raw (inl p) = inl p
    done raw (inr (inl a)) = absurd a
    done raw (inr (inr a)) = inr a
