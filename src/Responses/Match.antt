-- ===== src/Responses/Match.antt =====
-- backend/src/cache/responses.rs: `if_none_match` against the weak comparison of RFC 9110.
use rawdb.Base.{
  ℕ, zero, suc, ◌+◌, ◌≡◌, ◌≤◌, ◌⊎◌, ◌↔◌, inl, inr, refl, sym, subst, ◌∙◌, true, Bool-cases, Option,
  none, some, Option-cases, List, [], ◌∷◌, Text, codes, ◌==◌, eq_iff, Any, any, any_iff, or_iff,
  false_iff, length, split, trim, strip_prefix, eqb, arith,
}
use rawdb.Responses.{strip_weak, trim_weak, tag_matches, if_none_match}

-- A tag without its prefixes `W/`.
pub data IsWeak : Text → Text → Type 0 where
  bare : (t : Text) → strip_prefix (codes "W/") t ≡ none → IsWeak t t
  weak : (t r u : Text) → strip_prefix (codes "W/") t ≡ some r → IsWeak r u → IsWeak t u

-- the header lists `*`, or a tag that is the same but for the prefixes
abbrev pub IsListed : Text → Text → Type 0
IsListed etag piece =
    (trim piece ≡ codes "*") ⊎ ((u : Text) × IsWeak (trim piece) u × IsWeak etag u)

abbrev pub Lists : Text → Option Text → Type 0
Lists etag none = ⊥
Lists etag (some value) = Any (IsListed etag) (split b',' value)

length-strip_prefix : (p t r : Text) → strip_prefix p t ≡ some r → length r + length p ≤ length t
unfolding strip_prefix
length-strip_prefix [] t r h = let same = taken h in rw same (omega arith)
  where
    taken : ◌≡◌ {A = Option Text} (some t) (some r) → t ≡ r
    taken w = cc
length-strip_prefix (x ∷ p) [] r h = cc
length-strip_prefix (x ∷ p) (c ∷ t) r h = elim (Bool-cases (eqb x c)) [
  | inl e ↦ omega (arith, length-strip_prefix p t r (rw e at h))
  | inr e ↦ absurd (none_some (rw e at h))
]
  where
    none_some : ◌≡◌ {A = Option Text} none (some r) → ⊥
    none_some w = cc

strip_weak-IsWeak : (n : ℕ) (t : Text) → length t ≤ n → IsWeak t (strip_weak n t)
unfolding strip_weak strip_prefix
strip_weak-IsWeak zero [] h = bare [] refl
strip_weak-IsWeak zero (c ∷ t) h = absurd (omega arith)
strip_weak-IsWeak (suc n) t h = elim (Option-cases (strip_prefix (codes "W/") t)) [
  | inl e ↦ rw e (bare t e)
  | inr (r, e) ↦ rw e (
      weak t r _ e
        (strip_weak-IsWeak n r (omega (arith, length-strip_prefix (codes "W/") t r e, h))))
]

strip_weak-of_IsWeak : (n : ℕ) (t u : Text) → length t ≤ n → IsWeak t u → strip_weak n t ≡ u
unfolding strip_weak strip_prefix
strip_weak-of_IsWeak zero _ _ h (bare t e) = refl
strip_weak-of_IsWeak (suc n) _ _ h (bare t e) = rw e refl
strip_weak-of_IsWeak zero _ _ h (weak t r u e w) =
    absurd (omega (arith, length-strip_prefix (codes "W/") t r e, h))
strip_weak-of_IsWeak (suc n) _ _ h (weak t r u e w) =
    rw e (strip_weak-of_IsWeak n r u (omega (arith, length-strip_prefix (codes "W/") t r e, h)) w)

same-IsWeak :
    (t etag : Text)
    → ((trim_weak t == trim_weak etag) ≡ true) ↔ ((u : Text) × IsWeak t u × IsWeak etag u)
unfolding trim_weak
same-IsWeak t etag = (
  λ e. (
    trim_weak etag,
    subst (IsWeak t) ((eq_iff (trim_weak t) (trim_weak etag)).0 e)
        (strip_weak-IsWeak (length t) t (omega arith)),
    strip_weak-IsWeak (length etag) etag (omega arith),
  ),
  λ (u, p, q). (eq_iff (trim_weak t) (trim_weak etag)).1 (
      strip_weak-of_IsWeak (length t) t u (omega arith) p
      ∙ sym (strip_weak-of_IsWeak (length etag) etag u (omega arith) q)),
)

tag_matches_iff :
    (etag piece : Text) → (tag_matches (trim_weak etag) piece ≡ true) ↔ IsListed etag piece
unfolding tag_matches
tag_matches_iff etag piece =
    or_iff (trim piece == codes "*") (trim_weak (trim piece) == trim_weak etag)
      (eq_iff (trim piece) (codes "*")) (same-IsWeak (trim piece) etag)

-- The header matches exactly if one of its values that is text lists `*` or the tag, where prefixes `W/` do not count.
pub if_none_match_iff :
    (values : List (Option Text)) (etag : Text)
    → (if_none_match values etag ≡ true) ↔ Any (Lists etag) values
unfolding if_none_match
if_none_match_iff [] etag = false_iff
if_none_match_iff (none ∷ values) etag =
    let (f, g) = if_none_match_iff values etag in ((λ e. inr (f e)), from_rest g)
  where
    from_rest :
        (Any (Lists etag) values → if_none_match values etag ≡ true)
        → ⊥ ⊎ Any (Lists etag) values
        → if_none_match values etag ≡ true
    from_rest g (inl a) = absurd a
    from_rest g (inr a) = g a
if_none_match_iff (some v ∷ values) etag =
    or_iff (any (tag_matches (trim_weak etag)) (split b',' v)) (if_none_match values etag)
      (any_iff (tag_matches (trim_weak etag)) (IsListed etag) (split b',' v) (tag_matches_iff etag))
      (if_none_match_iff values etag)
