-- ===== src/Admin/Copies.antt =====
-- backend/src/routes/admin.rs: the copies of an approval, and what is outside a prefix that is deleted.
use rawdb.Base.{
  ◌≡◌, ◌≢◌, ◌⊎◌, inl, inr, refl, sym, subst, ap, ◌∙◌, Bool, true, false, Bool-cases, Option, some,
  List, [], ◌∷◌, ◌++◌, Text, ◌==◌, eq_iff, Any, All, All-map, All-Any, Result, ok, err,
  if◌then◌else◌,
}
use rawdb.S3.{S3, S3Error, Object, IsPlainKey, IsStore}
use rawdb.Meta.{FileMeta}
use rawdb.Admin.Objects.{copy_files}

-- if the key of the source is plain, both keys hold an object, with the same content
abbrev pub IsCopied : Text → Option Object → Option Object → Type 0
IsCopied key old new =
    IsPlainKey key → (a b : Object) × (old ≡ some a) × (new ≡ some b) × (b.body ≡ a.body)

pub append_cancel : (d x y : Text) → d ++ x ≡ d ++ y → x ≡ y
append_cancel [] x y h = h
append_cancel (c ∷ d) x y h = append_cancel d x y (ap tail h)
  where
    tail : Text → Text
    tail [] = []
    tail (a ∷ t) = t

-- whether a key is one of the destinations
destination :
    (to j : Text) (fs : List FileMeta)
    → All (λ f. to ++ f.path ≢ j) fs ⊎ Any (λ f. to ++ f.path ≡ j) fs
destination to j [] = inl tt
destination to j (f ∷ fs) = elim (Bool-cases (to ++ f.path == j)) [
  | inl e ↦ inr (inl ((eq_iff (to ++ f.path) j).0 e))
  | inr e ↦ elim (destination to j fs) [
    | inl a ↦ inl ((λ q. absurd (differs e ((eq_iff (to ++ f.path) j).1 q))), a)
    | inr a ↦ inr (inr a)
  ]
]
  where
    differs : {b : Bool} → b ≡ false → b ≡ true → ⊥
    differs p q = cc

pub if_false : (x y : Option Object) (k j : Text) → k ≢ j → (if k == j then x else y) ≡ y
if_false x y k j n = elim (Bool-cases (k == j)) [
  | inl e ↦ absurd (n ((eq_iff k j).0 e))
  | inr e ↦ rw e refl
]

pub if_true : (x y : Option Object) (k j : Text) → k ≡ j → (if k == j then x else y) ≡ x
if_true x y k j e = rw ((eq_iff k j).1 e) refl

module _ {St : Type 0} {s3 : S3 St} (st : IsStore s3) where
  -- Copies to keys that are no sources leave every other key as it is, and copy each file.
  pub copy_files-IsCopied :
      (from to : Text) (fs : List FileMeta) (s t : St)
      → ((x y : Text) → from ++ x ≢ to ++ y)
      → copy_files s3 from to fs s ≡ (ok tt, t)
      → ((j : Text) → All (λ f. to ++ f.path ≢ j) fs → st.contents t j ≡ st.contents s j)
        × All
            (λ f.
              IsCopied
                (from ++ f.path)
                (st.contents s (from ++ f.path))
                (st.contents t (to ++ f.path)))
            fs
  unfolding copy_files
  copy_files-IsCopied from to [] s t sep h = ((λ j a. sym (ap (λ q. st.contents q.1 j) h)), tt)
  copy_files-IsCopied from to (f ∷ fs) s t sep h =
      step (λ u. copy_files-IsCopied from to fs u t sep)
        (s3.copy (from ++ f.path) (to ++ f.path) s).0 (s3.copy (from ++ f.path) (to ++ f.path) s).1
        refl h
    where
      Copied : St → List FileMeta → Type 0
      Copied u gs =
          All
            (λ g.
              IsCopied (from ++ g.path) (st.contents u (from ++ g.path))
                (st.contents t (to ++ g.path)))
            gs

      step :
          ((u : St)
            → copy_files s3 from to fs u ≡ (ok tt, t)
            → ((j : Text) → All (λ g. to ++ g.path ≢ j) fs → st.contents t j ≡ st.contents u j)
              × Copied u fs)
          → (r : Result S3Error (Unit {0})) (u : St)
          → s3.copy (from ++ f.path) (to ++ f.path) s ≡ (r, u)
          → (elim r [ err e ↦ (err e, u) | ok v ↦ copy_files s3 from to fs u ]) ≡ (ok tt, t)
          → ((j : Text) → All (λ g. to ++ g.path ≢ j) (f ∷ fs) → st.contents t j ≡ st.contents s j)
            × Copied s (f ∷ fs)
      step ih (err e) u c q = absurd (refused (ap (λ x. x.0) q))
        where
          refused : ◌≡◌ {A = Result S3Error (Unit {0})} (err e) (ok tt) → ⊥
          refused w = cc
      step ih (ok v) u c q =
          let (same, copied) = ih u q in
          let (o', src, rest) = st.copy_sound (from ++ f.path) (to ++ f.path) s u c in
          let moved =
            All-map _ _ fs
              (λ g c p.
                let (a, b, old, new, e) = c p in
                (
                  a,
                  b,
                  sym (
                        rest (from ++ g.path)
                        ∙ if_false _ _ (to ++ f.path) (from ++ g.path)
                            (λ w. sep g.path f.path (sym w)))
                      ∙ old,
                  new,
                  e,
                ))
              copied in
          (
            λ j a. same j a.1 ∙ rest j ∙ if_false _ _ (to ++ f.path) j a.0,
            (first same moved o' src rest, moved),
          )
        where
          first :
              ((j : Text) → All (λ g. to ++ g.path ≢ j) fs → st.contents t j ≡ st.contents u j)
              → Copied s fs
              → (o' : Object)
              → (IsPlainKey (from ++ f.path)
                  → (o : Object) × (st.contents s (from ++ f.path) ≡ some o)
                    × (o'.body ≡ o.body)
                    × (o'.size ≡ o.size))
              → ((j : Text)
                  → st.contents u j ≡ (if to ++ f.path == j then some o' else st.contents s j))
              → IsCopied
                  (from ++ f.path)
                  (st.contents s (from ++ f.path))
                  (st.contents t (to ++ f.path))
          first same moved o' src rest = elim (destination to (to ++ f.path) fs) [
            | inl a ↦ λ p.
                let (o, held, body, size) = src p in
                (
                  o,
                  o',
                  held,
                  same (to ++ f.path) a
                      ∙ rest (to ++ f.path)
                      ∙ if_true _ _ (to ++ f.path) (to ++ f.path) refl,
                  body,
                )
            | inr a ↦
                let (g, copied, e) = All-Any _ (λ g. to ++ g.path ≡ to ++ f.path) fs moved a in
                subst
                  (λ p. IsCopied (from ++ p) (st.contents s (from ++ p)) (st.contents t (to ++ p)))
                  (append_cancel to g.path f.path e) copied
          ]
