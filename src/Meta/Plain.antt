-- ===== src/Meta/Plain.antt =====
-- backend/src/meta.rs: what is known of a meta file that `parse` has accepted.
use rawdb.Base.{
  ◌≡◌, ◌≢◌, inl, inr, refl, sym, subst, ◌∙◌, Option, Option-cases, List, [], ◌∷◌, Text, codes, All,
  contains, Result, ok, err, Result-cases, ◌>>◌,
}
use rawdb.Meta.{
  FileMeta, RawdbMeta, MetaError, PathFault, no_category, validate, validate_path, parse,
}
use rawdb.Meta.Laws.{IsFilePath, IsValidMeta, paths, validate_iff, validate_path_iff}

pub parse-IsValidMeta :
    (from_str : Text → Option RawdbMeta) (input : Text) (meta : RawdbMeta)
    → parse from_str input ≡ ok meta
    → IsValidMeta meta
unfolding parse
parse-IsValidMeta from_str input meta h = elim (Option-cases (from_str input)) [
  | inl e ↦ absurd (refused (rw (e, parse) at h))
  | inr (m, e) ↦ accepted m (rw (e, parse) at h)
]
  where
    refused : {x : MetaError} → ◌≡◌ {A = Result MetaError RawdbMeta} (err x) (ok meta) → ⊥
    refused w = cc

    taken : {m : RawdbMeta} → ◌≡◌ {A = Result MetaError RawdbMeta} (ok m) (ok meta) → m ≡ meta
    taken w = cc

    accepted : (m : RawdbMeta) → (do validate m; ok m) ≡ ok meta → IsValidMeta meta
    accepted m w = elim (Result-cases (validate m)) [
      | inl (u, e) ↦ subst IsValidMeta (taken (rw e at w)) ((validate_iff m).0 e)
      | inr (x, e) ↦ absurd (refused (rw e at w))
    ]

-- the name of the meta file has no category folder
refused_name : validate_path (codes "rawdb-meta.toml") ≡ err no_category
unfolding validate_path contains
refused_name = refl

no_file_path : IsFilePath (codes "rawdb-meta.toml") → ⊥
no_file_path f = both (sym refused_name ∙ (validate_path_iff (codes "rawdb-meta.toml")).1 f)
  where
    both : ◌≡◌ {A = Result PathFault (Unit {0})} (err no_category) (ok tt) → ⊥
    both w = cc

pub files-ne-meta :
    (meta : RawdbMeta) → IsValidMeta meta → All (λ f. f.path ≢ codes "rawdb-meta.toml") meta.files
files-ne-meta meta v = go meta.files v.file_paths
  where
    go :
        (fs : List FileMeta)
        → All IsFilePath (paths fs)
        → All (λ f. f.path ≢ codes "rawdb-meta.toml") fs
    go [] a = tt
    go (f ∷ fs) (p, a) = ((λ e. no_file_path (subst IsFilePath e p)), go fs a)
