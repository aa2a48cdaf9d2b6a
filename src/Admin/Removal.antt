-- ===== src/Admin/Removal.antt =====
-- backend/src/routes/admin.rs: what `delete_set_file` does on each branch.
use rawdb.Base.{
  ◌≡◌, ◌≢◌, ◌⊎◌, inl, inr, refl, sym, ◌∙◌, false, Bool-cases, Option, none, some, Option-cases, [],
  ◌∷◌, ◌++◌, Text, contains_dotdot, Result, ok, err, Result-cases,
}
use rawdb.Error.{AppError, other}
use rawdb.S3.{S3, S3Error, Object, Bytes, IsStore}
use rawdb.Meta.{SetMeta, RawdbMeta, DateTime}
use rawdb.Meta.Quote.{to_toml}
use rawdb.Cache.{get_set}
use rawdb.State.{Pod}
use rawdb.SyncTick.{Domain, sets, bump}
use rawdb.Scanner.{meta_file}
use rawdb.Scanner.Pass.{refresh_one_set}
use rawdb.Admin.Objects.{set_prefix, read_strict, put_meta}
use rawdb.Admin.Copies.{append_cancel, if_false, if_true}
use rawdb.Admin.Remove.{at_once, remaining, deleted, rewritten, delete_set_file}
use rawdb.Admin.Kept.{IsWithout, IsWithout-without_file, without_file-ok, read_strict-IsValidMeta}

module _ {St : Type 0} {s3 : S3 St} (st : IsStore s3) (from_utf8 : Bytes → Option Text)
    (from_str : Text → Option RawdbMeta) (rfc3339 : DateTime → Text) (into_bytes : Text → Bytes)
    (tick : Domain → Bytes) where
  -- The meta `meta` has been written and then the file deleted, and nothing else, between `s` and `t`.
  abbrev pub IsRemoved : Text → Text → Text → RawdbMeta → St → St → Type 0
  IsRemoved maker model path meta s t =
      (st.contents t (set_prefix maker model ++ path) ≡ none)
      × ((o : Object) × (st.contents t (set_prefix maker model ++ meta_file) ≡ some o)
          × (o.body ≡ into_bytes (to_toml rfc3339 meta)))
      × ((j : Text)
          → j ≢ set_prefix maker model ++ path
          → j ≢ set_prefix maker model ++ meta_file
          → st.contents t j ≡ st.contents s j)

  -- the set is in the cache, its stored meta has the file, and `meta` is that meta without it
  abbrev pub IsRequest : Text → Text → Text → Pod St → RawdbMeta → Type 0
  IsRequest maker model path pod meta =
      (row : SetMeta) × (parsed : RawdbMeta) × (b : Bytes) × (etag : Option Text) × (contains_dotdot
          path
        ≡ false)
      × (get_set maker model pod.cache ≡ some row)
      × (s3.get_bytes (set_prefix maker model ++ meta_file) pod.store ≡ ok (b, etag))
      × (read_strict from_utf8 from_str b ≡ ok parsed)
      × IsWithout path parsed meta

  abbrev pub IsFileRemoval :
      Text → Text → Text → Pod St → Result AppError (Unit {0}) × Pod St → Type 0
  IsFileRemoval maker model path pod (ok u, pod') =
      (meta : RawdbMeta) × (s : St) × IsRequest maker model path pod meta
      × IsRemoved maker model path meta pod.store s
      × (pod'
          ≡ bump s3 tick (sets ∷ []) (record pod {
            store = s;
            cache = (refresh_one_set s3 from_utf8 from_str (at_once s) maker model pod.cache).1;
          }))
  IsFileRemoval maker model path pod (err e, pod') =
      ((remaining s3 from_utf8 from_str rfc3339 into_bytes tick maker model path pod ≡ err e)
        × ((meta : RawdbMeta) → ¬ IsRequest maker model path pod meta)
        × (pod' ≡ pod))
      ⊎ ((e ≡ other)
          × ((s : St) × (pod' ≡ record pod { store = s })
              × (((x : S3Error) × (meta : RawdbMeta) × IsRequest maker model path pod meta
                    × (put_meta s3 rfc3339 into_bytes (set_prefix maker model) meta pod.store
                        ≡ (err x, s)))
                  ⊎ ((x : S3Error) × (r : St) × (etag : Text) × (meta : RawdbMeta) × IsRequest maker
                        model path pod meta
                      × (put_meta s3 rfc3339 into_bytes (set_prefix maker model) meta pod.store
                          ≡ (ok etag, r))
                      × (s3.delete (set_prefix maker model ++ path) r ≡ (err x, s))))))

  removed :
      (maker model path : Text) (meta : RawdbMeta) (s r t : St) (etag : Text)
      → path ≢ meta_file
      → put_meta s3 rfc3339 into_bytes (set_prefix maker model) meta s ≡ (ok etag, r)
      → s3.delete (set_prefix maker model ++ path) r ≡ (ok tt, t)
      → IsRemoved maker model path meta s t
  unfolding put_meta
  removed maker model path meta s r t etag n p d =
      let D = set_prefix maker model in
      let (o, body, tag, new) =
        st.put_sound (D ++ meta_file) (into_bytes (to_toml rfc3339 meta)) none none s r etag p in
      let gone = st.delete_sound (D ++ path) r t d in
      (
        gone (D ++ path) ∙ if_true _ _ (D ++ path) (D ++ path) refl,
        (
          o,
          gone (D ++ meta_file)
              ∙ if_false _ _ (D ++ path) (D ++ meta_file)
                  (λ e. n (append_cancel D path meta_file e))
              ∙ new (D ++ meta_file)
              ∙ if_true _ _ (D ++ meta_file) (D ++ meta_file) refl,
          body,
        ),
        λ j a b.
            gone j
            ∙ if_false _ _ (D ++ path) j (λ e. a (sym e))
            ∙ new j
            ∙ if_false _ _ (D ++ meta_file) j (λ e. b (sym e)),
      )

  remaining-ok :
      (maker model path : Text) (pod : Pod St) (meta : RawdbMeta)
      → remaining s3 from_utf8 from_str rfc3339 into_bytes tick maker model path pod ≡ ok meta
      → IsRequest maker model path pod meta
  unfolding remaining
  remaining-ok maker model path pod meta h = elim (Bool-cases (contains_dotdot path)) [
    | inl c ↦ absurd (refused (rw (remaining, c) at h))
    | inr c ↦ elim (Option-cases (get_set maker model pod.cache)) [
      | inl k ↦ absurd (refused (rw (remaining, c, k) at h))
      | inr (row, k) ↦
          elim (Result-cases (s3.get_bytes (set_prefix maker model ++ meta_file) pod.store)) [
            | inr (x, g) ↦ absurd (refused (rw (remaining, c, k, g) at h))
            | inl (got, g) ↦ elim (Result-cases (read_strict from_utf8 from_str got.0)) [
              | inr (x, r) ↦ absurd (refused (rw (remaining, c, k, g, r) at h))
              | inl (parsed, r) ↦ (
                row,
                parsed,
                got.0,
                got.1,
                c,
                k,
                g,
                r,
                without_file-ok path parsed meta
                    (read_strict-IsValidMeta from_utf8 from_str got.0 parsed r)
                    (rw (remaining, c, k, g, r) at h),
              )
            ]
          ]
    ]
  ]
    where
      refused : {x : AppError} → ◌≡◌ {A = Result AppError RawdbMeta} (err x) (ok meta) → ⊥
      refused w = cc

  IsRequest-remaining :
      (maker model path : Text) (pod : Pod St) (meta : RawdbMeta)
      → IsRequest maker model path pod meta
      → remaining s3 from_utf8 from_str rfc3339 into_bytes tick maker model path pod ≡ ok meta
  unfolding remaining
  IsRequest-remaining maker model path pod meta (row, parsed, b, etag, c, k, g, r, w) =
      rw (remaining, c, k, g, r) (IsWithout-without_file path parsed meta w)

  -- A removal that succeeds has found the set in the cache and the file in the set's stored meta, with another
  -- one beside it. The meta with all the other files, and else unchanged, is written, the object is deleted
  -- and every other object stays; then the cache is refreshed from the new store and the tick of the sets is
  -- bumped. A removal is refused only if that is not so, and then changes nothing; one that fails in the service changes nothing but the
  -- store, and the object is not deleted unless a meta was written.
  pub delete_set_file-IsFileRemoval :
      (maker model path : Text) (pod : Pod St)
      → IsFileRemoval maker model path pod
          (delete_set_file s3 from_utf8 from_str rfc3339 into_bytes tick maker model path pod)
  unfolding delete_set_file
  delete_set_file-IsFileRemoval maker model path pod =
      elim (Result-cases
        (remaining s3 from_utf8 from_str rfc3339 into_bytes tick maker model path pod)) [
          | inr (x, e) ↦ rw (delete_set_file, e) (inl (e, refused x e, refl))
          | inl (meta, e) ↦ rw (delete_set_file, e) (put meta e _ refl)
        ]
    where
      refused :
          (x : AppError)
          → remaining s3 from_utf8 from_str rfc3339 into_bytes tick maker model path pod ≡ err x
          → (meta : RawdbMeta) → ¬ IsRequest maker model path pod meta
      refused x e meta q = apart (sym e ∙ IsRequest-remaining maker model path pod meta q)
        where
          apart : ◌≡◌ {A = Result AppError RawdbMeta} (err x) (ok meta) → ⊥
          apart w = cc

      put :
          (meta : RawdbMeta)
          → remaining s3 from_utf8 from_str rfc3339 into_bytes tick maker model path pod ≡ ok meta
          → (w : Result S3Error Text × St)
          → put_meta s3 rfc3339 into_bytes (set_prefix maker model) meta pod.store ≡ w
          → IsFileRemoval maker model path pod
              (rewritten s3 from_utf8 from_str rfc3339 into_bytes tick maker model path pod w)
      put meta e (err x, s) p =
          inr (refl, (s, refl, inl (x, meta, remaining-ok maker model path pod meta e, p)))
      put meta e (ok etag, r) p = wipe _ refl
        where
          wipe :
              (w : Result S3Error (Unit {0}) × St)
              → s3.delete (set_prefix maker model ++ path) r ≡ w
              → IsFileRemoval maker model path pod
                  (deleted s3 from_utf8 from_str rfc3339 into_bytes tick maker model pod w)
          wipe (err x, s) d = inr (
            refl,
            (s, refl, inr (x, r, etag, meta, remaining-ok maker model path pod meta e, p, d)),
          )
          wipe (ok u, s) d =
              let req = remaining-ok maker model path pod meta e in
              let (row, parsed, b, tag, c, k, g, q, w) = req in
              (meta, s, req, removed maker model path meta pod.store r s etag w.0 p d, refl)
