-- ===== src/Admin/Placed.antt =====
-- backend/src/routes/admin.rs: the copies of an approval and what follows them.
use rawdb.Base.{◌≡◌, ◌≢◌, ◌∙◌, Option, some, List, [], ◌∷◌, ◌++◌, Text, All, All-map, ok}
use rawdb.S3.{S3, Object, Bytes, IsStore}
use rawdb.Meta.{SetMeta, FileMeta, RawdbMeta, DateTime}
use rawdb.Meta.Quote.{to_toml}
use rawdb.State.{Pod}
use rawdb.SyncTick.{Domain}
use rawdb.Scanner.{meta_file}
use rawdb.Verify.{upload_prefix}
use rawdb.Admin.Objects.{set_prefix, copy_files}
use rawdb.Admin.Copies.{IsCopied, append_cancel, copy_files-IsCopied}
use rawdb.Admin.Approve.{merged_files, put_and_wipe, copy_and_put}
use rawdb.Admin.Promote.{IsWipedUpload, IsPutAndWiped, Announced, put_and_wipe-IsPutAndWiped}
use rawdb.Admin.Merged.{IsMerged, merged_files-IsMerged}
use rawdb.Admin.Moves.{store->>=-ok, prefixes_differ}

module _ {St : Type 0} {s3 : S3 St} (st : IsStore s3) (from_utf8 : Bytes → Option Text)
    (from_str : Text → Option RawdbMeta) (rfc3339 : DateTime → Text) (into_bytes : Text → Bytes)
    (tick : Domain → Bytes) where
  -- The promoted files lie in the set with the content that they have in the upload in `s`, the meta of the set lists
  -- them after the kept files `existing`, nothing is left of the upload in `t`, and every other
  -- object of the set is as in `s`.
  abbrev pub IsPlaced : Text → SetMeta → List FileMeta → List FileMeta → St → St → Type 0
  IsPlaced upload_id set promote existing s t =
      IsWipedUpload st from_utf8 from_str rfc3339 into_bytes tick upload_id t
      × All
          (λ f.
            IsCopied (upload_prefix upload_id ++ f.path)
              (st.contents s (upload_prefix upload_id ++ f.path))
              (st.contents t (set_prefix set.maker set.model ++ f.path)))
          promote
      × ((files : List FileMeta) × (o : Object) × IsMerged existing promote files
          × (st.contents t (set_prefix set.maker set.model ++ meta_file) ≡ some o)
          × (o.body ≡ into_bytes (to_toml rfc3339 (record { set = set; files = files }))))
      × ((j : Text)
          → All (λ f. f.path ≢ j) promote
          → j ≢ meta_file
          → st.contents t (set_prefix set.maker set.model ++ j)
            ≡ st.contents s (set_prefix set.maker set.model ++ j))

  pub copy_and_put-IsPlaced :
      (upload_id by : Text) (set : SetMeta) (promote existing : List FileMeta) (pod pod' : Pod St)
      → All (λ f. f.path ≢ meta_file) promote
      → copy_and_put s3 from_utf8 from_str rfc3339 into_bytes tick upload_id by set promote existing
          pod
        ≡ (ok tt, pod')
      → (t : St) × IsPlaced upload_id set promote existing pod.store t
        × (pod' ≡ Announced st from_utf8 from_str rfc3339 into_bytes tick upload_id by set pod t)
  unfolding copy_and_put
  copy_and_put-IsPlaced upload_id by set promote existing pod pod' named h = copied (
      store->>=-ok (copy_files s3 U D promote)
        (λ u. put_and_wipe s3 from_utf8 from_str rfc3339 into_bytes tick upload_id by meta) pod pod'
        tt h)
    where
      U : Text
      U = upload_prefix upload_id

      D : Text
      D = set_prefix set.maker set.model

      meta : RawdbMeta
      meta = record { set = set; files = merged_files existing promote }

      placed :
          (s t : St)
          → copy_files s3 U D promote pod.store ≡ (ok tt, s)
          → IsPutAndWiped st from_utf8 from_str rfc3339 into_bytes tick upload_id meta s t
          → IsPlaced upload_id set promote existing pod.store t
      placed s t c (gone, stored, rest) =
          let (same, moved) =
            copy_files-IsCopied st U D promote pod.store s
              (prefixes_differ upload_id set.maker set.model) c in
          (
            gone,
            both promote named moved,
            (let (o, e, b) = stored in
                (merged_files existing promote, o, merged_files-IsMerged existing promote, e, b)),
            λ j away ne.
                rest j ne
                ∙ same (D ++ j)
                    (All-map _ _ promote (λ f n e. n (append_cancel D f.path j e)) away),
          )
        where
          both :
              (fs : List FileMeta)
              → All (λ f. f.path ≢ meta_file) fs
              → All
                  (λ f.
                    IsCopied
                      (U ++ f.path)
                      (st.contents pod.store (U ++ f.path))
                      (st.contents s (D ++ f.path)))
                  fs
              → All
                  (λ f.
                    IsCopied
                      (U ++ f.path)
                      (st.contents pod.store (U ++ f.path))
                      (st.contents t (D ++ f.path)))
                  fs
          both [] n m = tt
          both (f ∷ fs) (n, ns) (c, m) = (
            (λ p. let (a, b, old, new, e) = c p in (a, b, old, rest f.path n ∙ new, e)),
            both fs ns m,
          )

      copied :
          (u : Unit {0}) × (s : St) × (copy_files s3 U D promote pod.store ≡ (ok u, s))
            × (put_and_wipe s3 from_utf8 from_str rfc3339 into_bytes tick upload_id by meta
                  (record pod { store = s })
                ≡ (ok tt, pod'))
          → (t : St) × IsPlaced upload_id set promote existing pod.store t
            × (pod'
                ≡ Announced st from_utf8 from_str rfc3339 into_bytes tick upload_id by set pod t)
      copied (u, s, c, p) =
          let (t, w, e) =
            put_and_wipe-IsPutAndWiped st from_utf8 from_str rfc3339 into_bytes tick upload_id by
              meta (record pod { store = s }) pod' p in
          (t, placed s t c w, e)
