-- ===== src/Admin/Promote.antt =====
-- backend/src/routes/admin.rs: the resolution of a conflict, and the end of an approval.
use rawdb.Base.{
  ℕ, ◌≡◌, ◌≢◌, ◌⊎◌, inl, inr, refl, sym, ap, ◌∙◌, Bool, true, false, Bool-cases, Option, none, some,
  List, [], ◌∷◌, ◌++◌, Text, codes, ◌==◌, eq_iff, Result, ok, err,
}
use rawdb.Error.{AppError}
use rawdb.Action.{Action, pure, ◌>>=◌, pure-ok, pure-state, lift-ok}
use rawdb.S3.{S3, Object, Bytes, IsStore}
use rawdb.Meta.{SetMeta, FileMeta, RawdbMeta, DateTime}
use rawdb.Meta.Quote.{to_toml}
use rawdb.State.{with_store, Pod, refresh_one_set, refresh_one_pending, set_approved}
use rawdb.SyncTick.{Domain, sets, pending, bump}
use rawdb.Scanner.{meta_file}
use rawdb.Verify.{upload_prefix}
use rawdb.Admin.{delete_prefix}
use rawdb.Admin.Objects.{set_prefix, put_meta}
use rawdb.Admin.Copies.{append_cancel, if_false, if_true}
use rawdb.Admin.Clear.{IsGone, delete_errors, delete_prefix-IsWiped}
use rawdb.Admin.Approve.{resolve, announce, put_and_wipe}
use rawdb.Admin.Merged.{IsRead, read_existing-IsRead}
use rawdb.Admin.Moves.{store->>=-ok, prefixes_differ}

module _ {St : Type 0} {s3 : S3 St} (st : IsStore s3) (from_utf8 : Bytes → Option Text)
    (from_str : Text → Option RawdbMeta) (rfc3339 : DateTime → Text) (into_bytes : Text → Bytes)
    (tick : Domain → Bytes) where
  -- what the conflict resolution answers, and what it leaves
  abbrev pub IsResolved : Text → Text → Text → Option SetMeta → List FileMeta → St → Type 0
  IsResolved mode maker model none existing s = existing ≡ []
  IsResolved mode maker model (some old) existing s =
      (mode ≢ codes "refuse")
      × ((mode ≡ codes "replace") × (existing ≡ [])
          ⊎ (mode ≢ codes "replace")
            × IsRead from_utf8 from_str (s3.get_bytes (set_prefix maker model ++ meta_file) s)
                existing)

  pub resolve-IsResolved :
      (mode maker model upload_id : Text) (old : Option SetMeta) (existing : List FileMeta)
      (pod pod' : Pod St)
      → resolve s3 from_utf8 from_str rfc3339 into_bytes tick mode maker model old pod
        ≡ (ok existing, pod')
      → IsResolved mode maker model old existing pod.store
        × ((s : St) × (pod' ≡ record pod { store = s })
            × ((k : Text)
                → st.contents s (upload_prefix upload_id ++ k)
                  ≡ st.contents pod.store (upload_prefix upload_id ++ k))
            × ((mode ≢ codes "replace" ⊎ old ≡ none) → s ≡ pod.store))
  unfolding resolve
  resolve-IsResolved mode maker model upload_id none existing pod pod' h =
      (sym (pure-ok h), (pod.store, sym (pure-state h), (λ k. refl), (λ c. refl)))
  resolve-IsResolved mode maker model upload_id (some old) existing pod pod' h =
      elim (Bool-cases (mode == codes "refuse")) [
        | inl e ↦ absurd (refused (ap (λ w. w.0) (rw (e, resolve) at h)))
        | inr e ↦ elim (Bool-cases (mode == codes "replace")) [
          | inl q ↦ replaced e q (
              store->>=-ok (delete_prefix s3 (set_prefix maker model)) (λ n. pure []) pod pod'
                existing (rw (e, q, resolve) at h))
          | inr q ↦
              let (got, same) = lift-ok (rw (e, q, resolve) at h) in
              (
                (
                  other_mode (codes "refuse") e,
                  inr (
                    other_mode (codes "replace") q,
                    read_existing-IsRead from_utf8 from_str _ existing got,
                  ),
                ),
                (pod.store, sym same, (λ k. refl), (λ c. refl)),
              )
        ]
      ]
    where
      refused : {x : AppError} → ◌≡◌ {A = Result AppError (List FileMeta)} (err x) (ok existing) → ⊥
      refused w = cc

      other_mode : (m : Text) → (mode == m) ≡ false → mode ≢ m
      other_mode m e w = differs e ((eq_iff mode m).1 w)
        where
          differs : {b : Bool} → b ≡ false → b ≡ true → ⊥
          differs p q = cc

      replaced :
          (mode == codes "refuse") ≡ false
          → (mode == codes "replace") ≡ true
          → (n : ℕ) × (s : St) × (delete_prefix s3 (set_prefix maker model) pod.store ≡ (ok n, s))
            × (pure [] (record pod { store = s }) ≡ (ok existing, pod'))
          → IsResolved mode maker model (some old) existing pod.store
            × ((s : St) × (pod' ≡ record pod { store = s })
                × ((k : Text)
                    → st.contents s (upload_prefix upload_id ++ k)
                      ≡ st.contents pod.store (upload_prefix upload_id ++ k))
                × ((mode ≢ codes "replace" ⊎ some old ≡ none) → s ≡ pod.store))
      replaced e q (n, s, del, p) = (
        (other_mode (codes "refuse") e, inl ((eq_iff mode (codes "replace")).0 q, sym (pure-ok p))),
        (
          s,
          sym (pure-state p),
          λ k.
              (delete_prefix-IsWiped st (set_prefix maker model) n pod.store s del).1
                (upload_prefix upload_id ++ k)
                (λ x w. prefixes_differ upload_id maker model k x (sym w)),
          λ c. absurd (neither q c),
        ),
      )
        where
          neither : (mode == codes "replace") ≡ true → ¬ (mode ≢ codes "replace" ⊎ some old ≡ none)
          neither q (inl n) = n ((eq_iff mode (codes "replace")).0 q)
          neither q (inr w) = cc

  -- some objects of the upload were listed and deleted, and only those stay for which the service has reported
  -- an error
  abbrev pub IsWipedUpload : Text → St → Type 0
  IsWipedUpload upload_id t =
      (r : St) × (n : ℕ) × (delete_prefix s3 (upload_prefix upload_id) r ≡ (ok n, t))
      × ((k : Text)
          → IsGone (st.contents t (upload_prefix upload_id ++ k)) (upload_prefix upload_id ++ k)
              (delete_errors s3 (upload_prefix upload_id) r))

  -- What was written and deleted between the stores `s` and `t`: nothing is left under the prefix of the upload, the
  -- meta is stored, and every other key of a set is as it was.
  abbrev pub IsPutAndWiped : Text → RawdbMeta → St → St → Type 0
  IsPutAndWiped upload_id meta s t =
      IsWipedUpload upload_id t
      × ((o : Object) × (st.contents t (set_prefix meta.set.maker meta.set.model ++ meta_file)
            ≡ some o)
          × (o.body ≡ into_bytes (to_toml rfc3339 meta)))
      × ((j : Text)
          → j ≢ meta_file
          → st.contents t (set_prefix meta.set.maker meta.set.model ++ j)
            ≡ st.contents s (set_prefix meta.set.maker meta.set.model ++ j))

  abbrev pub Announced : Text → Text → SetMeta → Pod St → St → Pod St
  Announced upload_id by set pod s = bump s3 tick (pending ∷ sets ∷ []) (record pod {
    store = s;
    jobs = pod.jobs ++ refresh_one_set set.maker set.model ∷ refresh_one_pending upload_id ∷ [];
    events = pod.events ++ set_approved set.maker set.model by ∷ [];
  })

  pub put_and_wipe-IsPutAndWiped :
      (upload_id by : Text) (meta : RawdbMeta) (pod pod' : Pod St)
      → put_and_wipe s3 from_utf8 from_str rfc3339 into_bytes tick upload_id by meta pod
        ≡ (ok tt, pod')
      → (t : St) × IsPutAndWiped upload_id meta pod.store t
        × (pod' ≡ Announced upload_id by meta.set pod t)
  unfolding put_and_wipe put_meta
  put_and_wipe-IsPutAndWiped upload_id by meta pod pod' h =
      written (store->>=-ok (put_meta s3 rfc3339 into_bytes D meta) after_put pod pod' tt h)
    where
      D : Text
      D = set_prefix meta.set.maker meta.set.model

      after_put : Text → Action (Pod St) (Unit {0})
      after_put etag = do
        deleted ← with_store (delete_prefix s3 (upload_prefix upload_id))
        announce s3 from_utf8 from_str rfc3339 into_bytes tick upload_id meta.set.maker
            meta.set.model by

      both :
          (etag : Text) (n : ℕ) (s t : St)
          → put_meta s3 rfc3339 into_bytes D meta pod.store ≡ (ok etag, s)
          → delete_prefix s3 (upload_prefix upload_id) s ≡ (ok n, t)
          → IsPutAndWiped upload_id meta pod.store t
      both etag n s t p w =
          let (gone, out) = delete_prefix-IsWiped st (upload_prefix upload_id) n s t w in
          let (o, body, tag, new) =
            st.put_sound (D ++ meta_file) (into_bytes (to_toml rfc3339 meta)) none none pod.store s
              etag p in
          let same = λ (j : Text).
            out (D ++ j) (λ k. prefixes_differ upload_id meta.set.maker meta.set.model k j)
            ∙ new (D ++ j) in
          (
            (s, n, w, gone),
            (o, same meta_file ∙ if_true _ _ (D ++ meta_file) (D ++ meta_file) refl, body),
            λ j ne.
                same j
                ∙ if_false _ _ (D ++ meta_file) (D ++ j)
                    (λ e. ne (sym (append_cancel D meta_file j e))),
          )

      wiped :
          (etag : Text) (s : St)
          → put_meta s3 rfc3339 into_bytes D meta pod.store ≡ (ok etag, s)
          → (n : ℕ) × (t : St) × (delete_prefix s3 (upload_prefix upload_id) s ≡ (ok n, t))
            × (announce s3 from_utf8 from_str rfc3339 into_bytes tick upload_id meta.set.maker
                  meta.set.model by
                  (record pod { store = t })
                ≡ (ok tt, pod'))
          → (t : St) × IsPutAndWiped upload_id meta pod.store t
            × (pod' ≡ Announced upload_id by meta.set pod t)
      wiped etag s p (n, t, w, a) = (t, both etag n s t p w, sym (pure-state a))

      written :
          (etag : Text) × (s : St) × (put_meta s3 rfc3339 into_bytes D meta pod.store
              ≡ (ok etag, s))
            × (after_put etag (record pod { store = s }) ≡ (ok tt, pod'))
          → (t : St) × IsPutAndWiped upload_id meta pod.store t
            × (pod' ≡ Announced upload_id by meta.set pod t)
      written (etag, s, p, a) = wiped etag s p (
          store->>=-ok (delete_prefix s3 (upload_prefix upload_id))
            (λ n.
              announce s3 from_utf8 from_str rfc3339 into_bytes tick upload_id meta.set.maker
                meta.set.model by)
            (record pod { store = s }) pod' tt a)
