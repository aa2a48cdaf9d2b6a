-- ===== src/Admin/Prepared.antt =====
-- backend/src/routes/admin.rs: what is known after the checks of an approval.
use rawdb.Base.{
  ◌≡◌, ◌≢◌, inl, inr, refl, subst, ap, Option, none, some, List, [], ◌∷◌, ◌++◌, Text, All,
  All-retain, Result, ok, err, Result-cases, map_err, ◌>>=◌,
}
use rawdb.Error.{AppError, bad_request, invalid_meta}
use rawdb.S3.{S3, S3Error, Bytes}
use rawdb.Meta.{FileMeta, RawdbMeta, MetaError, DateTime, parse}
use rawdb.Meta.Laws.{IsValidMeta}
use rawdb.Meta.Plain.{parse-IsValidMeta}
use rawdb.Scanner.{meta_file}
use rawdb.Verify.{decode_meta, read_error, load_meta, upload_prefix}
use rawdb.Admin.Selection.{
  ApproveRequest, conflict_mode, check_mode, pin_date, nonempty, selected, promotion, prepare,
}

pub load_meta-IsValidMeta :
    {St : Type 0} (s3 : S3 St) (from_utf8 : Bytes → Option Text)
    (from_str : Text → Option RawdbMeta) (key : Text) (s : St) (meta : RawdbMeta)
    → load_meta s3 from_utf8 from_str key s ≡ ok meta
    → IsValidMeta meta
unfolding load_meta decode_meta
load_meta-IsValidMeta s3 from_utf8 from_str key s meta h = got (s3.get_bytes key s) h
  where
    parsed :
        (r : Result MetaError RawdbMeta)
        → map_err (λ e. bad_request invalid_meta) r ≡ ok meta
        → r ≡ ok meta
    parsed (ok m) q = cc
    parsed (err e) q = cc

    decoded :
        (o : Option Text) (b : Bytes)
        → from_utf8 b ≡ o
        → decode_meta from_utf8 from_str b ≡ ok meta
        → IsValidMeta meta
    decoded none b e q = absurd (refused (rw (decode_meta, e) at q))
      where
        refused : {x : AppError} → ◌≡◌ {A = Result AppError RawdbMeta} (err x) (ok meta) → ⊥
        refused w = cc
    decoded (some t) b e q =
        parse-IsValidMeta from_str t meta (parsed (parse from_str t) (rw (decode_meta, e) at q))

    got :
        (r : Result S3Error (Bytes × Option Text))
        → (do (bytes, etag) ← map_err read_error r; decode_meta from_utf8 from_str bytes) ≡ ok meta
        → IsValidMeta meta
    got (ok (b, t)) q = decoded (from_utf8 b) b refl q
    got (err e) q = cc

promotion-ok :
    (paths : List Text) (files promote : List FileMeta)
    → promotion paths files ≡ ok promote
    → (promote ≡ selected paths files) × (selected paths files ≢ [])
unfolding promotion
promotion-ok paths files promote h = go (selected paths files) h
  where
    go : (fs : List FileMeta) → nonempty fs ≡ ok promote → (promote ≡ fs) × (fs ≢ [])
    go [] q = cc
    go (f ∷ fs) q = (cc, λ e. cc)

pub selected-All :
    (paths : List Text) (files : List FileMeta)
    → All (λ f. f.path ≢ meta_file) files
    → All (λ f. f.path ≢ meta_file) (selected paths files)
unfolding selected
selected-All [] files a = a
selected-All (p ∷ ps) files a = All-retain _ _ files a

pub prepare-ok :
    {St : Type 0} (s3 : S3 St) (from_utf8 : Bytes → Option Text)
    (from_str : Text → Option RawdbMeta) (upload_id : Text) (req : ApproveRequest) (s : St)
    (parsed : RawdbMeta) (date : Option DateTime) (promote : List FileMeta)
    → prepare s3 from_utf8 from_str upload_id req s ≡ ok (parsed, date, promote)
    → (load_meta s3 from_utf8 from_str (upload_prefix upload_id ++ meta_file) s ≡ ok parsed)
      × (pin_date s3 (upload_prefix upload_id ++ meta_file) s parsed.set.uploaded_at ≡ ok date)
      × (promote ≡ selected req.files parsed.files)
      × (selected req.files parsed.files ≢ [])
unfolding prepare
prepare-ok s3 from_utf8 from_str upload_id req s parsed date promote h =
    elim (Result-cases (check_mode (conflict_mode req.conflict))) [
      | inr (x, c) ↦ absurd (refused (rw (prepare, c) at h))
      | inl (u, c) ↦ elim (Result-cases (load_meta s3 from_utf8 from_str M s)) [
        | inr (x, l) ↦ absurd (refused (rw (prepare, c, l) at h))
        | inl (m, l) ↦ elim (Result-cases (pin_date s3 M s m.set.uploaded_at)) [
          | inr (x, d) ↦ absurd (refused (rw (prepare, c, l, d) at h))
          | inl (t, d) ↦ elim (Result-cases (promotion req.files m.files)) [
            | inr (x, p) ↦ absurd (refused (rw (prepare, c, l, d, p) at h))
            | inl (fs, p) ↦ same m t fs l d p (taken (rw (prepare, c, l, d, p) at h))
          ]
        ]
      ]
    ]
  where
    M : Text
    M = upload_prefix upload_id ++ meta_file

    Plan : Type 0
    Plan = RawdbMeta × Option DateTime × List FileMeta

    refused :
        {x : AppError} → ◌≡◌ {A = Result AppError Plan} (err x) (ok (parsed, date, promote)) → ⊥
    refused w = cc

    taken : {p q : Plan} → ◌≡◌ {A = Result AppError Plan} (ok p) (ok q) → p ≡ q
    taken w = cc

    same :
        (m : RawdbMeta) (t : Option DateTime) (fs : List FileMeta)
        → load_meta s3 from_utf8 from_str M s ≡ ok m
        → pin_date s3 M s m.set.uploaded_at ≡ ok t
        → promotion req.files m.files ≡ ok fs
        → ◌≡◌ {A = Plan} (m, t, fs) (parsed, date, promote)
        → (load_meta s3 from_utf8 from_str M s ≡ ok parsed)
          × (pin_date s3 M s parsed.set.uploaded_at ≡ ok date)
          × (promote ≡ selected req.files parsed.files)
          × (selected req.files parsed.files ≢ [])
    same m t fs l d p w =
        let meta = ap (λ q. q.0) w in
        let (eq, ne) = promotion-ok req.files m.files fs p in
        (
          rw (← meta) l,
          rw (← meta, ← ap (λ q. q.1) w) d,
          rw (← meta, ← ap (λ q. q.2) w) eq,
          subst (λ (m : RawdbMeta). selected req.files m.files ≢ []) meta ne,
        )
