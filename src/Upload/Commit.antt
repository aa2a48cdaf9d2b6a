-- ===== src/Upload/Commit.antt =====
-- What a successful `complete` has checked and written.
use rawdb.Base.{
  ℕ, ◌≡◌, ◌≢◌, ◌≤◌, refl, ◌⊎◌, inl, inr, true, false, Option, none, some, Option-cases,
  Result-cases, List, [], ◌∷◌, ◌++◌, Text, codes, ◌==◌, eq_sound, strip_prefix, lookup,
  lookup-insert, All, All-map, Any, Any-map, Result, ok, err, if◌then◌else◌, arith,
}
use rawdb.Error.{AppError, other}
use rawdb.S3.{S3, S3Error, ObjectInfo, Object, Bytes, IsStore}
use rawdb.Meta.{DateTime, FileMeta, RawdbMeta, parse}
use rawdb.Meta.Quote.{to_toml}
use rawdb.State.{Pod, refresh_one_pending, upload_created}
use rawdb.SyncTick.{Domain, pending, bump}
use rawdb.Scanner.Pair.{strip_prefix_sound}
use rawdb.Upload.{validate_upload_id, blocked_extension, pending_key}
use rawdb.Upload.Begin.{UploadConfig}
use rawdb.Upload.Complete.{
  CompleteRequest, cleared, check_types, prepare, accept, receive, received, check_received,
  check_objects, commit, complete,
}

check_types-All :
    (blocked : List Text) (fs : List FileMeta)
    → check_types blocked fs ≡ ok tt
    → All (λ f. blocked_extension f.path blocked ≡ none) fs
unfolding check_types
check_types-All blocked [] h = tt
check_types-All blocked (f ∷ fs) h = (ground arith, check_types-All blocked fs (ground arith))

-- the meta that is written, and the meta of the request
abbrev pub IsPrepared :
    (Text → Option RawdbMeta) → UploadConfig → CompleteRequest → RawdbMeta → Type 0
IsPrepared from_str cfg req parsed =
    (source : RawdbMeta) × (parse from_str req.meta_toml ≡ ok source)
    × (source.set.maker ≡ req.maker)
    × (source.set.model ≡ req.model)
    × (validate_upload_id req.upload_id ≡ ok tt)
    × All (λ f. blocked_extension f.path cfg.blocked_extensions ≡ none) source.files
    × (parsed ≡ record source {
      set = record source.set {
        special = false;
        approved_at = none;
        approved_by = none;
        approved_initial_at = none;
        approved_initial_by = none;
      };
    })

accept-ok :
    (cfg : UploadConfig) (req : CompleteRequest) (source parsed : RawdbMeta)
    → accept cfg req source ≡ ok parsed
    → ((source.set.maker == req.maker) ≡ true)
      × ((source.set.model == req.model) ≡ true)
      × (check_types cfg.blocked_extensions source.files ≡ ok tt)
      × (parsed ≡ cleared source)
unfolding accept
accept-ok cfg req source parsed h = ground arith

prepared :
    (from_str : Text → Option RawdbMeta) (cfg : UploadConfig) (req : CompleteRequest)
    (parsed : RawdbMeta)
    → prepare from_str cfg req ≡ ok parsed
    → (source : RawdbMeta) × (validate_upload_id req.upload_id ≡ ok tt)
      × (parse from_str req.meta_toml ≡ ok source)
      × (accept cfg req source ≡ ok parsed)
unfolding prepare
prepared from_str cfg req parsed h = elim (Result-cases (parse from_str req.meta_toml)) [
  | inl (source, e) ↦ (source, ground arith, e, ground arith)
  | inr (x, e) ↦ absurd (ground arith)
]

prepare-IsPrepared :
    (from_str : Text → Option RawdbMeta) (cfg : UploadConfig) (req : CompleteRequest)
    (parsed : RawdbMeta)
    → prepare from_str cfg req ≡ ok parsed
    → IsPrepared from_str cfg req parsed
unfolding cleared
prepare-IsPrepared from_str cfg req parsed h =
    let (source, valid, read, taken) = prepared from_str cfg req parsed h in
    let (maker, model, types, same) = accept-ok cfg req source parsed taken in
    (
      source,
      read,
      eq_sound source.set.maker req.maker maker,
      eq_sound source.set.model req.model model,
      valid,
      check_types-All cfg.blocked_extensions source.files types,
      same,
    )

receive_sound :
    (prefix path : Text) (o : ObjectInfo) (m : List (Text × ℕ)) (n : ℕ)
    → lookup path (receive prefix o m) ≡ some n
    → (lookup path m ≡ some n) ⊎ ((o.key ≡ prefix ++ path) × (o.size ≡ n))
unfolding receive
receive_sound prefix path o m n h = elim (Option-cases (strip_prefix prefix o.key)) [
  | inl e ↦ inl (rw (e, receive) at h)
  | inr (rel, e) ↦ ground (
    arith,
    lookup-insert rel path o.size m,
    eq_sound rel path,
    strip_prefix_sound prefix o.key rel,
  )
]

received_sound :
    (prefix path : Text) (os : List ObjectInfo) (m : List (Text × ℕ)) (n : ℕ)
    → lookup path (received prefix os m) ≡ some n
    → (lookup path m ≡ some n) ⊎ Any (λ o. (o.key ≡ prefix ++ path) × (o.size ≡ n)) os
unfolding received
received_sound prefix path [] m n h = inl h
received_sound prefix path (o ∷ os) m n h =
    elim (received_sound prefix path os (receive prefix o m) n h) [
      | inl a ↦ elim (receive_sound prefix path o m n a) [ inl b ↦ inl b | inr b ↦ inr (inl b) ]
      | inr b ↦ inr (inr b)
    ]

check_received-All :
    (max : ℕ) (present : List (Text × ℕ)) (fs : List FileMeta)
    → check_received max present fs ≡ ok tt
    → All (λ f. (n : ℕ) × (lookup f.path present ≡ some n) × (n ≤ max)) fs
unfolding check_received
check_received-All max present [] h = tt
check_received-All max present (f ∷ fs) h = elim (Option-cases (lookup f.path present)) [
  | inl e ↦ absurd (ground arith)
  | inr (n, e) ↦ ((n, e, ground arith), check_received-All max present fs (ground arith))
]

module _ {St : Type 0} {s3 : S3 St} (st : IsStore s3) (from_str : Text → Option RawdbMeta)
    (rfc3339 : DateTime → Text) (into_bytes : Text → Bytes) (tick : Domain → Bytes) where
  -- each file is in the listing of the upload, with an allowed size
  abbrev pub IsReceived : UploadConfig → Text → List FileMeta → St → Type 0
  IsReceived cfg upload_id fs s =
      (objects : List ObjectInfo) × (s3.list_objects (pending_key upload_id []) s ≡ ok objects)
      × All
          (λ f.
            Any
              (λ o. (o.key ≡ pending_key upload_id [] ++ f.path) × (o.size ≤ cfg.max_upload_bytes))
              objects)
          fs

  check_objects-IsReceived :
      (cfg : UploadConfig) (upload_id : Text) (parsed : RawdbMeta) (s : St)
      → check_objects s3 from_str rfc3339 into_bytes tick cfg upload_id parsed s ≡ ok tt
      → IsReceived cfg upload_id parsed.files s
  unfolding check_objects lookup
  check_objects-IsReceived cfg upload_id parsed s h =
      elim (Result-cases (s3.list_objects (pending_key upload_id []) s)) [
        | inr (x, e) ↦ absurd (ground arith)
        | inl (objects, e) ↦ (
          objects,
          e,
          All-map _ _ parsed.files
              (λ f (n, l, le).
                elim (received_sound (pending_key upload_id []) f.path objects [] n l) [
                  | inl a ↦ absurd (ground arith)
                  | inr a ↦ Any-map _ _ objects (λ o k. (k.0, omega (arith, k.1, le))) a
                ])
              (check_received-All cfg.max_upload_bytes _ parsed.files (rw (e, check_objects) at h)),
        )
      ]

  -- the meta is written, and nothing else; then the task, the event and the tick
  abbrev pub IsCommitted : Text → CompleteRequest → RawdbMeta → Pod St → Pod St → Type 0
  IsCommitted by req parsed pod pod' =
      (s : St) × (o : Object) × (o.body ≡ into_bytes (to_toml rfc3339 parsed))
      × ((j : Text)
          → st.contents s j ≡ (
              if pending_key req.upload_id (codes "rawdb-meta.toml") == j
              then some o
              else st.contents pod.store j))
      × (pod'
          ≡ bump s3 tick (pending ∷ []) (record pod {
            store = s;
            jobs = pod.jobs ++ refresh_one_pending req.upload_id ∷ [];
            events = pod.events ++ upload_created req.maker req.model by ∷ [];
          }))

  abbrev pub IsCompletion :
      UploadConfig → Text → CompleteRequest → Pod St → Result AppError (Unit {0}) × Pod St → Type 0
  IsCompletion cfg by req pod (err e, pod') =
      (e ≢ other → pod' ≡ pod) × ((s : St) × (pod' ≡ record pod { store = s }))
  IsCompletion cfg by req pod (ok u, pod') =
      (parsed : RawdbMeta) × IsPrepared from_str cfg req parsed
      × IsReceived cfg req.upload_id parsed.files pod.store
      × IsCommitted by req parsed pod pod'

  committed :
      (cfg : UploadConfig) (by : Text) (req : CompleteRequest) (pod : Pod St) (parsed : RawdbMeta)
      → IsPrepared from_str cfg req parsed
      → IsReceived cfg req.upload_id parsed.files pod.store
      → (w : Result S3Error Text × St)
      → s3.put_bytes
          (pending_key req.upload_id (codes "rawdb-meta.toml"))
          (into_bytes (to_toml rfc3339 parsed))
          none
          none
          pod.store
        ≡ w
      → IsCompletion cfg by req pod (commit s3 from_str rfc3339 into_bytes tick req by pod w)
  unfolding commit
  committed cfg by req pod parsed p r (err e, s) h = (λ n. absurd (n refl), (s, refl))
  committed cfg by req pod parsed p r (ok etag, s) h =
      let (o, i, j, k) = st.put_sound _ _ none none pod.store s etag h in
      (parsed, p, r, (s, o, i, k, refl))

  -- If `complete` succeeds, the meta of the request is valid and names the maker and the model of the
  -- request; no file has a blocked type, and each is in the listing of the upload with an allowed size;
  -- the meta is written with the mark `special` and the approval record cleared, and no other object
  -- changes but the tick, which is written last. A request refused with another error than an internal
  -- one changes nothing; an internal error leaves the cache, the ticks, the tasks and the events.
  pub complete-IsCompletion :
      (cfg : UploadConfig) (by : Text) (req : CompleteRequest) (pod : Pod St)
      → IsCompletion cfg by req pod (complete s3 from_str rfc3339 into_bytes tick cfg by req pod)
  unfolding complete
  complete-IsCompletion cfg by req pod = elim (Result-cases (prepare from_str cfg req)) [
    | inr (x, e) ↦ rw (e, complete) (λ n. refl, (pod.store, refl))
    | inl (parsed, e) ↦
        elim (Result-cases
          (check_objects s3 from_str rfc3339 into_bytes tick cfg req.upload_id parsed pod.store)) [
            | inr (x, f) ↦ rw (e, complete, f) (λ n. refl, (pod.store, refl))
            | inl (u, f) ↦
                rw (e, complete, f)
                  (committed cfg by req pod parsed (prepare-IsPrepared from_str cfg req parsed e)
                    (check_objects-IsReceived cfg req.upload_id parsed pod.store f) _ refl)
          ]
  ]
