-- ===== src/Verify/Report.antt =====
-- backend/src/routes/admin.rs: what a verification answers, as a function of the objects alone.
use rawdb.Base.{
  ℕ, ◌+◌, ◌≡◌, ◌≤◌, inl, inr, refl, sym, ap, ◌∙◌, false, Option, List, [], ◌∷◌, ◌++◌, map,
  append-nil, Text, All, map_err, Result, ok, err, Result-cases, ◌>>=◌, arith,
}
use rawdb.Error.{AppError}
use rawdb.S3.{S3, S3Error, Bytes}
use rawdb.S3.Download.{Serve, stream_loop, max_retries}
use rawdb.S3.Resume.{Serves, IsLoopOf, stream_loop-IsLoopOf}
use rawdb.S3.Recover.{IsOpen, Recovers, stream_loop-Ends}
use rawdb.Meta.{FileMeta, RawdbMeta}
use rawdb.Scanner.{meta_file}
use rawdb.Verify.{
  VerifyResult, Tally, compare_file, hash_file, verify_files, no_files, verify_result, load_meta,
  upload_prefix, verify_pending, read_error,
}
use rawdb.Verify.Tallies.{tally_eq, counted, compared-counted, judged, report, count_sum, from_zero}

-- no stream breaks when it has given the whole of an object that is not empty
abbrev pub RecoversSoon : Bytes → Serve → Type 0
RecoversSoon body serve = (k : ℕ) × (k ≤ max_retries) × Recovers body IsOpen serve 0 k

module _ (body : Text → Bytes) (sha256_hex : Bytes → Text) (serve : Text → Serve) where
  -- the content of each key is what the service serves for it
  abbrev pub ServesAll : Type 0
  ServesAll = (key : Text) → Serves (body key) (serve key)

  hash_file-body :
      (key computed : Text)
      → ServesAll
      → hash_file serve sha256_hex key ≡ ok computed
      → computed ≡ sha256_hex (body key)
  unfolding hash_file
  hash_file-body key computed h e =
      go (stream_loop (λ file. false) (serve key) max_retries 0 [])
        (stream_loop-IsLoopOf (body key) (λ file. false) (serve key) max_retries 0 [] (body key)
          (h key) refl)
        e
    where
      go :
          (r : Result S3Error Bytes)
          → IsLoopOf (body key) (λ file. false) r
          → (do b ← map_err read_error r; ok (sha256_hex b)) ≡ ok computed
          → computed ≡ sha256_hex (body key)
      go (err x) l q = cc
      go (ok b) (r, inl w) q = cc
      go (ok b) (r, inr w) q = cc

  taken : {t u : Tally} → ◌≡◌ {A = Result AppError Tally} (ok t) (ok u) → t ≡ u
  taken w = cc

  verify_files-counted :
      (prefix : Text) (fs : List FileMeta) (t u : Tally)
      → ServesAll
      → verify_files serve sha256_hex prefix fs t ≡ ok u
      → u ≡ counted (map (judged body sha256_hex prefix) fs) t
  unfolding verify_files
  verify_files-counted prefix [] t u h e =
      sym (taken e) ∙ tally_eq (omega arith) (omega arith) (omega arith) (sym (append-nil t.out))
  verify_files-counted prefix (f ∷ fs) t u h e =
      elim (Result-cases (hash_file serve sha256_hex (prefix ++ f.path))) [
        | inr (x, q) ↦ absurd (no (rw (verify_files, q) at e))
        | inl (c, q) ↦
            verify_files-counted prefix fs (compare_file f c t) u h (rw (verify_files, q) at e)
            ∙ ap (λ d. counted (map (judged body sha256_hex prefix) fs) (compare_file f d t))
                (hash_file-body (prefix ++ f.path) c h q)
            ∙ compared-counted f.path f.sha256 (sha256_hex (body (prefix ++ f.path)))
                (map (judged body sha256_hex prefix) fs) t
      ]
    where
      no : {x : AppError} → ◌≡◌ {A = Result AppError Tally} (err x) (ok u) → ⊥
      no w = cc

  hash_file-Recovers :
      (key : Text)
      → ServesAll
      → RecoversSoon (body key) (serve key)
      → (c : Text) × (hash_file serve sha256_hex key ≡ ok c)
  unfolding hash_file
  hash_file-Recovers key h (k, l, a) =
      let (b, e) =
        stream_loop-Ends (body key) IsOpen (λ file. false) (serve key) k max_retries 0 [] (body key)
          (h key) (λ f more c w. inr w) l a refl (inr (inl refl)) in
      (sha256_hex b, rw e refl)

  verify_files-Recovers :
      (prefix : Text) (fs : List FileMeta) (t : Tally)
      → ServesAll
      → All (λ f. RecoversSoon (body (prefix ++ f.path)) (serve (prefix ++ f.path))) fs
      → verify_files serve sha256_hex prefix fs t
        ≡ ok (counted (map (judged body sha256_hex prefix) fs) t)
  unfolding verify_files
  verify_files-Recovers prefix fs t h a =
      let (u, e) = answers fs t a in e ∙ ap ok (verify_files-counted prefix fs t u h e)
    where
      answers :
          (fs : List FileMeta) (t : Tally)
          → All (λ f. RecoversSoon (body (prefix ++ f.path)) (serve (prefix ++ f.path))) fs
          → (u : Tally) × (verify_files serve sha256_hex prefix fs t ≡ ok u)
      answers [] t a = (t, refl)
      answers (f ∷ fs) t a =
          let (c, q) = hash_file-Recovers (prefix ++ f.path) h a.0 in
          let (u, e) = answers fs (compare_file f c t) a.1 in (u, rw (verify_files, q) e)

  -- If the answer to a verification is not an error, every declared file was hashed whole, in the order of the meta,
  -- and compared with its claim, however often its stream was broken; the three numbers count the
  -- entries with each status and add up to the total.
  pub verify_pending-report :
      {St : Type 0} (s3 : S3 St) (from_utf8 : Bytes → Option Text)
      (from_str : Text → Option RawdbMeta) (upload_id : Text) (s : St) (r : VerifyResult)
      → ServesAll
      → verify_pending s3 from_utf8 from_str serve sha256_hex upload_id s ≡ ok r
      → (parsed : RawdbMeta) × (load_meta s3 from_utf8 from_str
            (upload_prefix upload_id ++ meta_file)
            s
          ≡ ok parsed)
        × (r ≡ report body sha256_hex (upload_prefix upload_id) parsed.files)
        × (r.verified + r.mismatched + r.missing ≡ r.total)
  unfolding verify_pending
  verify_pending-report s3 from_utf8 from_str upload_id s r h e =
      elim (Result-cases
        (load_meta s3 from_utf8 from_str (upload_prefix upload_id ++ meta_file) s)) [
          | inr (x, q) ↦ absurd (no (rw (verify_pending, q) at e))
          | inl (parsed, q) ↦
              let (same, sum) = counts parsed.files (rw (verify_pending, q) at e) in
              (parsed, q, same, sum)
        ]
    where
      prefix : Text
      prefix = upload_prefix upload_id

      no : {x : AppError} → ◌≡◌ {A = Result AppError VerifyResult} (err x) (ok r) → ⊥
      no w = cc

      result : {q : VerifyResult} → ◌≡◌ {A = Result AppError VerifyResult} (ok q) (ok r) → q ≡ r
      result w = cc

      counts :
          (fs : List FileMeta)
          → (do t ← verify_files serve sha256_hex prefix fs no_files; ok (verify_result fs t))
            ≡ ok r
          → (r ≡ report body sha256_hex prefix fs)
            × (r.verified + r.mismatched + r.missing ≡ r.total)
      counts fs w = elim (Result-cases (verify_files serve sha256_hex prefix fs no_files)) [
        | inr (x, q) ↦ absurd (no (rw q at w))
        | inl (t, q) ↦
            let same =
              sym (result (rw q at w))
              ∙ ap (verify_result fs) (verify_files-counted prefix fs no_files t h q)
              ∙ from_zero body sha256_hex fs prefix in
            (same, rw same (count_sum body sha256_hex prefix fs))
      ]

  -- If the meta can be read, and of the requests for each file at most five fail before one is served to its
  -- end, where no failing stream has given the whole file, the verification answers the report.
  pub verify_pending-Recovers :
      {St : Type 0} (s3 : S3 St) (from_utf8 : Bytes → Option Text)
      (from_str : Text → Option RawdbMeta) (upload_id : Text) (s : St) (parsed : RawdbMeta)
      → ServesAll
      → load_meta s3 from_utf8 from_str (upload_prefix upload_id ++ meta_file) s ≡ ok parsed
      → All
          (λ f.
            RecoversSoon
              (body (upload_prefix upload_id ++ f.path))
              (serve (upload_prefix upload_id ++ f.path)))
          parsed.files
      → verify_pending s3 from_utf8 from_str serve sha256_hex upload_id s
        ≡ ok (report body sha256_hex (upload_prefix upload_id) parsed.files)
  unfolding verify_pending
  verify_pending-Recovers s3 from_utf8 from_str upload_id s parsed h m a =
      rw
        (
          verify_pending,
          m,
          verify_files-Recovers (upload_prefix upload_id) parsed.files no_files h a,
        )
        (ap ok (from_zero body sha256_hex parsed.files (upload_prefix upload_id)))
