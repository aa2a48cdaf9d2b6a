-- ===== src/Upload/Plans.antt =====
-- What a successful `begin` has checked and planned.
use rawdb.Base.{
  ℕ, zero, suc, ◌+◌, ◌≤◌, ◌<◌, ◌≡◌, refl, ◌≢◌, inl, inr, none, List, [], ◌∷◌, Text, ap, sym, ◌∙◌,
  subst, tests, lookup, lookup-insert, eq_refl, insert, All-insert, All, Any, leb, ok, arith,
  Bool-cases,
}
use rawdb.Action.{lift, >>=-ok, pure-ok}
use rawdb.S3.{S3}
use rawdb.Upload.{validate_rel_path, blocked_extension, pending_key}
use rawdb.Upload.Parts.{eff_part, part_count, FitsFile, plan-FitsFile}
use rawdb.Upload.Begin.{
  stream, UploadConfig, BeginFile, BeginRequest, PartPlan, FilePlan, single, multipart,
  BeginResponse, check_file, check_files, check_request, plan_parts, plan_single, plan_multipart,
  plan_file, plan_files, plans, begin,
}

-- The file passed the checks on its path, its type and its size.
abbrev pub IsAllowed : UploadConfig → BeginFile → Type 0
IsAllowed cfg f =
    (validate_rel_path f.path ≡ ok tt)
    × (blocked_extension f.path cfg.blocked_extensions ≡ none)
    × (f.size ≤ cfg.max_upload_bytes)

-- `left` parts, numbered from `n` on
abbrev pub Numbered : ℕ → ℕ → List PartPlan → Type 0
Numbered n zero [] = Unit
Numbered n zero (p ∷ ps) = ⊥
Numbered n (suc left) [] = ⊥
Numbered n (suc left) (p ∷ ps) = (p.part_number ≡ n) × Numbered (n + 1) left ps

-- A small file has one URL; a large one has parts that fit it, numbered from 1.
abbrev pub PlanFits : ℕ → ℕ → FilePlan → Type 0
PlanFits part_size size (single url) = size ≤ part_size
PlanFits part_size size (multipart id part parts) =
    (count : ℕ) × (part_size < size) × FitsFile part_size size part count × Numbered 1 count parts

abbrev pub IsPlanned : ℕ → List BeginFile → Text × FilePlan → Type 0
IsPlanned part_size fs (k, plan) = Any (λ f. (f.path ≡ k) × PlanFits part_size f.size plan) fs

check_file-IsAllowed :
    (cfg : UploadConfig) (f : BeginFile) → check_file cfg f ≡ ok tt → IsAllowed cfg f
unfolding check_file
check_file-IsAllowed cfg f h = ground arith

check_files-IsAllowed :
    (cfg : UploadConfig) (fs : List BeginFile) → check_files cfg fs ≡ ok tt → All (IsAllowed cfg) fs
unfolding check_files
check_files-IsAllowed cfg [] h = tt
check_files-IsAllowed cfg (f ∷ fs) h =
    (check_file-IsAllowed cfg f (ground arith), check_files-IsAllowed cfg fs (ground arith))

check_request-IsAllowed :
    (cfg : UploadConfig) (req : BeginRequest)
    → check_request cfg req ≡ ok tt
    → All (IsAllowed cfg) req.files
unfolding check_request
check_request-IsAllowed cfg req h = check_files-IsAllowed cfg req.files (ground arith)

module _ {St : Type 0} (s3 : S3 St) where
  plan_parts-Numbered :
      (key id : Text) (n left : ℕ) (s s' : St) (parts : List PartPlan)
      → plan_parts s3 key id n left s ≡ (ok parts, s')
      → Numbered n left parts
  unfolding plan_parts
  plan_parts-Numbered key id n zero s s' parts h = subst (Numbered n zero) (pure-ok h) tt
  plan_parts-Numbered key id n (suc left) s s' parts h =
      let (url, t, e, h') = >>=-ok _ _ s h in
      let (rest, u, e', h'') = >>=-ok (plan_parts s3 key id (n + 1) left) _ t h' in
      let numbered : Numbered n (suc left) (record { part_number = n; url = url } ∷ rest) =
        (refl, plan_parts-Numbered key id (n + 1) left t u rest e') in
      subst (Numbered n (suc left)) (pure-ok h'') numbered

  plan_single-PlanFits :
      (p size : ℕ) (key : Text) (s s' : St) (plan : FilePlan)
      → size ≤ p
      → plan_single s3 key s ≡ (ok plan, s')
      → PlanFits p size plan
  unfolding plan_single
  plan_single-PlanFits p size key s s' plan l h =
      let (url, t, e, h') = >>=-ok _ _ s h in
      subst (PlanFits p size) {x = single url} (pure-ok h') l

  plan_multipart-PlanFits :
      (p : ℕ) (key : Text) (f : BeginFile) (s s' : St) (plan : FilePlan)
      → p < f.size
      → plan_multipart s3 p key f s ≡ (ok plan, s')
      → PlanFits p f.size plan
  unfolding plan_multipart
  plan_multipart-PlanFits p key f s s' plan l h =
      let (id, t, e, h') = >>=-ok _ _ s h in
      let (parts, u, e', h'') = >>=-ok (plan_parts s3 key id 1 (part_count p f.size)) _ t h' in
      subst (PlanFits p f.size) {x = multipart id (eff_part p f.size) parts} (pure-ok h'') (
        part_count p f.size,
        l,
        plan-FitsFile p f.size l,
        plan_parts-Numbered key id 1 (part_count p f.size) t u parts e',
      )

  plan_file-PlanFits :
      (p : ℕ) (upload_id : Text) (f : BeginFile) (s s' : St) (plan : FilePlan)
      → plan_file s3 p upload_id f s ≡ (ok plan, s')
      → PlanFits p f.size plan
  unfolding plan_file
  plan_file-PlanFits p upload_id f s s' plan h = elim (Bool-cases (leb f.size p)) [
    | inl e ↦
        plan_single-PlanFits p f.size (pending_key upload_id f.path) s s' plan (omega tests)
          (rw e at h)
    | inr e ↦
        plan_multipart-PlanFits p (pending_key upload_id f.path) f s s' plan (ground arith)
          (rw e at h)
  ]

  plan_files-IsPlanned :
      (p : ℕ) (upload_id : Text) (all fs : List BeginFile) (s s' : St)
      (acc out : List (Text × FilePlan))
      → All (λ f. Any (λ g. g ≡ f) all) fs
      → All (IsPlanned p all) acc
      → plan_files s3 p upload_id acc fs s ≡ (ok out, s')
      → All (IsPlanned p all) out
  unfolding plan_files
  plan_files-IsPlanned p upload_id all [] s s' acc out m h e =
      subst (All (IsPlanned p all)) (pure-ok e) h
  plan_files-IsPlanned p upload_id all (f ∷ fs) s s' acc out m h e =
      let (plan, t, e', rest) = >>=-ok (plan_file s3 p upload_id f) _ s e in
      plan_files-IsPlanned p upload_id all fs t s' (insert f.path plan acc) out m.1
        (All-insert (IsPlanned p all) f.path plan acc
          (listed f plan (plan_file-PlanFits p upload_id f s t plan e') all m.0) h)
        rest
    where
      listed :
          (f : BeginFile) (plan : FilePlan)
          → PlanFits p f.size plan
          → (gs : List BeginFile) → Any (λ g. g ≡ f) gs
          → IsPlanned p gs (f.path, plan)
      listed f plan fit [] a = absurd a
      listed f plan fit (g ∷ gs) (inl q) =
          inl (ap (λ (x : BeginFile). x.path) q, subst (λ x. PlanFits p x.size plan) (sym q) fit)
      listed f plan fit (g ∷ gs) (inr r) = inr (listed f plan fit gs r)

  plan_files-keeps :
      (p : ℕ) (upload_id k : Text) (fs : List BeginFile) (s s' : St)
      (acc out : List (Text × FilePlan))
      → lookup k acc ≢ none
      → plan_files s3 p upload_id acc fs s ≡ (ok out, s')
      → lookup k out ≢ none
  unfolding plan_files
  plan_files-keeps p upload_id k [] s s' acc out h e = subst (λ m. lookup k m ≢ none) (pure-ok e) h
  plan_files-keeps p upload_id k (f ∷ fs) s s' acc out h e =
      let (plan, t, e', rest) = >>=-ok (plan_file s3 p upload_id f) _ s e in
      plan_files-keeps p upload_id k fs t s' (insert f.path plan acc) out
        (rw lookup-insert (ground arith)) rest

  plan_files-covers :
      (p : ℕ) (upload_id : Text) (fs : List BeginFile) (s s' : St)
      (acc out : List (Text × FilePlan))
      → plan_files s3 p upload_id acc fs s ≡ (ok out, s')
      → All (λ f. lookup f.path out ≢ none) fs
  unfolding plan_files
  plan_files-covers p upload_id [] s s' acc out e = tt
  plan_files-covers p upload_id (f ∷ fs) s s' acc out e =
      let (plan, t, e', rest) = >>=-ok (plan_file s3 p upload_id f) _ s e in
      (
        plan_files-keeps p upload_id f.path fs t s' (insert f.path plan acc) out
            (rw (lookup-insert, eq_refl) (λ q. cc)) rest,
        plan_files-covers p upload_id fs t s' (insert f.path plan acc) out rest,
      )

  self_listed :
      (fs gs : List BeginFile)
      → All (λ f. Any (λ g. g ≡ f) fs) gs
      → (x : BeginFile) → All (λ f. Any (λ g. g ≡ f) (x ∷ fs)) gs
  self_listed fs [] h x = tt
  self_listed fs (g ∷ gs) h x = (inr h.0, self_listed fs gs h.1 x)

  All-listed : (fs : List BeginFile) → All (λ f. Any (λ g. g ≡ f) fs) fs
  All-listed [] = tt
  All-listed (f ∷ fs) = (inl refl, self_listed fs fs (All-listed fs) f)

  -- What `begin` answers in a mode with presigned URLs.
  pub record IsPlannedResponse (cfg : UploadConfig) (req : BeginRequest) (r : BeginResponse)
      : Type 0 where
    pub allowed : All (IsAllowed cfg) req.files
    pub planned : All (IsPlanned cfg.multipart_part_size req.files) r.files
    pub covered : All (λ f. lookup f.path r.files ≢ none) req.files

  plans-files :
      (cfg : UploadConfig) (upload_id : Text) (fs : List BeginFile) (s : St)
      → cfg.upload_mode ≢ stream
      → plans s3 cfg upload_id fs s ≡ plan_files s3 cfg.multipart_part_size upload_id [] fs s
  unfolding plans
  plans-files cfg upload_id fs s h = ground arith

  -- If `begin` succeeds in a mode with presigned URLs, every declared file has passed the checks on
  -- path, type and size and has a plan, and every plan fits a declared file: one URL for a file up to
  -- the part size, else numbered parts that fit the file and S3's cap on parts.
  pub begin-IsPlannedResponse :
      (cfg : UploadConfig) (upload_id : Text) (req : BeginRequest) (s s' : St) (r : BeginResponse)
      → cfg.upload_mode ≢ stream
      → begin s3 cfg upload_id req s ≡ (ok r, s')
      → IsPlannedResponse cfg req r
  unfolding begin
  begin-IsPlannedResponse cfg upload_id req s s' r h e =
      let (u, t, checked, rest) = >>=-ok (lift (check_request cfg req)) _ s e in
      let (files, t', planned, rest') = >>=-ok (plans s3 cfg upload_id req.files) _ t rest in
      let same : files ≡ r.files = ap (λ (x : BeginResponse). x.files) (pure-ok rest') in
      let made = sym (plans-files cfg upload_id req.files t h) ∙ planned in
      record {
        allowed = check_request-IsAllowed cfg req (ap (λ x. x.0) checked);
        planned = subst (All (IsPlanned cfg.multipart_part_size req.files)) same (
            plan_files-IsPlanned cfg.multipart_part_size upload_id req.files req.files t t' [] files
              (All-listed req.files) tt made);
        covered =
            subst (λ m. All (λ f. lookup f.path m ≢ none) req.files) same
              (plan_files-covers cfg.multipart_part_size upload_id req.files t t' [] files made);
      }
