-- ===== src/Upload/Tests.antt =====
-- backend/src/routes/upload.rs: runs of `begin` and `complete`.
use rawdb.Base.{
  true, ℕ, ◌≡◌, ◌≢◌, refl, Option, none, some, List, [], ◌∷◌, ◌++◌, Text, codes, Result, ok, err,
  arith,
}
use rawdb.Memory.{Memory, memory}
use rawdb.Memory.Laws.{memory-IsStore}
use rawdb.S3.{Bytes}
use rawdb.Meta.{DateTime, RawdbMeta, default_license}
use rawdb.State.{Pod}
use rawdb.SyncTick.{Domain}
use rawdb.Upload.{pending_key}
use rawdb.Upload.Complete.{CompleteRequest, cleared, prepare, check_objects, complete}
use rawdb.Upload.Commit.{IsCompletion, complete-IsCompletion}
use rawdb.Upload.Parts.{eff_part, part_count}
use rawdb.Upload.Begin.{
  UploadMode, presigned, stream, UploadConfig, BeginFile, BeginRequest, PartPlan, single, multipart,
  BeginResponse, begin,
}
use rawdb.Upload.Receive.{stream as stream_body}
use rawdb.Error.{payload_too_large, body_too_large, forbidden}
use rawdb.Upload.Plans.{IsPlannedResponse, begin-IsPlannedResponse}

abbrev cfg : UploadConfig
cfg = record {
  blocked_extensions = codes "exe" ∷ [];
  max_upload_bytes = 100;
  upload_mode = presigned;
  multipart_part_size = 5;
}

abbrev request : BeginRequest
request = record {
  maker = codes "Canon";
  model = codes "R5";
  files =
      record { path = codes "raw/a.cr3"; size = 12 }
      ∷ record { path = codes "raw/b.cr3"; size = 5 }
      ∷ [];
}

abbrev id : Text
id = codes "20260514T180000Z-a1b2c3d4"

abbrev part : ℕ → PartPlan
part n = record {
  part_number = n;
  url = codes "https://s3/pending/20260514T180000Z-a1b2c3d4/raw/a.cr3";
}

abbrev response : BeginResponse
response = record {
  upload_id = id;
  mode = codes "presigned";
  files =
      (codes "raw/a.cr3", multipart (codes "upload") 5 (part 1 ∷ part 2 ∷ part 3 ∷ []))
      ∷ (codes "raw/b.cr3", single (codes "https://s3/pending/20260514T180000Z-a1b2c3d4/raw/b.cr3"))
      ∷ [];
  stream_base = none;
}

begin_tests : begin memory cfg id request [] ≡ (ok response, [])
unfolding begin rawdb.Action.◌>>=◌ rawdb.Upload.Begin.check_request rawdb.Base.trim
    rawdb.Upload.Begin.check_files rawdb.Upload.Begin.check_file rawdb.Upload.validate_rel_path
    rawdb.Base.contains_dotdot rawdb.Base.any rawdb.Base.split rawdb.Base.contains
    rawdb.Upload.blocked_extension rawdb.Base.rsplit_once rawdb.Base.rsplit_next rawdb.Base.◌==◌
    rawdb.Base.to_ascii_lowercase rawdb.Upload.Begin.plans rawdb.Upload.Begin.plan_files
    rawdb.Base.insert rawdb.Base.is_whitespace rawdb.Base.trim_start rawdb.Upload.Begin.plan_file
    rawdb.Upload.Begin.plan_multipart rawdb.Upload.Begin.plan_parts rawdb.Upload.Begin.plan_single
    eff_part part_count memory
begin_tests = refl

mode_tests : cfg.upload_mode ≢ stream
mode_tests h = cc

begin-IsPlannedResponse_example : IsPlannedResponse memory cfg request response
begin-IsPlannedResponse_example =
    begin-IsPlannedResponse memory cfg id request [] [] response mode_tests begin_tests

abbrev upload_meta : RawdbMeta
upload_meta = record {
  set = record {
    maker = codes "Canon";
    model = codes "R5";
    license = default_license;
    uploaded_by = none;
    uploaded_at = some 4;
    notes = none;
    special = true;
    approved_at = some 3;
    approved_by = none;
    approved_initial_at = none;
    approved_initial_by = none;
  };
  files =
      record { path = codes "raw/a.cr3"; sha256 = none; license = none; notes = none; tags = [] }
      ∷ [];
}

abbrev toml : Text → Option RawdbMeta
toml s = some upload_meta

abbrev rfc3339 : DateTime → Text
rfc3339 t = t ∷ []

abbrev tick : Domain → Bytes
tick d = 1 ∷ []

abbrev pod : Pod Memory
pod = record {
  store = (pending_key id (codes "raw/a.cr3"), 1 ∷ 2 ∷ []) ∷ [];
  cache = record {
    sets = [];
    pending = [];
    users = [];
    users_etag = none;
    sets_gen = 0;
    pending_gen = 0;
  };
  ticks = record { users = none; sets = none; pending = none };
  jobs = [];
  events = [];
}

abbrev completion : CompleteRequest
completion = record {
  maker = codes "Canon";
  model = codes "R5";
  upload_id = id;
  meta_toml = codes "[set]";
}

complete-IsCompletion_example :
    IsCompletion memory-IsStore toml rfc3339
      (λ t. t)
      tick
      cfg
      (codes "anonymous")
      completion
      pod
      (complete memory toml rfc3339 (λ t. t) tick cfg (codes "anonymous") completion pod)
complete-IsCompletion_example =
    complete-IsCompletion memory-IsStore toml rfc3339 (λ t. t) tick cfg (codes "anonymous")
      completion pod

prepare_tests : prepare toml cfg completion ≡ ok (cleared upload_meta)
unfolding prepare rawdb.Base.trim rawdb.Upload.validate_upload_id rawdb.Base.len rawdb.Base.contains
    rawdb.Meta.parse rawdb.Meta.validate_path rawdb.Base.any rawdb.Base.split rawdb.Base.◌==◌
    rawdb.Upload.blocked_extension rawdb.Base.rsplit_once rawdb.Base.rsplit_next
    rawdb.Base.to_ascii_lowercase
prepare_tests = refl

check_objects_tests :
    check_objects memory toml rfc3339 (λ t. t) tick cfg id upload_meta pod.store ≡ ok tt
unfolding check_objects memory rawdb.Base.lookup rawdb.Base.strip_prefix rawdb.Base.◌==◌
check_objects_tests = refl

too_large_tests :
    stream_body memory
      (record cfg { upload_mode = UploadMode.either; max_upload_bytes = 1 })
      id
      (codes "raw/a.cr3")
      (1 ∷ 2 ∷ [])
      pod
    ≡ (err (payload_too_large (body_too_large 1)), pod)
unfolding stream_body rawdb.Base.len rawdb.Base.contains rawdb.Base.contains_dotdot rawdb.Base.any
    rawdb.Base.split
too_large_tests = refl

forbidden_tests :
    stream_body memory
      (record cfg { upload_mode = UploadMode.presigned })
      id
      (codes "raw/a.cr3")
      []
      pod
    ≡ (err forbidden, pod)
unfolding stream_body
forbidden_tests = refl

stored_tests :
    stream_body memory
      (record cfg { upload_mode = UploadMode.either })
      id
      (codes "raw/a.cr3")
      (1 ∷ [])
      (record pod { store = [] })
    ≡ (ok tt, record pod { store = (codes "pending/" ++ id ++ codes "/raw/a.cr3", 1 ∷ []) ∷ [] })
unfolding stream_body rawdb.Base.len rawdb.Base.contains rawdb.Base.contains_dotdot rawdb.Base.any
    rawdb.Base.split memory
stored_tests = refl
