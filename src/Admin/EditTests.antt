-- ===== src/Admin/EditTests.antt =====
-- backend/src/routes/admin.rs: edits of a set and of an upload.
use rawdb.Base.{
  ◌≡◌, ◌≢◌, ◌⊎◌, refl, Bool, false, Option, none, some, List, [], ◌∷◌, Text, codes, lookup, trim,
  Any, All, Result, ok, err,
}
use rawdb.Error.{AppError, bad_request, edit_removes}
use rawdb.Memory.{Memory, memory}
use rawdb.Memory.Laws.{memory-IsStore}
use rawdb.Meta.Laws.{Distinct}
use rawdb.State.{Pod}
use rawdb.Admin.Edit.{EditFile, EditRequest, EditSetRequest, clean_tags}
use rawdb.Admin.EditSet.{edit_pending, edit_set}
use rawdb.Admin.Tags.{clean_tags-IsClean}
use rawdb.Admin.Edited.{IsSetEdit, edit_set-IsSetEdit, IsUploadEdit, edit_pending-IsUploadEdit}
use rawdb.Admin.ApproveTests.{meta, pod, set_pod}

abbrev tags : List Text
tags = codes " night " ∷ codes "" ∷ codes "night" ∷ codes "iso" ∷ []

clean_tags_tests : clean_tags tags ≡ codes "night" ∷ codes "iso" ∷ []
unfolding clean_tags trim rawdb.Base.any rawdb.Base.◌==◌
clean_tags_tests = refl

clean_tags-IsClean_example :
    Distinct (clean_tags tags)
    × All (λ t. (t ≢ []) × Any (λ raw. trim raw ≡ t) tags) (clean_tags tags)
    × All (λ raw. (trim raw ≡ []) ⊎ Any (λ t. t ≡ trim raw) (clean_tags tags)) tags
clean_tags-IsClean_example = clean_tags-IsClean tags

abbrev renamed : Text → Text → EditFile
renamed old path = record { old_path = old; path = path; tags = []; notes = none; license = none }

abbrev request : List EditFile → EditSetRequest
request files = record {
  license = [];
  notes = none;
  uploaded_by = none;
  special = false;
  files = files;
}

edit : List EditFile → Result AppError (Unit {0}) × Pod Memory
edit files =
    edit_set memory (λ b. some b) (λ s. some meta) (λ d. []) (λ t. t) (λ d. 1 ∷ []) []
      (codes "Canon") (codes "R5") (request files) set_pod

abbrev as_is : List EditFile
as_is = renamed (codes "raw/a") (codes "raw/a") ∷ renamed (codes "raw/b") (codes "raw/b") ∷ []

kept_tests : (edit as_is).0 ≡ ok tt
unfolding edit edit_set rawdb.Base.find rawdb.Base.◌==◌ trim rawdb.Base.contains_dotdot
    rawdb.Base.contains rawdb.Base.split rawdb.Base.rsplit_once rawdb.Base.rsplit_next memory lookup
    rawdb.Meta.parse rawdb.Meta.validate_path
kept_tests = refl

left_out_tests :
    edit (renamed (codes "raw/a") (codes "raw/a") ∷ [])
    ≡ (err (bad_request (edit_removes (codes "raw/b" ∷ []))), set_pod)
unfolding edit edit_set rawdb.Base.find rawdb.Base.◌==◌ trim rawdb.Base.contains_dotdot
    rawdb.Base.contains rawdb.Base.split rawdb.Base.rsplit_once rawdb.Base.rsplit_next memory lookup
    rawdb.Meta.parse rawdb.Meta.validate_path
left_out_tests = refl

-- two files that change places end with one content
abbrev swapped : List EditFile
swapped = renamed (codes "raw/a") (codes "raw/b") ∷ renamed (codes "raw/b") (codes "raw/a") ∷ []

swapped_a_tests : lookup (codes "samples/Canon/R5/raw/a") (edit swapped).1.store ≡ some (2 ∷ [])
unfolding lookup edit edit_set rawdb.Base.find rawdb.Base.◌==◌ trim rawdb.Base.contains_dotdot
    rawdb.Base.contains rawdb.Base.split rawdb.Base.rsplit_once rawdb.Base.rsplit_next memory
    rawdb.Meta.parse rawdb.Meta.validate_path rawdb.SyncTick.bump rawdb.SyncTick.key
swapped_a_tests = refl

swapped_b_tests : lookup (codes "samples/Canon/R5/raw/b") (edit swapped).1.store ≡ some (2 ∷ [])
unfolding lookup edit edit_set rawdb.Base.find rawdb.Base.◌==◌ trim rawdb.Base.contains_dotdot
    rawdb.Base.contains rawdb.Base.split rawdb.Base.rsplit_once rawdb.Base.rsplit_next memory
    rawdb.Meta.parse rawdb.Meta.validate_path rawdb.SyncTick.bump rawdb.SyncTick.key
swapped_b_tests = refl

-- a blank before a path that is kept: the meta lists the trimmed path, whose object is deleted
blank_tests :
    lookup
      (codes "samples/Canon/R5/raw/a")
      (edit (
        renamed (codes "raw/a") (codes " raw/a")
        ∷ renamed (codes "raw/b") (codes "raw/b")
        ∷ [])).1.store
    ≡ none
unfolding lookup edit edit_set rawdb.Base.find rawdb.Base.◌==◌ trim rawdb.Base.contains_dotdot
    rawdb.Base.contains rawdb.Base.split rawdb.Base.rsplit_once rawdb.Base.rsplit_next memory
    rawdb.Meta.parse rawdb.Meta.validate_path rawdb.SyncTick.bump rawdb.SyncTick.key
blank_tests = refl

edit_set-IsSetEdit_example :
    IsSetEdit memory-IsStore
      (λ b. some b)
      (λ s. some meta)
      (λ d. [])
      (λ t. t)
      (λ d. 1 ∷ [])
      []
      (codes "Canon")
      (codes "R5")
      (request as_is)
      set_pod
      (edit_set memory
        (λ b. some b)
        (λ s. some meta)
        (λ d. [])
        (λ t. t)
        (λ d. 1 ∷ [])
        []
        (codes "Canon")
        (codes "R5")
        (request as_is)
        set_pod)
edit_set-IsSetEdit_example =
    edit_set-IsSetEdit memory-IsStore (λ b. some b) (λ s. some meta) (λ d. []) (λ t. t)
      (λ d. 1 ∷ []) [] (codes "Canon") (codes "R5") (request as_is) set_pod

abbrev upload_request : EditRequest
upload_request = record {
  maker = codes "Canon";
  model = codes "R6";
  license = [];
  notes = none;
  uploaded_by = none;
  special = false;
  files = as_is;
}

edit_pending-IsUploadEdit_example :
    IsUploadEdit memory-IsStore
      (λ b. some b)
      (λ s. some meta)
      (λ d. [])
      (λ t. t)
      (λ d. 1 ∷ [])
      []
      (codes "7")
      upload_request
      pod
      (edit_pending memory
        (λ b. some b)
        (λ s. some meta)
        (λ d. [])
        (λ t. t)
        (λ d. 1 ∷ [])
        []
        (codes "7")
        upload_request
        pod)
edit_pending-IsUploadEdit_example =
    edit_pending-IsUploadEdit memory-IsStore (λ b. some b) (λ s. some meta) (λ d. []) (λ t. t)
      (λ d. 1 ∷ []) [] (codes "7") upload_request pod
