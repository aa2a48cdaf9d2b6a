-- ===== src/Users/Tests.antt =====
-- backend/src/users.rs and its handlers: runs over a store with one user.
use rawdb.Base.{
  ℕ, ◌≡◌, refl, sym, ap, ◌∙◌, Bool, true, false, Option, none, some, List, [], ◌∷◌, Text, codes,
  ◌==◌, Result, ok, err,
}
use rawdb.S3.{Bytes}
use rawdb.Memory.{Memory, memory}
use rawdb.Memory.Laws.{memory-IsStore, stored-etag}
use rawdb.Auth.ApiKey.{role_apiservice}
use rawdb.Cache.{Cache}
use rawdb.State.{Pod}
use rawdb.SyncTick.{Domain}
use rawdb.Users.{User, UsersFile, Codec, Request, users_key, to_db_row, cas_update}
use rawdb.Users.Attempt.{HasEtags, EtagsIdentify, IsUpdate}
use rawdb.Users.Commit.{cas_update-IsUpdate}
use rawdb.Users.Admin.{PatchUserRequest, patch_in, remove_from, create_api_key}
use rawdb.Users.Edit.{IsPatch, patch_in-IsPatch, IsRemoval, remove_from-IsRemoval}
use rawdb.Users.Key.{IsKeyAnswer, create_api_key-IsKeyAnswer}

abbrev ann : User
ann = record {
  sub = codes "github:ann";
  display_name = none;
  blocked = false;
  added_at = none;
  added_by = none;
  roles = role_apiservice ∷ [];
  api_key_hash = none;
}

abbrev codec : Codec
codec = record { from_utf8 = λ b. some b; from_str = λ s. some (ann ∷ []); to_bytes = λ us. 7 ∷ [] }

abbrev tick : Domain → Bytes
tick d = 1 ∷ []

abbrev alone : Request → Memory → Memory
alone r s = s

abbrev pod : Pod Memory
pod = record {
  store = (users_key, 5 ∷ []) ∷ [];
  cache = record {
    sets = [];
    pending = [];
    users = to_db_row ann ∷ [];
    users_etag = none;
    sets_gen = 0;
    pending_gen = 0;
  };
  ticks = record { users = none; sets = none; pending = none };
  jobs = [];
  events = [];
}

etags : HasEtags memory-IsStore codec
unfolding memory-IsStore
etags s a h = (a.body, stored-etag users_key s a h)

inside : {a b : Text} → ◌≡◌ {A = Option Text} (some a) (some b) → a ≡ b
inside h = cc

identified : EtagsIdentify memory-IsStore codec
unfolding memory-IsStore
identified s t a b e h k i j =
    inside (sym (stored-etag users_key s a h) ∙ i ∙ sym j ∙ stored-etag users_key t b k)

abbrev block : PatchUserRequest
block = record { display_name = none; roles = none; blocked = some true }

cas_update-IsUpdate_example :
    IsUpdate memory-IsStore codec true tick alone
      (patch_in (codes "github:ann") block)
      pod
      (cas_update memory codec true tick alone (patch_in (codes "github:ann") block) pod)
cas_update-IsUpdate_example =
    cas_update-IsUpdate memory-IsStore codec true tick alone etags identified
      (patch_in (codes "github:ann") block) pod refl

cas_update_tests :
    (cas_update memory codec true tick alone (patch_in (codes "github:ann") block) pod).0
    ≡ ok (record ann { blocked = true } ∷ [])
unfolding cas_update rawdb.Users.cas_loop rawdb.Users.read_with_etag memory rawdb.Base.lookup ◌==◌
    patch_in rawdb.Base.find rawdb.Users.write_users rawdb.Users.settle_write
    rawdb.Cache.replace_users to_db_row
cas_update_tests = refl

patch_in-IsPatch_example :
    IsPatch (codes "github:ann") block (ann ∷ []) (patch_in (codes "github:ann") block (ann ∷ []))
patch_in-IsPatch_example = patch_in-IsPatch (codes "github:ann") block (ann ∷ [])

remove_from-IsRemoval_example :
    IsRemoval (codes "github:ann") (ann ∷ []) (remove_from (codes "github:ann") (ann ∷ []))
remove_from-IsRemoval_example = remove_from-IsRemoval (codes "github:ann") (ann ∷ [])

create_api_key-IsKeyAnswer_example :
    IsKeyAnswer memory-IsStore codec true tick alone
      (codes "github:ann")
      (codes "key")
      (codes "hash")
      pod
      (create_api_key memory codec true tick alone
        (codes "github:ann")
        (codes "key")
        (codes "hash")
        pod)
create_api_key-IsKeyAnswer_example =
    create_api_key-IsKeyAnswer memory-IsStore codec true tick alone etags identified
      (codes "github:ann") (codes "key") (codes "hash") pod refl
