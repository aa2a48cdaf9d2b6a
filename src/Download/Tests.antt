-- ===== src/Download/Tests.antt =====
-- backend/src/routes/public.rs: downloads from a small cache.
use rawdb.Base.{
  ℕ, ◌≡◌, refl, ◌*◌, Bool, true, false, Option, none, some, List, [], ◌∷◌, Text, codes, length,
  Result, ok, err,
}
use rawdb.Error.{AppError, not_found, too_many_requests}
use rawdb.RateLimit.{second}
use rawdb.Cache.{Cache}
use rawdb.Meta.{SetMeta, FileMeta, default_license}
use rawdb.Download.{
  DownloadMode, presigned, either, Downloads, Response, redirect, streamed, Service, Caller,
  client_ip, download,
}
use rawdb.Download.Served.{IsServed, download-IsServed}

abbrev set : SetMeta
set = record {
  maker = codes "Canon";
  model = codes "R5";
  license = default_license;
  uploaded_by = none;
  uploaded_at = none;
  notes = none;
  special = false;
  approved_at = none;
  approved_by = none;
  approved_initial_at = none;
  approved_initial_by = none;
}

abbrev file : FileMeta
file = record { path = codes "raw/a"; sha256 = none; license = none; notes = none; tags = [] }

abbrev cache : Cache
cache = record {
  sets =
      record { row = set; meta_etag = none; files = (file, record { size = 5; etag = none }) ∷ [] }
      ∷ [];
  pending = [];
  users = [];
  users_etag = none;
  sets_gen = 0;
  pending_gen = 0;
}

-- a service without a state, which presigns a key as itself and streams it as its own bytes
abbrev service : Service (Unit {0}) Text
service = record {
  presign_get = λ k s. ok k;
  get_stream = λ k s.
      ok (record {
        body = k;
        content_type = none;
        content_length = some 5;
        etag = some (codes "e");
      });
  is_header = λ t. true;
  percent_encode = λ set t. t;
}

abbrev caller : Caller
caller = record {
  api_key = none;
  forwarded_for = some (codes " 10.0.0.1 , 10.0.0.2");
  real_ip = none;
  peer = codes "10.0.0.9";
  is_head = false;
}

abbrev downloads : Downloads
downloads = record { limiter = record { limit = 1; window = 60 * second; hits = [] }; counted = [] }

get : DownloadMode → Text → Option Text → Downloads → Result AppError (Response Text) × Downloads
get mode path param d =
    download service mode length (λ t. some t) (λ t. t) (codes "Canon") (codes "R5") path param
      caller 7 cache tt d

abbrev after : Downloads
after = (get presigned (codes "raw/a") none downloads).1

redirect_tests :
    get presigned (codes "raw/a") none downloads
    ≡ (ok (redirect (codes "samples/Canon/R5/raw/a")), after)
unfolding get download rawdb.RateLimit.check rawdb.Base.split_next rawdb.Base.trim rawdb.Base.insert
    rawdb.Base.any rawdb.Base.lookup
redirect_tests = refl

stream_tests :
    (get either (codes "raw/a") (some (codes "1")) downloads).0
    ≡ ok (
        streamed
          (codes "samples/Canon/R5/raw/a")
          (codes "application/octet-stream")
          (some 5)
          (some (codes "\"e\""))
          (some (codes "attachment; filename*=UTF-8''a")))
unfolding get download rawdb.RateLimit.check rawdb.Base.split_next rawdb.Base.trim rawdb.Base.insert
    rawdb.Base.any rawdb.Base.lookup
stream_tests = refl

missing_tests : (get presigned (codes "raw/b") none downloads).0 ≡ err not_found
unfolding get download rawdb.RateLimit.check rawdb.Base.split_next rawdb.Base.trim rawdb.Base.insert
    rawdb.Base.any rawdb.Base.lookup
missing_tests = refl

-- another path within the window is refused before the cache is read
limited_tests : (get presigned (codes "raw/xy") none after).0 ≡ err (too_many_requests 60)
unfolding get download rawdb.RateLimit.check rawdb.Base.split_next rawdb.Base.trim rawdb.Base.insert
    rawdb.Base.any rawdb.Base.lookup
limited_tests = refl

client_ip_tests : client_ip (λ t. some t) caller.forwarded_for none caller.peer ≡ codes "10.0.0.1"
unfolding client_ip rawdb.Base.split_next rawdb.Base.trim
client_ip_tests = refl

download-IsServed_example :
    IsServed service presigned length
      (λ t. some t)
      (λ t. t)
      (codes "Canon")
      (codes "R5")
      (codes "raw/a")
      none
      caller
      7
      cache
      tt
      downloads
      after
      (redirect (codes "samples/Canon/R5/raw/a"))
unfolding get
download-IsServed_example =
    download-IsServed service presigned length (λ t. some t) (λ t. t) (codes "Canon") (codes "R5")
      (codes "raw/a") none caller 7 cache tt downloads after
      (redirect (codes "samples/Canon/R5/raw/a")) redirect_tests
