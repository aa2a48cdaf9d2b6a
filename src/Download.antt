-- ===== src/Download.antt =====
-- backend/src/routes/public.rs: download, with the rate limiter and the API keys in front of it, and
-- serve_download, which download_pending of backend/src/routes/admin.rs shares. The presigning and the
-- streams of the S3 service, the hash of a key, the parsing of an IP address, the percent-encoding and the test of a header's
-- text are arguments. Of the metrics, the counter of bytes is kept; the request counter is left out.
mod Tests
pub mod Rules
pub mod Served
use rawdb.Base.{
  ℕ, ◌^◌, ◌≡◌, Bool, true, false, ◌&&◌, ◌||◌, Option, none, some, List, [], ◌∷◌, ◌++◌, Text, codes,
  ◌==◌, ltb, eqb, ◌/◌, split_next, rsplit_next, trim, contains_dotdot, Result, ok, err, map_err,
  if◌then◌else◌,
}
use rawdb.Error.{
  AppError, Reason, not_found, other, bad_request, too_many_requests, invalid_file_path,
}
use rawdb.Action.{Action, pure, raise, lift, ◌>>=◌, ◌>>◌}
use rawdb.S3.{S3, S3Error, HeadInfo}
use rawdb.Meta.{FileMeta}
use rawdb.Auth.{UserRow}
use rawdb.Auth.ApiKey.{lookup, metric_username}
use rawdb.RateLimit.{second, Decision, DownloadRateLimiter, allowed, limited, check}
use rawdb.Cache.{SetEntry, FileSizeInfo, Cache, is_set}

pub data DownloadMode : Type 0 where
  presigned stream either : DownloadMode

abbrev is_yes : Text → Bool
is_yes v = v == codes "1" || v == codes "true"

-- `matches!(v, Some("1") | Some("true"))`
abbrev is_set_flag : Option Text → Bool
is_set_flag v = elim v [ none ↦ false | some text ↦ is_yes text ]

-- which of the two ways `serve_download` takes
unfoldable pub want_stream : DownloadMode → Option Text → Bool
unfolding ◌==◌
want_stream presigned v = false
want_stream stream v = true
want_stream either v = is_set_flag v

-- one entry of the counter `download_bytes`
pub record ByteCount : Type 0 where
  pub size : ℕ
  pub delivery : Text
  pub username : Text

-- what the downloads of an instance change
pub record Downloads : Type 0 where
  pub limiter : DownloadRateLimiter
  pub counted : List ByteCount

pub record GetStream (Body : Type 0) : Type 0 where
  pub body : Body
  pub content_type : Option Text
  pub content_length : Option ℕ
  pub etag : Option Text

pub data Response (Body : Type 0) : Type 0 where
  redirect : (url : Text) → Response Body
  streamed :
      (body : Body) (content_type : Text) (content_length : Option ℕ)
      (etag disposition : Option Text)
      → Response Body

-- what `percent_encode_filename` encodes besides the control characters
abbrev pub encoded_chars : List ℕ
encoded_chars = 32 ∷ 34 ∷ codes "#$%&+,/:;<=>?@[" ++ 92 ∷ codes "]{}"

abbrev octet_stream : Text
octet_stream = codes "application/octet-stream"

abbrev delivery_of : Bool → Text
delivery_of streams = if streams then codes "stream" else codes "presigned"

-- the metric, if there is a size to record
unfoldable pub count_bytes : Option ℕ → Bool → Text → Action Downloads (Unit {0})
count_bytes none streams username d = (ok tt, d)
count_bytes (some size) streams username d = (
  ok tt,
  record d {
    counted =
        record { size = size; delivery = delivery_of streams; username = username } ∷ d.counted;
  },
)

unfoldable pub stream_error : S3Error → AppError
stream_error (S3Error.not_found key) = not_found
stream_error S3Error.precondition_failed = not_found
stream_error S3Error.other = other

-- `client_ip`, over the text of the two headers and of the peer's address
unfoldable pub client_ip : (Text → Option Text) → Option Text → Option Text → Text → Text
client_ip parse forwarded real peer =
    let of_real : Text = elim real [
      | none ↦ peer
      | some v ↦ elim (parse (trim v)) [ none ↦ peer | some ip ↦ ip ]
    ] in
    elim forwarded [
      | none ↦ of_real
      | some v ↦ elim (parse (trim (split_next 44 v))) [ none ↦ of_real | some ip ↦ ip ]
    ]

-- a size is stored as an `i64` and read back with `max(0)`
abbrev read_size : ℕ → ℕ
read_size n = if ltb n (2 ^ 63) then n else 0

unfoldable pub size_in : Text → List (FileMeta × FileSizeInfo) → Option ℕ
size_in path [] = none
size_in path ((f, info) ∷ files) =
    if f.path == path then some (read_size info.size) else size_in path files

-- SELECT size FROM files WHERE maker = ? AND model = ? AND path = ?
unfoldable pub file_size : Text → Text → Text → List SetEntry → Option ℕ
unfolding size_in
file_size maker model path [] = none
file_size maker model path (e ∷ sets) =
    if is_set maker model e then size_in path e.files else file_size maker model path sets

abbrev pub sample_key : Text → Text → Text → Text
sample_key maker model path = codes "samples/" ++ maker ++ 47 ∷ model ++ 47 ∷ path

-- the headers that a download reads, and the peer's address
pub record Caller : Type 0 where
  pub api_key : Option Text
  pub forwarded_for : Option Text
  pub real_ip : Option Text
  pub peer : Text
  pub is_head : Bool

-- a refusal tells the time to wait in whole seconds
unfoldable pub decided :
    Downloads → Decision × DownloadRateLimiter → Result AppError (Unit {0}) × Downloads
decided d (allowed, l) = (ok tt, record d { limiter = l })
decided d (limited wait, l) = (err (too_many_requests (wait / second)), record d { limiter = l })

-- the guard of `download`: an API user passes, else the limiter decides
unfoldable pub admit :
    (Text → ℕ)
    → (Text → Option Text)
    → Option UserRow
    → Caller
    → Text
    → ℕ
    → Action Downloads (Unit {0})
unfolding client_ip decided
admit hash_path parse (some user) c path now d = (ok tt, d)
admit hash_path parse none c path now d =
    if eqb d.limiter.limit 0
    then (ok tt, d)
    else decided d
        (check hash_path d.limiter (client_ip parse c.forwarded_for c.real_ip c.peer) path now)

-- a HEAD transfers no body
abbrev pub to_count : Bool → ℕ → Option ℕ
to_count is_head size = if is_head then none else some size

-- what the handlers use of the S3 client and of the libraries
pub record Service (St Body : Type 0) : Type 0 where
  pub presign_get : Text → St → Result S3Error Text
  pub get_stream : Text → St → Result S3Error (GetStream Body)
  pub is_header : Text → Bool
  pub percent_encode : List ℕ → Text → Text

module _ {St Body : Type 0} (svc : Service St Body) where
  abbrev pub header_of : Text → Option Text
  header_of text = if svc.is_header text then some text else none

  abbrev pub content_type_of : Option Text → Text
  content_type_of none = octet_stream
  content_type_of (some text) = if svc.is_header text then text else octet_stream

  abbrev pub etag_of : Option Text → Option Text
  etag_of none = none
  etag_of (some etag) = header_of (34 ∷ etag ++ 34 ∷ [])

  abbrev pub disposition_of : Text → Option Text
  disposition_of filename =
      header_of (codes "attachment; filename*=UTF-8''" ++ svc.percent_encode encoded_chars filename)

  unfoldable pub response_of : Text → GetStream Body → Response Body
  response_of filename s =
      streamed s.body (content_type_of s.content_type) s.content_length (etag_of s.etag)
        (disposition_of filename)

  -- the answer of `serve_download`, once the way is chosen
  unfoldable pub answer : Bool → Text → Text → St → Result AppError (Response Body)
  unfolding stream_error response_of
  answer false key filename s = elim (svc.presign_get key s) [
    | ok url ↦ ok (redirect url)
    | err e ↦ err other
  ]
  answer true key filename s = elim (svc.get_stream key s) [
    | ok got ↦ ok (response_of filename got)
    | err e ↦ err (stream_error e)
  ]

  unfoldable pub serve_download :
      DownloadMode
      → Text
      → Text
      → Option ℕ
      → Text
      → Option Text
      → St
      → Action Downloads (Response Body)
  unfolding want_stream count_bytes answer ◌>>=◌
  serve_download mode key filename size username param s =
      count_bytes size (want_stream mode param) username
      >> lift (answer (want_stream mode param) key filename s)

  module _ (mode : DownloadMode) (hash_path : Text → ℕ) (parse : Text → Option Text)
      (hash : Text → Text) where
    -- what follows the guard of `download`
    unfoldable pub serve_sample :
        Option UserRow
        → Text
        → Text
        → Text
        → Option Text
        → Caller
        → Cache
        → St
        → Action Downloads (Response Body)
    unfolding file_size serve_download metric_username rsplit_next
    serve_sample user maker model path param c cache s =
        elim (file_size maker model path cache.sets) [
          | none ↦ raise not_found
          | some size ↦
              serve_download mode (sample_key maker model path) (rsplit_next 47 path)
                (to_count c.is_head size) (metric_username (ok user)) param s
        ]

    unfoldable pub download :
        Text
        → Text
        → Text
        → Option Text
        → Caller
        → ℕ
        → Cache
        → St
        → Action Downloads (Response Body)
    unfolding admit serve_sample ◌>>=◌ lookup
    download maker model path param c now cache s = elim (lookup hash cache c.api_key) [
      | err e ↦ raise other
      | ok user ↦
          admit hash_path parse user c path now
          >> serve_sample user maker model path param c cache s
    ]

    -- `download_pending`, behind its guard
    unfoldable pub download_pending :
        S3 St
        → Text
        → Text
        → Option Text
        → Option Text
        → Cache
        → St
        → Action Downloads (Response Body)
    unfolding serve_download metric_username rsplit_next lookup
    download_pending s3 upload_id path param api_key cache s =
        if contains_dotdot path
        then raise (bad_request invalid_file_path)
        else let key = codes "pending/" ++ upload_id ++ 47 ∷ path in
          elim (s3.head key s) [
            | err e ↦ raise other
            | ok none ↦ raise not_found
            | ok (some info) ↦
                serve_download mode key (rsplit_next 47 path) (some info.size)
                  (metric_username (lookup hash cache api_key)) param s
          ]
