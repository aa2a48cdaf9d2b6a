-- ===== src/Download/Rules.antt =====
-- backend/src/routes/public.rs: what a download looks up, asks the limiter and counts, described apart from the
-- code that computes it.
use rawdb.Base.{
  ℕ, ◌<◌, ◌^◌, ◌⊎◌, ◌↔◌, codes, eq_iff, or_iff, arith, ◌≡◌, refl, sym, ap, ◌∙◌, Bool, true, false,
  Option, none, some, List, [], ◌∷◌, Text, ◌==◌, eq_sound, eqb, Any, Bool-cases, inl, inr, and_true,
  Result, ok,
}
use rawdb.Meta.{FileMeta}
use rawdb.Auth.{UserRow}
use rawdb.Auth.ApiKey.{metric_username}
use rawdb.RateLimit.{Decision, allowed, limited, check, DownloadRateLimiter}
use rawdb.Cache.{SetEntry, FileSizeInfo, is_set}
use rawdb.Download.{
  DownloadMode, presigned, stream, either, Downloads, ByteCount, is_yes, read_size, want_stream,
  delivery_of, size_in, file_size, decided,
}

-- A row of the table `files`: the set has the file, and `n` is its size, if that is not so large that it was
-- stored as a negative number.
abbrev IsFileRow : Text → ℕ → FileMeta × FileSizeInfo → Type 0
IsFileRow path n f = (f.0.path ≡ path) × (f.1.size < 2 ^ 63 → n ≡ f.1.size)

abbrev pub IsListed : Text → Text → Text → ℕ → List SetEntry → Type 0
IsListed maker model path n sets =
    Any (λ e. (e.row.maker ≡ maker) × (e.row.model ≡ model) × Any (IsFileRow path n) e.files) sets

size_in-Any :
    (path : Text) (files : List (FileMeta × FileSizeInfo)) {n : ℕ}
    → size_in path files ≡ some n
    → Any (IsFileRow path n) files
unfolding size_in
size_in-Any path [] h = absurd (cc h)
size_in-Any path ((f, info) ∷ files) {n} h = elim (Bool-cases (f.path == path)) [
  | inl e ↦ inl (eq_sound f.path path e, λ l. sized (rw (size_in, e) at h) l)
  | inr e ↦ inr (size_in-Any path files (rw (size_in, e) at h))
]
  where
    sized : some (read_size info.size) ≡ some n → info.size < 2 ^ 63 → n ≡ info.size
    sized w l = ground arith

pub file_size-IsListed :
    (maker model path : Text) (sets : List SetEntry) {n : ℕ}
    → file_size maker model path sets ≡ some n
    → IsListed maker model path n sets
unfolding file_size
file_size-IsListed maker model path [] h = absurd (cc h)
file_size-IsListed maker model path (e ∷ sets) h = elim (Bool-cases (is_set maker model e)) [
  | inl k ↦
      let facts = and_true (e.row.maker == maker) (e.row.model == model) k in
      inl (
        eq_sound e.row.maker maker facts.0,
        eq_sound e.row.model model facts.1,
        size_in-Any path e.files (rw (file_size, k) at h),
      )
  | inr k ↦ inr (file_size-IsListed maker model path sets (rw (file_size, k) at h))
]

-- whether the backend streams the bytes: by its mode, and in the mode `either` if the client asks for it
abbrev pub Streams : DownloadMode → Option Text → Type 0
Streams presigned v = ⊥
Streams stream v = Unit {0}
Streams either none = ⊥
Streams either (some v) = (v ≡ codes "1") ⊎ (v ≡ codes "true")

pub want_stream-Streams :
    (mode : DownloadMode) (v : Option Text)
    → (want_stream mode v ≡ true → Streams mode v) × (want_stream mode v ≡ false → ¬ Streams mode v)
unfolding want_stream
want_stream-Streams presigned v = ((λ e. absurd (cc e)), (λ e w. w))
want_stream-Streams stream v = ((λ e. tt), (λ e w. absurd (cc e)))
want_stream-Streams either none = ((λ e. absurd (cc e)), (λ e w. w))
want_stream-Streams either (some v) = (yes.0, (λ e w. differs e (yes.1 w)))
  where
    yes : (is_yes v ≡ true) ↔ ((v ≡ codes "1") ⊎ (v ≡ codes "true"))
    yes =
        or_iff (v == codes "1") (v == codes "true") (eq_iff v (codes "1")) (eq_iff v (codes "true"))

    differs : {b : Bool} → b ≡ false → b ≡ true → ⊥
    differs p q = cc

-- the label of the counter: the user of the key, or `public`
abbrev label : Option UserRow → Text
label none = codes "public"
label (some user) = user.sub

metric_username-label : (user : Option UserRow) → metric_username (ok user) ≡ label user
unfolding metric_username
metric_username-label none = refl
metric_username-label (some user) = refl

-- the size is counted once, under the way of delivery, or not at all for a HEAD
abbrev pub IsCounted : Bool → Type 0 → ℕ → Option UserRow → List ByteCount → List ByteCount → Type 0
IsCounted true ByStream n user before after = after ≡ before
IsCounted false ByStream n user before after =
    (way : Text) × (after ≡ record { size = n; delivery = way; username = label user } ∷ before)
    × ((ByStream × (way ≡ codes "stream")) ⊎ ((¬ ByStream) × (way ≡ codes "presigned")))

-- a user with an API key leaves the limiter as it was; anyone else was allowed by it
abbrev pub Passed :
    (DownloadRateLimiter → Decision × DownloadRateLimiter)
    → DownloadRateLimiter
    → DownloadRateLimiter
    → Option UserRow
    → Type 0
Passed ask before after none = ask before ≡ (allowed, after)
Passed ask before after (some user) = after ≡ before

pub Passed-after :
    (ask : DownloadRateLimiter → Decision × DownloadRateLimiter)
    (before mid after : DownloadRateLimiter) (user : Option UserRow)
    → after ≡ mid
    → Passed ask before mid user
    → Passed ask before after user
Passed-after ask before mid after none e p = p ∙ ap (λ l. (allowed, l)) (sym e)
Passed-after ask before mid after (some user) e p = e ∙ p

pub check_unlimited :
    (hash_path : Text → ℕ) (l : DownloadRateLimiter) (ip path : Text) (now : ℕ)
    → eqb l.limit 0 ≡ true
    → check hash_path l ip path now ≡ (allowed, l)
unfolding check
check_unlimited hash_path l ip path now e = rw (check, e)

pub decided-ok :
    (d d' : Downloads) (out : Decision × DownloadRateLimiter)
    → decided d out ≡ (ok tt, d')
    → out ≡ (allowed, d'.limiter)
unfolding decided
decided-ok d d' (allowed, l) h = ap (λ r. (allowed, r.1.limiter)) h
decided-ok d d' (limited wait, l) h = absurd (cc h)

abbrev pub count_of : Bool → ℕ → Bool → Text → List ByteCount → List ByteCount
count_of true n streams username counted = counted
count_of false n streams username counted =
    record { size = n; delivery = delivery_of streams; username = username } ∷ counted

pub count_of-IsCounted :
    (is_head streams : Bool) (mode : DownloadMode) (v : Option Text) (n : ℕ) (user : Option UserRow)
    (before : List ByteCount)
    → want_stream mode v ≡ streams
    → IsCounted is_head
        (Streams mode v)
        n
        user
        before
        (count_of is_head n streams (metric_username (ok user)) before)
count_of-IsCounted true streams mode v n user before e = refl
count_of-IsCounted false true mode v n user before e = (
  codes "stream",
  ap (λ name. record { size = n; delivery = codes "stream"; username = name } ∷ before)
      (metric_username-label user),
  inl ((want_stream-Streams mode v).0 e, refl),
)
count_of-IsCounted false false mode v n user before e = (
  codes "presigned",
  ap (λ name. record { size = n; delivery = codes "presigned"; username = name } ∷ before)
      (metric_username-label user),
  inr ((want_stream-Streams mode v).1 e, refl),
)

pub decided-counted :
    (d : Downloads) (out : Decision × DownloadRateLimiter) → (decided d out).1.counted ≡ d.counted
unfolding decided
decided-counted d (allowed, l) = refl
decided-counted d (limited wait, l) = refl

pub same_ok : {E A : Type 0} {a b : A} → ◌≡◌ {A = Result E A} (ok a) (ok b) → a ≡ b
same_ok h = cc
