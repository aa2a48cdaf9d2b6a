-- ===== src/Download/Served.antt =====
-- backend/src/routes/public.rs: which downloads are answered.
use rawdb.Base.{
  ℕ, ◌++◌, codes, subst, ◌≡◌, refl, sym, ap, ◌∙◌, Bool, true, false, Option, none, some, ◌∷◌, Text,
  eqb, rsplit_next, Bool-cases, inl, inr, Option-cases, Result-cases, ok,
}
use rawdb.Action.{◌>>=◌, >>=-ok}
use rawdb.Auth.{UserRow}
use rawdb.Auth.ApiKey.{lookup, metric_username}
use rawdb.RateLimit.{Decision, allowed, check, DownloadRateLimiter}
use rawdb.Cache.{Cache}
use rawdb.Download.{
  DownloadMode, Downloads, GetStream, Response, redirect, streamed, Service, response_of, Caller,
  want_stream, count_bytes, file_size, client_ip, sample_key, to_count, admit, answer,
  serve_download, serve_sample, download,
}
use rawdb.Download.Rules.{
  IsListed, file_size-IsListed, Streams, want_stream-Streams, IsCounted, Passed, Passed-after,
  check_unlimited, decided-ok, count_of, count_of-IsCounted, decided-counted, same_ok,
}

module _ {St Body : Type 0} (svc : Service St Body) (mode : DownloadMode) (hash_path : Text → ℕ)
    (parse : Text → Option Text) (hash : Text → Text) where
  abbrev pub ask_for : Caller → Text → ℕ → DownloadRateLimiter → Decision × DownloadRateLimiter
  ask_for c path now l =
      check hash_path l (client_ip parse c.forwarded_for c.real_ip c.peer) path now

  -- the redirect that the service presigns for the object, or its stream, of its length
  abbrev pub IsAnswer : DownloadMode → Option Text → Text → St → Response Body → Type 0
  IsAnswer mode v key s (redirect url) = (¬ Streams mode v) × (svc.presign_get key s ≡ ok url)
  IsAnswer mode v key s (streamed b ct len etag disp) =
      Streams mode v
      × ((got : GetStream Body) × (svc.get_stream key s ≡ ok got)
          × (b ≡ got.body)
          × (len ≡ got.content_length))

  answer-IsAnswer :
      (v : Option Text) (streams : Bool) (key filename : Text) (s : St) (resp : Response Body)
      → want_stream mode v ≡ streams
      → answer svc streams key filename s ≡ ok resp
      → IsAnswer mode v key s resp
  unfolding answer response_of
  answer-IsAnswer v false key filename s resp e h = elim (Result-cases (svc.presign_get key s)) [
    | inr (x, k) ↦ absurd (cc (rw (answer, k) at h))
    | inl (url, k) ↦
        subst (IsAnswer mode v key s) (same_ok (rw (answer, k) at h))
          ((want_stream-Streams mode v).1 e, k)
  ]
  answer-IsAnswer v true key filename s resp e h = elim (Result-cases (svc.get_stream key s)) [
    | inr (x, k) ↦ absurd (cc (rw (answer, k) at h))
    | inl (got, k) ↦
        subst (IsAnswer mode v key s) (same_ok (rw (answer, k) at h))
          ((want_stream-Streams mode v).0 e, (got, k, refl, refl))
  ]

  -- what an answered download has found and changed
  pub record IsServed (maker model path : Text) (param : Option Text) (c : Caller) (now : ℕ)
      (cache : Cache) (s : St) (before after : Downloads) (resp : Response Body) : Type 0 where
    pub user : Option UserRow
    pub found : lookup hash cache c.api_key ≡ ok user
    pub size : ℕ
    pub listed : IsListed maker model path size cache.sets
    pub answered : IsAnswer mode param (codes "samples/" ++ maker ++ 47 ∷ model ++ 47 ∷ path) s resp
    pub passed : Passed (ask_for c path now) before.limiter after.limiter user
    pub counted : IsCounted c.is_head (Streams mode param) size user before.counted after.counted

  admit-counted :
      (user : Option UserRow) (c : Caller) (path : Text) (now : ℕ) (d : Downloads)
      → (admit hash_path parse user c path now d).1.counted ≡ d.counted
  unfolding admit
  admit-counted (some user) c path now d = refl
  admit-counted none c path now d = elim (Bool-cases (eqb d.limiter.limit 0)) [
    | inl e ↦ rw (e)
    | inr e ↦ rw (e) (decided-counted d _)
  ]

  admit-Passed :
      (user : Option UserRow) (c : Caller) (path : Text) (now : ℕ) (d d' : Downloads)
      → admit hash_path parse user c path now d ≡ (ok tt, d')
      → Passed (ask_for c path now) d.limiter d'.limiter user
  unfolding admit
  admit-Passed (some user) c path now d d' h = ap (λ r. r.1.limiter) (sym h)
  admit-Passed none c path now d d' h = elim (Bool-cases (eqb d.limiter.limit 0)) [
    | inl e ↦
        check_unlimited hash_path d.limiter _ path now e
        ∙ ap (λ r. (allowed, r.1.limiter)) (rw (admit, e) at h)
    | inr e ↦ decided-ok d d' _ (rw (admit, e) at h)
  ]

  serve_download-ok :
      (key filename username : Text) (is_head : Bool) (n : ℕ) (param : Option Text) (s : St)
      (d d' : Downloads) (resp : Response Body)
      → serve_download svc mode key filename (to_count is_head n) username param s d ≡ (ok resp, d')
      → (answer svc (want_stream mode param) key filename s ≡ ok resp)
        × (d'.limiter ≡ d.limiter)
        × (d'.counted ≡ count_of is_head n (want_stream mode param) username d.counted)
  unfolding serve_download count_bytes ◌>>=◌
  serve_download-ok key filename username true n param s d d' resp h =
      (ap (λ r. r.0) h, ap (λ r. r.1.limiter) (sym h), ap (λ r. r.1.counted) (sym h))
  serve_download-ok key filename username false n param s d d' resp h =
      (ap (λ r. r.0) h, ap (λ r. r.1.limiter) (sym h), ap (λ r. r.1.counted) (sym h))

  serve_sample-ok :
      (user : Option UserRow) (maker model path : Text) (param : Option Text) (c : Caller)
      (cache : Cache) (s : St) (d d' : Downloads) (resp : Response Body)
      → serve_sample svc mode hash_path parse hash user maker model path param c cache s d
        ≡ (ok resp, d')
      → (n : ℕ) × (file_size maker model path cache.sets ≡ some n)
        × (answer svc (want_stream mode param) (sample_key maker model path) (rsplit_next 47 path) s
            ≡ ok resp)
        × (d'.limiter ≡ d.limiter)
        × (d'.counted
            ≡ count_of c.is_head n (want_stream mode param) (metric_username (ok user)) d.counted)
  unfolding serve_sample
  serve_sample-ok user maker model path param c cache s d d' resp h =
      elim (Option-cases (file_size maker model path cache.sets)) [
        | inl k ↦ absurd (cc (rw (serve_sample, k) at h))
        | inr (n, k) ↦
            let (answered, kept, counted) =
              serve_download-ok _ _ _ c.is_head n param s d d' resp (rw (serve_sample, k) at h) in
            (n, k, answered, kept, counted)
      ]

  -- A download that is answered is of a file that the cache lists in an approved set. Its API key is that
  -- of a user, and the limiter is as it was; or it has none, and the limiter has allowed it. The answer is
  -- the redirect that is presigned for that file's object or, if the mode and the client say so, the
  -- object's stream. The size in the cache is counted once, under the way of delivery and the user of the
  -- key, or not at all for a HEAD.
  pub download-IsServed :
      (maker model path : Text) (param : Option Text) (c : Caller) (now : ℕ) (cache : Cache)
      (s : St) (d d' : Downloads) (resp : Response Body)
      → download svc mode hash_path parse hash maker model path param c now cache s d
        ≡ (ok resp, d')
      → IsServed maker model path param c now cache s d d' resp
  unfolding download serve_sample serve_download count_bytes
  download-IsServed maker model path param c now cache s d d' resp h =
      elim (Result-cases (lookup hash cache c.api_key)) [
        | inr (x, k) ↦ absurd (cc (rw (download, k) at h))
        | inl (user, k) ↦
            let (u, d1, a, b) =
              >>=-ok (admit hash_path parse user c path now)
                (λ u.
                  serve_sample svc mode hash_path parse hash user maker model path param c cache s)
                d (rw (download, k) at h) in
            let (n, sized, answered, kept, counted) =
              serve_sample-ok user maker model path param c cache s d1 d' resp b in
            let before : d1.counted ≡ d.counted =
              ap (λ r. r.1.counted) (sym a) ∙ admit-counted user c path now d in
            record {
              user = user;
              found = k;
              size = n;
              listed = file_size-IsListed maker model path cache.sets sized;
              answered = answer-IsAnswer param (want_stream mode param) _ _ s resp refl answered;
              passed =
                  Passed-after (ask_for c path now) d.limiter d1.limiter d'.limiter user kept
                    (admit-Passed user c path now d d1 a);
              counted =
                  subst (IsCounted c.is_head (Streams mode param) n user d.counted)
                    (sym (
                      counted
                      ∙ ap
                          (count_of c.is_head n (want_stream mode param)
                            (metric_username (ok user)))
                          before))
                    (count_of-IsCounted c.is_head (want_stream mode param) mode param n user
                      d.counted refl);
            }
      ]
