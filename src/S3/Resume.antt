-- ===== src/S3/Resume.antt =====
-- What a download that is resumed has in the end.
use rawdb.Base.{
  ℕ, zero, suc, ◌+◌, ◌≡◌, ◌≢◌, ◌⊎◌, inl, inr, refl, sym, ap, subst, ◌∙◌, Bool, true, Bool-cases,
  List, [], ◌∷◌, ◌++◌, append-nil, append_assoc, length, length-append, All, eqb, Result, ok, err,
  ◌>>=◌, if◌then◌else◌, arith,
}
use rawdb.S3.{Bytes, S3Error, other}
use rawdb.S3.Download.{
  Ending, eof, broken, Answer, missing, refused, served, Serve, max_retries, start_at, read_chunks,
  Round, stop, again, after_read, stream_round, stream_loop, arrived, download_to_file,
}

abbrev pub concat : List Bytes → Bytes
concat [] = []
concat (c ∷ cs) = c ++ concat cs

-- The answer to a request from the offset where `rest` begins is a part of `rest` from its start on, in
-- chunks that are not empty, and all of it if the stream ends without an error.
abbrev pub IsPartOf : Bytes → Answer → Type 0
IsPartOf rest (missing e) = Unit
IsPartOf rest refused = Unit
IsPartOf rest (served cs end) =
    All (λ c. c ≢ []) cs × ((more : Bytes) × (rest ≡ concat cs ++ more) × (end ≡ eof → more ≡ []))

-- The service answers with the content `body`, as S3 documents of ranged requests.
abbrev pub Serves : Bytes → Serve → Type 0
Serves body serve =
    (i : ℕ) (file rest : Bytes)
    → body ≡ file ++ rest
    → IsPartOf rest (serve i (start_at (length file)))

pub read_chunks-All :
    (cs : List Bytes) (end : Ending) (file : Bytes)
    → All (λ c. c ≢ []) cs
    → read_chunks cs end file ≡ (file ++ concat cs, end)
unfolding read_chunks
read_chunks-All [] end file a = rw append-nil refl
read_chunks-All ([] ∷ cs) end file a = absurd (a.0 refl)
read_chunks-All ((b ∷ c) ∷ cs) end file a =
    read_chunks-All cs end (file ++ b ∷ c) a.1
    ∙ ap (λ f. (f, end)) (append_assoc file (b ∷ c) (concat cs))

-- what is in the file is the beginning of the content, and all of it after the end of a stream
abbrev IsRoundOf : Bytes → Round → Type 0
IsRoundOf body (stop (err e)) = Unit
IsRoundOf body (stop (ok file)) = file ≡ body
IsRoundOf body (again file) = (rest : Bytes) × (body ≡ file ++ rest)

stream_round-IsRoundOf :
    (body file rest : Bytes) (a : Answer)
    → body ≡ file ++ rest
    → IsPartOf rest a
    → IsRoundOf body (stream_round a file)
unfolding stream_round after_read
stream_round-IsRoundOf body file rest (missing e) h p = tt
stream_round-IsRoundOf body file rest refused h p = (rest, h)
stream_round-IsRoundOf body file rest (served cs end) h (ne, (more, e, last)) =
    subst (λ r. IsRoundOf body (after_read r)) (sym (read_chunks-All cs end file ne))
      (ended end last)
  where
    ended :
        (end : Ending)
        → (end ≡ eof → more ≡ [])
        → IsRoundOf body (after_read (file ++ concat cs, end))
    ended eof l =
        ap (λ m. file ++ m)
          (sym (append-nil (concat cs)) ∙ ap (λ m. concat cs ++ m) (sym (l refl)) ∙ sym e)
        ∙ sym h
    ended broken l = (more, h ∙ ap (λ m. file ++ m) e ∙ sym (append_assoc file (concat cs) more))

-- The loop answers with the beginning of the content, which is all of it or passes the test.
abbrev pub IsLoopOf : Bytes → (Bytes → Bool) → Result S3Error Bytes → Type 0
IsLoopOf body enough (err e) = Unit
IsLoopOf body enough (ok file) =
    ((rest : Bytes) × (body ≡ file ++ rest)) × ((enough file ≡ true) ⊎ (file ≡ body))

stopped :
    (body : Bytes) (enough : Bytes → Bool) (r : Result S3Error Bytes)
    → IsRoundOf body (stop r)
    → IsLoopOf body enough r
stopped body enough (err e) h = tt
stopped body enough (ok file) h = (([], sym h ∙ sym (append-nil file)), inr h)

pub stream_loop-IsLoopOf :
    (body : Bytes) (enough : Bytes → Bool) (serve : Serve) (left i : ℕ) (file rest : Bytes)
    → Serves body serve
    → body ≡ file ++ rest
    → IsLoopOf body enough (stream_loop enough serve left i file)
unfolding stream_loop
stream_loop-IsLoopOf body enough serve zero i file rest s h = elim (Bool-cases (enough file)) [
  | inl e ↦ rw (e, stream_loop) ((rest, h), inl e)
  | inr e ↦
      rw (e, stream_loop)
        (ended _ (
          stream_round-IsRoundOf body file rest (serve i (start_at (length file))) h
            (s i file rest h)))
]
  where
    ended :
        (r : Round)
        → IsRoundOf body r
        → IsLoopOf body enough (elim r [ stop x ↦ x | again f ↦ err other ])
    ended (stop x) k = stopped body enough x k
    ended (again f) k = tt
stream_loop-IsLoopOf body enough serve (suc left) i file rest s h =
    elim (Bool-cases (enough file)) [
      | inl e ↦ rw (e, stream_loop) ((rest, h), inl e)
      | inr e ↦
          rw (e, stream_loop)
            (ended (λ f r k. stream_loop-IsLoopOf body enough serve left (i + 1) f r s k) _
              (stream_round-IsRoundOf body file rest (serve i (start_at (length file))) h
                (s i file rest h)))
    ]
  where
    ended :
        ((f r : Bytes)
          → body ≡ f ++ r
          → IsLoopOf body enough (stream_loop enough serve left (i + 1) f))
        → (r : Round) → IsRoundOf body r
        → IsLoopOf body enough
            (elim r [ stop x ↦ x | again f ↦ stream_loop enough serve left (i + 1) f ])
    ended ih (stop x) k = stopped body enough x k
    ended ih (again f) (r, k) = ih f r k

pub same_length : (file rest : Bytes) → length file ≡ length (file ++ rest) → rest ≡ []
same_length file [] h = refl
same_length file (b ∷ rest) h = absurd (omega (arith, length-append file (b ∷ rest)))

-- A download that succeeds has written the first `expected_len` bytes of the object, and the whole
-- object if that is its size, however often the stream was broken.
pub download_to_file-body :
    (body : Bytes) (serve : Serve) (expected_len : ℕ) (file : Bytes)
    → Serves body serve
    → download_to_file serve expected_len ≡ ok file
    → (length file ≡ expected_len)
      × ((rest : Bytes) × (body ≡ file ++ rest))
      × (length body ≡ expected_len → file ≡ body)
unfolding download_to_file
download_to_file-body body serve n file s h =
    whole (stream_loop (arrived n) serve max_retries 0 [])
      (stream_loop-IsLoopOf body (arrived n) serve max_retries 0 [] body s refl) h
  where
    taken :
        (f : Bytes)
        → (if eqb (length f) n then ok f else err other) ≡ ok file
        → (f ≡ file) × (length f ≡ n)
    taken f k = ground arith

    no : (e : S3Error) → ◌≡◌ {A = Result S3Error Bytes} (err e) (ok file) → ⊥
    no e w = cc

    whole :
        (r : Result S3Error Bytes)
        → IsLoopOf body (arrived n) r
        → (do f ← r; if eqb (length f) n then ok f else err other) ≡ ok file
        → (length file ≡ n)
          × ((rest : Bytes) × (body ≡ file ++ rest))
          × (length body ≡ n → file ≡ body)
    whole (err e) l k = absurd (no e k)
    whole (ok f) ((rest, e), w) k =
        let (same, len) = taken f k in
        rw (← same) (
          len,
          (rest, e),
          λ b.
              sym (append-nil f)
              ∙ ap (λ r. f ++ r) (sym (same_length f rest (len ∙ sym b ∙ ap length e)))
              ∙ sym e,
        )
