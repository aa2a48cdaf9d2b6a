-- ===== src/Verify/Tail.antt =====
-- backend/src/routes/admin.rs against backend/src/s3.rs: a stream that breaks after its last byte.
use rawdb.Base.{
  ℕ, zero, suc, ◌+◌, ◌≡◌, ◌≢◌, ◌≤◌, refl, sym, ap, ◌∙◌, true, false, none, List, [], ◌∷◌, Text,
  length, All, eqb, ok, err, if◌then◌else◌, arith,
}
use rawdb.Error.{other}
use rawdb.S3.{Bytes, S3Error}
use rawdb.S3.Download.{
  broken, refused, served, Serve, start_at, again, after_read, stream_round, stream_loop, arrived,
  download_to_file,
}
use rawdb.S3.Resume.{concat, read_chunks-All}
use rawdb.Verify.{hash_file}

-- The first stream breaks after the last byte of the object, and a request from the end of the object is
-- refused, as S3 documents (416).
abbrev pub BreaksAtEnd : Bytes → List Bytes → Serve → Type 0
BreaksAtEnd body cs serve =
    (body ≢ [])
    × (body ≡ concat cs)
    × All (λ c. c ≢ []) cs
    × (serve 0 none ≡ served cs broken)
    × ((i : ℕ) → 1 ≤ i → serve i (start_at (length body)) ≡ refused)

first_round :
    (body : Bytes) (cs : List Bytes)
    → body ≡ concat cs
    → All (λ c. c ≢ []) cs
    → stream_round (served cs broken) [] ≡ again body
unfolding stream_round after_read
first_round body cs b ne = ap after_read (read_chunks-All cs broken [] ne) ∙ ap again (sym b)

stuck :
    (body : Bytes) (serve : Serve) (left i : ℕ)
    → 1 ≤ i
    → ((i : ℕ) → 1 ≤ i → serve i (start_at (length body)) ≡ refused)
    → stream_loop (λ file. false) serve left i body ≡ err S3Error.other
unfolding stream_loop stream_round
stuck body serve zero i l r = rw (stream_loop, r i l) refl
stuck body serve (suc left) i l r =
    rw (stream_loop, r i l) (stuck body serve left (i + 1) (omega arith) r)

complete : (body : Bytes) → body ≢ [] → arrived (length body) body ≡ true
complete [] n = absurd (n refl)
complete (b ∷ body) n = ground arith

-- After a stream that breaks at the end of the object, the verification asks for what comes after the end until its
-- retries are used up, and fails; the download takes the object as complete.
pub hash_file_fails_at_end :
    (body : Bytes) (cs : List Bytes) (serve : Text → Serve) (sha256_hex : Bytes → Text) (key : Text)
    → BreaksAtEnd body cs (serve key)
    → (hash_file serve sha256_hex key ≡ err other)
      × (download_to_file (serve key) (length body) ≡ ok body)
unfolding hash_file download_to_file stream_loop
hash_file_fails_at_end body cs serve sha256_hex key (n, b, ne, first, later) = (
  rw (hash_file, first, first_round body cs b ne, stuck body (serve key) 4 1 (omega arith) later)
      refl,
  rw (download_to_file, first, first_round body cs b ne, complete body n) (same_size (length body)),
)
  where
    same_size : (m : ℕ) → (if eqb m m then ok body else err S3Error.other) ≡ ok body
    same_size m = ground arith
