-- ===== src/S3/Recover.antt =====
-- When the loop that resumes a broken stream comes to an end with the whole object.
use rawdb.Base.{
  ℕ, zero, suc, ◌+◌, ◌≡◌, ◌≢◌, ◌≤◌, ◌⊎◌, inl, inr, refl, sym, ap, subst, ◌∙◌, Bool, true, false,
  Bool-cases, List, [], ◌∷◌, ◌++◌, append-nil, append_assoc, length, length-append, eqb, ok, err,
  if◌then◌else◌, arith,
}
use rawdb.S3.{Bytes, other}
use rawdb.S3.Download.{
  eof, broken, Answer, missing, refused, served, Serve, max_retries, start_at, read_chunks, Round,
  stop, again, after_read, stream_round, stream_loop, arrived, download_to_file,
}
use rawdb.S3.Resume.{
  concat, IsPartOf, read_chunks-All, Serves, IsLoopOf, stream_loop-IsLoopOf, same_length,
}

-- S3 serves a whole object, and what is left of it from an offset within it; an offset at its end is refused.
abbrev pub IsOpen : Bytes → Bytes → Type 0
IsOpen start rest = (start ≡ []) ⊎ (rest ≢ [])

-- The request number `i` may fail, but not say that the object is missing; a stream that breaks is `Fine`
-- with what it has given and what it has left.
abbrev pub MayFail : (Bytes → Bytes → Type 0) → Bytes → Bytes → Answer → Type 0
MayFail Fine start rest (missing e) = ⊥
MayFail Fine start rest refused = Unit
MayFail Fine start rest (served cs eof) = Unit
MayFail Fine start rest (served cs broken) =
    (more : Bytes) → rest ≡ concat cs ++ more → Fine (start ++ concat cs) more

-- After `k` such requests one is served to the end of the stream.
abbrev pub Recovers : Bytes → (Bytes → Bytes → Type 0) → Serve → ℕ → ℕ → Type 0
Recovers body Fine serve i zero =
    (start rest : Bytes)
    → body ≡ start ++ rest
    → IsOpen start rest
    → (cs : List Bytes) × (serve i (start_at (length start)) ≡ served cs eof)
Recovers body Fine serve i (suc k) =
    ((start rest : Bytes)
      → body ≡ start ++ rest
      → IsOpen start rest
      → MayFail Fine start rest (serve i (start_at (length start))))
    × Recovers body Fine serve (i + 1) k

read_chunks-eof :
    (cs : List Bytes) (file : Bytes) → (f : Bytes) × (read_chunks cs eof file ≡ (f, eof))
unfolding read_chunks
read_chunks-eof [] file = (file, refl)
read_chunks-eof ([] ∷ cs) file = (file, refl)
read_chunks-eof ((b ∷ c) ∷ cs) file = read_chunks-eof cs (file ++ b ∷ c)

-- A round comes to an end with a file, or goes on where the service can be asked again or the break was fine.
abbrev GoesOn : Bytes → (Bytes → Bytes → Type 0) → Round → Type 0
GoesOn body Fine (stop (err e)) = ⊥
GoesOn body Fine (stop (ok f)) = Unit
GoesOn body Fine (again f) = (more : Bytes) × (body ≡ f ++ more) × (IsOpen f more ⊎ Fine f more)

goes_on :
    (body : Bytes) (Fine : Bytes → Bytes → Type 0) (start rest : Bytes) (a : Answer)
    → body ≡ start ++ rest
    → IsOpen start rest
    → IsPartOf rest a
    → MayFail Fine start rest a
    → GoesOn body Fine (stream_round a start)
unfolding stream_round after_read
goes_on body Fine start rest (missing e) b o p m = m
goes_on body Fine start rest refused b o p m = (rest, b, inl o)
goes_on body Fine start rest (served cs eof) b o (ne, q) m =
    subst (λ r. GoesOn body Fine (after_read r)) (sym (read_chunks-All cs eof start ne)) tt
goes_on body Fine start rest (served cs broken) b o (ne, (more, e, l)) m =
    subst (λ r. GoesOn body Fine (after_read r)) (sym (read_chunks-All cs broken start ne))
      (more, b ∙ ap (λ r. start ++ r) e ∙ sym (append_assoc start (concat cs) more), inr (m more e))

ends :
    (cs : List Bytes) (file : Bytes)
    → (f : Bytes) × (stream_round (served cs eof) file ≡ stop (ok f))
unfolding stream_round after_read
ends cs file = let (f, e) = read_chunks-eof cs file in (f, ap after_read e)

abbrev Ends : (Bytes → Bool) → Serve → ℕ → ℕ → Bytes → Type 0
Ends enough serve left i file = (f : Bytes) × (stream_loop enough serve left i file ≡ ok f)

at_once :
    (enough : Bytes → Bool) (serve : Serve) (left i : ℕ) (file : Bytes)
    → enough file ≡ true
    → stream_loop enough serve left i file ≡ ok file
unfolding stream_loop
at_once enough serve zero i file e = rw (stream_loop, e) refl
at_once enough serve (suc left) i file e = rw (stream_loop, e) refl

stopped :
    (enough : Bytes → Bool) (serve : Serve) (left i : ℕ) (file f : Bytes)
    → enough file ≡ false
    → stream_round (serve i (start_at (length file))) file ≡ stop (ok f)
    → stream_loop enough serve left i file ≡ ok f
unfolding stream_loop
stopped enough serve zero i file f e w = rw (stream_loop, e, w) refl
stopped enough serve (suc left) i file f e w = rw (stream_loop, e, w) refl

opened : {A : Type 0} {b : Bool} → b ≡ false → (b ≡ true) ⊎ A → A
opened e (inl t) = cc
opened e (inr o) = o

pub stream_loop-Ends :
    (body : Bytes) (Fine : Bytes → Bytes → Type 0) (enough : Bytes → Bool) (serve : Serve)
    (k left i : ℕ) (file rest : Bytes)
    → Serves body serve
    → ((f more : Bytes) → body ≡ f ++ more → Fine f more → (enough f ≡ true) ⊎ IsOpen f more)
    → k ≤ left
    → Recovers body Fine serve i k
    → body ≡ file ++ rest
    → (enough file ≡ true) ⊎ IsOpen file rest
    → Ends enough serve left i file
unfolding stream_loop
stream_loop-Ends body Fine enough serve zero left i file rest s fine l h b o =
    elim (Bool-cases (enough file)) [
      | inl e ↦ (file, at_once enough serve left i file e)
      | inr e ↦
          let (cs, q) = h file rest b (opened e o) in
          let (f, w) = ends cs file in (f, stopped enough serve left i file f e (rw (q, w) refl))
    ]
stream_loop-Ends body Fine enough serve (suc k) zero i file rest s fine l h b o =
    absurd (omega arith)
stream_loop-Ends body Fine enough serve (suc k) (suc left) i file rest s fine l h b o =
    elim (Bool-cases (enough file)) [
      | inl e ↦ (file, at_once enough serve (suc left) i file e)
      | inr e ↦
          rw (stream_loop, e)
            (next
              (λ f more c w.
                stream_loop-Ends body Fine enough serve k left (i + 1) f more s fine (omega arith)
                  h.1 c w)
              _
              (goes_on body Fine file rest (serve i (start_at (length file))) b (opened e o)
                (s i file rest b) (h.0 file rest b (opened e o))))
    ]
  where
    next :
        ((f more : Bytes)
          → body ≡ f ++ more
          → (enough f ≡ true) ⊎ IsOpen f more
          → Ends enough serve left (i + 1) f)
        → (r : Round) → GoesOn body Fine r
        → (f : Bytes) × ((elim r [ stop x ↦ x | again g ↦ stream_loop enough serve left (i + 1) g ])
            ≡ ok f)
    next ih (stop (err e)) g = absurd g
    next ih (stop (ok f)) g = (f, refl)
    next ih (again f) (more, c, inl o) = ih f more c (inr o)
    next ih (again f) (more, c, inr w) = ih f more c (fine f more c w)

-- A file that has arrived and is a beginning of the object of that size is the object.
arrived-whole :
    (n : ℕ) (file rest : Bytes)
    → length (file ++ rest) ≡ n
    → arrived n file ≡ true
    → file ≡ file ++ rest
arrived-whole n file rest h a =
    sym (append-nil file) ∙ ap (λ r. file ++ r) (sym (same_length file rest full))
  where
    enough : arrived n file ≡ true → n ≤ length file
    enough q = ground arith

    full : length file ≡ length (file ++ rest)
    full = omega (arith, h, enough a, length-append file rest)

-- If at most five requests fail before one is served to its end, the download succeeds with the whole object.
pub download_to_file-Recovers :
    (body : Bytes) (serve : Serve) (k : ℕ)
    → Serves body serve
    → k ≤ max_retries
    → Recovers body (λ f more. Unit) serve 0 k
    → download_to_file serve (length body) ≡ ok body
unfolding download_to_file
download_to_file-Recovers body serve k s l h =
    let (f, e) =
      stream_loop-Ends body (λ f more. Unit) (arrived (length body)) serve k max_retries 0 [] body s
        fine l h refl (inr (inl refl)) in
    let same = whole f (
      subst (IsLoopOf body (arrived (length body))) e
        (stream_loop-IsLoopOf body (arrived (length body)) serve max_retries 0 [] body s refl)) in
    rw (download_to_file, e, same) (same_size (length body))
  where
    fine :
        (f more : Bytes)
        → body ≡ f ++ more
        → Unit {0}
        → (arrived (length body) f ≡ true) ⊎ IsOpen f more
    fine [] more b u = inr (inl refl)
    fine (x ∷ f) (y ∷ more) b u = inr (inr (λ e. cc))
    fine (x ∷ f) [] b u = inl (full (length body) (omega (arith, ap length b, length-append f [])))
      where
        full : (n : ℕ) → n ≤ length (x ∷ f) → arrived n (x ∷ f) ≡ true
        full n h = ground arith

    whole : (f : Bytes) → IsLoopOf body (arrived (length body)) (ok f) → f ≡ body
    whole f ((rest, b), inl a) = arrived-whole (length body) f rest (ap length (sym b)) a ∙ sym b
    whole f ((rest, b), inr e) = e

    same_size : (n : ℕ) → (if eqb n n then ok body else err other) ≡ ok body
    same_size n = ground arith
