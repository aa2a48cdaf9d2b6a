-- ===== src/Memory/Streams.antt =====
-- A service whose first stream breaks after one byte and which refuses the next request; later requests
-- are served to the end, from the offset that they ask for, and refused at the end. The tests download from it.
use rawdb.Base.{
  ℕ, zero, suc, ◌≡◌, ◌≢◌, inl, inr, refl, sym, subst, ap, ◌∙◌, none, some, List, [], ◌∷◌, ◌++◌,
  append-nil, length, arith,
}
use rawdb.S3.{Bytes}
use rawdb.S3.Download.{eof, broken, Answer, refused, served, Serve, start_at}
use rawdb.S3.Resume.{IsPartOf, Serves}
use rawdb.S3.Recover.{IsOpen, MayFail, Recovers}

unfoldable pub drop : ℕ → Bytes → Bytes
drop zero b = b
drop (suc n) [] = []
drop (suc n) (x ∷ b) = drop n b

abbrev pub whole : Bytes → List Bytes
whole [] = []
whole (x ∷ b) = (x ∷ b) ∷ []

abbrev pub first_byte : Bytes → List Bytes
first_byte [] = []
first_byte (x ∷ b) = (x ∷ []) ∷ []

abbrev pub tail : Bytes → Answer
tail [] = refused
tail (x ∷ b) = served ((x ∷ b) ∷ []) eof

unfoldable pub flaky : Bytes → Serve
unfolding drop
flaky body zero none = served (first_byte body) broken
flaky body zero (some n) = refused
flaky body (suc zero) start = refused
flaky body (suc (suc i)) none = served (whole body) eof
flaky body (suc (suc i)) (some n) = tail (drop n body)

drop-append : (file rest : Bytes) → drop (length file) (file ++ rest) ≡ rest
unfolding drop
drop-append [] rest = refl
drop-append (x ∷ file) rest = drop-append file rest

tail-IsPartOf : (rest : Bytes) → IsPartOf rest (tail rest)
tail-IsPartOf [] = tt
tail-IsPartOf (x ∷ b) = (
  ((λ e. cc), tt),
  ([], ap (λ r. x ∷ r) (sym (append-nil b) ∙ sym (append-nil (b ++ []))), λ e. refl),
)

first_byte-IsPartOf : (rest : Bytes) → IsPartOf rest (served (first_byte rest) broken)
first_byte-IsPartOf [] = (tt, ([], refl, λ e. refl))
first_byte-IsPartOf (x ∷ b) = (((λ e. cc), tt), (b, refl, λ e. cc))

whole-IsPartOf : (rest : Bytes) → IsPartOf rest (served (whole rest) eof)
whole-IsPartOf [] = (tt, ([], refl, λ e. refl))
whole-IsPartOf (x ∷ b) = tail-IsPartOf (x ∷ b)

pub flaky-Serves : (body : Bytes) → Serves body (flaky body)
unfolding flaky
flaky-Serves body zero [] rest h =
    subst (λ b. IsPartOf rest (served (first_byte b) broken)) (sym h) (first_byte-IsPartOf rest)
flaky-Serves body zero (x ∷ file) rest h = tt
flaky-Serves body (suc zero) file rest h = tt
flaky-Serves body (suc (suc i)) [] rest h =
    subst (λ b. IsPartOf rest (served (whole b) eof)) (sym h) (whole-IsPartOf rest)
flaky-Serves body (suc (suc i)) (x ∷ file) rest h =
    subst (λ r. IsPartOf rest (tail r))
      (sym (ap (drop (length (x ∷ file))) h ∙ drop-append (x ∷ file) rest)) (tail-IsPartOf rest)

tail-served : (rest : Bytes) → rest ≢ [] → (cs : List Bytes) × (tail rest ≡ served cs eof)
tail-served [] n = absurd (n refl)
tail-served (x ∷ b) n = ((x ∷ b) ∷ [], refl)

pub flaky-Recovers :
    (Fine : Bytes → Bytes → Type 0) (x y : ℕ) (b : Bytes)
    → ((start more : Bytes) → more ≢ [] → Fine start more)
    → Recovers (x ∷ y ∷ b) Fine (flaky (x ∷ y ∷ b)) 0 2
unfolding flaky
flaky-Recovers Fine x y b fine = (first, ((λ start rest h o. tt), last))
  where
    first :
        (start rest : Bytes)
        → x ∷ y ∷ b ≡ start ++ rest
        → IsOpen start rest
        → MayFail Fine start rest (flaky (x ∷ y ∷ b) 0 (start_at (length start)))
    first [] rest h o = λ more e.
        fine (x ∷ []) more (λ w. absurd (omega (arith, ap length (h ∙ e ∙ ap (λ m. x ∷ m) w))))
    first (z ∷ start) rest h o = tt

    last :
        (start rest : Bytes)
        → x ∷ y ∷ b ≡ start ++ rest
        → IsOpen start rest
        → (cs : List Bytes) × (flaky (x ∷ y ∷ b) 2 (start_at (length start)) ≡ served cs eof)
    last [] rest h o = ((x ∷ y ∷ b) ∷ [], refl)
    last (z ∷ start) rest h (inl e) = cc
    last (z ∷ start) rest h (inr n) =
        subst (λ r. (cs : List Bytes) × (tail r ≡ served cs eof))
          (sym (ap (drop (length (z ∷ start))) h ∙ drop-append (z ∷ start) rest))
          (tail-served rest n)
