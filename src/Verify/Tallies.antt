-- ===== src/Verify/Tallies.antt =====
-- backend/src/routes/admin.rs: the report of a verification, and the counting of its loop.
use rawdb.Base.{
  ℕ, suc, ◌+◌, ◌≡◌, inl, inr, refl, ap, Bool-cases, Option, none, some, List, [], ◌∷◌, ◌++◌, map,
  append_assoc, Text, codes, ◌==◌, length, eqb, eq_ignore_ascii_case, if◌then◌else◌, arith,
}
use rawdb.S3.{Bytes}
use rawdb.Meta.{FileMeta}
use rawdb.Verify.{VerifyFile, VerifyResult, Tally, verify_file, compared, no_files, verify_result}

abbrev pub verdict : Option Text → Text → Text
verdict none computed = codes "missing"
verdict (some c) computed = if eq_ignore_ascii_case c computed then codes "ok" else codes "mismatch"

abbrev pub count : Text → List VerifyFile → ℕ
count status [] = 0
count status (v ∷ vs) = if v.status == status then suc (count status vs) else count status vs

pub tally_eq :
    {a a' b b' c c' : ℕ} {o o' : List VerifyFile}
    → a ≡ a'
    → b ≡ b'
    → c ≡ c'
    → o ≡ o'
    → ◌≡◌ {A = Tally}
        (record { verified = a; mismatched = b; missing = c; out = o })
        (record { verified = a'; mismatched = b'; missing = c'; out = o' })
tally_eq p q r s = cc

abbrev pub counted : List VerifyFile → Tally → Tally
counted vs t = record {
  verified = t.verified + count (codes "ok") vs;
  mismatched = t.mismatched + count (codes "mismatch") vs;
  missing = t.missing + count (codes "missing") vs;
  out = t.out ++ vs;
}

pub compared-counted :
    (path : Text) (claimed : Option Text) (computed : Text) (vs : List VerifyFile) (t : Tally)
    → counted vs (compared path claimed computed t)
      ≡ counted (verify_file path claimed (verdict claimed computed) computed ∷ vs) t
unfolding compared ◌==◌
compared-counted path none computed vs t =
    tally_eq (omega arith) (omega arith) (omega arith) (append_assoc t.out _ vs)
compared-counted path (some c) computed vs t = elim (Bool-cases (eq_ignore_ascii_case c computed)) [
  | inl q ↦ rw q (tally_eq (omega arith) (omega arith) (omega arith) (append_assoc t.out _ vs))
  | inr q ↦ rw q (tally_eq (omega arith) (omega arith) (omega arith) (append_assoc t.out _ vs))
]

module _ (body : Text → Bytes) (sha256_hex : Bytes → Text) where
  -- the entry of a file whose object is complete
  abbrev pub judged : Text → FileMeta → VerifyFile
  judged prefix f =
      let computed = sha256_hex (body (prefix ++ f.path)) in
      verify_file f.path f.sha256 (verdict f.sha256 computed) computed

  -- each file is hashed whole and in order, and the numbers are those of the entries with each status
  abbrev pub report : Text → List FileMeta → VerifyResult
  report prefix declared =
      let entries = map (judged prefix) declared in
      record {
        is_ok = eqb (count (codes "mismatch") entries) 0;
        total = length declared;
        verified = count (codes "ok") entries;
        mismatched = count (codes "mismatch") entries;
        missing = count (codes "missing") entries;
        files = entries;
      }

  pub count_sum :
      (prefix : Text) (fs : List FileMeta)
      → count (codes "ok") (map (judged prefix) fs)
          + count (codes "mismatch") (map (judged prefix) fs)
          + count (codes "missing") (map (judged prefix) fs)
        ≡ length fs
  unfolding ◌==◌
  count_sum prefix [] = omega arith
  count_sum prefix (f ∷ fs) =
      go f.sha256 (sha256_hex (body (prefix ++ f.path))) (map (judged prefix) fs)
        (count_sum prefix fs)
    where
      go :
          (claimed : Option Text) (computed : Text) (vs : List VerifyFile)
          → count (codes "ok") vs + count (codes "mismatch") vs + count (codes "missing") vs
            ≡ length fs
          → count (codes "ok") (verify_file f.path claimed (verdict claimed computed) computed ∷ vs)
              + count
                  (codes "mismatch")
                  (verify_file f.path claimed (verdict claimed computed) computed ∷ vs)
              + count
                  (codes "missing")
                  (verify_file f.path claimed (verdict claimed computed) computed ∷ vs)
            ≡ suc (length fs)
      go none computed vs e = omega (arith, e)
      go (some c) computed vs e = elim (Bool-cases (eq_ignore_ascii_case c computed)) [
        | inl q ↦ rw q (omega (arith, e))
        | inr q ↦ rw q (omega (arith, e))
      ]

  pub from_zero :
      (fs : List FileMeta) (prefix : Text)
      → verify_result fs (counted (map (judged prefix) fs) no_files) ≡ report prefix fs
  from_zero fs prefix = ap (verify_result fs) (
      tally_eq {a' = count (codes "ok") (map (judged prefix) fs)}
        {b' = count (codes "mismatch") (map (judged prefix) fs)}
        {c' = count (codes "missing") (map (judged prefix) fs)} (omega arith) (omega arith)
        (omega arith) refl)
