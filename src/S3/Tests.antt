-- ===== src/S3/Tests.antt =====
-- backend/src/s3.rs: downloads whose stream breaks.
use rawdb.Base.{◌≡◌, ◌++◌, refl, [], ◌∷◌, length, ok, err, arith}
use rawdb.S3.{Bytes, other}
use rawdb.S3.Download.{download_to_file}
use rawdb.S3.Resume.{download_to_file-body}
use rawdb.S3.Recover.{download_to_file-Recovers}
use rawdb.Memory.Streams.{flaky, flaky-Serves, flaky-Recovers}

abbrev body : Bytes
body = 1 ∷ 2 ∷ 3 ∷ 4 ∷ []

resumed : download_to_file (flaky body) 4 ≡ ok body
unfolding download_to_file flaky
resumed = refl

too_short : download_to_file (flaky body) 5 ≡ err other
unfolding download_to_file flaky
too_short = refl

download_to_file-body_example :
    (length body ≡ 4) × ((rest : Bytes) × (body ≡ body ++ rest)) × (length body ≡ 4 → body ≡ body)
download_to_file-body_example =
    download_to_file-body body (flaky body) 4 body (flaky-Serves body) resumed

download_to_file-Recovers_example : download_to_file (flaky body) (length body) ≡ ok body
download_to_file-Recovers_example =
    download_to_file-Recovers body (flaky body) 2 (flaky-Serves body) (omega arith)
      (flaky-Recovers (λ f more. Unit) 1 2 (3 ∷ 4 ∷ []) (λ f more n. tt))
