-- ===== src/Uploads/Tests.antt =====
-- A batch of two uploads, one at a time.
use python_concurrency_examp.Prelude.{ℕ, refl, none, [], ◌∷◌, Star, here, next}
use python_concurrency_examp.Python.{Result, ok, err, app_error}
use python_concurrency_examp.Prelude.{String}
use python_concurrency_examp.Python.Dict.{Dict}
use python_concurrency_examp.Python.Semaphore.{
  release, asking, left, client, System, Step, enters, leaves,
}
use python_concurrency_examp.Uploads.{AsyncBatchUploader, UploadResult, try_upload, upload_one}

abbrev uploader : AsyncBatchUploader
uploader = record { semaphore = record { value = 1; limit = none } }

abbrev two_files : Dict (Result ℕ)
two_files = ("a.csv", ok 7) ∷ ("b.csv", err (app_error 1)) ∷ []

abbrev begun : System (String × Result ℕ) (UploadResult ℕ)
begun = record {
  semaphore = record { value = 1; limit = none };
  clients = client ("a.csv", ok 7) asking ∷ client ("b.csv", err (app_error 1)) asking ∷ [];
}

abbrev over : System (String × Result ℕ) (UploadResult ℕ)
over = record {
  semaphore = record { value = 1; limit = none };
  clients =
      client ("a.csv", ok 7) (left (try_upload ("a.csv", ok 7)))
      ∷ client ("b.csv", err (app_error 1)) (left (try_upload ("b.csv", err (app_error 1))))
      ∷ [];
}

to_over : Star (Step upload_one) begun over
unfolding upload_one release
to_over =
    next
      (next (next (next here (enters [] _ _ _ refl refl)) (leaves [] _ _ _ _ refl refl))
        (enters (client ("a.csv", ok 7) (left (try_upload ("a.csv", ok 7))) ∷ []) [] _ _ refl refl))
      (leaves (client ("a.csv", ok 7) (left (try_upload ("a.csv", ok 7))) ∷ []) [] _ _ _ refl refl)
