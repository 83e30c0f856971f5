-- ===== src/Uploads/Batch.antt =====
-- asyncbatchuploader/uploader.py: what `upload_all` returns.
use python_concurrency_examp.Prelude.{map}
use python_concurrency_examp.Python.{Result}
use python_concurrency_examp.Python.Dict.{Dict}
use python_concurrency_examp.Uploads.{UploadResult, try_upload}

module _ {T : Type 0} where
  -- The dict that names each file's own result.
  abbrev pub results_of : Dict (Result T) → Dict (UploadResult T)
  results_of uploads = map (λ u. (u.0, try_upload u)) uploads
