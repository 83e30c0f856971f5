-- ===== src/Uploads.antt =====
-- asyncbatchuploader/uploader.py: uploads of many files, few at a time.
-- The mapping of uploads gives each file name what its upload returns or raises.
pub mod Batch
mod Tests
use python_concurrency_examp.Prelude.{
  String, Bool, true, false, not, Option, none, some, List, [], ◌∷◌, map, ◌==◌, any, is_empty,
}
use python_concurrency_examp.Prelude.Int.{ℤ, pos, pos_part, leb_ℤ}
use python_concurrency_examp.Python.{Result, ok, err, Exc, value_error, check}
use python_concurrency_examp.Python.Dict.{Dict, keys, from_items}
use python_concurrency_examp.Python.Semaphore.{
  Semaphore, Guarded, Place, asking, inside, left, Client, client, System, start,
}

pub record UploadResult (T : Type 0) : Type 0 where
  pub file_name : String
  pub value : Option T
  pub error : Option Exc

pub succeeded : {T : Type 0} → UploadResult T → Bool
succeeded r = elim r.error [ none ↦ true | some e ↦ false ]

pub record AsyncBatchUploader : Type 0 where
  pub semaphore : Semaphore

-- `__init__`
pub create : ℤ → Result AsyncBatchUploader
create max_concurrent =
    check (leb_ℤ max_concurrent (pos 0)) (value_error "max_concurrent must be greater than zero")
      (ok (record { semaphore = record { value = pos_part max_concurrent; limit = none } }))

module _ {T : Type 0} where
  -- the body of the `async with` in `_upload_one`
  abbrev pub try_upload : String × Result T → UploadResult T
  try_upload (file_name, ok v) = record { file_name = file_name; value = some v; error = none }
  try_upload (file_name, err e) = record { file_name = file_name; value = none; error = some e }

  -- `_upload_one`: an asyncio.Semaphore waits without a timeout, and its release does not raise
  unfoldable pub upload_one : Guarded (String × Result T) (UploadResult T)
  upload_one = record { enter = λ u. none; timed_out = λ u. none; leave = λ u r. try_upload u }

  abbrev pub is_nameless : String × Result T → Bool
  is_nameless u = u.0 == ""

  -- `upload_all` up to its `await asyncio.gather(*tasks)`, with `_validate_uploads`
  pub start_upload_all :
      AsyncBatchUploader → Dict (Result T) → Result (System (String × Result T) (UploadResult T))
  start_upload_all uploader uploads =
      check (is_empty uploads) (value_error "uploads must not be empty") (
        check (any is_nameless uploads) (value_error "file names must not be empty")
          (ok (start upload_one uploader.semaphore uploads)))

  -- What `gather` returns when all tasks are done.
  abbrev pub gather : List (Place (UploadResult T)) → List (UploadResult T)
  gather [] = []
  gather (asking ∷ ps) = gather ps
  gather (inside ∷ ps) = gather ps
  gather (left r ∷ ps) = r ∷ gather ps

  abbrev pub by_name : UploadResult T → String × UploadResult T
  by_name r = (r.file_name, r)

  -- the dict that `upload_all` returns
  pub results_by_name : List (UploadResult T) → Dict (UploadResult T)
  results_by_name results = from_items (map by_name results) []
