-- ===== src/Api/Storage/Testcases.antt =====
-- `StorageServiceTestcases` of api/app/core/storage.py, over its bucket.
use byte_battles.Base.{Bool, List, [], ◌∷◌, ◌++◌}
use byte_battles.Base.Text.{Text, codes}
use byte_battles.Base.Exec.{Exec, Result, ok, err, pure, ◌>>=◌, ◌>>◌}
use byte_battles.Services.{Bytes}
use byte_battles.Api.Backend.{Backend, Bucket}

-- `f"problems/{problem_id}/"`
abbrev pub folder : Text → Text
folder problem_id = codes "problems/" ++ (problem_id ++ codes "/")

-- `f"problems/{problem_id}/{unique_id}-{filename}"`
abbrev pub object_key : (problem_id unique_id filename : Text) → Text
object_key problem_id unique_id filename =
    codes "problems/" ++ (problem_id ++ (codes "/" ++ (unique_id ++ (codes "-" ++ filename))))

module _ (B : Backend) where
  unfoldable pub upload_bytes : (problem_id filename : Text) → Bytes → Exec B.State Text
  upload_bytes problem_id filename bytes = do
    unique_id ← B.uuid_hex
    B.put_object Bucket.testcase_bucket (object_key problem_id unique_id filename) bytes
    pure (object_key problem_id unique_id filename)

  -- `upload_file`: `read` is `await file.read()`.
  unfoldable upload_file :
      (problem_id filename : Text) → (read : Exec B.State Bytes) → Exec B.State Text
  upload_file problem_id filename read = do
    unique_id ← B.uuid_hex
    contents ← read
    B.put_object Bucket.testcase_bucket (object_key problem_id unique_id filename) contents
    pure (object_key problem_id unique_id filename)

  unfoldable pub get_file : Text → Exec B.State Bytes
  get_file key = B.get_object Bucket.testcase_bucket key

  unfoldable file_exists : Text → Exec B.State Bool
  file_exists key = B.head_object Bucket.testcase_bucket key

  unfoldable delete_file : Text → Exec B.State Unit
  delete_file key = B.delete_object Bucket.testcase_bucket key

  -- The response is not looked at.
  abbrev pub ignore_response : Result (List Text) → Result (Unit {0})
  ignore_response (ok errors) = ok tt
  ignore_response (err e) = err e

  -- Nothing is called for an empty listing.
  abbrev pub delete_listed : List Text → Exec B.State Unit
  delete_listed [] s = (ok tt, s)
  delete_listed (k ∷ keys) s =
      let (response, t) = B.delete_objects Bucket.testcase_bucket (k ∷ keys) s in
      (ignore_response response, t)

  unfoldable pub delete_problem_folder : Text → Exec B.State Unit
  delete_problem_folder problem_id = do
    response ← B.list_objects Bucket.testcase_bucket (folder problem_id)
    delete_listed response.0
