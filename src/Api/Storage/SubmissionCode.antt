-- ===== src/Api/Storage/SubmissionCode.antt =====
-- `StorageServiceSubmissionCode` of api/app/core/storage.py, over its bucket.
use byte_battles.Base.{Bool, ◌++◌}
use byte_battles.Base.Text.{Text, codes}
use byte_battles.Base.Exec.{Exec, pure, ◌>>=◌, ◌>>◌}
use byte_battles.Services.{Bytes}
use byte_battles.Api.Backend.{Backend, Bucket}

-- `f"{unique_id}.{extension}"`
abbrev pub object_key : (unique_id extension : Text) → Text
object_key unique_id extension = unique_id ++ (codes "." ++ extension)

module _ (B : Backend) where
  unfoldable pub upload_bytes : Text → Bytes → Exec B.State Text
  upload_bytes extension bytes = do
    unique_id ← B.uuid_hex
    B.put_object Bucket.submission_bucket (object_key unique_id extension) bytes
    pure (object_key unique_id extension)

  unfoldable pub get_file : Text → Exec B.State Bytes
  get_file key = B.get_object Bucket.submission_bucket key

  unfoldable pub file_exists : Text → Exec B.State Bool
  file_exists key = B.head_object Bucket.submission_bucket key

  unfoldable pub delete_file : Text → Exec B.State Unit
  delete_file key = B.delete_object Bucket.submission_bucket key
