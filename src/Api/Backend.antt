-- ===== src/Api/Backend.antt =====
-- What the routes call and do not implement: the object store behind boto3 with its two buckets,
-- `uuid`, and the connection of a database session. Any call may raise, and leaves a state then too.
use byte_battles.Base.{◌≡◌, ◌≢◌, Bool, true, false, ◌&&◌, Option, none, some, List, ◌++◌, All}
use byte_battles.Base.Text.{Text, text_eq}
use byte_battles.Base.Text.Affixes.{starts_with, contains}
use byte_battles.Base.Exec.{Exec, ok}
use byte_battles.Services.{Bytes}

-- TESTCASE_BUCKET and SUBMISSION_BUCKET
pub data Bucket : Type 0 where
  testcase_bucket submission_bucket : Bucket

pub record Backend : Type 1 where
  pub State : Type 0
  pub uuid_hex : Exec State Text
  pub put_object : Bucket → Text → Bytes → Exec State Unit
  pub get_object : Bucket → Text → Exec State Bytes
  -- Whether the call returns; `false` is a ClientError.
  pub head_object : Bucket → Text → Exec State Bool
  pub delete_object : Bucket → Text → Exec State Unit
  -- The keys of "Contents", and "IsTruncated".
  pub list_objects : Bucket → Text → Exec State (List Text × Bool)
  -- The keys of "Errors", which are those that were not deleted.
  pub delete_objects : Bucket → List Text → Exec State (List Text)
  -- What `flush()` and `commit()` do on the connection, and a load of rows behind a commit, which has
  -- made them expire.
  pub flush : Exec State Unit
  pub commit : Exec State Unit
  pub refresh : Exec State Unit

abbrev pub same_bucket : Bucket → Bucket → Bool
same_bucket Bucket.testcase_bucket Bucket.testcase_bucket = true
same_bucket Bucket.submission_bucket Bucket.submission_bucket = true
same_bucket _ _ = false

-- What S3 documents of these calls, with the object that a state holds under a key. A call reaches
-- only the key or the keys that it names, also when it raises. A listing that is not truncated has all
-- keys of its prefix. A deletion of several keys that returns has deleted those without an error.
pub record IsObjectStore (B : Backend) (object : B.State → Bucket → Text → Option Bytes)
    : Type 0 where
  pub object-uuid_hex :
      (s : B.State) (b : Bucket) (k : Text) → object (B.uuid_hex s).1 b k ≡ object s b k
  -- A uuid is part of no key that is in use.
  pub fresh_uuid :
      (s : B.State) (u : Text)
      → (B.uuid_hex s).0 ≡ ok u
      → (b : Bucket) (before after : Text) → object s b (before ++ (u ++ after)) ≡ none
  pub object-flush : (s : B.State) (b : Bucket) (k : Text) → object (B.flush s).1 b k ≡ object s b k
  pub object-commit :
      (s : B.State) (b : Bucket) (k : Text) → object (B.commit s).1 b k ≡ object s b k
  pub object-refresh :
      (s : B.State) (b : Bucket) (k : Text) → object (B.refresh s).1 b k ≡ object s b k
  pub put_self :
      (s : B.State) (b : Bucket) (k : Text) (v : Bytes)
      → (B.put_object b k v s).0 ≡ ok tt
      → object (B.put_object b k v s).1 b k ≡ some v
  pub put_other :
      (s : B.State) (b c : Bucket) (k j : Text) (v : Bytes)
      → (same_bucket b c && text_eq k j) ≡ false
      → object (B.put_object b k v s).1 c j ≡ object s c j
  pub get_self :
      (s : B.State) (b : Bucket) (k : Text) (v : Bytes)
      → (B.get_object b k s).0 ≡ ok v
      → object s b k ≡ some v
  pub head_self :
      (s : B.State) (b : Bucket) (k : Text)
      → (B.head_object b k s).0 ≡ ok true
      → object s b k ≢ none
  pub object-get :
      (s : B.State) (b c : Bucket) (k j : Text) → object (B.get_object b k s).1 c j ≡ object s c j
  pub object-head :
      (s : B.State) (b c : Bucket) (k j : Text) → object (B.head_object b k s).1 c j ≡ object s c j
  pub delete_self :
      (s : B.State) (b : Bucket) (k : Text)
      → (B.delete_object b k s).0 ≡ ok tt
      → object (B.delete_object b k s).1 b k ≡ none
  pub delete_other :
      (s : B.State) (b c : Bucket) (k j : Text)
      → (same_bucket b c && text_eq k j) ≡ false
      → object (B.delete_object b k s).1 c j ≡ object s c j
  pub object-list :
      (s : B.State) (b c : Bucket) (prefix j : Text)
      → object (B.list_objects b prefix s).1 c j ≡ object s c j
  pub list_under :
      (s : B.State) (b : Bucket) (prefix : Text) (keys : List Text) (truncated : Bool)
      → (B.list_objects b prefix s).0 ≡ ok (keys, truncated)
      → All (λ k. starts_with prefix k ≡ true) keys
  pub list_complete :
      (s : B.State) (b : Bucket) (prefix k : Text) (keys : List Text)
      → (B.list_objects b prefix s).0 ≡ ok (keys, false)
      → starts_with prefix k ≡ true
      → object s b k ≢ none
      → contains k keys ≡ true
  pub delete_all_self :
      (s : B.State) (b : Bucket) (keys errors : List Text) (k : Text)
      → (B.delete_objects b keys s).0 ≡ ok errors
      → contains k keys ≡ true
      → contains k errors ≡ false
      → object (B.delete_objects b keys s).1 b k ≡ none
  pub delete_all_other :
      (s : B.State) (b c : Bucket) (keys : List Text) (k : Text)
      → (same_bucket b c && contains k keys) ≡ false
      → object (B.delete_objects b keys s).1 c k ≡ object s c k
