-- ===== src/Api/Problems/Upload/Files.antt =====
-- Where the files of the tests are after their upload.
use byte_battles.Base.{◌≡◌, ◌∙◌, subst, inl, inr, true, Option, none, some, ◌++◌}
use byte_battles.Base.Text.{Text, codes}
use byte_battles.Base.Text.Affixes.{starts_with}
use byte_battles.Base.Exec.{Exec, Result, ok, Result-cases, lift, ◌>>=◌}
use byte_battles.Services.{Bytes}
use byte_battles.Api.Backend.{Backend, Bucket, IsObjectStore}
use byte_battles.Api.Storage.Testcases.{folder, object_key, upload_bytes}
use byte_battles.Api.Storage.Folders.{folder-append, put_keeps, starts_with-object_key}

module _ (B : Backend) (object : B.State → Bucket → Text → Option Bytes)
    (L : IsObjectStore B object) where
  fresh_key :
      (id name u : Text) (s : B.State)
      → (B.uuid_hex s).0 ≡ ok u
      → object (B.uuid_hex s).1 Bucket.testcase_bucket (object_key id u name) ≡ none
  fresh_key id name u s e =
      L.object-uuid_hex s Bucket.testcase_bucket (object_key id u name)
      ∙ subst (λ (t : Text). object s Bucket.testcase_bucket t ≡ none) (folder-append id u name)
          (L.fresh_uuid s u e Bucket.testcase_bucket (folder id) (codes "-" ++ name))

  -- Every object that is there stays, however the call ends.
  abbrev pub Keeps : {R : Type 0} → Exec B.State R → Type 0
  Keeps m =
      (s : B.State) (c : Bucket) (j : Text) (v : Bytes)
      → object s c j ≡ some v
      → object (m s).1 c j ≡ some v

  pub Keeps-bind :
      {R T : Type 0} (m : Exec B.State R) (f : R → Exec B.State T)
      → Keeps m
      → ((r : R) → Keeps (f r))
      → Keeps (m >>= f)
  Keeps-bind m f h k s c j v there = elim (Result-cases (m s).0) [
    | inl (r, e) ↦ rw e (k r (m s).1 c j v (h s c j v there))
    | inr (x, e) ↦ rw e (h s c j v there)
  ]

  pub Keeps-lift : {R : Type 0} (r : Result R) → Keeps (lift r)
  Keeps-lift r s c j v there = there

  pub upload_bytes-Keeps : (id name : Text) (bytes : Bytes) → Keeps (upload_bytes B id name bytes)
  unfolding upload_bytes
  upload_bytes-Keeps id name bytes s c j v h =
      let t = (B.uuid_hex s).1 in
      let there : object t c j ≡ some v = L.object-uuid_hex s c j ∙ h in
      elim (Result-cases (B.uuid_hex s).0) [
        | inr (x, e) ↦ rw e there
        | inl (u, e) ↦
            let key = object_key id u name in
            let put = B.put_object Bucket.testcase_bucket key bytes in
            let kept : object (put t).1 c j ≡ some v =
              put_keeps B object L t Bucket.testcase_bucket c key j bytes v
                (fresh_key id name u s e) there in
            elim (Result-cases (put t).0) [
              | inr (x, f) ↦ rw (e, f) kept
              | inl (x, f) ↦ rw (e, f) kept
            ]
      ]

  -- An upload that returns a key has put the bytes there, in the folder of the problem.
  pub upload_bytes-stores :
      (id name key : Text) (bytes : Bytes) (s : B.State)
      → (upload_bytes B id name bytes s).0 ≡ ok key
      → (object (upload_bytes B id name bytes s).1 Bucket.testcase_bucket key ≡ some bytes)
        × (starts_with (folder id) key ≡ true)
  unfolding upload_bytes
  upload_bytes-stores id name key bytes s h = elim (Result-cases (B.uuid_hex s).0) [
    | inr (x, e) ↦ absurd (let k = rw e at h in cc k)
    | inl (u, e) ↦
        let put = B.put_object Bucket.testcase_bucket (object_key id u name) bytes in
        let t = (B.uuid_hex s).1 in
        elim (Result-cases (put t).0) [
          | inr (x, f) ↦ absurd (let k = rw (e, f) at h in cc k)
          | inl (x, f) ↦
              let k = rw (e, f) at h in
              let same : object_key id u name ≡ key = cc k in
              rw (e, f)
                (rw (← same) (
                  L.put_self t Bucket.testcase_bucket (object_key id u name) bytes f,
                  starts_with-object_key id u name,
                ))
        ]
  ]

  -- The bytes of a file of the archive are in the bucket, under a key of the problem's folder.
  abbrev pub Holds : Result Bytes → (id key : Text) → B.State → Type 0
  Holds file id key s =
      (bytes : Bytes) × (file ≡ ok bytes)
      × (object s Bucket.testcase_bucket key ≡ some bytes)
      × (starts_with (folder id) key ≡ true)

  pub Holds-Keeps :
      {R : Type 0} (m : Exec B.State R) (file : Result Bytes) (id key : Text) (s : B.State)
      → Keeps m
      → Holds file id key s
      → Holds file id key (m s).1
  Holds-Keeps m file id key s h (bytes, e, there, under) =
      (bytes, e, h s Bucket.testcase_bucket key bytes there, under)
