-- ===== src/Api/Storage/Folders.antt =====
-- What uploads and deletions leave in the buckets.
use byte_battles.Base.{
  ◌≡◌, refl, ap, ◌∙◌, subst, ◌⊎◌, inl, inr, true, false, ◌&&◌, Option, none, some, List, [], ◌∷◌,
  ◌++◌, arith, Bool-cases, Option-cases, All,
}
use mathlib.Core.List.{append_assoc}
use byte_battles.Base.Text.{Text, codes, text_eq, text_eq_iff}
use byte_battles.Base.Text.Affixes.{starts_with, contains, starts_with-append}
use byte_battles.Base.Exec.{ok, Result-cases}
use byte_battles.Services.{Bytes}
use byte_battles.Api.Backend.{Backend, Bucket, IsObjectStore, same_bucket}
use byte_battles.Api.Storage.Testcases
use byte_battles.Api.Storage.Testcases.{folder, delete_listed, delete_problem_folder}

pub folder-append :
    (problem_id unique_id filename : Text)
    → folder problem_id ++ (unique_id ++ (codes "-" ++ filename))
      ≡ Testcases.object_key problem_id unique_id filename
folder-append problem_id unique_id filename =
    append_assoc (codes "problems/") (problem_id ++ codes "/")
      (unique_id ++ (codes "-" ++ filename))
    ∙ ap (λ (t : Text). codes "problems/" ++ t)
        (append_assoc problem_id (codes "/") (unique_id ++ (codes "-" ++ filename)))

-- The key of a test file lies in the folder of its problem.
pub starts_with-object_key :
    (problem_id unique_id filename : Text)
    → starts_with (folder problem_id) (Testcases.object_key problem_id unique_id filename) ≡ true
starts_with-object_key problem_id unique_id filename =
    subst (λ (t : Text). starts_with (folder problem_id) t ≡ true)
      (folder-append problem_id unique_id filename)
      (starts_with-append (folder problem_id) (unique_id ++ (codes "-" ++ filename)))

-- A key is kept out of a list that lies in a folder, if it does not.
contains-under :
    (prefix k : Text) (keys : List Text)
    → All (λ j. starts_with prefix j ≡ true) keys
    → starts_with prefix k ≡ false
    → contains k keys ≡ false
unfolding contains
contains-under prefix k [] h n = refl
contains-under prefix k (j ∷ keys) h n = elim (Bool-cases (text_eq j k)) [
  | inl e ↦
      let q : starts_with prefix k ≡ true =
        subst (λ (t : Text). starts_with prefix t ≡ true) ((text_eq_iff j k).0 e) h.0 in
      cc
  | inr e ↦ rw e (contains-under prefix k keys h.1 n)
]

same_bucket_sound : (b c : Bucket) → same_bucket b c ≡ true → b ≡ c
same_bucket_sound b c h = ground arith

module _ (B : Backend) (object : B.State → Bucket → Text → Option Bytes)
    (L : IsObjectStore B object) where
  -- A put under a free key leaves the objects that are there.
  pub put_keeps :
      (s : B.State) (b c : Bucket) (k j : Text) (v w : Bytes)
      → object s b k ≡ none
      → object s c j ≡ some w
      → object (B.put_object b k v s).1 c j ≡ some w
  put_keeps s b c k j v w free there = elim (Bool-cases (same_bucket b c && text_eq k j)) [
    | inr e ↦ L.put_other s b c k j v e ∙ there
    | inl e ↦
        let p : b ≡ c = same_bucket_sound b c (ground (arith, e)) in
        let q : k ≡ j = (text_eq_iff k j).0 (ground (arith, e)) in
        absurd (let m : object s c j ≡ none = rw (← p) (rw (← q) free) in cc)
  ]

  -- What a whole listing does not show is not there.
  not_listed :
      (s : B.State) (b : Bucket) (prefix k : Text) (keys : List Text)
      → (B.list_objects b prefix s).0 ≡ ok (keys, false)
      → starts_with prefix k ≡ true
      → contains k keys ≡ false
      → object s b k ≡ none
  not_listed s b prefix k keys e under out = elim (Option-cases (object s b k)) [
    | inl n ↦ n
    | inr (v, m) ↦ absurd (let found = L.list_complete s b prefix k keys e under (λ n. cc) in cc)
  ]

  -- The store answered that it did not delete the object of this key.
  abbrev NotDeleted : List Text → Text → B.State → Type 0
  NotDeleted keys k s =
      (errors : List Text) × ((B.delete_objects Bucket.testcase_bucket keys s).0 ≡ ok errors)
      × (contains k errors ≡ true)

  -- The listing of the folder was truncated, or the store reported an error for the key.
  abbrev pub IsMissed : Text → Text → B.State → Type 0
  IsMissed id k s =
      ((keys : List Text) × ((B.list_objects Bucket.testcase_bucket (folder id) s).0
          ≡ ok (keys, true)))
      ⊎ ((keys : List Text) × ((B.list_objects Bucket.testcase_bucket (folder id) s).0
            ≡ ok (keys, false))
          × NotDeleted keys k (B.list_objects Bucket.testcase_bucket (folder id) s).1)

  deleted :
      (k : Text) (s : B.State) (keys : List Text)
      → (delete_listed B keys s).0 ≡ ok tt
      → (contains k keys ≡ false → object s Bucket.testcase_bucket k ≡ none)
      → (object (delete_listed B keys s).1 Bucket.testcase_bucket k ≡ none) ⊎ NotDeleted keys k s
  unfolding contains
  deleted k s [] h out = inl (out refl)
  deleted k s (j ∷ keys) h out =
      let b = Bucket.testcase_bucket in
      elim (Bool-cases (contains k (j ∷ keys))) [
        | inr e ↦ inl (L.delete_all_other s b b (j ∷ keys) k (rw e refl) ∙ out e)
        | inl e ↦ elim (Result-cases (B.delete_objects b (j ∷ keys) s).0) [
          | inr (x, f) ↦ absurd (let q = rw f at h in cc q)
          | inl (errors, f) ↦ elim (Bool-cases (contains k errors)) [
            | inl g ↦ inr (errors, f, g)
            | inr g ↦ inl (L.delete_all_self s b (j ∷ keys) errors k f e g)
          ]
        ]
      ]

  -- An object of the folder is gone, if it was not missed.
  pub delete_problem_folder_lem :
      (id k : Text) (s : B.State)
      → (delete_problem_folder B id s).0 ≡ ok tt
      → starts_with (folder id) k ≡ true
      → (object (delete_problem_folder B id s).1 Bucket.testcase_bucket k ≡ none) ⊎ IsMissed id k s
  unfolding delete_problem_folder
  delete_problem_folder_lem id k s h under =
      let b = Bucket.testcase_bucket in
      let m = B.list_objects b (folder id) in
      elim (Result-cases (m s).0) [
        | inr (x, e) ↦ absurd (let q = rw e at h in cc q)
        | inl ((keys, true), e) ↦ inr (inl (keys, e))
        | inl ((keys, false), e) ↦
            let out = λ (c : contains k keys ≡ false).
              L.object-list s b b (folder id) k ∙ not_listed s b (folder id) k keys e under c in
            elim (deleted k (m s).1 keys (rw e at h) out) [
              | inl gone ↦ inl (rw e gone)
              | inr missed ↦ inr (inr (keys, e, missed))
            ]
      ]

  kept :
      (c : Bucket) (k : Text) (s : B.State) (keys : List Text)
      → (same_bucket Bucket.testcase_bucket c && contains k keys) ≡ false
      → object (delete_listed B keys s).1 c k ≡ object s c k
  kept c k s [] out = refl
  kept c k s (j ∷ keys) out = L.delete_all_other s Bucket.testcase_bucket c (j ∷ keys) k out

  -- An object of the other bucket, or outside the folder, stays on every path.
  pub delete_problem_folder-other :
      (id k : Text) (c : Bucket) (s : B.State)
      → (same_bucket Bucket.testcase_bucket c && starts_with (folder id) k) ≡ false
      → object (delete_problem_folder B id s).1 c k ≡ object s c k
  unfolding delete_problem_folder
  delete_problem_folder-other id k c s out =
      let m = B.list_objects Bucket.testcase_bucket (folder id) in
      let same = L.object-list s Bucket.testcase_bucket c (folder id) k in
      elim (Result-cases (m s).0) [
        | inl ((keys, truncated), e) ↦ rw e (
            kept c k (m s).1 keys (
              ground (
                arith,
                contains-under (folder id) k keys
                    (L.list_under s Bucket.testcase_bucket (folder id) keys truncated e),
              ))
            ∙ same)
        | inr (x, e) ↦ rw e same
      ]
