-- ===== src/Api/Problems/Upload/Pairs.antt =====
-- Where the pairs of test files are after the loop that uploads them.
use byte_battles.Base.{◌≡◌, refl, inl, inr, Option, List, [], ◌∷◌}
use byte_battles.Base.Text.{Text}
use byte_battles.Base.Exec.{Exec, ok, Result-cases, lift}
use byte_battles.Services.{Bytes}
use byte_battles.Api.Backend.{Backend, Bucket, IsObjectStore}
use byte_battles.Api.Storage.Testcases.{upload_bytes}
use byte_battles.Api.Problems.Form.{Archives, base_name}
use byte_battles.Api.Problems.Upload.{upload_pair, upload_tests}
use byte_battles.Api.Problems.Upload.Files.{
  Keeps, Keeps-bind, Keeps-lift, upload_bytes-Keeps, upload_bytes-stores, Holds, Holds-Keeps,
}

module _ (B : Backend) (object : B.State → Bucket → Text → Option Bytes)
    (L : IsObjectStore B object) (A : Archives) (id : Text) (archive : A.Zip) where
  -- Both files of a pair are in the bucket under the pair of keys.
  abbrev HoldsPair : Text × Text → Text × Text → B.State → Type 0
  HoldsPair p k s =
      Holds B object L (A.read archive p.0) id k.0 s
      × Holds B object L (A.read archive p.1) id k.1 s

  -- Each pair of files is in the bucket under the pair of keys in the same place.
  abbrev pub Stored : List (Text × Text) → List (Text × Text) → B.State → Type 0
  Stored [] [] s = Unit
  Stored [] (k ∷ keys) s = ⊥
  Stored (p ∷ pairs) [] s = ⊥
  Stored (p ∷ pairs) (k ∷ keys) s = HoldsPair p k s × Stored pairs keys s

  upload_pair-Keeps : (p : Text × Text) → Keeps B object L (upload_pair B A id archive p)
  unfolding upload_pair
  upload_pair-Keeps (i, o) =
      Keeps-bind B object L (lift (A.read archive i)) _ (Keeps-lift B object L (A.read archive i))
        λ x.
          Keeps-bind B object L (lift (A.read archive o)) _
            (Keeps-lift B object L (A.read archive o))
            λ y.
              Keeps-bind B object L (upload_bytes B id (base_name i) x) _
                (upload_bytes-Keeps B object L id (base_name i) x)
                λ k.
                  Keeps-bind B object L (upload_bytes B id (base_name o) y) _
                    (upload_bytes-Keeps B object L id (base_name o) y) λ l. (λ s c j v there. there)

  upload_tests-Keeps :
      (pairs : List (Text × Text)) → Keeps B object L (upload_tests B A id archive pairs)
  unfolding upload_tests
  upload_tests-Keeps [] = (λ s c j v there. there)
  upload_tests-Keeps (p ∷ pairs) =
      Keeps-bind B object L (upload_pair B A id archive p) _ (upload_pair-Keeps p) λ k.
        Keeps-bind B object L (upload_tests B A id archive pairs) _ (upload_tests-Keeps pairs)
          λ keys. (λ s c j v there. there)

  upload_pair-HoldsPair :
      (p k : Text × Text) (s : B.State)
      → (upload_pair B A id archive p s).0 ≡ ok k
      → HoldsPair p k (upload_pair B A id archive p s).1
  unfolding upload_pair
  upload_pair-HoldsPair (i, o) k s h = elim (Result-cases (A.read archive i)) [
    | inr (x, e) ↦ absurd (let c = rw e at h in cc c)
    | inl (x, e) ↦ elim (Result-cases (A.read archive o)) [
      | inr (y, f) ↦ absurd (let c = rw (e, f) at h in cc c)
      | inl (y, f) ↦
          let put_i = upload_bytes B id (base_name i) x in
          let put_o = upload_bytes B id (base_name o) y in
          elim (Result-cases (put_i s).0) [
            | inr (z, g) ↦ absurd (let c = rw (e, f, g) at h in cc c)
            | inl (ki, g) ↦ elim (Result-cases (put_o (put_i s).1).0) [
              | inr (z, q) ↦ absurd (let c = rw (e, f, g, q) at h in cc c)
              | inl (ko, q) ↦
                  let same : (ki, ko) ≡ k = (let c = rw (e, f, g, q) at h in cc c) in
                  let one = upload_bytes-stores B object L id (base_name i) ki x s g in
                  let two = upload_bytes-stores B object L id (base_name o) ko y (put_i s).1 q in
                  rw (e, f, g, q)
                    (rw (← same) (
                      Holds-Keeps B object L (put_o) (ok x) id ki (put_i s).1
                          (upload_bytes-Keeps B object L id (base_name o) y)
                          (x, refl, one.0, one.1),
                      (y, refl, two.0, two.1),
                    ))
            ]
          ]
    ]
  ]

  pub Stored-Keeps :
      {R : Type 0} (m : Exec B.State R) (pairs keys : List (Text × Text)) (s : B.State)
      → Keeps B object L m
      → Stored pairs keys s
      → Stored pairs keys (m s).1
  Stored-Keeps m [] [] s h k = tt
  Stored-Keeps m [] (l ∷ keys) s h k = absurd k
  Stored-Keeps m (p ∷ pairs) [] s h k = absurd k
  Stored-Keeps m (p ∷ pairs) (l ∷ keys) s h ((a, b), rest) = (
    (
      Holds-Keeps B object L m (A.read archive p.0) id l.0 s h a,
      Holds-Keeps B object L m (A.read archive p.1) id l.1 s h b,
    ),
    Stored-Keeps m pairs keys s h rest,
  )

  HoldsPair-Keeps :
      {R : Type 0} (m : Exec B.State R) (p k : Text × Text) (s : B.State)
      → Keeps B object L m
      → HoldsPair p k s
      → HoldsPair p k (m s).1
  HoldsPair-Keeps m p k s h (a, b) = (
    Holds-Keeps B object L m (A.read archive p.0) id k.0 s h a,
    Holds-Keeps B object L m (A.read archive p.1) id k.1 s h b,
  )

  -- A loop that returns keys has put every pair there.
  pub upload_tests-Stored :
      (pairs keys : List (Text × Text)) (s : B.State)
      → (upload_tests B A id archive pairs s).0 ≡ ok keys
      → Stored pairs keys (upload_tests B A id archive pairs s).1
  unfolding upload_tests
  upload_tests-Stored [] keys s h = let e : [] ≡ keys = cc h in rw (← e) tt
  upload_tests-Stored (p ∷ pairs) keys s h =
      let m = upload_pair B A id archive p in
      let n = upload_tests B A id archive pairs in
      elim (Result-cases (m s).0) [
        | inr (x, e) ↦ absurd (let c = rw e at h in cc c)
        | inl (k, e) ↦ elim (Result-cases (n (m s).1).0) [
          | inr (x, f) ↦ absurd (let c = rw (e, f) at h in cc c)
          | inl (ks, f) ↦
              let same : (k ∷ ks) ≡ keys = (let c = rw (e, f) at h in cc c) in
              rw (e, f)
                (rw (← same) (
                  HoldsPair-Keeps n p k (m s).1 (upload_tests-Keeps pairs)
                      (upload_pair-HoldsPair p k s e),
                  upload_tests-Stored pairs ks (m s).1 f,
                ))
        ]
      ]
