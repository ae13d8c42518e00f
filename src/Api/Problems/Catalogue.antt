-- ===== src/Api/Problems/Catalogue.antt =====
-- The pages of the problem list, and what of it is shown to whom.
use mathlib.Core.List.{map-append}
use mathlib.Core.List
use byte_battles.Base.{
  ℕ, zero, suc, ◌+◌, ◌-◌, ◌*◌, ◌≡◌, refl, ap, inl, inr, true, false, ◌&&◌, Option, none, List, [],
  ◌∷◌, ◌++◌, map, arith, Bool-cases, Option-cases, take, All, drop,
}
use byte_battles.Base.Text.{Text, text_eq, text_eq_iff}
use byte_battles.Base.Text.Affixes.{text_leb}
use byte_battles.Database.{Problem, Db, first}
use byte_battles.Database.Queries.{first-passes}
use byte_battles.Api.Http.{reply}
use byte_battles.Api.Accounts.{User}
use byte_battles.Api.Submissions.{visible_with}
use byte_battles.Api.Problems.{
  ProblemResponse, ProblemDetailResponse, header, detail, insert_by_id, order_by_id, allowed,
  get_problems, get_problem_by_id,
}

text_leb_refl : (s : Text) → text_leb s s ≡ true
unfolding text_leb
text_leb_refl [] = refl
text_leb_refl (c ∷ s) = ground (arith, text_leb_refl s)

text_leb_total : (s t : Text) → text_leb s t ≡ false → text_leb t s ≡ true
unfolding text_leb
text_leb_total [] t h = cc h
text_leb_total (c ∷ s) [] h = refl
text_leb_total (c ∷ s) (d ∷ t) h = ground (arith, text_leb_total s t)

text_leb_trans : (s t u : Text) → text_leb s t ≡ true → text_leb t u ≡ true → text_leb s u ≡ true
unfolding text_leb
text_leb_trans [] t u h k = refl
text_leb_trans (c ∷ s) [] u h k = cc h
text_leb_trans (c ∷ s) (d ∷ t) [] h k = cc k
text_leb_trans (c ∷ s) (d ∷ t) (e ∷ u) h k = ground (arith, text_leb_trans s t u)

-- Sorted by id.
abbrev Before : Problem → Problem → Type 0
Before p q = text_leb p.id q.id ≡ true

abbrev pub IsSorted : List Problem → Type 0
IsSorted [] = Unit
IsSorted (p ∷ ps) = All (Before p) ps × IsSorted ps

All-insert_by_id {κ} :
    (P : Problem → Type κ) (p : Problem) (ps : List Problem)
    → P p
    → All P ps
    → All P (insert_by_id p ps)
unfolding insert_by_id
All-insert_by_id P p [] h k = (h, tt)
All-insert_by_id P p (q ∷ qs) h k = elim (Bool-cases (text_leb p.id q.id)) [
  | inl e ↦ rw e (h, k)
  | inr e ↦ rw e (k.0, All-insert_by_id P p qs h k.1)
]

All-Before :
    (p q : Problem) (qs : List Problem) → Before p q → All (Before q) qs → All (Before p) qs
All-Before p q [] h k = tt
All-Before p q (r ∷ rs) h k = (text_leb_trans p.id q.id r.id h k.0, All-Before p q rs h k.1)

insert_by_id-IsSorted :
    (p : Problem) (ps : List Problem) → IsSorted ps → IsSorted (insert_by_id p ps)
unfolding insert_by_id
insert_by_id-IsSorted p [] h = (tt, tt)
insert_by_id-IsSorted p (q ∷ qs) h = elim (Bool-cases (text_leb p.id q.id)) [
  | inl e ↦ rw e ((e, All-Before p q qs e h.0), h)
  | inr e ↦ rw e (
    All-insert_by_id (Before q) p qs (text_leb_total p.id q.id e) h.0,
    insert_by_id-IsSorted p qs h.1,
  )
]

order_by_id-IsSorted : (ps : List Problem) → IsSorted (order_by_id ps)
unfolding order_by_id
order_by_id-IsSorted [] = tt
order_by_id-IsSorted (p ∷ ps) = insert_by_id-IsSorted p (order_by_id ps) (order_by_id-IsSorted ps)

insert_by_id_perm : (p : Problem) (ps : List Problem) → List.Perm (insert_by_id p ps) (p ∷ ps)
unfolding insert_by_id
insert_by_id_perm p [] = List.Perm.refl (p ∷ [])
insert_by_id_perm p (q ∷ qs) = elim (Bool-cases (text_leb p.id q.id)) [
  | inl e ↦ rw e (List.Perm.refl (p ∷ q ∷ qs))
  | inr e ↦
      rw e (List.Perm.trans (List.Perm.cons q (insert_by_id_perm p qs)) (List.Perm.swap p q qs))
]

suc-add : (m k : ℕ) → suc m + k ≡ suc (m + k)
suc-add m k = omega arith

zero-add : (k : ℕ) → 0 + k ≡ k
zero-add k = omega arith

take_nil {ℓ} : {A : Type ℓ} (k : ℕ) → take (suc k) [] ≡ take {A = A} k []
take_nil zero = refl
take_nil (suc k) = refl

take_add {ℓ} :
    {A : Type ℓ} (m k : ℕ) (xs : List A) → take (m + k) xs ≡ take m xs ++ take k (drop m xs)
take_add zero k xs = rw zero-add refl
take_add (suc m) k [] = rw suc-add (take_nil k)
take_add (suc m) k (x ∷ xs) = rw suc-add (ap (◌∷◌ x) (take_add m k xs))

order_by_id_perm : (ps : List Problem) → List.Perm (order_by_id ps) ps
unfolding order_by_id
order_by_id_perm [] = List.Perm.refl []
order_by_id_perm (p ∷ ps) =
    List.Perm.trans (insert_by_id_perm p (order_by_id ps)) (List.Perm.cons p (order_by_id_perm ps))

-- Pages 1 to n, one after the other.
abbrev pub pages : (n limit : ℕ) → Option User → Db → List ProblemResponse
pages zero limit admin db = []
pages (suc n) limit admin db = pages n limit admin db ++ get_problems (suc n) limit admin db

pages-eq :
    (n limit : ℕ) (admin : Option User) (db : Db)
    → pages n limit admin db
      ≡ map header (take (n * limit) (order_by_id (allowed admin db.problems)))
unfolding get_problems
pages-eq zero limit admin db = let e : zero * limit ≡ 0 = omega arith in rw e refl
pages-eq (suc n) limit admin db =
    let all = order_by_id (allowed admin db.problems) in
    let e : suc n * limit ≡ n * limit + limit = grind arith in
    let f : suc n - 1 ≡ n = omega arith in
    rw (pages-eq n limit admin db)
      (rw e (rw (take_add (n * limit) limit all) (rw map-append (rw f refl))))

-- The first n pages of the problem list, one after the other, are the first n times limit of the
-- rows that the user may see, in the order of their ids: that order is a permutation of these rows
-- and sorted.
pub get_problems-pages :
    (n limit : ℕ) (admin : Option User) (db : Db)
    → List.Perm (order_by_id (allowed admin db.problems)) (allowed admin db.problems)
      × IsSorted (order_by_id (allowed admin db.problems))
      × (pages n limit admin db
          ≡ map header (take (n * limit) (order_by_id (allowed admin db.problems))))
get_problems-pages n limit admin db = (
  order_by_id_perm (allowed admin db.problems),
  order_by_id-IsSorted (allowed admin db.problems),
  pages-eq n limit admin db,
)

-- Who is no administrator is shown visible problems only.
get_problem_by_id-visible :
    (id : Text) (db : Db) (d : ProblemDetailResponse)
    → get_problem_by_id id none db ≡ reply d
    → (d.header.id ≡ id) × (d.visibility ≡ true)
unfolding get_problem_by_id
get_problem_by_id-visible id db d h = elim (Option-cases (first (visible_with id) db.problems)) [
  | inl e ↦ absurd (let k = rw (e, get_problem_by_id) at h in cc k)
  | inr (p, e) ↦
      let k = rw (e, get_problem_by_id) at h in
      let same : detail p ≡ d = cc k in
      let passed : (text_eq p.id id && p.visibility) ≡ true =
        first-passes (visible_with id) db.problems p e in
      rw (← same) ((text_eq_iff p.id id).0 (ground (arith, passed)), ground (arith, passed))
]
