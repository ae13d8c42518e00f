-- ===== src/Api/Submissions/Listing.antt =====
-- Which submissions a listing shows.
use byte_battles.Database.Queries.{first-passes, select-All}
use byte_battles.Base.{
  drop, All-take, All-drop, ℕ, zero, suc, ◌-◌, ◌*◌, ◌≤◌, ◌≡◌, refl, sym, ap, ◌∙◌, inl, inr, Bool,
  true, ◌&&◌, Option, none, some, List, [], ◌∷◌, arith, leb, ◌==◌, if◌then◌else◌, Bool-cases,
  Option-cases, length, take, All, All-map,
}
use byte_battles.Base.Text.{Text, text_eq, text_eq_iff}
use byte_battles.Database.{Submission, Problem, first, select}
use byte_battles.Api.Http.{reply}
use byte_battles.Api.Accounts.{User, Users, has_username}
use byte_battles.Api.Profiles.{given}
use byte_battles.Api.Submissions.{
  visible_with, of_visible, insert_latest, latest_first, Listed, page_of, list_user,
  get_submissions,
}

All-insert_latest {κ} :
    (P : Submission → Type κ) (s : Submission) (ts : List Submission)
    → P s
    → All P ts
    → All P (insert_latest s ts)
unfolding insert_latest
All-insert_latest P s [] h k = (h, tt)
All-insert_latest P s (t ∷ ts) h k = elim (Bool-cases (leb t.submitted_at s.submitted_at)) [
  | inl e ↦ rw e (h, k)
  | inr e ↦ rw e (k.0, All-insert_latest P s ts h k.1)
]

All-latest_first {κ} :
    (P : Submission → Type κ) (ss : List Submission) → All P ss → All P (latest_first ss)
unfolding latest_first
All-latest_first P [] h = tt
All-latest_first P (s ∷ ss) h =
    All-insert_latest P s (latest_first ss) h.0 (All-latest_first P ss h.1)

All-page_of {κ} :
    (P : Submission → Type κ) (q : Listed) (ss : List Submission) → All P ss → All P (page_of q ss)
All-page_of P q ss h =
    All-take P q.limit (drop ((q.page - 1) * q.limit) (latest_first ss))
      (All-drop P ((q.page - 1) * q.limit) (latest_first ss) (All-latest_first P ss h))

-- A submission of the user, to a problem that is visible.
abbrev pub Shown : List Problem → User → Submission → Type 0
Shown problems owner s = (s.user_id ≡ owner.id) × (of_visible problems s ≡ true)

length-take : (n : ℕ) (ss : List Submission) → length (take n ss) ≤ n
length-take zero ss = omega arith
length-take (suc n) [] = omega arith
length-take (suc n) (s ∷ ss) = omega (arith, length-take n ss)

-- A submission to a problem that was looked up is to a visible problem.
Shown-problem :
    (problems : List Problem) (owner : User) (id : Text) (p : Problem) (s : Submission)
    → first (visible_with id) problems ≡ some p
    → (s.user_id == owner.id && text_eq s.problem_id p.id) ≡ true
    → Shown problems owner s
Shown-problem problems owner id p s m h =
    let named : p.id ≡ id =
      (text_eq_iff p.id id).0 (ground (arith, first-passes (visible_with id) problems p m)) in
    let same : s.problem_id ≡ p.id = (text_eq_iff s.problem_id p.id).0 (ground (arith, h)) in
    let hit : first (visible_with s.problem_id) problems ≡ some p =
      ap (λ (t : Text). first (visible_with t) problems) (same ∙ named) ∙ m in
    (ground (arith, h), rw hit refl)

Shown-page :
    (problems : List Problem) (owner : User) (q : Listed) (test : Submission → Bool)
    (rows listed : List Submission)
    → ((s : Submission) → test s ≡ true → Shown problems owner s)
    → page_of q (select test rows) ≡ listed
    → All (Shown problems owner) listed × (length listed ≤ q.limit)
Shown-page problems owner q test rows listed h e = rw (sym e) (
  All-page_of (Shown problems owner) q (select test rows)
      (All-map h (select test rows) (select-All test rows)),
  length-take q.limit (drop ((q.page - 1) * q.limit) (latest_first (select test rows))),
)

list_user-Shown :
    (problems : List Problem) (rows : List Submission) (q : Listed) (owner : User)
    (listed : List Submission)
    → list_user problems rows q (some owner) ≡ reply listed
    → All (Shown problems owner) listed × (length listed ≤ q.limit)
list_user-Shown problems rows q owner listed h = elim (Bool-cases (given q.problem_id)) [
  | inl e ↦ elim (Option-cases (first (visible_with q.problem_id) problems)) [
    | inl m ↦ absurd (ground (arith, h, e, m))
    | inr (p, m) ↦
        Shown-page problems owner q (λ s. s.user_id == owner.id && text_eq s.problem_id p.id) rows
          listed (λ s k. Shown-problem problems owner q.problem_id p s m k)
          (ground (arith, h, e, m))
  ]
  | inr e ↦
      Shown-page problems owner q (λ s. s.user_id == owner.id && of_visible problems s) rows listed
        (λ s k. (ground (arith, k), ground (arith, k))) (ground (arith, h, e))
]

-- What get_submissions lists are submissions of one user, the one that the request names or else
-- the current user, each to a problem that is visible, and no more than the limit.
pub get_submissions-Shown :
    (problems : List Problem) (rows : List Submission) (users : Users) (q : Listed)
    (current_user : Option User) (listed : List Submission)
    → get_submissions problems rows users q current_user ≡ reply listed
    → (owner : User) × ((if given q.username
          then first (has_username q.username) users.rows
          else current_user)
        ≡ some owner)
      × All (Shown problems owner) listed
      × (length listed ≤ q.limit)
unfolding get_submissions
get_submissions-Shown problems rows users q none listed h = elim (Bool-cases (given q.username)) [
  | inr e ↦ absurd (let k = rw e at h in cc k)
  | inl e ↦ elim (Option-cases (first (has_username q.username) users.rows)) [
    | inl m ↦ absurd (let k = rw (e, m) at h in cc k)
    | inr (owner, m) ↦
        let (a, b) = list_user-Shown problems rows q owner listed (rw (e, m) at h) in
        (owner, rw (e, m) refl, a, b)
  ]
]
get_submissions-Shown problems rows users q (some current_user) listed h =
    elim (Bool-cases (given q.username)) [
      | inr e ↦
          let (a, b) = list_user-Shown problems rows q current_user listed (rw e at h) in
          (current_user, rw e refl, a, b)
      | inl e ↦ elim (Option-cases (first (has_username q.username) users.rows)) [
        | inl m ↦ absurd (let k = rw (e, m) at h in cc k)
        | inr (owner, m) ↦
            let (a, b) = list_user-Shown problems rows q owner listed (rw (e, m) at h) in
            (owner, rw (e, m) refl, a, b)
      ]
    ]
