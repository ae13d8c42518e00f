-- ===== src/Api/Submissions.antt =====
-- api/app/routes/submissions.py: the listing of submissions.
pub mod Listing
pub mod Create
use byte_battles.Base.{
  drop, ℕ, ◌-◌, ◌*◌, Bool, true, false, not, ◌&&◌, Option, none, some, List, [], ◌∷◌, leb, ◌==◌,
  if◌then◌else◌, take,
}
use byte_battles.Base.Text.{Text, codes, text_eq}
use byte_battles.Database.{Problem, Submission, first, select}
use byte_battles.Api.Http.{Reply, reply, http_exception}
use byte_battles.Api.Accounts.{User, Users, has_username}
use byte_battles.Api.Profiles.{given}

-- `Problem.id == id, Problem.visibility == True`
abbrev pub visible_with : Text → Problem → Bool
visible_with id p = text_eq p.id id && p.visibility

abbrev found : Option Problem → Bool
found none = false
found (some p) = true

-- The join with the visible problems keeps a submission.
abbrev pub of_visible : List Problem → Submission → Bool
of_visible problems s = found (first (visible_with s.problem_id) problems)

-- `order_by(Submission.submitted_at.desc())`
unfoldable pub insert_latest : Submission → List Submission → List Submission
insert_latest s [] = s ∷ []
insert_latest s (t ∷ ts) =
    if leb t.submitted_at s.submitted_at then s ∷ t ∷ ts else t ∷ insert_latest s ts

unfoldable pub latest_first : List Submission → List Submission
unfolding insert_latest
latest_first [] = []
latest_first (s ∷ ss) = insert_latest s (latest_first ss)

-- The parameters of the request; a text that is not given is empty.
pub record Listed : Type 0 where
  pub problem_id : Text
  pub username : Text
  pub page : ℕ
  pub limit : ℕ

abbrev pub page_of : Listed → List Submission → List Submission
page_of q rows = take q.limit (drop ((q.page - 1) * q.limit) (latest_first rows))

module _ (problems : List Problem) (rows : List Submission) where
  abbrev list_problem : Listed → User → Option Problem → Reply (List Submission)
  list_problem q user none = http_exception 404 (codes "Problem with given ID was not found")
  list_problem q user (some problem) =
      reply (page_of q (select (λ s. s.user_id == user.id && text_eq s.problem_id problem.id) rows))

  abbrev pub list_user : Listed → Option User → Reply (List Submission)
  list_user q none = http_exception 404 (codes "User with the given username was not found")
  list_user q (some user) =
      if given q.problem_id
      then list_problem q user (first (visible_with q.problem_id) problems)
      else reply (page_of q (select (λ s. s.user_id == user.id && of_visible problems s) rows))

  unfoldable pub get_submissions : Users → Listed → Option User → Reply (List Submission)
  get_submissions users q none =
      if given q.username
      then list_user q (first (has_username q.username) users.rows)
      else http_exception 400 (codes "Username cannot be empty for non logged in users")
  get_submissions users q (some current_user) =
      list_user q
        (if given q.username then first (has_username q.username) users.rows else some current_user)
