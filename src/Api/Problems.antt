-- ===== src/Api/Problems.antt =====
-- api/app/routes/problems.py: the routes that read problems, and the creation of a tag.
pub mod Catalogue
pub mod Form
pub mod Upload
pub mod Removal
use byte_battles.Base.{
  ℕ, ◌-◌, ◌*◌, Bool, Option, none, some, List, [], ◌∷◌, ◌++◌, map, if◌then◌else◌, take, drop,
}
use byte_battles.Base.Text.{Text, codes, text_eq}
use byte_battles.Base.Text.Affixes.{text_leb}
use byte_battles.Base.Exec.{Fault}
use byte_battles.Enums.{Difficulty}
use byte_battles.Database.{Problem, Category, Db, first, select}
use byte_battles.Api.Http.{Reply, reply, http_exception, unhandled}
use byte_battles.Api.Accounts.{User}
use byte_battles.Api.Backend.{Backend}
use byte_battles.Api.Site.{Route, answer, call, ◌>>=◌, ◌>>◌}
use byte_battles.Api.Submissions.{visible_with}

-- `ProblemResponse`
pub record ProblemResponse : Type 0 where
  pub id : Text
  pub title : Text
  pub difficulty : Difficulty
  pub tags : List Text
  pub accepted_submissions : ℕ

-- `ProblemDetailResponse`, with the fields that it inherits.
pub record ProblemDetailResponse : Type 0 where
  pub header : ProblemResponse
  pub description : Text
  pub constraints : List Text
  pub input_desc : Text
  pub output_desc : Text
  pub sample_io : List (Text × Text)
  pub explanation : Option Text
  pub memory_limit_mb : ℕ
  pub time_limit_sec : ℕ
  pub source : Option Text
  pub editorial : Option Text
  pub visibility : Bool

abbrev pub header : Problem → ProblemResponse
header p = record {
  id = p.id;
  title = p.title;
  difficulty = p.difficulty;
  tags = p.tags;
  accepted_submissions = p.accepted_submissions;
}

abbrev pub detail : Problem → ProblemDetailResponse
detail p = record {
  header = header p;
  description = p.description;
  constraints = p.constraints;
  input_desc = p.input_desc;
  output_desc = p.output_desc;
  sample_io = p.sample_io;
  explanation = p.explanation;
  memory_limit_mb = p.memory_limit_mb;
  time_limit_sec = p.time_limit_sec;
  source = p.source;
  editorial = p.editorial;
  visibility = p.visibility;
}

-- `order_by(Problem.id.asc())`
unfoldable pub insert_by_id : Problem → List Problem → List Problem
insert_by_id p [] = p ∷ []
insert_by_id p (q ∷ qs) = if text_leb p.id q.id then p ∷ q ∷ qs else q ∷ insert_by_id p qs

unfoldable pub order_by_id : List Problem → List Problem
unfolding insert_by_id
order_by_id [] = []
order_by_id (p ∷ ps) = insert_by_id p (order_by_id ps)

-- The rows that the query is over: all of them for an administrator.
abbrev pub allowed : Option User → List Problem → List Problem
allowed none problems = select (λ p. p.visibility) problems
allowed (some admin) problems = problems

unfoldable pub get_problems : (page limit : ℕ) → Option User → Db → List ProblemResponse
get_problems page limit current_user db =
    map header
      (take limit (drop ((page - 1) * limit) (order_by_id (allowed current_user db.problems))))

abbrev find_problem : Text → Option User → List Problem → Option Problem
find_problem id none problems = first (visible_with id) problems
find_problem id (some admin) problems = first (λ p. text_eq p.id id) problems

unfoldable pub get_problem_by_id : Text → Option User → Db → Reply ProblemDetailResponse
get_problem_by_id problem_id current_user db =
    elim (find_problem problem_id current_user db.problems) [
      | none ↦ http_exception 404 (codes "requested problem doesn't exist")
      | some p ↦ reply (detail p)
    ]

-- What the commit has stored.
abbrev add_tag : (B : Backend) → Category → Route B Unit
add_tag B tag s =
    (reply tt, record s { db = record s.db { categories = s.db.categories ++ tag ∷ [] } })

-- `create_tag`: the slug is the primary key. The guard for administrators has been passed.
unfoldable create_tag : (B : Backend) → Category → Route B Category
create_tag B tag s = elim (first (λ c. text_eq c.slug tag.slug) s.db.categories) [
  | none ↦ (do call B.commit; add_tag B tag; call B.refresh; answer tag) s
  | some other ↦ (unhandled Fault.external, s)
]
