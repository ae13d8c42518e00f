-- ===== src/System/Pending.antt =====
-- What a request (api/app/routes) does to the submissions without a verdict and to the queue.
use byte_battles.Base.{ℕ, suc, ◌≡◌, refl, sym, subst, true, List, ◌∷◌, ◌++◌, arith, All, All-last}
use byte_battles.Redis.{push_job}
use byte_battles.Database.{Submission}
use byte_battles.Database.Queries.{All-select}
use byte_battles.Api.Accounts.{User}
use byte_battles.Api.Http.{Reply, unhandled}
use byte_battles.Api.Site.{Site}
use byte_battles.Api.Submissions.Create.{SubmissionResponse, SubmissionCreate, add_submission}
use byte_battles.System.{Parts, left_behind}
use byte_battles.System.Rows.{occurs, occurs-append, Traced, All-Traced}
use byte_battles.System.Requests.{Untouched, Queued, Reduced}

-- A wider queue or a wider list.
pub occurs-wider :
    (id : ℕ) (jobs js lost more : List ℕ)
    → (occurs id jobs ≡ true → occurs id js ≡ true)
    → occurs id (jobs ++ lost) ≡ true
    → occurs id (js ++ (more ++ lost)) ≡ true
occurs-wider id jobs js lost more h e = ground (
  arith,
  h,
  e,
  occurs-append id jobs lost,
  occurs-append id js (more ++ lost),
  occurs-append id more lost,
)

module _ (parts : Parts) where
  abbrev pub Traces : List ℕ → Site parts.backend → Type 0
  Traces lost t = All (Traced (t.redis.jobs ++ lost)) t.db.submissions

  pub Untouched-Traces :
      (lost : List ℕ) (s t : Site parts.backend) → Untouched s t → Traces lost s → Traces lost t
  Untouched-Traces lost s t h v = rw (h.submissions, h.redis) v

  -- A longer list of those that were given up.
  widened : (more lost : List ℕ) (t : Site parts.backend) → Traces lost t → Traces (more ++ lost) t
  widened more lost t v =
      All-Traced (t.redis.jobs ++ lost) (t.redis.jobs ++ (more ++ lost)) t.db.submissions
        (λ i h. occurs-wider i t.redis.jobs t.redis.jobs lost more (λ k. k) h) v

  pushed-Traces :
      (lost : List ℕ) (s t : Site parts.backend) (row : Submission)
      → row.id ≡ s.db.next_submission
      → t.db ≡ add_submission row s.db
      → t.redis ≡ push_job s.db.next_submission s.redis
      → Traces lost s
      → Traces lost t
  unfolding push_job
  pushed-Traces lost s t row q e f v =
      let id = s.db.next_submission in
      rw (e, f)
        (All-last (Traced (id ∷ s.redis.jobs ++ lost)) s.db.submissions
          (All-Traced (s.redis.jobs ++ lost) (id ∷ s.redis.jobs ++ lost) s.db.submissions
            (λ i h. ground (arith, h)) v)
          (λ p. ground (arith, q)))

  left-Traces :
      (more lost : List ℕ) (s t : Site parts.backend) (row : Submission)
      → row.id ≡ s.db.next_submission
      → t.db ≡ add_submission row s.db
      → t.redis ≡ s.redis
      → occurs s.db.next_submission (s.redis.jobs ++ (more ++ lost)) ≡ true
      → Traces lost s
      → Traces (more ++ lost) t
  left-Traces more lost s t row q e f traced v =
      rw (e, f)
        (All-last (Traced (s.redis.jobs ++ (more ++ lost))) s.db.submissions (widened more lost s v)
          (λ p. rw q traced))

  pub Queued-Traces :
      (details : SubmissionCreate) (user : User) (now : ℕ) (lost : List ℕ)
      (r : Reply SubmissionResponse) (s t : Site parts.backend)
      → Queued parts.backend details user now r s t
      → Traces lost s
      → Traces (left_behind parts r s t ++ lost) t
  unfolding push_job
  Queued-Traces details user now lost r s t (Queued.unchanged h) v =
      widened (left_behind parts r s t) lost t (Untouched-Traces lost s t h v)
  Queued-Traces details user now lost r s t (Queued.added key e f g) v =
      widened (left_behind parts r s t) lost t (pushed-Traces lost s t _ refl e f v)
  Queued-Traces details user now lost r s t (Queued.left key x q e f g) v =
      let id = s.db.next_submission in
      let more = left_behind parts (unhandled x) s t in
      let grown : t.db.next_submission ≡ suc id = rw e refl in
      let listed = occurs-append id s.redis.jobs (more ++ lost) in
      let among = occurs-append id more lost in
      subst (λ p. Traces (left_behind parts p s t ++ lost) t) (sym q)
        (left-Traces more lost s t _ refl e f (ground (arith, grown, f, listed, among)) v)

  pub Reduced-Traces :
      (lost : List ℕ) (s t : Site parts.backend)
      → Reduced parts.backend s t
      → Traces lost s
      → Traces lost t
  Reduced-Traces lost s t (Reduced.whole h) v = Untouched-Traces lost s t h v
  Reduced-Traces lost s t (Reduced.selected test e f g h) v =
      rw (e, g) (All-select (Traced (s.redis.jobs ++ lost)) test s.db.submissions v)
