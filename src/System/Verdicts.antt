-- ===== src/System/Verdicts.antt =====
-- A submission that was processed (judge/judge_worker/pipeline.py) has its verdict.
use byte_battles.Base.{ℕ, ◌≡◌, sym, ap, ◌∙◌, ◌≢◌, inl, inr, arith, Option-cases}
use byte_battles.Base.Text.{Text}
use byte_battles.Base.Exec.{Exec, ok, Returns, bind-eq-ok, pure, ◌>>=◌}
use byte_battles.Services.{Services}
use byte_battles.Config.{Config}
use byte_battles.Enums.{Verdict}
use byte_battles.World.{World, session, on_services, on_redis}
use byte_battles.Redis.{acquire_warm_sandbox, publish_event}
use byte_battles.Pipeline.{
  SubmissionResult, Job, new_result, read_job, judge, stop_after, with_container, process_leased,
  process_submission, update_result,
}
use byte_battles.Pipeline.Outcome.{
  JudgedResult, not_compiled, accepted, rejected, judge-JudgedResult,
}

abbrev HasVerdict : SubmissionResult → Type 0
HasVerdict r = r.verdict ≢ Verdict.pending

module _ (env : Services) (config : Config) where
  JudgedResult-HasVerdict :
      (container : Text) (job : Job) (r : SubmissionResult) (u : env.State)
      → JudgedResult env config container job r u
      → HasVerdict r
  JudgedResult-HasVerdict container job r u (not_compiled k x ran bad e o) p = cc (p, e)
  JudgedResult-HasVerdict container job r u (accepted l m rs ready runs oks e t k) p = cc (p, e)
  JudgedResult-HasVerdict container job r u
        (rejected before after t l m v rs x ready split runs oks e bad j same i k o) p =
      j.not_pending (sym same ∙ p)

  -- What a container's body returned is what comes out.
  with_container-Returns :
      {A : Type 0} (P : A → Type 0) (container : Text) (body : Exec env.State A)
      → Returns P body
      → Returns P (with_container env container body)
  unfolding with_container stop_after
  with_container-Returns P container body h s a u e =
      let m = (env.get_container container s).1 in
      let k : (body m).0 ≡ ok a = ground (arith, e) in
      h m a (body m).1 (ap (λ r. (r, (body m).1)) k)

  on_services-ok :
      {A : Type 0} (m : Exec env.State A) (w : World env) (a : A) (u : World env)
      → on_services env m w ≡ (ok a, u)
      → (m w.services).0 ≡ ok a
  unfolding on_services
  on_services-ok m w a u e = ap (λ x. x.0) e

  process_leased-Returns :
      (id : ℕ) (job : Job) (container : Text)
      → Returns HasVerdict (process_leased env config id job container)
  unfolding process_leased
  process_leased-Returns id job container w r u e =
      let run = with_container env container (judge env config container job (new_result id)) in
      let write : SubmissionResult → Exec (World env) Unit =
        λ result. session env (λ v. (ok tt, record v { db = update_result id result v.db })) in
      let store : SubmissionResult → Exec (World env) SubmissionResult =
        λ result. write result >>= λ _. pure result in
      let start : Exec (World env) SubmissionResult = on_services env run >>= store in
      let (_, v, _, e1) =
        bind-eq-ok (on_redis env (λ r. (tt, publish_event job.submission.language r))) (λ _. start)
          w e in
      let (result, v1, ran, e2) = bind-eq-ok (on_services env run) store v e1 in
      let (_, v2, _, e3) = bind-eq-ok (write result) (λ _. pure result) v1 e2 in
      let same : result ≡ r = cc e3 in
      let k : (run v.services).0 ≡ ok result = on_services-ok run v result v1 ran in
      rw (← same) (
        with_container-Returns HasVerdict container (judge env config container job (new_result id))
          (λ s a u q.
            JudgedResult-HasVerdict container job a u
              (judge-JudgedResult env config container job id s a u q))
          v.services result (run v.services).1 (ap (λ r. (r, (run v.services).1)) k))

  pub process_submission-Returns : (id : ℕ) → Returns HasVerdict (process_submission env config id)
  unfolding process_submission
  process_submission-Returns id w r u e =
      let (job, v, _, e1) = bind-eq-ok (session env (λ w. (read_job w.db id, w))) _ w e in
      let (leased, v1, _, e2) =
        bind-eq-ok (on_redis env (acquire_warm_sandbox job.submission.language)) _ v e1 in
      elim (Option-cases leased) [
        | inl f ↦ absurd (let k = rw f at e2 in cc k)
        | inr (container, f) ↦ process_leased-Returns id job container v1 r u (rw f at e2)
      ]
