-- ===== src/System/Queue.antt =====
-- That the system loses no submission: what a history of events does to those without a verdict.
use byte_battles.Base.{
  ℕ, ◌≡◌, ◌⊎◌, inl, inr, true, none, List, [], ◌∷◌, ◌++◌, arith, Bool-cases, All, All-map,
}
use byte_battles.Enums.{Verdict}
use byte_battles.System.{Parts, System, Event, step, run, abandoned, all_abandoned}
use byte_battles.System.Rows.{occurs, occurs-append, Traced, All-Traced}
use byte_battles.System.Consistent.{IsConsistent}
use byte_battles.System.Steps.{step-IsConsistent, run-IsConsistent}
use byte_battles.System.Accounted.{Accounted, step-Accounted}

in_either :
    (id : ℕ) (jobs lost : List ℕ)
    → occurs id (jobs ++ (lost ++ [])) ≡ true
    → (occurs id jobs ≡ true) ⊎ (occurs id lost ≡ true)
in_either id jobs lost h = elim (Bool-cases (occurs id jobs)) [
  | inl e ↦ inl e
  | inr e ↦ inr (ground (arith, h, e, occurs-append id jobs (lost ++ []), occurs-append id lost []))
]

module _ (parts : Parts) where
  run-Accounted :
      (events : List (Event parts)) (lost : List ℕ) (s : System parts)
      → IsConsistent parts s
      → Accounted parts lost s
      → Accounted parts (all_abandoned parts events s ++ lost) (run parts events s)
  unfolding run all_abandoned
  run-Accounted [] lost s c v = v
  run-Accounted (e ∷ events) lost s c v =
      let t = step parts e s in
      let u = run parts events t in
      let first = abandoned parts e s in
      let rest = all_abandoned parts events t in
      let k =
        run-Accounted events (first ++ lost) t (step-IsConsistent parts e s c)
          (step-Accounted parts lost e s c v) in
      All-Traced (u.site.redis.jobs ++ (rest ++ (first ++ lost)))
        (u.site.redis.jobs ++ ((first ++ rest) ++ lost)) u.site.db.submissions
        (λ j h. ground (
          arith,
          h,
          occurs-append j u.site.redis.jobs (rest ++ (first ++ lost)),
          occurs-append j u.site.redis.jobs ((first ++ rest) ++ lost),
          occurs-append j rest (first ++ lost),
          occurs-append j first lost,
          occurs-append j (first ++ rest) lost,
          occurs-append j first rest,
        ))
        k

  -- No user, no submission, nothing queued and nothing taken.
  pub record IsNew (s : System parts) : Type 0 where
    pub no_submissions : s.site.db.submissions ≡ []
    pub no_users : s.site.users.rows ≡ []
    pub no_jobs : s.site.redis.jobs ≡ []
    pub no_keys : (i : ℕ) → s.site.redis.submission i ≡ none
    pub unbound : (i : ℕ) → s.variable i ≡ none

  IsNew-IsConsistent : (s : System parts) → IsNew s → IsConsistent parts s
  IsNew-IsConsistent s h = record {
    keyed = record { distinct = rw h.no_users tt; ahead = rw h.no_users tt };
    differ = rw h.no_submissions tt;
    ahead = rw h.no_submissions tt;
    known = record {
      queued = rw h.no_jobs tt;
      held = λ i id e. let k = rw (h.no_keys i) at e in cc k;
    };
    limited = λ i id e. let k = rw (h.unbound i) at e in cc k;
  }

  -- From no users, no submissions, an empty queue, no submission keys and workers that have taken
  -- nothing yet, whatever requests, turns of workers and of the orchestrator, stuck workers and
  -- refills follow one another, the ids, names and e-mails of users are distinct and the ids of
  -- submissions are distinct, both sequences are ahead of their ids, and the ids in the queue, in
  -- the submission keys of Redis and in the local variables of the workers are below the sequence
  -- of submissions.
  pub run-reached :
      (events : List (Event parts)) (s : System parts)
      → IsNew s
      → IsConsistent parts (run parts events s)
  run-reached events s h = run-IsConsistent parts events s (IsNew-IsConsistent s h)

  -- From no users, no submissions, an empty queue, no submission keys and workers that have taken
  -- nothing yet, whatever requests, turns of workers and of the orchestrator, stuck workers and
  -- refills follow one another, every submission that is pending has its id in the queue, or is
  -- among those that its request stored and did not push because the connection failed behind the
  -- commit, that a turn gave up (a ValueError, or what is no Exception), or that a stuck worker
  -- took.
  pub run-loses_none :
      (events : List (Event parts)) (s : System parts)
      → IsNew s
      → All
          (λ t.
            t.verdict ≡ Verdict.pending
            → (occurs t.id (run parts events s).site.redis.jobs ≡ true)
              ⊎ (occurs t.id (all_abandoned parts events s) ≡ true))
          (run parts events s).site.db.submissions
  run-loses_none events s h =
      let t = run parts events s in
      let lost = all_abandoned parts events s in
      let v = run-Accounted events [] s (IsNew-IsConsistent s h) (rw h.no_submissions tt) in
      All-map {P = Traced (t.site.redis.jobs ++ (lost ++ []))}
        (λ r k p. in_either r.id t.site.redis.jobs lost (k p)) t.site.db.submissions v
