-- ===== src/Pipeline/Judging.antt =====
-- The loop over the test cases in `process_submission` (pipeline.py) against what it should compute:
-- the runs, in order, up to the first that fails.
use byte_battles.Base.{
  ℕ, suc, ◌+◌, max, ◌≡◌, refl, sym, ap, ◌∙◌, subst, inl, inr, true, false, some, List, [], ◌∷◌,
  ◌++◌, arith, Bool-cases, length, take, All,
}
use mathlib.Core.List.{append-nil}
use byte_battles.Base.Text.{Text}
use byte_battles.Base.Exec.{Result, ok, err, Fault, Outcome-cases}
use byte_battles.Config.{Config}
use byte_battles.Services.{Services}
use byte_battles.Database.{TestCase}
use byte_battles.Executor.{RunResult}
use byte_battles.Pipeline.{Job, Progress, measure, fail, run_test, run_tests}

abbrev pub max_ms : List RunResult → ℕ
max_ms [] = 0
max_ms (r ∷ rs) = max r.runtime_ms (max_ms rs)

abbrev pub max_kb : List RunResult → ℕ
max_kb [] = 0
max_kb (r ∷ rs) = max r.memory_kb (max_kb rs)

max_ms-append :
    (rs : List RunResult) (r : RunResult) → max_ms (rs ++ r ∷ []) ≡ max (max_ms rs) r.runtime_ms
max_ms-append [] r = omega arith
max_ms-append (x ∷ rs) r = omega (arith, max_ms-append rs r)

max_kb-append :
    (rs : List RunResult) (r : RunResult) → max_kb (rs ++ r ∷ []) ≡ max (max_kb rs) r.memory_kb
max_kb-append [] r = omega arith
max_kb-append (x ∷ rs) r = omega (arith, max_kb-append rs r)

abbrev pub Passed : RunResult → Type 0
Passed r = r.ok ≡ true

module _ (env : Services) (config : Config) (container : Text) (job : Job) where
  open env use {State}

  -- The test cases were run one after another, with these results.
  pub data Runs : State → List TestCase → List RunResult → State → Type 0 where
    none_left : {s : State} → Runs s [] [] s
    ran :
        {s m u : State} {ts : List TestCase} {rs : List RunResult} (t : TestCase) (r : RunResult)
        → run_test env config container job t s ≡ (ok r, m)
        → Runs m ts rs u
        → Runs s (t ∷ ts) (r ∷ rs) u

  -- What the loop should give from the index `idx` and the progress `p` on: either every run passed,
  -- or those before one test case did and that one failed, and nothing was run behind it.
  pub data Judged (idx : ℕ) (ts : List TestCase) (p : Progress) (s : State) (q : Progress)
      (u : State) : Type 0 where
    all_passed :
        (rs : List RunResult)
        → Runs s ts rs u
        → All Passed rs
        → q ≡ record p {
          max_runtime_ms = max p.max_runtime_ms (max_ms rs);
          max_memory_used_kb = max p.max_memory_used_kb (max_kb rs);
        }
        → Judged idx ts p s q u
    failed :
        (before after : List TestCase) (t : TestCase) (rs : List RunResult) (r : RunResult)
        (m : State)
        → ts ≡ before ++ t ∷ after
        → Runs s before rs m
        → All Passed rs
        → run_test env config container job t m ≡ (ok r, u)
        → r.ok ≡ false
        → q ≡ record {
          final_verdict = r.verdict;
          first_failure = some (record {
            idx = idx + length before;
            key = t.input_key;
            output = take 8192 r.output;
          });
          max_runtime_ms = max p.max_runtime_ms (max_ms (rs ++ r ∷ []));
          max_memory_used_kb = max p.max_memory_used_kb (max_kb (rs ++ r ∷ []));
        }
        → Judged idx ts p s q u

  -- A run that passed stands before what is judged from there on.
  Judged-ran :
      (idx : ℕ) (t : TestCase) (r : RunResult) (ts : List TestCase) (p q : Progress) (s m u : State)
      → run_test env config container job t s ≡ (ok r, m)
      → r.ok ≡ true
      → Judged (suc idx) ts (measure p r) m q u
      → Judged idx (t ∷ ts) p s q u
  unfolding measure
  Judged-ran idx t r ts p q s m u e h (all_passed rs runs oks eq) =
      all_passed (r ∷ rs) (ran t r e runs) (h, oks) (ground arith)
  Judged-ran idx t r ts p q s m u e h (failed before after t' rs r' m' split runs oks e' bad eq) =
      failed (t ∷ before) after t' (r ∷ rs) r' m' (ap (◌∷◌ t) split) (ran t r e runs) (h, oks) e'
        bad (ground arith)

  run_tests-good :
      (idx : ℕ) (t : TestCase) (r : RunResult) (ts : List TestCase) (p : Progress) (s m : State)
      → run_test env config container job t s ≡ (ok r, m)
      → r.ok ≡ true
      → run_tests env config container job idx (t ∷ ts) p s
        ≡ run_tests env config container job (suc idx) ts (measure p r) m
  unfolding run_tests
  run_tests-good idx t r ts p s m e h = rw e (rw h refl)

  run_tests-bad :
      (idx : ℕ) (t : TestCase) (r : RunResult) (ts : List TestCase) (p : Progress) (s m : State)
      → run_test env config container job t s ≡ (ok r, m)
      → r.ok ≡ false
      → run_tests env config container job idx (t ∷ ts) p s ≡ (ok (fail idx t (measure p r) r), m)
  unfolding run_tests
  run_tests-bad idx t r ts p s m e h = rw e (rw h refl)

  run_tests-raised :
      (idx : ℕ) (t : TestCase) (f : Fault) (ts : List TestCase) (p : Progress) (s m : State)
      → run_test env config container job t s ≡ (err f, m)
      → run_tests env config container job idx (t ∷ ts) p s ≡ (err f, m)
  unfolding run_tests
  run_tests-raised idx t f ts p s m e = rw e refl

  -- When the loop over the test cases ends, either every test case was run and passed, or those
  -- before one test case passed, that one failed and none behind it was run; and the maxima, the
  -- verdict and the recorded failure are those of these runs.
  pub run_tests-Judged :
      (idx : ℕ) (ts : List TestCase) (p : Progress) (s : State) {q : Progress} {u : State}
      → run_tests env config container job idx ts p s ≡ (ok q, u)
      → Judged idx ts p s q u
  run_tests-Judged idx [] p s {q} {u} h =
      unfold run_tests in
      all_passed [] (subst (Runs s [] []) (ap (λ (x : Result Progress × State). x.1) h) none_left)
        tt (ground arith)
  run_tests-Judged idx (t ∷ ts) p s {q} {u} h =
      elim (Outcome-cases (run_test env config container job t s)) [
        | inl (r, m, e) ↦ elim (Bool-cases r.ok) [
          | inl good ↦ Judged-ran idx t r ts p q s m u e good (
              run_tests-Judged (suc idx) ts (measure p r) m
                (sym (run_tests-good idx t r ts p s m e good) ∙ h))
          | inr bad ↦
              unfold fail measure in
              let step = sym (run_tests-bad idx t r ts p s m e bad) ∙ h in
              failed [] ts t [] r s refl none_left tt
                (e ∙ ap (λ (x : Result Progress × State). (ok r, x.1)) step) bad (ground arith)
        ]
        | inr (f, m, e) ↦ cc (run_tests-raised idx t f ts p s m e)
      ]

  abbrev loop : ℕ → List TestCase → Progress → State → Result Progress × State
  loop = run_tests env config container job

  abbrev passed : Progress → List RunResult → Progress
  passed p rs = record p {
    max_runtime_ms = max p.max_runtime_ms (max_ms rs);
    max_memory_used_kb = max p.max_memory_used_kb (max_kb rs);
  }

  loop-cong :
      {i j : ℕ} {p q : Progress} (ts : List TestCase) (s : State)
      → i ≡ j
      → p ≡ q
      → loop i ts p s ≡ loop j ts q s
  loop-cong ts s e f = cc

  passed-nil : (p : Progress) → p ≡ passed p []
  passed-nil p = ground arith

  passed-cons :
      (p : Progress) (r : RunResult) (rs : List RunResult)
      → passed (measure p r) rs ≡ passed p (r ∷ rs)
  unfolding measure
  passed-cons p r rs = ground arith

  -- The loop goes through the runs that pass.
  run_tests-append :
      (idx : ℕ) {before : List TestCase} {rs : List RunResult} {s m : State} (rest : List TestCase)
      (p : Progress)
      → Runs s before rs m
      → All Passed rs
      → loop idx (before ++ rest) p s ≡ loop (idx + length before) rest (passed p rs) m
  run_tests-append idx {s = s} rest p none_left oks = loop-cong rest s (omega arith) (passed-nil p)
  run_tests-append idx rest p (ran {s = s} {m} {u} {ts} {rs} t r e runs) oks =
      run_tests-good idx t r (ts ++ rest) p s m e oks.0
      ∙ run_tests-append (suc idx) rest (measure p r) runs oks.1
      ∙ loop-cong rest u (omega arith) (passed-cons p r rs)

  fail-passed :
      (i : ℕ) (t : TestCase) (p q : Progress) (rs : List RunResult) (r : RunResult)
      → q ≡ record {
        final_verdict = r.verdict;
        first_failure = some (record { idx = i; key = t.input_key; output = take 8192 r.output });
        max_runtime_ms = max p.max_runtime_ms (max_ms (rs ++ r ∷ []));
        max_memory_used_kb = max p.max_memory_used_kb (max_kb (rs ++ r ∷ []));
      }
      → fail i t (measure (passed p rs) r) r ≡ q
  unfolding fail measure
  fail-passed i t p q rs r eq = ground (arith, max_ms-append rs r, max_kb-append rs r)

  -- Where the runs of the test cases return up to the first failure, or all of them, the loop
  -- ends, and with exactly the progress that these runs determine.
  pub Judged-run_tests :
      (idx : ℕ) (ts : List TestCase) (p : Progress) (s : State) {q : Progress} {u : State}
      → Judged idx ts p s q u
      → run_tests env config container job idx ts p s ≡ (ok q, u)
  Judged-run_tests idx ts p s {q} {u} (all_passed rs runs oks eq) =
      subst (λ l. loop idx l p s ≡ (ok q, u)) (append-nil ts)
        (run_tests-append idx [] p runs oks
          ∙ (unfold run_tests in ap (λ (x : Progress). (ok x, u)) (sym eq)))
  Judged-run_tests idx ts p s {q} {u} (failed before after t rs r m split runs oks e bad eq) =
      subst (λ l. loop idx l p s ≡ (ok q, u)) (sym split)
        (run_tests-append idx (t ∷ after) p runs oks
          ∙ run_tests-bad (idx + length before) t r after (passed p rs) m u e bad
          ∙ ap (λ (x : Progress). (ok x, u)) (fail-passed (idx + length before) t p q rs r eq))
