-- ===== src/System/Handling.antt =====
-- What the handlers of `_consume_from_list` (judge/judge_worker/worker.py) and the end of its `try`
-- leave of the queue and of the keys.
use byte_battles.Base.{
  ℕ, ◌<◌, ◌≡◌, refl, ap, ◌⊎◌, inl, inr, Bool, Option, none, some, List, [], ◌∷◌, ◌++◌, arith,
  Bool-cases, All,
}
use byte_battles.Base.Exec.{Result, ok, err, Fault, is_exception, is_value_error}
use byte_battles.Services.{Services}
use byte_battles.Config.{Config}
use byte_battles.Redis.{push_job}
use byte_battles.World.{World}
use byte_battles.Pipeline.{SubmissionResult, process_submission}
use byte_battles.Pipeline.Lease.{process_submission-keeps}
use byte_battles.Worker.{is_running, set_submission, handle, attempt, settle, consume}
use byte_battles.Worker.Retry.{requeued, consume-settled}
use byte_battles.System.{bound}
use byte_battles.System.Watching.{Known, Kept, Kept-same, Kept-push}

-- An id that a local variable holds is below the bound.
abbrev pub Limited : ℕ → Option ℕ → Type 0
Limited n v = (id : ℕ) → v ≡ some id → id < n

pub All-init : {A : Type 0} (P : A → Type 0) (xs : List A) (x : A) → All P (xs ++ x ∷ []) → All P xs
All-init P [] x h = tt
All-init P (y ∷ xs) x h = (h.0, All-init P xs x h.1)

pub All-end : {A : Type 0} (P : A → Type 0) (xs : List A) (x : A) → All P (xs ++ x ∷ []) → P x
All-end P [] x h = h.0
All-end P (y ∷ xs) x h = All-end P xs x h.1

requeued-below :
    (n id : ℕ) (r : Result SubmissionResult) (jobs : List ℕ)
    → id < n
    → All (λ j. j < n) jobs
    → All (λ j. j < n) (requeued id r jobs)
requeued-below n id (ok result) jobs l h = h
requeued-below n id (err e) jobs l h = elim (Bool-cases (is_exception e)) [
  | inr f ↦ rw f h
  | inl f ↦ elim (Bool-cases (is_value_error e)) [ inl g ↦ rw (f, g) h | inr g ↦ rw (f, g) (l, h) ]
]

module _ (env : Services) (config : Config) (identifier : ℕ) where
  handle-none : (e : Fault) (w : World env) → (handle env config identifier e none w).1 ≡ w
  unfolding handle
  handle-none e w = ground arith

  handle-some :
      (e : Fault) (id : ℕ) (w : World env)
      → ((handle env config identifier e (some id) w).1 ≡ w)
        ⊎ ((handle env config identifier e (some id) w).1
            ≡ record w { redis = push_job id w.redis })
  unfolding handle
  handle-some e id w = ground arith

  pub handle-Kept :
      (n : ℕ) (e : Fault) (variable : Option ℕ) (w : World env)
      → Limited n variable
      → Kept n w.redis (handle env config identifier e variable w).1.redis
        × ((handle env config identifier e variable w).1.db ≡ w.db)
  handle-Kept n e none w h = rw (handle-none e w) (Kept-same n w.redis w.redis refl refl, refl)
  handle-Kept n e (some id) w h = elim (handle-some e id w) [
    | inl q ↦ rw q (Kept-same n w.redis w.redis refl refl, refl)
    | inr q ↦ rw q (Kept-push n id w.redis (h id refl), refl)
  ]

  -- The keys of the others stay, and the worker's own key names the submission or nothing.
  consume-submission :
      (id : ℕ) (v : World env) (j x : ℕ)
      → (consume env config identifier id v).1.redis.submission j ≡ some x
      → (x ≡ id) ⊎ (v.redis.submission j ≡ some x)
  unfolding consume attempt
  consume-submission id v j x h =
      let v' : World env = record v {
        redis = set_submission env config identifier (some id) v.redis;
      } in
      ground
        (arith, h, ap (λ (f : ℕ → Option ℕ). f j) (process_submission-keeps env config id v').1)

  pub consume-Known :
      (n id : ℕ) (v : World env)
      → id < n
      → Known n v.redis
      → Known n (consume env config identifier id v).1.redis
  consume-Known n id v l h =
      let v' : World env = record v {
        redis = set_submission env config identifier (some id) v.redis;
      } in
      let r = (process_submission env config id v').0 in
      record {
        queued =
            rw (consume-settled env config identifier id v).0
              (requeued-below n id r v.redis.jobs l h.queued);
        held =
            λ j x e. elim (consume-submission id v j x e) [ inl q ↦ rw q l | inr q ↦ h.held j x q ];
      }

  -- A submission that is processed stops no worker.
  pub is_running-consume :
      (id : ℕ) (v : World env)
      → is_running env config identifier (consume env config identifier id v).1.redis
        ≡ is_running env config identifier v.redis
  unfolding consume attempt settle handle is_running
  is_running-consume id v =
      let v' : World env = record v {
        redis = set_submission env config identifier (some id) v.redis;
      } in
      let (_, _, a, b, _) = process_submission-keeps env config id v' in
      ground (arith, a, ap (λ (f : ℕ → Option Bool). f identifier) b)

  pub bound-handle :
      (e : Fault) (variable : Option ℕ) (w : World env)
      → bound (handle env config identifier e variable w).0 variable ≡ variable
  unfolding handle
  bound-handle e none w = ground arith
  bound-handle e (some id) w = ground arith

  pub bound-consume :
      (id : ℕ) (variable : Option ℕ) (v : World env)
      → (bound (consume env config identifier id v).0 variable ≡ some id)
        ⊎ (bound (consume env config identifier id v).0 variable ≡ variable)
  unfolding consume settle handle
  bound-consume id variable v = ground arith
