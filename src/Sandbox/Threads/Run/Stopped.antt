-- ===== src/Sandbox/Threads/Run/Stopped.antt =====
-- What no step of judge/sandbox_manager/main.py undoes once its `run` is in the `finally`.
use byte_battles.Base.{
  ℕ, zero, suc, ◌≡◌, refl, ◌≢◌, ◌⊎◌, inl, inr, Bool, true, false, ◌||◌, Option, none, some, List,
  [], ◌∷◌, arith, Bool-cases, Option-cases,
}
use byte_battles.Base.Text.{Text}
use byte_battles.Redis.{rpop, set_warm}
use byte_battles.Enums.{Language, language_eq, language_eq_sound}
use byte_battles.Sandbox.Threads.{
  Manager, MainPhase, Creator, Action, step, maintain, proceed, shut_down, lease, go_on, create,
  break_down, get_elem?, call_main, main_step, creator_step, take_task, finish_creation,
  fail_creation, with_creator,
}
use byte_battles.Sandbox.Threads.Run.{RunPhase, joining, cleaning, popping, broken_off, all_exited}

abbrev pub has : Language → List Language → Bool
has l [] = false
has l (m ∷ ls) = language_eq m l || has l ls

abbrev pub IsStopped : Manager → Type 0
IsStopped m = (m.main ≡ MainPhase.stopping) × (m.stop_event ≡ true)

-- No creator runs, and the pools of the other languages are empty.
abbrev pub Swept : List Language → Manager → Type 0
Swept ls m =
    (all_exited m.creators ≡ true)
    × ((l : Language) → has l ls ≡ false → m.warm l ≡ [])
    × IsStopped m

abbrev pub Sweeping : RunPhase → Manager → Type 0
Sweeping joining m = IsStopped m
Sweeping (cleaning ls) m = Swept ls m
Sweeping (popping l ls) m = Swept (l ∷ ls) m
Sweeping broken_off m = IsStopped m
Sweeping _ m = Unit

pub List-cases {ℓ} :
    {A : Type ℓ} (xs : List A) → (xs ≡ []) ⊎ ((x : A) × (ys : List A) × (xs ≡ x ∷ ys))
List-cases [] = inl refl
List-cases (x ∷ ys) = inr (x, ys, refl)

get_elem?-all_exited :
    (cs : List Creator) (i : ℕ) (c : Creator)
    → all_exited cs ≡ true
    → get_elem? cs i ≡ some c
    → c ≡ Creator.exited
unfolding all_exited get_elem?
get_elem?-all_exited [] i c h e = cc e
get_elem?-all_exited (x ∷ cs) zero c h e = ground (arith, h, e)
get_elem?-all_exited (x ∷ cs) (suc i) c h e = get_elem?-all_exited cs i c (ground (arith, h)) e

-- A creator that has exited does nothing.
with_creator-none :
    (s t : Manager) (i : ℕ) (f : Creator → Option Manager)
    → all_exited s.creators ≡ true
    → f Creator.exited ≡ none
    → with_creator (get_elem? s.creators i) f ≢ some t
with_creator-none s t i f h n q = elim (Option-cases (get_elem? s.creators i)) [
  | inl e ↦ let k = rw e at q in cc k
  | inr (c, e) ↦ let k = rw (e, get_elem?-all_exited s.creators i c h e, n) at q in cc k
]

-- No step leaves the `finally`.
call_main-stopping :
    (next : MainPhase) (stops : Bool) (s t : Manager)
    → s.main ≡ MainPhase.stopping
    → call_main s.main next stops s ≢ some t
unfolding call_main
call_main-stopping next stops s t e h = let k = rw e at h in cc k

pub call_main-IsStopped :
    (p : MainPhase) (s t : Manager) → call_main p MainPhase.stopping true s ≡ some t → IsStopped t
unfolding call_main
call_main-IsStopped MainPhase.idle s t h = ground (arith, h)
call_main-IsStopped _ s t h = cc h

main_step-stopping : (s t : Manager) → s.main ≡ MainPhase.stopping → main_step s.main s ≢ some t
unfolding main_step
main_step-stopping s t e h = let k = rw e at h in cc k

creator_step-IsStopped :
    (i : ℕ) (c : Creator) (s t : Manager) → creator_step i c s ≡ some t → IsStopped s → IsStopped t
unfolding creator_step take_task
creator_step-IsStopped i Creator.waiting s t h v = elim (List-cases s.task_queue) [
  | inl e ↦ let k = rw e at h in ground (arith, k, v)
  | inr (l, ls, e) ↦ let k = rw e at h in ground (arith, k, v)
]
creator_step-IsStopped i Creator.ready s t h v = ground (arith, h, v)
creator_step-IsStopped i (Creator.created l) s t h v = ground (arith, h, v)
creator_step-IsStopped i (Creator.failed l) s t h v = ground (arith, h, v)
creator_step-IsStopped i (Creator.creating l) s t h v = cc h
creator_step-IsStopped i Creator.exited s t h v = cc h

with_creator-IsStopped :
    (o : Option Creator) (f : Creator → Option Manager) (t : Manager)
    → ((c : Creator) → f c ≡ some t → IsStopped t)
    → with_creator o f ≡ some t
    → IsStopped t
with_creator-IsStopped none f t k h = cc h
with_creator-IsStopped (some c) f t k h = k c h

pub step-IsStopped : (a : Action) (s t : Manager) → step a s ≡ some t → IsStopped s → IsStopped t
step-IsStopped (maintain m) s t h v =
    unfold step in absurd (call_main-stopping (MainPhase.locked m) false s t v.0 h)
step-IsStopped shut_down s t h v =
    unfold step in absurd (call_main-stopping MainPhase.stopping true s t v.0 h)
step-IsStopped proceed s t h v = unfold step in absurd (main_step-stopping s t v.0 h)
step-IsStopped (go_on i) s t h v =
    unfold step in
    with_creator-IsStopped (get_elem? s.creators i) (λ c. creator_step i c s) t
      (λ c k. creator_step-IsStopped i c s t k v) h
step-IsStopped (create i x) s t h v =
    unfold step finish_creation in
    with_creator-IsStopped (get_elem? s.creators i) (λ c. finish_creation i c x s) t
      (λ c k. ground (arith, k, v)) h
step-IsStopped (break_down i) s t h v =
    unfold step fail_creation in
    with_creator-IsStopped (get_elem? s.creators i) (λ c. fail_creation i c s) t
      (λ c k. ground (arith, k, v)) h
step-IsStopped (lease m) s t h v = unfold step in ground (arith, h, v)

set_warm-rpop-nil :
    (f : Language → List Text) (m l : Language) → f l ≡ [] → set_warm f m (rpop (f m)).1 l ≡ []
unfolding set_warm rpop
set_warm-rpop-nil f m l h = elim (Bool-cases (language_eq l m)) [
  | inr e ↦ rw e h
  | inl e ↦ let k : f m ≡ [] = rw (language_eq_sound l m e) at h in rw (e, k) refl
]

pub step-Swept :
    (a : Action) (ls : List Language) (s t : Manager) → step a s ≡ some t → Swept ls s → Swept ls t
step-Swept (maintain m) ls s t h v =
    unfold step in absurd (call_main-stopping (MainPhase.locked m) false s t v.2.0 h)
step-Swept shut_down ls s t h v =
    unfold step in absurd (call_main-stopping MainPhase.stopping true s t v.2.0 h)
step-Swept proceed ls s t h v = unfold step in absurd (main_step-stopping s t v.2.0 h)
step-Swept (go_on i) ls s t h v =
    unfold step creator_step in
    absurd (with_creator-none s t i (λ c. creator_step i c s) v.0 refl h)
step-Swept (create i x) ls s t h v =
    unfold step finish_creation in
    absurd (with_creator-none s t i (λ c. finish_creation i c x s) v.0 refl h)
step-Swept (break_down i) ls s t h v =
    unfold step fail_creation in
    absurd (with_creator-none s t i (λ c. fail_creation i c s) v.0 refl h)
step-Swept (lease m) ls s t h v =
    unfold step in
    let same : set_warm s.warm m (rpop (s.warm m)).1 ≡ t.warm = ground (arith, h) in
    (
      ground (arith, h, v.0),
      λ l n. rw (← same) (set_warm-rpop-nil s.warm m l (v.1 l n)),
      step-IsStopped (lease m) s t h v.2,
    )
