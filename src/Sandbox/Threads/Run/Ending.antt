-- ===== src/Sandbox/Threads/Run/Ending.antt =====
-- What `run` of judge/sandbox_manager/main.py leaves when it has ended.
use byte_battles.Base.{
  ℕ, zero, suc, ◌≡◌, refl, sym, subst, ◌≢◌, inl, inr, Bool, true, false, Option, none, some, List,
  [], ◌∷◌, arith, Bool-cases, Option-cases, is_empty,
}
use byte_battles.Base.Text.{Text}
use mathlib.Core.Option
use byte_battles.Enums.{Language, languages, language_eq, language_eq_sound}
use byte_battles.Sandbox.Threads.{Manager, Action, step, maintain, proceed, shut_down, lease}
use byte_battles.Sandbox.Threads.Supply.{initial}
use byte_battles.Sandbox.Threads.Run.{
  Message, RunPhase, Run, Event, starting, filling, testing, reading, joining, cleaning, popping,
  broken_off, all_exited, with_manager, in_maintain_pool, is_of_main, run_step, receive,
  interrupt_in, advance, run_events, main_thread, interrupt, other_thread, absent, unrelated,
  malformed, announced,
}
use byte_battles.Sandbox.Threads.Run.Stopped.{
  has, IsStopped, Swept, Sweeping, call_main-IsStopped, step-IsStopped, step-Swept,
}

step-Sweeping :
    (phase : RunPhase) (a : Action) (s t : Manager)
    → step a s ≡ some t
    → Sweeping phase s
    → Sweeping phase t
step-Sweeping joining a s t h v = step-IsStopped a s t h v
step-Sweeping (cleaning ls) a s t h v = step-Swept a ls s t h v
step-Sweeping (popping l ls) a s t h v = step-Swept a (l ∷ ls) s t h v
step-Sweeping broken_off a s t h v = step-IsStopped a s t h v
step-Sweeping _ a s t h v = tt

with_manager-Sweeping :
    (phase : RunPhase) (o : Option Manager) (t : Run)
    → ((m : Manager) → o ≡ some m → Sweeping phase m)
    → with_manager phase o ≡ some t
    → Sweeping t.phase t.manager
with_manager-Sweeping phase none t k h = cc h
with_manager-Sweeping phase (some m) t k h =
    subst (λ o. Sweeping o.phase o.manager)
      (let e : record { manager = m; phase = phase } ≡ t = cc h in e) (k m refl)

to-Sweeping :
    (r t : Run) → some r ≡ some t → Sweeping r.phase r.manager → Sweeping t.phase t.manager
to-Sweeping r t h v = subst (λ o. Sweeping o.phase o.manager) (let e : r ≡ t = cc h in e) v

is_empty-nil {ℓ} : {A : Type ℓ} (xs : List A) → is_empty xs ≡ true → xs ≡ []
is_empty-nil [] e = refl
is_empty-nil (x ∷ xs) e = cc e

all_languages : (l : Language) → has l languages ≢ false
all_languages l n = ground (arith, n)

Swept-next :
    (l : Language) (ls : List Language) (m : Manager)
    → is_empty (m.warm l) ≡ true
    → Swept (l ∷ ls) m
    → Swept ls m
Swept-next l ls m e (h, k, v) = (
  h,
  λ x n. elim (Bool-cases (language_eq l x)) [
    | inr f ↦ k x (rw (f, n) refl)
    | inl f ↦ rw (← language_eq_sound l x f) (is_empty-nil (m.warm l) e)
  ],
  v,
)

shut_down-IsStopped : (s t : Manager) → step shut_down s ≡ some t → IsStopped t
shut_down-IsStopped s t h = unfold step in call_main-IsStopped s.main s t h

receive-Sweeping :
    (message : Message) (r t : Run) → receive message r ≡ some t → Sweeping t.phase t.manager
unfolding receive
receive-Sweeping absent r t h = to-Sweeping _ t h tt
receive-Sweeping unrelated r t h = to-Sweeping _ t h tt
receive-Sweeping malformed r t h =
    with_manager-Sweeping joining (step shut_down r.manager) t
      (λ m e. shut_down-IsStopped r.manager m e) h
receive-Sweeping (announced l) r t h =
    with_manager-Sweeping testing (step (maintain l) r.manager) t (λ m e. tt) h

interrupt_in-Sweeping :
    (phase : RunPhase) (r t : Run)
    → interrupt_in phase r ≡ some t
    → Sweeping phase r.manager
    → Sweeping t.phase t.manager
unfolding interrupt_in
interrupt_in-Sweeping joining r t h v = to-Sweeping _ t h v
interrupt_in-Sweeping (cleaning []) r t h v = cc h
interrupt_in-Sweeping (cleaning (l ∷ ls)) r t h v = to-Sweeping _ t h v.2
interrupt_in-Sweeping (popping l ls) r t h v = to-Sweeping _ t h v.2
interrupt_in-Sweeping broken_off r t h v = cc h
interrupt_in-Sweeping _ r t h v =
    with_manager-Sweeping joining (step shut_down r.manager) t
      (λ m e. shut_down-IsStopped r.manager m e) h

run_step-Sweeping :
    (phase : RunPhase) (down : Bool) (message : Message) (r t : Run)
    → run_step phase down message r ≡ some t
    → Sweeping phase r.manager
    → Sweeping t.phase t.manager
unfolding run_step
run_step-Sweeping (starting zero) down message r t h v = to-Sweeping _ t h tt
run_step-Sweeping (starting (suc n)) down message r t h v = to-Sweeping _ t h tt
run_step-Sweeping (filling []) down message r t h v = to-Sweeping _ t h tt
run_step-Sweeping (filling (l ∷ ls)) down message r t h v =
    with_manager-Sweeping (filling ls) (step (maintain l) r.manager) t (λ m e. tt) h
run_step-Sweeping testing true message r t h v =
    with_manager-Sweeping joining (step shut_down r.manager) t
      (λ m e. shut_down-IsStopped r.manager m e) h
run_step-Sweeping testing false message r t h v = to-Sweeping _ t h tt
run_step-Sweeping reading down message r t h v = receive-Sweeping message r t h
run_step-Sweeping joining down message r t h v = elim (Bool-cases (all_exited r.manager.creators)) [
  | inl e ↦ to-Sweeping _ t (rw e at h) (e, λ l n. absurd (all_languages l n), v)
  | inr e ↦ absurd (let k = rw e at h in cc k)
]
run_step-Sweeping (cleaning []) down message r t h v = cc h
run_step-Sweeping (cleaning (l ∷ ls)) down message r t h v =
    elim (Bool-cases (is_empty (r.manager.warm l))) [
      | inl e ↦ to-Sweeping _ t (rw e at h) (Swept-next l ls r.manager e v)
      | inr e ↦ to-Sweeping _ t (rw e at h) v
    ]
run_step-Sweeping broken_off down message r t h v = cc h
run_step-Sweeping (popping l ls) down message r t h v =
    with_manager-Sweeping (cleaning (l ∷ ls)) (step (lease l) r.manager) t
      (λ m e. step-Swept (lease l) (l ∷ ls) r.manager m e v) h

pub advance-Sweeping :
    (e : Event) (r t : Run)
    → advance e r ≡ some t
    → Sweeping r.phase r.manager
    → Sweeping t.phase t.manager
advance-Sweeping (main_thread down message) r t h v =
    unfold advance in
    elim (Bool-cases (in_maintain_pool r.manager.main)) [
      | inl e ↦
          with_manager-Sweeping r.phase (step proceed r.manager) t
            (λ m k. step-Sweeping r.phase proceed r.manager m k v) (rw e at h)
      | inr e ↦ run_step-Sweeping r.phase down message r t (rw e at h) v
    ]
advance-Sweeping interrupt r t h v = unfold advance in interrupt_in-Sweeping r.phase r t h v
advance-Sweeping (other_thread a) r t h v =
    unfold advance in
    elim (Bool-cases (is_of_main a)) [
      | inl e ↦ absurd (let k = rw e at h in cc k)
      | inr e ↦
          with_manager-Sweeping r.phase (step a r.manager) t
            (λ m k. step-Sweeping r.phase a r.manager m k v) (rw e at h)
    ]

pub run_events-Sweeping :
    (events : List Event) (r : Run)
    → Sweeping r.phase r.manager
    → Sweeping (run_events events r).phase (run_events events r).manager
unfolding run_events
run_events-Sweeping [] r v = v
run_events-Sweeping (e ∷ events) r v =
    let after = λ (o : Option Run). run_events events (Option.get_or o r) in
    elim (Option-cases (advance e r)) [
      | inl f ↦
          subst (λ o. Sweeping (after o).phase (after o).manager) (sym f)
            (run_events-Sweeping events r v)
      | inr (t, f) ↦
          subst (λ o. Sweeping (after o).phase (after o).manager) (sym f)
            (run_events-Sweeping events t (advance-Sweeping e r t f v))
    ]

-- `__init__`, and `run` at its start.
abbrev pub starting_run : (threshold workers : ℕ) → (Language → List Text) → Run
starting_run threshold workers warm = record {
  manager = initial threshold warm 0;
  phase = starting workers;
}

-- When run of the sandbox manager has ended, after any schedule of the threads, messages,
-- interrupts and leases from its start but without an interrupt in its finally, every creator has
-- exited and the warm pool of every language is empty.
pub run_events-ended :
    (threshold workers : ℕ) (warm : Language → List Text) (events : List Event) (l : Language)
    → let r = run_events events (starting_run threshold workers warm) in
      r.phase ≡ cleaning [] → (all_exited r.manager.creators ≡ true) × (r.manager.warm l ≡ [])
run_events-ended threshold workers warm events l h =
    let r = starting_run threshold workers warm in
    let t = run_events events r in
    let v : Sweeping t.phase t.manager = run_events-Sweeping events r tt in
    let (e, k, x) : Swept [] t.manager = subst (λ p. Sweeping p t.manager) h v in (e, k l refl)
