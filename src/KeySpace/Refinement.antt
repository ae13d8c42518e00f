-- ===== src/KeySpace/Refinement.antt =====
-- That the record of keys, which the other modules work on, stands for a Redis server whose keys are
-- texts.
use byte_battles.Base.{
  ℕ, ◌≡◌, refl, sym, ap, ◌∙◌, subst, ◌≢◌, inl, inr, Option, none, some, List, [], ◌∷◌, ◌++◌, map,
  arith, Bool-cases, split_last-append, split_last-cases,
}
use byte_battles.Base.Text.{Text, text_eq, text_eq_iff}
use byte_battles.Base.Number.{str}
use byte_battles.Base.Exec.{Exec, Result, ok}
use byte_battles.Redis.{Redis, set_key, set_warm, rpop, push_job}
use byte_battles.KeySpace.{
  Names, Kind, Key, Value, Client, IsClient, Command, key_text, items_of, text_of, put, flag_text,
  number_text, contents, Represents, silent, execute, perform, execute_all, perform_all,
  get_shutdown_all, delete_shutdown_all, pop_job, set_shutdown_all, get_worker, delete_worker,
  set_shutdown, set_heartbeat, set_submission, push_id, push_warm, pop_warm,
}
use byte_battles.KeySpace.Apart.{AreApart, key_text-injective}
use byte_battles.KeySpace.Fields.{
  contents-shutdown, contents-heartbeat, contents-submission, contents-shutdown_all, contents-jobs,
  contents-warm, language_eq_refl,
}

rpop-map :
    (xs : List ℕ)
    → (number_text (rpop xs).0 ≡ (rpop (map str xs)).0)
      × (map str (rpop xs).1 ≡ (rpop (map str xs)).1)
unfolding rpop
rpop-map xs = elim (split_last-cases xs) [
  | inl (q, e) ↦ rw (q, rpop) (refl, refl)
  | inr (ys, y, q, e, _) ↦
      let all : map str (ys ++ y ∷ []) ≡ map str ys ++ str y ∷ [] = map-last ys y in
      rw (q, all, split_last-append ys y, split_last-append (map str ys) (str y), rpop) (refl, refl)
]
  where
    map-last : (ys : List ℕ) (y : ℕ) → map str (ys ++ y ∷ []) ≡ map str ys ++ str y ∷ []
    map-last [] y = refl
    map-last (x ∷ ys) y = rw (map-last ys y) refl

-- What a command that answers nothing does.
silently :
    {S : Type 0} (m : Exec S (Unit {0})) (s : S)
    → (m s).0 ≡ ok tt
    → ((silent m s).0 ≡ ok none) × ((silent m s).1 ≡ (m s).1)
unfolding silent
silently m s h = rw h (refl, refl)

module _ (C : Client) (client : IsClient C) (names : Names) (apart : AreApart names) where
  -- One key was written, and the record agrees.
  written :
      (s t : C.State) (r u : Redis) (k : Key) (v : Option Value)
      → Represents C names s r
      → ((j : Text) → C.value t j ≡ put (C.value s) (key_text names k) v j)
      → contents u k ≡ v
      → ((j : Key) → j ≢ k → contents u j ≡ contents r j)
      → Represents C names t u
  written s t r u k v h w own others j =
      elim (Bool-cases (text_eq (key_text names j) (key_text names k))) [
        | inl e ↦
            let same = key_text-injective names apart j k ((text_eq_iff _ _).0 e) in
            let now = w (key_text names j) in
            subst (λ x. C.value t (key_text names j) ≡ contents u x) (sym same)
              ((let k' = rw e at now in k') ∙ sym own)
        | inr e ↦
            let now = w (key_text names j) in
            let differ : j ≢ k = λ q.
              let x = ap (key_text names) q in
              let y = (text_eq_iff (key_text names j) (key_text names k)).1 x in cc (y, e) in
            (let k' = rw e at now in k') ∙ h j ∙ sym (others j differ)
      ]

  abbrev Done : Result (Option Text) × C.State → Option Text → Redis → Type 0
  Done x reply u = (x.0 ≡ ok reply) × Represents C names x.1 u

  silent-Done :
      (m : Exec C.State (Unit {0})) (s : C.State) (r u : Redis) (k : Key) (v : Option Value)
      → Represents C names s r
      → (m s).0 ≡ ok tt
      → ((j : Text) → C.value (m s).1 j ≡ put (C.value s) (key_text names k) v j)
      → contents u k ≡ v
      → ((j : Key) → j ≢ k → contents u j ≡ contents r j)
      → Done (silent m s) none u
  silent-Done m s r u k v h returned w own others =
      let (reply, state) = silently m s returned in
      (
        reply,
        subst (λ t. Represents C names t u) (sym state) (written s (m s).1 r u k v h w own others),
      )

  module _ (s : C.State) (r : Redis) (h : Represents C names s r) where
    get-Done :
        (k : Key) (v : Option Text)
        → contents r k ≡ text_of v
        → Done (C.get (key_text names k) s) v r
    get-Done k v e = rw (client.gets (key_text names k) v s (h k ∙ e)) (refl, h)

    set-Done :
        (k : Key) (v : Text) (u : Redis)
        → contents u k ≡ some (Value.text v)
        → ((j : Key) → j ≢ k → contents u j ≡ contents r j)
        → Done (silent (C.set (key_text names k) v) s) none u
    set-Done k v u own others =
        let (returned, w) = client.sets (key_text names k) v s in
        silent-Done (C.set (key_text names k) v) s r u k (some (Value.text v)) h returned w own
          others

    delete-Done :
        (k : Key) (u : Redis)
        → contents u k ≡ none
        → ((j : Key) → j ≢ k → contents u j ≡ contents r j)
        → Done (silent (C.delete (key_text names k)) s) none u
    delete-Done k u own others =
        let (returned, w) = client.deletes (key_text names k) s in
        silent-Done (C.delete (key_text names k)) s r u k none h returned w own others

    push-Done :
        (k : Key) (v : Text) (xs : List Text) (u : Redis)
        → contents r k ≡ items_of xs
        → contents u k ≡ items_of (v ∷ xs)
        → ((j : Key) → j ≢ k → contents u j ≡ contents r j)
        → Done (silent (C.lpush (key_text names k) v) s) none u
    push-Done k v xs u e own others =
        let (returned, w) = client.pushes (key_text names k) v xs s (h k ∙ e) in
        silent-Done (C.lpush (key_text names k) v) s r u k (items_of (v ∷ xs)) h returned w own
          others

    pop-Done :
        (k : Key) (xs : List Text) (u : Redis)
        → contents r k ≡ items_of xs
        → contents u k ≡ items_of (rpop xs).1
        → ((j : Key) → j ≢ k → contents u j ≡ contents r j)
        → Done (C.rpop (key_text names k) s) (rpop xs).0 u
    pop-Done k xs u e own others =
        let (returned, w) = client.pops (key_text names k) xs s (h k ∙ e) in
        (
          returned,
          written s (C.rpop (key_text names k) s).1 r u k (items_of (rpop xs).1) h w own others,
        )

    execute-perform : (c : Command) → Done (execute C names c s) (perform c r).0 (perform c r).1
    unfolding execute perform set_key push_job set_warm
    execute-perform get_shutdown_all = get-Done Key.shutdown_key (flag_text r.shutdown_all) refl
    execute-perform delete_shutdown_all =
        delete-Done Key.shutdown_key (perform delete_shutdown_all r).1 refl
          (contents-shutdown_all none r)
    execute-perform pop_job =
        let (reply, left) = rpop-map r.jobs in
        let (returned, state) =
          pop-Done Key.job_list (map str r.jobs) (record r { jobs = (rpop r.jobs).1 }) refl
            (ap items_of left) (contents-jobs (rpop r.jobs).1 r) in
        (returned ∙ ap (λ (x : Option Text). ok x) (sym reply), state)
    execute-perform (set_shutdown_all b) =
        set-Done Key.shutdown_key _ (perform (set_shutdown_all b) r).1 refl
          (contents-shutdown_all (some b) r)
    execute-perform (get_worker i Kind.shutdown) =
        get-Done (Key.worker i Kind.shutdown) (flag_text (r.shutdown i)) refl
    execute-perform (get_worker i Kind.heartbeat) =
        get-Done (Key.worker i Kind.heartbeat) (number_text (r.heartbeat i)) refl
    execute-perform (get_worker i Kind.submission) =
        get-Done (Key.worker i Kind.submission) (number_text (r.submission i)) refl
    execute-perform (delete_worker i Kind.shutdown) =
        delete-Done (Key.worker i Kind.shutdown) (perform (delete_worker i Kind.shutdown) r).1
          (ground arith) (contents-shutdown i r none)
    execute-perform (delete_worker i Kind.heartbeat) =
        delete-Done (Key.worker i Kind.heartbeat) (perform (delete_worker i Kind.heartbeat) r).1
          (ground arith) (contents-heartbeat i r none)
    execute-perform (delete_worker i Kind.submission) =
        delete-Done (Key.worker i Kind.submission) (perform (delete_worker i Kind.submission) r).1
          (ground arith) (contents-submission i r none)
    execute-perform (set_shutdown i b) =
        set-Done (Key.worker i Kind.shutdown) _ (perform (set_shutdown i b) r).1 (ground arith)
          (contents-shutdown i r (some b))
    execute-perform (set_heartbeat i time) =
        set-Done (Key.worker i Kind.heartbeat) _ (perform (set_heartbeat i time) r).1 (ground arith)
          (contents-heartbeat i r (some time))
    execute-perform (set_submission i id) =
        set-Done (Key.worker i Kind.submission) _ (perform (set_submission i id) r).1 (ground arith)
          (contents-submission i r (some id))
    execute-perform (push_id id) =
        push-Done Key.job_list (str id) (map str r.jobs) (perform (push_id id) r).1 refl refl
          (contents-jobs (id ∷ r.jobs) r)
    execute-perform (push_warm l container) =
        push-Done (Key.warm_queue l) container (r.warm l) (perform (push_warm l container) r).1 refl
          (rw (language_eq_refl l) refl) (contents-warm l (container ∷ r.warm l) r)
    execute-perform (pop_warm l) =
        pop-Done (Key.warm_queue l) (r.warm l) (perform (pop_warm l) r).1 refl
          (rw (language_eq_refl l) refl) (contents-warm l (rpop (r.warm l)).1 r)

  -- Over a Redis client that does what Redis documents, with names whose prefixes hold no colon
  -- and differ, whose other two names differ and begin with neither prefix before a colon, and
  -- where different languages are formatted differently: commands on the texts of the keys answer
  -- what they answer on the record of keys, in any sequence, and each key of the server then holds
  -- what the record says of it. So no two keys are mixed up.
  pub execute_all-perform_all :
      (commands : List Command) (s : C.State) (r : Redis)
      → Represents C names s r
      → let (replies, u) = perform_all commands r in
        ((execute_all C names commands s).0 ≡ ok replies)
        × Represents C names (execute_all C names commands s).1 u
  unfolding execute_all perform_all
  execute_all-perform_all [] s r h = (refl, h)
  execute_all-perform_all (c ∷ commands) s r h =
      let (reply, state) = execute-perform s r h c in
      let (replies, final) =
        execute_all-perform_all commands (execute C names c s).1 (perform c r).1 state in
      rw (reply, execute_all) (rw (replies, execute_all) (refl, final))
