-- ===== src/System/Consistent.antt =====
-- The invariant of the whole system.
use byte_battles.Base.{
  ℕ, suc, ◌<◌, ◌≡◌, refl, sym, subst, inl, inr, Bool, not, Option, some, List, [], ◌∷◌, ◌++◌, arith,
  ◌==◌, ==_iff, Bool-cases, All, All-map, All-last,
}
use byte_battles.Base.Exec.{Result, ok, err, Fault}
use byte_battles.Redis.{Redis, push_job, set_key}
use byte_battles.World.{World}
use byte_battles.Database.{Submission, Db, first}
use byte_battles.Database.Queries.{All-select, first-passes}
use byte_battles.Pipeline.{SubmissionResult, update_result, process_submission}
use byte_battles.Pipeline.Outcome.{stored}
use byte_battles.Worker.Retry.{taken}
use byte_battles.Worker.{Turn, set_submission, beat}
use byte_battles.Api.Accounts.{User, Users, has_id}
use byte_battles.Api.Accounts.Uniqueness.{IsKeyed}
use byte_battles.Api.Accounts.Updates.{delete_user-IsKeyed}
use byte_battles.Api.Profiles.{delete_current_user}
use byte_battles.Api.Http.{Reply}
use byte_battles.Api.Site.{Site}
use byte_battles.Api.Submissions.Create.{SubmissionResponse, SubmissionCreate}
use byte_battles.System.{
  Parts, System, bound, world, begun, remove_user, with_redis, take_turn, set_variable,
}
use byte_battles.System.Rows.{
  IdsDiffer, IdsDiffer-last, IdsDiffer-select, IdsDiffer-updated, All-updated,
}
use byte_battles.System.Watching.{Known, Kept-push}
use byte_battles.System.Requests.{Untouched, Queued, Reduced}
use byte_battles.System.Handling.{Limited, All-init, All-end}
use byte_battles.System.Turns.{TurnEffect}

pub record Consistent (users : Users) (rows : List Submission) (next : ℕ) (redis : Redis)
    (variable : ℕ → Option ℕ) : Type 0 where
  -- Unique columns are distinct and the sequences are ahead.
  pub keyed : IsKeyed users
  pub differ : IdsDiffer rows
  pub ahead : All (λ t. t.id < next) rows
  -- The queue, the workers' keys and their variables hold ids that were given out.
  pub known : Known next redis
  pub limited : (i : ℕ) → Limited next (variable i)

stored-rows :
    (id : ℕ) (r : Result SubmissionResult) (db : Db) (next : ℕ)
    → IdsDiffer db.submissions
    → All (λ t. t.id < next) db.submissions
    → IdsDiffer (stored id r db).submissions
      × All (λ t. t.id < next) (stored id r db).submissions
      × ((stored id r db).next_submission ≡ db.next_submission)
unfolding update_result
stored-rows id (err e) db next h k = (h, k, refl)
stored-rows id (ok result) db next h k = (
  IdsDiffer-updated id result db.submissions h,
  All-updated id result (λ i. i < next) db.submissions k,
  refl,
)

-- One more id was given out.
Known-suc : (n : ℕ) (r : Redis) → Known n r → Known (suc n) r
Known-suc n r v = record {
  queued = All-map {Q = λ id. id < suc n} (λ id (h : id < n). omega arith) r.jobs v.queued;
  held = λ i id h. let k = v.held i id h in omega (arith, k);
}

Known-push : (n : ℕ) (r : Redis) → Known n r → Known (suc n) (push_job n r)
Known-push n r v = (Kept-push (suc n) n r (omega arith)).known (Known-suc n r v)

ahead-last :
    (db : Db) (row : Submission)
    → row.id ≡ db.next_submission
    → All (λ t. t.id < db.next_submission) db.submissions
    → All (λ t. t.id < suc db.next_submission) (db.submissions ++ row ∷ [])
ahead-last db row e v =
    All-last (λ t. t.id < suc db.next_submission) db.submissions
      (All-map {Q = λ t. t.id < suc db.next_submission}
        (λ t (h : t.id < db.next_submission). omega arith) db.submissions v)
      (omega (arith, e))

pub found_again :
    (id : ℕ) (me : User) (db : Users)
    → first (has_id id) db.rows ≡ some me
    → first (has_id me.id) db.rows ≡ some me
found_again id me db e =
    let same : me.id ≡ id = (==_iff me.id id).0 (first-passes (has_id id) db.rows me e) in
    subst (λ j. first (has_id j) db.rows ≡ some me) (sym same) e

module _ (parts : Parts) where
  abbrev pub IsConsistent : System parts → Type 0
  IsConsistent s =
      Consistent s.site.users s.site.db.submissions s.site.db.next_submission s.site.redis
        s.variable

  -- What a request leaves of it.
  pub Untouched-Consistent :
      (s t : Site parts.backend) (variable : ℕ → Option ℕ)
      → Untouched s t
      → Consistent s.users s.db.submissions s.db.next_submission s.redis variable
      → Consistent t.users t.db.submissions t.db.next_submission t.redis variable
  Untouched-Consistent s t variable h v = rw (h.submissions, h.sequence, h.redis, h.users) v

  pub Queued-Consistent :
      (details : SubmissionCreate) (user : User) (now : ℕ) (r : Reply SubmissionResponse)
      (s t : Site parts.backend) (variable : ℕ → Option ℕ)
      → Queued parts.backend details user now r s t
      → Consistent s.users s.db.submissions s.db.next_submission s.redis variable
      → Consistent t.users t.db.submissions t.db.next_submission t.redis variable
  Queued-Consistent details user now r s t variable (Queued.unchanged h) v =
      Untouched-Consistent s t variable h v
  Queued-Consistent details user now r s t variable (Queued.added key e f g) v =
      rw (e, f, g)
        (record {
          keyed = v.keyed;
          differ = IdsDiffer-last s.db.submissions _ v.differ v.ahead;
          ahead = ahead-last s.db _ refl v.ahead;
          known = Known-push s.db.next_submission s.redis v.known;
          limited = λ i id h. let k = v.limited i id h in omega (arith, k);
        })
  Queued-Consistent details user now r s t variable (Queued.left key x q e f g) v =
      rw (e, f, g)
        (record {
          keyed = v.keyed;
          differ = IdsDiffer-last s.db.submissions _ v.differ v.ahead;
          ahead = ahead-last s.db _ refl v.ahead;
          known = Known-suc s.db.next_submission s.redis v.known;
          limited = λ i id h. let k = v.limited i id h in omega (arith, k);
        })

  pub Reduced-Consistent :
      (s t : Site parts.backend) (variable : ℕ → Option ℕ)
      → Reduced parts.backend s t
      → Consistent s.users s.db.submissions s.db.next_submission s.redis variable
      → Consistent t.users t.db.submissions t.db.next_submission t.redis variable
  Reduced-Consistent s t variable (Reduced.whole h) v = Untouched-Consistent s t variable h v
  Reduced-Consistent s t variable (Reduced.selected test e f g h) v =
      rw (e, f, g, h)
        (record {
          keyed = v.keyed;
          known = v.known;
          limited = v.limited;
          differ = IdsDiffer-select test s.db.submissions v.differ;
          ahead = All-select (λ t. t.id < s.db.next_submission) test s.db.submissions v.ahead;
        })

  pub remove_user-IsConsistent :
      (me : User) (s : System parts) → IsConsistent s → IsConsistent (remove_user parts me s)
  unfolding delete_current_user
  remove_user-IsConsistent me s v =
      let kept : Submission → Bool = λ t. not (t.user_id == me.id) in
      record {
        known = v.known;
        limited = v.limited;
        keyed = delete_user-IsKeyed me s.site.users v.keyed;
        differ = IdsDiffer-select kept s.site.db.submissions v.differ;
        ahead =
            All-select (λ t. t.id < s.site.db.next_submission) kept s.site.db.submissions v.ahead;
      }

  set_variable-Limited :
      (n i : ℕ) (f : ℕ → Option ℕ) (x : Option ℕ)
      → ((j : ℕ) → Limited n (f j))
      → Limited n x
      → (j : ℕ) → Limited n (set_variable f i x j)
  set_variable-Limited n i f x h k j = elim (Bool-cases (j == i)) [
    | inl e ↦ rw e k
    | inr e ↦ rw e (h j)
  ]

  pub work-Consistent :
      (i now : ℕ) (outage : Option Fault) (s : System parts) (p : Turn × World parts.services)
      → IsConsistent s
      → TurnEffect parts.services parts.config i s.site.db.next_submission now outage
          (s.variable i)
          (world parts s)
          p
      → IsConsistent (take_turn parts i p s)
  work-Consistent i now outage s p v (TurnEffect.idle t u k same l) =
      let n = s.site.db.next_submission in
      rw same (record {
        keyed = v.keyed;
        differ = v.differ;
        ahead = v.ahead;
        known = k.known v.known;
        limited = set_variable-Limited n i s.variable (bound t (s.variable i)) v.limited l;
      })
  work-Consistent i now outage s p v (TurnEffect.took rest id t u o running q (jobs, db) known l) =
      let n = s.site.db.next_submission in
      let r =
        (process_submission parts.services parts.config id
          (taken parts.services parts.config i now id rest (world parts s))).0 in
      let (x, y, z) = stored-rows id r s.site.db n v.differ v.ahead in
      rw (db, z)
        (record {
          keyed = v.keyed;
          differ = x;
          ahead = y;
          known = known;
          limited = set_variable-Limited n i s.variable (bound t (s.variable i)) v.limited l;
        })

  pub begun-IsConsistent :
      (i now : ℕ) (rest : List ℕ) (id : ℕ) (s : System parts)
      → s.site.redis.jobs ≡ rest ++ id ∷ []
      → IsConsistent s
      → IsConsistent (with_redis parts (begun parts i now id rest s.site.redis) s)
  unfolding set_submission set_key beat
  begun-IsConsistent i now rest id s q v =
      let n = s.site.db.next_submission in
      let both : All (λ j. j < n) (rest ++ id ∷ []) = rw q at v.known.queued in
      record {
        keyed = v.keyed;
        differ = v.differ;
        ahead = v.ahead;
        limited = v.limited;
        known = record {
          queued = All-init (λ j. j < n) rest id both;
          held = λ j x h. elim (Bool-cases (j == i)) [
            | inl e ↦
                let k : some id ≡ some x = rw e at h in
                let same : id ≡ x = cc k in
                let below : id < n = All-end (λ j. j < n) rest id both in rw same at below
            | inr e ↦ v.known.held j x (rw e at h)
          ];
        };
      }
