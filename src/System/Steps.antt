-- ===== src/System/Steps.antt =====
-- Every event keeps the system consistent.
use byte_battles.Base.{inl, inr, List, [], ◌∷◌, Option-cases, split_last-cases}
use byte_battles.Database.{first}
use byte_battles.Worker.{turn}
use byte_battles.Api.Accounts.{has_id}
use byte_battles.Api.Auth.Accounts.{register-IsKeyed}
use byte_battles.Api.Profiles.Changes.{update_current_user-IsKeyed}
use byte_battles.System.{
  Parts, System, Event, step, run, submit, upload_problem, remove_problem, sign_up, change_account,
  delete_account, work, get_stuck, watch, refill, world,
}
use byte_battles.System.Watching.{round-Kept}
use byte_battles.System.Requests.{
  create_submission-Queued, create_after_read-Untouched, delete_problem-Reduced,
}
use byte_battles.System.Turns.{turn-TurnEffect}
use byte_battles.System.Consistent.{
  IsConsistent, Untouched-Consistent, Queued-Consistent, Reduced-Consistent,
  remove_user-IsConsistent, work-Consistent, begun-IsConsistent, found_again,
}

module _ (parts : Parts) where
  pub step-IsConsistent :
      (e : Event parts) (s : System parts)
      → IsConsistent parts s
      → IsConsistent parts (step parts e s)
  unfolding step
  step-IsConsistent (submit details user now) s v =
      Queued-Consistent parts details user now _ s.site _ s.variable
        (create_submission-Queued parts.backend parts.encode parts.decode now details user s.site) v
  step-IsConsistent (upload_problem form now) s v =
      Untouched-Consistent parts s.site _ s.variable
        (create_after_read-Untouched parts.backend parts.archives form now s.site) v
  step-IsConsistent (remove_problem id) s v =
      Reduced-Consistent parts s.site _ s.variable (delete_problem-Reduced parts.backend id s.site)
        v
  step-IsConsistent (sign_up salt new_user connection now) s v = record {
    differ = v.differ;
    ahead = v.ahead;
    known = v.known;
    limited = v.limited;
    keyed = register-IsKeyed parts.passwords now salt new_user connection s.site.users v.keyed;
  }
  step-IsConsistent (change_account salt updates connection id) s v =
      elim (Option-cases (first (has_id id) s.site.users.rows)) [
        | inl e ↦ rw (e, step) v
        | inr (me, e) ↦
            rw (e, step)
              (record {
                differ = v.differ;
                ahead = v.ahead;
                known = v.known;
                limited = v.limited;
                keyed =
                    update_current_user-IsKeyed parts.passwords salt updates me connection
                      s.site.users v.keyed (found_again id me s.site.users e);
              })
      ]
  step-IsConsistent (delete_account id) s v =
      elim (Option-cases (first (has_id id) s.site.users.rows)) [
        | inl e ↦ rw (e, step) v
        | inr (me, e) ↦ rw (e, step) (remove_user-IsConsistent parts me s v)
      ]
  step-IsConsistent (work i now outage) s v =
      work-Consistent parts i now outage s
        (turn parts.services parts.config i now outage (s.variable i) (world parts s)) v
        (turn-TurnEffect parts.services parts.config i s.site.db.next_submission now outage
          (s.variable i) (world parts s) (v.limited i) v.known)
  step-IsConsistent (get_stuck i now) s v = elim (split_last-cases s.site.redis.jobs) [
    | inl (q, e) ↦ rw (e, step) v
    | inr (rest, id, q, e, _) ↦ rw (e, step) (begun-IsConsistent parts i now rest id s q v)
  ]
  step-IsConsistent (watch now alive) s v = record {
    keyed = v.keyed;
    differ = v.differ;
    ahead = v.ahead;
    limited = v.limited;
    known =
        let k =
          round-Kept s.site.db.next_submission parts.config
            (record { now = now; redis = s.site.redis; survives = alive }) s.orchestrator v.known in
        k.known v.known;
  }
  step-IsConsistent (refill warm) s v = record {
    keyed = v.keyed;
    differ = v.differ;
    ahead = v.ahead;
    limited = v.limited;
    known = record { queued = v.known.queued; held = v.known.held };
  }

  pub run-IsConsistent :
      (events : List (Event parts)) (s : System parts)
      → IsConsistent parts s
      → IsConsistent parts (run parts events s)
  unfolding run
  run-IsConsistent [] s v = v
  run-IsConsistent (e ∷ events) s v =
      run-IsConsistent events (step parts e s) (step-IsConsistent e s v)
