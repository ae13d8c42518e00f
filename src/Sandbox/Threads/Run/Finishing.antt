-- ===== src/Sandbox/Threads/Run/Finishing.antt =====
-- That `run` of judge/sandbox_manager/main.py ends once it is stopped, under any schedule.
use byte_battles.Base.{ℕ, ◌+◌, ◌≤◌, ◌≡◌, ◌≢◌, Bool, true, false, Option, none, some, List, [], ◌∷◌}
use byte_battles.Base.Text.{Text}
use mathlib.Core.Option
use byte_battles.Sandbox.Threads.{Creator, Action, go_on, break_down}
use byte_battles.Sandbox.Threads.Run.{
  RunPhase, Run, Event, joining, cleaning, popping, broken_off, advance, other_thread,
}
use byte_battles.Sandbox.Threads.Run.Effort.{effort, cost}

abbrev pub in_finally : RunPhase → Bool
in_finally joining = true
in_finally (cleaning ls) = true
in_finally (popping l ls) = true
in_finally broken_off = true
in_finally _ = false

abbrev cost_of : Event → ℕ
cost_of (other_thread a) = cost a
cost_of _ = 1

-- What is left of the effort, in the `finally` still.
abbrev Lessened : ℕ → Run → Run → Type 0
Lessened n r t =
    (effort t.phase t.manager + n ≤ effort r.phase r.manager) × (in_finally t.phase ≡ true)

-- How many of the events happen, leases left out.
unfoldable pub happened : List Event → Run → ℕ
happened [] r = 0
happened (e ∷ events) r = elim (advance e r) [
  | none ↦ happened events r
  | some t ↦ cost_of e + happened events t
]

-- What a creator that has not exited may do.
abbrev turn_of : ℕ → Creator → Action
turn_of i (Creator.creating l) = break_down i
turn_of i _ = go_on i

-- The main thread or a creator can go on.
abbrev pub CanGoOn : Run → Type 0
CanGoOn r = (e : Event) × (cost_of e ≡ 1) × (advance e r ≢ none)
