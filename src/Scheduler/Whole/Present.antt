-- ===== src/Scheduler/Whole/Present.antt =====
-- Which agents the thread knows or is about to know: this grows only by a new agent's message.
use fractalide.Prelude.{
  ℕ, zero, suc, ◌+◌, ◌≤◌, ◌≡◌, ap, subst, Option-cases, inl, inr, Bool, true, false, none, some, [],
  ◌∷◌, arith, nat_eq, nat_beq_iff, if◌then◌else◌,
}
use fractalide.Prelude.Map.{get, insert, get-insert}
use fractalide.Prelude.Int.{incr, decr, is_positive}
use fractalide.Result.{Result, success, failure}
use fractalide.Scheduler.Messages.{Signal, CompMsg}
use fractalide.Scheduler.State.{
  CompState, SchedState, Handled, done, failed, halted, panicked, Edited, edited, edit_failed,
  edit_panicked, put, run, launch, inc, dec, start, halt, after_one_edit,
}
use fractalide.Scheduler.Dispatch.{restart_or_halt, count_down, settle, after_edits}
use fractalide.Scheduler.System.{is_new, count}
use fractalide.Scheduler.Invariant.{present, count-append}

module _ {A : Type 0} (i : ℕ) where
  -- How often number `i` is in use or asked for: an agent, and messages for a new one.
  abbrev pub uses : SchedState A → ℕ
  uses s = present (get s.agents i) + count (is_new i) s.sched_sender

  abbrev pub AtMost : ℕ → Handled A → Type 0
  AtMost n (done s) = uses s ≤ n
  AtMost n (failed e s) = uses s ≤ n
  AtMost n (halted s) = uses s ≤ n
  AtMost n panicked = Unit

  present-put :
      (s : SchedState A) (id : ℕ) (c c' : CompState A)
      → get s.agents id ≡ some c
      → present (get (insert s.agents id c') i) ≡ present (get s.agents i)
  present-put s id c c' h = ground (arith, get-insert s.agents id c' i, nat_beq_iff id i)

  launch-uses :
      (s : SchedState A) (id : ℕ) (c c' : CompState A) (b : A)
      → get s.agents id ≡ some c
      → uses (launch s id c' b) ≡ uses s
  unfolding launch
  launch-uses s id c c' b h =
      omega (arith, present-put s id c (record c' { comp = none; is_run = true }) h)

  -- The entry of an agent that goes to the pool.
  abbrev away_entry : CompState A → CompState A
  away_entry c = record c { comp = none; is_run = true }

  run-AtMost : (s : SchedState A) (id : ℕ) → AtMost (uses s) (run s id)
  unfolding run launch
  run-AtMost s id = elim (Option-cases (get s.agents id)) [
    | inl e ↦ ground arith
    | inr (c, e) ↦ ground (arith, present-put s id c (away_entry c) e)
  ]

  -- After an entry has been written for an agent that is there.
  put-run-AtMost :
      (s : SchedState A) (id : ℕ) (c c' : CompState A)
      → get s.agents id ≡ some c
      → AtMost (uses s) (run (put s id c') id)
  put-run-AtMost s id c c' e =
      subst (λ n. AtMost n (run (put s id c') id))
        (ap (λ n. n + count (is_new i) s.sched_sender) (present-put s id c c' e))
        (run-AtMost (put s id c') id)

  pub put-AtMost :
      (s : SchedState A) (id : ℕ) (c c' : CompState A)
      → get s.agents id ≡ some c
      → uses (put s id c') ≤ uses s
  put-AtMost s id c c' e = omega (arith, present-put s id c c' e)

  pub inc-AtMost : (s : SchedState A) (id : ℕ) → AtMost (uses s) (inc s id)
  unfolding inc
  inc-AtMost s id = elim (Option-cases (get s.agents id)) [
    | inl e ↦ ground arith
    | inr (c, e) ↦
        let c' : CompState A = record c { ips = incr c.ips } in
        ground (arith, put-run-AtMost s id c c' e, put-AtMost s id c c' e)
  ]

  pub dec-AtMost : (s : SchedState A) (id : ℕ) → AtMost (uses s) (dec s id)
  unfolding dec
  dec-AtMost s id = elim (Option-cases (get s.agents id)) [
    | inl e ↦ ground arith
    | inr (c, e) ↦ ground (arith, put-AtMost s id c (record c { ips = decr c.ips }) e)
  ]

  pub start-AtMost : (s : SchedState A) (id : ℕ) → AtMost (uses s) (start s id)
  unfolding start
  start-AtMost s id = elim (Option-cases (get s.agents id)) [
    | inl e ↦ ground arith
    | inr (c, e) ↦
        let c' : CompState A = record c { can_run = true } in
        ground (arith, put-run-AtMost s id c c' e, put-AtMost s id c c' e)
  ]

  pub halt-AtMost : (s : SchedState A) → AtMost (uses s) (halt s)
  unfolding halt
  halt-AtMost s = ground (arith, count-append (is_new i) s.sched_sender (CompMsg.halt ∷ []))

  restart-AtMost : (s : SchedState A) (id : ℕ) (b : Bool) → AtMost (uses s) (restart_or_halt s id b)
  unfolding restart_or_halt
  restart-AtMost s id true = run-AtMost s id
  restart-AtMost s id false =
      ground (arith, count-append (is_new i) s.sched_sender (CompMsg.halt ∷ []))

  -- The same after an entry has been written.
  put-restart-AtMost :
      (s : SchedState A) (id : ℕ) (c c' : CompState A) (b : Bool)
      → get s.agents id ≡ some c
      → AtMost (uses s) (restart_or_halt (put s id c') id b)
  put-restart-AtMost s id c c' b e =
      subst (λ n. AtMost n (restart_or_halt (put s id c') id b))
        (ap (λ n. n + count (is_new i) s.sched_sender) (present-put s id c c' e))
        (restart-AtMost (put s id c') id b)

  count_down-AtMost :
      (s : SchedState A) (id : ℕ) (c c' : CompState A) (n : ℕ)
      → get s.agents id ≡ some c
      → AtMost (uses s) (count_down s id c' n)
  unfolding count_down
  count_down-AtMost s id c c' zero e = tt
  count_down-AtMost s id c c' (suc n) e =
      put-restart-AtMost (record s { running = n }) id c (record c' { is_run = false })
        (is_positive c'.ips) e

  settle-AtMost :
      (s : SchedState A) (id : ℕ) (c c' : CompState A) (res : Result Signal)
      → get s.agents id ≡ some c
      → AtMost (uses s) (settle s id c' res)
  unfolding settle
  settle-AtMost s id c c' (success Signal.end) e = at_end c'.is_run
    where
      at_end :
          (b : Bool)
          → AtMost (uses s) (
              if b
              then count_down s id c' s.running
              else restart_or_halt (put s id c') id (is_positive c'.ips))
      at_end true = count_down-AtMost s id c c' s.running e
      at_end false = put-restart-AtMost s id c c' (is_positive c'.ips) e
  settle-AtMost s id c c' (success Signal.continue) e =
      put-restart-AtMost s id c c' (is_positive c'.ips) e
  settle-AtMost s id c c' (failure x) e =
      put-restart-AtMost (record s { printed = _ }) id c c' (is_positive c'.ips) e

  pub after_edits-AtMost :
      (s : SchedState A) (id : ℕ) (c : CompState A) (res : Result Signal) (r : Edited A)
      → get s.agents id ≡ some c
      → AtMost (uses s) (after_edits s id c res r)
  unfolding after_edits
  after_edits-AtMost s id c res (edited b) e =
      settle-AtMost s id c (record c { comp = some b; edit_msgs = [] }) res e
  after_edits-AtMost s id c res (edit_failed x b) e =
      put-AtMost s id c (record c { edit_msgs = [] }) e
  after_edits-AtMost s id c res edit_panicked e = tt

  pub after_one_edit-AtMost :
      (s : SchedState A) (id : ℕ) (c : CompState A) (r : Edited A)
      → get s.agents id ≡ some c
      → AtMost (uses s) (after_one_edit s id c r)
  unfolding after_one_edit
  after_one_edit-AtMost s id c (edited b) e = put-AtMost s id c (record c { comp = some b }) e
  after_one_edit-AtMost s id c (edit_failed x b) e =
      put-AtMost s id c (record c { comp = some b }) e
  after_one_edit-AtMost s id c edit_panicked e = tt
