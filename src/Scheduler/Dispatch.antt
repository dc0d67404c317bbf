-- ===== src/Scheduler/Dispatch.antt =====
-- The end of an agent's run, and the loop of the scheduler's thread (`Scheduler::new`).
use fractalide.Prelude.{
  ℕ, zero, suc, Bool, true, false, Option, none, some, List, [], ◌∷◌, ◌++◌, nat_eq, if◌then◌else◌,
  format,
}
use fractalide.Prelude.Map.{get}
use fractalide.Prelude.Int.{is_positive}
use fractalide.Result.{Error, Result, success, failure, display}
use fractalide.Scheduler.Messages.{Signal, CompMsg, EditCmp, Agent}
use fractalide.Scheduler.State
use fractalide.Scheduler.State.{
  CompState, SchedState, Handled, done, failed, halted, panicked, Edited, edited, edit_failed,
  edit_panicked, put, send, run, edit_agent, edit_all,
}

module _ {A : Type 0} where
  -- The agent has come back: run it again, or halt if this was awaited.
  unfoldable pub restart_or_halt : SchedState A → ℕ → Bool → Handled A
  restart_or_halt s id must_restart =
      if must_restart
      then run s id
      else done
          (elim s.running [ zero ↦ if s.can_halt then send s CompMsg.halt else s | suc n ↦ s ])

  -- `running -= 1` and `is_run = false`. The count stops at 0 with a panic.
  unfoldable pub count_down : SchedState A → ℕ → CompState A → ℕ → Handled A
  unfolding restart_or_halt
  count_down s id c zero = panicked
  count_down s id c (suc n) =
      restart_or_halt (put (record s { running = n }) id (record c { is_run = false })) id
        (is_positive c.ips)

  -- A signal `End` takes the agent off the count.
  unfoldable pub settle : SchedState A → ℕ → CompState A → Result Signal → Handled A
  unfolding count_down
  settle s id c (success Signal.end) =
      if c.is_run
      then count_down s id c s.running
      else restart_or_halt (put s id c) id (is_positive c.ips)
  settle s id c (success Signal.continue) = restart_or_halt (put s id c) id (is_positive c.ips)
  settle s id c (failure e) =
      restart_or_halt
        (record (put s id c) {
          printed = s.printed ++ format (c.name ∷ " fails : " ∷ display e ∷ []) ∷ [];
        })
        id (is_positive c.ips)

  -- Where an edit fails, the drained edits and the agent are gone.
  unfoldable pub after_edits : SchedState A → ℕ → CompState A → Result Signal → Edited A → Handled A
  unfolding settle
  after_edits s id c res (edited b) = settle s id (record c { comp = some b; edit_msgs = [] }) res
  after_edits s id c res (edit_failed e b) = failed e (put s id (record c { edit_msgs = [] }))
  after_edits s id c res edit_panicked = panicked

module _ {A : Type 0} ⦃ops : Agent A⦄ where
  unfoldable pub run_end : SchedState A → ℕ → A → Result Signal → Handled A
  unfolding after_edits
  run_end s id box_comp res = elim (get s.agents id) [
    | none ↦ panicked
    | some c ↦ after_edits s id c res (edit_all box_comp c.edit_msgs)
  ]

  -- The `match` of the loop.
  unfoldable pub dispatch : SchedState A → CompMsg A → Handled A
  unfolding run_end
  dispatch s (CompMsg.new_agent id name comp) = State.new_agent s id name comp
  dispatch s (CompMsg.start id) = State.start s id
  dispatch s CompMsg.halt = halted s
  dispatch s CompMsg.halt_state = State.halt s
  dispatch s (CompMsg.run_end id b res) = run_end s id b res
  dispatch s (CompMsg.add_input_array_element id port element recv) =
      edit_agent s id (EditCmp.add_input_array_element port element recv)
  dispatch s (CompMsg.remove_input_array_element id port element) =
      edit_agent s id (EditCmp.remove_input_array_element port element)
  dispatch s (CompMsg.add_output_array_element id port element) =
      edit_agent s id (EditCmp.add_output_array_element port element)
  dispatch s (CompMsg.connect_output_port id port sender) =
      edit_agent s id (EditCmp.connect_output_port port sender)
  dispatch s (CompMsg.connect_output_array_port id port element sender) =
      edit_agent s id (EditCmp.connect_output_array_port port element sender)
  dispatch s (CompMsg.set_receiver id port recv) = edit_agent s id (EditCmp.set_receiver port recv)
  dispatch s (CompMsg.disconnect id port) = edit_agent s id (EditCmp.disconnect port)
  dispatch s (CompMsg.disconnect_array id port element) =
      edit_agent s id (EditCmp.disconnect_array port element)
  dispatch s (CompMsg.inc id) = State.inc s id
  dispatch s (CompMsg.dec id) = State.dec s id
  dispatch s (CompMsg.remove id sync) = State.remove s id sync

-- The scheduler, and the errors that its thread has sent on `error_s`.
pub record Thread (A : Type 0) : Type 0 where
  pub state : SchedState A
  pub errors : List Error
  pub is_stopped : Bool

-- `res.map_err(…)`: an error is sent, and the loop goes on.
unfoldable pub after_round : {A : Type 0} → Thread A → Handled A → Option (Thread A)
after_round t (done s) = some (record t { state = s })
after_round t (failed e s) = some (record t { state = s; errors = t.errors ++ e ∷ [] })
after_round t (halted s) = some (record t { state = s; is_stopped = true })
after_round t panicked = none

module _ {A : Type 0} ⦃ops : Agent A⦄ where
  unfoldable pub round_on : Thread A → List (CompMsg A) → Option (Thread A)
  unfolding after_round
  round_on t [] = none
  round_on t (m ∷ rest) = after_round t (dispatch (record (t.state) { sched_sender = rest }) m)

  -- One round of the loop; `none` where the thread panics, waits or has ended.
  unfoldable pub round : Thread A → Option (Thread A)
  unfolding round_on
  round t = if t.is_stopped then none else round_on t t.state.sched_sender
