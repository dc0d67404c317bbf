-- ===== src/Scheduler/Keeps/Dispatched.antt =====
-- Each message of the channel keeps what holds between the steps.
use fractalide.Prelude.{
  ℕ, ◌≡◌, refl, sym, ap, none, [], ◌∷◌, ◌++◌, arith, nat_eq, nat_beq_iff, String, Option-cases, inl,
  inr,
}
use fractalide.Prelude.Map.{get}
use fractalide.Result.{Result}
use fractalide.Scheduler.Messages.{CompMsg, Signal, EditCmp, Agent}
use fractalide.Scheduler.State.{SchedState, is_some, new_agent, edit_agent, edit_one_comp, edit_all}
use fractalide.Scheduler.Dispatch.{run_end, dispatch}
use fractalide.Scheduler.System.{is_halt}
use fractalide.Scheduler.Invariant.{IsValid}
use fractalide.Scheduler.Runs.{Keeps, put-IsValid, halt-Keeps}
use fractalide.Scheduler.Keeps.{
  pop-IsValid, IsSettled-at, inc-Keeps, start-Keeps, dec-Keeps, new_agent-Keeps,
  after_one_edit-Keeps, after_edits-Keeps,
}

module _ {A : Type 0} ⦃ops : Agent A⦄ where
  edit_agent-Keeps :
      (s : SchedState A) (id : ℕ) (msg : EditCmp) → IsValid s → Keeps (edit_agent s id msg)
  unfolding edit_agent
  edit_agent-Keeps s id msg v = elim (Option-cases (get s.agents id)) [
    | inl e ↦ rw (e, edit_agent) tt
    | inr (c, e) ↦
        rw (e, edit_agent)
          (elim (Option-cases c.comp) [
            | inl away ↦ simp away (
                put-IsValid s id c (record c { comp = none; edit_msgs = c.edit_msgs ++ msg ∷ [] }) v
                  e (sym (ap is_some away)) refl
                  (λ h. absurd (cc), λ h. (IsSettled-at s id c v e).1 (ap is_some away)))
            | inr (b, there) ↦
                simp there
                  (after_one_edit-Keeps s id c (edit_one_comp b msg) v e (ap is_some there))
          ])
  ]

  -- The agent is not there while its end is in the channel.
  run_end-Keeps :
      (s : SchedState A) (id : ℕ) (b : A) (res : Result Signal)
      → IsValid (record s { sched_sender = CompMsg.run_end id b res ∷ s.sched_sender })
      → Keeps (run_end s id b res)
  unfolding run_end
  run_end-Keeps s id b res v = elim (Option-cases (get s.agents id)) [
    | inl e ↦ rw (e, run_end) tt
    | inr (c, e) ↦
        let at_id = v.sound id in
        rw (e, run_end)
          (after_edits-Keeps s id c res (edit_all b c.edit_msgs)
            (pop-IsValid s (CompMsg.run_end id b res) refl v) e
            (ground (arith, at_id, nat_beq_iff id id)) (ground (arith, at_id, nat_beq_iff id id)))
  ]

  new_agent-dispatched :
      (s : SchedState A) (id : ℕ) (name : String) (b : A)
      → IsValid (record s { sched_sender = CompMsg.new_agent id name b ∷ s.sched_sender })
      → Keeps (new_agent s id name b)
  new_agent-dispatched s id name b v =
      let at_id = v.sound id in
      new_agent-Keeps s id name b (pop-IsValid s (CompMsg.new_agent id name b) refl v)
        (ground (arith, at_id, nat_beq_iff id id)) (ground (arith, at_id, nat_beq_iff id id))

  -- Every message but `Halt` keeps the invariant, through success and failure.
  pub dispatch-Keeps :
      (s : SchedState A) (m : CompMsg A)
      → is_halt m ≡ 0
      → IsValid (record s { sched_sender = m ∷ s.sched_sender })
      → Keeps (dispatch s m)
  unfolding dispatch
  dispatch-Keeps s (CompMsg.new_agent id name b) served v = new_agent-dispatched s id name b v
  dispatch-Keeps s CompMsg.halt served v = absurd (omega arith)
  dispatch-Keeps s (CompMsg.remove id sync) served v = absurd (omega (arith, v.no_remove))
  dispatch-Keeps s CompMsg.halt_state served v =
      halt-Keeps s (pop-IsValid s CompMsg.halt_state refl v)
  dispatch-Keeps s (CompMsg.start id) served v =
      start-Keeps s id (pop-IsValid s (CompMsg.start id) refl v)
  dispatch-Keeps s (CompMsg.run_end id b res) served v = run_end-Keeps s id b res v
  dispatch-Keeps s (CompMsg.inc id) served v =
      inc-Keeps s id (pop-IsValid s (CompMsg.inc id) refl v)
  dispatch-Keeps s (CompMsg.dec id) served v =
      dec-Keeps s id (pop-IsValid s (CompMsg.dec id) refl v)
  dispatch-Keeps s (CompMsg.connect_output_port id p x) served v =
      edit_agent-Keeps s id _ (pop-IsValid s (CompMsg.connect_output_port id p x) refl v)
  dispatch-Keeps s (CompMsg.connect_output_array_port id p e x) served v =
      edit_agent-Keeps s id _ (pop-IsValid s (CompMsg.connect_output_array_port id p e x) refl v)
  dispatch-Keeps s (CompMsg.disconnect id p) served v =
      edit_agent-Keeps s id _ (pop-IsValid s (CompMsg.disconnect id p) refl v)
  dispatch-Keeps s (CompMsg.disconnect_array id p e) served v =
      edit_agent-Keeps s id _ (pop-IsValid s (CompMsg.disconnect_array id p e) refl v)
  dispatch-Keeps s (CompMsg.add_input_array_element id p e x) served v =
      edit_agent-Keeps s id _ (pop-IsValid s (CompMsg.add_input_array_element id p e x) refl v)
  dispatch-Keeps s (CompMsg.remove_input_array_element id p e) served v =
      edit_agent-Keeps s id _ (pop-IsValid s (CompMsg.remove_input_array_element id p e) refl v)
  dispatch-Keeps s (CompMsg.add_output_array_element id p e) served v =
      edit_agent-Keeps s id _ (pop-IsValid s (CompMsg.add_output_array_element id p e) refl v)
  dispatch-Keeps s (CompMsg.set_receiver id p x) served v =
      edit_agent-Keeps s id _ (pop-IsValid s (CompMsg.set_receiver id p x) refl v)
