-- ===== src/Scheduler/Whole/Rounds.antt =====
-- A round of the loop takes no number that its message does not bring.
use fractalide.Prelude.{
  ℕ, ◌+◌, ◌≤◌, ◌≡◌, refl, ap, subst, Bool, true, false, Option, none, some, List, [], ◌∷◌, some_inj,
  ◌++◌, String, arith, nat_eq, nat_beq_iff, if◌then◌else◌,
}
use fractalide.Prelude.Map.{get, get-insert}
use fractalide.Prelude.Int.{pos}
use fractalide.Result.{Result}
use fractalide.Scheduler.Messages.{Signal, CompMsg, EditCmp, Agent}
use fractalide.Scheduler.State.{
  CompState, SchedState, Handled, done, failed, halted, panicked, put, new_agent, edit_agent,
  edit_one_comp, after_one_edit, edit_all,
}
use fractalide.Scheduler.Dispatch.{
  after_edits, run_end, dispatch, Thread, round, round_on, after_round,
}
use fractalide.Scheduler.System.{is_new, is_remove, count}
use fractalide.Scheduler.Whole.Present.{
  uses, AtMost, put-AtMost, inc-AtMost, dec-AtMost, start-AtMost, halt-AtMost, after_edits-AtMost,
  after_one_edit-AtMost,
}

module _ {A : Type 0} (i : ℕ) where
  module _ ⦃ops : Agent A⦄ where
    edit_agent-AtMost :
        (s : SchedState A) (id : ℕ) (msg : EditCmp) → AtMost i (uses i s) (edit_agent s id msg)
    unfolding edit_agent
    edit_agent-AtMost s id msg = edited_at (get s.agents id) refl
      where
        edited_there :
            (c : CompState A)
            → get s.agents id ≡ some c
            → (o : Option A)
            → AtMost i (uses i s) (elim o as (λ _. Handled A) [
              | none ↦ done (put s id (record c { edit_msgs = c.edit_msgs ++ msg ∷ [] }))
              | some b ↦ after_one_edit s id c (edit_one_comp b msg)
            ])
        edited_there c e none =
            put-AtMost i s id c (record c { edit_msgs = c.edit_msgs ++ msg ∷ [] }) e
        edited_there c e (some b) = after_one_edit-AtMost i s id c (edit_one_comp b msg) e

        edited_at :
            (o : Option (CompState A))
            → get s.agents id ≡ o
            → AtMost i (uses i s) (elim o as (λ _. Handled A) [
              | none ↦ panicked
              | some c ↦ elim c.comp as (λ _. Handled A) [
                | none ↦ done (put s id (record c { edit_msgs = c.edit_msgs ++ msg ∷ [] }))
                | some b ↦ after_one_edit s id c (edit_one_comp b msg)
              ]
            ])
        edited_at none e = tt
        edited_at (some c) e = edited_there c e c.comp

    run_end-AtMost :
        (s : SchedState A) (id : ℕ) (b : A) (res : Result Signal)
        → AtMost i (uses i s) (run_end s id b res)
    unfolding run_end
    run_end-AtMost s id b res = ended (get s.agents id) refl
      where
        ended :
            (o : Option (CompState A))
            → get s.agents id ≡ o
            → AtMost i (uses i s) (elim o as (λ _. Handled A) [
              | none ↦ panicked
              | some c ↦ after_edits s id c res (edit_all b c.edit_msgs)
            ])
        ended none e = tt
        ended (some c) e = after_edits-AtMost i s id c res (edit_all b c.edit_msgs) e

    abbrev fresh_entry : String → A → CompState A
    fresh_entry name b = record {
      comp = some b;
      name = name;
      is_run = false;
      can_run = false;
      edit_msgs = [];
      ips = pos 0;
    }

    AtMost-more :
        (s : SchedState A) (h : Handled A) → AtMost i (uses i s) h → AtMost i (uses i s + 0) h
    AtMost-more s (done t) k = omega (arith, k)
    AtMost-more s (failed e t) k = omega (arith, k)
    AtMost-more s (halted t) k = omega (arith, k)
    AtMost-more s panicked k = tt

    -- A handler takes at most what its message brings.
    dispatch-AtMost :
        (s : SchedState A) (m : CompMsg A)
        → is_remove m ≡ 0
        → AtMost i (uses i s + is_new i m) (dispatch s m)
    unfolding dispatch new_agent
    dispatch-AtMost s (CompMsg.new_agent id name b) h =
        ground (arith, get-insert s.agents id (fresh_entry name b) i, nat_beq_iff id i)
    dispatch-AtMost s (CompMsg.start id) h = AtMost-more s _ (start-AtMost i s id)
    dispatch-AtMost s CompMsg.halt h = omega arith
    dispatch-AtMost s CompMsg.halt_state h = AtMost-more s _ (halt-AtMost i s)
    dispatch-AtMost s (CompMsg.run_end id b res) h = AtMost-more s _ (run_end-AtMost s id b res)
    dispatch-AtMost s (CompMsg.inc id) h = AtMost-more s _ (inc-AtMost i s id)
    dispatch-AtMost s (CompMsg.dec id) h = AtMost-more s _ (dec-AtMost i s id)
    dispatch-AtMost s (CompMsg.remove id sync) h = absurd (omega arith)
    dispatch-AtMost s (CompMsg.add_input_array_element id p e r) h =
        AtMost-more s _ (edit_agent-AtMost s id (EditCmp.add_input_array_element p e r))
    dispatch-AtMost s (CompMsg.remove_input_array_element id p e) h =
        AtMost-more s _ (edit_agent-AtMost s id (EditCmp.remove_input_array_element p e))
    dispatch-AtMost s (CompMsg.add_output_array_element id p e) h =
        AtMost-more s _ (edit_agent-AtMost s id (EditCmp.add_output_array_element p e))
    dispatch-AtMost s (CompMsg.connect_output_port id p k) h =
        AtMost-more s _ (edit_agent-AtMost s id (EditCmp.connect_output_port p k))
    dispatch-AtMost s (CompMsg.connect_output_array_port id p e k) h =
        AtMost-more s _ (edit_agent-AtMost s id (EditCmp.connect_output_array_port p e k))
    dispatch-AtMost s (CompMsg.set_receiver id p r) h =
        AtMost-more s _ (edit_agent-AtMost s id (EditCmp.set_receiver p r))
    dispatch-AtMost s (CompMsg.disconnect id p) h =
        AtMost-more s _ (edit_agent-AtMost s id (EditCmp.disconnect p))
    dispatch-AtMost s (CompMsg.disconnect_array id p e) h =
        AtMost-more s _ (edit_agent-AtMost s id (EditCmp.disconnect_array p e))

    -- So a round of the loop takes nothing new.
    pub round-uses :
        (t u : Thread A)
        → count is_remove t.state.sched_sender ≡ 0
        → round t ≡ some u
        → uses i u.state ≤ uses i t.state
    unfolding round round_on after_round
    round-uses t u none_removed h = looped t.is_stopped t.state.sched_sender refl h
      where
        rest_of : List (CompMsg A) → SchedState A
        rest_of rest = record (t.state) { sched_sender = rest }

        handled :
            (r : Handled A) (n : ℕ) → AtMost i n r → after_round t r ≡ some u → uses i u.state ≤ n
        handled (done s) n k e = subst (λ x. uses i (Thread.state x) ≤ n) (some_inj e) k
        handled (failed x s) n k e = subst (λ x. uses i (Thread.state x) ≤ n) (some_inj e) k
        handled (halted s) n k e = subst (λ x. uses i (Thread.state x) ≤ n) (some_inj e) k
        handled panicked n k e = absurd (cc)

        looped :
            (b : Bool) (q : List (CompMsg A))
            → t.state.sched_sender ≡ q
            → (if b then none else round_on t q) ≡ some u
            → uses i u.state ≤ uses i t.state
        looped true q e r = absurd (cc)
        looped false [] e r = absurd (cc)
        looped false (m ∷ rest) e r = omega (
          arith,
          handled (dispatch (rest_of rest) m) (uses i (rest_of rest) + is_new i m)
              (dispatch-AtMost (rest_of rest) m
                (omega (arith, none_removed, ap (count is_remove) e)))
              r,
          ap (count (is_new i)) e,
        )
