-- ===== src/Scheduler/Progress.antt =====
-- The end of a run is always handled: what the source guards by `expect` holds, and the count of
-- running agents does not pass below 0.
use fractalide.Prelude.{
  ℕ, zero, suc, ◌<◌, ◌≡◌, refl, sym, ap, subst, ◌∙◌, ◌⊎◌, Bool, true, false, some, List, [], ◌∷◌,
  arith, nat_eq, nat_beq_iff, Bool-cases, Option-cases, inl, inr,
}
use fractalide.Prelude.Map.{get, le-total}
use fractalide.Prelude.Int.{is_positive}
use fractalide.Result.{Error, Result, success, failure}
use fractalide.Scheduler.Messages.{CompMsg, Signal, EditCmp, Agent}
use fractalide.Scheduler.State.{
  CompState, SchedState, put, Handled, done, failed, halted, panicked, Edited, edited, edit_failed,
  edit_panicked, edit_one_comp, edit_all, after_edit,
}
use fractalide.Scheduler.Dispatch.{
  Thread, restart_or_halt, count_down, settle, after_edits, run_end, dispatch, after_round,
  round_on, round,
}
use fractalide.Scheduler.System.{is_end, count, Reach}
use fractalide.Scheduler.Invariant.{IsValid, run_weight}
use fractalide.Scheduler.Runs.{run-put}
use fractalide.Scheduler.Safety.{Reach-IsValid}

-- The edits that `edit_one_comp` implements.
abbrev pub IsImplemented : EditCmp → Type 0
IsImplemented (EditCmp.add_input_array_element port element recv) = Unit
IsImplemented (EditCmp.connect_output_port port his) = Unit
IsImplemented (EditCmp.connect_output_array_port port element his) = Unit
IsImplemented _ = ⊥

abbrev pub AllImplemented : List EditCmp → Type 0
AllImplemented [] = Unit
AllImplemented (m ∷ ms) = IsImplemented m × AllImplemented ms

module _ {A : Type 0} where
  -- The handler returns.
  abbrev Returns : Handled A → Type 0
  Returns panicked = ⊥
  Returns _ = Unit

  Returns-restart :
      (s : SchedState A) (id : ℕ) (c : CompState A) (b : A) (again : Bool)
      → c.comp ≡ some b
      → Returns (restart_or_halt (put s id c) id again)
  unfolding restart_or_halt
  Returns-restart s id c b true e = subst Returns (sym (run-put s id c b e)) tt
  Returns-restart s id c b false e = tt

  Returns-count_down :
      (s : SchedState A) (id : ℕ) (c : CompState A) (b : A) (r : ℕ)
      → c.comp ≡ some b
      → 0 < r
      → Returns (count_down s id c r)
  unfolding count_down
  Returns-count_down s id c b zero e h = absurd (omega arith)
  Returns-count_down s id c b (suc n) e h =
      Returns-restart (record s { running = n }) id (record c { is_run = false }) b
        (is_positive c.ips) e

  Returns-settle :
      (s : SchedState A) (id : ℕ) (c : CompState A) (b : A) (res : Result Signal)
      → c.comp ≡ some b
      → 0 < s.running
      → Returns (settle s id c res)
  unfolding settle
  Returns-settle s id c b (success Signal.end) e h = elim (Bool-cases c.is_run) [
    | inl marked ↦ simp marked (Returns-count_down s id c b s.running e h)
    | inr unmarked ↦ simp unmarked (Returns-restart s id c b (is_positive c.ips) e)
  ]
  Returns-settle s id c b (success Signal.continue) e h =
      Returns-restart s id c b (is_positive c.ips) e
  Returns-settle s id c b (failure x) e h =
      Returns-restart (record s { printed = _ }) id c b (is_positive c.ips) e

  abbrev NotPanicked : Edited A → Type 0
  NotPanicked edit_panicked = ⊥
  NotPanicked _ = Unit

  Edited-cases :
      (r : Edited A)
      → NotPanicked r
      → ((b : A) × (r ≡ edited b)) ⊎ ((e : Error) × (b : A) × (r ≡ edit_failed e b))
  Edited-cases (edited b) h = inl (b, refl)
  Edited-cases (edit_failed e b) h = inr (e, b, refl)
  Edited-cases edit_panicked h = absurd h

  Returns-after_edits :
      (s : SchedState A) (id : ℕ) (c : CompState A) (res : Result Signal) (r : Edited A)
      → NotPanicked r
      → 0 < s.running
      → Returns (after_edits s id c res r)
  unfolding after_edits
  Returns-after_edits s id c res (edited b) ok h = Returns-settle s id _ b res refl h
  Returns-after_edits s id c res (edit_failed e b) ok h = tt
  Returns-after_edits s id c res edit_panicked ok h = absurd ok

  Returns-after_round :
      (t : Thread A) (r : Handled A) → Returns r → (u : Thread A) × (after_round t r ≡ some u)
  unfolding after_round
  Returns-after_round t (done s) h = (_, refl)
  Returns-after_round t (failed e s) h = (_, refl)
  Returns-after_round t (halted s) h = (_, refl)
  Returns-after_round t panicked h = absurd h

  is_end_self : (id : ℕ) (b : A) (res : Result Signal) → is_end id (CompMsg.run_end id b res) ≡ 1
  is_end_self id b res = ground (arith, nat_beq_iff id id)

module _ {A : Type 0} ⦃ops : Agent A⦄ where
  after_edit-NotPanicked : (r : A × Result (Unit {0})) → NotPanicked (after_edit r)
  after_edit-NotPanicked (b, success u) = tt
  after_edit-NotPanicked (b, failure e) = tt

  edit_one_comp-NotPanicked :
      (b : A) (m : EditCmp) → IsImplemented m → NotPanicked (edit_one_comp b m)
  unfolding edit_one_comp
  edit_one_comp-NotPanicked b (EditCmp.add_input_array_element port element recv) i =
      after_edit-NotPanicked (ops.add_inarr_element b port element recv)
  edit_one_comp-NotPanicked b (EditCmp.connect_output_port port his) i =
      after_edit-NotPanicked (ops.connect b port his)
  edit_one_comp-NotPanicked b (EditCmp.connect_output_array_port port element his) i =
      after_edit-NotPanicked (ops.connect_array b port element his)
  edit_one_comp-NotPanicked b _ i = absurd i

  edit_all-NotPanicked :
      (b : A) (ms : List EditCmp) → AllImplemented ms → NotPanicked (edit_all b ms)
  unfolding edit_all
  edit_all-NotPanicked b [] i = tt
  edit_all-NotPanicked b (m ∷ ms) i =
      elim (Edited-cases (edit_one_comp b m) (edit_one_comp-NotPanicked b m i.0)) [
        | inl (b', e) ↦ rw (e, edit_all) (edit_all-NotPanicked b' ms i.1)
        | inr (x, b', e) ↦ rw (e, edit_all) tt
      ]

  pub round-next :
      (t : Thread A) (m : CompMsg A) (rest : List (CompMsg A))
      → t.is_stopped ≡ false
      → t.state.sched_sender ≡ m ∷ rest
      → round t ≡ after_round t (dispatch (record (t.state) { sched_sender = rest }) m)
  unfolding round round_on
  round-next t m rest going next = simp (going, next)

  Returns-run_end :
      (s : SchedState A) (id : ℕ) (b : A) (res : Result Signal) (rest : List (CompMsg A))
      → IsValid s
      → 0 < count (is_end id) s.sched_sender
      → ((c : CompState A) → get s.agents id ≡ some c → AllImplemented c.edit_msgs)
      → Returns (run_end (record s { sched_sender = rest }) id b res)
  unfolding run_end
  Returns-run_end s id b res rest v ends implemented =
      let at_id = v.sound id in
      elim (Option-cases (get s.agents id)) [
        | inl e ↦ absurd (ground (arith, at_id))
        | inr (c, e) ↦
            rw (e, run_end)
              (Returns-after_edits (record s { sched_sender = rest }) id c res
                (edit_all b c.edit_msgs) (edit_all-NotPanicked b c.edit_msgs (implemented c e))
                (ground (arith, at_id, v.counted, le-total run_weight s.agents id c e)))
      ]

  -- In a reachable state, where the next message is the end of a run and the edits that wait for the
  -- agent are of the kinds that are implemented, the round goes through: the agent has its entry,
  -- and the count of running agents can be lowered.
  pub run_end_is_handled :
      {t : Thread A} (id : ℕ) (b : A) (res : Result Signal) (rest : List (CompMsg A))
      → Reach t
      → t.is_stopped ≡ false
      → t.state.sched_sender ≡ CompMsg.run_end id b res ∷ rest
      → ((c : CompState A) → get t.state.agents id ≡ some c → AllImplemented c.edit_msgs)
      → (u : Thread A) × (round t ≡ some u)
  run_end_is_handled {t} id b res rest r going next implemented =
      let (u, e) =
        Returns-after_round t (run_end (record (t.state) { sched_sender = rest }) id b res)
          (Returns-run_end t.state id b res rest (Reach-IsValid r going) ended implemented) in
      (u, round-next t (CompMsg.run_end id b res) rest going next ∙ unfold dispatch in e)
    where
      ended : 0 < count (is_end id) t.state.sched_sender
      ended = omega (arith, ap (count (is_end id)) next, is_end_self id b res)
