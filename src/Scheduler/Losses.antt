-- ===== src/Scheduler/Losses.antt =====
-- Where the scheduler loses an agent, or its count of running agents.
use fractalide.Prelude.{
  ℕ, ◌+◌, ◌≡◌, refl, ap, ◌∙◌, true, false, some, List, [], ◌∷◌, ◌++◌, arith, nat_eq, nat_beq_iff,
}
use fractalide.Prelude.Map.{get, erase, total, total-erase, get-insert_self}
use fractalide.Result.{Error, Result}
use fractalide.Scheduler.Messages.{CompMsg, Signal, SyncSender, removed, Agent}
use fractalide.Scheduler.State.{
  CompState, SchedState, is_some, put, done, failed, edit_failed, remove, edit_all,
}
use fractalide.Scheduler.Dispatch.{Thread, after_edits, run_end, dispatch, after_round, round}
use fractalide.Scheduler.System.{jobs, is_end, count, Reach}
use fractalide.Scheduler.Invariant.{IsValid, run_weight}
use fractalide.Scheduler.Safety.{Reach-IsValid}
use fractalide.Scheduler.Progress.{round-next}

-- The entry of an agent that is nowhere: not in the entry, not in the pool, not on its way back.
pub record IsLost {A : Type 0} (t : Thread A) (id : ℕ) (c : CompState A) : Type 0 where
  pub entry : get t.state.agents id ≡ some c
  pub not_here : is_some c.comp ≡ false
  pub nowhere : jobs id t.state.pool + count (is_end id) t.state.sched_sender ≡ 0
  pub still_marked : c.is_run ≡ true

module _ {A : Type 0} ⦃ops : Agent A⦄ where
  run_end-failed :
      (s : SchedState A) (id : ℕ) (b : A) (res : Result Signal) (c : CompState A) (x : Error)
      (b' : A)
      → get s.agents id ≡ some c
      → edit_all b c.edit_msgs ≡ edit_failed x b'
      → run_end s id b res ≡ failed x (put s id (record c { edit_msgs = [] }))
  unfolding run_end
  run_end-failed s id b res c x b' found bad = rw (found, run_end) (rw (bad, after_edits) refl)

  -- Where an edit that waits for an agent fails at the end of its run, the agent is lost. The round
  -- ends with the error and goes on; the agent's entry stays, without the agent and without the
  -- other edits that waited; the agent is in no other place, and is counted as running as before.
  pub failed_edit_loses_agent :
      {t : Thread A} (id : ℕ) (b : A) (res : Result Signal) (rest : List (CompMsg A))
      (c : CompState A) (x : Error) (b' : A)
      → Reach t
      → t.is_stopped ≡ false
      → t.state.sched_sender ≡ CompMsg.run_end id b res ∷ rest
      → get t.state.agents id ≡ some c
      → edit_all b c.edit_msgs ≡ edit_failed x b'
      → (u : Thread A) × (round t ≡ some u)
        × IsLost u id (record c { edit_msgs = [] })
        × (u.errors ≡ t.errors ++ x ∷ [])
        × (u.state.running ≡ t.state.running)
  failed_edit_loses_agent {t} id b res rest c x b' r going next found bad =
      (u, went, lost, refl, refl)
    where
      s : SchedState A
      s = record (t.state) { sched_sender = rest }

      c' : CompState A
      c' = record c { edit_msgs = [] }

      u : Thread A
      u = record t { state = put s id c'; errors = t.errors ++ x ∷ [] }

      went : round t ≡ some u
      went =
          round-next t (CompMsg.run_end id b res) rest going next
          ∙ unfold dispatch after_round in
            ap (after_round t) (run_end-failed s id b res c x b' found bad)

      lost : IsLost u id c'
      lost =
          let at_id = (Reach-IsValid r going).sound id in
          let ends = ap (count (is_end id)) next in
          record {
            entry = get-insert_self t.state.agents id c';
            not_here = ground (arith, at_id, ends, nat_beq_iff id id);
            nowhere = ground (arith, at_id, ends, nat_beq_iff id id);
            still_marked = ground (arith, at_id, ends, nat_beq_iff id id);
          }

-- An agent that is at rest but marked as running, as after the signal `Continue`, is removed from a
-- valid state without being taken off the count: the count is then one more than the agents that are
-- marked.
pub remove_overcounts :
    {A : Type 0} (s : SchedState A) (id : ℕ) (sync : SyncSender) (c : CompState A) (b : A)
    → IsValid s
    → get s.agents id ≡ some c
    → c.comp ≡ some b
    → c.is_run ≡ true
    → sync.is_open ≡ true
    → (t : SchedState A) × (remove s id sync ≡ done t) × (t.running ≡ total run_weight t.agents + 1)
unfolding remove
remove_overcounts s id sync c b v found there marked waiting = (
  record s { agents = erase s.agents id; replies = s.replies ++ (sync.chan, removed b) ∷ [] },
  rw (found, remove) (simp (waiting, there)),
  ground (arith, v.counted, total-erase run_weight s.agents id c found),
)
