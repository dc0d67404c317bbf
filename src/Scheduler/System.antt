-- ===== src/Scheduler/System.antt =====
-- The scheduler's thread, its thread pool and the senders outside, interleaved in any order.
use fractalide.Prelude.{
  ℕ, ◌≡◌, none, some, List, [], ◌∷◌, ◌++◌, ◌+◌, ◌==◌, nat_eq, false, if◌then◌else◌,
}
use fractalide.Prelude.Map.{get}
use fractalide.Result.{Result}
use fractalide.Scheduler.Messages.{Signal, CompMsg, Agent}
use fractalide.Scheduler.State
use fractalide.Scheduler.State.{SchedState, send}
use fractalide.Scheduler.Dispatch.{Thread, round}

module _ {A : Type 0} where
  -- How many runs of agent `id` are in the pool, how many of their ends, how many new agents of that
  -- name and how many `Halt` are in the channel.
  abbrev pub jobs : ℕ → List (ℕ × A) → ℕ
  jobs id [] = 0
  jobs id ((j, b) ∷ l) = (if j == id then 1 else 0) + jobs id l

  abbrev pub is_end : ℕ → CompMsg A → ℕ
  is_end id (CompMsg.run_end j b res) = if j == id then 1 else 0
  is_end id _ = 0

  abbrev pub is_new : ℕ → CompMsg A → ℕ
  is_new id (CompMsg.new_agent j name b) = if j == id then 1 else 0
  is_new id _ = 0

  abbrev pub is_halt : CompMsg A → ℕ
  is_halt CompMsg.halt = 1
  is_halt _ = 0

  abbrev pub is_remove : CompMsg A → ℕ
  is_remove (CompMsg.remove id sync) = 1
  is_remove _ = 0

  abbrev pub count : (CompMsg A → ℕ) → List (CompMsg A) → ℕ
  count f [] = 0
  count f (m ∷ l) = f m + count f l

  -- What comes from the exterior scheduler and from the ports. A new agent has a new number;
  -- `remove_agent` is not implemented, so that `Remove` is not sent.
  abbrev pub FromOutside : SchedState A → CompMsg A → Type 0
  FromOutside s (CompMsg.new_agent id name b) =
      (get s.agents id ≡ none) × (count (is_new id) s.sched_sender ≡ 0)
  FromOutside s (CompMsg.run_end id b res) = ⊥
  FromOutside s CompMsg.halt = ⊥
  FromOutside s (CompMsg.remove id sync) = ⊥
  FromOutside s _ = Unit

  -- A run in the pool has ended, with the agent as it is then and with any result.
  abbrev pub end_job : SchedState A → List (ℕ × A) → ℕ → A → Result Signal → SchedState A
  end_job s left id b res = record s {
    pool = left;
    sched_sender = s.sched_sender ++ CompMsg.run_end id b res ∷ [];
  }

-- A round of the loop; the end of a run, wherever it stands in the pool; a run that panics, which the
-- pool swallows; a message from outside.
pub data Step {A : Type 0} ⦃ops : Agent A⦄ (t : Thread A) : Thread A → Type 0 where
  loop : {u : Thread A} → round t ≡ some u → Step t u
  finish :
      (before after : List (ℕ × A)) (id : ℕ) (b b' : A) (res : Result Signal)
      → t.state.pool ≡ before ++ (id, b) ∷ after
      → Step t (record t { state = end_job t.state (before ++ after) id b' res })
  crash :
      (before after : List (ℕ × A)) (id : ℕ) (b : A)
      → t.state.pool ≡ before ++ (id, b) ∷ after
      → Step t (record t { state = record (t.state) { pool = before ++ after } })
  post : (m : CompMsg A) → FromOutside t.state m → Step t (record t { state = send t.state m })

abbrev pub start : {A : Type 0} → Thread A
start = record { state = State.new; errors = []; is_stopped = false }

pub data Reach {A : Type 0} ⦃ops : Agent A⦄ : Thread A → Type 0 where
  here : Reach start
  next : {t u : Thread A} → Reach t → Step t u → Reach u
