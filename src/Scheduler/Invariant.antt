-- ===== src/Scheduler/Invariant.antt =====
-- What holds of the scheduler between any two steps.
use fractalide.Prelude.{
  ℕ, ◌+◌, ◌≤◌, ◌<◌, ◌≡◌, true, false, Option, none, some, List, [], ◌∷◌, ◌++◌, arith, nat_eq,
  if◌then◌else◌,
}
use fractalide.Prelude.Map.{get, total, IsUnique}
use fractalide.Prelude.Int.{is_positive}
use fractalide.Scheduler.Messages.{CompMsg}
use fractalide.Scheduler.State.{CompState, SchedState, is_some}
use fractalide.Scheduler.System.{jobs, is_end, is_new, is_halt, is_remove, count}

module _ {A : Type 0} where
  abbrev pub run_weight : CompState A → ℕ
  run_weight c = if c.is_run then 1 else 0

  -- 1 where the agent is away: in the pool, or on its way back.
  abbrev pub away : Option (CompState A) → ℕ
  away none = 0
  away (some c) = if is_some c.comp then 0 else 1

  abbrev pub present : Option (CompState A) → ℕ
  present none = 0
  present (some c) = 1

  -- An agent that is there has no message to read; one that is away is counted as running.
  abbrev pub IsSettled : Option (CompState A) → Type 0
  IsSettled none = Unit
  IsSettled (some c) =
      (is_some c.comp ≡ true → is_positive c.ips ≡ false)
      × (is_some c.comp ≡ false → c.is_run ≡ true)

  -- What holds of one number.
  pub record IsSound (o : Option (CompState A)) (in_pool ends news : ℕ) : Type 0 where
    pub owned : in_pool + ends ≤ away o
    pub fresh : news + present o ≤ 1
    pub settled : IsSettled o

  abbrev pub SoundAt : SchedState A → ℕ → Type 0
  SoundAt s id =
      IsSound (get s.agents id) (jobs id s.pool) (count (is_end id) s.sched_sender)
        (count (is_new id) s.sched_sender)

  -- No removal is asked for, no number has two agents, `running` counts the agents that are marked, and every number is sound.
  pub record IsSteady (s : SchedState A) : Type 0 where
    pub no_remove : count is_remove s.sched_sender ≡ 0
    pub unique : IsUnique s.agents
    pub counted : s.running ≡ total run_weight s.agents
    pub sound : (id : ℕ) → SoundAt s id

  -- Where a halt is awaited and nothing runs, `Halt` is in the channel.
  pub record IsValid (s : SchedState A) : Type 0 where
    pub steady : IsSteady s
    pub open steady use *
    pub halting : s.can_halt ≡ true → s.running ≡ 0 → 0 < count is_halt s.sched_sender

  pub jobs-append : (id : ℕ) (l k : List (ℕ × A)) → jobs id (l ++ k) ≡ jobs id l + jobs id k
  jobs-append id [] k = omega arith
  jobs-append id (j ∷ l) k = omega (arith, jobs-append id l k)

  pub count-append :
      (f : CompMsg A → ℕ) (l k : List (CompMsg A)) → count f (l ++ k) ≡ count f l + count f k
  count-append f [] k = omega arith
  count-append f (m ∷ l) k = omega (arith, count-append f l k)
