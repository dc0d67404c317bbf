-- ===== src/Scheduler/State.antt =====
-- `SchedState`, the interior scheduler: one function for each method.
use fractalide.Prelude.{
  ℕ, zero, suc, ◌+◌, String, Bool, true, false, ◌&&◌, Option, none, some, List, [], ◌∷◌, ◌++◌,
  nat_eq, if◌then◌else◌,
}
use fractalide.Prelude.Map.{Map, get, insert, erase}
use fractalide.Prelude.Int.{ℤ, pos, incr, decr, is_positive}
use fractalide.Result.{Error, Result, success, failure}
use fractalide.Scheduler.Messages.{
  SyncSender, CompMsg, EditCmp, SyncMsg, removed, cannot_remove, Agent,
}

pub record CompState (A : Type 0) : Type 0 where
  pub comp : Option A
  pub name : String
  pub is_run : Bool
  pub can_run : Bool
  pub edit_msgs : List EditCmp
  pub ips : ℤ

-- `sched_sender` is what the scheduler's channel holds, oldest first, and `pool` the agents that run
-- in the thread pool. `replies` and `printed` are what has gone out on reply channels and on the
-- terminal.
pub record SchedState (A : Type 0) : Type 0 where
  pub sched_sender : List (CompMsg A)
  pub agents : Map ℕ (CompState A)
  pub running : ℕ
  pub can_halt : Bool
  pub pool : List (ℕ × A)
  pub replies : List (ℕ × SyncMsg A)
  pub printed : List String

-- What a method comes to. It keeps the state that it has reached when it fails; `halted` is the end
-- of the loop, and `panicked` that of its thread.
pub data Handled (A : Type 0) : Type 0 where
  done : SchedState A → Handled A
  failed : Error → SchedState A → Handled A
  halted : SchedState A → Handled A
  panicked : Handled A

-- What an edit does to an agent.
pub data Edited (A : Type 0) : Type 0 where
  edited : A → Edited A
  edit_failed : Error → A → Edited A
  edit_panicked : Edited A

abbrev pub is_some {ℓ} : {X : Type ℓ} → Option X → Bool
is_some none = false
is_some (some x) = true

module _ {A : Type 0} where
  -- `SchedState::new`
  abbrev pub new : SchedState A
  new = record {
    sched_sender = [];
    agents = [];
    running = 0;
    can_halt = false;
    pool = [];
    replies = [];
    printed = [];
  }

  abbrev pub put : SchedState A → ℕ → CompState A → SchedState A
  put s id c = record s { agents = insert s.agents id c }

  abbrev pub send : SchedState A → CompMsg A → SchedState A
  send s m = record s { sched_sender = s.sched_sender ++ m ∷ [] }

  unfoldable pub launch : SchedState A → ℕ → CompState A → A → SchedState A
  launch s id c b = record s {
    agents = insert s.agents id (record c { comp = none; is_run = true });
    running = if c.is_run then s.running else s.running + 1;
    pool = s.pool ++ (id, b) ∷ [];
  }

  unfoldable pub run : SchedState A → ℕ → Handled A
  unfolding launch
  run s id = elim (get s.agents id) [
    | none ↦ panicked
    | some c ↦ elim c.comp [ none ↦ done s | some b ↦ done (launch s id c b) ]
  ]

  unfoldable pub inc : SchedState A → ℕ → Handled A
  unfolding run
  inc s id = elim (get s.agents id) [
    | none ↦ done s
    | some c ↦
        let c' : CompState A = record c { ips = incr c.ips } in
        if is_positive c'.ips && is_some c'.comp then run (put s id c') id else done (put s id c')
  ]

  unfoldable pub dec : SchedState A → ℕ → Handled A
  dec s id = elim (get s.agents id) [
    | none ↦ done s
    | some c ↦ done (put s id (record c { ips = decr c.ips }))
  ]

  unfoldable pub new_agent : SchedState A → ℕ → String → A → Handled A
  new_agent s id name b = done (
      put s id (record {
        comp = some b;
        name = name;
        is_run = false;
        can_run = false;
        edit_msgs = [];
        ips = pos 0;
      }))

  unfoldable pub remove : SchedState A → ℕ → SyncSender → Handled A
  remove s id sync = elim (get s.agents id) [
    | none ↦ panicked
    | some c ↦
        if sync.is_open
        then elim c.comp [
          | none ↦ done (record s { replies = s.replies ++ (sync.chan, cannot_remove) ∷ [] })
          | some b ↦ done (record s {
            agents = erase s.agents id;
            replies = s.replies ++ (sync.chan, removed b) ∷ [];
          })
        ]
        else panicked
  ]

  unfoldable pub start : SchedState A → ℕ → Handled A
  unfolding run
  start s id = elim (get s.agents id) [
    | none ↦ panicked
    | some c ↦
        let s' : SchedState A = put s id (record c { can_run = true }) in
        if is_some c.comp then run s' id else done s'
  ]

  -- The message `Halt` goes out where nothing runs.
  abbrev pub send_halt : SchedState A → SchedState A
  send_halt s = elim s.running [ zero ↦ send s CompMsg.halt | suc n ↦ s ]

  unfoldable pub halt : SchedState A → Handled A
  halt s = done (send_halt (record s { can_halt = true }))

  -- The agent is edited in place, also where the edit fails.
  unfoldable pub after_one_edit : SchedState A → ℕ → CompState A → Edited A → Handled A
  after_one_edit s id c (edited b) = done (put s id (record c { comp = some b }))
  after_one_edit s id c (edit_failed e b) = failed e (put s id (record c { comp = some b }))
  after_one_edit s id c edit_panicked = panicked

module _ {A : Type 0} ⦃ops : Agent A⦄ where
  abbrev pub after_edit : A × Result (Unit {0}) → Edited A
  after_edit (b, success u) = edited b
  after_edit (b, failure e) = edit_failed e b

  -- Five of the eight edits are `unimplemented!()`.
  unfoldable pub edit_one_comp : A → EditCmp → Edited A
  edit_one_comp c (EditCmp.add_input_array_element port element recv) =
      after_edit (ops.add_inarr_element c port element recv)
  edit_one_comp c (EditCmp.remove_input_array_element port element) = edit_panicked
  edit_one_comp c (EditCmp.add_output_array_element port element) = edit_panicked
  edit_one_comp c (EditCmp.connect_output_port port_out his) =
      after_edit (ops.connect c port_out his)
  edit_one_comp c (EditCmp.connect_output_array_port port_out element_out his) =
      after_edit (ops.connect_array c port_out element_out his)
  edit_one_comp c (EditCmp.set_receiver port hir) = edit_panicked
  edit_one_comp c (EditCmp.disconnect port) = edit_panicked
  edit_one_comp c (EditCmp.disconnect_array port element) = edit_panicked

  unfoldable pub edit_agent : SchedState A → ℕ → EditCmp → Handled A
  unfolding edit_one_comp after_one_edit
  edit_agent s id msg = elim (get s.agents id) [
    | none ↦ panicked
    | some c ↦ elim c.comp [
      | none ↦ done (put s id (record c { edit_msgs = c.edit_msgs ++ msg ∷ [] }))
      | some b ↦ after_one_edit s id c (edit_one_comp b msg)
    ]
  ]

  -- The loop over `edit_msgs.drain(..)`; it ends with the first edit that fails.
  unfoldable pub edit_all : A → List EditCmp → Edited A
  edit_all b [] = edited b
  edit_all b (m ∷ ms) = elim (edit_one_comp b m) [
    | edited b' ↦ edit_all b' ms
    | edit_failed e b' ↦ edit_failed e b'
    | edit_panicked ↦ edit_panicked
  ]
