-- ===== src/Scheduler/Messages.antt =====
-- The messages of the scheduler, and the trait of the agents that it runs
-- (modules/rs/rustfbp/src/scheduler.rs and agent.rs). `A` is the type of boxed agents.
use fractalide.Prelude.{ℕ, String, Bool}
use fractalide.Result.{Result}
use fractalide.Ports.Ends.{MsgSender, MsgReceiver}

pub data Signal : Type 0 where
  end continue : Signal

-- The sender of a reply channel, and whether its receiver still waits.
pub record SyncSender : Type 0 where
  pub chan : ℕ
  pub is_open : Bool

pub data CompMsg (A : Type 0) : Type 0 where
  new_agent : ℕ → String → A → CompMsg A
  halt : CompMsg A
  halt_state : CompMsg A
  start : ℕ → CompMsg A
  connect_output_port : ℕ → String → MsgSender → CompMsg A
  connect_output_array_port : ℕ → String → String → MsgSender → CompMsg A
  disconnect : ℕ → String → CompMsg A
  disconnect_array : ℕ → String → String → CompMsg A
  add_input_array_element : ℕ → String → String → MsgReceiver → CompMsg A
  remove_input_array_element : ℕ → String → String → CompMsg A
  add_output_array_element : ℕ → String → String → CompMsg A
  run_end : ℕ → A → Result Signal → CompMsg A
  set_receiver : ℕ → String → MsgReceiver → CompMsg A
  inc : ℕ → CompMsg A
  dec : ℕ → CompMsg A
  remove : ℕ → SyncSender → CompMsg A

pub data EditCmp : Type 0 where
  add_input_array_element : String → String → MsgReceiver → EditCmp
  remove_input_array_element : String → String → EditCmp
  add_output_array_element : String → String → EditCmp
  connect_output_port : String → MsgSender → EditCmp
  connect_output_array_port : String → String → MsgSender → EditCmp
  set_receiver : String → MsgReceiver → EditCmp
  disconnect : String → EditCmp
  disconnect_array : String → String → EditCmp

pub data SyncMsg (A : Type 0) : Type 0 where
  removed : A → SyncMsg A
  cannot_remove : SyncMsg A

-- The trait `Agent`, without `run`: a method that changes the agent returns the changed agent, also
-- where it fails.
pub record Agent (A : Type 0) : Type 0 where
  pub is_input_ports : A → Bool
  pub connect : A → String → MsgSender → A × Result (Unit {0})
  pub connect_array : A → String → String → MsgSender → A × Result (Unit {0})
  pub add_inarr_element : A → String → String → MsgReceiver → A × Result (Unit {0})
