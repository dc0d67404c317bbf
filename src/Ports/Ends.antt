-- ===== src/Ports/Ends.antt =====
-- The structs of modules/rs/rustfbp/src/ports.rs. A channel is named by a number, and so is the
-- channel of a scheduler (`sched`): clones of an end name the same channel.
use fractalide.Prelude.{ℕ, Bool}

pub record MsgSender : Type 0 where
  pub sender : ℕ
  pub dest : ℕ
  pub sched : ℕ
  pub must_sched : Bool

pub record MsgReceiver : Type 0 where
  pub id : ℕ
  pub recv : ℕ
  pub sender : MsgSender
  pub sched : ℕ
  pub must_sched : Bool
