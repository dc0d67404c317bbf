-- ===== src/Scheduler/Whole.antt =====
-- Both halves of the scheduler: the calls of the exterior one, the channel between them, and the
-- thread with its pool.
pub mod Present
pub mod Rounds
pub mod Joined
mod Tests
use fractalide.Prelude.{ℕ, ◌≡◌, String, Option, some, List, [], ◌∷◌, ◌++◌, nat_eq, string_eq}
use fractalide.Result.{Result, Run, ok}
use fractalide.Ports.{World}
use fractalide.Scheduler.Messages.{CompMsg, Agent}
use fractalide.Scheduler.State.{send}
use fractalide.Scheduler.Dispatch.{Thread, round}
use fractalide.Scheduler.System
use fractalide.Scheduler.System.{end_job}
use fractalide.Scheduler.Exterior.Cache.{AgentLoader}
use fractalide.Scheduler.Exterior.Known
use fractalide.Scheduler.Exterior.Known.{Scheduler}
use fractalide.Scheduler.Exterior.Calls.{Call, call}

-- What has been sent by the exterior scheduler has reached the thread's channel or is on its way.
pub record Whole (M A : Type 0) : Type 0 where
  pub outer : Scheduler M A
  pub thread : Thread A
  pub delivered : List (CompMsg A)
  pub waiting : List (CompMsg A)

-- What a port or an agent sends on the channel.
abbrev pub IsFromPort : {A : Type 0} → CompMsg A → Type 0
IsFromPort (CompMsg.inc id) = Unit
IsFromPort (CompMsg.dec id) = Unit
IsFromPort _ = ⊥

-- A round of the loop; the end of a run, or its panic; a port's message; a call that succeeds; a
-- message of the exterior scheduler that comes to the channel; a change of the channels elsewhere.
pub data Step {M A : Type 0} (load : String → Option (AgentLoader M A)) ⦃ops : Agent A⦄
    (w : Whole M A) : Whole M A → Type 0 where
  loop : {u : Thread A} → round w.thread ≡ some u → Step load w (record w { thread = u })
  finish :
      (before after : List (ℕ × A)) (id : ℕ) (b b' : A) (res : Result _)
      → w.thread.state.pool ≡ before ++ (id, b) ∷ after
      → Step load w (record w {
        thread = record (w.thread) { state = end_job w.thread.state (before ++ after) id b' res };
      })
  crash :
      (before after : List (ℕ × A)) (id : ℕ) (b : A)
      → w.thread.state.pool ≡ before ++ (id, b) ∷ after
      → Step load w (record w {
        thread = record (w.thread) { state = record (w.thread.state) { pool = before ++ after } };
      })
  port :
      (m : CompMsg A)
      → IsFromPort m
      → Step load w (record w { thread = record (w.thread) { state = send w.thread.state m } })
  called :
      (k : Call) (o : Scheduler M A) (new : List (CompMsg A))
      → call load w.outer k ≡ ok o
      → o.sent ≡ w.outer.sent ++ new
      → Step load w (record w { outer = o; waiting = w.waiting ++ new })
  deliver :
      (m : CompMsg A) (rest : List (CompMsg A))
      → w.waiting ≡ m ∷ rest
      → Step load w (record w {
        thread = record (w.thread) { state = send w.thread.state m };
        delivered = w.delivered ++ m ∷ [];
        waiting = rest;
      })
  elsewhere :
      (world : World M) → Step load w (record w { outer = record (w.outer) { world = world } })

-- `Scheduler::new`
abbrev pub start : {M A : Type 0} → ℕ → World M → Whole M A
start sender world = record {
  outer = Known.new sender world;
  thread = System.start;
  delivered = [];
  waiting = [];
}

pub data Reach {M A : Type 0} (load : String → Option (AgentLoader M A)) ⦃ops : Agent A⦄
    : Whole M A → Type 0 where
  here : (sender : ℕ) (world : World M) → Reach load (start sender world)
  next : {w v : Whole M A} → Reach load w → Step load w v → Reach load v
