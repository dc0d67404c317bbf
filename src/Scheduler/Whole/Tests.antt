-- ===== src/Scheduler/Whole/Tests.antt =====
-- An agent that is added reaches the thread, which starts to know it.
use fractalide.Prelude.{ℕ, ◌≡◌, refl, none, some, List, [], ◌∷◌, string_eq, nat_eq}
use fractalide.Prelude.Map.{get, insert}
use fractalide.Result.{ok}
use fractalide.Agent.{create_agent, this_agent}
use fractalide.Ports
use fractalide.Scheduler.Messages.{CompMsg}
use fractalide.Scheduler.State
use fractalide.Scheduler.State.{new_agent}
use fractalide.Scheduler.Dispatch.{Thread, round, round_on, dispatch}
use fractalide.Scheduler.System
use fractalide.Scheduler.Exterior
use fractalide.Scheduler.Exterior.Cache
use fractalide.Scheduler.Exterior.Known.{Scheduler}
use fractalide.Scheduler.Exterior.Calls.{call}
use fractalide.Scheduler.Exterior.Calls
use fractalide.Scheduler.Exterior.Tests.{Box, load, world, first, reached}
use fractalide.Scheduler.Whole.{Reach, here, next, called, deliver, loop}
use fractalide.Scheduler.Whole.Joined.{whole_is_scheduler}

added : Scheduler ℕ Box
unfolding call Exterior.add_node create_agent insert Cache.create_comp Cache.load_comp
added = reached (call load first (Calls.add_node "n1" "nand.so"))

added-call : call load first (Calls.add_node "n1" "nand.so") ≡ ok added
unfolding added Ports.new get
added-call = refl

abbrev head : List (CompMsg Box) → CompMsg Box
head [] = CompMsg.halt_state
head (m ∷ rest) = m

-- The message with which the agent comes to the thread.
new_box : CompMsg Box
unfolding added
new_box = head added.sent

added-sent : added.sent ≡ new_box ∷ []
unfolding new_box Ports.new get
added-sent = refl

-- The channel with the agent, and the thread that has read it.
told : Thread Box
told = record System.start { state = State.send (Thread.state System.start) new_box }

knows : Thread Box
unfolding round round_on dispatch new_agent told new_box
knows = elim (round told) [ none ↦ told | some u ↦ u ]

told-round : round told ≡ some knows
unfolding knows Ports.new get
told-round = refl

reached_whole :
    Reach load (record { outer = added; thread = knows; delivered = new_box ∷ []; waiting = [] })
unfolding told added
reached_whole =
    next
      (next
        (next (here 0 world)
          (called (Calls.add_node "n1" "nand.so") added added.sent added-call refl))
        (deliver new_box [] added-sent))
      (loop told-round)

whole_is_scheduler_example : System.Reach knows
whole_is_scheduler_example = whole_is_scheduler load reached_whole
