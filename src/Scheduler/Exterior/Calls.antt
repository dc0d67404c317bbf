-- ===== src/Scheduler/Exterior/Calls.antt =====
-- The calls that change the exterior scheduler, and sequences of them.
use fractalide.Prelude.{String, Option, List, [], ◌∷◌, nat_eq, string_eq}
use fractalide.Result.{Run, ok, err, panic, blocked}
use fractalide.Ports.Ends.{MsgReceiver}
use fractalide.Scheduler.Messages.{Agent}
use fractalide.Scheduler.Exterior
use fractalide.Scheduler.Exterior.Cache.{AgentLoader}
use fractalide.Scheduler.Exterior.Known.{Scheduler}
use fractalide.Scheduler.Exterior.Library
use fractalide.Scheduler.Exterior.Library.{End, simple, element}

-- The calls that change the exterior scheduler.
pub data Call : Type 0 where
  add_node : String → String → Call
  start : Call
  start_if_needed : String → Call
  start_agent : String → Call
  join_ends : End → End → Call
  disconnect : String → String → Call
  disconnect_array : String → String → String → Call
  add_input_array_element : String → String → String → Call
  soft_add_input_array_element : String → String → String → Call
  add_output_array_element : String → String → String → Call
  set_receiver : String → String → MsgReceiver → Call
  set_array_receiver : String → String → String → MsgReceiver → Call
  join : Run (Unit {0}) → Call

-- After an error the scheduler goes on as it was.
abbrev pub go_on : {S : Type 0} → S → Run S → (S → Run S) → Run S
go_on s (ok t) k = k t
go_on s (err e) k = k s
go_on s panic k = panic
go_on s blocked k = blocked

module _ {M A : Type 0} (load : String → Option (AgentLoader M A)) ⦃ops : Agent A⦄ where
  unfoldable pub call : Scheduler M A → Call → Run (Scheduler M A)
  call s (add_node name sort) = Exterior.add_node load s name sort
  call s start = Exterior.start s
  call s (start_if_needed name) = Exterior.start_if_needed s name
  call s (start_agent name) = Exterior.start_agent s name
  call s (join_ends out into) = Library.join_ends s out into
  call s (disconnect name port) = Exterior.disconnect s name port
  call s (disconnect_array name port e) = Exterior.disconnect_array s name port e
  call s (add_input_array_element name port e) = Exterior.add_input_array_element s name port e
  call s (soft_add_input_array_element name port e) =
      Exterior.soft_add_input_array_element s name port e
  call s (add_output_array_element name port e) = Exterior.add_output_array_element s name port e
  call s (set_receiver name port r) = Exterior.set_receiver s name port r
  call s (set_array_receiver name port e r) = Exterior.set_array_receiver s name port e r
  call s (join thread) = Exterior.join s thread

  -- One call after the other.
  unfoldable pub calls : Scheduler M A → List Call → Run (Scheduler M A)
  unfolding call
  calls s [] = ok s
  calls s (k ∷ ks) = go_on s (call s k) (λ t. calls t ks)
