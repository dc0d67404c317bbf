-- ===== src/Scheduler/Exterior/Library.antt =====
-- The library of an agent that the macro `agent!` has written, and the calls on the exterior scheduler
-- that change how agents are connected.
use fractalide.Prelude.{String}
use fractalide.Result.{Result, success, Run}
use fractalide.Agent
use fractalide.Agent.{Declaration, ThisAgent}
use fractalide.Scheduler.Exterior
use fractalide.Scheduler.Exterior.Cache.{AgentLoader}
use fractalide.Scheduler.Exterior.Known.{Scheduler}

abbrev succeeds : {X Y : Type 0} → X × Y → Result X × Y
succeeds (x, y) = (success x, y)

abbrev pub library : {M S : Type 0} → Declaration → S → AgentLoader M (ThisAgent M S)
library d state = record {
  create = λ id sched w. succeeds (Agent.create_agent d state id sched w);
  clone_input = Agent.clone_input d;
  clone_input_array = Agent.clone_input_array d;
  create_input_array = Agent.create_input_array d;
  get_schema_input = Agent.get_schema_input d;
  get_schema_input_array = Agent.get_schema_input_array d;
  get_schema_output = Agent.get_schema_output d;
  get_schema_output_array = Agent.get_schema_output_array d;
}

-- A port of an agent, with the element where it is an array port.
pub data End : Type 0 where
  simple : String → String → End
  element : String → String → String → End

abbrev pub name_of : End → String
name_of (simple name port) = name
name_of (element name port e) = name

-- The four ways to connect.
unfoldable pub join_ends : {M A : Type 0} → Scheduler M A → End → End → Run (Scheduler M A)
join_ends s (simple a p) (simple b q) = Exterior.connect s a p b q
join_ends s (element a p e) (simple b q) = Exterior.connect_array s a p e b q
join_ends s (simple a p) (element b q f) = Exterior.connect_to_array s a p b q f
join_ends s (element a p e) (element b q f) = Exterior.connect_array_to_array s a p e b q f

-- The contracts of an output port and of an input port.
unfoldable pub out_contract : Declaration → End → Result String
out_contract d (simple name port) = Agent.get_schema_output d port
out_contract d (element name port e) = Agent.get_schema_output_array d port

unfoldable pub in_contract : Declaration → End → Result String
in_contract d (simple name port) = Agent.get_schema_input d port
in_contract d (element name port e) = Agent.get_schema_input_array d port
