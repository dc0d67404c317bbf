-- ===== src/Scheduler/Exterior/Tests.antt =====
-- Two `maths_boolean_nand` (nodes/rs/maths/boolean/nand/lib.rs) that are connected by name.
use fractalide.Prelude.{
  ℕ, ◌≡◌, refl, String, true, false, Option, none, some, List, [], ◌∷◌, ◌==◌, string_eq,
  if◌then◌else◌,
}
use fractalide.Prelude.Map.{get, insert}
use fractalide.Result.{port_dont_exist, Run, ok, err, panic, blocked}
use fractalide.Ports.{World}
use fractalide.Agent.{Declaration, ThisAgent, this_agent, arm, create_agent}
use fractalide.Agent
use fractalide.Ports
use fractalide.Scheduler.Exterior
use fractalide.Scheduler.Exterior.Cache
use fractalide.Scheduler.Exterior.Cache.{AgentLoader}
use fractalide.Scheduler.Exterior.Known
use fractalide.Scheduler.Exterior.Known.{Comp, Scheduler}
use fractalide.Scheduler.Exterior.Library.{
  library, End, simple, join_ends, in_contract, out_contract,
}
use fractalide.Scheduler.Exterior.Connections.{IsMade, join_ends-IsMade}
use fractalide.Scheduler.Exterior.Calls.{Call, add_node, calls}
use fractalide.Scheduler.Exterior.Calls
use fractalide.Scheduler.Exterior.Numbers.{IsNumbered, numbers_stay_apart}
use fractalide.Scheduler.Exterior.Nodes.{IsReady, add_node-IsReady, at_path}
use fractalide.Scheduler.Exterior.Refusals.{IsRefused, join_ends-IsRefused}

abbrev nand : Declaration
nand = record {
  input = ("a", "bool") ∷ ("b", "bool") ∷ [];
  inarr = [];
  output = ("output", "bool") ∷ [];
  outarr = [];
  option_contract = none;
  accumulator_contract = none;
}

abbrev pub Box : Type 0
Box = ThisAgent ℕ (Unit {0})

abbrev pub load : String → Option (AgentLoader ℕ Box)
load path = if path == "nand.so" then some (library nand tt) else none

abbrev pub world : World ℕ
world = record {
  chans = [];
  next_chan = 0;
  notes = [];
  is_open = λ s. true;
  is_received = λ c. true;
}

abbrev pub first : Scheduler ℕ Box
first = Known.new 0 world

-- One that is missing, and two that are there.
abbrev nodes : List Call
nodes = add_node "n1" "nand.so" ∷ Calls.start_agent "n0" ∷ add_node "n2" "nand.so" ∷ []

abbrev pub reached : Run (Scheduler ℕ Box) → Scheduler ℕ Box
reached (ok s) = s
reached (err e) = first
reached panic = first
reached blocked = first

two : Scheduler ℕ Box
unfolding calls Exterior.add_node Exterior.start_agent create_agent get insert Cache.create_comp
    Cache.load_comp
two = reached (calls load first nodes)

two-calls : calls load first nodes ≡ ok two
unfolding two Ports.new
two-calls = refl

numbers_stay_apart_example : IsNumbered two
numbers_stay_apart_example = numbers_stay_apart load 0 world nodes two two-calls

on_disk : at_path load first.cache "nand.so" ≡ some (library nand tt)
unfolding get
on_disk = refl

add_node-IsReady_example :
    (t : Scheduler ℕ Box) × (Exterior.add_node load first "n1" "nand.so" ≡ ok t)
    × IsReady t "n1" 0 nand
add_node-IsReady_example = add_node-IsReady load first "n1" "nand.so" nand tt on_disk refl

abbrev entry : Option Comp → Comp
entry none = record { id = 0; inputs = []; inputs_array = []; sort = ""; start = false }
entry (some c) = c

n1 : Comp
unfolding two
n1 = entry (get two.agents "n1")

n2 : Comp
unfolding two
n2 = entry (get two.agents "n2")

n1_known : get two.agents "n1" ≡ some n1
unfolding n1 Ports.new
n1_known = refl

n2_known : get two.agents "n2" ≡ some n2
unfolding n2 Ports.new
n2_known = refl

n1_cached : get two.cache n1.sort ≡ some (library nand tt)
unfolding n1 Ports.new
n1_cached = refl

n2_cached : get two.cache n2.sort ≡ some (library nand tt)
unfolding n2 Ports.new
n2_cached = refl

abbrev out : End
out = simple "n1" "output"

abbrev into : End
into = simple "n2" "a"

joined : Scheduler ℕ Box
unfolding join_ends Exterior.connect two Cache.get_schema_input Cache.get_schema_output arm
joined = reached (join_ends two out into)

joined_ok : join_ends two out into ≡ ok joined
unfolding joined Ports.new Agent.get_schema_input Agent.get_schema_output Cache.clone_input
    Agent.clone_input
joined_ok = refl

join_ends-IsMade_example : IsMade two joined out into n1 nand nand
join_ends-IsMade_example =
    join_ends-IsMade two joined out into n1 n2 nand nand tt tt n1_known n2_known n1_cached n2_cached
      joined_ok

-- There is no port "c".
abbrev nowhere : End
nowhere = simple "n2" "c"

join_ends-IsRefused_example :
    IsRefused out nowhere
      (out_contract nand out)
      (in_contract nand nowhere)
      (join_ends two out nowhere)
join_ends-IsRefused_example =
    join_ends-IsRefused two out nowhere n1 n2 nand nand tt tt n1_known n2_known n1_cached n2_cached

nowhere_panics : join_ends two out nowhere ≡ panic
unfolding in_contract arm Agent.get_schema_input
nowhere_panics =
    (join_ends-IsRefused two out nowhere n1 n2 nand nand tt tt n1_known n2_known n1_cached
        n2_cached).no_in
      (port_dont_exist "c") refl
