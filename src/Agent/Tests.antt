-- ===== src/Agent/Tests.antt =====
-- The agent `maths_boolean_nand` of nodes/rs/maths/boolean/nand/lib.rs.
use fractalide.Prelude.{ℕ, ◌≡◌, ◌≢◌, refl, true, false, none, some, [], ◌∷◌, string_eq, nat_eq}
use fractalide.Prelude.Map.{get}
use fractalide.Result.{success, ok, blocked}
use fractalide.Ports.{World, content}
use fractalide.Ports.Ends.{MsgSender, MsgReceiver}
use fractalide.Agent.{
  Declaration, ThisAgent, arm, connect, connect_array, add_inarr_element, create_agent,
  get_schema_input_array, get_schema_output, get_schema_output_array, create_input_array,
  clone_input_array,
}
use fractalide.Agent.Options.{offered, try_recv_option, recv_option, option_is_latest}
use fractalide.Agent.Lookups.{outcome, Joined, edits_follow_schemas, create_agent_ports}

abbrev nand : Declaration
nand = record {
  input = ("a", "bool") ∷ ("b", "bool") ∷ [];
  inarr = ("test", "i32") ∷ [];
  output = ("output", "bool") ∷ [];
  outarr = ("boum", "usize") ∷ [];
  option_contract = none;
  accumulator_contract = none;
}

abbrev empty_world : World ℕ
empty_world = record {
  chans = [];
  next_chan = 0;
  notes = [];
  is_open = λ s. true;
  is_received = λ c. true;
}

nand_agent : ThisAgent ℕ (Unit {0})
unfolding create_agent
nand_agent = (create_agent nand tt 7 0 empty_world).0.0

abbrev there : MsgSender
there = record { sender = 9; dest = 8; sched = 0; must_sched = true }

abbrev here : MsgReceiver
here = record { id = 7; recv = 9; sender = there; sched = 0; must_sched = true }

edits_follow_schemas_example :
    ((connect nand_agent "output" there).1
      ≡ outcome (get_schema_output nand_agent.declaration "output"))
    × ((connect_array nand_agent "output" "1" there).1
        ≡ outcome (get_schema_output_array nand_agent.declaration "output"))
    × ((add_inarr_element nand_agent "output" "1" here).1
        ≡ outcome (get_schema_input_array nand_agent.declaration "output"))
    × (outcome (create_input_array nand_agent.declaration "output" 7 0 true empty_world).0
        ≡ outcome (get_schema_input_array nand_agent.declaration "output"))
    × (outcome (clone_input_array nand_agent.declaration "output" there)
        ≡ outcome (get_schema_input_array nand_agent.declaration "output"))
edits_follow_schemas_example =
    edits_follow_schemas nand_agent "output" "1" there here 7 0 empty_world

nand_connects : (connect nand_agent "output" there).1 ≡ success tt
unfolding nand_agent connect arm
nand_connects = refl

nand_has_b : arm nand.input "b" ≡ some "bool"
unfolding arm
nand_has_b = refl

create_agent_ports_example :
    Joined 7 0
      (create_agent nand tt 7 0 empty_world).0.0.input.ports
      (create_agent nand tt 7 0 empty_world).0.1
      "b"
create_agent_ports_example = create_agent_ports nand tt 7 0 empty_world "b" nand_has_b

-- Two options have come, the agent keeps an older one.
abbrev option_port : MsgReceiver
option_port = record { id = 7; recv = 4; sender = there; sched = 0; must_sched = false }

abbrev with_option : ThisAgent ℕ (Unit {0})
with_option = record nand_agent {
  input = record (nand_agent.input) { option = option_port };
  option_msg = some 1;
}

abbrev two_options : World ℕ
two_options = record empty_world {
  chans = (3, (none, 9) ∷ []) ∷ (4, (none, 5) ∷ (none, 6) ∷ []) ∷ [];
}

option_is_latest_example :
    (w' : World ℕ) × (content w' 4 ≡ [])
    × ((c : ℕ) → c ≢ 4 → get w'.chans c ≡ get two_options.chans c)
    × (try_recv_option with_option two_options ≡ (
      (
        offered with_option two_options,
        record with_option { option_msg = offered with_option two_options },
      ),
      w',
    ))
    × ((msg : ℕ)
        → offered with_option two_options ≡ some msg
        → recv_option with_option two_options
          ≡ ((ok msg, record with_option { option_msg = some msg }), w'))
    × (offered with_option two_options ≡ none
        → recv_option with_option two_options
          ≡ ((blocked, record with_option { option_msg = none }), w'))
option_is_latest_example = option_is_latest with_option two_options refl

last_offered : offered with_option two_options ≡ some 6
unfolding get
last_offered = refl
