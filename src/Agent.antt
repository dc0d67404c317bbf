-- ===== src/Agent.antt =====
-- modules/rs/rustfbp/src/agent.rs: what the macro `agent!` makes of a declaration. The ports that the
-- macro writes out, one `match` arm each, are kept in lists.
pub mod Lookups
pub mod Options
mod Tests
use fractalide.Prelude.{
  ℕ, String, Bool, true, false, Option, none, some, List, [], ◌∷◌, ◌==◌, string_eq, is_empty, not,
  ◌||◌, if◌then◌else◌,
}
use fractalide.Prelude.Map.{Map, get, insert}
use fractalide.Result.{Result, success, failure, port_dont_exist}
use fractalide.Ports
use fractalide.Ports.{World}
use fractalide.Ports.Ends.{MsgSender, MsgReceiver}
use fractalide.Scheduler.Messages.{Agent}

-- The arguments of the macro: the names of the ports, each with its contract, and the contracts of
-- the option and of the accumulator.
pub record Declaration : Type 0 where
  pub input : List (String × String)
  pub inarr : List (String × String)
  pub output : List (String × String)
  pub outarr : List (String × String)
  pub option_contract : Option String
  pub accumulator_contract : Option String

-- The first `match` arm that a port fits.
unfoldable pub arm : List (String × String) → String → Option String
arm [] port = none
arm ((name, contract) ∷ rest) port = if name == port then some contract else arm rest port

pub record Input : Type 0 where
  pub ports : Map String MsgReceiver
  pub option : MsgReceiver
  pub accumulator : MsgReceiver

pub record Output : Type 0 where
  pub ports : Map String (Option MsgSender)
  pub accumulator : Option MsgSender

-- The agent, of message type `M`; `state` is what the node's code keeps.
pub record ThisAgent (M S : Type 0) : Type 0 where
  pub declaration : Declaration
  pub id : ℕ
  pub input : Input
  pub output : Output
  pub inarr : Map String (Map String MsgReceiver)
  pub outarr : Map String (Map String MsgSender)
  pub option_msg : Option M
  pub sched : ℕ
  pub state : S

-- The map of an array port, which is there from the start.
abbrev pub elements : {V : Type 0} → Map String (Map String V) → String → Map String V
elements m port = elim (get m port) [ none ↦ [] | some es ↦ es ]

module _ {M S : Type 0} where
  unfoldable pub is_input_ports : ThisAgent M S → Bool
  is_input_ports a = not (is_empty a.declaration.input) || not (is_empty a.declaration.inarr)

  unfoldable pub connect : ThisAgent M S → String → MsgSender → ThisAgent M S × Result (Unit {0})
  connect a port sender = elim (arm a.declaration.output port) [
    | none ↦ (a, failure (port_dont_exist port))
    | some contract ↦ (
      record a { output = record (a.output) { ports = insert a.output.ports port (some sender) } },
      success tt,
    )
  ]

  unfoldable pub connect_array :
      ThisAgent M S → String → String → MsgSender → ThisAgent M S × Result (Unit {0})
  connect_array a port element sender = elim (arm a.declaration.outarr port) [
    | none ↦ (a, failure (port_dont_exist port))
    | some contract ↦ (
      record a { outarr = insert a.outarr port (insert (elements a.outarr port) element sender) },
      success tt,
    )
  ]

  pub add_inarr_element :
      ThisAgent M S → String → String → MsgReceiver → ThisAgent M S × Result (Unit {0})
  add_inarr_element a port element recv = elim (arm a.declaration.inarr port) [
    | none ↦ (a, failure (port_dont_exist port))
    | some contract ↦ (
      record a { inarr = insert a.inarr port (insert (elements a.inarr port) element recv) },
      success tt,
    )
  ]

  -- `impl Agent for ThisAgent`
  instance abbrev pub this_agent : Agent (ThisAgent M S)
  this_agent = record {
    is_input_ports = is_input_ports;
    connect = connect;
    connect_array = connect_array;
    add_inarr_element = add_inarr_element;
  }

-- The receivers and the senders of the input ports, in a fresh channel each.
unfoldable pub new_inputs :
    {M : Type 0}
    → ℕ
    → ℕ
    → List (String × String)
    → Map String MsgReceiver × Map String MsgSender
    → World M
    → (Map String MsgReceiver × Map String MsgSender) × World M
new_inputs id sched [] (rs, ss) w = ((rs, ss), w)
new_inputs id sched ((name, contract) ∷ rest) (rs, ss) w =
    let ((r, s), w') = Ports.new id sched true w in
    new_inputs id sched rest (insert rs name r, insert ss name s) w'

pub outputs_of : List (String × String) → Map String (Option MsgSender)
outputs_of [] = []
outputs_of ((name, contract) ∷ rest) = (name, none) ∷ outputs_of rest

pub arrays_of : {V : Type 0} → List (String × String) → Map String (Map String V)
arrays_of [] = []
arrays_of ((name, contract) ∷ rest) = (name, []) ∷ arrays_of rest

-- `create_agent`: the agent, and the senders of its input ports. The option and the accumulator do
-- not wake the agent, and are under their own names unless an input port has that name.
unfoldable pub create_agent :
    {M S : Type 0}
    → Declaration
    → S
    → ℕ
    → ℕ
    → World M
    → (ThisAgent M S × Map String MsgSender) × World M
unfolding new_inputs outputs_of arrays_of
create_agent d state id sched w =
    let ((option_r, option_s), w1) = Ports.new id sched false w in
    let ((acc_r, acc_s), w2) = Ports.new id sched false w1 in
    let ss = insert (insert [] "option" option_s) "accumulator" acc_s in
    let ((rs, senders), w3) = new_inputs id sched d.input ([], ss) w2 in
    (
      (
        record {
          declaration = d;
          id = id;
          input = record { ports = rs; option = option_r; accumulator = acc_r };
          output = record { ports = outputs_of d.output; accumulator = some acc_s };
          inarr = arrays_of d.inarr;
          outarr = arrays_of d.outarr;
          option_msg = none;
          sched = sched;
          state = state;
        },
        senders,
      ),
      w3,
    )

-- The arms for the option and the accumulator, which stand behind those of the ports.
pub special : Declaration → String → Option String
special d port =
    if port == "option"
    then elim d.option_contract [ some c ↦ some c | none ↦ none ]
    else if port == "accumulator"
    then d.accumulator_contract
    else none

abbrev or_dont_exist : String → Option String → Result String
or_dont_exist port none = failure (port_dont_exist port)
or_dont_exist port (some contract) = success contract

unfoldable pub get_schema_input : Declaration → String → Result String
unfolding special arm
get_schema_input d port = elim (arm d.input port) [
  | some contract ↦ success contract
  | none ↦ or_dont_exist port (special d port)
]

unfoldable pub get_schema_input_array : Declaration → String → Result String
unfolding arm
get_schema_input_array d port = or_dont_exist port (arm d.inarr port)

unfoldable pub get_schema_output : Declaration → String → Result String
unfolding arm
get_schema_output d port = or_dont_exist port (arm d.output port)

unfoldable pub get_schema_output_array : Declaration → String → Result String
unfolding arm
get_schema_output_array d port = or_dont_exist port (arm d.outarr port)

abbrev when_exists : {T : Type 0} → Result String → T → Result T
when_exists (success contract) x = success x
when_exists (failure e) x = failure e

-- A clone of a sender names the same channel.
unfoldable pub clone_input : Declaration → String → MsgSender → Result MsgSender
unfolding get_schema_input
clone_input d port sender = when_exists (get_schema_input d port) sender

pub clone_input_array : Declaration → String → MsgSender → Result MsgSender
unfolding get_schema_input_array
clone_input_array d port sender = when_exists (get_schema_input_array d port) sender

pub create_input_array :
    {M : Type 0}
    → Declaration
    → String
    → ℕ
    → ℕ
    → Bool
    → World M
    → Result (MsgReceiver × MsgSender) × World M
unfolding arm
create_input_array d port id sched must_sched w = elim (arm d.inarr port) [
  | none ↦ (failure (port_dont_exist port), w)
  | some contract ↦ let (ends, w') = Ports.new id sched must_sched w in (success ends, w')
]
