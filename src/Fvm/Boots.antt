-- ===== src/Fvm/Boots.antt =====
-- The network comes up.
use fractalide.Prelude.{
  map, ℕ, ◌≡◌, refl, String, Bool, true, Option, none, some, List, [], ◌∷◌, string_eq, nat_eq,
}
use fractalide.Prelude.Map.{get, insert}
use fractalide.Result.{Run, ok}
use fractalide.Ports
use fractalide.Ports.{World, content, Note, inc}
use fractalide.Ports.Ends.{MsgSender}
use fractalide.Agent
use fractalide.Agent.{Declaration, ThisAgent, this_agent, arm, create_agent}
use fractalide.Scheduler.Messages.{CompMsg}
use fractalide.Scheduler.Exterior
use fractalide.Scheduler.Exterior.Cache
use fractalide.Scheduler.Exterior.Cache.{AgentLoader}
use fractalide.Scheduler.Exterior.Known
use fractalide.Scheduler.Exterior.Known.{Comp, Scheduler}
use fractalide.Scheduler.Exterior.Library.{library}
use fractalide.Fvm.{nodes, wires, Wire, boot}
use fractalide.Fvm.Agents.{installed}

module _ (M : Type 0) where
  abbrev pub Box : Type 0
  Box = ThisAgent M (Unit {0})

  abbrev pub found : Option Declaration → Option (AgentLoader M Box)
  found none = none
  found (some d) = some (library d tt)

  abbrev pub load : String → Option (AgentLoader M Box)
  load path = found (get installed path)

  abbrev pub world : World M
  world = record {
    chans = [];
    next_chan = 0;
    notes = [];
    is_open = λ s. true;
    is_received = λ c. true;
  }

abbrev pub dest_of : Option MsgSender → Option ℕ
dest_of none = none
dest_of (some sender) = some sender.dest

-- A scheduler is told of two messages for an agent.
abbrev pub twice_told : ℕ → Option ℕ → List (ℕ × Note)
twice_told sched none = []
twice_told sched (some id) = (sched, inc id) ∷ (sched, inc id) ∷ []

module _ {M : Type 0} where
  -- What is known of an agent: its number, and the sender of one of its input ports.
  abbrev pub id_of : Scheduler M (Box M) → String → Option ℕ
  id_of s name = elim (get s.agents name) [ none ↦ none | some c ↦ some c.id ]

  abbrev pub input_of : Scheduler M (Box M) → String → String → Option MsgSender
  input_of s name port = elim (get s.agents name) [ none ↦ none | some c ↦ get c.inputs port ]

  -- The agents that the thread is given, and the connections that it is told to make.
  abbrev pub given : List (CompMsg (Box M)) → List (String × Option ℕ)
  given [] = []
  given (CompMsg.new_agent id name box ∷ ms) = (name, some id) ∷ given ms
  given (_ ∷ ms) = given ms

  abbrev pub made : List (CompMsg (Box M)) → List (Option ℕ × String × Option MsgSender)
  made [] = []
  made (CompMsg.connect_output_port id port sender ∷ ms) = (some id, port, some sender) ∷ made ms
  made (_ ∷ ms) = made ms

  abbrev pub connection : Scheduler M (Box M) → Wire → Option ℕ × String × Option MsgSender
  connection s w = (id_of s w.comp_out, w.port_out, input_of s w.comp_in w.port_in)

  abbrev pub numbered : Scheduler M (Box M) → String × String → String × Option ℕ
  numbered s (name, sort) = (name, id_of s name)

  -- What is in the channel of an agent's port.
  abbrev pub waiting : Scheduler M (Box M) → String → String → List (Option String × M)
  waiting s name port = elim (input_of s name port) [
    | none ↦ []
    | some sender ↦ content s.world sender.sender
  ]

  -- Each agent is handed over under its number. Each wire is made, from its agent's number to the sender
  -- that its receiving port has, and that sender is one of the receiving agent. The first path and the
  -- halt wait for the agent `start`, which has been told of both.
  pub record IsBooted (s : Scheduler M (Box M)) (first halt : M) : Type 0 where
    pub added : given s.sent ≡ map (numbered s) nodes
    pub wired : made s.sent ≡ map (connection s) wires
    pub right_agent :
        map (λ (w : Wire). dest_of (input_of s w.comp_in w.port_in)) wires
        ≡ map (λ (w : Wire). id_of s w.comp_in) wires
    pub path_waits : waiting s "start" "add" ≡ (none, first) ∷ []
    pub halt_waits : waiting s "start" "halt" ≡ (none, halt) ∷ []
    pub told : s.world.notes ≡ twice_told s.sender (id_of s "start")

module _ {M : Type 0} (from_path : String → M) (from_bool : Bool → M) (sender : ℕ)
    (path : String) where
  abbrev fresh : Scheduler M (Box M)
  fresh = Known.new sender (world M)

  abbrev settled : Run (Scheduler M (Box M)) → Scheduler M (Box M)
  settled (ok s) = s
  settled _ = fresh

  booted : Scheduler M (Box M)
  unfolding boot get insert Exterior.add_node Exterior.connect Cache.create_comp Cache.load_comp
      create_agent Ports.new Cache.get_schema_input Cache.get_schema_output arm
      Agent.get_schema_input Agent.get_schema_output Cache.clone_input Agent.clone_input
      Known.get_sender Ports.send
  booted = settled (boot (load M) from_path from_bool path fresh)

  boot-booted : boot (load M) from_path from_bool path fresh ≡ ok booted
  unfolding booted
  boot-booted = refl

  booted-IsBooted : IsBooted booted (from_path path) (from_bool true)
  unfolding booted
  booted-IsBooted = record {
    added = refl;
    wired = refl;
    right_agent = refl;
    path_waits = refl;
    halt_waits = refl;
    told = refl;
  }

-- With the libraries that the build installs, on a fresh scheduler, the network comes up for each path: no
-- `expect` fails, all agents are handed over to the thread, all connections are asked for, each to a
-- port of the agent that it names, and the agent `start` has the path and the halt to read.
pub network_boots :
    {M : Type 0} (from_path : String → M) (from_bool : Bool → M) (sender : ℕ) (path : String)
    → (s : Scheduler M (Box M)) × (boot
          (load M)
          from_path
          from_bool
          path
          (Known.new sender (world M))
        ≡ ok s)
      × IsBooted s (from_path path) (from_bool true)
network_boots from_path from_bool sender path = (
  booted from_path from_bool sender path,
  boot-booted from_path from_bool sender path,
  booted-IsBooted from_path from_bool sender path,
)
