-- ===== src/Fvm.antt =====
-- nodes/fvm/rs/main.rs: the network of agents that reads, checks, flattens and runs a flowscript.
pub mod Agents
pub mod Boots
mod Tests
use fractalide.Prelude.{String, Bool, true, Option, none, List, [], ◌∷◌}
use fractalide.Result.{Run, ok, err, panic, blocked, ◌>>=◌}
use fractalide.Ports
use fractalide.Ports.{World, Act}
use fractalide.Scheduler.Messages.{Agent}
use fractalide.Scheduler.Exterior
use fractalide.Scheduler.Exterior.Cache.{AgentLoader}
use fractalide.Scheduler.Exterior.Known
use fractalide.Scheduler.Exterior.Known.{Scheduler}

-- `expect`, on the result of a call
abbrev pub expect {ℓ} : {T : Type ℓ} → Run T → Run T
expect (ok x) = ok x
expect (err e) = panic
expect panic = panic
expect blocked = blocked

-- The agents, by name and library.
abbrev pub nodes : List (String × String)
nodes =
    ("open", "fs_file_open.so")
    ∷ ("lex", "core_parser_lexical.so")
    ∷ ("sem", "core_parser_semantic.so")
    ∷ ("vm", "core_vm.so")
    ∷ ("errors", "core_errors.so")
    ∷ ("graph_print", "core_parser_graph_print.so")
    ∷ ("graph_check", "core_parser_graph_check.so")
    ∷ ("sched", "core_scheduler.so")
    ∷ ("core_find_node", "core_find_node.so")
    ∷ ("start", "core_start.so")
    ∷ []

-- A connection: from a port of an agent to a port of an agent.
pub record Wire : Type 0 where
  pub comp_out : String
  pub port_out : String
  pub comp_in : String
  pub port_in : String

abbrev wire : String → String → String → String → Wire
wire a p b q = record { comp_out = a; port_out = p; comp_in = b; port_in = q }

abbrev pub wires : List Wire
wires =
    wire "open" "output" "lex" "input"
    ∷ wire "lex" "output" "sem" "input"
    ∷ wire "sem" "output" "graph_check" "input"
    ∷ wire "graph_check" "output" "vm" "input"
    ∷ wire "graph_check" "error" "errors" "semantic_error"
    ∷ wire "open" "error" "errors" "file_error"
    ∷ wire "sem" "error" "errors" "semantic_error"
    ∷ wire "errors" "output" "vm" "input"
    ∷ wire "vm" "ask_graph" "open" "input"
    ∷ wire "vm" "output" "sched" "graph"
    ∷ wire "vm" "ask_path" "core_find_node" "input"
    ∷ wire "core_find_node" "output" "vm" "new_path"
    ∷ wire "sched" "ask_graph" "vm" "input"
    ∷ wire "start" "output" "sched" "action"
    ∷ []

module _ {M A : Type 0} (load : String → Option (AgentLoader M A)) ⦃ops : Agent A⦄ where
  unfoldable pub add_all : List (String × String) → Scheduler M A → Run (Scheduler M A)
  add_all [] s = ok s
  add_all ((name, sort) ∷ rest) s = do
    t ← expect (Exterior.add_node load s name sort)
    add_all rest t

module _ {M A : Type 0} where
  unfoldable pub connect_all : List Wire → Scheduler M A → Run (Scheduler M A)
  connect_all [] s = ok s
  connect_all (w ∷ ws) s = do
    t ← expect (Exterior.connect s w.comp_out w.port_out w.comp_in w.port_in)
    connect_all ws t

  abbrev on_world : Scheduler M A → Run (Unit {0}) × World M → Run (Scheduler M A)
  on_world s (r, w) = do u ← expect r; ok (record s { world = w })

  -- A message to a port of an agent, by name.
  unfoldable pub send_to : String → String → M → Scheduler M A → Run (Scheduler M A)
  send_to name port msg s = do
    sender ← expect (Known.get_sender s name port)
    on_world s (Ports.send sender msg s.world)

-- `from_path` and `from_bool` make a message of a path and of a Boolean; the new scheduler's thread is
-- reached on the channel `sender`.
module _ {M A : Type 0} (load : String → Option (AgentLoader M A)) (from_path : String → M)
    (from_bool : Bool → M) ⦃ops : Agent A⦄ where
  -- All but the last line of `run`, the wait for the thread.
  unfoldable pub boot : String → Scheduler M A → Run (Scheduler M A)
  unfolding add_all connect_all send_to
  boot path_fbp s = do
    t ← add_all load nodes s
    u ← connect_all wires t
    v ← send_to "start" "add" (from_path path_fbp) u
    send_to "start" "halt" (from_bool true) v

  -- `thread` is what the wait comes to.
  pub run : String → Scheduler M A → Run (Unit {0}) → Run (Scheduler M A)
  unfolding boot
  run path_fbp s thread = do t ← boot path_fbp s; Exterior.join t thread
