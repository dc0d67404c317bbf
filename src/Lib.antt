-- ===== src/Lib.antt =====
-- Verification of fractalide, a flow-based programming platform: agents that communicate over bounded
-- channels, a scheduler that runs them, and a language, flowscript, for graphs of agents.
--
-- The parts, and how they interact:
-- - modules/rs/rustfbp/src/agent.rs, the macro `agent!`, gives each agent its ports, and the functions
--   by which ports are connected and looked up.
-- - modules/rs/rustfbp/src/ports.rs: the two ends of a port. A send puts a message in the port's
--   channel and tells the scheduler (`Inc`), a receive takes it out and tells it too (`Dec`).
-- - modules/rs/rustfbp/src/scheduler.rs: the exterior scheduler sends messages to a thread, which holds
--   the agents (`SchedState`), counts the messages of each, and runs those that have some in a pool of
--   threads. The end of a run comes back as a message (`RunEnd`).
-- - nodes/fvm/rs/parser/lexical/lib.rs: cuts the lines of a flowscript into tokens.
-- - nodes/fvm/rs/parser/semantic/lib.rs: reads the tokens of a flowscript and sends its graph
--   (edges/rs/core/graph/edge.rs) or the errors found.
-- - nodes/fvm/rs/parser/graph/check/lib.rs: checks such a graph before it is run.
-- - nodes/fvm/rs/vm/lib.rs: asks for the graphs of a program and puts them together to a flat one.
-- - nodes/fvm/rs/scheduler/lib.rs: puts a flat graph on the exterior scheduler.
-- - nodes/fvm/rs/main.rs: connects these agents to a network and gives it the path of a program.
-- - modules/rs/generate-msg/src/main.rs: writes the type of all messages when the crates are built.
--
-- The files:
-- - Prelude: conditions, equality, lists, text and its bytes, association maps, and `isize`.
-- - Result: modules/rs/rustfbp/src/result.rs. `Result` is what a function returns; `Run` is what code
--   that may also panic or wait comes to. Errors has the traits of an error.
-- - Edges: the messages CoreGraph, CoreLexical, CoreSemanticError, CoreAction, FsFileDesc
--   and the paths.
-- - Ports: the channels as explicit state, with whether the receiver is still there: a send fails where it
--   has been dropped, and waits where the channel is full. Traffic and Counts are about any run of sends
--   and receives.
-- - Agent: the macro, over the lists of ports that it writes out. Lookups is about connecting,
--   Options about the option of an agent.
-- - Scheduler.Messages, State, Dispatch: the messages, the methods of `SchedState`, and the loop.
--   System is the thread, the pool and the senders outside as a step relation: a run in the pool may
--   end at any time, with any result, and leaves the agent in any state. Invariant is what holds in
--   each reachable state, Runs and Keeps show that each method keeps it, Safety and Progress what
--   follows; Held and Wakeups are about where an agent that is away is, Losses about what goes wrong.
-- - Scheduler.Exterior: the exterior scheduler, its methods; Known is what it holds and looks up, Cache
--   the loaded libraries, Library the library that `agent!` makes, Calls the calls that change it.
--   Connections and Refusals are about connecting by name, Nodes about a node that is added, Numbers
--   (with Same) about the numbers by which the thread knows the agents.
-- - Scheduler.Whole: the exterior scheduler, the channel and the thread as one step relation. What the
--   caller sends waits until it is delivered, so that the senders interleave in any way; Present and
--   Rounds are about the numbers in use, Joined about what the thread may rely on.
-- - Semantic: the parser. Grammar is the language with its printer, Lines and RoundTrip read back
--   what is printed, Safety is about any stream of tokens.
-- - Check: the checks of a graph, with the error texts; Nodes, Ports and Edges are about one check each,
--   Coherence about all.
-- - Lexical: the parsers for tokens and the stream of tokens. Combinators is what is taken of the crate
--   nom, Progress shows that a line comes to an end. Words has the text of a token, Literals and Lines are
--   about what is read of it, Scripts is about the lexer with the parser behind it.
-- - Vm: putting graphs together. Trees has the tree of a program, and its flat graph as the
--   specification; Wiring is about one graph, Flatten about all. Routes follows the end of an edge
--   through the ports of subgraphs, Arrivals is about the edges of the flat graph, Strays about what
--   goes astray. Ends is about the recursion.
-- - FvmScheduler: loading a graph; Simple and Loaded are about a graph that has been loaded.
-- - Fvm: the network. Agents has the ports of its agents, Boots is about its start.
-- - Nodes: the small agents of nodes/rs and nodes/fvm/rs, on the channels of Ports; Sends is about one send
--   and one receive, Files about opening a file, Clones about copies, Answers about finding a node.
-- - Generator: the tool for the type of messages, with the names of modules in ModuleName. Numbering is
--   about which types become messages, Names about the modules they stand in.
-- Tests and Samples modules run the code on small inputs.
--
-- Conventions. A method that fails returns the state that it has reached. A panic of the scheduler's
-- thread is a result of its own. A `HashMap` is an association list without repeated keys. Counts of
-- messages (`isize`) are integers without a bound, and the counts of agents and lines (`usize`) numbers
-- without one: each step changes them by one. Most loops go over a list. `decimal`, which writes a
-- number in digits, has one more than the number as its fuel; `Vm.add_graph` has the depth of the
-- subgraphs, and Vm.Ends and Vm.Flatten say which depth is enough. A line of a flowscript is lexed with
-- one more than its bytes as fuel, which Lexical.Progress shows to be enough.
--
-- Code outside of the repository: the dynamic loader is an argument, from the path of a library to its
-- functions. What the virtual machine's questions come to, and whether a file is there, is the record
-- `Vm.Answers`. The crate nom is the record `Lexical.Combinators.Nom`, with the laws `IsNom`, which
-- say how much of its input each macro takes and where it waits for more, and `IsDone`, which say what it
-- comes to; Lexical.Plain has parsers that keep them. What Rust
-- source `syn` parses, the files that are read, and which letters beyond ASCII are upper case, are
-- arguments of the generator. A thread that has ended is a channel that is not open. Whether a
-- file is there, what is in it, and what nix-build writes are arguments of the small agents.
--
-- Not modelled: the other agents of nodes/rs, most of them written for an earlier form of the macro, the
-- agent that prints the debug form of a graph, and the other runtimes.
mod Prelude
pub mod Result
pub mod Edges
pub mod Semantic
pub mod Check
pub mod Ports
pub mod Scheduler
pub mod Agent
pub mod FvmScheduler
pub mod Vm
pub mod Fvm
pub mod Generator
pub mod Nodes
pub mod Lexical
