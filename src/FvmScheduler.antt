-- ===== src/FvmScheduler.antt =====
-- nodes/fvm/rs/scheduler/lib.rs: a flat graph is put on the exterior scheduler. The state that the
-- node keeps in its accumulator is that of edges/rs/core/scheduler/edge.rs.
pub mod Simple
pub mod Loaded
mod Tests
use fractalide.Prelude.{String, Bool, Option, none, some, List, [], ◌∷◌, ◌++◌, string_eq}
use fractalide.Prelude.Map.{Map, insert}
use fractalide.Result.{Run, ok, err, panic, blocked, ◌>>=◌}
use fractalide.Edges.CoreGraph
use fractalide.Edges.CoreGraph.{
  CoreGraph, CoreGraphNode, CoreGraphEdge, CoreGraphIMsg, CoreGraphExtIn, CoreGraphExtOut,
}
use fractalide.Edges.CoreAction.{CoreAction, add, halt}
use fractalide.Ports
use fractalide.Ports.{World}
use fractalide.Ports.Ends.{MsgSender}
use fractalide.Scheduler.Messages.{Agent, Signal}
use fractalide.Scheduler.Exterior
use fractalide.Scheduler.Exterior.Cache.{AgentLoader}
use fractalide.Scheduler.Exterior.Known.{Scheduler, get_sender, get_array_sender}
use fractalide.Scheduler.Exterior.Library.{End, simple, element, join_ends}
use fractalide.Scheduler.Exterior.Calls.{go_on}

pub record CoreSchedulerSubnet : Type 0 where
  pub nodes : List String
  pub ext_in : Map String (String × String)
  pub ext_out : Map String (String × String)

pub record CoreScheduler (M A : Type 0) : Type 0 where
  pub sched : Scheduler M A
  pub subnets : Map String CoreSchedulerSubnet

-- The name of a port, with its element where it has one.
abbrev pub end_of : String → String → Option String → End
end_of comp port none = simple comp port
end_of comp port (some elem) = element comp port elem

unfoldable pub add_ext_in :
    Map String (String × String) → List CoreGraphExtIn → Map String (String × String)
add_ext_in m [] = m
add_ext_in m (e ∷ es) = add_ext_in (insert m e.port (e.in_comp, e.in_port)) es

unfoldable pub add_ext_out :
    Map String (String × String) → List CoreGraphExtOut → Map String (String × String)
add_ext_out m [] = m
add_ext_out m (e ∷ es) = add_ext_out (insert m e.port (e.out_comp, e.out_port)) es

abbrev pub names_of : List CoreGraphNode → List String
names_of [] = []
names_of (n ∷ ns) = n.name ∷ names_of ns

module _ {M A : Type 0} where
  module _ (load : String → Option (AgentLoader M A)) ⦃ops : Agent A⦄ where
    -- The result of `add_node` is not looked at.
    unfoldable pub add_nodes : Scheduler M A → List CoreGraphNode → Run (Scheduler M A)
    add_nodes s [] = ok s
    add_nodes s (n ∷ ns) = go_on s (Exterior.add_node load s n.name n.sort) (λ t. add_nodes t ns)

  pub connect_edges : Scheduler M A → List CoreGraphEdge → Run (Scheduler M A)
  unfolding join_ends
  connect_edges s [] = ok s
  connect_edges s (e ∷ es) = do
    t ← join_ends s (end_of e.out_comp e.out_port e.out_elem) (end_of e.in_comp e.in_port e.in_elem)
    connect_edges t es

  pub sender_to : Scheduler M A → CoreGraphIMsg → Option String → Run MsgSender
  sender_to s imsg none = get_sender s imsg.comp imsg.port
  sender_to s imsg (some elem) = get_array_sender s imsg.comp imsg.port elem

  abbrev pub in_world : Scheduler M A → Run (Unit {0}) × World M → Run (Scheduler M A)
  in_world s (r, w) = do u ← r; ok (record s { world = w })

  module _ (from_string : String → M) where
    pub send_imsgs : Scheduler M A → List CoreGraphIMsg → Run (Scheduler M A)
    unfolding sender_to
    send_imsgs s [] = ok s
    send_imsgs s (i ∷ is) = do
      sender ← sender_to s i i.elem
      t ← in_world s (Ports.send sender (from_string i.msg) s.world)
      send_imsgs t is

  pub start_nodes : Scheduler M A → List String → Run (Scheduler M A)
  start_nodes s [] = ok s
  start_nodes s (n ∷ ns) = do t ← Exterior.start_if_needed s n; start_nodes t ns

module _ {M A : Type 0} (load : String → Option (AgentLoader M A)) (from_string : String → M)
    ⦃ops : Agent A⦄ where
  -- `received` is what comes of waiting for the graph.
  unfoldable pub add_graph : Run CoreGraph → String → CoreScheduler M A → Run (CoreScheduler M A)
  unfolding add_nodes connect_edges send_imsgs start_nodes add_ext_in add_ext_out
  add_graph received name acc = do
    g ← received
    s ← add_nodes load acc.sched g.nodes
    t ← connect_edges s g.edges
    u ← send_imsgs from_string t g.imsgs
    v ← start_nodes u (names_of g.nodes)
    ok (record {
      sched = v;
      subnets = insert acc.subnets name (record {
        nodes = names_of g.nodes;
        ext_in = add_ext_in [] g.ext_in;
        ext_out = add_ext_out [] g.ext_out;
      });
    })

-- The graph that is asked for: one node.
abbrev pub asked : String → String → CoreGraph
asked name comp = record CoreGraph.new {
  path = comp;
  nodes = record { name = name; sort = comp } ∷ [];
}

-- `ask` is what comes of asking for a graph and waiting for it, and `thread` what comes of waiting for
-- the scheduler's thread. The accumulator is put back where the node goes on; after an error or a
-- halt it is gone.
module _ {M A Any : Type 0} (load : String → Option (AgentLoader M A)) (from_string : String → M)
    (ask : CoreGraph → Run CoreGraph) (thread : Run (Unit {0})) ⦃ops : Agent A⦄ where
  unfoldable pub run :
      CoreAction Any → CoreScheduler M A → Run (Signal × Option (CoreScheduler M A))
  unfolding add_graph
  run (add a) acc = do
    loaded ← add_graph load from_string (ask (asked a.name a.comp)) a.name acc
    ok (Signal.continue, some loaded)
  run halt acc = do t ← Exterior.join acc.sched thread; ok (Signal.end, none)
  run _ acc = panic
