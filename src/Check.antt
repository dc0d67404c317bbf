-- ===== src/Check.antt =====
-- nodes/fvm/rs/parser/graph/check/lib.rs: the checks of a graph. A graph passes, or the errors found
-- are sent. The maps are gone through in the order of their first insertions.
pub mod Nodes
pub mod Ports
pub mod Edges
pub mod Coherence
mod Tests
use fractalide.Prelude.{
  String, Bool, Option, none, some, List, [], ◌∷◌, ◌++◌, ◌==◌, string_eq, length, is_empty, ltb,
  format, if◌then◌else◌,
}
use fractalide.Prelude.Map.{Map, get, insert, contains_key}
use fractalide.Edges.CoreGraph.{CoreGraph, CoreGraphNode, CoreGraphEdge, CoreGraphExtIn}
use fractalide.Edges.CoreLexical.{CoreSemanticError}

-- The nodes that are declared, each with its sort.
pub record Names : Type 0 where
  pub nodes : Map String String
  pub errors : List String

pub sort_text : CoreGraphNode → String → String
sort_text n v = format (
    "The node \"" ∷ n.name ∷ "()\" has been declared more than once : " ∷ v ∷ " and " ∷ n.sort ∷ [])

pub see_sort : Names → CoreGraphNode → Option String → Names
unfolding sort_text
see_sort s n none = record s { nodes = insert s.nodes n.name n.sort }
see_sort s n (some v) =
    if v == ""
    then record s { nodes = insert s.nodes n.name n.sort }
    else if n.sort == ""
    then s
    else record s { errors = s.errors ++ sort_text n v ∷ [] }

pub see_nodes : Names → List CoreGraphNode → Names
unfolding see_sort
see_nodes s [] = s
see_nodes s (n ∷ ns) = see_nodes (see_sort s n (get s.nodes n.name)) ns

-- The text of a port of a node.
pub end_text : String → String → Option String → String
end_text comp port none = format (comp ∷ "() " ∷ port ∷ [])
end_text comp port (some select) = format (comp ∷ "() " ∷ port ∷ "[" ∷ select ∷ "]" ∷ [])

-- Where each port is connected to.
pub record Uses : Type 0 where
  pub uses : Map String (List String)
  pub errors : List String

pub crowd_text : String → String → String → List String → String
crowd_text arrow k error [] = format (error ∷ "Please use the msg_clone agent\n" ∷ [])
crowd_text arrow k error (e ∷ v) = crowd_text arrow k (format (error ∷ k ∷ arrow ∷ e ∷ "\n" ∷ [])) v

-- An error for each port that is connected more than once.
pub crowded : String → Map String (List String) → List String
unfolding crowd_text
crowded arrow [] = []
crowded arrow ((k, v) ∷ m) =
    let rest = crowded arrow m in
    if ltb 1 (length v)
    then crowd_text arrow k "There is a forbidden one-2-many simple port connection :\n" v ∷ rest
    else rest

abbrev pub listed : Map String (List String) → String → List String
listed m k = elim (get m k) [ none ↦ [] | some v ↦ v ]

-- `entry(…).or_insert(…).push(…)`, and the errors over the whole map
pub add_use : String → Uses → String → String → Uses
unfolding crowded
add_use arrow s key receiver = record {
  uses = insert s.uses key (listed s.uses key ++ receiver ∷ []);
  errors = s.errors ++ crowded arrow (insert s.uses key (listed s.uses key ++ receiver ∷ []));
}

pub uninstantiated : Map String String → String → List String
uninstantiated nodes comp =
    if contains_key nodes comp
    then []
    else format (
        "Uninstantiated node \"" ∷ comp
        ∷ "()\"\n  Ensure you have included the type of the agent in this manner: \"" ∷ comp
        ∷ "(${agent_name})\"" ∷ [])
      ∷ []

abbrev pub sender_of : CoreGraphEdge → String
sender_of n = end_text n.out_comp n.out_port n.out_elem

pub check_edge : Map String String → Uses → CoreGraphEdge → Uses
unfolding add_use uninstantiated end_text
check_edge nodes s n =
    add_use " -> "
      (record s {
        errors = s.errors ++ (uninstantiated nodes n.out_comp ++ uninstantiated nodes n.in_comp);
      })
      (sender_of n) (end_text n.in_comp n.in_port n.in_elem)

pub check_edges : Map String String → Uses → List CoreGraphEdge → Uses
unfolding check_edge
check_edges nodes s [] = s
check_edges nodes s (n ∷ ns) = check_edges nodes (check_edge nodes s n) ns

pub check_inputs : Uses → List CoreGraphExtIn → Uses
unfolding add_use end_text
check_inputs s [] = s
check_inputs s (n ∷ ns) =
    check_inputs (add_use " => " s n.port (end_text n.in_comp n.in_port n.in_elem)) ns

pub errors_of : CoreGraph → List String
unfolding see_nodes check_edges check_inputs
errors_of graph =
    let names = see_nodes (record { nodes = []; errors = [] }) graph.nodes in
    let edges = check_edges names.nodes (record { uses = []; errors = names.errors }) graph.edges in
    (check_inputs (record { uses = []; errors = edges.errors }) graph.ext_in).errors

-- What is sent.
pub data Sent : Type 0 where
  output : CoreGraph → Sent
  error : CoreSemanticError → Sent

unfoldable pub run : CoreGraph → Sent
unfolding errors_of
run graph =
    if is_empty (errors_of graph)
    then output graph
    else error (record { path = ""; parsing = errors_of graph })
