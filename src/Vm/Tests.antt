-- ===== src/Vm/Tests.antt =====
-- A program with a subgraph, and one whose output is not connected.
use fractalide.Prelude.{
  All, ℕ, ◌+◌, ◌≤◌, ◌<◌, ◌≡◌, refl, sym, subst, inl, inr, String, true, false, not, Option, none,
  some, List, [], ◌∷◌, ◌==◌, string_eq, format, trim, arith, Bool-cases, some_inj, if◌then◌else◌,
}
use fractalide.Result.{ok, ok_inj, err, output_not_connected}
use fractalide.Edges.CoreGraph
use fractalide.Edges.CoreGraph.{CoreGraph, CoreGraphNode}
use fractalide.Vm.{Answers, agent_file, subgraph_file, add_nodes, add_graph, run, run_agent}
use fractalide.Vm.Ends.{IsProgram, run_ends}

abbrev node : String → String → CoreGraphNode
node name sort = record { name = name; sort = sort }

abbrev gate : CoreGraph
gate = record CoreGraph.new { nodes = node "nand" "nand" ∷ [] }

-- All nodes are agents but "gate", which is the graph above, and "lost", which is not there.
abbrev path_of : String → Option String
path_of sort = if sort == "gate" then some "/g" else if sort == "lost" then none else some "/n"

abbrev answers : Answers
answers = record {
  path_of = λ sort. ok (path_of sort);
  graph_at = λ path. ok gate;
  is_file = λ path. not (path == "/g/lib/libagent.so");
}

abbrev gates : List CoreGraphNode → ℕ
gates [] = 0
gates (n ∷ ns) = (if n.sort == "gate" then 1 else 0) + gates ns

abbrev rank : CoreGraph → ℕ
rank g = gates g.nodes

agents_are_files :
    (sort hash_name : String)
    → path_of sort ≡ some hash_name
    → not (agent_file hash_name == "/g/lib/libagent.so") ≡ false
    → (sort == "gate") ≡ true
unfolding format trim
agents_are_files sort hash_name found h = elim (Bool-cases (sort == "gate")) [
  | inl e ↦ e
  | inr e ↦ elim (Bool-cases (sort == "lost")) [
    | inl f ↦ absurd (ground (arith, found, e, f))
    | inr f ↦
        let here : "/n" ≡ hash_name = some_inj (ground (arith, found, e, f)) in
        let wrong : not (agent_file "/n" == "/g/lib/libagent.so") ≡ false =
          subst (λ x. not (agent_file x == "/g/lib/libagent.so") ≡ false) (sym here) h in
        absurd (cc)
  ]
]

gates_lower :
    (ns : List CoreGraphNode) (k : ℕ)
    → gates ns ≤ k
    → All
        (λ (n : CoreGraphNode).
          (hash_name : String) (h : CoreGraph)
          → answers.path_of n.sort ≡ ok (some hash_name)
          → answers.is_file (agent_file hash_name) ≡ false
          → answers.graph_at (subgraph_file hash_name) ≡ ok h
          → rank h < k)
        ns
gates_lower [] k le = tt
gates_lower (n ∷ ns) k le = (
  λ hash_name h found no_agent given.
      let is_gate = agents_are_files n.sort hash_name (ok_inj found) no_agent in
      subst (λ x. rank x < k) (ok_inj given) (ground (arith, le, is_gate)),
  gates_lower ns k (omega (arith, le)),
)

answers-IsProgram : IsProgram answers rank
answers-IsProgram = record {
  finds = λ sort. (path_of sort, refl);
  gives = λ path. (gate, refl);
  lower = λ g. gates_lower g.nodes (rank g) (omega arith);
}

abbrev program : CoreGraph
program = record CoreGraph.new {
  nodes = node "g1" "gate" ∷ node "g2" "gate" ∷ node "x" "lost" ∷ [];
}

two_gates : rank program < 3
two_gates = omega arith

run_ends_example : (o : Option CoreGraph) × (run answers 3 program ≡ ok o)
run_ends_example = run_ends answers rank 3 program answers-IsProgram two_gates

-- The output is not connected, so that the run ends with its error.
not_connected :
    run_agent answers (λ graph. err output_not_connected) 3 program ≡ err output_not_connected
unfolding run_agent run add_graph add_nodes format trim
not_connected = refl
