-- ===== src/Vm/Ends.antt =====
-- The graphs of a program that are put together without an end, and those that are not.
use fractalide.Prelude.{
  All, ℕ, zero, suc, ◌<◌, ◌≡◌, ◌∙◌, ap, refl, String, Bool, true, false, Option, none, some, List,
  [], ◌∷◌, arith, if◌then◌else◌,
}
use fractalide.Result.{ok}
use fractalide.Edges.CoreGraph.{CoreGraph, CoreGraphNode}
use fractalide.Vm.{
  Answers, empty, Flat, Stage, under, subgraph_file, agent_file, add_node, add_nodes, wired,
  add_graph, run,
}

-- A program: every question is answered, and the graph of a node that is a subgraph is of a lower rank
-- than the graph in which the node stands.
pub record IsProgram (a : Answers) (rank : CoreGraph → ℕ) : Type 0 where
  pub finds : (sort : String) → (p : Option String) × (a.path_of sort ≡ ok p)
  pub gives : (path : String) → (g : CoreGraph) × (a.graph_at path ≡ ok g)
  pub lower :
      (g : CoreGraph)
      → All
          (λ (n : CoreGraphNode).
            (hash_name : String) (h : CoreGraph)
            → a.path_of n.sort ≡ ok (some hash_name)
            → a.is_file (agent_file hash_name) ≡ false
            → a.graph_at (subgraph_file hash_name) ≡ ok h
            → rank h < rank g)
          g.nodes

module _ (a : Answers) (rank : CoreGraph → ℕ) (v : IsProgram a rank) where
  abbrev Ends : Stage → Type 0
  Ends r = (t : Flat) × (r ≡ (ok tt, t))

  chosen : (b : Bool) (r q : Stage) → Ends r → (b ≡ false → Ends q) → Ends (if b then r else q)
  chosen true r q x y = x
  chosen false r q x y = y refl

  Ends-add_node :
      (nested : CoreGraph → String → Flat → Stage) (name : String) (n : CoreGraphNode)
      (p : Option String) (s : Flat)
      → ((hash_name : String) (h : CoreGraph)
          → p ≡ some hash_name
          → a.is_file (agent_file hash_name) ≡ false
          → a.graph_at (subgraph_file hash_name) ≡ ok h
          → (name : String) (s : Flat) → Ends (nested h name s))
      → Ends (add_node a nested name n p s)
  unfolding add_node
  Ends-add_node nested name n none s f = (_, refl)
  Ends-add_node nested name n (some hash_name) s f =
      chosen (a.is_file (agent_file hash_name)) _ _ (_, refl)
        (λ no_agent.
          let (h, given) = v.gives (subgraph_file hash_name) in
          let (t, nested_ends) = f hash_name h refl no_agent given (under name n.name) s in
          (t, rw given (rw nested_ends refl)))

  Ends-add_nodes :
      (depth : ℕ) (g : CoreGraph) (name : String) (ns : List CoreGraphNode) (s : Flat)
      → ((h : CoreGraph)
          → rank h < rank g
          → (name : String) (s : Flat) → Ends (add_graph a depth h name s))
      → All
          (λ (n : CoreGraphNode).
            (hash_name : String) (h : CoreGraph)
            → a.path_of n.sort ≡ ok (some hash_name)
            → a.is_file (agent_file hash_name) ≡ false
            → a.graph_at (subgraph_file hash_name) ≡ ok h
            → rank h < rank g)
          ns
      → Ends (add_nodes a (add_graph a depth) name ns s)
  unfolding add_nodes
  Ends-add_nodes depth g name [] s f all = (s, refl)
  Ends-add_nodes depth g name (n ∷ ns) s f all =
      let (p, found) = v.finds n.sort in
      let (t, here) = Ends-add_node (add_graph a depth) name n p s (λ hash_name h e no_agent given.
        f h (all.0 hash_name h (found ∙ ap ok e) no_agent given)) in
      let (u, later) = Ends-add_nodes depth g name ns t f all.1 in (u, rw found (rw here later))

  Ends-add_graph :
      (depth : ℕ) (g : CoreGraph) (name : String) (s : Flat)
      → rank g < depth
      → Ends (add_graph a depth g name s)
  unfolding add_graph
  Ends-add_graph zero g name s h = absurd (omega (arith, h))
  Ends-add_graph (suc depth) g name s h =
      Ends-add_nodes depth g name g.nodes (wired g name s)
        (λ k below name s. Ends-add_graph depth k name s (omega (arith, h, below))) (v.lower g)

-- For a program whose subgraphs do not contain one another in a circle, a depth of one more than the rank
-- of the first graph is enough: the virtual machine returns, with a flat graph or without one.
pub run_ends :
    (a : Answers) (rank : CoreGraph → ℕ) (depth : ℕ) (g : CoreGraph)
    → IsProgram a rank
    → rank g < depth
    → (o : Option CoreGraph) × (run a depth g ≡ ok o)
unfolding run
run_ends a rank depth g v h =
    let (t, e) = Ends-add_graph a rank v depth g "" empty h in
    (if t.errors then none else some t.graph, rw e refl)
