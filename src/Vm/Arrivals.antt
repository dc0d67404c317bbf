-- ===== src/Vm/Arrivals.antt =====
-- Every edge of a program's graphs is in the flat graph, between agents.
use mathlib.Core.List.{
  Mem, mem-append_left, mem-append_right, mem-map_of_mem, mem-cons_of_mem, map-append,
}
use fractalide.Prelude.{
  ℕ, ◌≤◌, false, some, All, All-append_left, All-append_right, Pairwise, Pairwise-append_left,
  Pairwise-append_right, Pairwise-append_cross, ◌≡◌, ◌≢◌, refl, sym, ap, ◌∙◌, subst, String, List,
  ◌∷◌, ◌++◌, map,
}
use fractalide.Edges.CoreGraph.{CoreGraph, CoreGraphNode, CoreGraphEdge}
use fractalide.Vm.{Answers, under, run}
use fractalide.Vm.Trees.{
  Unfolds, height, verdict, Tree, tree, Branches, done, agent, subgraph, missing, leaves,
  leaves_branches, names, names_branches, follow, follow_branches, gather, gather_branches, End,
  Door, through, door_in, door_out, edge_door, own_edges, own_edge, with_ends, flat,
}
use fractalide.Vm.Routes.{
  Leads, start_is_named, end_is_named, end_is_leaf, follow_branches-Leads, end_stays, through_stays,
  All-ne_sym,
}
use fractalide.Vm.Flatten.{run_is_flat}
use fractalide.Result.{ok}

abbrev pub doors_in : CoreGraph → List Door
doors_in g = map door_in g.ext_in

abbrev pub doors_out : CoreGraph → List Door
doors_out g = map door_out g.ext_out

abbrev in_door : CoreGraph → String → End → End
in_door g q x = through (doors_in g) q x

abbrev out_door : CoreGraph → String → End → End
out_door g q x = through (doors_out g) q x

-- The ends of an edge go their ways each on its own.
mutual
  unfolding follow follow_branches edge_door

  follow_ends :
      (t : Tree) (q : String) (e : CoreGraphEdge)
      → follow edge_door t q e
        ≡ with_ends e
            (follow in_door t q (e.in_comp, e.in_port))
            (follow out_door t q (e.out_comp, e.out_port))
  follow_ends (tree g bs) q e = follow_branches_ends bs q (edge_door g q e)

  follow_branches_ends :
      (bs : Branches) (q : String) (e : CoreGraphEdge)
      → follow_branches edge_door bs q e
        ≡ with_ends e
            (follow_branches in_door bs q (e.in_comp, e.in_port))
            (follow_branches out_door bs q (e.out_comp, e.out_port))
  follow_branches_ends done q e = refl
  follow_branches_ends (agent n file bs) q e = follow_branches_ends bs q e
  follow_branches_ends (subgraph n t bs) q e =
      ap (follow_branches edge_door bs q) (follow_ends t (under q n) e)
      ∙ follow_branches_ends bs q (
          with_ends e (follow in_door t (under q n) (e.in_comp, e.in_port))
            (follow out_door t (under q n) (e.out_comp, e.out_port)))
  follow_branches_ends (missing n sort bs) q e = follow_branches_ends bs q e

-- The graph `h` with the nodes `cs` is a subgraph, of the full name `u`.
pub data Within (h : CoreGraph) (cs : Branches) (u : String) : Branches → String → Type 0 where
  found :
      {n : String} {t : Tree} {bs : Branches} {q : String}
      → t ≡ tree h cs
      → under q n ≡ u
      → Within h cs u (subgraph n t bs) q
  deeper :
      {n : String} {g : CoreGraph} {ds bs : Branches} {q : String}
      → Within h cs u ds (under q n)
      → Within h cs u (subgraph n (tree g ds) bs) q
  past_agent :
      {n file : String} {bs : Branches} {q : String}
      → Within h cs u bs q
      → Within h cs u (agent n file bs) q
  past_graph :
      {n : String} {t : Tree} {bs : Branches} {q : String}
      → Within h cs u bs q
      → Within h cs u (subgraph n t bs) q
  past_missing :
      {n sort : String} {bs : Branches} {q : String}
      → Within h cs u bs q
      → Within h cs u (missing n sort bs) q

-- The first graph, or a subgraph.
pub data Stands (h : CoreGraph) (cs : Branches) (u : String) : Tree → Type 0 where
  first : {t : Tree} → t ≡ tree h cs → u ≡ "" → Stands h cs u t
  nested : {g : CoreGraph} {bs : Branches} → Within h cs u bs "" → Stands h cs u (tree g bs)

module _ (h : CoreGraph) (cs : Branches) (u : String) (e : CoreGraphEdge) (i o : End)
    (member : Mem e h.edges) (way_in : Leads doors_in cs u e.in_comp e.in_port i)
    (way_out : Leads doors_out cs u e.out_comp e.out_port o) where
  -- In the graph itself,
  own_edge_arrives :
      Pairwise ◌≢◌ (u ∷ names_branches cs u)
      → follow edge_door (tree h cs) u (own_edge u e) ≡ with_ends e i o
  unfolding follow
  own_edge_arrives w =
      let inward : follow in_door (tree h cs) u (under u e.in_comp, e.in_port) ≡ i =
        ap (follow_branches in_door cs u)
          (through_stays (doors_in h) u _ (start_is_named doors_in (λ m. u ≢ m) way_in w.0))
        ∙ follow_branches-Leads doors_in way_in w.1 in
      let outward : follow out_door (tree h cs) u (under u e.out_comp, e.out_port) ≡ o =
        ap (follow_branches out_door cs u)
          (through_stays (doors_out h) u _ (start_is_named doors_out (λ m. u ≢ m) way_out w.0))
        ∙ follow_branches-Leads doors_out way_out w.1 in
      follow_ends (tree h cs) u (own_edge u e) ∙ λ k. with_ends e (inward k) (outward k)

  gathered_here :
      Pairwise ◌≢◌ (u ∷ names_branches cs u)
      → Mem (with_ends e i o) (gather edge_door own_edges (tree h cs) u)
  unfolding gather
  gathered_here w = mem-append_left (gather_branches edge_door own_edges cs u) (
      subst (λ x. Mem x (map (follow edge_door (tree h cs) u) (map (own_edge u) h.edges)))
        (own_edge_arrives w)
        (mem-map_of_mem (follow edge_door (tree h cs) u) (mem-map_of_mem (own_edge u) member)))

  -- further up,
  passes_on :
      (bs : Branches) (q : String) (es : List CoreGraphEdge) (inner : List String)
      → All (λ m. All (λ k. m ≢ k) (names_branches bs q)) inner
      → ((P : String → Type 0) → All P inner → All P (names_branches cs u))
      → Mem (with_ends e i o) es
      → Mem (with_ends e i o) (map (follow_branches edge_door bs q) es)
  passes_on bs q es inner cross part m =
      let named = part (λ m. All (λ k. m ≢ k) (names_branches bs q)) cross in
      let inward =
        end_stays doors_in bs q i
          (All-ne_sym i.0 (names_branches bs q) (end_is_named doors_in _ way_in named)) in
      let outward =
        end_stays doors_out bs q o
          (All-ne_sym o.0 (names_branches bs q) (end_is_named doors_out _ way_out named)) in
      subst (λ x. Mem x (map (follow_branches edge_door bs q) es))
        (follow_branches_ends bs q (with_ends e i o) ∙ λ k. with_ends e (inward k) (outward k))
        (mem-map_of_mem (follow_branches edge_door bs q) m)

  within_names :
      {bs : Branches} {q : String} (P : String → Type 0)
      → Within h cs u bs q
      → All P (names_branches bs q)
      → All P (names_branches cs u)
  unfolding names_branches names
  within_names P (found {n} {t} {bs} {q} same here) k =
      let at_u : All P (names t u) =
        subst (λ v. All P (names t v)) here
          (All-append_left P (names t (under q n)) (names_branches bs q) k.1) in
      subst (λ x. All P (names x u)) same at_u
  within_names P (deeper v) k = within_names P v (All-append_left P _ _ k.1)
  within_names P (past_agent v) k = within_names P v k.1
  within_names P (past_graph v) k = within_names P v (All-append_right P _ _ k.1)
  within_names P (past_missing v) k = within_names P v k.1

  -- and so in the whole.
  gathered :
      {bs : Branches} {q : String}
      → Within h cs u bs q
      → Pairwise ◌≢◌ (names_branches bs q)
      → Mem (with_ends e i o) (gather_branches edge_door own_edges bs q)
  unfolding names_branches names gather_branches gather
  gathered (found {n} {t} {bs} {q} same here) w =
      let rest = names_branches bs q in
      let at_u : Pairwise ◌≢◌ (u ∷ names t u ++ rest) =
        subst (λ v. Pairwise ◌≢◌ (v ∷ names t v ++ rest)) here w in
      let inside : Pairwise ◌≢◌ (u ∷ names_branches cs u ++ rest) =
        subst (λ x. Pairwise ◌≢◌ (u ∷ names x u ++ rest)) same at_u in
      rw (same, here)
        (mem-append_left (gather_branches edge_door own_edges bs q) (
          passes_on bs q (gather edge_door own_edges (tree h cs) u) (names_branches cs u)
            (Pairwise-append_cross ◌≢◌ (names_branches cs u) rest inside.1) (λ P k. k)
            (gathered_here (
              All-append_left (λ k. u ≢ k) (names_branches cs u) rest inside.0,
              Pairwise-append_left ◌≢◌ (names_branches cs u) rest inside.1,
            ))))
  gathered (deeper {n} {g} {ds} {bs} {q} v) w =
      mem-append_left (gather_branches edge_door own_edges bs q) (
        passes_on bs q (gather edge_door own_edges (tree g ds) (under q n))
          (names_branches ds (under q n))
          (Pairwise-append_cross ◌≢◌ (names_branches ds (under q n)) (names_branches bs q) w.1)
          (λ P k. within_names P v k)
          (mem-append_right
            (map (follow edge_door (tree g ds) (under q n)) (own_edges g (under q n)))
            (gathered v (
              Pairwise-append_left ◌≢◌ (names_branches ds (under q n)) (names_branches bs q) w.1))))
  gathered (past_agent v) w = gathered v w.1
  gathered (past_graph v) w = mem-append_right _ (gathered v (Pairwise-append_right ◌≢◌ _ _ w.1))
  gathered (past_missing v) w = gathered v w.1

-- The edges of the tree's graphs are in the flat graph.
edges_gathered :
    {t : Tree} (h : CoreGraph) (cs : Branches) (u : String) (e : CoreGraphEdge) (i o : End)
    → Mem e h.edges
    → Leads doors_in cs u e.in_comp e.in_port i
    → Leads doors_out cs u e.out_comp e.out_port o
    → Stands h cs u t
    → Pairwise ◌≢◌ ("" ∷ names t "")
    → Mem (with_ends e i o) (gather edge_door own_edges t "")
unfolding gather names
edges_gathered h cs u e i o member way_in way_out (first {t} same top) w = rw same (
    subst (λ v. Mem (with_ends e i o) (gather edge_door own_edges (tree h cs) v)) top
      (gathered_here h cs u e i o member way_in way_out (
        subst (λ v. Pairwise ◌≢◌ (v ∷ names_branches cs v)) (sym top)
          (subst (λ x. Pairwise ◌≢◌ ("" ∷ names x "")) same w))))
edges_gathered h cs u e i o member way_in way_out (nested {g} {bs} v) w =
    mem-append_right (map (follow edge_door (tree g bs) "") (own_edges g ""))
      (gathered h cs u e i o member way_in way_out v w.1)

abbrev pub node_names : List CoreGraphNode → List String
node_names ns = map (λ (n : CoreGraphNode). n.name) ns

-- The agents of a subgraph are agents of the whole.
within_leaves :
    {h : CoreGraph} {cs : Branches} {u : String} {bs : Branches} {q : String} (x : String)
    → Within h cs u bs q
    → Mem x (node_names (leaves_branches cs u))
    → Mem x (node_names (leaves_branches bs q))
unfolding leaves_branches leaves
within_leaves {h} {cs} x (found {n} {t} {bs} {q} same here) m =
    rw (map-append, same, here) (mem-append_left (node_names (leaves_branches bs q)) m)
within_leaves x (deeper {bs} {q} v) m =
    rw map-append (mem-append_left (node_names (leaves_branches bs q)) (within_leaves x v m))
within_leaves x (past_agent v) m = mem-cons_of_mem _ (within_leaves x v m)
within_leaves x (past_graph {n} {t} {q} v) m =
    rw map-append (mem-append_right (node_names (leaves t (under q n))) (within_leaves x v m))
within_leaves x (past_missing v) m = within_leaves x v m

stands_leaves :
    {h : CoreGraph} {cs : Branches} {u : String} {t : Tree} (x : String)
    → Stands h cs u t
    → Mem x (node_names (leaves_branches cs u))
    → Mem x (node_names (leaves t ""))
unfolding leaves
stands_leaves {cs} x (first same top) m =
    rw same (subst (λ v. Mem x (node_names (leaves_branches cs v))) top m)
stands_leaves x (nested v) m = within_leaves x v m

-- In a program that unfolds to a tree, whose nodes all have different full names, and whose verdict is not
-- that a graph is wrong, take an edge `e` of any of its graphs, `h`, such that both its ends lead,
-- through the ports of subgraphs, to a port of an agent, `i` and `o`. Then, with a depth of at least the
-- tree's height, the virtual machine sends a graph in which that edge joins `o` to `i`, and the nodes of
-- `i` and `o` are agents of this graph.
pub edges_reach_agents :
    (a : Answers) (g : CoreGraph) (t : Tree) (depth : ℕ) (h : CoreGraph) (cs : Branches)
    (u : String) (e : CoreGraphEdge) (i o : End)
    → Unfolds a g t
    → height t ≤ depth
    → verdict t false ≡ false
    → Pairwise ◌≢◌ ("" ∷ names t "")
    → Stands h cs u t
    → Mem e h.edges
    → Leads doors_in cs u e.in_comp e.in_port i
    → Leads doors_out cs u e.out_comp e.out_port o
    → (f : CoreGraph) × (run a depth g ≡ ok (some f))
      × Mem (with_ends e i o) f.edges
      × Mem i.0 (node_names f.nodes)
      × Mem o.0 (node_names f.nodes)
unfolding flat
edges_reach_agents a g t depth h cs u e i o unfolded deep right different stands m way_in way_out =
    (
      flat t,
      run_is_flat a g t depth unfolded deep ∙ rw right refl,
      edges_gathered h cs u e i o m way_in way_out stands different,
      stands_leaves i.0 stands (end_is_leaf doors_in way_in),
      stands_leaves o.0 stands (end_is_leaf doors_out way_out),
    )
