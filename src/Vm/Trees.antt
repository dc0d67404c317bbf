-- ===== src/Vm/Trees.antt =====
-- What the virtual machine promises: a program is a tree of graphs, and its flat graph is read off the
-- tree.
use fractalide.Prelude.{
  ℕ, suc, String, Bool, true, false, none, some, List, [], ◌∷◌, ◌++◌, ◌==◌, ◌&&◌, ◌≡◌, string_eq,
  nat_eq, is_empty, format, map, ltb, if◌then◌else◌,
}
use fractalide.Result.{ok}
use fractalide.Edges.CoreGraph.{
  CoreGraph, CoreGraphNode, CoreGraphEdge, CoreGraphIMsg, CoreGraphExtIn, CoreGraphExtOut,
}
use fractalide.Vm.{Answers, under, agent_file, subgraph_file}

-- A graph with what its nodes are: agents in a file, graphs again, or nodes that are not found.
mutual
  pub data Tree : Type 0 where
    tree : CoreGraph → Branches → Tree

  pub data Branches : Type 0 where
    done : Branches
    agent : String → String → Branches → Branches
    subgraph : String → Tree → Branches → Branches
    missing : String → String → Branches → Branches

-- The tree of a program.
mutual
  pub data Unfolds (a : Answers) : CoreGraph → Tree → Type 0 where
    unfolds : {g : CoreGraph} {bs : Branches} → Grows a g.nodes bs → Unfolds a g (tree g bs)

  pub data Grows (a : Answers) : List CoreGraphNode → Branches → Type 0 where
    ends : Grows a [] done
    finds_agent :
        {n : CoreGraphNode} {ns : List CoreGraphNode} {bs : Branches} (hash_name : String)
        → a.path_of n.sort ≡ ok (some hash_name)
        → a.is_file (agent_file hash_name) ≡ true
        → Grows a ns bs
        → Grows a (n ∷ ns) (agent n.name (agent_file hash_name) bs)
    finds_graph :
        {n : CoreGraphNode} {ns : List CoreGraphNode} {bs : Branches} {t : Tree} (h : CoreGraph)
        (hash_name : String)
        → a.path_of n.sort ≡ ok (some hash_name)
        → a.is_file (agent_file hash_name) ≡ false
        → a.graph_at (subgraph_file hash_name) ≡ ok h
        → Unfolds a h t
        → Grows a ns bs
        → Grows a (n ∷ ns) (subgraph n.name t bs)
    finds_none :
        {n : CoreGraphNode} {ns : List CoreGraphNode} {bs : Branches}
        → a.path_of n.sort ≡ ok none
        → Grows a ns bs
        → Grows a (n ∷ ns) (missing n.name n.sort bs)

abbrev pub max : ℕ → ℕ → ℕ
max m k = if ltb m k then k else m

-- How deep the graphs go into one another.
unfoldable mutual
  pub height : Tree → ℕ
  height (tree g bs) = suc (height_branches bs)

  pub height_branches : Branches → ℕ
  height_branches done = 0
  height_branches (agent n file bs) = height_branches bs
  height_branches (subgraph n t bs) = max (height t) (height_branches bs)
  height_branches (missing n sort bs) = height_branches bs

-- The agents, named by the way to them.
unfoldable mutual
  pub leaves : Tree → String → List CoreGraphNode
  leaves (tree g bs) q = leaves_branches bs q

  pub leaves_branches : Branches → String → List CoreGraphNode
  leaves_branches done q = []
  leaves_branches (agent n file bs) q =
      record { name = under q n; sort = file } ∷ leaves_branches bs q
  leaves_branches (subgraph n t bs) q = leaves t (under q n) ++ leaves_branches bs q
  leaves_branches (missing n sort bs) q = leaves_branches bs q

-- The full names of all nodes.
unfoldable mutual
  pub names : Tree → String → List String
  names (tree g bs) q = names_branches bs q

  pub names_branches : Branches → String → List String
  names_branches done q = []
  names_branches (agent n file bs) q = under q n ∷ names_branches bs q
  names_branches (subgraph n t bs) q = under q n ∷ names t (under q n) ++ names_branches bs q
  names_branches (missing n sort bs) q = under q n ∷ names_branches bs q

-- A graph is wrong where its path is "error". The last of the graphs and missing nodes decides.
unfoldable mutual
  pub verdict : Tree → Bool → Bool
  verdict (tree g bs) b = verdict_branches bs (if g.path == "error" then true else b)

  pub verdict_branches : Branches → Bool → Bool
  verdict_branches done b = b
  verdict_branches (agent n file bs) b = verdict_branches bs b
  verdict_branches (subgraph n t bs) b = verdict_branches bs (verdict t b)
  verdict_branches (missing n sort bs) b = verdict_branches bs false

-- What is printed of the missing nodes.
unfoldable mutual
  pub complaints : Tree → List String
  complaints (tree g bs) = complaints_branches bs

  pub complaints_branches : Branches → List String
  complaints_branches done = []
  complaints_branches (agent n file bs) = complaints_branches bs
  complaints_branches (subgraph n t bs) = complaints t ++ complaints_branches bs
  complaints_branches (missing n sort bs) =
      format ("agent " ∷ n ∷ "(" ∷ sort ∷ ") doesn't exist" ∷ []) ∷ complaints_branches bs

module _ {X : Type 0} (door : CoreGraph → String → X → X) where
  -- Each graph of the tree may redirect a thing, from the top down.
  unfoldable mutual
    pub follow : Tree → String → X → X
    follow (tree g bs) q x = follow_branches bs q (door g q x)

    pub follow_branches : Branches → String → X → X
    follow_branches done q x = x
    follow_branches (agent n file bs) q x = follow_branches bs q x
    follow_branches (subgraph n t bs) q x = follow_branches bs q (follow t (under q n) x)
    follow_branches (missing n sort bs) q x = follow_branches bs q x

  -- The things of all graphs, redirected by their own graph and those that come after it.
  unfoldable mutual
    unfolding follow follow_branches

    pub gather : (CoreGraph → String → List X) → Tree → String → List X
    gather own (tree g bs) q = map (follow (tree g bs) q) (own g q) ++ gather_branches own bs q

    pub gather_branches : (CoreGraph → String → List X) → Branches → String → List X
    gather_branches own done q = []
    gather_branches own (agent n file bs) q = gather_branches own bs q
    gather_branches own (subgraph n t bs) q =
        map (follow_branches bs q) (gather own t (under q n)) ++ gather_branches own bs q
    gather_branches own (missing n sort bs) q = gather_branches own bs q

-- The outside ports of the graphs that come before the first agent.
module _ {X : Type 0} (own : CoreGraph → String → List X) where
  unfoldable mutual
    unfolding leaves

    pub outside : Tree → String → List X
    outside (tree g bs) q = own g q ++ outside_branches bs q

    pub outside_branches : Branches → String → List X
    outside_branches done q = []
    outside_branches (agent n file bs) q = []
    outside_branches (subgraph n t bs) q =
        outside t (under q n)
        ++ (if is_empty (leaves t (under q n)) then outside_branches bs q else [])
    outside_branches (missing n sort bs) q = outside_branches bs q

-- The end of an edge, a node and its port.
abbrev pub End : Type 0
End = String × String

-- A port of a graph, and the port of an inner node that is behind it.
pub record Door : Type 0 where
  pub port : String
  pub comp : String
  pub inner : String

abbrev pub door_in : CoreGraphExtIn → Door
door_in n = record { port = n.port; comp = n.in_comp; inner = n.in_port }

abbrev pub door_out : CoreGraphExtOut → Door
door_out n = record { port = n.port; comp = n.out_comp; inner = n.out_port }

unfoldable pub through : List Door → String → End → End
through [] q x = x
through (d ∷ ds) q x =
    through ds q (if x.0 == q && x.1 == d.port then (under q d.comp, d.inner) else x)

abbrev pub with_ends : CoreGraphEdge → End → End → CoreGraphEdge
with_ends e i o = record e { in_comp = i.0; in_port = i.1; out_comp = o.0; out_port = o.1 }

unfoldable pub edge_door : CoreGraph → String → CoreGraphEdge → CoreGraphEdge
unfolding through
edge_door g q e =
    with_ends e (through (map door_in g.ext_in) q (e.in_comp, e.in_port))
      (through (map door_out g.ext_out) q (e.out_comp, e.out_port))

-- A message is led by the name of the inner port.
unfoldable pub imsg_through : List CoreGraphExtIn → String → CoreGraphIMsg → CoreGraphIMsg
imsg_through [] q i = i
imsg_through (n ∷ ns) q i = imsg_through ns q (
    if i.comp == q && i.port == n.in_port
    then record i { comp = under q n.in_comp; port = n.in_port; elem = n.in_elem }
    else i)

abbrev pub imsg_door : CoreGraph → String → CoreGraphIMsg → CoreGraphIMsg
imsg_door g q i = imsg_through g.ext_in q i

abbrev pub own_edge : String → CoreGraphEdge → CoreGraphEdge
own_edge q e = record e { out_comp = under q e.out_comp; in_comp = under q e.in_comp }

abbrev pub own_imsg : String → CoreGraphIMsg → CoreGraphIMsg
own_imsg q i = record i { comp = under q i.comp }

abbrev pub own_port_in : String → CoreGraphExtIn → CoreGraphExtIn
own_port_in q n = record n { in_comp = under q n.in_comp }

abbrev pub own_port_out : String → CoreGraphExtOut → CoreGraphExtOut
own_port_out q n = record n { out_comp = under q n.out_comp }

abbrev pub own_edges : CoreGraph → String → List CoreGraphEdge
own_edges g q = map (own_edge q) g.edges

abbrev pub own_imsgs : CoreGraph → String → List CoreGraphIMsg
own_imsgs g q = map (own_imsg q) g.imsgs

abbrev pub own_ext_in : CoreGraph → String → List CoreGraphExtIn
own_ext_in g q = map (own_port_in q) g.ext_in

abbrev pub own_ext_out : CoreGraph → String → List CoreGraphExtOut
own_ext_out g q = map (own_port_out q) g.ext_out

-- The flat graph of a tree.
unfoldable pub flat : Tree → CoreGraph
unfolding leaves gather outside edge_door imsg_through
flat t = record {
  path = "";
  nodes = leaves t "";
  edges = gather edge_door own_edges t "";
  imsgs = gather imsg_door own_imsgs t "";
  ext_in = outside own_ext_in t "";
  ext_out = outside own_ext_out t "";
}
