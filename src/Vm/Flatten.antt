-- ===== src/Vm/Flatten.antt =====
-- The virtual machine makes the flat graph of a program's tree.
use mathlib.Core.List.{map-append, map-map, append-nil, append_assoc}
use fractalide.Prelude.{
  ℕ, zero, suc, ◌≤◌, ◌≡◌, refl, sym, ap, ◌∙◌, String, Bool, true, false, none, some, List, [], ◌∷◌,
  ◌++◌, ◌==◌, string_eq, is_empty, map, format, arith, if◌then◌else◌,
}
use fractalide.Result.{ok}
use fractalide.Edges.CoreGraph.{CoreGraph, CoreGraphNode}
use fractalide.Vm.{
  Answers, Flat, empty, under, agent_file, add_node, add_nodes, add_graph, wired, handed, run,
}
use fractalide.Vm.Trees.{
  Tree, tree, Branches, done, agent, subgraph, missing, Unfolds, unfolds, Grows, ends, finds_agent,
  finds_graph, finds_none, height, height_branches, leaves, leaves_branches, verdict,
  verdict_branches, complaints, complaints_branches, follow, follow_branches, gather,
  gather_branches, outside, outside_branches, edge_door, imsg_door, own_edges, own_imsgs,
  own_ext_in, own_ext_out, flat,
}
use fractalide.Vm.Wiring.{wired_lem}

-- Things that a tree redirects and adds, one level at a time.
module _ {X : Type 0} (door : CoreGraph → String → X → X) (own : CoreGraph → String → List X) where
  gather-tree :
      (g : CoreGraph) (bs : Branches) (q : String) (xs : List X)
      → map (follow_branches door bs q) (map (door g q) (xs ++ own g q))
          ++ gather_branches door own bs q
        ≡ map (follow door (tree g bs) q) xs ++ gather door own (tree g bs) q
  unfolding follow gather
  gather-tree g bs q xs = simp (map-append, map-map, append_assoc)

  gather-subgraph :
      (n : String) (t : Tree) (bs : Branches) (q : String) (xs : List X)
      → map
            (follow_branches door bs q)
            (map (follow door t (under q n)) xs ++ gather door own t (under q n))
          ++ gather_branches door own bs q
        ≡ map (follow_branches door (subgraph n t bs) q) xs
          ++ gather_branches door own (subgraph n t bs) q
  unfolding follow_branches gather_branches
  gather-subgraph n t bs q xs = simp (map-append, map-map, append_assoc)

module _ {X : Type 0} where
  as_it_was : (xs : List X) → xs ≡ map (λ x. x) xs ++ []
  as_it_was [] = refl
  as_it_was (x ∷ xs) = ap (λ l. x ∷ l) (as_it_was xs)

  unopened : (b : Bool) (xs : List X) → xs ≡ (if b then xs ++ [] else xs)
  unopened true xs = sym (append-nil xs)
  unopened false xs = refl

module _ {X : Type 0} (own : CoreGraph → String → List X) where
  outside-tree :
      (g : CoreGraph) (bs : Branches) (q : String) (b : Bool) (xs : List X)
      → (if b
          then (if b then xs ++ own g q else xs) ++ outside_branches own bs q
          else (if b then xs ++ own g q else xs))
        ≡ (if b then xs ++ outside own (tree g bs) q else xs)
  unfolding outside
  outside-tree g bs q true xs = append_assoc xs (own g q) (outside_branches own bs q)
  outside-tree g bs q false xs = refl

  outside-subgraph :
      (n : String) (t : Tree) (bs : Branches) (q : String) (ns : List CoreGraphNode) (xs : List X)
      → (if is_empty (ns ++ leaves t (under q n))
          then (if is_empty ns then xs ++ outside own t (under q n) else xs)
            ++ outside_branches own bs q
          else (if is_empty ns then xs ++ outside own t (under q n) else xs))
        ≡ (if is_empty ns then xs ++ outside_branches own (subgraph n t bs) q else xs)
  unfolding outside_branches
  outside-subgraph n t bs q [] xs =
      outside_first (is_empty (leaves t (under q n))) xs (outside own t (under q n))
        (outside_branches own bs q)
    where
      outside_first :
          (b : Bool) (xs ys zs : List X)
          → (if b then xs ++ ys ++ zs else xs ++ ys) ≡ xs ++ (ys ++ (if b then zs else []))
      outside_first true xs ys zs = append_assoc xs ys zs
      outside_first false xs ys zs = ap (λ l. xs ++ l) (sym (append-nil ys))
  outside-subgraph n t bs q (m ∷ ns) xs = refl

  outside-agent :
      (n file : String) (bs : Branches) (q : String) (m : CoreGraphNode) (ns : List CoreGraphNode)
      (xs : List X)
      → (if is_empty (ns ++ m ∷ []) then xs ++ outside_branches own bs q else xs)
        ≡ (if is_empty ns then xs ++ outside_branches own (agent n file bs) q else xs)
  unfolding outside_branches
  outside-agent n file bs q m [] xs = sym (append-nil xs)
  outside-agent n file bs q m (k ∷ ns) xs = refl

-- What a tree, or the nodes of a graph, make of the flat graph.
abbrev after : Tree → String → Flat → Flat
after t q s = record s {
  errors = verdict t s.errors;
  printed = s.printed ++ complaints t;
  graph = record (s.graph) {
    nodes = s.graph.nodes ++ leaves t q;
    edges = map (follow edge_door t q) s.graph.edges ++ gather edge_door own_edges t q;
    imsgs = map (follow imsg_door t q) s.graph.imsgs ++ gather imsg_door own_imsgs t q;
    ext_in =
        if is_empty s.graph.nodes then s.graph.ext_in ++ outside own_ext_in t q else s.graph.ext_in;
    ext_out =
        if is_empty s.graph.nodes
        then s.graph.ext_out ++ outside own_ext_out t q
        else s.graph.ext_out;
  };
}

abbrev after_branches : Branches → String → Flat → Flat
after_branches bs q s = record s {
  errors = verdict_branches bs s.errors;
  printed = s.printed ++ complaints_branches bs;
  graph = record (s.graph) {
    nodes = s.graph.nodes ++ leaves_branches bs q;
    edges =
        map (follow_branches edge_door bs q) s.graph.edges
        ++ gather_branches edge_door own_edges bs q;
    imsgs =
        map (follow_branches imsg_door bs q) s.graph.imsgs
        ++ gather_branches imsg_door own_imsgs bs q;
    ext_in =
        if is_empty s.graph.nodes
        then s.graph.ext_in ++ outside_branches own_ext_in bs q
        else s.graph.ext_in;
    ext_out =
        if is_empty s.graph.nodes
        then s.graph.ext_out ++ outside_branches own_ext_out bs q
        else s.graph.ext_out;
  };
}

after-tree :
    (g : CoreGraph) (bs : Branches) (q : String) (s : Flat)
    → after_branches bs q (wired g q s) ≡ after (tree g bs) q s
unfolding leaves verdict complaints
after-tree g bs q s = ap (after_branches bs q) (wired_lem g q s) ∙ λ i. record s {
  errors = verdict_branches bs (if g.path == "error" then true else s.errors);
  printed = s.printed ++ complaints_branches bs;
  graph = record (s.graph) {
    nodes = s.graph.nodes ++ leaves_branches bs q;
    edges = gather-tree edge_door own_edges g bs q s.graph.edges i;
    imsgs = gather-tree imsg_door own_imsgs g bs q s.graph.imsgs i;
    ext_in = outside-tree own_ext_in g bs q (is_empty s.graph.nodes) s.graph.ext_in i;
    ext_out = outside-tree own_ext_out g bs q (is_empty s.graph.nodes) s.graph.ext_out i;
  };
}

after-subgraph :
    (n : String) (t : Tree) (bs : Branches) (q : String) (s : Flat)
    → after_branches bs q (after t (under q n) s) ≡ after_branches (subgraph n t bs) q s
unfolding leaves_branches verdict_branches complaints_branches
after-subgraph n t bs q s = λ i. record s {
  errors = verdict_branches bs (verdict t s.errors);
  printed = append_assoc s.printed (complaints t) (complaints_branches bs) i;
  graph = record (s.graph) {
    nodes = append_assoc s.graph.nodes (leaves t (under q n)) (leaves_branches bs q) i;
    edges = gather-subgraph edge_door own_edges n t bs q s.graph.edges i;
    imsgs = gather-subgraph imsg_door own_imsgs n t bs q s.graph.imsgs i;
    ext_in = outside-subgraph own_ext_in n t bs q s.graph.nodes s.graph.ext_in i;
    ext_out = outside-subgraph own_ext_out n t bs q s.graph.nodes s.graph.ext_out i;
  };
}

after-done : (q : String) (s : Flat) → s ≡ after_branches done q s
unfolding leaves_branches verdict_branches complaints_branches follow_branches gather_branches
    outside_branches
after-done q s = λ i. record s {
  printed = sym (append-nil s.printed) i;
  graph = record (s.graph) {
    nodes = sym (append-nil s.graph.nodes) i;
    edges = as_it_was s.graph.edges i;
    imsgs = as_it_was s.graph.imsgs i;
    ext_in = unopened (is_empty s.graph.nodes) s.graph.ext_in i;
    ext_out = unopened (is_empty s.graph.nodes) s.graph.ext_out i;
  };
}

after-agent :
    (n file : String) (bs : Branches) (q : String) (s : Flat)
    → after_branches bs q (record s {
      graph = record (s.graph) {
        nodes = s.graph.nodes ++ record { name = under q n; sort = file } ∷ [];
      };
    })
      ≡ after_branches (agent n file bs) q s
unfolding leaves_branches verdict_branches complaints_branches follow_branches gather_branches
after-agent n file bs q s = λ i. record s {
  errors = verdict_branches bs s.errors;
  printed = s.printed ++ complaints_branches bs;
  graph = record (s.graph) {
    nodes = append_assoc s.graph.nodes (leaf ∷ []) (leaves_branches bs q) i;
    edges =
        map (follow_branches edge_door bs q) s.graph.edges
        ++ gather_branches edge_door own_edges bs q;
    imsgs =
        map (follow_branches imsg_door bs q) s.graph.imsgs
        ++ gather_branches imsg_door own_imsgs bs q;
    ext_in = outside-agent own_ext_in n file bs q leaf s.graph.nodes s.graph.ext_in i;
    ext_out = outside-agent own_ext_out n file bs q leaf s.graph.nodes s.graph.ext_out i;
  };
}
  where
    leaf : CoreGraphNode
    leaf = record { name = under q n; sort = file }

after-missing :
    (n sort : String) (bs : Branches) (q : String) (s : Flat)
    → after_branches bs q (record s {
      errors = false;
      printed = s.printed ++ format ("agent " ∷ n ∷ "(" ∷ sort ∷ ") doesn't exist" ∷ []) ∷ [];
    })
      ≡ after_branches (missing n sort bs) q s
unfolding leaves_branches verdict_branches complaints_branches follow_branches gather_branches
    outside_branches
after-missing n sort bs q s = λ i. record (after_branches (missing n sort bs) q s) {
  printed =
      append_assoc s.printed (format ("agent " ∷ n ∷ "(" ∷ sort ∷ ") doesn't exist" ∷ []) ∷ [])
        (complaints_branches bs) i;
}

module _ (a : Answers) where
  mutual
    unfolding add_graph add_nodes add_node height height_branches

    add_graph-after :
        {g : CoreGraph} {t : Tree}
        → Unfolds a g t
        → (q : String) (s : Flat) (depth : ℕ) → height t ≤ depth
        → add_graph a depth g q s ≡ (ok tt, after t q s)
    add_graph-after (unfolds w) q s zero h = absurd (omega (arith, h))
    add_graph-after (unfolds {g} {bs} w) q s (suc depth) h =
        add_nodes-after w q (wired g q s) depth (omega (arith, h))
        ∙ ap (λ r. (ok tt, r)) (after-tree g bs q s)

    add_nodes-after :
        {ns : List CoreGraphNode} {bs : Branches}
        → Grows a ns bs
        → (q : String) (s : Flat) (depth : ℕ) → height_branches bs ≤ depth
        → add_nodes a (add_graph a depth) q ns s ≡ (ok tt, after_branches bs q s)
    add_nodes-after ends q s depth h = ap (λ r. (ok tt, r)) (after-done q s)
    add_nodes-after (finds_agent {n} {ns} {bs} hash_name found there w) q s depth h =
        rw (found, there)
          (add_nodes-after w q _ depth h
            ∙ ap (λ r. (ok tt, r)) (after-agent n.name (agent_file hash_name) bs q s))
    add_nodes-after (finds_graph {n} {ns} {bs} {t} g hash_name found no_agent given u w) q s depth
          h =
        rw (found, no_agent, given, add_graph-after u (under q n.name) s depth (ground arith))
          (add_nodes-after w q _ depth (ground arith)
            ∙ ap (λ r. (ok tt, r)) (after-subgraph n.name t bs q s))
    add_nodes-after (finds_none {n} {ns} {bs} found w) q s depth h =
        rw found (
          add_nodes-after w q _ depth h ∙ ap (λ r. (ok tt, r)) (after-missing n.name n.sort bs q s))

-- The virtual machine refines its specification: of a program that unfolds to a tree, with a depth of at
-- least the tree's height, it sends the flat graph of the tree, and none where the last word, of the
-- graphs that are wrong and the nodes that are missing, is that of a wrong graph.
pub run_is_flat :
    (a : Answers) (g : CoreGraph) (t : Tree) (depth : ℕ)
    → Unfolds a g t
    → height t ≤ depth
    → run a depth g ≡ ok (if verdict t false then none else some (flat t))
unfolding run flat
run_is_flat a g t depth u h = ap handed (add_graph-after a u "" empty depth h)
