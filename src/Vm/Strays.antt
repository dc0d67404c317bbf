-- ===== src/Vm/Strays.antt =====
-- What goes astray where graphs are put together.
use mathlib.Core.List.{
  Mem, mem-append_left, mem-append_right, mem-map_of_mem, mem-cons, not-mem-nil, map-append,
}
use mathlib.Core.Logic.Or
use mathlib.Core.HLevel.{⊥_prop}
use fractalide.Prelude.{
  All, All-append, All-append_left, All-append_right, Pairwise, Pairwise-append_right,
  Pairwise-append_cross, All-map, ℕ, ◌≤◌, ◌≡◌, ◌≢◌, refl, sym, ap, ◌∙◌, subst, String, false, some,
  List, [], ◌∷◌, ◌++◌, ◌==◌, string_eq, ◌⊎◌, inl, inr, Bool-cases, map,
}
use fractalide.Result.{ok}
use fractalide.Edges.CoreGraph.{CoreGraph, CoreGraphIMsg, CoreGraphExtIn, CoreGraphExtOut}
use fractalide.Vm.{Answers, under, run}
use fractalide.Vm.Trees.{
  Unfolds, height, verdict, Tree, tree, Branches, done, agent, subgraph, missing, leaves,
  leaves_branches, names, names_branches, follow, follow_branches, gather, gather_branches, outside,
  outside_branches, imsg_through, imsg_door, own_imsgs, own_imsg, own_ext_in, own_port_in,
  own_ext_out, own_port_out, flat,
}
use fractalide.Vm.Flatten.{run_is_flat}
use fractalide.Vm.Routes.{follow_stays, follow_branches_stays, All-ne_sym, ne_sym, beq_ne}
use fractalide.Vm.Arrivals.{node_names}

-- In a program whose verdict is not that a graph is wrong and whose first node is a subgraph, each outside
-- port of the subgraph, input and output, becomes an outside port of the flat graph that is sent,
-- with the name of its node under the subgraph's: they are kept because there is no agent yet in
-- the flat graph.
pub subgraph_ports_leak :
    (a : Answers) (g k : CoreGraph) (n : String) (cs bs : Branches) (depth : ℕ)
    → Unfolds a g (tree g (subgraph n (tree k cs) bs))
    → height (tree g (subgraph n (tree k cs) bs)) ≤ depth
    → verdict (tree g (subgraph n (tree k cs) bs)) false ≡ false
    → (f : CoreGraph) × (run a depth g ≡ ok (some f))
      × ((d : CoreGraphExtIn) → Mem d k.ext_in → Mem (own_port_in (under "" n) d) f.ext_in)
      × ((d : CoreGraphExtOut) → Mem d k.ext_out → Mem (own_port_out (under "" n) d) f.ext_out)
unfolding flat outside outside_branches
subgraph_ports_leak a g k n cs bs depth unfolded deep right = (
  flat (tree g (subgraph n (tree k cs) bs)),
  run_is_flat a g _ depth unfolded deep ∙ rw right refl,
  λ d m.
      mem-append_right (own_ext_in g "")
        (mem-append_left _ (mem-append_left _ (mem-map_of_mem (own_port_in (under "" n)) m))),
  λ d m.
      mem-append_right (own_ext_out g "")
        (mem-append_left _ (mem-append_left _ (mem-map_of_mem (own_port_out (under "" n)) m))),
)

-- A message that no door of its node takes up.
imsg_through_stays :
    (ds : List CoreGraphExtIn) (q : String) (i : CoreGraphIMsg)
    → (q ≢ i.comp) ⊎ All (λ (d : CoreGraphExtIn). i.port ≢ d.in_port) ds
    → imsg_through ds q i ≡ i
unfolding imsg_through
imsg_through_stays [] q i h = refl
imsg_through_stays (d ∷ ds) q i (inl h) =
    rw (beq_ne i.comp q (ne_sym h)) (imsg_through_stays ds q i (inl h))
imsg_through_stays (d ∷ ds) q i (inr h) = elim (Bool-cases (i.comp == q)) [
  | inl e ↦ rw (e, beq_ne i.port d.in_port h.0) (imsg_through_stays ds q i (inr h.1))
  | inr e ↦ rw e (imsg_through_stays ds q i (inr h.1))
]

-- The node `n` of a graph is the subgraph `k`.
pub data HasGraph (n : String) (k : CoreGraph) : Branches → Type 0 where
  found :
      {m : String} {t : Tree} {cs bs : Branches}
      → m ≡ n
      → t ≡ tree k cs
      → HasGraph n k (subgraph m t bs)
  past_agent : {m file : String} {bs : Branches} → HasGraph n k bs → HasGraph n k (agent m file bs)
  past_graph :
      {m : String} {t : Tree} {bs : Branches} → HasGraph n k bs → HasGraph n k (subgraph m t bs)
  past_missing :
      {m sort : String} {bs : Branches} → HasGraph n k bs → HasGraph n k (missing m sort bs)

-- The agents' names are names.
module _ (P : String → Type 0) where
  mutual
    unfolding names names_branches leaves leaves_branches

    leaves_named : (t : Tree) (q : String) → All P (names t q) → All P (node_names (leaves t q))
    leaves_named (tree g bs) q h = leaves_branches_named bs q h

    leaves_branches_named :
        (bs : Branches) (q : String)
        → All P (names_branches bs q)
        → All P (node_names (leaves_branches bs q))
    leaves_branches_named done q h = tt
    leaves_branches_named (agent n file bs) q h = (h.0, leaves_branches_named bs q h.1)
    leaves_branches_named (subgraph n t bs) q h =
        let inner = names t (under q n) in
        let rest = names_branches bs q in
        rw map-append (
          All-append P _ _ (leaves_named t (under q n) (All-append_left P inner rest h.1))
            (leaves_branches_named bs q (All-append_right P inner rest h.1)))
    leaves_branches_named (missing n sort bs) q h = leaves_branches_named bs q h.1

  graph_is_named :
      {n : String} {k : CoreGraph} {bs : Branches} (q : String)
      → HasGraph n k bs
      → All P (names_branches bs q)
      → P (under q n)
  unfolding names_branches
  graph_is_named q (found same there) h = subst (λ m. P (under q m)) same h.0
  graph_is_named q (past_agent v) h = graph_is_named q v h.1
  graph_is_named q (past_graph v) h = graph_is_named q v (All-append_right P _ _ h.1)
  graph_is_named q (past_missing v) h = graph_is_named q v h.1

not_mem : (x : String) (xs : List String) → All (λ m. x ≢ m) xs → ¬ Mem x xs
not_mem x [] h m = not-mem-nil m
not_mem x (y ∷ xs) h m = Or.elim ⊥_prop (mem-cons.0 m) h.0 (not_mem x xs h.1)

-- A subgraph's name is no agent's name.
graph_is_no_leaf :
    {n : String} {k : CoreGraph} {bs : Branches} (q : String)
    → HasGraph n k bs
    → Pairwise ◌≢◌ (names_branches bs q)
    → All (λ m. under q n ≢ m) (node_names (leaves_branches bs q))
unfolding names_branches leaves_branches
graph_is_no_leaf {n} q (found {m} {t} {bs} same there) w =
    let inner = names t (under q m) in
    let rest = names_branches bs q in
    let others : All (λ x. under q n ≢ x) (inner ++ rest) =
      subst (λ v. All (λ x. under q v ≢ x) (inner ++ rest)) same w.0 in
    rw map-append (
      All-append (λ x. under q n ≢ x) _ _
        (leaves_named (λ x. under q n ≢ x) t (under q m) (All-append_left _ inner rest others))
        (leaves_branches_named (λ x. under q n ≢ x) bs q (All-append_right _ inner rest others)))
graph_is_no_leaf q (past_agent {m} v) w =
    (ne_sym (graph_is_named (λ x. under q m ≢ x) q v w.0), graph_is_no_leaf q v w.1)
graph_is_no_leaf {n} q (past_graph {m} {t} {bs} v) w =
    let inner = names t (under q m) in
    let rest = names_branches bs q in
    rw map-append (
      All-append (λ x. under q n ≢ x) _ _
        (leaves_named (λ x. under q n ≢ x) t (under q m)
          (All-map (λ x h. ne_sym (graph_is_named (λ y. x ≢ y) q v h)) inner
            (Pairwise-append_cross ◌≢◌ inner rest w.1)))
        (graph_is_no_leaf q v (Pairwise-append_right ◌≢◌ inner rest w.1)))
graph_is_no_leaf q (past_missing v) w = graph_is_no_leaf q v w.1

imsgs_stay :
    (bs : Branches) (q : String) (i : CoreGraphIMsg)
    → All (λ m. m ≢ i.comp) (names_branches bs q)
    → follow_branches imsg_door bs q i ≡ i
imsgs_stay =
    follow_branches_stays imsg_door (λ i. i.comp)
      (λ g q i h. imsg_through_stays g.ext_in q i (inl h))

-- A message to a subgraph that none of its doors takes up stays where it is.
imsg_stays :
    {n : String} {k : CoreGraph} {bs : Branches} (q : String) (i : CoreGraphIMsg)
    → HasGraph n k bs
    → i.comp ≡ under q n
    → All (λ (d : CoreGraphExtIn). i.port ≢ d.in_port) k.ext_in
    → Pairwise ◌≢◌ (names_branches bs q)
    → follow_branches imsg_door bs q i ≡ i
unfolding names_branches names follow_branches follow
imsg_stays {n} {k} q i (found {m} {t} {cs} {bs} same there) e h w =
    let inner = names t (under q m) in
    let rest = names_branches bs q in
    let here : under q m ≡ i.comp = ap (under q) same ∙ sym e in
    let others : All (λ x. x ≢ i.comp) (inner ++ rest) =
      All-ne_sym i.comp (inner ++ rest) (subst (λ c. All (λ x. c ≢ x) (inner ++ rest)) here w.0) in
    let inside : All (λ x. x ≢ i.comp) (names_branches cs (under q m)) =
      subst (λ r. All (λ x. x ≢ i.comp) (names r (under q m))) there
        (All-append_left _ inner rest others) in
    let at_door : follow imsg_door (tree k cs) (under q m) i ≡ i =
      ap (follow_branches imsg_door cs (under q m))
        (imsg_through_stays k.ext_in (under q m) i (inr h))
      ∙ imsgs_stay cs (under q m) i inside in
    ap (follow_branches imsg_door bs q) (rw there at_door)
    ∙ imsgs_stay bs q i (All-append_right _ inner rest others)
imsg_stays q i (past_agent v) e h w = imsg_stays q i v e h w.1
imsg_stays q i (past_graph {m} {t} {bs} v) e h w =
    let inner = names t (under q m) in
    let rest = names_branches bs q in
    ap (follow_branches imsg_door bs q) (
      follow_stays imsg_door (λ i. i.comp) (λ g q i h. imsg_through_stays g.ext_in q i (inl h)) t
        (under q m) i
        (rw e (graph_is_named (λ x. under q m ≢ x) q v (All-append_right _ inner rest w.0)))
        (rw e (
          All-map (λ x h. graph_is_named (λ y. x ≢ y) q v h) inner
            (Pairwise-append_cross ◌≢◌ inner rest w.1))))
    ∙ imsg_stays q i v e h (Pairwise-append_right ◌≢◌ inner rest w.1)
imsg_stays q i (past_missing v) e h w = imsg_stays q i v e h w.1

-- The ports of a message's subgraph are looked up by the name of the inner port. In a program whose nodes
-- all have different full names, and whose verdict is not that a graph is wrong, a message of the first
-- graph to a node that is a subgraph, of whose outside ports none has an inner port of the message's
-- port's name, is sent on with the subgraph's name, and this is the name of no agent of the flat graph.
pub stranded_message :
    (a : Answers) (g k : CoreGraph) (bs : Branches) (depth : ℕ) (n : String) (i : CoreGraphIMsg)
    → Unfolds a g (tree g bs)
    → height (tree g bs) ≤ depth
    → verdict (tree g bs) false ≡ false
    → Pairwise ◌≢◌ ("" ∷ names (tree g bs) "")
    → HasGraph n k bs
    → Mem i g.imsgs
    → i.comp ≡ n
    → All (λ (d : CoreGraphExtIn). i.port ≢ d.in_port) k.ext_in
    → (f : CoreGraph) × (run a depth g ≡ ok (some f))
      × Mem (own_imsg "" i) f.imsgs
      × (¬ Mem (under "" n) (node_names f.nodes))
unfolding flat names gather follow leaves
stranded_message a g k bs depth n i unfolded deep right different v m here no_door =
    let stays : follow imsg_door (tree g bs) "" (own_imsg "" i) ≡ own_imsg "" i =
      ap (follow_branches imsg_door bs "") (
        imsg_through_stays g.ext_in "" (own_imsg "" i)
          (inl (rw here (graph_is_named (λ m. "" ≢ m) "" v different.0))))
      ∙ imsg_stays "" (own_imsg "" i) v (ap (under "") here) no_door different.1 in
    (
      flat (tree g bs),
      run_is_flat a g (tree g bs) depth unfolded deep ∙ rw right refl,
      mem-append_left (gather_branches imsg_door own_imsgs bs "") (
          subst (λ x. Mem x (map (follow imsg_door (tree g bs) "") (own_imsgs g ""))) stays
            (mem-map_of_mem (follow imsg_door (tree g bs) "") (mem-map_of_mem (own_imsg "") m))),
      not_mem (under "" n) (node_names (leaves_branches bs "")) (graph_is_no_leaf "" v different.1),
    )
