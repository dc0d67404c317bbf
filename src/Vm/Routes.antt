-- ===== src/Vm/Routes.antt =====
-- The way of an edge's end through the ports of subgraphs, down to an agent.
use mathlib.Core.List.{
  Mem, mem-cons_self, mem-cons_of_mem, mem-append_left, mem-append_right, map-append,
}
use fractalide.Prelude.{
  All, Pairwise, ◌≡◌, ◌≢◌, refl, sym, ap, ◌∙◌, String, false, Option, none, some, List, [], ◌∷◌,
  ◌==◌, string_eq, map, All-map, Bool-cases, inl, inr, arith, All-append_left, All-append_right,
  Pairwise-append_left, Pairwise-append_right, Pairwise-append_cross, subst, if◌then◌else◌,
  beq_refl,
}
use fractalide.Edges.CoreGraph.{CoreGraph, CoreGraphNode}
use fractalide.Vm.{under}
use fractalide.Vm.Trees.{
  Tree, tree, Branches, done, agent, subgraph, missing, leaves, leaves_branches, names,
  names_branches, follow, follow_branches, End, Door, through,
}

-- The first door of a port.
unfoldable pub find_door : List Door → String → Option Door
find_door [] p = none
find_door (d ∷ ds) p = if p == d.port then some d else find_door ds p

-- Among the nodes of the graph `q`, port `p` of node `c` is, in the flat graph, the end `r`: the port of
-- the agent `c`, or where the first door of `p` leads in the subgraph `c`.
pub data Leads (doors : CoreGraph → List Door)
    : Branches → String → String → String → End → Type 0 where
  at_agent :
      {n file : String} {bs : Branches} {q c p : String} {r : End}
      → c ≡ n
      → r ≡ (under q n, p)
      → Leads doors (agent n file bs) q c p r
  into :
      {n : String} {g : CoreGraph} {cs bs : Branches} {q c p : String} {r : End} (d : Door)
      → c ≡ n
      → find_door (doors g) p ≡ some d
      → Leads doors cs (under q n) d.comp d.inner r
      → Leads doors (subgraph n (tree g cs) bs) q c p r
  past_agent :
      {n file : String} {bs : Branches} {q c p : String} {r : End}
      → Leads doors bs q c p r
      → Leads doors (agent n file bs) q c p r
  past_graph :
      {n : String} {t : Tree} {bs : Branches} {q c p : String} {r : End}
      → Leads doors bs q c p r
      → Leads doors (subgraph n t bs) q c p r
  past_missing :
      {n sort : String} {bs : Branches} {q c p : String} {r : End}
      → Leads doors bs q c p r
      → Leads doors (missing n sort bs) q c p r

pub ne_sym {ℓ} : {A : Type ℓ} {a b : A} → a ≢ b → b ≢ a
ne_sym h e = h (sym e)

pub All-ne_sym : (a : String) (l : List String) → All (λ m. a ≢ m) l → All (λ m. m ≢ a) l
All-ne_sym a [] h = tt
All-ne_sym a (m ∷ l) h = (ne_sym h.0, All-ne_sym a l h.1)

-- `q` and its doors do nothing to the ends of other nodes.
pub beq_ne : (a b : String) → a ≢ b → (a == b) ≡ false
beq_ne a b h = ground (arith, string_eq.beq_iff a b)

pub through_stays : (ds : List Door) (q : String) (x : End) → q ≢ x.0 → through ds q x ≡ x
unfolding through
through_stays [] q x h = refl
through_stays (d ∷ ds) q x h = rw (beq_ne x.0 q (ne_sym h)) (through_stays ds q x h)

through_first :
    (ds : List Door) (q p : String) (d : Door)
    → find_door ds p ≡ some d
    → q ≢ under q d.comp
    → through ds q (q, p) ≡ (under q d.comp, d.inner)
unfolding through find_door
through_first [] q p d f h = absurd (cc)
through_first (e ∷ ds) q p d f h = elim (Bool-cases (p == e.port)) [
  | inl same ↦
      let same_door : e ≡ d = ground (arith, f, same) in
      rw (beq_refl q, same, same_door) (through_stays ds q (under q d.comp, d.inner) h)
  | inr other ↦ rw (beq_refl q, other) (through_first ds q p d (ground (arith, f, other)) h)
]

-- A tree without a node of the name at which a thing stands does nothing to the thing.
module _ {X : Type 0} (door : CoreGraph → String → X → X) (place : X → String)
    (still : (g : CoreGraph) (q : String) (x : X) → q ≢ place x → door g q x ≡ x) where
  mutual
    unfolding follow follow_branches names names_branches

    pub follow_stays :
        (t : Tree) (q : String) (x : X)
        → q ≢ place x
        → All (λ m. m ≢ place x) (names t q)
        → follow door t q x ≡ x
    follow_stays (tree g bs) q x h k =
        ap (follow_branches door bs q) (still g q x h) ∙ follow_branches_stays bs q x k

    pub follow_branches_stays :
        (bs : Branches) (q : String) (x : X)
        → All (λ m. m ≢ place x) (names_branches bs q)
        → follow_branches door bs q x ≡ x
    follow_branches_stays done q x k = refl
    follow_branches_stays (agent n file bs) q x k = follow_branches_stays bs q x k.1
    follow_branches_stays (subgraph n t bs) q x k =
        ap (follow_branches door bs q) (
          follow_stays t (under q n) x k.0
            (All-append_left _ (names t (under q n)) (names_branches bs q) k.1))
        ∙ follow_branches_stays bs q x
            (All-append_right _ (names t (under q n)) (names_branches bs q) k.1)
    follow_branches_stays (missing n sort bs) q x k = follow_branches_stays bs q x k.1

module _ (doors : CoreGraph → List Door) where
  abbrev end_door : CoreGraph → String → End → End
  end_door g q x = through (doors g) q x

  pub end_stays :
      (bs : Branches) (q : String) (x : End)
      → All (λ m. m ≢ x.0) (names_branches bs q)
      → follow_branches end_door bs q x ≡ x
  end_stays = follow_branches_stays end_door (λ x. x.0) (λ g q x. through_stays (doors g) q x)

  -- Where an end starts and where it arrives are nodes of the graph.
  pub start_is_named :
      {bs : Branches} {q c p : String} {r : End} (P : String → Type 0)
      → Leads doors bs q c p r
      → All P (names_branches bs q)
      → P (under q c)
  unfolding names_branches
  start_is_named P (at_agent {q} e f) k = subst (λ x. P (under q x)) (sym e) k.0
  start_is_named P (into {q} d e f l) k = subst (λ x. P (under q x)) (sym e) k.0
  start_is_named P (past_agent l) k = start_is_named P l k.1
  start_is_named P (past_graph l) k = start_is_named P l (All-append_right P _ _ k.1)
  start_is_named P (past_missing l) k = start_is_named P l k.1

  pub end_is_named :
      {bs : Branches} {q c p : String} {r : End} (P : String → Type 0)
      → Leads doors bs q c p r
      → All P (names_branches bs q)
      → P r.0
  unfolding names_branches names
  end_is_named P (at_agent e f) k = subst (λ (x : End). P x.0) (sym f) k.0
  end_is_named P (into d e f l) k = end_is_named P l (All-append_left P _ _ k.1)
  end_is_named P (past_agent l) k = end_is_named P l k.1
  end_is_named P (past_graph l) k = end_is_named P l (All-append_right P _ _ k.1)
  end_is_named P (past_missing l) k = end_is_named P l k.1

  -- The fate of an end: it goes the way that the ports lead.
  pub follow_branches-Leads :
      {bs : Branches} {q c p : String} {r : End}
      → Leads doors bs q c p r
      → Pairwise ◌≢◌ (names_branches bs q)
      → follow_branches end_door bs q (under q c, p) ≡ r
  unfolding names_branches names follow_branches follow
  follow_branches-Leads (at_agent {bs} {q} {p} e f) w =
      rw e (end_stays bs q _ (All-ne_sym _ _ w.0)) ∙ sym f
  follow_branches-Leads (into {n} {g} {cs} {bs} {q} {p} {r} d e f l) w =
      let inner = names_branches cs (under q n) in
      let rest = names_branches bs q in
      let enters : through (doors g) (under q n) (under q n, p)
          ≡ (under (under q n) d.comp, d.inner) =
        through_first (doors g) (under q n) p d f
          (start_is_named (λ m. under q n ≢ m) l (All-append_left _ inner rest w.0)) in
      rw e
        (ap (λ x. follow_branches end_door bs q (follow_branches end_door cs (under q n) x)) enters)
      ∙ ap (follow_branches end_door bs q)
          (follow_branches-Leads l (Pairwise-append_left ◌≢◌ inner rest w.1))
      ∙ end_stays bs q r (
          All-ne_sym r.0 rest (
            end_is_named (λ m. All (λ k. m ≢ k) rest) l (Pairwise-append_cross ◌≢◌ inner rest w.1)))
  follow_branches-Leads (past_agent l) w = follow_branches-Leads l w.1
  follow_branches-Leads (past_graph {n} {t} {bs} {q} {c} {p} l) w =
      let inner = names t (under q n) in
      let rest = names_branches bs q in
      ap (follow_branches end_door bs q) (
        follow_stays end_door (λ x. x.0) (λ g q x. through_stays (doors g) q x) t (under q n)
          (under q c, p) (start_is_named (λ m. under q n ≢ m) l (All-append_right _ inner rest w.0))
          (All-map (λ m h. start_is_named (λ k. m ≢ k) l h) inner
            (Pairwise-append_cross ◌≢◌ inner rest w.1)))
      ∙ follow_branches-Leads l (Pairwise-append_right ◌≢◌ inner rest w.1)
  follow_branches-Leads (past_missing l) w = follow_branches-Leads l w.1

  -- It arrives at an agent of the flat graph.
  pub end_is_leaf :
      {bs : Branches} {q c p : String} {r : End}
      → Leads doors bs q c p r
      → Mem r.0 (map (λ (n : CoreGraphNode). n.name) (leaves_branches bs q))
  unfolding leaves_branches leaves
  end_is_leaf (at_agent {bs} {q} e f) = rw f mem-cons_self
  end_is_leaf (into d e f l) = rw map-append (mem-append_left _ (end_is_leaf l))
  end_is_leaf (past_agent l) = mem-cons_of_mem _ (end_is_leaf l)
  end_is_leaf (past_graph l) = rw map-append (mem-append_right _ (end_is_leaf l))
  end_is_leaf (past_missing l) = end_is_leaf l
