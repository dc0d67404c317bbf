-- ===== src/Check/Coherence.antt =====
-- The graphs that pass the checks.
use fractalide.Prelude.{
  All, Pairwise, All-map, ◌≡◌, refl, ◌↔◌, ◌⊎◌, inl, inr, String, true, List, [], ◌∷◌, string_eq,
  is_empty, arith, Bool-cases,
}
use fractalide.Prelude.Map.{contains_key, get}
use fractalide.Edges.CoreGraph.{CoreGraph, CoreGraphNode, CoreGraphEdge}
use fractalide.Check.{Names, Uses, see_nodes, check_edges, errors_of, run, output}
use fractalide.Check.Nodes.{SortOnce, seen, nodes-errors, contains-seen}
use fractalide.Check.Ports.{OtherPort, inputs-errors}
use fractalide.Check.Edges.{OtherSender, edges-errors}

-- One of the nodes has the name.
abbrev pub IsNamed : List CoreGraphNode → String → Type 0
IsNamed [] name = ⊥
IsNamed (n ∷ ns) name = (n.name ≡ name) ⊎ IsNamed ns name

-- What the checks are for.
pub record IsCoherent (g : CoreGraph) : Type 0 where
  pub sorts : Pairwise SortOnce g.nodes
  pub ends :
      All (λ (n : CoreGraphEdge). IsNamed g.nodes n.out_comp × IsNamed g.nodes n.in_comp) g.edges
  pub senders : Pairwise OtherSender g.edges
  pub inputs : Pairwise OtherPort g.ext_in

IsNamed-seen :
    (ns : List CoreGraphNode) (s : Names) (k : String)
    → (contains_key (see_nodes s ns).nodes k ≡ true)
      ↔ ((contains_key s.nodes k ≡ true) ⊎ IsNamed ns k)
unfolding see_nodes
IsNamed-seen [] s k = (λ h. inl h, λ p. elim p [ inl h ↦ h | inr h ↦ absurd h ])
IsNamed-seen (n ∷ ns) s k =
    let later = IsNamed-seen ns (seen s n) k in
    (
      λ h. elim (later.0 h) [
        | inl c ↦ elim (Bool-cases (contains_key s.nodes k)) [
          | inl e ↦ inl e
          | inr e ↦
              inr (inl ((string_eq.beq_iff n.name k).0 (ground (arith, c, e, contains-seen s n k))))
        ]
        | inr m ↦ inr (inr m)
      ],
      λ p. elim p [
        | inl e ↦ later.1 (inl (ground (arith, e, contains-seen s n k)))
        | inr (inl e) ↦
            later.1 (inl (ground (arith, contains-seen s n k, (string_eq.beq_iff n.name k).1 e)))
        | inr (inr m) ↦ later.1 (inr m)
      ],
    )

-- All nodes that are found have been declared.
IsNamed-nodes :
    (ns : List CoreGraphNode) (k : String)
    → (contains_key (see_nodes (record { nodes = []; errors = [] }) ns).nodes k ≡ true)
      ↔ IsNamed ns k
unfolding get
IsNamed-nodes ns k =
    let all = IsNamed-seen ns (record { nodes = []; errors = [] }) k in
    (λ h. elim (all.0 h) [ inl c ↦ absurd (cc) | inr m ↦ m ], λ m. all.1 (inr m))

All-any : {A : Type 0} {P : A → Type 0} → ((x : A) → P x) → (l : List A) → All P l
All-any f [] = tt
All-any f (x ∷ l) = (f x, All-any f l)

errors_of-IsCoherent : (g : CoreGraph) → (errors_of g ≡ []) ↔ IsCoherent g
unfolding errors_of get
errors_of-IsCoherent g =
    let none_seen : Names = record { nodes = []; errors = [] } in
    let names = see_nodes none_seen g.nodes in
    let first : Uses = record { uses = []; errors = names.errors } in
    let edges = check_edges names.nodes first g.edges in
    let second : Uses = record { uses = []; errors = edges.errors } in
    let by_nodes = nodes-errors g.nodes none_seen in
    let by_edges = edges-errors names.nodes g.edges first tt in
    let by_inputs = inputs-errors g.ext_in second tt in
    (
      λ h.
          let (e, unused, inputs) = by_inputs.0 h in
          let (f, ends, free, senders) = by_edges.0 e in
          let (k, fits, sorts) = by_nodes.0 f in
          record {
            sorts = sorts;
            ends =
                All-map
                  (λ n p. (
                    (IsNamed-nodes g.nodes n.out_comp).0 p.0,
                    (IsNamed-nodes g.nodes n.in_comp).0 p.1,
                  ))
                  g.edges ends;
            senders = senders;
            inputs = inputs;
          },
      λ c. by_inputs.1 (
        by_edges.1 (
          by_nodes.1 (refl, All-any (λ n e. absurd (cc)) g.nodes, c.sorts),
          All-map
              (λ n p.
                ((IsNamed-nodes g.nodes n.out_comp).1 p.0, (IsNamed-nodes g.nodes n.in_comp).1 p.1))
              g.edges c.ends,
          All-any (λ n. refl) g.edges,
          c.senders,
        ),
        All-any (λ n. refl) g.ext_in,
        c.inputs,
      ),
    )

empty_or_not : {A : Type 0} (l : List A) → is_empty l ≡ true → l ≡ []
empty_or_not [] h = refl
empty_or_not (x ∷ l) h = absurd (cc)

-- A graph passes the checks, and is sent on as it is, exactly where it is coherent: no name is given
-- two sorts, the nodes of every edge are declared, no two edges have the same sender, written as node,
-- port and element, and no two outside input ports have the same name.
pub run-IsCoherent : (g : CoreGraph) → (run g ≡ output g) ↔ IsCoherent g
unfolding run
run-IsCoherent g =
    let checked = errors_of-IsCoherent g in
    (
      λ h. elim (Bool-cases (is_empty (errors_of g))) [
        | inl e ↦ checked.0 (empty_or_not (errors_of g) e)
        | inr e ↦ absurd (ground (arith, h, e))
      ],
      λ c. rw (checked.1 c) refl,
    )
