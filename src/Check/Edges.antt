-- ===== src/Check/Edges.antt =====
-- The check of the edges.
use fractalide.Prelude.{
  All, Pairwise, All-zip, All-map, append-empty, empty-append, ◌≡◌, inl, inr, ◌↔◌, ◌≢◌, String,
  true, List, [], ◌∷◌, ◌++◌, string_eq, arith, Bool-cases,
}
use fractalide.Prelude.Map.{Map, contains_key}
use fractalide.Edges.CoreGraph.{CoreGraphEdge}
use fractalide.Check.{Uses, add_use, uninstantiated, sender_of, end_text, check_edge, check_edges}
use fractalide.Check.Ports.{
  IsTidy, Unused, add_use-errors, add_use-IsTidy, Unused-later, Unused-added,
}

abbrev pub HasEnds : Map String String → CoreGraphEdge → Type 0
HasEnds nodes n = (contains_key nodes n.out_comp ≡ true) × (contains_key nodes n.in_comp ≡ true)

abbrev pub OtherSender : CoreGraphEdge → CoreGraphEdge → Type 0
OtherSender n m = sender_of n ≢ sender_of m

uninstantiated-errors :
    (nodes : Map String String) (c : String)
    → (uninstantiated nodes c ≡ []) ↔ (contains_key nodes c ≡ true)
unfolding uninstantiated
uninstantiated-errors nodes c = elim (Bool-cases (contains_key nodes c)) [
  | inl e ↦ (λ h. e, λ h. ground (arith, e))
  | inr e ↦ (λ h. ground (arith, h, e), λ h. absurd (ground (arith, h, e)))
]

abbrev receiver_of : CoreGraphEdge → String
receiver_of n = end_text n.in_comp n.in_port n.in_elem

abbrev named : Map String String → Uses → CoreGraphEdge → Uses
named nodes s n = record s {
  errors = s.errors ++ (uninstantiated nodes n.out_comp ++ uninstantiated nodes n.in_comp);
}

edge-errors :
    (nodes : Map String String) (s : Uses) (n : CoreGraphEdge)
    → IsTidy s.uses
    → ((check_edge nodes s n).errors ≡ [])
      ↔ ((s.errors ≡ []) × HasEnds nodes n × Unused s.uses (sender_of n))
unfolding check_edge
edge-errors nodes s n t =
    let step = add_use-errors " -> " (named nodes s n) (sender_of n) (receiver_of n) t in
    let out = uninstantiated-errors nodes n.out_comp in
    let into = uninstantiated-errors nodes n.in_comp in
    (
      λ h.
          let (clean, free) = step.0 h in
          let (before, both) = append-empty s.errors _ clean in
          let (no_out, no_in) = append-empty (uninstantiated nodes n.out_comp) _ both in
          (before, (out.0 no_out, into.0 no_in), free),
      λ p. step.1 (
        empty-append s.errors _ p.0
            (empty-append (uninstantiated nodes n.out_comp) _ (out.1 p.1.0) (into.1 p.1.1)),
        p.2,
      ),
    )

edges_before :
    (nodes : Map String String) (ns : List CoreGraphEdge) (s : Uses)
    → (check_edges nodes s ns).errors ≡ []
    → s.errors ≡ []
unfolding check_edges check_edge add_use
edges_before nodes [] s h = h
edges_before nodes (n ∷ ns) s h =
    (append-empty s.errors _
      (append-empty (named nodes s n).errors _
        (edges_before nodes ns (check_edge nodes s n) h)).0).0

-- The edges raise no error where their nodes are declared and no output port is used twice.
pub edges-errors :
    (nodes : Map String String) (ns : List CoreGraphEdge) (s : Uses)
    → IsTidy s.uses
    → ((check_edges nodes s ns).errors ≡ []) ↔ (
        (s.errors ≡ [])
        × All (HasEnds nodes) ns
        × All (λ n. Unused s.uses (sender_of n)) ns
        × Pairwise OtherSender ns)
unfolding check_edges check_edge
edges-errors nodes [] s t = (λ h. (h, tt, tt, tt), λ p. p.0)
edges-errors nodes (n ∷ ns) s t =
    let r = receiver_of n in
    let step = edge-errors nodes s n t in
    let later = λ (free : Unused s.uses (sender_of n)).
      edges-errors nodes ns (check_edge nodes s n)
        (add_use-IsTidy " -> " (named nodes s n) (sender_of n) r t free) in
    (
      λ h.
          let (before, ends, free) = step.0 (edges_before nodes ns (check_edge nodes s n) h) in
          let (clean, named_ends, unused, apart) = (later free).0 h in
          (
            before,
            (ends, named_ends),
            (
              free,
              All-map
                  (λ m f. (Unused-later " -> " (named nodes s n) (sender_of n) r (sender_of m) f).0)
                  ns unused,
            ),
            (
              All-map
                  (λ m f. (Unused-later " -> " (named nodes s n) (sender_of n) r (sender_of m) f).1)
                  ns unused,
              apart,
            ),
          ),
      λ p. (later p.2.0).1 (
        step.1 (p.0, p.1.0, p.2.0),
        p.1.1,
        All-zip (λ m f g. Unused-added " -> " (named nodes s n) (sender_of n) r (sender_of m) f g)
            ns p.2.1 p.3.0,
        p.3.1,
      ),
    )
