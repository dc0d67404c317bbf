-- ===== src/Check/Tests.antt =====
-- The graph of a `not` gate (nodes/rs/maths/boolean/not).
use fractalide.Prelude.{◌≡◌, refl, ◌↔◌, none, [], ◌∷◌, string_eq}
use fractalide.Prelude.Map.{get, insert}
use fractalide.Edges.CoreGraph.{CoreGraph, CoreGraphEdge}
use fractalide.Edges.CoreGraph
use fractalide.Check.{run, output}
use fractalide.Check.Coherence.{IsCoherent, run-IsCoherent}

abbrev edge : CoreGraphEdge
edge = record {
  out_comp = "clone";
  out_port = "clone";
  out_elem = none;
  in_port = "a";
  in_elem = none;
  in_comp = "nand";
}

abbrev gate : CoreGraph
gate = record CoreGraph.new {
  nodes =
      record { name = "clone"; sort = "msg_clone" }
      ∷ record { name = "nand"; sort = "maths_boolean_nand" }
      ∷ [];
  edges = edge ∷ [];
}

run-IsCoherent_example : (run gate ≡ output gate) ↔ IsCoherent gate
run-IsCoherent_example = run-IsCoherent gate

gate_passes : run gate ≡ output gate
unfolding run get insert
gate_passes = refl
