-- ===== src/Vm/Wiring.antt =====
-- One graph that is added to the flat graph: its ports redirect what is there, and its own edges,
-- messages and ports follow.
use mathlib.Core.List.{map-map, append-nil, append_assoc}
use fractalide.Prelude.{
  ◌≡◌, refl, sym, ap, ◌∙◌, String, Bool, true, false, List, [], ◌∷◌, ◌++◌, ◌==◌, ◌&&◌, string_eq,
  is_empty, map, if◌then◌else◌,
}
use fractalide.Edges.CoreGraph.{
  CoreGraph, CoreGraphEdge, CoreGraphIMsg, CoreGraphExtIn, CoreGraphExtOut,
}
use fractalide.Vm.{
  under, add_edges, add_imsgs, enter_edges, enter_imsgs, leave_edges, add_ext_in, add_ext_out,
  wired, Flat,
}
use fractalide.Vm.Trees.{
  End, through, door_in, door_out, with_ends, edge_door, imsg_through, imsg_door, own_edge,
  own_imsg, own_port_in, own_port_out, own_edges, own_imsgs, own_ext_in, own_ext_out,
}

add_edges_lem :
    (q : String) (g : CoreGraph) (es : List CoreGraphEdge)
    → add_edges q g es ≡ record g { edges = g.edges ++ map (own_edge q) es }
unfolding add_edges
add_edges_lem q g [] = rw (append-nil g.edges) refl
add_edges_lem q g (e ∷ es) =
    add_edges_lem q (record g { edges = g.edges ++ own_edge q e ∷ [] }) es
    ∙ ap (λ (l : List CoreGraphEdge). record g { edges = l })
        (append_assoc g.edges (own_edge q e ∷ []) (map (own_edge q) es))

add_imsgs_lem :
    (q : String) (g : CoreGraph) (is : List CoreGraphIMsg)
    → add_imsgs q g is ≡ record g { imsgs = g.imsgs ++ map (own_imsg q) is }
unfolding add_imsgs
add_imsgs_lem q g [] = rw (append-nil g.imsgs) refl
add_imsgs_lem q g (i ∷ is) =
    add_imsgs_lem q (record g { imsgs = g.imsgs ++ own_imsg q i ∷ [] }) is
    ∙ ap (λ (l : List CoreGraphIMsg). record g { imsgs = l })
        (append_assoc g.imsgs (own_imsg q i ∷ []) (map (own_imsg q) is))

-- An edge that comes in, and one that goes out.
enter : String → List CoreGraphExtIn → CoreGraphEdge → CoreGraphEdge
enter q ns e =
    with_ends e (through (map door_in ns) q (e.in_comp, e.in_port)) (e.out_comp, e.out_port)

leave : String → List CoreGraphExtOut → CoreGraphEdge → CoreGraphEdge
leave q ns e =
    with_ends e (e.in_comp, e.in_port) (through (map door_out ns) q (e.out_comp, e.out_port))

-- One port of many, as a step of its own.
enter_if :
    (q : String) (ns : List CoreGraphExtIn) (e : CoreGraphEdge) (x : End) (b : Bool)
    → enter q ns (if b then record e { in_comp = x.0; in_port = x.1 } else e)
      ≡ with_ends e
          (through (map door_in ns) q (if b then x else (e.in_comp, e.in_port)))
          (e.out_comp, e.out_port)
unfolding enter
enter_if q ns e x true = refl
enter_if q ns e x false = refl

leave_if :
    (q : String) (ns : List CoreGraphExtOut) (e : CoreGraphEdge) (x : End) (b : Bool)
    → leave q ns (if b then record e { out_comp = x.0; out_port = x.1 } else e)
      ≡ with_ends e
          (e.in_comp, e.in_port)
          (through (map door_out ns) q (if b then x else (e.out_comp, e.out_port)))
unfolding leave
leave_if q ns e x true = refl
leave_if q ns e x false = refl

enter_edges_lem :
    (q : String) (n : CoreGraphExtIn) (ns : List CoreGraphExtIn) (es : List CoreGraphEdge)
    → map (enter q ns) (enter_edges q n es) ≡ map (enter q (n ∷ ns)) es
unfolding enter_edges enter through
enter_edges_lem q n ns [] = refl
enter_edges_lem q n ns (e ∷ es) = λ i.
    enter_if q ns e (under q n.in_comp, n.in_port) (e.in_comp == q && e.in_port == n.port) i
    ∷ enter_edges_lem q n ns es i

leave_edges_lem :
    (q : String) (n : CoreGraphExtOut) (ns : List CoreGraphExtOut) (es : List CoreGraphEdge)
    → map (leave q ns) (leave_edges q n es) ≡ map (leave q (n ∷ ns)) es
unfolding leave_edges leave through
leave_edges_lem q n ns [] = refl
leave_edges_lem q n ns (e ∷ es) = λ i.
    leave_if q ns e (under q n.out_comp, n.out_port) (e.out_comp == q && e.out_port == n.port) i
    ∷ leave_edges_lem q n ns es i

enter_imsgs_lem :
    (q : String) (n : CoreGraphExtIn) (ns : List CoreGraphExtIn) (is : List CoreGraphIMsg)
    → map (imsg_through ns q) (enter_imsgs q n is) ≡ map (imsg_through (n ∷ ns) q) is
unfolding enter_imsgs imsg_through
enter_imsgs_lem q n ns [] = refl
enter_imsgs_lem q n ns (i ∷ is) = λ j. imsg_through (n ∷ ns) q i ∷ enter_imsgs_lem q n ns is j

-- The ports of a graph one after the other.
opened :
    {X : Type 0} (b : Bool) (xs ys : List X) (y : X)
    → (if b then (if b then xs ++ y ∷ [] else xs) ++ ys else (if b then xs ++ y ∷ [] else xs))
      ≡ (if b then xs ++ y ∷ ys else xs)
opened true xs ys y = append_assoc xs (y ∷ []) ys
opened false xs ys y = refl

unopened : {X : Type 0} (b : Bool) (xs : List X) → xs ≡ (if b then xs ++ [] else xs)
unopened true xs = sym (append-nil xs)
unopened false xs = refl

map_id : {X : Type 0} (f : X → X) → ((x : X) → f x ≡ x) → (xs : List X) → xs ≡ map f xs
map_id f h [] = refl
map_id f h (x ∷ xs) = λ i. sym (h x) i ∷ map_id f h xs i

add_ext_in_lem :
    (q : String) (ns : List CoreGraphExtIn) (g : CoreGraph)
    → add_ext_in q g ns ≡ record g {
      edges = map (enter q ns) g.edges;
      imsgs = map (imsg_through ns q) g.imsgs;
      ext_in = if is_empty g.nodes then g.ext_in ++ map (own_port_in q) ns else g.ext_in;
    }
unfolding add_ext_in
add_ext_in_lem q [] g = λ i.
    unfold enter through imsg_through in
    record g {
      edges = map_id (enter q []) (λ e. refl) g.edges i;
      imsgs = map_id (imsg_through [] q) (λ m. refl) g.imsgs i;
      ext_in = unopened (is_empty g.nodes) g.ext_in i;
    }
add_ext_in_lem q (n ∷ ns) g =
    add_ext_in_lem q ns (record g {
      edges = enter_edges q n g.edges;
      imsgs = enter_imsgs q n g.imsgs;
      ext_in = if is_empty g.nodes then g.ext_in ++ own_port_in q n ∷ [] else g.ext_in;
    })
    ∙ λ i. record g {
      edges = enter_edges_lem q n ns g.edges i;
      imsgs = enter_imsgs_lem q n ns g.imsgs i;
      ext_in = opened (is_empty g.nodes) g.ext_in (map (own_port_in q) ns) (own_port_in q n) i;
    }

add_ext_out_lem :
    (q : String) (ns : List CoreGraphExtOut) (g : CoreGraph)
    → add_ext_out q g ns ≡ record g {
      edges = map (leave q ns) g.edges;
      ext_out = if is_empty g.nodes then g.ext_out ++ map (own_port_out q) ns else g.ext_out;
    }
unfolding add_ext_out
add_ext_out_lem q [] g = λ i.
    unfold leave through in
    record g {
      edges = map_id (leave q []) (λ e. refl) g.edges i;
      ext_out = unopened (is_empty g.nodes) g.ext_out i;
    }
add_ext_out_lem q (n ∷ ns) g =
    add_ext_out_lem q ns (record g {
      edges = leave_edges q n g.edges;
      ext_out = if is_empty g.nodes then g.ext_out ++ own_port_out q n ∷ [] else g.ext_out;
    })
    ∙ λ i. record g {
      edges = leave_edges_lem q n ns g.edges i;
      ext_out = opened (is_empty g.nodes) g.ext_out (map (own_port_out q) ns) (own_port_out q n) i;
    }

-- One graph wired, at a glance.
pub wired_lem :
    (g : CoreGraph) (q : String) (s : Flat)
    → wired g q s ≡ record s {
      errors = if g.path == "error" then true else s.errors;
      graph = record (s.graph) {
        edges = map (edge_door g q) (s.graph.edges ++ own_edges g q);
        imsgs = map (imsg_door g q) (s.graph.imsgs ++ own_imsgs g q);
        ext_in =
            if is_empty s.graph.nodes then s.graph.ext_in ++ own_ext_in g q else s.graph.ext_in;
        ext_out =
            if is_empty s.graph.nodes then s.graph.ext_out ++ own_ext_out g q else s.graph.ext_out;
      };
    }
unfolding edge_door enter leave
wired_lem g q s =
    λ i. record s { errors = if g.path == "error" then true else s.errors; graph = graph_wired i }
  where
    graph_wired :
        add_ext_out q
          (add_ext_in q (add_imsgs q (add_edges q s.graph g.edges) g.imsgs) g.ext_in)
          g.ext_out
        ≡ record (s.graph) {
          edges = map (edge_door g q) (s.graph.edges ++ own_edges g q);
          imsgs = map (imsg_door g q) (s.graph.imsgs ++ own_imsgs g q);
          ext_in =
              if is_empty s.graph.nodes then s.graph.ext_in ++ own_ext_in g q else s.graph.ext_in;
          ext_out =
              if is_empty s.graph.nodes
              then s.graph.ext_out ++ own_ext_out g q
              else s.graph.ext_out;
        }
    graph_wired =
        rw
          (
            add_edges_lem q s.graph g.edges,
            add_imsgs_lem,
            add_ext_in_lem,
            add_ext_out_lem,
            map-map (leave q g.ext_out) (enter q g.ext_in),
          )
          refl
