-- ===== src/Semantic/Grammar.antt =====
-- The flowscripts that the parser is made for, the tokens that write one, and the graph that it
-- means. A statement is a chain of connections along one line; after `->` the line may be broken.
use fractalide.Prelude.{
  ℕ, zero, suc, String, Option, none, some, List, [], ◌∷◌, ◌++◌, ◌==◌, string_eq, if◌then◌else◌,
}
use fractalide.Edges.CoreGraph.{
  CoreGraph, CoreGraphNode, CoreGraphEdge, CoreGraphIMsg, CoreGraphExtIn, CoreGraphExtOut,
}
use fractalide.Edges.CoreLexical.{CoreLexical, CoreLexicalToken, token}

-- `name(sort)`, or `name()`
pub record Instance : Type 0 where
  pub name : String
  pub sort : Option String

-- `name[elem]`, or `name`
pub record PortRef : Type 0 where
  pub name : String
  pub elem : Option String

-- How a statement begins: `c()`, `p => q c()`, `'text' -> q c()`; `gap` counts the line breaks
-- after the arrow.
pub data Head : Type 0 where
  node : Instance → Head
  ext_in : PortRef → PortRef → Instance → Head
  imsg : String → (gap : ℕ) → PortRef → Instance → Head

-- ` p -> q c()`
pub record Link : Type 0 where
  pub out : PortRef
  pub gap : ℕ
  pub into : PortRef
  pub to : Instance

-- How it ends: with its last instance, or with ` p => q`.
pub data Tail : Type 0 where
  stop : Tail
  ext_out : PortRef → PortRef → Tail

pub data Line : Type 0 where
  blank : Line
  statement : Head → List Link → Tail → Line

abbrev pub comp_token : Instance → CoreLexicalToken
comp_token c = CoreLexicalToken.comp c.name c.sort

abbrev pub port_token : PortRef → CoreLexicalToken
port_token p = CoreLexicalToken.port p.name p.elem

-- Each printer writes in front of the messages that follow.
unfoldable pub breaks : ℕ → List CoreLexical → List CoreLexical
breaks zero k = k
breaks (suc n) k = token CoreLexicalToken.break ∷ breaks n k

unfoldable pub print_head : Head → List CoreLexical → List CoreLexical
print_head (node c) k = token (comp_token c) ∷ k
print_head (ext_in p q c) k =
    token (port_token p)
    ∷ token CoreLexicalToken.external
    ∷ token (port_token q)
    ∷ token (comp_token c)
    ∷ k
print_head (imsg text gap q c) k =
    token (CoreLexicalToken.imsg text)
    ∷ token CoreLexicalToken.bind
    ∷ breaks gap (token (port_token q) ∷ token (comp_token c) ∷ k)

unfoldable pub print_links : List Link → List CoreLexical → List CoreLexical
print_links [] k = k
print_links (l ∷ ls) k =
    token (port_token l.out)
    ∷ token CoreLexicalToken.bind
    ∷ breaks l.gap (token (port_token l.into) ∷ token (comp_token l.to) ∷ print_links ls k)

unfoldable pub print_tail : Tail → List CoreLexical → List CoreLexical
print_tail stop k = k
print_tail (ext_out p q) k =
    token (port_token p) ∷ token CoreLexicalToken.external ∷ token (port_token q) ∷ k

unfoldable pub print_line : Line → List CoreLexical → List CoreLexical
print_line blank k = token CoreLexicalToken.break ∷ k
print_line (statement h ls t) k =
    print_head h (print_links ls (print_tail t (token CoreLexicalToken.break ∷ k)))

unfoldable pub print : List Line → List CoreLexical → List CoreLexical
print [] k = k
print (l ∷ ls) k = print_line l (print ls k)

-- The node that an instance declares, if it has a type.
abbrev pub node_of : Instance → List CoreGraphNode
node_of c = elim c.sort [
  | none ↦ []
  | some s ↦ if s == "" then [] else record { name = c.name; sort = s } ∷ []
]

abbrev pub subject : Head → Instance
subject (node c) = c
subject (ext_in p q c) = c
subject (imsg text gap q c) = c

abbrev pub last_of : Instance → List Link → Instance
last_of c [] = c
last_of c (l ∷ ls) = last_of l.to ls

abbrev pub link_nodes : List Link → List CoreGraphNode
link_nodes [] = []
link_nodes (l ∷ ls) = node_of l.to ++ link_nodes ls

abbrev pub edge_of : Instance → Link → CoreGraphEdge
edge_of c l = record {
  out_comp = c.name;
  out_port = l.out.name;
  out_elem = l.out.elem;
  in_port = l.into.name;
  in_elem = l.into.elem;
  in_comp = l.to.name;
}

abbrev pub link_edges : Instance → List Link → List CoreGraphEdge
link_edges c [] = []
link_edges c (l ∷ ls) = edge_of c l ∷ link_edges l.to ls

abbrev pub nodes_of : List Line → List CoreGraphNode
nodes_of [] = []
nodes_of (blank ∷ ls) = nodes_of ls
nodes_of (statement h links t ∷ ls) = node_of (subject h) ++ (link_nodes links ++ nodes_of ls)

abbrev pub edges_of : List Line → List CoreGraphEdge
edges_of [] = []
edges_of (blank ∷ ls) = edges_of ls
edges_of (statement h links t ∷ ls) = link_edges (subject h) links ++ edges_of ls

abbrev pub head_imsgs : Head → List CoreGraphIMsg
head_imsgs (imsg text gap q c) =
    record { msg = text; port = q.name; elem = q.elem; comp = c.name } ∷ []
head_imsgs (node c) = []
head_imsgs (ext_in p q c) = []

abbrev pub imsgs_of : List Line → List CoreGraphIMsg
imsgs_of [] = []
imsgs_of (blank ∷ ls) = imsgs_of ls
imsgs_of (statement h links t ∷ ls) = head_imsgs h ++ imsgs_of ls

abbrev pub head_ext_in : Head → List CoreGraphExtIn
head_ext_in (ext_in p q c) =
    record { port = p.name; in_port = q.name; in_elem = q.elem; in_comp = c.name } ∷ []
head_ext_in (node c) = []
head_ext_in (imsg text gap q c) = []

abbrev pub ext_in_of : List Line → List CoreGraphExtIn
ext_in_of [] = []
ext_in_of (blank ∷ ls) = ext_in_of ls
ext_in_of (statement h links t ∷ ls) = head_ext_in h ++ ext_in_of ls

abbrev pub tail_ext_out : Instance → Tail → List CoreGraphExtOut
tail_ext_out c stop = []
tail_ext_out c (ext_out p q) =
    record { port = q.name; out_port = p.name; out_elem = p.elem; out_comp = c.name } ∷ []

abbrev pub ext_out_of : List Line → List CoreGraphExtOut
ext_out_of [] = []
ext_out_of (blank ∷ ls) = ext_out_of ls
ext_out_of (statement h links t ∷ ls) = tail_ext_out (last_of (subject h) links) t ++ ext_out_of ls

-- What a flowscript adds to a graph.
abbrev pub add_lines : CoreGraph → List Line → CoreGraph
add_lines g ls = record g {
  nodes = g.nodes ++ nodes_of ls;
  edges = g.edges ++ edges_of ls;
  imsgs = g.imsgs ++ imsgs_of ls;
  ext_in = g.ext_in ++ ext_in_of ls;
  ext_out = g.ext_out ++ ext_out_of ls;
}

-- What its parts add.
abbrev pub add_head : CoreGraph → Head → CoreGraph
add_head g h = record g {
  nodes = g.nodes ++ node_of (subject h);
  imsgs = g.imsgs ++ head_imsgs h;
  ext_in = g.ext_in ++ head_ext_in h;
}

abbrev pub add_links : CoreGraph → Instance → List Link → CoreGraph
add_links g c ls = record g { nodes = g.nodes ++ link_nodes ls; edges = g.edges ++ link_edges c ls }

abbrev pub add_tail : CoreGraph → Instance → Tail → CoreGraph
add_tail g c t = record g { ext_out = g.ext_out ++ tail_ext_out c t }
