-- ===== src/Edges/CoreGraph.antt =====
-- edges/rs/core/graph/edge.rs: the graph that a flowscript describes.
use fractalide.Prelude.{String, Option, List, []}

pub record CoreGraphNode : Type 0 where
  pub name : String
  pub sort : String

pub record CoreGraphEdge : Type 0 where
  pub out_comp : String
  pub out_port : String
  pub out_elem : Option String
  pub in_port : String
  pub in_elem : Option String
  pub in_comp : String

pub record CoreGraphIMsg : Type 0 where
  pub msg : String
  pub port : String
  pub elem : Option String
  pub comp : String

pub record CoreGraphExtIn : Type 0 where
  pub port : String
  pub in_port : String
  pub in_elem : Option String
  pub in_comp : String

pub record CoreGraphExtOut : Type 0 where
  pub port : String
  pub out_port : String
  pub out_elem : Option String
  pub out_comp : String

pub record CoreGraph : Type 0 where
  pub path : String
  pub nodes : List CoreGraphNode
  pub edges : List CoreGraphEdge
  pub imsgs : List CoreGraphIMsg
  pub ext_in : List CoreGraphExtIn
  pub ext_out : List CoreGraphExtOut

-- `CoreGraph::new`
abbrev pub new : CoreGraph
new = record { path = ""; nodes = []; edges = []; imsgs = []; ext_in = []; ext_out = [] }
