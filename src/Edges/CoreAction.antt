-- ===== src/Edges/CoreAction.antt =====
-- edges/rs/core/action/edge.rs: what a program asks of the running network.
use fractalide.Prelude.{String, Option}

pub record CoreActionAdd : Type 0 where
  pub name : String
  pub comp : String

pub record CoreActionConnect : Type 0 where
  pub out_comp : String
  pub out_port : String
  pub out_elem : Option String
  pub in_comp : String
  pub in_port : String
  pub in_elem : String

-- `Any` is the type of what is sent as `output`.
pub record CoreActionConnectSender (Any : Type 0) : Type 0 where
  pub name : String
  pub port : String
  pub elem : String
  pub output : Any

pub data CoreAction (Any : Type 0) : Type 0 where
  add : CoreActionAdd → CoreAction Any
  remove : String → CoreAction Any
  connect : CoreActionConnect → CoreAction Any
  connect_sender : CoreActionConnectSender Any → CoreAction Any
  halt : CoreAction Any
