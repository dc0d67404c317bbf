-- ===== src/Scheduler/Exterior/Known.antt =====
-- What the exterior scheduler knows of the agents, and what is looked up in it.
use fractalide.Prelude.{
  ℕ, String, Bool, none, some, List, [], ◌∷◌, ◌++◌, ◌==◌, ◌&&◌, not, string_eq, if◌then◌else◌,
}
use fractalide.Prelude.Map.{Map, get}
use fractalide.Result.{
  agent_not_found, bad_schema, port_not_found, element_not_found, Run, ok, err, panic, ◌>>=◌,
}
use fractalide.Ports.{World}
use fractalide.Ports.Ends.{MsgSender}
use fractalide.Scheduler.Messages.{CompMsg}
use fractalide.Scheduler.Exterior.Cache
use fractalide.Scheduler.Exterior.Cache.{AgentCache, ok_or}

pub record Comp : Type 0 where
  pub id : ℕ
  pub inputs : Map String MsgSender
  pub inputs_array : Map String (Map String MsgSender)
  pub sort : String
  pub start : Bool

-- `sender` is the channel of the scheduler's thread, and `sent` what has been sent on it.
pub record Scheduler (M A : Type 0) : Type 0 where
  pub cache : AgentCache M A
  pub agents : Map String Comp
  pub sender : ℕ
  pub sent : List (CompMsg A)
  pub id : ℕ
  pub world : World M

-- The contracts of two ports fit where they are the same, or one of them is `BAny`.
abbrev pub is_bad_schema : String → String → Bool
is_bad_schema in_schema out_schema =
    not (in_schema == "BAny") && (not (out_schema == "BAny") && not (in_schema == out_schema))

unfoldable pub check_schema : String → String → String → String → String → String → Run (Unit {0})
check_schema comp_out port_out out_schema comp_in port_in in_schema =
    if is_bad_schema in_schema out_schema
    then err (bad_schema comp_out port_out out_schema comp_in port_in in_schema)
    else ok tt

-- The elements of an array port, none where the port is new.
abbrev pub elements : Map String (Map String MsgSender) → String → Map String MsgSender
elements m port = elim (get m port) [ none ↦ [] | some es ↦ es ]

module _ {M A : Type 0} where
  -- `Scheduler::new`, on the side of the caller
  abbrev pub new : ℕ → World M → Scheduler M A
  new sender w = record { cache = []; agents = []; sender = sender; sent = []; id = 0; world = w }

  -- `self.sender.send(…).expect(…)`
  unfoldable pub send : Scheduler M A → CompMsg A → Run (Scheduler M A)
  send s m = if s.world.is_open s.sender then ok (record s { sent = s.sent ++ m ∷ [] }) else panic

  abbrev pub agent : Scheduler M A → String → Run Comp
  agent s name = ok_or (get s.agents name) (agent_not_found name)

  unfoldable pub get_sender : Scheduler M A → String → String → Run MsgSender
  get_sender s comp port = do
    c ← agent s comp
    sender ← ok_or (get c.inputs port) (port_not_found comp port)
    Cache.clone_input s.cache c.sort port sender

  unfoldable pub get_array_sender : Scheduler M A → String → String → String → Run MsgSender
  get_array_sender s comp port element = do
    c ← agent s comp
    p ← ok_or (get c.inputs_array port) (port_not_found comp port)
    sender ← ok_or (get p element) (element_not_found comp port element)
    Cache.clone_input_array s.cache c.sort port sender

  unfoldable pub get_schema_input : Scheduler M A → String → String → Run String
  get_schema_input s comp port = do c ← agent s comp; Cache.get_schema_input s.cache c.sort port

  unfoldable pub get_schema_input_array : Scheduler M A → String → String → Run String
  get_schema_input_array s comp port = do
    c ← agent s comp
    Cache.get_schema_input_array s.cache c.sort port

  unfoldable pub get_schema_output : Scheduler M A → String → String → Run String
  get_schema_output s comp port = do c ← agent s comp; Cache.get_schema_output s.cache c.sort port

  unfoldable pub get_schema_output_array : Scheduler M A → String → String → Run String
  get_schema_output_array s comp port = do
    c ← agent s comp
    Cache.get_schema_output_array s.cache c.sort port
