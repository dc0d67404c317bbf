-- ===== src/Scheduler/Exterior.antt =====
-- The exterior scheduler: it knows the agents by name, and asks the thread for changes by messages.
pub mod Cache
pub mod Known
pub mod Library
pub mod Connections
pub mod Calls
pub mod Same
pub mod Numbers
pub mod Nodes
pub mod Refusals
pub mod Tests
use fractalide.Prelude.{
  ℕ, suc, ◌+◌, String, Bool, true, false, Option, none, some, List, [], ◌∷◌, ◌++◌, ◌==◌, ◌&&◌, not,
  string_eq, if◌then◌else◌,
}
use fractalide.Prelude.Map.{Map, get, insert, contains_key}
use fractalide.Result.{
  Error, agent_not_found, bad_schema, port_not_found, element_not_found, Run, ok, err, panic,
  blocked, ◌>>=◌, ◌>>◌,
}
use fractalide.Ports.{World}
use fractalide.Ports.Ends.{MsgSender, MsgReceiver}
use fractalide.Scheduler.Messages.{CompMsg, Agent}
use Cache
use Cache.{AgentLoader, AgentCache, ok_or, expect}
use Known.{Comp, Scheduler, send, agent, get_sender, get_array_sender, check_schema, elements}

-- Each method returns the changed scheduler; one that fails has not changed it.
module _ {M A : Type 0} where
  module _ ⦃ops : Agent A⦄ where
    -- The agent is handed over to the thread, and gets its entry.
    unfoldable pub register :
        Scheduler M A → String → String → A × Map String MsgSender → Run (Scheduler M A)
    unfolding send
    register s name sort (comp, senders) = do
      t ← send s (CompMsg.new_agent s.id name comp)
      ok (record t {
        agents = insert t.agents name (record {
          id = s.id;
          inputs = senders;
          inputs_array = [];
          sort = sort;
          start = not (ops.is_input_ports comp);
        });
        id = suc s.id;
      })

    unfoldable pub add_node :
        (String → Option (AgentLoader M A)) → Scheduler M A → String → String → Run (Scheduler M A)
    unfolding register
    add_node load s name sort = do
      (cache, made, w) ← Cache.create_comp load s.cache sort s.id s.sender s.world
      node ← expect made
      register (record s { cache = cache; world = w }) name sort node

  -- The agents in turn, in the order of the map.
  pub start_all : Scheduler M A → Map String Comp → Run (Scheduler M A)
  unfolding send
  start_all s [] = ok s
  start_all s ((name, comp) ∷ rest) = do
    t ← if comp.start then send s (CompMsg.start comp.id) else ok s
    start_all t rest

  unfoldable pub start : Scheduler M A → Run (Scheduler M A)
  unfolding start_all
  start s = start_all s s.agents

  unfoldable pub start_if_needed : Scheduler M A → String → Run (Scheduler M A)
  unfolding send
  start_if_needed s name = do
    comp ← agent s name
    if comp.start then send s (CompMsg.start comp.id) else ok s

  pub start_agent : Scheduler M A → String → Run (Scheduler M A)
  unfolding send
  start_agent s name = do comp ← agent s name; send s (CompMsg.start comp.id)

  unfoldable pub connect : Scheduler M A → String → String → String → String → Run (Scheduler M A)
  unfolding send get_sender check_schema
  connect s comp_out port_out comp_in port_in = do
    sort_in ← agent s comp_in
    sort_out ← agent s comp_out
    in_schema ← Cache.get_schema_input s.cache sort_in.sort port_in
    out_schema ← Cache.get_schema_output s.cache sort_out.sort port_out
    check_schema comp_out port_out out_schema comp_in port_in in_schema
    sender ← get_sender s comp_in port_in
    comp ← agent s comp_out
    send s (CompMsg.connect_output_port comp.id port_out sender)

  unfoldable pub connect_array :
      Scheduler M A → String → String → String → String → String → Run (Scheduler M A)
  unfolding send get_sender check_schema
  connect_array s comp_out port_out element_out comp_in port_in = do
    sort_in ← agent s comp_in
    sort_out ← agent s comp_out
    in_schema ← Cache.get_schema_input s.cache sort_in.sort port_in
    out_schema ← Cache.get_schema_output_array s.cache sort_out.sort port_out
    check_schema comp_out port_out out_schema comp_in port_in in_schema
    sender ← get_sender s comp_in port_in
    comp ← agent s comp_out
    send s (CompMsg.connect_output_array_port comp.id port_out element_out sender)

  unfoldable pub connect_to_array :
      Scheduler M A → String → String → String → String → String → Run (Scheduler M A)
  unfolding send get_array_sender check_schema
  connect_to_array s comp_out port_out comp_in port_in element_in = do
    sort_in ← agent s comp_in
    sort_out ← agent s comp_out
    in_schema ← Cache.get_schema_input_array s.cache sort_in.sort port_in
    out_schema ← Cache.get_schema_output s.cache sort_out.sort port_out
    check_schema comp_out port_out out_schema comp_in port_in in_schema
    sender ← get_array_sender s comp_in port_in element_in
    comp ← agent s comp_out
    send s (CompMsg.connect_output_port comp.id port_out sender)

  unfoldable pub connect_array_to_array :
      Scheduler M A → String → String → String → String → String → String → Run (Scheduler M A)
  unfolding send get_array_sender check_schema
  connect_array_to_array s comp_out port_out element_out comp_in port_in element_in = do
    sort_in ← agent s comp_in
    sort_out ← agent s comp_out
    in_schema ← Cache.get_schema_input_array s.cache sort_in.sort port_in
    out_schema ← Cache.get_schema_output_array s.cache sort_out.sort port_out
    check_schema comp_out port_out out_schema comp_in port_in in_schema
    sender ← get_array_sender s comp_in port_in element_in
    comp ← agent s comp_out
    send s (CompMsg.connect_output_array_port comp.id port_out element_out sender)

  pub disconnect : Scheduler M A → String → String → Run (Scheduler M A)
  unfolding send
  disconnect s comp_out port_out = do
    comp ← agent s comp_out
    send s (CompMsg.disconnect comp.id port_out)

  pub disconnect_array : Scheduler M A → String → String → String → Run (Scheduler M A)
  unfolding send
  disconnect_array s comp_out port_out element = do
    comp ← agent s comp_out
    send s (CompMsg.disconnect_array comp.id port_out element)

  pub add_input_array_element : Scheduler M A → String → String → String → Run (Scheduler M A)
  unfolding send
  add_input_array_element s comp_name port element = do
    comp ← agent s comp_name
    ((r, sender), w) ← Cache.create_input_array s.cache comp.sort port comp.id s.sender true s.world
    let added : Comp = record comp {
      inputs_array =
          insert comp.inputs_array port (insert (elements comp.inputs_array port) element sender);
    }
    send (record s { agents = insert s.agents comp_name added; world = w })
        (CompMsg.add_input_array_element comp.id port element r)

  -- Whether an element is there.
  pub has_element : Scheduler M A → String → String → String → Bool
  has_element s comp port element = elim (get s.agents comp) [
    | none ↦ false
    | some c ↦ contains_key (elements c.inputs_array port) element
  ]

  pub soft_add_input_array_element : Scheduler M A → String → String → String → Run (Scheduler M A)
  unfolding add_input_array_element has_element
  soft_add_input_array_element s comp port element =
      if has_element s comp port element then ok s else add_input_array_element s comp port element

  pub add_output_array_element : Scheduler M A → String → String → String → Run (Scheduler M A)
  unfolding send
  add_output_array_element s name port element = do
    comp ← agent s name
    send s (CompMsg.add_output_array_element comp.id port element)

  pub set_receiver : Scheduler M A → String → String → MsgReceiver → Run (Scheduler M A)
  unfolding send
  set_receiver s name port receiver = do
    comp ← agent s name
    send s (CompMsg.set_receiver comp.id port receiver)

  pub set_array_receiver :
      Scheduler M A → String → String → String → MsgReceiver → Run (Scheduler M A)
  unfolding send
  set_array_receiver s name port element receiver = do
    comp ← agent s name
    send s (CompMsg.add_input_array_element comp.id port element receiver)

  -- The message goes out, and the thread is awaited; `thread` is what this comes to.
  pub join : Scheduler M A → Run (Unit {0}) → Run (Scheduler M A)
  unfolding send
  join s thread = do
    t ← send s CompMsg.halt_state
    elim thread [ ok u ↦ ok t | err e ↦ panic | panic ↦ panic | blocked ↦ blocked ]

-- Not implemented.
unfoldable pub remove_agent : {M A : Type 0} → Scheduler M A → String → Run (A × Comp)
remove_agent s name = panic
