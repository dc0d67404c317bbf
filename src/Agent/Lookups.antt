-- ===== src/Agent/Lookups.antt =====
-- The functions that the macro writes agree on which ports an agent has.
use fractalide.Prelude.{
  ℕ, ◌≡◌, refl, String, true, some, List, [], ◌∷◌, nat_eq, ◌==◌, string_eq, arith, Bool-cases, inl,
  inr,
}
use fractalide.Prelude.Map.{Map, get, insert, get-insert}
use fractalide.Result.{Result, success, failure}
use fractalide.Ports
use fractalide.Ports.{World}
use fractalide.Ports.Ends.{MsgSender, MsgReceiver}
use fractalide.Agent.{
  Declaration, ThisAgent, arm, connect, connect_array, add_inarr_element, new_inputs, create_agent,
  get_schema_input_array, get_schema_output, get_schema_output_array, create_input_array,
  clone_input_array,
}

abbrev pub outcome : {T : Type 0} → Result T → Result (Unit {0})
outcome (success x) = success tt
outcome (failure e) = failure e

module _ {M S : Type 0} where
  -- An edit of an agent succeeds exactly where the agent has a schema for the port, and fails with
  -- the same error: `connect` goes by the output ports, `connect_array` by the array output ports,
  -- and `add_inarr_element` by the array input ports, for which an element can be made and a sender
  -- cloned under the same condition.
  pub edits_follow_schemas :
      (a : ThisAgent M S) (port element : String) (s : MsgSender) (r : MsgReceiver) (id sched : ℕ)
      (w : World M)
      → ((connect a port s).1 ≡ outcome (get_schema_output a.declaration port))
        × ((connect_array a port element s).1
            ≡ outcome (get_schema_output_array a.declaration port))
        × ((add_inarr_element a port element r).1
            ≡ outcome (get_schema_input_array a.declaration port))
        × (outcome (create_input_array a.declaration port id sched true w).0
            ≡ outcome (get_schema_input_array a.declaration port))
        × (outcome (clone_input_array a.declaration port s)
            ≡ outcome (get_schema_input_array a.declaration port))
  unfolding connect connect_array add_inarr_element get_schema_output get_schema_output_array
      get_schema_input_array create_input_array clone_input_array
  edits_follow_schemas a port element s r id sched w =
      (ground arith, ground arith, ground arith, ground arith, ground arith)

-- Wakes agent `id` of scheduler `sched`.
abbrev pub Wakes : ℕ → ℕ → MsgReceiver → MsgSender → Type 0
Wakes id sched r s =
    (s.sender ≡ r.recv)
    × (s.dest ≡ id)
    × (r.id ≡ id)
    × (s.sched ≡ sched)
    × (r.sched ≡ sched)
    × (s.must_sched ≡ true)
    × (r.must_sched ≡ true)

-- The two ends of a port that is in both maps.
abbrev pub Joined : ℕ → ℕ → Map String MsgReceiver → Map String MsgSender → String → Type 0
Joined id sched rs ss port =
    (r : MsgReceiver) × (s : MsgSender) × (get rs port ≡ some r)
    × (get ss port ≡ some s)
    × Wakes id sched r s

module _ {M : Type 0} where
  new_inputs-Joined :
      (id sched : ℕ) (l : List (String × String)) (rs : Map String MsgReceiver)
      (ss : Map String MsgSender) (w : World M) (port : String)
      → (Joined id sched rs ss port)
      → Joined id sched
          (new_inputs id sched l (rs, ss) w).0.0
          (new_inputs id sched l (rs, ss) w).0.1
          port
  unfolding new_inputs Ports.new
  new_inputs-Joined id sched [] rs ss w port h = h
  new_inputs-Joined id sched ((name, contract) ∷ rest) rs ss w port (r0, s0, gr, gs, wk) =
      new_inputs-Joined id sched rest (insert rs name r) (insert ss name s) w' port
        (elim (Bool-cases (name == port)) [
          | inl same ↦ (r, s, rw get-insert (rw same), rw get-insert (rw same), made)
          | inr other ↦ (r0, s0, rw get-insert (rw other gr), rw get-insert (rw other gs), wk)
        ])
    where
      r : MsgReceiver
      r = (Ports.new id sched true w).0.0

      s : MsgSender
      s = (Ports.new id sched true w).0.1

      w' : World M
      w' = (Ports.new id sched true w).1

      made : Wakes id sched r s
      made = (refl, refl, refl, refl, refl, refl, refl)

  new_inputs-arm :
      (id sched : ℕ) (l : List (String × String)) (rs : Map String MsgReceiver)
      (ss : Map String MsgSender) (w : World M) (port : String) {contract : String}
      → arm l port ≡ some contract
      → Joined id sched
          (new_inputs id sched l (rs, ss) w).0.0
          (new_inputs id sched l (rs, ss) w).0.1
          port
  unfolding new_inputs arm Ports.new
  new_inputs-arm id sched [] rs ss w port h = absurd (cc)
  new_inputs-arm id sched ((name, c) ∷ rest) rs ss w port h = elim (Bool-cases (name == port)) [
    | inl same ↦ new_inputs-Joined id sched rest (insert rs name r) (insert ss name s) w' port (
      r,
      s,
      rw get-insert (rw same),
      rw get-insert (rw same),
      (refl, refl, refl, refl, refl, refl, refl),
    )
    | inr other ↦
        new_inputs-arm id sched rest (insert rs name r) (insert ss name s) w' port
          (rw (other, arm) at h)
  ]
    where
      r : MsgReceiver
      r = (Ports.new id sched true w).0.0

      s : MsgSender
      s = (Ports.new id sched true w).0.1

      w' : World M
      w' = (Ports.new id sched true w).1

  -- A new agent has both ends of every input port that it declares: the receiver is in the agent and
  -- the sender is handed to the scheduler, they share a channel, and each message that is sent or
  -- read is told to the scheduler as the agent's.
  pub create_agent_ports :
      {S : Type 0} (d : Declaration) (state : S) (id sched : ℕ) (w : World M) (port : String)
      {contract : String}
      → arm d.input port ≡ some contract
      → Joined id sched
          (create_agent d state id sched w).0.0.input.ports
          (create_agent d state id sched w).0.1
          port
  unfolding create_agent
  create_agent_ports d state id sched w port h = new_inputs-arm id sched d.input [] _ _ port h
