-- ===== src/Scheduler/Exterior/Nodes.antt =====
-- A node that has been added: its agent, and the senders of its ports.
use fractalide.Prelude.{
  ℕ, suc, ◌≡◌, refl, ap, ◌∙◌, inl, inr, String, true, not, ◌&&◌, Option, none, some, is_empty, List,
  [], ◌∷◌, ◌++◌, string_eq, arith, Option-cases,
}
use fractalide.Prelude.Map.{Map, get, insert, get-insert_self}
use fractalide.Result.{bind-ok, Error, port_not_found, success, ok}
use fractalide.Ports
use fractalide.Ports.{World}
use fractalide.Ports.Ends.{MsgSender, MsgReceiver}
use fractalide.Agent.{
  Declaration, ThisAgent, this_agent, arm, is_input_ports, create_agent, new_inputs, clone_input,
  get_schema_input,
}
use fractalide.Agent.Lookups.{create_agent_ports}
use fractalide.Scheduler.Messages.{CompMsg, Agent}
use fractalide.Scheduler.Exterior
use fractalide.Scheduler.Exterior.Cache
use fractalide.Scheduler.Exterior.Cache.{
  expect, ok_or, AgentLoader, AgentCache, loader_of, made, created,
}
use fractalide.Scheduler.Exterior.Known.{Comp, Scheduler, send, agent, get_sender}
use fractalide.Scheduler.Exterior.Library.{library}

pub ok_or-some : {X : Type 0} (o : Option X) (e : Error) (x : X) → o ≡ some x → ok_or o e ≡ ok x
ok_or-some o e x h = rw h refl

clone_input-arm :
    (d : Declaration) (port : String) (m : MsgSender) {contract : String}
    → arm d.input port ≡ some contract
    → clone_input d port m ≡ success m
unfolding clone_input get_schema_input
clone_input-arm d port m h = ground (arith, h)

module _ {M A : Type 0} where
  -- The library of a path: the one that has been loaded, or else the one on the disk.
  abbrev pub at_path :
      (String → Option (AgentLoader M A)) → AgentCache M A → String → Option (AgentLoader M A)
  at_path load cache path = elim (get cache path) [ none ↦ load path | some l ↦ some l ]

  load_comp-at_path :
      (load : String → Option (AgentLoader M A)) (cache : AgentCache M A) (path : String)
      (l : AgentLoader M A)
      → at_path load cache path ≡ some l
      → (loaded : AgentCache M A) × (get loaded path ≡ some l)
        × (Cache.load_comp load cache path ≡ ok loaded)
  unfolding Cache.load_comp
  load_comp-at_path load cache path l h = elim (Option-cases (get cache path)) [
    | inl e ↦ (insert cache path l, get-insert_self cache path l, ground (arith, h, e))
    | inr (k, e) ↦ (cache, ground (arith, h, e), ground (arith, h, e))
  ]

  create_comp-at_path :
      (load : String → Option (AgentLoader M A)) (cache : AgentCache M A) (path : String)
      (l : AgentLoader M A) (id sender : ℕ) (w : World M)
      → at_path load cache path ≡ some l
      → (loaded : AgentCache M A) × (get loaded path ≡ some l)
        × (Cache.create_comp load cache path id sender w ≡ ok (made loaded (l.create id sender w)))
  unfolding Cache.create_comp
  create_comp-at_path load cache path l id sender w h =
      let (loaded, there, e) = load_comp-at_path load cache path l h in
      (loaded, there, rw e (rw there refl))

  register-open :
      ⦃ops : Agent A⦄ (s : Scheduler M A) (name sort : String) (b : A)
      (senders : Map String MsgSender)
      → s.world.is_open s.sender ≡ true
      → Exterior.register s name sort (b, senders)
        ≡ ok (record s {
          sent = s.sent ++ CompMsg.new_agent s.id name b ∷ [];
          agents = insert s.agents name (record {
            id = s.id;
            inputs = senders;
            inputs_array = [];
            sort = sort;
            start = not (ops.is_input_ports b);
          });
          id = suc s.id;
        })
  unfolding Exterior.register send
  register-open s name sort b senders h = rw h refl

new_inputs_listens :
    {M : Type 0} (id sched : ℕ) (l : List (String × String)) (rs : Map String MsgReceiver)
    (ss : Map String MsgSender) (w : World M) (k : ℕ)
    → (new_inputs id sched l (rs, ss) w).1.is_open k ≡ w.is_open k
unfolding new_inputs Ports.new
new_inputs_listens id sched [] rs ss w k = refl
new_inputs_listens id sched ((name, contract) ∷ l) rs ss w k = new_inputs_listens id sched l _ _ _ k

create_agent_listens :
    {M S : Type 0} (d : Declaration) (state : S) (id sched : ℕ) (w : World M) (k : ℕ)
    → (create_agent d state id sched w).1.is_open k ≡ w.is_open k
unfolding create_agent Ports.new
create_agent_listens d state id sched w k = new_inputs_listens id sched d.input [] _ _ k

module _ {M S : Type 0} where
  get_sender-known :
      (t : Scheduler M (ThisAgent M S)) (name port : String) (c : Comp) (m : MsgSender)
      (d : Declaration) (state : S) {contract : String}
      → get t.agents name ≡ some c
      → get c.inputs port ≡ some m
      → get t.cache c.sort ≡ some (library d state)
      → arm d.input port ≡ some contract
      → get_sender t name port ≡ ok m
  unfolding get_sender Cache.clone_input
  get_sender-known t name port c m d state here there loaded h =
      bind-ok (agent t name) _ c (ok_or-some _ _ c here) (
        bind-ok (ok_or (get c.inputs port) (port_not_found name port)) _ m (ok_or-some _ _ m there)
          (bind-ok (loader_of t.cache c.sort) _ (library d state) (ok_or-some _ _ _ loaded)
            (ap expect (clone_input-arm d port m h))))

  created_starts :
      (d : Declaration) (state : S) (id sched : ℕ) (w : World M)
      → not (is_input_ports (create_agent d state id sched w).0.0)
        ≡ (is_empty d.input && is_empty d.inarr)
  unfolding create_agent is_input_ports
  created_starts d state id sched w = ground arith

  -- What a node that has been added comes to.
  pub record IsReady (t : Scheduler M (ThisAgent M S)) (name : String) (id : ℕ) (d : Declaration)
      : Type 0 where
    pub comp : Comp
    pub known : get t.agents name ≡ some comp
    pub has_id : comp.id ≡ id
    pub starts : comp.start ≡ (is_empty d.input && is_empty d.inarr)
    pub reached :
        (port : String) {contract : String}
        → arm d.input port ≡ some contract
        → (m : MsgSender) × (get_sender t name port ≡ ok m) × (m.dest ≡ id) × (m.must_sched ≡ true)

  -- While the thread listens, a node whose library was written by `agent!` is added. It has the next
  -- number, it is started first exactly where it has no input port, and a sender of every simple input port
  -- that it declares can be had by name: what is sent there is counted as the agent's.
  pub add_node-IsReady :
      (load : String → Option (AgentLoader M (ThisAgent M S))) (s : Scheduler M (ThisAgent M S))
      (name sort : String) (d : Declaration) (state : S)
      → at_path load s.cache sort ≡ some (library d state)
      → s.world.is_open s.sender ≡ true
      → (t : Scheduler M (ThisAgent M S)) × (Exterior.add_node load s name sort ≡ ok t)
        × IsReady t name s.id d
  unfolding Exterior.add_node
  add_node-IsReady load s name sort d state h listens =
      let (loaded, there, e) =
        create_comp-at_path load s.cache sort (library d state) s.id s.sender s.world h in
      let ((b, senders), w) = create_agent d state s.id s.sender s.world in
      let c : Comp = record {
        id = s.id;
        inputs = senders;
        inputs_array = [];
        sort = sort;
        start = not (is_input_ports b);
      } in
      (
        record s {
          cache = loaded;
          world = w;
          sent = s.sent ++ CompMsg.new_agent s.id name b ∷ [];
          agents = insert s.agents name c;
          id = suc s.id;
        },
        rw e (
            register-open (record s { cache = loaded; world = w }) name sort b senders
              (create_agent_listens d state s.id s.sender s.world s.sender ∙ listens)),
        record {
          comp = c;
          known = get-insert_self s.agents name c;
          has_id = refl;
          starts = created_starts d state s.id s.sender s.world;
          reached = λ port k.
              let (r, m, in_agent, in_senders, ends) =
                create_agent_ports d state s.id s.sender s.world port k in
              (
                m,
                get_sender-known _ name port c m d state (get-insert_self s.agents name c)
                    in_senders there k,
                ends.1,
                ends.5,
              );
        },
      )
