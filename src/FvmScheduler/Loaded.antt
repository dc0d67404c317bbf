-- ===== src/FvmScheduler/Loaded.antt =====
-- A graph that has been loaded.
use fractalide.Prelude.{
  All, some_inj, not, ◌≡◌, refl, sym, ap, subst, ◌∙◌, inl, inr, String, Option, none, some, List,
  [], ◌∷◌, ◌==◌, string_eq, arith, Bool-cases,
}
use fractalide.Prelude.Map.{Map, get, insert, get-insert, get-insert_self}
use fractalide.Result.{Run, ok, err, panic, blocked, ok-bind, ok_inj}
use fractalide.Edges.CoreGraph.{CoreGraph, CoreGraphNode}
use fractalide.Ports.Ends.{MsgSender}
use fractalide.Scheduler.Messages.{Agent, CompMsg}
use fractalide.Scheduler.Exterior
use fractalide.Scheduler.Exterior.Cache
use fractalide.Scheduler.Exterior.Cache.{AgentLoader, ok_or, expect}
use fractalide.Scheduler.Exterior.Known.{Comp, Scheduler, send}
use fractalide.Scheduler.Exterior.Connections.{sent-send}
use fractalide.Scheduler.Exterior.Calls.{go_on}
use fractalide.FvmScheduler.{
  CoreScheduler, CoreSchedulerSubnet, names_of, add_nodes, connect_edges, send_imsgs, start_nodes,
  add_graph,
}
use fractalide.FvmScheduler.Simple.{NoElements, NoElements-same, connected, sent-All, started}

module _ {M A : Type 0} where
  -- A new entry has no element either.
  added_entry :
      (s : Scheduler M A) (name : String) (new : Comp)
      → NoElements s
      → new.inputs_array ≡ []
      → (other : String) (c : Comp) → get (insert s.agents name new) other ≡ some c
      → c.inputs_array ≡ []
  added_entry s name new n bare other c found = elim (Bool-cases (name == other)) [
    | inl e ↦
        let same : new ≡ c =
          some_inj (ground (arith, found, get-insert s.agents name new other, e)) in
        ap (λ (r : Comp). r.inputs_array) (sym same) ∙ bare
    | inr e ↦ n other c (ground (arith, found, get-insert s.agents name new other, e))
  ]

  module _ (load : String → Option (AgentLoader M A)) ⦃ops : Agent A⦄ where
    NoElements-register :
        (s t : Scheduler M A) (name sort : String) (x : A × Map String MsgSender)
        → NoElements s
        → Exterior.register s name sort x ≡ ok t
        → NoElements t
    unfolding Exterior.register
    NoElements-register s t name sort x n h other c found =
        let (u, told, e) = ok-bind (send s (CompMsg.new_agent s.id name x.0)) _ t h in
        let at_t = ap (λ (r : Scheduler M A). r.agents) (ok_inj e) in
        let at_u = ap (λ (r : Scheduler M A). r.agents) (sent-send s u _ told) in
        added_entry s name new n refl other c (
          subst (λ l. get (insert l name new) other ≡ some c) at_u
            (subst (λ l. get l other ≡ some c) (sym at_t) found))
      where
        new : Comp
        new = record {
          id = s.id;
          inputs = x.1;
          inputs_array = [];
          sort = sort;
          start = not (ops.is_input_ports x.0);
        }

    NoElements-add_node :
        (s t : Scheduler M A) (name sort : String)
        → NoElements s
        → Exterior.add_node load s name sort ≡ ok t
        → NoElements t
    unfolding Exterior.add_node
    NoElements-add_node s t name sort n h =
        let (x, made, h1) =
          ok-bind (Cache.create_comp load s.cache sort s.id s.sender s.world) _ t h in
        let (y, is_ok, h2) = ok-bind (expect x.1) _ t h1 in
        NoElements-register (record s { cache = x.0; world = x.2 }) t name sort y n h2

    NoElements-add_nodes :
        (ns : List CoreGraphNode) (s t : Scheduler M A)
        → NoElements s
        → add_nodes load s ns ≡ ok t
        → NoElements t
    unfolding add_nodes
    NoElements-add_nodes [] s t n h = subst NoElements (ok_inj h) n
    NoElements-add_nodes (k ∷ ns) s t n h =
        after s t (Exterior.add_node load s k.name k.sort) (λ u. add_nodes load u ns) n
          (λ u e. NoElements-add_node s u k.name k.sort n e) (λ u e. NoElements-add_nodes ns u t e)
          h
      where
        after :
            (s t : Scheduler M A) (r : Run (Scheduler M A))
            (f : Scheduler M A → Run (Scheduler M A))
            → NoElements s
            → ((u : Scheduler M A) → r ≡ ok u → NoElements u)
            → ((u : Scheduler M A) → NoElements u → f u ≡ ok t → NoElements t)
            → go_on s r f ≡ ok t
            → NoElements t
        after s t (ok u) f n step next h = next u (step u refl) h
        after s t (err e) f n step next h = next s n h
        after s t panic f n step next h = absurd (cc)
        after s t blocked f n step next h = absurd (cc)

    -- Only graphs without array input ports can be loaded: where no node has had an element added to
    -- an array input port, as on a new scheduler, a graph that is loaded has no edge and no message to
    -- such an element, and afterwards there still is none. The graph's subnet is remembered.
    pub loaded_is_simple :
        (from_string : String → M) (g : CoreGraph) (name : String) (acc done : CoreScheduler M A)
        → NoElements acc.sched
        → add_graph load from_string (ok g) name acc ≡ ok done
        → All (λ e. e.in_elem ≡ none) g.edges
          × All (λ i. i.elem ≡ none) g.imsgs
          × NoElements done.sched
          × ((subnet : CoreSchedulerSubnet) × (get done.subnets name ≡ some subnet)
              × (subnet.nodes ≡ names_of g.nodes))
    unfolding add_graph
    loaded_is_simple from_string g name acc done n h =
        let (s, added, h1) = ok-bind (add_nodes load acc.sched g.nodes) _ done h in
        let (t, joined, h2) = ok-bind (connect_edges s g.edges) _ done h1 in
        let (u, sent, h3) = ok-bind (send_imsgs from_string t g.imsgs) _ done h2 in
        let (v, begun, h4) = ok-bind (start_nodes u (names_of g.nodes)) _ done h3 in
        let at_s = NoElements-add_nodes g.nodes acc.sched s n added in
        let (edges, same_t) = connected g.edges s t at_s joined in
        let at_t = NoElements-same s t same_t at_s in
        let (imsgs, same_u) = sent-All from_string g.imsgs t u at_t sent in
        let at_u = NoElements-same t u same_u at_t in
        let at_v = NoElements-same u v (started (names_of g.nodes) u v begun) at_u in
        (
          edges,
          imsgs,
          subst (λ (r : CoreScheduler M A). NoElements r.sched) (ok_inj h4) at_v,
          subst
              (λ (r : CoreScheduler M A).
                (subnet : CoreSchedulerSubnet) × (get r.subnets name ≡ some subnet)
                × (subnet.nodes ≡ names_of g.nodes))
              (ok_inj h4) (_, get-insert_self acc.subnets name _, refl),
        )
