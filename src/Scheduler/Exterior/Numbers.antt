-- ===== src/Scheduler/Exterior/Numbers.antt =====
-- The numbers of the agents: the thread knows an agent by a number that no other agent has.
use fractalide.Prelude.{
  ℕ, suc, ◌≤◌, ◌<◌, ◌≡◌, refl, sym, ap, subst, ◌∙◌, ◌⊎◌, inl, inr, ◌++◌, String, Option, some, List,
  [], ◌∷◌, nat_eq, string_eq, nat_beq_iff, arith,
}
use fractalide.Prelude.Map.{get, insert, get-insert}
use fractalide.Result.{ok-bind, ok_inj, Run, ok, err, panic, blocked}
use fractalide.Ports.{World}
use fractalide.Scheduler.Messages.{CompMsg, Agent}
use fractalide.Scheduler.System.{count, is_new}
use fractalide.Scheduler.Invariant.{count-append}
use fractalide.Scheduler.Exterior
use fractalide.Scheduler.Exterior.Cache
use fractalide.Scheduler.Exterior.Cache.{AgentLoader, AgentCache, loader_of, expect}
use fractalide.Scheduler.Exterior.Known
use fractalide.Scheduler.Exterior.Known.{
  Comp, Scheduler, send, agent, get_sender, get_array_sender, check_schema, elements,
}
use fractalide.Scheduler.Exterior.Connections.{sent-send}
use fractalide.Scheduler.Exterior.Calls.{
  Call, add_node, start, start_if_needed, start_agent, join_ends, disconnect, disconnect_array,
  add_input_array_element, soft_add_input_array_element, add_output_array_element, set_receiver,
  set_array_receiver, join, call, calls, go_on,
}
use fractalide.Scheduler.Exterior.Same.{
  IsSame, IsSame-send, IsSame-told, IsSame-if, IsSame-start_all, IsSame-join_ends,
  IsSame-add_element, IsSame-soft_add,
}

module _ {M A : Type 0} where
  pub record IsNumbered (s : Scheduler M A) : Type 0 where
    pub known : (name : String) (c : Comp) → get s.agents name ≡ some c → c.id < s.id
    pub apart :
        (n m : String) (c d : Comp)
        → get s.agents n ≡ some c
        → get s.agents m ≡ some d
        → c.id ≡ d.id
        → n ≡ m
    pub once : (i : ℕ) → count (is_new i) s.sent ≤ 1
    pub later : (i : ℕ) → s.id ≤ i → count (is_new i) s.sent ≡ 0

  IsSame-IsNumbered : (s t : Scheduler M A) → IsSame s t → IsNumbered s → IsNumbered t
  IsSame-IsNumbered s t k v = record {
    known = λ name c h.
        let (b, e, i) = k.same_agents name c h in omega (arith, v.known name b e, i, k.same_id);
    apart = λ n m c d hc hd same.
        let (b, e, i) = k.same_agents n c hc in
        let (b', e', i') = k.same_agents m d hd in v.apart n m b b' e e' (i ∙ same ∙ sym i');
    once = λ i. omega (arith, v.once i, k.same_sent i);
    later = λ i h. k.same_sent i ∙ v.later i (omega (arith, h, k.same_id));
  }

  joined_end :
      (thread : Run (Unit {0})) (u t : Scheduler M A)
      → elim thread [ ok x ↦ ok u | err e ↦ panic | panic ↦ panic | blocked ↦ blocked ] ≡ ok t
      → u ≡ t
  joined_end (ok x) u t h = ok_inj h
  joined_end (err e) u t h = absurd (cc)
  joined_end panic u t h = absurd (cc)
  joined_end blocked u t h = absurd (cc)

  go_on-IsNumbered :
      (s t : Scheduler M A) (r : Run (Scheduler M A)) (f : Scheduler M A → Run (Scheduler M A))
      → IsNumbered s
      → ((u : Scheduler M A) → r ≡ ok u → IsNumbered u)
      → ((u : Scheduler M A) → IsNumbered u → f u ≡ ok t → IsNumbered t)
      → go_on s r f ≡ ok t
      → IsNumbered t
  go_on-IsNumbered s t (ok u) f v step next h = next u (step u refl) h
  go_on-IsNumbered s t (err e) f v step next h = next s v h
  go_on-IsNumbered s t panic f v step next h = absurd (cc)
  go_on-IsNumbered s t blocked f v step next h = absurd (cc)

  module _ (load : String → Option (AgentLoader M A)) ⦃ops : Agent A⦄ where
    new_agent-IsNumbered :
        (s u : Scheduler M A) (cache : AgentCache M A) (w : World M) (name : String) (b : A)
        (c : Comp)
        → c.id ≡ s.id
        → IsNumbered s
        → send (record s { cache = cache; world = w }) (CompMsg.new_agent s.id name b) ≡ ok u
        → IsNumbered (record u { agents = insert u.agents name c; id = suc s.id })
    new_agent-IsNumbered s u cache w name b c here v h =
        subst (λ r. IsNumbered (record r { agents = insert r.agents name c; id = suc s.id }))
          (sym (sent-send _ u _ h))
          (record {
            known = λ n d hd. ground (arith, here, get-insert s.agents name c n, v.known n d);
            apart = λ n m d e hd he same. ground (
              arith,
              here,
              get-insert s.agents name c n,
              get-insert s.agents name c m,
              v.known n d,
              v.known m e,
              v.apart n m d e,
              string_eq.beq_iff name n,
              string_eq.beq_iff name m,
            );
            once = λ i. ground (
              arith,
              v.once i,
              v.later i,
              nat_beq_iff s.id i,
              count-append (is_new i) s.sent (CompMsg.new_agent s.id name b ∷ []),
            );
            later = λ i k. ground (
              arith,
              v.later i,
              nat_beq_iff s.id i,
              count-append (is_new i) s.sent (CompMsg.new_agent s.id name b ∷ []),
            );
          })

    add_node-IsNumbered :
        (s t : Scheduler M A) (name sort : String)
        → IsNumbered s
        → Exterior.add_node load s name sort ≡ ok t
        → IsNumbered t
    unfolding Exterior.add_node Exterior.register
    add_node-IsNumbered s t name sort v h =
        let (x, e1, h1) =
          ok-bind (Cache.create_comp load s.cache sort s.id s.sender s.world) _ t h in
        let (y, e2, h2) = ok-bind (expect x.1) _ t h1 in
        let (u, e3, h3) =
          ok-bind (send (record s { cache = x.0; world = x.2 }) (CompMsg.new_agent s.id name y.0)) _
            t h2 in
        subst IsNumbered (ok_inj h3) (new_agent-IsNumbered s u x.0 x.2 name y.0 _ refl v e3)

    -- The one message that makes the agent.
    pub sent-add_node :
        (s t : Scheduler M A) (name sort : String)
        → Exterior.add_node load s name sort ≡ ok t
        → (b : A) × (t.sent ≡ s.sent ++ CompMsg.new_agent s.id name b ∷ [])
    unfolding Exterior.add_node Exterior.register
    sent-add_node s t name sort h =
        let (x, e1, h1) =
          ok-bind (Cache.create_comp load s.cache sort s.id s.sender s.world) _ t h in
        let (y, e2, h2) = ok-bind (expect x.1) _ t h1 in
        let (u, e3, h3) =
          ok-bind (send (record s { cache = x.0; world = x.2 }) (CompMsg.new_agent s.id name y.0)) _
            t h2 in
        (
          y.0,
          ap (λ r. r.sent) (sym (ok_inj h3))
              ∙ ap (λ r. r.sent) (sent-send (record s { cache = x.0; world = x.2 }) u _ e3),
        )

    -- A call makes an agent, or keeps the agents as they are.
    pub call-IsSame :
        (s t : Scheduler M A) (k : Call)
        → call load s k ≡ ok t
        → IsSame s t
          ⊎ ((name : String) × (sort : String) × (Exterior.add_node load s name sort ≡ ok t))
    unfolding call Exterior.start Exterior.start_if_needed Exterior.start_agent Exterior.disconnect
        Exterior.disconnect_array Exterior.soft_add_input_array_element
        Exterior.add_output_array_element Exterior.set_receiver Exterior.set_array_receiver
        Exterior.join
    call-IsSame s t (add_node name sort) h = inr (name, sort, h)
    call-IsSame s t start h = inl (IsSame-start_all s.agents s t h)
    call-IsSame s t (start_if_needed name) h =
        let (c, e, h1) = ok-bind (agent s name) _ t h in
        inl (IsSame-if c.start s t (CompMsg.start c.id) tt h1)
    call-IsSame s t (start_agent name) h = inl (IsSame-told s t (agent s name) _ (λ x. tt) h)
    call-IsSame s t (join_ends out into) h = inl (IsSame-join_ends s t out into h)
    call-IsSame s t (disconnect name port) h =
        inl (IsSame-told s t (agent s name) (λ c. CompMsg.disconnect c.id port) (λ x. tt) h)
    call-IsSame s t (disconnect_array name port e) h =
        inl (IsSame-told s t (agent s name) (λ c. CompMsg.disconnect_array c.id port e) (λ x. tt) h)
    call-IsSame s t (add_input_array_element name port e) h =
        inl (IsSame-add_element s t name port e h)
    call-IsSame s t (soft_add_input_array_element name port e) h =
        inl (IsSame-soft_add (Exterior.has_element s name port e) s t name port e h)
    call-IsSame s t (add_output_array_element name port e) h = inl (
        IsSame-told s t (agent s name) (λ c. CompMsg.add_output_array_element c.id port e) (λ x. tt)
          h)
    call-IsSame s t (set_receiver name port r) h =
        inl (IsSame-told s t (agent s name) (λ c. CompMsg.set_receiver c.id port r) (λ x. tt) h)
    call-IsSame s t (set_array_receiver name port e r) h = inl (
        IsSame-told s t (agent s name) (λ c. CompMsg.add_input_array_element c.id port e r)
          (λ x. tt) h)
    call-IsSame s t (join thread) h =
        let (u, e, h1) = ok-bind (send s CompMsg.halt_state) _ t h in
        inl (subst (IsSame s) (joined_end thread u t h1) (IsSame-send s u CompMsg.halt_state tt e))

    pub call-IsNumbered :
        (s t : Scheduler M A) (k : Call) → IsNumbered s → call load s k ≡ ok t → IsNumbered t
    call-IsNumbered s t k v h = elim (call-IsSame s t k h) [
      | inl same ↦ IsSame-IsNumbered s t same v
      | inr (name, sort, e) ↦ add_node-IsNumbered s t name sort v e
    ]

    calls-IsNumbered :
        (ks : List Call) (s t : Scheduler M A)
        → IsNumbered s
        → calls load s ks ≡ ok t
        → IsNumbered t
    unfolding calls
    calls-IsNumbered [] s t v h = subst IsNumbered (ok_inj h) v
    calls-IsNumbered (k ∷ ks) s t v h =
        go_on-IsNumbered s t (call load s k) (λ u. calls load u ks) v
          (λ u e. call-IsNumbered s u k v e) (λ u w e. calls-IsNumbered ks u t w e) h

    pub new-IsNumbered : (sender : ℕ) (w : World M) → IsNumbered (Known.new sender w)
    unfolding get
    new-IsNumbered sender w = record {
      known = λ n c e. absurd (cc);
      apart = λ n m c d e f same. absurd (cc);
      once = λ i. omega arith;
      later = λ i k. refl;
    }

    -- Whatever calls are made on a new scheduler, and whichever of them fail: each agent has a number
    -- that has been given out and that no other name has, no number is sent for a new agent twice,
    -- and those that will be given out are new.
    pub numbers_stay_apart :
        (sender : ℕ) (w : World M) (ks : List Call) (t : Scheduler M A)
        → calls load (Known.new sender w) ks ≡ ok t
        → IsNumbered t
    numbers_stay_apart sender w ks t h = calls-IsNumbered ks _ t (new-IsNumbered sender w) h
