-- ===== src/FvmScheduler/Simple.antt =====
-- Connections and first messages, while no array port has an element.
use fractalide.Prelude.{
  All, ℕ, ◌≡◌, ◌≢◌, refl, sym, ap, subst, ◌∙◌, String, Bool, true, false, Option, none, some, List,
  [], ◌∷◌, string_eq, if◌then◌else◌,
}
use fractalide.Prelude.Map.{Map, get}
use fractalide.Result.{Error, Run, ok, err, panic, blocked, ok-bind, ok_inj}
use fractalide.Edges.CoreGraph.{CoreGraphEdge, CoreGraphIMsg}
use fractalide.Ports
use fractalide.Ports.Ends.{MsgSender}
use fractalide.Scheduler.Messages.{CompMsg}
use fractalide.Scheduler.Exterior
use fractalide.Scheduler.Exterior.Cache
use fractalide.Scheduler.Exterior.Cache.{AgentLoader, ok_or, expect}
use fractalide.Scheduler.Exterior.Known.{
  Comp, Scheduler, agent, send, get_sender, get_array_sender, check_schema,
}
use fractalide.Scheduler.Exterior.Library.{End, simple, element, join_ends}
use fractalide.Scheduler.Exterior.Connections.{steps, steps_end, ok-ok_or, sent-send}
use fractalide.FvmScheduler.{end_of, connect_edges, sender_to, in_world, send_imsgs, start_nodes}

-- No array port has an element.
abbrev pub NoElements : {M A : Type 0} → Scheduler M A → Type 0
NoElements s = (name : String) (c : Comp) → get s.agents name ≡ some c → c.inputs_array ≡ []

empty_port :
    (l : Map String (Map String MsgSender)) (k : String) (e : Error) (p : Map String MsgSender)
    → l ≡ []
    → ok_or (get l k) e ≢ ok p
unfolding get
empty_port l k e p h bad =
    let gone : ok_or (get {V = Map String MsgSender} [] k) e ≡ ok p =
      subst (λ l. ok_or (get l k) e ≡ ok p) h bad in
    absurd (cc)

abbrev IsSimple : End → Type 0
IsSimple (simple name port) = Unit
IsSimple (element name port e) = ⊥

simple_end :
    (comp port : String) (elem : Option String) → IsSimple (end_of comp port elem) → elem ≡ none
simple_end comp port none h = refl
simple_end comp port (some e) h = absurd h

module _ {M A : Type 0} where
  no_array_sender :
      (s : Scheduler M A) (comp port e : String) (m : MsgSender)
      → NoElements s
      → get_array_sender s comp port e ≢ ok m
  unfolding get_array_sender get
  no_array_sender s comp port e m none_there h =
      let (c, found, h1) = ok-bind (agent s comp) _ m h in
      let (p, ports, h2) = ok-bind (ok_or (get c.inputs_array port) _) _ m h1 in
      let there = none_there comp c (ok-ok_or (get s.agents comp) _ c found) in
      empty_port c.inputs_array port _ p there ports

  agents-steps :
      (s t : Scheduler M A) (n p m q : String) (in_schema out_schema : Comp → Run String)
      (sender : Run MsgSender) (f : Comp → MsgSender → CompMsg A)
      → steps
          (agent s m)
          (agent s n)
          in_schema
          out_schema
          (λ x y. check_schema n p y m q x)
          sender
          (λ c k. send s (f c k))
        ≡ ok t
      → (t.agents ≡ s.agents) × (k : MsgSender) × (sender ≡ ok k)
  agents-steps s t n p m q in_schema out_schema sender f h =
      let (c, k, there, e) =
        steps_end (agent s m) (agent s n) in_schema out_schema (λ x y. check_schema n p y m q x)
          sender (λ c k. send s (f c k)) t h in
      (ap (λ (r : Scheduler M A). r.agents) (sent-send s t (f c k) e), k, there)

  -- A connection leads to a simple port, and leaves the agents as they were.
  joined-IsSimple :
      (s t : Scheduler M A) (out into : End)
      → NoElements s
      → join_ends s out into ≡ ok t
      → IsSimple into × (t.agents ≡ s.agents)
  unfolding join_ends Exterior.connect Exterior.connect_array Exterior.connect_to_array
      Exterior.connect_array_to_array
  joined-IsSimple s t (simple n p) (simple m q) none_there h = (
    tt,
    (agents-steps s t n p m q (λ k. Cache.get_schema_input s.cache k.sort q)
        (λ k. Cache.get_schema_output s.cache k.sort p) (get_sender s m q)
        (λ c k. CompMsg.connect_output_port c.id p k) h).0,
  )
  joined-IsSimple s t (element n p f) (simple m q) none_there h = (
    tt,
    (agents-steps s t n p m q (λ k. Cache.get_schema_input s.cache k.sort q)
        (λ k. Cache.get_schema_output_array s.cache k.sort p) (get_sender s m q)
        (λ c k. CompMsg.connect_output_array_port c.id p f k) h).0,
  )
  joined-IsSimple s t (simple n p) (element m q g) none_there h =
      let (same, k, there) =
        agents-steps s t n p m q (λ k. Cache.get_schema_input_array s.cache k.sort q)
          (λ k. Cache.get_schema_output s.cache k.sort p) (get_array_sender s m q g)
          (λ c k. CompMsg.connect_output_port c.id p k) h in
      absurd (no_array_sender s m q g k none_there there)
  joined-IsSimple s t (element n p f) (element m q g) none_there h =
      let (same, k, there) =
        agents-steps s t n p m q (λ k. Cache.get_schema_input_array s.cache k.sort q)
          (λ k. Cache.get_schema_output_array s.cache k.sort p) (get_array_sender s m q g)
          (λ c k. CompMsg.connect_output_array_port c.id p f k) h in
      absurd (no_array_sender s m q g k none_there there)

  pub NoElements-same : (s t : Scheduler M A) → t.agents ≡ s.agents → NoElements s → NoElements t
  NoElements-same s t e h name c k = h name c (subst (λ l. get l name ≡ some c) e k)

  pub connected :
      (es : List CoreGraphEdge) (s t : Scheduler M A)
      → NoElements s
      → connect_edges s es ≡ ok t
      → All (λ e. e.in_elem ≡ none) es × (t.agents ≡ s.agents)
  unfolding connect_edges
  connected [] s t n h = (tt, ap (λ (r : Scheduler M A). r.agents) (sym (ok_inj h)))
  connected (e ∷ es) s t n h =
      let out = end_of e.out_comp e.out_port e.out_elem in
      let into = end_of e.in_comp e.in_port e.in_elem in
      let (u, made, rest) = ok-bind (join_ends s out into) _ t h in
      let (is_simple, same) = joined-IsSimple s u out into n made in
      let (all, later) = connected es u t (NoElements-same s u same n) rest in
      ((simple_end e.in_comp e.in_port e.in_elem is_simple, all), later ∙ same)

  sent_simple :
      (s : Scheduler M A) (i : CoreGraphIMsg) (o : Option String) (m : MsgSender)
      → NoElements s
      → sender_to s i o ≡ ok m
      → o ≡ none
  unfolding sender_to
  sent_simple s i none m n h = refl
  sent_simple s i (some e) m n h = absurd (no_array_sender s i.comp i.port e m n h)

  agents-in_world :
      (s t : Scheduler M A) (r : Run (Unit {0}) × Ports.World M)
      → in_world s r ≡ ok t
      → t.agents ≡ s.agents
  agents-in_world s t (ok u, w) h = ap (λ (r : Scheduler M A). r.agents) (sym (ok_inj h))
  agents-in_world s t (err e, w) h = absurd (cc)
  agents-in_world s t (panic, w) h = absurd (cc)
  agents-in_world s t (blocked, w) h = absurd (cc)

  pub sent-All :
      (from_string : String → M) (is : List CoreGraphIMsg) (s t : Scheduler M A)
      → NoElements s
      → send_imsgs from_string s is ≡ ok t
      → All (λ i. i.elem ≡ none) is × (t.agents ≡ s.agents)
  unfolding send_imsgs
  sent-All from_string [] s t n h = (tt, ap (λ (r : Scheduler M A). r.agents) (sym (ok_inj h)))
  sent-All from_string (i ∷ is) s t n h =
      let (m, there, h1) = ok-bind (sender_to s i i.elem) _ t h in
      let (u, done, h2) = ok-bind (in_world s (Ports.send m (from_string i.msg) s.world)) _ t h1 in
      let same = agents-in_world s u _ done in
      let (all, later) = sent-All from_string is u t (NoElements-same s u same n) h2 in
      ((sent_simple s i i.elem m n there, all), later ∙ same)

  pub started :
      (ns : List String) (s t : Scheduler M A) → start_nodes s ns ≡ ok t → t.agents ≡ s.agents
  unfolding start_nodes Exterior.start_if_needed
  started [] s t h = ap (λ (r : Scheduler M A). r.agents) (sym (ok_inj h))
  started (n ∷ ns) s t h =
      let (u, begun, rest) = ok-bind (Exterior.start_if_needed s n) _ t h in
      let (c, found, told) = ok-bind (agent s n) _ u begun in
      started ns u t rest ∙ one c.start s u c.id told
    where
      one :
          (b : Bool) (s u : Scheduler M A) (id : ℕ)
          → (if b then send s (CompMsg.start id) else ok s) ≡ ok u
          → u.agents ≡ s.agents
      one true s u id h = ap (λ (r : Scheduler M A). r.agents) (sent-send s u _ h)
      one false s u id h = ap (λ (r : Scheduler M A). r.agents) (sym (ok_inj h))
