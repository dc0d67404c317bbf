-- ===== src/Scheduler/Exterior/Connections.antt =====
-- Connections: what the exterior scheduler asks of an agent, the agent can do.
use fractalide.Prelude.{
  ℕ, some_inj, ◌≡◌, subst, refl, sym, ◌∙◌, String, false, Option, none, some, [], ◌∷◌, ◌++◌,
  string_eq, arith,
}
use fractalide.Prelude.Map.{get}
use fractalide.Result.{ok-bind, Error, Result, success, failure, Run, ok, ◌>>=◌, ◌>>◌}
use fractalide.Agent
use fractalide.Agent.{Declaration, ThisAgent, this_agent}
use fractalide.Agent.Lookups.{outcome}
use fractalide.Ports.Ends.{MsgSender}
use fractalide.Scheduler.Messages.{CompMsg, EditCmp}
use fractalide.Scheduler.State.{edited, edit_one_comp, after_edit}
use fractalide.Scheduler.Exterior
use fractalide.Scheduler.Exterior.Cache
use fractalide.Scheduler.Exterior.Cache.{AgentLoader, loader_of, ok_or, expect}
use fractalide.Scheduler.Exterior.Known.{Comp, Scheduler, send, agent, is_bad_schema, check_schema}
use fractalide.Scheduler.Exterior.Library.{
  library, End, simple, element, name_of, join_ends, out_contract, in_contract,
}

pub ok-ok_or : {X : Type 0} (o : Option X) (e : Error) (x : X) → ok_or o e ≡ ok x → o ≡ some x
ok-ok_or none e x h = absurd (cc)
ok-ok_or (some y) e x h = cc

pub ok-expect : {X : Type 0} (r : Result X) (x : X) → expect r ≡ ok x → r ≡ success x
ok-expect (success y) x h = cc
ok-expect (failure e) x h = absurd (cc)

module _ {M A : Type 0} where
  pub sent-send :
      (s t : Scheduler M A) (m : CompMsg A)
      → send s m ≡ ok t
      → t ≡ record s { sent = s.sent ++ m ∷ [] }
  unfolding send
  sent-send s t m h = ground arith

-- What the four functions have in common.
abbrev pub steps :
    {X : Type 0}
    → Run Comp
    → Run Comp
    → (Comp → Run String)
    → (Comp → Run String)
    → (String → String → Run (Unit {0}))
    → Run MsgSender
    → (Comp → MsgSender → Run X)
    → Run X
steps into out in_schema out_schema check sender fin = do
  a ← into
  b ← out
  x ← in_schema a
  y ← out_schema b
  check x y
  m ← sender
  c ← out
  fin c m

record Taken {X : Type 0} (a b : Comp) (in_schema out_schema : Comp → Run String)
    (check : String → String → Run (Unit {0})) (fin : Comp → MsgSender → Run X) (t : X)
    : Type 0 where
  x : String
  y : String
  m : MsgSender
  asked_in : in_schema a ≡ ok x
  asked_out : out_schema b ≡ ok y
  checked : check x y ≡ ok tt
  ended : fin b m ≡ ok t

ok-steps :
    {X : Type 0} (into out : Run Comp) (a b : Comp) (in_schema out_schema : Comp → Run String)
    (check : String → String → Run (Unit {0})) (sender : Run MsgSender)
    (fin : Comp → MsgSender → Run X) (t : X)
    → into ≡ ok a
    → out ≡ ok b
    → steps into out in_schema out_schema check sender fin ≡ ok t
    → Taken a b in_schema out_schema check fin t
ok-steps into out a b in_schema out_schema check sender fin t ea eb h =
    let (a', ea', h1) = ok-bind into _ t h in
    let (b', eb', h2) = ok-bind out _ t h1 in
    let (x, ex, h3) = ok-bind (in_schema a') _ t h2 in
    let (y, ey, h4) = ok-bind (out_schema b') _ t h3 in
    let (u, eu, h5) = ok-bind (check x y) _ t h4 in
    let (m, em, h6) = ok-bind sender _ t h5 in
    let (c, ec, h7) = ok-bind out _ t h6 in
    let same_a : a' ≡ a = cc in
    let same_b : b' ≡ b = cc in
    let same_c : c ≡ b = cc in
    record {
      x = x;
      y = y;
      m = m;
      asked_in = subst (λ z. in_schema z ≡ ok x) same_a ex;
      asked_out = subst (λ z. out_schema z ≡ ok y) same_b ey;
      checked = eu;
      ended = subst (λ z. fin z m ≡ ok t) same_c h7;
    }

-- The last of the steps.
pub steps_end :
    {X : Type 0} (into out : Run Comp) (in_schema out_schema : Comp → Run String)
    (check : String → String → Run (Unit {0})) (sender : Run MsgSender)
    (fin : Comp → MsgSender → Run X) (t : X)
    → steps into out in_schema out_schema check sender fin ≡ ok t
    → (c : Comp) × (m : MsgSender) × (sender ≡ ok m) × (fin c m ≡ ok t)
steps_end into out in_schema out_schema check sender fin t h =
    let (a, ea, h1) = ok-bind into _ t h in
    let (b, eb, h2) = ok-bind out _ t h1 in
    let (x, ex, h3) = ok-bind (in_schema a) _ t h2 in
    let (y, ey, h4) = ok-bind (out_schema b) _ t h3 in
    let (u, eu, h5) = ok-bind (check x y) _ t h4 in
    let (m, em, h6) = ok-bind sender _ t h5 in
    let (c, ec, h7) = ok-bind out _ t h6 in (c, m, em, h7)

module _ {M S : Type 0} where
  -- The message that asks for a connection, and the edit that it makes.
  abbrev pub request : ℕ → End → MsgSender → CompMsg (ThisAgent M S)
  request id (simple name port) sender = CompMsg.connect_output_port id port sender
  request id (element name port e) sender = CompMsg.connect_output_array_port id port e sender

abbrev pub edit_of : End → MsgSender → EditCmp
edit_of (simple name port) sender = EditCmp.connect_output_port port sender
edit_of (element name port e) sender = EditCmp.connect_output_array_port port e sender

-- What a connection that is made comes to.
pub record IsMade {M S : Type 0} (s t : Scheduler M (ThisAgent M S)) (out into : End) (c : Comp)
    (d e : Declaration) : Type 0 where
  pub out_schema : String
  pub in_schema : String
  pub has_out : out_contract d out ≡ success out_schema
  pub has_in : in_contract e into ≡ success in_schema
  pub agree : is_bad_schema in_schema out_schema ≡ false
  pub sender : MsgSender
  pub asked : t ≡ record s { sent = s.sent ++ request c.id out sender ∷ [] }
  pub fits :
      (a : ThisAgent M S)
      → a.declaration ≡ d
      → (b : ThisAgent M S) × (edit_one_comp a (edit_of out sender) ≡ edited b)

checked-agree :
    (a p x b q y : String) → check_schema a p x b q y ≡ ok tt → is_bad_schema y x ≡ false
unfolding check_schema
checked-agree a p x b q y h = ground arith

-- A schema that the cache has found is that of the library.
ok-schema :
    {M A : Type 0} (o : Option (AgentLoader M A)) (x : Error) (l : AgentLoader M A)
    (f : AgentLoader M A → Result String) (c : String)
    → o ≡ some l
    → (ok_or o x >>= λ loader. expect (f loader)) ≡ ok c
    → f l ≡ success c
ok-schema none x l f c e h = absurd (cc)
ok-schema (some k) x l f c e h = subst (λ j. f j ≡ success c) (some_inj e) (ok-expect (f k) c h)

found : {X : Type 0} (o : Option X) (e : Error) (x : X) → o ≡ some x → ok_or o e ≡ ok x
found o e x h = rw h refl

module _ {M S : Type 0} where
  edited_if :
      (r : ThisAgent M S × Result (Unit {0})) (x : String) (q : Result String)
      → r.1 ≡ outcome q
      → q ≡ success x
      → (b : ThisAgent M S) × (after_edit r ≡ edited b)
  edited_if (b, success k) x q h e = (b, refl)
  edited_if (b, failure z) x (success y) h e = absurd (cc)
  edited_if (b, failure z) x (failure y) h e = absurd (cc)

  -- An agent has the ports for which its library has a contract.
  fits_edit :
      (out : End) (m : MsgSender) (d : Declaration) (x : String)
      → out_contract d out ≡ success x
      → (a : ThisAgent M S) → a.declaration ≡ d
      → (b : ThisAgent M S) × (edit_one_comp a (edit_of out m) ≡ edited b)
  unfolding out_contract edit_one_comp Agent.connect Agent.connect_array Agent.get_schema_output
      Agent.get_schema_output_array
  fits_edit (simple n p) m d x h a e =
      edited_if (Agent.connect a p m) x (Agent.get_schema_output a.declaration p) (ground arith)
        (subst (λ z. Agent.get_schema_output z p ≡ success x) (sym e) h)
  fits_edit (element n p f) m d x h a e =
      edited_if (Agent.connect_array a p f m) x (Agent.get_schema_output_array a.declaration p)
        (ground arith) (subst (λ z. Agent.get_schema_output_array z p ≡ success x) (sym e) h)

  joined :
      (s t : Scheduler M (ThisAgent M S)) (out into : End) (c b : Comp) (d e : Declaration)
      (u v : S) (from to : AgentLoader M (ThisAgent M S) → Result String) (p q : String)
      (sender : Run MsgSender)
      → get s.agents (name_of out) ≡ some c
      → get s.agents (name_of into) ≡ some b
      → get s.cache c.sort ≡ some (library d u)
      → get s.cache b.sort ≡ some (library e v)
      → from (library d u) ≡ out_contract d out
      → to (library e v) ≡ in_contract e into
      → steps
          (agent s (name_of into))
          (agent s (name_of out))
          (λ k. loader_of s.cache k.sort >>= λ l. expect (to l))
          (λ k. loader_of s.cache k.sort >>= λ l. expect (from l))
          (λ x y. check_schema (name_of out) p y (name_of into) q x)
          sender
          (λ k m. send s (request k.id out m))
        ≡ ok t
      → IsMade s t out into c d e
  joined s t out into c b d e u v from to p q sender hc hb kc kb ef et h =
      let k =
        ok-steps (agent s (name_of into)) (agent s (name_of out)) b c
          (λ k. loader_of s.cache k.sort >>= λ l. expect (to l))
          (λ k. loader_of s.cache k.sort >>= λ l. expect (from l))
          (λ x y. check_schema (name_of out) p y (name_of into) q x) sender
          (λ k m. send s (request k.id out m)) t (found _ _ b hb) (found _ _ c hc) h in
      let has_out : out_contract d out ≡ success k.y =
        sym ef ∙ ok-schema (get s.cache c.sort) _ (library d u) from k.y kc k.asked_out in
      record {
        out_schema = k.y;
        in_schema = k.x;
        has_out = has_out;
        has_in = sym et ∙ ok-schema (get s.cache b.sort) _ (library e v) to k.x kb k.asked_in;
        agree = checked-agree (name_of out) p k.y (name_of into) q k.x k.checked;
        sender = k.m;
        asked = sent-send s t _ k.ended;
        fits = fits_edit out k.m d k.y has_out;
      }

  -- A connection that the exterior scheduler makes, in any of its four ways, is one that both agents
  -- have agreed to: the two ports exist, their contracts are the same or one of them is `BAny`, the
  -- one message that is sent is for the agent it comes from, and the edit that it asks for succeeds
  -- in every agent of that agent's library.
  pub join_ends-IsMade :
      (s t : Scheduler M (ThisAgent M S)) (out into : End) (c b : Comp) (d e : Declaration)
      (u v : S)
      → get s.agents (name_of out) ≡ some c
      → get s.agents (name_of into) ≡ some b
      → get s.cache c.sort ≡ some (library d u)
      → get s.cache b.sort ≡ some (library e v)
      → join_ends s out into ≡ ok t
      → IsMade s t out into c d e
  unfolding join_ends Exterior.connect Exterior.connect_array Exterior.connect_to_array
      Exterior.connect_array_to_array Cache.get_schema_input Cache.get_schema_output
      Cache.get_schema_input_array Cache.get_schema_output_array out_contract in_contract
  join_ends-IsMade s t (simple n p) (simple m q) c b d e u v hc hb kc kb h =
      joined s t (simple n p) (simple m q) c b d e u v _ _ p q _ hc hb kc kb refl refl h
  join_ends-IsMade s t (element n p f) (simple m q) c b d e u v hc hb kc kb h =
      joined s t (element n p f) (simple m q) c b d e u v _ _ p q _ hc hb kc kb refl refl h
  join_ends-IsMade s t (simple n p) (element m q g) c b d e u v hc hb kc kb h =
      joined s t (simple n p) (element m q g) c b d e u v _ _ p q _ hc hb kc kb refl refl h
  join_ends-IsMade s t (element n p f) (element m q g) c b d e u v hc hb kc kb h =
      joined s t (element n p f) (element m q g) c b d e u v _ _ p q _ hc hb kc kb refl refl h
