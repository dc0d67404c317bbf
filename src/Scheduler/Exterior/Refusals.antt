-- ===== src/Scheduler/Exterior/Refusals.antt =====
-- Connections that are not made.
use fractalide.Prelude.{◌≡◌, refl, ap, String, true, Option, some, string_eq}
use fractalide.Prelude.Map.{get}
use fractalide.Result.{
  Error, bad_schema, Result, success, failure, Run, ok, err, panic, ◌>>=◌, bind-ok,
}
use fractalide.Agent.{Declaration, ThisAgent}
use fractalide.Ports.Ends.{MsgSender}
use fractalide.Scheduler.Exterior
use fractalide.Scheduler.Exterior.Cache
use fractalide.Scheduler.Exterior.Cache.{AgentLoader, loader_of, ok_or, expect}
use fractalide.Scheduler.Exterior.Known.{Comp, Scheduler, send, agent, is_bad_schema, check_schema}
use fractalide.Scheduler.Exterior.Library.{
  library, End, simple, element, name_of, join_ends, out_contract, in_contract,
}
use fractalide.Scheduler.Exterior.Connections.{steps, request}
use fractalide.Scheduler.Exterior.Nodes.{ok_or-some}

abbrev pub port_of : End → String
port_of (simple name port) = port
port_of (element name port e) = port

-- What happens where a contract is missing, or the two do not agree.
pub record IsRefused {X : Type 0} (out into : End) (from to : Result String) (r : Run X)
    : Type 0 where
  pub no_in : (x : Error) → to ≡ failure x → r ≡ panic
  pub no_out : (y : String) (x : Error) → to ≡ success y → from ≡ failure x → r ≡ panic
  pub disagree :
      (y x : String)
      → to ≡ success y
      → from ≡ success x
      → is_bad_schema y x ≡ true
      → r ≡ err (bad_schema (name_of out) (port_of out) x (name_of into) (port_of into) y)

schema_of :
    {M A : Type 0} (o : Option (AgentLoader M A)) (x : Error) (l : AgentLoader M A)
    (f : AgentLoader M A → Result String) (r : Result String)
    → o ≡ some l
    → f l ≡ r
    → (ok_or o x >>= λ loader. expect (f loader)) ≡ expect r
schema_of o x l f r e h =
    bind-ok (ok_or o x) (λ loader. expect (f loader)) l (ok_or-some o x l e) (ap expect h)

checked :
    (a p x b q y : String)
    → is_bad_schema y x ≡ true
    → check_schema a p x b q y ≡ err (bad_schema a p x b q y)
unfolding check_schema
checked a p x b q y h = rw h refl

-- The steps, where one of the first three goes wrong.
module _ {X : Type 0} (into out : Run Comp) (a b : Comp) (in_schema out_schema : Comp → Run String)
    (check : String → String → Run (Unit {0})) (sender : Run MsgSender)
    (fin : Comp → MsgSender → Run X) (ea : into ≡ ok a) (eb : out ≡ ok b) where
  steps_in : in_schema a ≡ panic → steps into out in_schema out_schema check sender fin ≡ panic
  steps_in h = bind-ok into _ a ea (bind-ok out _ b eb (rw h refl))

  steps_out :
      (y : String)
      → in_schema a ≡ ok y
      → out_schema b ≡ panic
      → steps into out in_schema out_schema check sender fin ≡ panic
  steps_out y k h =
      bind-ok into _ a ea (bind-ok out _ b eb (bind-ok (in_schema a) _ y k (rw h refl)))

  steps_check :
      (y x : String) (e : Error)
      → in_schema a ≡ ok y
      → out_schema b ≡ ok x
      → check y x ≡ err e
      → steps into out in_schema out_schema check sender fin ≡ err e
  steps_check y x e k l h =
      bind-ok into _ a ea (
        bind-ok out _ b eb (bind-ok (in_schema a) _ y k (bind-ok (out_schema b) _ x l (rw h refl))))

  steps-IsRefused :
      (o i : End) (from to : Result String)
      → ((r : Result String) → to ≡ r → in_schema a ≡ expect r)
      → ((r : Result String) → from ≡ r → out_schema b ≡ expect r)
      → ((y x : String)
          → is_bad_schema y x ≡ true
          → check y x ≡ err (bad_schema (name_of o) (port_of o) x (name_of i) (port_of i) y))
      → IsRefused o i from to (steps into out in_schema out_schema check sender fin)
  steps-IsRefused o i from to asked_in asked_out bad = record {
    no_in = λ x h. steps_in (asked_in (failure x) h);
    no_out = λ y x h k. steps_out y (asked_in (success y) h) (asked_out (failure x) k);
    disagree = λ y x h k l.
        steps_check y x _ (asked_in (success y) h) (asked_out (success x) k) (bad y x l);
  }

module _ {M S : Type 0} where
  refused :
      (s : Scheduler M (ThisAgent M S)) (out into : End) (c b : Comp) (d e : Declaration) (u v : S)
      (from to : AgentLoader M (ThisAgent M S) → Result String) (sender : Run MsgSender)
      → get s.agents (name_of out) ≡ some c
      → get s.agents (name_of into) ≡ some b
      → get s.cache c.sort ≡ some (library d u)
      → get s.cache b.sort ≡ some (library e v)
      → IsRefused out into (from (library d u)) (to (library e v)) (
          steps
            (agent s (name_of into))
            (agent s (name_of out))
            (λ k. loader_of s.cache k.sort >>= λ l. expect (to l))
            (λ k. loader_of s.cache k.sort >>= λ l. expect (from l))
            (λ x y. check_schema (name_of out) (port_of out) y (name_of into) (port_of into) x)
            sender
            (λ k m. send s (request k.id out m)))
  refused s out into c b d e u v from to sender hc hb kc kb =
      steps-IsRefused (agent s (name_of into)) (agent s (name_of out)) b c
        (λ k. loader_of s.cache k.sort >>= λ l. expect (to l))
        (λ k. loader_of s.cache k.sort >>= λ l. expect (from l))
        (λ x y. check_schema (name_of out) (port_of out) y (name_of into) (port_of into) x) sender
        (λ k m. send s (request k.id out m)) (ok_or-some _ _ b hb) (ok_or-some _ _ c hc) out into
        (from (library d u)) (to (library e v))
        (λ r. schema_of (get s.cache b.sort) _ (library e v) to r kb)
        (λ r. schema_of (get s.cache c.sort) _ (library d u) from r kc)
        (λ y x. checked (name_of out) (port_of out) x (name_of into) (port_of into) y)

  -- A connection of two known agents is not made where a port is missing or the contracts do not
  -- agree: where the input port has no contract, or it has one and the output port has none, the
  -- call panics; where both have one, which differ and are not `BAny`, it fails with the error that
  -- names both ends.
  pub join_ends-IsRefused :
      (s : Scheduler M (ThisAgent M S)) (out into : End) (c b : Comp) (d e : Declaration) (u v : S)
      → get s.agents (name_of out) ≡ some c
      → get s.agents (name_of into) ≡ some b
      → get s.cache c.sort ≡ some (library d u)
      → get s.cache b.sort ≡ some (library e v)
      → IsRefused out into (out_contract d out) (in_contract e into) (join_ends s out into)
  unfolding join_ends Exterior.connect Exterior.connect_array Exterior.connect_to_array
      Exterior.connect_array_to_array Cache.get_schema_input Cache.get_schema_output
      Cache.get_schema_input_array Cache.get_schema_output_array out_contract in_contract
  join_ends-IsRefused s (simple n p) (simple m q) c b d e u v hc hb kc kb =
      refused s (simple n p) (simple m q) c b d e u v _ _ _ hc hb kc kb
  join_ends-IsRefused s (element n p f) (simple m q) c b d e u v hc hb kc kb =
      refused s (element n p f) (simple m q) c b d e u v _ _ _ hc hb kc kb
  join_ends-IsRefused s (simple n p) (element m q g) c b d e u v hc hb kc kb =
      refused s (simple n p) (element m q g) c b d e u v _ _ _ hc hb kc kb
  join_ends-IsRefused s (element n p f) (element m q g) c b d e u v hc hb kc kb =
      refused s (element n p f) (element m q g) c b d e u v _ _ _ hc hb kc kb
