-- ===== src/Scheduler/Exterior/Same.antt =====
-- The calls that do not make an agent: the names keep their numbers, and no new number is sent.
use mathlib.Core.List.{append-nil, append_assoc}
use fractalide.Prelude.{
  All, All-append, ap, List, ◌++◌, ℕ, ◌≡◌, refl, sym, subst, ◌∙◌, inl, inr, String, Bool, true,
  false, some, [], ◌∷◌, ◌==◌, nat_eq, string_eq, arith, Bool-cases, if◌then◌else◌,
}
use fractalide.Prelude.Map.{Map, get, insert, get-insert}
use fractalide.Result.{ok-bind, ok_inj, Run, ok, ◌>>=◌}
use fractalide.Ports.{World}
use fractalide.Ports.Ends.{MsgSender}
use fractalide.Scheduler.Messages.{CompMsg}
use fractalide.Scheduler.System.{count, is_new}
use fractalide.Scheduler.Invariant.{count-append}
use fractalide.Scheduler.Exterior
use fractalide.Scheduler.Exterior.Cache
use fractalide.Scheduler.Exterior.Cache.{AgentLoader, AgentCache, loader_of, expect}
use fractalide.Scheduler.Exterior.Known.{
  Comp, Scheduler, send, agent, get_sender, get_array_sender, check_schema,
}
use fractalide.Scheduler.Exterior.Library
use fractalide.Scheduler.Exterior.Library.{End, simple, element}
use fractalide.Scheduler.Exterior.Connections.{ok-ok_or, sent-send, steps, steps_end}

module _ {A : Type 0} where
  -- What the other calls send.
  abbrev pub IsPlain : CompMsg A → Type 0
  IsPlain (CompMsg.new_agent id name b) = ⊥
  IsPlain (CompMsg.run_end id b res) = ⊥
  IsPlain CompMsg.halt = ⊥
  IsPlain (CompMsg.remove id sync) = ⊥
  IsPlain _ = Unit

  is_new-plain : (i : ℕ) (m : CompMsg A) → IsPlain m → is_new i m ≡ 0
  is_new-plain i (CompMsg.new_agent id name b) h = absurd h
  is_new-plain i _ h = refl

module _ {M A : Type 0} where
  -- No new agent: the names and their numbers are as they were.
  pub record IsSame (s t : Scheduler M A) : Type 0 where
    pub same_id : t.id ≡ s.id
    pub same_sent : (i : ℕ) → count (is_new i) t.sent ≡ count (is_new i) s.sent
    pub same_agents :
        (name : String) (c : Comp)
        → get t.agents name ≡ some c
        → (b : Comp) × (get s.agents name ≡ some b) × (b.id ≡ c.id)
    pub grown : (new : List (CompMsg A)) × (t.sent ≡ s.sent ++ new) × All IsPlain new

  pub IsSame-refl : (s : Scheduler M A) → IsSame s s
  IsSame-refl s = record {
    same_id = refl;
    same_sent = λ i. refl;
    same_agents = λ name c h. (c, h, refl);
    grown = ([], sym (append-nil s.sent), tt);
  }

  pub IsSame-trans : (s t u : Scheduler M A) → IsSame s t → IsSame t u → IsSame s u
  IsSame-trans s t u k l = record {
    same_id = l.same_id ∙ k.same_id;
    same_sent = λ i. l.same_sent i ∙ k.same_sent i;
    same_agents = λ name c h.
        let (b, e, i) = l.same_agents name c h in
        let (a, f, j) = k.same_agents name b e in (a, f, j ∙ i);
    grown =
        let (new, e, plain) = k.grown in
        let (later, f, plain_later) = l.grown in
        (
          new ++ later,
          f ∙ ap (λ x. x ++ later) e ∙ append_assoc s.sent new later,
          All-append IsPlain new later plain plain_later,
        );
  }

  pub IsSame-send : (s t : Scheduler M A) (m : CompMsg A) → IsPlain m → send s m ≡ ok t → IsSame s t
  IsSame-send s t m old h = subst (IsSame s) (sym (sent-send s t m h)) (record {
    same_id = refl;
    same_sent = λ i. omega (arith, count-append (is_new i) s.sent (m ∷ []), is_new-plain i m old);
    same_agents = λ name c e. (c, e, refl);
    grown = (m ∷ [], refl, (old, tt));
  })

  pub IsSame-told :
      {X : Type 0} (s t : Scheduler M A) (r : Run X) (f : X → CompMsg A)
      → ((x : X) → IsPlain (f x))
      → (r >>= λ x. send s (f x)) ≡ ok t
      → IsSame s t
  IsSame-told s t r f old h =
      let (x, e, sent) = ok-bind r _ t h in IsSame-send s t (f x) (old x) sent

  -- A message that goes out only where `b` holds.
  pub IsSame-if :
      (b : Bool) (s t : Scheduler M A) (m : CompMsg A)
      → IsPlain m
      → (if b then send s m else ok s) ≡ ok t
      → IsSame s t
  IsSame-if true s t m old h = IsSame-send s t m old h
  IsSame-if false s t m old h = subst (IsSame s) (ok_inj h) (IsSame-refl s)

  pub IsSame-start_all :
      (l : Map String Comp) (s t : Scheduler M A) → Exterior.start_all s l ≡ ok t → IsSame s t
  unfolding Exterior.start_all
  IsSame-start_all [] s t h = IsSame-if false s t CompMsg.halt_state tt h
  IsSame-start_all ((name, c) ∷ l) s t h =
      let (u, e, rest) = ok-bind (if c.start then send s (CompMsg.start c.id) else ok s) _ t h in
      IsSame-trans s u t (IsSame-if c.start s u _ tt e) (IsSame-start_all l u t rest)

  pub IsSame-steps :
      (s t : Scheduler M A) (n p m q : String) (in_schema out_schema : Comp → Run String)
      (sender : Run MsgSender) (f : Comp → MsgSender → CompMsg A)
      → ((c : Comp) (k : MsgSender) → IsPlain (f c k))
      → steps
          (agent s m)
          (agent s n)
          in_schema
          out_schema
          (λ x y. check_schema n p y m q x)
          sender
          (λ c k. send s (f c k))
        ≡ ok t
      → IsSame s t
  IsSame-steps s t n p m q in_schema out_schema sender f old h =
      let (c, k, there, e) =
        steps_end (agent s m) (agent s n) in_schema out_schema (λ x y. check_schema n p y m q x)
          sender (λ c k. send s (f c k)) t h in
      IsSame-send s t (f c k) (old c k) e

  pub IsSame-join_ends :
      (s t : Scheduler M A) (out into : End) → Library.join_ends s out into ≡ ok t → IsSame s t
  unfolding Library.join_ends Exterior.connect Exterior.connect_array Exterior.connect_to_array
      Exterior.connect_array_to_array
  IsSame-join_ends s t (simple n p) (simple m q) h =
      IsSame-steps s t n p m q (λ k. Cache.get_schema_input s.cache k.sort q)
        (λ k. Cache.get_schema_output s.cache k.sort p) (get_sender s m q)
        (λ c k. CompMsg.connect_output_port c.id p k) (λ c k. tt) h
  IsSame-join_ends s t (element n p f) (simple m q) h =
      IsSame-steps s t n p m q (λ k. Cache.get_schema_input s.cache k.sort q)
        (λ k. Cache.get_schema_output_array s.cache k.sort p) (get_sender s m q)
        (λ c k. CompMsg.connect_output_array_port c.id p f k) (λ c k. tt) h
  IsSame-join_ends s t (simple n p) (element m q g) h =
      IsSame-steps s t n p m q (λ k. Cache.get_schema_input_array s.cache k.sort q)
        (λ k. Cache.get_schema_output s.cache k.sort p) (get_array_sender s m q g)
        (λ c k. CompMsg.connect_output_port c.id p k) (λ c k. tt) h
  IsSame-join_ends s t (element n p f) (element m q g) h =
      IsSame-steps s t n p m q (λ k. Cache.get_schema_input_array s.cache k.sort q)
        (λ k. Cache.get_schema_output_array s.cache k.sort p) (get_array_sender s m q g)
        (λ c k. CompMsg.connect_output_array_port c.id p f k) (λ c k. tt) h

  -- A new entry for an agent that keeps its number.
  pub IsSame-put :
      (s : Scheduler M A) (name : String) (b c : Comp) (w : World M)
      → get s.agents name ≡ some b
      → c.id ≡ b.id
      → IsSame s (record s { agents = insert s.agents name c; world = w })
  IsSame-put s name b c w there same = record {
    same_id = refl;
    same_sent = λ i. refl;
    same_agents = λ other d h. elim (Bool-cases (name == other)) [
      | inl e ↦
          let eq = (string_eq.beq_iff name other).0 e in
          let new : c ≡ d = ground (arith, get-insert s.agents name c other) in
          (b, subst (λ n. get s.agents n ≡ some b) eq there, ground (arith, new))
      | inr e ↦ (d, ground (arith, get-insert s.agents name c other), refl)
    ];
    grown = ([], sym (append-nil s.sent), tt);
  }

  pub IsSame-add_element :
      (s t : Scheduler M A) (name port e : String)
      → Exterior.add_input_array_element s name port e ≡ ok t
      → IsSame s t
  unfolding Exterior.add_input_array_element
  IsSame-add_element s t name port e h =
      let (c, there, h1) = ok-bind (agent s name) _ t h in
      let (x, made, h2) =
        ok-bind (Cache.create_input_array s.cache c.sort port c.id s.sender true s.world) _ t h1 in
      IsSame-trans s _ t (IsSame-put s name c _ x.1 (ok-ok_or (get s.agents name) _ c there) refl)
        (IsSame-send _ t _ tt h2)

  pub IsSame-soft_add :
      (b : Bool) (s t : Scheduler M A) (name port e : String)
      → (if b then ok s else Exterior.add_input_array_element s name port e) ≡ ok t
      → IsSame s t
  IsSame-soft_add true s t name port e h = IsSame-if false s t CompMsg.halt_state tt h
  IsSame-soft_add false s t name port e h = IsSame-add_element s t name port e h
