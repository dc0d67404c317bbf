-- ===== src/Scheduler/Whole/Joined.antt =====
-- What the exterior scheduler sends is what the thread relies on.
use mathlib.Core.List.{append_assoc, append_cancel_left}
use fractalide.Prelude.{
  ℕ, ◌+◌, ◌≤◌, ◌≡◌, refl, sym, ap, subst, ◌∙◌, inl, inr, String, Option, none, some, List, [], ◌∷◌,
  ◌++◌, arith, nat_eq, nat_beq_iff, string_eq, All, All-map, All-append, Option-cases,
}
use fractalide.Prelude.Map.{get}
use fractalide.Result.{ok}
use fractalide.Scheduler.Messages.{CompMsg, Agent}
use fractalide.Scheduler.State.{SchedState, send}
use fractalide.Scheduler.Dispatch.{Thread, round}
use fractalide.Scheduler.System
use fractalide.Scheduler.System.{is_new, is_remove, count, FromOutside, end_job}
use fractalide.Scheduler.Invariant.{count-append}
use fractalide.Scheduler.Safety.{Reach-IsValid, round-not_stopped}
use fractalide.Scheduler.Exterior.Cache.{AgentLoader}
use fractalide.Scheduler.Exterior.Known.{Scheduler}
use fractalide.Scheduler.Exterior.Calls.{Call, call}
use fractalide.Scheduler.Exterior.Same.{IsPlain}
use fractalide.Scheduler.Exterior.Numbers.{
  IsNumbered, call-IsNumbered, call-IsSame, sent-add_node, new-IsNumbered,
}
use fractalide.Scheduler.Whole.{
  Whole, IsFromPort, Step, loop, finish, crash, port, called, deliver, elsewhere, start, Reach,
  here, next,
}
use fractalide.Scheduler.Whole.Present.{uses}
use fractalide.Scheduler.Whole.Rounds.{round-uses}

module _ {A : Type 0} where
  -- What the exterior scheduler may send.
  abbrev IsSent : CompMsg A → Type 0
  IsSent (CompMsg.run_end id b res) = ⊥
  IsSent CompMsg.halt = ⊥
  IsSent (CompMsg.remove id sync) = ⊥
  IsSent _ = Unit

  IsPlain-IsSent : (m : CompMsg A) → IsPlain m → IsSent m
  IsPlain-IsSent m h = ground (arith)

  uses-zero :
      (i : ℕ) (s : SchedState A)
      → uses i s ≡ 0
      → (get s.agents i ≡ none) × (count (is_new i) s.sched_sender ≡ 0)
  uses-zero i s h = elim (Option-cases (get s.agents i)) [
    | inl e ↦ (e, ground (arith))
    | inr (c, e) ↦ absurd (ground (arith))
  ]

  -- What is allowed, and whose number is not in use, is what the thread relies on.
  sent-FromOutside :
      (s : SchedState A) (m : CompMsg A)
      → IsSent m
      → ((i : ℕ) → is_new i m ≡ 1 → uses i s ≡ 0)
      → FromOutside s m
  sent-FromOutside s m h free = from m h free
    where
      from :
          (m : CompMsg A) → IsSent m → ((i : ℕ) → is_new i m ≡ 1 → uses i s ≡ 0) → FromOutside s m
      from (CompMsg.new_agent id name b) h free =
          uses-zero id s (free id (ground (arith, nat_beq_iff id id)))
      from (CompMsg.run_end id b res) h free = h
      from CompMsg.halt h free = h
      from (CompMsg.remove id sync) h free = h
      from _ h free = tt

module _ {M A : Type 0} (load : String → Option (AgentLoader M A)) ⦃ops : Agent A⦄ where
  call-IsSent :
      (s t : Scheduler M A) (k : Call) (new : List (CompMsg A))
      → call load s k ≡ ok t
      → t.sent ≡ s.sent ++ new
      → All IsSent new
  call-IsSent s t k new h e = elim (call-IsSame load s t k h) [
    | inl same ↦
        let (more, f, plain) = same.grown in
        subst (All IsSent) (append_cancel_left s.sent more new (sym f ∙ e))
          (All-map IsPlain-IsSent more plain)
    | inr (name, sort, added) ↦
        let (b, f) = sent-add_node load s t name sort added in
        subst (All IsSent) (append_cancel_left s.sent _ new (sym f ∙ e)) (tt, tt)
  ]

  record IsJoined (w : Whole M A) : Type 0 where
    reached : System.Reach w.thread
    numbered : IsNumbered w.outer
    on_the_way : w.outer.sent ≡ w.delivered ++ w.waiting
    allowed : All IsSent w.waiting
    in_use : (i : ℕ) → uses i w.thread.state ≤ count (is_new i) w.delivered

  start-uses : (i : ℕ) → uses i (Thread.state {A = A} System.start) ≤ 0
  unfolding get
  start-uses i = omega arith

  start-IsJoined : (sender : ℕ) (world : _) → IsJoined (start sender world)
  start-IsJoined sender world = record {
    reached = System.here;
    numbered = new-IsNumbered load sender world;
    on_the_way = refl;
    allowed = tt;
    in_use = λ i. start-uses i;
  }

  -- Where the thread alone moves, and takes no new number.
  moved-IsJoined :
      (w : Whole M A) (u : Thread A)
      → IsJoined w
      → System.Step w.thread u
      → ((i : ℕ) → uses i u.state ≤ uses i w.thread.state)
      → IsJoined (record w { thread = u })
  moved-IsJoined w u j step no_more = record {
    reached = System.next j.reached step;
    numbered = j.numbered;
    on_the_way = j.on_the_way;
    allowed = j.allowed;
    in_use = λ i. omega (arith, no_more i, j.in_use i);
  }

  loop-IsJoined :
      (w : Whole M A) (u : Thread A)
      → IsJoined w
      → round w.thread ≡ some u
      → IsJoined (record w { thread = u })
  loop-IsJoined w u j h =
      let v = Reach-IsValid j.reached (round-not_stopped w.thread u h) in
      moved-IsJoined w u j (System.loop h) (λ i. round-uses i w.thread u v.no_remove h)

  -- A message that brings no agent.
  send-uses :
      (s : SchedState A) (m : CompMsg A) (i n : ℕ)
      → is_new i m ≤ n
      → uses i (send s m) ≤ uses i s + n
  send-uses s m i n h = omega (arith, count-append (is_new i) s.sched_sender (m ∷ []), h)

  deliver-IsJoined :
      (w : Whole M A) (m : CompMsg A) (rest : List (CompMsg A))
      → IsJoined w
      → w.waiting ≡ m ∷ rest
      → IsJoined (record w {
        thread = record (w.thread) { state = send w.thread.state m };
        delivered = w.delivered ++ m ∷ [];
        waiting = rest;
      })
  deliver-IsJoined w m rest j h =
      let (may, mays) = subst (All IsSent) h j.allowed in
      let sent : w.outer.sent ≡ w.delivered ++ m ∷ rest =
        j.on_the_way ∙ ap (λ x. w.delivered ++ x) h in
      let free : (i : ℕ) → is_new i m ≡ 1 → uses i w.thread.state ≡ 0 = λ i one. omega (
        arith,
        j.in_use i,
        one,
        j.numbered.once i,
        ap (count (is_new i)) sent,
        count-append (is_new i) w.delivered (m ∷ rest),
      ) in
      record {
        reached =
            System.next j.reached (System.post m (sent-FromOutside w.thread.state m may free));
        numbered = j.numbered;
        on_the_way = sent ∙ sym (append_assoc w.delivered (m ∷ []) rest);
        allowed = mays;
        in_use = λ i. omega (
          arith,
          j.in_use i,
          send-uses w.thread.state m i (is_new i m) (omega arith),
          count-append (is_new i) w.delivered (m ∷ []),
        );
      }

  port-IsJoined :
      (w : Whole M A) (m : CompMsg A)
      → IsJoined w
      → IsFromPort m
      → IsJoined (record w { thread = record (w.thread) { state = send w.thread.state m } })
  port-IsJoined w (CompMsg.inc id) j h =
      moved-IsJoined w _ j (System.post (CompMsg.inc id) tt)
        (λ i. omega (arith, send-uses w.thread.state (CompMsg.inc id) i 0 (omega arith)))
  port-IsJoined w (CompMsg.dec id) j h =
      moved-IsJoined w _ j (System.post (CompMsg.dec id) tt)
        (λ i. omega (arith, send-uses w.thread.state (CompMsg.dec id) i 0 (omega arith)))
  port-IsJoined w _ j h = absurd h

  step-IsJoined : {w v : Whole M A} → IsJoined w → Step load w v → IsJoined v
  step-IsJoined {w} j (loop h) = loop-IsJoined w _ j h
  step-IsJoined {w} j (finish before after id b b' res h) =
      moved-IsJoined w _ j (System.finish before after id b b' res h) (λ i. omega (
        arith,
        count-append (is_new i) w.thread.state.sched_sender (CompMsg.run_end id b' res ∷ []),
      ))
  step-IsJoined {w} j (crash before after id b h) =
      moved-IsJoined w _ j (System.crash before after id b h) (λ i. omega arith)
  step-IsJoined {w} j (port m h) = port-IsJoined w m j h
  step-IsJoined {w} j (called k o new h e) = record {
    reached = j.reached;
    in_use = j.in_use;
    numbered = call-IsNumbered load w.outer o k j.numbered h;
    on_the_way = e ∙ ap (λ x. x ++ new) j.on_the_way ∙ append_assoc w.delivered w.waiting new;
    allowed = All-append IsSent w.waiting new j.allowed (call-IsSent w.outer o k new h e);
  }
  step-IsJoined {w} j (deliver m rest h) = deliver-IsJoined w m rest j h
  step-IsJoined {w} j (elsewhere world) = record {
    reached = j.reached;
    in_use = j.in_use;
    on_the_way = j.on_the_way;
    allowed = j.allowed;
    numbered = record {
      known = j.numbered.known;
      apart = j.numbered.apart;
      once = j.numbered.once;
      later = j.numbered.later;
    };
  }

  Reach-IsJoined : {w : Whole M A} → Reach load w → IsJoined w
  Reach-IsJoined (here sender world) = start-IsJoined sender world
  Reach-IsJoined (next r s) = step-IsJoined (Reach-IsJoined r) s

  -- Whatever calls are made on the exterior scheduler and however they interleave with the thread,
  -- its pool and the ports, the thread is in a state that its own system reaches: each message
  -- comes as `FromOutside` asks, so that what is proved of every state of the thread holds.
  pub whole_is_scheduler : {w : Whole M A} → Reach load w → System.Reach w.thread
  whole_is_scheduler r = (Reach-IsJoined r).reached
