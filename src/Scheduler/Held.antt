-- ===== src/Scheduler/Held.antt =====
-- Where the agents are: each method keeps the box of an agent that is away, in the pool or in the channel.
use fractalide.Prelude.{
  ℕ, zero, suc, ◌+◌, ◌≤◌, ◌≡◌, refl, ap, subst, Option-cases, inl, inr, Bool, true, false, Option,
  none, some, List, [], ◌∷◌, ◌++◌, arith, nat_eq, nat_beq_iff, some_inj, length, length-append, ◌∙◌,
  ◌==◌, if◌then◌else◌,
}
use fractalide.Prelude.Map.{get, get-insert}
use fractalide.Prelude.Int.{incr, decr, is_positive, pos}
use fractalide.Result.{Error, Result, success, failure}
use fractalide.Scheduler.Messages.{Signal, CompMsg, EditCmp, Agent}
use fractalide.Scheduler.State.{
  CompState, SchedState, Handled, done, failed, halted, panicked, Edited, edited, edit_failed,
  edit_panicked, put, run, launch, inc, dec, start, halt, after_one_edit, edit_agent, edit_one_comp,
  edit_all, new_agent, is_some,
}
use fractalide.Scheduler.Dispatch.{
  restart_or_halt, count_down, settle, after_edits, run_end, dispatch, Thread, round, round_on,
  after_round,
}
use fractalide.Scheduler.System.{jobs, is_end, is_remove, count}
use fractalide.Scheduler.Invariant.{away, count-append, jobs-append}

longer : (l : List Error) (x : Error) → l ++ x ∷ [] ≡ l → ⊥
longer l x h = omega (arith, ap length h, length-append l (x ∷ []))

abbrev pub one_at : ℕ → ℕ → ℕ
one_at i id = if id == i then 1 else 0

module _ {A : Type 0} (i : ℕ) where
  -- The box of agent `i`, where it is away, is in the pool, in the channel, or among `k` in hand.
  abbrev pub IsHeld : ℕ → SchedState A → Type 0
  IsHeld k s = away (get s.agents i) ≤ jobs i s.pool + count (is_end i) s.sched_sender + k

  abbrev pub HoldsOn : Handled A → Type 0
  HoldsOn (done s) = IsHeld 0 s
  HoldsOn (failed e s) = Unit
  HoldsOn (halted s) = IsHeld 0 s
  HoldsOn panicked = Unit

  -- The agent is back in its entry.
  back-IsHeld :
      (s : SchedState A) (id : ℕ) (c : CompState A) (b : A)
      → c.comp ≡ some b
      → IsHeld (one_at i id) s
      → IsHeld 0 (put s id c)
  back-IsHeld s id c b e h = ground (arith, h, get-insert s.agents id c i)

  -- Nothing changes about where the agent is.
  same-IsHeld :
      (s : SchedState A) (id : ℕ) (c c' : CompState A)
      → get s.agents id ≡ some c
      → is_some c'.comp ≡ is_some c.comp
      → IsHeld 0 s
      → IsHeld 0 (put s id c')
  same-IsHeld s id c c' e same h =
      ground (arith, h, same, get-insert s.agents id c' i, nat_beq_iff id i)

  launch-IsHeld :
      (s : SchedState A) (id : ℕ) (c : CompState A) (b : A)
      → IsHeld 0 s
      → IsHeld 0 (launch s id c b)
  unfolding launch
  launch-IsHeld s id c b h = ground (
    arith,
    h,
    get-insert s.agents id (record c { comp = none; is_run = true }) i,
    jobs-append i s.pool ((id, b) ∷ []),
  )

  run-HoldsOn : (s : SchedState A) (id : ℕ) → IsHeld 0 s → HoldsOn (run s id)
  unfolding run
  run-HoldsOn s id h = elim (Option-cases (get s.agents id)) [
    | inl e ↦ rw (e, run) tt
    | inr (c, e) ↦ rw (e, run) (at c.comp c)
  ]
    where
      at :
          (o : Option A) (c : CompState A)
          → HoldsOn (elim o as (λ _. Handled A) [ none ↦ done s | some b ↦ done (launch s id c b) ])
      at none c = h
      at (some b) c = launch-IsHeld s id c b h

  pub inc-HoldsOn : (s : SchedState A) (id : ℕ) → IsHeld 0 s → HoldsOn (inc s id)
  unfolding inc
  inc-HoldsOn s id h = elim (Option-cases (get s.agents id)) [
    | inl e ↦ ground (arith, h)
    | inr (c, e) ↦
        let c' : CompState A = record c { ips = incr c.ips } in
        let kept = same-IsHeld s id c c' e refl h in
        ground (arith, run-HoldsOn (put s id c') id kept, kept)
  ]

  pub dec-HoldsOn : (s : SchedState A) (id : ℕ) → IsHeld 0 s → HoldsOn (dec s id)
  unfolding dec
  dec-HoldsOn s id h = elim (Option-cases (get s.agents id)) [
    | inl e ↦ ground (arith, h)
    | inr (c, e) ↦ ground (arith, same-IsHeld s id c (record c { ips = decr c.ips }) e refl h)
  ]

  pub start-HoldsOn : (s : SchedState A) (id : ℕ) → IsHeld 0 s → HoldsOn (start s id)
  unfolding start
  start-HoldsOn s id h = elim (Option-cases (get s.agents id)) [
    | inl e ↦ ground arith
    | inr (c, e) ↦
        let c' : CompState A = record c { can_run = true } in
        let kept = same-IsHeld s id c c' e refl h in
        ground (arith, run-HoldsOn (put s id c') id kept, kept)
  ]

  pub halt-HoldsOn : (s : SchedState A) → IsHeld 0 s → HoldsOn (halt s)
  unfolding halt
  halt-HoldsOn s h = ground (arith, h, count-append (is_end i) s.sched_sender (CompMsg.halt ∷ []))

  restart-HoldsOn :
      (s : SchedState A) (id : ℕ) (b : Bool) → IsHeld 0 s → HoldsOn (restart_or_halt s id b)
  unfolding restart_or_halt
  restart-HoldsOn s id true h = run-HoldsOn s id h
  restart-HoldsOn s id false h =
      ground (arith, h, count-append (is_end i) s.sched_sender (CompMsg.halt ∷ []))

  count_down-HoldsOn :
      (s : SchedState A) (id : ℕ) (c : CompState A) (b : A) (n : ℕ)
      → c.comp ≡ some b
      → IsHeld (one_at i id) s
      → HoldsOn (count_down s id c n)
  unfolding count_down
  count_down-HoldsOn s id c b zero e h = tt
  count_down-HoldsOn s id c b (suc n) e h =
      restart-HoldsOn (put (record s { running = n }) id (record c { is_run = false })) id
        (is_positive c.ips)
        (back-IsHeld (record s { running = n }) id (record c { is_run = false }) b e h)

  settle-HoldsOn :
      (s : SchedState A) (id : ℕ) (c : CompState A) (b : A) (res : Result Signal)
      → c.comp ≡ some b
      → IsHeld (one_at i id) s
      → HoldsOn (settle s id c res)
  unfolding settle
  settle-HoldsOn s id c b (success Signal.end) e h = at_end c.is_run
    where
      at_end :
          (m : Bool)
          → HoldsOn (
              if m
              then count_down s id c s.running
              else restart_or_halt (put s id c) id (is_positive c.ips))
      at_end true = count_down-HoldsOn s id c b s.running e h
      at_end false = restart-HoldsOn (put s id c) id (is_positive c.ips) (back-IsHeld s id c b e h)
  settle-HoldsOn s id c b (success Signal.continue) e h =
      restart-HoldsOn (put s id c) id (is_positive c.ips) (back-IsHeld s id c b e h)
  settle-HoldsOn s id c b (failure x) e h =
      restart-HoldsOn (record (put s id c) { printed = _ }) id (is_positive c.ips)
        (back-IsHeld s id c b e h)

  after_edits-HoldsOn :
      (s : SchedState A) (id : ℕ) (c : CompState A) (res : Result Signal) (r : Edited A)
      → IsHeld (one_at i id) s
      → HoldsOn (after_edits s id c res r)
  unfolding after_edits
  after_edits-HoldsOn s id c res (edited b) h =
      settle-HoldsOn s id (record c { comp = some b; edit_msgs = [] }) b res refl h
  after_edits-HoldsOn s id c res (edit_failed x b) h = tt
  after_edits-HoldsOn s id c res edit_panicked h = tt

  after_one_edit-HoldsOn :
      (s : SchedState A) (id : ℕ) (c : CompState A) (r : Edited A)
      → IsHeld 0 s
      → HoldsOn (after_one_edit s id c r)
  unfolding after_one_edit
  after_one_edit-HoldsOn s id c (edited b) h =
      back-IsHeld s id (record c { comp = some b }) b refl (omega (arith, h))
  after_one_edit-HoldsOn s id c (edit_failed x b) h = tt
  after_one_edit-HoldsOn s id c edit_panicked h = tt

  module _ ⦃ops : Agent A⦄ where
    edit_agent-HoldsOn :
        (s : SchedState A) (id : ℕ) (msg : EditCmp) → IsHeld 0 s → HoldsOn (edit_agent s id msg)
    unfolding edit_agent
    edit_agent-HoldsOn s id msg h = elim (Option-cases (get s.agents id)) [
      | inl e ↦ rw (e, edit_agent) tt
      | inr (c, e) ↦ rw (e, edit_agent) (there c e c.comp refl)
    ]
      where
        there :
            (c : CompState A)
            → get s.agents id ≡ some c
            → (o : Option A) → c.comp ≡ o
            → HoldsOn (elim o as (λ _. Handled A) [
              | none ↦ done (put s id (record c { edit_msgs = c.edit_msgs ++ msg ∷ [] }))
              | some b ↦ after_one_edit s id c (edit_one_comp b msg)
            ])
        there c e none k =
            same-IsHeld s id c (record c { edit_msgs = c.edit_msgs ++ msg ∷ [] }) e refl h
        there c e (some b) k = after_one_edit-HoldsOn s id c (edit_one_comp b msg) h

    run_end-HoldsOn :
        (s : SchedState A) (id : ℕ) (b : A) (res : Result Signal)
        → IsHeld (one_at i id) s
        → HoldsOn (run_end s id b res)
    unfolding run_end
    run_end-HoldsOn s id b res h = elim (Option-cases (get s.agents id)) [
      | inl e ↦ rw (e, run_end) tt
      | inr (c, e) ↦ rw (e, run_end) (after_edits-HoldsOn s id c res (edit_all b c.edit_msgs) h)
    ]

    dispatch-HoldsOn :
        (s : SchedState A) (m : CompMsg A)
        → is_remove m ≡ 0
        → IsHeld (is_end i m) s
        → HoldsOn (dispatch s m)
    unfolding dispatch new_agent
    dispatch-HoldsOn s (CompMsg.new_agent id name b) n h =
        back-IsHeld s id
          (record {
            comp = some b;
            name = name;
            is_run = false;
            can_run = false;
            edit_msgs = [];
            ips = pos 0;
          })
          b refl (omega (arith, h))
    dispatch-HoldsOn s (CompMsg.start id) n h = start-HoldsOn s id h
    dispatch-HoldsOn s CompMsg.halt n h = h
    dispatch-HoldsOn s CompMsg.halt_state n h = halt-HoldsOn s h
    dispatch-HoldsOn s (CompMsg.run_end id b res) n h = run_end-HoldsOn s id b res h
    dispatch-HoldsOn s (CompMsg.inc id) n h = inc-HoldsOn s id h
    dispatch-HoldsOn s (CompMsg.dec id) n h = dec-HoldsOn s id h
    dispatch-HoldsOn s (CompMsg.remove id sync) n h = absurd (omega (arith, n))
    dispatch-HoldsOn s (CompMsg.add_input_array_element id p e r) n h = edit_agent-HoldsOn s id _ h
    dispatch-HoldsOn s (CompMsg.remove_input_array_element id p e) n h = edit_agent-HoldsOn s id _ h
    dispatch-HoldsOn s (CompMsg.add_output_array_element id p e) n h = edit_agent-HoldsOn s id _ h
    dispatch-HoldsOn s (CompMsg.connect_output_port id p k) n h = edit_agent-HoldsOn s id _ h
    dispatch-HoldsOn s (CompMsg.connect_output_array_port id p e k) n h =
        edit_agent-HoldsOn s id _ h
    dispatch-HoldsOn s (CompMsg.set_receiver id p r) n h = edit_agent-HoldsOn s id _ h
    dispatch-HoldsOn s (CompMsg.disconnect id p) n h = edit_agent-HoldsOn s id _ h
    dispatch-HoldsOn s (CompMsg.disconnect_array id p e) n h = edit_agent-HoldsOn s id _ h

    -- So does a round of the loop in which no edit fails.
    pub round-IsHeld :
        (t u : Thread A)
        → count is_remove t.state.sched_sender ≡ 0
        → u.errors ≡ t.errors
        → IsHeld 0 t.state
        → round t ≡ some u
        → IsHeld 0 u.state
    unfolding round round_on after_round
    round-IsHeld t u none_removed silent held h = looped t.is_stopped t.state.sched_sender refl h
      where
        rest_of : List (CompMsg A) → SchedState A
        rest_of rest = record (t.state) { sched_sender = rest }

        handled : (r : Handled A) → HoldsOn r → after_round t r ≡ some u → IsHeld 0 u.state
        handled (done s) k e = subst (λ x. IsHeld 0 (Thread.state x)) (some_inj e) k
        handled (failed x s) k e =
            absurd (longer t.errors x (ap Thread.errors (some_inj e) ∙ silent))
        handled (halted s) k e = subst (λ x. IsHeld 0 (Thread.state x)) (some_inj e) k
        handled panicked k e = absurd (cc)

        looped :
            (b : Bool) (q : List (CompMsg A))
            → t.state.sched_sender ≡ q
            → (if b then none else round_on t q) ≡ some u
            → IsHeld 0 u.state
        looped true q e r = absurd (cc)
        looped false [] e r = absurd (cc)
        looped false (m ∷ rest) e r =
            handled (dispatch (rest_of rest) m)
              (dispatch-HoldsOn (rest_of rest) m
                (omega (arith, none_removed, ap (count is_remove) e))
                (omega (arith, held, ap (count (is_end i)) e)))
              r
