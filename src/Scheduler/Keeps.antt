-- ===== src/Scheduler/Keeps.antt =====
-- Every handler of the loop keeps the invariant, on all its branches.
pub mod Dispatched
use fractalide.Prelude.{
  ℕ, ◌+◌, ◌≡◌, refl, sym, ap, subst, ◌∙◌, Bool, true, false, none, some, List, [], ◌∷◌, ◌++◌, arith,
  nat_eq, nat_beq_iff, if◌then◌else◌, String, Option-cases, inl, inr, ◌&&◌,
}
use fractalide.Prelude.Map.{get}
use fractalide.Prelude.Int.{is_positive, incr, decr, is_positive-decr}
use fractalide.Result.{Result, success, failure}
use fractalide.Scheduler.Messages.{CompMsg, Signal, EditCmp, Agent}
use fractalide.Scheduler.State.{
  CompState, SchedState, is_some, put, done, inc, dec, new_agent, start, edit_agent, after_one_edit,
  edit_one_comp, edit_all, Edited, edited, edit_failed, edit_panicked, run,
}
use fractalide.Scheduler.Dispatch.{settle, after_edits, run_end, dispatch}
use fractalide.Scheduler.System.{jobs, is_end, is_new, is_halt, count}
use fractalide.Scheduler.Invariant.{IsValid, IsSettled}
use fractalide.Scheduler.Runs.{
  Keeps, launch-IsValid, put-IsValid, put_new-IsValid, run-put, halt-Keeps,
}
use fractalide.Scheduler.Runs.Returns.{IsBack, restart-Keeps, count_down-Keeps}

module _ {A : Type 0} where
  -- The loop takes a message off the channel.
  pub pop-IsValid :
      (s : SchedState A) (m : CompMsg A)
      → is_halt m ≡ 0
      → IsValid (record s { sched_sender = m ∷ s.sched_sender })
      → IsValid s
  pop-IsValid s m no_halt v = record {
    steady = record {
      no_remove = omega (arith, v.no_remove);
      unique = v.unique;
      counted = v.counted;
      sound = λ j. record {
        owned = omega (arith, v.sound j);
        fresh = omega (arith, v.sound j);
        settled = (v.sound j).settled;
      };
    };
    halting = λ h none_left. omega (arith, v.halting h none_left);
  }

  printed-IsBack :
      (s : SchedState A) (id : ℕ) (c : CompState A) (b : A) (out : List String)
      → IsBack s id c b
      → IsBack (record s { printed = out }) id c b
  printed-IsBack s id c b out back = record {
    valid = record {
      steady = record {
        no_remove = back.valid.no_remove;
        unique = back.valid.unique;
        counted = back.valid.counted;
        sound = back.valid.sound;
      };
      halting = back.valid.halting;
    };
    old = back.old;
    found = back.found;
    gone = back.gone;
    no_job = back.no_job;
    no_end = back.no_end;
    marked = back.marked;
    box = back.box;
  }

  settle-Keeps :
      (s : SchedState A) (id : ℕ) (c : CompState A) (b : A) (res : Result Signal)
      → IsBack s id c b
      → Keeps (settle s id c res)
  unfolding settle
  settle-Keeps s id c b (success Signal.end) back =
      simp back.marked (count_down-Keeps s id c b back s.running refl)
  settle-Keeps s id c b (success Signal.continue) back =
      restart-Keeps s id c b back c s.running (is_positive c.ips) back.box refl
        (ground (arith, back.marked))
  settle-Keeps s id c b (failure e) back =
      restart-Keeps (record s { printed = _ }) id c b (printed-IsBack s id c b _ back) c s.running
        (is_positive c.ips) back.box refl (ground (arith, back.marked))

  IsSettled-at :
      (s : SchedState A) (id : ℕ) (c : CompState A)
      → IsValid s
      → get s.agents id ≡ some c
      → IsSettled (some c)
  IsSettled-at s id c v e = subst IsSettled e (v.sound id).settled

  comp_cases : (c : CompState A) → is_some c.comp ≡ true → (b : A) × (c.comp ≡ some b)
  comp_cases c there = ground arith

  -- An entry is written, and if a test passes the agent runs.
  run_or_put-Keeps :
      (s : SchedState A) (id : ℕ) (c c' : CompState A) (test : Bool)
      → IsValid s
      → get s.agents id ≡ some c
      → c'.comp ≡ c.comp
      → c'.is_run ≡ c.is_run
      → (test ≡ true → is_some c.comp ≡ true)
      → (test ≡ false → IsSettled (some c'))
      → Keeps (if test then run (put s id c') id else done (put s id c'))
  run_or_put-Keeps s id c c' true v found place mark there quiet =
      let (b, e) = comp_cases c (there refl) in
      subst Keeps (sym (run-put s id c' b (place ∙ e)))
        (launch-IsValid s id c c' b v found (there refl) mark)
  run_or_put-Keeps s id c c' false v found place mark there quiet =
      put-IsValid s id c c' v found (ap is_some place) mark (quiet refl)

  inc-Keeps : (s : SchedState A) (id : ℕ) → IsValid s → Keeps (inc s id)
  unfolding inc
  inc-Keeps s id v = elim (Option-cases (get s.agents id)) [
    | inl e ↦ rw (e, inc) v
    | inr (c, e) ↦
        let settled = IsSettled-at s id c v e in
        rw (e, inc)
          (run_or_put-Keeps s id c (record c { ips = incr c.ips })
            (is_positive (incr c.ips) && is_some c.comp) v e refl refl (λ h. ground arith)
            (λ h. (λ there. ground arith, settled.1)))
  ]

  start-Keeps : (s : SchedState A) (id : ℕ) → IsValid s → Keeps (start s id)
  unfolding start
  start-Keeps s id v = elim (Option-cases (get s.agents id)) [
    | inl e ↦ rw (e, start) tt
    | inr (c, e) ↦
        let settled = IsSettled-at s id c v e in
        rw (e, start)
          (run_or_put-Keeps s id c (record c { can_run = true }) (is_some c.comp) v e refl refl
            (λ h. h) (λ h. settled))
  ]

  dec-Keeps : (s : SchedState A) (id : ℕ) → IsValid s → Keeps (dec s id)
  unfolding dec
  dec-Keeps s id v = elim (Option-cases (get s.agents id)) [
    | inl e ↦ rw (e, dec) v
    | inr (c, e) ↦
        let settled = IsSettled-at s id c v e in
        rw (e, dec)
          (put-IsValid s id c (record c { ips = decr c.ips }) v e refl refl
            (λ there. is_positive-decr c.ips (settled.0 there), settled.1))
  ]

  new_agent-Keeps :
      (s : SchedState A) (id : ℕ) (name : String) (b : A)
      → IsValid s
      → get s.agents id ≡ none
      → count (is_new id) s.sched_sender ≡ 0
      → Keeps (new_agent s id name b)
  unfolding new_agent
  new_agent-Keeps s id name b v absent no_other =
      put_new-IsValid s id _ v absent no_other refl refl refl

  after_one_edit-Keeps :
      (s : SchedState A) (id : ℕ) (c : CompState A) (r : Edited A)
      → IsValid s
      → get s.agents id ≡ some c
      → is_some c.comp ≡ true
      → Keeps (after_one_edit s id c r)
  unfolding after_one_edit
  after_one_edit-Keeps s id c (edited b) v found there =
      let settled = IsSettled-at s id c v found in
      put-IsValid s id c (record c { comp = some b }) v found (sym there) refl
        (λ h. settled.0 there, λ h. absurd (cc))
  after_one_edit-Keeps s id c (edit_failed e b) v found there =
      let settled = IsSettled-at s id c v found in
      put-IsValid s id c (record c { comp = some b }) v found (sym there) refl
        (λ h. settled.0 there, λ h. absurd (cc))
  after_one_edit-Keeps s id c edit_panicked v found there = tt

  after_edits-Keeps :
      (s : SchedState A) (id : ℕ) (c : CompState A) (res : Result Signal) (r : Edited A)
      → IsValid s
      → get s.agents id ≡ some c
      → is_some c.comp ≡ false
      → jobs id s.pool + count (is_end id) s.sched_sender ≡ 0
      → Keeps (after_edits s id c res r)
  unfolding after_edits
  after_edits-Keeps s id c res (edited b) v found gone none_left =
      settle-Keeps s id (record c { comp = some b; edit_msgs = [] }) b res
        (record {
          valid = v;
          old = c;
          found = found;
          gone = gone;
          no_job = omega arith;
          no_end = omega arith;
          marked = (IsSettled-at s id c v found).1 gone;
          box = refl;
        })
  after_edits-Keeps s id c res (edit_failed e b) v found gone none_left =
      put-IsValid s id c (record c { edit_msgs = [] }) v found refl refl
        (IsSettled-at s id c v found)
  after_edits-Keeps s id c res edit_panicked v found gone none_left = tt
