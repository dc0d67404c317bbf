-- ===== src/Scheduler/Runs/Returns.antt =====
-- A run that comes back: the agent goes out again, or stays and is counted down.
use fractalide.Prelude.{
  ℕ, zero, suc, ◌+◌, ◌≡◌, refl, sym, subst, Bool, true, false, none, some, [], ◌∷◌, arith, nat_eq,
  nat_beq_iff, if◌then◌else◌,
}
use fractalide.Prelude.Map.{get, get-insert, total-insert_old, le-total, insert-IsUnique}
use fractalide.Prelude.Int.{is_positive}
use fractalide.Scheduler.State.{CompState, SchedState, is_some, launch, put}
use fractalide.Scheduler.Dispatch.{restart_or_halt, count_down}
use fractalide.Scheduler.System.{jobs, is_end, count}
use fractalide.Scheduler.Invariant.{run_weight, IsSteady, IsValid, jobs-append}
use fractalide.Scheduler.Runs.{run-put, Keeps, stay-Keeps}

-- An agent that was away has come back as `b`, with the entry `c`.
pub record IsBack {A : Type 0} (s : SchedState A) (id : ℕ) (c : CompState A) (b : A) : Type 0 where
  pub valid : IsValid s
  pub old : CompState A
  pub found : get s.agents id ≡ some old
  pub gone : is_some old.comp ≡ false
  pub no_job : jobs id s.pool ≡ 0
  pub no_end : count (is_end id) s.sched_sender ≡ 0
  pub marked : c.is_run ≡ true
  pub box : c.comp ≡ some b

module _ {A : Type 0} (s : SchedState A) (id : ℕ) (c : CompState A) (b : A)
    (back : IsBack s id c b) where
  open back use {valid, old, found, gone, no_job, no_end, marked, box}

  pub relaunch-IsValid :
      (c' : CompState A) (r : ℕ)
      → (if c'.is_run then r else r + 1) ≡ s.running
      → IsValid (launch (record s { running = r }) id c' b)
  unfolding launch
  relaunch-IsValid c' r e = record {
    steady = record {
      no_remove = valid.no_remove;
      unique = insert-IsUnique s.agents id gone_comp valid.unique;
      counted =
          ground
            (arith, total-insert_old run_weight s.agents id gone_comp old found, valid.sound id);
      sound = λ j. record {
        owned = ground (
          arith,
          valid.sound j,
          get-insert s.agents id gone_comp j,
          nat_beq_iff id j,
          jobs-append j s.pool ((id, b) ∷ []),
        );
        fresh = ground (arith, valid.sound j, get-insert s.agents id gone_comp j, nat_beq_iff id j);
        settled =
            ground (arith, get-insert s.agents id gone_comp j, nat_beq_iff id j, valid.sound j);
      };
    };
    halting = λ h none_left.
        absurd (ground (arith, le-total run_weight s.agents id old found, valid.sound id));
  }
    where
      gone_comp : CompState A
      gone_comp = record c' { comp = none; is_run = true }

  return-IsSteady :
      (c' : CompState A) (r : ℕ)
      → c'.comp ≡ some b
      → is_positive c'.ips ≡ false
      → r + 1 ≡ s.running + run_weight c'
      → IsSteady (put (record s { running = r }) id c')
  return-IsSteady c' r there quiet e = record {
    no_remove = valid.no_remove;
    unique = insert-IsUnique s.agents id c' valid.unique;
    counted = ground (arith, total-insert_old run_weight s.agents id c' old found, valid.sound id);
    sound = λ j. record {
      owned = ground (arith, valid.sound j, get-insert s.agents id c' j, nat_beq_iff id j);
      fresh = ground (arith, valid.sound j, get-insert s.agents id c' j, nat_beq_iff id j);
      settled = ground (arith, valid.sound j, get-insert s.agents id c' j, nat_beq_iff id j);
    };
  }

  -- The agent runs again, or stays.
  pub restart-Keeps :
      (c' : CompState A) (r : ℕ) (again : Bool)
      → c'.comp ≡ some b
      → is_positive c'.ips ≡ again
      → r + 1 ≡ s.running + run_weight c'
      → Keeps (restart_or_halt (put (record s { running = r }) id c') id again)
  unfolding restart_or_halt
  restart-Keeps c' r true there more e =
      subst Keeps (sym (run-put (record s { running = r }) id c' b there))
        (relaunch-IsValid c' r (ground arith))
  restart-Keeps c' r false there quiet e =
      stay-Keeps (put (record s { running = r }) id c') id (return-IsSteady c' r there quiet e)

  pub count_down-Keeps : (r : ℕ) → r ≡ s.running → Keeps (count_down s id c r)
  unfolding count_down
  count_down-Keeps zero e = tt
  count_down-Keeps (suc n) e =
      restart-Keeps (record c { is_run = false }) n (is_positive c.ips) box refl (omega arith)
