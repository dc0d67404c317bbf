-- ===== src/Scheduler/Runs.antt =====
-- How the invariant fares where an agent's entry is written, and where an agent leaves for the pool
-- or comes back.
pub mod Returns
use fractalide.Prelude.{
  ℕ, zero, suc, ◌+◌, ◌≡◌, refl, sym, subst, Bool, true, false, none, some, [], ◌∷◌, arith, nat_eq,
  nat_beq_iff, if◌then◌else◌,
}
use fractalide.Prelude.Map.{
  get, get-insert, get-insert_self, insert-insert, total-insert_old, total-insert_new, le-total,
  insert-IsUnique,
}
use fractalide.Prelude.Int.{is_positive}
use fractalide.Scheduler.Messages.{CompMsg}
use fractalide.Scheduler.State.{
  CompState, SchedState, is_some, launch, put, send, run, halt, Handled, done, failed, halted,
  panicked,
}
use fractalide.Scheduler.Dispatch.{restart_or_halt, count_down}
use fractalide.Scheduler.System.{jobs, is_end, is_new, is_halt, is_remove, count}
use fractalide.Scheduler.Invariant.{
  run_weight, IsSettled, IsSound, IsSteady, IsValid, jobs-append, count-append,
}

module _ {A : Type 0} where
  -- An agent that is there goes to the pool.
  pub launch-IsValid :
      (s : SchedState A) (id : ℕ) (c c' : CompState A) (b : A)
      → IsValid s
      → get s.agents id ≡ some c
      → is_some c.comp ≡ true
      → c'.is_run ≡ c.is_run
      → IsValid (launch s id c' b)
  unfolding launch
  launch-IsValid s id c c' b v found there same = record {
    steady = record {
      no_remove = v.no_remove;
      unique = insert-IsUnique s.agents id away_comp v.unique;
      counted = ground (arith, total-insert_old run_weight s.agents id away_comp c found);
      sound = λ j. record {
        owned = ground (
          arith,
          v.sound j,
          get-insert s.agents id away_comp j,
          nat_beq_iff id j,
          jobs-append j s.pool ((id, b) ∷ []),
        );
        fresh = ground (arith, v.sound j, get-insert s.agents id away_comp j, nat_beq_iff id j);
        settled = ground (arith, v.sound j, get-insert s.agents id away_comp j, nat_beq_iff id j);
      };
    };
    halting = λ h none_left. absurd (ground (arith, le-total run_weight s.agents id c found));
  }
    where
      away_comp : CompState A
      away_comp = record c' { comp = none; is_run = true }

  -- An entry is written that leaves the agent where it is.
  pub put-IsValid :
      (s : SchedState A) (id : ℕ) (c c' : CompState A)
      → IsValid s
      → get s.agents id ≡ some c
      → is_some c'.comp ≡ is_some c.comp
      → c'.is_run ≡ c.is_run
      → IsSettled (some c')
      → IsValid (put s id c')
  put-IsValid s id c c' v found same_place same_mark quiet = record {
    steady = record {
      no_remove = v.no_remove;
      unique = insert-IsUnique s.agents id c' v.unique;
      counted = ground (arith, total-insert_old run_weight s.agents id c' c found);
      sound = λ j. record {
        owned = ground (arith, v.sound j, get-insert s.agents id c' j, nat_beq_iff id j);
        fresh = ground (arith, v.sound j, get-insert s.agents id c' j, nat_beq_iff id j);
        settled = ground (arith, v.sound j, get-insert s.agents id c' j, nat_beq_iff id j);
      };
    };
    halting = v.halting;
  }

  pub put_new-IsValid :
      (s : SchedState A) (id : ℕ) (c : CompState A)
      → IsValid s
      → get s.agents id ≡ none
      → count (is_new id) s.sched_sender ≡ 0
      → is_some c.comp ≡ true
      → c.is_run ≡ false
      → is_positive c.ips ≡ false
      → IsValid (put s id c)
  put_new-IsValid s id c v absent no_other there unmarked quiet = record {
    steady = record {
      no_remove = v.no_remove;
      unique = insert-IsUnique s.agents id c v.unique;
      counted = ground (arith, total-insert_new run_weight s.agents id c absent);
      sound = λ j. record {
        owned = ground (arith, v.sound j, get-insert s.agents id c j, nat_beq_iff id j);
        fresh = ground (arith, v.sound j, get-insert s.agents id c j, nat_beq_iff id j);
        settled = ground (arith, v.sound j, get-insert s.agents id c j, nat_beq_iff id j);
      };
    };
    halting = v.halting;
  }

  abbrev away_entry : CompState A → CompState A
  away_entry c = record c { comp = none; is_run = true }

  pub run-put :
      (s : SchedState A) (id : ℕ) (c : CompState A) (b : A)
      → c.comp ≡ some b
      → run (put s id c) id ≡ done (launch s id c b)
  unfolding run launch
  run-put s id c b h =
      ground (arith, get-insert_self s.agents id c, insert-insert s.agents id c (away_entry c))

  send-halt-IsSteady : (s : SchedState A) → IsSteady s → IsSteady (send s CompMsg.halt)
  send-halt-IsSteady s v = record {
    no_remove =
        omega (arith, v.no_remove, count-append is_remove s.sched_sender (CompMsg.halt ∷ []));
    unique = v.unique;
    counted = v.counted;
    sound = λ j. record {
      owned = ground (arith, v.sound j, count-append (is_end j) s.sched_sender (CompMsg.halt ∷ []));
      fresh = ground (arith, v.sound j, count-append (is_new j) s.sched_sender (CompMsg.halt ∷ []));
      settled = IsSound.settled (v.sound j);
    };
  }

  halt_if : SchedState A → Bool → SchedState A
  halt_if s b = if b then send s CompMsg.halt else s

  halt_if-IsValid :
      (s : SchedState A) (b : Bool) → s.can_halt ≡ b → IsSteady s → IsValid (halt_if s b)
  unfolding halt_if
  halt_if-IsValid s true awaited v = record {
    steady = send-halt-IsSteady s v;
    halting = λ h none_left. omega (arith, count-append is_halt s.sched_sender (CompMsg.halt ∷ []));
  }
  halt_if-IsValid s false awaited v = record { steady = v; halting = λ h none_left. absurd (cc) }

  -- The last step of `run_end`, with the count given.
  halt_at : SchedState A → ℕ → SchedState A
  unfolding halt_if
  halt_at s zero = halt_if s s.can_halt
  halt_at s (suc n) = s

  halt_at-IsValid : (s : SchedState A) (r : ℕ) → s.running ≡ r → IsSteady s → IsValid (halt_at s r)
  unfolding halt_at
  halt_at-IsValid s zero e v = halt_if-IsValid s s.can_halt refl v
  halt_at-IsValid s (suc n) e v = record {
    steady = v;
    halting = λ h none_left. absurd (omega arith);
  }

  -- A handler keeps the invariant, whether it succeeds or fails.
  abbrev pub Keeps : Handled A → Type 0
  Keeps (done s) = IsValid s
  Keeps (failed e s) = IsValid s
  Keeps (halted s) = IsValid s
  Keeps panicked = Unit

  stay-Keeps : (s : SchedState A) (id : ℕ) → IsSteady s → Keeps (restart_or_halt s id false)
  unfolding restart_or_halt halt_at halt_if
  stay-Keeps s id v = halt_at-IsValid s s.running refl v

  pub halt-Keeps : (s : SchedState A) → IsValid s → Keeps (halt s)
  unfolding halt halt_at halt_if
  halt-Keeps s v =
      halt_at-IsValid (record s { can_halt = true }) s.running refl
        (record {
          no_remove = v.no_remove;
          unique = v.unique;
          counted = v.counted;
          sound = v.sound;
        })
