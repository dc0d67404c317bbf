-- ===== src/Scheduler/Safety.antt =====
-- What holds in every state that the scheduler can reach, however its thread, its pool and the
-- senders outside interleave.
use fractalide.Prelude.{
  ℕ, ◌+◌, ◌≤◌, ◌≡◌, refl, ap, subst, false, none, some, List, [], ◌∷◌, ◌++◌, arith, ◌==◌, nat_eq,
  nat_beq_iff, if◌then◌else◌, Bool-cases, some_inj, inl, inr,
}
use fractalide.Prelude.Map.{get, total}
use fractalide.Result.{Result}
use fractalide.Scheduler.Messages.{CompMsg, Signal, Agent}
use fractalide.Scheduler.State.{SchedState, send, Handled, done, failed, halted, panicked}
use fractalide.Scheduler.Dispatch.{Thread, after_round, round_on, round, dispatch}
use fractalide.Scheduler.System.{
  jobs, is_end, is_new, is_halt, is_remove, count, FromOutside, end_job, Step, loop, finish, crash,
  post, Reach, start, here, next,
}
use fractalide.Scheduler.Invariant.{IsValid, present, jobs-append, count-append}
use fractalide.Scheduler.Keeps.Dispatched.{dispatch-Keeps}
use fractalide.Scheduler.Runs.{Keeps}

module _ {A : Type 0} where
  -- Until the thread has ended its state is valid.
  abbrev pub IsLive : Thread A → Type 0
  IsLive t = t.is_stopped ≡ false → IsValid t.state

  pub jobs-remove :
      (j id : ℕ) (b : A) (before after : List (ℕ × A))
      → jobs j (before ++ (id, b) ∷ after) ≡ jobs j (before ++ after) + (if id == j then 1 else 0)
  jobs-remove j id b before after =
      omega (arith, jobs-append j before ((id, b) ∷ after), jobs-append j before after)

  -- A run ends: its agent goes from the pool to the channel.
  end_job-IsValid :
      (s : SchedState A) (before after : List (ℕ × A)) (id : ℕ) (b b' : A) (res : Result Signal)
      → s.pool ≡ before ++ (id, b) ∷ after
      → IsValid s
      → IsValid (end_job s (before ++ after) id b' res)
  end_job-IsValid s before after id b b' res e v = record {
    steady = record {
      no_remove = omega (
        arith,
        v.no_remove,
        count-append is_remove s.sched_sender (CompMsg.run_end id b' res ∷ []),
      );
      unique = v.unique;
      counted = v.counted;
      sound = λ j. record {
        owned = omega (
          arith,
          v.sound j,
          ap (jobs j) e,
          jobs-remove j id b before after,
          count-append (is_end j) s.sched_sender (CompMsg.run_end id b' res ∷ []),
        );
        fresh = omega (
          arith,
          v.sound j,
          count-append (is_new j) s.sched_sender (CompMsg.run_end id b' res ∷ []),
        );
        settled = (v.sound j).settled;
      };
    };
    halting = λ h none_left. omega (
      arith,
      v.halting h none_left,
      count-append is_halt s.sched_sender (CompMsg.run_end id b' res ∷ []),
    );
  }

  crash-IsValid :
      (s : SchedState A) (before after : List (ℕ × A)) (id : ℕ) (b : A)
      → s.pool ≡ before ++ (id, b) ∷ after
      → IsValid s
      → IsValid (record s { pool = before ++ after })
  crash-IsValid s before after id b e v = record {
    steady = record {
      no_remove = v.no_remove;
      unique = v.unique;
      counted = v.counted;
      sound = λ j. record {
        owned = omega (arith, v.sound j, ap (jobs j) e, jobs-remove j id b before after);
        fresh = (v.sound j).fresh;
        settled = (v.sound j).settled;
      };
    };
    halting = v.halting;
  }

  send-IsValid :
      (s : SchedState A) (m : CompMsg A)
      → is_remove m ≡ 0
      → ((j : ℕ) → is_end j m ≡ 0)
      → ((j : ℕ) → count (is_new j) s.sched_sender + is_new j m + present (get s.agents j) ≤ 1)
      → IsValid s
      → IsValid (send s m)
  send-IsValid s m no_remove no_end fits v = record {
    steady = record {
      no_remove = omega (arith, v.no_remove, count-append is_remove s.sched_sender (m ∷ []));
      unique = v.unique;
      counted = v.counted;
      sound = λ j. record {
        owned = omega (arith, v.sound j, no_end j, count-append (is_end j) s.sched_sender (m ∷ []));
        fresh = omega (arith, fits j, count-append (is_new j) s.sched_sender (m ∷ []));
        settled = (v.sound j).settled;
      };
    };
    halting = λ h none_left.
        omega (arith, v.halting h none_left, count-append is_halt s.sched_sender (m ∷ []));
  }

  new_fits :
      (s : SchedState A) (id : ℕ)
      → IsValid s
      → get s.agents id ≡ none
      → count (is_new id) s.sched_sender ≡ 0
      → (j : ℕ)
      → count (is_new j) s.sched_sender + (if id == j then 1 else 0) + present (get s.agents j) ≤ 1
  new_fits s id v absent no_other j = ground (arith, v.sound j, nat_beq_iff id j)

  old_fits :
      (s : SchedState A) (v : IsValid s) (j : ℕ)
      → count (is_new j) s.sched_sender + 0 + present (get s.agents j) ≤ 1
  old_fits s v j = omega (arith, v.sound j)

  FromOutside-IsValid :
      (s : SchedState A) (m : CompMsg A) → FromOutside s m → IsValid s → IsValid (send s m)
  FromOutside-IsValid s (CompMsg.new_agent id name b) h v =
      send-IsValid s (CompMsg.new_agent id name b) refl (λ j. refl) (new_fits s id v h.0 h.1) v
  FromOutside-IsValid s (CompMsg.run_end id b res) h v = absurd h
  FromOutside-IsValid s CompMsg.halt h v = absurd h
  FromOutside-IsValid s (CompMsg.remove id sync) h v = absurd h
  FromOutside-IsValid s m h v = send-IsValid s m refl (λ j. refl) (old_fits s v) v

module _ {A : Type 0} ⦃ops : Agent A⦄ where
  after_round-IsLive :
      (t : Thread A) (r : Handled A) {u : Thread A} → Keeps r → after_round t r ≡ some u → IsLive u
  unfolding after_round
  after_round-IsLive t (done s) kept e = subst IsLive (some_inj e) (λ _. kept)
  after_round-IsLive t (failed x s) kept e = subst IsLive (some_inj e) (λ _. kept)
  after_round-IsLive t (halted s) kept e = subst IsLive (some_inj e) (λ _. kept)
  after_round-IsLive t panicked kept e = absurd (cc)

  round_message-IsLive :
      (t : Thread A) (m : CompMsg A) (rest : List (CompMsg A)) {u : Thread A}
      → IsValid (record (t.state) { sched_sender = m ∷ rest })
      → after_round t (dispatch (record (t.state) { sched_sender = rest }) m) ≡ some u
      → IsLive u
  unfolding dispatch after_round
  round_message-IsLive t CompMsg.halt rest v e = subst IsLive (some_inj e) (λ h. absurd (cc))
  round_message-IsLive t m rest v e =
      after_round-IsLive t (dispatch (record (t.state) { sched_sender = rest }) m)
        (dispatch-Keeps (record (t.state) { sched_sender = rest }) m refl v) e

  round_on-IsLive :
      (t : Thread A) (q : List (CompMsg A)) {u : Thread A}
      → t.state.sched_sender ≡ q
      → IsValid t.state
      → round_on t q ≡ some u
      → IsLive u
  unfolding round_on
  round_on-IsLive t [] eq v e = absurd (cc)
  round_on-IsLive t (m ∷ rest) eq v e =
      round_message-IsLive t m rest
        (subst (λ q. IsValid (record (t.state) { sched_sender = q })) eq v) e

  round-IsLive : (t : Thread A) {u : Thread A} → IsLive t → round t ≡ some u → IsLive u
  unfolding round
  round-IsLive t {u} live e = elim (Bool-cases t.is_stopped) [
    | inl stopped ↦ absurd (ground arith)
    | inr running ↦
        round_on-IsLive t t.state.sched_sender {u = u} refl (live running) (ground arith)
  ]

  Step-IsLive : {t u : Thread A} → Step t u → IsLive t → IsLive u
  Step-IsLive {t} (loop e) live = round-IsLive t live e
  Step-IsLive {t} (finish before after id b b' res e) live =
      λ h. end_job-IsValid t.state before after id b b' res e (live h)
  Step-IsLive {t} (crash before after id b e) live =
      λ h. crash-IsValid t.state before after id b e (live h)
  Step-IsLive {t} (post m from) live = λ h. FromOutside-IsValid t.state m from (live h)

  start-IsLive : IsLive (start {A = A})
  unfolding total get
  start-IsLive h = record {
    steady = record {
      no_remove = refl;
      unique = tt;
      counted = refl;
      sound = λ j. record { owned = omega arith; fresh = omega arith; settled = tt };
    };
    halting = λ h. absurd (cc);
  }

  pub round-not_stopped : (t u : Thread A) → round t ≡ some u → t.is_stopped ≡ false
  unfolding round
  round-not_stopped t u h = ground arith

  -- In every reachable state, until the thread has ended: `running` is the number of agents that are
  -- marked as running; at each number there is at most one box of an agent, in its entry, in the
  -- pool or in the channel; an agent that is at rest has no message to read, and one that is away is
  -- marked; and where a halt is awaited and nothing runs, `Halt` is in the channel.
  pub Reach-IsValid : {t : Thread A} → Reach t → t.is_stopped ≡ false → IsValid t.state
  Reach-IsValid here = start-IsLive
  Reach-IsValid (next r step) = Step-IsLive step (Reach-IsValid r)
