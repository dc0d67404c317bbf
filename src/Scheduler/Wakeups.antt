-- ===== src/Scheduler/Wakeups.antt =====
-- An agent that has messages to read is at work.
use fractalide.Prelude.{ℕ, ◌+◌, ◌<◌, ◌≡◌, ap, true, false, some, [], ◌∷◌, arith, nat_eq}
use fractalide.Prelude.Map.{get, le-total}
use fractalide.Prelude.Int.{is_positive}
use fractalide.Scheduler.Messages.{CompMsg, Agent}
use fractalide.Scheduler.State.{CompState}
use fractalide.Scheduler.Dispatch.{Thread}
use fractalide.Scheduler.System
use fractalide.Scheduler.System.{
  jobs, is_end, count, end_job, Step, loop, finish, crash, post, start, Reach,
}
use fractalide.Scheduler.Invariant.{run_weight, IsValid, count-append}
use fractalide.Scheduler.Safety.{Reach-IsValid, round-not_stopped, jobs-remove}
use fractalide.Scheduler.Held.{IsHeld, round-IsHeld}

module _ {A : Type 0} ⦃ops : Agent A⦄ where
  -- No run panics.
  abbrev pub IsOrderly : {t u : Thread A} → Step t u → Type 0
  IsOrderly (crash before after id b e) = ⊥
  IsOrderly _ = Unit

  -- What is reached while no run panics and no edit fails.
  pub data Calm : Thread A → Type 0 where
    here : Calm start
    next : {t u : Thread A} → Calm t → (s : Step t u) → IsOrderly s → u.errors ≡ t.errors → Calm u

  Calm-Reach : {t : Thread A} → Calm t → Reach t
  Calm-Reach here = System.here
  Calm-Reach (next r s o e) = System.next (Calm-Reach r) s

  step-IsHeld :
      {t u : Thread A} (i : ℕ) (s : Step t u)
      → IsOrderly s
      → u.errors ≡ t.errors
      → (t.is_stopped ≡ false → IsValid t.state)
      → IsHeld i 0 t.state
      → IsHeld i 0 u.state
  step-IsHeld {t} {u} i (loop h) o e v held =
      round-IsHeld i t u (v (round-not_stopped t u h)).no_remove e held h
  step-IsHeld {t} i (finish before after id b b' res h) o e v held = omega (
    arith,
    held,
    ap (jobs i) h,
    jobs-remove i id b before after,
    count-append (is_end i) t.state.sched_sender (CompMsg.run_end id b' res ∷ []),
  )
  step-IsHeld i (crash before after id b h) o e v held = absurd o
  step-IsHeld {t} i (post m h) o e v held =
      omega (arith, held, count-append (is_end i) t.state.sched_sender (m ∷ []))

  Calm-IsHeld : {t : Thread A} (i : ℕ) → Calm t → IsHeld i 0 t.state
  unfolding get
  Calm-IsHeld i here = omega arith
  Calm-IsHeld i (next r s o e) =
      step-IsHeld i s o e (Reach-IsValid (Calm-Reach r)) (Calm-IsHeld i r)

  -- No wake-up is lost while no run panics and no edit fails: until the thread has ended, an agent whose count
  -- of messages is positive is at work or on its way back, that is, there is exactly one box of it in the
  -- pool and in the ends of runs in the channel; and it is marked and counted as running.
  pub no_lost_wakeup :
      {t : Thread A} (id : ℕ) (c : CompState A)
      → Calm t
      → t.is_stopped ≡ false
      → get t.state.agents id ≡ some c
      → is_positive c.ips ≡ true
      → (jobs id t.state.pool + count (is_end id) t.state.sched_sender ≡ 1)
        × (c.is_run ≡ true)
        × (0 < t.state.running)
  no_lost_wakeup {t} id c r going found more =
      let v = Reach-IsValid (Calm-Reach r) going in
      let at_id = v.sound id in
      (
        ground (arith, at_id, Calm-IsHeld id r),
        ground (arith, at_id),
        ground (arith, at_id, v.counted, le-total run_weight t.state.agents id c found),
      )
