-- ===== src/Scheduler/Tests.antt =====
-- A scheduler with one agent, `maths_boolean_not`-like, through a few schedules.
use fractalide.Prelude.{
  ℕ, ◌+◌, ◌<◌, ◌+◌, ◌≡◌, refl, sym, subst, true, false, none, some, [], ◌∷◌, ◌++◌, nat_eq,
}
use fractalide.Prelude.Map.{get, insert, total}
use fractalide.Prelude.Int.{pos}
use fractalide.Result.{success, port_dont_exist}
use fractalide.Ports.{World}
use fractalide.Ports.Ends.{MsgSender}
use fractalide.Agent.{Declaration, ThisAgent, create_agent, this_agent, connect, arm}
use fractalide.Scheduler.Messages.{CompMsg, Signal, EditCmp}
use fractalide.Scheduler.State
use fractalide.Scheduler.State.{
  CompState, SchedState, is_some, send, Handled, done, panicked, edit_failed, remove, edit_agent,
  edit_all,
}
use fractalide.Scheduler.Dispatch.{Thread, round, dispatch}
use fractalide.Scheduler.System.{
  jobs, is_end, count, end_job, loop, finish, post, start, Reach, here, next,
}
use fractalide.Scheduler.Invariant.{IsValid, run_weight}
use fractalide.Scheduler.Safety.{Reach-IsValid}
use fractalide.Scheduler.Wakeups.{Calm, no_lost_wakeup}
use fractalide.Scheduler.Progress.{AllImplemented, run_end_is_handled}
use fractalide.Scheduler.Losses.{IsLost, failed_edit_loses_agent, remove_overcounts}

abbrev inverter : Declaration
inverter = record {
  input = ("input", "bool") ∷ [];
  inarr = [];
  output = ("output", "bool") ∷ [];
  outarr = [];
  option_contract = none;
  accumulator_contract = none;
}

abbrev Box : Type 0
Box = ThisAgent ℕ (Unit {0})

abbrev empty_world : World ℕ
empty_world = record {
  chans = [];
  next_chan = 0;
  notes = [];
  is_open = λ s. true;
  is_received = λ c. true;
}

box : Box
unfolding create_agent
box = (create_agent inverter tt 0 0 empty_world).0.0

after : Thread Box → Thread Box
unfolding round dispatch State.new_agent State.start State.inc State.halt edit_agent edit_all get
    insert connect arm
after t = elim (round t) [ none ↦ t | some u ↦ u ]

abbrev with_message : Thread Box → CompMsg Box → Thread Box
with_message t m = record t { state = send t.state m }

-- The agent is added and started, and runs in the pool.
added : Thread Box
unfolding after
added = after (with_message start (CompMsg.new_agent 0 "not" box))

added-Reach : Reach added
unfolding added
added-Reach = next (next here (post (CompMsg.new_agent 0 "not" box) (refl, refl))) (loop refl)

started : Thread Box
unfolding added
started = after (with_message added (CompMsg.start 0))

started-Reach : Reach started
unfolding started
started-Reach = next (next added-Reach (post (CompMsg.start 0) tt)) (loop refl)

-- A message comes for it while it runs.
woken : Thread Box
unfolding started
woken = after (with_message started (CompMsg.inc 0))

woken-Reach : Reach woken
unfolding woken
woken-Reach = next (next started-Reach (post (CompMsg.inc 0) tt)) (loop refl)

abbrev away : CompState Box
away = record {
  comp = none;
  name = "not";
  is_run = true;
  can_run = true;
  edit_msgs = [];
  ips = pos 1;
}

woken_entry : get woken.state.agents 0 ≡ some away
unfolding woken
woken_entry = refl

woken_goes : woken.is_stopped ≡ false
unfolding woken
woken_goes = refl

Reach-IsValid_example : IsValid woken.state
Reach-IsValid_example = Reach-IsValid woken-Reach woken_goes

woken-Calm : Calm woken
unfolding woken started added
woken-Calm =
    Calm.next
      (Calm.next
        (Calm.next
          (Calm.next
            (Calm.next
              (Calm.next Calm.here (post (CompMsg.new_agent 0 "not" box) (refl, refl)) tt refl)
              (loop refl) tt refl)
            (post (CompMsg.start 0) tt) tt refl)
          (loop refl) tt refl)
        (post (CompMsg.inc 0) tt) tt refl)
      (loop refl) tt refl

no_lost_wakeup_example :
    (jobs 0 woken.state.pool + count (is_end 0) woken.state.sched_sender ≡ 1)
    × (away.is_run ≡ true)
    × (0 < woken.state.running)
no_lost_wakeup_example = no_lost_wakeup 0 away woken-Calm woken_goes woken_entry refl

-- The run ends: its end is next in the channel.
back : Thread Box
unfolding woken box
back = record woken { state = end_job woken.state [] 0 box (success Signal.end) }

back-Reach : Reach back
unfolding back
back-Reach = next woken-Reach (finish [] [] 0 box box (success Signal.end) refl)

back_waits : (c : CompState Box) → get back.state.agents 0 ≡ some c → c.edit_msgs ≡ []
unfolding back
back_waits c h = cc (h)

back_implemented :
    (c : CompState Box) → get back.state.agents 0 ≡ some c → AllImplemented c.edit_msgs
back_implemented c h = subst AllImplemented (sym (back_waits c h)) tt

run_end_is_handled_example : (u : Thread Box) × (round back ≡ some u)
unfolding back
run_end_is_handled_example =
    run_end_is_handled 0 box (success Signal.end) [] back-Reach refl refl back_implemented

-- While it runs, an output port that it does not have is to be connected.
abbrev sender : MsgSender
sender = record { sender = 9; dest = 8; sched = 0; must_sched = true }

wrong_port : Thread Box
unfolding woken
wrong_port = after (with_message woken (CompMsg.connect_output_port 0 "wrong" sender))

wrong_port-Reach : Reach wrong_port
unfolding wrong_port
wrong_port-Reach =
    next (next woken-Reach (post (CompMsg.connect_output_port 0 "wrong" sender) tt)) (loop refl)

wrong_back : Thread Box
unfolding wrong_port box
wrong_back = record wrong_port { state = end_job wrong_port.state [] 0 box (success Signal.end) }

wrong_back-Reach : Reach wrong_back
unfolding wrong_back
wrong_back-Reach = next wrong_port-Reach (finish [] [] 0 box box (success Signal.end) refl)

abbrev waiting : CompState Box
waiting = record away { edit_msgs = EditCmp.connect_output_port "wrong" sender ∷ [] }

failed_edit_loses_agent_example :
    (u : Thread Box) × (round wrong_back ≡ some u)
    × IsLost u 0 (record waiting { edit_msgs = [] })
    × (u.errors ≡ wrong_back.errors ++ port_dont_exist "wrong" ∷ [])
    × (u.state.running ≡ wrong_back.state.running)
unfolding wrong_back
failed_edit_loses_agent_example =
    failed_edit_loses_agent 0 box (success Signal.end) [] waiting (port_dont_exist "wrong") box
      wrong_back-Reach refl refl refl refl

-- `disconnect` on an agent at rest
abbrev resting : CompState Box
resting = record {
  comp = some box;
  name = "not";
  is_run = false;
  can_run = false;
  edit_msgs = [];
  ips = pos 0;
}

added_entry : get added.state.agents 0 ≡ some resting
unfolding added
added_entry = refl

-- After `Continue` the agent is at rest and marked; then it is removed.
continued : Thread Box
unfolding started box
continued =
    after (record started { state = end_job started.state [] 0 box (success Signal.continue) })

continued-Reach : Reach continued
unfolding continued
continued-Reach =
    next (next started-Reach (finish [] [] 0 box box (success Signal.continue) refl)) (loop refl)

abbrev marked : CompState Box
marked = record {
  comp = some box;
  name = "not";
  is_run = true;
  can_run = true;
  edit_msgs = [];
  ips = pos 0;
}

remove_overcounts_example :
    (t : SchedState Box) × (remove continued.state 0 (record { chan = 4; is_open = true }) ≡ done t)
    × (t.running ≡ total run_weight t.agents + 1)
unfolding continued
remove_overcounts_example =
    remove_overcounts continued.state 0 (record { chan = 4; is_open = true }) marked box
      (Reach-IsValid continued-Reach refl) refl refl refl refl
