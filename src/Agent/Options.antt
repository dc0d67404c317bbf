-- ===== src/Agent/Options.antt =====
-- modules/rs/rustfbp/src/agent.rs: the option of an agent, which is kept until a new one comes, and
-- `send_action!`.
use fractalide.Prelude.{
  ℕ, zero, suc, ◌≡◌, ◌≢◌, refl, sym, ◌∙◌, String, false, Option, none, some, List, [], ◌∷◌, length,
  string_eq, nat_eq, arith,
}
use fractalide.Prelude.Map.{get, insert, get-insert_self, get-insert_ne}
use fractalide.Result.{Run, ok, err, panic, blocked, mpsc_try_recv, empty}
use fractalide.Ports
use fractalide.Ports.{World, Act, content, tell, try_recv_message, recv_message, take_from}
use fractalide.Ports.Ends.{MsgReceiver}
use fractalide.Agent.{ThisAgent, elements}

module _ {M : Type 0} where
  -- `match self.input.option.try_recv()`: go on with a message, stop at an error
  abbrev pub on_try :
      Option M → (M → World M → Option M × World M) → Run M × World M → Option M × World M
  on_try kept next (ok msg, w) = next msg w
  on_try kept next (err e, w) = (kept, w)
  on_try kept next (panic, w) = (kept, w)
  on_try kept next (blocked, w) = (kept, w)

  -- The loop around it: the last message that comes out, or what was kept.
  pub drain : ℕ → MsgReceiver → Option M → World M → Option M × World M
  drain zero r kept w = (kept, w)
  drain (suc fuel) r kept w =
      on_try kept (λ msg w. drain fuel r (some msg) w) (Ports.try_recv ok r w)

  -- Each round takes a message out of the channel: one more than there are is fuel enough.
  pub drained : MsgReceiver → Option M → World M → Option M × World M
  unfolding drain
  drained r kept w = drain (suc (length (content w r.recv))) r kept w

  -- What is waited for where there is no option yet: `self.input.option.recv().ok()`
  abbrev pub waited : Run M → Run M
  waited (ok msg) = ok msg
  waited (err e) = panic
  waited panic = panic
  waited blocked = blocked

  abbrev pub kept_of : Run M → Option M
  kept_of (ok msg) = some msg
  kept_of _ = none

module _ {M S : Type 0} where
  unfoldable pub try_recv_option : ThisAgent M S → World M → (Option M × ThisAgent M S) × World M
  unfolding drained
  try_recv_option a w =
      let (o, w') = drained a.input.option a.option_msg w in ((o, record a { option_msg = o }), w')

  -- The agent is there to wait only where it has kept none.
  wait_option : Option M → ThisAgent M S → World M → (Run M × ThisAgent M S) × World M
  wait_option (some msg) a w = ((ok msg, a), w)
  wait_option none a w =
      let (r, w') = Ports.recv ok a.input.option w in
      ((waited r, record a { option_msg = kept_of r }), w')

  unfoldable pub recv_option : ThisAgent M S → World M → (Run M × ThisAgent M S) × World M
  unfolding try_recv_option wait_option
  recv_option a w = let ((o, a'), w') = try_recv_option a w in wait_option o a' w'

  -- `send_action!`, for messages with a field `action`
  pub send_action : (M → String) → ThisAgent M S → String → M → Act M (Unit {0})
  unfolding Ports.send Ports.output_send
  send_action action a port msg w = elim (get (elements a.outarr port) (action msg)) [
    | some sender ↦ Ports.send sender msg w
    | none ↦ elim (get a.output.ports port) [
      | some sender ↦ Ports.output_send sender msg w
      | none ↦ Ports.output_send none msg w
    ]
  ]

module _ {M : Type 0} where
  -- The latest of the messages, or what was kept.
  abbrev pub latest : Option M → List (Option String × M) → Option M
  latest kept [] = kept
  latest kept ((action, msg) ∷ rest) = latest (some msg) rest

  nothing_there :
      (r : MsgReceiver) (w : World M)
      → content w r.recv ≡ []
      → Ports.try_recv ok r w ≡ (err (mpsc_try_recv empty), w)
  unfolding Ports.try_recv try_recv_message take_from
  nothing_there r w e = rw e refl

  nothing_to_wait_for :
      (r : MsgReceiver) (w : World M) → content w r.recv ≡ [] → Ports.recv ok r w ≡ (blocked, w)
  unfolding Ports.recv recv_message take_from
  nothing_to_wait_for r w e = rw e refl

  -- The receiver tells no scheduler.
  message_there :
      (r : MsgReceiver) (action : Option String) (msg : M) (rest : List (Option String × M))
      (w : World M)
      → r.must_sched ≡ false
      → content w r.recv ≡ (action, msg) ∷ rest
      → Ports.try_recv ok r w ≡ (ok msg, record w { chans = insert w.chans r.recv rest })
  unfolding Ports.try_recv try_recv_message take_from tell
  message_there r action msg rest w quiet e = rw (e, quiet) refl

  -- What draining comes to.
  drain-latest :
      (q : List (Option String × M)) (r : MsgReceiver) (kept : Option M) (w : World M)
      → r.must_sched ≡ false
      → content w r.recv ≡ q
      → (w' : World M) × (drain (suc (length q)) r kept w ≡ (latest kept q, w'))
        × (content w' r.recv ≡ [])
        × ((c : ℕ) → c ≢ r.recv → get w'.chans c ≡ get w.chans c)
        × (w'.notes ≡ w.notes)
  unfolding drain
  drain-latest [] r kept w quiet e = (w, rw (nothing_there r w e) refl, e, λ c ne. refl, refl)
  drain-latest ((action, msg) ∷ rest) r kept w quiet e =
      let w1 : World M = record w { chans = insert w.chans r.recv rest } in
      let there : content w1 r.recv ≡ rest = ground (arith, get-insert_self w.chans r.recv rest) in
      let (w2, out, gone, others, silent) = drain-latest rest r (some msg) w1 quiet there in
      (
        w2,
        rw (message_there r action msg rest w quiet e) out,
        gone,
        λ c ne. others c ne ∙ get-insert_ne w.chans r.recv rest c (λ same. ne (sym same)),
        silent,
      )

module _ {M S : Type 0} where
  -- What there is to an option: the last message that came, or else the one that was kept.
  abbrev pub offered : ThisAgent M S → World M → Option M
  offered a w = latest a.option_msg (content w a.input.option.recv)

  -- The option of an agent whose option port tells no scheduler is the latest: where a message has come or
  -- one was kept, `recv_option` and `try_recv_option` give the last that came, or else the kept one, and
  -- keep it; where there is none, `try_recv_option` gives none and `recv_option` waits. Either takes all
  -- messages out of the option's channel, and leaves the other channels as they were.
  pub option_is_latest :
      (a : ThisAgent M S) (w : World M)
      → a.input.option.must_sched ≡ false
      → (w' : World M) × (content w' a.input.option.recv ≡ [])
        × ((c : ℕ) → c ≢ a.input.option.recv → get w'.chans c ≡ get w.chans c)
        × (try_recv_option a w ≡ ((offered a w, record a { option_msg = offered a w }), w'))
        × ((msg : M)
            → offered a w ≡ some msg
            → recv_option a w ≡ ((ok msg, record a { option_msg = some msg }), w'))
        × (offered a w ≡ none → recv_option a w ≡ ((blocked, record a { option_msg = none }), w'))
  unfolding try_recv_option recv_option
  option_is_latest a w quiet =
      let (w', out, gone, others, silent) =
        drain-latest (content w a.input.option.recv) a.input.option a.option_msg w quiet refl in
      (
        w',
        gone,
        others,
        rw out refl,
        λ msg there. rw (out, there) refl,
        λ nothing. rw (out, nothing, nothing_to_wait_for a.input.option w' gone) refl,
      )
