-- ===== src/Ports.antt =====
-- modules/rs/rustfbp/src/ports.rs: the two ends of a port's channel. A channel holds at most 25
-- messages: a send to a full one waits, as a receive from an empty one does. A receiver keeps a
-- sender of its own channel, so that a receive never finds the senders gone; a send fails where the
-- receiver has been dropped with its agent.
pub mod Ends
mod Traffic
pub mod Counts
mod Tests
use fractalide.Prelude.{
  ℕ, suc, ◌+◌, String, Bool, true, false, Option, none, some, List, [], ◌∷◌, ◌++◌, nat_eq, ltb,
  length, if◌then◌else◌,
}
use fractalide.Prelude.Map.{Map, get, insert}
use fractalide.Result.{
  Run, ok, err, panic, blocked, mpsc_try_recv, empty, output_not_connected, mpsc_send, ◌>>=◌, ◌>>◌,
}
use Ends.{MsgSender, MsgReceiver}

-- What ports tell a scheduler: a message has come for an agent, or an agent has read one.
pub data Note : Type 0 where
  inc : ℕ → Note
  dec : ℕ → Note

-- The channels, what has been sent to each scheduler, in order, whether its thread still reads, and
-- whether the receiver of a channel is still there.
pub record World (M : Type 0) : Type 0 where
  pub chans : Map ℕ (List (Option String × M))
  pub next_chan : ℕ
  pub notes : List (ℕ × Note)
  pub is_open : ℕ → Bool
  pub is_received : ℕ → Bool

abbrev pub capacity : ℕ
capacity = 25

-- `MsgReceiver::get_sender`
abbrev pub get_sender : MsgReceiver → MsgSender
get_sender r = r.sender

-- Code that works on the world: what it comes to, and the world that it leaves.
abbrev pub Act : Type 0 → Type 0 → Type 0
Act M T = World M → Run T × World M

module _ {M : Type 0} where
  abbrev pub content : World M → ℕ → List (Option String × M)
  content w c = elim (get w.chans c) [ none ↦ [] | some q ↦ q ]

  -- `if self.must_sched { self.sched.send(…)?; }`
  unfoldable pub tell : ℕ → Bool → Note → Act M (Unit {0})
  tell sched must_sched n w =
      if must_sched
      then if w.is_open sched
        then (ok tt, record w { notes = w.notes ++ (sched, n) ∷ [] })
        else (err mpsc_send, w)
      else (ok tt, w)

  -- `MsgReceiver::new`
  unfoldable pub new : ℕ → ℕ → Bool → World M → (MsgReceiver × MsgSender) × World M
  new id sched must_sched w = (
    (record { id = id; recv = w.next_chan; sender = s; sched = sched; must_sched = must_sched }, s),
    record w { chans = insert w.chans w.next_chan []; next_chan = suc w.next_chan },
  )
    where
      s : MsgSender
      s = record { sender = w.next_chan; dest = id; sched = sched; must_sched = must_sched }

  -- `send` and `send_with_action`, with the action given
  unfoldable pub send_message : MsgSender → Option String → M → Act M (Unit {0})
  unfolding tell
  send_message s action msg w =
      let q = content w s.sender in
      if w.is_received s.sender
      then if ltb (length q) capacity
        then tell s.sched s.must_sched (inc s.dest)
            (record w { chans = insert w.chans s.sender (q ++ (action, msg) ∷ []) })
        else (blocked, w)
      else (err mpsc_send, w)

  unfoldable pub send : MsgSender → M → Act M (Unit {0})
  unfolding send_message
  send s msg = send_message s none msg

  unfoldable pub send_with_action : MsgSender → M → String → Act M (Unit {0})
  unfolding send_message
  send_with_action s msg action = send_message s (some action) msg

  -- `OutputSend::send`: an output port that may not be connected
  unfoldable pub output_send : Option MsgSender → M → Act M (Unit {0})
  unfolding send
  output_send none msg w = (err output_not_connected, w)
  output_send (some s) msg w = send s msg w

  unfoldable pub take_from :
      MsgReceiver → Run (Option String × M) → List (Option String × M) → Act M (Option String × M)
  unfolding tell
  take_from r nothing [] w = (nothing, w)
  take_from r nothing (m ∷ rest) w =
      let (told, w') =
        tell r.sched r.must_sched (dec r.id) (record w { chans = insert w.chans r.recv rest }) in
      (do told; ok m, w')

  -- `recv_with_action`, before the conversion to the type that is asked for
  unfoldable pub recv_message : MsgReceiver → Act M (Option String × M)
  unfolding take_from
  recv_message r w = take_from r blocked (content w r.recv) w

  -- `try_recv_with_action`
  unfoldable pub try_recv_message : MsgReceiver → Act M (Option String × M)
  unfolding take_from
  try_recv_message r w = take_from r (err (mpsc_try_recv empty)) (content w r.recv) w

  -- `msg.1.into()`, a conversion that may panic, after the message has been taken
  module _ {T : Type 0} (from : M → Run T) where
    abbrev convert : Run (Option String × M) × World M → Run T × World M
    convert (r, w) = (do (action, msg) ← r; from msg, w)

    unfoldable pub recv : MsgReceiver → Act M T
    unfolding recv_message
    recv r w = convert (recv_message r w)

    unfoldable pub try_recv : MsgReceiver → Act M T
    unfolding try_recv_message
    try_recv r w = convert (try_recv_message r w)
