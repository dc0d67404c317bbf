-- ===== src/Ports/Traffic.antt =====
-- The traffic through one channel: what is sent and received on its two ends, in any order.
use mathlib.Core.List.{append-nil, append_assoc}
use fractalide.Prelude.{
  ◌≡◌, refl, sym, ap, ◌∙◌, String, true, Option, List, [], ◌∷◌, ◌++◌, nat_eq, arith,
}
use fractalide.Prelude.Map.{get-insert_self}
use fractalide.Result.{Run, ok, blocked}
use fractalide.Ports.{World, content, tell, send_message, take_from, recv_message, try_recv_message}
use fractalide.Ports.Ends.{MsgReceiver}

pub data Op (M : Type 0) : Type 0 where
  sends : Option String → M → Op M
  receives tries : Op M

-- What the channel takes in and gives out.
pub record Passed (M : Type 0) : Type 0 where
  pub accepted : List (Option String × M)
  pub received : List (Option String × M)

module _ {M : Type 0} where
  -- A send that waits has put nothing in the channel, nor has one that fails for want of the receiver.
  -- The scheduler of an `IsPort` reads, so that no send to it fails for want of the scheduler.
  abbrev pub got : Run (Option String × M) × World M → List (Option String × M)
  got (ok m, w) = m ∷ []
  got (_, w) = []

  abbrev pub put_in : Option String → M → Run (Unit {0}) → List (Option String × M)
  put_in action m (ok u) = (action, m) ∷ []
  put_in action m _ = []

  abbrev pub perform : MsgReceiver → Op M → World M → World M
  perform r (sends action m) w = (send_message r.sender action m w).1
  perform r receives w = (recv_message r w).1
  perform r tries w = (try_recv_message r w).1

  abbrev pub passes : MsgReceiver → Op M → World M → Passed M
  passes r (sends action m) w = record {
    accepted = put_in action m (send_message r.sender action m w).0;
    received = [];
  }
  passes r receives w = record { accepted = []; received = got (recv_message r w) }
  passes r tries w = record { accepted = []; received = got (try_recv_message r w) }

  abbrev pub perform_all : MsgReceiver → List (Op M) → World M → World M
  perform_all r [] w = w
  perform_all r (o ∷ os) w = perform_all r os (perform r o w)

  abbrev pub accepted_all : MsgReceiver → List (Op M) → World M → List (Option String × M)
  accepted_all r [] w = []
  accepted_all r (o ∷ os) w = (passes r o w).accepted ++ accepted_all r os (perform r o w)

  abbrev pub received_all : MsgReceiver → List (Op M) → World M → List (Option String × M)
  received_all r [] w = []
  received_all r (o ∷ os) w = (passes r o w).received ++ received_all r os (perform r o w)

  -- The two ends belong together, their scheduler reads, and it is told of each message.
  pub record IsPort (r : MsgReceiver) (w : World M) : Type 0 where
    pub same_chan : r.sender.sender ≡ r.recv
    pub same_agent : r.sender.dest ≡ r.id
    pub same_sched : r.sender.sched ≡ r.sched
    pub sender_tells : r.sender.must_sched ≡ true
    pub receiver_tells : r.must_sched ≡ true
    pub reads : w.is_open r.sched ≡ true

  -- The messages in the channel, after those received, are those that were there and those accepted.
  abbrev KeepsOrder : MsgReceiver → Op M → World M → Type 0
  KeepsOrder r o w =
      (passes r o w).received ++ content (perform r o w) r.recv
      ≡ content w r.recv ++ (passes r o w).accepted

  send-KeepsOrder :
      (r : MsgReceiver) (action : Option String) (m : M) (w : World M)
      → IsPort r w
      → KeepsOrder r (sends action m) w
  unfolding send_message tell
  send-KeepsOrder r action m w p = ground (
    arith,
    get-insert_self w.chans r.recv (content w r.recv ++ (action, m) ∷ []),
    append-nil (content w r.recv),
  )

  take_from-KeepsOrder :
      (r : MsgReceiver) (nothing : Run (Option String × M)) (q : List (Option String × M))
      (w : World M)
      → IsPort r w
      → content w r.recv ≡ q
      → got (nothing, w) ≡ []
      → got (take_from r nothing q w) ++ content (take_from r nothing q w).1 r.recv ≡ q
  unfolding take_from tell
  take_from-KeepsOrder r nothing [] w p e silent = rw silent e
  take_from-KeepsOrder r nothing (m ∷ rest) w p e silent =
      ground (arith, get-insert_self w.chans r.recv rest)

  perform-KeepsOrder : (r : MsgReceiver) (o : Op M) (w : World M) → IsPort r w → KeepsOrder r o w
  unfolding recv_message try_recv_message
  perform-KeepsOrder r (sends action m) w p = send-KeepsOrder r action m w p
  perform-KeepsOrder r receives w p =
      take_from-KeepsOrder r blocked (content w r.recv) w p refl refl
      ∙ sym (append-nil (content w r.recv))
  perform-KeepsOrder r tries w p =
      take_from-KeepsOrder r _ (content w r.recv) w p refl refl
      ∙ sym (append-nil (content w r.recv))

  pub perform-IsPort :
      (r : MsgReceiver) (o : Op M) (w : World M) → IsPort r w → IsPort r (perform r o w)
  unfolding send_message recv_message try_recv_message take_from tell
  perform-IsPort r (sends action m) w p = ground arith
  perform-IsPort r receives w p = ground arith
  perform-IsPort r tries w p = ground arith

  regroup :
      (a r end mid beg c d : List (Option String × M))
      → a ++ mid ≡ beg ++ c
      → r ++ end ≡ mid ++ d
      → (a ++ r) ++ end ≡ beg ++ (c ++ d)
  regroup a r end mid beg c d here later =
      append_assoc a r end
      ∙ ap (λ x. a ++ x) later
      ∙ sym (append_assoc a mid d)
      ∙ ap (λ x. x ++ d) here
      ∙ append_assoc beg c d

  -- A port is a queue: over any run of sends and receives on its two ends, what is received, and then
  -- what is still in the channel, is what was in the channel and then what was accepted, in order:
  -- nothing is lost, repeated or overtaken.
  pub traffic_in_order :
      (r : MsgReceiver) (os : List (Op M)) (w : World M)
      → IsPort r w
      → received_all r os w ++ content (perform_all r os w) r.recv
        ≡ content w r.recv ++ accepted_all r os w
  traffic_in_order r [] w p = sym (append-nil (content w r.recv))
  traffic_in_order r (o ∷ os) w p =
      let here = perform-KeepsOrder r o w p in
      let later = traffic_in_order r os (perform r o w) (perform-IsPort r o w p) in
      regroup (passes r o w).received (received_all r os (perform r o w))
        (content (perform_all r os (perform r o w)) r.recv) (content (perform r o w) r.recv)
        (content w r.recv) (passes r o w).accepted (accepted_all r os (perform r o w)) here later
