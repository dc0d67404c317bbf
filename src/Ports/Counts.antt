-- ===== src/Ports/Counts.antt =====
-- What a port tells the scheduler agrees with what it holds.
use fractalide.Prelude.{
  ℕ, ◌+◌, ◌≡◌, refl, String, Option, List, [], ◌∷◌, ◌++◌, nat_eq, ◌==◌, ◌&&◌, length, if◌then◌else◌,
  arith, length-append, beq_refl,
}
use fractalide.Prelude.Map.{get-insert_self}
use fractalide.Result.{Run}
use fractalide.Ports.{
  Note, inc, dec, World, content, tell, send_message, take_from, recv_message, try_recv_message,
}
use fractalide.Ports.Ends.{MsgReceiver}
use fractalide.Ports.Traffic.{
  Op, sends, receives, tries, perform, perform_all, IsPort, perform-IsPort,
}

-- How often scheduler `sched` has been told of a message for, or of one read by, agent `id`.
abbrev pub is_inc : ℕ → ℕ → ℕ × Note → ℕ
is_inc sched id (s, inc j) = if s == sched && j == id then 1 else 0
is_inc sched id (s, dec j) = 0

abbrev pub is_dec : ℕ → ℕ → ℕ × Note → ℕ
is_dec sched id (s, inc j) = 0
is_dec sched id (s, dec j) = if s == sched && j == id then 1 else 0

abbrev pub tally : (ℕ × Note → ℕ) → List (ℕ × Note) → ℕ
tally f [] = 0
tally f (n ∷ ns) = f n + tally f ns

tally-append : (f : ℕ × Note → ℕ) (l k : List (ℕ × Note)) → tally f (l ++ k) ≡ tally f l + tally f k
tally-append f [] k = omega arith
tally-append f (n ∷ l) k = omega (arith, tally-append f l k)

module _ {M : Type 0} where
  abbrev pub incs : MsgReceiver → World M → ℕ
  incs r w = tally (is_inc r.sched r.id) w.notes

  abbrev pub decs : MsgReceiver → World M → ℕ
  decs r w = tally (is_dec r.sched r.id) w.notes

  abbrev IsBalanced : MsgReceiver → World M → World M → Type 0
  IsBalanced r w w' =
      incs r w' + decs r w + length (content w r.recv)
      ≡ incs r w + decs r w' + length (content w' r.recv)

  send-IsBalanced :
      (r : MsgReceiver) (action : Option String) (m : M) (w : World M)
      → IsPort r w
      → IsBalanced r w (perform r (sends action m) w)
  unfolding send_message tell
  send-IsBalanced r action m w p = ground (
    arith,
    get-insert_self w.chans r.recv (content w r.recv ++ (action, m) ∷ []),
    length-append (content w r.recv) ((action, m) ∷ []),
    tally-append (is_inc r.sched r.id) w.notes ((r.sched, inc r.id) ∷ []),
    tally-append (is_dec r.sched r.id) w.notes ((r.sched, inc r.id) ∷ []),
    beq_refl r.sched,
    beq_refl r.id,
  )

  take_from-IsBalanced :
      (r : MsgReceiver) (nothing : Run (Option String × M)) (q : List (Option String × M))
      (w : World M)
      → IsPort r w
      → content w r.recv ≡ q
      → IsBalanced r w (take_from r nothing q w).1
  unfolding take_from tell
  take_from-IsBalanced r nothing [] w p e = omega arith
  take_from-IsBalanced r nothing (m ∷ rest) w p e = ground (
    arith,
    get-insert_self w.chans r.recv rest,
    tally-append (is_inc r.sched r.id) w.notes ((r.sched, dec r.id) ∷ []),
    tally-append (is_dec r.sched r.id) w.notes ((r.sched, dec r.id) ∷ []),
    beq_refl r.sched,
    beq_refl r.id,
  )

  perform-IsBalanced :
      (r : MsgReceiver) (o : Op M) (w : World M) → IsPort r w → IsBalanced r w (perform r o w)
  unfolding recv_message try_recv_message
  perform-IsBalanced r (sends action m) w p = send-IsBalanced r action m w p
  perform-IsBalanced r receives w p = take_from-IsBalanced r _ (content w r.recv) w p refl
  perform-IsBalanced r tries w p = take_from-IsBalanced r _ (content w r.recv) w p refl

  -- Over any run of sends and receives on a port, the messages that the scheduler is told of, less
  -- those that it is told were read, are the messages that the channel has gained.
  pub messages_counted :
      (r : MsgReceiver) (os : List (Op M)) (w : World M)
      → IsPort r w
      → incs r (perform_all r os w) + decs r w + length (content w r.recv)
        ≡ incs r w + decs r (perform_all r os w) + length (content (perform_all r os w) r.recv)
  messages_counted r [] w p = refl
  messages_counted r (o ∷ os) w p = omega (
    arith,
    perform-IsBalanced r o w p,
    messages_counted r os (perform r o w) (perform-IsPort r o w p),
  )
