-- ===== src/Nodes/Clones.antt =====
-- nodes/rs/msg/clone/lib.rs: each element of the array port gets the message.
use fractalide.Prelude.{
  ℕ, ◌≡◌, ◌≢◌, ◌<◌, refl, sym, ap, ◌∙◌, String, Bool, true, Option, none, List, [], ◌∷◌, ◌++◌,
  length, All, All-zip, Pairwise, nat_eq, arith,
}
use fractalide.Prelude.Map.{Map, get}
use fractalide.Result.{ok}
use fractalide.Ports
use fractalide.Ports.{World, content}
use fractalide.Ports.Ends.{MsgSender, MsgReceiver}
use fractalide.Scheduler.Messages.{Signal}
use fractalide.Nodes.{Io, Message}
use fractalide.Nodes.Boolean.{send_clones, clone}
use fractalide.Nodes.Sends.{
  IsListened, still-IsListened, output_send-IsGrown, recv-taken, content-get,
}

module _ {M : Type 0} (bools : Message M Bool) where
  abbrev pub IsApart : String × MsgSender → String × MsgSender → Type 0
  IsApart (n, s) (m, t) = s.sender ≢ t.sender

  -- Room for one message, in a channel whose scheduler runs.
  abbrev pub IsRoomy : World M → String × MsgSender → Type 0
  IsRoomy w (n, s) = IsListened s w × (length (content w s.sender) < 25)

  abbrev pub HasCopy : Bool → World M → World M → String × MsgSender → Type 0
  HasCopy b w v (n, s) = content v s.sender ≡ content w s.sender ++ (none, bools.into b) ∷ []

  abbrev pub IsElsewhere : ℕ → String × MsgSender → Type 0
  IsElsewhere c (n, s) = c ≢ s.sender

  send_clones-HasCopy :
      (outputs : Map String MsgSender) (b : Bool) (w : World M) (printed : List String)
      → Pairwise IsApart outputs
      → All (IsRoomy w) outputs
      → (v : World M) × (send_clones bools outputs b (record { world = w; printed = printed })
          ≡ (ok tt, record { world = v; printed = printed }))
        × All (HasCopy b w v) outputs
        × ((c : ℕ) → All (IsElsewhere c) outputs → get v.chans c ≡ get w.chans c)
  unfolding send_clones Ports.output_send
  send_clones-HasCopy [] b w printed apart room = (w, refl, tt, λ c e. refl)
  send_clones-HasCopy ((n, s) ∷ outputs) b w printed (apart, aparts) ((opens, room), rooms) =
      let (v, sent, grown) = output_send-IsGrown s (bools.into b) w opens room in
      let same : (t : String × MsgSender)
          → IsApart (n, s) t
          → content v t.1.sender ≡ content w t.1.sender =
        λ t ne. content-get w v t.1.sender (grown.others t.1.sender (λ e. ne (sym e))) in
      let (u, rest, copies, others) = send_clones-HasCopy outputs b v printed aparts (
        All-zip
          (λ t ne r.
            (still-IsListened t.1 grown.same_ends r.0, omega (arith, r.1, ap length (same t ne))))
          outputs apart rooms) in
      (
        u,
        rw sent rest,
        (
          content-get v u s.sender (others s.sender apart) ∙ grown.here,
          All-zip (λ t ne h. h ∙ ap (λ q. q ++ (none, bools.into b) ∷ []) (same t ne)) outputs apart
              copies,
        ),
        λ c (ne, nes). others c nes ∙ grown.others c ne,
      )

  -- Where each element of the array port has room, none is the channel of the input and no two are the same: the
  -- message is read, the agent ends, each element has got one copy of the message behind what
  -- it held, and no other channel has changed.
  pub clone-HasCopy :
      (input : MsgReceiver) (outputs : Map String MsgSender) (action : Option String) (m : M)
      (rest : List (Option String × M)) (b : Bool) (io : Io M)
      → content io.world input.recv ≡ (action, m) ∷ rest
      → bools.from m ≡ ok b
      → io.world.is_open input.sched ≡ true
      → Pairwise IsApart outputs
      → All (IsElsewhere input.recv) outputs
      → All (IsRoomy io.world) outputs
      → (v : World M) × (clone bools input outputs io ≡ (ok Signal.end, record io { world = v }))
        × All (HasCopy b io.world v) outputs
        × (content v input.recv ≡ rest)
        × ((c : ℕ)
            → c ≢ input.recv
            → All (IsElsewhere c) outputs
            → get v.chans c ≡ get io.world.chans c)
  unfolding clone
  clone-HasCopy input outputs action m rest b io there means open_in aparts elsewhere rooms =
      let (w, got, taken, others, same_open) =
        recv-taken bools.from input action m rest b io.world open_in there means in
      let same : (t : String × MsgSender)
          → IsElsewhere input.recv t
          → content w t.1.sender ≡ content io.world t.1.sender =
        λ t ne. content-get io.world w t.1.sender (others t.1.sender (λ e. ne (sym e))) in
      let (v, sent, copies, kept) = send_clones-HasCopy outputs b w io.printed aparts (
        All-zip
          (λ t ne r.
            (still-IsListened t.1 same_open r.0, omega (arith, r.1, ap length (same t ne))))
          outputs elsewhere rooms) in
      (
        v,
        rw (got, sent) refl,
        All-zip (λ t ne h. h ∙ ap (λ q. q ++ (none, bools.into b) ∷ []) (same t ne)) outputs
            elsewhere copies,
        content-get w v input.recv (kept input.recv elsewhere) ∙ taken,
        λ c ne nes. kept c nes ∙ others c ne,
      )
