-- ===== src/Nodes/Sends.antt =====
-- One send to a channel that has room, and one receive from a channel that has a message.
use mathlib.Core.List.{append_assoc, append-nil}
use fractalide.Prelude.{
  ℕ, suc, ◌+◌, ◌<◌, ◌≡◌, ◌≢◌, refl, sym, ap, ◌∙◌, String, Bool, true, false, Option, none, some,
  List, [], ◌∷◌, ◌++◌, map, length, length-append, ltb, nat_eq, arith,
}
use fractalide.Prelude.Map.{get, insert, get-insert_self, get-insert_ne}
use fractalide.Result.{Run, ok}
use fractalide.Ports
use fractalide.Ports.{World, content, capacity, tell, take_from, recv_message}
use fractalide.Ports.Ends.{MsgSender, MsgReceiver}

module _ {M : Type 0} where
  abbrev pub plain : M → Option String × M
  plain x = (none, x)

  -- The same threads read, and the same receivers are there.
  pub record SameEnds (w v : World M) : Type 0 where
    pub same_open : v.is_open ≡ w.is_open
    pub same_received : v.is_received ≡ w.is_received

  -- A sender whose receiver is there, and whose scheduler's thread reads.
  abbrev pub IsListened : MsgSender → World M → Type 0
  IsListened s w = (w.is_open s.sched ≡ true) × (w.is_received s.sender ≡ true)

  pub still-IsListened :
      {w v : World M} (s : MsgSender) → SameEnds w v → IsListened s w → IsListened s v
  still-IsListened s k (opens, there) =
      (ap (λ f. f s.sched) k.same_open ∙ opens, ap (λ f. f s.sender) k.same_received ∙ there)

  -- The messages `xs` have come to channel `c`, and no other channel has changed.
  pub record IsGrown (c : ℕ) (xs : List M) (w v : World M) : Type 0 where
    pub here : content v c ≡ content w c ++ map plain xs
    pub others : (d : ℕ) → d ≢ c → get v.chans d ≡ get w.chans d
    pub same_ends : SameEnds w v

  pub IsGrown-trans :
      (c : ℕ) (xs ys : List M) (w v u : World M)
      → IsGrown c xs w v
      → IsGrown c ys v u
      → map plain (xs ++ ys) ≡ map plain xs ++ map plain ys
      → IsGrown c (xs ++ ys) w u
  IsGrown-trans c xs ys w v u k l e = record {
    here =
        l.here
        ∙ ap (λ q. q ++ map plain ys) k.here
        ∙ append_assoc (content w c) (map plain xs) (map plain ys)
        ∙ ap (λ q. content w c ++ q) (sym e);
    others = λ d ne. l.others d ne ∙ k.others d ne;
    same_ends = record {
      same_open = l.same_ends.same_open ∙ k.same_ends.same_open;
      same_received = l.same_ends.same_received ∙ k.same_ends.same_received;
    };
  }

  pub IsGrown-refl : (c : ℕ) (w : World M) → IsGrown c [] w w
  IsGrown-refl c w = record {
    here = sym (append-nil (content w c));
    others = λ d ne. refl;
    same_ends = record { same_open = refl; same_received = refl };
  }

  length-map-plain : (xs : List M) → length (map plain xs) ≡ length xs
  length-map-plain [] = refl
  length-map-plain (x ∷ xs) = ap suc (length-map-plain xs)

  pub length-IsGrown :
      (c : ℕ) (xs : List M) (w v : World M)
      → IsGrown c xs w v
      → length (content v c) ≡ length (content w c) + length xs
  length-IsGrown c xs w v k =
      omega
        (arith, ap length k.here, length-append (content w c) (map plain xs), length-map-plain xs)

  -- The queue of a channel, by its entry.
  abbrev queue_of : Option (List (Option String × M)) → List (Option String × M)
  queue_of none = []
  queue_of (some q) = q

  content-queue_of : (w : World M) (c : ℕ) → content w c ≡ queue_of (get w.chans c)
  content-queue_of w c = ground arith

  pub content-get :
      (w v : World M) (c : ℕ) → get v.chans c ≡ get w.chans c → content v c ≡ content w c
  content-get w v c h = content-queue_of v c ∙ ap queue_of h ∙ sym (content-queue_of w c)

  content-same : (v w : World M) (c : ℕ) → v.chans ≡ w.chans → content v c ≡ content w c
  content-same v w c h = content-get w v c (ap (λ m. get m c) h)

  content-insert :
      (w : World M) (c : ℕ) (q : List (Option String × M))
      → content (record w { chans = insert w.chans c q }) c ≡ q
  content-insert w c q = ground (arith, get-insert_self w.chans c q)

  tell-ok :
      (sched : ℕ) (b : Bool) (n : Ports.Note) (w : World M)
      → w.is_open sched ≡ true
      → (v : World M) × (tell sched b n w ≡ (ok tt, v)) × (v.chans ≡ w.chans) × SameEnds w v
  unfolding tell
  tell-ok sched true n w opens = (
    record w { notes = w.notes ++ (sched, n) ∷ [] },
    rw opens refl,
    refl,
    record { same_open = refl; same_received = refl },
  )
  tell-ok sched false n w opens = (w, refl, refl, record { same_open = refl; same_received = refl })

  pub output_send-IsGrown :
      (s : MsgSender) (x : M) (w : World M)
      → IsListened s w
      → length (content w s.sender) < 25
      → (v : World M) × (Ports.output_send (some s) x w ≡ (ok tt, v))
        × IsGrown s.sender (x ∷ []) w v
  unfolding Ports.output_send Ports.send Ports.send_message
  output_send-IsGrown s x w (opens, received) room =
      let w1 : World M = record w {
        chans = insert w.chans s.sender (content w s.sender ++ plain x ∷ []);
      } in
      let (v, told, chans, same) = tell-ok s.sched s.must_sched (Ports.inc s.dest) w1 opens in
      let fits : ltb (length (content w s.sender)) 25 ≡ true = ground (arith, room) in
      (
        v,
        rw (received, fits, told) refl,
        record {
          here =
              content-same v w1 s.sender chans
              ∙ content-insert w s.sender (content w s.sender ++ plain x ∷ []);
          others = λ d ne.
              ap (λ m. get m d) chans ∙ (get-insert_ne w.chans s.sender _ d (λ e. ne (sym e)));
          same_ends = record { same_open = same.same_open; same_received = same.same_received };
        },
      )

  -- What a receive takes.
  pub recv-taken :
      {T : Type 0} (from : M → Run T) (r : MsgReceiver) (action : Option String) (m : M)
      (rest : List (Option String × M)) (t : T) (w : World M)
      → w.is_open r.sched ≡ true
      → content w r.recv ≡ (action, m) ∷ rest
      → from m ≡ ok t
      → (v : World M) × (Ports.recv from r w ≡ (ok t, v))
        × (content v r.recv ≡ rest)
        × ((d : ℕ) → d ≢ r.recv → get v.chans d ≡ get w.chans d)
        × SameEnds w v
  unfolding Ports.recv recv_message take_from
  recv-taken from r action m rest t w opens there means =
      let w1 : World M = record w { chans = insert w.chans r.recv rest } in
      let (v, told, chans, same) = tell-ok r.sched r.must_sched (Ports.dec r.id) w1 opens in
      (
        v,
        rw (there, told, means) refl,
        content-same v w1 r.recv chans ∙ content-insert w r.recv rest,
        λ d ne. ap (λ m. get m d) chans ∙ (get-insert_ne w.chans r.recv rest d (λ e. ne (sym e))),
        record { same_open = same.same_open; same_received = same.same_received },
      )
