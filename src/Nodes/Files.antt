-- ===== src/Nodes/Files.antt =====
-- Opening a file: what comes to the lexer's channel.
use mathlib.Core.List.{map-append}
use fractalide.Prelude.{
  ℕ, suc, ◌+◌, ◌≤◌, ◌<◌, ◌≡◌, ◌≢◌, refl, sym, ap, ◌∙◌, String, true, Option, none, some, List, [],
  ◌∷◌, ◌++◌, map, length, nat_eq, arith,
}
use fractalide.Prelude.Map.{get}
use fractalide.Result.{Result, success, ok}
use fractalide.Ports
use fractalide.Ports.{World, content}
use fractalide.Ports.Ends.{MsgSender, MsgReceiver}
use fractalide.Scheduler.Messages.{Signal}
use fractalide.Edges.FsFile.{FsFileDesc}
use fractalide.Edges.FsPath.{FsPath, FsFileError}
use fractalide.Lexical.Stream.{file}
use fractalide.Nodes.{Io, Message, Node, send_lines, send_file, file_open}
use fractalide.Nodes.Sends.{
  SameEnds, IsListened, still-IsListened, plain, IsGrown, IsGrown-refl, IsGrown-trans, content-get,
  length-IsGrown, output_send-IsGrown, recv-taken,
}

module _ {M : Type 0} (paths : Message M FsPath) (lines_of : Message M FsFileDesc)
    (file_errors : Message M FsFileError) (open_file : String → Option (List (Result String))) where
  abbrev sent_text : String → M
  sent_text line = lines_of.into (FsFileDesc.text line)

  abbrev Sends : MsgSender → List M → Node M (Unit {0}) → World M → List String → Type 0
  Sends s xs run w printed =
      (v : World M) × (run (record { world = w; printed = printed })
        ≡ (ok tt, record { world = v; printed = printed }))
      × IsGrown s.sender xs w v

  send_lines-Sends :
      (s : MsgSender) (lines : List String) (w : World M) (printed : List String)
      → IsListened s w
      → length (content w s.sender) + length lines ≤ 25
      → Sends s
          (map sent_text lines)
          (send_lines paths lines_of file_errors open_file (some s) (map success lines))
          w
          printed
  unfolding send_lines
  send_lines-Sends s [] w printed opens room = (w, refl, IsGrown-refl s.sender w)
  send_lines-Sends s (line ∷ lines) w printed opens room =
      let (v, sent, grown) = output_send-IsGrown s (sent_text line) w opens (omega (arith, room)) in
      let (u, rest, more) =
        send_lines-Sends s lines v printed (still-IsListened s grown.same_ends opens)
          (omega (arith, room, length-IsGrown s.sender (sent_text line ∷ []) w v grown)) in
      (
        u,
        rw sent rest,
        IsGrown-trans s.sender (sent_text line ∷ []) (map sent_text lines) w v u grown more refl,
      )

  length-sent : (lines : List String) → length (map sent_text lines) ≡ length lines
  length-sent [] = refl
  length-sent (line ∷ lines) = ap suc (length-sent lines)

  texts_sent :
      (lines : List String) (last : FsFileDesc)
      → map plain (map sent_text lines ++ lines_of.into last ∷ [])
        ≡ map (λ x. (none, lines_of.into x)) (map FsFileDesc.text lines ++ last ∷ [])
  texts_sent [] last = refl
  texts_sent (line ∷ lines) last = ap (λ l. plain (sent_text line) ∷ l) (texts_sent lines last)

  -- A file that can be read to its end, with no more lines than the output's channel has room for: the
  -- path is read, the agent ends, the output's channel has got the path, the lines and the path again,
  -- in this order, as the lexer takes them, and no other channel has changed.
  pub file_open-sends :
      (input : MsgReceiver) (s : MsgSender) (error : Option MsgSender) (action : Option String)
      (m : M) (rest : List (Option String × M)) (path : String) (lines : List String) (io : Io M)
      → content io.world input.recv ≡ (action, m) ∷ rest
      → paths.from m ≡ ok (record { path = path })
      → open_file path ≡ some (map success lines)
      → io.world.is_open input.sched ≡ true
      → IsListened s io.world
      → s.sender ≢ input.recv
      → length (content io.world s.sender) + length lines + 2 ≤ 25
      → (w : World M) × (file_open paths lines_of file_errors open_file input (some s) error io
          ≡ (ok Signal.end, record io { world = w }))
        × (content w s.sender
            ≡ content io.world s.sender
              ++ map (λ x. (none, lines_of.into x)) (file path lines path []))
        × (content w input.recv ≡ rest)
        × ((c : ℕ) → c ≢ s.sender → c ≢ input.recv → get w.chans c ≡ get io.world.chans c)
  unfolding file_open send_file
  file_open-sends input s error action m rest path lines io there means opened open_in open_out
        apart room =
      let (w1, got, taken, others, same) =
        recv-taken paths.from input action m rest (record { path = path }) io.world open_in there
          means in
      let open1 : IsListened s w1 = still-IsListened s same open_out in
      let before : content w1 s.sender ≡ content io.world s.sender =
        content-get io.world w1 s.sender (others s.sender apart) in
      let first = lines_of.into (FsFileDesc.start path) in
      let last = lines_of.into (FsFileDesc.end path) in
      let (w2, sent1, g1) =
        output_send-IsGrown s first w1 open1 (omega (arith, room, ap length before)) in
      let open2 : IsListened s w2 = still-IsListened s g1.same_ends open1 in
      let n1 = length-IsGrown s.sender (first ∷ []) w1 w2 g1 in
      let (w3, sent2, g2) =
        send_lines-Sends s lines w2 io.printed open2 (omega (arith, room, ap length before, n1)) in
      let open3 : IsListened s w3 = still-IsListened s g2.same_ends open2 in
      let n2 = length-IsGrown s.sender (map sent_text lines) w2 w3 g2 in
      let (w4, sent3, g3) =
        output_send-IsGrown s last w3 open3
          (omega (arith, room, ap length before, n1, n2, length-sent lines)) in
      let g : IsGrown s.sender (first ∷ map sent_text lines ++ last ∷ []) w1 w4 =
        IsGrown-trans s.sender (first ∷ []) (map sent_text lines ++ last ∷ []) w1 w2 w4 g1
          (IsGrown-trans s.sender (map sent_text lines) (last ∷ []) w2 w3 w4 g2 g3
            (map-append plain (map sent_text lines) (last ∷ [])))
          refl in
      (
        w4,
        rw (got, opened, sent1, sent2, sent3) refl,
        g.here
            ∙ ap (λ q. q ++ map plain (first ∷ map sent_text lines ++ last ∷ [])) before
            ∙ ap (λ q. content io.world s.sender ++ plain first ∷ q)
                (texts_sent lines (FsFileDesc.end path)),
        content-get w1 w4 input.recv (g.others input.recv (λ e. apart (sym e))) ∙ taken,
        λ c out into. g.others c out ∙ others c into,
      )

  -- What becomes of the error, where the error's port has room for it or is not connected.
  abbrev pub HasRoom : Option MsgSender → MsgReceiver → World M → Type 0
  HasRoom none input w = Unit
  HasRoom (some s) input w =
      (s.sender ≢ input.recv) × IsListened s w × (length (content w s.sender) < 25)

  abbrev pub IsReported : Option MsgSender → String → World M → World M → Type 0
  IsReported none path w v = (c : ℕ) → get v.chans c ≡ get w.chans c
  IsReported (some s) path w v =
      IsGrown s.sender (file_errors.into (record { path = path }) ∷ []) w v

  -- Reading the path takes no room.
  still_room :
      (error : Option MsgSender) (input : MsgReceiver) (w v : World M)
      → ((c : ℕ) → c ≢ input.recv → get v.chans c ≡ get w.chans c)
      → SameEnds w v
      → HasRoom error input w
      → HasRoom error input v
  still_room none input w v others same room = tt
  still_room (some s) input w v others same (apart, opens, room) = (
    apart,
    still-IsListened s same opens,
    omega (arith, room, ap length (content-get w v s.sender (others s.sender apart))),
  )

  missing_sent :
      (error : Option MsgSender) (input : MsgReceiver) (output : Option MsgSender) (path : String)
      (w : World M) (printed : List String)
      → HasRoom error input w
      → (v : World M) × (send_file paths lines_of file_errors open_file output error path none
            (record { world = w; printed = printed })
          ≡ (ok Signal.end, record { world = v; printed = printed }))
        × IsReported error path w v
  unfolding send_file Ports.output_send
  missing_sent none input output path w printed room = (w, refl, λ c. refl)
  missing_sent (some s) input output path w printed (apart, opens, room) =
      let (v, sent, grown) =
        output_send-IsGrown s (file_errors.into (record { path = path })) w opens room in
      (v, rw sent refl, grown)

  -- A file that is not there: the path is read, the agent ends well, the path is told on the error's port,
  -- if that is connected, and nothing else is sent.
  pub file_open-missing :
      (input : MsgReceiver) (output error : Option MsgSender) (action : Option String) (m : M)
      (rest : List (Option String × M)) (path : String) (io : Io M)
      → content io.world input.recv ≡ (action, m) ∷ rest
      → paths.from m ≡ ok (record { path = path })
      → open_file path ≡ none
      → io.world.is_open input.sched ≡ true
      → HasRoom error input io.world
      → (w v : World M) × (file_open paths lines_of file_errors open_file input output error io
          ≡ (ok Signal.end, record io { world = v }))
        × (content w input.recv ≡ rest)
        × ((c : ℕ) → c ≢ input.recv → get w.chans c ≡ get io.world.chans c)
        × IsReported error path w v
  unfolding file_open
  file_open-missing input output error action m rest path io there means missing open_in room =
      let (w, got, taken, others, same) =
        recv-taken paths.from input action m rest (record { path = path }) io.world open_in there
          means in
      let (v, sent, reported) =
        missing_sent error input output path w io.printed
          (still_room error input io.world w others same room) in
      (w, v, rw (got, missing) sent, taken, others, reported)
