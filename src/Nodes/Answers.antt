-- ===== src/Nodes/Answers.antt =====
-- What the virtual machine hears of a node that it asks for.
use fractalide.Prelude.{
  ℕ, ◌≡◌, ◌≢◌, ◌<◌, refl, sym, ap, ◌∙◌, String, Bool, true, false, Option, none, some, List, [],
  ◌∷◌, ◌++◌, length, trim, from_utf8, nat_eq, if◌then◌else◌, arith,
}
use fractalide.Prelude.Map.{get}
use fractalide.Result.{ok}
use fractalide.Ports.{World, content}
use fractalide.Ports.Ends.{MsgSender, MsgReceiver}
use fractalide.Scheduler.Messages.{Signal}
use fractalide.Edges.FsPath.{FsPath, FsPathOption}
use fractalide.Nodes.{Io, Message}
use fractalide.Nodes.Wiring.{find_node, find_node_path}
use fractalide.Nodes.Sends.{
  IsListened, still-IsListened, plain, output_send-IsGrown, recv-taken, content-get,
}

module _ {M : Type 0} (paths : Message M FsPath) (options : Message M FsPathOption)
    (exists : String → Bool) (nix_build : String → Option (List ℕ)) where
  found-ok :
      (b : Bool) (path out : String)
      → find_node_path paths options exists nix_build path ≡ ok out
      → (if b then ok path else find_node_path paths options exists nix_build path)
        ≡ ok (if b then path else out)
  found-ok true path out h = refl
  found-ok false path out h = h

  -- Wherever `nix-build` can be run and writes text, the answer is a path: the one that was asked for where
  -- there is such a file, or else what was written, without the white space around it, be it
  -- empty. The question is read, the agent ends, and no other channel has changed: that there is
  -- no such node is never the answer.
  pub find_node-answers :
      (input : MsgReceiver) (s : MsgSender) (action : Option String) (m : M)
      (rest : List (Option String × M)) (path text : String) (stdout : List ℕ) (io : Io M)
      → content io.world input.recv ≡ (action, m) ∷ rest
      → paths.from m ≡ ok (record { path = path })
      → nix_build path ≡ some stdout
      → from_utf8 stdout ≡ some text
      → io.world.is_open input.sched ≡ true
      → IsListened s io.world
      → s.sender ≢ input.recv
      → length (content io.world s.sender) < 25
      → (w : World M) × (find_node paths options exists nix_build input (some s) io
          ≡ (ok Signal.end, record io { world = w }))
        × (content w s.sender
            ≡ content io.world s.sender
              ++ (
                none,
                options.into (record { path = some (if exists path then path else trim text) }),
              )
                ∷ [])
        × (content w input.recv ≡ rest)
        × ((c : ℕ) → c ≢ s.sender → c ≢ input.recv → get w.chans c ≡ get io.world.chans c)
  unfolding find_node find_node_path
  find_node-answers input s action m rest path text stdout io there means run utf open_in open_out
        apart room =
      let (w1, got, taken, others, same) =
        recv-taken paths.from input action m rest (record { path = path }) io.world open_in there
          means in
      let before : content w1 s.sender ≡ content io.world s.sender =
        content-get io.world w1 s.sender (others s.sender apart) in
      let answer =
        options.into (record { path = some (if exists path then path else trim text) }) in
      let (w2, sent, grown) =
        output_send-IsGrown s answer w1 (still-IsListened s same open_out)
          (omega (arith, room, ap length before)) in
      (
        w2,
        rw (got, found-ok (exists path) path (trim text) (rw (run, utf) refl), sent) refl,
        grown.here ∙ ap (λ q. q ++ plain answer ∷ []) before,
        content-get w1 w2 input.recv (grown.others input.recv (λ e. apart (sym e))) ∙ taken,
        λ c out into. grown.others c out ∙ others c into,
      )
