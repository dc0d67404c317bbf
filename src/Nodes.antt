-- ===== src/Nodes.antt =====
-- The small agents, each as its `run` with the ports that it uses as arguments, and here that of
-- nodes/rs/fs/file/open/lib.rs.
pub mod Wiring
pub mod Boolean
pub mod Sends
pub mod Files
pub mod Clones
pub mod Answers
mod Tests
use fractalide.Prelude.{
  ℕ, zero, suc, String, Bool, true, false, not, Option, none, some, List, [], ◌∷◌, ◌++◌, ◌&&◌,
  if◌then◌else◌, format, from_utf8, trim,
}
use fractalide.Prelude.Map.{Map}
use fractalide.Result.{Result, success, failure, Run, ok, err, panic, blocked}
use fractalide.Ports
use fractalide.Ports.{World, Act}
use fractalide.Ports.Ends.{MsgSender, MsgReceiver}
use fractalide.Scheduler.Messages.{Signal}
use fractalide.Edges.FsFile.{FsFileDesc}
use fractalide.Edges.FsPath.{FsPath, FsPathOption, FsFileError}
use fractalide.Edges.CoreAction.{CoreAction, CoreActionAdd}
use fractalide.Edges.CoreGraph.{CoreGraph}
use fractalide.Edges.CoreGraph
use fractalide.Edges.CoreLexical.{CoreSemanticError}

-- The conversions between a type of messages and all messages, as the build generates them.
pub record Message (M T : Type 0) : Type 0 where
  pub into : T → M
  pub from : M → Run T

-- The channels, and what has been printed.
pub record Io (M : Type 0) : Type 0 where
  pub world : World M
  pub printed : List String

abbrev pub Node : Type 0 → Type 0 → Type 0
Node M T = Io M → Run T × Io M

module _ {M : Type 0} where
  abbrev pub then_run : {T U : Type 0} → (T → Node M U) → Run T × Io M → Run U × Io M
  then_run f (ok x, s) = f x s
  then_run f (err e, s) = (err e, s)
  then_run f (panic, s) = (panic, s)
  then_run f (blocked, s) = (blocked, s)

  infixl 5 ◌>>=◌ ◌>>◌
  abbrev pub ◌>>=◌ : {T U : Type 0} → Node M T → (T → Node M U) → Node M U
  (m >>= f) s = then_run f (m s)

  abbrev pub ◌>>◌ : {U : Type 0} → Node M (Unit {0}) → Node M U → Node M U
  m >> n = m >>= (λ u. n)

  abbrev pub return : {T : Type 0} → Run T → Node M T
  return r s = (r, s)

  -- What ports do leaves what has been printed as it was.
  abbrev pub in_world : {T : Type 0} → Run T × World M → Io M → Run T × Io M
  in_world (r, w) s = (r, record s { world = w })

  abbrev pub act : {T : Type 0} → Act M T → Node M T
  act f s = in_world (f s.world) s

  -- A result that is matched on, or thrown away, where the code does not go on with `?`.
  abbrev pub caught : {T : Type 0} → Run T × Io M → Run (Option T) × Io M
  caught (ok x, s) = (ok (some x), s)
  caught (err e, s) = (ok none, s)
  caught (panic, s) = (panic, s)
  caught (blocked, s) = (blocked, s)

  abbrev pub attempt : {T : Type 0} → Node M T → Node M (Option T)
  attempt m s = caught (m s)

  abbrev pub println : String → Node M (Unit {0})
  println line s = (ok tt, record s { printed = s.printed ++ line ∷ [] })

  module _ {T : Type 0} (m : Message M T) where
    abbrev pub recv : MsgReceiver → Node M T
    recv r = act (Ports.recv m.from r)

    abbrev pub try_recv : MsgReceiver → Node M (Option T)
    try_recv r = attempt (act (Ports.try_recv m.from r))

    -- On an output port.
    abbrev pub send : Option MsgSender → T → Node M (Unit {0})
    send port x = act (Ports.output_send port (m.into x))

  -- nodes/rs/fs/file/open
  module _ (paths : Message M FsPath) (lines_of : Message M FsFileDesc)
      (file_errors : Message M FsFileError)
      (open_file : String → Option (List (Result String))) where
    unfoldable pub send_lines : Option MsgSender → List (Result String) → Node M (Unit {0})
    send_lines output [] = return (ok tt)
    send_lines output (failure e ∷ lines) = return (err e)
    send_lines output (success line ∷ lines) = do
      send lines_of output (FsFileDesc.text line)
      send_lines output lines

    unfoldable pub send_file :
        Option MsgSender → Option MsgSender → String → Option (List (Result String)) → Node M Signal
    unfolding send_lines
    send_file output error path none = do
      _ ← attempt (send file_errors error (record { path = path }))
      return (ok Signal.end)
    send_file output error path (some lines) = do
      send lines_of output (FsFileDesc.start path)
      send_lines output lines
      send lines_of output (FsFileDesc.end path)
      return (ok Signal.end)

    unfoldable pub file_open : MsgReceiver → Option MsgSender → Option MsgSender → Node M Signal
    unfolding send_file
    file_open input output error = do
      p ← recv paths input
      send_file output error p.path (open_file p.path)
