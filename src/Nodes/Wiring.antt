-- ===== src/Nodes/Wiring.antt =====
-- nodes/fvm/rs/start/lib.rs, nodes/fvm/rs/errors/lib.rs and nodes/fvm/rs/find/node/lib.rs.
use fractalide.Prelude.{
  ℕ, String, Bool, Option, none, some, List, [], ◌∷◌, if◌then◌else◌, format, from_utf8, trim,
}
use fractalide.Result.{Run, ok, panic}
use fractalide.Ports.Ends.{MsgSender, MsgReceiver}
use fractalide.Scheduler.Messages.{Signal}
use fractalide.Edges.FsPath.{FsPath, FsPathOption, FsFileError}
use fractalide.Edges.CoreAction.{CoreAction}
use fractalide.Edges.CoreGraph.{CoreGraph}
use fractalide.Edges.CoreGraph
use fractalide.Edges.CoreLexical.{CoreSemanticError}
use fractalide.Nodes.{Message, Node, ◌>>=◌, ◌>>◌, return, attempt, println, recv, try_recv, send}

module _ {M : Type 0} where
  -- nodes/fvm/rs/start
  module _ {Any : Type 0} (paths : Message M FsPath) (bools : Message M Bool)
      (actions : Message M (CoreAction Any)) where
    abbrev pub on_add : Option MsgSender → Option FsPath → Node M (Unit {0})
    on_add output none = return (ok tt)
    on_add output (some p) =
        send actions output (CoreAction.add (record { name = "main"; comp = p.path }))

    abbrev pub on_halt : Option MsgSender → Option Bool → Node M (Unit {0})
    on_halt output none = return (ok tt)
    on_halt output (some b) = send actions output CoreAction.halt

    unfoldable pub start : MsgReceiver → MsgReceiver → Option MsgSender → Node M Signal
    start add halt output = do
      path ← try_recv paths add
      on_add output path
      halted ← try_recv bools halt
      on_halt output halted
      return (ok Signal.end)

  -- nodes/fvm/rs/errors
  module _ (semantic_errors : Message M CoreSemanticError) (file_errors : Message M FsFileError)
      (graphs : Message M CoreGraph) where
    unfoldable pub print_all : List String → Node M (Unit {0})
    print_all [] = return (ok tt)
    print_all (error ∷ rest) = do println (format ("  " ∷ error ∷ [])); print_all rest

    abbrev pub on_semantic : Option CoreSemanticError → Node M (Unit {0})
    on_semantic none = return (ok tt)
    on_semantic (some e) = do println (format ("Graph at : " ∷ e.path ∷ [])); print_all e.parsing

    abbrev pub on_file_error : Option FsFileError → Node M (Unit {0})
    on_file_error none = return (ok tt)
    on_file_error (some e) =
        println (format ("Subgraph doesn't exist at file location : " ∷ e.path ∷ "\n" ∷ []))

    abbrev pub error_graph : CoreGraph
    error_graph = record CoreGraph.new { path = "error" }

    unfoldable pub errors : MsgReceiver → MsgReceiver → Option MsgSender → Node M Signal
    unfolding print_all
    errors file_error semantic_error output = do
      found ← try_recv semantic_errors semantic_error
      on_semantic found
      missing ← try_recv file_errors file_error
      on_file_error missing
      _ ← attempt (send graphs output error_graph)
      return (ok Signal.end)

  -- nodes/fvm/rs/find/node: `exists` is whether there is such a file, and `nix_build` what the command of
  -- that name writes for a node, if it can be run.
  module _ (paths : Message M FsPath) (options : Message M FsPathOption) (exists : String → Bool)
      (nix_build : String → Option (List ℕ)) where
    abbrev pub trimmed : Option String → Run String
    trimmed none = panic
    trimmed (some v) = ok (trim v)

    abbrev pub built : Option (List ℕ) → Run String
    built none = panic
    built (some stdout) = trimmed (from_utf8 stdout)

    unfoldable pub find_node_path : String → Run String
    find_node_path name = built (nix_build name)

    unfoldable pub find_node : MsgReceiver → Option MsgSender → Node M Signal
    unfolding find_node_path
    find_node input output = do
      p ← recv paths input
      new_path ← return (if exists p.path then ok p.path else find_node_path p.path)
      send options output (record { path = some new_path })
      return (ok Signal.end)
