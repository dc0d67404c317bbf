-- ===== src/Nodes/Tests.antt =====
-- A file of two lines, one that is missing, and a message for two elements.
use fractalide.Prelude.{
  ℕ, ◌≡◌, ◌≢◌, refl, String, Bool, true, false, Option, none, some, List, [], ◌∷◌, ◌++◌, ◌==◌, map,
  All, nat_eq, string_eq, if◌then◌else◌, arith, from_utf8, trim,
}
use fractalide.Prelude.Map.{Map, get}
use fractalide.Result.{Result, success, failure, io, Run, ok, panic}
use fractalide.Ports.{World, content}
use fractalide.Ports.Ends.{MsgSender, MsgReceiver}
use fractalide.Scheduler.Messages.{Signal}
use fractalide.Edges.FsFile.{FsFileDesc}
use fractalide.Edges.FsPath.{FsPath, FsPathOption, FsFileError}
use fractalide.Lexical.Stream.{file}
use fractalide.Nodes.{Io, Message, file_open}
use fractalide.Nodes.Boolean.{clone}
use fractalide.Nodes.Files.{file_open-sends, file_open-missing, IsReported}
use fractalide.Nodes.Wiring.{find_node}
use fractalide.Nodes.Answers.{find_node-answers}
use fractalide.Nodes.Clones.{clone-HasCopy, HasCopy, IsElsewhere}

-- What the build makes of these types of messages.
data Msg : Type 0 where
  of_path : FsPath → Msg
  of_desc : FsFileDesc → Msg
  of_error : FsFileError → Msg
  of_bool : Bool → Msg
  of_option : FsPathOption → Msg

abbrev as_path : Msg → Run FsPath
as_path (of_path p) = ok p
as_path _ = panic

abbrev as_desc : Msg → Run FsFileDesc
as_desc (of_desc d) = ok d
as_desc _ = panic

abbrev as_error : Msg → Run FsFileError
as_error (of_error e) = ok e
as_error _ = panic

abbrev as_bool : Msg → Run Bool
as_bool (of_bool b) = ok b
as_bool _ = panic

abbrev as_option : Msg → Run FsPathOption
as_option (of_option o) = ok o
as_option _ = panic

abbrev options : Message Msg FsPathOption
options = record { into = of_option; from = as_option }

abbrev paths : Message Msg FsPath
paths = record { into = of_path; from = as_path }

abbrev lines_of : Message Msg FsFileDesc
lines_of = record { into = of_desc; from = as_desc }

abbrev file_errors : Message Msg FsFileError
file_errors = record { into = of_error; from = as_error }

abbrev bools : Message Msg Bool
bools = record { into = of_bool; from = as_bool }

-- Files that can be opened: two lines, and one that is no text.
abbrev disk : String → Option (List (Result String))
disk path =
    if path == "a"
    then some (success "x -> y" ∷ success "" ∷ [])
    else if path == "b"
    then some (success "x" ∷ failure (io "no text") ∷ [])
    else none

abbrev sender_to : ℕ → MsgSender
sender_to c = record { sender = c; dest = c; sched = 0; must_sched = true }

abbrev input : MsgReceiver
input = record { id = 0; recv = 0; sender = sender_to 0; sched = 0; must_sched = true }

abbrev holding : Msg → Io Msg
holding m = record {
  world = record {
    chans = (0, (none, m) ∷ []) ∷ (1, []) ∷ (2, []) ∷ [];
    next_chan = 3;
    notes = [];
    is_open = λ s. true;
    is_received = λ c. true;
  };
  printed = [];
}

abbrev path_to : String → Io Msg
path_to path = holding (of_path (record { path = path }))

file_open-sends_example :
    (w : World Msg) × (file_open paths lines_of file_errors disk input
        (some (sender_to 1))
        none
        (path_to "a")
      ≡ (ok Signal.end, record { world = w; printed = [] }))
    × (content w 1
        ≡ content (path_to "a").world 1
          ++ map (λ x. (none, of_desc x)) (file "a" ("x -> y" ∷ "" ∷ []) "a" []))
    × (content w 0 ≡ [])
    × ((c : ℕ) → c ≢ 1 → c ≢ 0 → get w.chans c ≡ get (path_to "a").world.chans c)
unfolding get
file_open-sends_example =
    file_open-sends paths lines_of file_errors disk input (sender_to 1) none none
      (of_path (record { path = "a" })) [] "a" ("x -> y" ∷ "" ∷ []) (path_to "a") refl refl refl
      refl (refl, refl) (λ e. omega (arith, e)) (omega arith)

file_open-missing_example :
    (w v : World Msg) × (file_open paths lines_of file_errors disk input
        (some (sender_to 1))
        (some (sender_to 2))
        (path_to "c")
      ≡ (ok Signal.end, record { world = v; printed = [] }))
    × (content w 0 ≡ [])
    × ((c : ℕ) → c ≢ 0 → get w.chans c ≡ get (path_to "c").world.chans c)
    × IsReported paths lines_of file_errors disk (some (sender_to 2)) "c" w v
unfolding get
file_open-missing_example =
    file_open-missing paths lines_of file_errors disk input (some (sender_to 1))
      (some (sender_to 2)) none (of_path (record { path = "c" })) [] "c" (path_to "c") refl refl
      refl refl (λ e. omega (arith, e), (refl, refl), omega arith)

abbrev two : Map String MsgSender
two = ("left", sender_to 1) ∷ ("right", sender_to 2) ∷ []

clone-HasCopy_example :
    (v : World Msg) × (clone bools input two (holding (of_bool true))
      ≡ (ok Signal.end, record { world = v; printed = [] }))
    × All (HasCopy bools true (holding (of_bool true)).world v) two
    × (content v 0 ≡ [])
    × ((c : ℕ)
        → c ≢ 0
        → All (IsElsewhere bools c) two
        → get v.chans c ≡ get (holding (of_bool true)).world.chans c)
unfolding get
clone-HasCopy_example =
    clone-HasCopy bools input two none (of_bool true) [] true (holding (of_bool true)) refl refl
      refl ((λ e. omega (arith, e), tt), (tt, tt))
      (λ e. omega (arith, e), (λ e. omega (arith, e), tt))
      (((refl, refl), omega arith), (((refl, refl), omega arith), tt))

-- `nix-build` writes nothing for a node that it does not know: the answer is the empty path.
find_node-answers_example :
    (w : World Msg) × (find_node paths options
        (λ path. false)
        (λ name. some [])
        input
        (some (sender_to 1))
        (path_to "c")
      ≡ (ok Signal.end, record { world = w; printed = [] }))
    × (content w 1
        ≡ content (path_to "c").world 1 ++ (none, of_option (record { path = some "" })) ∷ [])
    × (content w 0 ≡ [])
    × ((c : ℕ) → c ≢ 1 → c ≢ 0 → get w.chans c ≡ get (path_to "c").world.chans c)
unfolding get from_utf8 trim
find_node-answers_example =
    find_node-answers paths options (λ path. false) (λ name. some []) input (sender_to 1) none
      (of_path (record { path = "c" })) [] "c" "" [] (path_to "c") refl refl refl refl refl
      (refl, refl) (λ e. omega (arith, e)) (omega arith)
