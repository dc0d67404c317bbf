-- ===== src/Fvm/Agents.antt =====
-- The ports of the agents of the network, as their `agent!` declares them: nodes/rs/fs/file/open/lib.rs,
-- nodes/fvm/rs/parser/lexical/lib.rs and the other files of nodes/fvm/rs.
use fractalide.Prelude.{String, none, some, List, [], ◌∷◌, string_eq}
use fractalide.Agent.{Declaration}

abbrev ports : List (String × String) → List (String × String) → Declaration
ports input output = record {
  input = input;
  inarr = [];
  output = output;
  outarr = [];
  option_contract = none;
  accumulator_contract = none;
}

abbrev pub open_file : Declaration
open_file =
    ports (("input", "FsPath") ∷ []) (("output", "FsFileDesc") ∷ ("error", "FsFileError") ∷ [])

abbrev pub lexical : Declaration
lexical = ports (("input", "FsFileDesc") ∷ []) (("output", "CoreLexical") ∷ [])

abbrev pub semantic : Declaration
semantic =
    ports (("input", "CoreLexical") ∷ [])
      (("output", "CoreGraph") ∷ ("error", "CoreSemanticError") ∷ [])

abbrev pub vm : Declaration
vm =
    ports (("input", "CoreGraph") ∷ ("new_path", "FsPathOption") ∷ ("error", "BAny") ∷ [])
      (("output", "CoreGraph") ∷ ("ask_graph", "FsPath") ∷ ("ask_path", "FsPath") ∷ [])

abbrev pub errors : Declaration
errors =
    ports (("file_error", "FsFileError") ∷ ("semantic_error", "CoreSemanticError") ∷ [])
      (("output", "CoreGraph") ∷ [])

abbrev pub graph_print : Declaration
graph_print = ports (("input", "CoreGraph") ∷ []) (("output", "CoreGraph") ∷ [])

abbrev pub graph_check : Declaration
graph_check =
    ports (("input", "CoreGraph") ∷ [])
      (("output", "CoreGraph") ∷ ("error", "CoreSemanticError") ∷ [])

abbrev pub scheduler : Declaration
scheduler = record {
  input = ("action", "CoreAction") ∷ ("graph", "CoreGraph") ∷ [];
  inarr = [];
  output = ("ask_graph", "CoreGraph") ∷ [];
  outarr = ("outputs", "BAny") ∷ [];
  option_contract = none;
  accumulator_contract = some "CoreScheduler";
}

abbrev pub find_node : Declaration
find_node = ports (("input", "FsPath") ∷ []) (("output", "FsPathOption") ∷ [])

abbrev pub start : Declaration
start = ports (("add", "FsPath") ∷ ("halt", "bool") ∷ []) (("output", "CoreAction") ∷ [])

-- The libraries under the names by which they are loaded.
abbrev pub installed : List (String × Declaration)
installed =
    ("fs_file_open.so", open_file)
    ∷ ("core_parser_lexical.so", lexical)
    ∷ ("core_parser_semantic.so", semantic)
    ∷ ("core_vm.so", vm)
    ∷ ("core_errors.so", errors)
    ∷ ("core_parser_graph_print.so", graph_print)
    ∷ ("core_parser_graph_check.so", graph_check)
    ∷ ("core_scheduler.so", scheduler)
    ∷ ("core_find_node.so", find_node)
    ∷ ("core_start.so", start)
    ∷ []
