-- ===== src/Generator/Tests.antt =====
-- Two files of messages, and the names of their modules.
use fractalide.Prelude.{
  ◌≡◌, ◌≢◌, refl, String, true, false, Option, none, some, List, [], ◌∷◌, ◌==◌, string_eq, char?,
  if◌then◌else◌, arith,
}
use fractalide.Result.{panic}
use fractalide.Generator.{Item, SynItem, enum, struct, type_alias, other, main, modules}
use fractalide.Generator.ModuleName.{
  Unicode, to_module_name, name_loop, is_uppercase, to_lowercase, to_ascii_lower,
}
use fractalide.Generator.Names.{IsPlainName, to_module_name-apart}
use fractalide.Generator.Numbering.{messages, IsListed, main-IsListed}

-- No letter beyond ASCII is taken to be upper case.
abbrev unicode : Unicode
unicode = record { is_uppercase = λ c. false; to_lowercase = λ c. c ∷ [] }

core_graph : to_module_name unicode "CoreGraph" ≡ "core_graph"
unfolding to_module_name name_loop is_uppercase to_lowercase to_ascii_lower char?
core_graph = refl

abbrev public : String → Item
public name = record { ident = name; is_public = true; params = [] }

abbrev parse_file : String → Option (List SynItem)
parse_file s =
    if s == "graph"
    then some (
        struct (public "CoreGraph") ∷ other ∷ enum (record (public "T") { params = "A" ∷ [] }) ∷ [])
    else if s == "path"
    then some (
        type_alias (record (public "Hidden") { is_public = false })
        ∷ type_alias (public "FsPath")
        ∷ [])
    else none

abbrev read_file : String → Option String
read_file path =
    if path == "a.rs" then some "graph" else if path == "b.rs" then some "path" else none

abbrev args : List String
args = "CoreGraph" ∷ "a.rs" ∷ "FsPath" ∷ "b.rs" ∷ "left" ∷ []

args-messages :
    messages unicode parse_file read_file args
    ≡ some (("core_graph", "CoreGraph") ∷ ("fs_path", "FsPath") ∷ [])
unfolding to_module_name name_loop is_uppercase to_lowercase to_ascii_lower char?
args-messages = refl

main-IsListed_example :
    IsListed unicode parse_file read_file
      (messages unicode parse_file read_file args)
      (main unicode parse_file read_file ("generate" ∷ args))
main-IsListed_example = main-IsListed unicode parse_file read_file "generate" args

missing_file : (main unicode parse_file read_file ("generate" ∷ "X" ∷ "c.rs" ∷ [])).1 ≡ panic
unfolding main modules
missing_file = refl

abbrev graph_name : String
graph_name = "CoreGraph"

abbrev action_name : String
action_name = "CoreAction"

two_names : graph_name ≢ action_name
two_names h = ground (arith, (string_eq.beq_iff graph_name action_name).1 h)

core_graph-IsPlainName : IsPlainName graph_name
core_graph-IsPlainName = (refl, (refl, (refl, (refl, (refl, (refl, (refl, (refl, (refl, tt)))))))))

core_action-IsPlainName : IsPlainName action_name
core_action-IsPlainName =
    (refl, (refl, (refl, (refl, (refl, (refl, (refl, (refl, (refl, (refl, tt))))))))))

to_module_name-apart_example :
    to_module_name unicode graph_name ≢ to_module_name unicode action_name
unfolding is_uppercase
to_module_name-apart_example =
    to_module_name-apart unicode graph_name action_name core_graph-IsPlainName
      core_action-IsPlainName refl refl two_names
