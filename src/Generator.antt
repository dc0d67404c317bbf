-- ===== src/Generator.antt =====
-- modules/rs/generate-msg/src/main.rs: the module of all messages, from the files of the edges.
pub mod ModuleName
pub mod Names
pub mod Numbering
mod Tests
use Prim.Native.Char.{Char, code}
use Prim.Native.String.{[] as nil, ◌∷◌ as cons}
use fractalide.Prelude.{
  ℕ, ◌+◌, String, Bool, true, false, not, Option, none, some, List, [], ◌∷◌, ◌++◌, map, length, ltb,
  ◌&&◌, ◌==◌, nat_eq, if◌then◌else◌, format, decimal, char?,
}
use fractalide.Result.{Run, ok, err, panic, blocked}
use ModuleName.{Unicode, to_module_name}

-- What the parser of `syn` tells of an item.
pub record Item : Type 0 where
  pub ident : String
  pub is_public : Bool
  pub params : List String

pub data SynItem : Type 0 where
  enum : Item → SynItem
  struct : Item → SynItem
  type_alias : Item → SynItem
  union : Item → SynItem
  other : SynItem

-- The number, the module and the name of a type of message.
pub record EnumElement : Type 0 where
  pub n : ℕ
  pub module_name : String
  pub typ : String

abbrev pub is_empty : List String → Bool
is_empty [] = true
is_empty (p ∷ ps) = false

unfoldable pub push_item : String → Item → List EnumElement → List EnumElement
push_item module_name i es =
    if is_empty i.params
    then (if i.is_public
        then es ++ record { n = length es; module_name = module_name; typ = i.ident } ∷ []
        else es)
    else es

unfoldable pub generate_item : String → SynItem → List EnumElement → List EnumElement
unfolding push_item
generate_item module_name (enum i) es = push_item module_name i es
generate_item module_name (struct i) es = push_item module_name i es
generate_item module_name (type_alias i) es = push_item module_name i es
generate_item module_name (union i) es = push_item module_name i es
generate_item module_name other es = es

unfoldable pub generate_items : String → List SynItem → List EnumElement → List EnumElement
unfolding generate_item
generate_items module_name [] es = es
generate_items module_name (i ∷ is) es =
    generate_items module_name is (generate_item module_name i es)

-- `syn::parse_file(input).unwrap()`
unfoldable pub generate_edges :
    (String → Option (List SynItem)) → String → String → List EnumElement → Run (List EnumElement)
unfolding generate_items
generate_edges parse_file module_name input es = elim (parse_file input) [
  | none ↦ panic
  | some is ↦ ok (generate_items module_name is es)
]

-- What has been printed, and the messages that have been found.
pub record Out : Type 0 where
  pub printed : List String
  pub elements : List EnumElement

abbrev pub println : Out → List String → Out
println o text = record o { printed = o.printed ++ format text ∷ [] }

-- `for l in s.lines()`: a line ends at a line feed, and loses a carriage return at its end.
unfoldable pub push_front : Char → List String → List String
push_front c [] = cons c nil ∷ []
push_front c (l ∷ ls) = cons c l ∷ ls

unfoldable pub split_lines : String → List String
unfolding push_front
split_lines nil = []
split_lines (cons c s) =
    let rest = split_lines s in if code c == 10 then nil ∷ rest else push_front c rest

unfoldable pub strip_cr : String → String
strip_cr nil = nil
strip_cr (cons c nil) = if code c == 13 then nil else cons c nil
strip_cr (cons c (cons d s)) = cons c (strip_cr (cons d s))

unfoldable pub println_lines : Out → List String → Out
unfolding strip_cr
println_lines o [] = o
println_lines o (l ∷ ls) = println_lines (println o ("  " ∷ strip_cr l ∷ [])) ls

abbrev pub variant : EnumElement → String
variant e = format ("  Msg" ∷ decimal e.n ∷ "(" ∷ e.module_name ∷ "::" ∷ e.typ ∷ ")," ∷ [])

abbrev pub debug_arm : EnumElement → String
debug_arm e =
    format
      ("      Msg::Msg" ∷ decimal e.n ∷ "(_) => \"" ∷ e.module_name ∷ "::" ∷ e.typ ∷ "\"," ∷ [])

-- `impl From<Msg> for` the type, and the way back.
abbrev pub from_msg : EnumElement → String
from_msg e = format (
    "impl From<Msg> for "
    ∷ e.module_name
    ∷ "::"
    ∷ e.typ
    ∷ " {\n  fn from(t: Msg) -> "
    ∷ e.module_name
    ∷ "::"
    ∷ e.typ
    ∷ " {\n    match t {\n      Msg::Msg"
    ∷ decimal e.n
    ∷ "(x) => x,\n      _ => panic!(\"expected type "
    ∷ e.module_name
    ∷ "::"
    ∷ e.typ
    ∷ ", received {} in crate {:?}\", t.debug(), env!(\"CARGO_PKG_NAME\"))\n    }\n  }\n}"
    ∷ [])

abbrev pub into_msg : EnumElement → String
into_msg e = format (
    "impl From<"
    ∷ e.module_name
    ∷ "::"
    ∷ e.typ
    ∷ "> for Msg {\n  fn from(t: "
    ∷ e.module_name
    ∷ "::"
    ∷ e.typ
    ∷ ") -> Msg {\n    Msg::Msg"
    ∷ decimal e.n
    ∷ "(t)\n  }\n}"
    ∷ [])

unfoldable pub conversions : List EnumElement → List String
conversions [] = []
conversions (e ∷ es) = from_msg e ∷ into_msg e ∷ conversions es

-- What is printed behind the modules.
unfoldable pub msg_texts : List EnumElement → List String
unfolding conversions
msg_texts es =
    "pub enum Msg {" ∷ map variant es
    ++ "}" ∷ "impl Msg {\n  fn debug(&self) -> &str {\n    match *self {" ∷ map debug_arm es
    ++ "    }\n  }\n}" ∷ conversions es

module _ (unicode : Unicode) (parse_file : String → Option (List SynItem))
    (read_file : String → Option String) where
  -- The module of one file, once its text has been read.
  unfoldable pub edges_printed : Out → String → String → Out × Run (List EnumElement)
  unfolding generate_edges println_lines split_lines
  edges_printed o module_name s = (
    println_lines o (split_lines s),
    generate_edges parse_file (to_module_name unicode module_name) s o.elements,
  )

  abbrev pub module_end : Out → List EnumElement → Out
  module_end o es = println (record o { elements = es }) ("}" ∷ [])

  -- `generate_edges` panics, or the next two arguments are read.
  abbrev pub after_edges :
      (Out → Out × Run (Unit {0})) → Out × Run (List EnumElement) → Out × Run (Unit {0})
  after_edges next (o, ok es) = next (module_end o es)
  after_edges next (o, err e) = (o, panic)
  after_edges next (o, panic) = (o, panic)
  after_edges next (o, blocked) = (o, blocked)

  -- `File::open(path).unwrap()` and `f.read_to_string(&mut s).unwrap()`
  abbrev pub on_file :
      (Out → Out × Run (Unit {0})) → Out → String → Option String → Out × Run (Unit {0})
  on_file next o module_name none = (o, panic)
  on_file next o module_name (some s) = after_edges next (edges_printed o module_name s)

  -- The arguments by twos; a last one without a file is passed over.
  unfoldable pub modules : List String → Out → Out × Run (Unit {0})
  unfolding edges_printed
  modules [] o = (o, ok tt)
  modules (module_name ∷ []) o = (o, ok tt)
  modules (module_name ∷ path ∷ args) o =
      on_file (modules args)
        (println o ("pub mod " ∷ to_module_name unicode module_name ∷ " {" ∷ [])) module_name
        (read_file path)

  abbrev pub enum_printed : Out → Run (Unit {0}) → List String × Run (Unit {0})
  enum_printed o (ok u) = (o.printed ++ msg_texts o.elements, ok u)
  enum_printed o r = (o.printed, r)

  abbrev pub skip_program : List String → List String
  skip_program [] = []
  skip_program (program ∷ args) = args

  -- What is printed, and how it ends.
  unfoldable pub main : List String → List String × Run (Unit {0})
  unfolding modules msg_texts
  main args =
      let (o, r) = modules (skip_program args) (record { printed = []; elements = [] }) in
      enum_printed o r
