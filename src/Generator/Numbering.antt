-- ===== src/Generator/Numbering.antt =====
-- Which types become messages, and with which numbers.
use mathlib.Core.List.{append-nil, append_assoc}
use fractalide.Prelude.{
  ℕ, suc, ◌+◌, ◌≡◌, refl, sym, ap, subst, ◌∙◌, String, Bool, true, false, Option, none, some, List,
  [], ◌∷◌, ◌++◌, ◌&&◌, length, length-append, if◌then◌else◌, arith,
}
use fractalide.Result.{Run, ok, panic}
use fractalide.Generator.{
  Item, SynItem, enum, struct, type_alias, union, other, EnumElement, is_empty, push_item,
  generate_item, generate_items, generate_edges, Out, println, println_lines, split_lines,
  edges_printed, modules, module_end, after_edges, on_file, msg_texts, enum_printed, main,
}
use fractalide.Generator.ModuleName.{Unicode, to_module_name}

-- A public type without parameters, and its module.
abbrev pub shown : String → Item → List (String × String) → List (String × String)
shown module_name i ts =
    if is_empty i.params && i.is_public then (module_name, i.ident) ∷ ts else ts

abbrev pub types_of : String → List SynItem → List (String × String)
types_of module_name [] = []
types_of module_name (enum i ∷ is) = shown module_name i (types_of module_name is)
types_of module_name (struct i ∷ is) = shown module_name i (types_of module_name is)
types_of module_name (type_alias i ∷ is) = shown module_name i (types_of module_name is)
types_of module_name (union i ∷ is) = shown module_name i (types_of module_name is)
types_of module_name (other ∷ is) = types_of module_name is

-- Numbers in order.
abbrev pub numbered : ℕ → List (String × String) → List EnumElement
numbered n [] = []
numbered n ((module_name, typ) ∷ ts) =
    record { n = n; module_name = module_name; typ = typ } ∷ numbered (suc n) ts

numbered-append :
    (n : ℕ) (ts us : List (String × String))
    → numbered n (ts ++ us) ≡ numbered n ts ++ numbered (n + length ts) us
numbered-append n [] us = ap (λ k. numbered k us) (omega arith)
numbered-append n (t ∷ ts) us =
    ap (λ l. record { n = n; module_name = t.0; typ = t.1 } ∷ l)
      (numbered-append (suc n) ts us ∙ ap (λ k. numbered (suc n) ts ++ numbered k us) (omega arith))

length-numbered : (n : ℕ) (ts : List (String × String)) → length (numbered n ts) ≡ length ts
length-numbered n [] = refl
length-numbered n (t ∷ ts) = ap suc (length-numbered (suc n) ts)

-- What a list of messages becomes when more are found.
abbrev grown : List EnumElement → List (String × String) → List EnumElement
grown es ts = es ++ numbered (length es) ts

grown-append :
    (es : List EnumElement) (ts us : List (String × String))
    → grown (grown es ts) us ≡ grown es (ts ++ us)
grown-append es ts us =
    append_assoc es (numbered (length es) ts) _
    ∙ ap (λ l. es ++ l)
        (ap (λ k. numbered (length es) ts ++ numbered k us)
            (omega
              (arith, length-append es (numbered (length es) ts), length-numbered (length es) ts))
          ∙ sym (numbered-append (length es) ts us))

push_item-grown :
    (module_name : String) (i : Item) (ts : List (String × String)) (es : List EnumElement)
    → grown (push_item module_name i es) ts ≡ grown es (shown module_name i ts)
unfolding push_item
push_item-grown m i ts es = at (is_empty i.params) i.is_public
  where
    at :
        (b c : Bool)
        → grown
            (if b
              then (if c
                  then es ++ record { n = length es; module_name = m; typ = i.ident } ∷ []
                  else es)
              else es)
            ts
          ≡ grown es (if b && c then (m, i.ident) ∷ ts else ts)
    at true true = grown-append es ((m, i.ident) ∷ []) ts
    at true false = refl
    at false c = refl

generate_items-grown :
    (module_name : String) (is : List SynItem) (es : List EnumElement)
    → generate_items module_name is es ≡ grown es (types_of module_name is)
unfolding generate_items generate_item
generate_items-grown m [] es = sym (append-nil es)
generate_items-grown m (enum i ∷ is) es =
    generate_items-grown m is (push_item m i es) ∙ push_item-grown m i (types_of m is) es
generate_items-grown m (struct i ∷ is) es =
    generate_items-grown m is (push_item m i es) ∙ push_item-grown m i (types_of m is) es
generate_items-grown m (type_alias i ∷ is) es =
    generate_items-grown m is (push_item m i es) ∙ push_item-grown m i (types_of m is) es
generate_items-grown m (union i ∷ is) es =
    generate_items-grown m is (push_item m i es) ∙ push_item-grown m i (types_of m is) es
generate_items-grown m (other ∷ is) es = generate_items-grown m is es

module _ (unicode : Unicode) (parse_file : String → Option (List SynItem))
    (read_file : String → Option String) where
  abbrev then_more :
      List (String × String) → Option (List (String × String)) → Option (List (String × String))
  then_more ts none = none
  then_more ts (some us) = some (ts ++ us)

  abbrev of_items :
      String
      → Option (List SynItem)
      → Option (List (String × String))
      → Option (List (String × String))
  of_items name none more = none
  of_items name (some is) more = then_more (types_of (to_module_name unicode name) is) more

  abbrev of_file :
      String → Option String → Option (List (String × String)) → Option (List (String × String))
  of_file name none more = none
  of_file name (some s) more = of_items name (parse_file s) more

  -- The messages of all files; `none` where one is missing or is not Rust.
  abbrev pub messages : List String → Option (List (String × String))
  messages [] = some []
  messages (name ∷ []) = some []
  messages (name ∷ path ∷ args) = of_file name (read_file path) (messages args)

  abbrev IsFound :
      List EnumElement → Option (List (String × String)) → Out × Run (Unit {0}) → Type 0
  IsFound es none (o, r) = r ≡ panic
  IsFound es (some ts) (o, r) = (r ≡ ok tt) × (o.elements ≡ grown es ts)

  more-IsFound :
      (es : List EnumElement) (ts : List (String × String)) (more : Option (List (String × String)))
      (x : Out × Run (Unit {0}))
      → IsFound (grown es ts) more x
      → IsFound es (then_more ts more) x
  more-IsFound es ts none x h = h
  more-IsFound es ts (some us) x h = (h.0, h.1 ∙ grown-append es ts us)

  module _ (name : String) (next : Out → Out × Run (Unit {0}))
      (more : Option (List (String × String)))
      (step : (o : Out) → IsFound o.elements more (next o)) where
    abbrev name_of : String
    name_of = to_module_name unicode name

    parsed-IsFound :
        (o o1 : Out) (p : Option (List SynItem))
        → IsFound o.elements (of_items name p more) (
            after_edges unicode parse_file read_file next
              (o1, elim p [ none ↦ panic | some is ↦ ok (generate_items name_of is o.elements) ]))
    parsed-IsFound o o1 none = refl
    parsed-IsFound o o1 (some is) =
        let es = generate_items name_of is o.elements in
        more-IsFound o.elements (types_of name_of is) more _ (
          subst (λ l. IsFound l more (next (module_end unicode parse_file read_file o1 es)))
            (generate_items-grown name_of is o.elements)
            (step (module_end unicode parse_file read_file o1 es)))

    on_file-IsFound :
        (o : Out) (f : Option String)
        → IsFound o.elements
            (of_file name f more)
            (on_file unicode parse_file read_file next o name f)
    unfolding edges_printed generate_edges
    on_file-IsFound o none = refl
    on_file-IsFound o (some s) = parsed-IsFound o (println_lines o (split_lines s)) (parse_file s)

  modules-IsFound :
      (args : List String) (o : Out)
      → IsFound o.elements (messages args) (modules unicode parse_file read_file args o)
  unfolding modules
  modules-IsFound [] o = (refl, sym (append-nil o.elements))
  modules-IsFound (name ∷ []) o = (refl, sym (append-nil o.elements))
  modules-IsFound (name ∷ path ∷ args) o =
      on_file-IsFound name (modules unicode parse_file read_file args) (messages args)
        (modules-IsFound args) (println o ("pub mod " ∷ to_module_name unicode name ∷ " {" ∷ []))
        (read_file path)

  -- What the tool is for: `none` where it panics.
  abbrev pub IsListed : Option (List (String × String)) → List String × Run (Unit {0}) → Type 0
  IsListed none (printed, r) = r ≡ panic
  IsListed (some ts) (printed, r) =
      (r ≡ ok tt) × ((mods : List String) × (printed ≡ mods ++ msg_texts (numbered 0 ts)))

  ended-IsListed :
      (more : Option (List (String × String))) (x : Out × Run (Unit {0}))
      → IsFound [] more x
      → IsListed more (enum_printed unicode parse_file read_file x.0 x.1)
  ended-IsListed none (o, r) h =
      subst (λ r. (enum_printed unicode parse_file read_file o r).1 ≡ panic) (sym h) refl
  ended-IsListed (some ts) (o, r) (h, found) =
      subst (λ r. IsListed (some ts) (enum_printed unicode parse_file read_file o r)) (sym h)
        (refl, (o.printed, ap (λ es. o.printed ++ msg_texts es) found))

  -- The generator panics where a file is missing or its text is not Rust. Where all can be read, it
  -- ends well, and what it prints ends with the type of messages and its conversions for exactly
  -- the public types without parameters (`enum`, `struct`, `type` and `union`), in the order of the
  -- arguments and of their files, each in the module that is named for its argument, with the
  -- numbers 0, 1, 2 and so on.
  pub main-IsListed :
      (program : String) (args : List String)
      → IsListed (messages args) (main unicode parse_file read_file (program ∷ args))
  unfolding main
  main-IsListed program args =
      ended-IsListed (messages args) _
        (modules-IsFound args (record { printed = []; elements = [] }))
