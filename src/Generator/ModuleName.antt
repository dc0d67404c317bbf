-- ===== src/Generator/ModuleName.antt =====
-- modules/rs/generate-msg/src/main.rs, `to_module_name`: the name of a module of messages.
use Prim.Native.Char.{Char, code}
use Prim.Native.String.{[] as nil, ◌∷◌ as cons}
use fractalide.Prelude.{
  ◌+◌, String, Bool, true, false, none, some, List, [], ◌∷◌, ltb, ◌&&◌, nat_eq, if◌then◌else◌,
  char?,
}

-- What `char::is_uppercase` and `char::to_lowercase` say beyond ASCII.
pub record Unicode : Type 0 where
  pub is_uppercase : Char → Bool
  pub to_lowercase : Char → List Char

abbrev pub is_ascii : Char → Bool
is_ascii c = ltb (code c) 128

unfoldable pub to_ascii_lower : Char → Char
unfolding char?
to_ascii_lower c = elim (char? (code c + 32)) [ none ↦ c | some d ↦ d ]

-- `out.extend(…)`
abbrev pub extend : List Char → String → String
extend [] s = s
extend (c ∷ cs) s = cons c (extend cs s)

abbrev pub separated : Bool → String → String
separated is_first s = if is_first then s else cons "_" s

module _ (unicode : Unicode) where
  unfoldable pub is_uppercase : Char → Bool
  is_uppercase c = if is_ascii c then ltb 64 (code c) && ltb (code c) 91 else unicode.is_uppercase c

  unfoldable pub to_lowercase : Char → List Char
  unfolding is_uppercase to_ascii_lower
  to_lowercase c =
      if is_ascii c
      then (if is_uppercase c then to_ascii_lower c ∷ [] else c ∷ [])
      else unicode.to_lowercase c

  -- The rest of the name with one character before it.
  abbrev pub pushed : Bool → Char → String → String
  pushed is_first c rest =
      if is_uppercase c then separated is_first (extend (to_lowercase c) rest) else cons c rest

  unfoldable pub name_loop : Bool → String → String
  unfolding is_uppercase to_lowercase
  name_loop is_first nil = nil
  name_loop is_first (cons c s) = pushed is_first c (name_loop false s)

  unfoldable pub to_module_name : String → String
  unfolding name_loop
  to_module_name s = name_loop true s
