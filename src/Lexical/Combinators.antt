-- ===== src/Lexical/Combinators.antt =====
-- The crate `nom`, of which the lexer's parsers are built: its macros as the operations of a record, and
-- what is used of them.
use fractalide.Prelude.{
  ℕ, ◌-◌, ◌<◌, ◌≤◌, ◌≡◌, Bool, true, false, not, Option, none, some, List, [], ◌∷◌, ◌++◌, ◌==◌,
  ◌&&◌, ◌||◌, nat_eq, length,
}

-- `IResult`, with the rest of the input
pub data IResult (A : Type 0) : Type 0 where
  done : List ℕ → A → IResult A
  error incomplete : IResult A

abbrev pub Bytes : Type 0
Bytes = List ℕ

abbrev pub Parser : Type 0 → Type 0
Parser A = Bytes → IResult A

-- `do_parse!` is a chain of `chain`, with `value` at its end.
pub record Nom : Type 1 where
  pub multispace : Parser Bytes
  pub tag : Bytes → Parser Bytes
  pub is_not : Bytes → Parser Bytes
  pub take_until : Bytes → Parser Bytes
  pub take_until1 : Bytes → Parser Bytes
  pub many0 : {A : Type 0} → Parser A → Parser (List A)
  pub opt : {A : Type 0} → Parser A → Parser (Option A)
  pub complete : {A : Type 0} → Parser A → Parser A
  pub alt : {A : Type 0} → Parser A → Parser A → Parser A
  pub ws : {A : Type 0} → Parser A → Parser A
  pub map_res : {A B : Type 0} → Parser A → (A → Option B) → Parser B
  pub chain : {A B : Type 0} → Parser A → (A → Parser B) → Parser B
  pub value : {A : Type 0} → A → Parser A

-- A parser that never gives back more than it is given, and one that takes something of an input that
-- is not empty.
abbrev pub Keeps : {A : Type 0} → Parser A → Type 0
Keeps {A} p = (i rest : Bytes) (a : A) → p i ≡ done rest a → length rest ≤ length i

abbrev pub Eats : {A : Type 0} → Parser A → Type 0
Eats {A} p = (i rest : Bytes) (a : A) → p i ≡ done rest a → length rest ≤ length i - 1

-- What the lexer's end rests on. `is_not!` takes a byte of an input that is not empty, and none of an
-- empty one, where it is done too; `tag!` takes its tag, and an input that ends before is incomplete;
-- the other macros take what the parsers in them take. `many0!` is done with an empty input,
-- `do_parse!` and `alt!` pass on what is incomplete.
pub record IsNom (n : Nom) : Type 1 where
  pub multispace_keeps : Keeps n.multispace
  pub tag_eats : (t : Bytes) → 0 < length t → Eats (n.tag t)
  pub is_not_eats : (t : Bytes) → Eats (n.is_not t)
  pub take_until_keeps : (t : Bytes) → Keeps (n.take_until t)
  pub take_until1_keeps : (t : Bytes) → Keeps (n.take_until1 t)
  pub many0_keeps : {A : Type 0} (p : Parser A) → Keeps p → Keeps (n.many0 p)
  pub opt_keeps : {A : Type 0} (p : Parser A) → Keeps p → Keeps (n.opt p)
  pub complete_keeps : {A : Type 0} (p : Parser A) → Keeps p → Keeps (n.complete p)
  pub complete_eats : {A : Type 0} (p : Parser A) → Eats p → Eats (n.complete p)
  pub alt_eats : {A : Type 0} (p q : Parser A) → Eats p → Eats q → Eats (n.alt p q)
  pub ws_eats : {A : Type 0} (p : Parser A) → Eats p → Eats (n.ws p)
  pub map_res_keeps :
      {A B : Type 0} (p : Parser A) (f : A → Option B) → Keeps p → Keeps (n.map_res p f)
  pub map_res_eats :
      {A B : Type 0} (p : Parser A) (f : A → Option B) → Eats p → Eats (n.map_res p f)
  pub chain_keeps :
      {A B : Type 0} (p : Parser A) (f : A → Parser B)
      → Keeps p
      → ((a : A) → Keeps (f a))
      → Keeps (n.chain p f)
  pub chain_eats_first :
      {A B : Type 0} (p : Parser A) (f : A → Parser B)
      → Eats p
      → ((a : A) → Keeps (f a))
      → Eats (n.chain p f)
  pub chain_eats_then :
      {A B : Type 0} (p : Parser A) (f : A → Parser B)
      → Keeps p
      → ((a : A) → Eats (f a))
      → Eats (n.chain p f)
  pub value_keeps : {A : Type 0} (a : A) → Keeps (n.value a)
  pub tag_waits : (t : Bytes) → 0 < length t → n.tag t [] ≡ incomplete
  pub many0_ends : {A : Type 0} (p : Parser A) → n.many0 p [] ≡ done [] []
  pub chain_done :
      {A B : Type 0} (p : Parser A) (f : A → Parser B) (i rest : Bytes) (a : A)
      → p i ≡ done rest a
      → n.chain p f i ≡ f a rest
  pub chain_waits :
      {A B : Type 0} (p : Parser A) (f : A → Parser B) (i : Bytes)
      → p i ≡ incomplete
      → n.chain p f i ≡ incomplete
  pub alt_waits :
      {A : Type 0} (p q : Parser A) (i : Bytes) → p i ≡ incomplete → n.alt p q i ≡ incomplete

-- Bytes and spaces in an input.
abbrev pub is_space : ℕ → Bool
is_space b = b == 32 || b == 9 || b == 10 || b == 13

abbrev pub has : Bytes → ℕ → Bool
has [] b = false
has (t ∷ ts) b = t == b || has ts b

-- None of its bytes is one of `t`.
abbrev pub free : Bytes → Bytes → Bool
free t [] = true
free t (b ∷ i) = not (has t b) && free t i

-- It does not begin with a space.
abbrev pub visible : Bytes → Bool
visible [] = true
visible (b ∷ i) = not (is_space b)

-- A space, or none, in front.
abbrev pub lead : Bool → Bytes → Bytes
lead false i = i
lead true i = 32 ∷ i

-- What the macros come to, as the crate documents it: `tag!` is done with its tag and fails at another first
-- byte, `is_not!`, `take_until!` and `take_until1!` take what stands before a byte, `take_until1!` one byte at
-- least, `many0!(multispace)` and `ws!` take spaces, and the others pass on what the parsers in them come to.
pub record IsDone (n : Nom) : Type 1 where
  pub tag_done : (t rest : Bytes) → n.tag t (t ++ rest) ≡ done rest t
  pub tag_fails : (a b : ℕ) (t rest : Bytes) → (a == b) ≡ false → n.tag (a ∷ t) (b ∷ rest) ≡ error
  pub is_not_done :
      (t taken rest : Bytes) (b : ℕ)
      → 0 < length taken
      → free t taken ≡ true
      → has t b ≡ true
      → n.is_not t (taken ++ b ∷ rest) ≡ done (b ∷ rest) taken
  pub take_until_done :
      (b : ℕ) (taken rest : Bytes)
      → free (b ∷ []) taken ≡ true
      → n.take_until (b ∷ []) (taken ++ b ∷ rest) ≡ done (b ∷ rest) taken
  pub take_until1_done :
      (b : ℕ) (taken rest : Bytes)
      → 0 < length taken
      → free (b ∷ []) taken ≡ true
      → n.take_until1 (b ∷ []) (taken ++ b ∷ rest) ≡ done (b ∷ rest) taken
  pub take_until1_fails : (b c : ℕ) (rest : Bytes) → n.take_until1 (b ∷ []) (b ∷ c ∷ rest) ≡ error
  pub spaces_done :
      (s : Bool) (i : Bytes)
      → visible i ≡ true
      → (l : List Bytes) × (n.many0 n.multispace (lead s i) ≡ done i l)
  pub ws_done :
      {A : Type 0} (p : Parser A) (s : Bool) (i rest : Bytes) (a : A)
      → visible i ≡ true
      → visible rest ≡ true
      → p i ≡ done (32 ∷ rest) a
      → n.ws p (lead s i) ≡ done rest a
  pub ws_fails :
      {A : Type 0} (p : Parser A) (s : Bool) (i : Bytes)
      → visible i ≡ true
      → p i ≡ error
      → n.ws p (lead s i) ≡ error
  pub chain_fails :
      {A B : Type 0} (p : Parser A) (f : A → Parser B) (i : Bytes)
      → p i ≡ error
      → n.chain p f i ≡ error
  pub alt_done :
      {A : Type 0} (p q : Parser A) (i rest : Bytes) (a : A)
      → p i ≡ done rest a
      → n.alt p q i ≡ done rest a
  pub alt_next : {A : Type 0} (p q : Parser A) (i : Bytes) → p i ≡ error → n.alt p q i ≡ q i
  pub complete_done :
      {A : Type 0} (p : Parser A) (i rest : Bytes) (a : A)
      → p i ≡ done rest a
      → n.complete p i ≡ done rest a
  pub complete_fails :
      {A : Type 0} (p : Parser A) (i : Bytes) → p i ≡ error → n.complete p i ≡ error
  pub complete_waits :
      {A : Type 0} (p : Parser A) (i : Bytes) → p i ≡ incomplete → n.complete p i ≡ error
  pub opt_done :
      {A : Type 0} (p : Parser A) (i rest : Bytes) (a : A)
      → p i ≡ done rest a
      → n.opt p i ≡ done rest (some a)
  pub opt_fails : {A : Type 0} (p : Parser A) (i : Bytes) → p i ≡ error → n.opt p i ≡ done i none
  pub map_res_done :
      {A B : Type 0} (p : Parser A) (f : A → Option B) (i rest : Bytes) (a : A) (b : B)
      → p i ≡ done rest a
      → f a ≡ some b
      → n.map_res p f i ≡ done rest b
  pub map_res_fails :
      {A B : Type 0} (p : Parser A) (f : A → Option B) (i : Bytes)
      → p i ≡ error
      → n.map_res p f i ≡ error
  pub value_done : {A : Type 0} (a : A) (i : Bytes) → n.value a i ≡ done i a
