-- ===== src/Lexical/Progress.antt =====
-- Each token takes a byte of its line at least, so that the line comes to an end.
use fractalide.Prelude.{
  ℕ, zero, suc, ◌<◌, ◌≡◌, refl, ◌∙◌, String, some, List, [], ◌∷◌, length, as_bytes, from_utf8,
  arith,
}
use fractalide.Edges.CoreLexical.{CoreLexicalToken}
use fractalide.Lexical.{
  comment, bind, external, imsg, name, selection, comp, port, comp_or_port, literal, line_loop,
  line_tokens,
}
use fractalide.Lexical.Combinators.{
  Nom, IsNom, Bytes, Parser, IResult, done, error, incomplete, Keeps, Eats,
}

module _ (n : Nom) (v : IsNom n) where
  open n use {
    multispace, tag, is_not, take_until, take_until1, many0, opt, complete, alt, ws, map_res, chain,
    value,
  }
  open v use {
    multispace_keeps, tag_eats, is_not_eats, take_until_keeps, take_until1_keeps, many0_keeps,
    opt_keeps, complete_keeps, complete_eats, alt_eats, ws_eats, map_res_keeps, map_res_eats,
    chain_keeps, chain_eats_first, chain_eats_then, value_keeps,
  }

  Eats-Keeps : {A : Type 0} (p : Parser A) → Eats p → Keeps p
  Eats-Keeps p e i rest a h = omega (arith, e i rest a h)

  spaces-Keeps : Keeps (many0 multispace)
  spaces-Keeps = many0_keeps multispace multispace_keeps

  -- The value at the end of a chain takes nothing.
  one_byte : 0 < 1
  one_byte = omega arith

  two_bytes : 0 < 2
  two_bytes = omega arith

  then_value-Keeps :
      {A B : Type 0} (p : Parser A) (b : B) → Keeps p → Keeps (chain p (λ _. value b))
  then_value-Keeps p b k = chain_keeps p _ k (λ _. value_keeps b)

  text-Keeps : (p : Parser Bytes) → Keeps p → Keeps (map_res p from_utf8)
  text-Keeps p k = map_res_keeps p from_utf8 k

  tag_then-Eats :
      {B : Type 0} (t : Bytes) (q : Parser B)
      → 0 < length t
      → Keeps q
      → Eats (chain (tag t) (λ _. q))
  tag_then-Eats t q long k = chain_eats_first (tag t) _ (tag_eats t long) (λ _. k)

  tag-Keeps :
      {B : Type 0} (t : Bytes) (q : Parser B)
      → 0 < length t
      → Keeps q
      → Keeps (chain (tag t) (λ _. q))
  tag-Keeps t q long k = Eats-Keeps _ (tag_then-Eats t q long k)

  comment-Eats : Eats (comment n)
  unfolding comment as_bytes
  comment-Eats = chain_eats_then (many0 multispace) _ spaces-Keeps λ _.
      tag_then-Eats (as_bytes "//") _ two_bytes
        (then_value-Keeps _ CoreLexicalToken.comment (Eats-Keeps _ (is_not_eats (as_bytes "\n"))))

  bind-Eats : Eats (bind n)
  unfolding bind as_bytes
  bind-Eats =
      chain_eats_first _ _ (ws_eats _ (tag_eats (as_bytes "->") two_bytes)) (λ _. value_keeps _)

  external-Eats : Eats (external n)
  unfolding external as_bytes
  external-Eats =
      chain_eats_first _ _ (ws_eats _ (tag_eats (as_bytes "=>") two_bytes)) (λ _. value_keeps _)

  imsg-Eats : Eats (imsg n)
  unfolding imsg as_bytes
  imsg-Eats = chain_eats_then (many0 multispace) _ spaces-Keeps λ _.
      tag_then-Eats (as_bytes "'") _ one_byte (
        chain_keeps _ _ (text-Keeps _ (take_until_keeps (as_bytes "'"))) λ msg.
          tag-Keeps (as_bytes "'") _ one_byte
            (then_value-Keeps _ (CoreLexicalToken.imsg msg) spaces-Keeps))

  name-Eats : Eats (name n)
  unfolding name
  name-Eats = map_res_eats _ from_utf8 (is_not_eats (as_bytes " [("))

  selection-Keeps : Keeps (selection n)
  unfolding selection as_bytes
  selection-Keeps = chain_keeps (many0 multispace) _ spaces-Keeps λ _.
      tag-Keeps (as_bytes "[") _ one_byte (
        chain_keeps _ _ (text-Keeps _ (take_until_keeps (as_bytes "]")))
          λ s. tag-Keeps (as_bytes "]") _ one_byte (then_value-Keeps _ s spaces-Keeps))

  comp-Eats : Eats (comp n)
  unfolding comp as_bytes
  comp-Eats = chain_eats_then (many0 multispace) _ spaces-Keeps λ _.
      chain_eats_first _ _ name-Eats λ name. tag-Keeps (as_bytes "(") _ one_byte (
        chain_keeps (many0 multispace) _ spaces-Keeps λ _. chain_keeps _ _ sort_keeps λ sort.
          tag-Keeps (as_bytes ")") _ one_byte (value_keeps (CoreLexicalToken.comp name sort)))
    where
      sort_keeps :
          Keeps (opt (complete (map_res (map_res (take_until1 (as_bytes ")")) from_utf8) some)))
      sort_keeps = opt_keeps _ (
          complete_keeps _ (map_res_keeps _ some (text-Keeps _ (take_until1_keeps (as_bytes ")")))))

  port-Eats : Eats (port n)
  unfolding port
  port-Eats = chain_eats_then (many0 multispace) _ spaces-Keeps λ _.
      chain_eats_first _ _ name-Eats λ name.
        chain_keeps _ _ (opt_keeps _ (complete_keeps _ selection-Keeps))
          λ s. then_value-Keeps _ (CoreLexicalToken.port name s) spaces-Keeps

  literal-Eats : Eats (literal n)
  unfolding literal comp_or_port
  literal-Eats = alt_eats _ _ comment-Eats (
      alt_eats _ _ imsg-Eats (
        alt_eats _ _ bind-Eats
          (alt_eats _ _ external-Eats (alt_eats _ _ (complete_eats _ comp-Eats) port-Eats))))

  -- Of an empty line there is no token: the parser of comments waits for more.
  literal-waits : literal n [] ≡ incomplete
  unfolding literal comment as_bytes
  literal-waits = v.alt_waits (comment n) _ [] (
      v.chain_done (many0 multispace) _ [] [] [] (v.many0_ends multispace)
      ∙ v.chain_waits (tag (as_bytes "//")) _ [] (v.tag_waits (as_bytes "//") two_bytes))

  literal-shorter :
      (line rest : Bytes) (lit : CoreLexicalToken)
      → literal n line ≡ done rest lit
      → length rest < length line
  literal-shorter [] rest lit e = absurd (cc (e, literal-waits))
  literal-shorter (b ∷ line) rest lit e = omega (arith, literal-Eats (b ∷ line) rest lit e)

  line_loop-ends :
      (fuel : ℕ) (line : Bytes)
      → length line < fuel
      → (ts : List CoreLexicalToken) × (line_loop n fuel line ≡ some ts)
  unfolding line_loop
  line_loop-ends zero line h = absurd (omega (arith, h))
  line_loop-ends (suc fuel) line h =
      after (literal n line) refl
        λ rest shorter. line_loop-ends fuel rest (omega (arith, shorter, h))
    where
      after :
          (r : IResult CoreLexicalToken)
          → literal n line ≡ r
          → ((rest : Bytes)
              → length rest < length line
              → (ts : List CoreLexicalToken) × (line_loop n fuel rest ≡ some ts))
          → (ts : List CoreLexicalToken) × (line_loop n (suc fuel) line ≡ some ts)
      after (done rest lit) e next =
          let (ts, more) = next rest (literal-shorter line rest lit e) in
          (lit ∷ ts, rw e (rw more refl))
      after error e next = ([], rw e refl)
      after incomplete e next = ([], rw e refl)

  -- With parsers that keep the laws of nom, the loop over a line comes to an end, whatever the line is: one step
  -- more than its bytes is enough.
  pub line_ends : (line : String) → (ts : List CoreLexicalToken) × (line_tokens n line ≡ some ts)
  unfolding line_tokens
  line_ends line = line_loop-ends (suc (length (as_bytes line))) (as_bytes line) (omega arith)
