-- ===== src/Lexical/Words.antt =====
-- The text that stands for a token, and what the parsers of nodes/fvm/rs/parser/lexical/lib.rs make of it.
use fractalide.Prelude.{
  ℕ, ◌<◌, ◌≡◌, refl, ◌∙◌, Bool, true, false, not, String, none, some, [], ◌∷◌, ◌++◌, ◌==◌, ◌&&◌,
  nat_eq, length, as_bytes, from_utf8,
}
use fractalide.Edges.CoreLexical.{CoreLexicalToken}
use fractalide.Lexical.{comment, bind, external, imsg}
use fractalide.Lexical.Combinators.{
  Nom, IsNom, IsDone, Bytes, Parser, done, error, is_space, has, free, visible, lead,
}

-- `name(sort)`, `name[elem]`, `'text'` and the arrows, in front of what follows. A comment and a break are
-- not written.
abbrev pub write : CoreLexicalToken → Bytes → Bytes
write CoreLexicalToken.bind k = 45 ∷ 62 ∷ k
write CoreLexicalToken.external k = 61 ∷ 62 ∷ k
write CoreLexicalToken.comment k = k
write (CoreLexicalToken.comp s none) k = as_bytes s ++ 40 ∷ 41 ∷ k
write (CoreLexicalToken.comp s (some sort)) k = as_bytes s ++ 40 ∷ (as_bytes sort ++ 41 ∷ k)
write (CoreLexicalToken.port s none) k = as_bytes s ++ k
write (CoreLexicalToken.port s (some elem)) k = as_bytes s ++ 91 ∷ (as_bytes elem ++ 93 ∷ k)
write (CoreLexicalToken.imsg text) k = 39 ∷ as_bytes text ++ 39 ∷ k
write CoreLexicalToken.break k = k

-- A text of some bytes, none of which is `b`.
abbrev pub IsText : ℕ → String → Type 0
IsText b s = (free (b ∷ []) (as_bytes s) ≡ true) × (from_utf8 (as_bytes s) ≡ some s)

abbrev pub begins_name : Bytes → Bool
begins_name [] = false
begins_name (b ∷ i) = not (is_space b) && not (has (47 ∷ 39 ∷ 45 ∷ 61 ∷ []) b)

-- A name has no space, `[` or `(`, and begins like none of the other tokens.
abbrev pub IsName : String → Type 0
IsName s =
    (begins_name (as_bytes s) ≡ true)
    × (free (32 ∷ 91 ∷ 40 ∷ []) (as_bytes s) ≡ true)
    × (from_utf8 (as_bytes s) ≡ some s)

-- A sort is some text without spaces in front and without `)`.
abbrev pub IsSort : String → Type 0
IsSort s = (0 < length (as_bytes s)) × (visible (as_bytes s) ≡ true) × IsText 41 s

abbrev pub IsWord : CoreLexicalToken → Type 0
IsWord CoreLexicalToken.bind = Unit
IsWord CoreLexicalToken.external = Unit
IsWord CoreLexicalToken.comment = ⊥
IsWord (CoreLexicalToken.comp s none) = IsName s
IsWord (CoreLexicalToken.comp s (some sort)) = IsName s × IsSort sort
IsWord (CoreLexicalToken.port s none) = IsName s
IsWord (CoreLexicalToken.port s (some elem)) = IsName s × IsText 93 elem
IsWord (CoreLexicalToken.imsg text) = IsText 39 text
IsWord CoreLexicalToken.break = ⊥

-- What a port takes of the rest of a line is only its space.
abbrev pub goes_on : Bytes → Bool
goes_on [] = true
goes_on (b ∷ i) = not (is_space b) && not (91 == b)

-- `name(sort)` leaves the space behind it.
abbrev pub leaves : CoreLexicalToken → Bool
leaves (CoreLexicalToken.comp _ _) = true
leaves _ = false

module _ (n : Nom) (v : IsNom n) (d : IsDone n) where
  open n use {
    multispace, tag, is_not, take_until, take_until1, many0, opt, complete, alt, ws, map_res, chain,
    value,
  }
  open d use {spaces_done, chain_fails, tag_fails, tag_done}

  -- A parser behind spaces.
  module _ {A : Type 0} (q : Parser A) (s : Bool) (i : Bytes) (see : visible i ≡ true) where
    pub spaced : chain (many0 multispace) (λ _. q) (lead s i) ≡ q i
    spaced = let (l, e) = spaces_done s i see in v.chain_done (many0 multispace) _ (lead s i) i l e

  pub tag_then :
      {A : Type 0} (t : Bytes) (q : Parser A) (rest : Bytes)
      → chain (tag t) (λ _. q) (t ++ rest) ≡ q rest
  tag_then t q rest = v.chain_done (tag t) _ (t ++ rest) rest t (tag_done t rest)

  pub not_tag_then :
      {A : Type 0} (a b : ℕ) (t : Bytes) (q : Parser A) (rest : Bytes)
      → (a == b) ≡ false
      → chain (tag (a ∷ t)) (λ _. q) (b ∷ rest) ≡ error
  not_tag_then a b t q rest h = chain_fails (tag (a ∷ t)) _ (b ∷ rest) (tag_fails a b t rest h)

  -- Which parsers fail at the first byte of a word.
  module _ (s : Bool) (b : ℕ) (x : Bytes) (see : not (is_space b) ≡ true) where
    pub comment-fails : (47 == b) ≡ false → comment n (lead s (b ∷ x)) ≡ error
    unfolding comment as_bytes
    comment-fails h =
        spaced (chain (tag (47 ∷ 47 ∷ [])) _) s (b ∷ x) see ∙ not_tag_then 47 b (47 ∷ []) _ x h

    pub imsg-fails : (39 == b) ≡ false → imsg n (lead s (b ∷ x)) ≡ error
    unfolding imsg as_bytes
    imsg-fails h = spaced (chain (tag (39 ∷ [])) _) s (b ∷ x) see ∙ not_tag_then 39 b [] _ x h

    pub bind-fails : (45 == b) ≡ false → bind n (lead s (b ∷ x)) ≡ error
    unfolding bind as_bytes
    bind-fails h =
        chain_fails _ _ _
          (d.ws_fails (tag (45 ∷ 62 ∷ [])) s (b ∷ x) see (tag_fails 45 b (62 ∷ []) x h))

    pub external-fails : (61 == b) ≡ false → external n (lead s (b ∷ x)) ≡ error
    unfolding external as_bytes
    external-fails h =
        chain_fails _ _ _
          (d.ws_fails (tag (61 ∷ 62 ∷ [])) s (b ∷ x) see (tag_fails 61 b (62 ∷ []) x h))

  module _ (s : Bool) (rest : Bytes) (on : visible rest ≡ true) where
    pub bind-done : bind n (lead s (45 ∷ 62 ∷ 32 ∷ rest)) ≡ done rest CoreLexicalToken.bind
    unfolding bind as_bytes
    bind-done =
        v.chain_done _ _ _ rest (45 ∷ 62 ∷ []) (
          d.ws_done (tag (45 ∷ 62 ∷ [])) s (45 ∷ 62 ∷ 32 ∷ rest) rest (45 ∷ 62 ∷ []) refl on
            (tag_done (45 ∷ 62 ∷ []) (32 ∷ rest)))
        ∙ d.value_done _ rest

    pub external-done :
        external n (lead s (61 ∷ 62 ∷ 32 ∷ rest)) ≡ done rest CoreLexicalToken.external
    unfolding external as_bytes
    external-done =
        v.chain_done _ _ _ rest (61 ∷ 62 ∷ []) (
          d.ws_done (tag (61 ∷ 62 ∷ [])) s (61 ∷ 62 ∷ 32 ∷ rest) rest (61 ∷ 62 ∷ []) refl on
            (tag_done (61 ∷ 62 ∷ []) (32 ∷ rest)))
        ∙ d.value_done _ rest
