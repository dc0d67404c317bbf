-- ===== src/Lexical/Literals.antt =====
-- `literal` of nodes/fvm/rs/parser/lexical/lib.rs on the text of a token.
use fractalide.Prelude.{
  ℕ, ◌<◌, ◌≡◌, refl, ◌∙◌, Bool, true, false, not, String, none, some, [], ◌∷◌, ◌++◌, ◌==◌, nat_eq,
  length, as_bytes, from_utf8, arith,
}
use fractalide.Edges.CoreLexical.{CoreLexicalToken}
use fractalide.Lexical.{comment, imsg, name, selection, comp, port, comp_or_port, literal}
use fractalide.Lexical.Combinators.{
  Nom, IsNom, IsDone, Bytes, done, error, incomplete, is_space, has, visible, lead,
}
use fractalide.Lexical.Words.{
  write, IsText, begins_name, IsName, IsSort, IsWord, goes_on, leaves, spaced, tag_then,
  not_tag_then, comment-fails, imsg-fails, bind-fails, external-fails, bind-done, external-done,
}

begins-long : (i : Bytes) → begins_name i ≡ true → 0 < length i
begins-long [] h = absurd (cc)
begins-long (b ∷ i) h = omega arith

begins-visible : (i r : Bytes) → begins_name i ≡ true → visible (i ++ r) ≡ true
begins-visible [] r h = absurd (cc)
begins-visible (b ∷ i) r h = ground (arith, h)

visible-append : (i r : Bytes) → 0 < length i → visible i ≡ true → visible (i ++ r) ≡ true
visible-append [] r long h = absurd (omega (arith, long))
visible-append (b ∷ i) r long h = h

goes_on-visible : (r : Bytes) → goes_on r ≡ true → visible r ≡ true
goes_on-visible [] h = refl
goes_on-visible (b ∷ i) h = ground (arith, h)

module _ (n : Nom) (v : IsNom n) (d : IsDone n) where
  open n use {
    multispace, tag, is_not, take_until, take_until1, many0, opt, complete, alt, ws, map_res, chain,
    value,
  }

  name-done :
      (x : String) (b : ℕ) (rest : Bytes)
      → IsName x
      → has (32 ∷ 91 ∷ 40 ∷ []) b ≡ true
      → name n (as_bytes x ++ b ∷ rest) ≡ done (b ∷ rest) x
  unfolding name as_bytes
  name-done x b rest (first, plain, decoded) ends =
      d.map_res_done (is_not (32 ∷ 91 ∷ 40 ∷ [])) from_utf8 _ (b ∷ rest) (as_bytes x) x
        (d.is_not_done (32 ∷ 91 ∷ 40 ∷ []) (as_bytes x) rest b (begins-long (as_bytes x) first)
          plain ends)
        decoded

  until-done :
      (b : ℕ) (x : String) (rest : Bytes)
      → IsText b x
      → map_res (take_until (b ∷ [])) from_utf8 (as_bytes x ++ b ∷ rest) ≡ done (b ∷ rest) x
  until-done b x rest (plain, decoded) =
      d.map_res_done (take_until (b ∷ [])) from_utf8 _ (b ∷ rest) (as_bytes x) x
        (d.take_until_done b (as_bytes x) rest plain) decoded

  imsg-done :
      (s : Bool) (x : String) (rest : Bytes)
      → IsText 39 x
      → visible rest ≡ true
      → imsg n (lead s (39 ∷ as_bytes x ++ 39 ∷ 32 ∷ rest)) ≡ done rest (CoreLexicalToken.imsg x)
  unfolding imsg as_bytes
  imsg-done s x rest is_text see =
      spaced n v d _ s (39 ∷ as_bytes x ++ 39 ∷ 32 ∷ rest) refl
      ∙ tag_then n v d (39 ∷ []) _ (as_bytes x ++ 39 ∷ 32 ∷ rest)
      ∙ v.chain_done _ _ _ (39 ∷ 32 ∷ rest) x (until-done 39 x (32 ∷ rest) is_text)
      ∙ tag_then n v d (39 ∷ []) _ (32 ∷ rest)
      ∙ spaced n v d _ true rest see
      ∙ d.value_done _ rest

  selection-done :
      (x : String) (rest : Bytes)
      → IsText 93 x
      → visible rest ≡ true
      → selection n (91 ∷ as_bytes x ++ 93 ∷ 32 ∷ rest) ≡ done rest x
  unfolding selection as_bytes
  selection-done x rest is_text see =
      spaced n v d _ false (91 ∷ as_bytes x ++ 93 ∷ 32 ∷ rest) refl
      ∙ tag_then n v d (91 ∷ []) _ (as_bytes x ++ 93 ∷ 32 ∷ rest)
      ∙ v.chain_done _ _ _ (93 ∷ 32 ∷ rest) x (until-done 93 x (32 ∷ rest) is_text)
      ∙ tag_then n v d (93 ∷ []) _ (32 ∷ rest)
      ∙ spaced n v d _ true rest see
      ∙ d.value_done _ rest

  no_selection : (rest : Bytes) → goes_on rest ≡ true → complete (selection n) (32 ∷ rest) ≡ error
  unfolding selection as_bytes
  no_selection [] on =
      d.complete_waits _ _
        (spaced n v d _ true [] refl ∙ v.chain_waits _ _ [] (v.tag_waits (91 ∷ []) (omega arith)))
  no_selection (b ∷ r) on = d.complete_fails _ _ (
      spaced n v d _ true (b ∷ r) (goes_on-visible (b ∷ r) on)
      ∙ not_tag_then n v d 91 b [] _ r (ground (arith, on)))

  -- The words that begin with a name, `x`, behind a space or none.
  module _ (s : Bool) (x : String) (h : IsName x) where
    comp-none :
        (rest : Bytes)
        → comp n (lead s (as_bytes x ++ 40 ∷ 41 ∷ 32 ∷ rest))
          ≡ done (32 ∷ rest) (CoreLexicalToken.comp x none)
    unfolding comp as_bytes
    comp-none rest =
        spaced n v d _ s (as_bytes x ++ 40 ∷ 41 ∷ 32 ∷ rest)
          (begins-visible (as_bytes x) (40 ∷ 41 ∷ 32 ∷ rest) h.0)
        ∙ v.chain_done _ _ _ (40 ∷ 41 ∷ 32 ∷ rest) x (name-done x 40 (41 ∷ 32 ∷ rest) h refl)
        ∙ tag_then n v d (40 ∷ []) _ (41 ∷ 32 ∷ rest)
        ∙ spaced n v d _ false (41 ∷ 32 ∷ rest) refl
        ∙ v.chain_done _ _ _ (41 ∷ 32 ∷ rest) none (
            d.opt_fails _ _ (
              d.complete_fails _ _
                (d.map_res_fails _ _ _ (d.map_res_fails _ _ _ (d.take_until1_fails 41 32 rest)))))
        ∙ tag_then n v d (41 ∷ []) _ (32 ∷ rest)
        ∙ d.value_done _ (32 ∷ rest)

    comp-some :
        (sort : String) (rest : Bytes)
        → IsSort sort
        → comp n (lead s (as_bytes x ++ 40 ∷ (as_bytes sort ++ 41 ∷ rest)))
          ≡ done rest (CoreLexicalToken.comp x (some sort))
    unfolding comp as_bytes
    comp-some sort rest (long, see, (plain, decoded)) =
        spaced n v d _ s (as_bytes x ++ 40 ∷ (as_bytes sort ++ 41 ∷ rest))
          (begins-visible (as_bytes x) (40 ∷ (as_bytes sort ++ 41 ∷ rest)) h.0)
        ∙ v.chain_done _ _ _ (40 ∷ (as_bytes sort ++ 41 ∷ rest)) x
            (name-done x 40 (as_bytes sort ++ 41 ∷ rest) h refl)
        ∙ tag_then n v d (40 ∷ []) _ (as_bytes sort ++ 41 ∷ rest)
        ∙ spaced n v d _ false (as_bytes sort ++ 41 ∷ rest)
            (visible-append (as_bytes sort) (41 ∷ rest) long see)
        ∙ v.chain_done _ _ _ (41 ∷ rest) (some sort) (
            d.opt_done _ _ (41 ∷ rest) sort (
              d.complete_done _ _ (41 ∷ rest) sort (
                d.map_res_done _ some _ (41 ∷ rest) sort sort
                  (d.map_res_done _ from_utf8 _ (41 ∷ rest) (as_bytes sort) sort
                    (d.take_until1_done 41 (as_bytes sort) rest long plain) decoded)
                  refl)))
        ∙ tag_then n v d (41 ∷ []) _ rest
        ∙ d.value_done _ rest

    comp-fails :
        (b : ℕ) (r : Bytes)
        → has (32 ∷ 91 ∷ 40 ∷ []) b ≡ true
        → (40 == b) ≡ false
        → comp n (lead s (as_bytes x ++ b ∷ r)) ≡ error
    unfolding comp as_bytes
    comp-fails b r ends other =
        spaced n v d _ s (as_bytes x ++ b ∷ r) (begins-visible (as_bytes x) (b ∷ r) h.0)
        ∙ v.chain_done _ _ _ (b ∷ r) x (name-done x b r h ends)
        ∙ not_tag_then n v d 40 b [] _ r other

    port-none :
        (rest : Bytes)
        → goes_on rest ≡ true
        → port n (lead s (as_bytes x ++ 32 ∷ rest)) ≡ done rest (CoreLexicalToken.port x none)
    unfolding port
    port-none rest on =
        spaced n v d _ s (as_bytes x ++ 32 ∷ rest) (begins-visible (as_bytes x) (32 ∷ rest) h.0)
        ∙ v.chain_done _ _ _ (32 ∷ rest) x (name-done x 32 rest h refl)
        ∙ v.chain_done _ _ _ (32 ∷ rest) none (d.opt_fails _ _ (no_selection rest on))
        ∙ spaced n v d _ true rest (goes_on-visible rest on)
        ∙ d.value_done _ rest

    port-some :
        (elem : String) (rest : Bytes)
        → IsText 93 elem
        → visible rest ≡ true
        → port n (lead s (as_bytes x ++ 91 ∷ (as_bytes elem ++ 93 ∷ 32 ∷ rest)))
          ≡ done rest (CoreLexicalToken.port x (some elem))
    unfolding port
    port-some elem rest is_text see =
        let more = as_bytes elem ++ 93 ∷ 32 ∷ rest in
        spaced n v d _ s (as_bytes x ++ 91 ∷ more) (begins-visible (as_bytes x) (91 ∷ more) h.0)
        ∙ v.chain_done _ _ _ (91 ∷ more) x (name-done x 91 more h refl)
        ∙ v.chain_done _ _ _ rest (some elem) (
            d.opt_done _ _ rest elem
              (d.complete_done _ _ rest elem (selection-done elem rest is_text see)))
        ∙ spaced n v d _ false rest see
        ∙ d.value_done _ rest

    -- None of the other parsers is done with it.
    name-only :
        (i r : Bytes)
        → begins_name i ≡ true
        → literal n (lead s (i ++ r)) ≡ comp_or_port n (lead s (i ++ r))
    unfolding literal
    name-only [] r first = absurd (cc)
    name-only (b ∷ i) r first =
        let see : not (is_space b) ≡ true = ground (arith, first) in
        d.alt_next _ _ _ (comment-fails n v d s b (i ++ r) see (ground (arith, first)))
        ∙ d.alt_next _ _ _ (imsg-fails n v d s b (i ++ r) see (ground (arith, first)))
        ∙ d.alt_next _ _ _ (bind-fails n v d s b (i ++ r) see (ground (arith, first)))
        ∙ d.alt_next _ _ _ (external-fails n v d s b (i ++ r) see (ground (arith, first)))

  -- The text of a token, with a space behind it, is read as the token.
  pub literal-write :
      (t : CoreLexicalToken) (s : Bool) (rest : Bytes)
      → IsWord t
      → goes_on rest ≡ true
      → literal n (lead s (write t (32 ∷ rest))) ≡ done (lead (leaves t) rest) t
  unfolding literal comp_or_port
  literal-write CoreLexicalToken.bind s rest h on =
      d.alt_next _ _ _ (comment-fails n v d s 45 (62 ∷ 32 ∷ rest) refl refl)
      ∙ d.alt_next _ _ _ (imsg-fails n v d s 45 (62 ∷ 32 ∷ rest) refl refl)
      ∙ d.alt_done _ _ _ rest _ (bind-done n v d s rest (goes_on-visible rest on))
  literal-write CoreLexicalToken.external s rest h on =
      d.alt_next _ _ _ (comment-fails n v d s 61 (62 ∷ 32 ∷ rest) refl refl)
      ∙ d.alt_next _ _ _ (imsg-fails n v d s 61 (62 ∷ 32 ∷ rest) refl refl)
      ∙ d.alt_next _ _ _ (bind-fails n v d s 61 (62 ∷ 32 ∷ rest) refl refl)
      ∙ d.alt_done _ _ _ rest _ (external-done n v d s rest (goes_on-visible rest on))
  literal-write CoreLexicalToken.comment s rest h on = absurd h
  literal-write (CoreLexicalToken.comp x none) s rest h on =
      name-only s x h (as_bytes x) (40 ∷ 41 ∷ 32 ∷ rest) h.0
      ∙ d.alt_done _ _ _ (32 ∷ rest) _ (d.complete_done _ _ (32 ∷ rest) _ (comp-none s x h rest))
  literal-write (CoreLexicalToken.comp x (some sort)) s rest (h, is_sort) on =
      name-only s x h (as_bytes x) (40 ∷ (as_bytes sort ++ 41 ∷ 32 ∷ rest)) h.0
      ∙ d.alt_done _ _ _ (32 ∷ rest) _
          (d.complete_done _ _ (32 ∷ rest) _ (comp-some s x h sort (32 ∷ rest) is_sort))
  literal-write (CoreLexicalToken.port x none) s rest h on =
      name-only s x h (as_bytes x) (32 ∷ rest) h.0
      ∙ d.alt_next _ _ _ (d.complete_fails _ _ (comp-fails s x h 32 rest refl refl))
      ∙ port-none s x h rest on
  literal-write (CoreLexicalToken.port x (some elem)) s rest (h, is_text) on =
      let more = as_bytes elem ++ 93 ∷ 32 ∷ rest in
      name-only s x h (as_bytes x) (91 ∷ more) h.0
      ∙ d.alt_next _ _ _ (d.complete_fails _ _ (comp-fails s x h 91 more refl refl))
      ∙ port-some s x h elem rest is_text (goes_on-visible rest on)
  literal-write (CoreLexicalToken.imsg text) s rest h on =
      d.alt_next _ _ _ (comment-fails n v d s 39 (as_bytes text ++ 39 ∷ 32 ∷ rest) refl refl)
      ∙ d.alt_done _ _ _ rest _ (imsg-done s text rest h (goes_on-visible rest on))
  literal-write CoreLexicalToken.break s rest h on = absurd h

  -- At the end of a line there is no token.
  pub literal-ends : (s : Bool) → literal n (lead s []) ≡ incomplete
  unfolding literal comment as_bytes
  literal-ends s =
      v.alt_waits (comment n) _ (lead s [])
        (spaced n v d _ s [] refl ∙ v.chain_waits _ _ [] (v.tag_waits (47 ∷ 47 ∷ []) (omega arith)))
