-- ===== src/Lexical/Stream.antt =====
-- The stream of tokens that a file becomes, and the parser that reads it.
use mathlib.Core.List.{map-append, append_assoc}
use fractalide.Prelude.{◌≡◌, refl, String, some, List, [], ◌∷◌, ◌++◌, map}
use fractalide.Result.{ok}
use fractalide.Edges.CoreLexical.{CoreLexical, CoreLexicalToken}
use fractalide.Edges.FsFile.{FsFileDesc}
use fractalide.Lexical.{line_tokens, stream_loop, run}
use fractalide.Lexical.Combinators.{Nom}

-- The lines' tokens one after the other, each line with its `Break`.
abbrev pub joined : List (List CoreLexicalToken) → List CoreLexicalToken
joined [] = []
joined (ts ∷ tss) = ts ++ CoreLexicalToken.break ∷ joined tss

-- A file of lines, as it is sent.
abbrev pub file : String → List String → String → List FsFileDesc → List FsFileDesc
file first lines last rest =
    FsFileDesc.start first ∷ map FsFileDesc.text lines ++ FsFileDesc.end last ∷ rest

abbrev pub tokens : String → List (List CoreLexicalToken) → String → List CoreLexical
tokens first tss last =
    CoreLexical.start first ∷ map CoreLexical.token (joined tss) ++ CoreLexical.end last ∷ []

module _ (n : Nom) where
  lines_sent :
      (lines : List String) (tss : List (List CoreLexicalToken)) (last : String)
      (rest : List FsFileDesc)
      → map (line_tokens n) lines ≡ map some tss
      → stream_loop n (map FsFileDesc.text lines ++ FsFileDesc.end last ∷ rest)
        ≡ (map CoreLexical.token (joined tss) ++ CoreLexical.end last ∷ [], ok rest)
  unfolding stream_loop
  lines_sent [] [] last rest h = refl
  lines_sent [] (ts ∷ tss) last rest h = absurd (cc)
  lines_sent (line ∷ lines) [] last rest h = absurd (cc)
  lines_sent (line ∷ lines) (ts ∷ tss) last rest h =
      let here : line_tokens n line ≡ some ts = cc in
      let sent = lines_sent lines tss last rest cc in
      rw (here, sent) (simp (map-append, append_assoc))

  -- A file is sent as the tokens of its lines, where each line has tokens.
  pub file_is_sent :
      (first last : String) (lines : List String) (tss : List (List CoreLexicalToken))
      (rest : List FsFileDesc)
      → map (line_tokens n) lines ≡ map some tss
      → run n (file first lines last rest) ≡ (tokens first tss last, ok rest)
  unfolding run
  file_is_sent first last lines tss rest h = rw (lines_sent lines tss last rest h) refl
