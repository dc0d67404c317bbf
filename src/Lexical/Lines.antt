-- ===== src/Lexical/Lines.antt =====
-- Lines that are written of tokens, and the files of such lines.
use fractalide.Prelude.{
  ℕ, zero, suc, ◌<◌, ◌≤◌, ◌≡◌, refl, Bool, true, false, String, none, some, nat_eq, List, [], ◌∷◌,
  ◌++◌, map, length, as_bytes, All, arith, length-append,
}
use fractalide.Result.{ok}
use fractalide.Edges.CoreLexical.{CoreLexicalToken}
use fractalide.Edges.FsFile.{FsFileDesc}
use fractalide.Lexical.{line_loop, line_tokens, run}
use fractalide.Lexical.Combinators.{Nom, IsNom, IsDone, Bytes, lead, free}
use fractalide.Lexical.Words.{write, IsWord, begins_name, goes_on, leaves}
use fractalide.Lexical.Literals.{literal-write, literal-ends}
use fractalide.Lexical.Stream.{file, tokens, file_is_sent}

-- The words of a line, each with a space behind it.
abbrev pub written : List CoreLexicalToken → Bytes
written [] = []
written (t ∷ ts) = write t (32 ∷ written ts)

name_goes_on :
    (i r : Bytes)
    → begins_name i ≡ true
    → free (32 ∷ 91 ∷ 40 ∷ []) i ≡ true
    → goes_on (i ++ r) ≡ true
name_goes_on [] r first plain = absurd (cc)
name_goes_on (b ∷ i) r first plain = ground (arith, first, plain)

write-goes_on : (t : CoreLexicalToken) (k : Bytes) → IsWord t → goes_on (write t k) ≡ true
write-goes_on CoreLexicalToken.bind k h = refl
write-goes_on CoreLexicalToken.external k h = refl
write-goes_on CoreLexicalToken.comment k h = absurd h
write-goes_on (CoreLexicalToken.comp x none) k h = name_goes_on (as_bytes x) _ h.0 h.1
write-goes_on (CoreLexicalToken.comp x (some _)) k h = name_goes_on (as_bytes x) _ h.0.0 h.0.1
write-goes_on (CoreLexicalToken.port x none) k h = name_goes_on (as_bytes x) _ h.0 h.1
write-goes_on (CoreLexicalToken.port x (some _)) k h = name_goes_on (as_bytes x) _ h.0.0 h.0.1
write-goes_on (CoreLexicalToken.imsg text) k h = refl
write-goes_on CoreLexicalToken.break k h = absurd h

written-goes_on : (ts : List CoreLexicalToken) → All IsWord ts → goes_on (written ts) ≡ true
written-goes_on [] h = refl
written-goes_on (t ∷ ts) h = write-goes_on t (32 ∷ written ts) h.0

-- A word does not shorten what follows.
write-long : (t : CoreLexicalToken) (k : Bytes) → length k ≤ length (write t k)
write-long CoreLexicalToken.bind k = omega arith
write-long CoreLexicalToken.external k = omega arith
write-long CoreLexicalToken.comment k = omega arith
write-long (CoreLexicalToken.comp x none) k =
    omega (arith, length-append (as_bytes x) (40 ∷ 41 ∷ k))
write-long (CoreLexicalToken.comp x (some sort)) k = omega (
  arith,
  length-append (as_bytes x) (40 ∷ (as_bytes sort ++ 41 ∷ k)),
  length-append (as_bytes sort) (41 ∷ k),
)
write-long (CoreLexicalToken.port x none) k = omega (arith, length-append (as_bytes x) k)
write-long (CoreLexicalToken.port x (some elem)) k = omega (
  arith,
  length-append (as_bytes x) (91 ∷ (as_bytes elem ++ 93 ∷ k)),
  length-append (as_bytes elem) (93 ∷ k),
)
write-long (CoreLexicalToken.imsg text) k = omega (arith, length-append (as_bytes text) (39 ∷ k))
write-long CoreLexicalToken.break k = omega arith

written-long : (ts : List CoreLexicalToken) → length ts ≤ length (written ts)
written-long [] = omega arith
written-long (t ∷ ts) = omega (arith, written-long ts, write-long t (32 ∷ written ts))

module _ (n : Nom) (v : IsNom n) (d : IsDone n) where
  line_loop-written :
      (ts : List CoreLexicalToken) (s : Bool) (fuel : ℕ)
      → All IsWord ts
      → length ts < fuel
      → line_loop n fuel (lead s (written ts)) ≡ some ts
  unfolding line_loop
  line_loop-written ts s zero h enough = absurd (omega (arith, enough))
  line_loop-written [] s (suc fuel) h enough = rw (literal-ends n v d s) refl
  line_loop-written (t ∷ ts) s (suc fuel) h enough =
      rw
        (
          literal-write n v d t s (written ts) h.0 (written-goes_on ts h.1),
          line_loop-written ts (leaves t) fuel h.1 (omega (arith, enough)),
        )
        refl

  line_tokens-written :
      (line : String) (ts : List CoreLexicalToken)
      → All IsWord ts
      → as_bytes line ≡ written ts
      → line_tokens n line ≡ some ts
  unfolding line_tokens
  line_tokens-written line ts h e =
      rw e
        (line_loop-written ts false (suc (length (written ts))) h (omega (arith, written-long ts)))

  lines-written :
      (lines : List String) (tss : List (List CoreLexicalToken))
      → All (All IsWord) tss
      → map as_bytes lines ≡ map written tss
      → map (line_tokens n) lines ≡ map some tss
  lines-written [] [] h e = refl
  lines-written [] (ts ∷ tss) h e = absurd (cc)
  lines-written (line ∷ lines) [] h e = absurd (cc)
  lines-written (line ∷ lines) (ts ∷ tss) h e =
      let here = line_tokens-written line ts h.0 cc in
      let there = lines-written lines tss h.1 cc in λ i. here i ∷ there i

  -- A file whose lines are written of tokens, each line as its words with a space behind each, is read back,
  -- with parsers that keep the laws of nom: the lexer returns, leaves what follows the file in its channel, and has
  -- sent the path, then for each line, in their order, these very tokens and a `Break`, and the path at
  -- the end. A word is an arrow, `name(sort)`, `name()`, `name[elem]`, `name` or `'text'`. Its parts contain none
  -- of the bytes that end them and are read back from their bytes; a name is not empty and begins neither with
  -- a space nor like another token, and a sort is not empty and does not begin with a space.
  pub text_is_read_back :
      (first last : String) (lines : List String) (tss : List (List CoreLexicalToken))
      (rest : List FsFileDesc)
      → All (All IsWord) tss
      → map as_bytes lines ≡ map written tss
      → run n (file first lines last rest) ≡ (tokens first tss last, ok rest)
  text_is_read_back first last lines tss rest h e =
      file_is_sent n first last lines tss rest (lines-written lines tss h e)
