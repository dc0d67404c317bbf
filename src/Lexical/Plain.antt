-- ===== src/Lexical/Plain.antt =====
-- Plain parsers for the macros of `nom`; Laws shows that they keep what is asked of it.
pub mod Laws
pub mod Takes
use fractalide.Prelude.{
  ℕ, zero, suc, ◌+◌, ◌<◌, ◌≤◌, ◌≡◌, refl, ap, ◌∙◌, Bool, true, false, Option, none, some, List, [],
  ◌⊎◌, inl, inr, ◌∷◌, ◌==◌, ◌&&◌, ◌||◌, nat_eq, length, arith, if◌then◌else◌,
}
use fractalide.Lexical.Combinators.{
  Nom, IsNom, Bytes, Parser, IResult, done, error, incomplete, Keeps, Eats, is_space, has,
}

skip : Bytes → Bytes
skip [] = []
skip (b ∷ i) = let rest = skip i in if is_space b then rest else b ∷ i

skip-keeps : (i : Bytes) → length (skip i) ≤ length i
unfolding skip
skip-keeps [] = omega arith
skip-keeps (b ∷ i) = ground (arith, skip-keeps i)

one_space : Parser Bytes
unfolding skip
one_space [] = error
one_space (b ∷ i) = if is_space b then done (skip i) (b ∷ []) else error

strip : Bytes → Parser Bytes
strip [] i = done i []
strip (t ∷ ts) [] = incomplete
strip (t ∷ ts) (b ∷ i) = let more = strip ts i in if t == b then more else error

starts : Bytes → Bytes → Bool
starts [] i = true
starts (t ∷ ts) [] = false
starts (t ∷ ts) (b ∷ i) = t == b && starts ts i

abbrev before : ℕ → IResult Bytes → IResult Bytes
before b (done rest taken) = done rest (b ∷ taken)
before b _ = error

-- Up to a byte of the set, or to the end.
span_not : Bytes → Parser Bytes
span_not t [] = done [] []
span_not t (b ∷ i) = let more = before b (span_not t i) in if has t b then done (b ∷ i) [] else more

not_empty : IResult Bytes → IResult Bytes
not_empty (done rest (b ∷ taken)) = done rest (b ∷ taken)
not_empty _ = error

-- The same, with a byte at least where there is one.
span1_not : Bytes → Parser Bytes
unfolding span_not not_empty
span1_not t [] = done [] []
span1_not t (b ∷ i) = not_empty (span_not t (b ∷ i))

-- Up to a text, which must be there.
until : Bytes → Parser Bytes
unfolding starts
until t [] = error
until t (b ∷ i) =
    let more = before b (until t i) in if starts t (b ∷ i) then done (b ∷ i) [] else more

module _ {A : Type 0} where
  abbrev cons : A → IResult (List A) → IResult (List A)
  cons a (done rest l) = done rest (a ∷ l)
  cons a _ = error

  abbrev again : IResult A → Bytes → (Bytes → IResult (List A)) → IResult (List A)
  again (done rest a) i next = cons a (next rest)
  again error i next = done i []
  again incomplete i next = done i []

  repeat : ℕ → Parser A → Parser (List A)
  repeat zero p i = done i []
  repeat (suc fuel) p i = again (p i) i (λ rest. repeat fuel p rest)

  maybe : IResult A → Bytes → IResult (Option A)
  maybe (done rest a) i = done rest (some a)
  maybe _ i = done i none

  whole : IResult A → IResult A
  whole incomplete = error
  whole r = r

  either : IResult A → IResult A → IResult A
  either (done rest a) r = done rest a
  either error r = r
  either incomplete r = incomplete

  spaced : IResult A → IResult A
  unfolding skip
  spaced (done rest a) = done (skip rest) a
  spaced r = r

  mapped : {B : Type 0} → IResult A → (A → Option B) → IResult B
  mapped (done rest a) f = elim (f a) [ none ↦ error | some b ↦ done rest b ]
  mapped error f = error
  mapped incomplete f = incomplete

  chained : {B : Type 0} → IResult A → (A → Parser B) → IResult B
  chained (done rest a) f = f a rest
  chained error f = error
  chained incomplete f = incomplete

unfoldable pub plain : Nom
unfolding one_space strip span1_not not_empty until repeat maybe whole either spaced mapped chained
plain = record {
  multispace = one_space;
  tag = λ t i. mapped (strip t i) (λ _. some t);
  is_not = span1_not;
  take_until = until;
  take_until1 = λ t i. not_empty (until t i);
  many0 = λ p i. repeat (length i) p i;
  opt = λ p i. maybe (p i) i;
  complete = λ p i. whole (p i);
  alt = λ p q i. either (p i) (q i);
  ws = λ p i. spaced (p (skip i));
  map_res = λ p f i. mapped (p i) f;
  chain = λ p f i. chained (p i) f;
  value = λ a i. done i a;
}
