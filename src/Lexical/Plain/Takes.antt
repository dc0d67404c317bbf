-- ===== src/Lexical/Plain/Takes.antt =====
-- The plain parsers are done as the macros of `nom` are.
use fractalide.Prelude.{
  ℕ, zero, suc, ◌<◌, ◌≡◌, refl, Bool, true, false, Option, none, some, List, [], ◌∷◌, ◌++◌, ◌==◌,
  nat_eq, beq_refl, length, arith,
}
use fractalide.Lexical.Combinators.{
  IsDone, Bytes, Parser, IResult, done, error, incomplete, is_space, has, free, visible, lead,
}
use fractalide.Lexical.Plain.{
  skip, one_space, strip, starts, span1_not, span_not, not_empty, until, repeat, maybe, whole,
  either, spaced, mapped, chained, plain,
}

strip-done : (t rest : Bytes) → strip t (t ++ rest) ≡ done rest []
unfolding strip
strip-done [] rest = refl
strip-done (b ∷ t) rest = rw (beq_refl b) (strip-done t rest)

tag-done : (t rest : Bytes) → mapped (strip t (t ++ rest)) (λ _. some t) ≡ done rest t
unfolding mapped
tag-done t rest = rw (strip-done t rest) refl

tag-fails :
    (a b : ℕ) (t rest : Bytes)
    → (a == b) ≡ false
    → mapped (strip (a ∷ t) (b ∷ rest)) (λ _. some (a ∷ t)) ≡ error
unfolding strip mapped
tag-fails a b t rest h = rw h refl

span_not-done :
    (t taken rest : Bytes) (b : ℕ)
    → free t taken ≡ true
    → has t b ≡ true
    → span_not t (taken ++ b ∷ rest) ≡ done (b ∷ rest) taken
unfolding span_not
span_not-done t [] rest b h ends = rw ends refl
span_not-done t (c ∷ taken) rest b h ends =
    let other : has t c ≡ false = ground (arith, h) in
    let more : free t taken ≡ true = ground (arith, h) in
    rw (other, span_not-done t taken rest b more ends) refl

span1_not-done :
    (t taken rest : Bytes) (b : ℕ)
    → 0 < length taken
    → free t taken ≡ true
    → has t b ≡ true
    → span1_not t (taken ++ b ∷ rest) ≡ done (b ∷ rest) taken
unfolding span1_not not_empty
span1_not-done t [] rest b long h ends = absurd (omega (arith, long))
span1_not-done t (c ∷ taken) rest b long h ends =
    rw (span_not-done t (c ∷ taken) rest b h ends) refl

until-done :
    (b : ℕ) (taken rest : Bytes)
    → free (b ∷ []) taken ≡ true
    → until (b ∷ []) (taken ++ b ∷ rest) ≡ done (b ∷ rest) taken
unfolding until starts
until-done b [] rest h = rw (beq_refl b) refl
until-done b (c ∷ taken) rest h =
    let other : (b == c) ≡ false = ground (arith, h) in
    let more : free (b ∷ []) taken ≡ true = ground (arith, h) in
    rw (other, until-done b taken rest more) refl

until1-done :
    (b : ℕ) (taken rest : Bytes)
    → 0 < length taken
    → free (b ∷ []) taken ≡ true
    → not_empty (until (b ∷ []) (taken ++ b ∷ rest)) ≡ done (b ∷ rest) taken
unfolding not_empty
until1-done b [] rest long h = absurd (omega (arith, long))
until1-done b (c ∷ taken) rest long h = rw (until-done b (c ∷ taken) rest h) refl

until1-fails : (b : ℕ) (rest : Bytes) → not_empty (until (b ∷ []) (b ∷ rest)) ≡ error
unfolding not_empty
until1-fails b rest = rw (until-done b [] rest refl) refl

skip-visible : (s : Bool) (i : Bytes) → visible i ≡ true → skip (lead s i) ≡ i
unfolding skip
skip-visible false [] h = refl
skip-visible true [] h = refl
skip-visible false (b ∷ i) h = let other : is_space b ≡ false = ground (arith, h) in rw other refl
skip-visible true (b ∷ i) h = let other : is_space b ≡ false = ground (arith, h) in rw other refl

no_space : (i : Bytes) → visible i ≡ true → one_space i ≡ error
unfolding one_space
no_space [] h = refl
no_space (b ∷ i) h = let other : is_space b ≡ false = ground (arith, h) in rw other refl

repeat-stops : (fuel : ℕ) (i : Bytes) → visible i ≡ true → repeat fuel one_space i ≡ done i []
unfolding repeat
repeat-stops zero i h = refl
repeat-stops (suc fuel) i h = rw (no_space i h) refl

spaces-done :
    (s : Bool) (i : Bytes)
    → visible i ≡ true
    → (l : List Bytes) × (repeat (length (lead s i)) one_space (lead s i) ≡ done i l)
unfolding repeat one_space
spaces-done false i h = ([], repeat-stops (length i) i h)
spaces-done true i h =
    ((32 ∷ []) ∷ [], rw (skip-visible false i h) (rw (repeat-stops (length i) i h) refl))

module _ {A : Type 0} where
  spaced-done :
      (q : IResult A) (rest : Bytes) (a : A)
      → visible rest ≡ true
      → q ≡ done (32 ∷ rest) a
      → spaced q ≡ done rest a
  unfolding spaced
  spaced-done q rest a see e = rw e (rw (skip-visible true rest see) refl)

  ws-done :
      (p : Parser A) (s : Bool) (i rest : Bytes) (a : A)
      → visible i ≡ true
      → visible rest ≡ true
      → p i ≡ done (32 ∷ rest) a
      → spaced (p (skip (lead s i))) ≡ done rest a
  ws-done p s i rest a see on e = rw (skip-visible s i see) (spaced-done (p i) rest a on e)

  ws-fails :
      (p : Parser A) (s : Bool) (i : Bytes)
      → visible i ≡ true
      → p i ≡ error
      → spaced (p (skip (lead s i))) ≡ error
  unfolding spaced
  ws-fails p s i see e = rw (skip-visible s i see) (rw e refl)

  either-done :
      (q r : IResult A) (rest : Bytes) (a : A) → q ≡ done rest a → either q r ≡ done rest a
  unfolding either
  either-done q r rest a e = rw e refl

  either-next : (q r : IResult A) → q ≡ error → either q r ≡ r
  unfolding either
  either-next q r e = rw e refl

  whole-done : (q : IResult A) (rest : Bytes) (a : A) → q ≡ done rest a → whole q ≡ done rest a
  unfolding whole
  whole-done q rest a e = rw e refl

  whole-fails : (q : IResult A) → q ≡ error → whole q ≡ error
  unfolding whole
  whole-fails q e = rw e refl

  whole-waits : (q : IResult A) → q ≡ incomplete → whole q ≡ error
  unfolding whole
  whole-waits q e = rw e refl

  maybe-done :
      (q : IResult A) (i rest : Bytes) (a : A) → q ≡ done rest a → maybe q i ≡ done rest (some a)
  unfolding maybe
  maybe-done q i rest a e = rw e refl

  maybe-fails : (q : IResult A) (i : Bytes) → q ≡ error → maybe q i ≡ done i none
  unfolding maybe
  maybe-fails q i e = rw e refl

  module _ {B : Type 0} where
    mapped-done :
        (q : IResult A) (f : A → Option B) (rest : Bytes) (a : A) (b : B)
        → q ≡ done rest a
        → f a ≡ some b
        → mapped q f ≡ done rest b
    unfolding mapped
    mapped-done q f rest a b e h = rw e (rw (h, mapped) refl)

    mapped-fails : (q : IResult A) (f : A → Option B) → q ≡ error → mapped q f ≡ error
    unfolding mapped
    mapped-fails q f e = rw e refl

    chained-fails : (q : IResult A) (f : A → Parser B) → q ≡ error → chained q f ≡ error
    unfolding chained
    chained-fails q f e = rw e refl

pub plain-IsDone : IsDone plain
unfolding plain
plain-IsDone = record {
  tag_done = tag-done;
  tag_fails = tag-fails;
  is_not_done = span1_not-done;
  take_until_done = until-done;
  take_until1_done = until1-done;
  take_until1_fails = λ b c rest. until1-fails b (c ∷ rest);
  spaces_done = spaces-done;
  ws_done = λ p s i rest a see on e. ws-done p s i rest a see on e;
  ws_fails = λ p s i see e. ws-fails p s i see e;
  chain_fails = λ p f i e. chained-fails (p i) f e;
  alt_done = λ p q i rest a e. either-done (p i) (q i) rest a e;
  alt_next = λ p q i e. either-next (p i) (q i) e;
  complete_done = λ p i rest a e. whole-done (p i) rest a e;
  complete_fails = λ p i e. whole-fails (p i) e;
  complete_waits = λ p i e. whole-waits (p i) e;
  opt_done = λ p i rest a e. maybe-done (p i) i rest a e;
  opt_fails = λ p i e. maybe-fails (p i) i e;
  map_res_done = λ p f i rest a b e h. mapped-done (p i) f rest a b e h;
  map_res_fails = λ p f i e. mapped-fails (p i) f e;
  value_done = λ a i. refl;
}
