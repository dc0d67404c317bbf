-- ===== src/Lexical/Plain/Laws.antt =====
-- The plain parsers keep the laws that are asked of `nom`.
use fractalide.Prelude.{
  ℕ, zero, suc, ◌+◌, ◌<◌, ◌≤◌, ◌≡◌, refl, ap, ◌∙◌, Option, none, some, List, [], ◌⊎◌, inl, inr, ◌∷◌,
  nat_eq, length, arith,
}
use fractalide.Lexical.Combinators.{
  IsNom, Bytes, Parser, IResult, done, error, incomplete, Keeps, Eats,
}
use fractalide.Lexical.Plain.{
  skip, skip-keeps, one_space, strip, span1_not, span_not, not_empty, until, cons, again, repeat,
  maybe, whole, either, spaced, mapped, chained, plain,
}

one_space-Keeps : Keeps one_space
unfolding one_space
one_space-Keeps [] rest a h = absurd (cc)
one_space-Keeps (b ∷ i) rest a h = ground (arith, skip-keeps i)

strip-length : (t i rest a : Bytes) → strip t i ≡ done rest a → length rest + length t ≡ length i
unfolding strip
strip-length [] i rest a h = ground arith
strip-length (t ∷ ts) [] rest a h = absurd (cc)
strip-length (t ∷ ts) (b ∷ i) rest a h = ground (arith, strip-length ts i rest a)

tag-waits : (t : Bytes) → 0 < length t → mapped (strip t []) (λ _. some t) ≡ incomplete
unfolding strip mapped
tag-waits [] h = absurd (omega (arith, h))
tag-waits (t ∷ ts) h = refl

strip-Eats : (t : Bytes) → 0 < length t → Eats (strip t)
strip-Eats t long i rest a h = omega (arith, strip-length t i rest a h, long)

span_not-length :
    (t i rest a : Bytes) → span_not t i ≡ done rest a → length rest + length a ≡ length i
unfolding span_not
span_not-length t [] rest a h = ground arith
span_not-length t (b ∷ i) rest a h = cut (span_not t i) refl (λ rest a. span_not-length t i rest a)
  where
    cut :
        (r : IResult Bytes)
        → span_not t i ≡ r
        → ((rest a : Bytes) → span_not t i ≡ done rest a → length rest + length a ≡ length i)
        → length rest + length a ≡ suc (length i)
    cut (done rest' a') e next = ground (arith, h, e, next rest' a' e)
    cut error e next = ground (arith, h, e)
    cut incomplete e next = ground (arith, h, e)

until-length : (t i rest a : Bytes) → until t i ≡ done rest a → length rest + length a ≡ length i
unfolding until
until-length t [] rest a h = absurd (cc)
until-length t (b ∷ i) rest a h = cut (until t i) refl (λ rest a. until-length t i rest a)
  where
    cut :
        (r : IResult Bytes)
        → until t i ≡ r
        → ((rest a : Bytes) → until t i ≡ done rest a → length rest + length a ≡ length i)
        → length rest + length a ≡ suc (length i)
    cut (done rest' a') e next = ground (arith, h, e, next rest' a' e)
    cut error e next = ground (arith, h, e)
    cut incomplete e next = ground (arith, h, e)

not_empty_inv :
    (r : IResult Bytes) (rest a : Bytes)
    → not_empty r ≡ done rest a
    → (r ≡ done rest a) × (0 < length a)
unfolding not_empty
not_empty_inv (done rest' []) rest a h = absurd (cc)
not_empty_inv (done rest' (b ∷ t)) rest a h = ground arith
not_empty_inv error rest a h = absurd (cc)
not_empty_inv incomplete rest a h = absurd (cc)

is_not-Eats : (t : Bytes) → Eats (span1_not t)
unfolding span1_not
is_not-Eats t [] rest a h = ground (arith, h)
is_not-Eats t (b ∷ i) rest a h =
    let (e, some_taken) = not_empty_inv (span_not t (b ∷ i)) rest a h in
    omega (arith, span_not-length t (b ∷ i) rest a e, some_taken)

until1-Keeps : (t : Bytes) → Keeps (λ i. not_empty (until t i))
until1-Keeps t i rest a h =
    omega (arith, until-length t i rest a (not_empty_inv (until t i) rest a h).0)

module _ {A : Type 0} (p : Parser A) where
  repeat-Keeps : (fuel : ℕ) → Keeps p → Keeps (repeat fuel p)
  unfolding repeat
  repeat-Keeps zero k i rest a h = ground arith
  repeat-Keeps (suc fuel) k i rest a h = next (p i) refl (λ r l. repeat-Keeps fuel k r rest l) h
    where
      go_on :
          (r : Bytes) (x : A)
          → length r ≤ length i
          → (q : IResult (List A)) → repeat fuel p r ≡ q
          → ((l : List A) → repeat fuel p r ≡ done rest l → length rest ≤ length r)
          → cons x q ≡ done rest a
          → length rest ≤ length i
      go_on r x small (done rest' l) e ih h' =
          let same : rest' ≡ rest = cc in omega (arith, small, ih l (e ∙ ap (λ y. done y l) same))
      go_on r x small error e ih h' = absurd (cc)
      go_on r x small incomplete e ih h' = absurd (cc)

      next :
          (q : IResult A)
          → p i ≡ q
          → ((r : Bytes) (l : List A) → repeat fuel p r ≡ done rest l → length rest ≤ length r)
          → again q i (λ r. repeat fuel p r) ≡ done rest a
          → length rest ≤ length i
      next (done r x) e ih h' = go_on r x (k i r x e) (repeat fuel p r) refl (λ l. ih r l) h'
      next error e ih h' = ground (arith, h')
      next incomplete e ih h' = ground (arith, h')

  maybe-Keeps : Keeps p → Keeps (λ i. maybe (p i) i)
  unfolding maybe
  maybe-Keeps k i rest a h = inv (p i) refl
    where
      inv : (q : IResult A) → p i ≡ q → length rest ≤ length i
      inv (done r x) e = ground (arith, h, e, k i r x e)
      inv error e = ground (arith, h, e)
      inv incomplete e = ground (arith, h, e)

  whole_inv : (q : IResult A) (rest : Bytes) (a : A) → whole q ≡ done rest a → q ≡ done rest a
  unfolding whole
  whole_inv (done r x) rest a h = h
  whole_inv error rest a h = absurd (cc)
  whole_inv incomplete rest a h = absurd (cc)

  spaced_inv :
      (q : IResult A) (rest : Bytes) (a : A)
      → spaced q ≡ done rest a
      → (r : Bytes) × (q ≡ done r a) × (length rest ≤ length r)
  unfolding spaced
  spaced_inv (done r x) rest a h = (r, cc, ground (arith, skip-keeps r))
  spaced_inv error rest a h = absurd (cc)
  spaced_inv incomplete rest a h = absurd (cc)

  either_inv :
      (q r : IResult A) (rest : Bytes) (a : A)
      → either q r ≡ done rest a
      → (q ≡ done rest a) ⊎ (r ≡ done rest a)
  unfolding either
  either_inv (done r x) s rest a h = inl h
  either_inv error s rest a h = inr h
  either_inv incomplete s rest a h = absurd (cc)

  module _ {B : Type 0} where
    mapped_inv :
        (q : IResult A) (f : A → Option B) (rest : Bytes) (b : B)
        → mapped q f ≡ done rest b
        → (a : A) × (q ≡ done rest a)
    unfolding mapped
    mapped_inv (done r x) f rest b h = kept (f x) h
      where
        kept :
            (o : Option B)
            → elim o as (λ _. IResult B) [ none ↦ error | some c ↦ done r c ] ≡ done rest b
            → (a : A) × (done r x ≡ done rest a)
        kept none h' = absurd (cc)
        kept (some c) h' = let same : r ≡ rest = cc in (x, ap (λ y. done y x) same)
    mapped_inv error f rest b h = absurd (cc)
    mapped_inv incomplete f rest b h = absurd (cc)

    chained_inv :
        (q : IResult A) (f : A → Parser B) (rest : Bytes) (b : B)
        → chained q f ≡ done rest b
        → (r : Bytes) × (a : A) × (q ≡ done r a) × (f a r ≡ done rest b)
    unfolding chained
    chained_inv (done r x) f rest b h = (r, x, refl, h)
    chained_inv error f rest b h = absurd (cc)
    chained_inv incomplete f rest b h = absurd (cc)

  repeat_ends : repeat 0 p [] ≡ done [] []
  unfolding repeat
  repeat_ends = refl

  either_waits : (q r : IResult A) → q ≡ incomplete → either q r ≡ incomplete
  unfolding either
  either_waits (done r x) s h = absurd (cc)
  either_waits error s h = absurd (cc)
  either_waits incomplete s h = refl

module _ {A B : Type 0} where
  chained_done :
      (q : IResult A) (f : A → Parser B) (rest : Bytes) (a : A)
      → q ≡ done rest a
      → chained q f ≡ f a rest
  unfolding chained
  chained_done q f rest a h = rw h refl

  chained_waits : (q : IResult A) (f : A → Parser B) → q ≡ incomplete → chained q f ≡ incomplete
  unfolding chained
  chained_waits q f h = rw h refl

pub plain-IsNom : IsNom plain
unfolding plain
plain-IsNom = record {
  multispace_keeps = one_space-Keeps;
  tag_eats = λ t long i rest a h.
      let (x, e) = mapped_inv (strip t) (strip t i) (λ _. some t) rest a h in
      strip-Eats t long i rest x e;
  is_not_eats = is_not-Eats;
  take_until_keeps = λ t i rest a h. omega (arith, until-length t i rest a h);
  take_until1_keeps = until1-Keeps;
  many0_keeps = λ p k i. repeat-Keeps p (length i) k i;
  opt_keeps = λ p. maybe-Keeps p;
  complete_keeps = λ p k i rest a h. k i rest a (whole_inv p (p i) rest a h);
  complete_eats = λ p k i rest a h. k i rest a (whole_inv p (p i) rest a h);
  alt_eats = λ p q e f i rest a h. elim (either_inv p (p i) (q i) rest a h) [
    | inl x ↦ e i rest a x
    | inr x ↦ f i rest a x
  ];
  ws_eats = λ p e i rest a h.
      let (r, x, small) = spaced_inv p (p (skip i)) rest a h in
      omega (arith, e (skip i) r a x, small, skip-keeps i);
  map_res_keeps = λ p f k i rest b h. let (a, x) = mapped_inv p (p i) f rest b h in k i rest a x;
  map_res_eats = λ p f k i rest b h. let (a, x) = mapped_inv p (p i) f rest b h in k i rest a x;
  chain_keeps = λ p f k l i rest b h.
      let (r, a, x, y) = chained_inv p (p i) f rest b h in omega (arith, k i r a x, l a r rest b y);
  chain_eats_first = λ p f k l i rest b h.
      let (r, a, x, y) = chained_inv p (p i) f rest b h in omega (arith, k i r a x, l a r rest b y);
  chain_eats_then = λ p f k l i rest b h.
      let (r, a, x, y) = chained_inv p (p i) f rest b h in omega (arith, k i r a x, l a r rest b y);
  value_keeps = λ a i rest b h. ground (arith, h);
  tag_waits = tag-waits;
  many0_ends = λ p. repeat_ends p;
  chain_done = λ p f i rest a e. chained_done (p i) f rest a e;
  chain_waits = λ p f i e. chained_waits (p i) f e;
  alt_waits = λ p q i e. either_waits p (p i) (q i) e;
}
