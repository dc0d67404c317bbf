-- ===== src/Generator/Names.antt =====
-- The module names: two types of names in camel case never share a module.
use Prim.Native.Char.{Char, char, code}
use Prim.Native.Nat.{Ordering, compare}
use Prim.Native.Nat.compare
use Prim.Native.String.{[] as nil, ◌∷◌ as cons}
use text.Mathlib.TextEquality.{Char-path}
use text.Mathlib.TextLemmas.{head-eq_of_cons-eq, tail-eq_of_cons-eq, cons-ne-nil}
use fractalide.Prelude.{
  ℕ, zero, suc, ◌+◌, ◌<◌, ◌≡◌, ◌≢◌, refl, sym, ap, ◌∙◌, String, Bool, true, false, none, some, [],
  ◌∷◌, not, ◌&&◌, ◌==◌, nat_eq, nat_beq_iff, arith, inl, inr, Bool-cases, char?, scalar?,
  BelowOrBoth,
}
use fractalide.Generator.ModuleName.{
  Unicode, is_ascii, to_ascii_lower, is_uppercase, to_lowercase, separated, name_loop,
  to_module_name,
}

lt-compare : (m n : ℕ) → m < n → compare m n ≡ Ordering.lt
lt-compare zero zero h = absurd (omega (arith, h))
lt-compare zero (suc n) h = compare.zero-suc n
lt-compare (suc m) zero h = absurd (omega (arith, h))
lt-compare (suc m) (suc n) h = compare.suc-suc m n ∙ lt-compare m n (omega (arith, h))

below_all :
    (o p q : Ordering) (f : BelowOrBoth o p q → Char)
    → o ≡ Ordering.lt
    → (x : BelowOrBoth o p q) × (elim (scalar? o p q) [ none ↦ none | some x ↦ some (f x) ]
        ≡ some (f x))
unfolding scalar?
below_all Ordering.lt p q f h = (tt, refl)
below_all Ordering.eq p q f h = absurd (cc)
below_all Ordering.gt p q f h = absurd (cc)

-- A number below the surrogates is a character.
char?-code : (n : ℕ) → n < 55296 → (d : Char) × (char? n ≡ some d) × (code d ≡ n)
unfolding char?
char?-code n h =
    let (x, e) =
      below_all (compare n 55296) (compare 57343 n) (compare n 1114112) (char n)
        (lt-compare n 55296 h) in
    (char n x, e, refl)

lower-code :
    (c : Char) → code c < 128 → (d : Char) × (to_ascii_lower c ≡ d) × (code d ≡ code c + 32)
unfolding to_ascii_lower
lower-code c h =
    let (d, e, same) = char?-code (code c + 32) (omega (arith, h)) in
    (d, ap (λ o. elim o as (λ _. Char) [ none ↦ c | some d ↦ d ]) e, same)

-- A name of ASCII characters without `_`.
abbrev pub IsPlainName : String → Type 0
IsPlainName nil = Unit
IsPlainName (cons c s) = (is_ascii c && not (code c == 95) ≡ true) × IsPlainName s

plain-ascii : (c : Char) → is_ascii c && not (code c == 95) ≡ true → code c < 128
plain-ascii c h = ground (arith, h)

plain-other : (c : Char) → is_ascii c && not (code c == 95) ≡ true → code c ≢ 95
plain-other c h = ground (arith, h, nat_beq_iff (code c) 95)

module _ (unicode : Unicode) where
  -- The first character, if any, is upper case.
  abbrev pub IsCamel : String → Type 0
  IsCamel nil = Unit
  IsCamel (cons c s) = is_uppercase unicode c ≡ true

  upper-lower :
      (c : Char)
      → code c < 128
      → is_uppercase unicode c ≡ true
      → (d : Char) × (to_lowercase unicode c ≡ d ∷ []) × (code d ≡ code c + 32)
  unfolding to_lowercase
  upper-lower c h u = let (d, e, same) = lower-code c h in (d, ground (arith, e), same)

  loop-lower :
      (b : Bool) (c : Char) (s : String)
      → is_uppercase unicode c ≡ false
      → name_loop unicode b (cons c s) ≡ cons c (name_loop unicode false s)
  unfolding name_loop
  loop-lower b c s u = ground (arith, u)

  loop-upper :
      (b : Bool) (c d : Char) (s : String)
      → is_uppercase unicode c ≡ true
      → to_lowercase unicode c ≡ d ∷ []
      → name_loop unicode b (cons c s) ≡ separated b (cons d (name_loop unicode false s))
  unfolding name_loop
  loop-upper b c d s u e = ground (arith, u, e)

  -- Two upper case letters, however they are written.
  both_upper :
      (b : Bool) (c d : Char) (s t : String)
      → code c < 128
      → code d < 128
      → is_uppercase unicode c ≡ true
      → is_uppercase unicode d ≡ true
      → name_loop unicode b (cons c s) ≡ name_loop unicode b (cons d t)
      → (c ≡ d) × (name_loop unicode false s ≡ name_loop unicode false t)
  both_upper b c d s t hc hd uc ud h =
      let (x, ex, cx) = upper-lower c hc uc in
      let (y, ey, dy) = upper-lower d hd ud in
      let eq = behind b _ _ (sym (loop-upper b c x s uc ex) ∙ h ∙ loop-upper b d y t ud ey) in
      (
        Char-path c d (omega (arith, cx, dy, ap code (head-eq_of_cons-eq eq))),
        tail-eq_of_cons-eq eq,
      )
    where
      behind : (b : Bool) (u v : String) → separated b u ≡ separated b v → u ≡ v
      behind true u v e = e
      behind false u v e = tail-eq_of_cons-eq e

  -- A `_` that was written is not one of the name.
  not_both :
      (c d : Char) (s t : String)
      → code c < 128
      → code d ≢ 95
      → is_uppercase unicode c ≡ true
      → is_uppercase unicode d ≡ false
      → name_loop unicode false (cons c s) ≡ name_loop unicode false (cons d t)
      → ⊥
  not_both c d s t hc other uc ud h =
      let (x, ex, cx) = upper-lower c hc uc in
      other (
        ap code (
          head-eq_of_cons-eq
            (sym (loop-lower false d t ud) ∙ sym h ∙ loop-upper false c x s uc ex)))

  not-empty :
      (b : Bool) (c : Char) (s : String) → code c < 128 → name_loop unicode b (cons c s) ≡ nil → ⊥
  not-empty b c s hc h = elim (Bool-cases (is_uppercase unicode c)) [
    | inl u ↦
        let (x, ex, cx) = upper-lower c hc u in written b x _ (sym (loop-upper b c x s u ex) ∙ h)
    | inr u ↦ cons-ne-nil c _ (sym (loop-lower b c s u) ∙ h)
  ]
    where
      written : (b : Bool) (x : Char) (u : String) → separated b (cons x u) ≡ nil → ⊥
      written true x u e = cons-ne-nil _ _ e
      written false x u e = cons-ne-nil _ _ e

  cons-eq : {c d : Char} {s t : String} → c ≡ d → s ≡ t → cons c s ≡ cons d t
  cons-eq h k = cc

  loop_inj :
      (s t : String)
      → IsPlainName s
      → IsPlainName t
      → name_loop unicode false s ≡ name_loop unicode false t
      → s ≡ t
  unfolding name_loop
  loop_inj nil nil p q h = refl
  loop_inj nil (cons d t) p q h = absurd (not-empty false d t (plain-ascii d q.0) (sym h))
  loop_inj (cons c s) nil p q h = absurd (not-empty false c s (plain-ascii c p.0) h)
  loop_inj (cons c s) (cons d t) p q h = elim (Bool-cases (is_uppercase unicode c)) [
    | inl uc ↦ elim (Bool-cases (is_uppercase unicode d)) [
      | inl ud ↦
          let (e, rest) =
            both_upper false c d s t (plain-ascii c p.0) (plain-ascii d q.0) uc ud h in
          cons-eq e (loop_inj s t p.1 q.1 rest)
      | inr ud ↦ absurd (not_both c d s t (plain-ascii c p.0) (plain-other d q.0) uc ud h)
    ]
    | inr uc ↦ elim (Bool-cases (is_uppercase unicode d)) [
      | inl ud ↦ absurd (not_both d c t s (plain-ascii d q.0) (plain-other c p.0) ud uc (sym h))
      | inr ud ↦
          let eq = sym (loop-lower false c s uc) ∙ h ∙ loop-lower false d t ud in
          cons-eq (head-eq_of_cons-eq eq) (loop_inj s t p.1 q.1 (tail-eq_of_cons-eq eq))
    ]
  ]

  named_apart :
      (s t : String)
      → IsPlainName s
      → IsPlainName t
      → IsCamel s
      → IsCamel t
      → to_module_name unicode s ≡ to_module_name unicode t
      → s ≡ t
  unfolding to_module_name name_loop
  named_apart nil nil p q k l h = refl
  named_apart nil (cons d t) p q k l h = absurd (not-empty true d t (plain-ascii d q.0) (sym h))
  named_apart (cons c s) nil p q k l h = absurd (not-empty true c s (plain-ascii c p.0) h)
  named_apart (cons c s) (cons d t) p q k l h =
      let (e, rest) = both_upper true c d s t (plain-ascii c p.0) (plain-ascii d q.0) k l h in
      cons-eq e (loop_inj s t p.1 q.1 rest)

  -- Two different names in camel case, that is names of ASCII characters without `_` and with an
  -- upper case letter first, get different modules.
  pub to_module_name-apart :
      (s t : String)
      → IsPlainName s
      → IsPlainName t
      → IsCamel s
      → IsCamel t
      → s ≢ t
      → to_module_name unicode s ≢ to_module_name unicode t
  to_module_name-apart s t p q k l different h = different (named_apart s t p q k l h)
