-- ===== src/Prelude/Lists.antt =====
-- Lists measured by native numbers, and predicates on them.
use Prim.Native.Nat.{ℕ, suc, ◌+◌}
use mathlib.Core.Path.{◌≡◌, refl}
use mathlib.Core.Bool.{Bool, true, false}
use mathlib.Core.List.{List, [], ◌∷◌, ◌++◌}
use native.Mathlib.Omega.{arith}

module _ {ℓ} {A : Type ℓ} where
  abbrev pub length : List A → ℕ
  length [] = 0
  length (x ∷ xs) = suc (length xs)

  abbrev pub is_empty : List A → Bool
  is_empty [] = true
  is_empty (x ∷ xs) = false

  pub length-append : (xs ys : List A) → length (xs ++ ys) ≡ length xs + length ys
  length-append [] ys = omega arith
  length-append (x ∷ xs) ys = omega (arith, length-append xs ys)

-- A predicate on each element.
abbrev pub All {ℓ κ} : {A : Type ℓ} → (A → Type κ) → List A → Type κ
All P [] = Unit
All P (x ∷ xs) = P x × All P xs

-- Each two elements, the earlier one first.
abbrev pub Pairwise {ℓ κ} : {A : Type ℓ} → (A → A → Type κ) → List A → Type κ
Pairwise R [] = Unit
Pairwise R (x ∷ xs) = All (R x) xs × Pairwise R xs

module _ {ℓ} {A : Type ℓ} where
  pub All-zip {κ} :
      {P Q R : A → Type κ}
      → ((x : A) → P x → Q x → R x)
      → (l : List A) → All P l
      → All Q l
      → All R l
  All-zip f [] p q = tt
  All-zip f (x ∷ l) p q = (f x p.0 q.0, All-zip f l p.1 q.1)

  pub All-map {κ} : {P Q : A → Type κ} → ((x : A) → P x → Q x) → (l : List A) → All P l → All Q l
  All-map f [] p = tt
  All-map f (x ∷ l) p = (f x p.0, All-map f l p.1)

  pub append-empty : (xs ys : List A) → xs ++ ys ≡ [] → (xs ≡ []) × (ys ≡ [])
  append-empty [] ys h = (refl, h)
  append-empty (x ∷ xs) ys h = absurd (cc)

  pub empty-append : (xs ys : List A) → xs ≡ [] → ys ≡ [] → xs ++ ys ≡ []
  empty-append xs ys h k = rw (h, k) refl

-- What holds of a list holds of its parts.
module _ {ℓ κ} {A : Type ℓ} (P : A → Type κ) where
  pub All-append_left : (xs ys : List A) → All P (xs ++ ys) → All P xs
  All-append_left [] ys h = tt
  All-append_left (x ∷ xs) ys h = (h.0, All-append_left xs ys h.1)

  pub All-append : (xs ys : List A) → All P xs → All P ys → All P (xs ++ ys)
  All-append [] ys h k = k
  All-append (x ∷ xs) ys h k = (h.0, All-append xs ys h.1 k)

  pub All-append_right : (xs ys : List A) → All P (xs ++ ys) → All P ys
  All-append_right [] ys h = h
  All-append_right (x ∷ xs) ys h = All-append_right xs ys h.1

module _ {ℓ κ} {A : Type ℓ} (R : A → A → Type κ) where
  pub Pairwise-append_left : (xs ys : List A) → Pairwise R (xs ++ ys) → Pairwise R xs
  Pairwise-append_left [] ys h = tt
  Pairwise-append_left (x ∷ xs) ys h =
      (All-append_left (R x) xs ys h.0, Pairwise-append_left xs ys h.1)

  pub Pairwise-append_right : (xs ys : List A) → Pairwise R (xs ++ ys) → Pairwise R ys
  Pairwise-append_right [] ys h = h
  Pairwise-append_right (x ∷ xs) ys h = Pairwise-append_right xs ys h.1

  pub Pairwise-append_cross : (xs ys : List A) → Pairwise R (xs ++ ys) → All (λ x. All (R x) ys) xs
  Pairwise-append_cross [] ys h = tt
  Pairwise-append_cross (x ∷ xs) ys h =
      (All-append_right (R x) xs ys h.0, Pairwise-append_cross xs ys h.1)
