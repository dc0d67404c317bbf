-- ===== src/Prelude/Map.antt =====
-- A hash map as an association list. `insert` keeps one entry for each key, so that `erase`, which
-- drops the first entry of its key, drops the only one.
use Prim.Native.Nat.{ℕ, ◌+◌, ◌≤◌}
use mathlib.Core.Path.{◌≡◌, refl}
use mathlib.Core.Logic.{◌≢◌, inl, inr}
use mathlib.Core.Bool.{Bool, true, false}
use mathlib.Core.Option.{Option, none, some}
use mathlib.Core.List.{List, [], ◌∷◌}
use native.Mathlib.Omega.{arith}
use fractalide.Prelude.Tests.{Eq, ◌==◌, if◌then◌else◌, Bool-cases}

abbrev pub Map {ℓ κ} : Type ℓ → Type κ → Type (ℓ ⊔ κ)
Map K V = List (K × V)

module _ {ℓ κ} {K : Type ℓ} {V : Type κ} ⦃e : Eq K⦄ where
  unfoldable pub get : Map K V → K → Option V
  get [] k = none
  get ((j, v) ∷ m) k = if j == k then some v else get m k

  unfoldable pub insert : Map K V → K → V → Map K V
  insert [] k v = (k, v) ∷ []
  insert ((j, w) ∷ m) k v = if j == k then (k, v) ∷ m else (j, w) ∷ insert m k v

  pub erase : Map K V → K → Map K V
  erase [] k = []
  erase ((j, w) ∷ m) k = if j == k then m else (j, w) ∷ erase m k

  abbrev pub contains_key : Map K V → K → Bool
  contains_key m k = elim (get m k) [ none ↦ false | some v ↦ true ]

  pub get-insert :
      (m : Map K V) (k : K) (v : V) (j : K)
      → get (insert m k v) j ≡ (if k == j then some v else get m j)
  unfolding get insert
  get-insert [] k v j = refl
  get-insert ((i, w) ∷ m) k v j =
      ground (arith, e.beq_iff k j, e.beq_iff i k, e.beq_iff i j, get-insert m k v j)

  pub insert-insert : (m : Map K V) (k : K) (v w : V) → insert (insert m k v) k w ≡ insert m k w
  unfolding insert
  insert-insert [] k v w = ground (arith, e.beq_iff k k)
  insert-insert ((i, u) ∷ m) k v w =
      ground (arith, e.beq_iff i k, e.beq_iff k k, insert-insert m k v w)

  pub get-insert_self : (m : Map K V) (k : K) (v : V) → get (insert m k v) k ≡ some v
  get-insert_self m k v = rw (get-insert, (e.beq_iff k k).1 refl)

  pub get-insert_ne : (m : Map K V) (k : K) (v : V) (j : K) → k ≢ j → get (insert m k v) j ≡ get m j
  get-insert_ne m k v j ne = ground (arith, get-insert m k v j, e.beq_iff k j)

  pub get-erase_ne : (m : Map K V) (k j : K) → k ≢ j → get (erase m k) j ≡ get m j
  unfolding get erase
  get-erase_ne [] k j ne = refl
  get-erase_ne ((i, w) ∷ m) k j ne =
      ground (arith, e.beq_iff k j, e.beq_iff i k, e.beq_iff i j, get-erase_ne m k j ne)

  -- The sum of a weight over all entries, and what the operations do to it.
  unfoldable pub total : (V → ℕ) → Map K V → ℕ
  total f [] = 0
  total f ((j, v) ∷ m) = f v + total f m

  pub total-insert_new :
      (f : V → ℕ) (m : Map K V) (k : K) (v : V)
      → get m k ≡ none
      → total f (insert m k v) ≡ total f m + f v
  unfolding get insert total
  total-insert_new f [] k v h = omega arith
  total-insert_new f ((j, w) ∷ m) k v h = ground (arith, total-insert_new f m k v)

  pub total-insert_old :
      (f : V → ℕ) (m : Map K V) (k : K) (v w : V)
      → get m k ≡ some w
      → total f (insert m k v) + f w ≡ total f m + f v
  unfolding get insert total
  total-insert_old f [] k v w h = absurd (cc)
  total-insert_old f ((j, u) ∷ m) k v w h = ground (arith, total-insert_old f m k v w)

  pub total-erase :
      (f : V → ℕ) (m : Map K V) (k : K) (w : V)
      → get m k ≡ some w
      → total f (erase m k) + f w ≡ total f m
  unfolding get erase total
  total-erase f [] k w h = absurd (cc)
  total-erase f ((j, u) ∷ m) k w h = ground (arith, total-erase f m k w)

  pub le-total : (f : V → ℕ) (m : Map K V) (k : K) (w : V) → get m k ≡ some w → f w ≤ total f m
  le-total f m k w h = omega (arith, total-erase f m k w h)

  -- No key has two entries.
  abbrev pub IsUnique : Map K V → Type κ
  IsUnique [] = Unit
  IsUnique ((k, v) ∷ m) = (get m k ≡ none) × IsUnique m

  pub insert-IsUnique : (m : Map K V) (k : K) (v : V) → IsUnique m → IsUnique (insert m k v)
  unfolding insert get
  insert-IsUnique [] k v u = (refl, tt)
  insert-IsUnique ((j, w) ∷ m) k v u = elim (Bool-cases (j == k)) [
    | inl same ↦ rw same (ground (arith, e.beq_iff j k), u.1)
    | inr other ↦ rw other (
      ground (arith, get-insert m k v j, e.beq_iff j k, e.beq_iff k j),
      insert-IsUnique m k v u.1,
    )
  ]

  pub total-eq-zero :
      (f : V → ℕ) (m : Map K V)
      → IsUnique m
      → ((k : K) (v : V) → get m k ≡ some v → f v ≡ 0)
      → total f m ≡ 0
  unfolding total get
  total-eq-zero f [] u h = refl
  total-eq-zero f ((j, w) ∷ m) u h = omega (
    arith,
    h j w (ground (arith, e.beq_iff j j)),
    total-eq-zero f m u.1 λ k v found. h k v (ground (arith, e.beq_iff j k)),
  )
