-- ===== src/Check/Ports.antt =====
-- The checks of the ports: that none is connected twice.
use fractalide.Prelude.{
  All, Pairwise, All-zip, All-map, append-empty, empty-append, ◌≡◌, some_inj, refl, ap, sym, subst,
  ◌↔◌, inl, inr, ◌≢◌, String, false, ◌||◌, some, List, [], ◌∷◌, ◌++◌, ◌==◌, string_eq, length,
  length-append, arith, Bool-cases, Option-cases,
}
use fractalide.Prelude.Map.{Map, get, insert, contains_key, get-insert}
use fractalide.Edges.CoreGraph.{CoreGraphExtIn}
use fractalide.Check.{Uses, crowded, listed, add_use, end_text, check_inputs}

-- Each port that is in the map is connected once.
abbrev pub IsTidy : Map String (List String) → Type 0
IsTidy [] = Unit
IsTidy ((k, v) ∷ m) = (length v ≡ 1) × IsTidy m

crowded-IsTidy : (arrow : String) (m : Map String (List String)) → IsTidy m → crowded arrow m ≡ []
unfolding crowded
crowded-IsTidy arrow [] t = refl
crowded-IsTidy arrow ((k, v) ∷ m) t = ground (arith, t.0, crowded-IsTidy arrow m t.1)

insert-IsTidy :
    (m : Map String (List String)) (k r : String) → IsTidy m → IsTidy (insert m k (r ∷ []))
unfolding insert
insert-IsTidy [] k r t = (refl, tt)
insert-IsTidy ((j, v) ∷ m) k r t = elim (Bool-cases (j == k)) [
  | inl e ↦ rw e (refl, t.1)
  | inr e ↦ rw e (t.0, insert-IsTidy m k r t.1)
]

crowded-insert :
    (arrow : String) (m : Map String (List String)) (k r : String) (v : List String)
    → IsTidy m
    → get m k ≡ some v
    → crowded arrow (insert m k (v ++ r ∷ [])) ≢ []
unfolding crowded insert get
crowded-insert arrow [] k r v t h e = absurd (cc)
crowded-insert arrow ((j, w) ∷ m) k r v t h e = elim (Bool-cases (j == k)) [
  | inl same ↦
      let here : w ≡ v = some_inj (ground (arith, h, same)) in
      ground (arith, e, same, t.0, ap length here, length-append v (r ∷ []))
  | inr other ↦
      crowded-insert arrow m k r v t.1 (ground (arith, h, other)) (ground (arith, e, other, t.0))
]

listed_new :
    (m : Map String (List String)) (k : String) → contains_key m k ≡ false → listed m k ≡ []
listed_new m k h = ground arith

listed_old :
    (m : Map String (List String)) (k : String) (v : List String)
    → get m k ≡ some v
    → listed m k ≡ v
listed_old m k v h = ground arith

used-IsTidy :
    (m : Map String (List String)) (k r : String)
    → IsTidy m
    → contains_key m k ≡ false
    → IsTidy (insert m k (listed m k ++ r ∷ []))
used-IsTidy m k r t h =
    subst (λ l. IsTidy (insert m k (l ++ r ∷ []))) (sym (listed_new m k h)) (insert-IsTidy m k r t)

used_new :
    (arrow : String) (m : Map String (List String)) (k r : String)
    → IsTidy m
    → crowded arrow (insert m k (listed m k ++ r ∷ [])) ≡ []
    → contains_key m k ≡ false
used_new arrow m k r t h = elim (Option-cases (get m k)) [
  | inl e ↦ ground (arith, e)
  | inr (v, e) ↦ absurd (
      crowded-insert arrow m k r v t e
        (subst (λ l. crowded arrow (insert m k (l ++ r ∷ [])) ≡ []) (listed_old m k v e) h))
]

-- A port raises no error where it is new.
pub add_use-errors :
    (arrow : String) (s : Uses) (k r : String)
    → IsTidy s.uses
    → ((add_use arrow s k r).errors ≡ []) ↔ ((s.errors ≡ []) × (contains_key s.uses k ≡ false))
unfolding add_use
add_use-errors arrow s k r t = (
  λ h.
      let (before, none_crowded) = append-empty s.errors _ h in
      (before, used_new arrow s.uses k r t none_crowded),
  λ p. empty-append s.errors _ p.0 (
      crowded-IsTidy arrow (insert s.uses k (listed s.uses k ++ r ∷ []))
        (used-IsTidy s.uses k r t p.1)),
)

pub add_use-IsTidy :
    (arrow : String) (s : Uses) (k r : String)
    → IsTidy s.uses
    → contains_key s.uses k ≡ false
    → IsTidy (add_use arrow s k r).uses
unfolding add_use
add_use-IsTidy arrow s k r t h = used-IsTidy s.uses k r t h

-- What is in use after one more.
contains-add_use :
    (arrow : String) (s : Uses) (k r j : String)
    → contains_key (add_use arrow s k r).uses j ≡ (contains_key s.uses j || k == j)
unfolding add_use
contains-add_use arrow s k r j =
    ground (arith, get-insert s.uses k (listed s.uses k ++ r ∷ []) j, string_eq.beq_iff k j)

abbrev pub Unused : Map String (List String) → String → Type 0
Unused m k = contains_key m k ≡ false

pub Unused-later :
    (arrow : String) (s : Uses) (k r j : String)
    → Unused (add_use arrow s k r).uses j
    → Unused s.uses j × (k ≢ j)
Unused-later arrow s k r j h = (
  ground (arith, h, contains-add_use arrow s k r j),
  λ e. ground (arith, h, contains-add_use arrow s k r j, (string_eq.beq_iff k j).1 e),
)

pub Unused-added :
    (arrow : String) (s : Uses) (k r j : String)
    → Unused s.uses j
    → k ≢ j
    → Unused (add_use arrow s k r).uses j
Unused-added arrow s k r j h ne = elim (Bool-cases (k == j)) [
  | inl e ↦ absurd (ne ((string_eq.beq_iff k j).0 e))
  | inr e ↦ ground (arith, h, contains-add_use arrow s k r j, e)
]

abbrev pub OtherPort : CoreGraphExtIn → CoreGraphExtIn → Type 0
OtherPort n m = n.port ≢ m.port

receiver_of : CoreGraphExtIn → String
receiver_of n = end_text n.in_comp n.in_port n.in_elem

inputs_before :
    (ns : List CoreGraphExtIn) (s : Uses) → (check_inputs s ns).errors ≡ [] → s.errors ≡ []
unfolding check_inputs add_use
inputs_before [] s h = h
inputs_before (n ∷ ns) s h =
    (append-empty s.errors _
      (inputs_before ns (add_use " => " s n.port (end_text n.in_comp n.in_port n.in_elem)) h)).0

-- The outside ports raise no error where each is used once.
pub inputs-errors :
    (ns : List CoreGraphExtIn) (s : Uses)
    → IsTidy s.uses
    → ((check_inputs s ns).errors ≡ [])
      ↔ ((s.errors ≡ []) × All (λ n. Unused s.uses n.port) ns × Pairwise OtherPort ns)
unfolding check_inputs
inputs-errors [] s t = (λ h. (h, tt, tt), λ p. p.0)
inputs-errors (n ∷ ns) s t =
    let r = end_text n.in_comp n.in_port n.in_elem in
    let step = add_use-errors " => " s n.port r t in
    let later = λ (free : Unused s.uses n.port).
      inputs-errors ns (add_use " => " s n.port r) (add_use-IsTidy " => " s n.port r t free) in
    (
      λ h.
          let (before, free) = step.0 (inputs_before ns (add_use " => " s n.port r) h) in
          let (clean, unused, apart) = (later free).0 h in
          (
            before,
            (free, All-map (λ m f. (Unused-later " => " s n.port r m.port f).0) ns unused),
            (All-map (λ m f. (Unused-later " => " s n.port r m.port f).1) ns unused, apart),
          ),
      λ p. (later p.1.0).1 (
        step.1 (p.0, p.1.0),
        All-zip (λ m f g. Unused-added " => " s n.port r m.port f g) ns p.1.1 p.2.0,
        p.2.1,
      ),
    )
