-- ===== src/Check/Nodes.antt =====
-- The check of the nodes.
use fractalide.Prelude.{
  All, Pairwise, All-zip, All-map, ◌≡◌, ◌↔◌, ◌⊎◌, inl, inr, ◌≢◌, String, Bool, true, false, not,
  ◌&&◌, ◌||◌, Option, none, some, List, [], ◌∷◌, ◌++◌, ◌==◌, string_eq, arith, Bool-cases,
}
use fractalide.Prelude.Map.{Map, get, contains_key, get-insert}
use fractalide.Edges.CoreGraph.{CoreGraphNode}
use fractalide.Check.{Names, see_sort, sort_text, see_nodes}

-- A node is given at most one sort.
abbrev pub SortOnce : CoreGraphNode → CoreGraphNode → Type 0
SortOnce n m = n.name ≡ m.name → (n.sort ≡ "") ⊎ (m.sort ≡ "")

abbrev pub is_sort : Option String → Bool
is_sort none = false
is_sort (some v) = not (v == "")

abbrev pub has_sort : Map String String → String → Bool
has_sort m k = is_sort (get m k)

abbrev pub Fits : Map String String → CoreGraphNode → Type 0
Fits m n = has_sort m n.name ≡ true → n.sort ≡ ""

abbrev pub seen : Names → CoreGraphNode → Names
seen s n = see_sort s n (get s.nodes n.name)

has_sort-seen :
    (s : Names) (n : CoreGraphNode) (k : String)
    → has_sort (seen s n).nodes k ≡ (has_sort s.nodes k || (n.name == k && not (n.sort == "")))
unfolding see_sort
has_sort-seen s n k = ground (arith, get-insert s.nodes n.name n.sort k, string_eq.beq_iff n.name k)

pub contains-seen :
    (s : Names) (n : CoreGraphNode) (k : String)
    → contains_key (seen s n).nodes k ≡ (contains_key s.nodes k || n.name == k)
unfolding see_sort
contains-seen s n k = ground (arith, get-insert s.nodes n.name n.sort k, string_eq.beq_iff n.name k)

not_empty : (xs : List String) (x : String) → xs ++ x ∷ [] ≢ []
not_empty [] x h = absurd (cc)
not_empty (y ∷ xs) x h = absurd (cc)

sort-errors :
    (s : Names) (n : CoreGraphNode) (o : Option String)
    → ((see_sort s n o).errors ≡ []) ↔ ((s.errors ≡ []) × (is_sort o ≡ true → n.sort ≡ ""))
unfolding see_sort
sort-errors s n none = (λ h. (h, λ k. absurd (cc)), λ p. p.0)
sort-errors s n (some v) = elim (Bool-cases (v == "")) [
  | inl e ↦ (λ h. (ground (arith, h, e), λ k. ground (arith, e, k)), λ p. ground (arith, p.0, e))
  | inr e ↦ elim (Bool-cases (n.sort == "")) [
    | inl f ↦
        let none_there : n.sort ≡ "" = (string_eq.beq_iff n.sort "").0 f in
        (λ h. (ground (arith, h, e, f), λ k. none_there), λ p. ground (arith, p.0, e, f))
    | inr f ↦ (
      λ h. absurd (not_empty s.errors (sort_text n v) (ground (arith, h, e, f))),
      λ p.
          let given : n.sort ≡ "" = p.1 (ground (arith, e)) in
          ground (arith, f, (string_eq.beq_iff n.sort "").1 given),
    )
  ]
]

-- What the nodes seen so far ask of a node, and what one more asks.
Fits-later :
    (s : Names) (n m : CoreGraphNode) → Fits (seen s n).nodes m → Fits s.nodes m × SortOnce n m
Fits-later s n m f = (
  λ k. f (ground (arith, has_sort-seen s n m.name, k)),
  λ e. elim (Bool-cases (n.sort == "")) [
    | inl none_there ↦ inl ((string_eq.beq_iff n.sort "").0 none_there)
    | inr there ↦
        inr (
          f (
            ground (arith, has_sort-seen s n m.name, there, (string_eq.beq_iff n.name m.name).1 e)))
  ],
)

Fits-seen :
    (s : Names) (n m : CoreGraphNode) → Fits s.nodes m → SortOnce n m → Fits (seen s n).nodes m
Fits-seen s n m f g k = elim (Bool-cases (has_sort s.nodes m.name)) [
  | inl old ↦ f old
  | inr new ↦
      let same : (n.name == m.name) ≡ true = ground (arith, has_sort-seen s n m.name, k, new) in
      let there : (n.sort == "") ≡ false = ground (arith, has_sort-seen s n m.name, k, new) in
      elim (g ((string_eq.beq_iff n.name m.name).0 same)) [
        | inl e ↦ absurd (ground (arith, there, (string_eq.beq_iff n.sort "").1 e))
        | inr e ↦ e
      ]
]

-- The nodes raise no error where no name gets a second sort.
pub nodes-errors :
    (ns : List CoreGraphNode) (s : Names)
    → ((see_nodes s ns).errors ≡ [])
      ↔ ((s.errors ≡ []) × All (Fits s.nodes) ns × Pairwise SortOnce ns)
unfolding see_nodes
nodes-errors [] s = (λ h. (h, tt, tt), λ p. p.0)
nodes-errors (n ∷ ns) s =
    let step = sort-errors s n (get s.nodes n.name) in
    let later = nodes-errors ns (seen s n) in
    (
      λ h.
          let (clean, fits, apart) = later.0 h in
          let (before, fit) = step.0 clean in
          (
            before,
            (fit, All-map (λ m f. (Fits-later s n m f).0) ns fits),
            (All-map (λ m f. (Fits-later s n m f).1) ns fits, apart),
          ),
      λ p.
          later.1
            (step.1 (p.0, p.1.0), All-zip (λ m f g. Fits-seen s n m f g) ns p.1.1 p.2.0, p.2.1),
    )
