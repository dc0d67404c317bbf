-- ===== src/Prelude/Utf8.antt =====
-- Text as bytes: `str::as_bytes` and `str::from_utf8`.
use Prim.Native.Nat.{ℕ, zero, suc, Ordering, compare, ◌+◌, ◌-◌, ◌*◌, ◌/◌, ◌%◌}
use Prim.Native.Char.{Char, char, IsLt}
use Prim.Native.String.{String, [] as nil, ◌∷◌ as cons}
use mathlib.Core.Path.{◌≡◌, refl}
use mathlib.Core.Bool.{Bool, ◌&&◌, not}
use mathlib.Core.Option.{Option, none, some}
use mathlib.Core.List.{List, [], ◌∷◌, ◌++◌}
use fractalide.Prelude.Tests.{ltb, if◌then◌else◌}
use fractalide.Prelude.Lists.{length}

-- The bytes of a code point.
encode : ℕ → List ℕ
encode n =
    if ltb n 0x80
    then n ∷ []
    else if ltb n 0x800
    then (0xC0 + n / 64) ∷ (0x80 + n % 64) ∷ []
    else if ltb n 0x10000
    then (0xE0 + n / 4096) ∷ (0x80 + (n / 64) % 64) ∷ (0x80 + n % 64) ∷ []
    else (0xF0 + n / 262144)
      ∷ (0x80 + (n / 4096) % 64)
      ∷ (0x80 + (n / 64) % 64)
      ∷ (0x80 + n % 64)
      ∷ []

unfoldable pub as_bytes : String → List ℕ
unfolding encode
as_bytes nil = []
as_bytes (cons (char n p) s) = encode n ++ as_bytes s

-- A number is a character where it is no surrogate and below 110000 (hexadecimal); these are the
-- comparisons of `IsScalar`.
abbrev BothBelow : Ordering → Ordering → Type 0
BothBelow Ordering.lt o = IsLt o
BothBelow Ordering.eq _ = ⊥
BothBelow Ordering.gt _ = ⊥

abbrev pub BelowOrBoth : Ordering → Ordering → Ordering → Type 0
BelowOrBoth Ordering.lt _ _ = Unit
BelowOrBoth Ordering.eq o p = BothBelow o p
BelowOrBoth Ordering.gt o p = BothBelow o p

below? : (o : Ordering) → Option (IsLt o)
below? Ordering.lt = some tt
below? Ordering.eq = none
below? Ordering.gt = none

both? : (o p : Ordering) → Option (BothBelow o p)
unfolding below?
both? Ordering.lt p = below? p
both? Ordering.eq p = none
both? Ordering.gt p = none

unfoldable pub scalar? : (o p q : Ordering) → Option (BelowOrBoth o p q)
unfolding both?
scalar? Ordering.lt p q = some tt
scalar? Ordering.eq p q = both? p q
scalar? Ordering.gt p q = both? p q

unfoldable pub char? : ℕ → Option Char
unfolding scalar?
char? n = elim (scalar? (compare n 55296) (compare 57343 n) (compare n 1114112)) [
  | none ↦ none
  | some p ↦ some (char n p)
]

abbrev put : Option Char → Option String → Option String
put none s = none
put (some c) none = none
put (some c) (some s) = some (cons c s)

-- A byte that continues a character.
abbrev continues : ℕ → Bool
continues b = not (ltb b 0x80) && ltb b 0xC0

-- No character is written with more bytes than it needs.
decode : ℕ → List ℕ → Option String
unfolding char?
decode zero bytes = none
decode (suc fuel) [] = some nil
decode (suc fuel) (b ∷ rest) =
    let one = put (char? b) (decode fuel rest) in
    let more = decode_more b rest (λ l. decode fuel l) in if ltb b 0x80 then one else more
  where
    two : ℕ → List ℕ → (List ℕ → Option String) → Option String
    two b (c ∷ rest) next =
        if continues c then put (char? ((b - 0xC0) * 64 + (c - 0x80))) (next rest) else none
    two b _ next = none

    three : ℕ → List ℕ → (List ℕ → Option String) → Option String
    three b (c ∷ d ∷ rest) next =
        let n = (b - 0xE0) * 4096 + (c - 0x80) * 64 + (d - 0x80) in
        if continues c && continues d && not (ltb n 0x800) then put (char? n) (next rest) else none
    three b _ next = none

    four : ℕ → List ℕ → (List ℕ → Option String) → Option String
    four b (c ∷ d ∷ e ∷ rest) next =
        let n = (b - 0xF0) * 262144 + (c - 0x80) * 4096 + (d - 0x80) * 64 + (e - 0x80) in
        if continues c && continues d && continues e && not (ltb n 0x10000)
        then put (char? n) (next rest)
        else none
    four b _ next = none

    decode_more : ℕ → List ℕ → (List ℕ → Option String) → Option String
    decode_more b rest next =
        if ltb b 0xC2
        then none
        else if ltb b 0xE0
        then two b rest next
        else if ltb b 0xF0
        then three b rest next
        else if ltb b 0xF5
        then four b rest next
        else none

-- Each character takes a byte at least: one more than the bytes is fuel enough.
unfoldable pub from_utf8 : List ℕ → Option String
unfolding decode
from_utf8 bytes = decode (suc (length bytes)) bytes

from_utf8_example : from_utf8 (as_bytes "a→é𝄞") ≡ some "a→é𝄞"
unfolding from_utf8 as_bytes
from_utf8_example = refl

surrogate_refused : from_utf8 (0xED ∷ 0xA0 ∷ 0x80 ∷ []) ≡ none
unfolding from_utf8
surrogate_refused = refl

overlong_refused : from_utf8 (0xC0 ∷ 0xAF ∷ []) ≡ none
unfolding from_utf8
overlong_refused = refl
