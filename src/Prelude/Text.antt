-- ===== src/Prelude/Text.antt =====
-- Text as `format!` builds it: pieces put together, and numbers in decimal.
use Prim.Native.Nat.{ℕ, zero, suc, ◌/◌, ◌%◌}
use Prim.Native.Char.{Char, char}
use Prim.Native.String.{String, [] as nil, ◌∷◌ as cons, ◌++◌ as append}
use mathlib.Core.Bool.{Bool, ◌&&◌, ◌||◌}
use mathlib.Core.Path.{◌≡◌, refl}
use mathlib.Core.List.{List, [], ◌∷◌}
use fractalide.Prelude.Tests.{ltb, ◌==◌, nat_eq, if◌then◌else◌}

-- `format!` of pieces.
unfoldable pub format : List String → String
format [] = ""
format (s ∷ rest) = append s (format rest)

digit : ℕ → String
digit d =
    if d == 0
    then "0"
    else if d == 1
    then "1"
    else if d == 2
    then "2"
    else if d == 3
    then "3"
    else if d == 4
    then "4"
    else if d == 5
    then "5"
    else if d == 6
    then "6"
    else if d == 7
    then "7"
    else if d == 8
    then "8"
    else "9"

-- A number has fewer digits than its successor counts, so `suc n` is fuel enough.
decimal_acc : ℕ → ℕ → String → String
decimal_acc zero n acc = acc
decimal_acc (suc fuel) n acc =
    let more = decimal_acc fuel (n / 10) (append (digit (n % 10)) acc) in
    if ltb n 10 then append (digit n) acc else more

pub decimal : ℕ → String
unfolding decimal_acc digit
decimal n = decimal_acc (suc n) n ""

decimal_example : decimal 1207 ≡ "1207"
unfolding decimal
decimal_example = refl

code : Char → ℕ
code (char n p) = n

-- The characters that Unicode calls white space.
is_whitespace : Char → Bool
unfolding code
is_whitespace c =
    let n = code c in
    (ltb 8 n && ltb n 14)
    || n == 32
    || n == 133
    || n == 160
    || n == 5760
    || (ltb 8191 n && ltb n 8203)
    || n == 8232
    || n == 8233
    || n == 8239
    || n == 8287
    || n == 12288

trim_start : String → String
unfolding is_whitespace
trim_start nil = nil
trim_start (cons c s) = let rest = trim_start s in if is_whitespace c then rest else cons c s

trim_end : String → String
unfolding is_whitespace
trim_end nil = nil
trim_end (cons c s) = trim_last c (trim_end s)
  where
    trim_last : Char → String → String
    trim_last c nil = if is_whitespace c then nil else cons c nil
    trim_last c (cons d s) = cons c (cons d s)

-- `str::trim`
unfoldable pub trim : String → String
unfolding trim_start trim_end
trim s = trim_start (trim_end s)

trim_example : trim " /nix/store/x\n" ≡ "/nix/store/x"
unfolding trim
trim_example = refl
