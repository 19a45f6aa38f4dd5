-- ===== src/Prelude/Texts.antt =====
-- What the program uses of Go's `strings`, `strconv` and `fmt` packages, on ASCII texts.
pub mod Numbers
pub mod Decimal
pub mod Parts
use Prim.Native.Nat.{ℕ, zero, suc, ◌+◌, ◌-◌, ◌*◌, ◌^◌, bit_or}
use mathlib.Core.Bool.{Bool, true, false, ◌&&◌, ◌||◌, not}
use mathlib.Core.Option.{Option, none, some}
use mathlib.Core.List.{List, [], ◌∷◌, ◌++◌}
use xdr.Prelude.Tests.{ltb, leb, ◌==◌, if◌then◌else◌, Text}

-- `strings.TrimSpace`
abbrev pub is_space : ℕ → Bool
is_space c = c == 0x20 || (leb 0x09 c && leb c 0x0D)

unfoldable pub trim_left : Text → Text
trim_left [] = []
trim_left (c ∷ s) = let rest = trim_left s in if is_space c then rest else c ∷ s

abbrev pub keep : ℕ → Text → Text
keep c [] = if is_space c then [] else c ∷ []
keep c (d ∷ s) = c ∷ d ∷ s

unfoldable pub trim_right : Text → Text
trim_right [] = []
trim_right (c ∷ s) = keep c (trim_right s)

unfoldable pub trim_space : Text → Text
unfolding trim_left trim_right
trim_space s = trim_right (trim_left s)

abbrev pub cut : Bool → ℕ → Text × List Text → Text × List Text
cut true c (p, ps) = ([], p ∷ ps)
cut false c (p, ps) = (c ∷ p, ps)

-- `strings.Split`: the part in front of the first separator, and the other parts.
unfoldable pub split : ℕ → Text → Text × List Text
split sep [] = ([], [])
split sep (c ∷ s) = cut (c == sep) c (split sep s)

-- `strings.HasPrefix` and what is behind the prefix.
unfoldable pub after_prefix : Text → Text → Option Text
after_prefix [] s = some s
after_prefix (c ∷ p) [] = none
after_prefix (c ∷ p) (d ∷ s) = let rest = after_prefix p s in if c == d then rest else none

-- `lower` of package `strconv`
abbrev pub lower : ℕ → ℕ
lower c = bit_or c 0x20

abbrev pub is_digit : ℕ → Bool
is_digit c = leb b'0' c && leb c b'9'

-- A digit's value, whatever the base.
abbrev pub digit_value : ℕ → Option ℕ
digit_value c =
    if is_digit c
    then some (c - b'0')
    else if leb b'a' (lower c) && leb (lower c) b'z'
    then some (lower c - b'a' + 10)
    else none

-- A digit behind those that make `n`: not beyond the base, and the number not beyond 32 bits.
abbrev pub add_digit : ℕ → ℕ → Option ℕ → Option ℕ
add_digit base n none = none
add_digit base n (some d) =
    if leb base d then none else if leb (2 ^ 32) (n * base + d) then none else some (n * base + d)

abbrev on_digits : (ℕ → Option ℕ) → Option ℕ → Option ℕ
on_digits f none = none
on_digits f (some n) = f n

-- The loop over the digits; `_` is passed over.
unfoldable pub digits_from : ℕ → ℕ → Text → Option ℕ
digits_from base n [] = some n
digits_from base n (c ∷ s) = elim (c == b'_') [
  | true ↦ digits_from base n s
  | false ↦ on_digits (λ m. digits_from base m s) (add_digit base n (digit_value c))
]

abbrev is_base_letter : ℕ → Bool
is_base_letter c = lower c == b'b' || lower c == b'o' || lower c == b'x'

-- What a leading `0` says of the base, and the digits behind it.
abbrev pub prefixed : Text → ℕ × Text
prefixed (b ∷ c ∷ s) =
    if lower b == b'b'
    then (2, c ∷ s)
    else if lower b == b'o'
    then (8, c ∷ s)
    else if lower b == b'x'
    then (16, c ∷ s)
    else (8, b ∷ c ∷ s)
prefixed s = (8, s)

abbrev pub based : Text → ℕ × Text
based [] = (10, [])
based (z ∷ s) = if z == b'0' then prefixed s else (10, z ∷ s)

-- The last character that `underscoreOK` saw: a digit, `_`, or something else.
pub data Saw : Type 0 where
  saw_digit saw_underscore saw_other : Saw

abbrev may_follow : Saw → Bool
may_follow saw_digit = true
may_follow _ = false

abbrev is_hex_letter : Bool → ℕ → Bool
is_hex_letter hex c = hex && (leb b'a' (lower c) && leb (lower c) b'f')

abbrev ends_well : Saw → Bool
ends_well saw_underscore = false
ends_well _ = true

-- What is seen with the next character; `none` ends the loop with `false`.
abbrev saw_next : Bool → Saw → ℕ → Option Saw
saw_next hex saw c =
    if is_digit c || is_hex_letter hex c
    then some saw_digit
    else if c == b'_'
    then (if may_follow saw then some saw_underscore else none)
    else if ends_well saw
    then some saw_other
    else none

abbrev while_well : (Saw → Bool) → Option Saw → Bool
while_well f none = false
while_well f (some saw) = f saw

unfoldable pub underscores_from : Bool → Saw → Text → Bool
underscores_from hex saw [] = ends_well saw
underscores_from hex saw (c ∷ s) =
    while_well (λ next. underscores_from hex next s) (saw_next hex saw c)

-- `underscoreOK`, without the sign that no unsigned number has.
unfoldable pub underscores_ok : Text → Bool
unfolding underscores_from
underscores_ok (z ∷ b ∷ s) =
    if z == b'0' && is_base_letter b
    then underscores_from (lower b == b'x') saw_digit s
    else underscores_from false saw_other (z ∷ b ∷ s)
underscores_ok s = underscores_from false saw_other s

abbrev pub has_underscore : Text → Bool
has_underscore [] = false
has_underscore (c ∷ s) = c == b'_' || has_underscore s

-- `strconv.ParseUint(s, 0, 32)`, where `none` is an error.
unfoldable pub parse_uint32 : Text → Option ℕ
unfolding digits_from underscores_ok
parse_uint32 [] = none
parse_uint32 (c ∷ s) =
    let (base, digits) = based (c ∷ s) in
    if has_underscore (c ∷ s) && not (underscores_ok (c ∷ s))
    then none
    else digits_from base 0 digits

-- A hexadecimal digit of package `fmt`.
abbrev pub hex_digit : ℕ → ℕ
hex_digit d = if ltb d 10 then b'0' + d else b'a' + (d - 10)
