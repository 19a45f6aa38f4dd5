-- ===== src/Tags.antt =====
-- internal/tags/tags.go: struct tags as byte strings. A tag is a sequence of entries; indexing past
-- its end is a Go panic, for which a function here answers `none`.
pub mod Entries
pub mod Accessors
pub mod Trim
pub mod Walk
pub mod Parse
pub mod Layers
pub mod Parsing
pub mod Outcomes
pub mod Sound
pub mod Print
pub mod Ink
pub mod Complete
pub mod Text
pub mod Printed
mod Runs
mod ParseRuns
use xdr.Prelude.{
  ℕ, zero, suc, ◌+◌, ◌-◌, ◌*◌, ◌%◌, ◌^◌, Bool, true, false, Option, none, some, List, [], ◌∷◌, ◌++◌,
  bit_or, ltb, leb, ◌==◌, if◌then◌else◌, length, take, drop, get_elem?,
}
use xdr.Encoder.{byte_at}

abbrev pub Tag : Type 0
Tag = List ℕ

-- The constants of type `XDRTagKind`.
abbrev pub noop : ℕ
noop = 0x00

abbrev pub skip : ℕ
skip = 0x01

abbrev pub opt : ℕ
opt = 0x02

abbrev pub opaque : ℕ
opaque = 0x03

abbrev pub union_switch : ℕ
union_switch = 0x04

abbrev pub union_default : ℕ
union_default = 0x05

abbrev pub len : ℕ
len = 0x86

abbrev pub max_len : ℕ
max_len = 0x87

abbrev pub union_cases : ℕ
union_cases = 0xC8

-- A Go value, or a panic.
infixl 5 ◌>>=◌
abbrev pub ◌>>=◌ {ℓ κ} : {A : Type ℓ} {B : Type κ} → Option A → (A → Option B) → Option B
none >>= f = none
some a >>= f = f a

abbrev pub empty : Tag → Bool
empty [] = true
empty (b ∷ bs) = false

-- `Kind()`
unfoldable pub kind : Tag → ℕ
kind [] = noop
kind (b ∷ bs) = b

-- `valAt(offs)`: shifts, `|` and `+` in Go's precedence.
unfoldable pub val_at : Tag → ℕ → Option ℕ
val_at t offs = do
  d ← get_elem? t (offs + 3)
  a ← get_elem? t offs
  b ← get_elem? t (offs + 1)
  c ← get_elem? t (offs + 2)
  some ((bit_or (bit_or (a * 2 ^ 24) (b * 2 ^ 16)) (c * 2 ^ 8) + d) % 2 ^ 32)

-- `thisLen()`
unfoldable pub this_len : Tag → Option ℕ
this_len [] = some 0
this_len (b ∷ bs) =
    if ltb b 0x80
    then some 1
    else if ltb b 0xC0
    then some 5
    else (val_at (b ∷ bs) 1 >>= λ n. some (5 + n * 4))

-- `Next()`; slicing past the end is a panic.
unfoldable pub next : Tag → Option Tag
unfolding this_len
next t = this_len t >>= λ l. (if ltb (length t) l then none else some (drop l t))

-- `OnlyValue()`
unfoldable pub only_value : Tag → Option ℕ
only_value t = val_at t 1

-- `ValueRange()`; the first line of two branches is a bounds check.
unfoldable pub value_range : Tag → Option (ℕ × ℕ)
value_range [] = none
value_range (b ∷ bs) =
    if ltb b 0x80
    then some (0, 0)
    else if ltb b 0xC0
    then (get_elem? (b ∷ bs) 4 >>= λ _. some (0, 1))
    else do n ← val_at (b ∷ bs) 1; _ ← get_elem? (b ∷ bs) (4 * (1 + n)); some (1, 1 + n)

-- `Value(n)`
unfoldable pub value : Tag → ℕ → Option ℕ
value t n = val_at t (1 + 4 * n)

-- `for i, n := t.ValueRange(); i < n; i++ { v := t.Value(i) … }` for the values in turn.
unfoldable pub values_from : Tag → ℕ → ℕ → Option (List ℕ)
values_from t i zero = some []
values_from t i (suc rounds) = do v ← value t i; vs ← values_from t (i + 1) rounds; some (v ∷ vs)

unfoldable pub values : Tag → Option (List ℕ)
values t = value_range t >>= λ (i, n). values_from t i (n - i)

-- `byte(v>>24), byte(v>>16), byte(v>>8), byte(v)`
abbrev pub four_bytes : ℕ → List ℕ
four_bytes v = byte_at v 24 ∷ byte_at v 16 ∷ byte_at v 8 ∷ byte_at v 0 ∷ []

abbrev pub all_bytes : List ℕ → List ℕ
all_bytes [] = []
all_bytes (v ∷ vs) = four_bytes v ++ all_bytes vs

abbrev append_flag : Tag → ℕ → List ℕ → Option Tag
append_flag t k [] = some (t ++ (k ∷ []))
append_flag t k (v ∷ vs) = none

abbrev append_single : Tag → ℕ → List ℕ → Option Tag
append_single t k [] = none
append_single t k (v ∷ []) = some (t ++ (k ∷ four_bytes v))
append_single t k (v ∷ w ∷ vs) = none

-- `Append(k, values...)`; a wrong number of values is a panic.
unfoldable pub append : Tag → ℕ → List ℕ → Option Tag
append t k vs =
    if ltb k 0x80
    then append_flag t k vs
    else if ltb k 0xC0
    then append_single t k vs
    else some (t ++ (k ∷ (four_bytes (length vs % 2 ^ 32) ++ all_bytes vs)))

-- `Prepend(k, values...)`
unfoldable pub prepend : Tag → ℕ → List ℕ → Option Tag
prepend t k vs = append [] k vs >>= λ nt. some (nt ++ t)

-- The loop of `Trimmed`: `e` bytes seen, `mark` bytes up to the last entry that is no `Noop`.
unfoldable pub trim_loop : ℕ → Tag → ℕ → ℕ → Option ℕ
trim_loop fuel [] e mark = some mark
trim_loop zero (b ∷ bs) e mark = none
trim_loop (suc fuel) (b ∷ bs) e mark = do
  l ← this_len (b ∷ bs)
  rest ← next (b ∷ bs)
  trim_loop fuel rest (e + l) (if b == noop then mark else e + l)

-- `Trimmed()`. Every entry has a byte at least, so the length of the tag is fuel enough.
unfoldable pub trimmed : Tag → Option Tag
unfolding trim_loop
trimmed t = trim_loop (length t) t 0 0 >>= λ mark. some (take mark t)
