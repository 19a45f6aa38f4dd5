-- ===== src/Values.antt =====
-- Go values as the codecs see them, through `reflect.Value` or through a pointer to memory.
-- Integers and floats are bit patterns. A nil slice and an empty one are the same value, and a
-- value of pointer or interface type is nil or holds its referent.
use xdr.Prelude.{
  ℕ, zero, suc, ◌+◌, ◌-◌, ◌^◌, Bool, Option, none, some, List, [], ◌∷◌, ltb, if◌then◌else◌, Text,
}

pub data IntSize : Type 0 where
  w8 w16 w32 w64 : IntSize

abbrev pub bits : IntSize → ℕ
bits w8 = 8
bits w16 = 16
bits w32 = 32
bits w64 = 64

mutual
  pub data Value : Type 0 where
    bool_v : Bool → Value
    int_v : IntSize → ℕ → Value
    uint_v : IntSize → ℕ → Value
    float32_v : ℕ → Value
    float64_v : ℕ → Value
    complex64_v : ℕ → ℕ → Value
    complex128_v : ℕ → ℕ → Value
    string_v : Text → Value
    array_v : Values → Value
    slice_v : Values → Value
    nil_v : Value
    ptr_v : Value → Value
    struct_v : Values → Value

  pub data Values : Type 0 where
    no_values : Values
    and_value : Value → Values → Values

-- The pattern of `to` bits for the signed integer that a pattern of `from` bits stands for.
unfoldable pub sign_extend : ℕ → ℕ → ℕ → ℕ
sign_extend from to x = if ltb x (2 ^ (from - 1)) then x else x + (2 ^ to - 2 ^ from)

abbrev pub value_at : ℕ → Values → Option Value
value_at i no_values = none
value_at zero (and_value v vs) = some v
value_at (suc i) (and_value v vs) = value_at i vs

-- `v.Field(i)`, where `none` is a panic.
abbrev pub field_at : ℕ → Value → Option Value
field_at i (struct_v vs) = value_at i vs
field_at i v = none

abbrev pub count_values : Values → ℕ
count_values no_values = 0
count_values (and_value v vs) = suc (count_values vs)

abbrev pub cons_byte : ℕ → Option (List ℕ) → Option (List ℕ)
cons_byte b none = none
cons_byte b (some bs) = some (b ∷ bs)

-- The elements of a `[]byte` or `[N]byte` as `v.Bytes()` returns them; at other element types that
-- is a panic, `int8` included.
unfoldable pub bytes_of : Values → Option (List ℕ)
bytes_of no_values = some []
bytes_of (and_value (uint_v w8 b) vs) = cons_byte b (bytes_of vs)
bytes_of (and_value _ vs) = none

-- The same memory read as bytes, which serves for `int8` too.
unfoldable pub memory_bytes : Values → Option (List ℕ)
memory_bytes no_values = some []
memory_bytes (and_value (uint_v w8 b) vs) = cons_byte b (memory_bytes vs)
memory_bytes (and_value (int_v w8 b) vs) = cons_byte b (memory_bytes vs)
memory_bytes (and_value _ vs) = none

unfoldable pub byte_values : List ℕ → Values
byte_values [] = no_values
byte_values (b ∷ bs) = and_value (uint_v w8 b) (byte_values bs)
