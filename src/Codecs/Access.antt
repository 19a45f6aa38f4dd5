-- ===== src/Codecs/Access.antt =====
-- internal/coder/codec_primitive.go and codec_primitive_unsafe.go: how a codec gets at the value to
-- encode, by `reflect` or by a read of memory; and what the library takes from its host program.
use xdr.Prelude.{
  ℕ, Bool, true, false, not, ◌&&◌, ◌||◌, [], ◌∷◌, Option, none, some, List, leb, if◌then◌else◌,
  length, take, Text,
}
use xdr.Errors.{Err}
use xdr.Io.{Written, Encode, Decode, done, failed, aborted, panic, wild_access}
use xdr.Values.{
  w8, w16, w32, w64, bits, Value, bool_v, int_v, uint_v, float32_v, float64_v, complex64_v,
  complex128_v, string_v, Values, array_v, slice_v, nil_v, ptr_v, memory_bytes, bytes_of,
  sign_extend,
}
use xdr.Codecs.{Codec, XType}

-- Not under internal/coder: Go's conversions between the patterns of float32 and float64, the
-- methods of a `Marshaler`, and registered codecs. `resolve` is the state of the coder: the codec
-- that stands behind the placeholder of a type, once it has been built.
pub record Host (W : Type 0) : Type 0 where
  pub widen : ℕ → ℕ
  pub narrow : ℕ → ℕ
  pub marshal_xdr : Value → Encode W
  pub unmarshal_xdr : Value → Decode Value
  pub encode_custom : ℕ → Value → Encode W
  pub decode_custom : ℕ → Value → Decode Value
  pub resolve : XType → Option Codec

-- The flags of a `reflect.Value`: whether it has an address, and whether it was obtained by way of an
-- unexported field, which makes it read-only.
pub record Flag : Type 0 where
  pub addr : Bool
  pub ro : Bool

-- A field is exported if its name begins with a capital letter.
unfoldable pub is_exported : Text → Bool
is_exported [] = false
is_exported (c ∷ cs) = leb b'A' c && leb c b'Z'

-- `v.Field(i)` of a field of that name: read-only if `v` is or if the field is unexported.
abbrev pub field_ro : Bool → Text → Bool
field_ro ro name = ro || not (is_exported name)

abbrev pub field_flag : Flag → Text → Flag
field_flag flag name = record flag { ro = field_ro flag.ro name }

-- What a pointer refers to, and the elements of a slice, have addresses.
abbrev pub referent_flag : Flag → Flag
referent_flag flag = record flag { addr = true }

-- A method of `reflect.Value` at a value of another kind panics.
abbrev pub getting : {A W : Type 0} → Option A → (A → Encode W) → Encode W
getting none f w = aborted panic
getting (some a) f w = f a w

-- A read through a pointer of another type.
abbrev pub reading : {A W : Type 0} → Option A → (A → Encode W) → Encode W
reading none f w = aborted wild_access
reading (some a) f w = f a w

-- `if err != nil { return f(err) }`
abbrev pub map_error : {W : Type 0} → (Err → Err) → Written W → Written W
map_error f (done w) = done w
map_error f (failed e w) = failed (f e) w
map_error f (aborted a) = aborted a

abbrev pub on_error : {W : Type 0} → (Err → Err) → Encode W → Encode W
on_error f m w = map_error f (m w)

-- `v.Bool()`, `*(*bool)(p)`
abbrev pub bool_of : Value → Option Bool
bool_of (bool_v b) = some b
bool_of _ = none

-- `v.Int()`, an int64.
abbrev pub int_of : Value → Option ℕ
int_of (int_v s x) = some (sign_extend (bits s) 64 x)
int_of _ = none

-- `v.Uint()`, a uint64.
abbrev pub uint_of : Value → Option ℕ
uint_of (uint_v s x) = some x
uint_of _ = none

abbrev pub int8_at : Value → Option ℕ
int8_at (int_v w8 x) = some x
int8_at _ = none

abbrev pub int16_at : Value → Option ℕ
int16_at (int_v w16 x) = some x
int16_at _ = none

abbrev pub int32_at : Value → Option ℕ
int32_at (int_v w32 x) = some x
int32_at _ = none

abbrev pub int64_at : Value → Option ℕ
int64_at (int_v w64 x) = some x
int64_at _ = none

abbrev pub uint8_at : Value → Option ℕ
uint8_at (uint_v w8 x) = some x
uint8_at _ = none

abbrev pub uint16_at : Value → Option ℕ
uint16_at (uint_v w16 x) = some x
uint16_at _ = none

abbrev pub uint32_at : Value → Option ℕ
uint32_at (uint_v w32 x) = some x
uint32_at _ = none

abbrev pub uint64_at : Value → Option ℕ
uint64_at (uint_v w64 x) = some x
uint64_at _ = none

-- `v.Float()`, a float64.
abbrev pub float_of : {W : Type 0} → Host W → Value → Option ℕ
float_of host (float32_v x) = some (host.widen x)
float_of host (float64_v x) = some x
float_of host _ = none

abbrev pub float32_at : Value → Option ℕ
float32_at (float32_v x) = some x
float32_at _ = none

abbrev pub float64_at : Value → Option ℕ
float64_at (float64_v x) = some x
float64_at _ = none

-- `v.Complex()`, a complex128.
abbrev pub complex_of : {W : Type 0} → Host W → Value → Option (ℕ × ℕ)
complex_of host (complex64_v re im) = some (host.widen re, host.widen im)
complex_of host (complex128_v re im) = some (re, im)
complex_of host _ = none

abbrev pub complex64_at : Value → Option (ℕ × ℕ)
complex64_at (complex64_v re im) = some (re, im)
complex64_at _ = none

abbrev pub complex128_at : Value → Option (ℕ × ℕ)
complex128_at (complex128_v re im) = some (re, im)
complex128_at _ = none

-- `v.String()` at a string, `*(*string)(p)`.
abbrev pub string_of : Value → Option Text
string_of (string_v s) = some s
string_of _ = none

abbrev first_bytes : ℕ → Option (List ℕ) → Option (List ℕ)
first_bytes len none = none
first_bytes len (some bs) = if leb len (length bs) then some (take len bs) else none

-- The `len` bytes from the pointer on.
abbrev pub opaque_memory : ℕ → Value → Option (List ℕ)
opaque_memory len (array_v vs) = first_bytes len (memory_bytes vs)
opaque_memory len _ = none

abbrev pub array_elements : Value → Option Values
array_elements (array_v vs) = some vs
array_elements _ = none

abbrev pub slice_elements : Value → Option Values
slice_elements (slice_v vs) = some vs
slice_elements _ = none

abbrev pub slice_memory : Value → Option (List ℕ)
slice_memory (slice_v vs) = memory_bytes vs
slice_memory _ = none

-- The pointer held in memory: nil, or the referent.
abbrev pub pointer_of : Value → Option (Option Value)
pointer_of nil_v = some none
pointer_of (ptr_v v) = some (some v)
pointer_of _ = none

-- `v.Slice(0, v.Len()).Bytes()`
abbrev pub array_bytes : Value → Option (List ℕ)
array_bytes (array_v vs) = bytes_of vs
array_bytes _ = none

-- `v.Bytes()`
abbrev pub slice_bytes : Value → Option (List ℕ)
slice_bytes (slice_v vs) = bytes_of vs
slice_bytes _ = none
