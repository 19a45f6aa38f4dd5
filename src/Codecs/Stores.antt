-- ===== src/Codecs/Stores.antt =====
-- internal/coder/codec_primitive.go and codec_primitive_unsafe.go: how a codec stores what it has
-- decoded, by a `Set` method of `reflect.Value` or by a write to memory, and how it goes on.
use xdr.Prelude.{ℕ, zero, suc, ◌%◌, ◌^◌, Bool, Option, none, some, List, [], ◌∷◌, Text}
use xdr.Errors.{Err, length_error}
use xdr.Io.{Decoded, Decode, got, aborted, Abort}
use xdr.Values.{
  IntSize, w8, w16, w32, w64, bits, Value, bool_v, int_v, uint_v, float32_v, float64_v, complex64_v,
  complex128_v, string_v, Values, no_values, and_value, array_v, slice_v, nil_v, ptr_v, struct_v,
  byte_values,
}
use xdr.Codecs.Access.{Host}

-- The value is changed, or it is of another type.
abbrev stored : Abort → Option Value → Option Err → Decode Value
stored bad none e r = aborted bad
stored bad (some v) e r = got v e r

-- Store what has been decoded, with or without an error; `bad` is what happens where the value is
-- of another type.
abbrev pub storing : {A : Type 0} → Abort → (A → Option Value) → Decoded A → Decoded Value
storing bad put (aborted x) = aborted x
storing bad put (got a e r) = stored bad (put a) e r

-- `if err != nil { return err }`, where the value is left as it is.
abbrev pub unless_error : {A B : Type 0} → B → Decoded A → (A → Decode B) → Decoded B
unless_error old (got a (some e) r) next = got old (some e) r
unless_error old (got a none r) next = next a r
unless_error old (aborted x) next = aborted x

-- What has been decoded into a part: the whole `put` round the part, and, without an error, what
-- follows on the whole. An error is changed by `f`.
abbrev pub into {ℓ} :
    {A : Type ℓ} → (Err → Err) → (Value → A) → Decoded Value → (A → Decode A) → Decoded A
into f put (got x (some e) r) next = got (put x) (some (f e)) r
into f put (got x none r) next = next (put x) r
into f put (aborted a) next = aborted a

abbrev pub done {ℓ} : {A : Type ℓ} → A → Decode A
done v r = got v none r

abbrev pub put_bool : Value → Bool → Option Value
put_bool (bool_v _) b = some (bool_v b)
put_bool _ b = none

-- `*(*int8)(p) = int8(i)` and the like.
abbrev pub put_int : IntSize → Value → ℕ → Option Value
put_int w8 (int_v w8 _) i = some (int_v w8 (i % 2 ^ 8))
put_int w16 (int_v w16 _) i = some (int_v w16 (i % 2 ^ 16))
put_int w32 (int_v w32 _) i = some (int_v w32 i)
put_int w64 (int_v w64 _) i = some (int_v w64 i)
put_int _ _ i = none

abbrev pub put_uint : IntSize → Value → ℕ → Option Value
put_uint w8 (uint_v w8 _) i = some (uint_v w8 (i % 2 ^ 8))
put_uint w16 (uint_v w16 _) i = some (uint_v w16 (i % 2 ^ 16))
put_uint w32 (uint_v w32 _) i = some (uint_v w32 i)
put_uint w64 (uint_v w64 _) i = some (uint_v w64 i)
put_uint _ _ i = none

-- `v.SetInt(i)` for the pattern of an int64, which is cut to the size of the value.
abbrev pub set_int : Value → ℕ → Option Value
set_int (int_v s _) i = some (int_v s (i % 2 ^ bits s))
set_int _ i = none

abbrev pub set_uint : Value → ℕ → Option Value
set_uint (uint_v s _) i = some (uint_v s (i % 2 ^ bits s))
set_uint _ i = none

abbrev pub put_float32 : Value → ℕ → Option Value
put_float32 (float32_v _) x = some (float32_v x)
put_float32 _ x = none

abbrev pub put_float64 : Value → ℕ → Option Value
put_float64 (float64_v _) x = some (float64_v x)
put_float64 _ x = none

-- `v.SetFloat(x)` for a float64.
abbrev pub set_float : {W : Type 0} → Host W → Value → ℕ → Option Value
set_float host (float32_v _) x = some (float32_v (host.narrow x))
set_float host (float64_v _) x = some (float64_v x)
set_float host _ x = none

abbrev pub put_complex64 : Value → ℕ × ℕ → Option Value
put_complex64 (complex64_v _ _) (re, im) = some (complex64_v re im)
put_complex64 _ c = none

abbrev pub put_complex128 : Value → ℕ × ℕ → Option Value
put_complex128 (complex128_v _ _) (re, im) = some (complex128_v re im)
put_complex128 _ c = none

-- `v.SetComplex(c)` for a complex128.
abbrev pub set_complex : {W : Type 0} → Host W → Value → ℕ × ℕ → Option Value
set_complex host (complex64_v _ _) (re, im) = some (complex64_v (host.narrow re) (host.narrow im))
set_complex host (complex128_v _ _) (re, im) = some (complex128_v re im)
set_complex host _ c = none

abbrev pub put_string : Value → Text → Option Value
put_string (string_v _) s = some (string_v s)
put_string _ s = none

-- Bytes that a call has written over the elements of an array, whose types stay.
unfoldable pub overwrite : List ℕ → Values → Values
overwrite [] vs = vs
overwrite (b ∷ bs) no_values = no_values
overwrite (b ∷ bs) (and_value (uint_v w8 _) vs) = and_value (uint_v w8 b) (overwrite bs vs)
overwrite (b ∷ bs) (and_value (int_v w8 _) vs) = and_value (int_v w8 b) (overwrite bs vs)
overwrite (b ∷ bs) (and_value v vs) = and_value v vs

abbrev pub put_array_bytes : Value → List ℕ → Option Value
put_array_bytes (array_v vs) bs = some (array_v (overwrite bs vs))
put_array_bytes _ bs = none

-- A `[]byte`; that of an `int8` has another type, and is not covered.
abbrev pub put_slice_bytes : Value → List ℕ → Option Value
put_slice_bytes (slice_v _) bs = some (slice_v (byte_values bs))
put_slice_bytes _ bs = none

abbrev pub put_slice : Value → Values → Option Value
put_slice (slice_v _) vs = some (slice_v vs)
put_slice _ vs = none

-- A pointer, nil or to a value.
abbrev pub put_pointer : Value → Value → Option Value
put_pointer nil_v q = some q
put_pointer (ptr_v _) q = some q
put_pointer _ q = none

-- `reflect.MakeSlice`
unfoldable pub make_values : ℕ → Value → Values
make_values zero v = no_values
make_values (suc n) v = and_value v (make_values n v)

abbrev pub with_value : ℕ → Value → Values → Values
with_value i x no_values = no_values
with_value zero x (and_value v vs) = and_value x vs
with_value (suc i) x (and_value v vs) = and_value v (with_value i x vs)

-- The struct with its field `i` changed.
abbrev pub with_field : ℕ → Value → Value → Value
with_field i (struct_v vs) x = struct_v (with_value i x vs)
with_field i p x = p

-- A `LengthError` with the maximum of the schema.
abbrev pub original_max : ℕ → Err → Err
original_max orig_max (length_error actual max) = length_error actual orig_max
original_max orig_max e = e

abbrev pub limit_error : ℕ → Decoded Text → Decoded Text
limit_error orig_max (got s none r) = got s none r
limit_error orig_max (got s (some e) r) = got s (some (original_max orig_max e)) r
limit_error orig_max (aborted x) = aborted x
