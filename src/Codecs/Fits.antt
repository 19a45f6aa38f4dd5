-- ===== src/Codecs/Fits.antt =====
-- What memory a represented value can be decoded to: memory of its type, which agrees with the value
-- on what the codec skips, such as the fields of a struct without a codec or the other arms of a
-- union. The zero value is such memory where the skipped parts of the value are zero.
use xdr.Prelude.{ℕ, ◌^◌, ◌≤◌, ◌<◌, ◌≡◌, ◌⊎◌, Bool, some, List, length, Text}
use xdr.Encoder.{max_uint32}
use xdr.Values.{
  Value, Values, w8, w16, w32, w64, bool_v, int_v, uint_v, float32_v, float64_v, complex64_v,
  complex128_v, string_v, array_v, slice_v, nil_v, ptr_v, no_values, and_value, field_at,
  count_values, byte_values,
}
use xdr.Codecs.{Codec, FieldCodecs}
use xdr.Codecs.Access.{Host}
use xdr.Codecs.Stores.{with_field, make_values}
use xdr.Codecs.Wire.{Wire, WireElems, WireFields, WireArm}

abbrev pub IsPointer : Value → Type 0
IsPointer p = (p ≡ nil_v) ⊎ ((v : Value) × (p ≡ ptr_v v))

module _ {W : Type 0} {host : Host W} where
  unfoldable mutual
    pub Fits : {c : Codec} {v : Value} {bs : List ℕ} → Wire host c v bs → Value → Type 0
    Fits (Wire.bool b) p = (old : Bool) × (p ≡ bool_v old)
    Fits (Wire.int8 x h) p = (old : ℕ) × (p ≡ int_v w8 old)
    Fits (Wire.int16 x h) p = (old : ℕ) × (p ≡ int_v w16 old)
    Fits (Wire.int32 x h) p = (old : ℕ) × (p ≡ int_v w32 old)
    Fits (Wire.uint8 x h) p = (old : ℕ) × (p ≡ uint_v w8 old)
    Fits (Wire.uint16 x h) p = (old : ℕ) × (p ≡ uint_v w16 old)
    Fits (Wire.uint32 x h) p = (old : ℕ) × (p ≡ uint_v w32 old)
    Fits (Wire.hyper x h) p = (old : ℕ) × (p ≡ int_v w64 old)
    Fits (Wire.uhyper x h) p = (old : ℕ) × (p ≡ uint_v w64 old)
    Fits (Wire.float x h s) p = (old : ℕ) × (p ≡ float32_v old)
    Fits (Wire.double x h) p = (old : ℕ) × (p ≡ float64_v old)
    Fits (Wire.complex64 re im kr ki sr si) p = (a : ℕ) × (b : ℕ) × (p ≡ complex64_v a b)
    Fits (Wire.complex128 re im kr ki) p = (a : ℕ) × (b : ℕ) × (p ≡ complex128_v a b)
    Fits (Wire.fixed_string len s e) p = (len < 2 ^ 63) × (old : Text) × (p ≡ string_v old)
    Fits (Wire.var_string maxlen orig_max s k l) p = (old : Text) × (p ≡ string_v old)
    Fits (Wire.opaque_array len bs e) p =
        (len < 2 ^ 63) × (old : List ℕ) × (p ≡ array_v (byte_values old)) × (length old ≡ len)
    Fits (Wire.array len e d) p = (old : Values) × (p ≡ array_v old) × FitElems d old
    Fits (Wire.opaque_slice maxlen orig_max bs k l) p = (old : Values) × (p ≡ slice_v old)
    Fits (Wire.slice zero_elem maxlen orig_max {vs = vs} k l d) p =
        (maxlen ≤ max_uint32)
        × (old : Values) × (p ≡ slice_v old)
        × FitElems d (make_values (count_values vs) zero_elem)
    Fits (Wire.opt_nil elem) p = IsPointer p
    Fits (Wire.opt_some d) p = IsPointer p × Fits d p × Fits d nil_v
    Fits (Wire.ptr zero_elem d) p = IsPointer p × Fits d zero_elem
    Fits (Wire.struct name d) p = FitFields d p
    Fits (Wire.union name j sw_name cases default_case sk {swv = swv} n i f d e h g a) p =
        (old : Value) × (field_at j p ≡ some old) × Fits d old × FitArm a (with_field j p swv)
    Fits (Wire.deferred xt e d) p = Fits d p

    pub FitElems :
        {c : Codec} {vs : Values} {bs : List ℕ} → WireElems host c vs bs → Values → Type 0
    FitElems (WireElems.no_elems c) ps = ps ≡ no_values
    FitElems (WireElems.elem d ds) ps =
        (x : Value) × (xs : Values) × (ps ≡ and_value x xs) × Fits d x × FitElems ds xs

    -- After the fields are written, the whole is the value.
    pub FitFields :
        {fs : FieldCodecs} {v : Value} {bs : List ℕ} → WireFields host fs v bs → Value → Type 0
    FitFields (WireFields.done v) p = p ≡ v
    FitFields (WireFields.field {index} name {x = x} f d ds) p =
        (old : Value) × (field_at index p ≡ some old)
        × Fits d old
        × FitFields ds (with_field index p x)

    pub FitArm :
        {fs : FieldCodecs} {i : ℕ} {v : Value} {bs : List ℕ}
        → WireArm host fs i v bs
        → Value
        → Type 0
    FitArm (WireArm.here {index} name fs {v = v} {x = x} f d) p =
        (old : Value) × (field_at index p ≡ some old) × Fits d old × (with_field index p x ≡ v)
    FitArm (WireArm.past index name c a) p = FitArm a p
    FitArm (WireArm.past_gap a) p = FitArm a p
