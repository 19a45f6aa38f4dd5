-- ===== src/Codecs/DecodeUnsafe.antt =====
-- internal/coder/codec_*_unsafe.go: `decodeUnsafe` of every codec, to memory that holds a value. A
-- call returns the value that the memory holds then, which an error may leave half changed.
use xdr.Prelude.{
  ℕ, zero, suc, ◌%◌, ◌^◌, Bool, Option, none, some, [], ◌∷◌, ltb, ◌==◌, if◌then◌else◌, Text, codes,
}
use xdr.Errors.{length_error, located}
use xdr.Io.{Decoded, Decode, got, aborted, Abort, panic, wild_access, map_decoded}
use xdr.Decoder.{
  decode_unsigned_int, decode_int, decode_bool, decode_hyper, decode_unsigned_hyper, decode_float,
  decode_double, decode_opaque, decode_fixed_opaque, decode_string, decode_fixed_string,
}
use xdr.Values.{
  Value, Values, no_values, and_value, w8, w16, w32, w64, array_v, nil_v, ptr_v, field_at,
}
use xdr.Codecs.{
  XType, Codec, FieldCodecs, error_codec, bool_codec, int8_codec, int16_codec, int32_codec,
  uint8_codec, uint16_codec, uint32_codec, hyper_codec, uhyper_codec, float_codec, double_codec,
  complex64_codec, complex128_codec, fixed_string_codec, var_string_codec, opaque_array_codec,
  array_codec, opaque_slice_codec, slice_codec, opt_codec, ptr_codec, struct_codec, union_codec,
  deferred_codec, marshaler_codec, custom_codec, no_fields, field_codec, no_field,
}
use xdr.Codecs.Access.{Host, opaque_memory, array_elements}
use xdr.Codecs.Stores.{
  storing, unless_error, into, done, put_bool, put_int, put_uint, put_float32, put_float64,
  put_complex64, put_complex128, put_string, put_array_bytes, put_slice_bytes, put_slice,
  put_pointer, make_values, with_field, limit_error,
}
use xdr.Codecs.Unions.{switch_word, case_field, case_label, no_arm}

-- Go on with a part that is there; `bad` is what happens where the value has no such part.
abbrev pub with_part : {A B : Type 0} → Abort → Option A → (A → Decode B) → Decode B
with_part bad none f = λ r. aborted bad
with_part bad (some a) f = f a

-- `varStringCodec.decode`
unfoldable pub var_string_decode : ℕ → ℕ → ℕ → Decode Text
var_string_decode max_int maxlen orig_max r = limit_error orig_max (decode_string max_int maxlen r)

-- Two numbers in turn; an error of either leaves the value as it is.
unfoldable pub decode_pair : Abort → Decode ℕ → Value → (ℕ × ℕ → Option Value) → Decode Value
decode_pair bad decode p put r =
    unless_error p (decode r)
      λ re. λ r1. unless_error p (decode r1) λ im. λ r2. storing bad put (got (re, im) none r2)

-- One element after the other; those behind an error stay as they are.
abbrev pub after_value : Decoded Value → Values → Decode Values → Decoded Values
after_value (got v none r) vs rest = map_decoded (and_value v) (rest r)
after_value (got v (some e) r) vs rest = got (and_value v vs) (some e) r
after_value (aborted a) vs rest = aborted a

-- `for i := 0; i < l; i++` over memory that holds some elements from the pointer on.
unfoldable pub decode_memory : ℕ → (Value → Decode Value) → Values → Decode Values
decode_memory zero f vs = done vs
decode_memory (suc l) f no_values = λ r. aborted wild_access
decode_memory (suc l) f (and_value v vs) = λ r. after_value (f v r) vs (decode_memory l f vs)

-- `sliceCodec`: `each` decodes the elements of the new slice.
unfoldable pub slice_decode :
    Abort → Value → ℕ → ℕ → Value → (ℕ → Values → Decode Values) → Decode Value
slice_decode bad zero_elem maxlen orig_max p each r = unless_error p (decode_unsigned_int r) λ l.
    if l == 0
    then (λ r1. storing bad (put_slice p) (got no_values none r1))
    else if ltb (maxlen % 2 ^ 32) l
    then got p (some (length_error l orig_max))
    else (λ r1. storing bad (put_slice p) (each l (make_values l zero_elem) r1))

-- `optCodec` once the flag is read: the element decodes the pointer, or it becomes nil.
unfoldable pub opt_decode : Abort → Value → Decode Value → Decoded Bool → Decoded Value
opt_decode bad p elem flag =
    unless_error p flag
      λ b. (if b then elem else (λ r. storing bad (put_pointer p) (got nil_v none r)))

-- `ptrCodec`: `elem` decodes the new referent.
unfoldable pub ptr_decode : Abort → Value → Decode Value → Decode Value
ptr_decode bad p elem r = storing bad (λ x. put_pointer p (ptr_v x)) (elem r)

-- `unionCodec` behind the switch field.
unfoldable pub union_decode : Text → Value → Option ℕ → (ℕ → Decode Value) → Decode Value
union_decode name p none arm = got p (some (no_arm name))
union_decode name p (some i) arm = arm i

module _ {W : Type 0} (host : Host W) (max_int : ℕ) where
  unfoldable mutual
    pub decode_unsafe : (XType → Value → Decode Value) → Codec → Value → Decode Value
    decode_unsafe call (error_codec e) p r = got p (some e) r
    decode_unsafe call bool_codec p r = storing wild_access (put_bool p) (decode_bool r)
    decode_unsafe call int8_codec p r = storing wild_access (put_int w8 p) (decode_int r)
    decode_unsafe call int16_codec p r = storing wild_access (put_int w16 p) (decode_int r)
    decode_unsafe call int32_codec p r = storing wild_access (put_int w32 p) (decode_int r)
    decode_unsafe call uint8_codec p r = storing wild_access (put_uint w8 p) (decode_unsigned_int r)
    decode_unsafe call uint16_codec p r =
        storing wild_access (put_uint w16 p) (decode_unsigned_int r)
    decode_unsafe call uint32_codec p r =
        storing wild_access (put_uint w32 p) (decode_unsigned_int r)
    decode_unsafe call hyper_codec p r = storing wild_access (put_int w64 p) (decode_hyper r)
    decode_unsafe call uhyper_codec p r =
        storing wild_access (put_uint w64 p) (decode_unsigned_hyper r)
    decode_unsafe call float_codec p r = storing wild_access (put_float32 p) (decode_float r)
    decode_unsafe call double_codec p r = storing wild_access (put_float64 p) (decode_double r)
    decode_unsafe call complex64_codec p r =
        decode_pair wild_access decode_float p (put_complex64 p) r
    decode_unsafe call complex128_codec p r =
        decode_pair wild_access decode_double p (put_complex128 p) r
    decode_unsafe call (fixed_string_codec len) p r =
        storing wild_access (put_string p) (decode_fixed_string len r)
    decode_unsafe call (var_string_codec maxlen orig_max) p r =
        storing wild_access (put_string p) (var_string_decode max_int maxlen orig_max r)
    decode_unsafe call (opaque_array_codec len) p r =
        with_part wild_access (opaque_memory len p)
          (λ buf. λ r1. storing wild_access (put_array_bytes p) (decode_fixed_opaque buf r1)) r
    decode_unsafe call (array_codec elem len) p r =
        with_part wild_access (array_elements p)
          (λ vs. λ r1. map_decoded array_v (decode_memory len (decode_unsafe call elem) vs r1)) r
    decode_unsafe call (opaque_slice_codec maxlen orig_max) p r =
        storing wild_access (put_slice_bytes p) (decode_opaque max_int maxlen r)
    decode_unsafe call (slice_codec elem zero_elem maxlen orig_max) p r =
        slice_decode wild_access zero_elem maxlen orig_max p
          (λ l vs. decode_memory l (decode_unsafe call elem) vs) r
    decode_unsafe call (opt_codec elem) p r =
        opt_decode wild_access p (decode_unsafe call elem p) (decode_bool r)
    decode_unsafe call (ptr_codec elem zero_elem) p r =
        ptr_decode wild_access p (decode_unsafe call elem zero_elem) r
    decode_unsafe call (struct_codec name fs) p r = decode_fields_unsafe call fs name p r
    decode_unsafe call (union_codec name sw_index sw_name sw body cases default_case sk) p r =
        with_part wild_access (field_at sw_index p)
          (λ x. λ r1.
            into (located name (sw_name ∷ codes "union:switch" ∷ [])) (with_field sw_index p)
              (decode_unsafe call sw x r1)
              λ p1. with_part wild_access (field_at sw_index p1) λ swp.
                with_part wild_access (switch_word sk swp) λ sw_val.
                  union_decode name p1 (case_field cases default_case sw_val)
                    λ i. decode_arm_unsafe call body i name sw_val p1)
          r
    decode_unsafe call (deferred_codec xt) p r = call xt p r
    decode_unsafe call marshaler_codec p r = host.unmarshal_xdr p r
    decode_unsafe call (custom_codec id) p r = host.decode_custom id p r

    -- `structCodec.decodeUnsafe`
    pub decode_fields_unsafe :
        (XType → Value → Decode Value) → FieldCodecs → Text → Value → Decode Value
    decode_fields_unsafe call no_fields name p r = got p none r
    decode_fields_unsafe call (field_codec index field_name c fs) name p r =
        with_part wild_access (field_at index p)
          (λ x. λ r1.
            into (located name (field_name ∷ [])) (with_field index p) (decode_unsafe call c x r1)
              (decode_fields_unsafe call fs name))
          r
    decode_fields_unsafe call (no_field fs) name p r = aborted panic

    -- The body field of a union at a position.
    pub decode_arm_unsafe :
        (XType → Value → Decode Value) → FieldCodecs → ℕ → Text → ℕ → Value → Decode Value
    decode_arm_unsafe call no_fields i name sw_val p r = aborted panic
    decode_arm_unsafe call (field_codec index field_name c fs) zero name sw_val p r =
        with_part wild_access (field_at index p)
          (λ x. λ r1.
            into (located name (field_name ∷ case_label sw_val ∷ [])) (with_field index p)
              (decode_unsafe call c x r1) done)
          r
    decode_arm_unsafe call (field_codec index field_name c fs) (suc i) name sw_val p r =
        decode_arm_unsafe call fs i name sw_val p r
    decode_arm_unsafe call (no_field fs) zero name sw_val p r = aborted panic
    decode_arm_unsafe call (no_field fs) (suc i) name sw_val p r =
        decode_arm_unsafe call fs i name sw_val p r
