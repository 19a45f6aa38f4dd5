-- ===== src/Codecs/DecodeReflect.antt =====
-- internal/coder/codec_*.go: `Decode` of every codec, by `reflect.Value`, in the default build, where
-- structs, unions and referents of pointers go to `decodeUnsafe`, and in the nounsafe build.
use xdr.Prelude.{
  ℕ, Bool, true, false, ltb, ◌%◌, ◌^◌, zero, suc, Option, none, some, [], ◌∷◌, if◌then◌else◌, Text,
  codes,
}
use xdr.Errors.{located, length_error}
use xdr.Io.{Decode, got, aborted, panic, map_decoded}
use xdr.Decoder.{
  decode_unsigned_int, decode_int, decode_bool, decode_hyper, decode_unsigned_hyper, decode_float,
  decode_double, decode_opaque, decode_fixed_opaque, decode_fixed_string,
}
use xdr.Values.{Value, Values, no_values, and_value, array_v, nil_v, sign_extend, field_at}
use xdr.Codecs.{
  XType, Codec, FieldCodecs, error_codec, bool_codec, int8_codec, int16_codec, int32_codec,
  uint8_codec, uint16_codec, uint32_codec, hyper_codec, uhyper_codec, float_codec, double_codec,
  complex64_codec, complex128_codec, fixed_string_codec, var_string_codec, opaque_array_codec,
  array_codec, opaque_slice_codec, slice_codec, opt_codec, ptr_codec, struct_codec, union_codec,
  deferred_codec, marshaler_codec, custom_codec, no_fields, field_codec, no_field,
}
use xdr.Codecs.Access.{Host, field_ro, array_bytes, array_elements}
use xdr.Codecs.Stores.{
  storing, unless_error, into, done, put_bool, set_int, set_uint, set_float, set_complex,
  put_string, put_array_bytes, put_slice_bytes, put_pointer, with_field,
}
use xdr.Codecs.Unions.{switch_value, case_field, case_label}
use xdr.Codecs.EncodeReflect.{Build, is_default}
use xdr.Codecs.DecodeUnsafe.{
  with_part, var_string_decode, decode_pair, after_value, slice_decode, opt_decode, ptr_decode,
  union_decode, decode_unsafe,
}

-- `for i, l := 0, v.Len(); i < l; i++`
unfoldable pub decode_each : (Value → Decode Value) → Values → Decode Values
decode_each f no_values = done no_values
decode_each f (and_value v vs) = λ r. after_value (f v r) vs (decode_each f vs)

-- `int64(i)` of an int32, before `v.SetInt`.
abbrev pub set_extended : Value → ℕ → Option Value
set_extended v i = set_int v (sign_extend 32 64 i)

-- `float64(f)` of a float32, before `v.SetFloat`.
abbrev pub set_widened : {W : Type 0} → Host W → Value → ℕ → Option Value
set_widened host v x = set_float host v (host.widen x)

abbrev pub set_widened_complex : {W : Type 0} → Host W → Value → ℕ × ℕ → Option Value
set_widened_complex host v (re, im) = set_complex host v (host.widen re, host.widen im)

-- `v.Set…(x)` panics where `v` is read-only.
abbrev pub setting : {A : Type 0} → Bool → (A → Option Value) → A → Option Value
setting true put x = none
setting false put x = put x

-- `ptrCodec.Decode` sets the pointer before it decodes what is referred to.
abbrev pub setting_pointer : Bool → Value → Decode Value → Decode Value
setting_pointer true p elem r = aborted panic
setting_pointer false p elem r = ptr_decode panic p elem r

-- `sliceCodec.Decode` sets the slice, empty or not, unless it is too long.
abbrev pub setting_slice : Bool → Value → ℕ → ℕ → Value → (Values → Decode Values) → Decode Value
setting_slice true zero_elem maxlen orig_max p each r = unless_error p (decode_unsigned_int r) λ l.
    if ltb (maxlen % 2 ^ 32) l
    then got p (some (length_error l orig_max))
    else (λ r1. aborted panic)
setting_slice false zero_elem maxlen orig_max p each r =
    slice_decode panic zero_elem maxlen orig_max p (λ l vs. each vs) r

module _ {W : Type 0} (host : Host W) (max_int : ℕ) (build : Build)
    (call_unsafe : XType → Value → Decode Value) where
  unfoldable mutual
    pub decode_reflect : (Bool → XType → Value → Decode Value) → Codec → Bool → Value → Decode Value
    decode_reflect call (error_codec e) ro p r = got p (some e) r
    decode_reflect call bool_codec ro p r = storing panic (setting ro (put_bool p)) (decode_bool r)
    decode_reflect call int8_codec ro p r =
        storing panic (setting ro (set_extended p)) (decode_int r)
    decode_reflect call int16_codec ro p r =
        storing panic (setting ro (set_extended p)) (decode_int r)
    decode_reflect call int32_codec ro p r =
        storing panic (setting ro (set_extended p)) (decode_int r)
    decode_reflect call uint8_codec ro p r =
        storing panic (setting ro (set_uint p)) (decode_unsigned_int r)
    decode_reflect call uint16_codec ro p r =
        storing panic (setting ro (set_uint p)) (decode_unsigned_int r)
    decode_reflect call uint32_codec ro p r =
        storing panic (setting ro (set_uint p)) (decode_unsigned_int r)
    decode_reflect call hyper_codec ro p r = storing panic (setting ro (set_int p)) (decode_hyper r)
    decode_reflect call uhyper_codec ro p r =
        storing panic (setting ro (set_uint p)) (decode_unsigned_hyper r)
    decode_reflect call float_codec ro p r =
        storing panic (setting ro (set_widened host p)) (decode_float r)
    decode_reflect call double_codec ro p r =
        storing panic (setting ro (set_float host p)) (decode_double r)
    decode_reflect call complex64_codec ro p r =
        decode_pair panic decode_float p (setting ro (set_widened_complex host p)) r
    decode_reflect call complex128_codec ro p r =
        decode_pair panic decode_double p (setting ro (set_complex host p)) r
    decode_reflect call (fixed_string_codec len) ro p r =
        storing panic (setting ro (put_string p)) (decode_fixed_string len r)
    decode_reflect call (var_string_codec maxlen orig_max) ro p r =
        storing panic (setting ro (put_string p)) (var_string_decode max_int maxlen orig_max r)
    decode_reflect call (opaque_array_codec len) ro p r =
        with_part panic (array_bytes p)
          (λ buf. λ r1. storing panic (put_array_bytes p) (decode_fixed_opaque buf r1)) r
    decode_reflect call (array_codec elem len) ro p r =
        with_part panic (array_elements p)
          (λ vs. λ r1. map_decoded array_v (decode_each (decode_reflect call elem ro) vs r1)) r
    decode_reflect call (opaque_slice_codec maxlen orig_max) ro p r =
        storing panic (setting ro (put_slice_bytes p)) (decode_opaque max_int maxlen r)
    decode_reflect call (slice_codec elem zero_elem maxlen orig_max) ro p r =
        setting_slice ro zero_elem maxlen orig_max p (decode_each (decode_reflect call elem ro)) r
    decode_reflect call (opt_codec elem) ro p r =
        with_part panic (setting ro (put_pointer p) nil_v)
          (λ q. λ r1. opt_decode panic q (decode_reflect call elem ro q) (decode_bool r1)) r
    decode_reflect call (ptr_codec elem zero_elem) ro p r =
        setting_pointer ro p
          (if is_default build
            then decode_unsafe host max_int call_unsafe elem zero_elem
            else decode_reflect call elem ro zero_elem)
          r
    decode_reflect call (struct_codec name fs) ro p r =
        if is_default build
        then decode_unsafe host max_int call_unsafe (struct_codec name fs) p r
        else decode_fields call fs ro name p r
    decode_reflect call (union_codec name sw_index sw_name sw body cases default_case sk) ro p r =
        if is_default build
        then decode_unsafe host max_int call_unsafe
            (union_codec name sw_index sw_name sw body cases default_case sk) p r
        else with_part panic (field_at sw_index p)
            (λ x. λ r1.
              into (located name (sw_name ∷ codes "union:switch" ∷ [])) (with_field sw_index p)
                (decode_reflect call sw (field_ro ro sw_name) x r1)
                λ p1. with_part panic (field_at sw_index p1) λ swv.
                  with_part panic (switch_value sk swv) λ sw_val.
                    union_decode name p1 (case_field cases default_case sw_val)
                      λ i. decode_arm call body i ro name sw_val p1)
            r
    decode_reflect call (deferred_codec xt) ro p r = call ro xt p r
    decode_reflect call marshaler_codec ro p r =
        if ro then aborted panic else host.unmarshal_xdr p r
    decode_reflect call (custom_codec id) ro p r = host.decode_custom id p r

    -- `structCodec.Decode`
    pub decode_fields :
        (Bool → XType → Value → Decode Value) → FieldCodecs → Bool → Text → Value → Decode Value
    decode_fields call no_fields ro name p r = got p none r
    decode_fields call (field_codec index field_name c fs) ro name p r =
        with_part panic (field_at index p)
          (λ x. λ r1.
            into (located name (field_name ∷ [])) (with_field index p)
              (decode_reflect call c (field_ro ro field_name) x r1) (decode_fields call fs ro name))
          r
    decode_fields call (no_field fs) ro name p r = aborted panic

    -- The body field of a union at a position.
    pub decode_arm :
        (Bool → XType → Value → Decode Value)
        → FieldCodecs
        → ℕ
        → Bool
        → Text
        → ℕ
        → Value
        → Decode Value
    decode_arm call no_fields i ro name sw_val p r = aborted panic
    decode_arm call (field_codec index field_name c fs) zero ro name sw_val p r =
        with_part panic (field_at index p)
          (λ x. λ r1.
            into (located name (field_name ∷ case_label sw_val ∷ [])) (with_field index p)
              (decode_reflect call c (field_ro ro field_name) x r1) done)
          r
    decode_arm call (field_codec index field_name c fs) (suc i) ro name sw_val p r =
        decode_arm call fs i ro name sw_val p r
    decode_arm call (no_field fs) zero ro name sw_val p r = aborted panic
    decode_arm call (no_field fs) (suc i) ro name sw_val p r =
        decode_arm call fs i ro name sw_val p r
