-- ===== src/Codecs/EncodeReflect.antt =====
-- internal/coder/codec_*.go: `Encode` of every codec, on a `reflect.Value`, in the default build and
-- in the one with the tag `nounsafe`.
use xdr.Prelude.{
  ℕ, zero, suc, ◌%◌, ◌^◌, Bool, true, false, not, ◌∷◌, [], ◌&&◌, if◌then◌else◌, Text, codes,
}
use xdr.Errors.{located}
use xdr.Io.{Writer, Encode, aborted, panic, ◌>>◌}
use xdr.Encoder.{
  encode_int, encode_unsigned_int, encode_bool, encode_hyper, encode_unsigned_hyper,
  encode_fixed_opaque, encode_float, encode_double,
}
use xdr.Values.{Value, Values, no_values, and_value, field_at, count_values}
use xdr.Codecs.{
  XType, Codec, FieldCodecs, error_codec, bool_codec, int8_codec, int16_codec, int32_codec,
  uint8_codec, uint16_codec, uint32_codec, hyper_codec, uhyper_codec, float_codec, double_codec,
  complex64_codec, complex128_codec, fixed_string_codec, var_string_codec, opaque_array_codec,
  array_codec, opaque_slice_codec, slice_codec, opt_codec, ptr_codec, struct_codec, union_codec,
  deferred_codec, marshaler_codec, custom_codec, no_fields, field_codec, no_field,
}
use xdr.Codecs.Access.{
  Host, Flag, field_flag, referent_flag, getting, on_error, bool_of, int_of, uint_of, float_of,
  complex_of, string_of, array_bytes, slice_bytes, array_elements, slice_elements, pointer_of,
}
use xdr.Codecs.Unions.{switch_value, case_field, case_label}
use xdr.Codecs.EncodeUnsafe.{
  nothing, error, encode_complex64, encode_complex128, fixed_string_encode, var_string_encode,
  opaque_slice_encode, slice_encode, opt_encode, ptr_encode, union_encode, encode_unsafe,
}

pub data Build : Type 0 where
  default_build nounsafe_build : Build

abbrev pub is_default : Build → Bool
is_default default_build = true
is_default nounsafe_build = false

module _ {W : Type 0} ⦃io : Writer W⦄ where
  -- `for i, l := 0, v.Len(); i < l; i++`
  unfoldable pub encode_each : (Value → Encode W) → Values → Encode W
  encode_each f no_values = nothing
  encode_each f (and_value v vs) = f v >> encode_each f vs

  -- `opaqueArrayCodec.Encode` copies an array that has no address by `e.Set(v)`, which panics where `v`
  -- is read-only.
  abbrev pub copied : Flag → Encode W → Encode W
  copied flag m = if flag.ro && not flag.addr then (λ w. aborted panic) else m

  module _ (host : Host W) (build : Build) (call_unsafe : XType → Value → Encode W) where
    -- Elements of arrays have the flags of the whole.
    unfoldable mutual
      pub encode_reflect : (Flag → XType → Value → Encode W) → Codec → Flag → Value → Encode W
      encode_reflect call (error_codec e) flag v = error e
      encode_reflect call bool_codec flag v = getting (bool_of v) encode_bool
      encode_reflect call int8_codec flag v = getting (int_of v) (λ x. encode_int (x % 2 ^ 32))
      encode_reflect call int16_codec flag v = getting (int_of v) (λ x. encode_int (x % 2 ^ 32))
      encode_reflect call int32_codec flag v = getting (int_of v) (λ x. encode_int (x % 2 ^ 32))
      encode_reflect call uint8_codec flag v =
          getting (uint_of v) (λ x. encode_unsigned_int (x % 2 ^ 32))
      encode_reflect call uint16_codec flag v =
          getting (uint_of v) (λ x. encode_unsigned_int (x % 2 ^ 32))
      encode_reflect call uint32_codec flag v =
          getting (uint_of v) (λ x. encode_unsigned_int (x % 2 ^ 32))
      encode_reflect call hyper_codec flag v = getting (int_of v) encode_hyper
      encode_reflect call uhyper_codec flag v = getting (uint_of v) encode_unsigned_hyper
      encode_reflect call float_codec flag v =
          getting (float_of host v) (λ x. encode_float (host.narrow x))
      encode_reflect call double_codec flag v = getting (float_of host v) encode_double
      encode_reflect call complex64_codec flag v =
          getting (complex_of host v) (λ c. encode_complex64 (host.narrow c.0, host.narrow c.1))
      encode_reflect call complex128_codec flag v = getting (complex_of host v) encode_complex128
      encode_reflect call (fixed_string_codec len) flag v =
          getting (string_of v) (fixed_string_encode len)
      encode_reflect call (var_string_codec maxlen orig_max) flag v =
          getting (string_of v) (var_string_encode maxlen orig_max)
      encode_reflect call (opaque_array_codec len) flag v =
          copied flag (getting (array_bytes v) encode_fixed_opaque)
      encode_reflect call (array_codec elem len) flag v =
          getting (array_elements v) (encode_each (encode_reflect call elem flag))
      encode_reflect call (opaque_slice_codec maxlen orig_max) flag v =
          getting (slice_bytes v) (opaque_slice_encode maxlen orig_max)
      encode_reflect call (slice_codec elem zero_elem maxlen orig_max) flag v =
          getting (slice_elements v) λ vs.
            slice_encode maxlen orig_max (count_values vs)
              (encode_each (encode_reflect call elem (referent_flag flag)) vs)
      encode_reflect call (opt_codec elem) flag v =
          getting (pointer_of v) λ p. opt_encode p (encode_reflect call elem flag v)
      encode_reflect call (ptr_codec elem zero_elem) flag v = getting (pointer_of v) (
          ptr_encode λ x.
            if is_default build
            then encode_unsafe host call_unsafe elem x
            else encode_reflect call elem (referent_flag flag) x)
      encode_reflect call (struct_codec name fs) flag v =
          if is_default build && flag.addr
          then encode_unsafe host call_unsafe (struct_codec name fs) v
          else encode_fields call fs flag name v
      encode_reflect call (union_codec name sw_index sw_name sw body cases default_case sk) flag v =
          if is_default build && flag.addr
          then encode_unsafe host call_unsafe
              (union_codec name sw_index sw_name sw body cases default_case sk) v
          else on_error (located name (sw_name ∷ codes "union:switch" ∷ []))
              (getting (field_at sw_index v) (encode_reflect call sw (field_flag flag sw_name)))
            >> getting (field_at sw_index v) λ swv. getting (switch_value sk swv) λ sw_val.
              union_encode name (case_field cases default_case sw_val)
                λ i. encode_arm call body i flag name sw_val v
      encode_reflect call (deferred_codec xt) flag v = call flag xt v
      encode_reflect call marshaler_codec flag v =
          if flag.ro then (λ w. aborted panic) else host.marshal_xdr v
      encode_reflect call (custom_codec id) flag v = host.encode_custom id v

      -- `structCodec.encodeReflect`
      pub encode_fields :
          (Flag → XType → Value → Encode W) → FieldCodecs → Flag → Text → Value → Encode W
      encode_fields call no_fields flag name v = nothing
      encode_fields call (field_codec index field_name c fs) flag name v =
          on_error (located name (field_name ∷ []))
            (getting (field_at index v) (encode_reflect call c (field_flag flag field_name)))
          >> encode_fields call fs flag name v
      encode_fields call (no_field fs) flag name v = λ w. aborted panic

      pub encode_arm :
          (Flag → XType → Value → Encode W) → FieldCodecs → ℕ → Flag → Text → ℕ → Value → Encode W
      encode_arm call no_fields i flag name sw_val v = λ w. aborted panic
      encode_arm call (field_codec index field_name c fs) zero flag name sw_val v =
          on_error (located name (field_name ∷ case_label sw_val ∷ []))
            (getting (field_at index v) (encode_reflect call c (field_flag flag field_name)))
      encode_arm call (field_codec index field_name c fs) (suc i) flag name sw_val v =
          encode_arm call fs i flag name sw_val v
      encode_arm call (no_field fs) zero flag name sw_val v = λ w. aborted panic
      encode_arm call (no_field fs) (suc i) flag name sw_val v =
          encode_arm call fs i flag name sw_val v
