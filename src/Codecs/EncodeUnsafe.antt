-- ===== src/Codecs/EncodeUnsafe.antt =====
-- internal/coder/codec_*_unsafe.go: `encodeUnsafe` of every codec, from a pointer to memory that
-- holds a value. The recursion is on the codec; a placeholder is called through `call`.
use xdr.Prelude.{
  ℕ, zero, suc, ◌%◌, ◌^◌, true, false, Option, none, some, List, [], ◌∷◌, ltb, leb, ◌==◌,
  if◌then◌else◌, length, Text, codes,
}
use xdr.Errors.{Err, xerror, length_incorrect, nil_pointer, length_error, located}
use xdr.Io.{Writer, Encode, done, failed, aborted, panic, wild_access, ◌>>◌}
use xdr.Encoder.{
  encode_int, encode_unsigned_int, encode_bool, encode_hyper, encode_unsigned_hyper,
  encode_fixed_opaque, encode_opaque, encode_fixed_string, encode_string, encode_float,
  encode_double,
}
use xdr.Values.{Value, Values, no_values, and_value, field_at, count_values, sign_extend}
use xdr.Codecs.{
  XType, Codec, FieldCodecs, error_codec, bool_codec, int8_codec, int16_codec, int32_codec,
  uint8_codec, uint16_codec, uint32_codec, hyper_codec, uhyper_codec, float_codec, double_codec,
  complex64_codec, complex128_codec, fixed_string_codec, var_string_codec, opaque_array_codec,
  array_codec, opaque_slice_codec, slice_codec, opt_codec, ptr_codec, struct_codec, union_codec,
  deferred_codec, marshaler_codec, custom_codec, no_fields, field_codec, no_field,
}
use xdr.Codecs.Access.{
  Host, reading, on_error, bool_of, int8_at, int16_at, int32_at, int64_at, uint8_at, uint16_at,
  uint32_at, uint64_at, opaque_memory, array_elements, slice_elements, slice_memory, pointer_of,
  float32_at, float64_at, complex64_at, complex128_at, string_of,
}
use xdr.Codecs.Unions.{switch_word, case_field, case_label, no_arm}

module _ {W : Type 0} ⦃io : Writer W⦄ where
  -- `return nil`
  abbrev pub nothing : Encode W
  nothing w = done w

  -- `return err`
  abbrev pub error : Err → Encode W
  error e w = failed e w

  unfoldable pub encode_complex64 : ℕ × ℕ → Encode W
  encode_complex64 (re, im) = encode_float re >> encode_float im

  unfoldable pub encode_complex128 : ℕ × ℕ → Encode W
  encode_complex128 (re, im) = encode_double re >> encode_double im

  -- `fixedStringCodec.encode` and `varStringCodec.encode`
  unfoldable pub fixed_string_encode : ℕ → Text → Encode W
  fixed_string_encode len s =
      if length s == len then encode_fixed_string s else error (xerror length_incorrect)

  unfoldable pub var_string_encode : ℕ → ℕ → Text → Encode W
  var_string_encode maxlen orig_max s =
      if leb (length s) maxlen then encode_string s else error (length_error (length s) orig_max)

  -- `opaqueSliceCodec.Encode` and `encodeUnsafe` behind the read of the bytes.
  unfoldable pub opaque_slice_encode : ℕ → ℕ → List ℕ → Encode W
  opaque_slice_encode maxlen orig_max s =
      if ltb maxlen (length s) then error (length_error (length s) orig_max) else encode_opaque s

  -- `sliceCodec.Encode` and `encodeUnsafe` for a slice of `l` elements, before its loop `each`.
  unfoldable pub slice_encode : ℕ → ℕ → ℕ → Encode W → Encode W
  slice_encode maxlen orig_max l each =
      if ltb maxlen l
      then error (length_error l orig_max)
      else (encode_unsigned_int (l % 2 ^ 32) >> each)

  -- `for i := 0; i < l; i++` over memory that holds some elements from the pointer on.
  unfoldable pub encode_memory : ℕ → (Value → Encode W) → Values → Encode W
  encode_memory zero f vs = nothing
  encode_memory (suc l) f no_values = λ w. aborted wild_access
  encode_memory (suc l) f (and_value v vs) = f v >> encode_memory l f vs

  -- `optCodec`: nil is written as false, and anything else as true before the element.
  unfoldable pub opt_encode : Option Value → Encode W → Encode W
  opt_encode none elem = encode_bool false >> nothing
  opt_encode (some v) elem = encode_bool true >> elem

  -- `ptrCodec`
  unfoldable pub ptr_encode : (Value → Encode W) → Option Value → Encode W
  ptr_encode elem none = error (xerror nil_pointer)
  ptr_encode elem (some v) = elem v

  -- `unionCodec` behind the switch field: the arm for the value, or the error without one.
  unfoldable pub union_encode : Text → Option ℕ → (ℕ → Encode W) → Encode W
  union_encode name none arm = error (no_arm name)
  union_encode name (some i) arm = arm i

  module _ (host : Host W) where
    unfoldable mutual
      pub encode_unsafe : (XType → Value → Encode W) → Codec → Value → Encode W
      encode_unsafe call (error_codec e) p = error e
      encode_unsafe call bool_codec p = reading (bool_of p) encode_bool
      encode_unsafe call int8_codec p = reading (int8_at p) (λ x. encode_int (sign_extend 8 32 x))
      encode_unsafe call int16_codec p =
          reading (int16_at p) (λ x. encode_int (sign_extend 16 32 x))
      encode_unsafe call int32_codec p = reading (int32_at p) encode_int
      encode_unsafe call uint8_codec p = reading (uint8_at p) encode_unsigned_int
      encode_unsafe call uint16_codec p = reading (uint16_at p) encode_unsigned_int
      encode_unsafe call uint32_codec p = reading (uint32_at p) encode_unsigned_int
      encode_unsafe call hyper_codec p = reading (int64_at p) encode_hyper
      encode_unsafe call uhyper_codec p = reading (uint64_at p) encode_unsigned_hyper
      encode_unsafe call float_codec p = reading (float32_at p) encode_float
      encode_unsafe call double_codec p = reading (float64_at p) encode_double
      encode_unsafe call complex64_codec p = reading (complex64_at p) encode_complex64
      encode_unsafe call complex128_codec p = reading (complex128_at p) encode_complex128
      encode_unsafe call (fixed_string_codec len) p =
          reading (string_of p) (fixed_string_encode len)
      encode_unsafe call (var_string_codec maxlen orig_max) p =
          reading (string_of p) (var_string_encode maxlen orig_max)
      encode_unsafe call (opaque_array_codec len) p =
          reading (opaque_memory len p) encode_fixed_opaque
      encode_unsafe call (array_codec elem len) p =
          reading (array_elements p) (encode_memory len (encode_unsafe call elem))
      encode_unsafe call (opaque_slice_codec maxlen orig_max) p =
          reading (slice_memory p) (opaque_slice_encode maxlen orig_max)
      encode_unsafe call (slice_codec elem zero_elem maxlen orig_max) p =
          reading (slice_elements p) λ vs.
            slice_encode maxlen orig_max (count_values vs)
              (encode_memory (count_values vs) (encode_unsafe call elem) vs)
      encode_unsafe call (opt_codec elem) p =
          reading (pointer_of p) λ v. opt_encode v (encode_unsafe call elem p)
      encode_unsafe call (ptr_codec elem zero_elem) p =
          reading (pointer_of p) (ptr_encode (encode_unsafe call elem))
      encode_unsafe call (struct_codec name fs) p = encode_fields_unsafe call fs name p
      encode_unsafe call (union_codec name sw_index sw_name sw body cases default_case sk) p =
          on_error (located name (sw_name ∷ codes "union:switch" ∷ []))
            (reading (field_at sw_index p) (encode_unsafe call sw))
          >> reading (field_at sw_index p) λ swp. reading (switch_word sk swp) λ sw_val.
            union_encode name (case_field cases default_case sw_val)
              λ i. encode_arm_unsafe call body i name sw_val p
      encode_unsafe call (deferred_codec xt) p = call xt p
      encode_unsafe call marshaler_codec p = host.marshal_xdr p
      encode_unsafe call (custom_codec id) p = host.encode_custom id p

      pub encode_fields_unsafe : (XType → Value → Encode W) → FieldCodecs → Text → Value → Encode W
      encode_fields_unsafe call no_fields name p = nothing
      encode_fields_unsafe call (field_codec index field_name c fs) name p =
          on_error (located name (field_name ∷ []))
            (reading (field_at index p) (encode_unsafe call c))
          >> encode_fields_unsafe call fs name p
      encode_fields_unsafe call (no_field fs) name p = λ w. aborted panic

      -- The arm at position `i` of the body; the zero `field` has no codec to call.
      pub encode_arm_unsafe :
          (XType → Value → Encode W) → FieldCodecs → ℕ → Text → ℕ → Value → Encode W
      encode_arm_unsafe call no_fields i name sw_val p = λ w. aborted panic
      encode_arm_unsafe call (field_codec index field_name c fs) zero name sw_val p =
          on_error (located name (field_name ∷ case_label sw_val ∷ []))
            (reading (field_at index p) (encode_unsafe call c))
      encode_arm_unsafe call (field_codec index field_name c fs) (suc i) name sw_val p =
          encode_arm_unsafe call fs i name sw_val p
      encode_arm_unsafe call (no_field fs) zero name sw_val p = λ w. aborted panic
      encode_arm_unsafe call (no_field fs) (suc i) name sw_val p =
          encode_arm_unsafe call fs i name sw_val p
