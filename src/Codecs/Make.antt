-- ===== src/Codecs/Make.antt =====
-- internal/coder/codec_string.go, codec_array.go, codec_ptr.go and `buildCodec` of coder.go: the codec
-- for a type and a tag. What they ask of the coder for the parts of a type is `get_codec`, and the
-- codec of a struct type is `make_struct`. A panic is `none`.
use xdr.Prelude.{
  ℕ, ◌%◌, ◌^◌, Bool, true, false, not, Option, some, [], ltb, ◌==◌, if◌then◌else◌, codes,
}
use xdr.Errors.{invalid_type_error, invalid_tag_for_type_error, length_error, plain}
use xdr.Types.{Kind, Basic, GoType, basic, ptr, array, slice, named, TypeEnv, underlying, kind}
use xdr.Tags as Tags
use xdr.Tags.{Tag, ◌>>=◌, empty, next, only_value, prepend, trimmed}
use xdr.Encoder.{max_uint32}
use xdr.Values.{Value}
use xdr.Codecs.{
  Codec, error_codec, bool_codec, int8_codec, int16_codec, int32_codec, uint8_codec, uint16_codec,
  uint32_codec, hyper_codec, uhyper_codec, float_codec, double_codec, complex64_codec,
  complex128_codec, fixed_string_codec, var_string_codec, opaque_array_codec, array_codec,
  opaque_slice_codec, slice_codec, opt_codec, ptr_codec, marshaler_codec,
}

-- `makeStringCodec` once the length and whether it is fixed are known.
unfoldable pub sized_string : ℕ → Bool → ℕ → Codec
sized_string max_int fixed len =
    if ltb max_int len
    then (if fixed
        then error_codec (length_error len len)
        else var_string_codec (max_int % 2 ^ 32) len)
    else if fixed
    then fixed_string_codec len
    else var_string_codec len len

-- `makeStringCodec`; the text of the first error is without the tag that it ends with.
unfoldable pub make_string_codec : ℕ → GoType → Tag → Option Codec
unfolding sized_string
make_string_codec max_int t tag = next tag >>= λ rest.
    if not (empty rest)
    then some (error_codec (plain (codes "string must not gave any following tags")))
    else if Tags.kind tag == Tags.len
    then (only_value tag >>= λ n. some (sized_string max_int true n))
    else if Tags.kind tag == Tags.max_len
    then (only_value tag >>= λ n. some (sized_string max_int false n))
    else if Tags.kind tag == Tags.noop
    then some (sized_string max_int false max_uint32)
    else some (error_codec (invalid_tag_for_type_error t tag))

-- `Cap lengths at maxInt`
unfoldable pub capped : ℕ → ℕ → ℕ
capped max_int maxlen = if ltb max_int maxlen then max_int % 2 ^ 32 else maxlen

-- The tag that `makeOptCodec` passes on: `Opt` gives way to `Noop`.
unfoldable pub without_opt : Tag → Option Tag
without_opt tag = do rest ← next tag; noop_tag ← prepend rest Tags.noop []; trimmed noop_tag

module _ (max_int : ℕ) (zero_value : GoType → Value) (get_codec : GoType → Tag → Option Codec) where
  -- `makeSliceCodec` for elements of a type, once the maximum is known.
  unfoldable pub sized_slice : GoType → Tag → ℕ → Option Codec
  unfolding capped
  sized_slice elem tag maxlen = next tag >>= λ rest.
      if Tags.kind rest == Tags.opaque
      then some (opaque_slice_codec (capped max_int maxlen) maxlen)
      else (get_codec elem rest >>= λ c.
          some (slice_codec c (zero_value elem) (capped max_int maxlen) maxlen))

  unfoldable pub make_slice_codec : GoType → GoType → Tag → Option Codec
  unfolding sized_slice
  make_slice_codec t elem tag =
      if Tags.kind tag == Tags.max_len
      then (only_value tag >>= λ n. sized_slice elem tag n)
      else if Tags.kind tag == Tags.noop
      then sized_slice elem tag max_uint32
      else some (error_codec (invalid_tag_for_type_error t tag))

  unfoldable pub make_array_codec : GoType → ℕ → GoType → Tag → Option Codec
  make_array_codec t len elem tag =
      if not (Tags.kind tag == Tags.noop)
      then some (error_codec (invalid_tag_for_type_error t tag))
      else (next tag >>= λ rest.
          if Tags.kind rest == Tags.opaque
          then some (opaque_array_codec len)
          else (get_codec elem rest >>= λ c. some (array_codec c len)))

  unfoldable pub make_opt_codec : GoType → Tag → Option Codec
  unfolding without_opt
  make_opt_codec t tag = do inner ← without_opt tag; c ← get_codec t inner; some (opt_codec c)

  unfoldable pub make_ptr_codec : GoType → Tag → Option Codec
  make_ptr_codec elem tag = do
    rest ← next tag
    c ← get_codec elem rest
    some (ptr_codec c (zero_value elem))

  module _ (env : TypeEnv) (make_struct : GoType → Option Codec)
      (make_map : GoType → Tag → Option Codec) where
    -- `t.Implements(marshalerType)`, for a declared type.
    abbrev pub implements : GoType → Bool
    implements (named i) = (env i).is_marshaler
    implements t = false

    abbrev pub basic_codec : GoType → Kind → Option Codec
    basic_codec t Kind.bool = some bool_codec
    basic_codec t Kind.int8 = some int8_codec
    basic_codec t Kind.int16 = some int16_codec
    basic_codec t Kind.int32 = some int32_codec
    basic_codec t Kind.uint8 = some uint8_codec
    basic_codec t Kind.uint16 = some uint16_codec
    basic_codec t Kind.uint32 = some uint32_codec
    basic_codec t Kind.int64 = some hyper_codec
    basic_codec t Kind.uint64 = some uhyper_codec
    basic_codec t Kind.float32 = some float_codec
    basic_codec t Kind.float64 = some double_codec
    basic_codec t Kind.complex64 = some complex64_codec
    basic_codec t Kind.complex128 = some complex128_codec
    basic_codec t Kind.struct = make_struct t
    basic_codec t _ = some (error_codec (invalid_type_error t))

    -- What admits no tag.
    unfoldable pub untagged_codec : GoType → Tag → Option Codec
    untagged_codec t tag =
        if not (empty tag)
        then some (error_codec (invalid_tag_for_type_error t tag))
        else if implements t
        then some marshaler_codec
        else basic_codec t (kind env t)

    -- `switch k`, on what the type is underneath.
    abbrev pub tagged_codec : GoType → Tag → GoType → Option Codec
    tagged_codec t tag (ptr elem) = make_ptr_codec elem tag
    tagged_codec t tag (basic Basic.string) = make_string_codec max_int t tag
    tagged_codec t tag (array len elem) = make_array_codec t len elem tag
    tagged_codec t tag (slice elem) = make_slice_codec t elem tag
    tagged_codec t tag (GoType.map key elem) = make_map t tag
    tagged_codec t tag _ = untagged_codec t tag

    unfoldable pub build_codec : GoType → Tag → Option Codec
    build_codec t tag =
        if Tags.kind tag == Tags.opt
        then make_opt_codec t tag
        else tagged_codec t tag (underlying env t)
