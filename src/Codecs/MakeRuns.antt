-- ===== src/Codecs/MakeRuns.antt =====
-- `buildCodec` for a declared slice of bytes on a 32-bit platform.
use xdr.Prelude.{ℕ, ◌-◌, ◌^◌, ◌≤◌, ◌<◌, ◌≡◌, refl, false, Option, some, List, [], ◌∷◌, arith, All}
use Prim.Native.Nat.{min}
use xdr.Errors.{length_error}
use xdr.Types.{Basic, GoType, basic, slice, named, TypeEnv}
use xdr.Tags as Tags
use xdr.Tags.{Tag}
use xdr.Tags.Entries.{Entry, flag, single, IsEntry, tag_bytes}
use xdr.Encoder.{max_uint32}
use xdr.Values.{Value, nil_v}
use xdr.Codecs.{Codec, error_codec, bool_codec, fixed_string_codec, var_string_codec}
use xdr.Codecs.MakeStruct.{make_struct}
use xdr.Codecs.Make.{make_string_codec, build_codec}
use xdr.Codecs.MakesStrings.{Makes, string_codec_of_tag}
use xdr.Codecs.Making.{build_codec_within_limits}

abbrev max_int32 : ℕ
max_int32 = 2 ^ 31 - 1

abbrev bytes_env : TypeEnv
bytes_env i = record { name = []; underlying = slice (basic Basic.uint8); is_marshaler = false }

abbrev zero_value : GoType → Value
zero_value t = nil_v

abbrev get_codec : GoType → Tag → Option Codec
get_codec t tag = some bool_codec

abbrev make_map : GoType → Tag → Option Codec
make_map t tag = some bool_codec

abbrev bounded_bytes : List Entry
bounded_bytes = single Tags.max_len (2 ^ 32 - 1) ∷ flag Tags.opaque ∷ []

bounded_bytes-IsEntry : All IsEntry bounded_bytes
bounded_bytes-IsEntry = ((omega arith, omega arith, omega arith), (omega arith, tt))

build_codec_within_limits_example : Makes max_int32 (
    build_codec max_int32 zero_value get_codec bytes_env
      (make_struct bytes_env get_codec)
      make_map
      (named 0)
      (tag_bytes bounded_bytes))
build_codec_within_limits_example =
    build_codec_within_limits max_int32 zero_value get_codec bytes_env
      (make_struct bytes_env get_codec) make_map (named 0) bounded_bytes
      (λ es h. (bool_codec, refl)) (λ e p es h. (bool_codec, refl)) (λ p. cc) (λ key e p. cc)
      bounded_bytes-IsEntry

string_codec_of_tag_example :
    (make_string_codec max_int32 (basic Basic.string) (tag_bytes [])
      ≡ some (var_string_codec (min max_uint32 max_int32) max_uint32))
    × (make_string_codec max_int32
          (basic Basic.string)
          (tag_bytes (single Tags.max_len 4000000000 ∷ []))
        ≡ some (var_string_codec (min 4000000000 max_int32) 4000000000))
    × (4000000000 ≤ max_int32
        → make_string_codec max_int32
            (basic Basic.string)
            (tag_bytes (single Tags.len 4000000000 ∷ []))
          ≡ some (fixed_string_codec 4000000000))
    × (max_int32 < 4000000000
        → make_string_codec max_int32
            (basic Basic.string)
            (tag_bytes (single Tags.len 4000000000 ∷ []))
          ≡ some (error_codec (length_error 4000000000 4000000000)))
string_codec_of_tag_example =
    string_codec_of_tag max_int32 4000000000 (basic Basic.string) (omega arith)
