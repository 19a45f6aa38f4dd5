-- ===== src/Codecs/MapRuns.antt =====
-- A map from one unsigned integer to another, iterated over from the last entry to the first.
use xdr.Prelude.{ℕ, ◌<◌, ◌^◌, ◌≡◌, refl, some, Option, List, [], ◌∷◌, ◌++◌, arith, ◌==◌}
use xdr.Errors.{eof, length_error}
use xdr.Io.{got, failed}
use xdr.Types.{Basic, GoType, basic, map}
use xdr.Tags as Tags
use xdr.Tags.{Tag}
use xdr.Tags.Entries.{single, tag_bytes}
use xdr.Encoder.{encode_unsigned_int}
use xdr.Encoder.Wire.{big_endian}
use xdr.Encoder.Emits.{Emits, encode_unsigned_int-Emits}
use xdr.Encoder.Buffer.{Buffer, buffer_writer, buffer_laws}
use xdr.Decoder.{decode_unsigned_int}
use xdr.Decoder.Reads.{delivering, decode_unsigned_int-Reads}
use xdr.Codecs.{Codec, uint32_codec}
use xdr.Codecs.MapCodec.{
  MapCodec, MapMade, ElementCodec, KeyEq, encode_map, decode_map, make_map_codec,
}
use xdr.Codecs.MapRoundTrip.{Carries}
use xdr.Codecs.MapLimits.{map_limits, IsLimitedMap, make_map_within_limits}

instance abbrev number_keys : KeyEq ℕ
number_keys = record { same_key = λ a b. a == b }

abbrev number : ElementCodec Buffer ℕ
number = record { encode = encode_unsigned_int; decode = decode_unsigned_int }

abbrev carry : Carries buffer_laws number
carry = record {
  InRange = λ n. n < 2 ^ 32;
  wire = λ n. big_endian 4 n;
  emits = λ n h. encode_unsigned_int-Emits buffer_laws n;
  reads = λ n rest fault h. decode_unsigned_int-Reads rest fault n h;
}

abbrev uint : GoType
uint = basic Basic.uint32

abbrev codec : MapCodec Codec
codec = record {
  key_codec = uint32_codec;
  value_codec = uint32_codec;
  type = map uint uint;
  key_type = uint;
  value_type = uint;
  max_len = 2;
  orig_max = 2;
}

abbrev ages : List (ℕ × ℕ)
ages = (7, 40) ∷ (9, 41) ∷ []

abbrev backwards : List (ℕ × ℕ) → List (ℕ × ℕ)
backwards (a ∷ b ∷ []) = b ∷ a ∷ []
backwards m = m

abbrev three : List (ℕ × ℕ)
three = (8, 0) ∷ ages

map_limits_example :
    (encode_map backwards codec number number three [] ≡ failed (length_error 3 2) [])
    × (decode_map codec number number three (delivering (big_endian 4 1000 ++ []) eof)
        ≡ got three (some (length_error 1000 2)) (delivering [] eof))
map_limits_example =
    map_limits backwards codec number number three 1000 [] eof [] (omega arith) (omega arith)
      (omega arith)

abbrev get_codec : GoType → Tag → Option Codec
get_codec t tag = some uint32_codec

make_map_within_limits_example :
    (c : MapMade Codec) × (make_map_codec 100 get_codec
        (map uint uint)
        uint
        uint
        (tag_bytes (single Tags.max_len 500 ∷ []))
      ≡ some c)
    × IsLimitedMap 100 c
make_map_within_limits_example =
    make_map_within_limits 100 get_codec (map uint uint) uint uint (uint32_codec, refl)
      (λ es h. (uint32_codec, refl)) (single Tags.max_len 500 ∷ [])
      ((omega arith, omega arith, omega arith), tt)
