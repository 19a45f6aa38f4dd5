-- ===== src/Decoder/Runs.antt =====
-- The decoder on concrete input.
use xdr.Prelude.{
  ℕ, ◌+◌, ◌-◌, ◌^◌, ◌≤◌, ◌<◌, ◌≡◌, ◌≢◌, refl, Bool, true, none, some, List, [], ◌∷◌, ◌++◌, length,
  arith,
}
use xdr.Errors.{eof, unexpected_eof, io_error, length_error, xerror, invalid_value}
use xdr.Io.{Reader, read_full, got}
use xdr.Encoder.{
  encode_int, encode_unsigned_int, encode_bool, encode_hyper, encode_unsigned_hyper,
  encode_fixed_opaque, encode_opaque, encode_fixed_string, encode_string, encode_float,
  encode_double,
}
use xdr.Encoder.Wire.{big_endian, residual}
use xdr.Encoder.Buffer.{buffer_writer}
use xdr.Decoder.{
  decode_unsigned_int, decode_int, decode_unsigned_hyper, decode_hyper, decode_float, decode_double,
  decode_bool, decode_opaque, decode_fixed_opaque, decode_string, decode_fixed_string, be_uint32,
}
use xdr.Decoder.Reads.{delivering}
use xdr.Decoder.RoundTrip.{RoundTrips, primitives_round_trip, counted_round_trip, fixed_round_trip}
use xdr.Decoder.Truncated.{decode_opaque_too_long, decode_opaque_cut, decode_fixed_opaque_complete}

abbrev max_int64 : ℕ
max_int64 = 2 ^ 63 - 1

abbrev five_bytes : List ℕ
five_bytes = 1 ∷ 2 ∷ 3 ∷ 4 ∷ 5 ∷ []

abbrev blank : List ℕ
blank = 0 ∷ 0 ∷ 0 ∷ 0 ∷ 0 ∷ []

abbrev eight_pending : Reader
eight_pending = delivering (five_bytes ++ (0 ∷ 0 ∷ 0 ∷ [])) eof

two_is_no_bool :
    decode_bool (delivering (0 ∷ 0 ∷ 0 ∷ 2 ∷ []) eof)
    ≡ got Bool.false (some (xerror invalid_value)) (delivering [] eof)
unfolding decode_bool decode_unsigned_int be_uint32 read_full
two_is_no_bool = refl

cut_int :
    decode_unsigned_int (delivering (1 ∷ 2 ∷ []) eof)
    ≡ got 0x01020000 (some (io_error unexpected_eof)) (delivering [] eof)
unfolding decode_unsigned_int be_uint32 read_full
cut_int = refl

primitives_round_trip_example :
    RoundTrips (encode_bool true) decode_bool true
    × RoundTrips (encode_int (2 ^ 32 - 2)) decode_int (2 ^ 32 - 2)
    × RoundTrips (encode_unsigned_int (2 ^ 32 - 2)) decode_unsigned_int (2 ^ 32 - 2)
    × RoundTrips (encode_float (2 ^ 32 - 2)) decode_float (2 ^ 32 - 2)
    × RoundTrips (encode_hyper (2 ^ 40 + 7)) decode_hyper (2 ^ 40 + 7)
    × RoundTrips (encode_unsigned_hyper (2 ^ 40 + 7)) decode_unsigned_hyper (2 ^ 40 + 7)
    × RoundTrips (encode_double (2 ^ 40 + 7)) decode_double (2 ^ 40 + 7)
primitives_round_trip_example =
    primitives_round_trip true (2 ^ 32 - 2) (2 ^ 40 + 7) (omega arith) (omega arith)

counted_round_trip_example :
    RoundTrips (encode_opaque five_bytes) (decode_opaque max_int64 10) five_bytes
    × RoundTrips (encode_string five_bytes) (decode_string max_int64 10) five_bytes
counted_round_trip_example =
    counted_round_trip max_int64 10 five_bytes (omega arith) (omega arith) (omega arith)

fixed_round_trip_example :
    RoundTrips (encode_fixed_opaque five_bytes) (decode_fixed_opaque blank) five_bytes
    × RoundTrips
        (encode_fixed_string five_bytes)
        (decode_fixed_string (length five_bytes))
        five_bytes
fixed_round_trip_example = fixed_round_trip blank five_bytes refl (omega arith)

decode_opaque_too_long_example :
    (decode_opaque max_int64 10 (delivering (big_endian 4 11 ++ five_bytes) eof)
      ≡ got [] (some (length_error 11 10)) (delivering five_bytes eof))
    × (decode_string max_int64 10 (delivering (big_endian 4 11 ++ five_bytes) eof)
        ≡ got [] (some (length_error 11 10)) (delivering five_bytes eof))
decode_opaque_too_long_example =
    decode_opaque_too_long max_int64 10 11 five_bytes eof (omega arith) (omega arith)

decode_opaque_cut_example :
    decode_opaque max_int64 10 (delivering (big_endian 4 7 ++ five_bytes) eof)
    ≡ got (1 ∷ 2 ∷ 3 ∷ 4 ∷ 5 ∷ 0 ∷ 0 ∷ []) none (delivering [] eof)
decode_opaque_cut_example =
    decode_opaque_cut max_int64 10 7 five_bytes eof (omega arith) (omega arith) (omega arith)
      (omega arith) (omega arith)

decode_fixed_opaque_complete_example :
    (5 + residual 5 ≤ 8
      → decode_fixed_opaque blank eight_pending ≡ got five_bytes none (delivering [] eof))
    × (8 < 5 + residual 5
        → (b : List ℕ) (r' : Reader) → decode_fixed_opaque blank eight_pending ≢ got b none r')
decode_fixed_opaque_complete_example =
    decode_fixed_opaque_complete blank eight_pending (omega arith)
