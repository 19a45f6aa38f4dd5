-- ===== src/Decoder/RoundTrip.antt =====
-- internal/coder/encoder.go and decoder.go together: what the encoder appends to a buffer is read
-- back by the decoder, with whatever follows left to be read.
use xdr.Prelude.{
  ℕ, ◌+◌, ◌^◌, ◌≤◌, ◌<◌, ◌≡◌, refl, Bool, none, List, [], ◌++◌, length, replicate, arith,
  append_assoc, length-replicate,
}
use xdr.Errors.{IoError}
use xdr.Io.{Decode, Encode, done, got}
use xdr.Encoder.{
  max_uint32, encode_int, encode_unsigned_int, encode_bool, encode_hyper, encode_unsigned_hyper,
  encode_fixed_opaque, encode_opaque, encode_fixed_string, encode_string, encode_float,
  encode_double,
}
use xdr.Encoder.Wire.{residual, big_endian}
use xdr.Encoder.Buffer.{Buffer, buffer_writer, buffer_laws, Emits-buffer}
use xdr.Encoder.Emits.{
  Emits, encode_int-Emits, encode_unsigned_int-Emits, encode_bool-Emits, encode_hyper-Emits,
  encode_unsigned_hyper-Emits, encode_fixed_opaque-Emits, encode_opaque-Emits,
  encode_fixed_string-Emits, encode_string-Emits, encode_float-Emits, encode_double-Emits,
}
use xdr.Decoder.{
  decode_unsigned_int, decode_int, decode_unsigned_hyper, decode_hyper, decode_float, decode_double,
  decode_bool, decode_opaque, decode_fixed_opaque, decode_string, decode_fixed_string,
}
use xdr.Decoder.Reads.{
  delivering, decode_unsigned_int-Reads, decode_unsigned_hyper-Reads, decode_bool-Reads,
  decode_opaque-Reads, decode_fixed_opaque-Reads, decode_string-Reads, decode_fixed_string-Reads,
}

-- The encoding succeeds on an empty buffer, and the decoder takes exactly what it wrote for `v`,
-- from a reader that delivers `rest` after it.
abbrev pub RoundTrips {ℓ} : {A : Type ℓ} → Encode Buffer → Decode A → A → Type ℓ
RoundTrips encode decode v =
    (rest : List ℕ) (fault : IoError)
    → (out : List ℕ) × (encode [] ≡ done out)
      × (decode (delivering (out ++ rest) fault) ≡ got v none (delivering rest fault))

round_trips {ℓ} :
    {A : Type ℓ} (encode : Encode Buffer) (decode : Decode A) (v : A) (bs : List ℕ)
    → Emits buffer_laws encode bs
    → ((rest : List ℕ) (fault : IoError)
        → decode (delivering (bs ++ rest) fault) ≡ got v none (delivering rest fault))
    → RoundTrips encode decode v
round_trips encode decode v bs emits reads rest fault =
    (bs, Emits-buffer encode bs emits [], reads rest fault)

-- Every primitive decodes to the value that was encoded, for all 32-bit and 64-bit patterns.
pub primitives_round_trip :
    (b : Bool) (x y : ℕ)
    → x < 2 ^ 32
    → y < 2 ^ 64
    → RoundTrips (encode_bool b) decode_bool b
      × RoundTrips (encode_int x) decode_int x
      × RoundTrips (encode_unsigned_int x) decode_unsigned_int x
      × RoundTrips (encode_float x) decode_float x
      × RoundTrips (encode_hyper y) decode_hyper y
      × RoundTrips (encode_unsigned_hyper y) decode_unsigned_hyper y
      × RoundTrips (encode_double y) decode_double y
unfolding decode_int decode_float decode_hyper decode_double
primitives_round_trip b x y hx hy = (
  round_trips _ decode_bool b _ (encode_bool-Emits buffer_laws b)
      (λ rest fault. decode_bool-Reads rest fault b),
  round_trips _ decode_int x _ (encode_int-Emits buffer_laws x) reads_x,
  round_trips _ decode_unsigned_int x _ (encode_unsigned_int-Emits buffer_laws x) reads_x,
  round_trips _ decode_float x _ (encode_float-Emits buffer_laws x) reads_x,
  round_trips _ decode_hyper y _ (encode_hyper-Emits buffer_laws y) reads_y,
  round_trips _ decode_unsigned_hyper y _ (encode_unsigned_hyper-Emits buffer_laws y) reads_y,
  round_trips _ decode_double y _ (encode_double-Emits buffer_laws y) reads_y,
)
  where
    reads_x :
        (rest : List ℕ) (fault : IoError)
        → decode_unsigned_int (delivering (big_endian 4 x ++ rest) fault)
          ≡ got x none (delivering rest fault)
    reads_x rest fault = decode_unsigned_int-Reads rest fault x hx

    reads_y :
        (rest : List ℕ) (fault : IoError)
        → decode_unsigned_hyper (delivering (big_endian 8 y ++ rest) fault)
          ≡ got y none (delivering rest fault)
    reads_y rest fault = decode_unsigned_hyper-Reads rest fault y hy

zeros : (n : ℕ) → length {A = ℕ} (replicate (residual n) 0) ≡ residual n
zeros n = length-replicate (residual n) 0

-- A byte slice within the caller's limit, and whose rounded length is an `int`, round-trips as a
-- counted opaque and as a counted string.
pub counted_round_trip :
    (max_int max_len : ℕ) (bs : List ℕ)
    → length bs ≤ max_len
    → length bs ≤ max_uint32
    → length bs + 3 ≤ max_int
    → RoundTrips (encode_opaque bs) (decode_opaque max_int max_len) bs
      × RoundTrips (encode_string bs) (decode_string max_int max_len) bs
counted_round_trip max_int max_len bs hl h32 hm = (
  round_trips _ (decode_opaque max_int max_len) bs _ (encode_opaque-Emits buffer_laws bs h32)
      (λ rest fault. rw (append_assoc bs (replicate (residual (length bs)) 0) rest) (
        decode_opaque-Reads rest fault max_int max_len bs _ hl (omega arith) hm
          (zeros (length bs)))),
  round_trips _ (decode_string max_int max_len) bs _ (encode_string-Emits buffer_laws bs h32)
      (λ rest fault. rw (append_assoc bs (replicate (residual (length bs)) 0) rest) (
        decode_string-Reads rest fault max_int max_len bs _ hl (omega arith) hm
          (zeros (length bs)))),
)

-- A byte slice round-trips as a fixed opaque into a buffer of its length, and as a string of its
-- length.
pub fixed_round_trip :
    (buf bs : List ℕ)
    → length buf ≡ length bs
    → length bs < 2 ^ 63
    → RoundTrips (encode_fixed_opaque bs) (decode_fixed_opaque buf) bs
      × RoundTrips (encode_fixed_string bs) (decode_fixed_string (length bs)) bs
fixed_round_trip buf bs h small = (
  round_trips _ (decode_fixed_opaque buf) bs _ (encode_fixed_opaque-Emits buffer_laws bs)
      (λ rest fault.
        rw (append_assoc bs (replicate (residual (length bs)) 0) rest)
          (decode_fixed_opaque-Reads rest fault buf bs _ h small (zeros (length bs)))),
  round_trips _ (decode_fixed_string (length bs)) bs _ (encode_fixed_string-Emits buffer_laws bs)
      (λ rest fault.
        rw (append_assoc bs (replicate (residual (length bs)) 0) rest)
          (decode_fixed_string-Reads rest fault (length bs) bs _ refl small (zeros (length bs)))),
)
