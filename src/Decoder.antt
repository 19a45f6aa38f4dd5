-- ===== src/Decoder.antt =====
-- internal/coder/decoder.go: what the decoder makes of the bytes that its reader delivers. A call
-- returns a value beside its error, as the Go functions do. `max_int` is the largest `int` of the
-- platform: a slice cannot be longer.
pub mod Reads
pub mod RoundTrip
pub mod Truncated
mod Runs
use xdr.Prelude.{
  ℕ, zero, suc, ◌+◌, ◌-◌, ◌*◌, ◌%◌, ◌^◌, Bool, true, false, Option, none, some, List, [], ◌∷◌,
  bit_and, bit_or, ltb, ◌==◌, if◌then◌else◌, length, take, get_or, replicate,
}
use xdr.Errors.{Err, xerror, invalid_value, length_error}
use xdr.Io.{Reader, Filled, read_full, Decoded, Decode, got, aborted, panic, map_decoded}

-- `uint32(b[0])<<24 | uint32(b[1])<<16 | uint32(b[2])<<8 | uint32(b[3])`
unfoldable pub be_uint32 : List ℕ → ℕ
be_uint32 b =
    bit_or (bit_or (bit_or (get_or b 0 0 * 2 ^ 24) (get_or b 1 0 * 2 ^ 16)) (get_or b 2 0 * 2 ^ 8))
      (get_or b 3 0)

unfoldable pub be_uint64 : List ℕ → ℕ
be_uint64 b =
    bit_or
      (bit_or
        (bit_or
          (bit_or
            (bit_or
              (bit_or (bit_or (get_or b 0 0 * 2 ^ 56) (get_or b 1 0 * 2 ^ 48))
                (get_or b 2 0 * 2 ^ 40))
              (get_or b 3 0 * 2 ^ 32))
            (get_or b 4 0 * 2 ^ 24))
          (get_or b 5 0 * 2 ^ 16))
        (get_or b 6 0 * 2 ^ 8))
      (get_or b 7 0)

unfoldable pub decode_unsigned_int : Decode ℕ
decode_unsigned_int r =
    let f = read_full r (replicate 4 0) in got (be_uint32 f.buf) f.error f.reader

unfoldable pub decode_int : Decode ℕ
decode_int r = decode_unsigned_int r

unfoldable pub decode_unsigned_hyper : Decode ℕ
decode_unsigned_hyper r =
    let f = read_full r (replicate 8 0) in got (be_uint64 f.buf) f.error f.reader

unfoldable pub decode_hyper : Decode ℕ
decode_hyper r = decode_unsigned_hyper r

unfoldable pub decode_float : Decode ℕ
decode_float r = decode_unsigned_int r

unfoldable pub decode_double : Decode ℕ
decode_double r = decode_unsigned_hyper r

abbrev bool_of : ℕ → Option Err → Reader → Decoded Bool
bool_of zero err r = got false err r
bool_of (suc zero) err r = got true err r
bool_of (suc (suc i)) none r = got false (some (xerror invalid_value)) r
bool_of (suc (suc i)) (some e) r = got false (some e) r

abbrev bool_result : Decoded ℕ → Decoded Bool
bool_result (got i err r) = bool_of i err r
bool_result (aborted a) = aborted a

unfoldable pub decode_bool : Decode Bool
decode_bool r = bool_result (decode_unsigned_int r)

-- `(n + 3) & ^3`
unfoldable pub round_up : ℕ → ℕ
round_up n = bit_and (n + 3) (2 ^ 64 - 4)

-- The call after the length `l` has been read: the error of `ReadFull` is dropped. Where the sum
-- passes the largest `int`, `make` panics.
unfoldable pub opaque_body : ℕ → ℕ → Decode (List ℕ)
opaque_body max_int l r =
    let f = read_full r (replicate (round_up l) 0) in
    if ltb max_int (l + 3) then aborted panic else got (take l f.buf) none f.reader

unfoldable pub opaque_after : ℕ → ℕ → Decoded ℕ → Decoded (List ℕ)
opaque_after max_int max_len (got l (some e) r) = got [] (some e) r
opaque_after max_int max_len (got l none r) =
    if l == 0
    then got [] none r
    else if ltb max_len l
    then got [] (some (length_error l max_len)) r
    else opaque_body max_int l r
opaque_after max_int max_len (aborted a) = aborted a

unfoldable pub decode_opaque : ℕ → ℕ → Decode (List ℕ)
unfolding opaque_after
decode_opaque max_int max_len r = opaque_after max_int max_len (decode_unsigned_int r)

-- The call after the buffer has been filled: the padding is read into `discard`.
unfoldable pub discard_padding : Filled → Decoded (List ℕ)
discard_padding f = elim f.error [
  | some e ↦ got f.buf (some e) f.reader
  | none ↦
      let n = round_up f.count - f.count in
      let g = read_full f.reader (replicate n 0) in
      if n == 0 then got f.buf none f.reader else got f.buf g.error g.reader
]

-- The buffer comes back filled as far as the reader went.
unfoldable pub decode_fixed_opaque : List ℕ → Decode (List ℕ)
unfolding discard_padding
decode_fixed_opaque buf r = discard_padding (read_full r buf)

unfoldable pub string_after : Decoded (List ℕ) → Decoded (List ℕ)
string_after (got b (some e) r) = got [] (some e) r
string_after (got b none r) = got b none r
string_after (aborted a) = aborted a

unfoldable pub decode_string : ℕ → ℕ → Decode (List ℕ)
unfolding string_after
decode_string max_int max_len r = string_after (decode_opaque max_int max_len r)

unfoldable pub decode_fixed_string : ℕ → Decode (List ℕ)
decode_fixed_string len r = decode_fixed_opaque (replicate len 0) r
