-- ===== src/Encoder.antt =====
-- internal/coder/encoder.go: what the encoder writes for each primitive. Integers are their bit
-- patterns, below 2 ^ 32 or 2 ^ 64; a float is its bit pattern too.
pub mod Emits
pub mod Wire
pub mod Buffer
pub mod Limits
pub mod Cache
mod Runs
use xdr.Prelude.{
  ℕ, ◌-◌, ◌/◌, ◌%◌, ◌^◌, Bool, true, false, Option, none, some, List, [], ◌∷◌, bit_and, ltb,
  if◌then◌else◌, length, take,
}
use xdr.Errors.{length_error}
use xdr.Io.{Writer, Encode, returning, failed, ◌>>◌}

abbrev pub max_uint32 : ℕ
max_uint32 = 2 ^ 32 - 1

-- `pad`
abbrev pub pad : List ℕ
pad = 0 ∷ 0 ∷ 0 ∷ 0 ∷ []

-- `(4 - (n & 3)) & 3`
unfoldable pub padding : ℕ → ℕ
padding n = bit_and (4 - bit_and n 3) 3

-- `byte(x >> k)`
abbrev pub byte_at : ℕ → ℕ → ℕ
byte_at x k = x / 2 ^ k % 256

module _ {W : Type 0} ⦃io : Writer W⦄ where
  unfoldable pub write_bytes : List ℕ → Encode W
  write_bytes bs w = returning (io.write bs w)

  unfoldable pub encode_int : ℕ → Encode W
  unfolding write_bytes
  encode_int i = write_bytes (byte_at i 24 ∷ byte_at i 16 ∷ byte_at i 8 ∷ byte_at i 0 ∷ [])

  unfoldable pub encode_unsigned_int : ℕ → Encode W
  encode_unsigned_int i = encode_int i

  unfoldable pub encode_bool : Bool → Encode W
  encode_bool b = encode_int (if b then 1 else 0)

  unfoldable pub encode_hyper : ℕ → Encode W
  unfolding write_bytes
  encode_hyper i = write_bytes (
      byte_at i 56
      ∷ byte_at i 48
      ∷ byte_at i 40
      ∷ byte_at i 32
      ∷ byte_at i 24
      ∷ byte_at i 16
      ∷ byte_at i 8
      ∷ byte_at i 0
      ∷ [])

  unfoldable pub encode_unsigned_hyper : ℕ → Encode W
  encode_unsigned_hyper u = encode_hyper u

  unfoldable pub encode_fixed_opaque : List ℕ → Encode W
  unfolding write_bytes
  encode_fixed_opaque buf = write_bytes buf >> write_bytes (take (padding (length buf)) pad)

  unfoldable pub encode_opaque : List ℕ → Encode W
  encode_opaque buf =
      if ltb max_uint32 (length buf)
      then failed (length_error (length buf) max_uint32)
      else (encode_unsigned_int (length buf % 2 ^ 32) >> encode_fixed_opaque buf)

  -- `WriteString` where the writer has it, `Write` elsewhere.
  unfoldable pub write_text : List ℕ → Encode W
  write_text s w = elim io.write_string [
    | none ↦ returning (io.write s w)
    | some write_string ↦ returning (write_string s w)
  ]

  unfoldable pub encode_fixed_string : List ℕ → Encode W
  unfolding write_bytes write_text
  encode_fixed_string s = write_text s >> write_bytes (take (padding (length s)) pad)

  unfoldable pub encode_string : List ℕ → Encode W
  encode_string s =
      if ltb max_uint32 (length s)
      then failed (length_error (length s) max_uint32)
      else (encode_unsigned_int (length s % 2 ^ 32) >> encode_fixed_string s)

  unfoldable pub encode_float : ℕ → Encode W
  encode_float bits = encode_unsigned_int bits

  unfoldable pub encode_double : ℕ → Encode W
  encode_double bits = encode_unsigned_hyper bits
