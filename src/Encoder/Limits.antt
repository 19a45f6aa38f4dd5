-- ===== src/Encoder/Limits.antt =====
-- internal/coder/encoder.go: `EncodeOpaque` and `EncodeString` on both sides of the format's limit.
use xdr.Prelude.{ℕ, ◌≤◌, ◌<◌, ◌≡◌, List, length, lt→ltb}
use xdr.Errors.{length_error}
use xdr.Io.{Writer, failed}
use xdr.Encoder.{max_uint32, encode_opaque, encode_string}
use xdr.Encoder.Wire.{counted}
use xdr.Encoder.Emits.{WriterLaws, Emits, encode_opaque-Emits, encode_string-Emits}

module _ {W MayFail : Type 0} ⦃io : Writer W⦄ (laws : WriterLaws W MayFail) where
  -- Up to 2 ^ 32 - 1 bytes, `EncodeOpaque` and `EncodeString` send the count, the bytes and the
  -- padding to any writer that keeps its contract, and only a front part of these where the writer
  -- fails; beyond that they send nothing and answer with both lengths.
  pub encode_counted :
      (bs : List ℕ)
      → (length bs ≤ max_uint32
          → Emits laws (encode_opaque bs) (counted bs) × Emits laws (encode_string bs) (counted bs))
        × (max_uint32 < length bs
            → (w : W)
            → (encode_opaque bs w ≡ failed (length_error (length bs) max_uint32) w)
              × (encode_string bs w ≡ failed (length_error (length bs) max_uint32) w))
  unfolding encode_opaque encode_string
  encode_counted bs = (
    λ h. (encode_opaque-Emits laws bs h, encode_string-Emits laws bs h),
    λ h w. (rw (lt→ltb max_uint32 (length bs) h), rw (lt→ltb max_uint32 (length bs) h)),
  )
