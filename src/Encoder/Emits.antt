-- ===== src/Encoder/Emits.antt =====
-- internal/coder/encoder.go against the wire format: what reaches the writer, on success and when
-- the writer fails on the way.
use xdr.Prelude.{
  ℕ, zero, suc, ◌-◌, ◌%◌, ◌^◌, ◌≤◌, ◌<◌, ◌≡◌, refl, ◌∙◌, Bool, Option, none, some, List, ◌++◌,
  append_assoc, bit_and, if◌then◌else◌, length, take, replicate, arith, le→ltb,
}
use xdr.Prelude.Bits.{and_three}
use xdr.Errors.{Err}
use xdr.Io.{Writer, Written, Encode, done, failed, aborted, returning, ◌>>◌, then_write}
use xdr.Encoder.{
  max_uint32, pad, padding, write_bytes, encode_int, encode_unsigned_int, encode_bool, encode_hyper,
  encode_unsigned_hyper, encode_fixed_opaque, encode_opaque, write_text, encode_fixed_string,
  encode_string, encode_float, encode_double,
}
use xdr.Encoder.Wire.{big_endian, residual, padded, counted}

-- `bs` went to the writer; where the call failed, some front part of it did. `MayFail` is empty for
-- a writer that has no errors. The writer has come to a later state in either case.
abbrev pub EmitsAt :
    {W : Type 0} → Type 0 → (W → List ℕ) → (W → W → Type 0) → List ℕ → W → Written W → Type 0
EmitsAt MayFail content Later bs w (done w') = (content w' ≡ content w ++ bs) × Later w w'
EmitsAt MayFail content Later bs w (failed e w') =
    (allowed : MayFail) × (front : List ℕ) × (back : List ℕ) × (front ++ back ≡ bs)
    × (content w' ≡ content w ++ front)
    × Later w w'
EmitsAt MayFail content Later bs w (aborted a) = ⊥

-- What the documentation of `io.Writer` promises: a write without an error has taken all bytes, a
-- write with an error the first few. `content` is all that the writer has taken so far, and `Later`
-- is what else holds between the writer before and after a write.
pub record WriterLaws (W MayFail : Type 0) ⦃io : Writer W⦄ : Type 1 where
  pub content : W → List ℕ
  pub Later : W → W → Type 0
  pub later_refl : (w : W) → Later w w
  pub later_trans : (u v w : W) → Later u v → Later v w → Later u w
  pub write_law :
      (bs : List ℕ) (w : W) → EmitsAt MayFail content Later bs w (returning (io.write bs w))
  pub write_string_law :
      (ws : List ℕ → W → Option Err × W)
      → io.write_string ≡ some ws
      → (s : List ℕ) (w : W) → EmitsAt MayFail content Later s w (returning (ws s w))

pub padding_lem : (n : ℕ) → padding n ≡ residual n
unfolding padding
padding_lem n = omega (arith, and_three n, and_three (4 - bit_and n 3))

take-pad : (k : ℕ) → k < 4 → take k pad ≡ replicate k 0
take-pad zero h = refl
take-pad (suc zero) h = refl
take-pad (suc (suc zero)) h = refl
take-pad (suc (suc (suc zero))) h = refl
take-pad (suc (suc (suc (suc k)))) h = absurd (omega arith)

-- The code's padding is the format's.
pub padding-residual : (n : ℕ) → take (padding n) pad ≡ replicate (residual n) 0
padding-residual n = rw padding_lem (take-pad (residual n) (omega arith))

within : (bs : List ℕ) → length bs ≤ max_uint32 → length bs % 2 ^ 32 ≡ length bs
within bs h = omega arith

pub then_write-EmitsAt :
    {W : Type 0} (MayFail : Type 0) (content : W → List ℕ) (Later : W → W → Type 0)
    (trans : (u v w : W) → Later u v → Later v w → Later u w) (n : Encode W) (bs cs : List ℕ)
    (w : W) (r : Written W)
    → EmitsAt MayFail content Later bs w r
    → ((w : W) → EmitsAt MayFail content Later cs w (n w))
    → EmitsAt MayFail content Later (bs ++ cs) w (then_write n r)
then_write-EmitsAt {W = W} MayFail content Later trans n bs cs w (done w') (h, l) k =
    shift (n w') (k w')
  where
    shift :
        (r : Written W)
        → EmitsAt MayFail content Later cs w' r
        → EmitsAt MayFail content Later (bs ++ cs) w r
    shift (done v) (q, m) = (q ∙ rw (h, append_assoc), trans w w' v l m)
    shift (failed e v) (f, front, back, p, q, m) =
        (f, bs ++ front, back, rw (append_assoc, p), q ∙ rw (h, append_assoc), trans w w' v l m)
    shift (aborted a) q = q
then_write-EmitsAt MayFail content Later trans n bs cs w (failed e w') (f, front, back, p, q, l) k =
    (f, front, back ++ cs, rw (← append_assoc, p), q, l)
then_write-EmitsAt MayFail content Later trans n bs cs w (aborted a) h k = absurd h

module _ {W MayFail : Type 0} ⦃io : Writer W⦄ (laws : WriterLaws W MayFail) where
  open laws use {content, Later, later_trans, write_law, write_string_law}

  abbrev pub Emits : Encode W → List ℕ → Type 0
  Emits m bs = (w : W) → EmitsAt MayFail content Later bs w (m w)

  -- A writer that has no errors takes everything.
  pub Emits-done :
      (m : Encode W) (bs : List ℕ)
      → ¬ MayFail
      → Emits m bs
      → (w : W) → (w' : W) × (m w ≡ done w') × (content w' ≡ content w ++ bs)
  Emits-done m bs reliable h w = go (m w) refl (h w)
    where
      go :
          (r : Written W)
          → m w ≡ r
          → EmitsAt MayFail content Later bs w r
          → (w' : W) × (m w ≡ done w') × (content w' ≡ content w ++ bs)
      go (done w') e q = (w', e, q.0)
      go (failed x w') e q = absurd (reliable q.0)
      go (aborted a) e q = absurd q

  pub >>-Emits :
      (m n : Encode W) (bs cs : List ℕ) → Emits m bs → Emits n cs → Emits (m >> n) (bs ++ cs)
  >>-Emits m n bs cs h k w =
      then_write-EmitsAt MayFail content Later later_trans n bs cs w (m w) (h w) k

  pub write_bytes-Emits : (bs : List ℕ) → Emits (write_bytes bs) bs
  unfolding write_bytes
  write_bytes-Emits bs w = write_law bs w

  write_text-Emits : (s : List ℕ) → Emits (write_text s) s
  unfolding write_text
  write_text-Emits s w = by_writer io.write_string refl
    where
      by_writer :
          (o : Option (List ℕ → W → Option Err × W))
          → io.write_string ≡ o
          → EmitsAt MayFail content Later s w (elim o [
            | none ↦ returning (io.write s w)
            | some write_string ↦ returning (write_string s w)
          ])
      by_writer none e = write_law s w
      by_writer (some ws) e = write_string_law ws e s w

  pub encode_int-Emits : (i : ℕ) → Emits (encode_int i) (big_endian 4 i)
  unfolding encode_int
  encode_int-Emits i = write_bytes-Emits _

  pub encode_unsigned_int-Emits : (i : ℕ) → Emits (encode_unsigned_int i) (big_endian 4 i)
  unfolding encode_unsigned_int
  encode_unsigned_int-Emits i = encode_int-Emits i

  pub encode_bool-Emits : (b : Bool) → Emits (encode_bool b) (big_endian 4 (if b then 1 else 0))
  unfolding encode_bool
  encode_bool-Emits b = encode_int-Emits _

  pub encode_hyper-Emits : (i : ℕ) → Emits (encode_hyper i) (big_endian 8 i)
  unfolding encode_hyper
  encode_hyper-Emits i = write_bytes-Emits _

  pub encode_unsigned_hyper-Emits : (i : ℕ) → Emits (encode_unsigned_hyper i) (big_endian 8 i)
  unfolding encode_unsigned_hyper
  encode_unsigned_hyper-Emits i = encode_hyper-Emits i

  pub encode_float-Emits : (bits : ℕ) → Emits (encode_float bits) (big_endian 4 bits)
  unfolding encode_float
  encode_float-Emits bits = encode_unsigned_int-Emits bits

  pub encode_double-Emits : (bits : ℕ) → Emits (encode_double bits) (big_endian 8 bits)
  unfolding encode_double
  encode_double-Emits bits = encode_unsigned_hyper-Emits bits

  pub encode_fixed_opaque-Emits : (buf : List ℕ) → Emits (encode_fixed_opaque buf) (padded buf)
  unfolding encode_fixed_opaque
  encode_fixed_opaque-Emits buf =
      rw (← padding-residual (length buf))
        (>>-Emits _ _ buf _ (write_bytes-Emits buf) (write_bytes-Emits _))

  pub encode_fixed_string-Emits : (s : List ℕ) → Emits (encode_fixed_string s) (padded s)
  unfolding encode_fixed_string
  encode_fixed_string-Emits s =
      rw (← padding-residual (length s))
        (>>-Emits _ _ s _ (write_text-Emits s) (write_bytes-Emits _))

  pub encode_opaque-Emits :
      (buf : List ℕ) → length buf ≤ max_uint32 → Emits (encode_opaque buf) (counted buf)
  unfolding encode_opaque
  encode_opaque-Emits buf h =
      rw (le→ltb max_uint32 (length buf) h, within buf h)
        (>>-Emits _ _ (big_endian 4 (length buf)) _ (encode_unsigned_int-Emits (length buf))
          (encode_fixed_opaque-Emits buf))

  pub encode_string-Emits :
      (s : List ℕ) → length s ≤ max_uint32 → Emits (encode_string s) (counted s)
  unfolding encode_string
  encode_string-Emits s h =
      rw (le→ltb max_uint32 (length s) h, within s h)
        (>>-Emits _ _ (big_endian 4 (length s)) _ (encode_unsigned_int-Emits (length s))
          (encode_fixed_string-Emits s))
