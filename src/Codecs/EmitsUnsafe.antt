-- ===== src/Codecs/EmitsUnsafe.antt =====
-- internal/coder/codec_*_unsafe.go against the wire format: `encodeUnsafe` of a value that a codec
-- can represent.
use xdr.Prelude.{
  ℕ, zero, suc, ◌^◌, ◌≤◌, ◌≡◌, sym, subst, false, Option, some, List, ◌++◌, append-nil, length,
  arith, le→ltb, le→leb, ==_iff, ◌%◌, [], Text,
}
use xdr.Errors.{Err}
use xdr.Io.{Writer, Encode, Written, done, failed, aborted}
use xdr.Encoder.{max_uint32}
use xdr.Encoder.Wire.{big_endian, padded, counted}
use xdr.Encoder.Emits.{
  EmitsAt, WriterLaws, Emits, >>-Emits, encode_int-Emits, encode_unsigned_int-Emits,
  encode_bool-Emits, encode_hyper-Emits, encode_unsigned_hyper-Emits, encode_fixed_opaque-Emits,
  encode_opaque-Emits, encode_fixed_string-Emits, encode_string-Emits, encode_float-Emits,
  encode_double-Emits,
}
use xdr.Values.{Value, Values, count_values}
use xdr.Codecs.{Codec, FieldCodecs, XType}
use xdr.Codecs.Access.{Host, on_error, map_error, reading}
use xdr.Codecs.EncodeUnsafe.{
  nothing, encode_complex64, encode_complex128, fixed_string_encode, var_string_encode,
  opaque_slice_encode, slice_encode, encode_memory, opt_encode, ptr_encode, union_encode,
  encode_unsafe, encode_fields_unsafe, encode_arm_unsafe,
}
use xdr.Codecs.Encode.{call_unsafe}
use xdr.Codecs.Wire.{
  Wire, WireElems, WireFields, WireArm, depth, depth_elems, depth_fields, depth_arm,
}
use xdr.Codecs.Conversions.{
  memory_bytes-byte_values, opaque_memory-byte_values, discriminant-switch,
}

module _ {W MayFail : Type 0} ⦃io : Writer W⦄ (laws : WriterLaws W MayFail) where
  open laws use {content, Later, later_refl}

  pub nothing-Emits : Emits laws nothing []
  nothing-Emits w = (sym (append-nil (content w)), later_refl w)

  pub complex64-Emits :
      (re im : ℕ) → Emits laws (encode_complex64 (re, im)) (big_endian 4 re ++ big_endian 4 im)
  unfolding encode_complex64
  complex64-Emits re im =
      >>-Emits laws _ _ (big_endian 4 re) _ (encode_float-Emits laws re)
        (encode_float-Emits laws im)

  pub complex128-Emits :
      (re im : ℕ) → Emits laws (encode_complex128 (re, im)) (big_endian 8 re ++ big_endian 8 im)
  unfolding encode_complex128
  complex128-Emits re im =
      >>-Emits laws _ _ (big_endian 8 re) _ (encode_double-Emits laws re)
        (encode_double-Emits laws im)

  pub fixed_string-Emits :
      (len : ℕ) (s : Text) → length s ≡ len → Emits laws (fixed_string_encode len s) (padded s)
  unfolding fixed_string_encode
  fixed_string-Emits len s h = rw ((==_iff (length s) len).1 h) (encode_fixed_string-Emits laws s)

  pub var_string-Emits :
      (maxlen orig_max : ℕ) (s : Text)
      → length s ≤ maxlen
      → length s ≤ max_uint32
      → Emits laws (var_string_encode maxlen orig_max s) (counted s)
  unfolding var_string_encode
  var_string-Emits maxlen orig_max s h k =
      rw (le→leb (length s) maxlen h) (encode_string-Emits laws s k)

  pub opaque_slice-Emits :
      (maxlen orig_max : ℕ) (s : List ℕ)
      → length s ≤ maxlen
      → length s ≤ max_uint32
      → Emits laws (opaque_slice_encode maxlen orig_max s) (counted s)
  unfolding opaque_slice_encode
  opaque_slice-Emits maxlen orig_max s h k =
      rw (le→ltb maxlen (length s) h) (encode_opaque-Emits laws s k)

  pub slice-Emits :
      (maxlen orig_max l : ℕ) (each : Encode W) (bs : List ℕ)
      → l ≤ maxlen
      → l ≤ max_uint32
      → Emits laws each bs
      → Emits laws (slice_encode maxlen orig_max l each) (big_endian 4 l ++ bs)
  unfolding slice_encode
  slice-Emits maxlen orig_max l each bs h k e =
      rw (le→ltb maxlen l h, fits)
        (>>-Emits laws _ each (big_endian 4 l) bs (encode_unsigned_int-Emits laws l) e)
    where
      fits : l % 2 ^ 32 ≡ l
      fits = omega arith

  pub on_error-Emits :
      (f : Err → Err) (m : Encode W) (bs : List ℕ) → Emits laws m bs → Emits laws (on_error f m) bs
  on_error-Emits f m bs h w = keep (m w) (h w)
    where
      keep :
          (r : Written W)
          → EmitsAt MayFail content Later bs w r
          → EmitsAt MayFail content Later bs w (map_error f r)
      keep (done w') q = q
      keep (failed e w') q = q
      keep (aborted a) q = q

  pub reading-Emits :
      {A : Type 0} (o : Option A) (a : A) (f : A → Encode W) (bs : List ℕ)
      → o ≡ some a
      → Emits laws (f a) bs
      → Emits laws (reading o f) bs
  reading-Emits o a f bs e h = rw e h

  pub Emits-of_eq : (m n : Encode W) (bs : List ℕ) → m ≡ n → Emits laws n bs → Emits laws m bs
  Emits-of_eq m n bs e h = subst (λ x. Emits laws x bs) (sym e) h

  module _ (host : Host W) where
    call_unsafe_lem :
        (fuel : ℕ) (xt : XType) (real : Codec) (v : Value)
        → host.resolve xt ≡ some real
        → call_unsafe host (suc fuel) xt v ≡ encode_unsafe host (call_unsafe host fuel) real v
    unfolding call_unsafe
    call_unsafe_lem fuel xt real v e = rw (e, call_unsafe)

    mutual
      unfolding encode_unsafe encode_memory opt_encode ptr_encode union_encode depth

      pub unsafe-Emits :
          {c : Codec} {v : Value} {bs : List ℕ} (d : Wire host c v bs) (fuel : ℕ)
          → depth d ≤ fuel
          → Emits laws (encode_unsafe host (call_unsafe host fuel) c v) bs
      unsafe-Emits (Wire.bool b) fuel h = encode_bool-Emits laws b
      unsafe-Emits (Wire.int8 x k) fuel h = encode_int-Emits laws _
      unsafe-Emits (Wire.int16 x k) fuel h = encode_int-Emits laws _
      unsafe-Emits (Wire.int32 x k) fuel h = encode_int-Emits laws x
      unsafe-Emits (Wire.uint8 x k) fuel h = encode_unsigned_int-Emits laws x
      unsafe-Emits (Wire.uint16 x k) fuel h = encode_unsigned_int-Emits laws x
      unsafe-Emits (Wire.uint32 x k) fuel h = encode_unsigned_int-Emits laws x
      unsafe-Emits (Wire.hyper x k) fuel h = encode_hyper-Emits laws x
      unsafe-Emits (Wire.uhyper x k) fuel h = encode_unsigned_hyper-Emits laws x
      unsafe-Emits (Wire.float x k s) fuel h = encode_float-Emits laws x
      unsafe-Emits (Wire.double x k) fuel h = encode_double-Emits laws x
      unsafe-Emits (Wire.complex64 re im kr ki sr si) fuel h = complex64-Emits re im
      unsafe-Emits (Wire.complex128 re im kr ki) fuel h = complex128-Emits re im
      unsafe-Emits (Wire.fixed_string len s e) fuel h = fixed_string-Emits len s e
      unsafe-Emits (Wire.var_string maxlen orig_max s k l) fuel h =
          var_string-Emits maxlen orig_max s k l
      unsafe-Emits (Wire.opaque_array len bs e) fuel h =
          rw (opaque_memory-byte_values len bs e) (encode_fixed_opaque-Emits laws bs)
      unsafe-Emits (Wire.array len e d) fuel h = rw (← e) (memory-Emits d fuel h)
      unsafe-Emits (Wire.opaque_slice maxlen orig_max bs k l) fuel h =
          rw (memory_bytes-byte_values bs) (opaque_slice-Emits maxlen orig_max bs k l)
      unsafe-Emits (Wire.slice zero_elem maxlen orig_max k l d) fuel h =
          slice-Emits maxlen orig_max _ _ _ k l (memory-Emits d fuel h)
      unsafe-Emits (Wire.opt_nil elem) fuel h =
          >>-Emits laws _ _ _ _ (encode_bool-Emits laws false) nothing-Emits
      unsafe-Emits (Wire.opt_some d) fuel h =
          >>-Emits laws _ _ _ _ (encode_bool-Emits laws _) (unsafe-Emits d fuel h)
      unsafe-Emits (Wire.ptr zero_elem d) fuel h = unsafe-Emits d fuel h
      unsafe-Emits (Wire.struct name d) fuel h = fields_unsafe-Emits name d fuel h
      unsafe-Emits (Wire.union name j sw_name cases default_case sk n i f d e k g a) fuel h =
          >>-Emits laws _ _ _ _
            (on_error-Emits _ _ _ (reading-Emits _ _ _ _ f (unsafe-Emits d fuel (omega arith))))
            (reading-Emits _ _ _ _ f (
              reading-Emits _ _ _ _ (discriminant-switch sk _ n e k).0
                (rw g (arm_unsafe-Emits name n a fuel (omega arith)))))
      unsafe-Emits (Wire.deferred xt e d) zero h = absurd (omega arith)
      unsafe-Emits (Wire.deferred xt e d) (suc fuel) h =
          Emits-of_eq _ _ _ (call_unsafe_lem fuel xt _ _ e) (unsafe-Emits d fuel (omega arith))

      memory-Emits :
          {c : Codec} {vs : Values} {bs : List ℕ} (d : WireElems host c vs bs) (fuel : ℕ)
          → depth_elems d ≤ fuel
          → Emits laws
              (encode_memory (count_values vs) (encode_unsafe host (call_unsafe host fuel) c) vs)
              bs
      memory-Emits (WireElems.no_elems c) fuel h = nothing-Emits
      memory-Emits (WireElems.elem d ds) fuel h =
          >>-Emits laws _ _ _ _ (unsafe-Emits d fuel (omega arith))
            (memory-Emits ds fuel (omega arith))

      fields_unsafe-Emits :
          {fs : FieldCodecs} {v : Value} {bs : List ℕ} (name : Text) (d : WireFields host fs v bs)
          (fuel : ℕ)
          → depth_fields d ≤ fuel
          → Emits laws (encode_fields_unsafe host (call_unsafe host fuel) fs name v) bs
      fields_unsafe-Emits name (WireFields.done v) fuel h = nothing-Emits
      fields_unsafe-Emits name (WireFields.field field_name f d ds) fuel h =
          >>-Emits laws _ _ _ _
            (on_error-Emits _ _ _ (reading-Emits _ _ _ _ f (unsafe-Emits d fuel (omega arith))))
            (fields_unsafe-Emits name ds fuel (omega arith))

      arm_unsafe-Emits :
          {fs : FieldCodecs} {i : ℕ} {v : Value} {bs : List ℕ} (name : Text) (n : ℕ)
          (d : WireArm host fs i v bs) (fuel : ℕ)
          → depth_arm d ≤ fuel
          → Emits laws (encode_arm_unsafe host (call_unsafe host fuel) fs i name n v) bs
      arm_unsafe-Emits name n (WireArm.here field_name fs f d) fuel h =
          on_error-Emits _ _ _ (reading-Emits _ _ _ _ f (unsafe-Emits d fuel h))
      arm_unsafe-Emits name n (WireArm.past index field_name c a) fuel h =
          arm_unsafe-Emits name n a fuel h
      arm_unsafe-Emits name n (WireArm.past_gap a) fuel h = arm_unsafe-Emits name n a fuel h
