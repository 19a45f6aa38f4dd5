-- ===== src/Codecs/EmitsReflect.antt =====
-- internal/coder/codec_*.go against the wire format: `Encode` of a value that a codec can represent,
-- in either build.
use xdr.Prelude.{
  ℕ, zero, suc, ◌%◌, ◌^◌, ◌≤◌, ◌<◌, ◌≡◌, false, Bool, true, if◌then◌else◌, Option, some, List, ◌++◌,
  arith, Text, ◌&&◌,
}
use xdr.Io.{Writer, Encode}
use xdr.Encoder.{encode_int, encode_unsigned_int, encode_float}
use xdr.Encoder.Wire.{big_endian}
use xdr.Encoder.Emits.{
  WriterLaws, Emits, >>-Emits, encode_int-Emits, encode_unsigned_int-Emits, encode_bool-Emits,
  encode_hyper-Emits, encode_unsigned_hyper-Emits, encode_fixed_opaque-Emits, encode_float-Emits,
  encode_double-Emits,
}
use xdr.Values.{Value, Values}
use xdr.Codecs.{Codec, FieldCodecs, XType}
use xdr.Codecs.Access.{Host, Flag, field_flag, referent_flag, getting}
use xdr.Codecs.Permits.{
  Readable, ReadableElems, ReadableFields, ReadableArm, addressed-Readable, addressed-ReadableElems,
}
use xdr.Codecs.EncodeUnsafe.{opt_encode, ptr_encode, union_encode, encode_complex64}
use xdr.Codecs.EncodeReflect.{
  Build, is_default, encode_each, encode_reflect, encode_fields, encode_arm,
}
use xdr.Codecs.Encode.{call_unsafe, call_reflect}
use xdr.Codecs.Wire.{
  Wire, WireElems, WireFields, WireArm, depth, depth_elems, depth_fields, depth_arm, IsStable,
}
use xdr.Codecs.Conversions.{
  sign_extend-mod, sign_extend_64, bytes_of-byte_values, discriminant-switch,
}
use xdr.Codecs.EmitsUnsafe.{
  nothing-Emits, complex64-Emits, complex128-Emits, fixed_string-Emits, var_string-Emits,
  opaque_slice-Emits, slice-Emits, on_error-Emits, Emits-of_eq, unsafe-Emits,
}

module _ {W MayFail : Type 0} ⦃io : Writer W⦄ (laws : WriterLaws W MayFail) where
  getting-Emits :
      {A : Type 0} (o : Option A) (a : A) (f : A → Encode W) (bs : List ℕ)
      → o ≡ some a
      → Emits laws (f a) bs
      → Emits laws (getting o f) bs
  getting-Emits o a f bs e h = rw e h

  int-Emits : (x y : ℕ) → x ≡ y → Emits laws (encode_int x) (big_endian 4 y)
  int-Emits x y e = rw e (encode_int-Emits laws y)

  unsigned-Emits :
      (x : ℕ) → x < 2 ^ 32 → Emits laws (encode_unsigned_int (x % 2 ^ 32)) (big_endian 4 x)
  unsigned-Emits x h = rw fits (encode_unsigned_int-Emits laws x)
    where
      fits : x % 2 ^ 32 ≡ x
      fits = omega arith

  -- Where a test chooses between the two ways of encoding, either will do.
  either-Emits :
      (b : Bool) (m n : Encode W) (bs : List ℕ)
      → Emits laws m bs
      → Emits laws n bs
      → Emits laws (if b then m else n) bs
  either-Emits true m n bs h k = h
  either-Emits false m n bs h k = k

  module _ (host : Host W) (build : Build) where
    call_reflect_lem :
        (fuel : ℕ) (flag : Flag) (xt : XType) (real : Codec) (v : Value)
        → host.resolve xt ≡ some real
        → call_reflect host build (suc fuel) flag xt v
          ≡ encode_reflect host build
              (call_unsafe host fuel)
              (call_reflect host build fuel)
              real
              flag
              v
    call_reflect_lem fuel flag xt real v e = unfold call_reflect in rw (e, call_reflect)

    float-Emits :
        (x : ℕ)
        → IsStable host x
        → Emits laws (encode_float (host.narrow (host.widen x))) (big_endian 4 x)
    float-Emits x s = rw s (encode_float-Emits laws x)

    complex-Emits :
        (re im : ℕ)
        → IsStable host re
        → IsStable host im
        → Emits laws
            (encode_complex64 (host.narrow (host.widen re), host.narrow (host.widen im)))
            (big_endian 4 re ++ big_endian 4 im)
    complex-Emits re im sr si = rw (sr, si) (complex64-Emits laws re im)

    abbrev Represents : ℕ → Codec → Flag → Value → List ℕ → Type 0
    Represents fuel c flag v bs =
        Emits laws
          (encode_reflect host build (call_unsafe host fuel) (call_reflect host build fuel) c flag
            v)
          bs

    mutual
      unfolding encode_reflect encode_each opt_encode ptr_encode union_encode depth Readable

      pub reflect-Emits :
          {c : Codec} {v : Value} {bs : List ℕ} (d : Wire host c v bs) (fuel : ℕ) (flag : Flag)
          → depth d ≤ fuel
          → Readable d flag
          → Represents fuel c flag v bs
      reflect-Emits (Wire.bool b) fuel flag h q = encode_bool-Emits laws b
      reflect-Emits (Wire.int8 x k) fuel flag h q = int-Emits _ _ ((sign_extend-mod x).0 k)
      reflect-Emits (Wire.int16 x k) fuel flag h q = int-Emits _ _ ((sign_extend-mod x).1 k)
      reflect-Emits (Wire.int32 x k) fuel flag h q = int-Emits _ _ ((sign_extend-mod x).2 k)
      reflect-Emits (Wire.uint8 x k) fuel flag h q = unsigned-Emits x (omega arith)
      reflect-Emits (Wire.uint16 x k) fuel flag h q = unsigned-Emits x (omega arith)
      reflect-Emits (Wire.uint32 x k) fuel flag h q = unsigned-Emits x (omega arith)
      reflect-Emits (Wire.hyper x k) fuel flag h q =
          rw (sign_extend_64 x) (encode_hyper-Emits laws x)
      reflect-Emits (Wire.uhyper x k) fuel flag h q = encode_unsigned_hyper-Emits laws x
      reflect-Emits (Wire.float x k s) fuel flag h q = float-Emits x s
      reflect-Emits (Wire.double x k) fuel flag h q = encode_double-Emits laws x
      reflect-Emits (Wire.complex64 re im kr ki sr si) fuel flag h q = complex-Emits re im sr si
      reflect-Emits (Wire.complex128 re im kr ki) fuel flag h q = complex128-Emits laws re im
      reflect-Emits (Wire.fixed_string len s e) fuel flag h q = fixed_string-Emits laws len s e
      reflect-Emits (Wire.var_string maxlen orig_max s k l) fuel flag h q =
          var_string-Emits laws maxlen orig_max s k l
      reflect-Emits (Wire.opaque_array len bs e) fuel flag h q =
          rw (q, bytes_of-byte_values bs) (encode_fixed_opaque-Emits laws bs)
      reflect-Emits (Wire.array len e d) fuel flag h q = each-Emits d fuel flag h q
      reflect-Emits (Wire.opaque_slice maxlen orig_max bs k l) fuel flag h q =
          rw (bytes_of-byte_values bs) (opaque_slice-Emits laws maxlen orig_max bs k l)
      reflect-Emits (Wire.slice zero_elem maxlen orig_max k l d) fuel flag h q =
          slice-Emits laws maxlen orig_max _ _ _ k l
            (each-Emits d fuel (referent_flag flag) h (addressed-ReadableElems d flag.ro))
      reflect-Emits (Wire.opt_nil elem) fuel flag h q =
          >>-Emits laws _ _ _ _ (encode_bool-Emits laws false) (nothing-Emits laws)
      reflect-Emits (Wire.opt_some d) fuel flag h q =
          >>-Emits laws _ _ _ _ (encode_bool-Emits laws _) (reflect-Emits d fuel flag h q)
      reflect-Emits (Wire.ptr zero_elem d) fuel flag h q =
          either-Emits (is_default build) _ _ _ (unsafe-Emits laws host d fuel h)
            (reflect-Emits d fuel (referent_flag flag) h (addressed-Readable d flag.ro))
      reflect-Emits (Wire.struct name d) fuel flag h q =
          either-Emits (is_default build && flag.addr) _ _ _
            (unsafe-Emits laws host (Wire.struct name d) fuel h) (fields-Emits name d fuel flag h q)
      reflect-Emits (Wire.union name j sw_name cases default_case sk n i f d e k g a) fuel flag h
            q =
          either-Emits (is_default build && flag.addr) _ _ _
            (unsafe-Emits laws host
              (Wire.union name j sw_name cases default_case sk n i f d e k g a) fuel h)
            (>>-Emits laws _ _ _ _
              (on_error-Emits laws _ _ _ (
                getting-Emits _ _ _ _ f
                  (reflect-Emits d fuel (field_flag flag sw_name) (omega arith) q.0)))
              (getting-Emits _ _ _ _ f (
                getting-Emits _ _ _ _ (discriminant-switch sk _ n e k).1
                  (rw g (arm-Emits name n a fuel flag (omega arith) q.1)))))
      reflect-Emits (Wire.deferred xt e d) zero flag h q = absurd (omega arith)
      reflect-Emits (Wire.deferred xt e d) (suc fuel) flag h q =
          Emits-of_eq laws _ _ _ (call_reflect_lem fuel flag xt _ _ e)
            (reflect-Emits d fuel flag (omega arith) q)

      each-Emits :
          {c : Codec} {vs : Values} {bs : List ℕ} (d : WireElems host c vs bs) (fuel : ℕ)
          (flag : Flag)
          → depth_elems d ≤ fuel
          → ReadableElems d flag
          → Emits laws
              (encode_each
                (encode_reflect host build
                  (call_unsafe host fuel)
                  (call_reflect host build fuel)
                  c
                  flag)
                vs)
              bs
      each-Emits (WireElems.no_elems c) fuel flag h q = nothing-Emits laws
      each-Emits (WireElems.elem d ds) fuel flag h q =
          >>-Emits laws _ _ _ _ (reflect-Emits d fuel flag (omega arith) q.0)
            (each-Emits ds fuel flag (omega arith) q.1)

      fields-Emits :
          {fs : FieldCodecs} {v : Value} {bs : List ℕ} (name : Text) (d : WireFields host fs v bs)
          (fuel : ℕ) (flag : Flag)
          → depth_fields d ≤ fuel
          → ReadableFields d flag
          → Emits laws
              (encode_fields host build
                (call_unsafe host fuel)
                (call_reflect host build fuel)
                fs
                flag
                name
                v)
              bs
      fields-Emits name (WireFields.done v) fuel flag h q = nothing-Emits laws
      fields-Emits name (WireFields.field field_name f d ds) fuel flag h q =
          >>-Emits laws _ _ _ _
            (on_error-Emits laws _ _ _ (
              getting-Emits _ _ _ _ f
                (reflect-Emits d fuel (field_flag flag field_name) (omega arith) q.0)))
            (fields-Emits name ds fuel flag (omega arith) q.1)

      arm-Emits :
          {fs : FieldCodecs} {i : ℕ} {v : Value} {bs : List ℕ} (name : Text) (n : ℕ)
          (d : WireArm host fs i v bs) (fuel : ℕ) (flag : Flag)
          → depth_arm d ≤ fuel
          → ReadableArm d flag
          → Emits laws
              (encode_arm host build
                (call_unsafe host fuel)
                (call_reflect host build fuel)
                fs
                i
                flag
                name
                n
                v)
              bs
      arm-Emits name n (WireArm.here field_name fs f d) fuel flag h q =
          on_error-Emits laws _ _ _
            (getting-Emits _ _ _ _ f (reflect-Emits d fuel (field_flag flag field_name) h q))
      arm-Emits name n (WireArm.past index field_name c a) fuel flag h q =
          arm-Emits name n a fuel flag h q
      arm-Emits name n (WireArm.past_gap a) fuel flag h q = arm-Emits name n a fuel flag h q
