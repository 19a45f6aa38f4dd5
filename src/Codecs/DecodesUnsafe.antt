-- ===== src/Codecs/DecodesUnsafe.antt =====
-- internal/coder/codec_*_unsafe.go: `decodeUnsafe` of the bytes that represent a value.
use xdr.Prelude.{
  ℕ, zero, suc, ◌+◌, ◌%◌, ◌^◌, ◌≤◌, ◌≡◌, refl, ◌∙◌, ap, subst, false, true, some, List, [], length,
  arith, Text, inl, inr,
}
use xdr.Encoder.{max_uint32}
use xdr.Decoder.{
  decode_unsigned_int, decode_int, decode_hyper, decode_unsigned_hyper, decode_float, decode_double,
  decode_bool, decode_opaque, decode_fixed_opaque, decode_fixed_string,
}
use xdr.Values.{
  Value, Values, no_values, w8, w16, w32, w64, array_v, nil_v, count_values, byte_values,
}
use xdr.Codecs.{Codec, FieldCodecs, XType}
use xdr.Codecs.Access.{Host, opaque_memory, array_elements}
use xdr.Codecs.Stores.{
  put_bool, put_int, put_uint, put_float32, put_float64, put_complex64, put_complex128, put_string,
  put_array_bytes, put_slice_bytes, put_pointer, done,
}
use xdr.Codecs.DecodeUnsafe.{
  decode_memory, opt_decode, ptr_decode, union_decode, decode_unsafe, decode_fields_unsafe,
  decode_arm_unsafe, var_string_decode,
}
use xdr.Codecs.Decode.{recall_unsafe}
use xdr.Codecs.Wire.{
  Wire, WireElems, WireFields, WireArm, depth, depth_elems, depth_fields, depth_arm,
}
use xdr.Codecs.Fits.{IsPointer, Fits, FitElems, FitFields, FitArm}
use xdr.Codecs.Conversions.{
  opaque_memory-byte_values, overwrite-byte_values, discriminant-switch, sign_extend-cut,
}
use xdr.Codecs.Decodes.{
  Decodes, Decodes-of_eq, done-Decodes, into_last-Decodes, storing-Decodes, into-Decodes,
  after_value-Decodes, with_part-Decodes, pair-Decodes, slice-Decodes, union-Decodes,
  map_decoded-Decodes, unless_error-Decodes, field_at-with_field, fixed_opaque-Decodes,
  fixed_string-Decodes, opaque-Decodes, var_string-Decodes,
}
use xdr.Codecs.DecodesPrimitives.{
  int-Decodes, float-Decodes, unsigned_int-Decodes, hyper-Decodes, unsigned_hyper-Decodes,
  double-Decodes, bool-Decodes,
}

pub put_pointer_lem : (p q : Value) → IsPointer p → put_pointer p q ≡ some q
put_pointer_lem p q (inl e) = rw e refl
put_pointer_lem p q (inr (x, e)) = rw e refl

pub put_bytes_lem :
    (p : Value) (old bs : List ℕ) (len : ℕ)
    → p ≡ array_v (byte_values old)
    → length old ≡ len
    → length bs ≡ len
    → put_array_bytes p bs ≡ some (array_v (byte_values bs))
put_bytes_lem p old bs len e h k = rw (e, overwrite-byte_values bs old (omega arith)) refl

pub no_elems :
    {W : Type 0} {host : Host W} {c : Codec} {vs : Values} {bs : List ℕ}
    → WireElems host c vs bs
    → count_values vs ≡ 0
    → (vs ≡ no_values) × (bs ≡ [])
no_elems (WireElems.no_elems c) h = (refl, refl)
no_elems (WireElems.elem d ds) h = absurd (omega arith)

module _ {W : Type 0} (host : Host W) (max_int : ℕ) (wide : max_uint32 + 3 ≤ max_int) where
  recall_unsafe_lem :
      (fuel : ℕ) (xt : XType) (real : Codec) (p : Value)
      → host.resolve xt ≡ some real
      → recall_unsafe host max_int (suc fuel) xt p
        ≡ decode_unsafe host max_int (recall_unsafe host max_int fuel) real p
  unfolding recall_unsafe
  recall_unsafe_lem fuel xt real p e = rw (e, recall_unsafe)

  mutual
    unfolding decode_unsafe decode_memory opt_decode ptr_decode union_decode depth Fits

    pub unsafe-Decodes :
        {c : Codec} {v : Value} {bs : List ℕ} (d : Wire host c v bs) (fuel : ℕ) (p : Value)
        → depth d ≤ fuel
        → Fits d p
        → Decodes (decode_unsafe host max_int (recall_unsafe host max_int fuel) c p) v bs
    unsafe-Decodes (Wire.bool b) fuel p h (old, e) =
        storing-Decodes _ (put_bool p) decode_bool b _ _ (bool-Decodes b) (rw e refl)
    unsafe-Decodes (Wire.int8 x k) fuel p h (old, e) =
        let (small, cut, wide_cut) = (sign_extend-cut x).0 k in
        storing-Decodes _ (put_int w8 p) decode_int _ _ _ (int-Decodes _ small) (rw (e, cut) refl)
    unsafe-Decodes (Wire.int16 x k) fuel p h (old, e) =
        let (small, cut, wide_cut) = (sign_extend-cut x).1 k in
        storing-Decodes _ (put_int w16 p) decode_int _ _ _ (int-Decodes _ small) (rw (e, cut) refl)
    unsafe-Decodes (Wire.int32 x k) fuel p h (old, e) =
        storing-Decodes _ (put_int w32 p) decode_int _ _ _ (int-Decodes x k) (rw e refl)
    unsafe-Decodes (Wire.uint8 x k) fuel p h (old, e) =
        let cut : x % 2 ^ 8 ≡ x = omega arith in
        storing-Decodes _ (put_uint w8 p) decode_unsigned_int _ _ _
          (unsigned_int-Decodes x (omega arith)) (rw (e, cut) refl)
    unsafe-Decodes (Wire.uint16 x k) fuel p h (old, e) =
        let cut : x % 2 ^ 16 ≡ x = omega arith in
        storing-Decodes _ (put_uint w16 p) decode_unsigned_int _ _ _
          (unsigned_int-Decodes x (omega arith)) (rw (e, cut) refl)
    unsafe-Decodes (Wire.uint32 x k) fuel p h (old, e) =
        storing-Decodes _ (put_uint w32 p) decode_unsigned_int _ _ _ (unsigned_int-Decodes x k)
          (rw e refl)
    unsafe-Decodes (Wire.hyper x k) fuel p h (old, e) =
        storing-Decodes _ (put_int w64 p) decode_hyper _ _ _ (hyper-Decodes x k) (rw e refl)
    unsafe-Decodes (Wire.uhyper x k) fuel p h (old, e) =
        storing-Decodes _ (put_uint w64 p) decode_unsigned_hyper _ _ _ (unsigned_hyper-Decodes x k)
          (rw e refl)
    unsafe-Decodes (Wire.float x k s) fuel p h (old, e) =
        storing-Decodes _ (put_float32 p) decode_float _ _ _ (float-Decodes x k) (rw e refl)
    unsafe-Decodes (Wire.double x k) fuel p h (old, e) =
        storing-Decodes _ (put_float64 p) decode_double _ _ _ (double-Decodes x k) (rw e refl)
    unsafe-Decodes (Wire.complex64 re im kr ki sr si) fuel p h (a, b, e) =
        pair-Decodes _ decode_float p _ (put_complex64 p) re im _ _ (float-Decodes re kr)
          (float-Decodes im ki) (rw e refl)
    unsafe-Decodes (Wire.complex128 re im kr ki) fuel p h (a, b, e) =
        pair-Decodes _ decode_double p _ (put_complex128 p) re im _ _ (double-Decodes re kr)
          (double-Decodes im ki) (rw e refl)
    unsafe-Decodes (Wire.fixed_string len s k) fuel p h (small, old, e) =
        storing-Decodes _ (put_string p) (decode_fixed_string len) _ _ _
          (fixed_string-Decodes len s k small) (rw e refl)
    unsafe-Decodes (Wire.var_string maxlen orig_max s k l) fuel p h (old, e) =
        storing-Decodes _ (put_string p) (var_string_decode max_int maxlen orig_max) _ _ _
          (var_string-Decodes max_int wide maxlen orig_max s k l) (rw e refl)
    unsafe-Decodes (Wire.opaque_array len bs k) fuel p h (small, old, e, l) =
        with_part-Decodes _ _ old _ _ _
          (ap (opaque_memory len) e ∙ opaque_memory-byte_values len old l)
          (storing-Decodes _ (put_array_bytes p) (decode_fixed_opaque old) _ _ _
            (fixed_opaque-Decodes old bs (omega arith) (omega arith))
            (put_bytes_lem p old bs len e l k))
    unsafe-Decodes (Wire.array {elem} len {vs} {bs} k d) fuel p h (old, e, f) =
        with_part-Decodes _ _ old _ _ _ (ap array_elements e) (
          map_decoded-Decodes array_v _ vs _ (
            subst
              (λ n.
                Decodes
                  (decode_memory n
                    (decode_unsafe host max_int (recall_unsafe host max_int fuel) elem) old)
                  vs bs)
              k (memory-Decodes d fuel old h f)))
    unsafe-Decodes (Wire.opaque_slice maxlen orig_max bs k l) fuel p h (old, e) =
        storing-Decodes _ (put_slice_bytes p) (decode_opaque max_int maxlen) _ _ _
          (opaque-Decodes max_int wide maxlen bs k l) (rw e refl)
    unsafe-Decodes (Wire.slice zero_elem maxlen orig_max k l d) fuel p h (fits, old, e, f) = rw e (
        slice-Decodes _ zero_elem maxlen orig_max _ old _ _ _ k fits (no_elems d)
          (memory-Decodes d fuel _ h f))
    unsafe-Decodes (Wire.opt_nil elem) fuel p h f =
        unless_error-Decodes p decode_bool _ false _ _ [] (bool-Decodes false) (
          storing-Decodes _ (put_pointer p) (done nil_v) nil_v _ [] (done-Decodes nil_v)
            (put_pointer_lem p nil_v f))
    unsafe-Decodes (Wire.opt_some d) fuel p h (ptr, f, g) =
        unless_error-Decodes p decode_bool _ true _ _ _ (bool-Decodes true)
          (unsafe-Decodes d fuel p h f)
    unsafe-Decodes (Wire.ptr zero_elem d) fuel p h (ptr, f) =
        storing-Decodes _ _ _ _ _ _ (unsafe-Decodes d fuel zero_elem h f) (put_pointer_lem p _ ptr)
    unsafe-Decodes (Wire.struct name d) fuel p h f = fields_unsafe-Decodes name d fuel p h f
    unsafe-Decodes (Wire.union name j sw_name cases default_case sk n i g d e k m a) fuel p h
          (old, q, f, t) =
        with_part-Decodes _ _ old _ _ _ q (
          into-Decodes _ _ _ _ _ _ _ _ (unsafe-Decodes d fuel old (omega arith) f) (
            with_part-Decodes _ _ _ _ _ _ (field_at-with_field j p old _ q) (
              with_part-Decodes _ _ n _ _ _ (discriminant-switch sk _ n e k).0 (
                union-Decodes name _ _ _ i _ _ m
                  (arm_unsafe-Decodes name n a fuel _ (omega arith) t)))))
    unsafe-Decodes (Wire.deferred xt e d) zero p h f = absurd (omega arith)
    unsafe-Decodes (Wire.deferred xt e d) (suc fuel) p h f =
        Decodes-of_eq _ _ _ _ (recall_unsafe_lem fuel xt _ p e)
          (unsafe-Decodes d fuel p (omega arith) f)

    memory-Decodes :
        {c : Codec} {vs : Values} {bs : List ℕ} (d : WireElems host c vs bs) (fuel : ℕ)
        (ps : Values)
        → depth_elems d ≤ fuel
        → FitElems d ps
        → Decodes
            (decode_memory
              (count_values vs)
              (decode_unsafe host max_int (recall_unsafe host max_int fuel) c)
              ps)
            vs
            bs
    memory-Decodes (WireElems.no_elems c) fuel ps h e = rw e (done-Decodes _)
    memory-Decodes (WireElems.elem d ds) fuel ps h (x, xs, e, f, g) = rw e (
        after_value-Decodes _ _ xs _ _ _ _ (unsafe-Decodes d fuel x (omega arith) f)
          (memory-Decodes ds fuel xs (omega arith) g))

    fields_unsafe-Decodes :
        {fs : FieldCodecs} {v : Value} {bs : List ℕ} (name : Text) (d : WireFields host fs v bs)
        (fuel : ℕ) (p : Value)
        → depth_fields d ≤ fuel
        → FitFields d p
        → Decodes
            (decode_fields_unsafe host max_int (recall_unsafe host max_int fuel) fs name p)
            v
            bs
    fields_unsafe-Decodes name (WireFields.done v) fuel p h e = rw e (done-Decodes _)
    fields_unsafe-Decodes name (WireFields.field field_name g d ds) fuel p h (old, q, f, t) =
        with_part-Decodes _ _ old _ _ _ q (
          into-Decodes _ _ _ _ _ _ _ _ (unsafe-Decodes d fuel old (omega arith) f)
            (fields_unsafe-Decodes name ds fuel _ (omega arith) t))

    arm_unsafe-Decodes :
        {fs : FieldCodecs} {i : ℕ} {v : Value} {bs : List ℕ} (name : Text) (n : ℕ)
        (d : WireArm host fs i v bs) (fuel : ℕ) (p : Value)
        → depth_arm d ≤ fuel
        → FitArm d p
        → Decodes
            (decode_arm_unsafe host max_int (recall_unsafe host max_int fuel) fs i name n p)
            v
            bs
    arm_unsafe-Decodes name n (WireArm.here {index} field_name fs g d) fuel p h (old, q, f, t) =
        with_part-Decodes _ _ old _ _ _ q
          (into_last-Decodes _ _ _ _ _ _ (unsafe-Decodes d fuel old h f) t)
    arm_unsafe-Decodes name n (WireArm.past index field_name c a) fuel p h t =
        arm_unsafe-Decodes name n a fuel p h t
    arm_unsafe-Decodes name n (WireArm.past_gap a) fuel p h t =
        arm_unsafe-Decodes name n a fuel p h t
