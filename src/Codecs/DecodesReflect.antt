-- ===== src/Codecs/DecodesReflect.antt =====
-- internal/coder/codec_*.go: `Decode`, in either build, of the bytes that represent a value.
use xdr.Prelude.{
  ℕ, zero, suc, ◌+◌, ◌%◌, ◌^◌, ◌≤◌, ◌≡◌, refl, ◌∙◌, ap, Bool, false, true, Option, some, List, [],
  arith, Text,
}
use xdr.Io.{panic, Decode}
use xdr.Encoder.{max_uint32}
use xdr.Decoder.{
  decode_unsigned_int, decode_int, decode_hyper, decode_unsigned_hyper, decode_float, decode_double,
  decode_bool, decode_opaque, decode_fixed_opaque, decode_fixed_string,
}
use xdr.Values.{Value, Values, array_v, slice_v, nil_v}
use xdr.Codecs.{Codec, FieldCodecs, XType}
use xdr.Codecs.Permits.{Settable, SettableElems, SettableFields, SettableArm}
use xdr.Codecs.Access.{Host, field_ro, array_bytes, array_elements}
use xdr.Codecs.Stores.{
  put_bool, set_int, set_uint, set_float, set_complex, put_string, put_array_bytes, put_slice_bytes,
  put_pointer, done,
}
use xdr.Codecs.DecodeUnsafe.{opt_decode, slice_decode, ptr_decode, union_decode, var_string_decode}
use xdr.Codecs.DecodeReflect.{
  setting, setting_slice, setting_pointer, decode_each, set_extended, set_widened,
  set_widened_complex, decode_reflect, decode_fields, decode_arm,
}
use xdr.Codecs.EncodeReflect.{Build, default_build, nounsafe_build}
use xdr.Codecs.DecodesPrimitives.{
  int-Decodes, float-Decodes, unsigned_int-Decodes, hyper-Decodes, unsigned_hyper-Decodes,
  double-Decodes, bool-Decodes,
}
use xdr.Codecs.DecodesUnsafe.{put_pointer_lem, put_bytes_lem, no_elems, unsafe-Decodes}
use xdr.Codecs.Decode.{recall_unsafe, recall_reflect}
use xdr.Codecs.Wire.{
  Wire, WireElems, WireFields, WireArm, depth, depth_elems, depth_fields, depth_arm,
}
use xdr.Codecs.Fits.{Fits, FitElems, FitFields, FitArm}
use xdr.Codecs.Conversions.{bytes_of-byte_values, discriminant-switch, sign_extend-cut}
use xdr.Codecs.Decodes.{
  Decodes, Decodes-of_eq, done-Decodes, into_last-Decodes, storing-Decodes, into-Decodes,
  after_value-Decodes, with_part-Decodes, pair-Decodes, slice-Decodes, union-Decodes,
  map_decoded-Decodes, unless_error-Decodes, field_at-with_field, fixed_opaque-Decodes,
  fixed_string-Decodes, opaque-Decodes, var_string-Decodes,
}

setting_lem :
    (ro : Bool) (put : Value → Option Value) (x v : Value)
    → ro ≡ false
    → put x ≡ some v
    → setting ro put x ≡ some v
setting_lem true put x v z h = cc
setting_lem false put x v z h = h

setting_slice-Decodes :
    (ro : Bool) (zero_elem : Value) (maxlen orig_max : ℕ) (p : Value)
    (each : Values → Decode Values) (v : Value) (bs : List ℕ)
    → ro ≡ false
    → Decodes (slice_decode panic zero_elem maxlen orig_max p (λ l vs. each vs)) v bs
    → Decodes (setting_slice ro zero_elem maxlen orig_max p each) v bs
setting_slice-Decodes true zero_elem maxlen orig_max p each v bs z h = cc
setting_slice-Decodes false zero_elem maxlen orig_max p each v bs z h = h

setting_pointer-Decodes :
    (ro : Bool) (p : Value) (elem : Decode Value) (v : Value) (bs : List ℕ)
    → ro ≡ false
    → Decodes (ptr_decode panic p elem) v bs
    → Decodes (setting_pointer ro p elem) v bs
setting_pointer-Decodes true p elem v bs z h = cc
setting_pointer-Decodes false p elem v bs z h = h

module _ {W : Type 0} (host : Host W) (max_int : ℕ) (wide : max_uint32 + 3 ≤ max_int) where
  recall_reflect_lem :
      (build : Build) (fuel : ℕ) (ro : Bool) (xt : XType) (real : Codec) (p : Value)
      → host.resolve xt ≡ some real
      → recall_reflect host max_int build (suc fuel) ro xt p
        ≡ decode_reflect host max_int build
            (recall_unsafe host max_int fuel)
            (recall_reflect host max_int build fuel)
            real
            ro
            p
  unfolding recall_reflect
  recall_reflect_lem build fuel ro xt real p e = rw (e, recall_reflect)

  mutual
    unfolding decode_reflect decode_each opt_decode ptr_decode union_decode depth Fits Settable

    pub reflect-Decodes :
        (build : Build) {c : Codec} {v : Value} {bs : List ℕ} (d : Wire host c v bs) (fuel : ℕ)
        (ro : Bool) (p : Value)
        → depth d ≤ fuel
        → Fits d p
        → Settable build d ro
        → Decodes
            (decode_reflect host max_int build
              (recall_unsafe host max_int fuel)
              (recall_reflect host max_int build fuel)
              c
              ro
              p)
            v
            bs
    reflect-Decodes build (Wire.bool b) fuel ro p h (old, e) z =
        storing-Decodes _ (setting ro (put_bool p)) decode_bool b _ _ (bool-Decodes b)
          (rw (z, e) refl)
    reflect-Decodes build (Wire.int8 x k) fuel ro p h (old, e) z =
        let (small, cut, wide_cut) = (sign_extend-cut x).0 k in
        storing-Decodes _ (setting ro (set_extended p)) decode_int _ _ _ (int-Decodes _ small)
          (rw (z, e, wide_cut) refl)
    reflect-Decodes build (Wire.int16 x k) fuel ro p h (old, e) z =
        let (small, cut, wide_cut) = (sign_extend-cut x).1 k in
        storing-Decodes _ (setting ro (set_extended p)) decode_int _ _ _ (int-Decodes _ small)
          (rw (z, e, wide_cut) refl)
    reflect-Decodes build (Wire.int32 x k) fuel ro p h (old, e) z =
        storing-Decodes _ (setting ro (set_extended p)) decode_int _ _ _ (int-Decodes x k)
          (rw (z, e, (sign_extend-cut x).2 k) refl)
    reflect-Decodes build (Wire.uint8 x k) fuel ro p h (old, e) z =
        let cut : x % 2 ^ 8 ≡ x = omega arith in
        storing-Decodes _ (setting ro (set_uint p)) decode_unsigned_int _ _ _
          (unsigned_int-Decodes x (omega arith)) (rw (z, e, cut) refl)
    reflect-Decodes build (Wire.uint16 x k) fuel ro p h (old, e) z =
        let cut : x % 2 ^ 16 ≡ x = omega arith in
        storing-Decodes _ (setting ro (set_uint p)) decode_unsigned_int _ _ _
          (unsigned_int-Decodes x (omega arith)) (rw (z, e, cut) refl)
    reflect-Decodes build (Wire.uint32 x k) fuel ro p h (old, e) z =
        let cut : x % 2 ^ 32 ≡ x = omega arith in
        storing-Decodes _ (setting ro (set_uint p)) decode_unsigned_int _ _ _
          (unsigned_int-Decodes x k) (rw (z, e, cut) refl)
    reflect-Decodes build (Wire.hyper x k) fuel ro p h (old, e) z =
        let cut : x % 2 ^ 64 ≡ x = omega arith in
        storing-Decodes _ (setting ro (set_int p)) decode_hyper _ _ _ (hyper-Decodes x k)
          (rw (z, e, cut) refl)
    reflect-Decodes build (Wire.uhyper x k) fuel ro p h (old, e) z =
        let cut : x % 2 ^ 64 ≡ x = omega arith in
        storing-Decodes _ (setting ro (set_uint p)) decode_unsigned_hyper _ _ _
          (unsigned_hyper-Decodes x k) (rw (z, e, cut) refl)
    reflect-Decodes build (Wire.float x k s) fuel ro p h (old, e) z =
        storing-Decodes _ (setting ro (set_widened host p)) decode_float _ _ _ (float-Decodes x k)
          (rw (z, e, s) refl)
    reflect-Decodes build (Wire.double x k) fuel ro p h (old, e) z =
        storing-Decodes _ (setting ro (set_float host p)) decode_double _ _ _ (double-Decodes x k)
          (rw (z, e) refl)
    reflect-Decodes build (Wire.complex64 re im kr ki sr si) fuel ro p h (a, b, e) z =
        pair-Decodes _ decode_float p _ (setting ro (set_widened_complex host p)) re im _ _
          (float-Decodes re kr) (float-Decodes im ki) (rw (z, e, sr, si) refl)
    reflect-Decodes build (Wire.complex128 re im kr ki) fuel ro p h (a, b, e) z =
        pair-Decodes _ decode_double p _ (setting ro (set_complex host p)) re im _ _
          (double-Decodes re kr) (double-Decodes im ki) (rw (z, e) refl)
    reflect-Decodes build (Wire.fixed_string len s k) fuel ro p h (small, old, e) z =
        storing-Decodes _ (setting ro (put_string p)) (decode_fixed_string len) _ _ _
          (fixed_string-Decodes len s k small) (rw (z, e) refl)
    reflect-Decodes build (Wire.var_string maxlen orig_max s k l) fuel ro p h (old, e) z =
        storing-Decodes _ (setting ro (put_string p)) (var_string_decode max_int maxlen orig_max) _
          _ _ (var_string-Decodes max_int wide maxlen orig_max s k l) (rw (z, e) refl)
    reflect-Decodes build (Wire.opaque_array len bs k) fuel ro p h (small, old, e, l) z =
        with_part-Decodes _ _ old _ _ _ (ap array_bytes e ∙ bytes_of-byte_values old) (
          storing-Decodes _ (put_array_bytes p) (decode_fixed_opaque old) _ _ _
            (fixed_opaque-Decodes old bs (omega arith) (omega arith))
            (put_bytes_lem p old bs len e l k))
    reflect-Decodes build (Wire.array {elem} len {vs} {bs} k d) fuel ro p h (old, e, f) z =
        with_part-Decodes _ _ old _ _ _ (ap array_elements e)
          (map_decoded-Decodes array_v _ vs _ (each-Decodes build d fuel ro old h f z))
    reflect-Decodes build (Wire.opaque_slice maxlen orig_max bs k l) fuel ro p h (old, e) z =
        storing-Decodes _ (setting ro (put_slice_bytes p)) (decode_opaque max_int maxlen) _ _ _
          (opaque-Decodes max_int wide maxlen bs k l) (rw (z, e) refl)
    reflect-Decodes build (Wire.slice zero_elem maxlen orig_max k l d) fuel ro p h (fits, old, e, f)
          z =
        rw e (
          setting_slice-Decodes ro zero_elem maxlen orig_max (slice_v old) _ _ _ z.0 (
            slice-Decodes _ zero_elem maxlen orig_max _ old _ _ _ k fits (no_elems d)
              (each-Decodes build d fuel ro _ h f z.1)))
    reflect-Decodes build (Wire.opt_nil elem) fuel ro p h f z =
        with_part-Decodes _ _ nil_v _ _ _ (setting_lem ro _ nil_v _ z (put_pointer_lem p nil_v f)) (
          unless_error-Decodes nil_v decode_bool _ false _ _ [] (bool-Decodes false) (
            storing-Decodes panic (put_pointer nil_v) (done nil_v) nil_v _ [] (done-Decodes nil_v)
              refl))
    reflect-Decodes build (Wire.opt_some d) fuel ro p h (ptr, f, g) z =
        with_part-Decodes _ _ nil_v _ _ _
          (setting_lem ro _ nil_v _ z.0 (put_pointer_lem p nil_v ptr))
          (unless_error-Decodes nil_v decode_bool _ true _ _ _ (bool-Decodes true)
            (reflect-Decodes build d fuel ro nil_v h g z.1))
    reflect-Decodes default_build (Wire.ptr zero_elem d) fuel ro p h (ptr, f) z =
        setting_pointer-Decodes ro p _ _ _ z.0 (
          storing-Decodes _ _ _ _ _ _ (unsafe-Decodes host max_int wide d fuel zero_elem h f)
            (put_pointer_lem p _ ptr))
    reflect-Decodes nounsafe_build (Wire.ptr zero_elem d) fuel ro p h (ptr, f) z =
        setting_pointer-Decodes ro p _ _ _ z.0 (
          storing-Decodes _ _ _ _ _ _ (reflect-Decodes nounsafe_build d fuel ro zero_elem h f z.1)
            (put_pointer_lem p _ ptr))
    reflect-Decodes default_build (Wire.struct name d) fuel ro p h f z =
        unsafe-Decodes host max_int wide (Wire.struct name d) fuel p h f
    reflect-Decodes nounsafe_build (Wire.struct name d) fuel ro p h f z =
        fields-Decodes nounsafe_build name d fuel ro p h f z
    reflect-Decodes default_build (Wire.union name j sw_name cases default_case sk n i g d e k m a)
          fuel ro p h t z =
        unsafe-Decodes host max_int wide
          (Wire.union name j sw_name cases default_case sk n i g d e k m a) fuel p h t
    reflect-Decodes nounsafe_build (Wire.union name j sw_name cases default_case sk n i g d e k m a)
          fuel ro p h (old, q, f, t) z =
        with_part-Decodes _ _ old _ _ _ q (
          into-Decodes _ _ _ _ _ _ _ _
            (reflect-Decodes nounsafe_build d fuel (field_ro ro sw_name) old (omega arith) f z.0)
            (with_part-Decodes _ _ _ _ _ _ (field_at-with_field j p old _ q) (
              with_part-Decodes _ _ n _ _ _ (discriminant-switch sk _ n e k).1 (
                union-Decodes name _ _ _ i _ _ m
                  (arm-Decodes nounsafe_build name n a fuel ro _ (omega arith) t z.1)))))
    reflect-Decodes build (Wire.deferred xt e d) zero ro p h f z = absurd (omega arith)
    reflect-Decodes build (Wire.deferred xt e d) (suc fuel) ro p h f z =
        Decodes-of_eq _ _ _ _ (recall_reflect_lem build fuel ro xt _ p e)
          (reflect-Decodes build d fuel ro p (omega arith) f z)

    each-Decodes :
        (build : Build) {c : Codec} {vs : Values} {bs : List ℕ} (d : WireElems host c vs bs)
        (fuel : ℕ) (ro : Bool) (ps : Values)
        → depth_elems d ≤ fuel
        → FitElems d ps
        → SettableElems build d ro
        → Decodes
            (decode_each
              (decode_reflect host max_int build
                (recall_unsafe host max_int fuel)
                (recall_reflect host max_int build fuel)
                c
                ro)
              ps)
            vs
            bs
    each-Decodes build (WireElems.no_elems c) fuel ro ps h e z = rw e (done-Decodes _)
    each-Decodes build (WireElems.elem d ds) fuel ro ps h (x, xs, e, f, g) z = rw e (
        after_value-Decodes _ _ xs _ _ _ _ (reflect-Decodes build d fuel ro x (omega arith) f z.0)
          (each-Decodes build ds fuel ro xs (omega arith) g z.1))

    fields-Decodes :
        (build : Build) {fs : FieldCodecs} {v : Value} {bs : List ℕ} (name : Text)
        (d : WireFields host fs v bs) (fuel : ℕ) (ro : Bool) (p : Value)
        → depth_fields d ≤ fuel
        → FitFields d p
        → SettableFields build d ro
        → Decodes
            (decode_fields host max_int build
              (recall_unsafe host max_int fuel)
              (recall_reflect host max_int build fuel)
              fs
              ro
              name
              p)
            v
            bs
    fields-Decodes build name (WireFields.done v) fuel ro p h e z = rw e (done-Decodes _)
    fields-Decodes build name (WireFields.field field_name g d ds) fuel ro p h (old, q, f, t) z =
        with_part-Decodes _ _ old _ _ _ q (
          into-Decodes _ _ _ _ _ _ _ _
            (reflect-Decodes build d fuel (field_ro ro field_name) old (omega arith) f z.0)
            (fields-Decodes build name ds fuel ro _ (omega arith) t z.1))

    arm-Decodes :
        (build : Build) {fs : FieldCodecs} {i : ℕ} {v : Value} {bs : List ℕ} (name : Text) (n : ℕ)
        (d : WireArm host fs i v bs) (fuel : ℕ) (ro : Bool) (p : Value)
        → depth_arm d ≤ fuel
        → FitArm d p
        → SettableArm build d ro
        → Decodes
            (decode_arm host max_int build
              (recall_unsafe host max_int fuel)
              (recall_reflect host max_int build fuel)
              fs
              i
              ro
              name
              n
              p)
            v
            bs
    arm-Decodes build name n (WireArm.here {index} field_name fs g d) fuel ro p h (old, q, f, t) z =
        with_part-Decodes _ _ old _ _ _ q (
          into_last-Decodes _ _ _ _ _ _
            (reflect-Decodes build d fuel (field_ro ro field_name) old h f z) t)
    arm-Decodes build name n (WireArm.past index field_name c a) fuel ro p h t z =
        arm-Decodes build name n a fuel ro p h t z
    arm-Decodes build name n (WireArm.past_gap a) fuel ro p h t z =
        arm-Decodes build name n a fuel ro p h t z
