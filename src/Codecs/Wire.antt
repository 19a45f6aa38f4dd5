-- ===== src/Codecs/Wire.antt =====
-- The wire format of RFC 4506 by codec, described independently of the code: `Wire c v bs` says that
-- the codec `c` represents the value `v` by the bytes `bs`. Marshalers, registered codecs and
-- `errorCodec`s stand for no format of the library's own.
use xdr.Prelude.{
  ℕ, zero, suc, ◌^◌, ◌≤◌, ◌<◌, ◌≡◌, Bool, Option, none, some, List, [], ◌++◌, if◌then◌else◌, length,
  Text,
}
use Prim.Native.Nat.{max}
use xdr.Encoder.{max_uint32}
use xdr.Encoder.Wire.{big_endian, padded, counted}
use xdr.Values.{
  Value, Values, w8, w16, w32, w64, bool_v, int_v, uint_v, float32_v, float64_v, complex64_v,
  complex128_v, string_v, array_v, slice_v, nil_v, ptr_v, no_values, and_value, field_at,
  count_values, byte_values, sign_extend,
}
use xdr.Codecs.{Codec, FieldCodecs, XType, SwitchKind, switch_bool, switch_int, switch_uint}
use xdr.Codecs.Access.{Host}
use xdr.Codecs.Unions.{case_field}

-- The discriminant of a union, as a 32-bit pattern.
abbrev pub discriminant : SwitchKind → Value → Option ℕ
discriminant switch_bool (bool_v b) = some (if b then 1 else 0)
discriminant switch_int (int_v w32 x) = some x
discriminant switch_uint (uint_v w32 x) = some x
discriminant _ _ = none

-- A float32 that a conversion to float64 and back does not change; a signalling NaN may not be one.
abbrev pub IsStable : {W : Type 0} → Host W → ℕ → Type 0
IsStable host x = host.narrow (host.widen x) ≡ x

mutual
  pub data Wire {W : Type 0} (host : Host W) : Codec → Value → List ℕ → Type 0 where
    bool : (b : Bool) → Wire host Codec.bool_codec (bool_v b) (big_endian 4 (if b then 1 else 0))
    int8 :
        (x : ℕ)
        → x < 2 ^ 8
        → Wire host Codec.int8_codec (int_v w8 x) (big_endian 4 (sign_extend 8 32 x))
    int16 :
        (x : ℕ)
        → x < 2 ^ 16
        → Wire host Codec.int16_codec (int_v w16 x) (big_endian 4 (sign_extend 16 32 x))
    int32 : (x : ℕ) → x < 2 ^ 32 → Wire host Codec.int32_codec (int_v w32 x) (big_endian 4 x)
    uint8 : (x : ℕ) → x < 2 ^ 8 → Wire host Codec.uint8_codec (uint_v w8 x) (big_endian 4 x)
    uint16 : (x : ℕ) → x < 2 ^ 16 → Wire host Codec.uint16_codec (uint_v w16 x) (big_endian 4 x)
    uint32 : (x : ℕ) → x < 2 ^ 32 → Wire host Codec.uint32_codec (uint_v w32 x) (big_endian 4 x)
    hyper : (x : ℕ) → x < 2 ^ 64 → Wire host Codec.hyper_codec (int_v w64 x) (big_endian 8 x)
    uhyper : (x : ℕ) → x < 2 ^ 64 → Wire host Codec.uhyper_codec (uint_v w64 x) (big_endian 8 x)
    float :
        (x : ℕ)
        → x < 2 ^ 32
        → IsStable host x
        → Wire host Codec.float_codec (float32_v x) (big_endian 4 x)
    double : (x : ℕ) → x < 2 ^ 64 → Wire host Codec.double_codec (float64_v x) (big_endian 8 x)
    complex64 :
        (re im : ℕ)
        → re < 2 ^ 32
        → im < 2 ^ 32
        → IsStable host re
        → IsStable host im
        → Wire host Codec.complex64_codec (complex64_v re im) (big_endian 4 re ++ big_endian 4 im)
    complex128 :
        (re im : ℕ)
        → re < 2 ^ 64
        → im < 2 ^ 64
        → Wire host Codec.complex128_codec (complex128_v re im) (big_endian 8 re ++ big_endian 8 im)
    fixed_string :
        (len : ℕ) (s : Text)
        → length s ≡ len
        → Wire host (Codec.fixed_string_codec len) (string_v s) (padded s)
    var_string :
        (maxlen orig_max : ℕ) (s : Text)
        → length s ≤ maxlen
        → length s ≤ max_uint32
        → Wire host (Codec.var_string_codec maxlen orig_max) (string_v s) (counted s)
    opaque_array :
        (len : ℕ) (bs : List ℕ)
        → length bs ≡ len
        → Wire host (Codec.opaque_array_codec len) (array_v (byte_values bs)) (padded bs)
    array :
        {elem : Codec} (len : ℕ) {vs : Values} {bs : List ℕ}
        → count_values vs ≡ len
        → WireElems host elem vs bs
        → Wire host (Codec.array_codec elem len) (array_v vs) bs
    opaque_slice :
        (maxlen orig_max : ℕ) (bs : List ℕ)
        → length bs ≤ maxlen
        → length bs ≤ max_uint32
        → Wire host
            (Codec.opaque_slice_codec maxlen orig_max)
            (slice_v (byte_values bs))
            (counted bs)
    slice :
        {elem : Codec} (zero_elem : Value) (maxlen orig_max : ℕ) {vs : Values} {bs : List ℕ}
        → count_values vs ≤ maxlen
        → count_values vs ≤ max_uint32
        → WireElems host elem vs bs
        → Wire host
            (Codec.slice_codec elem zero_elem maxlen orig_max)
            (slice_v vs)
            (big_endian 4 (count_values vs) ++ bs)
    opt_nil : (elem : Codec) → Wire host (Codec.opt_codec elem) nil_v (big_endian 4 0)
    opt_some :
        {elem : Codec} {v : Value} {bs : List ℕ}
        → Wire host elem (ptr_v v) bs
        → Wire host (Codec.opt_codec elem) (ptr_v v) (big_endian 4 1 ++ bs)
    ptr :
        {elem : Codec} (zero_elem : Value) {v : Value} {bs : List ℕ}
        → Wire host elem v bs
        → Wire host (Codec.ptr_codec elem zero_elem) (ptr_v v) bs
    struct :
        (name : Text) {fs : FieldCodecs} {v : Value} {bs : List ℕ}
        → WireFields host fs v bs
        → Wire host (Codec.struct_codec name fs) v bs
    union :
        (name : Text) (sw_index : ℕ) (sw_name : Text) {sw : Codec} {body : FieldCodecs}
        (cases : List (ℕ × ℕ)) (default_case : Option ℕ) (sk : SwitchKind) {v swv : Value} (n i : ℕ)
        {bs arm_bytes : List ℕ}
        → field_at sw_index v ≡ some swv
        → Wire host sw swv bs
        → discriminant sk swv ≡ some n
        → n < 2 ^ 32
        → case_field cases default_case n ≡ some i
        → WireArm host body i v arm_bytes
        → Wire host
            (Codec.union_codec name sw_index sw_name sw body cases default_case sk)
            v
            (bs ++ arm_bytes)
    deferred :
        (xt : XType) {real : Codec} {v : Value} {bs : List ℕ}
        → host.resolve xt ≡ some real
        → Wire host real v bs
        → Wire host (Codec.deferred_codec xt) v bs

  -- The elements, one after the other.
  pub data WireElems {W : Type 0} (host : Host W) : Codec → Values → List ℕ → Type 0 where
    no_elems : (elem : Codec) → WireElems host elem no_values []
    elem :
        {c : Codec} {v : Value} {vs : Values} {bs more : List ℕ}
        → Wire host c v bs
        → WireElems host c vs more
        → WireElems host c (and_value v vs) (bs ++ more)

  -- The fields that are not skipped, in the order of the codec.
  pub data WireFields {W : Type 0} (host : Host W) : FieldCodecs → Value → List ℕ → Type 0 where
    done : (v : Value) → WireFields host FieldCodecs.no_fields v []
    field :
        {index : ℕ} (name : Text) {c : Codec} {fs : FieldCodecs} {v x : Value} {bs more : List ℕ}
        → field_at index v ≡ some x
        → Wire host c x bs
        → WireFields host fs v more
        → WireFields host (FieldCodecs.field_codec index name c fs) v (bs ++ more)

  -- The field of the arm at a position.
  pub data WireArm {W : Type 0} (host : Host W) : FieldCodecs → ℕ → Value → List ℕ → Type 0 where
    here :
        {index : ℕ} (name : Text) {c : Codec} (fs : FieldCodecs) {v x : Value} {bs : List ℕ}
        → field_at index v ≡ some x
        → Wire host c x bs
        → WireArm host (FieldCodecs.field_codec index name c fs) zero v bs
    past :
        (index : ℕ) (name : Text) (c : Codec) {fs : FieldCodecs} {i : ℕ} {v : Value} {bs : List ℕ}
        → WireArm host fs i v bs
        → WireArm host (FieldCodecs.field_codec index name c fs) (suc i) v bs
    past_gap :
        {fs : FieldCodecs} {i : ℕ} {v : Value} {bs : List ℕ}
        → WireArm host fs i v bs
        → WireArm host (FieldCodecs.no_field fs) (suc i) v bs

-- How many placeholders are passed on the way down.
unfoldable mutual
  pub depth :
      {W : Type 0} {host : Host W} {c : Codec} {v : Value} {bs : List ℕ} → Wire host c v bs → ℕ
  depth (array len e d) = depth_elems d
  depth (slice zero_elem maxlen orig_max h k d) = depth_elems d
  depth (opt_some d) = depth d
  depth (ptr zero_elem d) = depth d
  depth (struct name d) = depth_fields d
  depth (union name j sw_name cases default_case sk n i f d e h g a) = max (depth d) (depth_arm a)
  depth (deferred xt e d) = suc (depth d)
  depth _ = 0

  pub depth_elems :
      {W : Type 0} {host : Host W} {c : Codec} {vs : Values} {bs : List ℕ}
      → WireElems host c vs bs
      → ℕ
  depth_elems (no_elems c) = 0
  depth_elems (elem d ds) = max (depth d) (depth_elems ds)

  pub depth_fields :
      {W : Type 0} {host : Host W} {fs : FieldCodecs} {v : Value} {bs : List ℕ}
      → WireFields host fs v bs
      → ℕ
  depth_fields (done v) = 0
  depth_fields (field name f d ds) = max (depth d) (depth_fields ds)

  pub depth_arm :
      {W : Type 0} {host : Host W} {fs : FieldCodecs} {i : ℕ} {v : Value} {bs : List ℕ}
      → WireArm host fs i v bs
      → ℕ
  depth_arm (here name fs f d) = depth d
  depth_arm (past index name c a) = depth_arm a
  depth_arm (past_gap a) = depth_arm a
