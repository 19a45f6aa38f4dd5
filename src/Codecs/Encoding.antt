-- ===== src/Codecs/Encoding.antt =====
-- internal/coder: what `Encode` and `encodeUnsafe` write for a value, and the shape of it.
use xdr.Prelude.{
  ℕ, ◌%◌, ◌≤◌, ◌≡◌, refl, List, ◌++◌, length, replicate, arith, length-append, length-replicate,
}
use xdr.Io.{Writer, done}
use xdr.Encoder.Wire.{big_endian, residual, padded}
use xdr.Encoder.Emits.{WriterLaws, Emits}
use xdr.Encoder.Buffer.{Buffer, buffer_writer, buffer_laws, Emits-buffer}
use xdr.Values.{Value, Values, count_values}
use xdr.Codecs.{Codec, FieldCodecs}
use xdr.Codecs.Access.{Host, Flag}
use xdr.Codecs.Permits.{Readable}
use xdr.Codecs.EncodeUnsafe.{encode_unsafe}
use xdr.Codecs.EncodeReflect.{Build, encode_reflect}
use xdr.Codecs.Encode.{call_unsafe, call_reflect}
use xdr.Codecs.Wire.{Wire, WireElems, WireFields, WireArm, depth}
use xdr.Codecs.EmitsUnsafe.{unsafe-Emits}
use xdr.Codecs.EmitsReflect.{reflect-Emits}

-- For a value that a codec represents by some bytes, `encodeUnsafe`, and `Encode` in either build of a
-- value with flags that permit it (any that has an address, or where no opaque array is in an
-- unexported field), send exactly those bytes to any writer that keeps its contract, and only a
-- front part of them where the writer fails. None of them panics, reads memory at a wrong type, waits
-- for ever or needs more fuel than the depth of placeholders in the value.
pub encode_wire :
    {W MayFail : Type 0} ⦃io : Writer W⦄ (laws : WriterLaws W MayFail) (host : Host W) {c : Codec}
    {v : Value} {bs : List ℕ} (d : Wire host c v bs) (fuel : ℕ) (build : Build) (flag : Flag)
    → depth d ≤ fuel
    → Readable d flag
    → Emits laws (encode_unsafe host (call_unsafe host fuel) c v) bs
      × Emits laws
          (encode_reflect host build
            (call_unsafe host fuel)
            (call_reflect host build fuel)
            c
            flag
            v)
          bs
encode_wire laws host d fuel build flag h q =
    (unsafe-Emits laws host d fuel h, reflect-Emits laws host build d fuel flag h q)

length-padded : (bs : List ℕ) → length (padded bs) % 4 ≡ 0
length-padded bs = omega (
  arith,
  length-append bs (replicate (residual (length bs)) 0),
  length-replicate {0} {A = ℕ} (residual (length bs)) 0,
)

length-append_aligned :
    (xs ys : List ℕ) → length xs % 4 ≡ 0 → length ys % 4 ≡ 0 → length (xs ++ ys) % 4 ≡ 0
length-append_aligned xs ys h k = omega (arith, length-append xs ys)

module _ {W : Type 0} {host : Host W} where
  mutual
    aligned : {c : Codec} {v : Value} {bs : List ℕ} → Wire host c v bs → length bs % 4 ≡ 0
    aligned (Wire.complex64 re im kr ki sr si) = refl
    aligned (Wire.complex128 re im kr ki) = refl
    aligned (Wire.fixed_string len s e) = length-padded s
    aligned (Wire.var_string maxlen orig_max s k l) =
        length-append_aligned (big_endian 4 (length s)) (padded s) refl (length-padded s)
    aligned (Wire.opaque_array len bs e) = length-padded bs
    aligned (Wire.array len e d) = aligned_elems d
    aligned (Wire.opaque_slice maxlen orig_max bs k l) =
        length-append_aligned (big_endian 4 (length bs)) (padded bs) refl (length-padded bs)
    aligned (Wire.slice zero_elem maxlen orig_max {vs = vs} k l d) =
        length-append_aligned (big_endian 4 (count_values vs)) _ refl (aligned_elems d)
    aligned (Wire.opt_some d) = length-append_aligned (big_endian 4 1) _ refl (aligned d)
    aligned (Wire.ptr zero_elem d) = aligned d
    aligned (Wire.struct name d) = aligned_fields d
    aligned (Wire.union name j sw_name cases default_case sk n i f d e k g a) =
        length-append_aligned _ _ (aligned d) (aligned_arm a)
    aligned (Wire.deferred xt e d) = aligned d
    aligned _ = refl

    aligned_elems :
        {c : Codec} {vs : Values} {bs : List ℕ} → WireElems host c vs bs → length bs % 4 ≡ 0
    aligned_elems (WireElems.no_elems c) = refl
    aligned_elems (WireElems.elem d ds) = length-append_aligned _ _ (aligned d) (aligned_elems ds)

    aligned_fields :
        {fs : FieldCodecs} {v : Value} {bs : List ℕ} → WireFields host fs v bs → length bs % 4 ≡ 0
    aligned_fields (WireFields.done v) = refl
    aligned_fields (WireFields.field name f d ds) =
        length-append_aligned _ _ (aligned d) (aligned_fields ds)

    aligned_arm :
        {fs : FieldCodecs} {i : ℕ} {v : Value} {bs : List ℕ}
        → WireArm host fs i v bs
        → length bs % 4 ≡ 0
    aligned_arm (WireArm.here name fs f d) = aligned d
    aligned_arm (WireArm.past index name c a) = aligned_arm a
    aligned_arm (WireArm.past_gap a) = aligned_arm a

-- Encoding to a buffer, as `Marshal` does, succeeds for every value that a codec represents: by
-- `encodeUnsafe`, and by `Encode` in either build with flags that permit it (any value that has an
-- address, or where no opaque array is in an unexported field), it appends one and the same string of
-- bytes, whose length is a multiple of four.
pub encoders_agree :
    (host : Host Buffer) {c : Codec} {v : Value} {bs : List ℕ} (d : Wire host c v bs) (fuel : ℕ)
    (build : Build) (flag : Flag)
    → depth d ≤ fuel
    → Readable d flag
    → (b : Buffer)
    → (out : List ℕ) × (length out % 4 ≡ 0)
      × (encode_unsafe host (call_unsafe host fuel) c v b ≡ done (b ++ out))
      × (encode_reflect host build (call_unsafe host fuel) (call_reflect host build fuel) c flag v b
          ≡ done (b ++ out))
encoders_agree host {bs = bs} d fuel build flag h q b =
    let (unsafe, reflect) = encode_wire buffer_laws host d fuel build flag h q in
    (bs, aligned d, Emits-buffer _ bs unsafe b, Emits-buffer _ bs reflect b)
