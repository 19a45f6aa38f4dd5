-- ===== src/Codecs/Decoding.antt =====
-- internal/coder: `Decode` and `decodeUnsafe` against the wire format, and the round trip.
use xdr.Prelude.{ℕ, ◌+◌, ◌≤◌, ◌≡◌, Bool, none, List, [], ◌++◌}
use xdr.Errors.{IoError}
use xdr.Io.{done, got}
use xdr.Encoder.{max_uint32}
use xdr.Encoder.Buffer.{Buffer, buffer_writer, buffer_laws, Emits-buffer}
use xdr.Decoder.Reads.{delivering}
use xdr.Values.{Value}
use xdr.Codecs.{Codec}
use xdr.Codecs.Access.{Host, Flag}
use xdr.Codecs.Permits.{Readable, Settable}
use xdr.Codecs.EncodeReflect.{Build, encode_reflect}
use xdr.Codecs.Encode.{call_unsafe, call_reflect}
use xdr.Codecs.DecodeUnsafe.{decode_unsafe}
use xdr.Codecs.DecodeReflect.{decode_reflect}
use xdr.Codecs.Decode.{recall_unsafe, recall_reflect}
use xdr.Codecs.Wire.{Wire, depth}
use xdr.Codecs.Fits.{Fits}
use xdr.Codecs.Encoding.{encode_wire}
use xdr.Codecs.Decodes.{Decodes}
use xdr.Codecs.DecodesUnsafe.{unsafe-Decodes}
use xdr.Codecs.DecodesReflect.{reflect-Decodes}

-- On a platform whose `int` is wide enough for any 32-bit length: from input that starts with the
-- bytes by which a codec represents a value, `decodeUnsafe`, and `Decode` in either build where it sets
-- nothing that is read-only for an unexported field, decode that value without an error, whatever the
-- memory held that they write to, if only it fits the value, and take nothing of what follows the
-- bytes. They do not panic, touch memory at a wrong type, wait for ever, or need more fuel than the
-- depth of placeholders in the value.
pub decode_wire :
    {W : Type 0} (host : Host W) (max_int : ℕ) {c : Codec} {v : Value} {bs : List ℕ}
    (d : Wire host c v bs) (fuel : ℕ) (build : Build) (ro : Bool) (p : Value) (rest : List ℕ)
    (fault : IoError)
    → max_uint32 + 3 ≤ max_int
    → depth d ≤ fuel
    → Fits d p
    → Settable build d ro
    → (decode_unsafe host max_int
          (recall_unsafe host max_int fuel)
          c
          p
          (delivering (bs ++ rest) fault)
        ≡ got v none (delivering rest fault))
      × (decode_reflect host max_int build
            (recall_unsafe host max_int fuel)
            (recall_reflect host max_int build fuel)
            c
            ro
            p
            (delivering (bs ++ rest) fault)
          ≡ got v none (delivering rest fault))
unfolding Decodes
decode_wire host max_int d fuel build ro p rest fault wide h f z = (
  unsafe-Decodes host max_int wide d fuel p h f rest fault,
  reflect-Decodes host max_int wide build d fuel ro p h f z rest fault,
)

-- The round trip, on a platform whose `int` is wide enough for any 32-bit length and with fuel for the
-- placeholders in the value: for a value that a codec represents, what `Encode` writes to an empty
-- buffer, in either build with flags that permit it (any value that has an address, or where no opaque
-- array is in an unexported field), is decoded by `Decode`, in the same or the other build where it
-- sets nothing that is read-only for an unexported field, to the same value in any memory that fits
-- it, and exactly those bytes are consumed.
pub codec_round_trip :
    (host : Host Buffer) (max_int : ℕ) {c : Codec} {v : Value} {bs : List ℕ} (d : Wire host c v bs)
    (fuel : ℕ) (sender receiver : Build) (flag : Flag) (ro : Bool) (p : Value) (rest : List ℕ)
    (fault : IoError)
    → max_uint32 + 3 ≤ max_int
    → depth d ≤ fuel
    → Readable d flag
    → Fits d p
    → Settable receiver d ro
    → (out : List ℕ) × (encode_reflect host sender
          (call_unsafe host fuel)
          (call_reflect host sender fuel)
          c
          flag
          v
          []
        ≡ done out)
      × (decode_reflect host max_int receiver
            (recall_unsafe host max_int fuel)
            (recall_reflect host max_int receiver fuel)
            c
            ro
            p
            (delivering (out ++ rest) fault)
          ≡ got v none (delivering rest fault))
codec_round_trip host max_int {bs = bs} d fuel sender receiver flag ro p rest fault wide h q f z = (
  bs,
  Emits-buffer _ bs (encode_wire buffer_laws host d fuel sender flag h q).1 [],
  (decode_wire host max_int d fuel receiver ro p rest fault wide h f z).1,
)
