-- ===== src/Marshal/RoundTrip.antt =====
-- internal/coder/coder.go: `Marshal`, then `Unmarshal` or `Read`, on one coder.
use xdr.Prelude.{
  ℕ, ◌+◌, ◌≤◌, ◌≡◌, refl, subst, Option, false, none, some, List, [], ◌++◌, append-nil,
}
use xdr.Errors.{eof, IoError}
use xdr.Types.{GoType, TypeEnv, ptr}
use xdr.Tags.{Tag}
use xdr.Values.{Value, ptr_v}
use xdr.Encoder.{max_uint32}
use xdr.Encoder.Buffer.{Buffer, buffer_writer, buffer_laws, Emits-buffer}
use xdr.Decoder.Reads.{delivering}
use xdr.Codecs.Access.{Host}
use xdr.Codecs.Permits.{Readable, Settable}
use xdr.Io.{done, got}
use xdr.Codecs.EncodeReflect.{Build, encode_reflect}
use xdr.Codecs.Encode.{call_unsafe, call_reflect}
use xdr.Codecs.DecodeReflect.{decode_reflect}
use xdr.Codecs.Decode.{recall_unsafe, recall_reflect}
use xdr.Codecs.Wire.{Wire, depth}
use xdr.Codecs.Fits.{Fits}
use xdr.Codecs.Encoding.{encode_wire}
use xdr.Codecs.Decoding.{decode_wire}
use xdr.Coder.{Coder, Stored, new_coder, Building, returned, get_codec, get_base_codec}
use xdr.Coder.Lookups.{Reaches, get_codec-get_base_codec}
use xdr.Marshal.{
  Dynamic, codec_of, host_of, marshal, marshalled, read, unmarshal, unmarshalled, decode,
  decode_value,
}

module _ (host : Host Buffer) (build : Build) (env : TypeEnv) (max_int : ℕ)
    (build_codec : GoType → Tag → Building) (fuel : ℕ) where
  -- On a coder after any top-level calls of `getCodec` and `getBaseCodec` that returned, with an `int` that holds any 32-bit length and fuel for
  -- the placeholders in the description: if `getBaseCodec` returns a codec for the type, and the codec
  -- represents the value in bytes, through the placeholders as the coder has resolved them, without an
  -- opaque array in an unexported field of a value that has no address, and in the nounsafe build
  -- without an unexported field that has to be set, then `Marshal` returns these bytes and no error,
  -- `Unmarshal` of the bytes to a pointer to memory that fits the value stores the value behind it, and
  -- `Read` does so and consumes exactly the bytes.
  pub marshal-unmarshal :
      {cr more : Coder} {v : Value} {bs : List ℕ} (t : GoType) (s : Stored) (p : Value)
      → Reaches build build_codec new_coder cr
      → get_base_codec build build_codec fuel t cr ≡ returned s more
      → (d : Wire (host_of host more) (codec_of s) v bs) → max_uint32 + 3 ≤ max_int
      → depth d ≤ fuel
      → Readable d (record { addr = false; ro = false })
      → Fits d p
      → Settable build d false
      → (marshal host build env max_int build_codec fuel (some (record { type = t; value = v })) cr
          ≡ marshalled bs none more)
        × (unmarshal host build env max_int build_codec fuel bs
              (some (record { type = ptr t; value = ptr_v p }))
              more
            ≡ unmarshalled v none (delivering [] eof) more)
        × ((rest : List ℕ) (fault : IoError)
            → read host build env max_int build_codec fuel
                (delivering (bs ++ rest) fault)
                (some (record { type = ptr t; value = ptr_v p }))
                more
              ≡ unmarshalled v none (delivering rest fault) more)
  marshal-unmarshal {cr = cr} {more = more} {v = v} {bs = bs} t s p r e d wide h q f z = (
    unfold marshal in rw (e, written) refl,
    unfold unmarshal in
        subst
          (λ xs.
            decode host build env max_int build_codec fuel target (delivering xs eof) more
            ≡ unmarshalled v none (delivering [] eof) more)
          (append-nil bs) (decodes [] eof),
    λ rest fault. unfold read in decodes rest fault,
  )
    where
      target : Option Dynamic
      target = some (record { type = ptr t; value = ptr_v p })

      known : get_codec build build_codec fuel t [] more ≡ returned s more
      known = get_codec-get_base_codec build build_codec fuel fuel t s r e

      written :
          encode_reflect
            (host_of host more)
            build
            (call_unsafe (host_of host more) fuel)
            (call_reflect (host_of host more) build fuel)
            (codec_of s)
            (record { addr = false; ro = false })
            v
            []
          ≡ done bs
      written =
          Emits-buffer _ bs
            (encode_wire buffer_laws (host_of host more) d fuel build
              (record { addr = false; ro = false }) h q).1
            []

      decoded :
          (rest : List ℕ) (fault : IoError)
          → decode_reflect
              (host_of host more)
              max_int
              build
              (recall_unsafe (host_of host more) max_int fuel)
              (recall_reflect (host_of host more) max_int build fuel)
              (codec_of s)
              false
              p
              (delivering (bs ++ rest) fault)
            ≡ got v none (delivering rest fault)
      decoded rest fault =
          (decode_wire (host_of host more) max_int d fuel build false p rest fault wide h f z).1

      decodes :
          (rest : List ℕ) (fault : IoError)
          → decode host build env max_int build_codec fuel target
              (delivering (bs ++ rest) fault)
              more
            ≡ unmarshalled v none (delivering rest fault) more
      decodes rest fault = unfold decode decode_value in rw (known, decoded rest fault) refl
