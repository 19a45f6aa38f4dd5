-- ===== src/Marshal.antt =====
-- internal/coder/coder.go, `Marshal`, `Unmarshal` and `Read`, with `Encode` and `EncodeValue` of
-- encoder.go and `Decode`, `DecodeValue` and `decodeValue` of decoder.go. The encoder's cache of codecs is
-- left out: Encoder/Cache proves that it is not seen.
pub mod RoundTrip
pub mod Write
pub mod Writes
mod Runs
use xdr.Prelude.{ℕ, Bool, true, false, Option, none, some, List, [], ◌∷◌, if◌then◌else◌}
use xdr.Errors.{Err, xerror, not_pointer, eof}
use xdr.Io.{Writer, Encode, Written, done, failed, aborted, Reader, Decoded, got, Abort, panic}
use xdr.Io as Io
use xdr.Types.{Kind, GoType, TypeEnv, kind}
use xdr.Tags.{Tag}
use xdr.Tags.Parse.{elem}
use xdr.Values.{Value, nil_v, ptr_v}
use xdr.Encoder.Buffer.{Buffer, buffer_writer}
use xdr.Codecs.{XType, Codec}
use xdr.Codecs.Access.{Host}
use xdr.Codecs.EncodeReflect.{Build, encode_reflect}
use xdr.Codecs.Encode.{call_unsafe, call_reflect}
use xdr.Codecs.DecodeReflect.{decode_reflect}
use xdr.Codecs.Decode.{recall_unsafe, recall_reflect}
use xdr.Coder.{
  Coder, Stored, plain_codec, x_codec, unsafe_wrapper, Building, Outcome, returned, panicked,
  out_of_fuel, load, get_codec, get_base_codec,
}

-- A value that is passed as an `interface{}`, with its dynamic type; `none` is nil.
pub record Dynamic : Type 0 where
  pub type : GoType
  pub value : Value

-- The bytes and the error of `Marshal`, and the coder.
pub data Marshalled : Type 0 where
  marshalled : List ℕ → Option Err → Coder → Marshalled
  marshal_aborts : Abort → Marshalled

-- What is behind the pointer, the error, the reader and the coder.
pub data Unmarshalled : Type 0 where
  unmarshalled : Value → Option Err → Reader → Coder → Unmarshalled
  unmarshal_aborts : Abort → Unmarshalled

-- `Encode` and `Decode` of a wrapper are those of the codec in it.
abbrev pub codec_of : Stored → Codec
codec_of (plain_codec c) = c
codec_of (x_codec c) = c
codec_of (unsafe_wrapper c t) = c

abbrev resolved_codec : Option Stored → Option Codec
resolved_codec none = none
resolved_codec (some c) = some (codec_of c)

-- Deferred codecs call what the coder has resolved them to.
abbrev pub host_of : {W : Type 0} → Host W → Coder → Host W
host_of host cr = record host { resolve = λ xt. resolved_codec (load xt cr.resolved) }

-- `c.Encode(w, v)`, for a value that has no address.
abbrev pub encode_to :
    {W : Type 0} ⦃io : Writer W⦄ → Host W → Build → ℕ → Stored → Coder → Value → Encode W
encode_to host build fuel c cr v =
    encode_reflect (host_of host cr) build (call_unsafe (host_of host cr) fuel)
      (call_reflect (host_of host cr) build fuel) (codec_of c) (record { addr = false; ro = false })
      v

abbrev bytes_and_error : Coder → Written Buffer → Marshalled
bytes_and_error cr (done w) = marshalled w none cr
bytes_and_error cr (failed e w) = marshalled w (some e) cr
bytes_and_error cr (Written.aborted a) = marshal_aborts a

abbrev value_and_error : Coder → Decoded Value → Unmarshalled
value_and_error cr (got v e r) = unmarshalled v e r cr
value_and_error cr (Decoded.aborted a) = unmarshal_aborts a

module _ (host : Host Buffer) (build : Build) (env : TypeEnv) (max_int : ℕ)
    (build_codec : GoType → Tag → Building) (fuel : ℕ) where
  -- `EncodeValue(v)` on an empty buffer.
  abbrev pub encode_with : Value → Outcome → Marshalled
  encode_with v (returned c cr) = bytes_and_error cr (encode_to host build fuel c cr v [])
  encode_with v (panicked cr) = marshal_aborts panic
  encode_with v out_of_fuel = marshal_aborts Io.out_of_fuel

  -- `Marshal(o)`
  unfoldable pub marshal : Option Dynamic → Coder → Marshalled
  marshal none cr = marshal_aborts panic
  marshal (some o) cr = encode_with o.value (get_base_codec build build_codec fuel o.type cr)

  abbrev pub decode_with : Value → Reader → Outcome → Unmarshalled
  decode_with v r (returned c cr) = value_and_error cr (
      decode_reflect (host_of host cr) max_int build (recall_unsafe (host_of host cr) max_int fuel)
        (recall_reflect (host_of host cr) max_int build fuel) (codec_of c) false v r)
  decode_with v r (panicked cr) = unmarshal_aborts panic
  decode_with v r out_of_fuel = unmarshal_aborts Io.out_of_fuel

  -- `decodeValue(v)`, for a variable of a type that holds `v`.
  unfoldable pub decode_value : GoType → Value → Reader → Coder → Unmarshalled
  decode_value t v r cr = decode_with v r (get_codec build build_codec fuel t [] cr)

  -- `DecodeValue(v)`, for a variable that can be set or cannot.
  unfoldable pub decode_settable : Bool → GoType → Value → Reader → Coder → Unmarshalled
  unfolding decode_value
  decode_settable can_set t v r cr =
      if can_set then decode_value t v r cr else unmarshalled v (some (xerror not_pointer)) r cr

  -- `v.Elem()` of a pointer; the type of what a nil pointer refers to is a panic.
  abbrev pub decode_elem : Option GoType → Value → Reader → Coder → Unmarshalled
  decode_elem (some t) (ptr_v v) r cr = decode_value t v r cr
  decode_elem t v r cr = unmarshal_aborts panic

  abbrev pub is_ptr : Kind → Bool
  is_ptr Kind.ptr = true
  is_ptr _ = false

  -- `Decode(op)`
  unfoldable pub decode : Option Dynamic → Reader → Coder → Unmarshalled
  unfolding decode_value
  decode none r cr = unmarshal_aborts panic
  decode (some o) r cr =
      if is_ptr (kind env o.type)
      then decode_elem (elem env o.type) o.value r cr
      else unmarshalled o.value (some (xerror not_pointer)) r cr

  -- `Read(r, op)`
  unfoldable pub read : Reader → Option Dynamic → Coder → Unmarshalled
  unfolding decode
  read r op cr = decode op r cr

  -- `Unmarshal(buf, op)`
  unfoldable pub unmarshal : List ℕ → Option Dynamic → Coder → Unmarshalled
  unfolding decode
  unmarshal buf op cr = decode op (record { pending = buf; fault = eof }) cr
