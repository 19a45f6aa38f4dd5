-- ===== src/Codecs/Decode.antt =====
-- internal/coder/codec_special.go and codec_special_unsafe.go: decoding through placeholders, which
-- call the codec that they were resolved to. `fuel` bounds how many are passed on the way down.
use xdr.Prelude.{ℕ, Bool, zero, suc, none, some}
use xdr.Io.{Decode, aborted, blocked, out_of_fuel}
use xdr.Values.{Value}
use xdr.Codecs.{XType}
use xdr.Codecs.Access.{Host}
use xdr.Codecs.EncodeReflect.{Build}
use xdr.Codecs.DecodeUnsafe.{decode_unsafe}
use xdr.Codecs.DecodeReflect.{decode_reflect}

module _ {W : Type 0} (host : Host W) (max_int : ℕ) where
  -- `deferredCodec.decodeUnsafe`
  unfoldable pub recall_unsafe : ℕ → XType → Value → Decode Value
  recall_unsafe zero xt p = λ r. aborted out_of_fuel
  recall_unsafe (suc fuel) xt p = elim (host.resolve xt) [
    | none ↦ λ r. aborted blocked
    | some real ↦ decode_unsafe host max_int (recall_unsafe fuel) real p
  ]

  -- `deferredCodec.Decode`
  unfoldable pub recall_reflect : Build → ℕ → Bool → XType → Value → Decode Value
  recall_reflect build zero ro xt v = λ r. aborted out_of_fuel
  recall_reflect build (suc fuel) ro xt v = elim (host.resolve xt) [
    | none ↦ λ r. aborted blocked
    | some real ↦
        decode_reflect host max_int build (recall_unsafe fuel) (recall_reflect build fuel) real ro v
  ]
