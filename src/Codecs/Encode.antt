-- ===== src/Codecs/Encode.antt =====
-- internal/coder/codec_special.go and codec_special_unsafe.go: placeholders call the codec that they
-- were resolved to. `fuel` bounds how many placeholders are passed on the way down.
use xdr.Prelude.{ℕ, zero, suc, none, some}
use xdr.Io.{Writer, Encode, aborted, blocked, out_of_fuel}
use xdr.Values.{Value}
use xdr.Codecs.{XType}
use xdr.Codecs.Access.{Host, Flag}
use xdr.Codecs.EncodeUnsafe.{encode_unsafe}
use xdr.Codecs.EncodeReflect.{Build, encode_reflect}

module _ {W : Type 0} ⦃io : Writer W⦄ (host : Host W) where
  -- `deferredCodec.encodeUnsafe`
  unfoldable pub call_unsafe : ℕ → XType → Value → Encode W
  call_unsafe zero xt p = λ w. aborted out_of_fuel
  call_unsafe (suc fuel) xt p = elim (host.resolve xt) [
    | none ↦ λ w. aborted blocked
    | some real ↦ encode_unsafe host (call_unsafe fuel) real p
  ]

  -- `deferredCodec.Encode`
  unfoldable pub call_reflect : Build → ℕ → Flag → XType → Value → Encode W
  call_reflect build zero flag xt v = λ w. aborted out_of_fuel
  call_reflect build (suc fuel) flag xt v = elim (host.resolve xt) [
    | none ↦ λ w. aborted blocked
    | some real ↦ encode_reflect host build (call_unsafe fuel) (call_reflect build fuel) real flag v
  ]
