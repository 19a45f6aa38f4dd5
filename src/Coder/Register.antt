-- ===== src/Coder/Register.antt =====
-- internal/coder/coder.go, `RegisterCodec` and `RegisterCodecReflect`, and those of the default coder
-- (utils.go).
use xdr.Prelude.{Bool, true, false, Option, none, some, [], if◌then◌else◌}
use xdr.Types.{Kind, Basic, GoType, basic, TypeEnv, kind}
use xdr.Codecs.{XType}
use xdr.Codecs.EncodeReflect.{Build}
use xdr.Coder.{Stored, Coder, load, store, to_original_codec}

-- `prohibitedCustomCodecKinds`
abbrev pub prohibited_custom_codec_kinds : Kind → Bool
prohibited_custom_codec_kinds Kind.invalid = true
prohibited_custom_codec_kinds Kind.array = true
prohibited_custom_codec_kinds Kind.slice = true
prohibited_custom_codec_kinds Kind.string = true
prohibited_custom_codec_kinds Kind.map = true
prohibited_custom_codec_kinds Kind.ptr = true
prohibited_custom_codec_kinds Kind.chan = true
prohibited_custom_codec_kinds Kind.func = true
prohibited_custom_codec_kinds Kind.unsafe_pointer = true
prohibited_custom_codec_kinds _ = false

-- `prohibitedPrimitives`
abbrev pub prohibited_primitives : GoType → Bool
prohibited_primitives (basic Basic.bool) = true
prohibited_primitives (basic Basic.int8) = true
prohibited_primitives (basic Basic.int16) = true
prohibited_primitives (basic Basic.int32) = true
prohibited_primitives (basic Basic.int64) = true
prohibited_primitives (basic Basic.int) = true
prohibited_primitives (basic Basic.uint8) = true
prohibited_primitives (basic Basic.uint16) = true
prohibited_primitives (basic Basic.uint32) = true
prohibited_primitives (basic Basic.uint64) = true
prohibited_primitives (basic Basic.uint) = true
prohibited_primitives (basic Basic.uintptr) = true
prohibited_primitives (basic Basic.float32) = true
prohibited_primitives (basic Basic.float64) = true
prohibited_primitives (basic Basic.complex64) = true
prohibited_primitives (basic Basic.complex128) = true
prohibited_primitives _ = false

pub data Registered : Type 0 where
  registered : Coder → Registered
  register_panics : Coder → Registered

-- `LoadOrStore`, and the check of what was found; `same_codec` is `==` on codecs.
abbrev pub load_or_store :
    Build → (Stored → Stored → Bool) → XType → Stored → Coder → Option Stored → Registered
load_or_store build same_codec x c cr none = registered (store x c cr)
load_or_store build same_codec x c cr (some existing) =
    if same_codec (to_original_codec build existing) c then registered cr else register_panics cr

-- `RegisterCodecReflect`
unfoldable pub register_codec_reflect :
    Build → TypeEnv → (Stored → Stored → Bool) → GoType → Stored → Coder → Registered
unfolding load
register_codec_reflect build env same_codec t c cr =
    if prohibited_custom_codec_kinds (kind env t)
    then register_panics cr
    else if prohibited_primitives t
    then register_panics cr
    else load_or_store build same_codec (record { type = t; encoded_tag = [] }) c cr
        (load (record { type = t; encoded_tag = [] }) cr.known_codecs)

-- `defaultCoder.RegisterCodecReflect`
abbrev pub default_register : GoType → Stored → Coder → Registered
default_register t c cr = register_panics cr
