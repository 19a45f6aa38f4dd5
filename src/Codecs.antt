-- ===== src/Codecs.antt =====
-- internal/coder: the codecs as data. Where a codec holds a Go type only to make new values of it,
-- the data holds that type's zero value; the sizes and offsets that the unsafe methods add to
-- pointers have no counterpart, since memory is modelled by the values that it holds.
pub mod Access
pub mod Stores
pub mod DecodeUnsafe
pub mod DecodeReflect
pub mod Decode
pub mod Fits
pub mod Decodes
pub mod DecodesPrimitives
pub mod DecodesUnsafe
pub mod DecodesReflect
pub mod Decoding
pub mod Unions
pub mod EncodeUnsafe
pub mod EncodeReflect
pub mod Encode
pub mod Wire
pub mod EmitsUnsafe
pub mod EmitsReflect
pub mod Permits
pub mod Conversions
pub mod Encoding
pub mod Make
pub mod MakesStrings
pub mod Making
pub mod MakeStruct
pub mod MapCodec
pub mod MapRoundTrip
pub mod MapLimits
pub mod UnionArms
pub mod UnionCases
pub mod StructMaking
pub mod StructPanics
mod Runs
mod MakeRuns
mod UnionRuns
mod StructRuns
mod MapRuns
use xdr.Prelude.{ℕ, Option, List, Text}
use xdr.Errors.{Err}
use xdr.Types.{GoType}
use xdr.Tags.{Tag}
use xdr.Values.{Value}

-- `xType`, the key under which a coder keeps a codec.
pub record XType : Type 0 where
  pub type : GoType
  pub encoded_tag : Tag

-- `switchKind`
pub data SwitchKind : Type 0 where
  switch_bool switch_int switch_uint : SwitchKind

mutual
  pub data Codec : Type 0 where
    error_codec : Err → Codec
    bool_codec int8_codec int16_codec int32_codec : Codec
    uint8_codec uint16_codec uint32_codec hyper_codec uhyper_codec : Codec
    float_codec double_codec complex64_codec complex128_codec : Codec
    -- `len`
    fixed_string_codec : ℕ → Codec
    -- `maxlen` and `origMax`
    var_string_codec : ℕ → ℕ → Codec
    -- `len`
    opaque_array_codec : ℕ → Codec
    -- `elem` and `len`
    array_codec : Codec → ℕ → Codec
    -- `maxlen` and `origMax`
    opaque_slice_codec : ℕ → ℕ → Codec
    -- `elem`, the zero element, `maxlen` and `origMax`
    slice_codec : Codec → Value → ℕ → ℕ → Codec
    opt_codec : Codec → Codec
    -- `elem` and the zero element
    ptr_codec : Codec → Value → Codec
    -- `name` and `fields`
    struct_codec : Text → FieldCodecs → Codec
    -- `name`, the index, name and codec of `switchField`, `bodyFields`, `cases`, `defaultCase` (none
    -- for -1) and `switchKind`
    union_codec :
        Text → ℕ → Text → Codec → FieldCodecs → List (ℕ × ℕ) → Option ℕ → SwitchKind → Codec
    -- The placeholder for the codec of a type under construction.
    deferred_codec : XType → Codec
    marshaler_codec : Codec
    -- A registered codec of the user's.
    custom_codec : ℕ → Codec

  -- A list of `field`s: the index, name and codec of each. `no_field` is the zero `field` that a
  -- union keeps for its switch and for a skipped field.
  pub data FieldCodecs : Type 0 where
    no_fields : FieldCodecs
    field_codec : ℕ → Text → Codec → FieldCodecs → FieldCodecs
    no_field : FieldCodecs → FieldCodecs
