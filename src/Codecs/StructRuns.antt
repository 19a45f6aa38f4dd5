-- ===== src/Codecs/StructRuns.antt =====
-- `makeStructCodec` on a plain struct and on a union with a switch of a wrong kind.
use xdr.Prelude.{Bool, ◌≡◌, ◌↔◌, refl, Option, none, some, [], codes, arith}
use xdr.Prelude.Texts.{trim_space, split, after_prefix}
use xdr.Types.{Basic, GoType, basic, struct, StructFields, no_fields, struct_field, TypeEnv}
use xdr.Tags as Tags
use xdr.Tags.{Tag, next, this_len, append, trimmed}
use xdr.Tags.Parse.{parse_tag}
use xdr.Codecs.{Codec, bool_codec, struct_codec, FieldCodecs, field_codec}
use xdr.Codecs.MakeStruct.{make_struct}
use xdr.Codecs.StructPanics.{HasBadSwitch, make_struct_panics}

abbrev env : TypeEnv
env i = record { name = []; underlying = basic Basic.bool; is_marshaler = Bool.false }

abbrev get_codec : GoType → Tag → Option Codec
get_codec t tag = some bool_codec

-- A skipped field in front, and one behind.
abbrev plain : StructFields
plain = struct_field (codes "A") (basic Basic.bool) (codes "-") (
    struct_field (codes "B") (basic Basic.bool) [] (
      struct_field (codes "C") (basic Basic.bool) (codes "-")
        (struct_field (codes "D") (basic Basic.bool) (codes " ") no_fields)))

plain_made :
    make_struct env get_codec (struct plain)
    ≡ some (
        struct_codec [] (
          field_codec 1
            (codes "B")
            bool_codec
            (field_codec 3 (codes "D") bool_codec FieldCodecs.no_fields)))
unfolding make_struct Tags.kind next this_len parse_tag trim_space split after_prefix append trimmed
plain_made = refl

abbrev bad : StructFields
bad = struct_field (codes "S") (basic Basic.int8) (codes "union:switch") no_fields

bad_panics : make_struct env get_codec (struct bad) ≡ none
unfolding make_struct Tags.kind next this_len parse_tag trim_space split after_prefix append trimmed
bad_panics = refl

make_struct_panics_example :
    (make_struct env get_codec (struct bad) ≡ none) ↔ HasBadSwitch env get_codec bad
make_struct_panics_example =
    make_struct_panics env get_codec (struct bad) bad refl
      ((omega arith, λ es h. (bool_codec, refl)), tt)
