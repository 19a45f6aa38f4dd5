-- ===== src/Codecs/UnionRuns.antt =====
-- `makeStructCodec` for a union with an arm for two values, a skipped field and a default arm.
use xdr.Prelude.{Bool, ℕ, ◌≡◌, refl, Option, some, List, [], ◌∷◌, codes}
use xdr.Types.{Basic, GoType, basic, StructFields, no_fields, struct_field, TypeEnv}
use xdr.Tags as Tags
use xdr.Tags.{Tag, next, values, this_len, val_at, value_range, value, values_from}
use xdr.Prelude.Texts.{trim_space, split, after_prefix, parse_uint32}
use xdr.Tags.{append, trimmed}
use xdr.Tags.Parse.{parse_tag}
use xdr.Codecs.{Codec, bool_codec, union_codec, FieldCodecs, field_codec, no_field, switch_uint}
use xdr.Codecs.Unions.{case_field}
use xdr.Codecs.MakeStruct.{add_cases, add_arm, union_fields, behind_gaps, make_union}
use xdr.Codecs.UnionArms.{IsField}
use xdr.Codecs.UnionCases.{union_cases_lead_to_fields}

abbrev get_codec : GoType → Tag → Option Codec
get_codec t tag = some bool_codec

abbrev env : TypeEnv
env i = record { name = []; underlying = basic Basic.bool; is_marshaler = Bool.false }

abbrev fields : StructFields
fields = struct_field (codes "A") (basic Basic.bool) (codes "union:1,2") (
    struct_field (codes "B") (basic Basic.bool) (codes "-")
      (struct_field (codes "C") (basic Basic.bool) (codes "union:default") no_fields))

abbrev body : FieldCodecs
body = no_field (
    field_codec 1 (codes "A") bool_codec
      (no_field (field_codec 3 (codes "C") bool_codec FieldCodecs.no_fields)))

abbrev cases : List (ℕ × ℕ)
cases = (2, 1) ∷ (1, 1) ∷ []

made_union :
    make_union env get_codec
      (codes "U")
      0
      (codes "Sw")
      (basic Basic.uint32)
      (Tags.union_switch ∷ [])
      fields
    ≡ some (union_codec (codes "U") 0 (codes "Sw") bool_codec body cases (some 3) switch_uint)
unfolding make_union union_fields behind_gaps add_arm add_cases Tags.kind next values this_len
    val_at value_range value values_from parse_tag trim_space split after_prefix parse_uint32 append
    trimmed
made_union = refl

nine_is_default : case_field cases (some 3) 9 ≡ some 3
unfolding case_field
nine_is_default = refl

union_cases_lead_to_fields_example : IsField 3 body
union_cases_lead_to_fields_example =
    union_cases_lead_to_fields env get_codec (codes "U") 0 (codes "Sw") (basic Basic.uint32)
      (Tags.union_switch ∷ []) fields bool_codec body cases (some 3) switch_uint 9 3 made_union
      nine_is_default
