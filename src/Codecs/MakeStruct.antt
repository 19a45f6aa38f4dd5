-- ===== src/Codecs/MakeStruct.antt =====
-- internal/coder/codec_struct.go, `makeStructCodec`: the search for the first field that is not
-- skipped, plain structs and unions. The coder's `getCodec` is an argument. A panic is `none`.
use xdr.Prelude.{
  ℕ, zero, suc, Bool, false, ◌||◌, Option, none, some, List, [], ◌∷◌, ◌==◌, if◌then◌else◌, Text,
  codes,
}
use xdr.Errors.{Err, plain}
use xdr.Types.{
  Kind, GoType, struct, named, StructFields, no_fields, struct_field, TypeEnv, underlying, kind,
}
use xdr.Tags as Tags
use xdr.Tags.{Tag, ◌>>=◌, next, values}
use xdr.Tags.Parse.{
  Parsed, parsed, unparsed, IsInUnion, maybe_in_union, not_in_union, in_union, parse_tag,
}
use xdr.Codecs.{
  Codec, error_codec, struct_codec, union_codec, FieldCodecs, field_codec, no_field, SwitchKind,
  switch_bool, switch_int, switch_uint,
}

-- `cases` and `defaultCase` of the union.
pub record Arms : Type 0 where
  pub cases : List (ℕ × ℕ)
  pub default_case : Option ℕ

-- The fields that are left, made; or the error codec that is returned in their place.
pub data Made : Type 0 where
  made : FieldCodecs → Arms → Made
  refused : Err → Made

abbrev pub has_case : ℕ → List (ℕ × ℕ) → Bool
has_case v [] = false
has_case v ((key, i) ∷ cases) = key == v || has_case v cases

-- The loop over the values of a tag, for the field `i`: `none` where one is there already.
unfoldable pub add_cases : ℕ → List ℕ → List (ℕ × ℕ) → Option (List (ℕ × ℕ))
add_cases i [] cases = some cases
add_cases i (v ∷ vs) cases =
    let more = add_cases i vs ((v, i) ∷ cases) in if has_case v cases then none else more

abbrev pub with_cases : Arms → Option (List (ℕ × ℕ)) → Option Arms
with_cases arms none = none
with_cases arms (some cases) = some (record arms { cases = cases })

abbrev pub with_default : ℕ → Arms → Option ℕ → Option Arms
with_default i arms none = some (record arms { default_case = some i })
with_default i arms (some j) = none

-- `switch tag.Kind()`: the arms with the field `i`, where the inner `none` is a duplicate.
unfoldable pub add_arm : ℕ → Tag → Arms → Option (Option Arms)
unfolding add_cases
add_arm i tag arms =
    if Tags.kind tag == Tags.union_cases
    then (values tag >>= λ vs. some (with_cases arms (add_cases i vs arms.cases)))
    else if Tags.kind tag == Tags.union_default
    then some (with_default i arms arms.default_case)
    else some (some arms)

abbrev pub cons_field : (FieldCodecs → FieldCodecs) → Option Made → Option Made
cons_field f none = none
cons_field f (some (made fs arms)) = some (made (f fs) arms)
cons_field f (some (refused e)) = some (refused e)

abbrev duplicated : Err
duplicated = plain (codes "duplicated")

-- Go on with the arms, or return the error of a duplicate; the texts of the errors are shortened.
abbrev pub with_arms : Option Arms → (Arms → Option Made) → Option Made
with_arms none next_fields = some (refused duplicated)
with_arms (some arms) next_fields = next_fields arms

-- `make([]field, fieldCount)`, where the fields up to the switch stay empty.
unfoldable pub behind_gaps : ℕ → FieldCodecs → FieldCodecs
behind_gaps zero fs = fs
behind_gaps (suc i) fs = no_field (behind_gaps i fs)

abbrev pub switch_kind_of : Kind → Option SwitchKind
switch_kind_of Kind.int32 = some switch_int
switch_kind_of Kind.uint32 = some switch_uint
switch_kind_of Kind.bool = some switch_bool
switch_kind_of _ = none

abbrev pub union_made : Text → ℕ → Text → Codec → SwitchKind → ℕ → Option Made → Option Codec
union_made name sw_index sw_name sw sk i none = none
union_made name sw_index sw_name sw sk i (some (refused e)) = some (error_codec e)
union_made name sw_index sw_name sw sk i (some (made fs arms)) =
    some (union_codec name sw_index sw_name sw (behind_gaps i fs) arms.cases arms.default_case sk)

-- The fields of a plain struct that are left, made; or the error codec in their place.
pub data Plain : Type 0 where
  plain_fields : FieldCodecs → Plain
  bad_field : Err → Plain

abbrev pub cons_plain : (FieldCodecs → FieldCodecs) → Plain → Plain
cons_plain f (plain_fields fs) = plain_fields (f fs)
cons_plain f (bad_field e) = bad_field e

abbrev pub plain_made : Text → Plain → Codec
plain_made name (plain_fields fs) = struct_codec name fs
plain_made name (bad_field e) = error_codec e

-- The end of the search for the first field: its `isUnion`, position, name, type and tag, and the
-- fields behind it; or none; or the error codec that is returned.
pub data Found : Type 0 where
  found : IsInUnion → ℕ → Text → GoType → Tag → StructFields → Found
  no_first : Found
  bad_first : Err → Found

-- `t.Name()`
abbrev pub name_of : TypeEnv → GoType → Text
name_of env (named i) = (env i).name
name_of env t = []

module _ (env : TypeEnv) (get_codec : GoType → Tag → Option Codec) where
  abbrev pub one_field :
      ℕ → Text → GoType → Option Parsed → Arms → (Arms → Option Made) → Option Made
  one_field i name t none arms rest = none
  one_field i name t (some (unparsed e)) arms rest = some (refused e)
  one_field i name t (some (parsed tag)) arms rest =
      if Tags.kind tag == Tags.skip
      then cons_field no_field (rest arms)
      else (next tag >>= λ inner. get_codec t inner >>= λ c. add_arm i tag arms >>= λ more.
          with_arms more (λ arms'. cons_field (field_codec i name c) (rest arms')))

  -- `for ; i < fieldCount; i++` over the fields behind the switch.
  unfoldable pub union_fields : ℕ → IsInUnion → StructFields → Arms → Option Made
  union_fields i u no_fields arms = some (made FieldCodecs.no_fields arms)
  union_fields i u (struct_field name t s fs) arms =
      let (v, o) = parse_tag env u t s in one_field i name t o arms (union_fields (suc i) v fs)

  -- `case tags.InUnion`: the switch is the field `i`, of type `t` and with the tag `tag`.
  unfoldable pub make_union : Text → ℕ → Text → GoType → Tag → StructFields → Option Codec
  unfolding union_fields behind_gaps
  make_union name i sw_name t tag fs =
      if Tags.kind tag == Tags.union_switch
      then (switch_kind_of (kind env t) >>= λ sk. next tag >>= λ inner. get_codec t inner >>= λ sw.
          union_made name i sw_name sw sk (suc i)
            (union_fields (suc i) in_union fs (record { cases = []; default_case = none })))
      else none

  abbrev pub plain_field : ℕ → Text → GoType → Option Parsed → Option Plain → Option Plain
  plain_field i name t none rest = none
  plain_field i name t (some (unparsed e)) rest = some (bad_field e)
  plain_field i name t (some (parsed tag)) rest =
      if Tags.kind tag == Tags.skip
      then rest
      else (get_codec t tag >>= λ c. rest >>= λ more. some (cons_plain (field_codec i name c) more))

  -- The loop of `case tags.NotInUnion`.
  unfoldable pub struct_fields : ℕ → IsInUnion → StructFields → Option Plain
  struct_fields i u no_fields = some (plain_fields FieldCodecs.no_fields)
  struct_fields i u (struct_field name t s fs) =
      let (v, o) = parse_tag env u t s in plain_field i name t o (struct_fields (suc i) v fs)

  -- The first loop: on, as long as `isUnion` is not settled.
  abbrev pub search_field :
      ℕ → Text → GoType → StructFields → IsInUnion × Option Parsed → Option Found → Option Found
  search_field i name t fs (u, none) rest = none
  search_field i name t fs (u, some (unparsed e)) rest = some (bad_first e)
  search_field i name t fs (maybe_in_union, some (parsed tag)) rest =
      if Tags.kind tag == Tags.skip then rest else none
  search_field i name t fs (u, some (parsed tag)) rest = some (found u i name t tag fs)

  unfoldable pub first_field : ℕ → StructFields → Option Found
  first_field i no_fields = some no_first
  first_field i (struct_field name t s fs) =
      search_field i name t fs (parse_tag env maybe_in_union t s) (first_field (suc i) fs)

  -- `switch isUnion`
  abbrev pub make_found : Text → Found → Option Codec
  make_found name no_first = some (struct_codec name FieldCodecs.no_fields)
  make_found name (bad_first e) = some (error_codec e)
  make_found name (found maybe_in_union i f t tag fs) =
      some (struct_codec name FieldCodecs.no_fields)
  make_found name (found not_in_union i f t tag fs) = get_codec t tag >>= λ c.
      struct_fields (suc i) not_in_union fs >>= λ more.
      some (plain_made name (cons_plain (field_codec i f c) more))
  make_found name (found in_union i f t tag fs) = make_union name i f t tag fs

  abbrev pub struct_of : Text → GoType → Option Codec
  struct_of name (struct fs) = first_field 0 fs >>= make_found name
  struct_of name t = none

  -- `makeStructCodec`
  unfoldable pub make_struct : GoType → Option Codec
  unfolding first_field struct_fields make_union
  make_struct t = struct_of (name_of env t) (underlying env t)
