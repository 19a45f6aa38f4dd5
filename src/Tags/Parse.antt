-- ===== src/Tags/Parse.antt =====
-- internal/tags/tags.go, `ParseTag` and `ParseStructTag`: the entries that the text of a struct tag
-- stands for at a type. A panic is `none`; the texts of the errors are shortened.
use xdr.Prelude.{
  ℕ, Bool, true, false, Option, none, some, List, [], ◌∷◌, if◌then◌else◌, Text, codes, text_eq,
}
use xdr.Prelude.Texts.{trim_space, split, after_prefix, parse_uint32}
use xdr.Errors.{Err, plain}
use xdr.Types.{Kind, GoType, array, slice, ptr, map, TypeEnv, underlying, kind}
use xdr.Tags.{
  Tag, ◌>>=◌, noop, skip, opt, opaque, union_switch, union_default, len, max_len, union_cases,
  append, trimmed,
}

-- The result of `ParseTag`.
pub data Parsed : Type 0 where
  parsed : Tag → Parsed
  unparsed : Err → Parsed

pub data IsInUnion : Type 0 where
  maybe_in_union not_in_union in_union : IsInUnion

-- `emptyTag`
abbrev pub empty_tag : Tag
empty_tag = []

-- `skipTag`
abbrev pub skip_tag : Tag
skip_tag = skip ∷ []

abbrev pub valid_for_union_switch : Kind → Bool
valid_for_union_switch Kind.bool = true
valid_for_union_switch Kind.int = true
valid_for_union_switch Kind.int8 = true
valid_for_union_switch Kind.int16 = true
valid_for_union_switch Kind.int32 = true
valid_for_union_switch Kind.int64 = true
valid_for_union_switch Kind.uint = true
valid_for_union_switch Kind.uint8 = true
valid_for_union_switch Kind.uint16 = true
valid_for_union_switch Kind.uint32 = true
valid_for_union_switch _ = false

abbrev pub can_be_opt : Kind → Bool
can_be_opt Kind.interface = true
can_be_opt Kind.ptr = true
can_be_opt _ = false

-- `t.Elem()` for the kinds that a tag descends through.
abbrev pub elem_of : GoType → Option GoType
elem_of (array n t) = some t
elem_of (map k t) = some t
elem_of (ptr t) = some t
elem_of (slice t) = some t
elem_of _ = none

abbrev pub elem : TypeEnv → GoType → Option GoType
elem env t = elem_of (underlying env t)

-- `parseU32`
abbrev pub parse_u32 : Text → Option ℕ
parse_u32 = parse_uint32

abbrev and_then : Option ℕ → Option (List ℕ) → Option (List ℕ)
and_then none vs = none
and_then (some v) none = none
and_then (some v) (some vs) = some (v ∷ vs)

-- The loop of `parseU32s`.
abbrev pub parse_each : List Text → Option (List ℕ)
parse_each [] = some []
parse_each (s ∷ ss) = and_then (parse_u32 s) (parse_each ss)

unfoldable pub parse_u32s : Text → Option (List ℕ)
parse_u32s s = let (v, vs) = split b',' s in parse_each (v ∷ vs)

-- The tag so far, with the type that is reached; or the error that is returned.
pub data Layered : Type 0 where
  layered : Tag → GoType → Layered
  refused : Err → Layered

abbrev pub put : Tag → ℕ → List ℕ → GoType → Option Layered
put xt k vs t = append xt k vs >>= λ more. some (layered more t)

abbrev pub fail : Option Layered
fail = some (refused (plain (codes "tag")))

module _ (env : TypeEnv) where
  abbrev pub mark_opaque : GoType → Tag → Kind → Option Layered
  mark_opaque t xt Kind.int8 = put xt opaque [] t
  mark_opaque t xt Kind.uint8 = put xt opaque [] t
  mark_opaque t xt _ = fail

  -- `case p == "opaque"`: an array or a slice gives way to its elements.
  abbrev pub opaque_layer : GoType → Tag → GoType → Option Layered
  opaque_layer t xt (array n e) = append xt noop [] >>= λ more. mark_opaque e more (kind env e)
  opaque_layer t xt (slice e) = append xt noop [] >>= λ more. mark_opaque e more (kind env e)
  opaque_layer t xt _ = mark_opaque t xt (kind env t)

  -- `len:` and `maxlen:`, on a kind.
  abbrev pub length_layer : ℕ → GoType → Tag → Kind → ℕ → Option Layered
  length_layer k t xt Kind.string n = put xt k (n ∷ []) t
  length_layer k t xt Kind.slice n = put xt k (n ∷ []) t
  length_layer k t xt _ n = fail

  abbrev pub counted_layer : ℕ → GoType → Tag → Option ℕ → Option Layered
  counted_layer k t xt none = fail
  counted_layer k t xt (some n) = length_layer k t xt (kind env t) n

  abbrev pub max_len_layer : GoType → Tag → Option Text → Option Layered
  max_len_layer t xt none = fail
  max_len_layer t xt (some s) = counted_layer max_len t xt (parse_u32 s)

  abbrev pub len_layer : GoType → Tag → Text → Option Text → Option Layered
  len_layer t xt p none = max_len_layer t xt (after_prefix (codes "maxlen:") p)
  len_layer t xt p (some s) = counted_layer len t xt (parse_u32 s)

  -- `switch` on one part between slashes.
  unfoldable pub parse_layer : GoType → Tag → Text → Option Layered
  parse_layer t xt p =
      if text_eq p []
      then put xt noop [] t
      else if text_eq p (codes "opt")
      then (if can_be_opt (kind env t) then put xt opt [] t else fail)
      else if text_eq p (codes "opaque")
      then opaque_layer t xt (underlying env t)
      else len_layer t xt p (after_prefix (codes "len:") p)

  abbrev pub trailing : Option GoType → (GoType → Option Parsed) → Option Parsed
  trailing none f = some (unparsed (plain (codes "Trailing tags")))
  trailing (some t) f = f t

  -- Behind a part: return, or descend one level through the types and go on.
  abbrev pub descend : List Text → (Tag → GoType → Option Parsed) → Layered → Option Parsed
  descend ps f (refused e) = some (unparsed e)
  descend [] f (layered xt t) = f xt t
  descend (p ∷ ps) f (layered xt t) = trailing (elem env t) (f xt)

  -- The loop over the parts.
  unfoldable pub parse_layers : GoType → Tag → List Text → Option Parsed
  unfolding parse_layer
  parse_layers t xt [] = trimmed xt >>= λ done. some (parsed done)
  parse_layers t xt (p ∷ ps) =
      parse_layer t xt (trim_space p) >>= descend ps (λ more inner. parse_layers inner more ps)

  -- What follows a leading union tag.
  abbrev pub behind : GoType → List Text → Option Tag → Option Parsed
  behind t ps xt = xt >>= λ led. parse_layers t led ps

  abbrev pub not_legal : Option Parsed
  not_legal = some (unparsed (plain (codes "union tag")))

  -- `p == "union:switch"`
  abbrev pub switch_part : IsInUnion → GoType → List Text → IsInUnion × Option Parsed
  switch_part maybe_in_union t ps =
      if valid_for_union_switch (kind env t)
      then (in_union, behind t ps (append empty_tag union_switch []))
      else (maybe_in_union, not_legal)
  switch_part u t ps = (u, not_legal)

  abbrev pub cases_part : GoType → List Text → Option (List ℕ) → Option Parsed
  cases_part t ps none = not_legal
  cases_part t ps (some vs) = behind t ps (append empty_tag union_cases vs)

  -- The other union tags; `values` is what is behind the prefix.
  abbrev pub arm_part : IsInUnion → GoType → Text → Text → List Text → IsInUnion × Option Parsed
  arm_part in_union t p values ps = (
    in_union,
    if text_eq p (codes "union:false")
        then behind t ps (append empty_tag union_cases (0 ∷ []))
        else if text_eq p (codes "union:true")
        then behind t ps (append empty_tag union_cases (1 ∷ []))
        else if text_eq p (codes "union:default")
        then behind t ps (append empty_tag union_default [])
        else cases_part t ps (parse_u32s values),
  )
  arm_part u t p values ps = (u, not_legal)

  abbrev pub plain_part : IsInUnion → GoType → List Text → IsInUnion × Option Parsed
  plain_part in_union t parts = (in_union, not_legal)
  plain_part u t parts = (not_in_union, parse_layers t empty_tag parts)

  abbrev pub first_part :
      IsInUnion → GoType → Text → List Text → Option Text → IsInUnion × Option Parsed
  first_part u t p ps none = plain_part u t (p ∷ ps)
  first_part u t p ps (some values) =
      if text_eq p (codes "union:switch") then switch_part u t ps else arm_part u t p values ps

  abbrev pub parse_parts : IsInUnion → GoType → Text × List Text → IsInUnion × Option Parsed
  parse_parts u t (p, ps) = first_part u t p ps (after_prefix (codes "union:") p)

  -- `ParseTag`: what becomes of `*isUnion`, and the result.
  unfoldable pub parse_tag : IsInUnion → GoType → Text → IsInUnion × Option Parsed
  unfolding parse_layers parse_u32s
  parse_tag u t s =
      if text_eq (trim_space s) (codes "-")
      then (u, some (parsed skip_tag))
      else parse_parts u t (split b'/' (trim_space s))
