-- ===== src/Tags/ParseRuns.antt =====
-- Struct tags parsed at a few types.
use xdr.Prelude.{inl, arith, ◌≡◌, refl, some, List, [], ◌∷◌, false, codes}
use xdr.Prelude.Texts.{trim_space, split, after_prefix, parse_uint32}
use xdr.Prelude.Texts.Decimal.{decimal}
use xdr.Prelude.Texts.Parts.{join}
use xdr.Types.{Basic, GoType, basic, ptr, slice, TypeEnv}
use xdr.Tags.{append, trimmed, next, val_at, noop, opt, opaque, union_switch, max_len}
use xdr.Tags.Entries.{tag_bytes}
use xdr.Tags.Layers.{Layer, unmarked, optional, at_most, lead_cases, tag_entries}
use xdr.Tags.Sound.{Outcome, parse_tag_outcomes}
use xdr.Tags.Print.{print_tag}
use xdr.Tags.Complete.{parse_tag-print}
use xdr.Tags.Parse.{parsed, maybe_in_union, not_in_union, in_union, parse_tag}

abbrev no_names : TypeEnv
no_names i = record { name = []; underlying = basic Basic.bool; is_marshaler = false }

abbrev bytes : GoType
bytes = slice (basic Basic.uint8)

-- A bounded slice behind an optional pointer.
layers_parsed :
    parse_tag no_names maybe_in_union (ptr (slice (basic Basic.string))) (codes " opt/maxlen:10/ ")
    ≡ (not_in_union, some (parsed (opt ∷ max_len ∷ 0 ∷ 0 ∷ 0 ∷ 10 ∷ [])))
unfolding parse_tag trim_space split after_prefix parse_uint32 append trimmed next val_at
layers_parsed = refl

opaque_parsed :
    parse_tag no_names not_in_union bytes (codes "opaque")
    ≡ (not_in_union, some (parsed (noop ∷ opaque ∷ [])))
unfolding parse_tag trim_space split after_prefix parse_uint32 append trimmed next val_at
opaque_parsed = refl

switch_parsed :
    parse_tag no_names maybe_in_union (basic Basic.uint32) (codes "union:switch")
    ≡ (in_union, some (parsed (union_switch ∷ [])))
unfolding parse_tag trim_space split after_prefix parse_uint32 append trimmed next val_at
switch_parsed = refl

cases_parsed : parse_tag no_names in_union bytes (codes "union:0x10,3/maxlen:0x100/opaque") ≡ (
  in_union,
  some (
      parsed (200 ∷ 0 ∷ 0 ∷ 0 ∷ 2 ∷ 0 ∷ 0 ∷ 0 ∷ 16 ∷ 0 ∷ 0 ∷ 0 ∷ 3 ∷ 135 ∷ 0 ∷ 0 ∷ 1 ∷ 0 ∷ 3 ∷ [])),
)
unfolding parse_tag trim_space split after_prefix parse_uint32 append trimmed next val_at
cases_parsed = refl

-- In a struct that is no union, an error.
parse_tag_outcomes_example :
    Outcome no_names bytes not_in_union
      (parse_tag no_names not_in_union bytes (codes "union:1,2/opaque"))
parse_tag_outcomes_example =
    parse_tag_outcomes no_names not_in_union bytes (codes "union:1,2/opaque") (omega arith)

abbrev arm : GoType
arm = ptr (slice (basic Basic.string))

abbrev arm_layers : List Layer
arm_layers = optional ∷ unmarked ∷ at_most 4096 ∷ []

arm_text : print_tag (lead_cases (7 ∷ 10 ∷ [])) arm_layers ≡ codes "union:7,10/opt//maxlen:4096"
unfolding join decimal
arm_text = refl

parse_tag-print_example :
    parse_tag no_names in_union arm (print_tag (lead_cases (7 ∷ 10 ∷ [])) arm_layers)
    ≡ (in_union, some (parsed (tag_bytes (tag_entries (lead_cases (7 ∷ 10 ∷ [])) arm_layers))))
parse_tag-print_example =
    parse_tag-print no_names (lead_cases (7 ∷ 10 ∷ [])) arm_layers arm in_union in_union
      (inl refl, (_, refl, (tt, (_, refl, ((inl refl, omega arith), tt)))))
      (refl, (omega arith, (omega arith, tt)), omega arith, omega arith)
