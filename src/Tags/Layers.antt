-- ===== src/Tags/Layers.antt =====
-- internal/tags/tags.go: what a struct tag says of a type, layer by layer.
use xdr.Prelude.{ℕ, true, ◌≡◌, ◌⊎◌, some, List, [], ◌∷◌, ◌<◌, ◌^◌, length, All}
use xdr.Types.{Kind, GoType, TypeEnv, kind}
use xdr.Tags as Tags
use xdr.Tags.Entries.{Entry, flag, single, multi, IsWord}
use xdr.Tags.Trim.{trim}
use xdr.Tags.Parse.{IsInUnion, maybe_in_union, not_in_union, in_union, elem, valid_for_union_switch}

-- Nothing, `opt`, `opaque`, `len:` and `maxlen:`.
pub data Layer : Type 0 where
  unmarked optional raw : Layer
  exactly at_most : ℕ → Layer

abbrev pub layer_entry : Layer → Entry
layer_entry unmarked = flag Tags.noop
layer_entry optional = flag Tags.opt
layer_entry raw = flag Tags.opaque
layer_entry (exactly n) = single Tags.len n
layer_entry (at_most n) = single Tags.max_len n

abbrev pub layer_entries : List Layer → List Entry
layer_entries [] = []
layer_entries (l ∷ ls) = layer_entry l ∷ layer_entries ls

-- The kinds of type that a mark is for, and numbers of 32 bits.
abbrev pub Suits : Kind → Layer → Type 0
Suits k unmarked = Unit
Suits k optional = (k ≡ Kind.ptr) ⊎ (k ≡ Kind.interface)
Suits k raw = (k ≡ Kind.uint8) ⊎ (k ≡ Kind.int8)
Suits k (exactly n) = ((k ≡ Kind.string) ⊎ (k ≡ Kind.slice)) × IsWord n
Suits k (at_most n) = ((k ≡ Kind.string) ⊎ (k ≡ Kind.slice)) × IsWord n

-- If there are more layers, the type has elements, of a type that they describe.
abbrev pub Inside : TypeEnv → GoType → (GoType → Type 0) → List Layer → Type 0
Inside env t D [] = Unit
Inside env t D (l ∷ ls) = (e : GoType) × (elem env t ≡ some e) × D e

-- Each layer suits a type, the next one the type of its elements.
abbrev pub Describes : TypeEnv → List Layer → GoType → Type 0
Describes env [] t = Unit
Describes env (l ∷ ls) t = Suits (kind env t) l × Inside env t (λ e. Describes env ls e) ls

-- The union tag in front.
pub data Leading : Type 0 where
  no_lead lead_switch lead_default : Leading
  lead_cases : List ℕ → Leading

abbrev pub with_lead : Leading → List Entry → List Entry
with_lead no_lead es = es
with_lead lead_switch es = flag Tags.union_switch ∷ es
with_lead lead_default es = flag Tags.union_default ∷ es
with_lead (lead_cases vs) es = multi Tags.union_cases vs ∷ es

-- Where a union tag may stand, and what it says of the struct: a switch makes it a union, and the
-- first field without one makes it a plain struct.
abbrev pub Leads : Kind → Leading → IsInUnion → IsInUnion → Type 0
Leads k no_lead in_union v = ⊥
Leads k no_lead u v = v ≡ not_in_union
Leads k lead_switch maybe_in_union v = (v ≡ in_union) × (valid_for_union_switch k ≡ true)
Leads k lead_switch u v = ⊥
Leads k lead_default in_union v = v ≡ in_union
Leads k lead_default u v = ⊥
Leads k (lead_cases vs) in_union v =
    (v ≡ in_union) × All IsWord vs × (0 < length vs) × (length vs < 2 ^ 32)
Leads k (lead_cases vs) u v = ⊥

-- The entries of a tag that says this.
abbrev pub tag_entries : Leading → List Layer → List Entry
tag_entries lead ls = with_lead lead (trim (layer_entries ls))
