-- ===== src/Tags/Parsing.antt =====
-- internal/tags/tags.go: what `ParseTag` makes of the parts of a tag, layer by layer.
use xdr.Prelude.{
  ℕ, ◌≡◌, ◌⊎◌, inl, inr, refl, ◌∙◌, ap, Option, none, some, List, [], ◌∷◌, ◌++◌, append_assoc, All,
  arith, Text, codes, text_eq, Bool-cases, Option-cases, if◌then◌else◌,
}
use xdr.Prelude.Texts.{after_prefix}
use xdr.Prelude.Texts.Numbers.{parse_uint32-bound}
use xdr.Errors.{Err}
use xdr.Types.{Kind, GoType, array, slice, TypeEnv, underlying, kind}
use xdr.Tags as Tags
use xdr.Tags.{Tag, ◌>>=◌, append, trimmed}
use xdr.Tags.Entries.{Entry, IsEntry, IsWord, entry_kind, entry_values, tag_bytes}
use xdr.Tags.Accessors.{append_entry}
use xdr.Tags.Parse.{
  elem_of, elem, can_be_opt, parse_u32, Layered, layered, refused, put, fail, mark_opaque,
  opaque_layer, length_layer, counted_layer, max_len_layer, len_layer, parse_layer,
}
use xdr.Tags.Layers.{
  Layer, unmarked, optional, raw, exactly, at_most, layer_entry, layer_entries, Suits, Inside,
  Describes,
}

-- Layers are added that describe the type, down to one whose elements the others may describe.
abbrev pub Reaches : TypeEnv → GoType → List Layer → GoType → Type 0
Reaches env t ls u =
    (rest : List Layer)
    → Inside env u (λ e. Describes env rest e) rest
    → Describes env (ls ++ rest) t

-- A part is an error, or adds the entries of some layers.
abbrev pub Steps : TypeEnv → GoType → List Entry → Option Layered → Type 0
Steps env t es o =
    ((err : Err) × (o ≡ some (refused err)))
    ⊎ ((ls : List Layer) × (u : GoType) × (o
          ≡ some (layered (tag_bytes (es ++ layer_entries ls)) u))
        × All IsEntry (layer_entries ls)
        × Reaches env t ls u)

pub layer_entry-IsEntry : (k : Kind) (l : Layer) → Suits k l → IsEntry (layer_entry l)
layer_entry-IsEntry k unmarked h = omega arith
layer_entry-IsEntry k optional h = omega arith
layer_entry-IsEntry k raw h = omega arith
layer_entry-IsEntry k (exactly n) h = (omega arith, omega arith, h.1)
layer_entry-IsEntry k (at_most n) h = (omega arith, omega arith, h.1)

module _ (env : TypeEnv) where
  pub append_layer :
      (es : List Entry) (l : Layer) (t : GoType)
      → Suits (kind env t) l
      → append (tag_bytes es) (entry_kind (layer_entry l)) (entry_values (layer_entry l))
        ≡ some (tag_bytes (es ++ layer_entry l ∷ []))
  append_layer es l t h = (append_entry es (layer_entry l) (layer_entry-IsEntry (kind env t) l h)).0

  put-Steps :
      (es : List Entry) (l : Layer) (t : GoType)
      → Suits (kind env t) l
      → Steps env t es
          (put (tag_bytes es) (entry_kind (layer_entry l)) (entry_values (layer_entry l)) t)
  put-Steps es l t h = inr (
    l ∷ [],
    t,
    rw (append_layer es l t h) refl,
    (layer_entry-IsEntry (kind env t) l h, tt),
    λ rest inside. (h, inside),
  )

  fail-Steps : (t : GoType) (es : List Entry) → Steps env t es fail
  fail-Steps t es = inl (_, refl)

  mark_opaque-Steps :
      (k : Kind) (t : GoType) (es : List Entry)
      → kind env t ≡ k
      → Steps env t es (mark_opaque env t (tag_bytes es) k)
  mark_opaque-Steps Kind.int8 t es e = put-Steps es raw t (inr e)
  mark_opaque-Steps Kind.uint8 t es e = put-Steps es raw t (inl e)
  mark_opaque-Steps _ t es e = fail-Steps t es

  pub elem-Inside :
      (rest : List Layer) (t e : GoType)
      → elem env t ≡ some e
      → Describes env rest e
      → Inside env t (λ i. Describes env rest i) rest
  elem-Inside [] t e p d = tt
  elem-Inside (l ∷ ls) t e p d = (e, p, d)

  inner-Steps :
      (t e : GoType) (es : List Entry) (o : Option Layered)
      → elem env t ≡ some e
      → Steps env e (es ++ layer_entry unmarked ∷ []) o
      → Steps env t es o
  inner-Steps t e es o p (inl h) = inl h
  inner-Steps t e es o p (inr ([], u, q, all, reaches)) = inr (
    unmarked ∷ [],
    u,
    q ∙ ap (λ x. some (layered (tag_bytes x) u)) (append_assoc es _ _),
    (omega arith, tt),
    λ rest inside. (tt, elem-Inside rest t e p (reaches rest inside)),
  )
  inner-Steps t e es o p (inr (l ∷ ls, u, q, all, reaches)) = inr (
    unmarked ∷ l ∷ ls,
    u,
    q ∙ ap (λ x. some (layered (tag_bytes x) u)) (append_assoc es _ _),
    (omega arith, all),
    λ rest inside. (tt, (e, p, reaches rest inside)),
  )

  opaque_layer-Steps :
      (v t : GoType) (es : List Entry)
      → underlying env t ≡ v
      → Steps env t es (opaque_layer env t (tag_bytes es) v)
  opaque_layer-Steps (array n e) t es p =
      rw (append_layer es unmarked t tt)
        (inner-Steps t e es _ (ap elem_of p) (mark_opaque-Steps (kind env e) e _ refl))
  opaque_layer-Steps (slice e) t es p =
      rw (append_layer es unmarked t tt)
        (inner-Steps t e es _ (ap elem_of p) (mark_opaque-Steps (kind env e) e _ refl))
  opaque_layer-Steps _ t es p = mark_opaque-Steps (kind env t) t es refl

  len-Steps :
      (k : Kind) (t : GoType) (es : List Entry) (n : ℕ)
      → kind env t ≡ k
      → IsWord n
      → Steps env t es (length_layer env Tags.len t (tag_bytes es) k n)
  len-Steps Kind.string t es n e h = put-Steps es (exactly n) t (inl e, h)
  len-Steps Kind.slice t es n e h = put-Steps es (exactly n) t (inr e, h)
  len-Steps _ t es n e h = fail-Steps t es

  max_len-Steps :
      (k : Kind) (t : GoType) (es : List Entry) (n : ℕ)
      → kind env t ≡ k
      → IsWord n
      → Steps env t es (length_layer env Tags.max_len t (tag_bytes es) k n)
  max_len-Steps Kind.string t es n e h = put-Steps es (at_most n) t (inl e, h)
  max_len-Steps Kind.slice t es n e h = put-Steps es (at_most n) t (inr e, h)
  max_len-Steps _ t es n e h = fail-Steps t es

  counted_len-Steps :
      (t : GoType) (es : List Entry) (s : Text)
      → Steps env t es (counted_layer env Tags.len t (tag_bytes es) (parse_u32 s))
  counted_len-Steps t es s = elim (Option-cases (parse_u32 s)) [
    | inl p ↦ rw p (fail-Steps t es)
    | inr (n, p) ↦ rw p (len-Steps (kind env t) t es n refl (parse_uint32-bound s n p))
  ]

  counted_max_len-Steps :
      (t : GoType) (es : List Entry) (s : Text)
      → Steps env t es (counted_layer env Tags.max_len t (tag_bytes es) (parse_u32 s))
  counted_max_len-Steps t es s = elim (Option-cases (parse_u32 s)) [
    | inl p ↦ rw p (fail-Steps t es)
    | inr (n, p) ↦ rw p (max_len-Steps (kind env t) t es n refl (parse_uint32-bound s n p))
  ]

  max_len_layer-Steps :
      (t : GoType) (es : List Entry) (o : Option Text)
      → Steps env t es (max_len_layer env t (tag_bytes es) o)
  max_len_layer-Steps t es none = fail-Steps t es
  max_len_layer-Steps t es (some s) = counted_max_len-Steps t es s

  len_layer-Steps :
      (t : GoType) (es : List Entry) (p : Text) (o : Option Text)
      → Steps env t es (len_layer env t (tag_bytes es) p o)
  len_layer-Steps t es p none = max_len_layer-Steps t es (after_prefix (codes "maxlen:") p)
  len_layer-Steps t es p (some s) = counted_len-Steps t es s

  opt-Steps :
      (k : Kind) (t : GoType) (es : List Entry)
      → kind env t ≡ k
      → Steps env t es (if can_be_opt k then put (tag_bytes es) Tags.opt [] t else fail)
  opt-Steps Kind.ptr t es e = put-Steps es optional t (inl e)
  opt-Steps Kind.interface t es e = put-Steps es optional t (inr e)
  opt-Steps _ t es e = fail-Steps t es

  pub parse_layer-Steps :
      (t : GoType) (es : List Entry) (p : Text)
      → Steps env t es (parse_layer env t (tag_bytes es) p)
  unfolding parse_layer
  parse_layer-Steps t es p = elim (Bool-cases (text_eq p [])) [
    | inl a ↦ rw a (put-Steps es unmarked t tt)
    | inr a ↦ elim (Bool-cases (text_eq p (codes "opt"))) [
      | inl b ↦ rw (a, b) (opt-Steps (kind env t) t es refl)
      | inr b ↦ elim (Bool-cases (text_eq p (codes "opaque"))) [
        | inl c ↦ rw (a, b, c) (opaque_layer-Steps (underlying env t) t es refl)
        | inr c ↦ rw (a, b, c) (len_layer-Steps t es p (after_prefix (codes "len:") p))
      ]
    ]
  ]
