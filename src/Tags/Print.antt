-- ===== src/Tags/Print.antt =====
-- internal/tags/tags.go: struct tags written out, and each layer read back by `ParseTag`.
use xdr.Prelude.{
  ℕ, ◌≡◌, ◌<◌, ◌⊎◌, inl, inr, refl, some, List, [], ◌∷◌, ◌++◌, All, All-append, arith, Text, codes,
}
use xdr.Prelude.Texts.{after_prefix}
use xdr.Prelude.Texts.Decimal.{decimal, decimal-IsDigit, parse_uint32-decimal, IsDigit}
use xdr.Prelude.Texts.Parts.{join}
use xdr.Types.{Kind, GoType, array, slice, TypeEnv, underlying, kind}
use xdr.Tags.Entries.{Entry, entry_kind, entry_values, tag_bytes}
use xdr.Tags.Parse.{layered, put, mark_opaque, opaque_layer, parse_layer}
use xdr.Tags.Layers.{
  Layer, unmarked, optional, raw, exactly, at_most, layer_entry, Suits, Leading, no_lead,
  lead_switch, lead_default, lead_cases,
}
use xdr.Tags.Parsing.{append_layer}

abbrev pub print_layer : Layer → Text
print_layer unmarked = []
print_layer optional = codes "opt"
print_layer raw = codes "opaque"
print_layer (exactly n) = codes "len:" ++ decimal n
print_layer (at_most n) = codes "maxlen:" ++ decimal n

abbrev pub print_layers : List Layer → List Text
print_layers [] = []
print_layers (l ∷ ls) = print_layer l ∷ print_layers ls

abbrev pub decimals : List ℕ → List Text
decimals [] = []
decimals (v ∷ vs) = decimal v ∷ decimals vs

abbrev pub print_parts : Leading → List Layer → List Text
print_parts no_lead ls = print_layers ls
print_parts lead_switch ls = codes "union:switch" ∷ print_layers ls
print_parts lead_default ls = codes "union:default" ∷ print_layers ls
print_parts (lead_cases vs) ls = (codes "union:" ++ join b',' (decimals vs)) ∷ print_layers ls

-- The text of a tag: a union tag, if any, and the layers, with slashes between them.
abbrev pub print_tag : Leading → List Layer → Text
print_tag lead ls = join b'/' (print_parts lead ls)

-- A character of the layers: no white space, comma or slash.
abbrev pub IsInk : ℕ → Type 0
IsInk c = b'/' < c

decimal-IsInk : (s : Text) → All IsDigit s → All IsInk s
decimal-IsInk [] h = tt
decimal-IsInk (c ∷ s) h = (omega arith, decimal-IsInk s h.1)

pub decimals-IsInk : (vs : List ℕ) → All (λ s. All IsInk s) (decimals vs)
decimals-IsInk [] = tt
decimals-IsInk (v ∷ vs) = (decimal-IsInk (decimal v) (decimal-IsDigit v), decimals-IsInk vs)

-- For a closed text.
append-IsInk : (s : Text) → All IsInk s → (back : Text) → All IsInk back → All IsInk (s ++ back)
append-IsInk s h back k = All-append IsInk s back h k

pub print_layer-IsInk : (l : Layer) → All IsInk (print_layer l)
print_layer-IsInk unmarked = tt
print_layer-IsInk optional = ground arith
print_layer-IsInk raw = ground arith
print_layer-IsInk (exactly n) =
    append-IsInk (codes "len:") (ground arith) (decimal n)
      (decimal-IsInk (decimal n) (decimal-IsDigit n))
print_layer-IsInk (at_most n) =
    append-IsInk (codes "maxlen:") (ground arith) (decimal n)
      (decimal-IsInk (decimal n) (decimal-IsDigit n))

module _ (env : TypeEnv) where
  put_layer :
      (es : List Entry) (l : Layer) (t : GoType)
      → Suits (kind env t) l
      → put (tag_bytes es) (entry_kind (layer_entry l)) (entry_values (layer_entry l)) t
        ≡ some (layered (tag_bytes (es ++ layer_entry l ∷ [])) t)
  put_layer es l t h = rw (append_layer env es l t h) refl

  mark-print :
      (k : Kind) (es : List Entry) (t : GoType)
      → kind env t ≡ k
      → (k ≡ Kind.uint8) ⊎ (k ≡ Kind.int8)
      → mark_opaque env t (tag_bytes es) k
        ≡ some (layered (tag_bytes (es ++ layer_entry raw ∷ [])) t)
  mark-print Kind.uint8 es t e h = put_layer es raw t (inl e)
  mark-print Kind.int8 es t e h = put_layer es raw t (inr e)
  mark-print _ es t e (inl h) = cc
  mark-print _ es t e (inr h) = cc

  -- A type of bytes is no array or slice.
  opaque-print :
      (v : GoType) (es : List Entry) (t : GoType)
      → underlying env t ≡ v
      → Suits (kind env t) raw
      → opaque_layer env t (tag_bytes es) v
        ≡ some (layered (tag_bytes (es ++ layer_entry raw ∷ [])) t)
  opaque-print (array n i) es t e (inl h) = let wrong : Kind.array ≡ Kind.uint8 = rw e at h in cc
  opaque-print (array n i) es t e (inr h) = let wrong : Kind.array ≡ Kind.int8 = rw e at h in cc
  opaque-print (slice i) es t e (inl h) = let wrong : Kind.slice ≡ Kind.uint8 = rw e at h in cc
  opaque-print (slice i) es t e (inr h) = let wrong : Kind.slice ≡ Kind.int8 = rw e at h in cc
  opaque-print _ es t e h = mark-print (kind env t) es t refl h

  opt-print :
      (es : List Entry) (t : GoType)
      → Suits (kind env t) optional
      → parse_layer env t (tag_bytes es) (codes "opt")
        ≡ some (layered (tag_bytes (es ++ layer_entry optional ∷ [])) t)
  unfolding parse_layer
  opt-print es t (inl h) = rw h (put_layer es optional t (inl h))
  opt-print es t (inr h) = rw h (put_layer es optional t (inr h))

  -- Each layer is read back at a type that it suits.
  pub parse_layer-print :
      (es : List Entry) (l : Layer) (t : GoType)
      → Suits (kind env t) l
      → parse_layer env t (tag_bytes es) (print_layer l)
        ≡ some (layered (tag_bytes (es ++ layer_entry l ∷ [])) t)
  unfolding parse_layer after_prefix
  parse_layer-print es unmarked t h = put_layer es unmarked t h
  parse_layer-print es optional t h = opt-print es t h
  parse_layer-print es raw t h = opaque-print (underlying env t) es t refl h
  parse_layer-print es (exactly n) t (inl h, w) =
      rw (parse_uint32-decimal n w, h) (put_layer es (exactly n) t (inl h, w))
  parse_layer-print es (exactly n) t (inr h, w) =
      rw (parse_uint32-decimal n w, h) (put_layer es (exactly n) t (inr h, w))
  parse_layer-print es (at_most n) t (inl h, w) =
      rw (parse_uint32-decimal n w, h) (put_layer es (at_most n) t (inl h, w))
  parse_layer-print es (at_most n) t (inr h, w) =
      rw (parse_uint32-decimal n w, h) (put_layer es (at_most n) t (inr h, w))
