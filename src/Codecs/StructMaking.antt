-- ===== src/Codecs/StructMaking.antt =====
-- internal/coder/codec_struct.go: the loops of `makeStructCodec` over the fields do not panic.
use xdr.Prelude.{
  ℕ, suc, ◌<◌, ◌^◌, ◌≡◌, ◌⊎◌, inl, inr, refl, true, Option, none, some, List, [], ◌∷◌, ◌==◌, Text,
  All, arith, Bool-cases, length,
}
use xdr.Types.{Kind, GoType, StructFields, no_fields, struct_field, TypeEnv, kind}
use xdr.Errors.{Err}
use xdr.Tags as Tags
use xdr.Tags.{Tag, ◌>>=◌, next, values}
use xdr.Tags.Entries.{Entry, flag, IsEntry, tag_bytes, entry_values}
use xdr.Tags.Accessors.{accessors_first_entry}
use xdr.Tags.Parse.{
  Parsed, parsed, unparsed, IsInUnion, maybe_in_union, not_in_union, in_union, parse_tag,
}
use xdr.Tags.Layers.{
  Leading, no_lead, lead_switch, lead_default, lead_cases, Leads, Layer, layer_entries, Describes,
  with_lead, tag_entries,
}
use xdr.Tags.Outcomes.{Describes-IsEntry}
use xdr.Tags.Sound.{Outcome, parse_tag_outcomes}
use xdr.Codecs.{Codec, FieldCodecs, field_codec, no_field, SwitchKind}
use xdr.Codecs.Making.{HasCodecs, trim-IsEntry, rest_of, next-rest_of, rest_of-IsEntry}
use xdr.Codecs.MakesStrings.{kind-nil}
use xdr.Codecs.MakeStruct.{
  Arms, Made, made, refused, add_cases, with_cases, with_default, add_arm, cons_field, with_arms,
  one_field, union_fields, switch_kind_of, union_made, make_union, Plain, bad_field, cons_plain,
  plain_field, struct_fields,
}

-- A value, and no panic.
abbrev pub Answers {ℓ} : {A : Type ℓ} → Option A → Type ℓ
Answers {A = A} o = (a : A) × (o ≡ some a)

-- No struct tag has 2 ^ 32 bytes or more, and the coder has codecs for the types of the fields.
abbrev pub IsMakeable : (GoType → Tag → Option Codec) → StructFields → Type 0
IsMakeable get_codec no_fields = Unit
IsMakeable get_codec (struct_field name t s fs) =
    ((length s < 2 ^ 32) × HasCodecs get_codec t) × IsMakeable get_codec fs

-- An error, or a tag that is made of entries.
abbrev pub Readable : Option Parsed → Type 0
Readable o =
    ((err : Err) × (o ≡ some (unparsed err)))
    ⊎ ((es : List Entry) × (o ≡ some (parsed (tag_bytes es))) × All IsEntry es)

with_lead-IsEntry :
    (k : Kind) (lead : Leading) (u v : IsInUnion) (es : List Entry)
    → Leads k lead u v
    → All IsEntry es
    → All IsEntry (with_lead lead es)
with_lead-IsEntry k no_lead u v es h a = a
with_lead-IsEntry k lead_switch u v es h a = (omega arith, a)
with_lead-IsEntry k lead_default u v es h a = (omega arith, a)
with_lead-IsEntry k (lead_cases vs) in_union v es h a = ((omega arith, omega arith, h.3, h.1), a)
with_lead-IsEntry k (lead_cases vs) maybe_in_union v es h a = absurd h
with_lead-IsEntry k (lead_cases vs) not_in_union v es h a = absurd h

module _ (env : TypeEnv) where
  pub tag_entries-IsEntry :
      (t : GoType) (lead : Leading) (u v : IsInUnion) (ls : List Layer)
      → Leads (kind env t) lead u v
      → Describes env ls t
      → All IsEntry (tag_entries lead ls)
  tag_entries-IsEntry t lead u v ls h d =
      with_lead-IsEntry (kind env t) lead u v _ h
        (trim-IsEntry (layer_entries ls) (Describes-IsEntry env ls t d))

  Outcome-Readable :
      (t : GoType) (u v : IsInUnion) (o : Option Parsed) → Outcome env t u (v, o) → Readable o
  Outcome-Readable t u v o (inl (err, p)) = inl (err, p)
  Outcome-Readable t u v o (inr (inl (p, q))) = inr (flag Tags.skip ∷ [], p, (omega arith, tt))
  Outcome-Readable t u v o (inr (inr (lead, ls, p, d, h))) =
      inr (tag_entries lead ls, p, tag_entries-IsEntry t lead u v ls h d)

  parse_tag-Readable :
      (u : IsInUnion) (t : GoType) (s : Text) → length s < 2 ^ 32 → Readable (parse_tag env u t s).1
  parse_tag-Readable u t s h =
      Outcome-Readable t u (parse_tag env u t s).0 (parse_tag env u t s).1
        (parse_tag_outcomes env u t s h)

cons_field-Answers :
    (f : FieldCodecs → FieldCodecs) (o : Option Made) → Answers o → Answers (cons_field f o)
cons_field-Answers f o (made fs arms, p) = (made (f fs) arms, rw p refl)
cons_field-Answers f o (refused e, p) = (refused e, rw p refl)

with_arms-Answers :
    (o : Option Arms) (f : Arms → Option Made)
    → ((arms : Arms) → Answers (f arms))
    → Answers (with_arms o f)
with_arms-Answers none f h = (_, refl)
with_arms-Answers (some arms) f h = h arms

add_arm-Answers :
    (i : ℕ) (es : List Entry) (arms : Arms)
    → All IsEntry es
    → Answers (add_arm i (tag_bytes es) arms)
unfolding add_arm
add_arm-Answers i es arms h = elim (Bool-cases (Tags.kind (tag_bytes es) == Tags.union_cases)) [
  | inl p ↦ go es h p
  | inr p ↦ elim (Bool-cases (Tags.kind (tag_bytes es) == Tags.union_default)) [
    | inl q ↦ (with_default i arms arms.default_case, rw (p, q) refl)
    | inr q ↦ (some arms, rw (p, q) refl)
  ]
]
  where
    go :
        (ds : List Entry)
        → All IsEntry ds
        → (Tags.kind (tag_bytes ds) == Tags.union_cases) ≡ true
        → Answers (add_arm i (tag_bytes ds) arms)
    go [] k p = absurd (cc (rw kind-nil at p))
    go (d ∷ ds) k p =
        let (a, b, vs, c) = accessors_first_entry d ds k.0 in
        (with_cases arms (add_cases i (entry_values d) arms.cases), rw (p, vs) refl)

module _ (env : TypeEnv) (get_codec : GoType → Tag → Option Codec) where
  one_field-Answers :
      (i : ℕ) (name : Text) (t : GoType) (o : Option Parsed) (arms : Arms)
      (rest : Arms → Option Made)
      → HasCodecs get_codec t
      → Readable o
      → ((more : Arms) → Answers (rest more))
      → Answers (one_field env get_codec i name t o arms rest)
  one_field-Answers i name t o arms rest gets (inl (err, p)) h = (refused err, rw p refl)
  one_field-Answers i name t o arms rest gets (inr (es, p, all)) h =
      rw p (elim (Bool-cases (Tags.kind (tag_bytes es) == Tags.skip)) [
        | inl q ↦ rw q (cons_field-Answers no_field (rest arms) (h arms))
        | inr q ↦
            let (c, g) = gets (rest_of es) (rest_of-IsEntry es all) in
            let (a, r) = add_arm-Answers i es arms all in
            rw (q, next-rest_of es all, g, r)
              (with_arms-Answers a _ (λ more. cons_field-Answers _ (rest more) (h more)))
      ])

  pub union_fields-Answers :
      (fs : StructFields) (i : ℕ) (u : IsInUnion) (arms : Arms)
      → IsMakeable get_codec fs
      → Answers (union_fields env get_codec i u fs arms)
  unfolding union_fields
  union_fields-Answers no_fields i u arms h = (_, refl)
  union_fields-Answers (struct_field name t s fs) i u arms h =
      one_field-Answers i name t (parse_tag env u t s).1 arms
        (union_fields env get_codec (suc i) (parse_tag env u t s).0 fs) h.0.1
        (parse_tag-Readable env u t s h.0.0)
        (λ more. union_fields-Answers fs (suc i) (parse_tag env u t s).0 more h.1)

  pub plain_field-Answers :
      (i : ℕ) (name : Text) (t : GoType) (o : Option Parsed) (rest : Option Plain)
      → HasCodecs get_codec t
      → Readable o
      → Answers rest
      → Answers (plain_field env get_codec i name t o rest)
  plain_field-Answers i name t o rest gets (inl (err, p)) h = (bad_field err, rw p refl)
  plain_field-Answers i name t o rest gets (inr (es, p, all)) (r, h) =
      rw p (elim (Bool-cases (Tags.kind (tag_bytes es) == Tags.skip)) [
        | inl q ↦ rw q (r, h)
        | inr q ↦
            let (c, g) = gets es all in (cons_plain (field_codec i name c) r, rw (q, g, h) refl)
      ])

  pub struct_fields-Answers :
      (fs : StructFields) (i : ℕ) (u : IsInUnion)
      → IsMakeable get_codec fs
      → Answers (struct_fields env get_codec i u fs)
  unfolding struct_fields
  struct_fields-Answers no_fields i u h = (_, refl)
  struct_fields-Answers (struct_field name t s fs) i u h =
      plain_field-Answers i name t (parse_tag env u t s).1 _ h.0.1
        (parse_tag-Readable env u t s h.0.0)
        (struct_fields-Answers fs (suc i) (parse_tag env u t s).0 h.1)

  union_made-Answers :
      (name : Text) (i : ℕ) (sw_name : Text) (sw : Codec) (sk : SwitchKind) (n : ℕ)
      (o : Option Made)
      → Answers o
      → Answers (union_made name i sw_name sw sk n o)
  union_made-Answers name i sw_name sw sk n o (made fs arms, p) = rw p (_, refl)
  union_made-Answers name i sw_name sw sk n o (refused e, p) = rw p (_, refl)

  pub make_union-Answers :
      (name : Text) (i : ℕ) (sw_name : Text) (t : GoType) (es : List Entry) (fs : StructFields)
      (sk : SwitchKind)
      → All IsEntry es
      → HasCodecs get_codec t
      → IsMakeable get_codec fs
      → switch_kind_of (kind env t) ≡ some sk
      → Answers
          (make_union env get_codec name i sw_name t (tag_bytes (flag Tags.union_switch ∷ es)) fs)
  unfolding make_union
  make_union-Answers name i sw_name t es fs sk h gets k p =
      let (a, n, b, c) = accessors_first_entry (flag Tags.union_switch) es (omega arith) in
      let (sw, g) = gets es h in
      rw (a, n, g, p)
        (union_made-Answers name i sw_name sw sk (suc i) _
          (union_fields-Answers fs (suc i) in_union _ k))
