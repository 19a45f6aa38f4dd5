-- ===== src/Codecs/StructPanics.antt =====
-- internal/coder/codec_struct.go: when `makeStructCodec` panics.
use xdr.Prelude.{
  ℕ, suc, ◌≡◌, ◌↔◌, ◌⊎◌, inl, inr, refl, true, Option, none, some, List, ◌∷◌, ◌==◌, Text, All,
  Bool-cases, Option-cases,
}
use xdr.Types.{GoType, struct, StructFields, no_fields, struct_field, TypeEnv, underlying, kind}
use xdr.Tags as Tags
use xdr.Tags.{Tag, ◌>>=◌, next, values}
use xdr.Tags.Entries.{Entry, flag, IsEntry, tag_bytes}
use xdr.Tags.Trim.{trim}
use xdr.Tags.Parse.{
  Parsed, IsInUnion, maybe_in_union, not_in_union, in_union, parse_tag, valid_for_union_switch,
}
use xdr.Tags.Layers.{no_lead, lead_switch, lead_default, lead_cases, layer_entries, tag_entries}
use xdr.Tags.Outcomes.{Describes-IsEntry}
use xdr.Tags.Sound.{Outcome, parse_tag_outcomes}
use xdr.Codecs.{Codec, field_codec}
use xdr.Codecs.Making.{HasCodecs, trim-IsEntry}
use xdr.Codecs.MakeStruct.{
  switch_kind_of, make_union, plain_made, cons_plain, Found, found, no_first, bad_first,
  search_field, first_field, make_found, struct_of, name_of, make_struct,
}
use xdr.Codecs.StructMaking.{
  IsMakeable, Answers, tag_entries-IsEntry, struct_fields-Answers, make_union-Answers,
}

module _ (env : TypeEnv) (get_codec : GoType → Tag → Option Codec) where
  -- What the search ends with: `isUnion` is settled, and a switch comes first in a union.
  Settled : Found → Type 0
  Settled (found maybe_in_union i name t tag fs) = ⊥
  Settled (found not_in_union i name t tag fs) =
      ((es : List Entry) × (tag ≡ tag_bytes es) × All IsEntry es)
      × HasCodecs get_codec t
      × IsMakeable get_codec fs
  Settled (found in_union i name t tag fs) =
      ((es : List Entry) × (tag ≡ tag_bytes (flag Tags.union_switch ∷ es)) × All IsEntry es)
      × (valid_for_union_switch (kind env t) ≡ true)
      × HasCodecs get_codec t
      × IsMakeable get_codec fs
  Settled no_first = Unit
  Settled (bad_first e) = Unit

  search-Settled :
      (i : ℕ) (name : Text) (t : GoType) (fs : StructFields) (v : IsInUnion) (o : Option Parsed)
      (rest : Option Found)
      → Outcome env t maybe_in_union (v, o)
      → HasCodecs get_codec t
      → IsMakeable get_codec fs
      → ((r : Found) × (rest ≡ some r) × Settled r)
      → (r : Found) × (search_field env get_codec i name t fs (v, o) rest ≡ some r) × Settled r
  unfolding Settled
  search-Settled i name t fs v o rest (inl (err, p)) gets h k = (bad_first err, rw p refl, tt)
  search-Settled i name t fs v o rest (inr (inl (p, q))) gets h (r, e, g) =
      (r, rw (p, q) (unfold Tags.kind in e), g)
  search-Settled i name t fs v o rest (inr (inr (no_lead, ls, p, d, l))) gets h k = (
    found not_in_union i name t (tag_bytes (tag_entries no_lead ls)) fs,
    rw (p, l) refl,
    (
      (tag_entries no_lead ls, refl, tag_entries-IsEntry env t no_lead maybe_in_union v ls l d),
      gets,
      h,
    ),
  )
  search-Settled i name t fs v o rest (inr (inr (lead_switch, ls, p, d, l))) gets h k = (
    found in_union i name t (tag_bytes (tag_entries lead_switch ls)) fs,
    rw (p, l.0) refl,
    ((trim (layer_entries ls), refl, trim-IsEntry _ (Describes-IsEntry env ls t d)), l.1, gets, h),
  )
  search-Settled i name t fs v o rest (inr (inr (lead_default, ls, p, d, l))) gets h k = absurd l
  search-Settled i name t fs v o rest (inr (inr (lead_cases vs, ls, p, d, l))) gets h k = absurd l

  first_field-Settled :
      (fs : StructFields) (i : ℕ)
      → IsMakeable get_codec fs
      → (r : Found) × (first_field env get_codec i fs ≡ some r) × Settled r
  unfolding first_field
  first_field-Settled no_fields i h = (no_first, refl, unfold Settled in tt)
  first_field-Settled (struct_field name t s fs) i h =
      search-Settled i name t fs (parse_tag env maybe_in_union t s).0
        (parse_tag env maybe_in_union t s).1 _ (parse_tag_outcomes env maybe_in_union t s h.0.0)
        h.0.1 h.1 (first_field-Settled fs (suc i) h.1)

  -- A union switch comes first, of a kind that `ParseTag` accepts and `makeStructCodec` does not.
  abbrev pub HasBadSwitch : StructFields → Type 0
  HasBadSwitch fs =
      (i : ℕ) × (name : Text) × (t : GoType) × (tag : Tag) × (back : StructFields) × (first_field
          env get_codec 0 fs
        ≡ some (found in_union i name t tag back))
      × (valid_for_union_switch (kind env t) ≡ true)
      × (switch_kind_of (kind env t) ≡ none)

  make_union-none :
      (name : Text) (i : ℕ) (sw_name : Text) (t : GoType) (tag : Tag) (fs : StructFields)
      → switch_kind_of (kind env t) ≡ none
      → make_union env get_codec name i sw_name t tag fs ≡ none
  unfolding make_union
  make_union-none name i sw_name t tag fs p =
      elim (Bool-cases (Tags.kind tag == Tags.union_switch)) [
        | inl q ↦ rw (q, p) refl
        | inr q ↦ rw q refl
      ]

  some-none : (c : Codec) → ◌≡◌ {A = Option Codec} (some c) none → ⊥
  some-none c e = cc

  made_or_bad :
      (fs : StructFields) (name : Text) (r : Found)
      → first_field env get_codec 0 fs ≡ some r
      → Settled r
      → Answers (make_found env get_codec name r) ⊎ HasBadSwitch fs
  unfolding Settled
  made_or_bad fs name (found maybe_in_union i f t tag back) e g = absurd g
  made_or_bad fs name (found not_in_union i f t tag back) e ((es, p, all), gets, h) =
      let (c, q) = gets es all in
      let (more, r) = struct_fields-Answers env get_codec back (suc i) not_in_union h in
      inl (plain_made name (cons_plain (field_codec i f c) more), rw (p, q, r) refl)
  made_or_bad fs name (found in_union i f t tag back) e ((es, p, all), v, gets, h) =
      elim (Option-cases (switch_kind_of (kind env t))) [
        | inl q ↦ inr (i, f, t, tag, back, e, v, q)
        | inr (sk, q) ↦
            inl (rw p (make_union-Answers env get_codec name i f t es back sk all gets h q))
      ]
  made_or_bad fs name no_first e g = inl (_, refl)
  made_or_bad fs name (bad_first err) e g = inl (_, refl)

  -- Let no struct tag have 2 ^ 32 bytes or more, and let the coder have a codec for the type of each
  -- field with each tag that is made of entries, so that no call of it panics. Then `makeStructCodec`
  -- panics on the struct type exactly where the first field that is not skipped is a union switch of a
  -- kind that `ParseTag` accepts as one, but which is no bool, int32 or uint32.
  pub make_struct_panics :
      (t : GoType) (fs : StructFields)
      → underlying env t ≡ struct fs
      → IsMakeable get_codec fs
      → (make_struct env get_codec t ≡ none) ↔ HasBadSwitch fs
  unfolding make_struct
  make_struct_panics t fs p h = (panics, made)
    where
      panics : struct_of env get_codec (name_of env t) (underlying env t) ≡ none → HasBadSwitch fs
      panics e =
          let (r, q, g) = first_field-Settled fs 0 h in
          elim (made_or_bad fs (name_of env t) r q g) [
            | inl (c, m) ↦ absurd (some-none c (rw (p, q, m) at e))
            | inr bad ↦ bad
          ]

      made : HasBadSwitch fs → struct_of env get_codec (name_of env t) (underlying env t) ≡ none
      made (i, name, sw, tag, back, e, v, q) =
          rw (p, e) (make_union-none (name_of env t) i name sw tag back q)
