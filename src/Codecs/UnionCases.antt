-- ===== src/Codecs/UnionCases.antt =====
-- internal/coder/codec_struct.go: where the cases of a union that `makeStructCodec` makes lead.
use xdr.Prelude.{
  ℕ, zero, suc, ◌+◌, ◌≡◌, ◌⊎◌, inl, inr, refl, ap, subst, Option, none, some, List, [], ◌∷◌, ◌==◌,
  Text, arith, Bool-cases, Option-cases,
}
use mathlib.Core.Option.{some-injective}
use xdr.Types.{GoType, StructFields, no_fields, struct_field, TypeEnv, kind}
use xdr.Tags as Tags
use xdr.Tags.{Tag, ◌>>=◌, next, values}
use xdr.Codecs.{Codec, FieldCodecs, field_codec, no_field, SwitchKind, union_codec}
use xdr.Codecs.Unions.{case_field}
use xdr.Tags.Parse.{Parsed, parsed, unparsed, IsInUnion, in_union, parse_tag}
use xdr.Codecs.MakeStruct.{
  Arms, Made, made, refused, add_arm, cons_field, with_arms, one_field, union_fields, behind_gaps,
  switch_kind_of, union_made, make_union,
}
use xdr.Codecs.UnionArms.{
  none-some, IsField, CasesAre, DefaultIs, ArmsAre, arms_weaken, add_arm-ArmsAre,
}

cons_field_inv :
    (f : FieldCodecs → FieldCodecs) (m : Option Made) (body : FieldCodecs) (arms : Arms)
    → cons_field f m ≡ some (made body arms)
    → (fs : FieldCodecs) × (m ≡ some (made fs arms)) × (f fs ≡ body)
cons_field_inv f none body arms e = absurd (none-some (made body arms) e)
cons_field_inv f (some (made fs a)) body arms e =
    let same : a ≡ arms = cc in (fs, ap (λ x. some (made fs x)) same, cc)
cons_field_inv f (some (refused r)) body arms e = cc

-- Behind the first `i` fields, at a field that is not an empty one.
abbrev Behind : ℕ → FieldCodecs → ℕ → Type 0
Behind i body j = (k : ℕ) × (j ≡ i + k) × IsField k body

-- What the fields that are left add to the arms.
abbrev Adds : ℕ → (Arms → Option Made) → Type 1
Adds i rest =
    (P : ℕ → Type 0) (arms more : Arms) (body : FieldCodecs)
    → ArmsAre P arms
    → rest arms ≡ some (made body more)
    → ArmsAre (λ j. P j ⊎ Behind i body j) more

skipped :
    (P : ℕ → Type 0) (i : ℕ) (body : FieldCodecs) (j : ℕ)
    → P j ⊎ Behind (suc i) body j
    → P j ⊎ Behind i (no_field body) j
skipped P i body j (inl h) = inl h
skipped P i body j (inr (k, e, h)) = inr (suc k, omega arith, h)

taken :
    (P : ℕ → Type 0) (i : ℕ) (name : Text) (c : Codec) (body : FieldCodecs) (j : ℕ)
    → (P j ⊎ (j ≡ i)) ⊎ Behind (suc i) body j
    → P j ⊎ Behind i (field_codec i name c body) j
taken P i name c body j (inl (inl h)) = inl h
taken P i name c body j (inl (inr e)) = inr (0, omega arith, tt)
taken P i name c body j (inr (k, e, h)) = inr (suc k, omega arith, h)

module _ (env : TypeEnv) (get_codec : GoType → Tag → Option Codec) where
  taken-Adds :
      (i : ℕ) (name : Text) (c : Codec) (tag : Tag) (rest : Arms → Option Made) (arms more : Arms)
      (body : FieldCodecs) (o : Option Arms) (P : ℕ → Type 0)
      → Adds (suc i) rest
      → ArmsAre P arms
      → add_arm i tag arms ≡ some o
      → with_arms o (λ a. cons_field (field_codec i name c) (rest a)) ≡ some (made body more)
      → ArmsAre (λ j. P j ⊎ Behind i body j) more
  taken-Adds i name c tag rest arms more body none P ih h g e = cc
  taken-Adds i name c tag rest arms more body (some a) P ih h g e =
      let (fs, m, b) = cons_field_inv (field_codec i name c) (rest a) body more e in
      let wide : ArmsAre (λ j. P j ⊎ (j ≡ i)) arms = arms_weaken P _ arms (λ j q. inl q) h in
      let here : ArmsAre (λ j. P j ⊎ (j ≡ i)) a =
        add_arm-ArmsAre (λ j. P j ⊎ (j ≡ i)) i tag arms a (inr refl) wide g in
      subst (λ x. ArmsAre (λ j. P j ⊎ Behind i x j) more) b
        (arms_weaken _ _ more (taken P i name c fs) (ih (λ j. P j ⊎ (j ≡ i)) a more fs here m))

  one_field-Adds :
      (i : ℕ) (name : Text) (t : GoType) (o : Option Parsed) (rest : Arms → Option Made)
      → Adds (suc i) rest
      → Adds i (λ arms. one_field env get_codec i name t o arms rest)
  one_field-Adds i name t none rest ih P arms more body h e = absurd (none-some (made body more) e)
  one_field-Adds i name t (some (unparsed r)) rest ih P arms more body h e = cc
  one_field-Adds i name t (some (parsed tag)) rest ih P arms more body h e =
      elim (Bool-cases (Tags.kind tag == Tags.skip)) [
        | inl p ↦
            let (fs, m, b) = cons_field_inv no_field (rest arms) body more (rw p at e) in
            subst (λ x. ArmsAre (λ j. P j ⊎ Behind i x j) more) b
              (arms_weaken _ _ more (skipped P i fs) (ih P arms more fs h m))
        | inr p ↦ elim (Option-cases (next tag)) [
          | inl q ↦ absurd (none-some (made body more) (rw (p, q) at e))
          | inr (inner, q) ↦ elim (Option-cases (get_codec t inner)) [
            | inl r ↦ absurd (none-some (made body more) (rw (p, q, r) at e))
            | inr (c, r) ↦ elim (Option-cases (add_arm i tag arms)) [
              | inl s ↦ absurd (none-some (made body more) (rw (p, q, r, s) at e))
              | inr (o, s) ↦
                  taken-Adds i name c tag rest arms more body o P ih h s (rw (p, q, r, s) at e)
            ]
          ]
        ]
      ]

  union_fields-Adds :
      (fs : StructFields) (i : ℕ) (u : IsInUnion) → Adds i (union_fields env get_codec i u fs)
  unfolding union_fields
  union_fields-Adds no_fields i u = λ P arms more body h e.
      let same : arms ≡ more = cc in
      subst (λ x. ArmsAre (λ j. P j ⊎ Behind i body j) x) same
        (arms_weaken P _ arms (λ j q. inl q) h)
  union_fields-Adds (struct_field name t tag fs) i u =
      one_field-Adds i name t (parse_tag env u t tag).1
        (union_fields env get_codec (suc i) (parse_tag env u t tag).0 fs)
        (union_fields-Adds fs (suc i) (parse_tag env u t tag).0)

behind_gaps-IsField :
    (i k : ℕ) (body : FieldCodecs) → IsField k body → IsField (i + k) (behind_gaps i body)
unfolding behind_gaps
behind_gaps-IsField zero k body h =
    let same : k ≡ 0 + k = omega arith in subst (λ n. IsField n body) same h
behind_gaps-IsField (suc i) k body h =
    let same : suc (i + k) ≡ suc i + k = omega arith in
    subst (λ n. IsField n (no_field (behind_gaps i body))) same (behind_gaps-IsField i k body h)

case_field-CasesAre :
    (P : ℕ → Type 0) (cases : List (ℕ × ℕ)) (d : Option ℕ) (n j : ℕ)
    → CasesAre P cases
    → DefaultIs P d
    → case_field cases d n ≡ some j
    → P j
unfolding case_field
case_field-CasesAre P [] d n j h k e = subst (λ x. DefaultIs P x) e k
case_field-CasesAre P ((v, i) ∷ cases) d n j h k e = elim (Bool-cases (v == n)) [
  | inl p ↦ subst P (some-injective i j (rw p at e)) h.0
  | inr p ↦ case_field-CasesAre P cases d n j h.1 k (rw p at e)
]

IsFieldAt : FieldCodecs → ℕ → Type 0
IsFieldAt body j = IsField j body

union_made-IsField :
    (name : Text) (sw_index : ℕ) (sw_name : Text) (sw : Codec) (sk : SwitchKind) (i : ℕ)
    (m : Option Made) {name' : Text} {index : ℕ} {sw_name' : Text} {sw' : Codec}
    {body : FieldCodecs} {cases : List (ℕ × ℕ)} {d : Option ℕ} {sk' : SwitchKind}
    → ((fs : FieldCodecs) (arms : Arms) → m ≡ some (made fs arms) → ArmsAre (Behind i fs) arms)
    → union_made name sw_index sw_name sw sk i m
      ≡ some (union_codec name' index sw_name' sw' body cases d sk')
    → (n j : ℕ) → case_field cases d n ≡ some j
    → IsField j body
union_made-IsField name sw_index sw_name sw sk i none h e n j g = absurd (none-some _ e)
union_made-IsField name sw_index sw_name sw sk i (some (refused r)) h e n j g = cc
union_made-IsField name sw_index sw_name sw sk i (some (made fs arms)) {body = body} {cases = cases}
      {d = d} h e n j g =
    let same_body : behind_gaps i fs ≡ body = cc in
    let same_cases : arms.cases ≡ cases = cc in
    let same_default : arms.default_case ≡ d = cc in
    let all = h fs arms refl in
    let (k, q, f) =
      case_field-CasesAre (Behind i fs) arms.cases arms.default_case n j all.0 all.1
        (rw (same_cases, same_default) g) in
    rw (← same_body, q) (behind_gaps-IsField i k fs f)

-- For a union codec that `makeStructCodec` makes, whatever the tags of the fields say: the field to
-- which a case or the default leads for a switch value is among `bodyFields`, and is not one of the
-- empty ones that stand for the switch and for skipped fields, whose codec is nil.
pub union_cases_lead_to_fields :
    (env : TypeEnv) (get_codec : GoType → Tag → Option Codec) (name : Text) (i : ℕ) (sw_name : Text)
    (t : GoType) (tag : Tag) (fs : StructFields) (sw : Codec) (body : FieldCodecs)
    (cases : List (ℕ × ℕ)) (d : Option ℕ) (sk : SwitchKind) (n j : ℕ)
    → make_union env get_codec name i sw_name t tag fs
      ≡ some (union_codec name i sw_name sw body cases d sk)
    → case_field cases d n ≡ some j
    → IsField j body
unfolding make_union
union_cases_lead_to_fields env get_codec name i sw_name t tag fs sw body cases d sk n j e g =
    elim (Bool-cases (Tags.kind tag == Tags.union_switch)) [
      | inr p ↦ absurd (none-some _ (rw p at e))
      | inl p ↦ elim (Option-cases (switch_kind_of (kind env t))) [
        | inl q ↦ absurd (none-some _ (rw (p, q) at e))
        | inr (sk', q) ↦ elim (Option-cases (next tag)) [
          | inl r ↦ absurd (none-some _ (rw (p, q, r) at e))
          | inr (inner, r) ↦ elim (Option-cases (get_codec t inner)) [
            | inl s ↦ absurd (none-some _ (rw (p, q, r, s) at e))
            | inr (c, s) ↦
                union_made-IsField name i sw_name c sk' (suc i)
                  (union_fields env get_codec (suc i) in_union fs no_arms) arms_of
                  (rw (p, q, r, s) at e) n j g
          ]
        ]
      ]
    ]
  where
    no_arms : Arms
    no_arms = record { cases = []; default_case = none }

    drop_bottom : (b : FieldCodecs) (k : ℕ) → ⊥ ⊎ Behind (suc i) b k → Behind (suc i) b k
    drop_bottom b k (inl h) = absurd h
    drop_bottom b k (inr h) = h

    arms_of :
        (b : FieldCodecs) (arms : Arms)
        → union_fields env get_codec (suc i) in_union fs no_arms ≡ some (made b arms)
        → ArmsAre (Behind (suc i) b) arms
    arms_of b arms h =
        arms_weaken _ _ arms (drop_bottom b)
          (union_fields-Adds env get_codec fs (suc i) in_union (λ k. ⊥) no_arms arms b (tt, tt) h)
