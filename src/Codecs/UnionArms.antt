-- ===== src/Codecs/UnionArms.antt =====
-- internal/coder/codec_struct.go: what a field adds to the cases and the default of a union.
use xdr.Prelude.{
  ℕ, zero, suc, ◌≡◌, inl, inr, refl, subst, Option, none, some, List, [], ◌∷◌, ◌==◌, Bool-cases,
  Option-cases,
}
use mathlib.Core.Option.{some-injective}
use xdr.Tags as Tags
use xdr.Tags.{Tag, ◌>>=◌, next, values}
use xdr.Codecs.{FieldCodecs, field_codec, no_field}
use xdr.Codecs.MakeStruct.{Arms, has_case, add_cases, with_cases, with_default, add_arm}

pub none-some : {A : Type 0} (a : A) → ◌≡◌ {A = Option A} none (some a) → ⊥
none-some a e = cc

-- There is a field at the position, and it is not an empty one.
abbrev pub IsField : ℕ → FieldCodecs → Type 0
IsField k FieldCodecs.no_fields = ⊥
IsField zero (field_codec index name c fs) = Unit
IsField (suc k) (field_codec index name c fs) = IsField k fs
IsField zero (no_field fs) = ⊥
IsField (suc k) (no_field fs) = IsField k fs

abbrev pub DefaultIs : (ℕ → Type 0) → Option ℕ → Type 0
DefaultIs P none = Unit
DefaultIs P (some j) = P j

abbrev pub CasesAre : (ℕ → Type 0) → List (ℕ × ℕ) → Type 0
CasesAre P [] = Unit
CasesAre P ((v, j) ∷ cases) = P j × CasesAre P cases

-- All that the cases and the default lead to.
abbrev pub ArmsAre : (ℕ → Type 0) → Arms → Type 0
ArmsAre P arms = CasesAre P arms.cases × DefaultIs P arms.default_case

cases_weaken :
    (P R : ℕ → Type 0) (cases : List (ℕ × ℕ))
    → ((j : ℕ) → P j → R j)
    → CasesAre P cases
    → CasesAre R cases
cases_weaken P R [] f h = tt
cases_weaken P R ((v, j) ∷ cases) f h = (f j h.0, cases_weaken P R cases f h.1)

default_weaken :
    (P R : ℕ → Type 0) (d : Option ℕ) → ((j : ℕ) → P j → R j) → DefaultIs P d → DefaultIs R d
default_weaken P R none f h = tt
default_weaken P R (some j) f h = f j h

pub arms_weaken :
    (P R : ℕ → Type 0) (arms : Arms) → ((j : ℕ) → P j → R j) → ArmsAre P arms → ArmsAre R arms
arms_weaken P R arms f h =
    (cases_weaken P R arms.cases f h.0, default_weaken P R arms.default_case f h.1)

add_cases-CasesAre :
    (P : ℕ → Type 0) (i : ℕ) (vs : List ℕ) (cases more : List (ℕ × ℕ))
    → P i
    → CasesAre P cases
    → add_cases i vs cases ≡ some more
    → CasesAre P more
unfolding add_cases
add_cases-CasesAre P i [] cases more k h e = subst (λ x. CasesAre P x) (some-injective _ _ e) h
add_cases-CasesAre P i (v ∷ vs) cases more k h e = elim (Bool-cases (has_case v cases)) [
  | inl p ↦ absurd (none-some more (rw p at e))
  | inr p ↦ add_cases-CasesAre P i vs ((v, i) ∷ cases) more k (k, h) (rw p at e)
]

with_cases-ArmsAre :
    (P : ℕ → Type 0) (arms more : Arms) (o : Option (List (ℕ × ℕ)))
    → ((cases : List (ℕ × ℕ)) → o ≡ some cases → CasesAre P cases)
    → ArmsAre P arms
    → with_cases arms o ≡ some more
    → ArmsAre P more
with_cases-ArmsAre P arms more none f h e = absurd (none-some more e)
with_cases-ArmsAre P arms more (some cases) f h e =
    subst (λ x. ArmsAre P x) (some-injective _ _ e) (f cases refl, h.1)

with_default-ArmsAre :
    (P : ℕ → Type 0) (i : ℕ) (arms more : Arms) (d : Option ℕ)
    → P i
    → ArmsAre P arms
    → with_default i arms d ≡ some more
    → ArmsAre P more
with_default-ArmsAre P i arms more none k h e =
    subst (λ x. ArmsAre P x) (some-injective _ _ e) (h.0, k)
with_default-ArmsAre P i arms more (some j) k h e = absurd (none-some more e)

pub add_arm-ArmsAre :
    (P : ℕ → Type 0) (i : ℕ) (tag : Tag) (arms more : Arms)
    → P i
    → ArmsAre P arms
    → add_arm i tag arms ≡ some (some more)
    → ArmsAre P more
unfolding add_arm
add_arm-ArmsAre P i tag arms more k h e = elim (Bool-cases (Tags.kind tag == Tags.union_cases)) [
  | inl p ↦ elim (Option-cases (values tag)) [
    | inl q ↦ absurd (none-some (some more) (rw (p, q) at e))
    | inr (vs, q) ↦
        with_cases-ArmsAre P arms more (add_cases i vs arms.cases)
          (λ cases g. add_cases-CasesAre P i vs arms.cases cases k h.0 g) h
          (some-injective _ _ (rw (p, q) at e))
  ]
  | inr p ↦ elim (Bool-cases (Tags.kind tag == Tags.union_default)) [
    | inl q ↦
        with_default-ArmsAre P i arms more arms.default_case k h
          (some-injective _ _ (rw (p, q) at e))
    | inr q ↦ subst (λ x. ArmsAre P x) (some-injective _ _ (some-injective _ _ (rw (p, q) at e))) h
  ]
]
