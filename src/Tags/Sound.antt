-- ===== src/Tags/Sound.antt =====
-- internal/tags/tags.go: all outcomes of `ParseTag`, and what it does with `isUnion`.
use xdr.Prelude.{
  ℕ, suc, ◌+◌, ◌<◌, ◌^◌, ◌≡◌, ◌⊎◌, inl, inr, refl, ap, true, Option, none, some, List, [], ◌∷◌,
  length, All, arith, Text, codes, text_eq, Bool-cases, Option-cases,
}
use xdr.Prelude.Texts.{trim_space, after_prefix, split}
use xdr.Prelude.Texts.Numbers.{
  parse_uint32-bound, length-split-snd, length-split-fst, length-trim_space, length-after_prefix,
}
use xdr.Errors.{Err}
use xdr.Types.{GoType, TypeEnv, kind}
use xdr.Tags as Tags
use xdr.Tags.{Tag, ◌>>=◌, append}
use xdr.Tags.Entries.{Entry, flag, multi, IsEntry, IsWord, entry_kind, entry_values, tag_bytes}
use xdr.Tags.Accessors.{append_entry}
use xdr.Tags.Parse.{
  Parsed, parsed, unparsed, IsInUnion, maybe_in_union, not_in_union, in_union, skip_tag,
  valid_for_union_switch, parse_u32, parse_each, parse_u32s, behind, not_legal, switch_part,
  cases_part, arm_part, plain_part, first_part, parse_tag,
}
use xdr.Tags.Layers.{
  Layer, Leading, no_lead, lead_switch, lead_default, lead_cases, Leads, tag_entries, Describes,
}
use xdr.Tags.Outcomes.{Layers, parse_layers-Layers}

-- An error; a skipped field; or a union tag in front of layers that describe the type.
abbrev pub Outcome : TypeEnv → GoType → IsInUnion → IsInUnion × Option Parsed → Type 0
Outcome env t u (v, o) =
    ((err : Err) × (o ≡ some (unparsed err)))
    ⊎ ((o ≡ some (parsed skip_tag)) × (v ≡ u))
    ⊎ ((lead : Leading) × (ls : List Layer) × (o ≡ some (parsed (tag_bytes (tag_entries lead ls))))
        × Describes env ls t
        × Leads (kind env t) lead u v)

parse_each-length : (ss : List Text) (vs : List ℕ) → parse_each ss ≡ some vs → length vs ≡ length ss
parse_each-length [] vs e = cc
parse_each-length (s ∷ ss) vs e = elim (Option-cases (parse_u32 s)) [
  | inl p ↦ absurd (cc (rw p at e))
  | inr (n, p) ↦ elim (Option-cases (parse_each ss)) [
    | inl q ↦ absurd (cc (rw (p, q) at e))
    | inr (ns, q) ↦
        let same : n ∷ ns ≡ vs = cc (rw (p, q) at e) in
        rw (← same) (ap suc (parse_each-length ss ns q))
  ]
]

parse_each-IsWord : (ss : List Text) (vs : List ℕ) → parse_each ss ≡ some vs → All IsWord vs
parse_each-IsWord [] vs e = let same : [] ≡ vs = cc in rw (← same) tt
parse_each-IsWord (s ∷ ss) vs e = elim (Option-cases (parse_u32 s)) [
  | inl p ↦ absurd (cc (rw p at e))
  | inr (n, p) ↦ elim (Option-cases (parse_each ss)) [
    | inl q ↦ absurd (cc (rw (p, q) at e))
    | inr (ns, q) ↦
        let same : n ∷ ns ≡ vs = cc (rw (p, q) at e) in
        rw (← same) (parse_uint32-bound s n p, parse_each-IsWord ss ns q)
  ]
]

parse_u32s-words :
    (s : Text) (vs : List ℕ)
    → length s + 1 < 2 ^ 32
    → parse_u32s s ≡ some vs
    → All IsWord vs × (0 < length vs) × (length vs < 2 ^ 32)
unfolding parse_u32s
parse_u32s-words s vs h e =
    let n = parse_each-length ((split b',' s).0 ∷ (split b',' s).1) vs e in
    (
      parse_each-IsWord ((split b',' s).0 ∷ (split b',' s).1) vs e,
      omega arith,
      omega (arith, length-split-snd b',' s),
    )

module _ (env : TypeEnv) where
  error-Outcome : (t : GoType) (u v : IsInUnion) → Outcome env t u (v, not_legal env)
  error-Outcome t u v = inl (_, refl)

  plain-Outcome :
      (t : GoType) (u v : IsInUnion) (o : Option Parsed)
      → Leads (kind env t) no_lead u v
      → Layers env t [] o
      → Outcome env t u (v, o)
  plain-Outcome t u v o h (inl (err, p)) = inl (err, p)
  plain-Outcome t u v o h (inr (ls, p, d)) = inr (inr (no_lead, ls, p, d, h))

  -- Behind an entry in front.
  behind-Layers :
      (t : GoType) (ps : List Text) (e : Entry)
      → IsEntry e
      → Layers env t (e ∷ []) (behind env t ps (append [] (entry_kind e) (entry_values e)))
  behind-Layers t ps e h =
      rw ((append_entry [] e h).0) (parse_layers-Layers env ps t (e ∷ []) (h, tt))

  switch-Outcome :
      (u : IsInUnion) (t : GoType) (ps : List Text) → Outcome env t u (switch_part env u t ps)
  switch-Outcome maybe_in_union t ps = elim (Bool-cases (valid_for_union_switch (kind env t))) [
    | inr p ↦ rw p (error-Outcome t maybe_in_union maybe_in_union)
    | inl p ↦ rw p (go p (behind-Layers t ps (flag Tags.union_switch) (omega arith)))
  ]
    where
      go :
          {o : Option Parsed}
          → valid_for_union_switch (kind env t) ≡ true
          → Layers env t (flag Tags.union_switch ∷ []) o
          → Outcome env t maybe_in_union (in_union, o)
      go v (inl (err, p)) = inl (err, p)
      go v (inr (ls, p, d)) = inr (inr (lead_switch, ls, p, d, (refl, v)))
  switch-Outcome not_in_union t ps = error-Outcome t not_in_union not_in_union
  switch-Outcome in_union t ps = error-Outcome t in_union in_union

  default-Outcome :
      (t : GoType) (o : Option Parsed)
      → Layers env t (flag Tags.union_default ∷ []) o
      → Outcome env t in_union (in_union, o)
  default-Outcome t o (inl (err, p)) = inl (err, p)
  default-Outcome t o (inr (ls, p, d)) = inr (inr (lead_default, ls, p, d, refl))

  cases-Outcome :
      (t : GoType) (ps : List Text) (vs : List ℕ)
      → All IsWord vs × (0 < length vs) × (length vs < 2 ^ 32)
      → Outcome env t in_union (in_union, behind env t ps (append [] Tags.union_cases vs))
  cases-Outcome t ps vs h =
      go (behind-Layers t ps (multi Tags.union_cases vs) (omega arith, omega arith, h.2, h.0))
    where
      go :
          {o : Option Parsed}
          → Layers env t (multi Tags.union_cases vs ∷ []) o
          → Outcome env t in_union (in_union, o)
      go (inl (err, p)) = inl (err, p)
      go (inr (ls, p, d)) = inr (inr (lead_cases vs, ls, p, d, (refl, h.0, h.1, h.2)))

  cases_part-Outcome :
      (t : GoType) (ps : List Text) (o : Option (List ℕ))
      → ((vs : List ℕ) → o ≡ some vs → All IsWord vs × (0 < length vs) × (length vs < 2 ^ 32))
      → Outcome env t in_union (in_union, cases_part env t ps o)
  cases_part-Outcome t ps none h = error-Outcome t in_union in_union
  cases_part-Outcome t ps (some vs) h = cases-Outcome t ps vs (h vs refl)

  arm-Outcome :
      (u : IsInUnion) (t : GoType) (p values : Text) (ps : List Text)
      → length values + 1 < 2 ^ 32
      → Outcome env t u (arm_part env u t p values ps)
  arm-Outcome in_union t p values ps h = elim (Bool-cases (text_eq p (codes "union:false"))) [
    | inl a ↦ rw a (cases-Outcome t ps (0 ∷ []) ((omega arith, tt), omega arith, omega arith))
    | inr a ↦ elim (Bool-cases (text_eq p (codes "union:true"))) [
      | inl b ↦
          rw (a, b) (cases-Outcome t ps (1 ∷ []) ((omega arith, tt), omega arith, omega arith))
      | inr b ↦ elim (Bool-cases (text_eq p (codes "union:default"))) [
        | inl c ↦
            rw (a, b, c)
              (default-Outcome t _ (behind-Layers t ps (flag Tags.union_default) (omega arith)))
        | inr c ↦
            rw (a, b, c)
              (cases_part-Outcome t ps (parse_u32s values) (λ vs e. parse_u32s-words values vs h e))
      ]
    ]
  ]
  arm-Outcome maybe_in_union t p values ps h = error-Outcome t maybe_in_union maybe_in_union
  arm-Outcome not_in_union t p values ps h = error-Outcome t not_in_union not_in_union

  plain_part-Outcome :
      (u : IsInUnion) (t : GoType) (ps : List Text) → Outcome env t u (plain_part env u t ps)
  plain_part-Outcome in_union t ps = error-Outcome t in_union in_union
  plain_part-Outcome maybe_in_union t ps =
      plain-Outcome t maybe_in_union not_in_union _ refl (parse_layers-Layers env ps t [] tt)
  plain_part-Outcome not_in_union t ps =
      plain-Outcome t not_in_union not_in_union _ refl (parse_layers-Layers env ps t [] tt)

  first-Outcome :
      (u : IsInUnion) (t : GoType) (p : Text) (ps : List Text) (o : Option Text)
      → ((values : Text) → o ≡ some values → length values + 1 < 2 ^ 32)
      → Outcome env t u (first_part env u t p ps o)
  first-Outcome u t p ps none h = plain_part-Outcome u t (p ∷ ps)
  first-Outcome u t p ps (some values) h = elim (Bool-cases (text_eq p (codes "union:switch"))) [
    | inl a ↦ rw a (switch-Outcome u t ps)
    | inr a ↦ rw a (arm-Outcome u t p values ps (h values refl))
  ]

  -- For a text of fewer than 2 ^ 32 bytes, `ParseTag` never panics. Its result is an error; or the skip
  -- tag, with `isUnion` unchanged; or the bytes of a union tag, if any, and of layers that describe
  -- the type from outside in, trimmed, where the union tag is one that may stand there and `isUnion`
  -- becomes what it says: a switch only where nothing is known yet, an arm only inside a union.
  pub parse_tag_outcomes :
      (u : IsInUnion) (t : GoType) (s : Text)
      → length s < 2 ^ 32
      → Outcome env t u (parse_tag env u t s)
  unfolding parse_tag
  parse_tag_outcomes u t s h = elim (Bool-cases (text_eq (trim_space s) (codes "-"))) [
    | inl a ↦ rw a (inr (inl (refl, refl)))
    | inr a ↦ rw a (
        first-Outcome u t (split b'/' (trim_space s)).0 (split b'/' (trim_space s)).1
          (after_prefix (codes "union:") (split b'/' (trim_space s)).0)
          (λ values e. omega (
            arith,
            length-after_prefix (codes "union:") (split b'/' (trim_space s)).0 values e,
            length-split-fst b'/' (trim_space s),
            length-trim_space s,
          )))
  ]
