-- ===== src/Tags/Complete.antt =====
-- internal/tags/tags.go: `ParseTag` reads back each tag that is written out.
use xdr.Prelude.{
  ℕ, ◌≡◌, ◌≢◌, ◌<◌, ◌^◌, ◌∙◌, ap, sym, refl, true, false, none, some, List, [], ◌∷◌, ◌++◌, All,
  All-append, append_assoc, append-nil, arith, Text, codes, text_eq, length,
}
use xdr.Prelude.Texts.{after_prefix}
use xdr.Prelude.Texts.Parts.{join, IsVisible, split-join, trim_space-visible, join-All}
use xdr.Types.{Kind, GoType, TypeEnv, kind}
use xdr.Tags as Tags
use xdr.Tags.{Tag, ◌>>=◌, append}
use xdr.Tags.Entries.{Entry, flag, multi, IsEntry, IsWord, entry_kind, entry_values, tag_bytes}
use xdr.Tags.Accessors.{append_entry}
use xdr.Tags.Trim.{trim}
use xdr.Tags.Parse.{
  parsed, IsInUnion, maybe_in_union, not_in_union, in_union, parse_layers, behind, first_part,
  parse_parts, parse_tag, valid_for_union_switch,
}
use xdr.Tags.Layers.{
  Layer, unmarked, optional, raw, exactly, at_most, layer_entry, layer_entries, Describes, Leading,
  no_lead, lead_switch, lead_default, lead_cases, Leads, tag_entries,
}
use xdr.Tags.Parsing.{layer_entry-IsEntry}
use xdr.Tags.Outcomes.{parse_layers-nil}
use xdr.Tags.Ink.{
  IsInk-IsVisible, IsPart, parts-IsVisible, parts_no_slash, no_dash, dashless-IsVisible,
  layers-IsPart, decimals-IsPart, parse_u32s-decimals, IsLow, decimals-IsLow, no_letters,
}
use xdr.Tags.Print.{
  print_layer, print_layers, decimals, print_tag, print_layer-IsInk, parse_layer-print,
}

module _ (env : TypeEnv) where
  -- Behind the entries that are there.
  parse_layers-print :
      (ls : List Layer) (t : GoType) (es : List Entry)
      → All IsEntry es
      → Describes env ls t
      → parse_layers env t (tag_bytes es) (print_layers ls)
        ≡ some (parsed (tag_bytes (trim (es ++ layer_entries ls))))
  unfolding parse_layers
  parse_layers-print [] t es h d =
      parse_layers-nil env t es h
      ∙ ap (λ x. some (parsed (tag_bytes (trim x)))) (sym (append-nil es))
  parse_layers-print (l ∷ []) t es h d =
      rw
        (
          trim_space-visible (print_layer l) (IsInk-IsVisible _ (print_layer-IsInk l)),
          parse_layer-print env es l t d.0,
        )
        (parse_layers-nil env t (es ++ layer_entry l ∷ [])
          (All-append IsEntry es _ h (layer_entry-IsEntry (kind env t) l d.0, tt)))
  parse_layers-print (l ∷ m ∷ ls) t es h (s, (e, p, d)) =
      rw
        (
          trim_space-visible (print_layer l) (IsInk-IsVisible _ (print_layer-IsInk l)),
          parse_layer-print env es l t s,
          p,
        )
        (parse_layers-print (m ∷ ls) e (es ++ layer_entry l ∷ [])
            (All-append IsEntry es _ h (layer_entry-IsEntry (kind env t) l s, tt)) d
          ∙ ap (λ x. some (parsed (tag_bytes (trim x))))
              (append_assoc es (layer_entry l ∷ []) (layer_entries (m ∷ ls))))

  behind-print :
      (ls : List Layer) (t : GoType) (e : Entry)
      → IsEntry e
      → Describes env ls t
      → behind env t (print_layers ls) (append [] (entry_kind e) (entry_values e))
        ≡ some (parsed (tag_bytes (trim (e ∷ layer_entries ls))))
  behind-print ls t e h d =
      rw ((append_entry [] e h).0) (parse_layers-print ls t (e ∷ []) (h, tt) d)

module _ (env : TypeEnv) where
  -- The text is cut into the parts again.
  parse_tag-parts :
      (u : IsInUnion) (t : GoType) (p : Text) (ps : List Text)
      → All (λ s. All IsPart s) (p ∷ ps)
      → parse_tag env u t (join b'/' (p ∷ ps)) ≡ parse_parts env u t (p, ps)
  unfolding parse_tag
  parse_tag-parts u t p ps h =
      let all : All (λ c. IsVisible c × (c ≢ b'-')) (join b'/' (p ∷ ps)) =
        join-All (λ c. IsVisible c × (c ≢ b'-')) b'/' (p ∷ ps) (ground arith)
          (parts-IsVisible (p ∷ ps) h) in
      rw
        (
          trim_space-visible (join b'/' (p ∷ ps)) (dashless-IsVisible _ all),
          no_dash _ all,
          split-join b'/' p ps (parts_no_slash (p ∷ ps) h),
        )
        refl

  no_union : (l : Layer) → after_prefix (codes "union:") (print_layer l) ≡ none
  unfolding after_prefix
  no_union unmarked = refl
  no_union optional = refl
  no_union raw = refl
  no_union (exactly n) = refl
  no_union (at_most n) = refl

  plain-print :
      (u : IsInUnion) (t : GoType) (l : Layer) (ls : List Layer)
      → u ≢ in_union
      → Describes env (l ∷ ls) t
      → parse_parts env u t (print_layer l, print_layers ls)
        ≡ (not_in_union, some (parsed (tag_bytes (trim (layer_entries (l ∷ ls))))))
  plain-print u t l ls h d = rw (no_union l) (go u h)
    where
      go :
          (v : IsInUnion)
          → v ≢ in_union
          → first_part env v t (print_layer l) (print_layers ls) none
            ≡ (not_in_union, some (parsed (tag_bytes (trim (layer_entries (l ∷ ls))))))
      go maybe_in_union k = ap (λ o. (not_in_union, o)) (parse_layers-print env (l ∷ ls) t [] tt d)
      go not_in_union k = ap (λ o. (not_in_union, o)) (parse_layers-print env (l ∷ ls) t [] tt d)
      go in_union k = absurd (k refl)

  switch-print :
      (t : GoType) (ls : List Layer)
      → valid_for_union_switch (kind env t) ≡ true
      → Describes env ls t
      → parse_parts env maybe_in_union t (codes "union:switch", print_layers ls)
        ≡ (in_union, some (parsed (tag_bytes (tag_entries lead_switch ls))))
  unfolding after_prefix
  switch-print t ls h d =
      rw h
        (ap (λ o. (in_union, o)) (behind-print env ls t (flag Tags.union_switch) (omega arith) d))

  default-print :
      (t : GoType) (ls : List Layer)
      → Describes env ls t
      → parse_parts env in_union t (codes "union:default", print_layers ls)
        ≡ (in_union, some (parsed (tag_bytes (tag_entries lead_default ls))))
  unfolding after_prefix
  default-print t ls d =
      ap (λ o. (in_union, o)) (behind-print env ls t (flag Tags.union_default) (omega arith) d)

  cases-print :
      (t : GoType) (vs : List ℕ) (ls : List Layer)
      → All IsWord vs
      → 0 < length vs
      → length vs < 2 ^ 32
      → Describes env ls t
      → parse_parts env in_union t (codes "union:" ++ join b',' (decimals vs), print_layers ls)
        ≡ (in_union, some (parsed (tag_bytes (tag_entries (lead_cases vs) ls))))
  unfolding after_prefix
  cases-print t vs ls h k n d =
      let low : All IsLow (join b',' (decimals vs)) =
        join-All IsLow b',' (decimals vs) (omega arith) (decimals-IsLow vs) in
      let other : (c : ℕ) (cs : Text)
          → b'9' < c
          → text_eq (join b',' (decimals vs)) (c ∷ cs) ≡ false =
        λ c cs g. no_letters (join b',' (decimals vs)) c cs g low in
      rw
        (
          other b's' (codes "witch") (omega arith),
          other b'f' (codes "alse") (omega arith),
          other b't' (codes "rue") (omega arith),
          other b'd' (codes "efault") (omega arith),
          parse_u32s-decimals vs h k,
        )
        (ap (λ o. (in_union, o))
          (behind-print env ls t (multi Tags.union_cases vs) (omega arith, omega arith, n, h) d))

  cases_text-IsPart : (vs : List ℕ) → All IsPart (codes "union:" ++ join b',' (decimals vs))
  cases_text-IsPart vs =
      All-append IsPart (codes "union:") (join b',' (decimals vs)) (ground arith)
        (join-All IsPart b',' (decimals vs) (ground arith) (decimals-IsPart vs))

  plain_after : (k : Kind) (u v : IsInUnion) → Leads k no_lead u v → v ≡ not_in_union
  plain_after k maybe_in_union v h = h
  plain_after k not_in_union v h = h
  plain_after k in_union v h = absurd h

  not_in : (k : Kind) (u v : IsInUnion) → Leads k no_lead u v → u ≢ in_union
  not_in k maybe_in_union v h = cc
  not_in k not_in_union v h = cc
  not_in k in_union v h = absurd h

  -- Let layers describe a type, and let a union tag be one that may stand at that type with what is
  -- known of the struct. Then `ParseTag` of the text that is written for them, with the numbers in
  -- decimal, has no error: its result is the bytes of their entries, trimmed, and `isUnion` becomes
  -- what the tag says.
  pub parse_tag-print :
      (lead : Leading) (ls : List Layer) (t : GoType) (u v : IsInUnion)
      → Describes env ls t
      → Leads (kind env t) lead u v
      → parse_tag env u t (print_tag lead ls) ≡ (v, some (parsed (tag_bytes (tag_entries lead ls))))
  unfolding join
  parse_tag-print no_lead [] t u v d h = rw (plain_after (kind env t) u v h) (
      parse_tag-parts u t [] [] (tt, tt)
      ∙ plain-print u t unmarked [] (not_in (kind env t) u v h) (tt, tt))
  parse_tag-print no_lead (l ∷ ls) t u v d h = rw (plain_after (kind env t) u v h) (
      parse_tag-parts u t (print_layer l) (print_layers ls) (layers-IsPart (l ∷ ls))
      ∙ plain-print u t l ls (not_in (kind env t) u v h) d)
  parse_tag-print lead_switch ls t maybe_in_union v d h = rw h.0 (
      parse_tag-parts maybe_in_union t _ _ (ground arith, layers-IsPart ls)
      ∙ switch-print t ls h.1 d)
  parse_tag-print lead_default ls t in_union v d h =
      rw h (parse_tag-parts in_union t _ _ (ground arith, layers-IsPart ls) ∙ default-print t ls d)
  parse_tag-print (lead_cases vs) ls t in_union v d h = rw h.0 (
      parse_tag-parts in_union t _ _ (cases_text-IsPart vs, layers-IsPart ls)
      ∙ cases-print t vs ls h.1 h.2 h.3 d)
  parse_tag-print lead_switch ls t not_in_union v d h = absurd h
  parse_tag-print lead_switch ls t in_union v d h = absurd h
  parse_tag-print lead_default ls t maybe_in_union v d h = absurd h
  parse_tag-print lead_default ls t not_in_union v d h = absurd h
  parse_tag-print (lead_cases vs) ls t maybe_in_union v d h = absurd h
  parse_tag-print (lead_cases vs) ls t not_in_union v d h = absurd h
