-- ===== src/Tags/Outcomes.antt =====
-- internal/tags/tags.go: all outcomes of `ParseTag`.
use xdr.Prelude.{
  ◌≡◌, ◌⊎◌, inl, inr, refl, sym, ◌∙◌, ap, subst, Option, some, List, [], ◌∷◌, ◌++◌, append_assoc,
  append-nil, All, All-append, Text, codes, Option-cases,
}
use xdr.Prelude.Texts.{trim_space}
use xdr.Errors.{Err, plain}
use xdr.Types.{GoType, TypeEnv, kind}
use xdr.Tags.{◌>>=◌}
use xdr.Tags.Entries.{Entry, IsEntry, tag_bytes}
use xdr.Tags.Trim.{trim, trimmed_lem}
use xdr.Tags.Parse.{Parsed, parsed, unparsed, elem, Layered, descend, parse_layers}
use xdr.Tags.Layers.{Layer, layer_entry, layer_entries, Describes}
use xdr.Tags.Parsing.{Steps, parse_layer-Steps, layer_entry-IsEntry, elem-Inside}

-- An error, or the entries of layers that describe the type, behind those that are there.
abbrev pub Layers : TypeEnv → GoType → List Entry → Option Parsed → Type 0
Layers env t es o =
    ((err : Err) × (o ≡ some (unparsed err)))
    ⊎ ((ls : List Layer) × (o ≡ some (parsed (tag_bytes (trim (es ++ layer_entries ls)))))
        × Describes env ls t)

layer_entries-append :
    (ls ms : List Layer) → layer_entries (ls ++ ms) ≡ layer_entries ls ++ layer_entries ms
layer_entries-append [] ms = refl
layer_entries-append (l ∷ ls) ms = ap (λ t. layer_entry l ∷ t) (layer_entries-append ls ms)

module _ (env : TypeEnv) where
  pub Describes-IsEntry :
      (ls : List Layer) (t : GoType) → Describes env ls t → All IsEntry (layer_entries ls)
  Describes-IsEntry [] t d = tt
  Describes-IsEntry (l ∷ []) t d = (layer_entry-IsEntry (kind env t) l d.0, tt)
  Describes-IsEntry (l ∷ m ∷ ls) t (s, (e, p, d)) =
      (layer_entry-IsEntry (kind env t) l s, Describes-IsEntry (m ∷ ls) e d)

  pub parse_layers-nil :
      (t : GoType) (es : List Entry)
      → All IsEntry es
      → parse_layers env t (tag_bytes es) [] ≡ some (parsed (tag_bytes (trim es)))
  unfolding parse_layers
  parse_layers-nil t es h = rw (trimmed_lem es h) refl

  add_layers :
      (es : List Entry) (ls ms : List Layer)
      → (es ++ layer_entries ls) ++ layer_entries ms ≡ es ++ layer_entries (ls ++ ms)
  add_layers es ls ms =
      append_assoc es (layer_entries ls) (layer_entries ms)
      ∙ ap (λ x. es ++ x) (sym (layer_entries-append ls ms))

  last_part :
      (t : GoType) (es : List Entry) (o : Option Layered)
      → All IsEntry es
      → Steps env t es o
      → Layers env t es (o >>= descend env [] (λ more inner. parse_layers env inner more []))
  last_part t es o h (inl (err, p)) = inl (err, rw p refl)
  last_part t es o h (inr (ls, u, p, all, reaches)) = inr (
    ls,
    rw p (parse_layers-nil u (es ++ layer_entries ls) (All-append IsEntry es _ h all)),
    subst (λ x. Describes env x t) (append-nil ls) (reaches [] tt),
  )

  next_part :
      (t : GoType) (es : List Entry) (o : Option Layered) (q : Text) (qs : List Text)
      → All IsEntry es
      → Steps env t es o
      → ((u : GoType) (ds : List Entry)
          → All IsEntry ds
          → Layers env u ds (parse_layers env u (tag_bytes ds) (q ∷ qs)))
      → Layers env t es
          (o >>= descend env (q ∷ qs) (λ more inner. parse_layers env inner more (q ∷ qs)))
  next_part t es o q qs h (inl (err, p)) ih = inl (err, rw p refl)
  next_part t es o q qs h (inr (ls, u, p, all, reaches)) ih = elim (Option-cases (elem env u)) [
    | inl r ↦ inl (plain (codes "Trailing tags"), rw (p, r) refl)
    | inr (e, r) ↦ go e r (ih e (es ++ layer_entries ls) (All-append IsEntry es _ h all))
  ]
    where
      go :
          (e : GoType)
          → elem env u ≡ some e
          → Layers env e
              (es ++ layer_entries ls)
              (parse_layers env e (tag_bytes (es ++ layer_entries ls)) (q ∷ qs))
          → Layers env t es
              (o >>= descend env (q ∷ qs) (λ more inner. parse_layers env inner more (q ∷ qs)))
      go e r (inl (err, s)) = inl (err, rw (p, r) s)
      go e r (inr (ms, s, d)) = inr (
        ls ++ ms,
        rw (p, r) (s ∙ ap (λ x. some (parsed (tag_bytes (trim x)))) (add_layers es ls ms)),
        reaches ms (elem-Inside env ms u e r d),
      )

  pub parse_layers-Layers :
      (ps : List Text) (t : GoType) (es : List Entry)
      → All IsEntry es
      → Layers env t es (parse_layers env t (tag_bytes es) ps)
  unfolding parse_layers
  parse_layers-Layers [] t es h = inr (
    [],
    parse_layers-nil t es h ∙ ap (λ x. some (parsed (tag_bytes (trim x)))) (sym (append-nil es)),
    tt,
  )
  parse_layers-Layers (p ∷ []) t es h =
      last_part t es _ h (parse_layer-Steps env t es (trim_space p))
  parse_layers-Layers (p ∷ q ∷ ps) t es h =
      next_part t es _ q ps h (parse_layer-Steps env t es (trim_space p))
        (parse_layers-Layers (q ∷ ps))
