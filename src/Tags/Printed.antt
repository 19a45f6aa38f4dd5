-- ===== src/Tags/Printed.antt =====
-- internal/tags/tags.go: `String` of a tag is the text of its entries.
use xdr.Prelude.{
  ℕ, zero, suc, ◌≤◌, ◌≡◌, refl, ap, ap₂, false, ◌∙◌, Option, some, List, [], ◌∷◌, ◌++◌,
  append_assoc, append-nil, length, All, Text, codes, map, arith,
}
use xdr.Tags.{Tag, values, next, empty}
use xdr.Tags.Entries.{Entry, flag, single, multi, IsEntry, entry_kind, entry_values, tag_bytes}
use xdr.Tags.Accessors.{accessors_first_entry}
use xdr.Tags.Trim.{length-le-tag_bytes}
use xdr.Tags.Text.{
  hex_byte, hex_word, value_texts, values_text, first_text, string_from, string, with_next,
}

-- Texts with a separator between them.
unfoldable pub separated : Text → List Text → Text
separated sep [] = []
separated sep (s ∷ []) = s
separated sep (s ∷ t ∷ ss) = s ++ (sep ++ separated sep (t ∷ ss))

abbrev in_parentheses : List Text → Text
in_parentheses [] = []
in_parentheses (s ∷ ss) = codes "(" ++ (separated (codes ", ") (s ∷ ss) ++ codes ")")

-- The kind in brackets, and the values in parentheses if there are any.
abbrev pub entry_text : Entry → Text
entry_text e =
    codes "["
    ++ (hex_byte (entry_kind e) ++ (codes "]" ++ in_parentheses (map hex_word (entry_values e))))

abbrev pub entries_text : List Entry → Text
entries_text [] = codes "Noop<empty>"
entries_text (e ∷ es) = separated (codes ";") (map entry_text (e ∷ es))

value_texts-separated :
    (pfx : Text) (v : ℕ) (vs : List ℕ)
    → value_texts pfx (v ∷ vs) ≡ pfx ++ separated (codes ", ") (map hex_word (v ∷ vs))
unfolding value_texts separated
value_texts-separated pfx v [] = ap (λ z. pfx ++ z) (append-nil (hex_word v))
value_texts-separated pfx v (w ∷ vs) =
    ap (λ z. pfx ++ (hex_word v ++ z)) (value_texts-separated (codes ", ") w vs)

values_text_lem : (vs : List ℕ) → values_text vs ≡ in_parentheses (map hex_word vs)
unfolding value_texts separated
values_text_lem [] = refl
values_text_lem (v ∷ vs) =
    ap (λ z. z ++ codes ")") (value_texts-separated (codes "(") v vs)
    ∙ append_assoc (codes "(") (separated (codes ", ") (map hex_word (v ∷ vs))) (codes ")")

string_from_lem :
    (fuel : ℕ) (t nt : Tag) (vs : List ℕ)
    → empty t ≡ false
    → values t ≡ some vs
    → next t ≡ some nt
    → string_from (suc fuel) t ≡ with_next (first_text t vs) nt (string_from fuel nt)
unfolding string_from
string_from_lem fuel [] nt vs e p q = cc
string_from_lem fuel (b ∷ bs) nt vs e p q = rw (p, q) refl

not_empty : (e : Entry) (es : List Entry) → empty (tag_bytes (e ∷ es)) ≡ false
not_empty (flag k) es = refl
not_empty (single k v) es = refl
not_empty (multi k vs) es = refl

first_text_lem :
    (e : Entry) (es : List Entry)
    → IsEntry e
    → first_text (tag_bytes (e ∷ es)) (entry_values e) ≡ entry_text e
first_text_lem e es h =
    ap₂ (λ k z. codes "[" ++ (hex_byte k ++ (codes "]" ++ z))) (accessors_first_entry e es h).0
      (values_text_lem (entry_values e))

with_next_lem :
    (e : Entry) (es : List Entry) (r : Option Text)
    → r ≡ some (entries_text es)
    → with_next (entry_text e) (tag_bytes es) r ≡ some (entries_text (e ∷ es))
unfolding separated
with_next_lem e [] r h = refl
with_next_lem e (d ∷ ds) r h = rw (not_empty d ds, h) refl

string_from-entries :
    (fuel : ℕ) (es : List Entry)
    → length es ≤ fuel
    → All IsEntry es
    → string_from fuel (tag_bytes es) ≡ some (entries_text es)
string_from-entries fuel [] h i = unfold string_from in refl
string_from-entries zero (e ∷ es) h i = absurd (omega arith)
string_from-entries (suc fuel) (e ∷ es) h i =
    let (k, n, v, o) = accessors_first_entry e es i.0 in
    string_from_lem fuel _ (tag_bytes es) (entry_values e) (not_empty e es) v n
    ∙ ap (λ z. with_next z (tag_bytes es) (string_from fuel (tag_bytes es)))
        (first_text_lem e es i.0)
    ∙ with_next_lem e es _ (string_from-entries fuel es (omega arith) i.1)

-- `String` of a tag made of entries does not panic and ends: it is the text of the entries, each of
-- which has its kind in brackets and its values in parentheses, with semicolons between them.
pub string-entries :
    (es : List Entry) → All IsEntry es → string (tag_bytes es) ≡ some (entries_text es)
unfolding string
string-entries es h = string_from-entries (length (tag_bytes es)) es (length-le-tag_bytes es) h
