-- ===== src/Tags/Walk.antt =====
-- internal/tags/tags.go: reading a whole tag, entry by entry, by `Empty`, `Kind`, the values and `Next`.
use xdr.Prelude.{
  ℕ, zero, suc, ◌≤◌, ◌≡◌, refl, Option, none, some, List, [], ◌∷◌, length, All, map, arith,
}
use xdr.Tags.{Tag, kind, values, next, ◌>>=◌}
use xdr.Tags.Entries.{Entry, flag, single, multi, IsEntry, tag_bytes, entry_kind, entry_values}
use xdr.Tags.Accessors.{accessors_first_entry}
use xdr.Tags.Trim.{length-le-tag_bytes}

-- The kinds and values of the entries, up to as many as the fuel; `none` is a panic, or no end.
unfoldable pub walk : ℕ → Tag → Option (List (ℕ × List ℕ))
walk fuel [] = some []
walk zero (b ∷ bs) = none
walk (suc fuel) (b ∷ bs) = do
  vs ← values (b ∷ bs)
  nt ← next (b ∷ bs)
  rest ← walk fuel nt
  some ((kind (b ∷ bs), vs) ∷ rest)

-- What an entry says.
abbrev pub said : Entry → ℕ × List ℕ
said e = (entry_kind e, entry_values e)

walk_step :
    (fuel : ℕ) (e : Entry) (es : List Entry) (rest : List (ℕ × List ℕ))
    → IsEntry e
    → walk fuel (tag_bytes es) ≡ some rest
    → walk (suc fuel) (tag_bytes (e ∷ es)) ≡ some (said e ∷ rest)
unfolding walk
walk_step fuel (flag j) es rest h w =
    let (k, n, v, o) = accessors_first_entry (flag j) es h in rw (v, n, w, k) refl
walk_step fuel (single j x) es rest h w =
    let (k, n, v, o) = accessors_first_entry (single j x) es h in rw (v, n, w, k) refl
walk_step fuel (multi j xs) es rest h w =
    let (k, n, v, o) = accessors_first_entry (multi j xs) es h in rw (v, n, w, k) refl

walk_entries :
    (fuel : ℕ) (es : List Entry)
    → length es ≤ fuel
    → All IsEntry es
    → walk fuel (tag_bytes es) ≡ some (map said es)
walk_entries fuel [] h i = unfold walk in refl
walk_entries zero (e ∷ es) h i = absurd (omega arith)
walk_entries (suc fuel) (e ∷ es) h i =
    walk_step fuel e es (map said es) i.0 (walk_entries fuel es (omega arith) i.1)

-- Reading the bytes of a list of entries, entry by entry, by `Kind`, the values and `Next` until the
-- tag is empty gives the kinds and values of just these entries, without a panic and within as many
-- steps as the tag has bytes.
pub walk_lem :
    (es : List Entry)
    → All IsEntry es
    → walk (length (tag_bytes es)) (tag_bytes es) ≡ some (map said es)
walk_lem es h = walk_entries (length (tag_bytes es)) es (length-le-tag_bytes es) h
