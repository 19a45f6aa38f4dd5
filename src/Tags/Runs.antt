-- ===== src/Tags/Runs.antt =====
-- Tags of a few entries.
use xdr.Prelude.{codes}
use xdr.Tags.Text.{string, hex_word, hex_last}
use xdr.Tags.Printed.{string-entries, separated}
use xdr.Prelude.{
  ℕ, ◌≤◌, ◌<◌, ◌≡◌, ◌≢◌, ◌↔◌, ◌⊎◌, refl, none, some, List, [], ◌∷◌, ◌++◌, length, All, arith,
}
use xdr.Tags.{
  kind, next, values, only_value, append, prepend, trimmed, noop, opt, max_len, len, union_cases,
}
use xdr.Tags.Entries.{Entry, flag, single, multi, IsEntry, entry_kind, entry_values, tag_bytes}
use xdr.Tags.Accessors.{accessors_first_entry, append_entry, append_panics}
use xdr.Tags.Trim.{trimmed_lem}
use xdr.Prelude.{map}
use xdr.Tags.Walk.{walk, said, walk_lem}

abbrev bounded : Entry
bounded = single max_len 1000

abbrev cases : Entry
cases = multi union_cases (3 ∷ 0x10000 ∷ [])

-- The tag of an optional pointer to a bounded slice.
abbrev entries : List Entry
entries = flag opt ∷ flag noop ∷ bounded ∷ flag noop ∷ []

bounded-IsEntry : IsEntry bounded
bounded-IsEntry = (omega arith, omega arith, omega arith)

cases-IsEntry : IsEntry cases
cases-IsEntry = (omega arith, omega arith, omega arith, (omega arith, (omega arith, tt)))

entries-IsEntry : All IsEntry entries
entries-IsEntry = (omega arith, (omega arith, (bounded-IsEntry, (omega arith, tt))))

bounded_bytes : append [] max_len (1000 ∷ []) ≡ some (0x87 ∷ 0 ∷ 0 ∷ 3 ∷ 232 ∷ [])
unfolding append
bounded_bytes = refl

trimmed_noops : trimmed (0x02 ∷ 0 ∷ 0x03 ∷ 0 ∷ 0 ∷ []) ≡ some (0x02 ∷ 0 ∷ 0x03 ∷ [])
unfolding trimmed next
trimmed_noops = refl

accessors_first_entry_example :
    (kind (tag_bytes (cases ∷ entries)) ≡ union_cases)
    × (next (tag_bytes (cases ∷ entries)) ≡ some (tag_bytes entries))
    × (values (tag_bytes (cases ∷ entries)) ≡ some (3 ∷ 0x10000 ∷ []))
    × ((k v : ℕ) → cases ≡ single k v → only_value (tag_bytes (cases ∷ entries)) ≡ some v)
accessors_first_entry_example = accessors_first_entry cases entries cases-IsEntry

append_entry_example :
    (append (tag_bytes entries) (entry_kind cases) (entry_values cases)
      ≡ some (tag_bytes (entries ++ cases ∷ [])))
    × (prepend (tag_bytes entries) (entry_kind cases) (entry_values cases)
        ≡ some (tag_bytes (cases ∷ entries)))
append_entry_example = append_entry entries cases cases-IsEntry

append_panics_example :
    (append [] len (1 ∷ 2 ∷ []) ≡ none)
    ↔ ((len < 0x80) × (0 < 2) ⊎ (0x80 ≤ len) × (len < 0xC0) × (length {A = ℕ} (1 ∷ 2 ∷ []) ≢ 1))
append_panics_example = append_panics [] len (1 ∷ 2 ∷ [])

trimmed_lem_example :
    trimmed (tag_bytes entries) ≡ some (tag_bytes (flag opt ∷ flag noop ∷ bounded ∷ []))
trimmed_lem_example = trimmed_lem entries entries-IsEntry

walk_lem_example :
    walk (length (tag_bytes (cases ∷ entries))) (tag_bytes (cases ∷ entries))
    ≡ some (map said (cases ∷ entries))
walk_lem_example = walk_lem (cases ∷ entries) (cases-IsEntry, entries-IsEntry)

string-entries_example :
    string (tag_bytes (cases ∷ entries))
    ≡ some (codes "[c8](00000003, 00010000);[2];[0];[87](000003e8);[0]")
unfolding separated hex_word hex_last
string-entries_example = string-entries (cases ∷ entries) (cases-IsEntry, entries-IsEntry)
