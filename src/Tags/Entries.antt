-- ===== src/Tags/Entries.antt =====
-- internal/tags/tags.go: a tag as the list of its entries, which is what its bytes stand for.
use xdr.Prelude.{ℕ, ◌≤◌, ◌<◌, ◌^◌, List, [], ◌∷◌, ◌++◌, length, All}
use xdr.Encoder.Wire.{big_endian}

-- A flag, a parameter with a value, or one with any number of values.
pub data Entry : Type 0 where
  flag : ℕ → Entry
  single : ℕ → ℕ → Entry
  multi : ℕ → List ℕ → Entry

abbrev pub IsWord : ℕ → Type 0
IsWord v = v < 2 ^ 32

-- The two top bits of the kind say which of the three it is.
abbrev pub IsEntry : Entry → Type 0
IsEntry (flag k) = k < 0x80
IsEntry (single k v) = (0x80 ≤ k) × (k < 0xC0) × IsWord v
IsEntry (multi k vs) = (0xC0 ≤ k) × (k < 0x100) × IsWord (length vs) × All IsWord vs

abbrev pub words : List ℕ → List ℕ
words [] = []
words (v ∷ vs) = big_endian 4 v ++ words vs

abbrev pub entry_kind : Entry → ℕ
entry_kind (flag k) = k
entry_kind (single k v) = k
entry_kind (multi k vs) = k

abbrev pub entry_values : Entry → List ℕ
entry_values (flag k) = []
entry_values (single k v) = v ∷ []
entry_values (multi k vs) = vs

abbrev pub entry_bytes : Entry → List ℕ
entry_bytes (flag k) = k ∷ []
entry_bytes (single k v) = k ∷ big_endian 4 v
entry_bytes (multi k vs) = k ∷ (big_endian 4 (length vs) ++ words vs)

abbrev pub tag_bytes : List Entry → List ℕ
tag_bytes [] = []
tag_bytes (e ∷ es) = entry_bytes e ++ tag_bytes es
