-- ===== src/Tags/Text.antt =====
-- internal/tags/tags.go, `String`, which is for debugging and for the texts of errors.
use xdr.Prelude.Texts.{hex_digit}
use xdr.Prelude.{
  ℕ, zero, suc, ◌/◌, ◌%◌, Option, none, some, List, [], ◌∷◌, ◌++◌, ltb, if◌then◌else◌, length, Text,
  codes,
}
use xdr.Tags.{Tag, empty, kind, values, next, ◌>>=◌}

-- `%x` of a byte.
abbrev pub hex_byte : ℕ → Text
hex_byte k = if ltb k 16 then hex_digit k ∷ [] else hex_digit (k / 16) ∷ hex_digit (k % 16) ∷ []

-- The last hexadecimal digits of a number.
unfoldable pub hex_last : ℕ → ℕ → Text
hex_last zero v = []
hex_last (suc n) v = hex_last n (v / 16) ++ (hex_digit (v % 16) ∷ [])

-- `%08x` of a 32-bit number.
unfoldable pub hex_word : ℕ → Text
unfolding hex_last
hex_word v = hex_last 8 v

-- The loop over the values, each behind `pfx`.
unfoldable pub value_texts : Text → List ℕ → Text
value_texts pfx [] = []
value_texts pfx (v ∷ vs) = pfx ++ (hex_word v ++ value_texts (codes ", ") vs)

abbrev pub values_text : List ℕ → Text
values_text [] = []
values_text (v ∷ vs) = value_texts (codes "(") (v ∷ vs) ++ codes ")"

abbrev pub first_text : Tag → List ℕ → Text
first_text t vs = codes "[" ++ (hex_byte (kind t) ++ (codes "]" ++ values_text vs))

-- `if !nt.Empty() { s = fmt.Sprintf("%s;%s", s, nt) }`
abbrev pub with_next : Text → Tag → Option Text → Option Text
with_next s nt rest = if empty nt then some s else (rest >>= λ r. some (s ++ (codes ";" ++ r)))

unfoldable pub string_from : ℕ → Tag → Option Text
string_from fuel [] = some (codes "Noop<empty>")
string_from zero (b ∷ bs) = none
string_from (suc fuel) (b ∷ bs) = do
  vs ← values (b ∷ bs)
  nt ← next (b ∷ bs)
  with_next (first_text (b ∷ bs) vs) nt (string_from fuel nt)

-- `String()`. Every entry has a byte at least, so the length of the tag is fuel enough.
unfoldable pub string : Tag → Option Text
unfolding string_from
string t = string_from (length t) t
