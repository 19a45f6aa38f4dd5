-- ===== src/Encoder/Wire.antt =====
-- The wire format of RFC 4506, described independently of the code.
use xdr.Prelude.{ℕ, zero, suc, ◌+◌, ◌-◌, ◌*◌, ◌/◌, ◌%◌, ◌^◌, List, [], ◌∷◌, ◌++◌, length, replicate}

-- The `n` bytes of `x`, the most significant first.
abbrev pub big_endian : ℕ → ℕ → List ℕ
big_endian zero x = []
big_endian (suc n) x = (x / 2 ^ (8 * n) % 256) ∷ big_endian n x

-- The zero bytes that fill up a run of `n` bytes to a multiple of four.
abbrev pub residual : ℕ → ℕ
residual n = (n + 3) / 4 * 4 - n

abbrev pub padded : List ℕ → List ℕ
padded bs = bs ++ replicate (residual (length bs)) 0

abbrev pub counted : List ℕ → List ℕ
counted bs = big_endian 4 (length bs) ++ padded bs
