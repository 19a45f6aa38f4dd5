-- ===== src/Codecs/Conversions.antt =====
-- internal/coder: where the `reflect` methods and the reads of memory get at the same numbers.
use xdr.Prelude.{
  ℕ, ◌%◌, ◌^◌, ◌<◌, ◌≡◌, refl, ap, true, false, some, List, [], ◌∷◌, length, take, arith,
}
use xdr.Values.{
  Value, w8, w16, w32, w64, bool_v, int_v, uint_v, array_v, sign_extend, bytes_of, memory_bytes,
  byte_values,
}
use xdr.Codecs.{SwitchKind, switch_bool, switch_int, switch_uint}
use xdr.Codecs.Access.{opaque_memory}
use xdr.Codecs.Stores.{overwrite}
use xdr.Codecs.Unions.{switch_value, switch_word}
use xdr.Codecs.Wire.{discriminant}

pub sign_extend-mod :
    (x : ℕ)
    → (x < 2 ^ 8 → sign_extend 8 64 x % 2 ^ 32 ≡ sign_extend 8 32 x)
      × (x < 2 ^ 16 → sign_extend 16 64 x % 2 ^ 32 ≡ sign_extend 16 32 x)
      × (x < 2 ^ 32 → sign_extend 32 64 x % 2 ^ 32 ≡ x)
unfolding sign_extend
sign_extend-mod x = (λ h. ground arith, λ h. ground arith, λ h. ground arith)

-- Cut to the size that it was extended from, a pattern is as before.
pub sign_extend-cut :
    (x : ℕ)
    → (x < 2 ^ 8
        → (sign_extend 8 32 x < 2 ^ 32)
          × (sign_extend 8 32 x % 2 ^ 8 ≡ x)
          × (sign_extend 32 64 (sign_extend 8 32 x) % 2 ^ 8 ≡ x))
      × (x < 2 ^ 16
          → (sign_extend 16 32 x < 2 ^ 32)
            × (sign_extend 16 32 x % 2 ^ 16 ≡ x)
            × (sign_extend 32 64 (sign_extend 16 32 x) % 2 ^ 16 ≡ x))
      × (x < 2 ^ 32 → sign_extend 32 64 x % 2 ^ 32 ≡ x)
unfolding sign_extend
sign_extend-cut x = (λ h. ground arith, λ h. ground arith, λ h. ground arith)

pub sign_extend_64 : (x : ℕ) → sign_extend 64 64 x ≡ x
unfolding sign_extend
sign_extend_64 x = ground arith

pub bytes_of-byte_values : (bs : List ℕ) → bytes_of (byte_values bs) ≡ some bs
unfolding bytes_of byte_values
bytes_of-byte_values [] = refl
bytes_of-byte_values (b ∷ bs) = rw (bytes_of-byte_values bs)

pub memory_bytes-byte_values : (bs : List ℕ) → memory_bytes (byte_values bs) ≡ some bs
unfolding memory_bytes byte_values
memory_bytes-byte_values [] = refl
memory_bytes-byte_values (b ∷ bs) = rw (memory_bytes-byte_values bs)

take_all : (bs : List ℕ) → take (length bs) bs ≡ bs
take_all [] = refl
take_all (b ∷ bs) = ap (λ t. b ∷ t) (take_all bs)

pub opaque_memory-byte_values :
    (len : ℕ) (bs : List ℕ)
    → length bs ≡ len
    → opaque_memory len (array_v (byte_values bs)) ≡ some bs
opaque_memory-byte_values len bs h =
    rw (memory_bytes-byte_values bs, ← h) (ground (arith, take_all bs))

pub discriminant-switch :
    (sk : SwitchKind) (v : Value) (n : ℕ)
    → discriminant sk v ≡ some n
    → n < 2 ^ 32
    → (switch_word sk v ≡ some n) × (switch_value sk v ≡ some n)
unfolding switch_word switch_value
discriminant-switch switch_bool (bool_v true) n e h = (e, e)
discriminant-switch switch_bool (bool_v false) n e h = (e, e)
discriminant-switch switch_bool _ n e h = cc
discriminant-switch switch_int (int_v w32 x) n e h =
    let p : x < 2 ^ 32 = ground arith in (e, rw ((sign_extend-mod x).2 p) e)
discriminant-switch switch_int (int_v w8 x) n e h = cc
discriminant-switch switch_int (int_v w16 x) n e h = cc
discriminant-switch switch_int (int_v w64 x) n e h = cc
discriminant-switch switch_int _ n e h = cc
discriminant-switch switch_uint (uint_v w32 x) n e h =
    let p : some (x % 2 ^ 32) ≡ some n = ground arith in (e, p)
discriminant-switch switch_uint (uint_v w8 x) n e h = cc
discriminant-switch switch_uint (uint_v w16 x) n e h = cc
discriminant-switch switch_uint (uint_v w64 x) n e h = cc
discriminant-switch switch_uint _ n e h = cc

pub overwrite-byte_values :
    (bs old : List ℕ) → length old ≡ length bs → overwrite bs (byte_values old) ≡ byte_values bs
unfolding overwrite byte_values
overwrite-byte_values [] [] h = refl
overwrite-byte_values [] (a ∷ old) h = absurd (omega arith)
overwrite-byte_values (b ∷ bs) [] h = absurd (omega arith)
overwrite-byte_values (b ∷ bs) (a ∷ old) h = rw (overwrite-byte_values bs old (omega arith))
