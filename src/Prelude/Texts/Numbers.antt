-- ===== src/Prelude/Texts/Numbers.antt =====
-- The numbers that `strconv.ParseUint(s, 0, 32)` answers with.
use xdr.Prelude.{
  ℕ, ◌+◌, ◌<◌, ◌≤◌, ◌^◌, ◌≡◌, inl, inr, not, ◌&&◌, Option, none, some, [], ◌∷◌, arith, Text, ◌==◌,
  Bool-cases, Option-cases, length,
}
use xdr.Prelude.Texts.{
  digits_from, parse_uint32, split, trim_space, trim_left, trim_right, underscores_ok, is_space,
  keep, after_prefix, add_digit, digit_value, based, has_underscore,
}

add_digit-bound : (base n m : ℕ) (d : Option ℕ) → add_digit base n d ≡ some m → m < 2 ^ 32
add_digit-bound base n m none e = cc
add_digit-bound base n m (some d) e = ground arith

digits_from-bound :
    (base n m : ℕ) (s : Text) → n < 2 ^ 32 → digits_from base n s ≡ some m → m < 2 ^ 32
unfolding digits_from
digits_from-bound base n m [] h e = let same : n ≡ m = cc in omega arith
digits_from-bound base n m (c ∷ s) h e = elim (Bool-cases (c == b'_')) [
  | inl p ↦ digits_from-bound base n m s h (rw (p, digits_from) at e)
  | inr p ↦ elim (Option-cases (add_digit base n (digit_value c))) [
    | inl q ↦ absurd (cc (rw (p, q, digits_from) at e))
    | inr (k, q) ↦
        digits_from-bound base k m s (add_digit-bound base n k (digit_value c) q)
          (rw (p, q, digits_from) at e)
  ]
]

pub parse_uint32-bound : (s : Text) (m : ℕ) → parse_uint32 s ≡ some m → m < 2 ^ 32
unfolding parse_uint32
parse_uint32-bound [] m e = cc
parse_uint32-bound (c ∷ s) m e =
    elim (Bool-cases (has_underscore (c ∷ s) && not (underscores_ok (c ∷ s)))) [
      | inl p ↦ absurd (cc (rw p at e))
      | inr p ↦ digits_from-bound (based (c ∷ s)).0 0 m (based (c ∷ s)).1 (omega arith) (rw p at e)
    ]

pub length-split-snd : (sep : ℕ) (s : Text) → length (split sep s).1 ≤ length s
unfolding split
length-split-snd sep [] = omega arith
length-split-snd sep (c ∷ s) = elim (Bool-cases (c == sep)) [
  | inl p ↦ rw p (omega (arith, length-split-snd sep s))
  | inr p ↦ rw p (omega (arith, length-split-snd sep s))
]

length-trim_left : (s : Text) → length (trim_left s) ≤ length s
unfolding trim_left
length-trim_left [] = omega arith
length-trim_left (c ∷ s) = elim (Bool-cases (is_space c)) [
  | inl p ↦ rw p (omega (arith, length-trim_left s))
  | inr p ↦ rw p (omega (arith, length-trim_left s))
]

length-keep : (c : ℕ) (s : Text) → length (keep c s) ≤ 1 + length s
length-keep c [] = ground arith
length-keep c (d ∷ s) = omega arith

length-trim_right : (s : Text) → length (trim_right s) ≤ length s
unfolding trim_right
length-trim_right [] = omega arith
length-trim_right (c ∷ s) = omega (arith, length-keep c (trim_right s), length-trim_right s)

pub length-trim_space : (s : Text) → length (trim_space s) ≤ length s
unfolding trim_space
length-trim_space s = omega (arith, length-trim_right (trim_left s), length-trim_left s)

pub length-split-fst : (sep : ℕ) (s : Text) → length (split sep s).0 ≤ length s
unfolding split
length-split-fst sep [] = omega arith
length-split-fst sep (c ∷ s) = elim (Bool-cases (c == sep)) [
  | inl p ↦ rw p (omega arith)
  | inr p ↦ rw p (omega (arith, length-split-fst sep s))
]

pub length-after_prefix :
    (p s back : Text) → after_prefix p s ≡ some back → length p + length back ≡ length s
unfolding after_prefix
length-after_prefix [] s back e = let same : length s ≡ length back = cc in omega arith
length-after_prefix (c ∷ p) [] back e = cc
length-after_prefix (c ∷ p) (d ∷ s) back e = elim (Bool-cases (c == d)) [
  | inl q ↦ omega (arith, length-after_prefix p s back (rw q at e))
  | inr q ↦ absurd (cc (rw q at e))
]
