-- ===== src/Prelude/Texts/Decimal.antt =====
-- Numbers in decimal, and how `strconv.ParseUint(s, 0, 32)` reads them back.
use xdr.Prelude.{
  ℕ, zero, suc, ◌+◌, ◌*◌, ◌/◌, ◌%◌, ◌<◌, ◌≤◌, ◌^◌, ◌≡◌, ◌∙◌, sym, ap, inl, inr, refl, false, some,
  [], ◌∷◌, ◌++◌, append_assoc, append-nil, All, All-append, arith, Text, ltb, ◌==◌, Bool-cases,
  if◌then◌else◌, lt→ltb, le→ltb,
}
use native.Mathlib.Nat.{pow-suc}
use xdr.Prelude.Texts.{digits_from, parse_uint32, add_digit, digit_value, has_underscore}

-- The digits of a number, of which there are no more than `fuel`.
unfoldable pub decimal_from : ℕ → ℕ → Text
decimal_from zero n = []
decimal_from (suc fuel) n =
    if ltb n 10 then (b'0' + n) ∷ [] else decimal_from fuel (n / 10) ++ (b'0' + n % 10) ∷ []

-- For numbers of 32 bits.
unfoldable pub decimal : ℕ → Text
unfolding decimal_from
decimal n = decimal_from 10 n

abbrev pub IsDigit : ℕ → Type 0
IsDigit c = (b'0' ≤ c) × (c ≤ b'9')

digit_value-digit : (d : ℕ) → d < 10 → digit_value (b'0' + d) ≡ some d
digit_value-digit d h = ground arith

digits_from-digit :
    (m d : ℕ) (back : Text)
    → d < 10
    → m * 10 + d < 2 ^ 32
    → digits_from 10 m ((b'0' + d) ∷ back) ≡ digits_from 10 (m * 10 + d) back
unfolding digits_from
digits_from-digit m d back h k = rw (no_underscore, digit_value-digit d h, added, digits_from) refl
  where
    no_underscore : (b'0' + d == b'_') ≡ false
    no_underscore = ground arith

    added : add_digit 10 m (some d) ≡ some (m * 10 + d)
    added = ground arith

decimal_from-small : (fuel n : ℕ) → n < 10 → decimal_from (suc fuel) n ≡ (b'0' + n) ∷ []
unfolding decimal_from
decimal_from-small fuel n h = rw (lt→ltb n 10 h) refl

decimal_from-large :
    (fuel n : ℕ)
    → 10 ≤ n
    → decimal_from (suc fuel) n ≡ decimal_from fuel (n / 10) ++ (b'0' + n % 10) ∷ []
unfolding decimal_from
decimal_from-large fuel n h = rw (le→ltb n 10 h) refl

digits_from-small :
    (fuel n : ℕ) (back : Text)
    → n < 10
    → digits_from 10 0 (decimal_from (suc fuel) n ++ back) ≡ digits_from 10 n back
digits_from-small fuel n back h =
    let same : 0 * 10 + n ≡ n = omega arith in
    ap (λ x. digits_from 10 0 (x ++ back)) (decimal_from-small fuel n h)
    ∙ digits_from-digit 0 n back h (omega arith)
    ∙ ap (λ m. digits_from 10 m back) same

-- `n` has no more than `fuel + 1` digits.
digits_from-decimal_from :
    (fuel n : ℕ) (back : Text)
    → n < 10 * 10 ^ fuel
    → n < 2 ^ 32
    → digits_from 10 0 (decimal_from (suc fuel) n ++ back) ≡ digits_from 10 n back
digits_from-decimal_from zero n back h k = digits_from-small zero n back (omega arith)
digits_from-decimal_from (suc fuel) n back h k = go (
    digits_from-decimal_from fuel (n / 10) ((b'0' + n % 10) ∷ back) (omega (arith, pow-suc 10 fuel))
      (omega arith))
  where
    go :
        digits_from 10 0 (decimal_from (suc fuel) (n / 10) ++ ((b'0' + n % 10) ∷ back))
          ≡ digits_from 10 (n / 10) ((b'0' + n % 10) ∷ back)
        → digits_from 10 0 (decimal_from (suc (suc fuel)) n ++ back) ≡ digits_from 10 n back
    go ih = elim (Bool-cases (ltb n 10)) [
      | inl p ↦ digits_from-small (suc fuel) n back (ground arith)
      | inr p ↦
          let same : n / 10 * 10 + n % 10 ≡ n = omega arith in
          ap (λ x. digits_from 10 0 (x ++ back)) (decimal_from-large (suc fuel) n (ground arith))
          ∙ ap (λ x. digits_from 10 0 x)
              (append_assoc (decimal_from (suc fuel) (n / 10)) ((b'0' + n % 10) ∷ []) back)
          ∙ ih
          ∙ digits_from-digit (n / 10) (n % 10) back (omega arith) (omega arith)
          ∙ ap (λ m. digits_from 10 m back) same
    ]

decimal_from-IsDigit : (fuel n : ℕ) → All IsDigit (decimal_from fuel n)
unfolding decimal_from
decimal_from-IsDigit zero n = tt
decimal_from-IsDigit (suc fuel) n = elim (Bool-cases (ltb n 10)) [
  | inl p ↦ rw p ((omega arith, ground arith), tt)
  | inr p ↦ rw p (
      All-append IsDigit (decimal_from fuel (n / 10)) ((b'0' + n % 10) ∷ [])
        (decimal_from-IsDigit fuel (n / 10)) ((omega arith, omega arith), tt))
]

-- The digits begin with one, which is no zero unless the number is, and then it is alone.
Heads : ℕ → Text → Type 0
Heads n [] = ⊥
Heads n (c ∷ s) = (c ≡ b'0') → (n ≡ 0) × (s ≡ [])

Heads-append : (n : ℕ) (s t : Text) → 0 < n → Heads n s → Heads n (s ++ t)
unfolding Heads
Heads-append n [] t h e = absurd e
Heads-append n (c ∷ s) t h e = λ p. absurd (omega (arith, (e p).0))

Heads-weaken : (m n : ℕ) (s : Text) → 0 < m → Heads m s → Heads n s
unfolding Heads
Heads-weaken m n [] h e = e
Heads-weaken m n (c ∷ s) h e = λ p. absurd (omega (arith, (e p).0))

decimal_from-Heads : (fuel n : ℕ) → n < 10 * 10 ^ fuel → Heads n (decimal_from (suc fuel) n)
decimal_from-Heads zero n h =
    rw (decimal_from-small zero n (omega arith)) (unfold Heads in λ p. (omega arith, refl))
decimal_from-Heads (suc fuel) n h =
    go (decimal_from-Heads fuel (n / 10) (omega (arith, pow-suc 10 fuel)))
  where
    go :
        Heads (n / 10) (decimal_from (suc fuel) (n / 10))
        → Heads n (decimal_from (suc (suc fuel)) n)
    go ih = elim (Bool-cases (ltb n 10)) [
      | inl p ↦
          rw (decimal_from-small (suc fuel) n (ground arith))
            (unfold Heads in λ q. (omega arith, refl))
      | inr p ↦
          let large : 10 ≤ n = ground arith in
          rw (decimal_from-large (suc fuel) n large) (
            Heads-weaken (n / 10) n _ (omega arith)
              (Heads-append (n / 10) (decimal_from (suc fuel) (n / 10)) _ (omega arith) ih))
    ]

has_underscore-digits : (s : Text) → All IsDigit s → has_underscore s ≡ false
has_underscore-digits [] h = refl
has_underscore-digits (c ∷ s) h =
    let first : (c == b'_') ≡ false = ground arith in rw (first, has_underscore-digits s h.1) refl

decimal-head :
    (n : ℕ) (s : Text)
    → All IsDigit s
    → Heads n s
    → digits_from 10 0 s ≡ some n
    → parse_uint32 s ≡ some n
unfolding Heads parse_uint32
decimal-head n [] h e p = absurd e
decimal-head n (c ∷ s) h e p = elim (Bool-cases (c == b'0')) [
  | inr q ↦ rw (has_underscore-digits (c ∷ s) h, q) p
  | inl q ↦
      let (zero_n, alone) = e (ground arith) in
      rw (has_underscore-digits (c ∷ s) h, q, alone, zero_n) (unfold digits_from in refl)
]

-- The number of 32 bits that is written in decimal is read back.
pub parse_uint32-decimal : (n : ℕ) → n < 2 ^ 32 → parse_uint32 (decimal n) ≡ some n
unfolding decimal
parse_uint32-decimal n h =
    decimal-head n (decimal_from 10 n) (decimal_from-IsDigit 10 n)
      (decimal_from-Heads 9 n (omega arith))
      (ap (λ x. digits_from 10 0 x) (sym (append-nil (decimal_from 10 n)))
        ∙ digits_from-decimal_from 9 n [] (omega arith) h
        ∙ (unfold digits_from in refl))

pub decimal-IsDigit : (n : ℕ) → All IsDigit (decimal n)
unfolding decimal
decimal-IsDigit n = decimal_from-IsDigit 10 n
