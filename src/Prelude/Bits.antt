-- ===== src/Prelude/Bits.antt =====
-- `|` of fields that do not overlap is a sum, and `&` with a low mask is a remainder, at every width.
use Prim.Native.Nat.{
  ℕ, zero, suc, ◌+◌, ◌*◌, ◌/◌, ◌%◌, ◌^◌, ◌≤◌, ◌<◌, ◌-◌, min, max, digits, bitwise, bit_and, bit_or,
  bit_and-bitwise, bit_or-bitwise,
}
use mathlib.Core.Path.{◌≡◌, refl, ap, sym, ◌∙◌}
use native.Mathlib.Nat.{pow-suc, one-le-pow, div-add-mod}
use native.Mathlib.Omega.{arith}

-- The native operations stand for a recursion on binary digits with the first number as fuel.
module _ (alone : ℕ → ℕ) (op : ℕ → ℕ → ℕ) where
  no_digits : (fuel y : ℕ) → digits alone op fuel 0 y ≡ digits alone op 0 0 y
  no_digits zero y = refl
  no_digits (suc fuel) y = refl

  spare_fuel :
      (fuel spare x y : ℕ)
      → x ≤ fuel
      → digits alone op (fuel + spare) x y ≡ digits alone op fuel x y
  spare_fuel fuel spare zero y h = no_digits (fuel + spare) y ∙ sym (no_digits fuel y)
  spare_fuel zero spare (suc x) y h = absurd (omega arith)
  spare_fuel (suc fuel) spare (suc x) y h =
      let moved : suc fuel + spare ≡ suc (fuel + spare) = omega arith in
      ap (λ (t : ℕ). digits alone op t (suc x) y) moved
      ∙ ap (λ (t : ℕ). t * 2 + op (suc x % 2) (y % 2))
          (spare_fuel fuel spare (suc x / 2) (y / 2) (omega arith))

  lowest_digit :
      (x y : ℕ)
      → bitwise alone op (suc x) y
        ≡ bitwise alone op (suc x / 2) (y / 2) * 2 + op (suc x % 2) (y % 2)
  lowest_digit x y =
      let half : ℕ = suc x / 2 in
      let spent : half + (x - half) ≡ x = omega arith in
      ap (λ (t : ℕ). t * 2 + op (suc x % 2) (y % 2))
        (ap (λ (fuel : ℕ). digits alone op fuel half (y / 2)) (sym spent)
          ∙ spare_fuel half (x - half) half (y / 2) (omega arith))

or_digit : (x y : ℕ) → bit_or x y ≡ bit_or (x / 2) (y / 2) * 2 + max (x % 2) (y % 2)
or_digit zero y = rw (bit_or-bitwise 0 y, bit_or-bitwise (0 / 2) (y / 2)) (omega arith)
or_digit (suc x) y =
    rw (bit_or-bitwise (suc x) y, bit_or-bitwise (suc x / 2) (y / 2))
      (lowest_digit (λ t. t) max x y)

and_digit : (x y : ℕ) → bit_and x y ≡ bit_and (x / 2) (y / 2) * 2 + min (x % 2) (y % 2)
and_digit zero y = rw (bit_and-bitwise 0 y, bit_and-bitwise (0 / 2) (y / 2)) (omega arith)
and_digit (suc x) y =
    rw (bit_and-bitwise (suc x) y, bit_and-bitwise (suc x / 2) (y / 2))
      (lowest_digit (λ t. 0) min x y)

or_zero_below : (n a : ℕ) → a ≤ n → bit_or a 0 ≡ a
or_zero_below n zero h = refl
or_zero_below zero (suc a) h = absurd (omega arith)
or_zero_below (suc n) (suc a) h =
    omega (arith, or_digit (suc a) 0, or_zero_below n (suc a / 2) (omega arith))

and_zero_below : (n a : ℕ) → a ≤ n → bit_and a 0 ≡ 0
and_zero_below n zero h = refl
and_zero_below zero (suc a) h = absurd (omega arith)
and_zero_below (suc n) (suc a) h =
    omega (arith, and_digit (suc a) 0, and_zero_below n (suc a / 2) (omega arith))

twice_power : (a k : ℕ) → a * 2 ^ suc k ≡ 2 * (a * 2 ^ k)
twice_power a k = omega (arith, ap (λ (t : ℕ). a * t) (pow-suc 2 k))

-- The shifted `a` and a `b` of at most `k` bits.
pub bit_or-add : (k a b : ℕ) → b < 2 ^ k → bit_or (a * 2 ^ k) b ≡ a * 2 ^ k + b
bit_or-add zero a b h = ground (arith, or_zero_below a a (omega arith))
bit_or-add (suc k) a b h =
    ground (arith, or_digit (a * 2 ^ suc k) b, twice_power a k, pow-suc 2 k, bit_or-add k a (b / 2))

mod_twice : (a m : ℕ) → 0 < m → a % (2 * m) ≡ a / 2 % m * 2 + a % 2
mod_twice a m h = grind (arith, div-add-mod (a / 2) m)

pub bit_and-mod : (k a : ℕ) → bit_and a (2 ^ k - 1) ≡ a % 2 ^ k
bit_and-mod zero a = omega (arith, and_zero_below a a (omega arith))
bit_and-mod (suc k) a = ground (
  arith,
  and_digit a (2 ^ suc k - 1),
  pow-suc 2 k,
  one-le-pow k 2,
  bit_and-mod k (a / 2),
  mod_twice a (2 ^ k),
)

pub and_three : (a : ℕ) → bit_and a 3 ≡ a % 4
and_three a = bit_and-mod 2 a

-- `a & ^3` on a 64-bit word.
pub and_not_three : (a : ℕ) → a < 2 ^ 64 → bit_and a (2 ^ 64 - 4) ≡ a / 4 * 4
and_not_three a h =
    omega
      (arith, and_digit a (2 ^ 64 - 4), and_digit (a / 2) (2 ^ 63 - 2), bit_and-mod 62 (a / 2 / 2))
