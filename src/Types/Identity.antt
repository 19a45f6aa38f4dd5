-- ===== src/Types/Identity.antt =====
-- `==` on `reflect.Type`: identity of types. A declared type is its declaration.
use xdr.Prelude.{
  ℕ, ◌≡◌, refl, ap, ap₂, Bool, true, false, ◌&&◌, ◌==◌, ==_iff, text_eq, text_eq_sound,
  text_eq_refl, arith, List, [], ◌∷◌, get_or,
}
use xdr.Types.{
  Basic, GoType, StructFields, basic, ptr, slice, array, map, struct, named, no_fields,
  struct_field,
}

abbrev basic_number : Basic → ℕ
basic_number Basic.bool = 0
basic_number Basic.int = 1
basic_number Basic.int8 = 2
basic_number Basic.int16 = 3
basic_number Basic.int32 = 4
basic_number Basic.int64 = 5
basic_number Basic.uint = 6
basic_number Basic.uint8 = 7
basic_number Basic.uint16 = 8
basic_number Basic.uint32 = 9
basic_number Basic.uint64 = 10
basic_number Basic.uintptr = 11
basic_number Basic.float32 = 12
basic_number Basic.float64 = 13
basic_number Basic.complex64 = 14
basic_number Basic.complex128 = 15
basic_number Basic.chan = 16
basic_number Basic.func = 17
basic_number Basic.interface = 18
basic_number Basic.string = 19
basic_number Basic.unsafe_pointer = 20

abbrev basics : List Basic
basics =
    Basic.bool ∷ Basic.int ∷ Basic.int8 ∷ Basic.int16 ∷ Basic.int32 ∷ Basic.int64 ∷ Basic.uint
    ∷ Basic.uint8 ∷ Basic.uint16 ∷ Basic.uint32 ∷ Basic.uint64 ∷ Basic.uintptr ∷ Basic.float32
    ∷ Basic.float64 ∷ Basic.complex64 ∷ Basic.complex128 ∷ Basic.chan ∷ Basic.func ∷ Basic.interface
    ∷ Basic.string ∷ Basic.unsafe_pointer ∷ []

abbrev basic_of : ℕ → Basic
basic_of n = get_or basics n Basic.bool

basic_of-number : (b : Basic) → basic_of (basic_number b) ≡ b
basic_of-number Basic.bool = refl
basic_of-number Basic.int = refl
basic_of-number Basic.int8 = refl
basic_of-number Basic.int16 = refl
basic_of-number Basic.int32 = refl
basic_of-number Basic.int64 = refl
basic_of-number Basic.uint = refl
basic_of-number Basic.uint8 = refl
basic_of-number Basic.uint16 = refl
basic_of-number Basic.uint32 = refl
basic_of-number Basic.uint64 = refl
basic_of-number Basic.uintptr = refl
basic_of-number Basic.float32 = refl
basic_of-number Basic.float64 = refl
basic_of-number Basic.complex64 = refl
basic_of-number Basic.complex128 = refl
basic_of-number Basic.chan = refl
basic_of-number Basic.func = refl
basic_of-number Basic.interface = refl
basic_of-number Basic.string = refl
basic_of-number Basic.unsafe_pointer = refl

unfoldable mutual
  pub same_type : GoType → GoType → Bool
  same_type (basic b) (basic c) = basic_number b == basic_number c
  same_type (ptr t) (ptr u) = same_type t u
  same_type (slice t) (slice u) = same_type t u
  same_type (array n t) (array m u) = (n == m) && same_type t u
  same_type (map k t) (map j u) = same_type k j && same_type t u
  same_type (struct fs) (struct gs) = same_fields fs gs
  same_type (named i) (named j) = i == j
  same_type _ _ = false

  pub same_fields : StructFields → StructFields → Bool
  same_fields no_fields no_fields = true
  same_fields (struct_field n t s fs) (struct_field m u r gs) =
      text_eq n m && (same_type t u && (text_eq s r && same_fields fs gs))
  same_fields _ _ = false

and-true : (a b : Bool) → (a && b) ≡ true → (a ≡ true) × (b ≡ true)
and-true true b h = (refl, h)
and-true false b h = cc

mutual
  unfolding same_type

  pub same_type_sound : (t u : GoType) → same_type t u ≡ true → t ≡ u
  same_type_sound (basic b) (basic c) h =
      let same : basic_number b ≡ basic_number c = (==_iff (basic_number b) (basic_number c)).0 h in
      ap basic (cc (basic_of-number b, basic_of-number c, ap basic_of same))
  same_type_sound (ptr t) (ptr u) h = ap ptr (same_type_sound t u h)
  same_type_sound (slice t) (slice u) h = ap slice (same_type_sound t u h)
  same_type_sound (array n t) (array m u) h =
      let (p, q) = and-true (n == m) (same_type t u) h in
      ap₂ array ((==_iff n m).0 p) (same_type_sound t u q)
  same_type_sound (map k t) (map j u) h =
      let (p, q) = and-true (same_type k j) (same_type t u) h in
      ap₂ map (same_type_sound k j p) (same_type_sound t u q)
  same_type_sound (struct fs) (struct gs) h = ap struct (same_fields_sound fs gs h)
  same_type_sound (named i) (named j) h = ap named ((==_iff i j).0 h)
  same_type_sound _ _ h = cc

  same_fields_sound : (fs gs : StructFields) → same_fields fs gs ≡ true → fs ≡ gs
  same_fields_sound no_fields no_fields h = refl
  same_fields_sound (struct_field n t s fs) (struct_field m u r gs) h =
      let (a, x) = and-true (text_eq n m) (same_type t u && (text_eq s r && same_fields fs gs)) h in
      let (b, y) = and-true (same_type t u) (text_eq s r && same_fields fs gs) x in
      let (c, d) = and-true (text_eq s r) (same_fields fs gs) y in
      cc
        (text_eq_sound n m a, same_type_sound t u b, text_eq_sound s r c, same_fields_sound fs gs d)
  same_fields_sound _ _ h = cc

mutual
  unfolding same_type

  pub same_type_refl : (t : GoType) → same_type t t ≡ true
  same_type_refl (basic b) = ground arith
  same_type_refl (ptr t) = same_type_refl t
  same_type_refl (slice t) = same_type_refl t
  same_type_refl (array n t) =
      let p : (n == n) ≡ true = ground arith in rw (p, same_type_refl t) refl
  same_type_refl (map k t) = rw (same_type_refl k, same_type_refl t) refl
  same_type_refl (struct fs) = same_fields_refl fs
  same_type_refl (named i) = ground arith

  same_fields_refl : (fs : StructFields) → same_fields fs fs ≡ true
  same_fields_refl no_fields = refl
  same_fields_refl (struct_field n t s fs) =
      rw (text_eq_refl n, same_type_refl t, text_eq_refl s, same_fields_refl fs) refl
