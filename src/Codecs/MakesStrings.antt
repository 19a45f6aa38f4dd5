-- ===== src/Codecs/MakesStrings.antt =====
-- internal/coder/codec_string.go: which codecs come of the tags of a string, and within which limits.
use xdr.Prelude.{
  ℕ, ◌%◌, ◌^◌, ◌≤◌, ◌<◌, ◌≡◌, refl, ap, Bool, true, false, Option, some, List, [], ◌∷◌, ltb, ◌==◌,
  All, arith, inl, inr, Bool-cases, le→ltb, lt→ltb,
}
use Prim.Native.Nat.{min}
use xdr.Errors.{Err, length_error}
use xdr.Types.{GoType}
use xdr.Tags as Tags
use xdr.Tags.{Tag, ◌>>=◌, empty, next, this_len, only_value, prepend, trimmed}
use xdr.Tags.Entries.{IsWord, Entry, flag, single, multi, IsEntry, tag_bytes}
use xdr.Tags.Accessors.{accessors_first_entry}
use xdr.Encoder.{max_uint32}
use xdr.Codecs.{
  Codec, error_codec, fixed_string_codec, var_string_codec, opaque_slice_codec, slice_codec,
}
use xdr.Codecs.Make.{sized_string, make_string_codec, capped}

-- Lengths that a platform with the largest `int` can hold, and that fit the format.
abbrev pub IsLimited : ℕ → Codec → Type 0
IsLimited max_int (fixed_string_codec len) = len ≤ max_int
IsLimited max_int (var_string_codec maxlen orig_max) =
    (maxlen ≤ max_int) × (maxlen ≤ orig_max) × (orig_max ≤ max_uint32)
IsLimited max_int (opaque_slice_codec maxlen orig_max) =
    (maxlen ≤ max_int) × (maxlen ≤ orig_max) × (orig_max ≤ max_uint32)
IsLimited max_int (slice_codec elem zero_elem maxlen orig_max) =
    (maxlen ≤ max_int) × (maxlen ≤ orig_max) × (orig_max ≤ max_uint32)
IsLimited max_int c = Unit

-- A codec is made, and its lengths are within the limits.
abbrev pub Makes : ℕ → Option Codec → Type 0
Makes max_int o = (c : Codec) × (o ≡ some c) × IsLimited max_int c

pub capped_lem :
    (max_int n : ℕ)
    → n < 2 ^ 32
    → (capped max_int n ≤ max_int) × (capped max_int n ≤ n) × (n ≤ max_uint32)
unfolding capped
capped_lem max_int n h = ground arith

sized_string-Makes :
    (max_int : ℕ) (fixed : Bool) (n : ℕ)
    → n < 2 ^ 32
    → Makes max_int (some (sized_string max_int fixed n))
unfolding sized_string
sized_string-Makes max_int fixed n h = elim (Bool-cases (ltb max_int n)) [
  | inl p ↦ over fixed p
  | inr p ↦ under fixed p
]
  where
    over : (b : Bool) → ltb max_int n ≡ true → Makes max_int (some (sized_string max_int b n))
    over true p = (error_codec (length_error n n), rw p refl, tt)
    over false p = (
      var_string_codec (max_int % 2 ^ 32) n,
      rw p refl,
      (ground arith, ground arith, omega arith),
    )

    under : (b : Bool) → ltb max_int n ≡ false → Makes max_int (some (sized_string max_int b n))
    under true p = (fixed_string_codec n, rw p refl, ground arith)
    under false p = (var_string_codec n n, rw p refl, (ground arith, omega arith, omega arith))

pub nonempty : (d : Entry) (es : List Entry) → empty (tag_bytes (d ∷ es)) ≡ false
nonempty (flag k) es = refl
nonempty (single k v) es = refl
nonempty (multi k vs) es = refl

pub next-nil : next [] ≡ some []
unfolding next this_len
next-nil = refl

pub kind-nil : Tags.kind [] ≡ Tags.noop
unfolding Tags.kind
kind-nil = refl

pub error-Makes : (max_int : ℕ) (e : Err) → Makes max_int (some (error_codec e))
error-Makes max_int e = (error_codec e, refl, tt)

pub string-Makes :
    (max_int : ℕ) (t : GoType) (es : List Entry)
    → All IsEntry es
    → Makes max_int (make_string_codec max_int t (tag_bytes es))
unfolding make_string_codec
string-Makes max_int t [] h =
    rw (next-nil, kind-nil) (sized_string-Makes max_int false max_uint32 (omega arith))
string-Makes max_int t (e ∷ d ∷ es) h =
    let (k, n, v, o) = accessors_first_entry e (d ∷ es) h.0 in
    rw (n, nonempty d es) (error-Makes max_int _)
string-Makes max_int t (flag j ∷ []) h =
    let (k, n, v, o) = accessors_first_entry (flag j) [] h.0 in
    let no_len : (j == Tags.len) ≡ false = ground arith in
    let no_max : (j == Tags.max_len) ≡ false = ground arith in
    elim (Bool-cases (j == Tags.noop)) [
      | inl p ↦
          rw (n, k, no_len, no_max, p) (sized_string-Makes max_int false max_uint32 (omega arith))
      | inr p ↦ rw (n, k, no_len, no_max, p) (error-Makes max_int _)
    ]
string-Makes max_int t (single j w ∷ []) h =
    let (k, n, v, o) = accessors_first_entry (single j w) [] h.0 in
    let value : only_value (tag_bytes (single j w ∷ [])) ≡ some w = o j w refl in
    let no_noop : (j == Tags.noop) ≡ false = ground arith in
    elim (Bool-cases (j == Tags.len)) [
      | inl p ↦ rw (n, k, p, value) (sized_string-Makes max_int true w h.0.2)
      | inr p ↦ elim (Bool-cases (j == Tags.max_len)) [
        | inl q ↦ rw (n, k, p, q, value) (sized_string-Makes max_int false w h.0.2)
        | inr q ↦ rw (n, k, p, q, no_noop) (error-Makes max_int _)
      ]
    ]
string-Makes max_int t (multi j ws ∷ []) h =
    let (k, n, v, o) = accessors_first_entry (multi j ws) [] h.0 in
    let no_len : (j == Tags.len) ≡ false = ground arith in
    let no_max : (j == Tags.max_len) ≡ false = ground arith in
    let no_noop : (j == Tags.noop) ≡ false = ground arith in
    rw (n, k, no_len, no_max, no_noop) (error-Makes max_int _)

-- What the four forms of a string's tag make: no limit but the format's; a maximum, which is capped at
-- the largest `int`; a fixed length that is an `int`; and one that is not, which is an error.
pub string_codec_of_tag :
    (max_int n : ℕ) (t : GoType)
    → IsWord n
    → (make_string_codec max_int t (tag_bytes [])
        ≡ some (var_string_codec (min max_uint32 max_int) max_uint32))
      × (make_string_codec max_int t (tag_bytes (single Tags.max_len n ∷ []))
          ≡ some (var_string_codec (min n max_int) n))
      × (n ≤ max_int
          → make_string_codec max_int t (tag_bytes (single Tags.len n ∷ []))
            ≡ some (fixed_string_codec n))
      × (max_int < n
          → make_string_codec max_int t (tag_bytes (single Tags.len n ∷ []))
            ≡ some (error_codec (length_error n n)))
unfolding make_string_codec sized_string
string_codec_of_tag max_int n t h =
    let (k, x, v, o) =
      accessors_first_entry (single Tags.max_len n) [] (omega arith, omega arith, h) in
    let (k', x', v', o') =
      accessors_first_entry (single Tags.len n) [] (omega arith, omega arith, h) in
    (
      rw (next-nil, kind-nil) (sized max_uint32 (omega arith)),
      rw (x, k, o Tags.max_len n refl) (sized n h),
      λ le. rw (x', k', o' Tags.len n refl, le→ltb max_int n le) refl,
      λ lt. rw (x', k', o' Tags.len n refl, lt→ltb max_int n lt) refl,
    )
  where
    sized :
        (m : ℕ)
        → IsWord m
        → some (sized_string max_int false m) ≡ some (var_string_codec (min m max_int) m)
    sized m hm = elim (Bool-cases (ltb max_int m)) [
      | inl p ↦ let small : max_int % 2 ^ 32 ≡ min m max_int = ground arith in rw (p, small) refl
      | inr p ↦
          let same : m ≡ min m max_int = ground arith in
          rw p (ap (λ l. some (var_string_codec l m)) same)
    ]
