-- ===== src/Codecs/Making.antt =====
-- internal/coder/coder.go, `buildCodec`: which codecs come of the tags that are made of entries.
use xdr.Prelude.{
  ℕ, zero, suc, ◌^◌, ◌<◌, ◌≡◌, refl, false, Option, some, List, [], ◌∷◌, ◌==◌, All, arith, inl, inr,
  Bool-cases,
}
use xdr.Types.{Kind, Basic, GoType, basic, ptr, array, slice, TypeEnv, underlying, kind}
use xdr.Tags as Tags
use xdr.Tags.{Tag, ◌>>=◌, empty, next, this_len, only_value, prepend, trimmed}
use xdr.Tags.Parse.{elem_of}
use xdr.Tags.Entries.{Entry, flag, single, multi, IsEntry, tag_bytes}
use xdr.Tags.Accessors.{accessors_first_entry, append_entry}
use xdr.Tags.Trim.{trim, put_before, trimmed_lem}
use xdr.Encoder.{max_uint32}
use xdr.Values.{Value}
use xdr.Codecs.{
  Codec, marshaler_codec, opaque_array_codec, array_codec, opt_codec, ptr_codec, opaque_slice_codec,
  slice_codec,
}
use xdr.Codecs.Make.{
  capped, sized_slice, make_slice_codec, make_array_codec, without_opt, make_opt_codec,
  make_ptr_codec, untagged_codec, build_codec, basic_codec, tagged_codec, implements,
}
use xdr.Codecs.MakesStrings.{
  Makes, capped_lem, next-nil, kind-nil, nonempty, error-Makes, string-Makes,
}

abbrev pub rest_of : List Entry → List Entry
rest_of [] = []
rest_of (e ∷ es) = es

pub rest_of-IsEntry : (es : List Entry) → All IsEntry es → All IsEntry (rest_of es)
rest_of-IsEntry [] h = tt
rest_of-IsEntry (e ∷ es) h = h.1

pub next-rest_of :
    (es : List Entry) → All IsEntry es → next (tag_bytes es) ≡ some (tag_bytes (rest_of es))
next-rest_of [] h = next-nil
next-rest_of (e ∷ es) h = (accessors_first_entry e es h.0).1

pub trim-IsEntry : (es : List Entry) → All IsEntry es → All IsEntry (trim es)
trim-IsEntry [] h = tt
trim-IsEntry (e ∷ es) h = before e (trim es) h.0 (trim-IsEntry es h.1)
  where
    before :
        (d : Entry) (ds : List Entry) → IsEntry d → All IsEntry ds → All IsEntry (put_before d ds)
    before (flag zero) [] k ks = tt
    before (flag zero) (b ∷ ds) k ks = (k, ks)
    before (flag (suc j)) ds k ks = (k, ks)
    before (single j v) ds k ks = (k, ks)
    before (multi j vs) ds k ks = (k, ks)

without_opt_lem :
    (e : Entry) (es : List Entry)
    → All IsEntry (e ∷ es)
    → without_opt (tag_bytes (e ∷ es)) ≡ some (tag_bytes (trim (flag Tags.noop ∷ es)))
unfolding without_opt
without_opt_lem e es h =
    rw ((accessors_first_entry e es h.0).1, (append_entry es (flag Tags.noop) (omega arith)).1)
      (trimmed_lem (flag Tags.noop ∷ es) (omega arith, h.1))

-- The coder has a codec for the type with each tag that is made of entries.
abbrev pub HasCodecs : {C : Type 0} → (GoType → Tag → Option C) → GoType → Type 0
HasCodecs {C = C} get_codec t =
    (es : List Entry) → All IsEntry es → (c : C) × (get_codec t (tag_bytes es) ≡ some c)

-- The same where the tag has a `Noop` for an `Opt` that was taken off.
abbrev pub HasRequired : (GoType → Tag → Option Codec) → GoType → Type 0
HasRequired get_codec t =
    (es : List Entry)
    → All IsEntry es
    → (c : Codec) × (get_codec t (tag_bytes (trim (flag Tags.noop ∷ es))) ≡ some c)

module _ (max_int : ℕ) (zero_value : GoType → Value) (get_codec : GoType → Tag → Option Codec) where
  sized_slice-Makes :
      (elem : GoType) (es : List Entry) (n : ℕ)
      → HasCodecs get_codec elem
      → All IsEntry es
      → n < 2 ^ 32
      → Makes max_int (sized_slice max_int zero_value get_codec elem (tag_bytes es) n)
  unfolding sized_slice
  sized_slice-Makes elem es n gets h k =
      rw (next-rest_of es h)
        (elim (Bool-cases (Tags.kind (tag_bytes (rest_of es)) == Tags.opaque)) [
          | inl p ↦ (opaque_slice_codec (capped max_int n) n, rw p refl, capped_lem max_int n k)
          | inr p ↦
              let (c, g) = gets (rest_of es) (rest_of-IsEntry es h) in
              (
                slice_codec c (zero_value elem) (capped max_int n) n,
                rw (p, g) refl,
                capped_lem max_int n k,
              )
        ])

  slice-Makes :
      (t elem : GoType) (es : List Entry)
      → HasCodecs get_codec elem
      → All IsEntry es
      → Makes max_int (make_slice_codec max_int zero_value get_codec t elem (tag_bytes es))
  unfolding make_slice_codec
  slice-Makes t elem [] gets h =
      rw kind-nil (sized_slice-Makes elem [] max_uint32 gets h (omega arith))
  slice-Makes t elem (flag j ∷ es) gets h =
      let (k, n, v, o) = accessors_first_entry (flag j) es h.0 in
      let no_max : (j == Tags.max_len) ≡ false = ground arith in
      elim (Bool-cases (j == Tags.noop)) [
        | inl p ↦
            rw (k, no_max, p) (sized_slice-Makes elem (flag j ∷ es) max_uint32 gets h (omega arith))
        | inr p ↦ rw (k, no_max, p) (error-Makes max_int _)
      ]
  slice-Makes t elem (single j w ∷ es) gets h =
      let (k, n, v, o) = accessors_first_entry (single j w) es h.0 in
      let value : only_value (tag_bytes (single j w ∷ es)) ≡ some w = o j w refl in
      let no_noop : (j == Tags.noop) ≡ false = ground arith in
      elim (Bool-cases (j == Tags.max_len)) [
        | inl p ↦ rw (k, p, value) (sized_slice-Makes elem (single j w ∷ es) w gets h h.0.2)
        | inr p ↦ rw (k, p, no_noop) (error-Makes max_int _)
      ]
  slice-Makes t elem (multi j ws ∷ es) gets h =
      let (k, n, v, o) = accessors_first_entry (multi j ws) es h.0 in
      let no_max : (j == Tags.max_len) ≡ false = ground arith in
      let no_noop : (j == Tags.noop) ≡ false = ground arith in
      rw (k, no_max, no_noop) (error-Makes max_int _)

  array-Makes :
      (t elem : GoType) (len : ℕ) (es : List Entry)
      → HasCodecs get_codec elem
      → All IsEntry es
      → Makes max_int (make_array_codec max_int zero_value get_codec t len elem (tag_bytes es))
  unfolding make_array_codec
  array-Makes t elem len es gets h = elim (Bool-cases (Tags.kind (tag_bytes es) == Tags.noop)) [
    | inr p ↦ rw p (error-Makes max_int _)
    | inl p ↦
        rw (p, next-rest_of es h)
          (elim (Bool-cases (Tags.kind (tag_bytes (rest_of es)) == Tags.opaque)) [
            | inl q ↦ (opaque_array_codec len, rw q refl, tt)
            | inr q ↦
                let (c, g) = gets (rest_of es) (rest_of-IsEntry es h) in
                (array_codec c len, rw (q, g) refl, tt)
          ])
  ]

  ptr-Makes :
      (elem : GoType) (es : List Entry)
      → HasCodecs get_codec elem
      → All IsEntry es
      → Makes max_int (make_ptr_codec max_int zero_value get_codec elem (tag_bytes es))
  unfolding make_ptr_codec
  ptr-Makes elem es gets h =
      let (c, g) = gets (rest_of es) (rest_of-IsEntry es h) in
      (ptr_codec c (zero_value elem), rw (next-rest_of es h, g) refl, tt)

  opt-Makes :
      (t : GoType) (e : Entry) (es : List Entry)
      → HasRequired get_codec t
      → All IsEntry (e ∷ es)
      → Makes max_int (make_opt_codec max_int zero_value get_codec t (tag_bytes (e ∷ es)))
  unfolding make_opt_codec
  opt-Makes t e es gets h =
      let (c, g) = gets es h.1 in (opt_codec c, rw (without_opt_lem e es h, g) refl, tt)

  module _ (env : TypeEnv) (make_struct : GoType → Option Codec)
      (make_map : GoType → Tag → Option Codec) where
    basic-Makes :
        (t : GoType) (k : Kind)
        → (k ≡ Kind.struct → Makes max_int (make_struct t))
        → Makes max_int (basic_codec max_int zero_value get_codec env make_struct make_map t k)
    basic-Makes t Kind.struct structs = structs refl
    basic-Makes t _ structs = (_, refl, tt)

    untagged-Makes :
        (t : GoType) (es : List Entry)
        → (kind env t ≡ Kind.struct → Makes max_int (make_struct t))
        → Makes max_int
            (untagged_codec max_int zero_value get_codec env make_struct make_map t (tag_bytes es))
    unfolding untagged_codec
    untagged-Makes t (e ∷ es) structs = rw (nonempty e es) (error-Makes max_int _)
    untagged-Makes t [] structs =
        elim (Bool-cases (implements max_int zero_value get_codec env make_struct make_map t)) [
          | inl p ↦ (marshaler_codec, rw p refl, tt)
          | inr p ↦ rw p (basic-Makes t (kind env t) structs)
        ]

    tagged-Makes :
        (t u : GoType) (es : List Entry)
        → ((e : GoType) → elem_of u ≡ some e → HasCodecs get_codec e)
        → (kind env t ≡ Kind.struct → Makes max_int (make_struct t))
        → ((key e : GoType)
            → u ≡ GoType.map key e
            → (ds : List Entry) → All IsEntry ds
            → Makes max_int (make_map t (tag_bytes ds)))
        → All IsEntry es
        → Makes max_int
            (tagged_codec max_int zero_value get_codec env make_struct make_map t (tag_bytes es) u)
    tagged-Makes t (ptr elem) es elems structs maps h = ptr-Makes elem es (elems elem refl) h
    tagged-Makes t (basic Basic.string) es elems structs maps h = string-Makes max_int t es h
    tagged-Makes t (array len elem) es elems structs maps h =
        array-Makes t elem len es (elems elem refl) h
    tagged-Makes t (slice elem) es elems structs maps h = slice-Makes t elem es (elems elem refl) h
    tagged-Makes t (GoType.map key elem) es elems structs maps h = maps key elem refl es h
    tagged-Makes t _ es elems structs maps h = untagged-Makes t es structs

    -- For a type, a declared type of any kind included, let the coder have a codec for its element type,
    -- if it has one, and for the type itself without the `Opt`, with each tag that is made of entries,
    -- and let the struct or map codec, if it is a struct or a map, be made without a panic and within
    -- the limits. Then with every tag that is made of entries `buildCodec` makes a codec for the type
    -- and does not panic, and if that is a codec of a string or slice, then its length is one that the
    -- platform's `int` and the 32 bits of the format can hold.
    pub build_codec_within_limits :
        (t : GoType) (es : List Entry)
        → HasRequired get_codec t
        → ((e : GoType) → elem_of (underlying env t) ≡ some e → HasCodecs get_codec e)
        → (kind env t ≡ Kind.struct → Makes max_int (make_struct t))
        → ((key e : GoType)
            → underlying env t ≡ GoType.map key e
            → (ds : List Entry) → All IsEntry ds
            → Makes max_int (make_map t (tag_bytes ds)))
        → All IsEntry es
        → Makes max_int
            (build_codec max_int zero_value get_codec env make_struct make_map t (tag_bytes es))
    unfolding build_codec
    build_codec_within_limits t [] opts elems structs maps h =
        rw kind-nil (tagged-Makes t (underlying env t) [] elems structs maps h)
    build_codec_within_limits t (e ∷ es) opts elems structs maps h =
        elim (Bool-cases (Tags.kind (tag_bytes (e ∷ es)) == Tags.opt)) [
          | inl p ↦ rw p (opt-Makes t e es opts h)
          | inr p ↦ rw p (tagged-Makes t (underlying env t) (e ∷ es) elems structs maps h)
        ]
