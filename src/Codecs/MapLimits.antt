-- ===== src/Codecs/MapLimits.antt =====
-- internal/coder/codec_map.go: the maximal number of entries.
use xdr.Prelude.{
  ℕ, ◌≤◌, ◌<◌, ◌^◌, ◌%◌, ◌≡◌, inl, inr, refl, false, Option, some, List, [], ◌∷◌, ◌++◌, All, length,
  arith, ◌==◌, Bool-cases, lt→ltb,
}
use xdr.Errors.{IoError, length_error, invalid_tag_for_type_error}
use xdr.Io.{Writer, got, failed}
use xdr.Types.{GoType}
use xdr.Tags as Tags
use xdr.Tags.{Tag, ◌>>=◌, next, only_value}
use xdr.Tags.Entries.{Entry, flag, single, multi, IsEntry, tag_bytes}
use xdr.Tags.Accessors.{accessors_first_entry}
use xdr.Encoder.{max_uint32}
use xdr.Encoder.Wire.{big_endian}
use xdr.Decoder.Reads.{delivering, decode_unsigned_int-Reads}
use xdr.Codecs.Make.{capped}
use xdr.Codecs.MakesStrings.{capped_lem, kind-nil}
use xdr.Codecs.Making.{HasCodecs, rest_of, rest_of-IsEntry, next-rest_of}
use xdr.Codecs.MapCodec.{
  MapCodec, MapMade, map_made, map_refused, sized_map, make_map_codec, ElementCodec, KeyEq,
  encode_map, decode_map,
}

-- A map beyond the codec's maximum is refused before anything is written, and a declared number of
-- entries beyond it right behind the number, with the map that is decoded into left as it was; the
-- error has the actual number and the declared maximum.
pub map_limits :
    {W K V C : Type 0} ⦃io : Writer W⦄ ⦃keys : KeyEq K⦄ (map_range : List (K × V) → List (K × V))
    (c : MapCodec C) (kc : ElementCodec W K) (vc : ElementCodec W V) (m : List (K × V)) (n : ℕ)
    (rest : List ℕ) (fault : IoError) (w : W)
    → c.max_len < length m
    → c.max_len < n
    → n < 2 ^ 32
    → (encode_map map_range c kc vc m w ≡ failed (length_error (length m) c.orig_max) w)
      × (decode_map c kc vc m (delivering (big_endian 4 n ++ rest) fault)
          ≡ got m (some (length_error n c.orig_max)) (delivering rest fault))
unfolding encode_map decode_map
map_limits map_range c kc vc m n rest fault w h k b =
    let top : c.max_len % 2 ^ 32 ≡ c.max_len = omega arith in
    (
      rw (lt→ltb c.max_len (length m) h) refl,
      rw (decode_unsigned_int-Reads rest fault n b, top, lt→ltb c.max_len n k) refl,
    )

-- Lengths that an `int` and the format can hold.
abbrev pub IsLimitedMap {ℓ} : {C : Type ℓ} → ℕ → MapMade C → Type 0
IsLimitedMap max_int (map_made c) =
    (c.max_len ≤ max_int) × (c.max_len ≤ c.orig_max) × (c.orig_max ≤ max_uint32)
IsLimitedMap max_int (map_refused e) = Unit

module _ {C : Type 0} (max_int : ℕ) (get_codec : GoType → Tag → Option C) (t key elem : GoType)
    (key_gets : (c : C) × (get_codec key [] ≡ some c)) (elem_gets : HasCodecs get_codec elem) where
  sized_map-IsLimited :
      (es : List Entry) (n : ℕ)
      → All IsEntry es
      → n < 2 ^ 32
      → (c : MapMade C) × (sized_map max_int get_codec t key elem (tag_bytes es) n ≡ some c)
        × IsLimitedMap max_int c
  unfolding sized_map
  sized_map-IsLimited es n h b =
      let (kc, p) = key_gets in
      let (vc, q) = elem_gets (rest_of es) (rest_of-IsEntry es h) in
      (
        map_made (record {
          key_codec = kc;
          value_codec = vc;
          type = t;
          key_type = key;
          value_type = elem;
          max_len = capped max_int n;
          orig_max = n;
        }),
        rw (p, next-rest_of es h, q) refl,
        capped_lem max_int n b,
      )

  -- Where the coder has a codec for the key type without a tag, and for the element type with each tag
  -- that is made of entries, `makeMapCodec` does not panic on a tag that is made of entries, and the
  -- maximum of a map codec that it makes fits the platform's `int`, and the one for errors 32 bits.
  pub make_map_within_limits :
      (es : List Entry)
      → All IsEntry es
      → (c : MapMade C) × (make_map_codec max_int get_codec t key elem (tag_bytes es) ≡ some c)
        × IsLimitedMap max_int c
  unfolding make_map_codec
  make_map_within_limits [] h = rw kind-nil (sized_map-IsLimited [] max_uint32 h (omega arith))
  make_map_within_limits (flag j ∷ es) h =
      let (k, n, v, o) = accessors_first_entry (flag j) es h.0 in
      let no_max : (j == Tags.max_len) ≡ false = ground arith in
      elim (Bool-cases (j == Tags.noop)) [
        | inl p ↦ rw (k, no_max, p) (sized_map-IsLimited (flag j ∷ es) max_uint32 h (omega arith))
        | inr p ↦
            rw (k, no_max, p)
              (map_refused (invalid_tag_for_type_error t (tag_bytes (flag j ∷ es))), refl, tt)
      ]
  make_map_within_limits (single j w ∷ es) h =
      let (k, n, v, o) = accessors_first_entry (single j w) es h.0 in
      let value : only_value (tag_bytes (single j w ∷ es)) ≡ some w = o j w refl in
      let no_noop : (j == Tags.noop) ≡ false = ground arith in
      elim (Bool-cases (j == Tags.max_len)) [
        | inl p ↦ rw (k, p, value) (sized_map-IsLimited (single j w ∷ es) w h h.0.2)
        | inr p ↦
            rw (k, p, no_noop)
              (map_refused (invalid_tag_for_type_error t (tag_bytes (single j w ∷ es))), refl, tt)
      ]
  make_map_within_limits (multi j ws ∷ es) h =
      let (k, n, v, o) = accessors_first_entry (multi j ws) es h.0 in
      let no_max : (j == Tags.max_len) ≡ false = ground arith in
      let no_noop : (j == Tags.noop) ≡ false = ground arith in
      rw (k, no_max, no_noop)
        (map_refused (invalid_tag_for_type_error t (tag_bytes (multi j ws ∷ es))), refl, tt)
