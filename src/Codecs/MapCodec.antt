-- ===== src/Codecs/MapCodec.antt =====
-- internal/coder/codec_map.go. A Go map is its entries, in an order that nothing depends on; keys and
-- values are of any types, and their codecs are used through `Encode` and `Decode` only, as in the
-- code.
use xdr.Prelude.{
  ℕ, zero, suc, ◌%◌, ◌^◌, Bool, Option, none, some, List, [], ◌∷◌, ltb, ◌==◌, if◌then◌else◌, length,
}
use xdr.Errors.{Err, invalid_tag_for_type_error, length_error}
use xdr.Io.{Writer, Encode, Decode, Decoded, done, failed, got, aborted, ◌>>◌}
use xdr.Types.{GoType}
use xdr.Tags as Tags
use xdr.Tags.{Tag, ◌>>=◌, empty, next, only_value}
use xdr.Encoder.{max_uint32, encode_unsigned_int}
use xdr.Decoder.{decode_unsigned_int}
use xdr.Codecs.Make.{capped}

-- `mapCodec`, for codecs of a type `C`: `keyCodec`, `valueCodec`, `t`, `kt`, `vt`, `maxlen` and
-- `origMax`.
pub record MapCodec {ℓ} (C : Type ℓ) : Type ℓ where
  pub key_codec : C
  pub value_codec : C
  pub type : GoType
  pub key_type : GoType
  pub value_type : GoType
  pub max_len : ℕ
  pub orig_max : ℕ

-- The result of `makeMapCodec`: a map codec, or an error codec.
pub data MapMade {ℓ} (C : Type ℓ) : Type ℓ where
  map_made : MapCodec C → MapMade C
  map_refused : Err → MapMade C

module _ {ℓ} {C : Type ℓ} (max_int : ℕ) (get_codec : GoType → Tag → Option C) where
  -- `makeMapCodec` for a map type from `key` to `elem`, once the maximum is known.
  unfoldable pub sized_map : GoType → GoType → GoType → Tag → ℕ → Option (MapMade C)
  unfolding capped
  sized_map t key elem tag maxlen = do
    kc ← get_codec key []
    rest ← next tag
    vc ← get_codec elem rest
    some (
        map_made (record {
          key_codec = kc;
          value_codec = vc;
          type = t;
          key_type = key;
          value_type = elem;
          max_len = capped max_int maxlen;
          orig_max = maxlen;
        }))

  -- `makeMapCodec`
  unfoldable pub make_map_codec : GoType → GoType → GoType → Tag → Option (MapMade C)
  unfolding sized_map
  make_map_codec t key elem tag =
      if Tags.kind tag == Tags.max_len
      then (only_value tag >>= λ n. sized_map t key elem tag n)
      else if Tags.kind tag == Tags.noop
      then sized_map t key elem tag max_uint32
      else some (map_refused (invalid_tag_for_type_error t tag))

-- What the map codec uses of the codec of its keys or values: `Encode`, and `Decode` into a new
-- variable.
pub record ElementCodec (W A : Type 0) : Type 0 where
  pub encode : A → Encode W
  pub decode : Decode A

-- Go's `==` on keys.
pub record KeyEq (K : Type 0) : Type 0 where
  pub same_key : K → K → Bool

module _ {K V : Type 0} ⦃keys : KeyEq K⦄ where
  -- `v.SetMapIndex(k, vv)`
  unfoldable pub set_map_index : K → V → List (K × V) → List (K × V)
  set_map_index k v [] = (k, v) ∷ []
  set_map_index k v ((j, w) ∷ m) =
      if keys.same_key j k then (k, v) ∷ m else (j, w) ∷ set_map_index k v m

  -- `v.MapIndex(k)`
  unfoldable pub map_index : K → List (K × V) → Option V
  map_index k [] = none
  map_index k ((j, w) ∷ m) = if keys.same_key j k then some w else map_index k m

-- Go on if there is no error; otherwise `m` is what has been decoded.
abbrev pub and_next {ℓ κ} : {A : Type ℓ} {M : Type κ} → M → Decoded A → (A → Decode M) → Decoded M
and_next m (got a none r) f = f a r
and_next m (got a (some e) r) f = got m (some e) r
and_next m (aborted x) f = aborted x

module _ {W K V : Type 0} ⦃io : Writer W⦄ where
  -- The loop over the entries that the iterator has still to give.
  unfoldable pub encode_entries : ElementCodec W K → ElementCodec W V → List (K × V) → Encode W
  encode_entries kc vc [] = done
  encode_entries kc vc ((k, v) ∷ m) = kc.encode k >> vc.encode v >> encode_entries kc vc m

  -- `mapCodec.Encode`; `map_range` is the order in which the entries are iterated over.
  unfoldable pub encode_map :
      {C : Type 0}
      → (List (K × V) → List (K × V))
      → MapCodec C
      → ElementCodec W K
      → ElementCodec W V
      → List (K × V)
      → Encode W
  unfolding encode_entries
  encode_map map_range c kc vc m =
      if ltb c.max_len (length m)
      then failed (length_error (length m) c.orig_max)
      else (encode_unsigned_int (length m % 2 ^ 32) >> encode_entries kc vc (map_range m))

  -- The loop over the entries that are left.
  unfoldable pub decode_entries :
      ⦃keys : KeyEq K⦄
      → ElementCodec W K
      → ElementCodec W V
      → ℕ
      → List (K × V)
      → Decode (List (K × V))
  unfolding set_map_index
  decode_entries kc vc zero m = got m none
  decode_entries kc vc (suc n) m = λ r.
      and_next m (kc.decode r)
        λ k. λ r1. and_next m (vc.decode r1) λ v. decode_entries kc vc n (set_map_index k v m)

  -- `mapCodec.Decode`, into a variable that holds the map `m`.
  unfoldable pub decode_map :
      ⦃keys : KeyEq K⦄ {C : Type 0}
      → MapCodec C
      → ElementCodec W K
      → ElementCodec W V
      → List (K × V)
      → Decode (List (K × V))
  unfolding decode_entries
  decode_map c kc vc m r = and_next m (decode_unsigned_int r) λ l.
      if ltb (c.max_len % 2 ^ 32) l
      then got m (some (length_error l c.orig_max))
      else decode_entries kc vc l []
