-- ===== src/Encoder/Runs.antt =====
-- The encoder on concrete values.
use xdr.Prelude.{
  arith, ◌==◌, ==_iff, true, none, ℕ, ◌-◌, ◌^◌, map, ◌≤◌, ◌<◌, ◌≡◌, refl, List, [], ◌∷◌, length,
}
use xdr.Errors.{length_error}
use xdr.Io.{done, failed}
use xdr.Encoder.{
  max_uint32, padding, encode_int, encode_unsigned_int, encode_fixed_opaque, encode_opaque,
  encode_string,
}
use xdr.Encoder.Wire.{counted}
use xdr.Encoder.Emits.{Emits}
use xdr.Encoder.Buffer.{Buffer, buffer_writer, buffer_laws}
use xdr.Encoder.Cache.{
  Coders, Cached, Call, encode_call, reset_call, IsValid, codecs_used, cache_unseen,
}
use xdr.Encoder.Limits.{encode_counted}

abbrev five_bytes : List ℕ
five_bytes = 1 ∷ 2 ∷ 3 ∷ 4 ∷ 5 ∷ []

paddings : map padding (0 ∷ five_bytes) ≡ 0 ∷ 3 ∷ 2 ∷ 1 ∷ 0 ∷ 3 ∷ []
unfolding padding
paddings = refl

minus_two : encode_int {W = Buffer} (2 ^ 32 - 2) [] ≡ done (255 ∷ 255 ∷ 255 ∷ 254 ∷ [])
unfolding encode_int
minus_two = refl

five_counted :
    encode_opaque {W = Buffer} five_bytes []
    ≡ done (0 ∷ 0 ∷ 0 ∷ 5 ∷ 1 ∷ 2 ∷ 3 ∷ 4 ∷ 5 ∷ 0 ∷ 0 ∷ 0 ∷ [])
unfolding encode_opaque encode_unsigned_int encode_fixed_opaque padding encode_int
five_counted = refl

encode_counted_example :
    (length five_bytes ≤ max_uint32
      → Emits buffer_laws (encode_opaque five_bytes) (counted five_bytes)
        × Emits buffer_laws (encode_string five_bytes) (counted five_bytes))
    × (max_uint32 < length five_bytes
        → (w : Buffer)
        → (encode_opaque five_bytes w ≡ failed (length_error (length five_bytes) max_uint32) w)
          × (encode_string five_bytes w ≡ failed (length_error (length five_bytes) max_uint32) w))
encode_counted_example = encode_counted buffer_laws five_bytes

abbrev eq_sound : (k l : ℕ) → (k == l) ≡ true → k ≡ l
eq_sound k l h = (==_iff k l).0 h

-- Coders and types that are numbers; a codec is the pair of the two.
abbrev numbered : Coders ℕ ℕ (ℕ × ℕ)
numbered = record {
  get_base_codec = λ k t. (k, t);
  same_coder = λ k l. k == l;
  same_type = λ t u. t == u;
  same_coder_sound = eq_sound;
  same_type_sound = eq_sound;
}

abbrev fresh : Cached numbered
fresh = record { cr = 0; codec_cache = none ∷ none ∷ none ∷ none ∷ []; codec_cache_slot = 3 }

abbrev calls : List (Call numbered)
calls = encode_call 1 ∷ encode_call 2 ∷ encode_call 1 ∷ reset_call 5 ∷ encode_call 1 ∷ []

fresh-IsValid : IsValid numbered fresh
fresh-IsValid = (refl, omega arith, (tt, (tt, (tt, (tt, tt)))))

cache_unseen_example : codecs_used numbered calls fresh ≡ (0, 1) ∷ (0, 2) ∷ (0, 1) ∷ (5, 1) ∷ []
cache_unseen_example = cache_unseen numbered calls fresh fresh-IsValid
