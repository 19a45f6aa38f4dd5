-- ===== src/Codecs/MapRoundTrip.antt =====
-- internal/coder/codec_map.go: maps are decoded to what was encoded, in whatever order the entries
-- went by, and the limit is kept on both ways.
use xdr.Prelude.{ℕ, ◌≡◌, false, none, List, [], ◌∷◌, ◌++◌, All}
use xdr.Errors.{IoError}
use xdr.Io.{Writer, got}
use xdr.Encoder.Emits.{WriterLaws, Emits}
use xdr.Decoder.Reads.{delivering}
use xdr.Codecs.MapCodec.{MapCodec, ElementCodec, KeyEq}

-- The codec of keys or of values: what it writes for a value that is in its range is read back.
pub record Carries {W MayFail A : Type 0} ⦃io : Writer W⦄ (laws : WriterLaws W MayFail)
    (codec : ElementCodec W A) : Type 1 where
  pub InRange : A → Type 0
  pub wire : A → List ℕ
  pub emits : (a : A) → InRange a → Emits laws (codec.encode a) (wire a)
  pub reads :
      (a : A) (rest : List ℕ) (fault : IoError)
      → InRange a
      → codec.decode (delivering (wire a ++ rest) fault) ≡ got a none (delivering rest fault)

module _ {K V : Type 0} ⦃keys : KeyEq K⦄ where
  abbrev pub IsOther : K → K × V → Type 0
  IsOther k e = keys.same_key k e.0 ≡ false

  -- A map has no key twice.
  abbrev pub HasDistinctKeys : List (K × V) → Type 0
  HasDistinctKeys [] = Unit
  HasDistinctKeys (e ∷ m) = All (IsOther e.0) m × HasDistinctKeys m

  -- None of the entries has a key that the map has.
  abbrev pub AreNew : List (K × V) → List (K × V) → Type 0
  AreNew m es = All (λ e. All (λ d. keys.same_key d.0 e.0 ≡ false) m) es

module _ {W MayFail K V : Type 0} ⦃io : Writer W⦄ ⦃keys : KeyEq K⦄ (laws : WriterLaws W MayFail)
    (kc : ElementCodec W K) (vc : ElementCodec W V) (carry_key : Carries laws kc)
    (carry_value : Carries laws vc) where
  abbrev pub InRanges : List (K × V) → Type 0
  InRanges m = All (λ e. carry_key.InRange e.0 × carry_value.InRange e.1) m

  -- The entries one behind the other, each key in front of its value.
  abbrev pub entries_wire : List (K × V) → List ℕ
  entries_wire [] = []
  entries_wire ((k, v) ∷ m) = (carry_key.wire k ++ carry_value.wire v) ++ entries_wire m
