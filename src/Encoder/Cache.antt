-- ===== src/Encoder/Cache.antt =====
-- internal/coder/encoder.go: the small cache of codecs that an encoder keeps, and `EncodeValue`. What
-- the encoder asks of the coder is an interface here: a codec for each type. A coder and a type are
-- told apart by Go's `==`.
use xdr.Prelude.{
  ℕ, zero, suc, ◌+◌, ◌<◌, ◌≡◌, refl, ap, sym, subst, ap₂, inl, inr, Bool-cases, Option-cases, ◌∙◌,
  Bool, true, Option, none, some, List, [], ◌∷◌, bit_and, if◌then◌else◌, length, All, arith,
}
use mathlib.Core.Option.{some-injective}
use xdr.Prelude.Bits.{and_three}

pub record Coders (Coder GoType Codec : Type 0) : Type 0 where
  pub get_base_codec : Coder → GoType → Codec
  pub same_coder : Coder → Coder → Bool
  pub same_type : GoType → GoType → Bool
  pub same_coder_sound : (k l : Coder) → same_coder k l ≡ true → k ≡ l
  pub same_type_sound : (t u : GoType) → same_type t u ≡ true → t ≡ u

module _ {Coder GoType Codec : Type 0} (coders : Coders Coder GoType Codec) where
  -- An entry of `codecCache`; it is `none` where the type is nil.
  abbrev pub Entry : Type 0
  Entry = Option (GoType × Codec)

  -- `cr`, `codecCache` and `codecCacheSlot`.
  pub record Cached : Type 0 where
    pub cr : Coder
    pub codec_cache : List Entry
    pub codec_cache_slot : ℕ

  abbrev pub cleared : List Entry → List Entry
  cleared [] = []
  cleared (e ∷ es) = none ∷ cleared es

  -- The part of `reset` that concerns the cache.
  unfoldable pub reset : Coder → Cached → Cached
  reset cr e = record {
    cr = cr;
    codec_cache = if coders.same_coder e.cr cr then e.codec_cache else cleared e.codec_cache;
    codec_cache_slot = e.codec_cache_slot;
  }

  abbrev entry_hit : GoType → Entry → Option Codec → Option Codec
  entry_hit t none later = later
  entry_hit t (some (u, c)) later = if coders.same_type u t then some c else later

  -- The loop over the cache: the codec of the first entry for the type.
  unfoldable pub look_up : GoType → List Entry → Option Codec
  look_up t [] = none
  look_up t (e ∷ es) = entry_hit t e (look_up t es)

  abbrev pub set_entry : ℕ → Entry → List Entry → List Entry
  set_entry i e [] = []
  set_entry zero e (d ∷ es) = e ∷ es
  set_entry (suc i) e (d ∷ es) = d ∷ set_entry i e es

  abbrev found : GoType → Cached → Option Codec → Codec × Cached
  found t e (some c) = (c, e)
  found t e none =
      let c = coders.get_base_codec e.cr t in
      let slot = bit_and (e.codec_cache_slot + 1) 3 in
      (
        c,
        record {
          cr = e.cr;
          codec_cache = set_entry slot (some (t, c)) e.codec_cache;
          codec_cache_slot = slot;
        },
      )

  -- `EncodeValue` up to the call of the codec: the codec that it calls, for a value of the type.
  unfoldable pub codec_for : GoType → Cached → Codec × Cached
  unfolding look_up
  codec_for t e = found t e (look_up t e.codec_cache)

  pub data Call : Type 0 where
    reset_call : Coder → Call
    encode_call : GoType → Call

  -- The codecs that a sequence of calls uses.
  unfoldable pub codecs_used : List Call → Cached → List Codec
  unfolding reset codec_for
  codecs_used [] e = []
  codecs_used (reset_call cr ∷ calls) e = codecs_used calls (reset cr e)
  codecs_used (encode_call t ∷ calls) e = (codec_for t e).0 ∷ codecs_used calls (codec_for t e).1

  -- The same without a cache.
  abbrev pub codecs_asked : List Call → Coder → List Codec
  codecs_asked [] cr = []
  codecs_asked (reset_call k ∷ calls) cr = codecs_asked calls k
  codecs_asked (encode_call t ∷ calls) cr = coders.get_base_codec cr t ∷ codecs_asked calls cr

  -- An entry has the codec that the coder has for its type.
  abbrev pub IsCurrent : Coder → Entry → Type 0
  IsCurrent cr none = Unit
  IsCurrent cr (some (t, c)) = c ≡ coders.get_base_codec cr t

  -- The cache has its four entries, and they are current.
  abbrev pub IsValid : Cached → Type 0
  IsValid e =
      (length e.codec_cache ≡ 4) × (e.codec_cache_slot < 4) × All (IsCurrent e.cr) e.codec_cache

  cleared-IsCurrent : (cr : Coder) (es : List Entry) → All (IsCurrent cr) (cleared es)
  cleared-IsCurrent cr [] = tt
  cleared-IsCurrent cr (e ∷ es) = (tt, cleared-IsCurrent cr es)

  length-cleared : (es : List Entry) → length (cleared es) ≡ length es
  length-cleared [] = refl
  length-cleared (e ∷ es) = omega (arith, length-cleared es)

  length-set_entry : (i : ℕ) (e : Entry) (es : List Entry) → length (set_entry i e es) ≡ length es
  length-set_entry i e [] = refl
  length-set_entry zero e (d ∷ es) = refl
  length-set_entry (suc i) e (d ∷ es) = omega (arith, length-set_entry i e es)

  set_entry-IsCurrent :
      (cr : Coder) (i : ℕ) (e : Entry) (es : List Entry)
      → IsCurrent cr e
      → All (IsCurrent cr) es
      → All (IsCurrent cr) (set_entry i e es)
  set_entry-IsCurrent cr i e [] h hs = tt
  set_entry-IsCurrent cr zero e (d ∷ es) h hs = (h, hs.1)
  set_entry-IsCurrent cr (suc i) e (d ∷ es) h hs = (hs.0, set_entry-IsCurrent cr i e es h hs.1)

  look_up-IsCurrent :
      (cr : Coder) (t : GoType) (es : List Entry) (c : Codec)
      → All (IsCurrent cr) es
      → look_up t es ≡ some c
      → c ≡ coders.get_base_codec cr t
  unfolding look_up
  look_up-IsCurrent cr t [] c h e = cc
  look_up-IsCurrent cr t (none ∷ es) c h e = look_up-IsCurrent cr t es c h.1 e
  look_up-IsCurrent cr t (some (u, d) ∷ es) c h e = elim (Bool-cases (coders.same_type u t)) [
    | inl p ↦
        let same : some d ≡ some c = rw p at e in
        some-injective c d (sym same)
        ∙ h.0
        ∙ ap (coders.get_base_codec cr) (coders.same_type_sound u t p)
    | inr p ↦ look_up-IsCurrent cr t es c h.1 (rw p at e)
  ]

  reset-IsValid :
      (cr : Coder) (e : Cached) → IsValid e → IsValid (reset cr e) × ((reset cr e).cr ≡ cr)
  unfolding reset
  reset-IsValid cr e h = elim (Bool-cases (coders.same_coder e.cr cr)) [
    | inl p ↦ rw p (
      (
        h.0,
        h.1,
        subst (λ k. All (IsCurrent k) e.codec_cache) (coders.same_coder_sound e.cr cr p) h.2,
      ),
      refl,
    )
    | inr p ↦
        rw p ((length-cleared e.codec_cache ∙ h.0, h.1, cleared-IsCurrent cr e.codec_cache), refl)
  ]

  codec_for-IsValid :
      (t : GoType) (e : Cached)
      → IsValid e
      → ((codec_for t e).0 ≡ coders.get_base_codec e.cr t)
        × IsValid (codec_for t e).1
        × ((codec_for t e).1.cr ≡ e.cr)
  unfolding codec_for
  codec_for-IsValid t e h = elim (Option-cases (look_up t e.codec_cache)) [
    | inl p ↦ rw p (
      refl,
      (
        length-set_entry _ _ e.codec_cache ∙ h.0,
        omega (arith, and_three (e.codec_cache_slot + 1)),
        set_entry-IsCurrent e.cr _ _ e.codec_cache refl h.2,
      ),
      refl,
    )
    | inr (c, p) ↦ rw p (look_up-IsCurrent e.cr t e.codec_cache c h.2 p, h, refl)
  ]

  -- The cache is never seen: over any sequence of `reset`s, to any coders, and of `EncodeValue`s, from
  -- a state whose entries are current for its coder, each call uses the codec that the coder of the
  -- time has for the type of the value.
  pub cache_unseen :
      (calls : List Call) (e : Cached) → IsValid e → codecs_used calls e ≡ codecs_asked calls e.cr
  unfolding codecs_used
  cache_unseen [] e h = refl
  cache_unseen (reset_call cr ∷ calls) e h =
      let (valid, same) = reset-IsValid cr e h in
      cache_unseen calls (reset cr e) valid ∙ ap (codecs_asked calls) same
  cache_unseen (encode_call t ∷ calls) e h =
      let (codec, valid, same) = codec_for-IsValid t e h in
      ap₂ (λ c cs. c ∷ cs) codec
        (cache_unseen calls (codec_for t e).1 valid ∙ ap (codecs_asked calls) same)
