-- ===== src/Coder/Registering.antt =====
-- internal/coder/coder.go: what becomes of a codec that is registered.
use xdr.Prelude.{ℕ, zero, suc, ◌≡◌, refl, Bool, false, none, some, []}
use xdr.Types.{GoType, TypeEnv, kind}
use xdr.Tags.{Tag}
use xdr.Codecs.{Codec}
use xdr.Codecs.EncodeReflect.{Build, default_build, nounsafe_build}
use xdr.Coder.{
  Stored, plain_codec, Building, Coder, returned, panicked, load, load_base, store, get_codec,
  get_base_codec, get_new_codec,
}
use xdr.Coder.Memos.{x_type, load-same}
use xdr.Coder.Register.{
  prohibited_custom_codec_kinds, prohibited_primitives, registered, register_codec_reflect,
}

module _ (env : TypeEnv) (same_codec : Stored → Stored → Bool)
    (build_codec : GoType → Tag → Building) where
  -- Registering a codec for a type that has none, of a kind that is not prohibited and no primitive,
  -- succeeds. What `getCodec` makes of the type and no tag after that depends on the build: without
  -- unsafe it returns the codec, and the default build panics, as it does in `getBaseCodec`.
  pub registered_codec_use :
      (t : GoType) (c : Codec) (cr : Coder) (fuel : ℕ)
      → prohibited_custom_codec_kinds (kind env t) ≡ false
      → prohibited_primitives t ≡ false
      → load (x_type t []) cr.known_codecs ≡ none
      → load_base t cr.known_base_codecs ≡ none
      → (more : Coder) × ((build : Build)
          → register_codec_reflect build env same_codec t (plain_codec c) cr ≡ registered more)
        × (get_codec nounsafe_build build_codec fuel t [] more ≡ returned (plain_codec c) more)
        × (get_codec default_build build_codec fuel t [] more ≡ panicked more)
        × (get_base_codec default_build build_codec fuel t more ≡ panicked more)
  unfolding register_codec_reflect
  registered_codec_use t c cr fuel h k n b =
      (more, λ build. rw (h, k, n) refl, by_nounsafe fuel, by_default fuel, by_base fuel)
    where
      more : Coder
      more = store (x_type t []) (plain_codec c) cr

      known : load (x_type t []) more.known_codecs ≡ some (plain_codec c)
      known = load-same (x_type t []) (plain_codec c) cr.known_codecs

      by_nounsafe :
          (f : ℕ) → get_codec nounsafe_build build_codec f t [] more ≡ returned (plain_codec c) more
      by_nounsafe zero = unfold get_codec in rw known refl
      by_nounsafe (suc f) = unfold get_codec in rw known refl

      by_default : (f : ℕ) → get_codec default_build build_codec f t [] more ≡ panicked more
      by_default zero = unfold get_codec in rw known refl
      by_default (suc f) = unfold get_codec in rw known refl

      by_base : (f : ℕ) → get_base_codec default_build build_codec f t more ≡ panicked more
      by_base zero = unfold get_base_codec in rw (b, known) refl
      by_base (suc f) = unfold get_base_codec get_new_codec in rw (b, known) refl
