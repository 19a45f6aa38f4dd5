-- ===== src/Coder/Runs.antt =====
-- A coder on a type that holds a pointer to itself, and on one whose construction panics.
use xdr.Prelude.{◌≡◌, ◌≢◌, refl, sym, ap, subst, inl, inr, arith, false, none, some, List, [], ◌∷◌}
use xdr.Types.{Basic, GoType, basic, ptr, named, TypeEnv}
use xdr.Types.Identity.{same_type}
use xdr.Tags.{Tag}
use xdr.Codecs.{XType, bool_codec, uint32_codec, custom_codec}
use xdr.Codecs.EncodeReflect.{Build, default_build, nounsafe_build}
use xdr.Coder.{
  Coder, new_coder, plain_codec, x_codec, deferred, Building, built, build_panics, part, returned,
  panicked, out_of_fuel, load, load_base, run, get_codec, get_base_codec, get_new_codec,
}
use xdr.Coder.Memos.{x_type}
use xdr.Coder.Lookups.{
  Reaches, here, by_type, codecs_stay, placeholders_resolved, panic_leaves_placeholder,
}
use xdr.Coder.Ends.{IsIn, AsksWithin, get_codec_ends}
use xdr.Coder.Register.{registered, register_codec_reflect}
use xdr.Coder.Registering.{registered_codec_use}

abbrev node : GoType
node = named 0

-- A construction for the type asks for the pointer, and one for the pointer asks for the type.
abbrev constructions : GoType → Tag → Building
constructions (named i) tag = part (ptr (named i)) [] (λ c. built (x_codec bool_codec))
constructions (ptr t) tag = part t [] (λ c. built (x_codec uint32_codec))
constructions t tag = build_panics

abbrev done_coder : Coder
done_coder = record {
  known_base_codecs = (node, x_codec bool_codec) ∷ (ptr node, x_codec uint32_codec) ∷ [];
  known_codecs =
      (x_type node [], x_codec bool_codec)
      ∷ (x_type (ptr node) [], x_codec uint32_codec)
      ∷ (x_type (ptr node) [], deferred (x_type (ptr node) []))
      ∷ (x_type node [], deferred (x_type node []))
      ∷ [];
  resolved =
      (x_type node [], x_codec bool_codec) ∷ (x_type (ptr node) [], x_codec uint32_codec) ∷ [];
}

node_made :
    get_codec default_build constructions 2 node [] new_coder
    ≡ returned (x_codec bool_codec) done_coder
unfolding get_codec get_new_codec run load same_type
node_made = refl

pointer_known :
    get_base_codec default_build constructions 0 (ptr node) done_coder
    ≡ returned (x_codec uint32_codec) done_coder
unfolding get_base_codec load_base load same_type
pointer_known = refl

codecs_stay_example :
    (get_codec default_build constructions 0 node [] done_coder
      ≡ returned (x_codec bool_codec) done_coder)
    × (◌≡◌ {A = Tag} [] []
        → get_base_codec default_build constructions 0 node done_coder
          ≡ returned (x_codec bool_codec) done_coder)
codecs_stay_example =
    codecs_stay default_build constructions 2 0 node [] (x_codec bool_codec) here node_made
      (by_type 0 (ptr node) (x_codec uint32_codec) here pointer_known)

pointer_stored : load (x_type (ptr node) []) done_coder.known_codecs ≡ some (x_codec uint32_codec)
unfolding load same_type
pointer_stored = refl

placeholders_resolved_example :
    load (x_type (ptr node) []) done_coder.resolved ≡ some (x_codec uint32_codec)
placeholders_resolved_example =
    placeholders_resolved default_build constructions (x_type (ptr node) []) (x_codec uint32_codec)
      (Reaches.by_tag 2 node [] (x_codec bool_codec) here node_made) pointer_stored

abbrev bad : GoType
bad = basic Basic.chan

abbrev left_over : Coder
left_over = record {
  known_base_codecs = [];
  known_codecs = (x_type bad [], deferred (x_type bad [])) ∷ [];
  resolved = [];
}

bad_unknown : load (x_type bad []) new_coder.known_codecs ≡ none
unfolding load
bad_unknown = refl

bad_panics : get_codec default_build constructions 3 bad [] new_coder ≡ panicked left_over
unfolding get_codec get_new_codec run load same_type
bad_panics = refl

panic_leaves_placeholder_example :
    (get_codec default_build constructions 7 bad [] left_over
      ≡ returned (deferred (x_type bad [])) left_over)
    × (load (x_type bad []) left_over.resolved ≡ load (x_type bad []) new_coder.resolved)
panic_leaves_placeholder_example =
    panic_leaves_placeholder default_build constructions 3 7 bad [] new_coder left_over bad_unknown
      bad_panics

abbrev both : List XType
both = x_type node [] ∷ x_type (ptr node) [] ∷ []

both-AsksWithin :
    (s : GoType) (g : Tag) → IsIn (x_type s g) both → AsksWithin both (constructions s g)
both-AsksWithin s g (inl e) =
    subst (λ z. AsksWithin both (constructions z g)) (sym (ap (λ x. x.type) e))
      (inr (inl refl), λ c. tt)
both-AsksWithin s g (inr (inl e)) =
    subst (λ z. AsksWithin both (constructions z g)) (sym (ap (λ x. x.type) e)) (inl refl, λ c. tt)
both-AsksWithin s g (inr (inr i)) = absurd i

get_codec_ends_example : get_codec default_build constructions 2 node [] new_coder ≢ out_of_fuel
get_codec_ends_example =
    get_codec_ends default_build constructions both 2 node [] new_coder both-AsksWithin (inl refl)
      (omega arith)

abbrev env : TypeEnv
env i = record { name = []; underlying = basic Basic.bool; is_marshaler = false }

registered_codec_use_example :
    (more : Coder) × ((build : Build)
      → register_codec_reflect build env
          (λ c d. false)
          node
          (plain_codec (custom_codec 1))
          new_coder
        ≡ registered more)
    × (get_codec nounsafe_build constructions 0 node [] more
        ≡ returned (plain_codec (custom_codec 1)) more)
    × (get_codec default_build constructions 0 node [] more ≡ panicked more)
    × (get_base_codec default_build constructions 0 node more ≡ panicked more)
registered_codec_use_example =
    registered_codec_use env (λ c d. false) constructions node (custom_codec 1) new_coder 0 refl
      refl (unfold load in refl) (unfold load_base in refl)
