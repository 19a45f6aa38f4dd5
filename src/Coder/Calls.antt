-- ===== src/Coder/Calls.antt =====
-- internal/coder/coder.go: `getNewCodec`, `getCodec` and `getBaseCodec` keep the memos in order.
use xdr.Prelude.{
  ℕ, zero, suc, ◌≡◌, ◌≢◌, refl, sym, ◌∙◌, ap, subst, inl, inr, true, false, Option, none, some,
  List, [], ◌∷◌, Bool-cases,
}
use xdr.Types.{GoType}
use xdr.Types.Identity.{same_type, same_type_sound, same_type_refl}
use xdr.Tags.{Tag}
use xdr.Codecs.{XType}
use xdr.Codecs.EncodeReflect.{Build, default_build, nounsafe_build}
use xdr.Coder.{
  Stored, plain_codec, x_codec, unsafe_wrapper, deferred, to_x_codec, is_x_codec, Coder, Building,
  Outcome, returned, panicked, out_of_fuel, load_base, load, store, and_then, or_else, publish,
  get_new_codec, get_codec,
}
use xdr.Coder.Memos.{
  x_type, load-same, load-other, x_type-cases, none-some, Grows, Grows-refl, IsAgreed, Keeps, Runs,
  Gives, Answers, run-Runs,
}

-- With the placeholder stored, the construction run, and the codec published.
module _ (x : XType) (d : Stored) (cr : Coder) (unknown : load x cr.known_codecs ≡ none) where
  other : (y : XType) (c : Stored) → load y cr.known_codecs ≡ some c → x ≢ y
  other y c h e = none-some unknown (ap (λ z. load z cr.known_codecs) e ∙ h)

  started : (y : XType) → x ≢ y → load y ((x, d) ∷ cr.known_codecs) ≡ load y cr.known_codecs
  started y h = load-other x d cr.known_codecs y h

  started-IsAgreed : IsAgreed cr → IsAgreed (store x d cr)
  started-IsAgreed i t c h = started (x_type t []) (other (x_type t []) c (i t c h)) ∙ i t c h

  started-Keeps : (more : Coder) → Keeps (store x d cr) more → Keeps cr more
  started-Keeps more (kept, settled) = (
    λ y c h. kept y c (started y (other y c h) ∙ h),
    λ y c h. settled y c (started y (other y c h) ∙ h),
  )

  published-Grows :
      (cc : Stored) (built : Coder) (base : List (GoType × Stored))
      → Grows (store x d cr) built
      → Grows cr (record {
        known_base_codecs = base;
        known_codecs = (x, cc) ∷ built.known_codecs;
        resolved = (x, cc) ∷ built.resolved;
      })
  published-Grows cc built base g = record {
    kept = λ y c h.
        load-other x cc built.known_codecs y (other y c h)
        ∙ g.kept y c (started y (other y c h) ∙ h);
    fresh = λ y c h k. elim (x_type-cases x y) [
      | inl p ↦
          subst
            (λ z.
              load z ((x, cc) ∷ built.known_codecs) ≡ some c
              → load z ((x, cc) ∷ built.resolved) ≡ some c)
            p (λ l. load-same x cc built.resolved ∙ (sym (load-same x cc built.known_codecs) ∙ l)) k
      | inr p ↦
          load-other x cc built.resolved y p
          ∙ g.fresh y c (started y p ∙ h) (sym (load-other x cc built.known_codecs y p) ∙ k)
    ];
    settled = λ y c h.
        load-other x cc built.resolved y (other y c h)
        ∙ g.settled y c (started y (other y c h) ∙ h);
  }

true-false : true ≡ false → ⊥
true-false e = cc

tag_nonempty : {b : ℕ} {bs : Tag} → ◌≡◌ {A = Tag} (b ∷ bs) [] → ⊥
tag_nonempty e = cc

-- Both memos have the codec of a type without a tag.
untagged-IsAgreed :
    (t : GoType) (c : Stored) (cr : Coder)
    → IsAgreed cr
    → IsAgreed (record {
      known_base_codecs = (t, c) ∷ cr.known_base_codecs;
      known_codecs = (x_type t [], c) ∷ cr.known_codecs;
      resolved = (x_type t [], c) ∷ cr.resolved;
    })
unfolding load_base
untagged-IsAgreed t c cr i u e h = elim (Bool-cases (same_type t u)) [
  | inl p ↦
      let same : t ≡ u = same_type_sound t u p in
      let value : some c ≡ some e = rw p at h in
      subst (λ z. load (x_type z []) ((x_type t [], c) ∷ cr.known_codecs) ≡ some e) same
        (load-same (x_type t []) c cr.known_codecs ∙ value)
  | inr p ↦
      load-other (x_type t []) c cr.known_codecs (x_type u [])
        (λ q. true-false (sym (same_type_refl t) ∙ (ap (λ z. same_type t z.type) q ∙ p)))
      ∙ i u e (rw p at h)
]

tagged-IsAgreed :
    (t : GoType) (b : ℕ) (bs : Tag) (c : Stored) (cr : Coder)
    → IsAgreed cr
    → IsAgreed (record cr {
      known_codecs = (x_type t (b ∷ bs), c) ∷ cr.known_codecs;
      resolved = (x_type t (b ∷ bs), c) ∷ cr.resolved;
    })
tagged-IsAgreed t b bs c cr i u e h =
    load-other (x_type t (b ∷ bs)) c cr.known_codecs (x_type u [])
      (λ q. tag_nonempty (ap (λ z. z.encoded_tag) q))
    ∙ i u e h

wrapped : (build : Build) (c : Stored) (t : GoType) → is_x_codec build (to_x_codec build c t) ≡ true
wrapped default_build (plain_codec c) t = refl
wrapped default_build (x_codec c) t = refl
wrapped default_build (unsafe_wrapper c u) t = refl
wrapped nounsafe_build c t = refl

pub deferred_is_x : (build : Build) (x : XType) → is_x_codec build (deferred x) ≡ true
deferred_is_x default_build x = refl
deferred_is_x nounsafe_build x = refl

module _ (build : Build) (build_codec : GoType → Tag → Building) where
  pub publish-Gives :
      (t : GoType) (tag : Tag) (cr : Coder) (o : Outcome)
      → load (x_type t tag) cr.known_codecs ≡ none
      → Runs (store (x_type t tag) (deferred (x_type t tag)) cr) o
      → Gives build (x_type t tag) cr (and_then o (publish build t tag))
  publish-Gives t tag cr (panicked more) h r = started-Keeps (x_type t tag) _ cr h more r
  publish-Gives t tag cr out_of_fuel h r = tt
  publish-Gives t [] cr (returned c built) h (g, a) = (
    published-Grows (x_type t []) _ cr h (to_x_codec build c t) built _ g,
    λ i.
        untagged-IsAgreed t (to_x_codec build c t) built
          (a (started-IsAgreed (x_type t []) _ cr h i)),
    load-same (x_type t []) (to_x_codec build c t) built.known_codecs,
    wrapped build c t,
  )
  publish-Gives t (b ∷ bs) cr (returned c built) h (g, a) = (
    published-Grows (x_type t (b ∷ bs)) _ cr h (to_x_codec build c t) built _ g,
    λ i.
        tagged-IsAgreed t b bs (to_x_codec build c t) built
          (a (started-IsAgreed (x_type t (b ∷ bs)) _ cr h i)),
    load-same (x_type t (b ∷ bs)) (to_x_codec build c t) built.known_codecs,
    wrapped build c t,
  )

  pub known-Gives :
      (x : XType) (cr : Coder) (o : Option Stored) (other : Outcome)
      → load x cr.known_codecs ≡ o
      → (load x cr.known_codecs ≡ none → Gives build x cr other)
      → Gives build x cr (or_else build o cr other)
  known-Gives x cr none other h k = k h
  known-Gives x cr (some c) other h k = elim (Bool-cases (is_x_codec build c)) [
    | inl p ↦ rw p (Grows-refl cr, λ i. i, h, p)
    | inr p ↦ rw p (λ y d l. l, λ y d l. refl)
  ]

  pub get_new_codec-Gives :
      (ask : GoType → Tag → Coder → Outcome) (t : GoType) (tag : Tag) (cr : Coder)
      → Answers build ask
      → Gives build (x_type t tag) cr (get_new_codec build build_codec ask t tag cr)
  unfolding get_new_codec
  get_new_codec-Gives ask t tag cr h =
      known-Gives (x_type t tag) cr _ _ refl
        (λ p. publish-Gives t tag cr _ p (run-Runs build ask (build_codec t tag) _ h))

  pub get_codec-Answers : (fuel : ℕ) → Answers build (get_codec build build_codec fuel)
  unfolding get_codec
  get_codec-Answers zero t tag cr = known-Gives (x_type t tag) cr _ out_of_fuel refl (λ p. tt)
  get_codec-Answers (suc fuel) t tag cr = known-Gives (x_type t tag) cr _ _ refl (λ p.
      get_new_codec-Gives (get_codec build build_codec fuel) t tag cr (get_codec-Answers fuel))
