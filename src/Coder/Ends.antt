-- ===== src/Coder/Ends.antt =====
-- internal/coder/coder.go: the construction of codecs ends, for types in cycles too.
use xdr.Prelude.{
  ℕ, zero, suc, ◌+◌, ◌≤◌, ◌<◌, ◌≡◌, ◌≢◌, refl, ◌∙◌, ap, subst, inl, inr, ◌⊎◌, Option, none, some,
  List, [], ◌∷◌, Option-cases, Bool-cases, length, arith,
}
use xdr.Types.{GoType}
use xdr.Tags.{Tag}
use xdr.Codecs.{XType}
use xdr.Codecs.EncodeReflect.{Build}
use xdr.Coder.{
  Stored, deferred, is_x_codec, Coder, Building, built, build_panics, part, Outcome, returned,
  panicked, out_of_fuel, load, store, and_then, run, or_else, publish, get_new_codec, get_codec,
}
use xdr.Coder.Memos.{x_type, load-same, load-other, x_type-cases, none-some, Gives, Grows}
use xdr.Coder.Calls.{get_codec-Answers}

abbrev pub IsIn : XType → List XType → Type 0
IsIn x [] = ⊥
IsIn x (y ∷ u) = (x ≡ y) ⊎ IsIn x u

-- All that a construction asks for, whatever the answers, is in a list.
abbrev pub AsksWithin : List XType → Building → Type 0
AsksWithin u (built c) = Unit
AsksWithin u build_panics = Unit
AsksWithin u (part t tag rest) = IsIn (x_type t tag) u × ((c : Stored) → AsksWithin u (rest c))

one_if_unknown : Option Stored → ℕ
one_if_unknown none = 1
one_if_unknown (some c) = 0

-- How many of the list are not known.
unknowns : List (XType × Stored) → List XType → ℕ
unknowns m [] = 0
unknowns m (x ∷ u) = one_if_unknown (load x m) + unknowns m u

Extends : List (XType × Stored) → List (XType × Stored) → Type 0
Extends m n = (x : XType) (c : Stored) → load x m ≡ some c → load x n ≡ some c

one_if_unknown-Extends :
    (m n : List (XType × Stored)) (x : XType)
    → Extends m n
    → one_if_unknown (load x n) ≤ one_if_unknown (load x m)
unfolding one_if_unknown Extends
one_if_unknown-Extends m n x h = elim (Option-cases (load x m)) [
  | inr (c, p) ↦ rw (p, h x c p) (omega arith)
  | inl p ↦ rw p (at_most_one (load x n))
]
  where
    at_most_one : (o : Option Stored) → one_if_unknown o ≤ 1
    at_most_one none = omega arith
    at_most_one (some c) = omega arith

unknowns-Extends :
    (m n : List (XType × Stored)) (u : List XType) → Extends m n → unknowns n u ≤ unknowns m u
unfolding unknowns
unknowns-Extends m n [] h = omega arith
unknowns-Extends m n (x ∷ u) h =
    omega (arith, one_if_unknown-Extends m n x h, unknowns-Extends m n u h)

unknowns_start :
    (m : List (XType × Stored)) (x : XType) (c : Stored) (u : List XType)
    → load x m ≡ none
    → IsIn x u
    → unknowns ((x, c) ∷ m) u < unknowns m u
unfolding unknowns one_if_unknown
unknowns_start m x c [] h i = absurd i
unknowns_start m x c (y ∷ u) h i = elim i [
  | inl e ↦ rw (← e, load-same x c m, h) (omega (arith, unknowns-Extends m ((x, c) ∷ m) u extends))
  | inr j ↦
      omega (arith, one_if_unknown-Extends m ((x, c) ∷ m) y extends, unknowns_start m x c u h j)
]
  where
    extends : Extends m ((x, c) ∷ m)
    extends =
        unfold Extends in
        λ z d k. elim (x_type-cases x z) [
          | inl e ↦ absurd (none-some h (ap (λ w. load w m) e ∙ k))
          | inr e ↦ load-other x c m z e ∙ k
        ]

unknowns-length : (m : List (XType × Stored)) (u : List XType) → unknowns m u ≤ length u
unfolding unknowns one_if_unknown
unknowns-length m [] = omega arith
unknowns-length m (x ∷ u) = elim (Option-cases (load x m)) [
  | inl p ↦ rw p (omega (arith, unknowns-length m u))
  | inr (c, p) ↦ rw p (omega (arith, unknowns-length m u))
]

Ends : Outcome → Type 0
Ends (returned c cr) = Unit
Ends (panicked cr) = Unit
Ends out_of_fuel = ⊥

-- With so many unknown types and tags, each call ends.
EndsWithin : List XType → ℕ → (GoType → Tag → Coder → Outcome) → Type 0
EndsWithin u fuel ask =
    (t : GoType) (tag : Tag) (cr : Coder)
    → IsIn (x_type t tag) u
    → unknowns cr.known_codecs u ≤ fuel
    → Ends (ask t tag cr)

module _ (build : Build) (build_codec : GoType → Tag → Building) (u : List XType) where
  run-Ends :
      (fuel : ℕ) (b : Building) (cr : Coder)
      → EndsWithin u fuel (get_codec build build_codec fuel)
      → AsksWithin u b
      → unknowns cr.known_codecs u ≤ fuel
      → Ends (run (get_codec build build_codec fuel) b cr)
  unfolding run Ends EndsWithin
  run-Ends fuel (built c) cr ask h n = tt
  run-Ends fuel build_panics cr ask h n = tt
  run-Ends fuel (part t tag rest) cr ask h n =
      go (get_codec build build_codec fuel t tag cr) (ask t tag cr h.0 n)
        (get_codec-Answers build build_codec fuel t tag cr)
        (λ c more g. run-Ends fuel (rest c) more ask (h.1 c) (
          omega (
            arith,
            unknowns-Extends cr.known_codecs more.known_codecs u (unfold Extends in g.kept),
          )))
    where
      go :
          (o : Outcome)
          → Ends o
          → Gives build (x_type t tag) cr o
          → ((c : Stored) (more : Coder)
              → Grows cr more
              → Ends (run (get_codec build build_codec fuel) (rest c) more))
          → Ends (and_then o (λ c more. run (get_codec build build_codec fuel) (rest c) more))
      go (returned c more) e g k = k c more g.0
      go (panicked more) e g k = tt
      go out_of_fuel e g k = absurd e

  publish-Ends :
      (t : GoType) (tag : Tag) (o : Outcome) → Ends o → Ends (and_then o (publish build t tag))
  unfolding Ends
  publish-Ends t tag (returned c cr) e = tt
  publish-Ends t tag (panicked cr) e = tt
  publish-Ends t tag out_of_fuel e = absurd e

  or_else-Ends :
      (x : XType) (cr : Coder) (o : Option Stored) (other : Outcome)
      → load x cr.known_codecs ≡ o
      → (load x cr.known_codecs ≡ none → Ends other)
      → Ends (or_else build o cr other)
  unfolding Ends
  or_else-Ends x cr none other p h = h p
  or_else-Ends x cr (some c) other p h = elim (Bool-cases (is_x_codec build c)) [
    | inl q ↦ rw q tt
    | inr q ↦ rw q tt
  ]

  get_codec-EndsWithin :
      (fuel : ℕ)
      → ((t : GoType) (tag : Tag) → IsIn (x_type t tag) u → AsksWithin u (build_codec t tag))
      → EndsWithin u fuel (get_codec build build_codec fuel)
  unfolding get_codec EndsWithin
  get_codec-EndsWithin zero closed t tag cr i n =
      or_else-Ends (x_type t tag) cr _ out_of_fuel refl (λ p. absurd (
        omega
          (arith, unknowns_start cr.known_codecs (x_type t tag) (deferred (x_type t tag)) u p i)))
  get_codec-EndsWithin (suc fuel) closed t tag cr i n =
      or_else-Ends (x_type t tag) cr _ _ refl (λ p.
        unfold get_new_codec in
        or_else-Ends (x_type t tag) cr _ _ refl (λ q. publish-Ends t tag _ (
          run-Ends fuel (build_codec t tag) (store (x_type t tag) (deferred (x_type t tag)) cr)
            (get_codec-EndsWithin fuel closed) (closed t tag i)
            (omega (
              arith,
              unknowns_start cr.known_codecs (x_type t tag) (deferred (x_type t tag)) u p i,
            )))))

  -- Let the constructions for the types and tags of a list ask for codecs of types and tags of the list
  -- only, which a finite list does for types in cycles too. Then `getCodec` on one of them never runs
  -- out of fuel, whatever is known already, if the fuel is the length of the list.
  pub get_codec_ends :
      (fuel : ℕ) (t : GoType) (tag : Tag) (cr : Coder)
      → ((s : GoType) (g : Tag) → IsIn (x_type s g) u → AsksWithin u (build_codec s g))
      → IsIn (x_type t tag) u
      → length u ≤ fuel
      → get_codec build build_codec fuel t tag cr ≢ out_of_fuel
  unfolding Ends EndsWithin
  get_codec_ends fuel t tag cr closed i n e = subst Ends e (
      get_codec-EndsWithin fuel closed t tag cr i
        (omega (arith, unknowns-length cr.known_codecs u)))
