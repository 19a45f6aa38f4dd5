-- ===== src/Coder/Memos.antt =====
-- internal/coder/coder.go: what a call does to the memos.
use xdr.Prelude.{
  ◌≡◌, ◌≢◌, refl, sym, ◌∙◌, ap, ap₂, inl, inr, ◌⊎◌, Bool, true, false, ◌&&◌, Option, none, some,
  List, [], ◌∷◌, text_eq, text_eq_sound, text_eq_refl, Bool-cases, Option-cases,
}
use mathlib.Core.Option.{some-injective}
use xdr.Types.{GoType}
use xdr.Types.Identity.{same_type, same_type_sound, same_type_refl}
use xdr.Tags.{Tag}
use xdr.Codecs.{XType}
use xdr.Codecs.EncodeReflect.{Build}
use xdr.Coder.{
  Stored, is_x_codec, Coder, Building, built, build_panics, part, Outcome, returned, panicked,
  out_of_fuel, same_x_type, load_base, load, and_then, run,
}

abbrev pub x_type : GoType → Tag → XType
x_type t tag = record { type = t; encoded_tag = tag }

and-true : (a b : Bool) → (a && b) ≡ true → (a ≡ true) × (b ≡ true)
and-true true b h = (refl, h)
and-true false b h = cc

same_x_type_sound : (x y : XType) → same_x_type x y ≡ true → x ≡ y
same_x_type_sound x y h =
    let (p, q) = and-true (same_type x.type y.type) (text_eq x.encoded_tag y.encoded_tag) h in
    ap₂ x_type (same_type_sound x.type y.type p) (text_eq_sound x.encoded_tag y.encoded_tag q)

same_x_type_refl : (x : XType) → same_x_type x x ≡ true
same_x_type_refl x = rw (same_type_refl x.type, text_eq_refl x.encoded_tag) refl

module _ (x : XType) (c : Stored) (m : List (XType × Stored)) where
  pub load-same : load x ((x, c) ∷ m) ≡ some c
  unfolding load
  load-same = rw (same_x_type_refl x) refl

  pub load-other : (y : XType) → (x ≢ y) → load y ((x, c) ∷ m) ≡ load y m
  unfolding load
  load-other y h = elim (Bool-cases (same_x_type x y)) [
    | inl p ↦ absurd (h (same_x_type_sound x y p))
    | inr p ↦ rw p refl
  ]

pub x_type-cases : (x y : XType) → (x ≡ y) ⊎ (x ≢ y)
x_type-cases x y = elim (Bool-cases (same_x_type x y)) [
  | inl p ↦ inl (same_x_type_sound x y p)
  | inr p ↦ inr (λ e. true-false (sym (same_x_type_refl x) ∙ (ap (same_x_type x) e ∙ p)))
]
  where
    true-false : true ≡ false → ⊥
    true-false e = cc

pub none-some : {A : Type 0} {o : Option A} {a : A} → o ≡ none → o ≡ some a → ⊥
none-some p q = cc

-- What was known stays the same, and its deferred codecs too; what has become known is what its
-- deferred codec was resolved to.
pub record Grows (cr more : Coder) : Type 0 where
  pub kept :
      (x : XType) (c : Stored) → load x cr.known_codecs ≡ some c → load x more.known_codecs ≡ some c
  pub fresh :
      (x : XType) (c : Stored)
      → load x cr.known_codecs ≡ none
      → load x more.known_codecs ≡ some c
      → load x more.resolved ≡ some c
  pub settled :
      (x : XType) (c : Stored)
      → load x cr.known_codecs ≡ some c
      → load x more.resolved ≡ load x cr.resolved

-- What was known stays the same, and its deferred codecs too; but there may be placeholders.
abbrev pub Keeps : Coder → Coder → Type 0
Keeps cr more =
    ((x : XType) (c : Stored) → load x cr.known_codecs ≡ some c → load x more.known_codecs ≡ some c)
    × ((x : XType) (c : Stored)
        → load x cr.known_codecs ≡ some c
        → load x more.resolved ≡ load x cr.resolved)

pub Grows-refl : (cr : Coder) → Grows cr cr
Grows-refl cr = record {
  kept = λ x c h. h;
  fresh = λ x c h k. absurd (none-some h k);
  settled = λ x c h. refl;
}

pub Grows-trans : (a b c : Coder) → Grows a b → Grows b c → Grows a c
Grows-trans a b c g h = record {
  kept = λ x d k. h.kept x d (g.kept x d k);
  fresh = λ x d k l. elim (Option-cases (load x b.known_codecs)) [
    | inl p ↦ h.fresh x d p l
    | inr (e, p) ↦
        let same : e ≡ d = some-injective e d (sym (h.kept x e p) ∙ l) in
        h.settled x e p ∙ (g.fresh x e k p ∙ ap some same)
  ];
  settled = λ x d k. h.settled x d (g.kept x d k) ∙ g.settled x d k;
}

-- The memo of untagged codecs agrees with the other.
abbrev pub IsAgreed : Coder → Type 0
IsAgreed cr =
    (t : GoType) (c : Stored)
    → load_base t cr.known_base_codecs ≡ some c
    → load (x_type t []) cr.known_codecs ≡ some c

-- What a construction does to the memos.
abbrev pub Runs : Coder → Outcome → Type 0
Runs cr (returned c more) = Grows cr more × (IsAgreed cr → IsAgreed more)
Runs cr (panicked more) = Keeps cr more
Runs cr out_of_fuel = Unit

-- A call gives the codec that is known from then on.
abbrev pub Gives : Build → XType → Coder → Outcome → Type 0
Gives build x cr (returned c more) =
    Grows cr more
    × (IsAgreed cr → IsAgreed more)
    × (load x more.known_codecs ≡ some c)
    × (is_x_codec build c ≡ true)
Gives build x cr (panicked more) = Keeps cr more
Gives build x cr out_of_fuel = Unit

abbrev pub Answers : Build → (GoType → Tag → Coder → Outcome) → Type 0
Answers build ask =
    (t : GoType) (tag : Tag) (cr : Coder) → Gives build (x_type t tag) cr (ask t tag cr)

and_then-Runs :
    (build : Build) (cr : Coder) (x : XType) (o : Outcome) (f : Stored → Coder → Outcome)
    → Gives build x cr o
    → ((c : Stored) (more : Coder) → Runs more (f c more))
    → Runs cr (and_then o f)
and_then-Runs build cr x (returned c more) f (g, a, l, y) h = go (f c more) (h c more)
  where
    go : (o : Outcome) → Runs more o → Runs cr o
    go (returned d last) (k, b) = (Grows-trans cr more last g k, λ i. b (a i))
    go (panicked last) (k, s) =
        (λ y d h. k y d (g.kept y d h), λ y d h. s y d (g.kept y d h) ∙ g.settled y d h)
    go out_of_fuel r = tt
and_then-Runs build cr x (panicked more) f g h = g
and_then-Runs build cr x out_of_fuel f g h = tt

pub run-Runs :
    (build : Build) (ask : GoType → Tag → Coder → Outcome) (b : Building) (cr : Coder)
    → Answers build ask
    → Runs cr (run ask b cr)
unfolding run
run-Runs build ask (built c) cr h = (Grows-refl cr, λ i. i)
run-Runs build ask build_panics cr h = (λ x c k. k, λ x c k. refl)
run-Runs build ask (part t tag rest) cr h =
    and_then-Runs build cr (x_type t tag) (ask t tag cr) _ (h t tag cr)
      (λ c more. run-Runs build ask (rest c) more h)
