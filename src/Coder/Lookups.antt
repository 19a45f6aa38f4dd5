-- ===== src/Coder/Lookups.antt =====
-- internal/coder/coder.go: what holds over any sequence of calls for codecs, and after a panic.
use xdr.Prelude.{
  ℕ, zero, suc, ◌≡◌, refl, sym, ◌∙◌, subst, inl, inr, none, some, [], Option-cases, Bool-cases,
  true, false, if◌then◌else◌, ◌⊎◌,
}
use mathlib.Core.Option.{some-injective}
use xdr.Types.{GoType}
use xdr.Tags.{Tag}
use xdr.Codecs.{XType}
use xdr.Codecs.EncodeReflect.{Build}
use xdr.Coder.{
  Stored, deferred, is_x_codec, Coder, new_coder, Building, Outcome, returned, panicked,
  out_of_fuel, load_base, load, store, and_then, run, publish, get_new_codec, get_codec,
  get_base_codec,
}
use xdr.Coder.Memos.{
  x_type, load-same, none-some, Grows, Grows-refl, Grows-trans, IsAgreed, Keeps, Runs, Gives,
  run-Runs,
}
use xdr.Coder.Calls.{deferred_is_x, known-Gives, get_new_codec-Gives, get_codec-Answers}

module _ (build : Build) (build_codec : GoType → Tag → Building) where
  -- Calls for codecs that return, one after the other.
  pub data Reaches (cr : Coder) : Coder → Type 0 where
    here : Reaches cr cr
    by_tag :
        {more last : Coder} (fuel : ℕ) (t : GoType) (tag : Tag) (c : Stored)
        → Reaches cr more
        → get_codec build build_codec fuel t tag more ≡ returned c last
        → Reaches cr last
    by_type :
        {more last : Coder} (fuel : ℕ) (t : GoType) (c : Stored)
        → Reaches cr more
        → get_base_codec build build_codec fuel t more ≡ returned c last
        → Reaches cr last

  get_base_codec-Gives :
      (fuel : ℕ) (t : GoType) (cr : Coder)
      → IsAgreed cr
      → Gives build (x_type t []) cr (get_base_codec build build_codec fuel t cr)
  unfolding get_base_codec
  get_base_codec-Gives fuel t cr i = elim (Option-cases (load_base t cr.known_base_codecs)) [
    | inr (c, p) ↦ by_fuel_some fuel c p
    | inl p ↦ by_fuel_none fuel p
  ]
    where
      base_hit :
          (c : Stored)
          → load_base t cr.known_base_codecs ≡ some c
          → (is_x_codec build c ≡ true) ⊎ (is_x_codec build c ≡ false)
          → Gives build (x_type t []) cr (if is_x_codec build c then returned c cr else panicked cr)
      base_hit c p (inl q) = rw q (Grows-refl cr, λ j. j, i t c p, q)
      base_hit c p (inr q) = rw q (λ y d l. l, λ y d l. refl)

      by_fuel_some :
          (f : ℕ) (c : Stored)
          → load_base t cr.known_base_codecs ≡ some c
          → Gives build (x_type t []) cr (get_base_codec build build_codec f t cr)
      by_fuel_some zero c p = rw p (base_hit c p (Bool-cases (is_x_codec build c)))
      by_fuel_some (suc f) c p = rw p (base_hit c p (Bool-cases (is_x_codec build c)))

      by_fuel_none :
          (f : ℕ)
          → load_base t cr.known_base_codecs ≡ none
          → Gives build (x_type t []) cr (get_base_codec build build_codec f t cr)
      by_fuel_none zero p =
          rw p (known-Gives build build_codec (x_type t []) cr _ out_of_fuel refl (λ q. tt))
      by_fuel_none (suc f) p = rw p (
          get_new_codec-Gives build build_codec (get_codec build build_codec f) t [] cr
            (get_codec-Answers build build_codec f))

  returned-Gives :
      (x : XType) (cr more : Coder) (c : Stored) (o : Outcome)
      → Gives build x cr o
      → o ≡ returned c more
      → Grows cr more
        × (IsAgreed cr → IsAgreed more)
        × (load x more.known_codecs ≡ some c)
        × (is_x_codec build c ≡ true)
  returned-Gives x cr more c o g e = subst (Gives build x cr) e g

  Reaches-IsAgreed : {cr more : Coder} → IsAgreed cr → Reaches cr more → IsAgreed more
  Reaches-IsAgreed i here = i
  Reaches-IsAgreed i (by_tag {more = m} fuel t tag c r e) =
      (returned-Gives (x_type t tag) m _ c _ (get_codec-Answers build build_codec fuel t tag m) e).1
        (Reaches-IsAgreed i r)
  Reaches-IsAgreed i (by_type {more = m} fuel t c r e) =
      let j = Reaches-IsAgreed i r in
      (returned-Gives (x_type t []) m _ c _ (get_base_codec-Gives fuel t m j) e).1 j

  Reaches-Grows : {cr more : Coder} → IsAgreed cr → Reaches cr more → Grows cr more
  Reaches-Grows {cr = cr} i here = Grows-refl cr
  Reaches-Grows {cr = cr} i (by_tag {more = m} {last = l} fuel t tag c r e) =
      Grows-trans cr m l (Reaches-Grows i r)
        (returned-Gives (x_type t tag) m l c _ (get_codec-Answers build build_codec fuel t tag m)
          e).0
  Reaches-Grows {cr = cr} i (by_type {more = m} {last = l} fuel t c r e) =
      Grows-trans cr m l (Reaches-Grows i r)
        (returned-Gives (x_type t []) m l c _ (get_base_codec-Gives fuel t m (Reaches-IsAgreed i r))
          e).0

  new_coder-IsAgreed : IsAgreed new_coder
  unfolding load_base
  new_coder-IsAgreed t c h = absurd (none-some refl h)

  get_codec-known :
      (fuel : ℕ) (t : GoType) (tag : Tag) (c : Stored) (cr : Coder)
      → load (x_type t tag) cr.known_codecs ≡ some c
      → is_x_codec build c ≡ true
      → get_codec build build_codec fuel t tag cr ≡ returned c cr
  get_codec-known zero t tag c cr h i = unfold get_codec in rw (h, i) refl
  get_codec-known (suc fuel) t tag c cr h i = unfold get_codec in rw (h, i) refl

  -- What `getBaseCodec` has returned, `getCodec` without a tag returns then.
  pub get_codec-get_base_codec :
      {cr more : Coder} (fuel later : ℕ) (t : GoType) (c : Stored)
      → Reaches new_coder cr
      → get_base_codec build build_codec fuel t cr ≡ returned c more
      → get_codec build build_codec later t [] more ≡ returned c more
  get_codec-get_base_codec {cr = cr} {more = more} fuel later t c r e =
      let i = Reaches-IsAgreed new_coder-IsAgreed r in
      let g = returned-Gives (x_type t []) cr more c _ (get_base_codec-Gives fuel t cr i) e in
      get_codec-known later t [] c more g.2 g.3

  -- On a new coder, consider top-level calls of `getCodec` and `getBaseCodec` that all return, one after
  -- the other, and no other calls. Once `getCodec` has returned a codec, then after any more of them it
  -- returns the same codec for the same type and tag, whatever the fuel and without a change of the
  -- memos, and so does `getBaseCodec` if the tag is empty.
  pub codecs_stay :
      {cr more last : Coder} (fuel later : ℕ) (t : GoType) (tag : Tag) (c : Stored)
      → Reaches new_coder cr
      → get_codec build build_codec fuel t tag cr ≡ returned c more
      → Reaches more last
      → (get_codec build build_codec later t tag last ≡ returned c last)
        × (tag ≡ [] → get_base_codec build build_codec later t last ≡ returned c last)
  codecs_stay {cr = cr} {more = more} {last = last} fuel later t tag c r e s = (
    get_codec-known later t tag c last known gives.3,
    λ p. base_codec later (subst (λ z. load (x_type t z) last.known_codecs ≡ some c) p known),
  )
    where
      agreed : IsAgreed cr
      agreed = Reaches-IsAgreed new_coder-IsAgreed r

      gives :
          Grows cr more
          × (IsAgreed cr → IsAgreed more)
          × (load (x_type t tag) more.known_codecs ≡ some c)
          × (is_x_codec build c ≡ true)
      gives =
          returned-Gives (x_type t tag) cr more c _
            (get_codec-Answers build build_codec fuel t tag cr) e

      known : load (x_type t tag) last.known_codecs ≡ some c
      known = (Reaches-Grows (gives.1 agreed) s).kept (x_type t tag) c gives.2

      last_agreed : IsAgreed last
      last_agreed = Reaches-IsAgreed (gives.1 agreed) s

      hit :
          (f : ℕ) (d : Stored)
          → load_base t last.known_base_codecs ≡ some d
          → d ≡ c
          → get_base_codec build build_codec f t last ≡ returned c last
      hit zero d p q = unfold get_base_codec in rw (p, q, gives.3) refl
      hit (suc f) d p q = unfold get_base_codec in rw (p, q, gives.3) refl

      miss :
          (f : ℕ)
          → load_base t last.known_base_codecs ≡ none
          → load (x_type t []) last.known_codecs ≡ some c
          → get_base_codec build build_codec f t last ≡ returned c last
      miss zero p k = unfold get_base_codec in rw (p, k, gives.3) refl
      miss (suc f) p k = unfold get_base_codec get_new_codec in rw (p, k, gives.3) refl

      base_codec :
          (f : ℕ)
          → load (x_type t []) last.known_codecs ≡ some c
          → get_base_codec build build_codec f t last ≡ returned c last
      base_codec f k = elim (Option-cases (load_base t last.known_base_codecs)) [
        | inr (d, p) ↦ hit f d p (some-injective d c (sym (last_agreed t d p) ∙ k))
        | inl p ↦ miss f p k
      ]

  -- After any top-level calls of `getCodec` and `getBaseCodec` of a new coder that all return, each
  -- codec that it knows is what the placeholder for the type and tag was resolved to: no codec that
  -- holds the placeholder waits for it.
  pub placeholders_resolved :
      {cr : Coder} (x : XType) (c : Stored)
      → Reaches new_coder cr
      → load x cr.known_codecs ≡ some c
      → load x cr.resolved ≡ some c
  placeholders_resolved x c r h =
      (Reaches-Grows new_coder-IsAgreed r).fresh x c (unfold load in refl) h

  panicked-Keeps :
      (t : GoType) (tag : Tag) (start more : Coder) (o : Outcome)
      → Runs start o
      → and_then o (publish build t tag) ≡ panicked more
      → Keeps start more
  panicked-Keeps t tag start more (returned c cr) r e = cc
  panicked-Keeps t tag start more (panicked cr) r e =
      let same : cr ≡ more = cc in subst (λ z. Keeps start z) same r
  panicked-Keeps t tag start more out_of_fuel r e = cc

  no_panic : {cr : Coder} → out_of_fuel ≡ panicked cr → ⊥
  no_panic e = cc

  -- If the construction of a codec that was not known panics, then its placeholder stays in the memo,
  -- and it is as little resolved as before: later calls for the type and tag return the placeholder.
  pub panic_leaves_placeholder :
      (fuel later : ℕ) (t : GoType) (tag : Tag) (cr more : Coder)
      → load (x_type t tag) cr.known_codecs ≡ none
      → get_codec build build_codec fuel t tag cr ≡ panicked more
      → (get_codec build build_codec later t tag more ≡ returned (deferred (x_type t tag)) more)
        × (load (x_type t tag) more.resolved ≡ load (x_type t tag) cr.resolved)
  panic_leaves_placeholder zero later t tag cr more h e =
      absurd (no_panic {cr = more} (unfold get_codec in (rw h at e)))
  panic_leaves_placeholder (suc fuel) later t tag cr more h e =
      (known_codec later, keeps.1 x (deferred x) (load-same x (deferred x) cr.known_codecs))
    where
      x : XType
      x = x_type t tag

      start : Coder
      start = store x (deferred x) cr

      ran : Outcome
      ran = run (get_codec build build_codec fuel) (build_codec t tag) start

      ended : and_then ran (publish build t tag) ≡ panicked more
      ended = unfold get_codec get_new_codec in (rw h at e)

      keeps : Keeps start more
      keeps =
          panicked-Keeps t tag start more ran
            (run-Runs build (get_codec build build_codec fuel) (build_codec t tag) start
              (get_codec-Answers build build_codec fuel))
            ended

      known : load x more.known_codecs ≡ some (deferred x)
      known = keeps.0 x (deferred x) (load-same x (deferred x) cr.known_codecs)

      known_codec : (f : ℕ) → get_codec build build_codec f t tag more ≡ returned (deferred x) more
      known_codec zero = unfold get_codec in rw (known, deferred_is_x build x) refl
      known_codec (suc f) = unfold get_codec in rw (known, deferred_is_x build x) refl
