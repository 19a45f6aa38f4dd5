-- ===== src/Prelude/Texts/Parts.antt =====
-- Parts with separators between them, and what `strings.Split` and `strings.TrimSpace` make of them.
use xdr.Prelude.{
  ℕ, ◌≡◌, ◌≢◌, ◌<◌, ◌∙◌, ap, refl, true, false, List, [], ◌∷◌, ◌++◌, All, All-append, arith, Text,
  ◌==◌,
}
use xdr.Prelude.Texts.{split, trim_space, trim_left, trim_right, is_space, keep}

unfoldable pub join : ℕ → List Text → Text
join sep [] = []
join sep (p ∷ []) = p
join sep (p ∷ q ∷ ps) = p ++ sep ∷ join sep (q ∷ ps)

abbrev pub Without : ℕ → Text → Type 0
Without sep s = All (λ c. c ≢ sep) s

split-last : (sep : ℕ) (p : Text) → Without sep p → split sep p ≡ (p, [])
unfolding split
split-last sep [] h = refl
split-last sep (c ∷ p) h =
    let other : (c == sep) ≡ false = ground (arith, h.0) in rw (other, split-last sep p h.1) refl

split-append :
    (sep : ℕ) (p s : Text)
    → Without sep p
    → split sep (p ++ sep ∷ s) ≡ (p, (split sep s).0 ∷ (split sep s).1)
unfolding split
split-append sep [] s h = let same : (sep == sep) ≡ true = ground arith in rw same refl
split-append sep (c ∷ p) s h =
    let other : (c == sep) ≡ false = ground (arith, h.0) in
    rw (other, split-append sep p s h.1) refl

pub split-join :
    (sep : ℕ) (p : Text) (ps : List Text)
    → All (λ s. Without sep s) (p ∷ ps)
    → split sep (join sep (p ∷ ps)) ≡ (p, ps)
unfolding join
split-join sep p [] h = split-last sep p h.0
split-join sep p (q ∷ ps) h =
    split-append sep p (join sep (q ∷ ps)) h.0
    ∙ ap (λ (s, ss). (p, s ∷ ss)) (split-join sep q ps h.1)

abbrev pub IsVisible : ℕ → Type 0
IsVisible c = b' ' < c

trim_left-visible : (s : Text) → All IsVisible s → trim_left s ≡ s
unfolding trim_left
trim_left-visible [] h = refl
trim_left-visible (c ∷ s) h = let p : is_space c ≡ false = ground arith in rw p refl

keep-visible : (c : ℕ) (s : Text) → IsVisible c → keep c s ≡ c ∷ s
keep-visible c [] h = let p : is_space c ≡ false = ground arith in rw p refl
keep-visible c (d ∷ s) h = refl

trim_right-visible : (s : Text) → All IsVisible s → trim_right s ≡ s
unfolding trim_right
trim_right-visible [] h = refl
trim_right-visible (c ∷ s) h = rw (trim_right-visible s h.1) (keep-visible c s h.0)

pub trim_space-visible : (s : Text) → All IsVisible s → trim_space s ≡ s
unfolding trim_space
trim_space-visible s h = rw (trim_left-visible s h) (trim_right-visible s h)

pub join-All :
    (P : ℕ → Type 0) (sep : ℕ) (ps : List Text)
    → P sep
    → All (λ s. All P s) ps
    → All P (join sep ps)
unfolding join
join-All P sep [] h k = tt
join-All P sep (p ∷ []) h k = k.0
join-All P sep (p ∷ q ∷ ps) h k =
    All-append P p (sep ∷ join sep (q ∷ ps)) k.0 (h, join-All P sep (q ∷ ps) h k.1)
