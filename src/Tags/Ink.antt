-- ===== src/Tags/Ink.antt =====
-- internal/tags/tags.go: the characters of the tags that are written out.
use xdr.Prelude.{
  ℕ, ◌==◌, ◌≡◌, ◌≢◌, ◌<◌, ◌≤◌, refl, false, some, List, [], ◌∷◌, All, arith, Text, codes, text_eq,
  length,
}
use xdr.Prelude.Texts.Decimal.{decimal, decimal-IsDigit, parse_uint32-decimal, IsDigit}
use xdr.Prelude.Texts.Parts.{join, Without, IsVisible, split-join}
use xdr.Tags.Entries.{IsWord}
use xdr.Tags.Parse.{parse_each, parse_u32s}
use xdr.Tags.Layers.{Layer}
use xdr.Tags.Print.{print_layers, decimals, IsInk, decimals-IsInk, print_layer-IsInk}

pub IsInk-IsVisible : (s : Text) → All IsInk s → All IsVisible s
IsInk-IsVisible [] h = tt
IsInk-IsVisible (c ∷ s) h = (omega arith, IsInk-IsVisible s h.1)

-- No white space, dash or slash.
abbrev pub IsPart : ℕ → Type 0
IsPart c = IsVisible c × (c ≢ b'-') × (c ≢ b'/')

pub IsPart-IsVisible : (s : Text) → All IsPart s → All (λ c. IsVisible c × (c ≢ b'-')) s
IsPart-IsVisible [] h = tt
IsPart-IsVisible (c ∷ s) h = ((h.0.0, h.0.1), IsPart-IsVisible s h.1)

part_no_slash : (s : Text) → All IsPart s → Without b'/' s
part_no_slash [] h = tt
part_no_slash (c ∷ s) h = (h.0.2, part_no_slash s h.1)

pub IsInk-IsPart : (s : Text) → All IsInk s → All IsPart s
IsInk-IsPart [] h = tt
IsInk-IsPart (c ∷ s) h = ((omega arith, ground arith, ground arith), IsInk-IsPart s h.1)

pub parts-IsVisible :
    (ps : List Text)
    → All (λ s. All IsPart s) ps
    → All (λ s. All (λ c. IsVisible c × (c ≢ b'-')) s) ps
parts-IsVisible [] h = tt
parts-IsVisible (p ∷ ps) h = (IsPart-IsVisible p h.0, parts-IsVisible ps h.1)

pub parts_no_slash : (ps : List Text) → All (λ s. All IsPart s) ps → All (λ s. Without b'/' s) ps
parts_no_slash [] h = tt
parts_no_slash (p ∷ ps) h = (part_no_slash p h.0, parts_no_slash ps h.1)

pub no_dash : (s : Text) → All (λ c. IsVisible c × (c ≢ b'-')) s → text_eq s (codes "-") ≡ false
no_dash [] h = refl
no_dash (c ∷ s) h = let p : (c == b'-') ≡ false = ground (arith, h.0.1) in rw p refl

pub dashless-IsVisible : (s : Text) → All (λ c. IsVisible c × (c ≢ b'-')) s → All IsVisible s
dashless-IsVisible [] h = tt
dashless-IsVisible (c ∷ s) h = (h.0.0, dashless-IsVisible s h.1)

pub layers-IsPart : (ls : List Layer) → All (λ s. All IsPart s) (print_layers ls)
layers-IsPart [] = tt
layers-IsPart (l ∷ ls) = (IsInk-IsPart _ (print_layer-IsInk l), layers-IsPart ls)

pub decimals-IsPart : (vs : List ℕ) → All (λ s. All IsPart s) (decimals vs)
decimals-IsPart [] = tt
decimals-IsPart (v ∷ vs) =
    let all = decimals-IsInk (v ∷ vs) in (IsInk-IsPart (decimal v) all.0, decimals-IsPart vs)

parse_each-decimals : (vs : List ℕ) → All IsWord vs → parse_each (decimals vs) ≡ some vs
parse_each-decimals [] h = refl
parse_each-decimals (v ∷ vs) h = rw (parse_uint32-decimal v h.0, parse_each-decimals vs h.1) refl

no_comma : (s : Text) → All IsInk s → Without b',' s
no_comma [] h = tt
no_comma (c ∷ s) h = (ground arith, no_comma s h.1)

decimals_no_comma : (vs : List ℕ) → All (λ s. Without b',' s) (decimals vs)
decimals_no_comma [] = tt
decimals_no_comma (v ∷ vs) =
    let all = decimals-IsInk (v ∷ vs) in (no_comma (decimal v) all.0, decimals_no_comma vs)

pub parse_u32s-decimals :
    (vs : List ℕ) → All IsWord vs → 0 < length vs → parse_u32s (join b',' (decimals vs)) ≡ some vs
unfolding parse_u32s
parse_u32s-decimals [] h k = absurd (omega arith)
parse_u32s-decimals (v ∷ vs) h k =
    rw (split-join b',' (decimal v) (decimals vs) (decimals_no_comma (v ∷ vs)))
      (parse_each-decimals (v ∷ vs) h)

abbrev pub IsLow : ℕ → Type 0
IsLow c = c ≤ b'9'

pub decimals-IsLow : (vs : List ℕ) → All (λ s. All IsLow s) (decimals vs)
decimals-IsLow [] = tt
decimals-IsLow (v ∷ vs) = (low (decimal v) (decimal-IsDigit v), decimals-IsLow vs)
  where
    low : (s : Text) → All IsDigit s → All IsLow s
    low [] h = tt
    low (c ∷ s) h = (h.0.1, low s h.1)

pub no_letters :
    (s : Text) (c : ℕ) (cs : Text) → b'9' < c → All IsLow s → text_eq s (c ∷ cs) ≡ false
no_letters [] c cs h k = refl
no_letters (d ∷ s) c cs h k = let p : (d == c) ≡ false = ground arith in rw p refl
