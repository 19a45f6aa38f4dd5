-- ===== src/Coder.antt =====
-- internal/coder/coder.go: the two memos of a coder, and how a codec comes into them. A call is a
-- function of the memos; calls that run at the same time are not modelled. What `buildCodec` asks for
-- and makes of the answers is a `Building`, an argument here.
pub mod Memos
pub mod Calls
pub mod Lookups
pub mod Ends
pub mod Register
pub mod Registering
mod Runs
use xdr.Prelude.{
  ℕ, zero, suc, Bool, true, false, ◌&&◌, Option, none, some, List, [], ◌∷◌, if◌then◌else◌, text_eq,
}
use xdr.Types.{Kind, Basic, GoType, basic}
use xdr.Types.Identity.{same_type}
use xdr.Tags.{Tag, empty}
use xdr.Codecs.{XType, Codec, deferred_codec}
use xdr.Codecs.EncodeReflect.{Build, is_default}

-- A codec as the memos hold it: one without the unsafe methods, as users and `makeMapCodec` have them;
-- one with the methods; and `unsafeCodecWrapper`.
pub data Stored : Type 0 where
  plain_codec : Codec → Stored
  x_codec : Codec → Stored
  unsafe_wrapper : Codec → GoType → Stored

-- `newDeferredCodec()`, for a type and a tag.
abbrev pub deferred : XType → Stored
deferred x = x_codec (deferred_codec x)

-- `toXCodec`
abbrev wrap : Stored → GoType → Stored
wrap (plain_codec c) t = unsafe_wrapper c t
wrap c t = c

abbrev pub to_x_codec : Build → Stored → GoType → Stored
to_x_codec build c t = if is_default build then wrap c t else c

-- `toOriginalCodec`
abbrev unwrapped : Stored → Stored
unwrapped (unsafe_wrapper c t) = plain_codec c
unwrapped c = c

abbrev pub to_original_codec : Build → Stored → Stored
to_original_codec build c = if is_default build then unwrapped c else c

-- Whether the assertion `c.(xCodec)` holds.
abbrev has_unsafe_methods : Stored → Bool
has_unsafe_methods (plain_codec c) = false
has_unsafe_methods c = true

abbrev pub is_x_codec : Build → Stored → Bool
is_x_codec build c = if is_default build then has_unsafe_methods c else true

-- A construction asks `getCodec` for the codecs of parts, one after the other, and ends with a codec
-- or a panic.
pub data Building : Type 0 where
  built : Stored → Building
  build_panics : Building
  part : GoType → Tag → (Stored → Building) → Building

-- `knownBaseCodecs`, `knownCodecs`, and what the deferred codecs that were handed out were resolved to.
pub record Coder : Type 0 where
  pub known_base_codecs : List (GoType × Stored)
  pub known_codecs : List (XType × Stored)
  pub resolved : List (XType × Stored)

-- `NewCoder`
abbrev pub new_coder : Coder
new_coder = record { known_base_codecs = []; known_codecs = []; resolved = [] }

-- A panic leaves the memos as they are.
pub data Outcome : Type 0 where
  returned : Stored → Coder → Outcome
  panicked : Coder → Outcome
  out_of_fuel : Outcome

abbrev pub same_x_type : XType → XType → Bool
same_x_type x y = same_type x.type y.type && text_eq x.encoded_tag y.encoded_tag

-- `Load` of a `sync.Map`.
unfoldable pub load_base : GoType → List (GoType × Stored) → Option Stored
load_base t [] = none
load_base t ((u, c) ∷ m) = if same_type u t then some c else load_base t m

unfoldable pub load : XType → List (XType × Stored) → Option Stored
load x [] = none
load x ((y, c) ∷ m) = if same_x_type y x then some c else load x m

-- `cr.knownCodecs.Store(xt, c)`: what was stored before is out of sight.
abbrev pub store : XType → Stored → Coder → Coder
store x c cr = record cr { known_codecs = (x, c) ∷ cr.known_codecs }

-- `if tag.Empty() { cr.knownBaseCodecs.Store(xt.Type, cc) }`
abbrev pub store_base : GoType → Tag → Stored → Coder → Coder
store_base t tag c cr =
    if empty tag then record cr { known_base_codecs = (t, c) ∷ cr.known_base_codecs } else cr

-- `dc.resolve(cc)`
abbrev pub resolve : XType → Stored → Coder → Coder
resolve x c cr = record cr { resolved = (x, c) ∷ cr.resolved }

abbrev pub and_then : Outcome → (Stored → Coder → Outcome) → Outcome
and_then (returned c cr) f = f c cr
and_then (panicked cr) f = panicked cr
and_then out_of_fuel f = out_of_fuel

-- The construction with the answers of `getCodec`.
unfoldable pub run : (GoType → Tag → Coder → Outcome) → Building → Coder → Outcome
run get_codec (built c) cr = returned c cr
run get_codec build_panics cr = panicked cr
run get_codec (part t tag rest) cr =
    and_then (get_codec t tag cr) (λ c more. run get_codec (rest c) more)

-- `return c.(xCodec)` if the codec is known, or else.
abbrev pub or_else : Build → Option Stored → Coder → Outcome → Outcome
or_else build none cr other = other
or_else build (some c) cr other = if is_x_codec build c then returned c cr else panicked cr

-- `toXCodec`, `Store`, `Store` and `resolve` once the codec is constructed.
abbrev pub publish : Build → GoType → Tag → Stored → Coder → Outcome
publish build t tag c cr =
    let x : XType = record { type = t; encoded_tag = tag } in
    let cc = to_x_codec build c t in
    returned cc (resolve x cc (store_base t tag cc (store x cc cr)))

module _ (build : Build) (build_codec : GoType → Tag → Building) where
  -- `getNewCodec`, with `get_codec` for the parts.
  unfoldable pub get_new_codec : (GoType → Tag → Coder → Outcome) → GoType → Tag → Coder → Outcome
  unfolding run load
  get_new_codec get_codec t tag cr =
      let x : XType = record { type = t; encoded_tag = tag } in
      or_else build (load x cr.known_codecs) cr (
        and_then (run get_codec (build_codec t tag) (store x (deferred x) cr))
          (publish build t tag))

  -- `getCodec`. The fuel bounds how deep constructions are nested.
  unfoldable pub get_codec : ℕ → GoType → Tag → Coder → Outcome
  unfolding get_new_codec
  get_codec zero t tag cr =
      or_else build (load (record { type = t; encoded_tag = tag }) cr.known_codecs) cr out_of_fuel
  get_codec (suc fuel) t tag cr =
      or_else build (load (record { type = t; encoded_tag = tag }) cr.known_codecs) cr
        (get_new_codec (get_codec fuel) t tag cr)

  -- `getBaseCodec`
  unfoldable pub get_base_codec : ℕ → GoType → Coder → Outcome
  unfolding get_new_codec get_codec load_base
  get_base_codec zero t cr =
      or_else build (load_base t cr.known_base_codecs) cr (
        or_else build (load (record { type = t; encoded_tag = [] }) cr.known_codecs) cr out_of_fuel)
  get_base_codec (suc fuel) t cr =
      or_else build (load_base t cr.known_base_codecs) cr (get_new_codec (get_codec fuel) t [] cr)
