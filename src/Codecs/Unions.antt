-- ===== src/Codecs/Unions.antt =====
-- internal/coder/codec_struct.go and codec_struct_unsafe.go: how a union codec reads the switch,
-- picks the arm and labels errors.
use xdr.Prelude.Texts.{hex_digit}
use xdr.Prelude.{
  ℕ, zero, suc, ◌/◌, ◌%◌, ◌^◌, Bool, true, false, Option, none, some, List, [], ◌∷◌, ◌++◌, ltb,
  ◌==◌, if◌then◌else◌, Text, codes,
}
use xdr.Errors.{Err, xerror, union_switch_arm_undefined, located}
use xdr.Values.{Value, w32, int_v, uint_v}
use xdr.Codecs.{SwitchKind, switch_bool, switch_int, switch_uint}
use xdr.Codecs.Access.{bool_of, int_of, uint_of}

abbrev pub bool_word : Option Bool → Option ℕ
bool_word none = none
bool_word (some true) = some 1
bool_word (some false) = some 0

abbrev pub low_word : Option ℕ → Option ℕ
low_word none = none
low_word (some x) = some (x % 2 ^ 32)

-- `swVal` by `reflect`.
unfoldable pub switch_value : SwitchKind → Value → Option ℕ
switch_value switch_bool swv = bool_word (bool_of swv)
switch_value switch_uint swv = low_word (uint_of swv)
switch_value switch_int swv = low_word (int_of swv)

-- `*(*uint32)(swp)` reads an int32 too.
abbrev word_at : Value → Option ℕ
word_at (int_v w32 x) = some x
word_at (uint_v w32 x) = some x
word_at _ = none

-- `swVal` from memory.
unfoldable pub switch_word : SwitchKind → Value → Option ℕ
switch_word switch_bool swp = bool_word (bool_of swp)
switch_word switch_int swp = word_at swp
switch_word switch_uint swp = word_at swp

-- `c.cases[swVal]`, and the default case where there is none.
unfoldable pub case_field : List (ℕ × ℕ) → Option ℕ → ℕ → Option ℕ
case_field [] default_case sw_val = default_case
case_field ((key, i) ∷ cases) default_case sw_val =
    if key == sw_val then some i else case_field cases default_case sw_val

-- `%x`; eight digits are enough for a uint32.
unfoldable pub hex : ℕ → ℕ → Text
hex zero x = []
hex (suc fuel) x =
    let more = hex fuel (x / 16) in
    if ltb x 16 then hex_digit x ∷ [] else more ++ (hex_digit (x % 16) ∷ [])

unfoldable pub case_label : ℕ → Text
unfolding hex
case_label sw_val = codes "union:0x" ++ hex 8 sw_val

-- The error for a switch value without an arm; the label prints `caseField`, which is -1.
unfoldable pub no_arm : Text → Err
unfolding located
no_arm name = located name (codes "?" ∷ codes "union:0x-1" ∷ []) (xerror union_switch_arm_undefined)
