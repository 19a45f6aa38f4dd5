-- ===== src/Errors.antt =====
-- internal/errors/errors.go: the error values of the library, the `Is` test on them, and the
-- paths that struct and union codecs put round an error.
pub mod Paths
pub mod Texts
mod Runs
use xdr.Prelude.{
  ℕ, ◌<◌, Bool, true, false, Option, none, some, List, [], ◌∷◌, ◌++◌, ltb, if◌then◌else◌, Text,
  codes, text_eq,
}
use xdr.Types.{GoType}

-- The constants of type `xerror`.
pub data XError : Type 0 where
  length_exceeds_max : XError
  length_exceeds_platform_limit : XError
  length_incorrect : XError
  union_switch_arm_undefined : XError
  not_pointer : XError
  invalid_value : XError
  nil_pointer : XError

-- What a reader or a writer fails with: `io.EOF`, `io.ErrUnexpectedEOF`, or an error of its own.
pub data IoError : Type 0 where
  eof unexpected_eof : IoError
  other : ℕ → IoError

-- A Go `error` that is not nil. `plain` is an error made by `errors.New` or `fmt.Errorf`.
pub data Err : Type 0 where
  xerror : XError → Err
  invalid_type_error : GoType → Err
  invalid_tag_for_type_error : GoType → List ℕ → Err
  length_error : ℕ → ℕ → Err
  field_error : Err → Text → Err
  io_error : IoError → Err
  plain : Text → Err

abbrev pub xerror_eq : XError → XError → Bool
xerror_eq length_exceeds_max length_exceeds_max = true
xerror_eq length_exceeds_platform_limit length_exceeds_platform_limit = true
xerror_eq length_incorrect length_incorrect = true
xerror_eq union_switch_arm_undefined union_switch_arm_undefined = true
xerror_eq not_pointer not_pointer = true
xerror_eq invalid_value invalid_value = true
xerror_eq nil_pointer nil_pointer = true
xerror_eq _ _ = false

-- `LengthError.Is`; `max_int` is the largest `int` of the platform.
unfoldable pub length_error_is : ℕ → ℕ → ℕ → XError → Bool
length_error_is max_int actual max length_exceeds_max = ltb max actual
length_error_is max_int actual max length_exceeds_platform_limit = ltb max_int actual
length_error_is max_int actual max _ = false

-- `FieldError.Unwrap`; the other errors have no such method.
unfoldable pub unwrap : Err → Option Err
unwrap (field_error underlying path) = some underlying
unwrap _ = none

-- `errors.Is(err, target)` at one of the constants: equality, the error's `Is`, then the same of
-- what `Unwrap` gives.
unfoldable pub is_error : ℕ → Err → XError → Bool
unfolding length_error_is
is_error max_int (xerror x) target = xerror_eq x target
is_error max_int (length_error actual max) target = length_error_is max_int actual max target
is_error max_int (field_error underlying path) target = is_error max_int underlying target
is_error max_int _ target = false

abbrev pub anonymous : Text → Text
anonymous [] = codes "<anonymous>"
anonymous (c ∷ cs) = c ∷ cs

-- `strings.Join(parts, sep)`.
abbrev pub join : Text → List Text → Text
join sep [] = []
join sep (p ∷ []) = p
join sep (p ∷ q ∷ ps) = p ++ (sep ++ join sep (q ∷ ps))

-- The text of the path's new component; the first part is never absent.
unfoldable pub combined : Text → List Text → Text
combined first [] = anonymous first
combined first (second ∷ third ∷ []) =
    anonymous first ++ (codes "." ++ (second ++ (codes "(" ++ (third ++ codes ")"))))
combined first rest = join (codes ".") (anonymous first ∷ rest)

unfoldable pub add_path : Text → Err → Err
add_path part (field_error underlying path) = field_error underlying (part ++ (codes " " ++ path))
add_path part e = field_error e part

-- `WithFieldError` of an error that is not nil.
unfoldable pub located : Text → List Text → Err → Err
unfolding combined add_path
located first rest e = add_path (combined first rest) e

-- `WithFieldError(err, parts...)`.
unfoldable pub with_field_error : Option Err → Text → List Text → Option Err
unfolding located
with_field_error none first rest = none
with_field_error (some e) first rest = some (located first rest e)
