-- ===== src/Errors/Texts.antt =====
-- internal/errors/errors.go: the texts of errors, `Error()`. The texts of types and of the errors of
-- readers and writers are those of other packages.
use xdr.Prelude.{
  ℕ, ◌≡◌, refl, ◌∙◌, ap, inl, inr, ◌⊎◌, Option, none, some, List, ◌∷◌, ◌++◌, ltb, if◌then◌else◌,
  Text, codes,
}
use xdr.Prelude.Texts.{after_prefix}
use xdr.Prelude.Texts.Decimal.{decimal_from}
use xdr.Types.{GoType}
use xdr.Tags.{◌>>=◌}
use xdr.Tags.Text.{string}
use xdr.Errors.{
  XError, length_exceeds_max, length_exceeds_platform_limit, length_incorrect,
  union_switch_arm_undefined, not_pointer, invalid_value, nil_pointer, IoError, Err, xerror,
  invalid_type_error, invalid_tag_for_type_error, length_error, field_error, io_error, plain,
  combined, unwrap,
}
use xdr.Errors.Paths.{Wraps, wrap_all, trail, wrap_all_once}

-- `string(e)`
abbrev pub xerror_text : XError → Text
xerror_text length_exceeds_max = codes "xdr: Variable length object too long"
xerror_text length_exceeds_platform_limit =
    codes "xdr: Variable length object too long for platform"
xerror_text length_incorrect = codes "xdr: Length incorrect"
xerror_text union_switch_arm_undefined = codes "xdr: Union switch arm undefined"
xerror_text not_pointer = codes "xdr: Expected pointer parameter"
xerror_text invalid_value = codes "xdr: Invalid value for type"
xerror_text nil_pointer = codes "xdr: Unexpected nil pointer"

-- `%d` of a number of 64 bits.
abbrev pub number_text : ℕ → Text
number_text n = decimal_from 20 n

abbrev pub rest_or : Text → Option Text → Text
rest_or s none = s
rest_or s (some r) = r

-- `strings.TrimPrefix(s, "xdr: ")`
abbrev pub trim_xdr : Text → Text
trim_xdr s = rest_or s (after_prefix (codes "xdr: ") s)

-- `fmt.Sprintf("%s (%d > %d)", x, n, m)`
abbrev pub length_text : XError → ℕ → ℕ → Text
length_text x n m =
    xerror_text x
    ++ (codes " (" ++ (number_text n ++ (codes " > " ++ (number_text m ++ codes ")"))))

-- `FieldError.Error`, of the text of the error in it.
abbrev pub field_text : Text → Text → Text
field_text path u = codes "xdr: " ++ (trim_xdr u ++ (codes " (at " ++ (path ++ codes ")")))

-- The text without the prefix, if it has it.
abbrev pub IsBody : Text → Text → Type 0
IsBody body u = (u ≡ codes "xdr: " ++ body) ⊎ ((after_prefix (codes "xdr: ") u ≡ none) × (u ≡ body))

trim_xdr_lem : (body u : Text) → IsBody body u → trim_xdr u ≡ body
trim_xdr_lem body u (inl e) = ap trim_xdr e ∙ unfold after_prefix in refl
trim_xdr_lem body u (inr (n, e)) = rw n e

module _ (type_string : GoType → Text) (io_text : IoError → Text) (max_int : ℕ) where
  -- `InvalidTypeError.Error`
  abbrev pub invalid_type_text : GoType → Text
  invalid_type_text t = codes "xdr: Type '" ++ (type_string t ++ codes "' unsupported")

  -- `InvalidTagForTypeError.Error`, of the text of the tag.
  abbrev pub invalid_tag_text : GoType → Text → Text
  invalid_tag_text t s =
      codes "xdr: Tag '"
      ++ (s ++ (codes "' unsupported for type '" ++ (type_string t ++ codes "'")))

  -- `LengthError.Error`
  abbrev pub length_error_text : ℕ → ℕ → Text
  length_error_text actual max =
      if ltb max actual
      then length_text length_exceeds_max actual max
      else length_text length_exceeds_platform_limit actual max_int

  -- `err.Error()`; it is `none` where `String` of a tag panics.
  unfoldable pub error_text : Err → Option Text
  error_text (xerror x) = some (xerror_text x)
  error_text (invalid_type_error t) = some (invalid_type_text t)
  error_text (invalid_tag_for_type_error t tag) = string tag >>= λ s. some (invalid_tag_text t s)
  error_text (length_error actual max) = some (length_error_text actual max)
  error_text (field_error underlying path) = error_text underlying >>= λ u. some (field_text path u)
  error_text (io_error e) = some (io_text e)
  error_text (plain s) = some s

  -- However many `WithFieldError`s an error without a path passes through, the text of the result
  -- is `xdr: ` once, the text of the error itself without that prefix, and once the whole path.
  pub error_text-wrap_all :
      (e : Err) (u body : Text) (first : Text) (rest : List Text) (ws : Wraps)
      → unwrap e ≡ none
      → error_text e ≡ some u
      → IsBody body u
      → (w : Err) × (wrap_all (some e) ((first, rest) ∷ ws) ≡ some w)
        × (error_text w
            ≡ some (
                codes "xdr: "
                ++ (body ++ (codes " (at " ++ (trail (combined first rest) ws ++ codes ")")))))
  error_text-wrap_all e u body first rest ws bare h b = (
    field_error e (trail (combined first rest) ws),
    wrap_all_once e first rest ws bare,
    unfold error_text in rw (h, trim_xdr_lem body u b) refl,
  )
