-- ===== src/Errors/Runs.antt =====
-- Errors that pass through two codecs.
use xdr.Prelude.{Text, inl}
use xdr.Prelude.Texts.Decimal.{decimal_from}
use xdr.Types.{GoType}
use xdr.Errors.{IoError}
use xdr.Errors.Texts.{error_text, error_text-wrap_all}
use xdr.Prelude.{◌≡◌, refl, none, [], ◌∷◌, some, codes}
use xdr.Errors.{
  Err, with_field_error, xerror, nil_pointer, field_error, unwrap, length_error, combined,
}
use xdr.Errors.Paths.{Wraps, wrap_all, trail, wrap_all_once}

two_levels :
    with_field_error
      (with_field_error (some (xerror nil_pointer)) (codes "T") (codes "A" ∷ []))
      []
      (codes "?" ∷ codes "union:0x1" ∷ [])
    ≡ some (field_error (xerror nil_pointer) (codes "<anonymous>.?(union:0x1) T.A"))
unfolding with_field_error
two_levels = refl

abbrev outer : Wraps
outer = ([], codes "B" ∷ []) ∷ []

bare : unwrap (xerror nil_pointer) ≡ none
unfolding unwrap
bare = refl

wrap_all_once_example :
    wrap_all (some (xerror nil_pointer)) ((codes "T", codes "A" ∷ []) ∷ outer)
    ≡ some (field_error (xerror nil_pointer) (trail (combined (codes "T") (codes "A" ∷ [])) outer))
wrap_all_once_example = wrap_all_once (xerror nil_pointer) (codes "T") (codes "A" ∷ []) outer bare

abbrev type_string : GoType → Text
type_string t = codes "T"

abbrev io_text : IoError → Text
io_text e = codes "EOF"

too_long :
    error_text type_string io_text 100 (length_error 12 10)
    ≡ some (codes "xdr: Variable length object too long (12 > 10)")
unfolding error_text decimal_from
too_long = refl

error_text-wrap_all_example :
    (w : Err) × (wrap_all (some (length_error 12 10)) ((codes "T", codes "A" ∷ []) ∷ outer)
      ≡ some w)
    × (error_text type_string io_text 100 w
        ≡ some (codes "xdr: Variable length object too long (12 > 10) (at <anonymous>.B T.A)"))
unfolding trail combined
error_text-wrap_all_example =
    error_text-wrap_all type_string io_text 100 (length_error 12 10)
      (codes "xdr: Variable length object too long (12 > 10)")
      (codes "Variable length object too long (12 > 10)") (codes "T") (codes "A" ∷ []) outer
      (unfold unwrap in refl) too_long (inl refl)
