-- ===== src/Errors/Paths.antt =====
-- internal/errors/errors.go: what wrapping an error with a path keeps, and the path that results.
use xdr.Prelude.{◌≡◌, refl, Option, none, some, List, [], ◌∷◌, ◌++◌, Text, codes}
use xdr.Errors.{Err, field_error, add_path, combined, unwrap, with_field_error}

-- The parts of each `WithFieldError` that an error passes through, innermost first.
abbrev pub Wraps : Type 0
Wraps = List (Text × List Text)

pub wrap_all : Option Err → Wraps → Option Err
wrap_all e [] = e
wrap_all e ((first, rest) ∷ ws) = wrap_all (with_field_error e first rest) ws

-- The path: the components outermost first, separated by spaces.
unfoldable pub trail : Text → Wraps → Text
trail inner [] = inner
trail inner ((first, rest) ∷ ws) = trail (combined first rest ++ (codes " " ++ inner)) ws

wrap_all-field_error :
    (e : Err) (p : Text) (ws : Wraps)
    → wrap_all (some (field_error e p)) ws ≡ some (field_error e (trail p ws))
unfolding wrap_all trail with_field_error
wrap_all-field_error e p [] = refl
wrap_all-field_error e p ((first, rest) ∷ ws) =
    wrap_all-field_error e (combined first rest ++ (codes " " ++ p)) ws

add_path-bare : (part : Text) (e : Err) → unwrap e ≡ none → add_path part e ≡ field_error e part
unfolding add_path unwrap
add_path-bare part (field_error u p) h = cc
add_path-bare part _ h = refl

-- However many `WithFieldError`s an error without a path passes through, the result has one
-- `FieldError` round the error itself, whose path lists the components outermost first.
pub wrap_all_once :
    (e : Err) (first : Text) (rest : List Text) (ws : Wraps)
    → unwrap e ≡ none
    → wrap_all (some e) ((first, rest) ∷ ws) ≡ some (field_error e (trail (combined first rest) ws))
unfolding wrap_all with_field_error
wrap_all_once e first rest ws bare =
    rw (add_path-bare (combined first rest) e bare)
      (wrap_all-field_error e (combined first rest) ws)
