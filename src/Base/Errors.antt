-- ===== src/Base/Errors.antt =====
-- Go's `error` values, and calls that return a value or an error.
use mathlib.Core.Bool.{Bool, true, false}
use mathlib.Core.Option.{Option}
use mathlib.Core.List.{◌++◌}
use hyperfleet_controller.Base.Strings.{Text, text}

-- `errorf` is fmt.Errorf with no %w, `wrap m e` is fmt.Errorf(m + ": %w", e). `not_found` is the
-- API server's NotFound status error, `external` any other error of outside code.
pub data Error : Type 0 where
  errorf external not_found : Text → Error
  wrap : Text → Error → Error

-- err.Error()
unfoldable pub error_text : Error → Text
error_text (errorf m) = m
error_text (external m) = m
error_text (not_found m) = m
error_text (wrap m e) = m ++ text ": " ++ error_text e

-- errors.IsNotFound, which looks through wrapped errors.
unfoldable pub is_not_found : Error → Bool
is_not_found (not_found m) = true
is_not_found (wrap m e) = is_not_found e
is_not_found _ = false

-- An `error` result: `none` is nil.
abbrev pub Err : Type 0
Err = Option Error

pub data Result {ℓ} (A : Type ℓ) : Type ℓ where
  ok : A → Result A
  err : Error → Result A
