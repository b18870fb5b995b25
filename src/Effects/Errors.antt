-- ===== src/Effects/Errors.antt =====
-- Go's `error` values: an error of the Kubernetes API with its reason, a formatted error, and an
-- error that wraps another (`fmt.Errorf("…: %w", err)`).
use kbrain.Prelude.{Bool, true, false, ◌++◌}
use kbrain.Prelude.Text.{Text, lit}

pub data Reason : Type 0 where
  not_found already_exists conflict other_reason : Reason

pub data Error : Type 0 where
  api : Reason → Text → Error
  errorf : Text → Error
  wrap : Text → Error → Error

-- A pair `(value, error)` of which one half is used.
pub data Result {ℓ} (A : Type ℓ) : Type ℓ where
  ok : A → Result A
  err : Error → Result A

-- `errors.IsNotFound` and `errors.IsAlreadyExists` look through wrapped errors.
unfoldable pub is_not_found : Error → Bool
is_not_found (api Reason.not_found m) = true
is_not_found (api _ m) = false
is_not_found (errorf m) = false
is_not_found (wrap p e) = is_not_found e

unfoldable pub is_already_exists : Error → Bool
is_already_exists (api Reason.already_exists m) = true
is_already_exists (api _ m) = false
is_already_exists (errorf m) = false
is_already_exists (wrap p e) = is_already_exists e

-- `err.Error()`, which `%v` prints.
unfoldable pub error_text : Error → Text
error_text (api r m) = m
error_text (errorf m) = m
error_text (wrap p e) = p ++ lit ": " ++ error_text e
