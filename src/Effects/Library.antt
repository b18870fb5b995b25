-- ===== src/Effects/Library.antt =====
-- The library functions that the operator calls and that compute a value: each is a field, and the
-- definitions that need one take the record as an argument.
use kbrain.Prelude.{List, Bool, Option}
use kbrain.Prelude.Int.{ℤ}
use kbrain.Prelude.Text.{Text}
use kbrain.Api.{Dict, AgentTask, Pod}
use kbrain.Effects.Errors.{Error, Result}

pub record Libs : Type 0 where
  -- strconv.Quote, which `%q` prints with
  pub quote : Text → Text
  -- time.ParseDuration and Duration.String, in nanoseconds
  pub parse_duration : Text → Option ℤ
  pub show_duration : ℤ → Text
  -- json.Marshal of a map of strings
  pub marshal : Dict → Text
  -- json.Unmarshal into a struct of a string and an int, by the names of the two fields
  pub unmarshal : Text → Text → Text → Result (Text × ℤ)
  -- http.NewRequestWithContext, which fails where the URL does not parse
  pub url_error : Text → Option Error
  -- whether resource.MustParse reads the quantity; it panics on any other
  pub is_quantity : Text → Bool
  -- controllerutil's ContainsFinalizer, AddFinalizer and RemoveFinalizer
  pub contains_finalizer : AgentTask → Text → Bool
  pub add_finalizer : AgentTask → Text → AgentTask
  pub remove_finalizer : AgentTask → Text → AgentTask
  -- controllerutil.SetControllerReference
  pub set_controller_reference : AgentTask → Pod → Result Pod
  -- labels.Set.String and labels.Parse
  pub set_string : Dict → Text
  pub parse_selector : Text → Result Text
  -- sort.Slice on a slice of tasks, by the comparison of two elements
  pub sort_slice : (AgentTask → AgentTask → Bool) → List AgentTask → List AgentTask
