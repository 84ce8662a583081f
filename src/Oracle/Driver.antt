-- ===== src/Oracle/Driver.antt =====
-- `check` of sieve_oracle/oracle.py and the checkers that it calls in turn. The files of a run are
-- their contents: `logs` holds the texts and lines, and the JSON files are values. What is printed is
-- left out.
pub mod Verdict
use sieve.Prelude.{
  ℕ, String, ◌==◌, Bool, true, false, ◌&&◌, not, List, [], ◌∷◌, ◌++◌, Option, none, some, Result,
  ok, err, index_error, key_error, type_error, ◌>>=◌, contains, from_mark, starts_with, strip, sort,
  if◌then◌else◌,
}
use sieve.Prelude.Dict.{Dict}
use sieve.Json.{Value, null, bool, num, str, list, dict, Items, nil, cons, Fields, is_str}
use sieve.Event.Keys.{item, as_dict}
use sieve.Event.Parse.{in_line}
use sieve.Oracle.History.{HistoryEntry}
use sieve.Oracle.Compare.{HistoryContext, generate_alarm, compare_history_digests}
use sieve.Oracle.Safety.{apply_safety_checker}
use sieve.Oracle.Masks.{StateContext}
use sieve.Oracle.Liveness.{Delta, compare_states}

-- What the run has left: the logs, and what `json.load` reads.
pub record RunFiles : Type 0 where
  pub server_log : String
  pub workload_log : String
  pub workload_lines : List String
  pub controller_lines : List String
  pub canonicalized_digest : Fields
  pub testing_digest : Fields
  pub history : List HistoryEntry
  pub canonicalized_state : Fields
  pub testing_state : Fields

-- What the checkers read of the test context. `actions` is `test_plan_content["actions"]`.
pub record CheckContext : Type 0 where
  pub controller_exception_check_enabled : Bool
  pub workload_error_check_enabled : Bool
  pub state_update_summary_check_enabled : Bool
  pub end_state_check_enabled : Bool
  pub use_csi_driver_for_ref : Bool
  pub use_csi_driver : Bool
  pub action_types : List String
  pub actions : Value
  pub history_context : HistoryContext
  pub state_context : StateContext

pub record SafetyCheckerSuite : Type 0 where
  pub resource_keys : List String
  pub checker_name : String
  pub checker_function : Dict (Option String) → Bool

pub record TestResult : Type 0 where
  pub injection_completed : Bool
  pub workload_completed : Bool
  pub common_errors : List String
  pub end_state_errors : List String
  pub history_errors : List String
  pub no_exception : Bool
  pub exception_message : String

abbrev pub panic_mark : String
panic_mark = "Observed a panic"

abbrev pub panic_message : Option String → List String → List String
panic_message none rest = rest
panic_message (some s) rest = generate_alarm "Exception from controller:" (strip s) ∷ rest

unfoldable pub panic_messages : List String → List String
unfolding from_mark generate_alarm strip
panic_messages [] = []
panic_messages (line ∷ lines) = panic_message (from_mark panic_mark line) (panic_messages lines)

unfoldable pub controller_panic_checker : RunFiles → List String
unfolding panic_messages sort
controller_panic_checker files = sort (panic_messages files.controller_lines)

-- The loop of `workload_error_checker`, up to the line that ends the workload.
unfoldable pub workload_messages : List String → List String → List String
unfolding contains generate_alarm strip
workload_messages action_types [] = []
workload_messages action_types (line ∷ lines) =
    let rest = workload_messages action_types lines in
    if starts_with line "FINISH-SIEVE-TEST"
    then []
    else if contains "pauseController" action_types && starts_with line "Conditional wait timeout"
    then rest
    else generate_alarm "Error:" (strip line) ∷ rest

unfoldable pub workload_error_checker : CheckContext → RunFiles → List String
unfolding workload_messages sort
workload_error_checker c files = sort (workload_messages c.action_types files.workload_lines)

unfoldable pub textbook_checker : CheckContext → RunFiles → List String
unfolding controller_panic_checker workload_error_checker
textbook_checker c files =
    (if c.controller_exception_check_enabled then controller_panic_checker files else [])
    ++ (if c.workload_error_check_enabled then workload_error_checker c files else [])

unfoldable pub test_run_validation : RunFiles → Bool × Bool
unfolding in_line
test_run_validation files = (
  in_line "Sieve test coordinator finishes all actions" files.server_log,
  in_line "FINISH-SIEVE-TEST" files.workload_log,
)

-- `actions[0]["actionType"] == "pauseController"` and the same for `pauseAt`, if there are actions
unfoldable pub is_paused_before_read : Value → Result Bool
unfolding item
is_paused_before_read null = ok false
is_paused_before_read (list nil) = err index_error
is_paused_before_read (list (cons action actions)) = do
  d ← as_dict action
  action_type ← item "actionType" d
  if is_str "pauseController" action_type
      then (do pause_at ← item "pauseAt" d; ok (is_str "beforeControllerRead" pause_at))
      else ok false
is_paused_before_read (dict d) = err key_error
is_paused_before_read _ = err type_error

module _ (path_match : String → String → Bool) (show : Value → String)
    (show_option : Option Value → String) (show_names : List String → String)
    (show_index : ℕ → String) (deep_diff : Fields → Fields → List Delta)
    (suites : List SafetyCheckerSuite) (c : CheckContext) (files : RunFiles) where
  unfoldable pub suite_messages : List SafetyCheckerSuite → List String
  unfolding apply_safety_checker
  suite_messages [] = []
  suite_messages (suite ∷ rest) =
      apply_safety_checker show_index suite.checker_function suite.checker_name suite.resource_keys
        files.history
      ++ suite_messages rest

  unfoldable pub summary_messages : Result (List String)
  unfolding is_paused_before_read compare_history_digests
  summary_messages =
      if c.state_update_summary_check_enabled
      then (do
        paused ← is_paused_before_read c.actions
        if not paused
            then compare_history_digests show path_match c.history_context
                files.canonicalized_digest files.testing_digest
                c.state_context.current_controller_family
            else ok [])
      else ok []

  unfoldable pub safety_checker : Result (List String)
  unfolding summary_messages suite_messages
  safety_checker = do messages ← summary_messages; ok (messages ++ suite_messages suites)

  unfoldable pub liveness_checker : Result (List String)
  unfolding compare_states
  liveness_checker =
      if c.end_state_check_enabled && not (c.use_csi_driver_for_ref && not c.use_csi_driver)
      then compare_states path_match show_option show_names show_index c.state_context deep_diff
          files.canonicalized_state files.testing_state
      else ok []

  unfoldable pub check_run : Result TestResult
  unfolding test_run_validation textbook_checker safety_checker liveness_checker
  check_run = do
    let completed = test_run_validation files
    let textbook_messages = textbook_checker c files
    safety_messages ← safety_checker
    liveness_messages ← liveness_checker
    ok record {
      injection_completed = completed.0;
      workload_completed = completed.1;
      common_errors = textbook_messages;
      end_state_errors = liveness_messages;
      history_errors = safety_messages;
      no_exception = true;
      exception_message = "";
    }
