-- ===== src/Tests/Verdicts.antt =====
-- A history with a checker of the user, values with masked fields, and a run that passes `check`.
use sieve.Prelude.{
  not, ◌||◌, Among, ◌↔◌, contains, ℕ, String, ◌≡◌, refl, Bool, true, false, List, [], ◌∷◌, Option,
  none, some, ok, pos,
}
use sieve.Prelude.Dict.{Dict, lookup}
use sieve.Json.{Value, str, num, list, dict, nil, cons, Fields, end, field}
use sieve.Oracle.History.{HistoryEntry}
use sieve.Oracle.Compare.{HistoryContext, compare_history_digests}
use sieve.Oracle.Masks.{StateContext, PathItem, key, index}
use sieve.Oracle.Liveness.{Delta, compare_states}
use sieve.Oracle.Safety.{empty_state, all_exist, apply_safety_checker}
use sieve.Oracle.Safety.States.{state_after, state_at, last_object, apply_safety_checker-holds}
use sieve.Oracle.Trim.{nested_set, get_path, nested_set-get_path}
use sieve.Oracle.StateMask.{generate_state_mask_helper, generate_state_mask}
use sieve.Oracle.StateMask.Paths.{IsMaskedAt, generate_state_mask_helper-IsMaskedAt}
use sieve.Oracle.Driver.{
  RunFiles, CheckContext, SafetyCheckerSuite, TestResult, is_paused_before_read, check_run,
}
use sieve.Oracle.Driver.Verdict.{QuietSuites, check_run-QuietSuites}

abbrev show_index : ℕ → String
show_index i = "0"

-- A checker that wants two objects.
abbrev wants_two : Dict (Option String) → Bool
wants_two (first ∷ second ∷ []) = true
wants_two _ = false

abbrev pods : List String
pods = "pod/default/one" ∷ "pod/default/two" ∷ []

abbrev first_added : HistoryEntry
first_added = record { number = 0; etype = "ADDED"; key = "pod/default/one"; state = "a" }

abbrev second_added : HistoryEntry
second_added = record { number = 1; etype = "ADDED"; key = "pod/default/two"; state = "b" }

abbrev first_deleted : HistoryEntry
first_deleted = record { number = 2; etype = "DELETED"; key = "pod/default/one"; state = "a" }

abbrev history : List HistoryEntry
history = first_added ∷ second_added ∷ first_deleted ∷ []

no_alarm : apply_safety_checker show_index wants_two "two pods" pods history ≡ []
unfolding apply_safety_checker
no_alarm = refl

first_checked : contains "pod/default/one" pods ≡ true
unfolding contains
first_checked = refl

both_exist :
    all_exist (state_at show_index wants_two "two pods" pods (first_added ∷ []) second_added) ≡ true
unfolding all_exist state_after empty_state
both_exist = refl

-- After the deletion, the first object is none and the checker is not applied.
apply_safety_checker-holds_example :
    (lookup "pod/default/one" (
        state_at show_index wants_two "two pods" pods
          (first_added ∷ second_added ∷ [])
          first_deleted)
      ≡ some (last_object "pod/default/one" (first_added ∷ second_added ∷ first_deleted ∷ []) none))
    × ((not (
            all_exist (
              state_at show_index wants_two "two pods" pods
                (first_added ∷ second_added ∷ [])
                first_deleted))
          || wants_two (
              state_at show_index wants_two "two pods" pods
                (first_added ∷ second_added ∷ [])
                first_deleted))
        ≡ true)
apply_safety_checker-holds_example =
    apply_safety_checker-holds show_index wants_two "two pods" pods
      (first_added ∷ second_added ∷ []) first_deleted [] "pod/default/one" no_alarm first_checked
      first_checked

deleted : last_object "pod/default/one" history none ≡ none
unfolding last_object
deleted = refl

-- An object that was never heard of is none as well, and so no state of this part is checked.
unheard : last_object "pod/default/two" (first_added ∷ []) none ≡ none
unfolding last_object
unheard = refl

-- A checker that never holds raises an alarm at the one state in which both objects exist.
never : Dict (Option String) → Bool
never state = false

alarm :
    apply_safety_checker show_index never "never" pods history
    ≡ "Safety violation: checker never failed on state 0 in history.json" ∷ []
unfolding apply_safety_checker never
alarm = refl

-- A field of an element of a list.
abbrev image_path : List PathItem
image_path = key "containers" ∷ index 0 ∷ key "image" ∷ []

abbrev containers : Value → Value
containers image = dict (field "containers" (list (cons (dict (field "image" image end)) nil)) end)

image_set :
    nested_set image_path (str "SIEVE-IGNORE") (containers (num (pos 1)))
    ≡ ok (containers (str "SIEVE-IGNORE"))
unfolding nested_set
image_set = refl

nested_set-get_path_example :
    get_path image_path (containers (str "SIEVE-IGNORE")) ≡ ok (str "SIEVE-IGNORE")
nested_set-get_path_example =
    nested_set-get_path image_path (str "SIEVE-IGNORE") (containers (num (pos 1)))
      (containers (str "SIEVE-IGNORE")) image_set

-- The state of a reference run, in which the image and an annotation have changed.
abbrev masked_object : Value
masked_object = dict (
    field "Spec" (list (cons (dict (field "Image" (str "SIEVE-IGNORE") end)) nil))
      (field "annotations" (dict (field "time" (str "SIEVE-IGNORE") end)) end))

masked_paths :
    generate_state_mask_helper [] masked_object []
    ≡ ("Spec" ∷ "*" ∷ "Image" ∷ []) ∷ ("annotations" ∷ "time" ∷ []) ∷ []
unfolding generate_state_mask_helper
masked_paths = refl

state_mask :
    generate_state_mask (field "pod/default/one" masked_object end)
    ≡ ok (
        (
          "pod/default/one",
          ("metadata" ∷ "annotations" ∷ "time" ∷ []) ∷ ("spec" ∷ "*" ∷ "image" ∷ []) ∷ [],
        )
        ∷ [])
unfolding generate_state_mask
state_mask = refl

generate_state_mask_helper-IsMaskedAt_example :
    Among ("Spec" ∷ "*" ∷ "Image" ∷ []) (generate_state_mask_helper [] masked_object [])
    ↔ IsMaskedAt masked_object ("Spec" ∷ "*" ∷ "Image" ∷ [])
generate_state_mask_helper-IsMaskedAt_example =
    generate_state_mask_helper-IsMaskedAt masked_object ("Spec" ∷ "*" ∷ "Image" ∷ [])

abbrev no_match : String → String → Bool
no_match path pattern = false

abbrev show : Value → String
show v = "a value"

abbrev show_option : Option Value → String
show_option v = "a value"

abbrev show_names : List String → String
show_names names = "names"

abbrev no_difference : Fields → Fields → List Delta
no_difference a b = []

abbrev suites : List SafetyCheckerSuite
suites =
    record { resource_keys = pods; checker_name = "two pods"; checker_function = wants_two } ∷ []

abbrev summary : Fields
summary = field "pod/default/one" (dict (field "ADDED" (num (pos 1)) end)) end

abbrev end_state : Fields
end_state = field "service/default/web" (dict end) end

abbrev files : RunFiles
files = record {
  server_log = "Sieve test coordinator finishes all actions";
  workload_log = "FINISH-SIEVE-TEST";
  workload_lines = "FINISH-SIEVE-TEST" ∷ [];
  controller_lines = "start" ∷ [];
  canonicalized_digest = summary;
  testing_digest = summary;
  history = history;
  canonicalized_state = end_state;
  testing_state = end_state;
}

abbrev history_context : HistoryContext
history_context = record {
  test_workload = "create";
  state_update_summary_check_event_list = "ADDED" ∷ [];
  controller_state_update_summary_checker_mask = [];
  common_state_update_summary_checker_mask = [];
}

abbrev state_context : StateContext
state_context = record {
  test_workload = "create";
  end_state_checker_mask = [];
  custom_resource_definitions = [];
  field_key_mask = [];
  field_path_mask = [];
  current_controller_family = [];
  reference_controller_family = [];
}

-- A plan that pauses the controller after a write.
abbrev context : CheckContext
context = record {
  controller_exception_check_enabled = true;
  workload_error_check_enabled = true;
  state_update_summary_check_enabled = true;
  end_state_check_enabled = true;
  use_csi_driver_for_ref = true;
  use_csi_driver = true;
  action_types = "pauseController" ∷ [];
  actions = list (
      cons
        (dict (
          field "actionType" (str "pauseController")
            (field "pauseAt" (str "afterControllerWrite") end)))
        nil);
  history_context = history_context;
  state_context = state_context;
}

abbrev passed : TestResult
passed = record {
  injection_completed = true;
  workload_completed = true;
  common_errors = [];
  end_state_errors = [];
  history_errors = [];
  no_exception = true;
  exception_message = "";
}

run_checked :
    check_run no_match show show_option show_names show_index no_difference suites context files
    ≡ ok passed
unfolding check_run
run_checked = refl

paused_after : is_paused_before_read context.actions ≡ ok false
unfolding is_paused_before_read
paused_after = refl

check_run-QuietSuites_example :
    QuietSuites no_match show show_option show_names show_index no_difference suites context files
      suites
    × (compare_history_digests show no_match history_context summary summary [] ≡ ok [])
    × (compare_states no_match show_option show_names show_index state_context no_difference
          end_state end_state
        ≡ ok [])
check_run-QuietSuites_example =
    check_run-QuietSuites no_match show show_option show_names show_index no_difference suites
      context files passed run_checked refl refl refl paused_after refl refl
