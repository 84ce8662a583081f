-- ===== src/Policy/Intermediate.antt =====
-- sieve_perturbation_policies/intermediate_state.py: restart the controller after a write.
use sieve.Prelude.{
  ℕ, String, Bool, true, false, not, ◌&&◌, ◌||◌, List, [], ◌∷◌, ◌++◌, Option, none, some, Result,
  ok, err, assertion_error, attribute_error, ◌>>=◌, ℤ, pos, minus_one, length, contains,
  filter_result, map_result, if◌then◌else◌, ◌+◌,
}
use sieve.Json.{Value, str, Fields}
use sieve.Delta.Part.{diff_event}
use sieve.Event.WriteTypes
use sieve.Event.Types.{is_creation_or_deletion}
use sieve.Event.Keys.{generate_key}
use sieve.Event.Records.{ControllerWrite, ControllerNonK8sWrite}
use sieve.Graph.Types.{Event, write, non_k8s_write, EventVertex, EventGraph}
use sieve.Analyzer.Pairs.{vertices_of, allowed_error_type}
use sieve.Policy.Context.{TestContext}
use sieve.Policy.Detectable.{
  detectable_event_diff, nondeterministic_key, same_object, lacks_status, is_update_write,
  is_status_write,
}
use sieve.Policy.Conditions.{
  object, int_value, observation_point, trigger_definition, trigger, plan, event_condition,
}

-- What an analysis returns, with the plans that it has generated in order. Where a pass is switched
-- off its number stays -1.
pub record Analysis : Type 0 where
  pub plans : List Value
  pub baseline_spec_number : ℤ
  pub after_p1_spec_number : ℤ
  pub after_p2_spec_number : ℤ
  pub final_spec_number : ℤ

-- `assert vertex.is_controller_write()`, then its content
abbrev pub as_write : Event → Result ControllerWrite
as_write (write w) = ok w
as_write _ = err assertion_error

unfoldable pub detectable_controller_write : TestContext → ControllerWrite → Result Bool
unfolding nondeterministic_key detectable_event_diff
detectable_controller_write ctx w = do
  random ← nondeterministic_key ctx w.key w.name w.obj_map
  if random
      then ok false
      else detectable_event_diff false w.slim_prev_obj_map w.slim_cur_obj_map w.prev_etype w.etype
          w.signature_counter

unfoldable pub intermediate_state_detectable_pass :
    TestContext → List EventVertex → Result (List EventVertex)
unfolding filter_result detectable_controller_write
intermediate_state_detectable_pass ctx =
    filter_result (λ v. as_write v.content >>= detectable_controller_write ctx)

abbrev left {ℓ} : {A B : Type ℓ} → Option (A × B) → Option A
left none = none
left (some d) = some d.0

abbrev right {ℓ} : {A B : Type ℓ} → Option (A × B) → Option B
right none = none
right (some d) = some d.1

-- Whether the unmasked difference of an update shows that it wrote nothing.
unfoldable pub empty_write : String → Option (Fields × Fields) → Bool
unfolding same_object lacks_status
empty_write etype d =
    same_object (left d) (right d) && is_update_write etype
    || lacks_status (left d) && lacks_status (right d) && is_status_write etype

-- The object of a read before the write; there is none before `compute_event_diff` has run.
unfoldable pub effective_write : ControllerWrite → Result Bool
unfolding is_creation_or_deletion diff_event empty_write
effective_write w = if is_creation_or_deletion w.etype then ok true else (elim w.prev_obj_map [
  | none ↦ err attribute_error
  | some prev ↦ ok (not (empty_write w.etype (diff_event prev w.obj_map [] [] true false)))
])

unfoldable pub effective_write_filtering_pass : List EventVertex → Result (List EventVertex)
unfolding filter_result effective_write
effective_write_filtering_pass = filter_result (λ v. as_write v.content >>= effective_write)

unfoldable pub no_error_write_filtering_pass : List EventVertex → Result (List EventVertex)
unfolding filter_result contains
no_error_write_filtering_pass =
    filter_result (λ v. as_write v.content >>= λ w. ok (contains w.error allowed_error_type))

abbrev restart_action : TestContext → Value → Value → Value
restart_action ctx condition point = object (
    ("actionType", str "restartController")
    ∷ ("controllerLabel", str ctx.controller_config.controller_pod_label)
    ∷ ("trigger", trigger (trigger_definition "trigger1" condition point ∷ []) "trigger1")
    ∷ [])

unfoldable pub generate_intermediate_state_test_plan_for_controller_write :
    (Option Fields → String) → TestContext → ControllerWrite → Value
unfolding generate_key
generate_intermediate_state_test_plan_for_controller_write dumps ctx w =
    let condition =
      event_condition dumps WriteTypes.create WriteTypes.delete w.etype
        (generate_key w.rtype w.namespace w.name) w.slim_prev_obj_map w.slim_cur_obj_map []
        w.signature_counter in
    plan ctx.test_workload
      (restart_action ctx condition (observation_point "afterControllerWrite" w.reconcile_fun) ∷ [])

unfoldable pub generate_intermediate_state_test_plan_for_annotated_api_invocation :
    TestContext → ControllerNonK8sWrite → Value
generate_intermediate_state_test_plan_for_annotated_api_invocation ctx w =
    let condition = object (
      ("conditionType", str "onAnnotatedAPICall")
      ∷ ("module", str w.module_name)
      ∷ ("filePath", str w.file_path)
      ∷ ("receiverType", str w.recv_type)
      ∷ ("funName", str w.fun_name)
      ∷ ("occurrence", int_value w.signature_counter)
      ∷ []) in
    plan ctx.test_workload (
      restart_action ctx condition (observation_point "afterAnnotatedAPICall" w.reconcile_fun) ∷ [])

abbrev pub write_plan : (Option Fields → String) → TestContext → Event → Result Value
write_plan dumps ctx (write w) =
    ok (generate_intermediate_state_test_plan_for_controller_write dumps ctx w)
write_plan dumps ctx _ = err attribute_error

abbrev pub invocation_plan : TestContext → Event → Result Value
invocation_plan ctx (non_k8s_write w) =
    ok (generate_intermediate_state_test_plan_for_annotated_api_invocation ctx w)
invocation_plan ctx _ = err attribute_error

-- The two optional passes over the writes, with the number of specifications that they leave.
abbrev pub prune_writes : Bool → List EventVertex → ℕ → Result (List EventVertex × ℤ)
prune_writes false ws others = ok (ws, minus_one)
prune_writes true ws others = do
  effective ← effective_write_filtering_pass ws
  kept ← no_error_write_filtering_pass effective
  ok (kept, pos (length kept + others))

abbrev pub detect_writes : Bool → TestContext → List EventVertex → Result (List EventVertex)
detect_writes false ctx ws = ok ws
detect_writes true ctx ws = intermediate_state_detectable_pass ctx ws

unfoldable pub intermediate_state_analysis :
    (Option Fields → String) → EventGraph → TestContext → Result Analysis
unfolding vertices_of effective_write_filtering_pass no_error_write_filtering_pass
    intermediate_state_detectable_pass map_result
intermediate_state_analysis dumps g ctx = do
  ws ← vertices_of g g.controller_write_vertices
  ns ← vertices_of g g.controller_non_k8s_write_vertices
  let total = length ws + length ns
  pruned ← prune_writes ctx.common_config.effective_updates_pruning_enabled ws (length ns)
  kept ← detect_writes ctx.common_config.nondeterministic_pruning_enabled ctx pruned.0
  write_plans ← map_result (λ v. write_plan dumps ctx v.content) kept
  invocation_plans ← map_result (λ v. invocation_plan ctx v.content) ns
  ok record {
    plans = write_plans ++ invocation_plans;
    baseline_spec_number = pos total;
    after_p1_spec_number = pos total;
    after_p2_spec_number = pruned.1;
    final_spec_number = pos (length kept + length ns);
  }
