-- ===== src/Policy/Unobserved.antt =====
-- sieve_perturbation_policies/unobserved_state.py: hide an event from the controller until it is
-- overwritten.
use sieve.Prelude.{
  String, ◌==◌, Bool, true, false, ◌||◌, List, [], ◌∷◌, Option, Result, ok, err, assertion_error,
  attribute_error, ◌>>=◌, ℤ, pos, minus_one, length, contains, ltb, filter_result, map_result,
  if◌then◌else◌,
}
use sieve.Json.{Value, bool, str, Fields}
use sieve.Event.HearTypes
use sieve.Event.Keys.{generate_key}
use sieve.Event.Records.{ControllerHear}
use sieve.Graph.Types.{Event, hear, write, read, EventEdge, EventVertex, EventGraph, vertex}
use sieve.Analyzer.Pairs.{vertices_of, allowed_error_type}
use sieve.Policy.Context.{TestContext}
use sieve.Policy.Detectable.{detectable_event_diff, nondeterministic_key}
use sieve.Policy.Conditions.{
  object, int_value, observation_point, trigger_definition, trigger, plan, event_condition,
  occurrence_condition,
}
use sieve.Policy.Intermediate.{Analysis}

abbrev pub as_hear : Event → Result ControllerHear
as_hear (hear h) = ok h
as_hear _ = err attribute_error

unfoldable pub detectable_controller_hear : TestContext → ControllerHear → Result Bool
unfolding nondeterministic_key detectable_event_diff
detectable_controller_hear ctx h = do
  random ← nondeterministic_key ctx h.key h.name h.obj_map
  if random
      then ok false
      else detectable_event_diff true h.slim_prev_obj_map h.slim_cur_obj_map h.prev_etype h.etype
          h.signature_counter

unfoldable pub unobserved_state_detectable_pass :
    TestContext → List EventVertex → Result (List EventVertex)
unfolding filter_result detectable_controller_hear
unobserved_state_detectable_pass ctx =
    filter_result (λ v. as_hear v.content >>= detectable_controller_hear ctx)

unfoldable pub causality_hear_filtering_pass : List EventVertex → Result (List EventVertex)
unfolding filter_result
causality_hear_filtering_pass =
    filter_result (λ v. ok (ltb 0 (length v.out_inter_reconciler_edges)))

-- `edge.sink.content.error`: only a write and a read have an error.
abbrev error_of : Event → Result String
error_of (write w) = ok w.error
error_of (read r) = ok r.error
error_of _ = err attribute_error

unfoldable pub successful_write : EventGraph → List EventEdge → Result Bool
unfolding vertex contains
successful_write g [] = ok false
successful_write g (e ∷ es) = do
  sink ← vertex g e.sink
  error ← error_of sink.content
  rest ← successful_write g es
  ok (contains error allowed_error_type || rest)

unfoldable pub impact_filtering_pass : EventGraph → List EventVertex → Result (List EventVertex)
unfolding filter_result successful_write
impact_filtering_pass g = filter_result (λ v. successful_write g v.out_inter_reconciler_edges)

unfoldable pub overwrite_filtering_pass : List EventVertex → Result (List EventVertex)
unfolding filter_result
overwrite_filtering_pass =
    filter_result (λ v. as_hear v.content >>= λ h. ok (ltb 0 (length h.cancelled_by)))

-- A trigger of the second action: an event of the same object reaches the controller.
abbrev received : String → Value → Value
received name condition =
    trigger_definition name condition (observation_point "afterControllerRecv" "informer")

unfoldable pub generate_unobserved_state_test_plan :
    (Option Fields → String) → TestContext → ControllerHear → Value
unfolding generate_key
generate_unobserved_state_test_plan dumps ctx h =
    let resource_key = generate_key h.rtype h.namespace h.name in
    let condition =
      event_condition dumps HearTypes.added HearTypes.deleted h.etype resource_key
        h.slim_prev_obj_map h.slim_cur_obj_map [] h.signature_counter in
    let created = occurrence_condition "onObjectCreate" resource_key 1 in
    let updated = occurrence_condition "onObjectUpdate" resource_key 1 in
    let deleted = occurrence_condition "onObjectDelete" resource_key 1 in
    let modified = object (
      ("conditionType", str "onAnyFieldModification")
      ∷ ("resourceKey", str resource_key)
      ∷ ("prevStateDiff", str (dumps h.slim_cur_obj_map))
      ∷ ("occurrence", int_value 1)
      ∷ []) in
    let definitions =
      if h.etype == HearTypes.added
      then received "trigger2" updated ∷ received "trigger3" deleted ∷ []
      else if h.etype == HearTypes.deleted
      then received "trigger2" created ∷ received "trigger3" updated ∷ []
      else received "trigger2" modified ∷ received "trigger3" deleted ∷ [] in
    let first =
      trigger_definition "trigger1" condition
        (observation_point "beforeControllerRecv" "informer") in
    let pause = object (
      ("actionType", str "pauseController")
      ∷ ("pauseAt", str "beforeControllerRead")
      ∷ ("pauseScope", str resource_key)
      ∷ ("avoidOngoingRead", bool true)
      ∷ ("trigger", trigger (first ∷ []) "trigger1")
      ∷ []) in
    let resume = object (
      ("actionType", str "resumeController")
      ∷ ("pauseAt", str "beforeControllerRead")
      ∷ ("pauseScope", str resource_key)
      ∷ ("trigger", trigger definitions "trigger2|trigger3")
      ∷ []) in
    plan ctx.test_workload (pause ∷ resume ∷ [])

abbrev pub hear_plan : (Option Fields → String) → TestContext → Event → Result Value
hear_plan dumps ctx (hear h) = ok (generate_unobserved_state_test_plan dumps ctx h)
hear_plan dumps ctx _ = err assertion_error

-- The causality pass sets both numbers.
abbrev pub prune_hears : Bool → List EventVertex → Result (List EventVertex × ℤ)
prune_hears false hs = ok (hs, minus_one)
prune_hears true hs = do kept ← causality_hear_filtering_pass hs; ok (kept, pos (length kept))

abbrev pub detect_hears : Bool → TestContext → List EventVertex → Result (List EventVertex)
detect_hears false ctx hs = ok hs
detect_hears true ctx hs = unobserved_state_detectable_pass ctx hs

unfoldable pub unobserved_state_analysis :
    (Option Fields → String) → EventGraph → TestContext → Result Analysis
unfolding vertices_of overwrite_filtering_pass causality_hear_filtering_pass
    unobserved_state_detectable_pass map_result
unobserved_state_analysis dumps g ctx = do
  all_hears ← vertices_of g g.controller_hear_vertices
  hs ← overwrite_filtering_pass all_hears
  pruned ← prune_hears ctx.common_config.causality_pruning_enabled hs
  kept ← detect_hears ctx.common_config.nondeterministic_pruning_enabled ctx pruned.0
  plans ← map_result (λ v. hear_plan dumps ctx v.content) kept
  ok record {
    plans = plans;
    baseline_spec_number = pos (length hs);
    after_p1_spec_number = pruned.1;
    after_p2_spec_number = pruned.1;
    final_spec_number = pos (length kept);
  }
