-- ===== src/Policy/Stale.antt =====
-- sieve_perturbation_policies/stale_state.py: let the controller read the past after a deletion.
use sieve.Prelude.{
  ℕ, zero, suc, ◌+◌, String, ◌==◌, Bool, true, false, not, ◌&&◌, ◌||◌, List, [], ◌∷◌, ◌++◌, Option,
  none, some, Result, ok, err, assertion_error, ◌>>=◌, ◌>>◌, check, ℤ, pos, negsuc, minus_one,
  leb_ℤ, ltb_ℤ, length, contains, nat_eq, filter_result, if◌then◌else◌,
}
use sieve.Prelude.Dict.{lookup}
use sieve.Json.{Value, bool, str, Fields}
use sieve.Event.HearTypes
use sieve.Event.WriteTypes
use sieve.Event.Keys.{generate_key}
use sieve.Event.Records.{ControllerHear, ControllerWrite}
use sieve.Graph.Types.{Event, hear, write, EventEdge, EventVertex, EventGraph}
use sieve.Analyzer.Pairs.{Pair, vertices_of, allowed_error_type}
use sieve.Policy.Context.{TestContext}
use sieve.Policy.Detectable.{detectable_event_diff, nondeterministic_key}
use sieve.Policy.Conditions.{
  object, int_value, observation_point, trigger_definition, trigger, plan, event_condition,
  occurrence_condition,
}
use sieve.Policy.Intermediate.{Analysis, as_write}
use sieve.Policy.Unobserved.{as_hear, detectable_controller_hear}
use sieve.Policy.Timing.{decide_stale_state_timing}

-- A key of either event that is not deterministic drops the pair.
unfoldable pub detectable_pair : TestContext → Pair → Result Bool
unfolding nondeterministic_key detectable_controller_hear
detectable_pair ctx (hv, wv) = do
  h ← as_hear hv.content
  w ← as_write wv.content
  hear_random ← nondeterministic_key ctx h.key h.name h.obj_map
  if hear_random then ok false else do
    write_random ← nondeterministic_key ctx w.key w.name w.obj_map
    if write_random
        then ok false
        else detectable_event_diff true h.slim_prev_obj_map h.slim_cur_obj_map h.prev_etype h.etype
            h.signature_counter

unfoldable pub stale_state_detectable_pass : TestContext → List Pair → Result (List Pair)
unfolding filter_result detectable_pair
stale_state_detectable_pass ctx = filter_result (detectable_pair ctx)

-- A hear and a deletion that starts after it.
abbrev deletes_after : Event → Event → Bool
deletes_after (hear h) (write w) =
    w.etype == WriteTypes.delete && ltb_ℤ h.start_timestamp w.start_timestamp
deletes_after h w = false

unfoldable pub baseline_of_write : EventVertex → List EventVertex → List Pair
baseline_of_write w [] = []
baseline_of_write w (h ∷ hs) =
    let rest = baseline_of_write w hs in
    if deletes_after h.content w.content then (h, w) ∷ rest else rest

unfoldable pub baseline_of_writes : List EventVertex → List EventVertex → List Pair
unfolding baseline_of_write
baseline_of_writes hs [] = []
baseline_of_writes hs (w ∷ ws) = baseline_of_write w hs ++ baseline_of_writes hs ws

unfoldable pub get_stale_state_baseline : EventGraph → Result (List Pair)
unfolding vertices_of baseline_of_writes
get_stale_state_baseline g = do
  hs ← vertices_of g g.controller_hear_vertices
  ws ← vertices_of g g.controller_write_vertices
  ok (baseline_of_writes hs ws)

-- `event_vertices_connected` of sieve_analyzer/event_graph.py
unfoldable pub sink_among : List EventEdge → ℕ → Bool
sink_among [] gid = false
sink_among (e ∷ es) gid = nat_eq e.sink gid || sink_among es gid

unfoldable pub event_vertices_connected : EventVertex → EventVertex → Bool
unfolding sink_among
event_vertices_connected source sink = sink_among source.out_inter_reconciler_edges sink.gid

unfoldable pub causality_pair_filtering_pass : List Pair → Result (List Pair)
unfolding filter_result event_vertices_connected
causality_pair_filtering_pass = filter_result (λ p. ok (event_vertices_connected p.0 p.1))

-- A hear after the write has ended that adds or updates the object again.
abbrev reverses : ControllerWrite → Event → Bool
reverses w (hear h) =
    not (leb_ℤ h.start_timestamp w.end_timestamp)
    && (h.etype == HearTypes.added || h.etype == HearTypes.updated)
reverses w _ = false

unfoldable pub any_reverses : ControllerWrite → List EventVertex → Bool
any_reverses w [] = false
any_reverses w (v ∷ vs) = reverses w v.content || any_reverses w vs

-- A key that no hear has is kept: the controller does not watch it.
unfoldable pub reversed_effect : EventGraph → Pair → Result Bool
unfolding vertices_of lookup any_reverses contains
reversed_effect g (hv, wv) = do
  w ← as_write wv.content
  check (w.etype == WriteTypes.delete)
  if not (contains w.error allowed_error_type)
      then ok false
      else elim (lookup w.key g.controller_hear_key_to_vertices) [
        | none ↦ ok true
        | some gids ↦ (do vs ← vertices_of g gids; ok (any_reverses w vs))
      ]

unfoldable pub reversed_effect_filtering_pass : EventGraph → List Pair → Result (List Pair)
unfolding filter_result reversed_effect
reversed_effect_filtering_pass g = filter_result (reversed_effect g)

unfoldable pub generate_stale_state_test_plan :
    (Option Fields → String) → TestContext → ControllerHear → ControllerWrite → String → Value
unfolding generate_key contains
generate_stale_state_test_plan dumps ctx h w pause_timing =
    let resource_key1 = generate_key h.rtype h.namespace h.name in
    let resource_key2 = generate_key w.rtype w.namespace w.name in
    let convert : List (String × Value) =
      if contains h.rtype ctx.controller_config.custom_resource_definitions
      then []
      else ("convertStateToAPIForm", bool true) ∷ [] in
    let condition =
      event_condition dumps HearTypes.added HearTypes.deleted h.etype resource_key1
        h.slim_prev_obj_map h.slim_cur_obj_map convert h.signature_counter in
    let following = ctx.common_config.following_api in
    let point =
      observation_point
        (if pause_timing == "after" then "afterAPIServerRecv" else "beforeAPIServerRecv")
        following in
    let pause = object (
      ("actionType", str "pauseAPIServer")
      ∷ ("apiServerName", str following)
      ∷ ("pauseScope", str resource_key1)
      ∷ ("trigger", trigger (trigger_definition "trigger1" condition point ∷ []) "trigger1")
      ∷ []) in
    let recreated = occurrence_condition "onObjectCreate" resource_key2 1 in
    let leading_point = observation_point "afterAPIServerRecv" ctx.common_config.leading_api in
    let reconnect = object (
      ("actionType", str "reconnectController")
      ∷ ("controllerLabel", str ctx.controller_config.controller_pod_label)
      ∷ ("reconnectAPIServer", str following)
      ∷ ("async", bool true)
      ∷ ("waitBefore", int_value 10)
      ∷ ("trigger", trigger (trigger_definition "trigger2" recreated leading_point ∷ []) "trigger2")
      ∷ []) in
    let timeout =
      object (("conditionType", str "onTimeout") ∷ ("timeoutValue", int_value 20) ∷ []) in
    let timer = object (("triggerName", str "trigger3") ∷ ("condition", timeout) ∷ []) in
    let resume = object (
      ("actionType", str "resumeAPIServer")
      ∷ ("apiServerName", str following)
      ∷ ("pauseScope", str resource_key1)
      ∷ ("trigger", trigger (timer ∷ []) "trigger3")
      ∷ []) in
    plan ctx.test_workload (pause ∷ reconnect ∷ resume ∷ [])

-- `n += 1` on a number that is -1 where its pass is switched off
abbrev pub bump : ℤ → ℤ
bump (pos n) = pos (n + 1)
bump (negsuc zero) = pos 0
bump (negsuc (suc n)) = negsuc n

abbrev pub bump_all : Analysis → Analysis
bump_all a = record {
  plans = a.plans;
  baseline_spec_number = bump a.baseline_spec_number;
  after_p1_spec_number = bump a.after_p1_spec_number;
  after_p2_spec_number = bump a.after_p2_spec_number;
  final_spec_number = bump a.final_spec_number;
}

abbrev pub add_plans : List Value → Analysis → Analysis
add_plans ps a = record a { plans = a.plans ++ ps }

-- One round of the last loop: one plan, or two where either timing is possible.
abbrev pub plan_pair :
    (Option Fields → String)
    → TestContext
    → ControllerHear
    → ControllerWrite
    → String
    → Analysis
    → Analysis
plan_pair dumps ctx h w timing a =
    if timing == "after"
    then add_plans (generate_stale_state_test_plan dumps ctx h w timing ∷ []) a
    else if timing == "before"
    then add_plans (generate_stale_state_test_plan dumps ctx h w timing ∷ []) a
    else bump_all (
        add_plans
          (generate_stale_state_test_plan dumps ctx h w "after"
            ∷ generate_stale_state_test_plan dumps ctx h w "before"
            ∷ [])
          a)

-- The timing, where the walk has enough fuel.
abbrev pub timing_result : Option (Result String) → Result String
timing_result none = err assertion_error
timing_result (some r) = r

-- `assert isinstance(controller_hear, ControllerHear)`
abbrev pub expect_hear : Event → Result ControllerHear
expect_hear (hear h) = ok h
expect_hear _ = err assertion_error

unfoldable pub plan_pairs :
    ℕ → (Option Fields → String) → EventGraph → TestContext → List Pair → Analysis → Result Analysis
unfolding decide_stale_state_timing
plan_pairs fuel dumps g ctx [] a = ok a
plan_pairs fuel dumps g ctx ((hv, wv) ∷ ps) a = do
  h ← expect_hear hv.content
  w ← as_write wv.content
  timing ← timing_result (decide_stale_state_timing fuel g hv wv)
  plan_pairs fuel dumps g ctx ps (plan_pair dumps ctx h w timing a)

abbrev pub prune_causality : Bool → List Pair → Result (List Pair × ℤ)
prune_causality false ps = ok (ps, minus_one)
prune_causality true ps = do kept ← causality_pair_filtering_pass ps; ok (kept, pos (length kept))

abbrev pub prune_reversed : Bool → EventGraph → List Pair → Result (List Pair × ℤ)
prune_reversed false g ps = ok (ps, minus_one)
prune_reversed true g ps = do
  kept ← reversed_effect_filtering_pass g ps
  ok (kept, pos (length kept))

abbrev pub detect_pairs : Bool → TestContext → List Pair → Result (List Pair)
detect_pairs false ctx ps = ok ps
detect_pairs true ctx ps = stale_state_detectable_pass ctx ps

-- A walk visits each vertex once, so a vertex more than the graph has is enough fuel.
unfoldable pub stale_state_analysis :
    (Option Fields → String) → EventGraph → TestContext → Result Analysis
unfolding get_stale_state_baseline causality_pair_filtering_pass reversed_effect_filtering_pass
    stale_state_detectable_pass plan_pairs
stale_state_analysis dumps g ctx = do
  baseline ← get_stale_state_baseline g
  caused ← prune_causality ctx.common_config.causality_pruning_enabled baseline
  reversed ← prune_reversed ctx.common_config.effective_updates_pruning_enabled g caused.0
  kept ← detect_pairs ctx.common_config.nondeterministic_pruning_enabled ctx reversed.0
  plan_pairs (length g.vertices + 1) dumps g ctx kept (record {
    plans = [];
    baseline_spec_number = pos (length baseline);
    after_p1_spec_number = caused.1;
    after_p2_spec_number = reversed.1;
    final_spec_number = pos (length kept);
  })
