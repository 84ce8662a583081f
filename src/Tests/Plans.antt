-- ===== src/Tests/Plans.antt =====
-- The plans of the three policies for the small run, and the timing of its pairs.
use sieve.Prelude.{
  ℕ, String, ◌≡◌, refl, true, false, [], ◌∷◌, Option, none, some, ok, err, assertion_error, ◌>>=◌,
  pos, minus_one, ◌≤ℤ◌, ◌+◌, get_elem?, length,
}
use sieve.Json.{keys_within, has, get, Fields, end}
use sieve.Delta.Diff.{same_key}
use sieve.Event.HearTypes
use sieve.Graph.Types.{write, EventVertex, EventGraph, init_event_graph, vertex}
use sieve.Graph.Build.{add_sorted_controller_hears, add_sorted_reconciler_events, intra_edge}
use sieve.Analyzer.Pairs.{generate_hear_write_pairs, connect_pairs}
use sieve.Policy.Context.{TestContext}
use sieve.Policy.Intermediate.{Analysis, intermediate_state_analysis}
use sieve.Policy.Unobserved.{unobserved_state_analysis}
use sieve.Policy.Stale.{stale_state_analysis}
use sieve.Policy.Timing.{judge, decide_stale_state_timing}
use sieve.Policy.Counts.{
  IsCounted, intermediate_state_analysis-IsCounted, unobserved_state_analysis-IsCounted,
}
use sieve.Policy.StaleCounts.{stale_state_analysis-IsReported}
use sieve.Policy.Ends.{Ends, decide_stale_state_timing-Ends, decide_stale_state_timing-end_of_chain}
use sieve.Tests.Runs.{
  replicas, hear_of, deletion, hears, started, ended, ok_or, empty, graph, connected,
  graph-IsForward,
}

abbrev dumps : Option Fields → String
dumps none = "null"
dumps (some d) = "{}"

abbrev context : TestContext
context = record {
  test_workload = "recreate";
  common_config = record {
    leading_api = "kind-control-plane";
    following_api = "kind-control-plane2";
    causality_pruning_enabled = true;
    effective_updates_pruning_enabled = true;
    nondeterministic_pruning_enabled = true;
    persist_test_plans_enabled = true;
    compress_trivial_reconcile_enabled = true;
  };
  controller_config = record {
    controller_pod_label = "operator";
    custom_resource_definitions = "web" ∷ [];
    loosen_reconciler_boundary = false;
  };
  end_state = end;
}

abbrev nothing : Analysis
nothing = record {
  plans = [];
  baseline_spec_number = minus_one;
  after_p1_spec_number = minus_one;
  after_p2_spec_number = minus_one;
  final_spec_number = minus_one;
}

abbrev intermediate : Analysis
intermediate = ok_or nothing (intermediate_state_analysis dumps connected context)

intermediate_returns : intermediate_state_analysis dumps connected context ≡ ok intermediate
unfolding intermediate_state_analysis generate_hear_write_pairs add_sorted_controller_hears
    init_event_graph add_sorted_reconciler_events connect_pairs
intermediate_returns = refl

intermediate_number : intermediate.final_spec_number ≡ pos 2
unfolding intermediate_state_analysis generate_hear_write_pairs add_sorted_controller_hears
    init_event_graph add_sorted_reconciler_events connect_pairs
intermediate_number = refl

intermediate_state_analysis-IsCounted_example : IsCounted true intermediate
intermediate_state_analysis-IsCounted_example =
    intermediate_state_analysis-IsCounted dumps connected context intermediate intermediate_returns

abbrev unobserved : Analysis
unobserved = ok_or nothing (unobserved_state_analysis dumps connected context)

unobserved_returns : unobserved_state_analysis dumps connected context ≡ ok unobserved
unfolding unobserved_state_analysis generate_hear_write_pairs add_sorted_controller_hears
    init_event_graph add_sorted_reconciler_events connect_pairs keys_within
unobserved_returns = refl

unobserved_number : unobserved.final_spec_number ≡ pos 1
unfolding unobserved_state_analysis generate_hear_write_pairs add_sorted_controller_hears
    init_event_graph add_sorted_reconciler_events connect_pairs keys_within
unobserved_number = refl

unobserved_state_analysis-IsCounted_example : IsCounted true unobserved
unobserved_state_analysis-IsCounted_example =
    unobserved_state_analysis-IsCounted dumps connected context unobserved unobserved_returns

abbrev stale : Analysis
stale = ok_or nothing (stale_state_analysis dumps connected context)

stale_returns : stale_state_analysis dumps connected context ≡ ok stale
unfolding stale_state_analysis generate_hear_write_pairs add_sorted_controller_hears
    init_event_graph add_sorted_reconciler_events connect_pairs keys_within
stale_returns = refl

stale_number : stale.final_spec_number ≡ pos 1
unfolding stale_state_analysis generate_hear_write_pairs add_sorted_controller_hears
    init_event_graph add_sorted_reconciler_events connect_pairs keys_within
stale_number = refl

stale_state_analysis-IsReported_example :
    (stale.final_spec_number ≡ pos (length stale.plans))
    × (stale.final_spec_number ≤ℤ stale.baseline_spec_number)
stale_state_analysis-IsReported_example =
    stale_state_analysis-IsReported dumps connected context stale stale_returns

-- The vertices of a pair, and the timing that the creation after the deletion gives it.
abbrev vertex_of : EventGraph → ℕ → EventVertex
vertex_of g i =
    ok_or
      (record {
        gid = 0;
        content = started;
        out_inter_reconciler_edges = [];
        out_intra_reconciler_edges = [];
      })
      (vertex g i)

timing :
    decide_stale_state_timing 6 graph (vertex_of graph 1) (vertex_of graph 3) ≡ some (ok "before")
unfolding decide_stale_state_timing add_sorted_controller_hears init_event_graph
    add_sorted_reconciler_events vertex keys_within has get
timing = refl

at_deletion : get_elem? graph.vertices 3 ≡ some (vertex_of graph 3)
unfolding add_sorted_controller_hears init_event_graph add_sorted_reconciler_events vertex
at_deletion = refl

decide_stale_state_timing-Ends_example : Ends (
    decide_stale_state_timing
      (length graph.vertices + 1)
      graph
      (vertex_of graph 1)
      (vertex_of graph 3))
decide_stale_state_timing-Ends_example =
    decide_stale_state_timing-Ends graph (vertex_of graph 1) (vertex_of graph 3) 3 graph-IsForward
      at_deletion

-- A run that ends right after the deletion.
abbrev short_graph : EventGraph
short_graph = ok_or empty (
    add_sorted_controller_hears hears empty
    >>= add_sorted_reconciler_events (started ∷ write deletion ∷ ended ∷ []))

decide_stale_state_timing-end_of_chain_example :
    decide_stale_state_timing 6 short_graph (vertex_of short_graph 1) (vertex_of short_graph 3)
    ≡ some (err assertion_error)
unfolding judge same_key vertex add_sorted_controller_hears init_event_graph
    add_sorted_reconciler_events keys_within has get
decide_stale_state_timing-end_of_chain_example =
    decide_stale_state_timing-end_of_chain 4 short_graph (vertex_of short_graph 1)
      (vertex_of short_graph 3) (vertex_of short_graph 4)
      (hear_of (pos 2) HearTypes.updated (pos 3)) deletion (intra_edge 3) (replicas 2) (replicas 3)
      1 refl refl refl refl refl refl refl refl refl refl
