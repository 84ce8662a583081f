-- ===== src/Tests/Logs.antt =====
-- Small logs, read by the scans of the analyzer.
use sieve.Prelude.{
  String, ◌≡◌, refl, Bool, false, List, [], ◌∷◌, ◌++◌, Option, none, some, Result, ok, err,
  attribute_error, pos, length, inl, Among, ◌≢◌, ◌>>=◌,
}
use sieve.Prelude.Dict.{lookup}
use sieve.Prelude.IntDict.{lookup_int}
use sieve.Event.Parse.{parse_controller_non_k8s_write}
use sieve.Json.{Value, str, dict, Fields, end, field}
use sieve.Event.Records.{ControllerHear, ControllerWrite, ControllerNonK8sWrite}
use sieve.Graph.Types.{Event}
use sieve.Analyzer.Scan.{
  Reconcile, ReconcilerScan, init_scan, in_reconcile, kind_of, after_nk_write_line, scan_lines,
  parse_reconciler_events,
}
use sieve.Analyzer.Scan.Order.{
  IsInOrder, IsPlaced, parse_reconciler_events-IsInOrder, in_reconcile-IsPlaced,
  parse_reconciler_events-attribute_error,
}
use sieve.Analyzer.Receive.{HearMap, receive_lines, parse_receiver_events, parsed_hears}
use sieve.Analyzer.Receive.Timed.{Matches, parse_receiver_events-Matches}
use sieve.Event.HearTypes
use sieve.Graph.Types.{
  non_k8s_write, EventEdge, EventVertex, EventGraph, vertex, new_vertex, init_event_graph,
}
use sieve.Graph.Build.{
  add_sorted_controller_hears, add_sorted_reconciler_events, connect_hear_to_write,
}
use sieve.Graph.EventDiff.{finalize}
use sieve.Graph.EventDiff.Frame.{SameButDiffed, finalize-Same}
use sieve.Graph.Sanity.{sanity_check, sanity_check-non_k8s_write}
use sieve.Analyzer.Build.{build_controller_event_graph}
use sieve.Analyzer.Build.Contents.{HasEvents, build_controller_event_graph-HasEvents}
use sieve.Tests.Runs.{ok_or, deletion, hear_of, empty, graph}

-- `json.loads`, on the texts of the logs
abbrev pub loads : String → Result Value
loads text = ok (dict (field "metadata" (dict (field "name" (str "one") end)) end))

abbrev started : List String
started = "[SIEVE-BEFORE-RECONCILE]\treconcile\tr1" ∷ "[SIEVE-BEFORE-REST-WRITE]\t7" ∷ []

abbrev log : List String
log =
    "[SIEVE-BEFORE-RECONCILE]\treconcile\tr1" ∷ "[SIEVE-BEFORE-REST-WRITE]\t7"
    ∷ "[SIEVE-AFTER-REST-WRITE]\t7\tCreate\treconcile\tNoError\tpod\tdefault\tone\t{}"
    ∷ "[SIEVE-AFTER-RECONCILE]\treconcile\tr1" ∷ []

abbrev events : List Event
events = ok_or [] (parse_reconciler_events loads false false log)

events_returned : parse_reconciler_events loads false false log ≡ ok events
unfolding parse_reconciler_events
events_returned = refl

three_events : length events ≡ 3
unfolding parse_reconciler_events
three_events = refl

parse_reconciler_events-IsInOrder_example : IsInOrder events
parse_reconciler_events-IsInOrder_example =
    parse_reconciler_events-IsInOrder loads false false log events events_returned

abbrev state : ReconcilerScan
state = ok_or init_scan (scan_lines loads false false 0 started init_scan)

state_returned : scan_lines loads false false 0 started init_scan ≡ ok state
unfolding scan_lines
state_returned = refl

abbrev current : Reconcile
current = inl (record { reconcile_fun = "reconcile"; reconcile_id = "r1"; end_timestamp = pos 0 })

state_current : lookup "reconcile" state.cur_reconcile_per_type ≡ some current
unfolding scan_lines lookup
state_current = refl

in_reconcile-IsPlaced_example :
    (w : ControllerWrite) × (in_reconcile 2 state deletion ≡ ok w) × IsPlaced 2 current deletion w
in_reconcile-IsPlaced_example =
    in_reconcile-IsPlaced loads false false started state deletion current state_returned
      state_current

abbrev pub call : ControllerNonK8sWrite
call = record {
  id = pos 9;
  module_name = "m";
  file_path = "p";
  recv_type = "t";
  fun_name = "f";
  reconcile_fun = "reconcile";
  reconcile_id = none;
  start_timestamp = pos 1;
  end_timestamp = pos 2;
  range_start_timestamp = pos 0;
  range_end_timestamp = pos 0;
  signature_counter = 1;
}

-- A log with an annotated API call inside a reconcile.
abbrev calling : List String
calling =
    "[SIEVE-BEFORE-RECONCILE]\treconcile\tr1" ∷ "[SIEVE-BEFORE-ANNOTATED-API-INVOCATION]\t9" ∷ []

abbrev call_line : String
call_line = "[SIEVE-AFTER-ANNOTATED-API-INVOCATION]\t9\tm\tp\tt\tf\treconcile"

abbrev calling_state : ReconcilerScan
calling_state = ok_or init_scan (scan_lines loads false false 0 calling init_scan)

calling_returned : scan_lines loads false false 0 calling init_scan ≡ ok calling_state
unfolding scan_lines
calling_returned = refl

abbrev parsed_call : ControllerNonK8sWrite
parsed_call = ok_or call (parse_controller_non_k8s_write call_line)

call_parsed : parse_controller_non_k8s_write call_line ≡ ok parsed_call
unfolding parse_controller_non_k8s_write
call_parsed = refl

call_kind : kind_of call_line ≡ after_nk_write_line
unfolding kind_of
call_kind = refl

call_current : lookup parsed_call.reconcile_fun calling_state.cur_reconcile_per_type ≡ some current
unfolding scan_lines lookup parse_controller_non_k8s_write
call_current = refl

call_start :
    lookup_int parsed_call.id calling_state.controller_nk_write_start_timestamp_map ≡ some 1
unfolding scan_lines lookup_int parse_controller_non_k8s_write
call_start = refl

parse_reconciler_events-attribute_error_example :
    parse_reconciler_events loads false false (calling ++ (call_line ∷ started))
    ≡ err attribute_error
parse_reconciler_events-attribute_error_example =
    parse_reconciler_events-attribute_error loads false false calling calling_state call_line
      started parsed_call current 1 calling_returned call_kind call_parsed call_current call_start

abbrev heard : List String
heard =
    "[SIEVE-BEFORE-HEAR]\t1\tAdded\tpod\t{}" ∷ "[SIEVE-BEFORE-HEAR]\t2\tAdded\tpod\t{}"
    ∷ "[SIEVE-AFTER-HEAR]\t1" ∷ []

abbrev hear_map : HearMap
hear_map = ok_or [] (receive_lines loads 3 0 heard [])

hear_map_returned : receive_lines loads 3 0 heard [] ≡ ok hear_map
unfolding receive_lines
hear_map_returned = refl

parse_receiver_events-Matches_example :
    (ps : List ControllerHear) × (hs : List ControllerHear) × (parsed_hears loads heard ≡ ok ps)
    × (parse_receiver_events loads heard ≡ ok hs)
    × Matches heard ps hs
parse_receiver_events-Matches_example =
    parse_receiver_events-Matches loads heard hear_map hear_map_returned

abbrev whole : List String
whole =
    "[SIEVE-BEFORE-HEAR]\t1\tAdded\tpod\t{}" ∷ "[SIEVE-AFTER-HEAR]\t1"
    ∷ "[SIEVE-BEFORE-RECONCILE]\treconcile\tr1" ∷ "[SIEVE-BEFORE-REST-WRITE]\t7"
    ∷ "[SIEVE-AFTER-REST-WRITE]\t7\tCreate\treconcile\tNoError\tpod\tdefault\tone\t{}"
    ∷ "[SIEVE-AFTER-RECONCILE]\treconcile\tr1" ∷ []

abbrev dumps : Option Fields → String
dumps obj = "an object"

abbrev no_match : String → String → Bool
no_match path pattern = false

abbrev finished : EventGraph
finished =
    ok_or empty (build_controller_event_graph loads dumps no_match false false [] [] [] whole)

finished_returned :
    build_controller_event_graph loads dumps no_match false false [] [] [] whole ≡ ok finished
unfolding build_controller_event_graph
finished_returned = refl

four_vertices : length finished.vertices ≡ 4
unfolding build_controller_event_graph
four_vertices = refl

build_controller_event_graph-HasEvents_example :
    (hears : List ControllerHear) × (events : List Event) × (parse_receiver_events loads whole
      ≡ ok hears)
    × (parse_reconciler_events loads false false whole ≡ ok events)
    × HasEvents finished hears events
build_controller_event_graph-HasEvents_example =
    build_controller_event_graph-HasEvents loads dumps no_match false false [] [] [] whole finished
      finished_returned

-- The run of the graph, finalized.
abbrev final : EventGraph
final = ok_or empty (finalize no_match dumps graph)

final_returned : finalize no_match dumps graph ≡ ok final
unfolding finalize add_sorted_controller_hears init_event_graph add_sorted_reconciler_events
final_returned = refl

finalize-Same_example : SameButDiffed graph final
finalize-Same_example = finalize-Same no_match dumps graph final final_returned

-- A hear that is connected to a call of an annotated API.
abbrev with_call : EventGraph
with_call = ok_or empty (
    add_sorted_controller_hears (hear_of (pos 1) HearTypes.added (pos 0) ∷ []) empty
    >>= add_sorted_reconciler_events (non_k8s_write call ∷ [])
    >>= connect_hear_to_write 0 1)

abbrev call_edge : EventEdge
call_edge = record { source = 0; sink = 1; edge_type = "INTER-RECONCILER" }

call_edge-Among : Among call_edge with_call.controller_hear_controller_write_edges
unfolding connect_hear_to_write add_sorted_controller_hears init_event_graph
    add_sorted_reconciler_events
call_edge-Among = inl refl

abbrev call_vertex : EventVertex
call_vertex = new_vertex 1 (non_k8s_write call)

call_at : vertex with_call 1 ≡ ok call_vertex
unfolding vertex add_sorted_controller_hears init_event_graph add_sorted_reconciler_events
    connect_hear_to_write
call_at = refl

sanity_check-non_k8s_write_example : sanity_check with_call ≢ ok tt
unfolding new_vertex
sanity_check-non_k8s_write_example =
    sanity_check-non_k8s_write with_call call_edge call_vertex call_edge-Among call_at refl
