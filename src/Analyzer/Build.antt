-- ===== src/Analyzer/Build.antt =====
-- `build_controller_event_graph` of sieve_analyzer/analyze.py: from the lines of the server log to the
-- event graph. The masks are what `json.load` and the configuration give; the pairs of writes and
-- hears are not connected, as in the source.
pub mod Contents
use sieve.Prelude.{String, Bool, List, Option, Result, ok, ◌>>=◌, ◌>>◌}
use sieve.Json.{Value, Fields}
use sieve.Event.Mask.{MaskMap}
use sieve.Graph.Types.{EventGraph, init_event_graph}
use sieve.Graph.Build.{add_sorted_controller_hears, add_sorted_reconciler_events}
use sieve.Graph.EventDiff.{finalize}
use sieve.Graph.Sanity.{sanity_check}
use sieve.Analyzer.Pairs.{generate_hear_write_pairs, connect_pairs}
use sieve.Analyzer.Receive.{parse_receiver_events}
use sieve.Analyzer.Scan.{parse_reconciler_events}

module _ (loads : String → Result Value) (dumps : Option Fields → String)
    (path_match : String → String → Bool)
    (loosen_reconciler_boundary compress_trivial_reconcile_enabled : Bool)
    (learned_masked_paths field_key_mask field_path_mask : MaskMap) where
  unfoldable pub build_controller_event_graph : List String → Result EventGraph
  unfolding parse_receiver_events parse_reconciler_events init_event_graph
      add_sorted_controller_hears add_sorted_reconciler_events generate_hear_write_pairs
      connect_pairs finalize sanity_check
  build_controller_event_graph lines = do
    hears ← parse_receiver_events loads lines
    events ←
        parse_reconciler_events loads loosen_reconciler_boundary compress_trivial_reconcile_enabled
          lines
    let empty = init_event_graph learned_masked_paths field_key_mask field_path_mask
    with_hears ← add_sorted_controller_hears hears empty
    with_events ← add_sorted_reconciler_events events with_hears
    pairs ← generate_hear_write_pairs with_events
    connected ← connect_pairs pairs with_events
    g ← finalize path_match dumps connected
    sanity_check g
    ok g
