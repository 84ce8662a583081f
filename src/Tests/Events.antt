-- ===== src/Tests/Events.antt =====
-- Hears that conflict or follow one another, and reads that are parsed.
use sieve.Prelude.{
  contains, Bool, ℤ, List, ℕ, String, ◌≡◌, refl, true, false, [], ◌∷◌, none, some, Result, ok, err,
  assertion_error, pos, minus_one,
}
use sieve.Json.{same, has, get, Value, str, list, dict, nil, cons, end, field}
use sieve.Json.Unique.{UniqueFields}
use sieve.Delta.Part.{diff_event}
use sieve.Event.Conflicts.{conflicting_event, conflicting_event_same}
use sieve.Policy.Detectable.{event_diff_validation_check}
use sieve.Policy.Transitions.{deletes, syncs, event_diff_validation_check-may_follow}
use sieve.Event.HearTypes
use sieve.Event.Records.{ControllerRead, init_controller_read}
use sieve.Event.Parse.{parse_controller_cache_read}
use sieve.Event.Reads.{Keyed, init_controller_read-Keyed, parse_controller_cache_read-from_cache}
use sieve.Graph.Types.{Event, hear, EventVertex, EventGraph, init_event_graph}
use sieve.Graph.Build.{add_sorted_controller_hears, add_sorted_reconciler_events}
use sieve.Graph.Cancel.{compute_event_cancel, SameButCancelled, compute_event_cancel-Same}
use sieve.Tests.Runs.{replicas, hear_of, ok_or, empty, graph}

-- Two hears of one object, and the object before.
replicas-UniqueFields : (n : ℕ) → UniqueFields (replicas n)
unfolding has
replicas-UniqueFields n = (refl, (refl, tt, tt), tt)

scaled : diff_event (replicas 2) (replicas 3) [] [] false true ≡ some (replicas 2, replicas 3)
unfolding diff_event get same has contains
scaled = refl

conflicting_event_same_example :
    conflicting_event
      (hear_of (pos 2) HearTypes.updated (pos 3))
      (hear_of (pos 3) HearTypes.updated (pos 4))
      []
      []
    ≡ false
conflicting_event_same_example =
    conflicting_event_same [] [] (replicas 2) (replicas 2) (replicas 3)
      (hear_of (pos 2) HearTypes.updated (pos 3)) (hear_of (pos 3) HearTypes.updated (pos 4))
      (replicas-UniqueFields 2) (replicas-UniqueFields 3) refl refl scaled

event_diff_validation_check-may_follow_example :
    event_diff_validation_check "Deleted" "Sync" ≡ err assertion_error
event_diff_validation_check-may_follow_example =
    event_diff_validation_check-may_follow (some deletes) syncs

-- `json.loads`, on the texts of the run
abbrev loads : String → Result Value
loads text =
    ok (list (cons (dict (field "metadata" (dict (field "name" (str "one") end)) end)) nil))

abbrev no_read : ControllerRead
no_read = record {
  etype = "";
  from_cache = true;
  rtype = "";
  reconcile_fun = "";
  reconcile_id = none;
  error = "";
  key_to_obj = end;
  key_set = [];
  end_timestamp = minus_one;
}

abbrev listed : ControllerRead
listed =
    ok_or no_read
      (init_controller_read loads "List" (str "true") "web" "" "" "reconcile" "NoError" "[]")

listed_returns :
    init_controller_read loads "List" (str "true") "web" "" "" "reconcile" "NoError" "[]"
    ≡ ok listed
unfolding init_controller_read
listed_returns = refl

listed_from_cache : (listed.from_cache ≡ true) × (listed.key_set ≡ "web/default/one" ∷ [])
unfolding init_controller_read
listed_from_cache = (refl, refl)

init_controller_read-Keyed_example : Keyed (listed.key_set, listed.key_to_obj)
init_controller_read-Keyed_example =
    init_controller_read-Keyed loads "List" (str "true") "web" "" "" "reconcile" "NoError" "[]"
      listed listed_returns

abbrev cache_line : String
cache_line = "[SIEVE-AFTER-CACHE-READ]\tList\tweb\treconcile\tNoError\t[]"

abbrev cached : ControllerRead
cached = ok_or no_read (parse_controller_cache_read loads cache_line)

cached_returns : parse_controller_cache_read loads cache_line ≡ ok cached
unfolding parse_controller_cache_read
cached_returns = refl

parse_controller_cache_read-from_cache_example : cached.from_cache ≡ false
parse_controller_cache_read-from_cache_example =
    parse_controller_cache_read-from_cache loads cache_line cached cached_returns

-- The hears of the run, with what cancels them.
abbrev no_match : String → String → Bool
no_match path pattern = false

abbrev cancelled_run : EventGraph
cancelled_run = ok_or empty (compute_event_cancel no_match graph)

cancelled_returns : compute_event_cancel no_match graph ≡ ok cancelled_run
unfolding compute_event_cancel add_sorted_controller_hears init_event_graph
    add_sorted_reconciler_events
cancelled_returns = refl

abbrev ids_of : Event → List ℤ
ids_of (hear h) = h.cancelled_by
ids_of e = []

abbrev cancelling_ids : List EventVertex → List (List ℤ)
cancelling_ids [] = []
cancelling_ids (v ∷ vs) = ids_of v.content ∷ cancelling_ids vs

cancelled_ids :
    cancelling_ids cancelled_run.vertices ≡ (pos 2 ∷ []) ∷ (pos 2 ∷ []) ∷ [] ∷ [] ∷ [] ∷ [] ∷ []
unfolding compute_event_cancel add_sorted_controller_hears init_event_graph
    add_sorted_reconciler_events
cancelled_ids = refl

compute_event_cancel-Same_example : SameButCancelled graph cancelled_run
compute_event_cancel-Same_example =
    compute_event_cancel-Same no_match graph cancelled_run cancelled_returns
