-- ===== src/Tests/Oracles.antt =====
-- Small runs, checked by the oracles.
use sieve.Prelude.{
  contains, ℕ, String, ◌≡◌, ◌↔◌, refl, Bool, true, false, List, [], ◌∷◌, Option, none, some, Result,
  ok, pos, length, Among, arith, map_result, split, ◌⊎◌,
}
use sieve.Prelude.Dict.{Dict, lookup}
use sieve.Json.{Value, str, num, list, dict, nil, cons, Fields, end, field, get, has}
use sieve.Event.ApiTypes
use sieve.Event.Records.{ApiEvent}
use sieve.Oracle.Log.{api_events}
use sieve.Oracle.Family.{
  Uid, Node, all_uids, taint, seeds, with_node, nodes, generate_controller_related_list,
}
use sieve.Oracle.Family.Closure.{Related}
use sieve.Oracle.Family.Fuel.{IsClosure, taint-IsClosure}
use sieve.Oracle.Family.Members.{generate_controller_related_list-IsMember}
use sieve.Oracle.State.{generate_state}
use sieve.Oracle.State.Replay.{replay, generate_state-replay}
use sieve.Oracle.History.{Digest, generate_history_digest}
use sieve.Oracle.History.Counts.{count_of, occurrences, generate_history_digest-occurrences}
use sieve.Oracle.Compare.{HistoryContext, is_skipped, compare_history_digests}
use sieve.Oracle.Compare.Silence.{Agree, compare_history_digests-Agree}
use sieve.Event.Keys.{parse_key}
use sieve.Oracle.Masks.{
  StateContext, key, equal_path, kind_native_objects, resource_key_should_be_masked,
}
use sieve.Oracle.Masks.Paths.{IsPrefix, equal_path_iff}
use sieve.Oracle.Liveness.{Delta, compare_states}
use sieve.Oracle.Liveness.Keys.{IsCompared, IsRandom, compare_states-IsRandom}
use sieve.Tests.Runs.{ok_or}

-- An object that belongs to the controller's pod, and the pod.
abbrev family : List Node
family =
    record { uid = some "set"; owners = some "config" ∷ [] }
    ∷ record { uid = some "pod"; owners = some "set" ∷ [] }
    ∷ []

family_tainted :
    taint 5 family (some "pod" ∷ []) ≡ some (some "config" ∷ some "set" ∷ some "pod" ∷ [])
unfolding taint
family_tainted = refl

family_uids : length (all_uids family) ≡ 4
unfolding all_uids
family_uids = refl

taint-IsClosure_example : IsClosure family (some "pod" ∷ []) (taint 5 family (some "pod" ∷ []))
taint-IsClosure_example = taint-IsClosure 5 family (some "pod" ∷ []) (omega (arith, family_uids))

-- `json.loads`, on the texts of the log
abbrev pod : Fields
pod = field "labels" (dict (field "sievetag" (str "web") end)) (
    field "uid" (str "pod")
      (field "ownerReferences" (list (cons (dict (field "uid" (str "set") end)) nil)) end))

abbrev loads : String → Result Value
loads text = ok (dict pod)

abbrev log : List String
log =
    "[SIEVE-API-EVENT]\tADDED\tkey\tpod\tdefault\tone\t{}"
    ∷ "[SIEVE-API-EVENT]\tADDED\tkey\tpod\tdefault\ttwo\t{}"
    ∷ "[SIEVE-API-EVENT]\tDELETED\tkey\tpod\tdefault\tone\t{}" ∷ []

abbrev events : List ApiEvent
events = ok_or [] (api_events loads log)

events_returned : api_events loads log ≡ ok events
unfolding api_events
events_returned = refl

abbrev first_uids : List Uid
first_uids = ok_or [] (seeds events)

first_uids_returned : seeds events ≡ ok first_uids
unfolding seeds api_events
first_uids_returned = refl

abbrev known : List (ApiEvent × Node)
known = ok_or [] (map_result with_node events)

known_returned : map_result with_node events ≡ ok known
unfolding map_result with_node api_events
known_returned = refl

generate_controller_related_list-IsMember_example :
    (keys : List String) × (generate_controller_related_list loads log ≡ ok keys)
    × ((k : String)
        → (contains k keys ≡ true) ↔ (
            (e : ApiEvent × Node) × Among e known
            × Related (nodes known) first_uids e.1.uid
            × (e.0.key ≡ k)))
generate_controller_related_list-IsMember_example =
    generate_controller_related_list-IsMember loads log events first_uids known events_returned
      first_uids_returned known_returned

two_members :
    generate_controller_related_list loads log ≡ ok ("pod/default/one" ∷ "pod/default/two" ∷ [])
unfolding generate_controller_related_list
two_members = refl

generate_state-replay_example :
    (state : Dict Fields) × (generate_state loads log ≡ ok state)
    × ((k : String) → lookup k state ≡ lookup k (replay events []))
generate_state-replay_example = generate_state-replay loads log events events_returned

one_left : generate_state loads log ≡ ok (("pod/default/two", pod) ∷ [])
unfolding generate_state
one_left = refl

abbrev checked : List String
checked = ApiTypes.added ∷ ApiTypes.deleted ∷ []

abbrev digest : Digest
digest = ok_or [] (generate_history_digest checked loads log)

digest_returned : generate_history_digest checked loads log ≡ ok digest
unfolding generate_history_digest
digest_returned = refl

generate_history_digest-occurrences_example :
    count_of "pod/default/one" ApiTypes.deleted digest
    ≡ occurrences checked "pod/default/one" ApiTypes.deleted events
generate_history_digest-occurrences_example =
    generate_history_digest-occurrences checked loads log events digest events_returned
      digest_returned "pod/default/one" ApiTypes.deleted

-- Two digests that agree.
abbrev counts : Fields
counts = field "ADDED" (num (pos 1)) (field "DELETED" (num (pos 0)) end)

abbrev summary : Fields
summary = field "pod/default/one" (dict counts) end

abbrev history_context : HistoryContext
history_context = record {
  test_workload = "create";
  state_update_summary_check_event_list = checked;
  controller_state_update_summary_checker_mask = ("create", "pod/*/two" ∷ []) ∷ [];
  common_state_update_summary_checker_mask = [];
}

abbrev no_match : String → String → Bool
no_match path pattern = false

abbrev show : Value → String
show v = "a value"

silent : compare_history_digests show no_match history_context summary summary [] ≡ ok []
unfolding compare_history_digests
silent = refl

counts_found : get "pod/default/one" summary ≡ some (dict counts)
unfolding get
counts_found = refl

used : is_skipped show no_match history_context [] "pod/default/one" (dict counts) ≡ false
unfolding is_skipped
used = refl

added_found : get "ADDED" counts ≡ some (num (pos 1))
unfolding get
added_found = refl

added_checked : contains "ADDED" checked ≡ true
unfolding contains
added_checked = refl

compare_history_digests-Agree_example :
    (reference : Value) × (get "ADDED" counts ≡ some reference)
    × Agree show no_match history_context (num (pos 1)) reference
compare_history_digests-Agree_example =
    compare_history_digests-Agree show no_match history_context [] summary summary silent
      "pod/default/one" "ADDED" counts counts (num (pos 1)) counts_found counts_found used
      added_found added_checked

equal_path_iff_example :
    (equal_path "spec/*/image" "spec/0/image/tag" ≡ true)
    ↔ IsPrefix (split b'/' "spec/*/image") (split b'/' "spec/0/image/tag")
equal_path_iff_example = equal_path_iff "spec/*/image" "spec/0/image/tag"

two_paths : equal_path "spec/*/image" "spec/0/image/tag" ≡ true
unfolding equal_path
two_paths = refl

-- Two end states: the second pod has a generated name, which the reference masks.
abbrev reference : Fields
reference =
    field "service/default/web" (dict end) (field "pod/default/web-abcde" (str "SIEVE-IGNORE") end)

abbrev testing : Fields
testing = field "service/default/web" (dict end) (field "pod/default/web-vwxyz" (dict end) end)

abbrev state_context : StateContext
state_context = record {
  test_workload = "create";
  end_state_checker_mask = [];
  custom_resource_definitions = [];
  field_key_mask = [];
  field_path_mask = [];
  current_controller_family = [];
  reference_controller_family = [];
}

abbrev show_option : Option Value → String
show_option v = "a value"

abbrev show_names : List String → String
show_names names = "names"

abbrev show_index : ℕ → String
show_index i = "0"

-- What DeepDiff finds of the two pods.
abbrev deep_diff : Fields → Fields → List Delta
deep_diff a b =
    record {
      delta_type = "dictionary_item_added";
      path = key "pod/default/web-vwxyz" ∷ [];
      t1 = none;
      t2 = some (dict end);
    }
    ∷ []

no_message :
    compare_states no_match show_option show_names show_index state_context deep_diff reference
      testing
    ≡ ok []
unfolding compare_states
no_message = refl

pod-IsCompared : IsCompared no_match state_context "pod/default/web-vwxyz" "pod"
unfolding kind_native_objects resource_key_should_be_masked parse_key
pod-IsCompared = (refl, refl, ("default", "web-vwxyz", refl))

compare_states-IsRandom_example :
    (has "pod/default/web-vwxyz" testing ≡ has "pod/default/web-vwxyz" reference)
    ⊎ IsRandom reference "pod"
compare_states-IsRandom_example =
    compare_states-IsRandom no_match show_option show_names show_index state_context deep_diff
      reference testing no_message "pod/default/web-vwxyz" "pod" pod-IsCompared
