-- ===== src/Oracle/Compare.antt =====
-- `compare_history_digests` of sieve_oracle/safety_checker.py, and the masks that it looks at. The
-- two digests are what `json.load` reads; `show` is `str` on their values, and `path_match` is
-- `PurePath(path).match(pattern)`. The sets of keys are gone through in the order of the testing
-- digest, which the sort at the end makes one order for all.
pub mod Silence
use sieve.Prelude.{
  String, ◌<>◌, ◌==◌, Bool, true, false, ◌&&◌, ◌||◌, not, List, [], ◌∷◌, ◌++◌, Result, ok, ◌>>=◌,
  contains, sort, if◌then◌else◌,
}
use sieve.Prelude.Dict.{Dict}
use sieve.Json.{Value, Fields, end, field, has, same, is_str}
use sieve.Common.{sieve_learn_value_mask}
use sieve.Event.Keys.{item, as_dict}
use sieve.Event.Mask.{key_matches}

-- What the oracle reads of the test context and its configurations.
pub record HistoryContext : Type 0 where
  pub test_workload : String
  pub state_update_summary_check_event_list : List String
  pub controller_state_update_summary_checker_mask : Dict (List String)
  pub common_state_update_summary_checker_mask : List String

unfoldable pub generate_alarm : String → String → String
generate_alarm sub_alarm msg = sub_alarm <> (" " <> msg)

module _ (path_match : String → String → Bool) where
  unfoldable pub matches_any : String → List String → Bool
  matches_any resource_key [] = false
  matches_any resource_key (masked_key ∷ keys) =
      key_matches path_match resource_key masked_key || matches_any resource_key keys

  unfoldable pub masked_for_workload : String → String → Dict (List String) → Bool
  unfolding matches_any
  masked_for_workload resource_key test_workload [] = false
  masked_for_workload resource_key test_workload ((masked_test_workload, keys) ∷ mask) =
      ((masked_test_workload == "*" || masked_test_workload == test_workload)
        && matches_any resource_key keys)
      || masked_for_workload resource_key test_workload mask

  unfoldable pub masked_resource_key_for_state_update_summary_checker :
      String → HistoryContext → Bool
  unfolding masked_for_workload matches_any
  masked_resource_key_for_state_update_summary_checker resource_key c =
      masked_for_workload resource_key c.test_workload
        c.controller_state_update_summary_checker_mask
      || matches_any resource_key c.common_state_update_summary_checker_mask

module _ (show : Value → String) where
  unfoldable pub inconsistency : String → String → Value → Value → String
  unfolding generate_alarm
  inconsistency key etype reference testing =
      generate_alarm "State-update summaries inconsistency:" (
        key
        <> (" "
            <> (etype
                <> (" inconsistency: "
                    <> (show reference
                        <> (" event(s) seen during reference run, but "
                            <> (show testing <> " seen during testing run")))))))

  -- The loop over the types of a key. `canonicalized_events[key]` is read for each of them.
  unfoldable pub compare_entry : HistoryContext → String → Value → Fields → Result (List String)
  unfolding contains item same inconsistency
  compare_entry c key canonicalized end = ok []
  compare_entry c key canonicalized (field etype testing rest) =
      if not (contains etype c.state_update_summary_check_event_list)
      then compare_entry c key canonicalized rest
      else (do
        entry ← as_dict canonicalized
        reference ← item etype entry
        messages ← compare_entry c key canonicalized rest
        ok (
            if is_str sieve_learn_value_mask reference || same testing reference
            then messages
            else inconsistency key etype reference testing ∷ messages))

  module _ (path_match : String → String → Bool) where
    -- The tests that leave a key out.
    unfoldable pub is_skipped : HistoryContext → List String → String → Value → Bool
    unfolding contains masked_resource_key_for_state_update_summary_checker
    is_skipped c controller_family key canonicalized =
        is_str sieve_learn_value_mask canonicalized
        || contains key controller_family
        || masked_resource_key_for_state_update_summary_checker path_match key c

    -- The loop over the keys that both digests have.
    unfoldable pub compare_keys :
        HistoryContext → List String → Fields → Fields → Result (List String)
    unfolding has item is_skipped compare_entry
    compare_keys c controller_family canonicalized end = ok []
    compare_keys c controller_family canonicalized (field key testing rest) =
        if has key canonicalized
        then (do
          entry ← item key canonicalized
          if is_skipped c controller_family key entry
              then compare_keys c controller_family canonicalized rest
              else (do
                types ← as_dict testing
                first ← compare_entry c key entry types
                messages ← compare_keys c controller_family canonicalized rest
                ok (first ++ messages)))
        else compare_keys c controller_family canonicalized rest

    unfoldable pub compare_history_digests :
        HistoryContext → Fields → Fields → List String → Result (List String)
    unfolding compare_keys sort
    compare_history_digests c canonicalized testing controller_family = do
      messages ← compare_keys c controller_family canonicalized testing
      ok (sort messages)
