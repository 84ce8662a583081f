-- ===== src/Oracle/Safety.antt =====
-- `apply_safety_checker` of sieve_oracle/safety_checker.py: a checker of the user is applied to every
-- state of the history in which all its objects exist. The checker is a parameter; the state is the
-- dict from the keys to the texts of the objects, `none` for an object that does not exist.
pub mod States
use sieve.Prelude.{
  ℕ, String, ◌<>◌, ◌==◌, Bool, true, false, ◌&&◌, List, [], ◌∷◌, ◌++◌, Option, none, some, contains,
  sort, if◌then◌else◌,
}
use sieve.Prelude.Dict.{Dict, insert}
use sieve.Oracle.History.{HistoryEntry}
use sieve.Oracle.Compare.{generate_alarm}

-- `for key in resource_keys: current_state[key] = None`
unfoldable pub empty_state : List String → Dict (Option String) → Dict (Option String)
unfolding insert
empty_state [] state = state
empty_state (key ∷ keys) state = empty_state keys (insert key none state)

unfoldable pub update_state : HistoryEntry → Dict (Option String) → Dict (Option String)
unfolding insert
update_state event state =
    if event.etype == "DELETED"
    then insert event.key none state
    else insert event.key (some event.state) state

-- `existing_resource_cnt == len(current_state)`
unfoldable pub all_exist : Dict (Option String) → Bool
all_exist [] = true
all_exist ((key, none) ∷ state) = false
all_exist ((key, some obj) ∷ state) = all_exist state

module _ (show_number : ℕ → String) (customized_checker : Dict (Option String) → Bool)
    (checker_name : String) where
  unfoldable pub violation : HistoryEntry → String
  unfolding generate_alarm
  violation event = generate_alarm "Safety violation:" (
      "checker "
      <> (checker_name
          <> (" failed on state " <> (show_number event.number <> " in history.json"))))

  unfoldable pub check_state : HistoryEntry → Dict (Option String) → List String
  unfolding all_exist violation
  check_state event state =
      if all_exist state
      then (if customized_checker state then [] else violation event ∷ [])
      else []

  unfoldable pub check_history :
      List String → List HistoryEntry → Dict (Option String) → List String
  unfolding contains update_state check_state
  check_history resource_keys [] state = []
  check_history resource_keys (event ∷ history) state =
      if contains event.key resource_keys
      then check_state event (update_state event state)
        ++ check_history resource_keys history (update_state event state)
      else check_history resource_keys history state

  unfoldable pub apply_safety_checker : List String → List HistoryEntry → List String
  unfolding check_history empty_state sort
  apply_safety_checker resource_keys history =
      sort (check_history resource_keys history (empty_state resource_keys []))
