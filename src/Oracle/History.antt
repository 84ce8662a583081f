-- ===== src/Oracle/History.antt =====
-- `generate_history` and `generate_history_digest` of sieve_oracle/safety_checker.py: the history of
-- a run, and how often each object was added and deleted.
pub mod Counts
use Prim.Native.String
use sieve.Prelude.{
  ℕ, zero, suc, ◌+◌, String, ◌<>◌, ◌==◌, Bool, true, false, ◌&&◌, not, List, [], ◌∷◌, Option, none,
  some, Result, ok, err, key_error, from_option, ◌>>=◌, contains, if◌then◌else◌, drop_last,
}
use sieve.Prelude.Dict.{Dict, lookup, insert}
use sieve.Json.{Value, null}
use sieve.Event.ApiTypes
use sieve.Event.Keys.{as_str, extract_generate_name, is_generated_random_name}
use sieve.Event.Records.{ApiEvent}
use sieve.Oracle.Log.{api_events}

pub record HistoryEntry : Type 0 where
  pub number : ℕ
  pub etype : String
  pub key : String
  pub state : String

-- `len(history)` is the number of the events in front of the next one.
unfoldable pub number_events : ℕ → List ApiEvent → List HistoryEntry
number_events n [] = []
number_events n (e ∷ es) =
    record { number = n; etype = e.etype; key = e.key; state = e.obj_str }
    ∷ number_events (suc n) es

unfoldable pub generate_history : (String → Result Value) → List String → Result (List HistoryEntry)
unfolding api_events number_events
generate_history loads lines = do es ← api_events loads lines; ok (number_events 0 es)

-- For each key, how many events of each type there were.
abbrev pub Digest : Type 0
Digest = Dict (Dict ℕ)

abbrev pub api_event_empty_entry : Dict ℕ
api_event_empty_entry = (ApiTypes.added, 0) ∷ (ApiTypes.deleted, 0) ∷ []

-- An object with a generated name counts under a pattern of its key.
abbrev pub key_for_name : String → String → String → String
key_for_name key name generate_name =
    if is_generated_random_name name generate_name then drop_last 5 key <> "*" else key

abbrev pub key_of_name : ApiEvent → Option Value → Result String
key_of_name e none = ok e.key
key_of_name e (some null) = ok e.key
key_of_name e (some v) = do text ← as_str v; ok (key_for_name e.key e.name text)

unfoldable pub digest_key : ApiEvent → Result String
unfolding extract_generate_name is_generated_random_name drop_last
digest_key e = do generate_name ← extract_generate_name e.obj_map; key_of_name e generate_name

abbrev pub entry_or_empty : Option (Dict ℕ) → Dict ℕ
entry_or_empty none = api_event_empty_entry
entry_or_empty (some entry) = entry

-- `state_update_summary[key][etype] += 1`, on an empty entry if there was none
unfoldable pub count_key : String → String → Digest → Result Digest
unfolding lookup insert
count_key key etype d = do
  let entry = entry_or_empty (lookup key d)
  n ← from_option key_error (lookup etype entry)
  ok (insert key (insert etype (n + 1) entry) d)

module _ (state_update_summary_check_event_list : List String) where
  unfoldable pub count_event : ApiEvent → Digest → Result Digest
  unfolding contains digest_key count_key
  count_event e d =
      if contains e.etype state_update_summary_check_event_list
      then (do key ← digest_key e; count_key key e.etype d)
      else ok d

  unfoldable pub count_events : List ApiEvent → Digest → Result Digest
  unfolding count_event
  count_events [] d = ok d
  count_events (e ∷ es) d = do d' ← count_event e d; count_events es d'

  unfoldable pub generate_history_digest : (String → Result Value) → List String → Result Digest
  unfolding api_events count_events
  generate_history_digest loads lines = do es ← api_events loads lines; count_events es []
