-- ===== src/Oracle/State.antt =====
-- `generate_state` of sieve_oracle/liveness_checker.py: the objects at the end of a run, found by
-- reading the log of API events from its end.
pub mod Replay
use sieve.Prelude.{
  String, ◌==◌, Bool, true, false, ◌||◌, List, [], ◌∷◌, ◌++◌, Option, none, some, Result, ok, ◌>>=◌,
  contains, if◌then◌else◌, is_some,
}
use sieve.Prelude.Dict.{Dict, lookup, insert}
use sieve.Json.{Value, Fields}
use sieve.Event.ApiTypes
use sieve.Event.Records.{ApiEvent}
use sieve.Oracle.Log.{api_events}

-- `lines.reverse()`
unfoldable pub reverse {ℓ} : {A : Type ℓ} → List A → List A
reverse [] = []
reverse (x ∷ xs) = reverse xs ++ (x ∷ [])

-- `end_state` and `deleted`.
abbrev pub EndState : Type 0
EndState = Dict Fields × List String

-- An event counts only if it is the last one of its key.
unfoldable pub add_event : ApiEvent → EndState → EndState
unfolding contains lookup insert
add_event e t =
    if contains e.key t.1 || is_some (lookup e.key t.0)
    then t
    else if e.etype == ApiTypes.deleted
    then (t.0, e.key ∷ t.1)
    else (insert e.key e.obj_map t.0, t.1)

unfoldable pub add_events : List ApiEvent → EndState → EndState
unfolding add_event
add_events [] t = t
add_events (e ∷ es) t = add_events es (add_event e t)

unfoldable pub generate_state : (String → Result Value) → List String → Result (Dict Fields)
unfolding reverse api_events add_events
generate_state loads lines = do
  events ← api_events loads (reverse lines)
  ok (add_events events ([], [])).0
