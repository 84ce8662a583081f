-- ===== src/Oracle/Log.antt =====
-- The log of API events that the oracles read: `open(api_log_path).readlines()`, less the lines that
-- have no mark.
use sieve.Prelude.{String, List, [], ◌∷◌, Result, ok, ◌>>=◌, if◌then◌else◌}
use sieve.Json.{Value}
use sieve.Event.Records.{ApiEvent}
use sieve.Event.Parse.{in_line, sieve_api_event_mark, parse_api_event}

unfoldable pub api_events : (String → Result Value) → List String → Result (List ApiEvent)
unfolding in_line parse_api_event
api_events loads [] = ok []
api_events loads (line ∷ lines) =
    if in_line sieve_api_event_mark line
    then (do
      event ← parse_api_event loads line
      events ← api_events loads lines
      ok (event ∷ events))
    else api_events loads lines
