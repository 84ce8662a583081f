-- ===== src/Tests/Runs.antt =====
-- A small run: a controller hears of an object twice, and deletes another in a reconcile.
use sieve.Prelude.{
  contains, ℕ, String, ◌≡◌, refl, List, [], ◌∷◌, none, some, Result, ok, err, ◌>>=◌, ℤ, pos,
}
use sieve.Json.{num, dict, Fields, end, field}
use sieve.Event.HearTypes
use sieve.Event.WriteTypes
use sieve.Event.Types.{event_none_type}
use sieve.Event.Records.{ControllerHear, ControllerWrite}
use sieve.Graph.Types.{Event, write, begin, finish, EventGraph, init_event_graph}
use sieve.Graph.Build.{add_sorted_controller_hears, add_sorted_reconciler_events}
use sieve.Graph.Shape.{IsWellFormed}
use sieve.Graph.WellFormed.{init_event_graph-IsWellFormed, built-IsWellFormed}
use sieve.Graph.Forward.{IsForward, built-IsForward}
use sieve.Analyzer.Pairs.{Pair, generate_hear_write_pairs, connect_pairs}
use sieve.Analyzer.Edges.{Connected, connect_pairs-generate_hear_write_pairs}

abbrev pub replicas : ℕ → Fields
replicas n = field "spec" (dict (field "replicas" (num (pos n)) end)) end

abbrev pub hear_of : ℤ → String → ℤ → ControllerHear
hear_of id etype time = record {
  id = id;
  etype = etype;
  rtype = "web";
  obj_str = "{}";
  obj_map = replicas 3;
  namespace = "default";
  name = "one";
  start_timestamp = time;
  end_timestamp = time;
  key = "web/default/one";
  slim_prev_obj_map = some (replicas 2);
  slim_cur_obj_map = some (replicas 3);
  prev_etype = HearTypes.added;
  cancelled_by = pos 2 ∷ [];
  signature_counter = 1;
}

abbrev pub deletion : ControllerWrite
deletion = record {
  id = pos 7;
  etype = WriteTypes.delete;
  rtype = "pod";
  reconcile_fun = "reconcile";
  reconcile_id = some "r1";
  error = "NoError";
  obj_str = "{}";
  obj_map = replicas 1;
  namespace = "default";
  name = "two";
  start_timestamp = pos 5;
  end_timestamp = pos 6;
  range_start_timestamp = pos 2;
  range_end_timestamp = pos 5;
  read_types = "web" ∷ [];
  read_keys = [];
  key = "pod/default/two";
  prev_obj_map = none;
  slim_prev_obj_map = none;
  slim_cur_obj_map = none;
  prev_etype = event_none_type;
  signature_counter = 1;
}

abbrev creation : ControllerWrite
creation = record deletion {
  id = pos 8;
  etype = WriteTypes.create;
  start_timestamp = pos 7;
  end_timestamp = pos 8;
}

abbrev pub hears : List ControllerHear
hears = hear_of (pos 1) HearTypes.added (pos 1) ∷ hear_of (pos 2) HearTypes.updated (pos 3) ∷ []

abbrev pub started : Event
started = begin (record { reconcile_fun = "reconcile"; reconcile_id = "r1"; end_timestamp = pos 4 })

abbrev pub ended : Event
ended = finish (record { reconcile_fun = "reconcile"; reconcile_id = "r1"; end_timestamp = pos 9 })

abbrev events : List Event
events = started ∷ write deletion ∷ write creation ∷ ended ∷ []

abbrev pub ok_or {ℓ} : {A : Type ℓ} → A → Result A → A
ok_or d (ok a) = a
ok_or d (err e) = d

abbrev pub empty : EventGraph
empty = init_event_graph [] [] []

abbrev built : Result EventGraph
built = add_sorted_controller_hears hears empty >>= add_sorted_reconciler_events events

abbrev pub graph : EventGraph
graph = ok_or empty built

run_built : built ≡ ok graph
unfolding add_sorted_controller_hears add_sorted_reconciler_events init_event_graph
run_built = refl

graph-IsWellFormed : IsWellFormed graph
graph-IsWellFormed =
    built-IsWellFormed hears events empty graph (init_event_graph-IsWellFormed [] [] []) run_built

built-IsWellFormed_example : IsWellFormed graph
built-IsWellFormed_example =
    built-IsWellFormed hears events empty graph (init_event_graph-IsWellFormed [] [] []) run_built

empty-IsForward : IsForward empty
unfolding init_event_graph
empty-IsForward = tt

pub graph-IsForward : IsForward graph
graph-IsForward = built-IsForward hears events empty graph empty-IsForward run_built

built-IsForward_example : IsForward graph
built-IsForward_example = built-IsForward hears events empty graph empty-IsForward run_built

connect_pairs-generate_hear_write_pairs_example :
    (ps : List Pair) × (g : EventGraph) × (generate_hear_write_pairs graph ≡ ok ps)
    × (connect_pairs ps graph ≡ ok g)
    × Connected ps graph g
connect_pairs-generate_hear_write_pairs_example =
    connect_pairs-generate_hear_write_pairs graph graph-IsWellFormed

-- The hears of the run are found, and both can have caused the deletion.
abbrev pair_gids : List Pair → List (ℕ × ℕ)
pair_gids [] = []
pair_gids ((h, w) ∷ ps) = (h.gid, w.gid) ∷ pair_gids ps

chosen_pairs : pair_gids (ok_or [] (generate_hear_write_pairs graph)) ≡ (1, 3) ∷ (1, 4) ∷ []
unfolding generate_hear_write_pairs add_sorted_controller_hears init_event_graph
    add_sorted_reconciler_events contains
chosen_pairs = refl

-- The run with its edges.
abbrev pub connected : EventGraph
connected = ok_or empty (generate_hear_write_pairs graph >>= λ ps. connect_pairs ps graph)
