-- ===== src/Policy/Timing.antt =====
-- `decide_stale_state_timing` of sieve_perturbation_policies/stale_state.py. The walk along the
-- reconciler's events takes fuel, and `none` means that it ran out.
use sieve.Prelude.{
  ℕ, zero, suc, ◌+◌, String, ◌==◌, Bool, true, false, ◌&&◌, List, [], ◌∷◌, Option, none, some,
  Result, ok, err, assertion_error, attribute_error, nat_eq, length, if◌then◌else◌,
}
use sieve.Json.{Fields}
use sieve.Delta.Diff.{same_key}
use sieve.Event.WriteTypes
use sieve.Event.Records.{ControllerWrite}
use sieve.Graph.Types.{Event, hear, write, finish, EventEdge, EventVertex, EventGraph, vertex}

-- What the next event of the reconciler says about the timing: a verdict, or the number of
-- reconciles that have ended.
pub data Verdict : Type 0 where
  decided : String → Verdict
  go_on : ℕ → Verdict

unfoldable pub judge : ControllerWrite → Event → ℕ → Verdict
judge sink (finish r) reconcile_cnt =
    if nat_eq (reconcile_cnt + 1) 2 then decided "after" else go_on (reconcile_cnt + 1)
judge sink (write w) reconcile_cnt =
    if w.etype == WriteTypes.create && w.key == sink.key
    then (if nat_eq reconcile_cnt 0 then decided "before" else decided "both")
    else go_on reconcile_cnt
judge sink other reconcile_cnt = go_on reconcile_cnt

-- At a vertex that has not one edge the test is on the edges of the sink, not of the vertex.
abbrev pub at_end : EventVertex → Result String
at_end sink =
    if nat_eq (length sink.out_intra_reconciler_edges) 0 then ok "after" else err assertion_error

unfoldable pub walk :
    ℕ → EventGraph → EventVertex → ControllerWrite → List EventEdge → ℕ → Option (Result String)
unfolding vertex judge
walk zero g sink w edges reconcile_cnt = none
walk (suc fuel) g sink w [] reconcile_cnt = some (at_end sink)
walk (suc fuel) g sink w (e ∷ []) reconcile_cnt = elim (vertex g e.sink) [
  | err x ↦ some (err x)
  | ok next ↦ (elim (judge w next.content reconcile_cnt) [
    | decided timing ↦ some (ok timing)
    | go_on cnt ↦ walk fuel g sink w next.out_intra_reconciler_edges cnt
  ])
]
walk (suc fuel) g sink w (e ∷ f ∷ es) reconcile_cnt = some (at_end sink)

-- `not same_key(slim_prev_obj_map, slim_cur_obj_map)`
abbrev changes_keys : Fields → Option Fields → Result Bool
changes_keys prev none = err attribute_error
changes_keys prev (some cur) = ok (if same_key prev cur then false else true)

abbrev pub walk_unless : Bool → Option (Result String) → Option (Result String)
walk_unless true w = some (ok "after")
walk_unless false w = w

abbrev pub after_keys : Result Bool → Option (Result String) → Option (Result String)
after_keys (err x) w = some (err x)
after_keys (ok changed) w = walk_unless changed w

abbrev pub decide : Option Fields → Option Fields → Option (Result String) → Option (Result String)
decide none cur w = some (ok "after")
decide (some prev) cur w = after_keys (changes_keys prev cur) w

-- The three assertions, then the tests on the difference of the hear, then the walk.
abbrev pub timing_of :
    ℕ → EventGraph → EventVertex → List EventEdge → Event → Event → Option (Result String)
timing_of fuel g sink edges (hear h) (write w) =
    if w.etype == WriteTypes.delete
    then decide h.slim_prev_obj_map h.slim_cur_obj_map (walk fuel g sink w edges 0)
    else some (err assertion_error)
timing_of fuel g sink edges s t = some (err assertion_error)

unfoldable pub decide_stale_state_timing :
    ℕ → EventGraph → EventVertex → EventVertex → Option (Result String)
unfolding same_key walk
decide_stale_state_timing fuel g source sink =
    timing_of fuel g sink sink.out_intra_reconciler_edges source.content sink.content
