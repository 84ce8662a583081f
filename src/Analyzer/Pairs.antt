-- ===== src/Analyzer/Pairs.antt =====
-- The passes of sieve_analyzer/analyze.py that choose which hears may have caused which writes, and
-- the calls that put the chosen pairs into the graph.
use sieve.Prelude.{
  ℕ, String, ◌==◌, Bool, true, false, ◌&&◌, ◌||◌, List, [], ◌∷◌, ◌++◌, Option, none, some, Result,
  ok, err, attribute_error, ◌>>=◌, ℤ, ltb_ℤ, contains, if◌then◌else◌,
}
use sieve.Prelude.Dict.{lookup}
use sieve.Event.Types.{consistent_event_type}
use sieve.Graph.Types.{
  Event, hear, write, non_k8s_write, read, begin, finish, EventVertex, EventGraph, start_timestamp,
  vertex,
}
use sieve.Graph.Build.{connect_hear_to_write}

-- A hear and a write, as the passes list them.
abbrev pub Pair : Type 0
Pair = EventVertex × EventVertex

-- The vertices that a list of the graph refers to.
unfoldable pub vertices_of : EventGraph → List ℕ → Result (List EventVertex)
unfolding vertex
vertices_of g [] = ok []
vertices_of g (gid ∷ gids) = do v ← vertex g gid; vs ← vertices_of g gids; ok (v ∷ vs)

abbrev pub end_timestamp : Event → ℤ
end_timestamp (hear h) = h.end_timestamp
end_timestamp (write w) = w.end_timestamp
end_timestamp (non_k8s_write w) = w.end_timestamp
end_timestamp (read r) = r.end_timestamp
end_timestamp (begin r) = r.end_timestamp
end_timestamp (finish r) = r.end_timestamp

-- `content.reconcile_id` and `content.range_start_timestamp` of a write
abbrev pub reconcile_scope : Event → Result (Option String × ℤ)
reconcile_scope (write w) = ok (w.reconcile_id, w.range_start_timestamp)
reconcile_scope (non_k8s_write w) = ok (w.reconcile_id, w.range_start_timestamp)
reconcile_scope _ = err attribute_error

-- The tests of the inner loop of `base_pass`. A write outside any reconcile has the id -1.
unfoldable pub in_scope : Event → Event → Result Bool
in_scope w h = do
  scope ← reconcile_scope w
  elim scope.0 [
    | none ↦ ok false
    | some id ↦ (do
      write_start ← start_timestamp w
      hear_start ← start_timestamp h
      ok (ltb_ℤ scope.1 (end_timestamp h) && ltb_ℤ hear_start write_start))
  ]

unfoldable pub pairs_of_write : EventVertex → List EventVertex → Result (List Pair)
unfolding in_scope
pairs_of_write w [] = ok []
pairs_of_write w (h ∷ hs) = do
  keep ← in_scope w.content h.content
  rest ← pairs_of_write w hs
  ok (if keep then (h, w) ∷ rest else rest)

unfoldable pub pairs_of_writes : List EventVertex → List EventVertex → Result (List Pair)
unfolding pairs_of_write
pairs_of_writes hs [] = ok []
pairs_of_writes hs (w ∷ ws) = do
  first ← pairs_of_write w hs
  rest ← pairs_of_writes hs ws
  ok (first ++ rest)

unfoldable pub base_pass :
    List EventVertex → List EventVertex → List EventVertex → Result (List Pair)
unfolding pairs_of_writes
base_pass hears writes non_k8s_writes = pairs_of_writes hears (writes ++ non_k8s_writes)

-- `content.key` and `content.rtype` of a hear, where the write is a Kubernetes write
unfoldable pub read_overlaps : Event → Event → Result Bool
read_overlaps (hear h) (write w) = ok (contains h.key w.read_keys || contains h.rtype w.read_types)
read_overlaps h (write w) = err attribute_error
read_overlaps h w = ok true

unfoldable pub hear_read_overlap_filtering_pass : List Pair → Result (List Pair)
unfolding read_overlaps
hear_read_overlap_filtering_pass [] = ok []
hear_read_overlap_filtering_pass ((h, w) ∷ pairs) = do
  keep ← read_overlaps h.content w.content
  rest ← hear_read_overlap_filtering_pass pairs
  ok (if keep then (h, w) ∷ rest else rest)

abbrev pub allowed_error_type : List String
allowed_error_type = "NoError" ∷ []

abbrev pub error_allowed : Event → Bool
error_allowed (write w) = contains w.error allowed_error_type
error_allowed _ = true

unfoldable pub error_msg_filtering_pass : List Pair → List Pair
unfolding contains
error_msg_filtering_pass [] = []
error_msg_filtering_pass ((h, w) ∷ pairs) =
    let rest = error_msg_filtering_pass pairs in
    if error_allowed w.content then (h, w) ∷ rest else rest

-- `HEAR_READ_FILTER_FLAG` is `True`.
unfoldable pub generate_hear_write_pairs : EventGraph → Result (List Pair)
unfolding vertices_of base_pass hear_read_overlap_filtering_pass
generate_hear_write_pairs g = do
  hears ← vertices_of g g.controller_hear_vertices
  writes ← vertices_of g g.controller_write_vertices
  non_k8s_writes ← vertices_of g g.controller_non_k8s_write_vertices
  pairs ← base_pass hears writes non_k8s_writes
  hear_read_overlap_filtering_pass pairs

-- The tests of the inner loop of `generate_write_hear_pairs`.
abbrev write_heard : Event → Event → Bool
write_heard (write w) (hear h) =
    h.obj_str == w.obj_str
    && ltb_ℤ w.start_timestamp h.start_timestamp
    && consistent_event_type h.etype w.etype
write_heard w h = false

-- The first hear that shows the write.
unfoldable pub first_heard : EventVertex → List EventVertex → List Pair
first_heard w [] = []
first_heard w (h ∷ hs) =
    let rest = first_heard w hs in if write_heard w.content h.content then (w, h) ∷ [] else rest

abbrev write_key : Event → String
write_key (write w) = w.key
write_key _ = ""

unfoldable pub write_hear_pairs : EventGraph → List EventVertex → List EventVertex → List Pair
unfolding first_heard lookup
write_hear_pairs g hs [] = []
write_hear_pairs g hs (w ∷ ws) =
    let rest = write_hear_pairs g hs ws in
    elim (lookup (write_key w.content) g.controller_hear_key_to_vertices) [
      | none ↦ rest
      | some gids ↦ first_heard w hs ++ rest
    ]

unfoldable pub generate_write_hear_pairs : EventGraph → Result (List Pair)
unfolding vertices_of write_hear_pairs
generate_write_hear_pairs g = do
  hears ← vertices_of g g.controller_hear_vertices
  writes ← vertices_of g g.controller_write_vertices
  ok (write_hear_pairs g hears writes)

-- `for pair in hear_write_pairs: event_graph.connect_hear_to_write(pair[0], pair[1])`
unfoldable pub connect_pairs : List Pair → EventGraph → Result EventGraph
unfolding connect_hear_to_write
connect_pairs [] g = ok g
connect_pairs ((h, w) ∷ pairs) g = do
  g' ← connect_hear_to_write h.gid w.gid g
  connect_pairs pairs g'
