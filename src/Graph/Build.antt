-- ===== src/Graph/Build.antt =====
-- The operations of `EventGraph` that add vertices and edges (sieve_analyzer/event_graph.py).
use sieve.Prelude.{
  ℕ, zero, suc, ◌+◌, ◌-◌, length, String, Bool, false, not, ◌||◌, List, [], ◌∷◌, ◌++◌, Result, ok,
  check, ◌>>=◌, ◌>>◌, ℤ, ltb_ℤ, int_eq, set,
}
use sieve.Prelude.Dict.{Dict, append_at}
use sieve.Event.Records.{ControllerHear}
use sieve.Graph.Types.{
  Event, hear, write, non_k8s_write, read, begin, finish, EventEdge, EventVertex, EventGraph,
  inter_reconciler_edge, intra_reconciler_edge, is_controller_hear, is_controller_write,
  is_controller_non_k8s_write, start_timestamp, vertex, new_vertex,
}

-- `EventVertex(self.__vertex_cnt, content)`, then `self.__vertex_cnt += 1`
unfoldable pub add_vertex : Event → EventGraph → EventGraph
unfolding new_vertex
add_vertex content g = record g {
  vertices = g.vertices ++ (new_vertex g.vertex_cnt content ∷ []);
  vertex_cnt = g.vertex_cnt + 1;
}

-- `id in ids`
unfoldable pub has_id : ℤ → List (ℤ × ℕ) → Bool
has_id n [] = false
has_id n ((m, gid) ∷ ids) = int_eq m n || has_id n ids

unfoldable pub add_controller_hear : ControllerHear → EventGraph → Result EventGraph
unfolding add_vertex has_id append_at
add_controller_hear h g = do
  let gid = g.vertex_cnt
  let g' = add_vertex (hear h) g
  check (not (has_id h.id g.controller_hear_id_to_vertices))
  ok (record g' {
    controller_hear_vertices = g.controller_hear_vertices ++ (gid ∷ []);
    controller_hear_key_to_vertices = append_at h.key gid g.controller_hear_key_to_vertices;
    controller_hear_id_to_vertices = g.controller_hear_id_to_vertices ++ ((h.id, gid) ∷ []);
  })

unfoldable pub add_sorted_controller_hears : List ControllerHear → EventGraph → Result EventGraph
unfolding add_controller_hear
add_sorted_controller_hears [] g = ok g
add_sorted_controller_hears (h ∷ hs) g = do
  g' ← add_controller_hear h g
  add_sorted_controller_hears hs g'

-- The vertices under each of a list of keys.
unfoldable pub append_at_keys : List String → ℕ → Dict (List ℕ) → Dict (List ℕ)
unfolding append_at
append_at_keys [] gid d = d
append_at_keys (key ∷ keys) gid d = append_at_keys keys gid (append_at key gid d)

-- A hear among the reconciler's events fails the last assertion.
unfoldable pub add_reconciler_event : Event → EventGraph → Result EventGraph
unfolding add_vertex append_at append_at_keys
add_reconciler_event (hear h) g = check false >> ok g
add_reconciler_event (write w) g =
    let gid = g.vertex_cnt in
    let g' = add_vertex (write w) g in
    ok (record g' {
      controller_write_vertices = g.controller_write_vertices ++ (gid ∷ []);
      controller_write_key_to_vertices = append_at w.key gid g.controller_write_key_to_vertices;
    })
add_reconciler_event (non_k8s_write w) g =
    let gid = g.vertex_cnt in
    let g' = add_vertex (non_k8s_write w) g in
    ok (record g' {
      controller_non_k8s_write_vertices = g.controller_non_k8s_write_vertices ++ (gid ∷ []);
    })
add_reconciler_event (read r) g =
    let gid = g.vertex_cnt in
    let g' = add_vertex (read r) g in
    ok (record g' {
      controller_read_vertices = g.controller_read_vertices ++ (gid ∷ []);
      controller_read_key_to_vertices =
          append_at_keys r.key_set gid g.controller_read_key_to_vertices;
    })
add_reconciler_event (begin r) g =
    let gid = g.vertex_cnt in
    let g' = add_vertex (begin r) g in
    ok (record g' { reconcile_begin_vertices = g.reconcile_begin_vertices ++ (gid ∷ []) })
add_reconciler_event (finish r) g =
    let gid = g.vertex_cnt in
    let g' = add_vertex (finish r) g in
    ok (record g' { reconcile_end_vertices = g.reconcile_end_vertices ++ (gid ∷ []) })

unfoldable pub add_reconciler_events : List Event → EventGraph → Result EventGraph
unfolding add_reconciler_event
add_reconciler_events [] g = ok g
add_reconciler_events (e ∷ es) g = do g' ← add_reconciler_event e g; add_reconciler_events es g'

-- `v.add_out_inter_reconciler_edge(edge)` and `v.add_out_intra_reconciler_edge(edge)`
unfoldable pub add_out_inter_edge : EventEdge → EventVertex → EventVertex
add_out_inter_edge e v = record v {
  out_inter_reconciler_edges = v.out_inter_reconciler_edges ++ (e ∷ []);
}

unfoldable pub add_out_intra_edge : EventEdge → EventVertex → EventVertex
add_out_intra_edge e v = record v {
  out_intra_reconciler_edges = v.out_intra_reconciler_edges ++ (e ∷ []);
}

abbrev pub intra_edge : ℕ → EventEdge
intra_edge i = record { source = i; sink = i + 1; edge_type = intra_reconciler_edge }

abbrev pub inter_edge : ℕ → ℕ → EventEdge
inter_edge source sink = record { source = source; sink = sink; edge_type = inter_reconciler_edge }

-- The loop that links each reconciler event to the next: `n` edges, from gid `i` on. The events of
-- one call have consecutive gids.
unfoldable pub link_events : ℕ → ℕ → EventGraph → Result EventGraph
unfolding vertex add_out_intra_edge
link_events zero i g = ok g
link_events (suc n) i g = do
  v ← vertex g i
  let edge = intra_edge i
  link_events n (i + 1) (record g {
    vertices = set g.vertices i (add_out_intra_edge edge v);
    intra_reconciler_edges = g.intra_reconciler_edges ++ (edge ∷ []);
  })

unfoldable pub add_sorted_reconciler_events : List Event → EventGraph → Result EventGraph
unfolding add_reconciler_events link_events
add_sorted_reconciler_events es g = do
  g' ← add_reconciler_events es g
  link_events (length es - 1) g.vertex_cnt g'

unfoldable pub connect_hear_to_write : ℕ → ℕ → EventGraph → Result EventGraph
unfolding vertex add_out_inter_edge
connect_hear_to_write source sink g = do
  h ← vertex g source
  w ← vertex g sink
  check (is_controller_hear h.content)
  check (is_controller_write w.content || is_controller_non_k8s_write w.content)
  hear_start ← start_timestamp h.content
  write_start ← start_timestamp w.content
  check (ltb_ℤ hear_start write_start)
  let edge = inter_edge source sink
  ok (record g {
    vertices = set g.vertices source (add_out_inter_edge edge h);
    controller_hear_controller_write_edges =
        g.controller_hear_controller_write_edges ++ (edge ∷ []);
  })

unfoldable pub connect_write_to_hear : ℕ → ℕ → EventGraph → Result EventGraph
unfolding vertex add_out_inter_edge
connect_write_to_hear source sink g = do
  w ← vertex g source
  h ← vertex g sink
  check (is_controller_hear h.content)
  check (is_controller_write w.content)
  write_start ← start_timestamp w.content
  hear_start ← start_timestamp h.content
  check (ltb_ℤ write_start hear_start)
  let edge = inter_edge source sink
  ok (record g {
    vertices = set g.vertices source (add_out_inter_edge edge w);
    controller_write_controller_hear_edges =
        g.controller_write_controller_hear_edges ++ (edge ∷ []);
  })
