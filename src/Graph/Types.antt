-- ===== src/Graph/Types.antt =====
-- The classes of sieve_analyzer/event_graph.py. A vertex is an object that several lists share:
-- the graph keeps the vertices in one store, in the order of their gids, and lists hold gids.
use sieve.Prelude.{
  ℕ, String, Bool, true, false, List, [], Result, ok, err, key_error, attribute_error, from_option,
  ℤ, get_elem?,
}
use sieve.Prelude.Dict.{Dict}
use sieve.Event.Mask.{MaskMap}
use sieve.Event.Records.{
  ControllerHear, ControllerWrite, ControllerNonK8sWrite, ControllerRead, ReconcileBegin,
  ReconcileEnd,
}

pub data Event : Type 0 where
  hear : ControllerHear → Event
  write : ControllerWrite → Event
  non_k8s_write : ControllerNonK8sWrite → Event
  read : ControllerRead → Event
  begin : ReconcileBegin → Event
  finish : ReconcileEnd → Event

pub record EventEdge : Type 0 where
  pub source : ℕ
  pub sink : ℕ
  pub edge_type : String

pub record EventVertex : Type 0 where
  pub gid : ℕ
  pub content : Event
  pub out_inter_reconciler_edges : List EventEdge
  pub out_intra_reconciler_edges : List EventEdge

pub record EventGraph : Type 0 where
  pub learned_masked_paths : MaskMap
  pub configured_masked_keys : MaskMap
  pub configured_masked_paths : MaskMap
  pub vertex_cnt : ℕ
  pub vertices : List EventVertex
  pub controller_hear_vertices : List ℕ
  pub controller_write_vertices : List ℕ
  pub controller_non_k8s_write_vertices : List ℕ
  pub controller_read_vertices : List ℕ
  pub reconcile_begin_vertices : List ℕ
  pub reconcile_end_vertices : List ℕ
  pub controller_read_key_to_vertices : Dict (List ℕ)
  pub controller_write_key_to_vertices : Dict (List ℕ)
  pub controller_hear_key_to_vertices : Dict (List ℕ)
  pub controller_hear_id_to_vertices : List (ℤ × ℕ)
  pub controller_hear_controller_write_edges : List EventEdge
  pub controller_write_controller_hear_edges : List EventEdge
  pub intra_reconciler_edges : List EventEdge

abbrev pub inter_reconciler_edge : String
inter_reconciler_edge = "INTER-RECONCILER"

abbrev pub intra_reconciler_edge : String
intra_reconciler_edge = "INTRA-RECONCILER"

unfoldable pub init_event_graph : MaskMap → MaskMap → MaskMap → EventGraph
init_event_graph learned keys paths = record {
  learned_masked_paths = learned;
  configured_masked_keys = keys;
  configured_masked_paths = paths;
  vertex_cnt = 0;
  vertices = [];
  controller_hear_vertices = [];
  controller_write_vertices = [];
  controller_non_k8s_write_vertices = [];
  controller_read_vertices = [];
  reconcile_begin_vertices = [];
  reconcile_end_vertices = [];
  controller_read_key_to_vertices = [];
  controller_write_key_to_vertices = [];
  controller_hear_key_to_vertices = [];
  controller_hear_id_to_vertices = [];
  controller_hear_controller_write_edges = [];
  controller_write_controller_hear_edges = [];
  intra_reconciler_edges = [];
}

-- `isinstance(content, …)`
abbrev pub is_controller_hear : Event → Bool
is_controller_hear (hear h) = true
is_controller_hear _ = false

abbrev pub is_controller_write : Event → Bool
is_controller_write (write w) = true
is_controller_write _ = false

abbrev pub is_controller_non_k8s_write : Event → Bool
is_controller_non_k8s_write (non_k8s_write w) = true
is_controller_non_k8s_write _ = false

abbrev pub is_controller_read : Event → Bool
is_controller_read (read r) = true
is_controller_read _ = false

abbrev pub is_reconcile_begin : Event → Bool
is_reconcile_begin (begin r) = true
is_reconcile_begin _ = false

abbrev pub is_reconcile_end : Event → Bool
is_reconcile_end (finish r) = true
is_reconcile_end _ = false

-- `content.start_timestamp`; reads and reconcile marks have no such attribute.
abbrev pub start_timestamp : Event → Result ℤ
start_timestamp (hear h) = ok h.start_timestamp
start_timestamp (write w) = ok w.start_timestamp
start_timestamp (non_k8s_write w) = ok w.start_timestamp
start_timestamp _ = err attribute_error

-- The vertex that a reference leads to; a reference into a graph always leads to one.
unfoldable pub vertex : EventGraph → ℕ → Result EventVertex
vertex g gid = from_option key_error (get_elem? g.vertices gid)

unfoldable pub new_vertex : ℕ → Event → EventVertex
new_vertex gid content = record {
  gid = gid;
  content = content;
  out_inter_reconciler_edges = [];
  out_intra_reconciler_edges = [];
}
