-- ===== src/Graph/WellFormed.antt =====
-- The operations that build a graph keep the invariant of its shape.
use sieve.Prelude.{
  ℕ, zero, suc, ◌+◌, ◌≡◌, refl, Bool, true, List, [], ◌∷◌, ◌++◌, ok, ◌>>=◌, Ensures, Ensures-ok,
  Ensures-bind, Ensures-check, All, length, length-append, arith, not,
}
use sieve.Event.Records.{ControllerHear}
use sieve.Graph.Types.{
  Event, hear, write, non_k8s_write, read, begin, finish, EventVertex, EventGraph,
  is_controller_hear, is_controller_write, is_controller_non_k8s_write, is_controller_read,
  is_reconcile_begin, is_reconcile_end, new_vertex, init_event_graph, vertex,
}
use sieve.Graph.Build.{
  add_vertex, has_id, add_controller_hear, add_sorted_controller_hears, add_reconciler_event,
  add_reconciler_events, link_events, add_sorted_reconciler_events, add_out_intra_edge,
}
use sieve.Event.Mask.{MaskMap}
use sieve.Graph.Shape.{
  Listed, IsWellFormed, Listed-append, Listed-new, HasShape-set, vertex-get_elem?,
}

counted_append :
    (n : ℕ) (vs : List EventVertex) (v : EventVertex)
    → n ≡ length vs
    → n + 1 ≡ length (vs ++ (v ∷ []))
counted_append n vs v e = omega (arith, length-append vs (v ∷ []))

-- The empty graph is well formed.
pub init_event_graph-IsWellFormed :
    (learned keys paths : MaskMap) → IsWellFormed (init_event_graph learned keys paths)
unfolding init_event_graph
init_event_graph-IsWellFormed learned keys paths = record {
  counted = refl;
  hears = tt;
  writes = tt;
  non_k8s_writes = tt;
  reads = tt;
  begins = tt;
  ends = tt;
}

-- A vertex that no list holds yet.
add_vertex-IsWellFormed :
    (content : Event) (g : EventGraph) → IsWellFormed g → IsWellFormed (add_vertex content g)
unfolding add_vertex
add_vertex-IsWellFormed content g w = record {
  counted = counted_append _ _ _ w.counted;
  hears = Listed-append is_controller_hear g.vertices _ _ w.hears;
  writes = Listed-append is_controller_write g.vertices _ _ w.writes;
  non_k8s_writes = Listed-append is_controller_non_k8s_write g.vertices _ _ w.non_k8s_writes;
  reads = Listed-append is_controller_read g.vertices _ _ w.reads;
  begins = Listed-append is_reconcile_begin g.vertices _ _ w.begins;
  ends = Listed-append is_reconcile_end g.vertices _ _ w.ends;
}

-- The new vertex at the end of the list of its kind.
listed_last :
    (test : Event → Bool) (content : Event) (g : EventGraph) (gids : List ℕ)
    → IsWellFormed g
    → test content ≡ true
    → All (Listed test g.vertices) gids
    → All (Listed test (add_vertex content g).vertices) (gids ++ (g.vertex_cnt ∷ []))
unfolding add_vertex new_vertex
listed_last test content g gids w t h =
    Listed-new test g.vertices (new_vertex g.vertex_cnt content) gids g.vertex_cnt w.counted refl t
      h

add_controller_hear-Ensures :
    (h : ControllerHear) (g : EventGraph)
    → IsWellFormed g
    → Ensures IsWellFormed (add_controller_hear h g)
unfolding add_controller_hear
add_controller_hear-Ensures h g w =
    Ensures-check IsWellFormed (not (has_id h.id g.controller_hear_id_to_vertices)) _ λ _.
      let k = add_vertex-IsWellFormed (hear h) g w in
      record {
        counted = k.counted;
        hears = listed_last is_controller_hear (hear h) g _ w refl w.hears;
        writes = k.writes;
        non_k8s_writes = k.non_k8s_writes;
        reads = k.reads;
        begins = k.begins;
        ends = k.ends;
      }

add_sorted_controller_hears-Ensures :
    (hs : List ControllerHear) (g : EventGraph)
    → IsWellFormed g
    → Ensures IsWellFormed (add_sorted_controller_hears hs g)
unfolding add_sorted_controller_hears
add_sorted_controller_hears-Ensures [] g w = w
add_sorted_controller_hears-Ensures (h ∷ hs) g w =
    Ensures-bind IsWellFormed (add_controller_hear h g) _ λ g' e.
      add_sorted_controller_hears-Ensures hs g'
        (Ensures-ok IsWellFormed (add_controller_hear h g) (add_controller_hear-Ensures h g w) e)

add_reconciler_event-Ensures :
    (e : Event) (g : EventGraph) → IsWellFormed g → Ensures IsWellFormed (add_reconciler_event e g)
unfolding add_reconciler_event
add_reconciler_event-Ensures (hear h) g w = tt
add_reconciler_event-Ensures (write x) g w =
    let k = add_vertex-IsWellFormed (write x) g w in
    record {
      counted = k.counted;
      hears = k.hears;
      writes = listed_last is_controller_write (write x) g _ w refl w.writes;
      non_k8s_writes = k.non_k8s_writes;
      reads = k.reads;
      begins = k.begins;
      ends = k.ends;
    }
add_reconciler_event-Ensures (non_k8s_write x) g w =
    let k = add_vertex-IsWellFormed (non_k8s_write x) g w in
    record {
      counted = k.counted;
      hears = k.hears;
      writes = k.writes;
      non_k8s_writes =
          listed_last is_controller_non_k8s_write (non_k8s_write x) g _ w refl w.non_k8s_writes;
      reads = k.reads;
      begins = k.begins;
      ends = k.ends;
    }
add_reconciler_event-Ensures (read x) g w =
    let k = add_vertex-IsWellFormed (read x) g w in
    record {
      counted = k.counted;
      hears = k.hears;
      writes = k.writes;
      non_k8s_writes = k.non_k8s_writes;
      reads = listed_last is_controller_read (read x) g _ w refl w.reads;
      begins = k.begins;
      ends = k.ends;
    }
add_reconciler_event-Ensures (begin x) g w =
    let k = add_vertex-IsWellFormed (begin x) g w in
    record {
      counted = k.counted;
      hears = k.hears;
      writes = k.writes;
      non_k8s_writes = k.non_k8s_writes;
      reads = k.reads;
      begins = listed_last is_reconcile_begin (begin x) g _ w refl w.begins;
      ends = k.ends;
    }
add_reconciler_event-Ensures (finish x) g w =
    let k = add_vertex-IsWellFormed (finish x) g w in
    record {
      counted = k.counted;
      hears = k.hears;
      writes = k.writes;
      non_k8s_writes = k.non_k8s_writes;
      reads = k.reads;
      begins = k.begins;
      ends = listed_last is_reconcile_end (finish x) g _ w refl w.ends;
    }

add_reconciler_events-Ensures :
    (es : List Event) (g : EventGraph)
    → IsWellFormed g
    → Ensures IsWellFormed (add_reconciler_events es g)
unfolding add_reconciler_events
add_reconciler_events-Ensures [] g w = w
add_reconciler_events-Ensures (e ∷ es) g w =
    Ensures-bind IsWellFormed (add_reconciler_event e g) _ λ g' h.
      add_reconciler_events-Ensures es g'
        (Ensures-ok IsWellFormed (add_reconciler_event e g) (add_reconciler_event-Ensures e g w) h)

link_events-Ensures :
    (n i : ℕ) (g : EventGraph) → IsWellFormed g → Ensures IsWellFormed (link_events n i g)
unfolding link_events add_out_intra_edge
link_events-Ensures zero i g w = w
link_events-Ensures (suc n) i g w =
    Ensures-bind IsWellFormed (vertex g i) _ λ v e.
      link_events-Ensures n (i + 1) _ (HasShape-set i v _ (vertex-get_elem? g i e) refl refl w)

-- Adding the hears, and then the reconciler's events, of any run to a well-formed graph leaves a
-- well-formed graph, if no assertion fails.
pub built-IsWellFormed :
    (hs : List ControllerHear) (es : List Event) (g g' : EventGraph)
    → IsWellFormed g
    → (add_sorted_controller_hears hs g >>= add_sorted_reconciler_events es) ≡ ok g'
    → IsWellFormed g'
unfolding add_sorted_reconciler_events
built-IsWellFormed hs es g g' w e =
    Ensures-ok IsWellFormed _
      (Ensures-bind IsWellFormed (add_sorted_controller_hears hs g) _ λ g₁ e₁.
        Ensures-bind IsWellFormed (add_reconciler_events es g₁) _ λ g₂ e₂.
          link_events-Ensures _ _ g₂ (
            Ensures-ok IsWellFormed _
              (add_reconciler_events-Ensures es g₁
                (Ensures-ok IsWellFormed _ (add_sorted_controller_hears-Ensures hs g w) e₁))
              e₂))
      e
