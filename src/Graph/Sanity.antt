-- ===== src/Graph/Sanity.antt =====
-- `sanity_check` of sieve_analyzer/event_graph.py, which ends the construction of a graph. The source
-- names `is_controller_hear` and `is_controller_write` of a listed vertex without calling them, so
-- these two assertions always hold; they are left out here, as they are in effect there.
use sieve.Prelude.{
  ℕ, ◌≡◌, ◌≢◌, refl, sym, ◌∙◌, subst, Bool, true, false, ◌&&◌, not, List, [], ◌∷◌, Option, none,
  some, Result, ok, check, ◌>>=◌, ◌>>◌, ℤ, minus_one, ltb_ℤ, int_eq, nat_eq, Among, inl, inr,
  >>=-eq-ok, ok_inj,
}
use sieve.Event.Records.{ControllerWrite}
use sieve.Graph.Types.{
  Event, hear, write, non_k8s_write, read, begin, finish, EventEdge, EventVertex, EventGraph,
  vertex, start_timestamp, is_controller_hear, is_controller_write,
}
use sieve.Graph.EventDiff.{write_content}

-- `content.end_timestamp`
abbrev pub end_of_event : Event → ℤ
end_of_event (hear h) = h.end_timestamp
end_of_event (write w) = w.end_timestamp
end_of_event (non_k8s_write w) = w.end_timestamp
end_of_event (read r) = r.end_timestamp
end_of_event (begin r) = r.end_timestamp
end_of_event (finish r) = r.end_timestamp

-- A vertex after the first starts after the one before it.
abbrev pub check_after : Option ℤ → ℤ → Result (Unit {0})
check_after none start = ok tt
check_after (some prev) start = check (ltb_ℤ prev start)

-- The edges of a vertex start at it.
unfoldable pub check_sources : ℕ → List EventEdge → Result (Unit {0})
check_sources gid [] = ok tt
check_sources gid (e ∷ es) = check (nat_eq gid e.source) >> check_sources gid es

unfoldable pub check_hears : EventGraph → Option ℤ → List ℕ → Result (Unit {0})
unfolding vertex check_sources
check_hears g prev [] = ok tt
check_hears g prev (gid ∷ gids) = do
  v ← vertex g gid
  start ← start_timestamp v.content
  check_after prev start
  check (not (int_eq start minus_one))
  check (not (int_eq (end_of_event v.content) minus_one))
  check (ltb_ℤ start (end_of_event v.content))
  check_sources v.gid v.out_inter_reconciler_edges
  check_hears g (some start) gids

-- What is checked of a write inside a reconcile.
unfoldable pub check_range : ControllerWrite → Result (Unit {0})
check_range w = elim w.reconcile_id [
  | none ↦ ok tt
  | some id ↦ do
    check (not (int_eq w.range_end_timestamp minus_one))
    check (ltb_ℤ w.range_start_timestamp w.range_end_timestamp)
    check (int_eq w.end_timestamp w.range_end_timestamp)
]

unfoldable pub check_writes : EventGraph → Option ℤ → List ℕ → Result (Unit {0})
unfolding vertex check_sources check_range
check_writes g prev [] = ok tt
check_writes g prev (gid ∷ gids) = do
  v ← vertex g gid
  w ← write_content v.content
  check_after prev w.start_timestamp
  check (ltb_ℤ w.start_timestamp w.end_timestamp)
  check_sources v.gid v.out_inter_reconciler_edges
  check_range w
  check_writes g (some w.start_timestamp) gids

unfoldable pub check_hear_write_edges : EventGraph → List EventEdge → Result (Unit {0})
unfolding vertex
check_hear_write_edges g [] = ok tt
check_hear_write_edges g (e ∷ es) = do
  source ← vertex g e.source
  sink ← vertex g e.sink
  check (is_controller_hear source.content && is_controller_write sink.content)
  a ← start_timestamp source.content
  b ← start_timestamp sink.content
  check (ltb_ℤ a b)
  check_hear_write_edges g es

unfoldable pub check_write_hear_edges : EventGraph → List EventEdge → Result (Unit {0})
unfolding vertex
check_write_hear_edges g [] = ok tt
check_write_hear_edges g (e ∷ es) = do
  source ← vertex g e.source
  sink ← vertex g e.sink
  check (is_controller_hear sink.content && is_controller_write source.content)
  a ← start_timestamp source.content
  b ← start_timestamp sink.content
  check (ltb_ℤ a b)
  check_write_hear_edges g es

unfoldable pub sanity_check : EventGraph → Result (Unit {0})
unfolding check_hears check_writes check_hear_write_edges check_write_hear_edges
sanity_check g = do
  check_hears g none g.controller_hear_vertices
  check_writes g none g.controller_write_vertices
  check_hear_write_edges g g.controller_hear_controller_write_edges
  check_write_hear_edges g g.controller_write_controller_hear_edges

-- A loop of assertions that returns has passed each of them.
check_hear_write_edges-sink :
    (g : EventGraph) (es : List EventEdge) (e : EventEdge)
    → check_hear_write_edges g es ≡ ok tt
    → Among e es
    → (v : EventVertex) × (vertex g e.sink ≡ ok v) × (is_controller_write v.content ≡ true)
unfolding check_hear_write_edges
check_hear_write_edges-sink g [] e h p = elim p [ ]
check_hear_write_edges-sink g (e' ∷ es) e h p =
    let (source, _, h₁) = >>=-eq-ok (vertex g e'.source) _ h in
    let (sink, at, h₂) = >>=-eq-ok (vertex g e'.sink) _ h₁ in
    let (_, c, h₃) =
      >>=-eq-ok (check (is_controller_hear source.content && is_controller_write sink.content)) _
        h₂ in
    let (a, _, h₄) = >>=-eq-ok (start_timestamp source.content) _ h₃ in
    let (b, _, h₅) = >>=-eq-ok (start_timestamp sink.content) _ h₄ in
    let (_, _, h₆) = >>=-eq-ok (check (ltb_ℤ a b)) _ h₅ in
    elim p [
      | inl same ↦
          subst
            (λ x.
              (v : EventVertex) × (vertex g x.sink ≡ ok v) × (is_controller_write v.content ≡ true))
            (sym same)
            (
              sink,
              at,
              both (is_controller_hear source.content) (is_controller_write sink.content) c,
            )
      | inr later ↦ check_hear_write_edges-sink g es e h₆ later
    ]
  where
    both : (a b : Bool) → check (a && b) ≡ ok tt → b ≡ true
    both true true q = refl
    both true false q = cc
    both false b q = cc

-- A graph with an edge from a hear to a write outside Kubernetes never passes `sanity_check`.
pub sanity_check-non_k8s_write :
    (g : EventGraph) (e : EventEdge) (v : EventVertex)
    → Among e g.controller_hear_controller_write_edges
    → vertex g e.sink ≡ ok v
    → is_controller_write v.content ≡ false
    → sanity_check g ≢ ok tt
unfolding sanity_check
sanity_check-non_k8s_write g e v p at other h =
    let (_, _, h₁) = >>=-eq-ok (check_hears g none g.controller_hear_vertices) _ h in
    let (_, _, h₂) = >>=-eq-ok (check_writes g none g.controller_write_vertices) _ h₁ in
    let (_, c, _) =
      >>=-eq-ok (check_hear_write_edges g g.controller_hear_controller_write_edges) _ h₂ in
    let (v', at', w) =
      check_hear_write_edges-sink g g.controller_hear_controller_write_edges e c p in
    let same = ok_inj (sym at ∙ at') in
    let f = subst (λ x. is_controller_write x.content ≡ false) same other in cc
