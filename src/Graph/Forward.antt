-- ===== src/Graph/Forward.antt =====
-- The intra-reconciler edges of a graph lead to vertices that were added later, so that a walk along
-- them ends.
use sieve.Prelude.{
  ℕ, zero, suc, ◌+◌, ◌<◌, ◌≡◌, List, [], ◌∷◌, ◌++◌, Option, some, not, subst, ok, ◌>>=◌, Ensures,
  Ensures-ok, Ensures-bind, Ensures-check, All, All-append, get_elem?, set, arith,
}
use sieve.Event.Records.{ControllerHear}
use sieve.Graph.Types.{
  Event, hear, write, non_k8s_write, read, begin, finish, EventEdge, EventVertex, EventGraph,
  new_vertex, vertex,
}
use sieve.Graph.Build.{
  add_vertex, add_controller_hear, add_sorted_controller_hears, add_reconciler_event,
  add_reconciler_events, link_events, add_sorted_reconciler_events, add_out_intra_edge, has_id,
  intra_edge,
}
use sieve.Graph.Shape.{vertex-get_elem?}

option_inj : {A : Type 0} {a b : A} → ◌≡◌ {A = Option A} (some a) (some b) → a ≡ b
option_inj e = cc

abbrev pub Later : ℕ → List EventEdge → Type 0
Later i = All (λ e. i < e.sink)

-- The vertices from position `i` on.
abbrev pub ForwardFrom : ℕ → List EventVertex → Type 0
ForwardFrom i [] = Unit
ForwardFrom i (v ∷ vs) = Later i v.out_intra_reconciler_edges × ForwardFrom (suc i) vs

abbrev pub IsForward : EventGraph → Type 0
IsForward g = ForwardFrom 0 g.vertices

Later-eq : (i j : ℕ) (es : List EventEdge) → i ≡ j → Later i es → Later j es
Later-eq i j [] e h = tt
Later-eq i j (x ∷ es) e (h, hs) = (omega arith, Later-eq i j es e hs)

ForwardFrom-append :
    (i : ℕ) (vs : List EventVertex) (n : ℕ) (content : Event)
    → ForwardFrom i vs
    → ForwardFrom i (vs ++ (new_vertex n content ∷ []))
unfolding new_vertex
ForwardFrom-append i [] n content h = (tt, tt)
ForwardFrom-append i (v ∷ vs) n content (h, hs) = (h, ForwardFrom-append (suc i) vs n content hs)

ForwardFrom-at :
    (i : ℕ) (vs : List EventVertex) (k : ℕ) {v : EventVertex}
    → ForwardFrom i vs
    → get_elem? vs k ≡ some v
    → Later (i + k) v.out_intra_reconciler_edges
ForwardFrom-at i [] k h e = cc
ForwardFrom-at i (x ∷ vs) zero {v = v} (h, hs) e =
    Later-eq i (i + 0) v.out_intra_reconciler_edges (omega arith)
      (subst (λ u. Later i u.out_intra_reconciler_edges) (option_inj e) h)
ForwardFrom-at i (x ∷ vs) (suc k) {v = v} (h, hs) e =
    Later-eq (suc i + k) (i + suc k) v.out_intra_reconciler_edges (omega arith)
      (ForwardFrom-at (suc i) vs k hs e)

-- The edges of a vertex of a graph.
pub IsForward-at :
    (g : EventGraph) (i : ℕ) {v : EventVertex}
    → IsForward g
    → get_elem? g.vertices i ≡ some v
    → Later i v.out_intra_reconciler_edges
IsForward-at g i {v = v} f e =
    Later-eq (0 + i) i v.out_intra_reconciler_edges (omega arith)
      (ForwardFrom-at 0 g.vertices i f e)

ForwardFrom-set :
    (i : ℕ) (vs : List EventVertex) (k : ℕ) (v' : EventVertex)
    → ForwardFrom i vs
    → Later (i + k) v'.out_intra_reconciler_edges
    → ForwardFrom i (set vs k v')
ForwardFrom-set i [] k v' h l = tt
ForwardFrom-set i (x ∷ vs) zero v' (h, hs) l =
    (Later-eq (i + 0) i v'.out_intra_reconciler_edges (omega arith) l, hs)
ForwardFrom-set i (x ∷ vs) (suc k) v' (h, hs) l = (
  h,
  ForwardFrom-set (suc i) vs k v' hs
      (Later-eq (i + suc k) (suc i + k) v'.out_intra_reconciler_edges (omega arith) l),
)

add_vertex-IsForward :
    (content : Event) (g : EventGraph) → IsForward g → IsForward (add_vertex content g)
unfolding add_vertex
add_vertex-IsForward content g f = ForwardFrom-append 0 g.vertices g.vertex_cnt content f

add_controller_hear-Ensures :
    (h : ControllerHear) (g : EventGraph)
    → IsForward g
    → Ensures IsForward (add_controller_hear h g)
unfolding add_controller_hear
add_controller_hear-Ensures h g f =
    Ensures-check IsForward (not (has_id h.id g.controller_hear_id_to_vertices)) _
      λ _. add_vertex-IsForward (hear h) g f

add_sorted_controller_hears-Ensures :
    (hs : List ControllerHear) (g : EventGraph)
    → IsForward g
    → Ensures IsForward (add_sorted_controller_hears hs g)
unfolding add_sorted_controller_hears
add_sorted_controller_hears-Ensures [] g f = f
add_sorted_controller_hears-Ensures (h ∷ hs) g f =
    Ensures-bind IsForward (add_controller_hear h g) _ λ g' e.
      add_sorted_controller_hears-Ensures hs g'
        (Ensures-ok IsForward (add_controller_hear h g) (add_controller_hear-Ensures h g f) e)

add_reconciler_event-Ensures :
    (e : Event) (g : EventGraph) → IsForward g → Ensures IsForward (add_reconciler_event e g)
unfolding add_reconciler_event
add_reconciler_event-Ensures (hear h) g f = tt
add_reconciler_event-Ensures (write x) g f = add_vertex-IsForward (write x) g f
add_reconciler_event-Ensures (non_k8s_write x) g f = add_vertex-IsForward (non_k8s_write x) g f
add_reconciler_event-Ensures (read x) g f = add_vertex-IsForward (read x) g f
add_reconciler_event-Ensures (begin x) g f = add_vertex-IsForward (begin x) g f
add_reconciler_event-Ensures (finish x) g f = add_vertex-IsForward (finish x) g f

add_reconciler_events-Ensures :
    (es : List Event) (g : EventGraph)
    → IsForward g
    → Ensures IsForward (add_reconciler_events es g)
unfolding add_reconciler_events
add_reconciler_events-Ensures [] g f = f
add_reconciler_events-Ensures (e ∷ es) g f =
    Ensures-bind IsForward (add_reconciler_event e g) _ λ g' h.
      add_reconciler_events-Ensures es g'
        (Ensures-ok IsForward (add_reconciler_event e g) (add_reconciler_event-Ensures e g f) h)

link_events-Ensures :
    (n i : ℕ) (g : EventGraph) → IsForward g → Ensures IsForward (link_events n i g)
unfolding link_events add_out_intra_edge
link_events-Ensures zero i g f = f
link_events-Ensures (suc n) i g f = Ensures-bind IsForward (vertex g i) _ λ v e.
    link_events-Ensures n (i + 1) _ (
      ForwardFrom-set 0 g.vertices i (add_out_intra_edge (intra_edge i) v) f (
        All-append (λ e. 0 + i < e.sink) v.out_intra_reconciler_edges (intra_edge i ∷ [])
          (ForwardFrom-at 0 g.vertices i f (vertex-get_elem? g i e)) (omega arith, tt)))

-- Adding the hears, and then the reconciler's events, of any run to a graph whose intra-reconciler
-- edges lead to later vertices leaves such a graph, if no assertion fails.
pub built-IsForward :
    (hs : List ControllerHear) (es : List Event) (g g' : EventGraph)
    → IsForward g
    → (add_sorted_controller_hears hs g >>= add_sorted_reconciler_events es) ≡ ok g'
    → IsForward g'
unfolding add_sorted_reconciler_events
built-IsForward hs es g g' f e =
    Ensures-ok IsForward _
      (Ensures-bind IsForward (add_sorted_controller_hears hs g) _ λ g₁ e₁.
        Ensures-bind IsForward (add_reconciler_events es g₁) _ λ g₂ e₂. link_events-Ensures _ _ g₂ (
          Ensures-ok IsForward _
            (add_reconciler_events-Ensures es g₁
              (Ensures-ok IsForward _ (add_sorted_controller_hears-Ensures hs g f) e₁))
            e₂))
      e
