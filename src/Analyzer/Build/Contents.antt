-- ===== src/Analyzer/Build/Contents.antt =====
-- The events of the graph that `build_controller_event_graph` returns.
use sieve.Prelude.{
  ℕ, zero, suc, ◌+◌, ◌-◌, String, ◌≡◌, refl, sym, ap, ◌∙◌, subst, Bool, List, [], ◌∷◌, ◌++◌, map,
  Option, Result, ok, ◌>>=◌, Ensures, Ensures-ok, Ensures-bind, Ensures-map, Ensures-check,
  append_assoc, append_nil, length, set, not, ◌||◌, ltb_ℤ, >>=-eq-ok, ok_inj,
}
use sieve.Json.{Value, Fields}
use sieve.Event.Mask.{MaskMap}
use sieve.Event.Records.{ControllerHear}
use sieve.Graph.Types.{
  Event, hear, write, non_k8s_write, read, begin, finish, EventVertex, EventGraph, init_event_graph,
  vertex, start_timestamp, is_controller_hear, is_controller_write, is_controller_non_k8s_write,
  new_vertex,
}
use sieve.Graph.Build.{
  add_vertex, has_id, add_controller_hear, add_sorted_controller_hears, add_reconciler_event,
  add_reconciler_events, link_events, add_sorted_reconciler_events, connect_hear_to_write,
  add_out_intra_edge, add_out_inter_edge, inter_edge, intra_edge,
}
use sieve.Graph.Shape.{vertex-get_elem?, map-set-same}
use sieve.Graph.EventDiff.{finalize}
use sieve.Graph.EventDiff.Frame.{undiffed, undiffed_vertex, SameButDiffed, finalize-Same}
use sieve.Graph.Sanity.{sanity_check}
use sieve.Analyzer.Pairs.{Pair, generate_hear_write_pairs, connect_pairs}
use sieve.Analyzer.Receive.{parse_receiver_events}
use sieve.Analyzer.Scan.{parse_reconciler_events}
use sieve.Analyzer.Scan.Order.{IsInOrder, parse_reconciler_events-IsInOrder}
use sieve.Analyzer.Build.{build_controller_event_graph}

abbrev content_of : EventVertex → Event
content_of v = v.content

abbrev contents : EventGraph → List Event
contents g = map content_of g.vertices

-- A step that adds events at the end.
abbrev Adds : List Event → EventGraph → EventGraph → Type 0
Adds es g g' = contents g' ≡ contents g ++ es

map-append : {A B : Type 0} (f : A → B) (xs ys : List A) → map f (xs ++ ys) ≡ map f xs ++ map f ys
map-append f [] ys = refl
map-append f (x ∷ xs) ys = ap (λ us. f x ∷ us) (map-append f xs ys)

add_vertex-Adds : (e : Event) (g : EventGraph) → Adds (e ∷ []) g (add_vertex e g)
unfolding add_vertex
add_vertex-Adds e g = map-append content_of g.vertices (new_vertex g.vertex_cnt e ∷ [])

Adds-trans :
    (es fs : List Event) (g g₁ g₂ : EventGraph)
    → Adds es g g₁
    → Adds fs g₁ g₂
    → Adds (es ++ fs) g g₂
Adds-trans es fs g g₁ g₂ p q = q ∙ ap (λ us. us ++ fs) p ∙ append_assoc (contents g) es fs

Adds-nil : (g g' : EventGraph) → contents g' ≡ contents g → Adds [] g g'
Adds-nil g g' p = p ∙ sym (append_nil (contents g))

Adds-bind :
    (es fs : List Event) (g : EventGraph) (m : Result EventGraph)
    (next : EventGraph → Result EventGraph)
    → Ensures (Adds es g) m
    → ((g₁ : EventGraph) → Ensures (Adds fs g₁) (next g₁))
    → Ensures (Adds (es ++ fs) g) (m >>= next)
Adds-bind es fs g m next h k = Ensures-bind (Adds (es ++ fs) g) m next λ g₁ e.
    Ensures-map (Adds fs g₁) (Adds (es ++ fs) g) (next g₁)
      (λ g₂ q. Adds-trans es fs g g₁ g₂ (Ensures-ok (Adds es g) m h e) q) (k g₁)

add_controller_hear-Adds :
    (h : ControllerHear) (g : EventGraph) → Ensures (Adds (hear h ∷ []) g) (add_controller_hear h g)
unfolding add_controller_hear
add_controller_hear-Adds h g =
    Ensures-check (Adds (hear h ∷ []) g) (not (has_id h.id g.controller_hear_id_to_vertices)) _
      λ _. add_vertex-Adds (hear h) g

add_sorted_controller_hears-Adds :
    (hs : List ControllerHear) (g : EventGraph)
    → Ensures (Adds (map hear hs) g) (add_sorted_controller_hears hs g)
unfolding add_sorted_controller_hears
add_sorted_controller_hears-Adds [] g = Adds-nil g g refl
add_sorted_controller_hears-Adds (h ∷ hs) g =
    Adds-bind (hear h ∷ []) (map hear hs) g (add_controller_hear h g) _
      (add_controller_hear-Adds h g) (add_sorted_controller_hears-Adds hs)

add_reconciler_event-Adds :
    (e : Event) (g : EventGraph) → Ensures (Adds (e ∷ []) g) (add_reconciler_event e g)
unfolding add_reconciler_event
add_reconciler_event-Adds (hear h) g = tt
add_reconciler_event-Adds (write w) g = add_vertex-Adds (write w) g
add_reconciler_event-Adds (non_k8s_write w) g = add_vertex-Adds (non_k8s_write w) g
add_reconciler_event-Adds (read r) g = add_vertex-Adds (read r) g
add_reconciler_event-Adds (begin r) g = add_vertex-Adds (begin r) g
add_reconciler_event-Adds (finish r) g = add_vertex-Adds (finish r) g

add_reconciler_events-Adds :
    (es : List Event) (g : EventGraph) → Ensures (Adds es g) (add_reconciler_events es g)
unfolding add_reconciler_events
add_reconciler_events-Adds [] g = Adds-nil g g refl
add_reconciler_events-Adds (e ∷ es) g =
    Adds-bind (e ∷ []) es g (add_reconciler_event e g) _ (add_reconciler_event-Adds e g)
      (add_reconciler_events-Adds es)

abbrev Keeps : EventGraph → EventGraph → Type 0
Keeps g g' = contents g' ≡ contents g

link_events-Keeps : (n i : ℕ) (g : EventGraph) → Ensures (Keeps g) (link_events n i g)
unfolding link_events add_out_intra_edge
link_events-Keeps zero i g = refl
link_events-Keeps (suc n) i g = Ensures-bind (Keeps g) (vertex g i) _ λ v at.
    let v' = add_out_intra_edge (intra_edge i) v in
    let g₁ = record g {
      vertices = set g.vertices i v';
      intra_reconciler_edges = g.intra_reconciler_edges ++ (intra_edge i ∷ []);
    } in
    let same = map-set-same content_of g.vertices i v v' (vertex-get_elem? g i at) refl in
    Ensures-map (Keeps g₁) (Keeps g) (link_events n (i + 1) g₁) (λ g₂ q. q ∙ same)
      (link_events-Keeps n (i + 1) g₁)

add_sorted_reconciler_events-Adds :
    (es : List Event) (g : EventGraph) → Ensures (Adds es g) (add_sorted_reconciler_events es g)
unfolding add_sorted_reconciler_events
add_sorted_reconciler_events-Adds es g =
    Ensures-bind (Adds es g) (add_reconciler_events es g) _ λ g₁ e.
      Ensures-map (Keeps g₁) (Adds es g) (link_events (length es - 1) g.vertex_cnt g₁)
        (λ g₂ q.
          q
          ∙ Ensures-ok (Adds es g) (add_reconciler_events es g) (add_reconciler_events-Adds es g) e)
        (link_events-Keeps (length es - 1) g.vertex_cnt g₁)

connect_hear_to_write-Keeps :
    (source sink : ℕ) (g : EventGraph) → Ensures (Keeps g) (connect_hear_to_write source sink g)
unfolding connect_hear_to_write add_out_inter_edge
connect_hear_to_write-Keeps source sink g = Ensures-bind (Keeps g) (vertex g source) _ λ h at.
    Ensures-bind (Keeps g) (vertex g sink) _ λ w _.
      Ensures-check (Keeps g) (is_controller_hear h.content) _ λ _.
        Ensures-check (Keeps g)
          (is_controller_write w.content || is_controller_non_k8s_write w.content) _
          λ _. Ensures-bind (Keeps g) (start_timestamp h.content) _ λ a _.
            Ensures-bind (Keeps g) (start_timestamp w.content) _ λ b _.
              Ensures-check (Keeps g) (ltb_ℤ a b) _ λ _.
                map-set-same content_of g.vertices source h
                  (add_out_inter_edge (inter_edge source sink) h) (vertex-get_elem? g source at)
                  refl

connect_pairs-Keeps : (ps : List Pair) (g : EventGraph) → Ensures (Keeps g) (connect_pairs ps g)
unfolding connect_pairs
connect_pairs-Keeps [] g = refl
connect_pairs-Keeps ((h, w) ∷ ps) g =
    Ensures-bind (Keeps g) (connect_hear_to_write h.gid w.gid g) _ λ g₁ e.
      let same =
        Ensures-ok (Keeps g) (connect_hear_to_write h.gid w.gid g)
          (connect_hear_to_write-Keeps h.gid w.gid g) e in
      Ensures-map (Keeps g₁) (Keeps g) (connect_pairs ps g₁) (λ g₂ q. q ∙ same)
        (connect_pairs-Keeps ps g₁)

map-undiffed_vertex :
    (vs : List EventVertex)
    → map content_of (map undiffed_vertex vs) ≡ map undiffed (map content_of vs)
map-undiffed_vertex [] = refl
map-undiffed_vertex (v ∷ vs) = ap (λ us. undiffed v.content ∷ us) (map-undiffed_vertex vs)

finalize-undiffed :
    (g g' : EventGraph)
    → SameButDiffed g g'
    → map undiffed (contents g') ≡ map undiffed (contents g)
finalize-undiffed g g' (p, _) =
    sym (map-undiffed_vertex g'.vertices) ∙ ap (map content_of) p ∙ map-undiffed_vertex g.vertices

-- The vertices of a graph hold the hears and then the reconciler's events, each as it was read but
-- for what finalizing the graph computes for it, and the reconciler's events are in order of time.
abbrev pub HasEvents : EventGraph → List ControllerHear → List Event → Type 0
HasEvents g hears events =
    (map undiffed (map (λ v. v.content) g.vertices) ≡ map undiffed (map hear hears ++ events))
    × IsInOrder events

module _ (loads : String → Result Value) (dumps : Option Fields → String)
    (path_match : String → String → Bool) (loosen compress : Bool)
    (learned keys paths : MaskMap) where
  -- If `build_controller_event_graph` returns a graph for a log, then both scans of the log return,
  -- and the vertices of the graph hold the hears and then the reconciler's events that they return,
  -- in their order, each as it was read but for what finalizing the graph computes for it; the
  -- reconciler's events are in strictly increasing order of time.
  pub build_controller_event_graph-HasEvents :
      (lines : List String) (g : EventGraph)
      → build_controller_event_graph loads dumps path_match loosen compress learned keys paths lines
        ≡ ok g
      → (hears : List ControllerHear) × (events : List Event) × (parse_receiver_events loads lines
          ≡ ok hears)
        × (parse_reconciler_events loads loosen compress lines ≡ ok events)
        × HasEvents g hears events
  unfolding build_controller_event_graph init_event_graph
  build_controller_event_graph-HasEvents lines g e =
      let (hears, p₁, e₁) = >>=-eq-ok (parse_receiver_events loads lines) _ e in
      let (events, p₂, e₂) = >>=-eq-ok (parse_reconciler_events loads loosen compress lines) _ e₁ in
      let empty = init_event_graph learned keys paths in
      let (a, p₃, e₃) = >>=-eq-ok (add_sorted_controller_hears hears empty) _ e₂ in
      let (b, p₄, e₄) = >>=-eq-ok (add_sorted_reconciler_events events a) _ e₃ in
      let (pairs, _, e₅) = >>=-eq-ok (generate_hear_write_pairs b) _ e₄ in
      let (c, p₆, e₆) = >>=-eq-ok (connect_pairs pairs b) _ e₅ in
      let (d, p₇, e₇) = >>=-eq-ok (finalize path_match dumps c) _ e₆ in
      let (_, _, e₈) = >>=-eq-ok (sanity_check d) _ e₇ in
      let heard =
        Ensures-ok (Adds (map hear hears) empty) (add_sorted_controller_hears hears empty)
          (add_sorted_controller_hears-Adds hears empty) p₃ in
      let added =
        Ensures-ok (Adds events a) (add_sorted_reconciler_events events a)
          (add_sorted_reconciler_events-Adds events a) p₄ in
      let kept = Ensures-ok (Keeps b) (connect_pairs pairs b) (connect_pairs-Keeps pairs b) p₆ in
      let all = kept ∙ added ∙ ap (λ us. us ++ events) heard in
      let final =
        finalize-undiffed c d (finalize-Same path_match dumps c d p₇) ∙ ap (map undiffed) all in
      (
        hears,
        events,
        p₁,
        p₂,
        (
          subst (λ x. map undiffed (contents x) ≡ map undiffed (map hear hears ++ events))
              (ok_inj e₈) final,
          parse_reconciler_events-IsInOrder loads loosen compress lines events p₂,
        ),
      )
