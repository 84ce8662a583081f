-- ===== src/Analyzer/Edges.antt =====
-- `build_controller_event_graph` connects every pair that its passes choose.
use mathlib.Core.List.{append-nil, append_assoc}
use sieve.Prelude.{
  ℕ, ◌≡◌, refl, sym, ap, ◌∙◌, subst, true, ◌⊎◌, inl, inr, List, [], ◌∷◌, ◌++◌, some, ok, All,
  get_elem?, set,
}
use sieve.Graph.Types.{Event, EventEdge, EventVertex, EventGraph, is_controller_hear, vertex}
use sieve.Graph.Build.{connect_hear_to_write, add_out_inter_edge, inter_edge}
use sieve.Graph.Shape.{IsWellFormed, HasShape-set, get_elem?-set}
use sieve.Analyzer.Pairs.{Pair, generate_hear_write_pairs, connect_pairs}
use sieve.Analyzer.Connect.{Before, is_write, Chosen, generate_hear_write_pairs_total}

-- The graph after one more edge.
abbrev connected : EventGraph → ℕ → ℕ → EventVertex → EventGraph
connected g source sink h = record g {
  vertices = set g.vertices source (add_out_inter_edge (inter_edge source sink) h);
  controller_hear_controller_write_edges =
      g.controller_hear_controller_write_edges ++ (inter_edge source sink ∷ []);
}

connect_hear_to_write_at :
    (g : EventGraph) (source sink : ℕ) (h w : EventVertex)
    → get_elem? g.vertices source ≡ some h
    → get_elem? g.vertices sink ≡ some w
    → is_controller_hear h.content ≡ true
    → is_write w.content ≡ true
    → Before h.content w.content
    → connect_hear_to_write source sink g ≡ ok (connected g source sink h)
unfolding connect_hear_to_write vertex
connect_hear_to_write_at g source sink h w eh ew ih iw (a, b, sa, sb, lt) =
    rw (eh, ew, ih, iw, sa, sb, lt) refl

-- A vertex of the store with this content.
abbrev Holds : List EventVertex → ℕ → Event → Type 0
Holds vs gid content = (v : EventVertex) × (get_elem? vs gid ≡ some v) × (v.content ≡ content)

Holds-set :
    (vs : List EventVertex) (i gid : ℕ) (v v' : EventVertex) (content : Event)
    → get_elem? vs i ≡ some v
    → v'.content ≡ v.content
    → Holds vs gid content
    → Holds (set vs i v') gid content
Holds-set vs i gid v v' content at same (u, e, c) = pick (get_elem?-set vs i gid v' at e)
  where
    pick :
        (z : EventVertex) × (get_elem? (set vs i v') gid ≡ some z)
          × ((z ≡ u) ⊎ ((z ≡ v') × (u ≡ v)))
        → Holds (set vs i v') gid content
    pick (z, f, inl s) = (z, f, ap (λ x. x.content) s ∙ c)
    pick (z, f, inr (new, old)) =
        (z, f, ap (λ x. x.content) new ∙ same ∙ sym (ap (λ x. x.content) old) ∙ c)

-- What a pair needs of a store whose vertices may have got more edges.
abbrev CanConnect : List EventVertex → Pair → Type 0
CanConnect vs (h, w) =
    Holds vs h.gid h.content
    × Holds vs w.gid w.content
    × (is_controller_hear h.content ≡ true)
    × (is_write w.content ≡ true)
    × Before h.content w.content

CanConnect-set :
    (vs : List EventVertex) (i : ℕ) (v v' : EventVertex) (ps : List Pair)
    → get_elem? vs i ≡ some v
    → v'.content ≡ v.content
    → All (CanConnect vs) ps
    → All (CanConnect (set vs i v')) ps
CanConnect-set vs i v v' [] at same k = tt
CanConnect-set vs i v v' ((h, w) ∷ ps) at same ((a, b, c, d, e), k) = (
  (
    Holds-set vs i h.gid v v' h.content at same a,
    Holds-set vs i w.gid v v' w.content at same b,
    c,
    d,
    e,
  ),
  CanConnect-set vs i v v' ps at same k,
)

CanConnect-Chosen :
    (g : EventGraph) (ps : List Pair) → All (Chosen g) ps → All (CanConnect g.vertices) ps
CanConnect-Chosen g [] k = tt
CanConnect-Chosen g ((h, w) ∷ ps) ((fh, fw, before), k) =
    (((h, fh.0, refl), (w, fw.0, refl), fh.1, fw.1, before), CanConnect-Chosen g ps k)

-- The edges of a list of pairs.
abbrev pub edges_of : List Pair → List EventEdge
edges_of [] = []
edges_of ((h, w) ∷ ps) = inter_edge h.gid w.gid ∷ edges_of ps

-- The graph is well formed, and its edges from hears to writes are those of before and those of the
-- pairs.
abbrev pub Connected : List Pair → EventGraph → EventGraph → Type 0
Connected ps g g' =
    IsWellFormed g'
    × (g'.controller_hear_controller_write_edges
        ≡ g.controller_hear_controller_write_edges ++ edges_of ps)

connect_pairs_total :
    (ps : List Pair) (g : EventGraph)
    → IsWellFormed g
    → All (CanConnect g.vertices) ps
    → (g' : EventGraph) × (connect_pairs ps g ≡ ok g') × Connected ps g g'
unfolding connect_pairs
connect_pairs_total [] g w k = (g, refl, (w, sym (append-nil _)))
connect_pairs_total ((h, w) ∷ ps) g wf (((hv, eh, ch), (wv, ew, cw), ih, iw, before), k) =
    let step =
      connect_hear_to_write_at g h.gid w.gid hv wv eh ew (ap is_controller_hear ch ∙ ih)
        (ap is_write cw ∙ iw)
        (subst (λ x. Before x wv.content) (sym ch)
          (subst (λ x. Before h.content x) (sym cw) before)) in
    let (g', e, c) =
      connect_pairs_total ps (connected g h.gid w.gid hv)
        (unfold add_out_inter_edge in HasShape-set h.gid hv _ eh refl refl wf)
        (unfold add_out_inter_edge in CanConnect-set g.vertices h.gid hv _ ps eh refl k) in
    (g', rw step e, (c.0, c.1 ∙ append_assoc _ (inter_edge h.gid w.gid ∷ []) (edges_of ps)))

-- On a well-formed graph `generate_hear_write_pairs` returns, and connecting all the pairs that it
-- returns succeeds: it leaves a well-formed graph with one edge for each pair, in their order, after
-- the edges that the graph had.
pub connect_pairs-generate_hear_write_pairs :
    (g : EventGraph)
    → IsWellFormed g
    → (ps : List Pair) × (g' : EventGraph) × (generate_hear_write_pairs g ≡ ok ps)
      × (connect_pairs ps g ≡ ok g')
      × Connected ps g g'
connect_pairs-generate_hear_write_pairs g w =
    let (ps, e, k) = generate_hear_write_pairs_total g w in
    let (g', f, c) = connect_pairs_total ps g w (CanConnect-Chosen g ps k) in (ps, g', e, f, c)
