-- ===== src/Graph/Shape.antt =====
-- The invariant of a graph: gids are positions in the store, and each list holds gids of vertices of
-- its kind. What appending a vertex and replacing one do to it.
use sieve.Prelude.{
  ℕ, zero, suc, map, Option, ◌≡◌, refl, sym, ap, ◌∙◌, Bool, true, List, [], ◌∷◌, ◌++◌, some, ok,
  key_error, All, All-append, get_elem?, length, length-set, set, from_option-ok, ◌⊎◌, inl, inr,
}
use sieve.Graph.Types.{
  Event, EventVertex, EventGraph, is_controller_hear, is_controller_write,
  is_controller_non_k8s_write, is_controller_read, is_reconcile_begin, is_reconcile_end, vertex,
}

-- The vertex at a position, with its own gid and a content that passes a test.
abbrev pub Listed : (Event → Bool) → List EventVertex → ℕ → Type 0
Listed test vs gid =
    (v : EventVertex) × (get_elem? vs gid ≡ some v) × (v.gid ≡ gid) × (test v.content ≡ true)

pub record HasShape (cnt : ℕ) (vs : List EventVertex) (hs ws ns rs bs es : List ℕ) : Type 0 where
  pub counted : cnt ≡ length vs
  pub hears : All (Listed is_controller_hear vs) hs
  pub writes : All (Listed is_controller_write vs) ws
  pub non_k8s_writes : All (Listed is_controller_non_k8s_write vs) ns
  pub reads : All (Listed is_controller_read vs) rs
  pub begins : All (Listed is_reconcile_begin vs) bs
  pub ends : All (Listed is_reconcile_end vs) es

-- The edges play no part in it.
abbrev pub IsWellFormed : EventGraph → Type 0
IsWellFormed g =
    HasShape g.vertex_cnt g.vertices g.controller_hear_vertices g.controller_write_vertices
      g.controller_non_k8s_write_vertices g.controller_read_vertices g.reconcile_begin_vertices
      g.reconcile_end_vertices

-- A list of gids as it stands after one more vertex.
get_elem?-append :
    {A : Type 0} (xs ys : List A) (i : ℕ) {x : A}
    → get_elem? xs i ≡ some x
    → get_elem? (xs ++ ys) i ≡ some x
get_elem?-append [] ys i h = cc
get_elem?-append (x ∷ xs) ys zero h = h
get_elem?-append (x ∷ xs) ys (suc i) h = get_elem?-append xs ys i h

get_elem?-last :
    {A : Type 0} (xs : List A) (x : A) → get_elem? (xs ++ (x ∷ [])) (length xs) ≡ some x
get_elem?-last [] x = refl
get_elem?-last (y ∷ xs) x = get_elem?-last xs x

module _ (test : Event → Bool) (vs : List EventVertex) (v : EventVertex) where
  pub Listed-append :
      (gids : List ℕ) → All (Listed test vs) gids → All (Listed test (vs ++ (v ∷ []))) gids
  Listed-append [] h = tt
  Listed-append (gid ∷ gids) (l, h) =
      ((l.0, get_elem?-append vs (v ∷ []) gid l.1, l.2, l.3), Listed-append gids h)

  pub Listed-new :
      (gids : List ℕ) (gid : ℕ)
      → gid ≡ length vs
      → v.gid ≡ gid
      → test v.content ≡ true
      → All (Listed test vs) gids
      → All (Listed test (vs ++ (v ∷ []))) (gids ++ (gid ∷ []))
  Listed-new gids gid e same t h =
      All-append _ gids (gid ∷ []) (Listed-append gids h)
        ((v, rw e (get_elem?-last vs v), same, t), tt)

pub get_elem?-set :
    {A : Type 0} (xs : List A) (i j : ℕ) (x' : A) {x y : A}
    → get_elem? xs i ≡ some x
    → get_elem? xs j ≡ some y
    → (z : A) × (get_elem? (set xs i x') j ≡ some z) × ((z ≡ y) ⊎ ((z ≡ x') × (y ≡ x)))
get_elem?-set [] i j x' e f = cc
get_elem?-set (w ∷ ws) zero zero x' e f = (x', refl, inr (refl, cc))
get_elem?-set (w ∷ ws) zero (suc j) x' {x = x} {y = y} e f = (y, f, inl refl)
get_elem?-set (w ∷ ws) (suc i) zero x' e f = (w, refl, inl cc)
get_elem?-set (w ∷ ws) (suc i) (suc j) x' e f = get_elem?-set ws i j x' e f

-- A vertex replaced by one with its gid and content.
Listed-set :
    (test : Event → Bool) (vs : List EventVertex) (i : ℕ) (v v' : EventVertex) (gid : ℕ)
    → get_elem? vs i ≡ some v
    → v'.gid ≡ v.gid
    → v'.content ≡ v.content
    → Listed test vs gid
    → Listed test (set vs i v') gid
Listed-set test vs i v v' gid at same_gid same_content (u, e, own, t) =
    pick (get_elem?-set vs i gid v' at e)
  where
    pick :
        (z : EventVertex) × (get_elem? (set vs i v') gid ≡ some z)
          × ((z ≡ u) ⊎ ((z ≡ v') × (u ≡ v)))
        → Listed test (set vs i v') gid
    pick (z, f, inl same) = (z, f, ap (λ x. x.gid) same ∙ own, ap (λ x. test x.content) same ∙ t)
    pick (z, f, inr (new, old)) = (
      z,
      f,
      ap (λ x. x.gid) new ∙ same_gid ∙ sym (ap (λ x. x.gid) old) ∙ own,
      ap (λ x. test x.content) new ∙ ap test same_content ∙ sym (ap (λ x. test x.content) old) ∙ t,
    )

All-Listed-set :
    (test : Event → Bool) (vs : List EventVertex) (i : ℕ) (v v' : EventVertex) (gids : List ℕ)
    → get_elem? vs i ≡ some v
    → v'.gid ≡ v.gid
    → v'.content ≡ v.content
    → All (Listed test vs) gids
    → All (Listed test (set vs i v')) gids
All-Listed-set test vs i v v' [] at g c h = tt
All-Listed-set test vs i v v' (gid ∷ gids) at g c (l, h) =
    (Listed-set test vs i v v' gid at g c l, All-Listed-set test vs i v v' gids at g c h)

-- Replacing a vertex by one with more edges keeps the shape.
pub HasShape-set :
    {cnt : ℕ} {vs : List EventVertex} {hs ws ns rs bs es : List ℕ} (i : ℕ) (v v' : EventVertex)
    → get_elem? vs i ≡ some v
    → v'.gid ≡ v.gid
    → v'.content ≡ v.content
    → HasShape cnt vs hs ws ns rs bs es
    → HasShape cnt (set vs i v') hs ws ns rs bs es
HasShape-set {vs = vs} i v v' at g c w = record {
  counted = w.counted ∙ sym (length-set vs i v');
  hears = All-Listed-set is_controller_hear vs i v v' _ at g c w.hears;
  writes = All-Listed-set is_controller_write vs i v v' _ at g c w.writes;
  non_k8s_writes = All-Listed-set is_controller_non_k8s_write vs i v v' _ at g c w.non_k8s_writes;
  reads = All-Listed-set is_controller_read vs i v v' _ at g c w.reads;
  begins = All-Listed-set is_reconcile_begin vs i v v' _ at g c w.begins;
  ends = All-Listed-set is_reconcile_end vs i v v' _ at g c w.ends;
}

-- What `vertex` returns stands in the store.
pub vertex-get_elem? :
    (g : EventGraph) (i : ℕ) {v : EventVertex} → vertex g i ≡ ok v → get_elem? g.vertices i ≡ some v
unfolding vertex
vertex-get_elem? g i h = from_option-ok key_error (get_elem? g.vertices i) h

option_inj : {A : Type 0} {a b : A} → ◌≡◌ {A = Option A} (some a) (some b) → a ≡ b
option_inj e = cc

-- A part of every vertex that replacing one keeps.
pub map-set-same :
    {A : Type 0} (f : EventVertex → A) (vs : List EventVertex) (i : ℕ) (v v' : EventVertex)
    → get_elem? vs i ≡ some v
    → f v' ≡ f v
    → map f (set vs i v') ≡ map f vs
map-set-same f [] i v v' at same = refl
map-set-same f (x ∷ vs) zero v v' at same =
    ap (λ u. u ∷ map f vs) (same ∙ ap f (sym (option_inj at)))
map-set-same f (x ∷ vs) (suc i) v v' at same =
    ap (λ us. f x ∷ us) (map-set-same f vs i v v' at same)
