-- ===== src/Analyzer/Connect.antt =====
-- The pairs that the passes choose can all be connected: no assertion of `connect_hear_to_write`
-- fails on them.
use sieve.Prelude.{
  ℕ, ◌≡◌, refl, sym, subst, Bool, true, false, ◌&&◌, ◌||◌, List, [], ◌∷◌, ◌++◌, some, Option-cases,
  inl, inr, ok, ℤ, ltb_ℤ, All, All-append, get_elem?, arith, contains, if◌then◌else◌,
}
use sieve.Graph.Types.{
  Event, hear, write, non_k8s_write, EventVertex, EventGraph, is_controller_hear,
  is_controller_write, is_controller_non_k8s_write, start_timestamp, vertex,
}
use sieve.Graph.Shape.{IsWellFormed, Listed}
use sieve.Analyzer.Pairs.{
  Pair, vertices_of, in_scope, pairs_of_write, pairs_of_writes, read_overlaps,
  hear_read_overlap_filtering_pass, generate_hear_write_pairs,
}

-- The first event starts before the second.
abbrev pub Before : Event → Event → Type 0
Before h w =
    (a : ℤ) × (b : ℤ) × (start_timestamp h ≡ ok a) × (start_timestamp w ≡ ok b) × (ltb_ℤ a b ≡ true)

abbrev pub is_write : Event → Bool
is_write e = is_controller_write e || is_controller_non_k8s_write e

in_scope_total :
    (w h : Event)
    → is_write w ≡ true
    → is_controller_hear h ≡ true
    → (b : Bool) × (in_scope w h ≡ ok b) × (b ≡ true → Before h w)
unfolding in_scope
in_scope_total (write w) (hear h) p q = elim (Option-cases w.reconcile_id) [
  | inl e ↦ (false, rw e refl, λ t. cc)
  | inr (id, e) ↦ (
    ltb_ℤ w.range_start_timestamp h.end_timestamp && ltb_ℤ h.start_timestamp w.start_timestamp,
    rw e refl,
    λ t. (h.start_timestamp, w.start_timestamp, refl, refl, ground arith),
  )
]
in_scope_total (non_k8s_write w) (hear h) p q = elim (Option-cases w.reconcile_id) [
  | inl e ↦ (false, rw e refl, λ t. cc)
  | inr (id, e) ↦ (
    ltb_ℤ w.range_start_timestamp h.end_timestamp && ltb_ℤ h.start_timestamp w.start_timestamp,
    rw e refl,
    λ t. (h.start_timestamp, w.start_timestamp, refl, refl, ground arith),
  )
]
in_scope_total w h p q = cc

module _ (g : EventGraph) where
  -- A vertex of the store, whose content passes a test.
  abbrev pub Fetched : (Event → Bool) → EventVertex → Type 0
  Fetched test v = (get_elem? g.vertices v.gid ≡ some v) × (test v.content ≡ true)

  vertices_of_total :
      (test : Event → Bool) (gids : List ℕ)
      → All (Listed test g.vertices) gids
      → (vs : List EventVertex) × (vertices_of g gids ≡ ok vs) × All (Fetched test) vs
  unfolding vertices_of vertex
  vertices_of_total test [] h = ([], refl, tt)
  vertices_of_total test (gid ∷ gids) ((v, e, own, t), h) =
      let (vs, f, k) = vertices_of_total test gids h in
      (v ∷ vs, rw (e, f) refl, ((subst (λ i. get_elem? g.vertices i ≡ some v) (sym own) e, t), k))

  -- What a pair must satisfy for the assertions to hold.
  abbrev pub Chosen : Pair → Type 0
  Chosen (h, w) = Fetched is_controller_hear h × Fetched is_write w × Before h.content w.content

  pairs_of_write_total :
      (w : EventVertex) (hs : List EventVertex)
      → Fetched is_write w
      → All (Fetched is_controller_hear) hs
      → (ps : List Pair) × (pairs_of_write w hs ≡ ok ps) × All Chosen ps
  unfolding pairs_of_write
  pairs_of_write_total w [] fw fh = ([], refl, tt)
  pairs_of_write_total w (h ∷ hs) fw (fh, fhs) =
      let (b, e, before) = in_scope_total w.content h.content fw.1 fh.1 in
      let (ps, f, k) = pairs_of_write_total w hs fw fhs in
      (if b then (h, w) ∷ ps else ps, rw (e, f) refl, chosen b ps before k)
    where
      chosen :
          (b : Bool) (ps : List Pair)
          → (b ≡ true → Before h.content w.content)
          → All Chosen ps
          → All Chosen (if b then (h, w) ∷ ps else ps)
      chosen true ps before k = ((fh, fw, before refl), k)
      chosen false ps before k = k

  pairs_of_writes_total :
      (hs ws : List EventVertex)
      → All (Fetched is_controller_hear) hs
      → All (Fetched is_write) ws
      → (ps : List Pair) × (pairs_of_writes hs ws ≡ ok ps) × All Chosen ps
  unfolding pairs_of_writes
  pairs_of_writes_total hs [] fh fw = ([], refl, tt)
  pairs_of_writes_total hs (w ∷ ws) fh (fw, fws) =
      let (ps, e, k) = pairs_of_write_total w hs fw fh in
      let (qs, f, l) = pairs_of_writes_total hs ws fh fws in
      (ps ++ qs, rw (e, f) refl, All-append Chosen ps qs k l)

  read_overlaps_total :
      (h w : Event) → is_controller_hear h ≡ true → (b : Bool) × (read_overlaps h w ≡ ok b)
  unfolding read_overlaps
  read_overlaps_total (hear h) (write w) t =
      (contains h.key w.read_keys || contains h.rtype w.read_types, refl)
  read_overlaps_total (hear h) w t = (true, refl)
  read_overlaps_total h w t = cc

  filtered_total :
      (ps : List Pair)
      → All Chosen ps
      → (qs : List Pair) × (hear_read_overlap_filtering_pass ps ≡ ok qs) × All Chosen qs
  unfolding hear_read_overlap_filtering_pass
  filtered_total [] c = ([], refl, tt)
  filtered_total ((h, w) ∷ ps) (c, cs) =
      let (b, e) = read_overlaps_total h.content w.content c.0.1 in
      let (qs, f, k) = filtered_total ps cs in
      (if b then (h, w) ∷ qs else qs, rw (e, f) refl, kept b qs k)
    where
      kept :
          (b : Bool) (qs : List Pair) → All Chosen qs → All Chosen (if b then (h, w) ∷ qs else qs)
      kept true qs k = (c, k)
      kept false qs k = k

  Fetched-or :
      (test other : Event → Bool) (vs : List EventVertex)
      → ((e : Event) → test e ≡ true → other e ≡ true)
      → All (Fetched test) vs
      → All (Fetched other) vs
  Fetched-or test other [] h k = tt
  Fetched-or test other (v ∷ vs) h ((e, t), k) = ((e, h v.content t), Fetched-or test other vs h k)

write-is_write : (e : Event) → is_controller_write e ≡ true → is_write e ≡ true
write-is_write (write w) h = refl
write-is_write e h = cc

non_k8s_write-is_write : (e : Event) → is_controller_non_k8s_write e ≡ true → is_write e ≡ true
non_k8s_write-is_write (non_k8s_write w) h = refl
non_k8s_write-is_write e h = cc

-- On a well-formed graph the passes return, and every pair that they choose can be connected.
pub generate_hear_write_pairs_total :
    (g : EventGraph)
    → IsWellFormed g
    → (ps : List Pair) × (generate_hear_write_pairs g ≡ ok ps) × All (Chosen g) ps
unfolding generate_hear_write_pairs
generate_hear_write_pairs_total g w =
    let (hs, eh, fh) = vertices_of_total g is_controller_hear _ w.hears in
    let (ws, ew, fw) = vertices_of_total g is_controller_write _ w.writes in
    let (ns, en, fn) = vertices_of_total g is_controller_non_k8s_write _ w.non_k8s_writes in
    let (ps, ep, cp) = pairs_of_writes_total g hs (ws ++ ns) fh (
      All-append (Fetched g is_write) ws ns
        (Fetched-or g is_controller_write is_write ws write-is_write fw)
        (Fetched-or g is_controller_non_k8s_write is_write ns non_k8s_write-is_write fn)) in
    let (qs, eq, cq) = filtered_total g ps cp in (qs, rw (eh, ew, en, ep) eq, cq)
