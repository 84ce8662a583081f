-- ===== src/Policy/Ends.antt =====
-- The walk of `decide_stale_state_timing` ends, and how it ends where the reconciler's events do.
use sieve.Prelude.{
  ℕ, zero, suc, ◌+◌, ◌≤◌, ◌<◌, String, ◌==◌, ◌≡◌, refl, sym, ◌∙◌, subst, Bool, true, false, ◌⊎◌,
  inl, inr, List, [], ◌∷◌, Option, none, some, Result, ok, err, assertion_error, attribute_error,
  ◌&&◌, get_elem?, length, nat_eq, arith, if◌then◌else◌,
}
use sieve.Json.{Fields}
use sieve.Delta.Diff.{same_key}
use sieve.Event.WriteTypes
use sieve.Event.Records.{ControllerHear, ControllerWrite}
use sieve.Graph.Types.{
  Event, hear, write, non_k8s_write, read, begin, finish, EventEdge, EventVertex, EventGraph,
  vertex,
}
use sieve.Graph.Forward.{IsForward, IsForward-at, Later}
use sieve.Graph.Shape.{vertex-get_elem?}
use sieve.Policy.Timing.{
  Verdict, decided, go_on, judge, at_end, walk, walk_unless, decide, timing_of,
  decide_stale_state_timing,
}

-- One of the three timings that the caller knows, or an exception.
abbrev pub IsTiming : Result String → Type 0
IsTiming (ok timing) = (timing ≡ "after") ⊎ (timing ≡ "before") ⊎ (timing ≡ "both")
IsTiming (err e) = Unit

abbrev pub Ends : Option (Result String) → Type 0
Ends o = (r : Result String) × (o ≡ some r) × IsTiming r

at_end-IsTiming : (v : EventVertex) → IsTiming (at_end v)
at_end-IsTiming v = go (nat_eq (length v.out_intra_reconciler_edges) 0)
  where
    go : (b : Bool) → IsTiming (if b then ok "after" else err assertion_error)
    go true = inl refl
    go false = tt

abbrev Judged : Verdict → Type 0
Judged (decided timing) = IsTiming (ok timing)
Judged (go_on n) = Unit

judge-Judged : (w : ControllerWrite) (e : Event) (n : ℕ) → Judged (judge w e n)
unfolding judge
judge-Judged w (finish r) n = go (nat_eq (n + 1) 2)
  where
    go : (b : Bool) → Judged (if b then decided "after" else go_on (n + 1))
    go true = inl refl
    go false = tt
judge-Judged w (write x) n = go (x.etype == WriteTypes.create && x.key == w.key) (nat_eq n 0)
  where
    go :
        (b c : Bool)
        → Judged (if b then (if c then decided "before" else decided "both") else go_on n)
    go true true = inr (inl refl)
    go true false = inr (inr refl)
    go false c = tt
judge-Judged w (hear x) n = tt
judge-Judged w (non_k8s_write x) n = tt
judge-Judged w (read x) n = tt
judge-Judged w (begin x) n = tt

get_elem?-bound :
    {A : Type 0} (xs : List A) (i : ℕ) {x : A} → get_elem? xs i ≡ some x → i < length xs
get_elem?-bound [] i e = cc
get_elem?-bound (x ∷ xs) zero e = omega arith
get_elem?-bound (x ∷ xs) (suc i) e = omega (arith, get_elem?-bound xs i e)

module _ (g : EventGraph) (sink : EventVertex) (w : ControllerWrite) where
  -- A round of the walk, where what follows ends.
  round :
      (r : Result EventVertex) (n fuel : ℕ)
      → ((v : EventVertex)
          → r ≡ ok v
          → (k : ℕ) → Ends (walk fuel g sink w v.out_intra_reconciler_edges k))
      → Ends (elim r [
        | err x ↦ some (err x)
        | ok next ↦ (elim (judge w next.content n) [
          | decided timing ↦ some (ok timing)
          | go_on k ↦ walk fuel g sink w next.out_intra_reconciler_edges k
        ])
      ])
  round (err x) n fuel h = (err x, refl, tt)
  round (ok v) n fuel h = go (judge w v.content n) (judge-Judged w v.content n)
    where
      go :
          (j : Verdict)
          → Judged j
          → Ends (elim j [
            | decided timing ↦ some (ok timing)
            | go_on k ↦ walk fuel g sink w v.out_intra_reconciler_edges k
          ])
      go (decided timing) t = (ok timing, refl, t)
      go (go_on k) t = h v refl k

  walk-Ends :
      IsForward g
      → (fuel i : ℕ) (es : List EventEdge) (n : ℕ) → Later i es
      → length g.vertices ≤ fuel + i
      → Ends (walk (suc fuel) g sink w es n)
  unfolding walk
  walk-Ends f fuel i [] n l b = (at_end sink, refl, at_end-IsTiming sink)
  walk-Ends f fuel i (e ∷ e' ∷ es) n l b = (at_end sink, refl, at_end-IsTiming sink)
  walk-Ends f zero i (e ∷ []) n (l, _) b = round (vertex g e.sink) n zero λ v h k.
      let at = get_elem?-bound g.vertices e.sink (vertex-get_elem? g e.sink h) in ground arith
  walk-Ends f (suc fuel) i (e ∷ []) n (l, _) b = round (vertex g e.sink) n (suc fuel) λ v h k.
      walk-Ends f fuel e.sink v.out_intra_reconciler_edges k
        (IsForward-at g e.sink f (vertex-get_elem? g e.sink h)) (omega arith)

decide-Ends :
    (prev cur : Option Fields) (o : Option (Result String)) → Ends o → Ends (decide prev cur o)
decide-Ends none cur o h = (ok "after", refl, inl refl)
decide-Ends (some p) none o h = (err attribute_error, refl, tt)
decide-Ends (some p) (some c) o h = go (if same_key p c then false else true)
  where
    go : (b : Bool) → Ends (walk_unless b o)
    go true = (ok "after", refl, inl refl)
    go false = h

timing_of-Ends :
    (fuel : ℕ) (g : EventGraph) (sink : EventVertex) (es : List EventEdge) (s t : Event)
    → ((w : ControllerWrite) → Ends (walk fuel g sink w es 0))
    → Ends (timing_of fuel g sink es s t)
timing_of-Ends fuel g sink es (hear h) (write w) k = go (w.etype == WriteTypes.delete)
  where
    go :
        (b : Bool)
        → Ends (
            if b
            then decide h.slim_prev_obj_map h.slim_cur_obj_map (walk fuel g sink w es 0)
            else some (err assertion_error))
    go true = decide-Ends h.slim_prev_obj_map h.slim_cur_obj_map _ (k w)
    go false = (err assertion_error, refl, tt)
timing_of-Ends fuel g sink es (hear h) (hear x) k = (err assertion_error, refl, tt)
timing_of-Ends fuel g sink es (hear h) (non_k8s_write x) k = (err assertion_error, refl, tt)
timing_of-Ends fuel g sink es (hear h) (read x) k = (err assertion_error, refl, tt)
timing_of-Ends fuel g sink es (hear h) (begin x) k = (err assertion_error, refl, tt)
timing_of-Ends fuel g sink es (hear h) (finish x) k = (err assertion_error, refl, tt)
timing_of-Ends fuel g sink es (write x) t k = (err assertion_error, refl, tt)
timing_of-Ends fuel g sink es (non_k8s_write x) t k = (err assertion_error, refl, tt)
timing_of-Ends fuel g sink es (read x) t k = (err assertion_error, refl, tt)
timing_of-Ends fuel g sink es (begin x) t k = (err assertion_error, refl, tt)
timing_of-Ends fuel g sink es (finish x) t k = (err assertion_error, refl, tt)

-- In a graph whose intra-reconciler edges lead to later vertices, the timing of a pair whose write
-- is a vertex of the graph is decided with fuel of one more than the number of vertices: the
-- loop ends, with "after", "before" or "both", or with an exception.
pub decide_stale_state_timing-Ends :
    (g : EventGraph) (source sink : EventVertex) (i : ℕ)
    → IsForward g
    → get_elem? g.vertices i ≡ some sink
    → Ends (decide_stale_state_timing (length g.vertices + 1) g source sink)
unfolding decide_stale_state_timing
decide_stale_state_timing-Ends g source sink i f at =
    timing_of-Ends (length g.vertices + 1) g sink sink.out_intra_reconciler_edges source.content
      sink.content
      λ w.
        let more : length g.vertices + 1 ≡ suc (length g.vertices) = omega arith in
        subst (λ n. Ends (walk n g sink w sink.out_intra_reconciler_edges 0)) (sym more)
          (walk-Ends g sink w f (length g.vertices) i sink.out_intra_reconciler_edges 0
            (IsForward-at g i f at) (omega arith))

timing_of-walk :
    (fuel : ℕ) (g : EventGraph) (sink : EventVertex) (es : List EventEdge) (h : ControllerHear)
    (w : ControllerWrite) (prev cur : Fields)
    → w.etype ≡ WriteTypes.delete
    → h.slim_prev_obj_map ≡ some prev
    → h.slim_cur_obj_map ≡ some cur
    → same_key prev cur ≡ true
    → timing_of fuel g sink es (hear h) (write w) ≡ walk fuel g sink w es 0
timing_of-walk fuel g sink es h w prev cur d p c k = simp (d, p, c, k) refl

walk-end_of_chain :
    (fuel : ℕ) (g : EventGraph) (sink next : EventVertex) (w : ControllerWrite) (e : EventEdge)
    (n : ℕ)
    → sink.out_intra_reconciler_edges ≡ e ∷ []
    → vertex g e.sink ≡ ok next
    → judge w next.content 0 ≡ go_on n
    → next.out_intra_reconciler_edges ≡ []
    → walk (suc (suc fuel)) g sink w (e ∷ []) 0 ≡ some (err assertion_error)
unfolding walk
walk-end_of_chain fuel g sink next w e n l v j o = simp (walk, v, j, o, l) refl

-- Where the events of the reconciler end right after the write, on an event that decides nothing,
-- and the keys of the difference of the hear are the same, the timing of a deletion is not "after":
-- the assertion at the end of the loop fails, since the test for the end is on the sink's edges.
pub decide_stale_state_timing-end_of_chain :
    (fuel : ℕ) (g : EventGraph) (source sink next : EventVertex) (h : ControllerHear)
    (w : ControllerWrite) (e : EventEdge) (prev cur : Fields) (n : ℕ)
    → source.content ≡ hear h
    → sink.content ≡ write w
    → w.etype ≡ WriteTypes.delete
    → h.slim_prev_obj_map ≡ some prev
    → h.slim_cur_obj_map ≡ some cur
    → same_key prev cur ≡ true
    → sink.out_intra_reconciler_edges ≡ e ∷ []
    → vertex g e.sink ≡ ok next
    → judge w next.content 0 ≡ go_on n
    → next.out_intra_reconciler_edges ≡ []
    → decide_stale_state_timing (suc (suc fuel)) g source sink ≡ some (err assertion_error)
unfolding decide_stale_state_timing
decide_stale_state_timing-end_of_chain fuel g source sink next h w e prev cur n s t d p c k l v j
      o =
    simp (s, t, l)
      (timing_of-walk (suc (suc fuel)) g sink (e ∷ []) h w prev cur d p c k
        ∙ walk-end_of_chain fuel g sink next w e n l v j o)
