-- ===== src/Graph/EventDiff/Frame.antt =====
-- What `compute_event_diff` and `finalize` leave as it is.
use sieve.Prelude.{
  ℕ, err, String, ◌<>◌, ◌≡◌, refl, sym, ap, ◌∙◌, List, [], ◌∷◌, map, Option, none, Result, ok,
  ◌>>=◌, Ensures, Ensures-ok, Ensures-bind, Ensures-map, ok_inj, Bool,
}
use sieve.Prelude.Dict.{Dict}
use sieve.Json.{Fields}
use sieve.Event.Types.{event_none_type}
use sieve.Json.{end}
use sieve.Event.Records.{ControllerHear, ControllerWrite, ControllerNonK8sWrite}
use sieve.Graph.Types.{
  Event, hear, write, non_k8s_write, read, begin, finish, EventVertex, EventGraph, vertex,
}
use sieve.Graph.Cancel.{
  hear_content, retrieve_masked, compute_event_cancel, forget_cancel, SameButCancelled,
  compute_event_cancel-Same,
}
use sieve.Graph.Shape.{vertex-get_elem?, map-set-same}
use sieve.Graph.EventDiff.{
  write_content, non_k8s_content, replace_content, diff_hear, diff_hears, diff_hear_keys,
  diff_write, diff_writes, diff_write_keys, count_calls, compute_event_diff, finalize, read_before,
  reads_of, count_signature,
}

-- An event without what the loops compute.
abbrev undiffed_hear : ControllerHear → ControllerHear
undiffed_hear h = record h {
  slim_prev_obj_map = none;
  slim_cur_obj_map = none;
  prev_etype = event_none_type;
  cancelled_by = [];
  signature_counter = 1;
}

abbrev undiffed_write : ControllerWrite → ControllerWrite
undiffed_write w = record w {
  prev_obj_map = none;
  slim_prev_obj_map = none;
  slim_cur_obj_map = none;
  prev_etype = event_none_type;
  signature_counter = 1;
}

abbrev pub undiffed : Event → Event
undiffed (hear h) = hear (undiffed_hear h)
undiffed (write w) = write (undiffed_write w)
undiffed (non_k8s_write w) = non_k8s_write (record w { signature_counter = 1 })
undiffed e = e

abbrev pub undiffed_vertex : EventVertex → EventVertex
undiffed_vertex v = record v { content = undiffed v.content }

-- The two graphs differ only in the differences, counters and cancelled ids of their events.
abbrev pub SameButDiffed : EventGraph → EventGraph → Type 0
SameButDiffed g g' =
    (map undiffed_vertex g'.vertices ≡ map undiffed_vertex g.vertices)
    × (record g' { vertices = [] } ≡ record g { vertices = [] })

SameButDiffed-trans :
    (g g₁ g₂ : EventGraph) → SameButDiffed g g₁ → SameButDiffed g₁ g₂ → SameButDiffed g g₂
SameButDiffed-trans g g₁ g₂ (p, q) (r, s) = (r ∙ p, s ∙ q)

replace_content-Same :
    (g : EventGraph) (gid : ℕ) (v : EventVertex) (e : Event)
    → vertex g gid ≡ ok v
    → undiffed e ≡ undiffed v.content
    → SameButDiffed g (replace_content gid v e g)
replace_content-Same g gid v e at same = (
  map-set-same undiffed_vertex g.vertices gid v (record v { content = e })
      (vertex-get_elem? g gid at) (ap (λ x. record v { content = x }) same),
  refl,
)

-- A step of a loop that replaces the content of a vertex, and the rest of the loop.
module _ (g : EventGraph) (gid : ℕ) (v : EventVertex) (e : Event) where
  Same-then :
      (rest : Result EventGraph)
      → vertex g gid ≡ ok v
      → undiffed e ≡ undiffed v.content
      → Ensures (SameButDiffed (replace_content gid v e g)) rest
      → Ensures (SameButDiffed g) rest
  Same-then rest at same =
      Ensures-map (SameButDiffed (replace_content gid v e g)) (SameButDiffed g) rest (λ g₂ later.
        SameButDiffed-trans g (replace_content gid v e g) g₂
          (replace_content-Same g gid v e at same) later)

hear_content-eq : (e : Event) (h : ControllerHear) → hear_content e ≡ ok h → e ≡ hear h
hear_content-eq (hear x) h q = ap hear (ok_inj q)
hear_content-eq (write w) h q = cc
hear_content-eq (non_k8s_write w) h q = cc
hear_content-eq (read r) h q = cc
hear_content-eq (begin r) h q = cc
hear_content-eq (finish r) h q = cc

write_content-eq : (e : Event) (w : ControllerWrite) → write_content e ≡ ok w → e ≡ write w
write_content-eq (hear x) h q = cc
write_content-eq (write w) h q = ap write (ok_inj q)
write_content-eq (non_k8s_write w) h q = cc
write_content-eq (read r) h q = cc
write_content-eq (begin r) h q = cc
write_content-eq (finish r) h q = cc

non_k8s_content-eq :
    (e : Event) (w : ControllerNonK8sWrite) → non_k8s_content e ≡ ok w → e ≡ non_k8s_write w
non_k8s_content-eq (hear x) h q = cc
non_k8s_content-eq (write w) h q = cc
non_k8s_content-eq (non_k8s_write w) h q = ap non_k8s_write (ok_inj q)
non_k8s_content-eq (read r) h q = cc
non_k8s_content-eq (begin r) h q = cc
non_k8s_content-eq (finish r) h q = cc

undiffed-forget : (v : EventVertex) → undiffed_vertex (forget_cancel v) ≡ undiffed_vertex v
undiffed-forget v =
    elim v.content
      as (λ e.
        undiffed_vertex (forget_cancel (record v { content = e }))
        ≡ undiffed_vertex (record v { content = e })) [
          | hear h ↦ refl
          | write w ↦ refl
          | non_k8s_write w ↦ refl
          | read r ↦ refl
          | begin r ↦ refl
          | finish r ↦ refl
        ]

map-undiffed :
    (vs : List EventVertex) → map undiffed_vertex (map forget_cancel vs) ≡ map undiffed_vertex vs
map-undiffed [] = refl
map-undiffed (v ∷ vs) =
    ap (λ u. u ∷ map undiffed_vertex (map forget_cancel vs)) (undiffed-forget v)
    ∙ ap (λ us. undiffed_vertex v ∷ us) (map-undiffed vs)

SameButCancelled-Diffed : (g g' : EventGraph) → SameButCancelled g g' → SameButDiffed g g'
SameButCancelled-Diffed g g' (p, q) =
    (sym (map-undiffed g'.vertices) ∙ ap (map undiffed_vertex) p ∙ map-undiffed g.vertices, q)

module _ (path_match : String → String → Bool) (dumps : Option Fields → String) where
  diff_hear-undiffed :
      (g : EventGraph) (obj : Fields) (etype : String) (h : ControllerHear) (d : Dict ℕ)
      → Ensures
          (λ x. undiffed_hear x.0 ≡ undiffed_hear h)
          (diff_hear path_match dumps g obj etype h d)
  unfolding diff_hear
  diff_hear-undiffed g obj etype h d =
      Ensures-bind (λ (x : ControllerHear × Dict ℕ). undiffed_hear x.0 ≡ undiffed_hear h)
        (retrieve_masked path_match g h.key) _ (λ masks _. refl)

  diff_hears-Same :
      (obj : Fields) (etype : String) (d : Dict ℕ) (gids : List ℕ) (g : EventGraph)
      → Ensures (SameButDiffed g) (diff_hears path_match dumps obj etype d gids g)
  unfolding diff_hears
  diff_hears-Same obj etype d [] g = (refl, refl)
  diff_hears-Same obj etype d (gid ∷ gids) g =
      Ensures-bind (SameButDiffed g) (vertex g gid) _ λ v at.
        Ensures-bind (SameButDiffed g) (hear_content v.content) _ λ h c.
          Ensures-bind (SameButDiffed g) (diff_hear path_match dumps g obj etype h d) _ λ done e.
            let kept =
              Ensures-ok (λ (x : ControllerHear × Dict ℕ). undiffed_hear x.0 ≡ undiffed_hear h)
                (diff_hear path_match dumps g obj etype h d) (diff_hear-undiffed g obj etype h d)
                e in
            Same-then g gid v (hear done.0) _ at
              (ap hear kept ∙ sym (ap undiffed (hear_content-eq v.content h c)))
              (diff_hears-Same h.obj_map h.etype done.1 gids
                (replace_content gid v (hear done.0) g))

  diff_write-undiffed :
      (g : EventGraph) (w : ControllerWrite) (d : Dict ℕ)
      → Ensures (λ x. undiffed_write x.0 ≡ undiffed_write w) (diff_write path_match dumps g w d)
  unfolding diff_write
  diff_write-undiffed g w d =
      let P = λ (x : ControllerWrite × Dict ℕ). undiffed_write x.0 ≡ undiffed_write w in
      Ensures-bind P
        (read_before path_match dumps g w (reads_of path_match dumps g w.key)
          (end, event_none_type))
        _ (λ prev _. Ensures-bind P (retrieve_masked path_match g w.key) _ (λ masks _. refl))

  diff_writes-Same :
      (d : Dict ℕ) (gids : List ℕ) (g : EventGraph)
      → Ensures (SameButDiffed g) (diff_writes path_match dumps d gids g)
  unfolding diff_writes
  diff_writes-Same d [] g = (refl, refl)
  diff_writes-Same d (gid ∷ gids) g = Ensures-bind (SameButDiffed g) (vertex g gid) _ λ v at.
      Ensures-bind (SameButDiffed g) (write_content v.content) _ λ w c.
        Ensures-bind (SameButDiffed g) (diff_write path_match dumps g w d) _ λ done e.
          let kept =
            Ensures-ok (λ (x : ControllerWrite × Dict ℕ). undiffed_write x.0 ≡ undiffed_write w)
              (diff_write path_match dumps g w d) (diff_write-undiffed g w d) e in
          Same-then g gid v (write done.0) _ at
            (ap write kept ∙ sym (ap undiffed (write_content-eq v.content w c)))
            (diff_writes-Same done.1 gids (replace_content gid v (write done.0) g))

  count_calls-Same :
      (d : Dict ℕ) (gids : List ℕ) (g : EventGraph)
      → Ensures (SameButDiffed g) (count_calls path_match dumps d gids g)
  unfolding count_calls
  count_calls-Same d [] g = (refl, refl)
  count_calls-Same d (gid ∷ gids) g = Ensures-bind (SameButDiffed g) (vertex g gid) _ λ v at.
      Ensures-bind (SameButDiffed g) (non_k8s_content v.content) _ λ w c.
        let counted = count_signature (w.recv_type <> ("/" <> w.fun_name)) d in
        let e = non_k8s_write (record w { signature_counter = counted.0 }) in
        Same-then g gid v e _ at (sym (ap undiffed (non_k8s_content-eq v.content w c)))
          (count_calls-Same counted.1 gids (replace_content gid v e g))

  -- A loop over the keys of a dict, each step of which keeps the graph the same.
  Same-bind :
      (g : EventGraph) (m : Result EventGraph) (next : EventGraph → Result EventGraph)
      → Ensures (SameButDiffed g) m
      → ((g' : EventGraph) → Ensures (SameButDiffed g') (next g'))
      → Ensures (SameButDiffed g) (m >>= next)
  Same-bind g m next h k = Ensures-bind (SameButDiffed g) m next λ g₁ e.
      Ensures-map (SameButDiffed g₁) (SameButDiffed g) (next g₁)
        (λ g₂ later. SameButDiffed-trans g g₁ g₂ (Ensures-ok (SameButDiffed g) m h e) later) (k g₁)

  diff_hear_keys-Same :
      (d : Dict (List ℕ)) (g : EventGraph)
      → Ensures (SameButDiffed g) (diff_hear_keys path_match dumps d g)
  unfolding diff_hear_keys
  diff_hear_keys-Same [] g = (refl, refl)
  diff_hear_keys-Same ((key, gids) ∷ d) g =
      Same-bind g (diff_hears path_match dumps end event_none_type [] gids g) _
        (diff_hears-Same end event_none_type [] gids g) (diff_hear_keys-Same d)

  diff_write_keys-Same :
      (d : Dict (List ℕ)) (g : EventGraph)
      → Ensures (SameButDiffed g) (diff_write_keys path_match dumps d g)
  unfolding diff_write_keys
  diff_write_keys-Same [] g = (refl, refl)
  diff_write_keys-Same ((key, gids) ∷ d) g =
      Same-bind g (diff_writes path_match dumps [] gids g) _ (diff_writes-Same [] gids g)
        (diff_write_keys-Same d)

  compute_event_diff-Same :
      (g : EventGraph) → Ensures (SameButDiffed g) (compute_event_diff path_match dumps g)
  unfolding compute_event_diff
  compute_event_diff-Same g =
      Same-bind g (diff_hear_keys path_match dumps g.controller_hear_key_to_vertices g) _
        (diff_hear_keys-Same g.controller_hear_key_to_vertices g)
        λ g₁.
          Same-bind g₁ (diff_write_keys path_match dumps g₁.controller_write_key_to_vertices g₁) _
            (diff_write_keys-Same g₁.controller_write_key_to_vertices g₁)
            λ g₂. count_calls-Same [] g₂.controller_non_k8s_write_vertices g₂

  -- Finalizing a graph, where it returns, changes nothing of it but what it computes for its events:
  -- the differences from the object before, with the type and object that they are from, the counters
  -- of the signatures, and the ids that cancel a hear.
  pub finalize-Same : (g g' : EventGraph) → finalize path_match dumps g ≡ ok g' → SameButDiffed g g'
  unfolding finalize
  finalize-Same g g' = Ensures-ok (SameButDiffed g) (finalize path_match dumps g) (
      Same-bind g (compute_event_diff path_match dumps g) _ (compute_event_diff-Same g)
        λ g₁. cancel_Same g₁)
    where
      cancel_Same :
          (g₁ : EventGraph) → Ensures (SameButDiffed g₁) (compute_event_cancel path_match g₁)
      cancel_Same g₁ =
          elim (compute_event_cancel path_match g₁)
              as (λ r.
                ((g₂ : EventGraph) → r ≡ ok g₂ → SameButCancelled g₁ g₂)
                → Ensures (SameButDiffed g₁) r) [
                  | ok g₂ ↦ λ h. SameButCancelled-Diffed g₁ g₂ (h g₂ refl)
                  | err x ↦ λ h. tt
                ]
            (compute_event_cancel-Same path_match g₁)
