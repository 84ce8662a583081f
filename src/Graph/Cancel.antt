-- ===== src/Graph/Cancel.antt =====
-- `retrieve_masked` and `compute_event_cancel` of sieve_analyzer/event_graph.py: which later hears
-- of an object overwrite what a hear shows. Sets of ids are lists; `path_match` is PurePath.match.
use sieve.Prelude.{
  ℕ, ok_inj, String, ◌≡◌, refl, sym, ap, ◌∙◌, Bool, true, false, List, [], ◌∷◌, ◌++◌, map, Result,
  ok, err, attribute_error, ◌>>=◌, Ensures, Ensures-ok, Ensures-bind, Ensures-map, ℤ, int_eq, set,
  if◌then◌else◌,
}
use sieve.Prelude.Dict.{Dict}
use sieve.Event.Mask.{get_mask_by_resource_key}
use sieve.Event.Records.{ControllerHear}
use sieve.Event.Conflicts.{conflicting_event}
use sieve.Graph.Types.{
  Event, hear, write, non_k8s_write, read, begin, finish, EventVertex, EventGraph, vertex,
}
use sieve.Graph.Shape.{vertex-get_elem?, map-set-same}

-- `cancelled_by.add(id)`
unfoldable pub add_id : ℤ → List ℤ → List ℤ
add_id n [] = n ∷ []
add_id n (m ∷ ids) = let rest = add_id n ids in if int_eq m n then m ∷ ids else m ∷ rest

abbrev pub hear_content : Event → Result ControllerHear
hear_content (hear h) = ok h
hear_content _ = err attribute_error

abbrev pub cancelled : List ℤ → ControllerHear → ControllerHear
cancelled ids h = record h { cancelled_by = ids }

abbrev pub replace_hear : ℕ → EventVertex → ControllerHear → EventGraph → EventGraph
replace_hear gid v h g = record g { vertices = set g.vertices gid (record v { content = hear h }) }

module _ (path_match : String → String → Bool) where
  -- The masked keys and the masked paths of a resource.
  unfoldable pub retrieve_masked : EventGraph → String → Result (List String × List String)
  unfolding get_mask_by_resource_key
  retrieve_masked g resource_key = do
    keys ← get_mask_by_resource_key path_match g.configured_masked_keys resource_key
    configured ← get_mask_by_resource_key path_match g.configured_masked_paths resource_key
    learned ← get_mask_by_resource_key path_match g.learned_masked_paths resource_key
    ok (keys, configured ++ learned)

  -- Every later hear cancels the first one of a key.
  unfoldable pub cancels : EventGraph → Bool → ControllerHear → ControllerHear → Result Bool
  unfolding retrieve_masked conflicting_event
  cancels g true cur future = ok true
  cancels g false cur future = do
    masks ← retrieve_masked g cur.key
    ok (conflicting_event cur future masks.0 masks.1)

  -- The inner loop, over the gids of the later hears.
  unfoldable pub cancelling : EventGraph → Bool → ControllerHear → List ℕ → Result (List ℤ)
  unfolding vertex cancels add_id
  cancelling g first cur [] = ok []
  cancelling g first cur (gid ∷ gids) = do
    v ← vertex g gid
    future ← hear_content v.content
    hit ← cancels g first cur future
    rest ← cancelling g first cur gids
    ok (if hit then add_id future.id rest else rest)

  -- The loop over the hears of a key but the last.
  unfoldable pub cancel_key : Bool → List ℕ → EventGraph → Result EventGraph
  unfolding vertex cancelling
  cancel_key first [] g = ok g
  cancel_key first (gid ∷ []) g = ok g
  cancel_key first (gid ∷ later ∷ gids) g = do
    v ← vertex g gid
    cur ← hear_content v.content
    ids ← cancelling g first cur (later ∷ gids)
    cancel_key false (later ∷ gids) (replace_hear gid v (cancelled ids cur) g)

  unfoldable pub cancel_keys : Dict (List ℕ) → EventGraph → Result EventGraph
  unfolding cancel_key
  cancel_keys [] g = ok g
  cancel_keys ((key, gids) ∷ d) g = do g' ← cancel_key true gids g; cancel_keys d g'

  unfoldable pub compute_event_cancel : EventGraph → Result EventGraph
  unfolding cancel_keys
  compute_event_cancel g = cancel_keys g.controller_hear_key_to_vertices g

-- An event without what the loops compute.
abbrev pub forget_event : Event → Event
forget_event (hear h) = hear (cancelled [] h)
forget_event e = e

abbrev pub forget_cancel : EventVertex → EventVertex
forget_cancel v = record v { content = forget_event v.content }

-- The two graphs differ only in what cancels their hears.
abbrev pub SameButCancelled : EventGraph → EventGraph → Type 0
SameButCancelled g g' =
    (map forget_cancel g'.vertices ≡ map forget_cancel g.vertices)
    × (record g' { vertices = [] } ≡ record g { vertices = [] })

forget_event-cancelled :
    (e : Event) (cur : ControllerHear) (ids : List ℤ)
    → hear_content e ≡ ok cur
    → forget_event (hear (cancelled ids cur)) ≡ forget_event e
forget_event-cancelled (hear h) cur ids k = ap (λ x. hear (cancelled [] x)) (sym (ok_inj k))
forget_event-cancelled (write w) cur ids k = cc
forget_event-cancelled (non_k8s_write w) cur ids k = cc
forget_event-cancelled (read r) cur ids k = cc
forget_event-cancelled (begin r) cur ids k = cc
forget_event-cancelled (finish r) cur ids k = cc

module _ (path_match : String → String → Bool) where
  cancel_key-Same :
      (first : Bool) (gids : List ℕ) (g : EventGraph)
      → Ensures (SameButCancelled g) (cancel_key path_match first gids g)
  unfolding cancel_key
  cancel_key-Same first [] g = (refl, refl)
  cancel_key-Same first (gid ∷ []) g = (refl, refl)
  cancel_key-Same first (gid ∷ later ∷ gids) g =
      Ensures-bind (SameButCancelled g) (vertex g gid) _ λ v e.
        Ensures-bind (SameButCancelled g) (hear_content v.content) _ λ cur c.
          Ensures-bind (SameButCancelled g) (cancelling path_match g first cur (later ∷ gids)) _
            λ ids _.
              let g₁ = replace_hear gid v (cancelled ids cur) g in
              Ensures-map (SameButCancelled g₁) (SameButCancelled g)
                (cancel_key path_match false (later ∷ gids) g₁)
                (λ g₂ (p, q). (
                  p
                      ∙ map-set-same forget_cancel g.vertices gid v _ (vertex-get_elem? g gid e) (
                          ap (λ x. record v { content = x })
                            (forget_event-cancelled v.content cur ids c)),
                  q,
                ))
                (cancel_key-Same false (later ∷ gids) g₁)

  cancel_keys-Same :
      (d : Dict (List ℕ)) (g : EventGraph)
      → Ensures (SameButCancelled g) (cancel_keys path_match d g)
  unfolding cancel_keys
  cancel_keys-Same [] g = (refl, refl)
  cancel_keys-Same ((key, gids) ∷ d) g =
      Ensures-bind (SameButCancelled g) (cancel_key path_match true gids g) _ λ g₁ e.
        let (p, q) =
          Ensures-ok (SameButCancelled g) (cancel_key path_match true gids g)
            (cancel_key-Same true gids g) e in
        Ensures-map (SameButCancelled g₁) (SameButCancelled g) (cancel_keys path_match d g₁)
          (λ g₂ (r, s). (r ∙ p, s ∙ q)) (cancel_keys-Same d g₁)

  -- Computing the cancelled events, where it returns, changes nothing of a graph but the sets of ids
  -- that cancel its hears.
  pub compute_event_cancel-Same :
      (g g' : EventGraph) → compute_event_cancel path_match g ≡ ok g' → SameButCancelled g g'
  unfolding compute_event_cancel
  compute_event_cancel-Same g g' =
      Ensures-ok (SameButCancelled g) (compute_event_cancel path_match g)
        (cancel_keys-Same g.controller_hear_key_to_vertices g)
