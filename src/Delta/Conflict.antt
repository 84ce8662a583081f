-- ===== src/Delta/Conflict.antt =====
-- What masking hides, and that an event does not conflict with what it shows itself.
use mathlib.Core.Path.{ap₂}
use sieve.Prelude.{
  String, ◌≡◌, refl, ap, ◌∙◌, subst, ◌⊎◌, inl, inr, Bool, true, false, not, List, contains, none,
  some, if◌then◌else◌,
}
use sieve.Json.{Value, str, list, dict, Items, nil, cons, Fields, end, field, same}
use sieve.Json.Unique.{UniqueFields}
use sieve.Json.Same.{same_refl}
use sieve.Common.{sieve_value_mask}
use sieve.Delta.Canonical.{
  path_join, canonicalize_value, canonicalize_below, canonicalize_event_as_list,
  canonicalize_event_as_map, canonicalize_event,
}
use sieve.Delta.Part.{diff_event, conflicting_event_payload}
use sieve.Delta.Same.{diff_event_as_map-none}
use sieve.Delta.Parts.{diff_event_as_map-parts}
use sieve.Delta.Masking.{is_masked, canonicalize_event-Unique}

module _ (masked_keys masked_paths : List String) where
  -- Two values that differ only in texts which are masked, at keys and paths that are masked.
  abbrev mutual
    pub Agree : Value → Value → String → Type 0
    Agree (list xs) (list ys) path = AgreeItems xs ys path
    Agree (dict c) (dict d) path = AgreeFields c d path
    Agree (str s) (str t) path = canonicalize_value s ≡ canonicalize_value t
    Agree v w path = v ≡ w

    pub AgreeItems : Items → Items → String → Type 0
    AgreeItems nil nil path = Unit
    AgreeItems (cons x xs) (cons y ys) path =
        ((contains (path_join path "*") masked_paths ≡ true) ⊎ Agree x y (path_join path "*"))
        × AgreeItems xs ys path
    AgreeItems _ _ path = ⊥

    pub AgreeFields : Fields → Fields → String → Type 0
    AgreeFields end end path = Unit
    AgreeFields (field k v c) (field j w d) path =
        (k ≡ j)
        × ((is_masked masked_keys masked_paths k (path_join path k) ≡ true)
            ⊎ Agree v w (path_join path k))
        × AgreeFields c d path
    AgreeFields _ _ path = ⊥

  masked_same :
      (test : Bool) (v w : Value)
      → (test ≡ true) ⊎ (v ≡ w)
      → (if test then str sieve_value_mask else v) ≡ (if test then str sieve_value_mask else w)
  masked_same true v w h = refl
  masked_same false v w (inl e) = cc
  masked_same false v w (inr e) = e

  -- What masking leaves at a key.
  abbrev entry : String → String → Value → Value
  entry k path v =
      if is_masked masked_keys masked_paths k (path_join path k)
      then str sieve_value_mask
      else canonicalize_below masked_keys masked_paths v (path_join path k)

  field_step :
      (k j path : String) (v w : Value) (c d : Fields)
      → k ≡ j
      → entry k path v ≡ entry k path w
      → c ≡ d
      → field k (entry k path v) c ≡ field j (entry j path w) d
  field_step k j path v w c d e h r = ap₂ (field k) h r ∙ ap (λ i. field i (entry i path w) d) e

  mutual
    unfolding canonicalize_below

    canonicalize_below-Agree :
        (v w : Value) (path : String)
        → Agree v w path
        → canonicalize_below masked_keys masked_paths v path
          ≡ canonicalize_below masked_keys masked_paths w path
    canonicalize_below-Agree (list xs) (list ys) path h =
        ap list (canonicalize_event_as_list-Agree xs ys path h)
    canonicalize_below-Agree (dict c) (dict d) path h =
        ap dict (canonicalize_event_as_map-Agree c d path h)
    canonicalize_below-Agree (str s) (str t) path h = ap str h
    canonicalize_below-Agree v w path h =
        ap (λ u. canonicalize_below masked_keys masked_paths u path) h

    canonicalize_event_as_list-Agree :
        (xs ys : Items) (path : String)
        → AgreeItems xs ys path
        → canonicalize_event_as_list masked_keys masked_paths xs path
          ≡ canonicalize_event_as_list masked_keys masked_paths ys path
    canonicalize_event_as_list-Agree nil nil path h = refl
    canonicalize_event_as_list-Agree nil (cons y ys) path h = elim h [ ]
    canonicalize_event_as_list-Agree (cons x xs) nil path h = elim h [ ]
    canonicalize_event_as_list-Agree (cons x xs) (cons y ys) path (inl e, r) =
        ap₂ cons (masked_same (contains (path_join path "*") masked_paths) _ _ (inl e))
          (canonicalize_event_as_list-Agree xs ys path r)
    canonicalize_event_as_list-Agree (cons x xs) (cons y ys) path (inr a, r) =
        ap₂ cons
          (masked_same (contains (path_join path "*") masked_paths) _ _
            (inr (canonicalize_below-Agree x y (path_join path "*") a)))
          (canonicalize_event_as_list-Agree xs ys path r)

    canonicalize_event_as_map-Agree :
        (c d : Fields) (path : String)
        → AgreeFields c d path
        → canonicalize_event_as_map masked_keys masked_paths c path
          ≡ canonicalize_event_as_map masked_keys masked_paths d path
    canonicalize_event_as_map-Agree end end path h = refl
    canonicalize_event_as_map-Agree end (field k v d) path h = elim h [ ]
    canonicalize_event_as_map-Agree (field k v c) end path h = elim h [ ]
    canonicalize_event_as_map-Agree (field k v c) (field j w d) path (e, inl m, r) =
        field_step k j path v w _ _ e
          (masked_same (is_masked masked_keys masked_paths k (path_join path k)) _ _ (inl m))
          (canonicalize_event_as_map-Agree c d path r)
    canonicalize_event_as_map-Agree (field k v c) (field j w d) path (e, inr a, r) =
        field_step k j path v w _ _ e
          (masked_same (is_masked masked_keys masked_paths k (path_join path k)) _ _
            (inr (canonicalize_below-Agree v w (path_join path k) a)))
          (canonicalize_event_as_map-Agree c d path r)

-- Two objects with the same keys in the same order, which agree but for what is masked, have no
-- difference under these masks, if the dicts of the first hold each key once, at every depth.
pub diff_event-Agree :
    (masked_keys masked_paths : List String) (prev cur : Fields)
    → UniqueFields prev
    → AgreeFields masked_keys masked_paths prev cur ""
    → diff_event prev cur masked_keys masked_paths false true ≡ none
unfolding diff_event
diff_event-Agree masked_keys masked_paths prev cur u a = (diff_event_as_map-none _ _).1 (
    subst (λ d. same (dict (canonicalize_event masked_keys masked_paths prev)) (dict d) ≡ true)
      (unfold canonicalize_event in
        canonicalize_event_as_map-Agree masked_keys masked_paths prev cur "" a)
      (same_refl (dict (canonicalize_event masked_keys masked_paths prev))
        (canonicalize_event-Unique masked_keys masked_paths prev u)))

-- For objects whose dicts hold each key once, at every depth: an event does not conflict with the
-- current half of its own difference from any earlier object, under the same masks.
pub conflicting_event_payload-diff_event :
    (masked_keys masked_paths : List String) (prev cur a b : Fields)
    → UniqueFields prev
    → UniqueFields cur
    → diff_event prev cur masked_keys masked_paths false true ≡ some (a, b)
    → conflicting_event_payload (some b) cur masked_keys masked_paths ≡ false
unfolding diff_event conflicting_event_payload
conflicting_event_payload-diff_event masked_keys masked_paths prev cur a b u t e =
    ap not
      (diff_event_as_map-parts _ _ a b (canonicalize_event-Unique masked_keys masked_paths prev u)
        (canonicalize_event-Unique masked_keys masked_paths cur t) e).1
