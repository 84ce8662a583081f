-- ===== src/Delta/Masking.antt =====
-- Masking and the keys of dicts; the values are in Paths.
pub mod Paths
use mathlib.Core.Path.{ap₂}
use sieve.Prelude.{
  String, ◌≡◌, refl, ap, ◌∙◌, Bool, true, false, ◌||◌, List, contains, arith, if◌then◌else◌,
}
use sieve.Json.{Value, null, bool, num, str, list, dict, Items, nil, cons, Fields, end, field, has}
use sieve.Json.Unique.{IsUnique, UniqueItems, UniqueFields}
use sieve.Common.{sieve_value_mask}
use sieve.Delta.Canonical.{
  path_join, canonicalize_value, canonicalize_below, canonicalize_event_as_list,
  canonicalize_event_as_map, canonicalize_event,
}

abbrev mask : Value
mask = str sieve_value_mask

IsUnique-if : (test : Bool) (v : Value) → IsUnique v → IsUnique (if test then mask else v)
IsUnique-if true v u = tt
IsUnique-if false v u = u

module _ (masked_keys masked_paths : List String) where
  abbrev pub is_masked : String → String → Bool
  is_masked key current = contains key masked_keys || contains current masked_paths

  has-canonicalize :
      (k : String) (d : Fields) (path : String)
      → has k (canonicalize_event_as_map masked_keys masked_paths d path) ≡ has k d
  unfolding has canonicalize_event_as_map
  has-canonicalize k end path = refl
  has-canonicalize k (field j v d) path = ground (arith, has-canonicalize k d path)

  mutual
    unfolding canonicalize_below

    canonicalize_below-IsUnique :
        (v : Value) (path : String)
        → IsUnique v
        → IsUnique (canonicalize_below masked_keys masked_paths v path)
    canonicalize_below-IsUnique (list xs) path u = canonicalize_event_as_list-Unique xs path u
    canonicalize_below-IsUnique (dict d) path u = canonicalize_event_as_map-Unique d path u
    canonicalize_below-IsUnique (str s) path u = tt
    canonicalize_below-IsUnique null path u = tt
    canonicalize_below-IsUnique (bool b) path u = tt
    canonicalize_below-IsUnique (num n) path u = tt

    canonicalize_event_as_list-Unique :
        (xs : Items) (path : String)
        → UniqueItems xs
        → UniqueItems (canonicalize_event_as_list masked_keys masked_paths xs path)
    canonicalize_event_as_list-Unique nil path u = tt
    canonicalize_event_as_list-Unique (cons x xs) path u = (
      IsUnique-if (contains (path_join path "*") masked_paths) _
          (canonicalize_below-IsUnique x (path_join path "*") u.0),
      canonicalize_event_as_list-Unique xs path u.1,
    )

    canonicalize_event_as_map-Unique :
        (d : Fields) (path : String)
        → UniqueFields d
        → UniqueFields (canonicalize_event_as_map masked_keys masked_paths d path)
    canonicalize_event_as_map-Unique end path u = tt
    canonicalize_event_as_map-Unique (field k v d) path u = (
      has-canonicalize k d path ∙ u.0,
      IsUnique-if (is_masked k (path_join path k)) _
          (canonicalize_below-IsUnique v (path_join path k) u.1),
      canonicalize_event_as_map-Unique d path u.2,
    )

  -- If the dicts of an object hold each key once, at every depth, so do those of the masked object.
  pub canonicalize_event-Unique :
      (d : Fields) → UniqueFields d → UniqueFields (canonicalize_event masked_keys masked_paths d)
  unfolding canonicalize_event
  canonicalize_event-Unique d u = canonicalize_event_as_map-Unique d "" u
