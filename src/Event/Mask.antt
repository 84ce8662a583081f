-- ===== src/Event/Mask.antt =====
-- `get_mask_by_resource_key` of sieve_common/k8s_event.py. `PurePath(path).match(pattern)` is the
-- parameter `path_match`, which takes the path and then the pattern.
use sieve.Prelude.{
  String, ◌<>◌, Bool, ◌==◌, ◌||◌, List, [], ◌∷◌, ◌++◌, Result, ok, err, assertion_error, ◌>>=◌,
  join, if◌then◌else◌,
}

-- The paths of fields that a pattern of resource keys masks.
abbrev pub MaskMap : Type 0
MaskMap = List (String × List (List String))

-- A single field is its own text, as `join` gives it; an empty list fails the assertion.
unfoldable pub mask_texts : List (List String) → Result (List String)
unfolding join
mask_texts [] = ok []
mask_texts ([] ∷ rest) = err assertion_error
mask_texts ((f ∷ fs) ∷ rest) = do texts ← mask_texts rest; ok (join "/" (f ∷ fs) ∷ texts)

module _ (path_match : String → String → Bool) where
  abbrev pub key_matches : String → String → Bool
  key_matches resource_key pattern =
      pattern == resource_key || path_match ("/" <> resource_key) ("/" <> pattern)

  unfoldable pub get_mask_by_resource_key : MaskMap → String → Result (List String)
  unfolding mask_texts
  get_mask_by_resource_key [] resource_key = ok []
  get_mask_by_resource_key ((key, paths) ∷ m) resource_key =
      let rest = get_mask_by_resource_key m resource_key in
      if key_matches resource_key key
      then (do texts ← mask_texts paths; more ← rest; ok (texts ++ more))
      else rest
