-- ===== src/Oracle/StateMask.antt =====
-- `generate_state_mask` of sieve_oracle/liveness_checker.py with its helper, which collects the paths
-- of the masked values of an object in a list that it is given. A path that is already in it stays.
pub mod Paths
use sieve.Prelude.{
  String, ◌==◌, Bool, true, false, ◌&&◌, ◌||◌, List, [], ◌∷◌, ◌++◌, Result, ok, err, index_error,
  ◌>>=◌, contains, if◌then◌else◌, lower_first, text_le, map,
}
use sieve.Prelude.Dict.{Dict, insert}
use sieve.Json.{
  Value, null, bool, num, str, list, dict, Items, nil, cons, Fields, end, field, is_str,
}
use sieve.Common.{sieve_learn_value_mask}
use sieve.Oracle.Masks.{metadata_fields}

-- `mask == path`
unfoldable pub path_eq : List String → List String → Bool
path_eq [] [] = true
path_eq (j ∷ p) (k ∷ q) = j == k && path_eq p q
path_eq _ _ = false

unfoldable pub already_in : List String → List (List String) → Bool
unfolding path_eq
already_in path [] = false
already_in path (mask ∷ mask_list) = path_eq mask path || already_in path mask_list

unfoldable pub add_path : List String → List (List String) → List (List String)
unfolding already_in
add_path path mask_list = if already_in path mask_list then mask_list else mask_list ++ (path ∷ [])

unfoldable mutual
  unfolding add_path

  pub generate_state_mask_helper : List (List String) → Value → List String → List (List String)
  generate_state_mask_helper mask_list (str s) path =
      if s == sieve_learn_value_mask then add_path path mask_list else mask_list
  generate_state_mask_helper mask_list (list xs) path = mask_items mask_list xs path
  generate_state_mask_helper mask_list (dict d) path = mask_fields mask_list d path
  generate_state_mask_helper mask_list null path = mask_list
  generate_state_mask_helper mask_list (bool b) path = mask_list
  generate_state_mask_helper mask_list (num n) path = mask_list

  pub mask_items : List (List String) → Items → List String → List (List String)
  mask_items mask_list nil path = mask_list
  mask_items mask_list (cons x xs) path =
      mask_items (generate_state_mask_helper mask_list x (path ++ ("*" ∷ []))) xs path

  pub mask_fields : List (List String) → Fields → List String → List (List String)
  mask_fields mask_list end path = mask_list
  mask_fields mask_list (field key v d) path =
      mask_fields (generate_state_mask_helper mask_list v (path ++ (key ∷ []))) d path

-- A path in the shape of the controller's objects.
unfoldable pub controller_path : List String → Result (List String)
unfolding contains lower_first
controller_path [] = err index_error
controller_path (first ∷ path) = ok (
    if contains first metadata_fields
    then "metadata" ∷ first ∷ path
    else map lower_first (first ∷ path))

-- `translated_mask_list.sort()`
unfoldable pub path_le : List String → List String → Bool
path_le [] q = true
path_le (j ∷ p) [] = false
path_le (j ∷ p) (k ∷ q) = let rest = path_le p q in if j == k then rest else text_le j k

unfoldable pub insert_path : List String → List (List String) → List (List String)
unfolding path_le
insert_path path [] = path ∷ []
insert_path path (q ∷ paths) =
    let rest = insert_path path paths in if path_le path q then path ∷ q ∷ paths else q ∷ rest

unfoldable pub translated_mask_list : List (List String) → Result (List (List String))
unfolding controller_path insert_path
translated_mask_list [] = ok []
translated_mask_list (path ∷ mask_list) = do
  path' ← controller_path path
  rest ← translated_mask_list mask_list
  ok (insert_path path' rest)

unfoldable pub mask_keys : Fields → Dict (List (List String)) → Result (Dict (List (List String)))
unfolding generate_state_mask_helper translated_mask_list insert
mask_keys end mask_map = ok mask_map
mask_keys (field key v state) mask_map =
    if is_str sieve_learn_value_mask v then mask_keys state mask_map else (do
      mask_list ← translated_mask_list (generate_state_mask_helper [] v [])
      mask_keys state (insert key mask_list mask_map))

unfoldable pub generate_state_mask : Fields → Result (Dict (List (List String)))
unfolding mask_keys
generate_state_mask state = mask_keys state []
