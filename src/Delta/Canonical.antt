-- ===== src/Delta/Canonical.antt =====
-- The masking of sieve_common/event_delta.py, which rewrites an object in place: here a function
-- returns the object that it leaves. Sets of texts are lists.
use sieve.Prelude.{
  String, ◌<>◌, ◌==◌, List, contains, ◌||◌, if◌then◌else◌, starts_with, ends_with_code,
}
use sieve.Json.{Value, null, bool, num, str, list, dict, Items, nil, cons, Fields, end, field}
use sieve.Common.{sieve_value_mask, match_mask_regex}

-- `os.path.join(parent, name)`
unfoldable pub path_join : String → String → String
path_join parent name =
    if starts_with name "/"
    then name
    else if parent == "" || ends_with_code b'/' parent
    then parent <> name
    else parent <> ("/" <> name)

unfoldable pub canonicalize_value : String → String
canonicalize_value value = if match_mask_regex value then sieve_value_mask else value

module _ (masked_keys masked_paths : List String) where
  unfoldable mutual
    unfolding path_join canonicalize_value contains

    -- An element or a key's value that is not masked itself.
    pub canonicalize_below : Value → String → Value
    canonicalize_below (list xs) path = list (canonicalize_event_as_list xs path)
    canonicalize_below (dict d) path = dict (canonicalize_event_as_map d path)
    canonicalize_below (str s) path = str (canonicalize_value s)
    canonicalize_below null path = null
    canonicalize_below (bool b) path = bool b
    canonicalize_below (num n) path = num n

    pub canonicalize_event_as_list : Items → String → Items
    canonicalize_event_as_list nil parent = nil
    canonicalize_event_as_list (cons x xs) parent =
        let current = path_join parent "*" in
        let below = canonicalize_below x current in
        cons (if contains current masked_paths then str sieve_value_mask else below)
          (canonicalize_event_as_list xs parent)

    pub canonicalize_event_as_map : Fields → String → Fields
    canonicalize_event_as_map end parent = end
    canonicalize_event_as_map (field key v d) parent =
        let current = path_join parent key in
        let below = canonicalize_below v current in
        field key
          (if contains key masked_keys || contains current masked_paths
            then str sieve_value_mask
            else below)
          (canonicalize_event_as_map d parent)

  unfoldable pub canonicalize_event : Fields → Fields
  unfolding canonicalize_event_as_map
  canonicalize_event event = canonicalize_event_as_map event ""
